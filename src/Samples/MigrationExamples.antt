-- ===== src/Samples/MigrationExamples.antt =====
-- Migrations in the small world: of one identity, and of one that lacks a token behind another.
use ubirch_cose_client_go.Prelude.{
  ℕ, zero, suc, ◌≡◌, refl, Option, some, [], ◌∷◌, ◌++◌, Bytes, nat_eq,
}
use ubirch_cose_client_go.Dict.{lookup, insert}
use ubirch_cose_client_go.Errors.{text, codes, Result, ok, err}
use ubirch_cose_client_go.Context.{Uuid, Identity}
use ubirch_cose_client_go.Migration.{
  check_attributes, migrate_identity, migrate_all, migrate_identities,
}
use ubirch_cose_client_go.Migration.Atomic.{
  IsCommittedOnly, Stored, migrate_identities-Stored, migrate_identities_failed,
}
use ubirch_cose_client_go.Samples.{World, manager, stored, world, row, with_connection}

abbrev cancel : Option (Unit {0}) → World → World
cancel tx w = record w { staged = [] }

abbrev uuid_string : Uuid → Bytes
uuid_string uid = uid ∷ []

abbrev nothing : World
nothing = record { rows = []; staged = []; busy = 0 }

migrated : migrate_identities manager uuid_string cancel (stored ∷ []) nothing ≡ (ok tt, world)
unfolding migrate_identities migrate_all migrate_identity check_attributes lookup insert
migrated = refl

migrate_identities-Stored_example :
    (tx : Option (Unit {0})) × (w1 : World) × (w2 : World) × (manager.start_transaction nothing
      ≡ (ok tx, w1))
    × Stored manager uuid_string cancel tx (stored ∷ []) w1 w2
    × (world ≡ cancel tx w2)
migrate_identities-Stored_example =
    migrate_identities-Stored manager uuid_string cancel (stored ∷ []) nothing world migrated

abbrev no_token : Identity
no_token = record stored { uid = 4; auth_token = [] }

abbrev IsEmpty : World → Type 0
IsEmpty w = w.rows ≡ []

connected-IsEmpty :
    {A : Type 0} (f : World → Result A) (n : ℕ) (w : World)
    → IsEmpty w
    → IsEmpty (with_connection (λ v. (f v, v)) w n).1
connected-IsEmpty f zero w inv = inv
connected-IsEmpty f (suc n) w inv = inv

committed_only : IsCommittedOnly manager cancel IsEmpty
committed_only = record {
  start = λ w inv. connected-IsEmpty (λ v. ok (some tt)) w.busy w inv;
  get = λ uid w inv. connected-IsEmpty (λ v. row uid v.rows) w.busy w inv;
  store = λ tx id w inv. inv;
  cancels = λ tx w inv. inv;
  failed_commit = λ tx x w w' inv h. cc h;
}

refused :
    migrate_identities manager uuid_string cancel (stored ∷ no_token ∷ []) nothing
    ≡ (err (text ((4 ∷ []) ++ codes ": empty auth token")), nothing)
unfolding migrate_identities migrate_all migrate_identity check_attributes lookup
refused = refl

migrate_identities_failed_example : IsEmpty nothing
migrate_identities_failed_example =
    migrate_identities_failed manager uuid_string cancel IsEmpty committed_only
      (stored ∷ no_token ∷ []) (text ((4 ∷ []) ++ codes ": empty auth token")) nothing nothing refl
      refused
