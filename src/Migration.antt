-- ===== src/Migration.antt =====
-- `migrateIdentities` of migrator.go: identities with their keys are copied into the database.
pub mod Atomic
pub mod Named
pub mod FileToDb
use ubirch_cose_client_go.Prelude.{
  String, Option, none, some, List, [], ◌∷◌, ◌++◌, Bytes, length, ◌==◌, nat_eq, if◌then◌else◌,
}
use ubirch_cose_client_go.Errors.{
  Error, not_exist, text, codes, Result, ok, err, Exec, pure, fail, lift, ◌>>=◌, ◌>>◌,
}
use ubirch_cose_client_go.Context.{Uuid, Identity, ContextManager, commit}

module _ {W Tx : Type 0} (dm : ContextManager W Tx) (uuid_string : Uuid → Bytes)
    (cancel : Option Tx → W → W) where
  -- The answer of `GetIdentity`: any error but `ErrNotExist` is returned, and an identity that is
  -- found is only warned about.
  abbrev pub tolerated : Result Identity → Result (Unit {0})
  tolerated (ok id) = ok tt
  tolerated (err not_exist) = ok tt
  tolerated (err x) = err x

  unfoldable pub check_attributes : Identity → Result (Unit {0})
  check_attributes id =
      if length id.private_key == 0
      then err (text (uuid_string id.uid ++ codes ": empty private key"))
      else if length id.public_key == 0
      then err (text (uuid_string id.uid ++ codes ": empty public key"))
      else if length id.auth_token == 0
      then err (text (uuid_string id.uid ++ codes ": empty auth token"))
      else ok tt

  -- the body of the loop
  unfoldable pub migrate_identity : Option Tx → Identity → Exec W (Unit {0})
  migrate_identity tx id = do
    (λ w. let (r, w') = dm.get_identity id.uid w in (tolerated r, w'))
    lift (check_attributes id)
    dm.store_new_identity tx id

  -- the loop, and the commit behind it
  unfoldable pub migrate_all : Option Tx → List Identity → Exec W (Unit {0})
  migrate_all tx [] = dm.close_transaction tx commit
  migrate_all tx (id ∷ identities) = do migrate_identity tx id; migrate_all tx identities

  -- `defer cancel()`
  abbrev pub cancelled : {A : Type 0} → Option Tx → Result A × W → Result A × W
  cancelled tx (r, w) = (r, cancel tx w)

  abbrev pub in_transaction : List Identity → Result (Option Tx) × W → Result (Unit {0}) × W
  in_transaction identities (err x, w) = cancelled none (err x, w)
  in_transaction identities (ok tx, w) = cancelled tx (migrate_all tx identities w)

  unfoldable pub migrate_identities : List Identity → Exec W (Unit {0})
  migrate_identities identities w = in_transaction identities (dm.start_transaction w)
