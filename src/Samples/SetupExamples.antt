-- ===== src/Samples/SetupExamples.antt =====
-- The initialisation of identities in the small world.
use ubirch_cose_client_go.Prelude.{
  ℕ, zero, suc, ◌≡◌, ◌↔◌, refl, some, [], ◌∷◌, ◌++◌, nat_eq, bytes_eq,
}
use ubirch_cose_client_go.Dict.{insert}
use ubirch_cose_client_go.Errors.{Error, text, codes, ok, err, error_text}
use ubirch_cose_client_go.Protocol.{
  new_protocol, retry, start_transaction, close_transaction, store_new_identity,
  check_identity_attributes_not_nil,
}
use ubirch_cose_client_go.IdentityHandler.{
  IdentityHandler, Backend, Setup, register_public_key, create_in, in_transaction, init_identity,
  init_identities,
}
use ubirch_cose_client_go.IdentityHandler.Created.{
  Created, Logged, Inits, init_identity-Created, init_identities-Inits,
}
use ubirch_cose_client_go.IdentityHandler.Atomic.{IsCommittedOnly, init_identity_failed}
use ubirch_cose_client_go.Samples.{World, env, identity, world, with_connection}

abbrev pub handler : IdentityHandler
handler = record { subject_country = codes "DE"; subject_organization = codes "ubirch GmbH" }

-- A backend that takes every key, and one that takes none.
abbrev pub backend : Backend World (Unit {0})
backend = record {
  submit_key_registration = λ uid registration auth w. (ok tt, w);
  submit_csr = λ uid csr w. (ok tt, w);
  cancel = λ tx w. record w { staged = [] };
}

abbrev refusing : Backend World (Unit {0})
refusing = record backend {
  submit_key_registration = λ uid registration auth w. (err (text []), w);
}

abbrev nothing_stored : World
nothing_stored = record { rows = []; staged = []; busy = 0 }

abbrev pub start : Setup World
start = record { protocol = new_protocol nothing_stored; created = []; started = [] }

abbrev finished : Setup World
finished = record {
  protocol = record (start.protocol) { world = world };
  created = 3 ∷ [];
  started = (3, 3 ∷ 5 ∷ []) ∷ [];
}

initialized : init_identity env backend handler 3 (7 ∷ []) start ≡ (ok (3 ∷ 5 ∷ []), finished)
unfolding init_identity in_transaction start_transaction retry create_in store_new_identity
    check_identity_attributes_not_nil register_public_key close_transaction insert new_protocol
initialized = refl

init_identity-Created_example :
    Created env backend handler 3 (7 ∷ []) (3 ∷ 5 ∷ []) nothing_stored world
    × Logged env backend handler 3 (3 ∷ 5 ∷ []) start finished
unfolding new_protocol
init_identity-Created_example =
    init_identity-Created env backend handler 3 (7 ∷ []) (3 ∷ 5 ∷ []) start finished initialized

init_identities-Inits_example :
    (init_identities env backend handler (identity ∷ []) start ≡ (ok tt, finished))
    ↔ Inits env backend handler (identity ∷ []) start finished
init_identities-Inits_example =
    init_identities-Inits env backend handler (identity ∷ []) start finished

-- No identity is in the database.
abbrev IsEmpty : World → Type 0
IsEmpty w = w.rows ≡ []

start-Keeps :
    (n : ℕ) (w : World) → IsEmpty w → IsEmpty (with_connection (λ v. (ok (some (tt {0})), v)) w n).1
start-Keeps zero w inv = inv
start-Keeps (suc n) w inv = inv

committed_only : IsCommittedOnly env refusing IsEmpty
committed_only = record {
  generate = λ w inv. inv;
  start = λ w inv. start-Keeps w.busy w inv;
  encrypt = λ key w inv. inv;
  store = λ tx id w inv. inv;
  sign = λ key uid w inv. inv;
  request = λ key uid country organization w inv. inv;
  submit = λ uid registration auth w inv. inv;
  cancel = λ tx w inv. inv;
  failed_commit = λ tx x w w' inv h. cc h;
}

abbrev refused : Error
refused = text (
    codes "key registration for UUID "
    ++ (3 ∷ [])
    ++ codes " failed"
    ++ codes ": "
    ++ error_text (text []))

init_refused : init_identity env refusing handler 3 (7 ∷ []) start ≡ (err refused, start)
unfolding init_identity in_transaction start_transaction retry create_in store_new_identity
    check_identity_attributes_not_nil register_public_key new_protocol
init_refused = refl

init_identity_failed_example : IsEmpty start.protocol.world × (start.created ≡ start.created)
unfolding new_protocol
init_identity_failed_example =
    init_identity_failed env refusing handler IsEmpty committed_only 3 (7 ∷ []) refused start start
      refl init_refused
