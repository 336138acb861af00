-- ===== src/IdentityHandler/Steps.antt =====
-- `initIdentity` of identity_handler.go as a goroutine: each call of the database, of the key
-- registration, of random numbers and of the audit log is a step of its own.
pub mod Alone
pub mod Rely
pub mod Kept
pub mod Created
pub mod Parallel
use ubirch_cose_client_go.Prelude.{String, Bool, Option, none, some, List, [], ◌∷◌, ◌++◌, Bytes}
use ubirch_cose_client_go.Errors.{text, error_text, codes, Result, ok, err, Exec}
use ubirch_cose_client_go.Context.{Uuid, Identity, commit}
use ubirch_cose_client_go.Libs.{Env}
use ubirch_cose_client_go.Protocol.{
  Protocol, max_db_conn_attempts, close_transaction, check_identity_attributes_not_nil,
}
use ubirch_cose_client_go.Threads.{Thread, returned, next, acting, calling, and_then, focus}
use ubirch_cose_client_go.Protocol.Steps.{retry_steps}
use ubirch_cose_client_go.IdentityHandler.{
  IdentityHandler, Backend, Setup, on_outside, about, explained,
}

abbrev pub protocol_of : {W : Type 0} → Setup W → Protocol W
protocol_of s = s.protocol

abbrev pub with_protocol : {W : Type 0} → Protocol W → Setup W → Setup W
with_protocol p s = record s { protocol = p }

abbrev pub in_world : {W : Type 0} → W → Setup W → Setup W
in_world w s = record s { protocol = record (s.protocol) { world = w } }

-- `auditlogger.AuditLog`, and the start of the goroutine that submits the CSR
abbrev pub log_created : {W : Type 0} → Uuid → Setup W → Setup W
log_created uid s = record s { created = s.created ++ (uid ∷ []) }

abbrev pub start_submission : {W : Type 0} → Uuid → Bytes → Setup W → Setup W
start_submission uid csr s = record s { started = s.started ++ ((uid, csr) ∷ []) }

-- fmt.Errorf("<what>: %v", err)
abbrev pub explaining_steps :
    {W A : Type 0} → Bytes → Exec (Setup W) A → Thread (Setup W) (Result A)
explaining_steps what m = calling (acting m) (λ r. returned (explained what r))

module _ {W Tx PublicKey : Type 0} (e : Env W Tx PublicKey) (b : Backend W Tx)
    (i : IdentityHandler) where
  -- `StoreNewIdentity` behind its check
  abbrev pub sealed_steps : Option Tx → Identity → Bytes → Thread (Setup W) (Result (Unit {0}))
  sealed_steps tx id encrypted = elim (e.crypto.public_key_pem_to_bytes id.public_key) [
    | err x ↦ returned (err x)
    | ok raw ↦ acting (
        on_outside (
          e.manager.store_new_identity tx
            (record id { private_key = encrypted; public_key = raw })))
  ]

  unfoldable pub store_steps : Option Tx → Identity → Thread (Setup W) (Result (Unit {0}))
  store_steps tx id = elim (check_identity_attributes_not_nil e id) [
    | err x ↦ returned (err x)
    | ok _ ↦
        and_then (acting (on_outside (e.encrypter.encrypt id.private_key))) (sealed_steps tx id)
  ]

  unfoldable pub register_steps : Bytes → Uuid → Thread (Setup W) (Result Bytes)
  register_steps private_key_pem uid =
      and_then
        (explaining_steps (codes "error creating public key certificate")
          (on_outside (e.crypto.get_signed_key_registration private_key_pem uid)))
        (λ registration.
          and_then
            (explaining_steps (about e b i "creating CSR for UUID " uid " failed") (
              on_outside
                (e.crypto.get_csr private_key_pem uid i.subject_country i.subject_organization)))
            (λ csr.
              and_then
                (explaining_steps (about e b i "key registration for UUID " uid " failed")
                  (on_outside (b.submit_key_registration uid registration [])))
                (λ _. next (start_submission uid csr) (λ s. returned (ok csr)))))

  -- what `initIdentity` does with the transaction
  unfoldable pub create_steps : Option Tx → Identity → Thread (Setup W) (Result Bytes)
  create_steps tx id = and_then (store_steps tx id) (λ _.
      and_then (register_steps id.private_key id.uid) (λ csr.
        and_then (acting (on_outside (close_transaction e tx commit)))
          (λ _. next (log_created id.uid) (λ s. returned (ok csr)))))

  -- `defer cancel()`
  abbrev pub cancelling : Option Tx → Result Bytes → Thread (Setup W) (Result Bytes)
  cancelling tx r = next (λ s. in_world (b.cancel tx s.protocol.world) s) (λ s. returned r)

  abbrev pub with_transaction_steps :
      Identity → Result (Option Tx) → Thread (Setup W) (Result Bytes)
  with_transaction_steps id (err x) = cancelling none (err x)
  with_transaction_steps id (ok tx) = calling (create_steps tx id) (cancelling tx)

  unfoldable pub in_transaction_steps : Identity → Thread (Setup W) (Result Bytes)
  in_transaction_steps id =
      calling
        (focus protocol_of with_protocol
          (retry_steps e max_db_conn_attempts e.manager.start_transaction (ok none)))
        (with_transaction_steps id)

  -- behind the generation of the key
  abbrev pub keyed_steps : Uuid → Bytes → Bytes → Thread (Setup W) (Result Bytes)
  keyed_steps uid auth private_key = elim (e.crypto.get_public_key_from_private_key private_key) [
    | err x ↦ returned (err x)
    | ok public_key ↦ in_transaction_steps (record {
      uid = uid;
      private_key = private_key;
      public_key = public_key;
      auth_token = auth;
    })
  ]

  unfoldable pub init_identity_steps : Uuid → Bytes → Thread (Setup W) (Result Bytes)
  init_identity_steps uid auth =
      and_then
        (explaining_steps (about e b i "generating new key for UUID " uid " failed")
          (on_outside e.crypto.generate_key))
        (keyed_steps uid auth)
