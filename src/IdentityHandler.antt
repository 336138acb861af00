-- ===== src/IdentityHandler.antt =====
-- identity_handler.go: the keys of new identities, and their registration.
pub mod Created
pub mod Atomic
pub mod Caches
pub mod Steps
use ubirch_cose_client_go.Prelude.{
  String, Bool, true, false, Option, none, some, List, [], ◌∷◌, ◌++◌, Bytes, length, ◌==◌, nat_eq,
  if◌then◌else◌,
}
use ubirch_cose_client_go.Errors.{
  Error, text, error_text, codes, Result, ok, err, Exec, pure, fail, ◌>>=◌, ◌>>◌,
}
use ubirch_cose_client_go.Context.{Uuid, Identity, commit}
use ubirch_cose_client_go.Libs.{Env}
use ubirch_cose_client_go.Protocol.{
  Protocol, start_transaction, close_transaction, store_new_identity, exists,
}

-- The fields of `IdentityHandler` beside its `Protocol`.
pub record IdentityHandler : Type 0 where
  pub subject_country : Bytes
  pub subject_organization : Bytes

-- `SubmitKeyRegistration` and `SubmitCSR` of the `clients.Client` of ubirch-client-go, and what the
-- cancelling of a context does to the transaction that was started with it: `database/sql` rolls it
-- back if it is still open.
pub record Backend (W Tx : Type 0) : Type 0 where
  pub submit_key_registration : Uuid → Bytes → Bytes → Exec W (Unit {0})
  pub submit_csr : Uuid → Bytes → Exec W (Unit {0})
  pub cancel : Option Tx → W → W

-- What an `IdentityHandler` changes beside the `Protocol`: the audit log of created devices, and the
-- goroutines that it has started, each as its arguments.
pub record Setup (W : Type 0) : Type 0 where
  pub protocol : Protocol W
  pub created : List Uuid
  pub started : List (Uuid × Bytes)

-- A call that sees only the world.
abbrev pub on_outside : {W A : Type 0} → Exec W A → Exec (Setup W) A
on_outside m s =
    let (r, w) = m s.protocol.world in
    (r, record s { protocol = record (s.protocol) { world = w } })

-- fmt.Errorf("<before><uid><after>: %v", uid, err)
abbrev pub explained : {A : Type 0} → Bytes → Result A → Result A
explained what (ok a) = ok a
explained what (err x) = err (text (what ++ codes ": " ++ error_text x))

abbrev explaining : {S A : Type 0} → Bytes → Exec S A → Exec S A
explaining what m s = let (r, s') = m s in (explained what r, s')

-- `auditlogger.AuditLog("create", "device", infos)`
audit : {W : Type 0} → Uuid → Exec (Setup W) (Unit {0})
audit uid s = (ok tt, record s { created = s.created ++ (uid ∷ []) })

-- the statement `go i.submitCSROrLogError(uid, csr)`
go_submit : {W : Type 0} → Uuid → Bytes → Exec (Setup W) (Unit {0})
go_submit uid csr s = (ok tt, record s { started = s.started ++ ((uid, csr) ∷ []) })

module _ {W Tx PublicKey : Type 0} (e : Env W Tx PublicKey) (b : Backend W Tx)
    (i : IdentityHandler) where
  abbrev pub about : String → Uuid → String → Bytes
  about before uid after = codes before ++ e.go.uuid_string uid ++ codes after

  unfoldable pub register_public_key : Bytes → Uuid → Exec (Setup W) Bytes
  unfolding go_submit
  register_public_key private_key_pem uid = do
    registration ←
        explaining (codes "error creating public key certificate")
          (on_outside (e.crypto.get_signed_key_registration private_key_pem uid))
    csr ←
        explaining (about "creating CSR for UUID " uid " failed") (
          on_outside
            (e.crypto.get_csr private_key_pem uid i.subject_country i.subject_organization))
    explaining (about "key registration for UUID " uid " failed")
        (on_outside (b.submit_key_registration uid registration []))
    go_submit uid csr
    pure csr

  -- what `initIdentity` does with the transaction
  unfoldable pub create_in : Option Tx → Identity → Exec (Setup W) Bytes
  unfolding audit
  create_in tx new_identity = do
    on_outside (store_new_identity e tx new_identity)
    csr ← register_public_key new_identity.private_key new_identity.uid
    on_outside (close_transaction e tx commit)
    audit new_identity.uid
    pure csr

  -- `defer cancel()`
  abbrev deferred : {A : Type 0} → Option Tx → Result A × Setup W → Result A × Setup W
  deferred tx (r, s) =
      (r, record s { protocol = record (s.protocol) { world = b.cancel tx s.protocol.world } })

  -- from the call of `StartTransaction` on; without a transaction there is nothing to roll back
  abbrev with_transaction : Identity → Result (Option Tx) × Setup W → Result Bytes × Setup W
  with_transaction new_identity (err x, s) = deferred none (err x, s)
  with_transaction new_identity (ok tx, s) = deferred tx (create_in tx new_identity s)

  unfoldable pub in_transaction : Identity → Exec (Setup W) Bytes
  in_transaction new_identity s = with_transaction new_identity (on_outside (start_transaction e) s)

  unfoldable pub init_identity : Uuid → Bytes → Exec (Setup W) Bytes
  init_identity uid auth = do
    private_key ←
        explaining (about "generating new key for UUID " uid " failed")
          (on_outside e.crypto.generate_key)
    public_key ← (λ s. (e.crypto.get_public_key_from_private_key private_key, s))
    in_transaction (record {
      uid = uid;
      private_key = private_key;
      public_key = public_key;
      auth_token = auth;
    })

  -- `i.protocol.Exists`
  abbrev pub exists_in : Uuid → Exec (Setup W) Bool
  exists_in uid s = let (r, p) = exists e uid s.protocol in (r, record s { protocol = p })

  -- the body of the loop over the identities, behind the call of `Exists`
  unfoldable pub init_missing : Identity → Bool → Exec (Setup W) (Unit {0})
  init_missing id true = pure tt
  init_missing id false =
      if length id.auth_token == 0
      then fail (text (about "missing auth token for identity " id.uid ""))
      else (do init_identity id.uid id.auth_token; pure tt)

  unfoldable pub init_identities : List Identity → Exec (Setup W) (Unit {0})
  init_identities [] = pure tt
  init_identities (id ∷ identities) = do
    found ← explaining (about "can not check existing context for " id.uid "") (exists_in id.uid)
    init_missing id found
    init_identities identities

  -- the goroutine; its error is only logged
  unfoldable pub submit_csr_or_log_error : Uuid → Bytes → W → W
  submit_csr_or_log_error uid csr w = (b.submit_csr uid csr w).1
