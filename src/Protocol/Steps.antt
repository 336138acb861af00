-- ===== src/Protocol/Steps.antt =====
-- The methods of protocol.go as goroutines run them: each call of a `sync.Map`, each access to the
-- SKID store under its mutex, and each call of the context manager is a step of its own.
pub mod Alone
pub mod Certified
pub mod Rely
pub mod Kept
pub mod Loading
pub mod Bounded
use ubirch_cose_client_go.Prelude.{
  ℕ, zero, suc, ◌+◌, Bool, true, false, not, Option, none, some, List, [], ◌∷◌, Bytes, ◌==◌, nat_eq,
  bytes_eq,
}
use ubirch_cose_client_go.Codec.Base64
use ubirch_cose_client_go.Dict.{Dict, lookup, insert}
use ubirch_cose_client_go.Errors.{Result, ok, err, Exec}
use ubirch_cose_client_go.Context.{Uuid, uuid_nil, Identity}
use ubirch_cose_client_go.Libs.{Env, Certificate}
use ubirch_cose_client_go.Client.{ExtendedClient, request_certificate_list}
use ubirch_cose_client_go.Protocol.{
  Protocol, Interval, max_db_conn_attempts, on_world, zero_identity, known, matched, is_transient,
  open_identity, get_skid, set_skid_store,
}
use ubirch_cose_client_go.Threads.{Thread, returned, next, atomic, calling}

-- `identityCache.Store`, and `uidCache.Store`
abbrev pub store_identity : {W : Type 0} → Uuid → Identity → Protocol W → Protocol W
store_identity uid id p = record p { identity_cache = insert uid id p.identity_cache }

abbrev pub store_uid : {W : Type 0} → Bytes → Uuid → Protocol W → Protocol W
store_uid key uid p = record p { uid_cache = insert key uid p.uid_cache }

module _ {W Tx PublicKey : Type 0} (e : Env W Tx PublicKey) where
  -- the loop over attempts, of which each is one call of the context manager
  unfoldable pub retry_steps :
      {A : Type 0} → ℕ → Exec W A → Result A → Thread (Protocol W) (Result A)
  retry_steps zero m last = returned last
  retry_steps (suc n) m last =
      atomic (on_world m)
        (λ r. elim (is_transient e r) [ true ↦ retry_steps n m r | false ↦ returned r ])

  abbrev opened : Result Identity → Result Identity
  opened (ok id) = open_identity e id
  opened (err x) = err x

  unfoldable pub fetch_identity_steps : Uuid → Thread (Protocol W) (Result Identity)
  fetch_identity_steps uid =
      calling (retry_steps max_db_conn_attempts (e.manager.get_identity uid) (ok zero_identity))
        (λ r. returned (opened r))

  -- behind `fetchIdentityFromStorage`
  abbrev pub cached : Uuid → Result Identity → Thread (Protocol W) (Result Identity)
  cached uid (err x) = returned (err x)
  cached uid (ok id) = next (store_identity uid id) (λ p. returned (ok id))

  unfoldable pub get_identity_steps : Uuid → Thread (Protocol W) (Result Identity)
  get_identity_steps uid =
      atomic (λ p. (lookup uid p.identity_cache, p))
        (λ found. elim found [
          | some id ↦ returned (ok id)
          | none ↦ calling (fetch_identity_steps uid) (cached uid)
        ])

  unfoldable pub exists_steps : Uuid → Thread (Protocol W) (Result Bool)
  exists_steps uid = calling (get_identity_steps uid) (λ r. returned (known r))

  abbrev pub cached_uid : Bytes → Result Uuid → Thread (Protocol W) (Result Uuid)
  cached_uid key (err x) = returned (err x)
  cached_uid key (ok uid) = next (store_uid key uid) (λ p. returned (ok uid))

  unfoldable pub uuid_steps : Bytes → Thread (Protocol W) (Result Uuid)
  uuid_steps raw =
      atomic (λ p. (lookup (Base64.encode raw) p.uid_cache, p))
        (λ found. elim found [
          | some uid ↦ returned (ok uid)
          | none ↦
              calling
                (retry_steps max_db_conn_attempts (e.manager.get_uuid_for_public_key raw)
                  (ok uuid_nil))
                (cached_uid (Base64.encode raw))
        ])

  unfoldable pub get_uuid_steps : Bytes → Thread (Protocol W) (Result Uuid)
  get_uuid_steps pem = elim (e.crypto.public_key_pem_to_bytes pem) [
    | err x ↦ returned (err x)
    | ok raw ↦ uuid_steps raw
  ]

  unfoldable pub get_skid_steps : Uuid → Thread (Protocol W) (Result Bytes)
  get_skid_steps uid = atomic (λ p. (get_skid e uid p, p)) returned

  -- the key of a certificate, in PEM
  abbrev pub key_of : Certificate → Result Bytes
  key_of cert = elim (e.go.parse_certificate cert.raw_data) [
    | err x ↦ err x
    | ok public_key ↦ e.crypto.encode_public_key public_key
  ]

  -- the loop over the certificates, with the map that it fills, and the statement behind it
  unfoldable pub load_certs_steps :
      List Certificate → Dict Uuid Bytes → Thread (Protocol W) (Unit {0})
  load_certs_steps [] store = next (set_skid_store e store) (λ p. returned tt)
  load_certs_steps (cert ∷ certs) store = elim (key_of cert) [
    | err x ↦ load_certs_steps certs store
    | ok pem ↦ calling (get_uuid_steps pem) (λ r. load_certs_steps certs (matched cert.kid r store))
  ]

  module _ (client : ExtendedClient) (interval : Interval) where
    -- The counter is that of the goroutine which loads the SKIDs: no other uses it.
    abbrev pub loaded_steps : Result (List Certificate) → Thread (Protocol W) (Unit {0})
    loaded_steps (err x) =
        next (λ p. record p { cert_load_fail_counter = p.cert_load_fail_counter + 1 })
          (λ p. elim (p.cert_load_fail_counter + 1 == interval.max_cert_load_fail_count) [
            | true ↦ load_certs_steps [] []
            | false ↦ returned tt
          ])
    loaded_steps (ok certs) =
        next (λ p. record p { cert_load_fail_counter = 0 }) (λ p. load_certs_steps certs [])

    unfoldable pub load_skids_steps : Thread (Protocol W) (Unit {0})
    load_skids_steps =
        atomic (on_world (request_certificate_list e client e.crypto.verify)) loaded_steps
