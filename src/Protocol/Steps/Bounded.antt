-- ===== src/Protocol/Steps/Bounded.antt =====
-- How many steps the methods take, whatever the others do in between.
use ubirch_cose_client_go.Prelude.{
  ℕ, zero, suc, ◌+◌, ◌*◌, ◌==◌, ◌≤◌, ◌≡◌, inl, inr, Bool-cases, Option-cases, List, [], ◌∷◌, Bytes,
  arith, length, nat_eq, bytes_eq,
}
use ubirch_cose_client_go.Codec.Base64
use ubirch_cose_client_go.Dict.{Dict, lookup}
use ubirch_cose_client_go.Errors.{Result, ok, err, Exec, Result-cases}
use ubirch_cose_client_go.Context.{Uuid, uuid_nil, Identity}
use ubirch_cose_client_go.Libs.{Env, Certificate}
use ubirch_cose_client_go.Client.{ExtendedClient, request_certificate_list}
use ubirch_cose_client_go.Protocol.{
  Protocol, Interval, is_transient, matched, max_db_conn_attempts, zero_identity,
}
use ubirch_cose_client_go.Threads.{returned, calling}
use ubirch_cose_client_go.Threads.Bounded.{
  IsWithin, IsWithin-le, calling-IsWithin, meeting, meeting-IsWithin,
}
use ubirch_cose_client_go.Protocol.Steps.{
  retry_steps, fetch_identity_steps, opened, cached, get_identity_steps, cached_uid, uuid_steps,
  get_uuid_steps, key_of, load_certs_steps, loaded_steps, load_skids_steps,
}

module _ {W Tx PublicKey : Type 0} (e : Env W Tx PublicKey) where
  retry-IsWithin :
      {A : Type 0} (n : ℕ) (m : Exec W A) (last : Result A) → IsWithin n (retry_steps e n m last)
  unfolding retry_steps
  retry-IsWithin zero m last = tt
  retry-IsWithin (suc n) m last = λ p. elim (Bool-cases (is_transient e (m p.world).0)) [
    | inl again ↦ rw again (retry-IsWithin n m (m p.world).0)
    | inr stop ↦ rw stop tt
  ]

  fetch-IsWithin : (uid : Uuid) → IsWithin 5 (fetch_identity_steps e uid)
  unfolding fetch_identity_steps
  fetch-IsWithin uid =
      calling-IsWithin 5 0
        (retry_steps e max_db_conn_attempts (e.manager.get_identity uid) (ok zero_identity))
        (λ r. returned (opened e r))
        (retry-IsWithin max_db_conn_attempts (e.manager.get_identity uid) (ok zero_identity))
        (λ r. tt)

  cached-IsWithin : (uid : Uuid) (r : Result Identity) → IsWithin 1 (cached e uid r)
  cached-IsWithin uid (ok id) = λ p. tt
  cached-IsWithin uid (err x) = tt

  pub get_identity-IsWithin : (uid : Uuid) → IsWithin 7 (get_identity_steps e uid)
  unfolding get_identity_steps
  get_identity-IsWithin uid = λ p. elim (Option-cases (lookup uid p.identity_cache)) [
    | inl miss ↦ rw miss (
        calling-IsWithin 5 1 (fetch_identity_steps e uid) (cached e uid) (fetch-IsWithin uid)
          (cached-IsWithin uid))
    | inr (id, hit) ↦ rw hit tt
  ]

  cached_uid-IsWithin : (key : Bytes) (r : Result Uuid) → IsWithin 1 (cached_uid e key r)
  cached_uid-IsWithin key (ok uid) = λ p. tt
  cached_uid-IsWithin key (err x) = tt

  uuid-IsWithin : (raw : Bytes) → IsWithin 7 (uuid_steps e raw)
  unfolding uuid_steps
  uuid-IsWithin raw = λ p. elim (Option-cases (lookup (Base64.encode raw) p.uid_cache)) [
    | inl miss ↦ rw miss (
        calling-IsWithin 5 1
          (retry_steps e max_db_conn_attempts (e.manager.get_uuid_for_public_key raw) (ok uuid_nil))
          (cached_uid e (Base64.encode raw))
          (retry-IsWithin max_db_conn_attempts (e.manager.get_uuid_for_public_key raw)
            (ok uuid_nil))
          (cached_uid-IsWithin (Base64.encode raw)))
    | inr (uid, hit) ↦ rw hit tt
  ]

  get_uuid-IsWithin : (pem : Bytes) → IsWithin 7 (get_uuid_steps e pem)
  unfolding get_uuid_steps
  get_uuid-IsWithin pem = elim (Result-cases (e.crypto.public_key_pem_to_bytes pem)) [
    | inl (x, failed) ↦ rw (IsWithin, failed) tt
    | inr (raw, converted) ↦ rw (IsWithin, converted) (uuid-IsWithin raw)
  ]

  load_certs-IsWithin :
      (certs : List Certificate) (store : Dict Uuid Bytes) (n : ℕ)
      → 7 * length certs + 1 ≤ n
      → IsWithin n (load_certs_steps e certs store)
  unfolding load_certs_steps
  load_certs-IsWithin [] store n enough =
      IsWithin-le 1 n (load_certs_steps e [] store) (omega arith) (λ p. tt)
  load_certs-IsWithin (cert ∷ certs) store n enough = elim (Result-cases (key_of e cert)) [
    | inl (x, failed) ↦ rw (IsWithin, failed) (load_certs-IsWithin certs store n (omega arith))
    | inr (pem, keyed) ↦
        let few = 7 * length certs + 1 in
        let rest = λ (r : Result Uuid). load_certs_steps e certs (matched cert.kid r store) in
        rw (IsWithin, keyed)
          (IsWithin-le (7 + few) n (calling (get_uuid_steps e pem) rest) (omega arith) (
            calling-IsWithin 7 few (get_uuid_steps e pem) rest (get_uuid-IsWithin pem)
              (λ r. load_certs-IsWithin certs (matched cert.kid r store) few (omega arith))))
  ]

  -- The certificates that a reload goes through.
  abbrev pub listed : Result (List Certificate) → ℕ
  listed (ok certs) = length certs
  listed (err x) = 0

  module _ (client : ExtendedClient) (interval : Interval) where
    loaded-IsWithin :
        (r : Result (List Certificate))
        → IsWithin (7 * listed r + 2) (loaded_steps e client interval r)
    loaded-IsWithin (ok certs) =
        IsWithin-le (suc (7 * length certs + 1)) (7 * length certs + 2)
          (loaded_steps e client interval (ok certs)) (omega arith)
          (λ p. load_certs-IsWithin certs [] (7 * length certs + 1) (omega arith))
    loaded-IsWithin (err x) = λ p.
        elim (Bool-cases (p.cert_load_fail_counter + 1 == interval.max_cert_load_fail_count)) [
          | inl full ↦ rw full (load_certs-IsWithin [] [] 1 (omega arith))
          | inr more ↦ rw more tt
        ]

    -- A reload that has got `n` certificates returns after at most `7 * n + 2` further steps,
    -- whatever states it meets in them. Without a list there are at most 2.
    pub meeting-load_skids :
        (p : Protocol W) (states : List (Protocol W))
        → 7 * listed (request_certificate_list e client e.crypto.verify p.world).0 + 2
          ≤ length states
        → meeting (p ∷ states) (load_skids_steps e client interval) ≡ returned tt
    unfolding load_skids_steps meeting
    meeting-load_skids p states enough =
        let r = (request_certificate_list e client e.crypto.verify p.world).0 in
        (meeting-IsWithin (7 * listed r + 2) (loaded_steps e client interval r) states
          (loaded-IsWithin r) enough).1
