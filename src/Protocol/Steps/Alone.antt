-- ===== src/Protocol/Steps/Alone.antt =====
-- What a goroutine does that nothing interrupts is what the methods do as calls of one piece.
use ubirch_cose_client_go.Prelude.{
  ℕ, zero, suc, ◌+◌, ◌≡◌, refl, inl, inr, Bool-cases, Option-cases, List, [], ◌∷◌, Bytes, ◌==◌,
  nat_eq, bytes_eq,
}
use ubirch_cose_client_go.Codec.Base64
use ubirch_cose_client_go.Dict.{Dict, lookup}
use ubirch_cose_client_go.Errors.{Result, ok, err, Exec, lift, continue, Result-cases}
use ubirch_cose_client_go.Context.{Uuid, uuid_nil, Identity}
use ubirch_cose_client_go.Libs.{Env, Certificate}
use ubirch_cose_client_go.Client.{ExtendedClient, request_certificate_list}
use ubirch_cose_client_go.Protocol.{
  Protocol, cache_identity, cache_uid, Interval, max_db_conn_attempts, on_world, zero_identity,
  matched, is_transient, open_identity, retry, fetch_identity_from_storage, get_identity,
  fetch_uuid_for_public_key_from_storage, uuid_for_raw_key, get_uuid_for_public_key, load_cert,
  load_certs, replace_skids, loaded, load_skids, set_skid_store,
}
use ubirch_cose_client_go.Threads.{returned, alone}
use ubirch_cose_client_go.Threads.Alone.{alone-calling}
use ubirch_cose_client_go.Protocol.Steps.{
  retry_steps, fetch_identity_steps, opened, cached, get_identity_steps, cached_uid, uuid_steps,
  get_uuid_steps, load_certs_steps, loaded_steps, load_skids_steps,
}

module _ {W Tx PublicKey : Type 0} (e : Env W Tx PublicKey) where
  pub alone-retry :
      {A : Type 0} (n : ℕ) (m : Exec W A) (last : Result A) (p : Protocol W)
      → alone (retry_steps e n m last) p ≡ on_world (retry e n m last) p
  unfolding alone retry_steps retry
  alone-retry zero m last p = refl
  alone-retry (suc n) m last p = elim (Bool-cases (is_transient e (m p.world).0)) [
    | inl again ↦ rw (alone, retry, again) (alone-retry n m (m p.world).0 (on_world m p).1)
    | inr done ↦ rw (alone, retry, done) refl
  ]

  opened_lem :
      (r : Result Identity) (p : Protocol W)
      → (opened e r, p) ≡ on_world (continue r (λ id. lift (open_identity e id))) p
  opened_lem (ok id) p = refl
  opened_lem (err x) p = refl

  alone-fetch :
      (uid : Uuid) (p : Protocol W)
      → alone (fetch_identity_steps e uid) p ≡ on_world (fetch_identity_from_storage e uid) p
  unfolding fetch_identity_steps fetch_identity_from_storage alone
  alone-fetch uid p =
      rw
        (
          alone-calling
              (retry_steps e max_db_conn_attempts (e.manager.get_identity uid) (ok zero_identity))
              (λ r. returned (opened e r)) p,
          alone-retry max_db_conn_attempts (e.manager.get_identity uid) (ok zero_identity) p,
        )
        (opened_lem
          (retry e max_db_conn_attempts (e.manager.get_identity uid) (ok zero_identity) p.world).0
          (on_world (retry e max_db_conn_attempts (e.manager.get_identity uid) (ok zero_identity))
            p).1)

  cached_lem :
      (uid : Uuid) (r : Result Identity) (p : Protocol W)
      → alone (cached e uid r) p ≡ continue r (cache_identity e uid) p
  unfolding alone cache_identity
  cached_lem uid (ok id) p = refl
  cached_lem uid (err x) p = refl

  pub alone-get_identity :
      (uid : Uuid) (p : Protocol W) → alone (get_identity_steps e uid) p ≡ get_identity e uid p
  unfolding get_identity_steps get_identity alone
  alone-get_identity uid p = elim (Option-cases (lookup uid p.identity_cache)) [
    | inl miss ↦
        rw
          (
            alone,
            get_identity,
            miss,
            alone-calling (fetch_identity_steps e uid) (cached e uid) p,
            alone-fetch uid p,
          )
          (cached_lem uid (fetch_identity_from_storage e uid p.world).0 _)
    | inr (_, hit) ↦ rw (alone, get_identity, hit) refl
  ]

  cached_uid_lem :
      (key : Bytes) (r : Result Uuid) (p : Protocol W)
      → alone (cached_uid e key r) p ≡ continue r (cache_uid e key) p
  unfolding alone cache_uid
  cached_uid_lem key (ok uid) p = refl
  cached_uid_lem key (err x) p = refl

  alone-uuid :
      (raw : Bytes) (p : Protocol W) → alone (uuid_steps e raw) p ≡ uuid_for_raw_key e raw p
  unfolding uuid_steps uuid_for_raw_key fetch_uuid_for_public_key_from_storage alone
  alone-uuid raw p =
      let fetch = e.manager.get_uuid_for_public_key raw in
      elim (Option-cases (lookup (Base64.encode raw) p.uid_cache)) [
        | inl miss ↦
            rw
              (
                alone,
                uuid_for_raw_key,
                miss,
                alone-calling (retry_steps e max_db_conn_attempts fetch (ok uuid_nil))
                    (cached_uid e (Base64.encode raw)) p,
                alone-retry max_db_conn_attempts fetch (ok uuid_nil) p,
              )
              (cached_uid_lem (Base64.encode raw)
                (retry e max_db_conn_attempts fetch (ok uuid_nil) p.world).0 _)
        | inr (_, hit) ↦ rw (alone, uuid_for_raw_key, hit) refl
      ]

  alone-get_uuid :
      (pem : Bytes) (p : Protocol W)
      → alone (get_uuid_steps e pem) p ≡ get_uuid_for_public_key e pem p
  unfolding get_uuid_steps get_uuid_for_public_key alone
  alone-get_uuid pem p = elim (Result-cases (e.crypto.public_key_pem_to_bytes pem)) [
    | inl (x, failed) ↦ rw (alone, get_uuid_for_public_key, failed) refl
    | inr (raw, converted) ↦ rw (alone, get_uuid_for_public_key, converted) (alone-uuid raw p)
  ]

  alone-load_certs :
      (certs : List Certificate) (store : Dict Uuid Bytes) (p : Protocol W)
      → alone (load_certs_steps e certs store) p
        ≡ (let (last, q) = load_certs e certs store p in (tt, set_skid_store e last q))
  unfolding load_certs_steps load_certs load_cert alone
  alone-load_certs [] store p = refl
  alone-load_certs (cert ∷ certs) store p =
      elim (Result-cases (e.go.parse_certificate cert.raw_data)) [
        | inl (x, failed) ↦
            rw (alone, load_certs, load_cert, failed) (alone-load_certs certs store p)
        | inr (key, parsed) ↦ elim (Result-cases (e.crypto.encode_public_key key)) [
          | inl (x, failed) ↦
              rw (alone, load_certs, load_cert, parsed, failed) (alone-load_certs certs store p)
          | inr (pem, encoded) ↦
              let (r, p') = get_uuid_for_public_key e pem p in
              rw
                (
                  alone,
                  load_certs,
                  load_cert,
                  parsed,
                  encoded,
                  alone-calling (get_uuid_steps e pem)
                      (λ r. load_certs_steps e certs (matched cert.kid r store)) p,
                  alone-get_uuid pem p,
                )
                (alone-load_certs certs (matched cert.kid r store) p')
        ]
      ]

  module _ (client : ExtendedClient) (interval : Interval) where
    loaded_lem :
        (r : Result (List Certificate)) (p : Protocol W)
        → alone (loaded_steps e client interval r) p ≡ (tt, loaded e client interval r p)
    unfolding alone replace_skids
    loaded_lem (ok certs) p = alone-load_certs certs [] (record p { cert_load_fail_counter = 0 })
    loaded_lem (err x) p =
        elim (Bool-cases (p.cert_load_fail_counter + 1 == interval.max_cert_load_fail_count)) [
          | inl full ↦
              rw (alone, full)
                (alone-load_certs [] []
                  (record p { cert_load_fail_counter = p.cert_load_fail_counter + 1 }))
          | inr more ↦ rw (alone, more) refl
        ]

    -- A reload, run to its end with no step of others between its own, does what `load_skids` does.
    pub alone-load_skids :
        (p : Protocol W)
        → alone (load_skids_steps e client interval) p ≡ (tt, load_skids e client interval p)
    unfolding load_skids_steps load_skids alone
    alone-load_skids p =
        let (r, w) = request_certificate_list e client e.crypto.verify p.world in
        loaded_lem r (record p { world = w })
