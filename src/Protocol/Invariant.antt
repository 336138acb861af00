-- ===== src/Protocol/Invariant.antt =====
-- The invariant of a `Protocol`, and the histories of calls that keep it.
use ubirch_cose_client_go.Prelude.{
  ◌+◌, ◌≡◌, inl, inr, Bool-cases, Option-cases, ◌==◌, List, [], ◌∷◌, arith, Bytes, length, nat_eq,
  nat_beq_iff,
}
use ubirch_cose_client_go.Dict.{Dict, lookup, Entries, Entries-lookup, insert-Entries}
use ubirch_cose_client_go.Errors.{Result, ok, err, Result-cases}
use ubirch_cose_client_go.Context.{Uuid, Identity}
use ubirch_cose_client_go.Libs.{Env, Certificate}
use ubirch_cose_client_go.Client.{ExtendedClient, request_certificate_list}
use ubirch_cose_client_go.Protocol.{
  Protocol, Interval, skid_len, new_protocol, fetch_identity_from_storage, get_identity,
  get_uuid_for_public_key, matched, load_cert, load_certs, load_skids, loaded, replace_skids, retry,
  max_db_conn_attempts, zero_identity,
}
use ubirch_cose_client_go.Protocol.Identities.{IsComplete, open_identity-IsComplete}
use ubirch_cose_client_go.Protocol.UidCache.{get_uuid_frame}
use ubirch_cose_client_go.Protocol.Skids.{load_certs_frame}

abbrev pub IsSkid : Uuid → Bytes → Type 0
IsSkid uid kid = length kid ≡ skid_len

abbrev pub IsCached : Uuid → Identity → Type 0
IsCached uid id = IsComplete id

-- A cached identity lacks no attribute, and an SKID has 8 bytes.
pub record IsValid {W : Type 0} (p : Protocol W) : Type 0 where
  pub identities : Entries IsCached p.identity_cache
  pub skids : Entries IsSkid p.skid_store

pub new_protocol-IsValid : {W : Type 0} (w : W) → IsValid (new_protocol w)
unfolding new_protocol
new_protocol-IsValid w = record { identities = tt; skids = tt }

module _ {W Tx PublicKey : Type 0} (e : Env W Tx PublicKey) where
  fetch-IsComplete :
      (uid : Uuid) (id : Identity) (w : W)
      → (fetch_identity_from_storage e uid w).0 ≡ ok id
      → IsComplete id
  unfolding fetch_identity_from_storage
  fetch-IsComplete uid id w h =
      let (r, w') =
        retry e max_db_conn_attempts (e.manager.get_identity uid) (ok zero_identity) w in
      elim (Result-cases r) [
        | inl (x, failed) ↦ ground arith
        | inr (stored, got) ↦ open_identity-IsComplete e stored id (ground arith)
      ]

  -- What `GetIdentity` returns lacks no attribute, from the cache or from the storage.
  pub get_identity-IsComplete :
      (uid : Uuid) (id : Identity) (p : Protocol W)
      → IsValid p
      → (get_identity e uid p).0 ≡ ok id
      → IsComplete id
  unfolding get_identity
  get_identity-IsComplete uid id p v h = elim (Option-cases (lookup uid p.identity_cache)) [
    | inl miss ↦ fetch-IsComplete uid id p.world (ground arith)
    | inr (cached, hit) ↦
        Entries-lookup IsCached uid id p.identity_cache v.identities (ground arith)
  ]

  pub get_identity-IsValid :
      (uid : Uuid) (p : Protocol W) → IsValid p → IsValid (get_identity e uid p).1
  unfolding get_identity
  get_identity-IsValid uid p v = elim (Option-cases (lookup uid p.identity_cache)) [
    | inl miss ↦ elim (Result-cases (fetch_identity_from_storage e uid p.world).0) [
      | inl (x, failed) ↦
          rw (miss, get_identity, failed) (record { identities = v.identities; skids = v.skids })
      | inr (id, fetched) ↦
          rw (miss, get_identity, fetched)
            (record {
              identities =
                  insert-Entries IsCached uid id p.identity_cache
                    (fetch-IsComplete uid id p.world fetched) v.identities;
              skids = v.skids;
            })
    ]
    | inr (_, hit) ↦ rw (hit, get_identity) v
  ]

  pub get_uuid-IsValid :
      (pem : Bytes) (p : Protocol W) → IsValid p → IsValid (get_uuid_for_public_key e pem p).1
  get_uuid-IsValid pem p v =
      rw (get_uuid_frame e pem p) (record { identities = v.identities; skids = v.skids })

  matched-IsSkid :
      (kid : Bytes) (r : Result Uuid) (store : Dict Uuid Bytes)
      → Entries IsSkid store
      → Entries IsSkid (matched kid r store)
  matched-IsSkid kid (err x) store h = h
  matched-IsSkid kid (ok uid) store h = elim (Bool-cases (length kid == skid_len)) [
    | inl fits ↦ rw fits (insert-Entries IsSkid uid kid store ((nat_beq_iff _ _).0 fits) h)
    | inr misfits ↦ rw misfits h
  ]

  load_cert-IsSkid :
      (cert : Certificate) (store : Dict Uuid Bytes) (p : Protocol W)
      → Entries IsSkid store
      → Entries IsSkid (load_cert e cert store p).0
  unfolding load_cert
  load_cert-IsSkid cert store p h = elim (Result-cases (e.go.parse_certificate cert.raw_data)) [
    | inl (x, failed) ↦ rw (failed, load_cert) h
    | inr (key, parsed) ↦ elim (Result-cases (e.crypto.encode_public_key key)) [
      | inl (x, failed) ↦ rw (parsed, load_cert, failed) h
      | inr (pem, encoded) ↦ rw (parsed, load_cert, encoded) (matched-IsSkid cert.kid _ store h)
    ]
  ]

  load_certs-IsSkid :
      (certs : List Certificate) (store : Dict Uuid Bytes) (p : Protocol W)
      → Entries IsSkid store
      → Entries IsSkid (load_certs e certs store p).0
  unfolding load_certs
  load_certs-IsSkid [] store p h = h
  load_certs-IsSkid (cert ∷ certs) store p h =
      let (store', p') = load_cert e cert store p in
      load_certs-IsSkid certs store' p' (load_cert-IsSkid cert store p h)

  module _ (client : ExtendedClient) (interval : Interval) where
    replaced-IsValid :
        (certs : List Certificate) (p : Protocol W) → IsValid p → IsValid (replace_skids e certs p)
    unfolding replace_skids
    replaced-IsValid certs p v = record {
      identities = rw (load_certs_frame e certs [] p) v.identities;
      skids = load_certs-IsSkid certs [] p tt;
    }

    loaded-IsValid :
        (r : Result (List Certificate)) (p : Protocol W)
        → IsValid p
        → IsValid (loaded e client interval r p)
    loaded-IsValid (ok certs) p v =
        replaced-IsValid certs _ (record { identities = v.identities; skids = v.skids })
    loaded-IsValid (err x) p v =
        elim (Bool-cases (p.cert_load_fail_counter + 1 == interval.max_cert_load_fail_count)) [
          | inl full ↦
              rw full
                (replaced-IsValid [] _ (record { identities = v.identities; skids = v.skids }))
          | inr more ↦ rw more (record { identities = v.identities; skids = v.skids })
        ]

    pub load_skids-IsValid : (p : Protocol W) → IsValid p → IsValid (load_skids e client interval p)
    unfolding load_skids
    load_skids-IsValid p v =
        let (r, w) = request_certificate_list e client e.crypto.verify p.world in
        loaded-IsValid r (record p { world = w })
          (record { identities = v.identities; skids = v.skids })

    -- What a running client does to its `Protocol`: the handlers' calls, the reload of the
    -- certificates, and whatever others do to the world.
    pub data Step (p : Protocol W) : Protocol W → Type 0 where
      get : (uid : Uuid) → Step p (get_identity e uid p).1
      get_uuid : (pem : Bytes) → Step p (get_uuid_for_public_key e pem p).1
      load : Step p (load_skids e client interval p)
      outside : (w : W) → Step p (record p { world = w })

    pub data Reach (p : Protocol W) : Protocol W → Type 0 where
      here : Reach p p
      next : {q r : Protocol W} → Reach p q → Step q r → Reach p r

    Step-IsValid : {p q : Protocol W} → Step p q → IsValid p → IsValid q
    Step-IsValid {p} (get uid) v = get_identity-IsValid uid p v
    Step-IsValid {p} (get_uuid pem) v = get_uuid-IsValid pem p v
    Step-IsValid {p} load v = load_skids-IsValid p v
    Step-IsValid (outside w) v = record { identities = v.identities; skids = v.skids }

    -- Every `Protocol` that a new one comes to is valid.
    pub Reach-IsValid : (w : W) (p : Protocol W) → Reach (new_protocol w) p → IsValid p
    Reach-IsValid w p h = reached h
      where
        reached : {p : Protocol W} → Reach (new_protocol w) p → IsValid p
        reached here = new_protocol-IsValid w
        reached (next r s) = Step-IsValid s (reached r)
