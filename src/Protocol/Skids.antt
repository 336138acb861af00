-- ===== src/Protocol/Skids.antt =====
-- `loadSKIDs`: when the SKID store is kept, replaced and cleared, and what is put into it.
use mathlib.Core.Option.{or_else}
use ubirch_cose_client_go.Prelude.{
  ap, ℕ, zero, suc, ◌+◌, ◌≡◌, refl, inl, inr, ◌&&◌, Option, none, some, List, [], ◌∷◌, arith, Bytes,
  length, ltb, leb, ◌==◌, nat_eq, if◌then◌else◌,
}
use ubirch_cose_client_go.Dict.{Dict, lookup, lookup-insert}
use ubirch_cose_client_go.Errors.{Error, Result, ok, err, Result-cases}
use ubirch_cose_client_go.Context.{Uuid}
use ubirch_cose_client_go.Libs.{Env, Certificate}
use ubirch_cose_client_go.Client.{ExtendedClient, request_certificate_list}
use ubirch_cose_client_go.Protocol.UidCache.{get_uuid_frame}
use ubirch_cose_client_go.Protocol.{
  Protocol, Interval, skid_len, matched, get_uuid_for_public_key, load_cert, load_certs, load_skids,
}

module _ {W Tx PublicKey : Type 0} (e : Env W Tx PublicKey) (client : ExtendedClient)
    (interval : Interval) where
  -- `n` loads, one behind the other.
  unfoldable pub loads : ℕ → Protocol W → Protocol W
  loads zero p = p
  loads (suc n) p = loads n (load_skids e client interval p)

  -- Each of `n` loads fails to get the list.
  abbrev pub AllFail : ℕ → Protocol W → Type 0
  AllFail zero p = Unit
  AllFail (suc n) p =
      ((x : Error) × ((request_certificate_list e client e.crypto.verify p.world).0 ≡ err x))
      × AllFail n (load_skids e client interval p)

  load_skids_failed :
      (x : Error) (p : Protocol W)
      → (request_certificate_list e client e.crypto.verify p.world).0 ≡ err x
      → ((load_skids e client interval p).cert_load_fail_counter ≡ p.cert_load_fail_counter + 1)
        × ((load_skids e client interval p).skid_store ≡ (
            if p.cert_load_fail_counter + 1 == interval.max_cert_load_fail_count
            then []
            else p.skid_store))
  unfolding load_skids load_certs
  load_skids_failed x p failed = ground arith

  -- `n` failures in a row are counted. They clear the store when the count comes to the maximum, and
  -- leave it alone before and after.
  pub loads-AllFail :
      (n : ℕ) (p : Protocol W)
      → AllFail n p
      → ((loads n p).cert_load_fail_counter ≡ p.cert_load_fail_counter + n)
        × ((loads n p).skid_store ≡ (
            if ltb p.cert_load_fail_counter interval.max_cert_load_fail_count
              && leb interval.max_cert_load_fail_count (p.cert_load_fail_counter + n)
            then []
            else p.skid_store))
  unfolding loads
  loads-AllFail zero p h = ground arith
  loads-AllFail (suc n) p ((x, failed), h) =
      ground
        (arith, load_skids_failed x p failed, loads-AllFail n (load_skids e client interval p) h)

-- The UUID of an answer, if it is one.
abbrev owner : Result Uuid → Option Uuid
owner (err x) = none
owner (ok uid) = some uid

-- The KID that a certificate offers to `uid`, whose key belongs to the given UUID.
abbrev offer : Uuid → Option Uuid → Bytes → Option Bytes
offer uid none kid = none
offer uid (some holder) kid = if holder == uid && length kid == skid_len then some kid else none

lookup-matched :
    (uid : Uuid) (kid : Bytes) (r : Result Uuid) (store : Dict Uuid Bytes)
    → lookup uid (matched kid r store) ≡ or_else (offer uid (owner r) kid) (lookup uid store)
unfolding or_else
lookup-matched uid kid (err x) store = refl
lookup-matched uid kid (ok holder) store = ground (arith, lookup-insert uid holder kid store)

module _ {W Tx PublicKey : Type 0} (e : Env W Tx PublicKey) where
  load_cert_frame :
      (cert : Certificate) (store : Dict Uuid Bytes) (p : Protocol W)
      → let p' = (load_cert e cert store p).1 in
        p' ≡ record p { world = p'.world; uid_cache = p'.uid_cache }
  unfolding load_cert
  load_cert_frame cert store p = elim (Result-cases (e.go.parse_certificate cert.raw_data)) [
    | inl (x, failed) ↦ rw (failed, load_cert)
    | inr (key, parsed) ↦ elim (Result-cases (e.crypto.encode_public_key key)) [
      | inl (x, failed) ↦ rw (parsed, load_cert, failed)
      | inr (pem, encoded) ↦ rw (parsed, load_cert, encoded) (get_uuid_frame e pem p)
    ]
  ]

  -- Until the new store is set, a reader finds the old one.
  pub load_certs_frame :
      (certs : List Certificate) (store : Dict Uuid Bytes) (p : Protocol W)
      → let p' = (load_certs e certs store p).1 in
        p' ≡ record p { world = p'.world; uid_cache = p'.uid_cache }
  unfolding load_certs
  load_certs_frame [] store p = refl
  load_certs_frame (cert ∷ certs) store p =
      let (store', p') = load_cert e cert store p in
      cc (load_cert_frame cert store p, load_certs_frame certs store' p')

  -- Where the answers of `GetUuidForPublicKey` do not change while a list is loaded: from any
  -- protocol that meets `I` the answer is `registry`'s, and `I` is kept.
  pub record IsStable (I : Protocol W → Type 0) (registry : Bytes → Result Uuid) : Type 0 where
    pub answers :
        (pem : Bytes) (p : Protocol W) → I p → (get_uuid_for_public_key e pem p).0 ≡ registry pem
    pub keeps : (pem : Bytes) (p : Protocol W) → I p → I (get_uuid_for_public_key e pem p).1

  module _ (registry : Bytes → Result Uuid) where
    -- The UUID that a certificate's key is registered for.
    holder : Certificate → Option Uuid
    holder cert = elim (e.go.parse_certificate cert.raw_data) [
      | err x ↦ none
      | ok key ↦ elim (e.crypto.encode_public_key key) [
        | err x ↦ none
        | ok pem ↦ owner (registry pem)
      ]
    ]

    -- The KID of the last certificate of the list that offers one.
    unfoldable pub skid_for : Uuid → List Certificate → Option Bytes
    unfolding holder
    skid_for uid [] = none
    skid_for uid (cert ∷ certs) = or_else (skid_for uid certs) (offer uid (holder cert) cert.kid)

  module _ {I : Protocol W → Type 0} {registry : Bytes → Result Uuid}
      (stable : IsStable I registry) where
    load_cert-offer :
        (uid : Uuid) (cert : Certificate) (store : Dict Uuid Bytes) (p : Protocol W)
        → I p
        → I (load_cert e cert store p).1
          × (lookup uid (load_cert e cert store p).0
              ≡ or_else (offer uid (holder registry cert) cert.kid) (lookup uid store))
    unfolding load_cert holder or_else
    load_cert-offer uid cert store p inv =
        elim (Result-cases (e.go.parse_certificate cert.raw_data)) [
          | inl (x, failed) ↦ rw (failed, load_cert, holder) (inv, refl)
          | inr (key, parsed) ↦ elim (Result-cases (e.crypto.encode_public_key key)) [
            | inl (x, failed) ↦ rw (parsed, load_cert, holder, failed) (inv, refl)
            | inr (pem, encoded) ↦
                rw (parsed, load_cert, holder, encoded, ← stable.answers pem p inv)
                  (stable.keeps pem p inv, lookup-matched uid cert.kid _ store)
          ]
        ]

    lookup-load_certs :
        (uid : Uuid) (certs : List Certificate) (store : Dict Uuid Bytes) (p : Protocol W)
        → I p
        → lookup uid (load_certs e certs store p).0
          ≡ or_else (skid_for registry uid certs) (lookup uid store)
    unfolding load_certs skid_for or_else
    lookup-load_certs uid [] store p inv = refl
    lookup-load_certs uid (cert ∷ certs) store p inv =
        let (inv', head) = load_cert-offer uid cert store p inv in
        let (store', p') = load_cert e cert store p in
        ground (arith, head, lookup-load_certs uid certs store' p' inv')

    -- Where the answers of `GetUuidForPublicKey` do not change meanwhile: after a list was loaded the
    -- counter is 0, and the store has for each UUID the KID of the last
    -- certificate of the list whose key is registered for it and whose KID has `SkidLen` bytes, and
    -- nothing if there is none.
    pub lookup-load_skids :
        (client : ExtendedClient) (interval : Interval) (uid : Uuid) (certs : List Certificate)
        (p : Protocol W) (w : W)
        → request_certificate_list e client e.crypto.verify p.world ≡ (ok certs, w)
        → I (record p { world = w; cert_load_fail_counter = 0 })
        → ((load_skids e client interval p).cert_load_fail_counter ≡ 0)
          × (lookup uid (load_skids e client interval p).skid_store ≡ skid_for registry uid certs)
    unfolding load_skids or_else lookup
    lookup-load_skids client interval uid certs p w loaded inv =
        let fresh : Protocol W = record p { world = w; cert_load_fail_counter = 0 } in
        rw (loaded, load_skids)
          (
            ap (λ (q : Protocol W). q.cert_load_fail_counter) (load_certs_frame certs [] fresh),
            ground (arith, lookup-load_certs uid certs [] fresh inv),
          )
