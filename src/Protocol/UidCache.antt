-- ===== src/Protocol/UidCache.antt =====
-- The cache of `GetUuidForPublicKey`, whose keys are public keys in base64.
use ubirch_cose_client_go.Prelude.{
  ◌≡◌, ◌≢◌, inl, inr, Option-cases, some, arith, Bytes, bytes_eq, bytes_beq_iff, All,
}
use ubirch_cose_client_go.Codec.Base64
use ubirch_cose_client_go.Codec.Base64.{IsByte, encode-injective}
use ubirch_cose_client_go.Dict.{lookup, lookup-insert, lookup-insert_self}
use ubirch_cose_client_go.Errors.{ok, Result-cases}
use ubirch_cose_client_go.Context.{Uuid}
use ubirch_cose_client_go.Libs.{Env}
use ubirch_cose_client_go.Protocol.{
  Protocol, uuid_for_raw_key, fetch_uuid_for_public_key_from_storage, get_uuid_for_public_key,
}

module _ {W Tx PublicKey : Type 0} (e : Env W Tx PublicKey) where
  raw_key_cached :
      (raw : Bytes) (uid : Uuid) (p p' : Protocol W)
      → uuid_for_raw_key e raw p ≡ (ok uid, p')
      → lookup (Base64.encode raw) p'.uid_cache ≡ some uid
  unfolding uuid_for_raw_key
  raw_key_cached raw uid p p' h = elim (Option-cases (lookup (Base64.encode raw) p.uid_cache)) [
    | inl miss ↦ ground (arith, lookup-insert_self (Base64.encode raw) uid p.uid_cache)
    | inr (_, hit) ↦ ground arith
  ]

  raw_key_hit :
      (raw : Bytes) (uid : Uuid) (p : Protocol W)
      → lookup (Base64.encode raw) p.uid_cache ≡ some uid
      → uuid_for_raw_key e raw p ≡ (ok uid, p)
  unfolding uuid_for_raw_key
  raw_key_hit raw uid p hit = ground arith

  -- After a call that returned a UUID, a call for the same key, in the same PEM or another, returns
  -- it from the cache and changes nothing.
  get_uuid-get_uuid :
      (pem pem' raw : Bytes) (uid : Uuid) (p p' : Protocol W)
      → e.crypto.public_key_pem_to_bytes pem ≡ ok raw
      → e.crypto.public_key_pem_to_bytes pem' ≡ ok raw
      → get_uuid_for_public_key e pem p ≡ (ok uid, p')
      → get_uuid_for_public_key e pem' p' ≡ (ok uid, p')
  unfolding get_uuid_for_public_key
  get_uuid-get_uuid pem pem' raw uid p p' to_raw to_raw' h =
      ground (arith, raw_key_cached raw uid p p', raw_key_hit raw uid p')

  raw_key_others :
      (raw other : Bytes) (p : Protocol W)
      → Base64.encode raw ≢ Base64.encode other
      → lookup (Base64.encode other) (uuid_for_raw_key e raw p).1.uid_cache
        ≡ lookup (Base64.encode other) p.uid_cache
  unfolding uuid_for_raw_key
  raw_key_others raw other p differ =
      let (r, w) = fetch_uuid_for_public_key_from_storage e raw p.world in
      elim (Result-cases r) [
        | inl (x, failed) ↦ ground arith
        | inr (uid, fetched) ↦ ground (
          arith,
          lookup-insert (Base64.encode other) (Base64.encode raw) uid p.uid_cache,
          bytes_beq_iff (Base64.encode raw) (Base64.encode other),
        )
      ]

  -- A call for one key leaves what the cache holds for any other key, both being lists of bytes.
  uid_cache-get_uuid :
      (pem raw other : Bytes) (p : Protocol W)
      → e.crypto.public_key_pem_to_bytes pem ≡ ok raw
      → All IsByte raw
      → All IsByte other
      → raw ≢ other
      → lookup (Base64.encode other) (get_uuid_for_public_key e pem p).1.uid_cache
        ≡ lookup (Base64.encode other) p.uid_cache
  unfolding get_uuid_for_public_key
  uid_cache-get_uuid pem raw other p to_raw bytes bytes' differ = ground (
    arith,
    raw_key_others raw other p (λ same. differ (encode-injective raw other bytes bytes' same)),
  )

  -- Only the world and the cache of UUIDs can change.
  pub get_uuid_frame :
      (pem : Bytes) (p : Protocol W)
      → let p' = (get_uuid_for_public_key e pem p).1 in
        p' ≡ record p { world = p'.world; uid_cache = p'.uid_cache }
  unfolding get_uuid_for_public_key uuid_for_raw_key
  get_uuid_frame pem p = ground arith
