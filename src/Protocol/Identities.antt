-- ===== src/Protocol/Identities.antt =====
-- The identities that a `Protocol` stores, fetches and caches.
use ubirch_cose_client_go.Prelude.{
  ◌<◌, ◌≡◌, ◌≢◌, ◌↔◌, refl, inl, inr, true, false, Option-cases, Option, none, arith, Bytes, length,
  nat_eq, bytes_eq,
}
use ubirch_cose_client_go.Dict.{lookup, lookup-insert_self}
use ubirch_cose_client_go.Errors.{Error, not_exist, Result, ok, err, Result-cases}
use ubirch_cose_client_go.Context.{Uuid, uuid_nil, Identity}
use ubirch_cose_client_go.Libs.{Env}
use ubirch_cose_client_go.Protocol.{
  Protocol, check_identity_attributes_not_nil, store_new_identity, open_identity,
  fetch_identity_from_storage, get_identity, exists, known, retry,
}

-- No attribute is missing.
pub record IsComplete (id : Identity) : Type 0 where
  pub uid : id.uid ≢ uuid_nil
  pub private_key : 0 < length id.private_key
  pub public_key : 0 < length id.public_key
  pub auth_token : 0 < length id.auth_token

by_outcome :
    (r : Result Identity) (x : Error)
    → ((known r ≡ ok true) ↔ ((id : Identity) × (r ≡ ok id)))
      × ((known r ≡ ok false) ↔ (r ≡ err not_exist))
      × ((known r ≡ err x) ↔ ((r ≡ err x) × (x ≢ not_exist)))
by_outcome (ok id) x = ((λ _. (id, refl), λ _. refl), (λ h. cc, λ h. cc), (λ h. cc, λ h. cc))
by_outcome (err not_exist) x = (
  (λ h. cc, λ (_, h). cc),
  (λ _. refl, λ _. refl),
  (λ h. cc, λ (h, other). absurd (other (cc h))),
)
by_outcome (err y) x = (
  (λ h. cc, λ (_, h). cc),
  (λ h. cc, λ h. cc),
  (λ h. (cc h, λ same. cc (h, same)), λ (h, other). cc h),
)

module _ {W Tx PublicKey : Type 0} (e : Env W Tx PublicKey) where
  -- The check passes exactly for identities with all attributes.
  pub check_identity-IsComplete :
      (id : Identity) → check_identity_attributes_not_nil e id ≡ ok tt → IsComplete id
  unfolding check_identity_attributes_not_nil
  check_identity-IsComplete id h = ground arith

  pub IsComplete-check_identity :
      (id : Identity) → IsComplete id → check_identity_attributes_not_nil e id ≡ ok tt
  unfolding check_identity_attributes_not_nil
  IsComplete-check_identity id h = ground arith

  pub open_identity-IsComplete :
      (stored id : Identity) → open_identity e stored ≡ ok id → IsComplete id
  unfolding open_identity
  open_identity-IsComplete stored id h = ground (arith, check_identity-IsComplete id)

  -- A repeated call returns the same identity from the cache, and changes nothing.
  get_identity-get_identity :
      (uid : Uuid) (id : Identity) (p p' : Protocol W)
      → get_identity e uid p ≡ (ok id, p')
      → get_identity e uid p' ≡ (ok id, p')
  unfolding get_identity
  get_identity-get_identity uid id p p' h = elim (Option-cases (lookup uid p.identity_cache)) [
    | inl miss ↦ ground (arith, lookup-insert_self uid id p.identity_cache)
    | inr (_, hit) ↦ ground arith
  ]

  -- A call that fails leaves the caches, the SKID store and the counter as they were.
  get_identity_failed :
      (uid : Uuid) (x : Error) (p p' : Protocol W)
      → get_identity e uid p ≡ (err x, p')
      → (p' ≡ record p { world = p'.world }) × (lookup uid p.identity_cache ≡ none)
  unfolding get_identity
  get_identity_failed uid x p p' h = elim (Option-cases (lookup uid p.identity_cache)) [
    | inl miss ↦ (ground arith, miss)
    | inr (_, hit) ↦ ground arith
  ]

  -- `Exists` is true where `GetIdentity` returns an identity, false where it returns `ErrNotExist`,
  -- and fails with any other error of it.
  exists_lem :
      (uid : Uuid) (p : Protocol W) (x : Error)
      → (((exists e uid p).0 ≡ ok true) ↔ ((id : Identity) × ((get_identity e uid p).0 ≡ ok id)))
        × (((exists e uid p).0 ≡ ok false) ↔ ((get_identity e uid p).0 ≡ err not_exist))
        × (((exists e uid p).0 ≡ err x) ↔ (((get_identity e uid p).0 ≡ err x) × (x ≢ not_exist)))
  unfolding exists
  exists_lem uid p x = by_outcome (get_identity e uid p).0 x

  -- The outcomes of a successful store: the record that the manager was given.
  pub record Stored (tx : Option Tx) (id : Identity) (w' : W) : Type 0 where
    pub given : Identity
    pub before : W
    pub same_uid : given.uid ≡ id.uid
    pub same_token : given.auth_token ≡ id.auth_token
    pub stored : e.manager.store_new_identity tx given before ≡ (ok tt, w')
    pub opens : open_identity e given ≡ ok id

  -- A key decrypts to what was encrypted.
  pub record IsSealing : Type 0 where
    pub decrypt-encrypt :
        (key sealed : Bytes) (w w' : W)
        → e.encrypter.encrypt key w ≡ (ok sealed, w')
        → e.encrypter.decrypt sealed ≡ ok key

  pub open_identity-sealed :
      (id : Identity) (sealed raw : Bytes)
      → e.encrypter.decrypt sealed ≡ ok id.private_key
      → e.crypto.public_key_bytes_to_pem raw ≡ ok id.public_key
      → check_identity_attributes_not_nil e id ≡ ok tt
      → open_identity e (record id { private_key = sealed; public_key = raw }) ≡ ok id
  unfolding open_identity
  open_identity-sealed id sealed raw decrypted to_pem complete = ground arith

  pub store_new_identity-Stored :
      (tx : Option Tx) (id : Identity) (raw : Bytes) (w w' : W)
      → IsSealing
      → e.crypto.public_key_pem_to_bytes id.public_key ≡ ok raw
      → e.crypto.public_key_bytes_to_pem raw ≡ ok id.public_key
      → store_new_identity e tx id w ≡ (ok tt, w')
      → Stored tx id w'
  unfolding store_new_identity
  store_new_identity-Stored tx id raw w w' sealing to_raw to_pem h =
      let (r, w1) = e.encrypter.encrypt id.private_key w in
      elim (Result-cases (check_identity_attributes_not_nil e id)) [
        | inl (x, bad) ↦ ground arith
        | inr (_, complete) ↦ elim (Result-cases r) [
          | inl (x, failed) ↦ ground arith
          | inr (sealed, encrypted) ↦ record {
            given = record id { private_key = sealed; public_key = raw };
            before = w1;
            same_uid = refl;
            same_token = refl;
            stored = ground arith;
            opens =
                open_identity-sealed id sealed raw
                  (sealing.decrypt-encrypt id.private_key sealed w w1 (ground arith)) to_pem
                  complete;
          }
        ]
      ]

  -- Where the manager returns what it was given to store, an identity that was stored is fetched as
  -- it was handed in, its private key decrypted and its public key in PEM. Decryption has to undo
  -- encryption, and the two conversions of the public key each other.
  pub fetch-store_new_identity :
      (tx : Option Tx) (id : Identity) (raw : Bytes) (w w1 w2 w3 : W)
      → IsSealing
      → e.crypto.public_key_pem_to_bytes id.public_key ≡ ok raw
      → e.crypto.public_key_bytes_to_pem raw ≡ ok id.public_key
      → ((given : Identity) (before : W)
          → given.uid ≡ id.uid
          → e.manager.store_new_identity tx given before ≡ (ok tt, w1)
          → e.manager.get_identity id.uid w2 ≡ (ok given, w3))
      → store_new_identity e tx id w ≡ (ok tt, w1)
      → fetch_identity_from_storage e id.uid w2 ≡ (ok id, w3)
  unfolding fetch_identity_from_storage retry
  fetch-store_new_identity tx id raw w w1 w2 w3 sealing to_raw to_pem kept h =
      let s = store_new_identity-Stored tx id raw w w1 sealing to_raw to_pem h in
      ground (arith, kept s.given s.before s.same_uid s.stored, s.opens)
