-- ===== src/IdentityHandler/Caches.antt =====
-- What the handler of registrations does to the caches of the `Protocol`.
use ubirch_cose_client_go.Prelude.{◌≡◌, inl, inr, bytes_eq, Option, Bytes, arith}
use ubirch_cose_client_go.Errors.{Result-cases}
use ubirch_cose_client_go.Context.{Uuid, Identity}
use ubirch_cose_client_go.Libs.{Env}
use ubirch_cose_client_go.Protocol.{start_transaction, store_new_identity, exists}
use ubirch_cose_client_go.Protocol.Invariant.{IsValid, get_identity-IsValid}
use ubirch_cose_client_go.IdentityHandler.{
  IdentityHandler, Backend, Setup, register_public_key, create_in, in_transaction, init_identity,
  exists_in,
}

-- A registration leaves the caches and the SKIDs as they are.
abbrev SameCaches : {W : Type 0} → Setup W → Setup W → Type 0
SameCaches s s' =
    (s'.protocol.identity_cache ≡ s.protocol.identity_cache)
    × (s'.protocol.skid_store ≡ s.protocol.skid_store)

SameCaches-IsValid :
    {W : Type 0} (s s' : Setup W) → SameCaches s s' → IsValid s.protocol → IsValid s'.protocol
SameCaches-IsValid s s' (identities, skids) v = record {
  identities = rw identities v.identities;
  skids = rw skids v.skids;
}

module _ {W Tx PublicKey : Type 0} (e : Env W Tx PublicKey) (b : Backend W Tx)
    (i : IdentityHandler) where
  register_public_key-SameCaches :
      (key : Bytes) (uid : Uuid) (s : Setup W)
      → SameCaches s (register_public_key e b i key uid s).1
  unfolding register_public_key
  register_public_key-SameCaches key uid s = ground arith

  create_in-SameCaches :
      (tx : Option Tx) (id : Identity) (s : Setup W) → SameCaches s (create_in e b i tx id s).1
  unfolding create_in
  create_in-SameCaches tx id s =
      let (r, w) = store_new_identity e tx id s.protocol.world in
      ground (
        arith,
        register_public_key-SameCaches id.private_key id.uid
            (record s { protocol = record (s.protocol) { world = w } }),
      )

  in_transaction-SameCaches :
      (id : Identity) (s : Setup W) → SameCaches s (in_transaction e b i id s).1
  unfolding in_transaction
  in_transaction-SameCaches id s =
      let (r, w) = start_transaction e s.protocol.world in
      let begun : Setup W = record s { protocol = record (s.protocol) { world = w } } in
      elim (Result-cases r) [
        | inl (x, failed) ↦ ground arith
        | inr (tx, opened) ↦ ground (arith, create_in-SameCaches tx id begun)
      ]

  init_identity-SameCaches :
      (uid : Uuid) (auth : Bytes) (s : Setup W) → SameCaches s (init_identity e b i uid auth s).1
  unfolding init_identity
  init_identity-SameCaches uid auth s =
      let (r, w) = e.crypto.generate_key s.protocol.world in
      let drawn : Setup W = record s { protocol = record (s.protocol) { world = w } } in
      elim (Result-cases r) [
        | inl (x, failed) ↦ ground arith
        | inr (key, generated) ↦
            elim (Result-cases (e.crypto.get_public_key_from_private_key key)) [
              | inl (x, failed) ↦ ground arith
              | inr (public, paired) ↦ ground (
                arith,
                in_transaction-SameCaches
                    (record {
                      uid = uid;
                      private_key = key;
                      public_key = public;
                      auth_token = auth;
                    })
                    drawn,
              )
            ]
      ]

  pub init_identity-IsValid :
      (uid : Uuid) (auth : Bytes) (s : Setup W)
      → IsValid s.protocol
      → IsValid (init_identity e b i uid auth s).1.protocol
  init_identity-IsValid uid auth s v =
      SameCaches-IsValid s (init_identity e b i uid auth s).1 (init_identity-SameCaches uid auth s)
        v

  pub exists_in-IsValid :
      (uid : Uuid) (s : Setup W) → IsValid s.protocol → IsValid (exists_in e b i uid s).1.protocol
  unfolding exists
  exists_in-IsValid uid s v = get_identity-IsValid e uid s.protocol v
