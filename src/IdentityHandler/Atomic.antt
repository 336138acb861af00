-- ===== src/IdentityHandler/Atomic.antt =====
-- What a failed initialisation of an identity leaves behind.
use mathlib.Core.Path.{subst}
use ubirch_cose_client_go.Prelude.{
  ℕ, zero, suc, ◌≡◌, inl, inr, Option, none, [], Bytes, nat_eq, arith, Bool-cases,
}
use ubirch_cose_client_go.Errors.{Error, Result, ok, err, Exec, Result-cases}
use ubirch_cose_client_go.Context.{Uuid, Identity, commit}
use ubirch_cose_client_go.Libs.{Env}
use ubirch_cose_client_go.Protocol.{
  is_transient, retry, start_transaction, close_transaction, store_new_identity,
  check_identity_attributes_not_nil, max_db_conn_attempts,
}
use ubirch_cose_client_go.IdentityHandler.{
  IdentityHandler, Backend, Setup, register_public_key, create_in, in_transaction, init_identity,
}

-- A call keeps what `I` says of the world.
abbrev pub Keeps {ℓ} : {W A : Type ℓ} → (W → Type ℓ) → Exec W A → Type ℓ
Keeps I m = (w : _) → I w → I (m w).1

-- A statement about the world that only a commit changes: the identities in the database outside
-- of open transactions, for example.
pub record IsCommittedOnly {W Tx PublicKey : Type 0} (e : Env W Tx PublicKey) (b : Backend W Tx)
    (I : W → Type 0) : Type 0 where
  pub generate : Keeps I e.crypto.generate_key
  pub start : Keeps I e.manager.start_transaction
  pub encrypt : (key : Bytes) → Keeps I (e.encrypter.encrypt key)
  pub store : (tx : Option Tx) (id : Identity) → Keeps I (e.manager.store_new_identity tx id)
  pub sign : (key : Bytes) (uid : Uuid) → Keeps I (e.crypto.get_signed_key_registration key uid)
  pub request :
      (key : Bytes) (uid : Uuid) (country organization : Bytes)
      → Keeps I (e.crypto.get_csr key uid country organization)
  pub submit :
      (uid : Uuid) (registration auth : Bytes)
      → Keeps I (b.submit_key_registration uid registration auth)
  pub cancel : (tx : Option Tx) (w : W) → I w → I (b.cancel tx w)
  pub failed_commit :
      (tx : Option Tx) (x : Error) (w w' : W)
      → I w
      → e.manager.close_transaction tx commit w ≡ (err x, w')
      → I w'

module _ {W Tx PublicKey : Type 0} (e : Env W Tx PublicKey) (b : Backend W Tx) (i : IdentityHandler)
    (I : W → Type 0) (laws : IsCommittedOnly e b I) where
  retry-Keeps :
      {A : Type 0} (n : ℕ) (m : Exec W A) (last : Result A) → Keeps I m → Keeps I (retry e n m last)
  unfolding retry
  retry-Keeps zero m last kept w inv = inv
  retry-Keeps (suc n) m last kept w inv = elim (Bool-cases (is_transient e (m w).0)) [
    | inl waits ↦ rw (waits, retry) (retry-Keeps n m (m w).0 kept (m w).1 (kept w inv))
    | inr done ↦ rw (done, retry) (kept w inv)
  ]

  store_new_identity-Keeps : (tx : Option Tx) (id : Identity) → Keeps I (store_new_identity e tx id)
  unfolding store_new_identity
  store_new_identity-Keeps tx id w inv =
      elim (Result-cases (check_identity_attributes_not_nil e id)) [
        | inl (x, bad) ↦ rw bad inv
        | inr (_, complete) ↦
            let (r, w1) = e.encrypter.encrypt id.private_key w in
            let inv1 = laws.encrypt id.private_key w inv in
            elim (Result-cases r) [
              | inl (x, failed) ↦ rw (complete, failed) inv1
              | inr (sealed, encrypted) ↦
                  elim (Result-cases (e.crypto.public_key_pem_to_bytes id.public_key)) [
                    | inl (x, failed) ↦ rw (complete, encrypted, failed) inv1
                    | inr (raw, to_raw) ↦ rw (complete, encrypted, to_raw) (laws.store tx _ w1 inv1)
                  ]
            ]
      ]

  register_public_key-Keeps :
      (key : Bytes) (uid : Uuid) (s : Setup W)
      → I s.protocol.world
      → I (register_public_key e b i key uid s).1.protocol.world
  unfolding register_public_key
  register_public_key-Keeps key uid s inv =
      let (r1, w1) = e.crypto.get_signed_key_registration key uid s.protocol.world in
      let inv1 = laws.sign key uid s.protocol.world inv in
      let (r2, w2) = e.crypto.get_csr key uid i.subject_country i.subject_organization w1 in
      let inv2 = laws.request key uid i.subject_country i.subject_organization w1 inv1 in
      elim (Result-cases r1) [
        | inl (x, failed) ↦ rw failed inv1
        | inr (registration, signed) ↦ elim (Result-cases r2) [
          | inl (x, failed) ↦ rw (signed, failed) inv2
          | inr (csr, requested) ↦
              let inv3 = laws.submit uid registration [] w2 inv2 in
              elim (Result-cases (b.submit_key_registration uid registration [] w2).0) [
                | inl (x, failed) ↦ rw (signed, requested, failed) inv3
                | inr (_, submitted) ↦ rw (signed, requested, submitted) inv3
              ]
        ]
      ]

  register_public_key_created :
      (key : Bytes) (uid : Uuid) (s : Setup W)
      → (register_public_key e b i key uid s).1.created ≡ s.created
  unfolding register_public_key
  register_public_key_created key uid s = ground arith

  left :
      (s s' : Setup W) (w : W)
      → I w
      → w ≡ s'.protocol.world
      → s'.created ≡ s.created
      → I s'.protocol.world × (s'.created ≡ s.created)
  left s s' w inv same quiet = (subst I same inv, quiet)

  create_in_failed :
      (tx : Option Tx) (id : Identity) (x : Error) (s s' : Setup W)
      → I s.protocol.world
      → create_in e b i tx id s ≡ (err x, s')
      → I s'.protocol.world × (s'.created ≡ s.created)
  unfolding create_in close_transaction
  create_in_failed tx id x s s' inv h =
      let (r1, w1) = store_new_identity e tx id s.protocol.world in
      let stored_state : Setup W = record s { protocol = record (s.protocol) { world = w1 } } in
      let inv1 = store_new_identity-Keeps tx id s.protocol.world inv in
      let (r2, s2) = register_public_key e b i id.private_key id.uid stored_state in
      let inv2 = register_public_key-Keeps id.private_key id.uid stored_state inv1 in
      let (r3, w3) = e.manager.close_transaction tx commit s2.protocol.world in
      elim (Result-cases r1) [
        | inl (y, failed) ↦ left s s' w1 inv1 (ground arith) (ground arith)
        | inr (_, stored) ↦ elim (Result-cases r2) [
          | inl (y, failed) ↦
              left s s' s2.protocol.world inv2 (ground arith)
                (ground (arith, register_public_key_created id.private_key id.uid stored_state))
          | inr (csr, registered) ↦ elim (Result-cases r3) [
            | inl (y, failed) ↦
                left s s' w3 (laws.failed_commit tx y _ w3 inv2 (ground arith)) (ground arith)
                  (ground (arith, register_public_key_created id.private_key id.uid stored_state))
            | inr (_, committed) ↦ ground arith
          ]
        ]
      ]

  -- Where `initIdentity` fails, every statement about the world that only a commit changes still
  -- holds, and the audit log has no new device.
  pub init_identity_failed :
      (uid : Uuid) (auth : Bytes) (x : Error) (s s' : Setup W)
      → I s.protocol.world
      → init_identity e b i uid auth s ≡ (err x, s')
      → I s'.protocol.world × (s'.created ≡ s.created)
  unfolding init_identity in_transaction start_transaction
  init_identity_failed uid auth x s s' inv h =
      let (r1, w1) = e.crypto.generate_key s.protocol.world in
      let inv1 = laws.generate s.protocol.world inv in
      elim (Result-cases r1) [
        | inl (y, failed) ↦ left s s' w1 inv1 (ground arith) (ground arith)
        | inr (private_key, generated) ↦
            elim (Result-cases (e.crypto.get_public_key_from_private_key private_key)) [
              | inl (y, failed) ↦ left s s' w1 inv1 (ground arith) (ground arith)
              | inr (public_key, paired) ↦
                  let (r2, w2) = start_transaction e w1 in
                  let inv2 =
                    retry-Keeps max_db_conn_attempts e.manager.start_transaction (ok none)
                      laws.start w1 inv1 in
                  elim (Result-cases r2) [
                    | inl (y, failed) ↦
                        left s s' (b.cancel none w2) (laws.cancel none w2 inv2) (ground arith)
                          (ground arith)
                    | inr (tx, begun) ↦
                        let id : Identity = record {
                          uid = uid;
                          private_key = private_key;
                          public_key = public_key;
                          auth_token = auth;
                        } in
                        let open_state : Setup W = record s {
                          protocol = record (s.protocol) { world = w2 };
                        } in
                        let s3 = (create_in e b i tx id open_state).1 in
                        let (inv3, quiet) =
                          create_in_failed tx id x open_state s3 inv2 (ground arith) in
                        left s s' (b.cancel tx s3.protocol.world)
                          (laws.cancel tx s3.protocol.world inv3) (ground arith)
                          (ground (arith, quiet))
                  ]
            ]
      ]
