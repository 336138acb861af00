-- ===== src/IdentityHandler/Created.antt =====
-- What a successful initialisation of an identity has done, and in which order.
use mathlib.Core.Path.{subst}
use ubirch_cose_client_go.Prelude.{
  ◌≡◌, refl, ap, inl, inr, true, false, Option, List, [], ◌∷◌, ◌++◌, Bytes, length, nat_eq, ◌==◌,
  ◌↔◌, arith, ◌<◌, Bool-cases,
}
use ubirch_cose_client_go.Errors.{Result, ok, Result-cases}
use ubirch_cose_client_go.Context.{Uuid, Identity, commit}
use ubirch_cose_client_go.Libs.{Env}
use ubirch_cose_client_go.Protocol.{start_transaction, close_transaction, store_new_identity}
use ubirch_cose_client_go.IdentityHandler.{
  IdentityHandler, Backend, Setup, register_public_key, create_in, in_transaction, init_identity,
  init_missing, init_identities, exists_in,
}

module _ {W Tx PublicKey : Type 0} (e : Env W Tx PublicKey) (b : Backend W Tx)
    (i : IdentityHandler) where
  -- The calls of a registration that went well.
  pub record Registered (key : Bytes) (uid : Uuid) (csr : Bytes) (w w' : W) : Type 0 where
    pub registration : Bytes
    pub w1 : W
    pub w2 : W
    pub signed : e.crypto.get_signed_key_registration key uid w ≡ (ok registration, w1)
    pub requested :
        e.crypto.get_csr key uid i.subject_country i.subject_organization w1 ≡ (ok csr, w2)
    pub submitted : b.submit_key_registration uid registration [] w2 ≡ (ok tt, w')

  register_public_key-eq-ok :
      (key : Bytes) (uid : Uuid) (csr : Bytes) (s s' : Setup W)
      → register_public_key e b i key uid s ≡ (ok csr, s')
      → Registered key uid csr s.protocol.world s'.protocol.world
        × (s' ≡ record s {
          protocol = record (s.protocol) { world = s'.protocol.world };
          started = s.started ++ ((uid, csr) ∷ []);
        })
  unfolding register_public_key
  register_public_key-eq-ok key uid csr s s' h =
      let (r1, w1) = e.crypto.get_signed_key_registration key uid s.protocol.world in
      let (r2, w2) = e.crypto.get_csr key uid i.subject_country i.subject_organization w1 in
      elim (Result-cases r1) [
        | inl (x, failed) ↦ ground arith
        | inr (registration, signed) ↦ elim (Result-cases r2) [
          | inl (x, failed) ↦ ground arith
          | inr (csr', requested) ↦
              elim (Result-cases (b.submit_key_registration uid registration [] w2).0) [
                | inl (x, failed) ↦ ground arith
                | inr (_, submitted) ↦ (
                  record {
                    registration = registration;
                    w1 = w1;
                    w2 = w2;
                    signed = ground arith;
                    requested = ground arith;
                    submitted = ground arith;
                  },
                  ground arith,
                )
              ]
        ]
      ]

  -- A device that was created: its key pair was generated, its identity stored in a transaction, the
  -- key registered with what its private key signs, and the transaction committed, one behind the
  -- other.
  pub record Created (uid : Uuid) (auth csr : Bytes) (w w' : W) : Type 0 where
    pub private_key : Bytes
    pub public_key : Bytes
    pub tx : Option Tx
    pub w1 : W
    pub w2 : W
    pub w3 : W
    pub w4 : W
    pub w5 : W
    pub generated : e.crypto.generate_key w ≡ (ok private_key, w1)
    pub paired : e.crypto.get_public_key_from_private_key private_key ≡ ok public_key
    pub begun : start_transaction e w1 ≡ (ok tx, w2)
    pub stored :
        store_new_identity e tx
          (record {
            uid = uid;
            private_key = private_key;
            public_key = public_key;
            auth_token = auth;
          })
          w2
        ≡ (ok tt, w3)
    pub registered : Registered private_key uid csr w3 w4
    pub committed : close_transaction e tx commit w4 ≡ (ok tt, w5)
    pub released : w' ≡ b.cancel tx w5

  -- What changes beside the world.
  abbrev pub Logged : Uuid → Bytes → Setup W → Setup W → Type 0
  Logged uid csr s s' = s' ≡ record {
    protocol = record (s.protocol) { world = s'.protocol.world };
    created = s.created ++ (uid ∷ []);
    started = s.started ++ ((uid, csr) ∷ []);
  }

  -- The same for the part with the transaction.
  record CreatedIn (tx : Option Tx) (id : Identity) (csr : Bytes) (s s' : Setup W) : Type 0 where
    w3 : W
    w4 : W
    stored : store_new_identity e tx id s.protocol.world ≡ (ok tt, w3)
    registered : Registered id.private_key id.uid csr w3 w4
    committed : close_transaction e tx commit w4 ≡ (ok tt, s'.protocol.world)
    logged : Logged id.uid csr s s'

  create_in-eq-ok :
      (tx : Option Tx) (id : Identity) (csr : Bytes) (s s' : Setup W)
      → create_in e b i tx id s ≡ (ok csr, s')
      → CreatedIn tx id csr s s'
  unfolding create_in
  create_in-eq-ok tx id csr s s' h =
      let (r1, w1) = store_new_identity e tx id s.protocol.world in
      let stored_state : Setup W = record s { protocol = record (s.protocol) { world = w1 } } in
      let (r2, s2) = register_public_key e b i id.private_key id.uid stored_state in
      elim (Result-cases r1) [
        | inl (x, failed) ↦ ground arith
        | inr (_, stored) ↦ elim (Result-cases r2) [
          | inl (x, failed) ↦ ground arith
          | inr (csr', registered) ↦
              elim (Result-cases (close_transaction e tx commit s2.protocol.world).0) [
                | inl (x, failed) ↦ ground arith
                | inr (_, committed) ↦
                    let same : csr' ≡ csr = ground arith in
                    let (chain, frame) =
                      register_public_key-eq-ok id.private_key id.uid csr stored_state s2
                        (ground arith) in
                    record {
                      w3 = w1;
                      w4 = s2.protocol.world;
                      stored = ground arith;
                      registered = chain;
                      committed = ground arith;
                      logged = ground (arith, frame);
                    }
              ]
        ]
      ]

  -- Where `initIdentity` returns a CSR, a key pair was generated, its identity was stored in a
  -- transaction, the key was registered, and only then the transaction was committed. The device is
  -- in the audit log once, and the submission of the CSR is started once. The caches and the SKID
  -- store are as before.
  pub init_identity-Created :
      (uid : Uuid) (auth csr : Bytes) (s s' : Setup W)
      → init_identity e b i uid auth s ≡ (ok csr, s')
      → Created uid auth csr s.protocol.world s'.protocol.world × Logged uid csr s s'
  unfolding init_identity in_transaction
  init_identity-Created uid auth csr s s' h =
      let (r1, w1) = e.crypto.generate_key s.protocol.world in
      elim (Result-cases r1) [
        | inl (x, failed) ↦ ground arith
        | inr (private_key, generated) ↦
            elim (Result-cases (e.crypto.get_public_key_from_private_key private_key)) [
              | inl (x, failed) ↦ ground arith
              | inr (public_key, paired) ↦
                  let (r2, w2) = start_transaction e w1 in
                  elim (Result-cases r2) [
                    | inl (x, failed) ↦ ground arith
                    | inr (tx, begun) ↦
                        let id : Identity = record {
                          uid = uid;
                          private_key = private_key;
                          public_key = public_key;
                          auth_token = auth;
                        } in
                        let open_state : Setup W = record s {
                          protocol = record (s.protocol) { world = w2 };
                        } in
                        let s3 = (create_in e b i tx id open_state).1 in
                        let inside = create_in-eq-ok tx id csr open_state s3 (ground arith) in
                        (
                          record {
                            private_key = private_key;
                            public_key = public_key;
                            tx = tx;
                            w1 = w1;
                            w2 = w2;
                            w3 = inside.w3;
                            w4 = inside.w4;
                            w5 = s3.protocol.world;
                            generated = ground arith;
                            paired = paired;
                            begun = ground arith;
                            stored = inside.stored;
                            registered = inside.registered;
                            committed = inside.committed;
                            released = ground arith;
                          },
                          ground (arith, inside.logged),
                        )
                  ]
            ]
      ]

  -- How a list of identities is worked through: those that exist are skipped, the others have a
  -- token and are created.
  pub data Inits : List Identity → Setup W → Setup W → Type 0 where
    done : {s : Setup W} → Inits [] s s
    skipped :
        {id : Identity} {ids : List Identity} {s s1 s' : Setup W}
        → exists_in e b i id.uid s ≡ (ok true, s1)
        → Inits ids s1 s'
        → Inits (id ∷ ids) s s'
    created :
        {id : Identity} {ids : List Identity} {csr : Bytes} {s s1 s2 s' : Setup W}
        → exists_in e b i id.uid s ≡ (ok false, s1)
        → 0 < length id.auth_token
        → init_identity e b i id.uid id.auth_token s1 ≡ (ok csr, s2)
        → Inits ids s2 s'
        → Inits (id ∷ ids) s s'

  init_missing-eq-ok :
      (id : Identity) (s s' : Setup W)
      → init_missing e b i id false s ≡ (ok tt, s')
      → (0 < length id.auth_token)
        × ((csr : Bytes) × (init_identity e b i id.uid id.auth_token s ≡ (ok csr, s')))
  unfolding init_missing
  init_missing-eq-ok id s s' h =
      let (r, s1) = init_identity e b i id.uid id.auth_token s in
      elim (Bool-cases (length id.auth_token == 0)) [
        | inl none_given ↦ ground arith
        | inr given ↦ elim (Result-cases r) [
          | inl (x, failed) ↦ ground arith
          | inr (csr, initialized) ↦ (ground arith, (csr, ground arith))
        ]
      ]

  run-Inits :
      (ids : List Identity) (s s' : Setup W)
      → init_identities e b i ids s ≡ (ok tt, s')
      → Inits ids s s'
  unfolding init_identities init_missing
  run-Inits [] s s' h = subst (Inits [] s) (ap (λ (t : Result (Unit {0}) × Setup W). t.1) h) done
  run-Inits (id ∷ ids) s s' h =
      let (r, s1) = exists_in e b i id.uid s in
      elim (Result-cases r) [
        | inl (x, failed) ↦ ground arith
        | inr (found, answered) ↦ elim (Bool-cases found) [
          | inl known ↦ skipped (ground arith) (run-Inits ids s1 s' (ground arith))
          | inr unknown ↦
              let (r2, s2) = init_missing e b i id false s1 in
              elim (Result-cases r2) [
                | inl (x, failed) ↦ ground arith
                | inr (_, made) ↦
                    let (token, (csr, initialized)) = init_missing-eq-ok id s1 s2 (ground arith) in
                    created (ground arith) token initialized (run-Inits ids s2 s' (ground arith))
              ]
        ]
      ]

  Inits-run :
      {ids : List Identity} {s s' : Setup W}
      → Inits ids s s'
      → init_identities e b i ids s ≡ (ok tt, s')
  unfolding init_identities init_missing
  Inits-run done = refl
  Inits-run (skipped found rest) = ground (arith, found, Inits-run rest)
  Inits-run (created missing token made rest) = ground (arith, missing, made, Inits-run rest)

  -- `initIdentities` returns no error exactly where every identity of the list existed already or
  -- had a token and was created, one behind the other.
  pub init_identities-Inits :
      (ids : List Identity) (s s' : Setup W)
      → (init_identities e b i ids s ≡ (ok tt, s')) ↔ Inits ids s s'
  init_identities-Inits ids s s' = (run-Inits ids s s', λ run. Inits-run run)
