-- ===== src/IdentityHandler/Steps/Alone.antt =====
-- A registration that nothing interrupts does what `init_identity` does.
use ubirch_cose_client_go.Prelude.{◌≡◌, ◌∙◌, ap, refl, inl, inr, Option, none, Bytes}
use ubirch_cose_client_go.Errors.{Result, ok, err, Exec, ◌>>=◌, Result-cases}
use ubirch_cose_client_go.Context.{Uuid, Identity, commit}
use ubirch_cose_client_go.Libs.{Env}
use ubirch_cose_client_go.Protocol.{
  Protocol, max_db_conn_attempts, close_transaction, start_transaction, store_new_identity,
  check_identity_attributes_not_nil,
}
use ubirch_cose_client_go.Threads.{acting, calling, focus, alone}
use ubirch_cose_client_go.Threads.Alone.{alone-calling, alone-focus, alone-and_then}
use ubirch_cose_client_go.Protocol.Steps.{retry_steps}
use ubirch_cose_client_go.Protocol.Steps.Alone.{alone-retry}
use ubirch_cose_client_go.IdentityHandler.{
  IdentityHandler, Backend, Setup, on_outside, explaining, audit, go_submit, register_public_key,
  create_in, with_transaction, in_transaction, init_identity,
}
use ubirch_cose_client_go.IdentityHandler.Steps.{
  protocol_of, with_protocol, explaining_steps, store_steps, register_steps, create_steps,
  cancelling, with_transaction_steps, in_transaction_steps, keyed_steps, init_identity_steps,
}

alone-acting : {S A : Type 0} (m : Exec S A) (s : S) → alone (acting m) s ≡ m s
unfolding alone
alone-acting m s = refl

alone-explaining :
    {W A : Type 0} (what : Bytes) (m : Exec (Setup W) A) (s : Setup W)
    → alone (explaining_steps what m) s ≡ explaining what m s
unfolding alone calling
alone-explaining what m s = refl

module _ {W Tx PublicKey : Type 0} (e : Env W Tx PublicKey) (b : Backend W Tx)
    (i : IdentityHandler) where
  alone-store :
      (tx : Option Tx) (id : Identity) (s : Setup W)
      → alone (store_steps e b i tx id) s ≡ on_outside (store_new_identity e tx id) s
  unfolding store_steps store_new_identity alone calling
  alone-store tx id s = elim (Result-cases (check_identity_attributes_not_nil e id)) [
    | inl (x, missing) ↦ rw (alone, store_new_identity, missing) refl
    | inr (_, complete) ↦
        let (r, w) = e.encrypter.encrypt id.private_key s.protocol.world in
        elim (Result-cases r) [
          | inl (x, failed) ↦ rw (alone, store_new_identity, complete, failed) refl
          | inr (sealed, encrypted) ↦
              elim (Result-cases (e.crypto.public_key_pem_to_bytes id.public_key)) [
                | inl (x, failed) ↦ rw (alone, store_new_identity, complete, encrypted, failed) refl
                | inr (raw, converted) ↦
                    rw (alone, store_new_identity, complete, encrypted, converted) refl
              ]
        ]
  ]

  alone-register :
      (key : Bytes) (uid : Uuid) (s : Setup W)
      → alone (register_steps e b i key uid) s ≡ register_public_key e b i key uid s
  unfolding register_steps register_public_key go_submit alone
  alone-register key uid = alone-and_then _ _ _ _ (alone-explaining _ _) (λ registration.
      alone-and_then _ _ _ _ (alone-explaining _ _)
        (λ csr. alone-and_then _ _ _ _ (alone-explaining _ _) (λ _ s. refl)))

  alone-create :
      (tx : Option Tx) (id : Identity) (s : Setup W)
      → alone (create_steps e b i tx id) s ≡ create_in e b i tx id s
  unfolding create_steps create_in audit alone
  alone-create tx id = alone-and_then _ _ _ _ (alone-store tx id) (λ _.
      alone-and_then _ _ _ _ (alone-register id.private_key id.uid) (λ csr.
        alone-and_then _ _ _ _ (alone-acting (on_outside (close_transaction e tx commit)))
          (λ _ s. refl)))

  with_transaction_lem :
      (id : Identity) (r : Result (Option Tx)) (s : Setup W)
      → alone (with_transaction_steps e b i id r) s ≡ with_transaction e b i id (r, s)
  unfolding alone
  with_transaction_lem id (err x) s = refl
  with_transaction_lem id (ok tx) s =
      alone-calling (create_steps e b i tx id) (cancelling e b i tx) s
      ∙ ap (λ (u : Result Bytes × Setup W). alone (cancelling e b i tx u.0) u.1)
          (alone-create tx id s)

  alone-in_transaction :
      (id : Identity) (s : Setup W)
      → alone (in_transaction_steps e b i id) s ≡ in_transaction e b i id s
  unfolding in_transaction_steps in_transaction start_transaction
  alone-in_transaction id s =
      let starting = retry_steps e max_db_conn_attempts e.manager.start_transaction (ok none) in
      let begun = focus protocol_of with_protocol starting in
      let outcome = on_outside (start_transaction e) s in
      alone-calling begun (with_transaction_steps e b i id) s
      ∙ ap (λ (u : Result (Option Tx) × Setup W). alone (with_transaction_steps e b i id u.0) u.1)
          (alone-focus protocol_of with_protocol (λ p s'. refl) (λ p q s'. refl) (λ s'. refl)
              starting s
            ∙ ap (λ (u : Result (Option Tx) × Protocol W). (u.0, with_protocol u.1 s))
                (alone-retry e max_db_conn_attempts e.manager.start_transaction (ok none)
                  s.protocol))
      ∙ with_transaction_lem id outcome.0 outcome.1

  keyed_lem :
      (uid : Uuid) (auth key : Bytes) (s : Setup W)
      → alone (keyed_steps e b i uid auth key) s
        ≡ (do
          public_key ← (λ s. (e.crypto.get_public_key_from_private_key key, s))
          in_transaction e b i
              (record { uid = uid; private_key = key; public_key = public_key; auth_token = auth }))
            s
  unfolding alone
  keyed_lem uid auth key s = elim (Result-cases (e.crypto.get_public_key_from_private_key key)) [
    | inl (x, failed) ↦ rw (alone, failed) refl
    | inr (pem, made) ↦ rw (alone, made) (alone-in_transaction _ s)
  ]

  -- A registration, run to its end with no step of others between its own, does what `init_identity`
  -- does.
  pub alone-init_identity :
      (uid : Uuid) (auth : Bytes) (s : Setup W)
      → alone (init_identity_steps e b i uid auth) s ≡ init_identity e b i uid auth s
  unfolding init_identity_steps init_identity
  alone-init_identity uid auth =
      alone-and_then _ _ _ _ (alone-explaining _ _) (λ key. keyed_lem uid auth key)
