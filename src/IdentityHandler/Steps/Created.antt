-- ===== src/IdentityHandler/Steps/Created.antt =====
-- A registration as a whole keeps the rules of those that run beside it, and has made its device.
use mathlib.Core.List.{Memᴰ}
use mathlib.Core.List.Memᴰ
use mathlib.Core.Path.{subst}
use ubirch_cose_client_go.Prelude.{
  ℕ, zero, suc, ◌≡◌, refl, ap, inl, inr, Bool-cases, Option, none, [], ◌∷◌, Bytes, All-append,
}
use ubirch_cose_client_go.Errors.{Result, ok, err, Result-cases}
use ubirch_cose_client_go.Context.{Uuid, Identity, commit}
use ubirch_cose_client_go.Libs.{Env}
use ubirch_cose_client_go.Protocol.{
  max_db_conn_attempts, close_transaction, is_transient, open_identity,
}
use ubirch_cose_client_go.Protocol.Identities.{IsSealing}
use ubirch_cose_client_go.Threads.{returned, next, acting, focus}
use ubirch_cose_client_go.Threads.Safety.{Rules, Safe, calling-Safe}
use ubirch_cose_client_go.Protocol.Steps.{retry_steps}
use ubirch_cose_client_go.IdentityHandler.{IdentityHandler, Backend, Setup, on_outside}
use ubirch_cose_client_go.Main.Registered.{IsConverting}
use ubirch_cose_client_go.IdentityHandler.Steps.{
  protocol_of, with_protocol, in_world, create_steps, cancelling, with_transaction_steps,
  in_transaction_steps, keyed_steps, init_identity_steps, log_created,
}
use ubirch_cose_client_go.IdentityHandler.Steps.Rely.{
  IsRegistering, Device, GoesOn, in_world-AreCreated,
}
use ubirch_cose_client_go.IdentityHandler.Steps.Kept.{
  own, Said, Any, Sealed, Sealed-Later, and_then-Safe, acting-Safe, explaining-Safe, store-Safe,
  register-Safe,
}

module _ {W Tx PublicKey : Type 0} (e : Env W Tx PublicKey) (b : Backend W Tx) (i : IdentityHandler)
    (Later : W → W → Type 0) (Inserted : Option Tx → Identity → W → Type 0)
    (Row : Uuid → Identity → W → Type 0) (laws : IsRegistering e b Later Inserted Row)
    (sealing : IsSealing e) (converting : IsConverting e) where
  abbrev here : Rules (Setup W)
  here = own e b i Later Inserted Row laws sealing converting

  -- A device with the token, which is in the audit log.
  pub record Created (uid : Uuid) (auth : Bytes) (s : Setup W) : Type 0 where
    pub device : Device e b Later Inserted Row laws uid s.protocol.world
    pub token : device.identity.auth_token ≡ auth
    pub logged : Memᴰ uid s.created

  Created-GoesOn :
      (uid : Uuid) (auth : Bytes) (s t : Setup W)
      → GoesOn e b Later Inserted Row laws s t
      → Created uid auth s
      → Created uid auth t
  Created-GoesOn uid auth s t on c = record {
    device = record {
      given = c.device.given;
      identity = c.device.identity;
      row = laws.keeps uid c.device.given s.protocol.world t.protocol.world on.0 c.device.row;
      opens = c.device.opens;
    };
    token = c.token;
    logged = on.1 uid c.logged;
  }

  -- A CSR that was returned is that of a device.
  abbrev pub Registered : Uuid → Bytes → Result Bytes → Setup W → Type 0
  Registered uid auth =
      Said e b i Later Inserted Row laws sealing converting (λ csr s. Created uid auth s)

  abbrev Committed : Uuid → Identity → W → Type 0
  Committed uid id w = (given : Identity) × Row uid given w × (open_identity e given ≡ ok id)

  logged-Safe :
      (id : Identity) (csr : Bytes) (s : Setup W)
      → Committed id.uid id s.protocol.world
      → Safe here
          (Registered id.uid id.auth_token)
          (next (log_created id.uid) (λ t. returned (ok csr)))
          s
  logged-Safe id csr s (given, row, opens) = λ t later holds.
      let device : Device e b Later Inserted Row laws id.uid t.protocol.world = record {
        given = given;
        identity = id;
        row = laws.keeps id.uid given s.protocol.world t.protocol.world later.0 row;
        opens = opens;
      } in
      (
        All-append (λ uid. Device e b Later Inserted Row laws uid t.protocol.world) t.created
            (id.uid ∷ []) holds (device, tt),
        (laws.stays t.protocol.world, λ uid logged. Memᴰ.append_left (id.uid ∷ []) logged),
        λ u later' holds'.
            Created-GoesOn id.uid id.auth_token (log_created id.uid t) u later' (record {
              device = device;
              token = refl;
              logged = Memᴰ.append_right t.created (Memᴰ.head refl);
            }),
      )

  Committed-close_transaction :
      (tx : Option Tx) (id : Identity) (w : W)
      → Sealed e b i Later Inserted Row laws sealing converting tx id w
      → (close_transaction e tx commit w).0 ≡ ok tt
      → Committed id.uid id (close_transaction e tx commit w).1
  unfolding close_transaction
  Committed-close_transaction tx id w (given, inserted, same, opens) done =
      let committed =
        laws.commits tx given w _ inserted
          (ap (λ r. (r, (e.manager.close_transaction tx commit w).1)) done) in
      (
        given,
        subst (λ uid. Row uid given (e.manager.close_transaction tx commit w).1) same committed,
        opens,
      )

  close-Safe :
      (tx : Option Tx) (id : Identity) (s : Setup W)
      → Sealed e b i Later Inserted Row laws sealing converting tx id s.protocol.world
      → Safe here
          (Said e b i Later Inserted Row laws sealing converting
            (λ a t. Committed id.uid id t.protocol.world))
          (acting (on_outside (close_transaction e tx commit)))
          s
  unfolding close_transaction
  close-Safe tx id s inserted =
      acting-Safe e b i Later Inserted Row laws sealing converting (λ a w. Committed id.uid id w)
        (close_transaction e tx commit) s
        (λ a w w' later (given, row, opens). (given, laws.keeps id.uid given w w' later row, opens))
        (laws.closes tx)
        (λ a w later done.
          Committed-close_transaction tx id w
            (Sealed-Later e b i Later Inserted Row laws sealing converting tx id s.protocol.world w
              later inserted)
            done)

  create-Safe :
      (tx : Option Tx) (id : Identity) (raw : Bytes) (s : Setup W)
      → e.crypto.public_key_pem_to_bytes id.public_key ≡ ok raw
      → e.crypto.public_key_bytes_to_pem raw ≡ ok id.public_key
      → Safe here (Registered id.uid id.auth_token) (create_steps e b i tx id) s
  unfolding create_steps
  create-Safe tx id raw s to_raw to_pem =
      and_then-Safe e b i Later Inserted Row laws sealing converting
        (λ a t. Sealed e b i Later Inserted Row laws sealing converting tx id t.protocol.world)
        (λ csr t. Created id.uid id.auth_token t) _ _ s
        (store-Safe e b i Later Inserted Row laws sealing converting tx id raw s to_raw to_pem)
        (λ _ s1 _ inserted.
          and_then-Safe e b i Later Inserted Row laws sealing converting
            (Any e b i Later Inserted Row laws sealing converting)
            (λ csr t. Created id.uid id.auth_token t) _ _ s1
            (register-Safe e b i Later Inserted Row laws sealing converting id.private_key id.uid
              s1)
            (λ csr s2 on _.
              and_then-Safe e b i Later Inserted Row laws sealing converting
                (λ a t. Committed id.uid id t.protocol.world)
                (λ csr t. Created id.uid id.auth_token t) _ _ s2
                (close-Safe tx id s2 (
                  Sealed-Later e b i Later Inserted Row laws sealing converting tx id
                    s1.protocol.world s2.protocol.world on.0 inserted))
                (λ _ s3 _ committed. logged-Safe id csr s3 committed)))

  pub Registered-GoesOn :
      (uid : Uuid) (auth : Bytes) (r : Result Bytes) (s t : Setup W)
      → GoesOn e b Later Inserted Row laws s t
      → Registered uid auth r s
      → Registered uid auth r t
  Registered-GoesOn uid auth (ok csr) s t on c = Created-GoesOn uid auth s t on c
  Registered-GoesOn uid auth (err x) s t on c = tt

  cancelling-Safe :
      (uid : Uuid) (auth : Bytes) (tx : Option Tx) (r : Result Bytes) (s : Setup W)
      → Registered uid auth r s
      → Safe here (Registered uid auth) (cancelling e b i tx r) s
  cancelling-Safe uid auth tx r s registered = λ t later holds.
      let w = b.cancel tx t.protocol.world in
      let on = laws.cancels tx t.protocol.world in
      (
        in_world-AreCreated e b Later Inserted Row laws t w on holds,
        (on, λ uid logged. logged),
        λ u later' holds'.
            Registered-GoesOn uid auth r s u
              (here.goes_on s t u later
                (here.goes_on t (in_world w t) u (on, λ uid logged. logged) later'))
              registered,
      )

  with_transaction-Safe :
      (id : Identity) (raw : Bytes) (r : Result (Option Tx)) (s : Setup W)
      → e.crypto.public_key_pem_to_bytes id.public_key ≡ ok raw
      → e.crypto.public_key_bytes_to_pem raw ≡ ok id.public_key
      → Safe here (Registered id.uid id.auth_token) (with_transaction_steps e b i id r) s
  with_transaction-Safe id raw (err x) s to_raw to_pem =
      cancelling-Safe id.uid id.auth_token none (err x) s tt
  with_transaction-Safe id raw (ok tx) s to_raw to_pem =
      calling-Safe here (Registered id.uid id.auth_token) (Registered id.uid id.auth_token)
        (create_steps e b i tx id) (cancelling e b i tx) s (create-Safe tx id raw s to_raw to_pem)
        (λ r t later holds registered. cancelling-Safe id.uid id.auth_token tx r t registered)

  -- the loop over attempts
  start-Safe :
      (n : ℕ) (last : Result (Option Tx)) (s : Setup W)
      → Safe here
          (λ r t. Unit)
          (focus protocol_of with_protocol (retry_steps e n e.manager.start_transaction last))
          s
  unfolding retry_steps focus
  start-Safe zero last s = λ t later holds. tt
  start-Safe (suc n) last s = λ t later holds.
      let (r, w) = e.manager.start_transaction t.protocol.world in
      let on = laws.starts t.protocol.world in
      (
        in_world-AreCreated e b Later Inserted Row laws t w on holds,
        (on, λ uid logged. logged),
        elim (Bool-cases (is_transient e r)) [
          | inl again ↦ rw again (start-Safe n r (in_world w t))
          | inr stop ↦ rw stop (λ u later' holds'. tt)
        ],
      )

  keyed-Safe :
      (uid : Uuid) (auth key : Bytes) (s : Setup W)
      → Safe here (Registered uid auth) (keyed_steps e b i uid auth key) s
  unfolding in_transaction_steps
  keyed-Safe uid auth key s = elim (Result-cases (e.crypto.get_public_key_from_private_key key)) [
    | inl (x, failed) ↦ rw (Safe, failed) (λ t later holds. tt)
    | inr (pem, made) ↦
        let (raw, to_raw, to_pem) = converting.converts key pem made in
        let id : Identity = record {
          uid = uid;
          private_key = key;
          public_key = pem;
          auth_token = auth;
        } in
        rw (Safe, made)
          (calling-Safe here (λ r t. Unit) (Registered uid auth) _ (with_transaction_steps e b i id)
            s (start-Safe max_db_conn_attempts (ok none) s)
            (λ r t later holds _. with_transaction-Safe id raw r t to_raw to_pem))
  ]

  -- A registration is safe from any state on.
  pub init_identity-Safe :
      (uid : Uuid) (auth : Bytes) (s : Setup W)
      → Safe here (Registered uid auth) (init_identity_steps e b i uid auth) s
  unfolding init_identity_steps
  init_identity-Safe uid auth s =
      and_then-Safe e b i Later Inserted Row laws sealing converting
        (Any e b i Later Inserted Row laws sealing converting) (λ csr t. Created uid auth t) _ _ s
        (explaining-Safe e b i Later Inserted Row laws sealing converting _ _ s laws.generates)
        (λ key t later _. keyed-Safe uid auth key t)
