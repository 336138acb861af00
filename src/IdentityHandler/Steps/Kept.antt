-- ===== src/IdentityHandler/Steps/Kept.antt =====
-- A registration keeps the rules of those that run beside it.

use ubirch_cose_client_go.Prelude.{◌≡◌, refl, ap, inl, inr, Option, [], Bytes}
use ubirch_cose_client_go.Errors.{Result, ok, err, Exec, Result-cases}
use ubirch_cose_client_go.Context.{Uuid, Identity}
use ubirch_cose_client_go.Libs.{Env}
use ubirch_cose_client_go.Protocol.{check_identity_attributes_not_nil, open_identity}
use ubirch_cose_client_go.Protocol.Identities.{IsSealing, open_identity-sealed}
use ubirch_cose_client_go.Threads.{Thread, returned, acting, continuing, and_then}
use ubirch_cose_client_go.Threads.Safety.{Rules, Safe, calling-Safe}
use ubirch_cose_client_go.IdentityHandler.{IdentityHandler, Backend, Setup, on_outside, explained}
use ubirch_cose_client_go.Main.Registered.{IsConverting}
use ubirch_cose_client_go.IdentityHandler.Steps.{
  explaining_steps, sealed_steps, store_steps, register_steps,
}
use ubirch_cose_client_go.IdentityHandler.Steps.Rely.{
  IsRegistering, setup_rules, in_world-AreCreated,
}

module _ {W Tx PublicKey : Type 0} (e : Env W Tx PublicKey) (b : Backend W Tx) (i : IdentityHandler)
    (Later : W → W → Type 0) (Inserted : Option Tx → Identity → W → Type 0)
    (Row : Uuid → Identity → W → Type 0) (laws : IsRegistering e b Later Inserted Row)
    (sealing : IsSealing e) (converting : IsConverting e) where
  abbrev pub own : Rules (Setup W)
  own = setup_rules e b Later Inserted Row laws

  -- What a result says, where a success says it.
  abbrev pub Said : {A : Type 0} → (A → Setup W → Type 0) → Result A → Setup W → Type 0
  Said P (ok a) s = P a s
  Said P (err x) s = Unit

  pub and_then-Safe :
      {A B : Type 0} (P : A → Setup W → Type 0) (Q : B → Setup W → Type 0)
      (t : Thread (Setup W) (Result A)) (k : A → Thread (Setup W) (Result B)) (s : Setup W)
      → Safe own (Said P) t s
      → ((a : A) (s' : Setup W) → own.Follows s s' → P a s' → Safe own (Said Q) (k a) s')
      → Safe own (Said Q) (and_then t k) s
  and_then-Safe P Q t k s first rest =
      calling-Safe own (Said P) (Said Q) t (continuing k) s first behind
    where
      behind :
          (r : Result _) (s' : Setup W)
          → own.Follows s s'
          → own.Holds s'
          → Said P r s'
          → Safe own (Said Q) (continuing k r) s'
      behind (ok a) s' later holds said = rest a s' later said
      behind (err x) s' later holds said = λ s'' later' holds'. tt

  -- a call that changes the world only
  pub acting-Safe :
      {A : Type 0} (P : A → W → Type 0) (m : Exec W A) (s : Setup W)
      → ((a : A) (w w' : W) → Later w w' → P a w → P a w')
      → ((w : W) → Later w (m w).1)
      → ((a : A) (w : W) → Later s.protocol.world w → (m w).0 ≡ ok a → P a (m w).1)
      → Safe own (Said (λ a s'. P a s'.protocol.world)) (acting (on_outside m)) s
  acting-Safe P m s keeps asks says = λ t later holds.
      let w = (m t.protocol.world).1 in
      let on = asks t.protocol.world in
      (
        in_world-AreCreated e b Later Inserted Row laws t w on holds,
        (on, λ uid logged. logged),
        λ u later' holds'. said (m t.protocol.world).0 t.protocol.world u later.0 later'.0 refl,
      )
    where
      said :
          (r : Result _) (w : W) (u : Setup W)
          → Later s.protocol.world w
          → Later (m w).1 u.protocol.world
          → (m w).0 ≡ r
          → Said (λ a s'. P a s'.protocol.world) r u
      said (ok a) w u later later' same =
          keeps a (m w).1 u.protocol.world later' (says a w later same)
      said (err x) w u later later' same = tt

  -- a call whose result is not looked into
  abbrev pub Any : {A : Type 0} → A → Setup W → Type 0
  Any a s = Unit

  pub Any-Said : {A : Type 0} (r : Result A) (s : Setup W) → Said Any r s
  Any-Said (ok a) s = tt
  Any-Said (err x) s = tt

  pub explaining-Safe :
      {A : Type 0} (what : Bytes) (m : Exec W A) (s : Setup W)
      → ((w : W) → Later w (m w).1)
      → Safe own (Said Any) (explaining_steps what (on_outside m)) s
  explaining-Safe what m s asks =
      calling-Safe own (Said Any) (Said Any) (acting (on_outside m))
        (λ r. returned (explained what r)) s
        (acting-Safe (λ a w. Unit) m s (λ a w w' later said. tt) asks (λ a w later same. tt))
        (λ r s' later holds said s'' later' holds'. Any-Said (explained what r) s'')

  -- What was inserted, and the identity that it opens to.
  abbrev pub Sealed : Option Tx → Identity → W → Type 0
  Sealed tx id w =
      (given : Identity) × Inserted tx given w
      × (given.uid ≡ id.uid)
      × (open_identity e given ≡ ok id)

  pub Sealed-Later :
      (tx : Option Tx) (id : Identity) (w w' : W) → Later w w' → Sealed tx id w → Sealed tx id w'
  Sealed-Later tx id w w' later (given, inserted, same, opens) =
      (given, laws.keeps_inserted tx given w w' later inserted, same, opens)

  encrypted-Safe :
      (tx : Option Tx) (id : Identity) (raw encrypted : Bytes) (s : Setup W)
      → e.crypto.public_key_pem_to_bytes id.public_key ≡ ok raw
      → e.crypto.public_key_bytes_to_pem raw ≡ ok id.public_key
      → check_identity_attributes_not_nil e id ≡ ok tt
      → e.encrypter.decrypt encrypted ≡ ok id.private_key
      → Safe own
          (Said (λ a s'. Sealed tx id s'.protocol.world))
          (sealed_steps e b i tx id encrypted)
          s
  encrypted-Safe tx id raw encrypted s to_raw to_pem complete decrypted =
      let given : Identity = record id { private_key = encrypted; public_key = raw } in
      rw (Safe, to_raw)
        (acting-Safe (λ a w. Sealed tx id w) (e.manager.store_new_identity tx given) s
          (λ a w w'. Sealed-Later tx id w w') (laws.stores tx given)
          (λ a w later same. (
            given,
            laws.inserts tx given w _
                (ap (λ r. (r, (e.manager.store_new_identity tx given w).1)) same),
            refl,
            open_identity-sealed e id encrypted raw decrypted to_pem complete,
          )))

  pub store-Safe :
      (tx : Option Tx) (id : Identity) (raw : Bytes) (s : Setup W)
      → e.crypto.public_key_pem_to_bytes id.public_key ≡ ok raw
      → e.crypto.public_key_bytes_to_pem raw ≡ ok id.public_key
      → Safe own (Said (λ a s'. Sealed tx id s'.protocol.world)) (store_steps e b i tx id) s
  unfolding store_steps
  store-Safe tx id raw s to_raw to_pem =
      elim (Result-cases (check_identity_attributes_not_nil e id)) [
        | inl (x, missing) ↦ rw (Safe, missing) (λ s' later holds. tt)
        | inr (_, complete) ↦
            rw (Safe, complete)
              (and_then-Safe (λ encrypted s'. e.encrypter.decrypt encrypted ≡ ok id.private_key)
                (λ a s'. Sealed tx id s'.protocol.world)
                (acting (on_outside (e.encrypter.encrypt id.private_key)))
                (sealed_steps e b i tx id) s
                (acting-Safe (λ encrypted w. e.encrypter.decrypt encrypted ≡ ok id.private_key)
                  (e.encrypter.encrypt id.private_key) s (λ a w w' later same. same)
                  (laws.encrypts id.private_key)
                  (λ encrypted w later same.
                    sealing.decrypt-encrypt id.private_key encrypted w _
                      (ap (λ r. (r, (e.encrypter.encrypt id.private_key w).1)) same)))
                (λ encrypted s' later decrypted.
                  encrypted-Safe tx id raw encrypted s' to_raw to_pem complete decrypted))
      ]

  pub register-Safe :
      (key : Bytes) (uid : Uuid) (s : Setup W)
      → Safe own (Said Any) (register_steps e b i key uid) s
  unfolding register_steps
  register-Safe key uid s =
      and_then-Safe Any Any _ _ s (explaining-Safe _ _ s (laws.signs key uid))
        (λ registration s1 _ _.
          and_then-Safe Any Any _ _ s1
            (explaining-Safe _ _ s1
              (laws.requests key uid i.subject_country i.subject_organization))
            (λ csr s2 _ _.
              and_then-Safe Any Any _ _ s2
                (explaining-Safe _ _ s2 (laws.submits uid registration []))
                (λ _ s3 _ _ s4 later holds. (holds, own.stays s4, λ s5 later' holds'. tt))))
