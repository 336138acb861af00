-- ===== src/IdentityHandler/Steps/Parallel.antt =====
-- Registrations beside one another, in any order of their steps.
use mathlib.Core.Path.{subst}
use mathlib.Core.List.{Memᴰ}
use ubirch_cose_client_go.Prelude.{
  ℕ, ◌≡◌, sym, ap, ◌∙◌, Option, List, [], ◌∷◌, ◌++◌, Bytes, All-append,
}
use ubirch_cose_client_go.Errors.{Result, ok}
use ubirch_cose_client_go.Context.{Uuid, Identity}
use ubirch_cose_client_go.Libs.{Env}
use ubirch_cose_client_go.Protocol.Identities.{IsSealing}
use ubirch_cose_client_go.Threads.{Thread, returned, calling, advance}
use ubirch_cose_client_go.Threads.Safety.{
  Rules, Safe, AllSafe, AllSafe-Follows, advance-AllKept, calling-Safe,
}
use ubirch_cose_client_go.IdentityHandler.{IdentityHandler, Backend, Setup}
use ubirch_cose_client_go.Main.Registered.{IsConverting}
use ubirch_cose_client_go.IdentityHandler.Steps.{in_world, init_identity_steps}
use ubirch_cose_client_go.IdentityHandler.Steps.Rely.{
  IsRegistering, Device-unique, AreCreated, in_world-AreCreated,
}
use ubirch_cose_client_go.IdentityHandler.Steps.Kept.{own}
use ubirch_cose_client_go.IdentityHandler.Steps.Created.{
  Created, Registered, Registered-GoesOn, init_identity-Safe,
}

-- A registration that has returned: its arguments and its result.
pub record Done : Type 0 where
  pub uid : Uuid
  pub auth : Bytes
  pub result : Result Bytes

-- What is shared, and the registrations that run or have returned.
pub record Registering (W : Type 0) : Type 0 where
  pub setup : Setup W
  pub registrations : List (Thread (Setup W) Done)

module _ {W Tx PublicKey : Type 0} (e : Env W Tx PublicKey) (b : Backend W Tx)
    (i : IdentityHandler) where
  abbrev pub registering : Uuid → Bytes → Thread (Setup W) Done
  registering uid auth =
      calling (init_identity_steps e b i uid auth)
        (λ r. returned (record { uid = uid; auth = auth; result = r }))

  -- A registration begins, or takes its next step, or the world goes on, as `Later` says.
  pub data Step (Later : W → W → Type 0) (s : Registering W) : Registering W → Type 0 where
    begin :
        (uid : Uuid) (auth : Bytes)
        → Step Later s (record s { registrations = s.registrations ++ (registering uid auth ∷ []) })
    turn :
        (n : ℕ)
        → Step Later s (record s {
          setup = (advance n s.registrations s.setup).1;
          registrations = (advance n s.registrations s.setup).0;
        })
    outside :
        (w : W)
        → Later s.setup.protocol.world w
        → Step Later s (record s { setup = in_world w s.setup })

  -- From a state in which nothing has been registered.
  pub data Reach (Later : W → W → Type 0) (s : Setup W) : Registering W → Type 0 where
    start : Reach Later s (record { setup = record s { created = [] }; registrations = [] })
    onward : {t u : Registering W} → Reach Later s t → Step Later t u → Reach Later s u

module _ {W Tx PublicKey : Type 0} (e : Env W Tx PublicKey) (b : Backend W Tx) (i : IdentityHandler)
    (Later : W → W → Type 0) (Inserted : Option Tx → Identity → W → Type 0)
    (Row : Uuid → Identity → W → Type 0) (laws : IsRegistering e b Later Inserted Row)
    (sealing : IsSealing e) (converting : IsConverting e) where
  abbrev here : Rules (Setup W)
  here = own e b i Later Inserted Row laws sealing converting

  abbrev Promise : Done → Setup W → Type 0
  Promise d = Registered e b i Later Inserted Row laws sealing converting d.uid d.auth d.result

  registering-Safe :
      (uid : Uuid) (auth : Bytes) (s : Setup W) → Safe here Promise (registering e b i uid auth) s
  registering-Safe uid auth s =
      let promised = Registered e b i Later Inserted Row laws sealing converting uid auth in
      calling-Safe here promised Promise (init_identity_steps e b i uid auth)
        (λ r. returned (record { uid = uid; auth = auth; result = r })) s
        (init_identity-Safe e b i Later Inserted Row laws sealing converting uid auth s)
        (λ r t later holds registered u later' holds'.
          Registered-GoesOn e b i Later Inserted Row laws sealing converting uid auth r t u later'
            registered)

  record IsSafe (s : Registering W) : Type 0 where
    setup : AreCreated e b Later Inserted Row laws s.setup
    registrations : AllSafe here Promise s.registrations s.setup

  Step-IsSafe : {s t : Registering W} → Step e b i Later s t → IsSafe s → IsSafe t
  Step-IsSafe {s} (begin uid auth) safe = record {
    setup = safe.setup;
    registrations =
        All-append (λ t. Safe here Promise t s.setup) s.registrations _ safe.registrations
          (registering-Safe uid auth s.setup, tt);
  }
  Step-IsSafe {s} (turn n) safe =
      let k =
        advance-AllKept here Promise n s.registrations s.setup safe.setup safe.registrations in
      record { setup = k.holds; registrations = k.safe }
  Step-IsSafe {s} (outside w on) safe = record {
    setup = in_world-AreCreated e b Later Inserted Row laws s.setup w on safe.setup;
    registrations =
        AllSafe-Follows here Promise s.registrations s.setup (in_world w s.setup)
          (on, λ uid logged. logged) safe.registrations;
  }

  Reach-IsSafe : (s : Setup W) {t : Registering W} → Reach e b i Later s t → IsSafe t
  Reach-IsSafe s start = record { setup = tt; registrations = tt }
  Reach-IsSafe s (onward reached step) = Step-IsSafe step (Reach-IsSafe s reached)

  AllSafe_promise :
      (threads : List (Thread (Setup W) Done)) (d : Done) (s : Setup W)
      → AreCreated e b Later Inserted Row laws s
      → AllSafe here Promise threads s
      → Memᴰ (returned d) threads
      → Promise d s
  AllSafe_promise [] d s created safe member = elim member [ ]
  AllSafe_promise (t ∷ threads) d s created (safe, rest) (Memᴰ.head same) =
      (subst (λ u. Safe here Promise u s) (sym same) safe) s (here.stays s) created
  AllSafe_promise (t ∷ threads) d s created (safe, rest) (Memᴰ.tail deeper) =
      AllSafe_promise threads d s created rest deeper

  -- However registrations are interleaved, with one another and with what others do to the database,
  -- one that has returned a CSR has made its device: a row of its UUID that opens to an identity with
  -- its token, and a line of the audit log. The conditions: what was inserted becomes rows behind a
  -- commit, rows stay, decryption undoes encryption, and public keys are converted both ways.
  pub Reach-Created :
      (s : Setup W) (t : Registering W) (uid : Uuid) (auth csr : Bytes)
      → Reach e b i Later s t
      → Memᴰ (returned (record { uid = uid; auth = auth; result = ok csr })) t.registrations
      → Created e b i Later Inserted Row laws sealing converting uid auth t.setup
  Reach-Created s t uid auth csr reached member =
      let safe = Reach-IsSafe s reached in
      AllSafe_promise t.registrations (record { uid = uid; auth = auth; result = ok csr }) t.setup
        safe.setup safe.registrations member

  -- Registrations of one UUID that have returned a CSR, however they were interleaved, had the same
  -- token: of two with different tokens, at most one returns a CSR. The conditions: a UUID has one
  -- row, what was inserted becomes rows behind a commit, rows stay, decryption undoes encryption,
  -- and public keys are converted both ways.
  Reach-same_token :
      (s : Setup W) (t : Registering W) (uid : Uuid) (auth auth' csr csr' : Bytes)
      → Reach e b i Later s t
      → Memᴰ (returned (record { uid = uid; auth = auth; result = ok csr })) t.registrations
      → Memᴰ (returned (record { uid = uid; auth = auth'; result = ok csr' })) t.registrations
      → auth ≡ auth'
  Reach-same_token s t uid auth auth' csr csr' reached first second =
      let c = Reach-Created s t uid auth csr reached first in
      let c' = Reach-Created s t uid auth' csr' reached second in
      let same =
        Device-unique e b Later Inserted Row laws uid t.setup.protocol.world c.device c'.device in
      sym c.token ∙ ap (λ (d : Identity). d.auth_token) same ∙ c'.token
