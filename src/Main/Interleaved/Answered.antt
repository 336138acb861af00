-- ===== src/Main/Interleaved/Answered.antt =====
-- Every handler of a running server comes to its end, if it gets its turns.
use mathlib.Core.Path.{subst}
use ubirch_cose_client_go.Prelude.{
  ℕ, suc, ◌+◌, ◌<◌, ◌≡◌, some, arith, length, All, All-append, get_elem?,
}
use ubirch_cose_client_go.Context.{Uuid}
use ubirch_cose_client_go.Libs.{Env}
use ubirch_cose_client_go.Client.{ExtendedClient}
use ubirch_cose_client_go.Protocol.{Interval, known}
use ubirch_cose_client_go.Http.{Request}
use ubirch_cose_client_go.Signer.{CoseSigner}
use ubirch_cose_client_go.Service.{Helpers}
use ubirch_cose_client_go.Threads.{returned, advance}
use ubirch_cose_client_go.Threads.Bounded.{IsWithin, IsWithin-le, calling-IsWithin, focus-IsWithin}
use ubirch_cose_client_go.Threads.Turns.{
  At, At-get_elem?, All-At, advance-IsWithin, advance-At, advance_self-At, At-append,
}
use ubirch_cose_client_go.Protocol.Steps.{get_identity_steps, exists_steps}
use ubirch_cose_client_go.Protocol.Steps.Bounded.{get_identity-IsWithin}
use ubirch_cose_client_go.Service.Steps.{protocol_of, with_protocol, on_protocol, direct_uuid_steps}
use ubirch_cose_client_go.Service.Steps.Bounded.{direct_uuid-IsWithin}
use ubirch_cose_client_go.Main.Interleaved.{
  Done, answered, looked_up, Running, answering, looking_up, Step, accept, register, turn, load,
  tick, outside, Reach, here, onward,
}

module _ {W Tx PublicKey : Type 0} (e : Env W Tx PublicKey) (client : ExtendedClient)
    (interval : Interval) (c : CoseSigner) (h : Helpers) (Later : W → W → Type 0) where
  -- A run from one state to another in which the handler of index `n` gets at least so many turns.
  pub data Turns (n : ℕ) (s : Running W) : ℕ → Running W → Type 0 where
    begin : Turns n s 0 s
    own :
        {k : ℕ} {t : Running W}
        → Turns n s k t
        → Turns n s (suc k) (record t {
          service = (advance n t.handlers t.service).1;
          handlers = (advance n t.handlers t.service).0;
        })
    other :
        {k : ℕ} {t u : Running W}
        → Turns n s k t
        → Step e client interval c h Later t u
        → Turns n s k u

  answering-IsWithin : (r : Request) → IsWithin 12 (answering e client interval c h r)
  answering-IsWithin r =
      calling-IsWithin 12 0 (direct_uuid_steps e c h r) (λ a. returned (answered r a))
        (direct_uuid-IsWithin e c h r) (λ a. tt)

  looking_up-IsWithin : (uid : Uuid) → IsWithin 12 (looking_up e client interval c h uid)
  unfolding exists_steps
  looking_up-IsWithin uid = IsWithin-le 7 12 (looking_up e client interval c h uid) (omega arith) (
      calling-IsWithin 7 0 (on_protocol (exists_steps e uid))
        (λ found. returned (looked_up uid found))
        (focus-IsWithin protocol_of with_protocol 7 (exists_steps e uid) (
          calling-IsWithin 7 0 (get_identity_steps e uid) (λ r. returned (known r))
            (get_identity-IsWithin e uid) (λ r. tt)))
        (λ found. tt))

  Step-IsWithin :
      {s t : Running W}
      → Step e client interval c h Later s t
      → All (IsWithin 12) s.handlers
      → All (IsWithin 12) t.handlers
  Step-IsWithin {s} (accept r) all =
      All-append (IsWithin 12) s.handlers _ all (answering-IsWithin r, tt)
  Step-IsWithin {s} (register uid) all =
      All-append (IsWithin 12) s.handlers _ all (looking_up-IsWithin uid, tt)
  Step-IsWithin {s} (turn n) all = advance-IsWithin n 12 s.handlers s.service all
  Step-IsWithin load all = all
  Step-IsWithin (tick idle) all = all
  Step-IsWithin (outside w on) all = all

  Reach-IsWithin :
      (w : W) {s : Running W} → Reach e client interval c h Later w s → All (IsWithin 12) s.handlers
  Reach-IsWithin w here = tt
  Reach-IsWithin w (onward reached step) = Step-IsWithin step (Reach-IsWithin w reached)

  Step-At :
      (n k : ℕ) {s t : Running W}
      → Step e client interval c h Later s t
      → At n k s.handlers
      → At n k t.handlers
  Step-At n k {s} (accept r) at = At-append n k s.handlers _ at
  Step-At n k {s} (register uid) at = At-append n k s.handlers _ at
  Step-At n k {s} (turn m) at = advance-At m n k s.handlers s.service at
  Step-At n k load at = at
  Step-At n k (tick idle) at = at
  Step-At n k (outside w on) at = at

  Turns-At :
      (n : ℕ) {s : Running W} {k : ℕ} {t : Running W}
      → Turns n s k t
      → (j : ℕ) → At n (k + j) s.handlers
      → At n j t.handlers
  Turns-At n {s = s} begin j at =
      let same : 0 + j ≡ j = omega arith in subst (λ m. At n m s.handlers) same at
  Turns-At n {s = s} (own {k = k} {t = t} turns) j at =
      let same : suc k + j ≡ k + suc j = omega arith in
      advance_self-At n j t.handlers t.service
        (Turns-At n turns (suc j) (subst (λ m. At n m s.handlers) same at))
  Turns-At n (other turns step) j at = Step-At n j step (Turns-At n turns j at)

  -- A handler of a running server that gets 12 turns has returned by then, whatever happens between
  -- them: other handlers, the loader, new requests, and changes of the world.
  pub Turns-returned :
      (w : W) (s t : Running W) (n : ℕ)
      → Reach e client interval c h Later w s
      → n < length s.handlers
      → Turns n s 12 t
      → (d : Done) × (get_elem? t.handlers n ≡ some (returned d))
  Turns-returned w s t n reached there turns =
      At-get_elem? n t.handlers
        (Turns-At n turns 0 (All-At n 12 s.handlers there (Reach-IsWithin w reached)))
