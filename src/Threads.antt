-- ===== src/Threads.antt =====
-- Goroutines that share a state: each is the code that it still has to run, cut at its accesses of
-- what is shared (a call of `sync.Map`, what is done under a mutex, a call of the database).
pub mod Alone
pub mod Safety
pub mod Bounded
pub mod Turns
use ubirch_cose_client_go.Errors.{Result, ok, err, Exec}
use ubirch_cose_client_go.Prelude.{ℕ, zero, suc, Option, none, some, List, [], ◌∷◌}

-- The remaining run of a goroutine: its answer, or the next access with all that comes behind it,
-- which depends on the state that the access finds.
pub data Thread (S A : Type 0) : Type 0 where
  returned : A → Thread S A
  next : (S → S) → (S → Thread S A) → Thread S A

module _ {S A B : Type 0} where
  -- One access, whose result the rest of the code uses.
  abbrev pub atomic : (S → B × S) → (B → Thread S A) → Thread S A
  atomic m k = next (λ s. (m s).1) (λ s. k (m s).0)

  -- A call of a function, and what the caller does with its result.
  unfoldable pub calling : Thread S A → (A → Thread S B) → Thread S B
  calling (returned a) k = k a
  calling (next f rest) k = next f (λ s. calling (rest s) k)

-- A goroutine that sees only a part of the state.
unfoldable pub focus : {S P A : Type 0} → (S → P) → (P → S → S) → Thread P A → Thread S A
focus part replace (returned a) = returned a
focus part replace (next f rest) =
    next (λ s. replace (f (part s)) s) (λ s. focus part replace (rest (part s)))

module _ {S A : Type 0} where
  -- The run of a goroutine that nothing interrupts.
  unfoldable pub alone : Thread S A → S → A × S
  alone (returned a) s = (a, s)
  alone (next f rest) s = alone (rest s) (f s)

  -- One step of a goroutine, if it has not returned.
  unfoldable pub forward : Thread S A → S → Thread S A × S
  forward (returned a) s = (returned a, s)
  forward (next f rest) s = (rest s, f s)

  -- One step of the goroutine of an index, if there is one.
  unfoldable pub advance : ℕ → List (Thread S A) → S → List (Thread S A) × S
  advance n [] s = ([], s)
  advance zero (t ∷ threads) s = let (t', s') = forward t s in (t' ∷ threads, s')
  advance (suc n) (t ∷ threads) s = let (threads', s') = advance n threads s in (t ∷ threads', s')

module _ {S A : Type 0} where
  -- A call that is one access.
  abbrev pub acting : Exec S A → Thread S (Result A)
  acting m = atomic m returned

module _ {S A B : Type 0} where
  abbrev pub continuing : (A → Thread S (Result B)) → Result A → Thread S (Result B)
  continuing k (ok a) = k a
  continuing k (err x) = returned (err x)

  -- `if err != nil { return err }` behind a call
  abbrev pub and_then : Thread S (Result A) → (A → Thread S (Result B)) → Thread S (Result B)
  and_then t k = calling t (continuing k)
