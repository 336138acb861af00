-- ===== src/Threads/Bounded.antt =====
-- Goroutines that return after so many steps of their own.
use mathlib.Core.Path.{subst}
use ubirch_cose_client_go.Prelude.{ℕ, zero, suc, ◌+◌, ◌≤◌, ◌≡◌, refl, List, [], ◌∷◌, length, arith}
use ubirch_cose_client_go.Threads.{Thread, returned, next, calling, focus}

module _ {S : Type 0} where
  -- The goroutine behind its next accesses, which find the states of the list: what the others do
  -- in between is left open.
  unfoldable pub meeting : {A : Type 0} → List S → Thread S A → Thread S A
  meeting states (returned a) = returned a
  meeting [] (next f rest) = next f rest
  meeting (s ∷ states) (next f rest) = meeting states (rest s)

  -- At most `n` accesses, whatever they find.
  abbrev pub IsWithin : {A : Type 0} → ℕ → Thread S A → Type 0
  IsWithin n (returned a) = Unit
  IsWithin zero (next f rest) = ⊥
  IsWithin (suc n) (next f rest) = (s : S) → IsWithin n (rest s)

  pub meeting-IsWithin :
      {A : Type 0} (n : ℕ) (t : Thread S A) (states : List S)
      → IsWithin n t
      → n ≤ length states
      → (a : A) × (meeting states t ≡ returned a)
  unfolding meeting
  meeting-IsWithin n (returned a) states few enough = (a, refl)
  meeting-IsWithin zero (next f rest) states few enough = absurd few
  meeting-IsWithin (suc n) (next f rest) [] few enough = absurd (omega arith)
  meeting-IsWithin (suc n) (next f rest) (s ∷ states) few enough =
      meeting-IsWithin n (rest s) states (few s) (omega arith)

  pub IsWithin-le : {A : Type 0} (m n : ℕ) (t : Thread S A) → m ≤ n → IsWithin m t → IsWithin n t
  IsWithin-le m n (returned a) le few = tt
  IsWithin-le zero n (next f rest) le few = absurd few
  IsWithin-le (suc m) zero (next f rest) le few = absurd (omega arith)
  IsWithin-le (suc m) (suc n) (next f rest) le few =
      λ s. IsWithin-le m n (rest s) (omega arith) (few s)

  pub calling-IsWithin :
      {A B : Type 0} (m n : ℕ) (t : Thread S A) (k : A → Thread S B)
      → IsWithin m t
      → ((a : A) → IsWithin n (k a))
      → IsWithin (m + n) (calling t k)
  unfolding calling
  calling-IsWithin m n (returned a) k few behind =
      IsWithin-le n (m + n) (k a) (omega arith) (behind a)
  calling-IsWithin zero n (next f rest) k few behind = absurd few
  calling-IsWithin (suc m) n (next f rest) k few behind =
      let later : IsWithin (suc (m + n)) (calling (next f rest) k) =
        λ s. calling-IsWithin m n (rest s) k (few s) behind in
      let same : suc (m + n) ≡ suc m + n = omega arith in
      subst (λ j. IsWithin j (calling (next f rest) k)) same later

pub focus-IsWithin :
    {S P A : Type 0} (part : S → P) (replace : P → S → S) (n : ℕ) (t : Thread P A)
    → IsWithin n t
    → IsWithin n (focus part replace t)
unfolding focus
focus-IsWithin part replace n (returned a) few = tt
focus-IsWithin part replace zero (next f rest) few = absurd few
focus-IsWithin part replace (suc n) (next f rest) few =
    λ s. focus-IsWithin part replace n (rest (part s)) (few (part s))
