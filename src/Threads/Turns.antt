-- ===== src/Threads/Turns.antt =====
-- The goroutine of an index among the others, as they take their turns.
use ubirch_cose_client_go.Prelude.{
  ℕ, zero, suc, ◌<◌, ◌≡◌, refl, some, List, [], ◌∷◌, ◌++◌, arith, length, All, get_elem?,
}
use ubirch_cose_client_go.Threads.{Thread, returned, next, forward, advance}
use ubirch_cose_client_go.Threads.Bounded.{IsWithin, IsWithin-le}

module _ {S A : Type 0} where
  -- The goroutine of index `n` returns after at most `k` steps more.
  abbrev pub At : ℕ → ℕ → List (Thread S A) → Type 0
  At n k [] = ⊥
  At zero k (t ∷ threads) = IsWithin k t
  At (suc n) k (t ∷ threads) = At n k threads

  pub At-get_elem? :
      (n : ℕ) (threads : List (Thread S A))
      → At n 0 threads
      → (a : A) × (get_elem? threads n ≡ some (returned a))
  At-get_elem? n [] at = absurd at
  At-get_elem? zero (returned a ∷ threads) at = (a, refl)
  At-get_elem? zero (next f rest ∷ threads) at = absurd at
  At-get_elem? (suc n) (t ∷ threads) at = At-get_elem? n threads at

  pub All-At :
      (n k : ℕ) (threads : List (Thread S A))
      → n < length threads
      → All (IsWithin k) threads
      → At n k threads
  All-At n k [] there all = absurd (omega arith)
  All-At zero k (t ∷ threads) there (few, all) = few
  All-At (suc n) k (t ∷ threads) there (few, all) = All-At n k threads (omega arith) all

  forward-IsWithin : (k : ℕ) (t : Thread S A) (s : S) → IsWithin k t → IsWithin k (forward t s).0
  unfolding forward
  forward-IsWithin k (returned a) s few = tt
  forward-IsWithin zero (next f rest) s few = absurd few
  forward-IsWithin (suc k) (next f rest) s few =
      IsWithin-le k (suc k) (rest s) (omega arith) (few s)

  forward_once : (k : ℕ) (t : Thread S A) (s : S) → IsWithin (suc k) t → IsWithin k (forward t s).0
  unfolding forward
  forward_once k (returned a) s few = tt
  forward_once k (next f rest) s few = few s

  pub advance-IsWithin :
      (n k : ℕ) (threads : List (Thread S A)) (s : S)
      → All (IsWithin k) threads
      → All (IsWithin k) (advance n threads s).0
  unfolding advance
  advance-IsWithin n k [] s all = tt
  advance-IsWithin zero k (t ∷ threads) s (few, all) = (forward-IsWithin k t s few, all)
  advance-IsWithin (suc n) k (t ∷ threads) s (few, all) = (few, advance-IsWithin n k threads s all)

  -- The turn of any goroutine brings none further away from its end.
  pub advance-At :
      (m n k : ℕ) (threads : List (Thread S A)) (s : S)
      → At n k threads
      → At n k (advance m threads s).0
  unfolding advance
  advance-At m n k [] s at = at
  advance-At zero zero k (t ∷ threads) s at = forward-IsWithin k t s at
  advance-At zero (suc n) k (t ∷ threads) s at = at
  advance-At (suc m) zero k (t ∷ threads) s at = at
  advance-At (suc m) (suc n) k (t ∷ threads) s at = advance-At m n k threads s at

  -- Its own turn brings it nearer.
  pub advance_self-At :
      (n k : ℕ) (threads : List (Thread S A)) (s : S)
      → At n (suc k) threads
      → At n k (advance n threads s).0
  unfolding advance
  advance_self-At n k [] s at = at
  advance_self-At zero k (t ∷ threads) s at = forward_once k t s at
  advance_self-At (suc n) k (t ∷ threads) s at = advance_self-At n k threads s at

  pub At-append :
      (n k : ℕ) (threads others : List (Thread S A)) → At n k threads → At n k (threads ++ others)
  At-append n k [] others at = absurd at
  At-append zero k (t ∷ threads) others at = at
  At-append (suc n) k (t ∷ threads) others at = At-append n k threads others at
