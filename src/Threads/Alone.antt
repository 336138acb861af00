-- ===== src/Threads/Alone.antt =====
-- Runs of a goroutine that nothing interrupts.
use ubirch_cose_client_go.Prelude.{◌≡◌, ◌∙◌, ap, refl}
use ubirch_cose_client_go.Errors.{Result, ok, err, Exec, continue, ◌>>=◌}
use ubirch_cose_client_go.Threads.{
  Thread, returned, next, calling, focus, alone, and_then, continuing,
}

module _ {S A B : Type 0} where
  pub alone-calling :
      (t : Thread S A) (k : A → Thread S B) (s : S)
      → alone (calling t k) s ≡ (let (a, s') = alone t s in alone (k a) s')
  unfolding alone calling
  alone-calling (returned a) k s = refl
  alone-calling (next f rest) k s = alone-calling (rest s) k (f s)

module _ {S P A : Type 0} (part : S → P) (replace : P → S → S)
    (part-replace : (p : P) (s : S) → part (replace p s) ≡ p)
    (replace-replace : (p q : P) (s : S) → replace p (replace q s) ≡ replace p s)
    (replace-part : (s : S) → replace (part s) s ≡ s) where
  -- It has the result that it would have on its part, and leaves the rest.
  pub alone-focus :
      (t : Thread P A) (s : S)
      → alone (focus part replace t) s ≡ ((alone t (part s)).0, replace (alone t (part s)).1 s)
  unfolding alone focus
  alone-focus (returned a) s = rw (replace-part s) refl
  alone-focus (next f rest) s =
      let q = f (part s) in
      rw
        (
          alone-focus (rest (part s)) (replace q s),
          part-replace q s,
          replace-replace (alone (rest (part s)) q).1 q s,
        )
        refl

module _ {S A B : Type 0} where
  continuing_lem :
      (k : A → Thread S (Result B)) (r : Result A) (s : S)
      → alone (continuing k r) s ≡ continue r (λ a. alone (k a)) s
  unfolding alone
  continuing_lem k (ok a) s = refl
  continuing_lem k (err x) s = refl

  -- Calls one behind the other, if nothing interrupts them, are a chain of calls.
  pub alone-and_then :
      (t : Thread S (Result A)) (k : A → Thread S (Result B)) (m : Exec S A) (f : A → Exec S B)
      → ((s : S) → alone t s ≡ m s)
      → ((a : A) (s : S) → alone (k a) s ≡ f a s)
      → (s : S) → alone (and_then t k) s ≡ (m >>= f) s
  alone-and_then t k m f first rest s =
      alone-calling t (continuing k) s
      ∙ ap (λ (u : Result A × S). alone (continuing k u.0) u.1) (first s)
      ∙ continuing_lem k (m s).0 (m s).1
      ∙ behind (m s).0
    where
      behind : (r : Result A) → continue r (λ a. alone (k a)) (m s).1 ≡ continue r f (m s).1
      behind (ok a) = rest a (m s).1
      behind (err x) = refl
