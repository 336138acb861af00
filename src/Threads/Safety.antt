-- ===== src/Threads/Safety.antt =====
-- What a goroutine keeps to, whatever the others do meanwhile.
use mathlib.Core.Path.{subst}
use ubirch_cose_client_go.Prelude.{ℕ, zero, suc, ◌≡◌, sym, List, [], ◌∷◌, All}
use ubirch_cose_client_go.Threads.{Thread, returned, next, calling, focus, forward, advance}

-- An invariant of the shared state, and how a state may follow another: each goroutine may rely on
-- both for the steps of the others, and has to guarantee them for its own.
pub record Rules (S : Type 0) : Type 1 where
  pub Holds : S → Type 0
  pub Follows : S → S → Type 0
  pub stays : (s : S) → Follows s s
  pub goes_on : (s s' s'' : S) → Follows s s' → Follows s' s'' → Follows s s''

module _ {S : Type 0} (rules : Rules S) where
  -- From a state on, a goroutine keeps the rules, and its answer is as promised.
  abbrev pub Safe : {A : Type 0} → (A → S → Type 0) → Thread S A → S → Type 0
  Safe Promised (returned a) s = (s' : S) → rules.Follows s s' → rules.Holds s' → Promised a s'
  Safe Promised (next f rest) s =
      (s' : S)
      → rules.Follows s s'
      → rules.Holds s'
      → rules.Holds (f s') × rules.Follows s' (f s') × Safe Promised (rest s') (f s')

  module _ {A : Type 0} (Promised : A → S → Type 0) where
    -- The others do no harm.
    pub Safe-Follows :
        (t : Thread S A) (s s' : S) → rules.Follows s s' → Safe Promised t s → Safe Promised t s'
    Safe-Follows (returned a) s s' later safe =
        λ s'' on holds. safe s'' (rules.goes_on s s' s'' later on) holds
    Safe-Follows (next f rest) s s' later safe =
        λ s'' on holds. safe s'' (rules.goes_on s s' s'' later on) holds

    -- It is enough to be safe from all that may follow.
    pub Follows-Safe :
        (t : Thread S A) (s : S)
        → ((s' : S) → rules.Follows s s' → rules.Holds s' → Safe Promised t s')
        → Safe Promised t s
    Follows-Safe (returned a) s safe =
        λ s' later holds. safe s' later holds s' (rules.stays s') holds
    Follows-Safe (next f rest) s safe =
        λ s' later holds. safe s' later holds s' (rules.stays s') holds

    pub record ForwardKept (t : Thread S A) (s s' : S) : Type 0 where
      pub holds : rules.Holds s'
      pub follows : rules.Follows s s'
      pub safe : Safe Promised t s'

    pub forward-ForwardKept :
        (t : Thread S A) (s : S)
        → rules.Holds s
        → Safe Promised t s
        → ForwardKept (forward t s).0 s (forward t s).1
    unfolding forward
    forward-ForwardKept (returned a) s holds safe = record {
      holds = holds;
      follows = rules.stays s;
      safe = safe;
    }
    forward-ForwardKept (next f rest) s holds safe =
        let (holds', follows, safe') = safe s (rules.stays s) holds in
        record { holds = holds'; follows = follows; safe = safe' }

    abbrev pub AllSafe : List (Thread S A) → S → Type 0
    AllSafe threads s = All (λ t. Safe Promised t s) threads

    pub AllSafe-Follows :
        (threads : List (Thread S A)) (s s' : S)
        → rules.Follows s s'
        → AllSafe threads s
        → AllSafe threads s'
    AllSafe-Follows [] s s' later safe = tt
    AllSafe-Follows (t ∷ threads) s s' later (here, rest) =
        (Safe-Follows t s s' later here, AllSafe-Follows threads s s' later rest)

    pub record AllKept (threads : List (Thread S A)) (s s' : S) : Type 0 where
      pub holds : rules.Holds s'
      pub follows : rules.Follows s s'
      pub safe : AllSafe threads s'

    pub advance-AllKept :
        (n : ℕ) (threads : List (Thread S A)) (s : S)
        → rules.Holds s
        → AllSafe threads s
        → AllKept (advance n threads s).0 s (advance n threads s).1
    unfolding advance
    advance-AllKept n [] s holds safe = record { holds = holds; follows = rules.stays s; safe = tt }
    advance-AllKept zero (t ∷ threads) s holds (here, rest) =
        let k = forward-ForwardKept t s holds here in
        record {
          holds = k.holds;
          follows = k.follows;
          safe = (k.safe, AllSafe-Follows threads s (forward t s).1 k.follows rest);
        }
    advance-AllKept (suc n) (t ∷ threads) s holds (here, rest) =
        let k = advance-AllKept n threads s holds rest in
        record {
          holds = k.holds;
          follows = k.follows;
          safe = (Safe-Follows t s (advance n threads s).1 k.follows here, k.safe);
        }

  -- Who promises more, promises less.
  pub Safe-weaker :
      {A : Type 0} (Promised Less : A → S → Type 0) (t : Thread S A) (s : S)
      → ((a : A) (s' : S) → Promised a s' → Less a s')
      → Safe Promised t s
      → Safe Less t s
  Safe-weaker Promised Less (returned a) s less safe =
      λ s' later holds. less a s' (safe s' later holds)
  Safe-weaker Promised Less (next f rest) s less safe = λ s' later holds.
      let (kept, follows, safe') = safe s' later holds in
      (kept, follows, Safe-weaker Promised Less (rest s') (f s') less safe')

  module _ {A B : Type 0} (Promised : A → S → Type 0) (Wanted : B → S → Type 0) where
    -- A caller that is safe behind every promised result is safe.
    pub calling-Safe :
        (t : Thread S A) (k : A → Thread S B) (s : S)
        → Safe Promised t s
        → ((a : A) (s' : S)
            → rules.Follows s s'
            → rules.Holds s'
            → Promised a s'
            → Safe Wanted (k a) s')
        → Safe Wanted (calling t k) s
    unfolding calling
    calling-Safe (returned a) k s safe behind =
        Follows-Safe Wanted (k a) s
          (λ s' later holds. behind a s' later holds (safe s' later holds))
    calling-Safe (next f rest) k s safe behind = λ s' later holds.
        let (holds', follows, safe') = safe s' later holds in
        (
          holds',
          follows,
          calling-Safe (rest s') k (f s') safe' (λ a s'' on.
              behind a s''
                (rules.goes_on s (f s') s'' (rules.goes_on s s' (f s') later follows) on)),
        )

module _ {S P : Type 0} (whole : Rules S) (rules : Rules P) (part : S → P) (replace : P → S → S)
    (part-replace : (p : P) (s : S) → part (replace p s) ≡ p)
    (part-Follows : (s s' : S) → whole.Follows s s' → rules.Follows (part s) (part s'))
    (part-Holds : (s : S) → whole.Holds s → rules.Holds (part s))
    (replace-Holds : (p : P) (s : S)
      → whole.Holds s
      → rules.Holds p
      → rules.Follows (part s) p
      → whole.Holds (replace p s) × whole.Follows s (replace p s)) where
  -- A goroutine that keeps the rules of the part that it sees keeps those of the whole.
  pub focus-Safe :
      {A : Type 0} (Promised : A → P → Type 0) (t : Thread P A) (s : S)
      → Safe rules Promised t (part s)
      → Safe whole (λ a s'. Promised a (part s')) (focus part replace t) s
  unfolding focus
  focus-Safe Promised (returned a) s safe =
      λ s' later holds. safe (part s') (part-Follows s s' later) (part-Holds s' holds)
  focus-Safe Promised (next f rest) s safe = λ s' later holds.
      let (holds', follows, safe') =
        safe (part s') (part-Follows s s' later) (part-Holds s' holds) in
      let (kept, on) = replace-Holds (f (part s')) s' holds holds' follows in
      (
        kept,
        on,
        focus-Safe Promised (rest (part s')) (replace (f (part s')) s') (
            subst (Safe rules Promised (rest (part s'))) (sym (part-replace (f (part s')) s'))
              safe'),
      )
