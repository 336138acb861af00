-- ===== src/Protocol/Retry.antt =====
-- The loop over `maxDbConnAttempts`: which attempt's outcome is returned.
use ubirch_cose_client_go.Prelude.{
  ap, ℕ, zero, suc, ◌≤◌, ◌≡◌, refl, ◌⊎◌, inl, inr, true, false, Bool-cases, arith,
}
use ubirch_cose_client_go.Errors.{Result, Exec}
use ubirch_cose_client_go.Libs.{Env}
use ubirch_cose_client_go.Protocol.{is_transient, retry}

module _ {W Tx PublicKey : Type 0} (e : Env W Tx PublicKey) {A : Type 0} (m : Exec W A) where
  -- The world after `k` attempts.
  abbrev pub after : ℕ → W → W
  after zero w = w
  after (suc k) w = after k (m w).1

  -- The first `k` attempts fail for want of a connection.
  abbrev pub Waits : ℕ → W → Type 0
  Waits zero w = Unit
  Waits (suc k) w = (is_transient e (m w).0 ≡ true) × Waits k (m w).1

  -- `k` attempts wait, at most `n`, and the next one is the last.
  abbrev pub Stops : ℕ → ℕ → W → Type 0
  Stops n k w = (k ≤ n) × Waits k w × ((k ≡ n) ⊎ (is_transient e (m (after k w)).0 ≡ false))

  -- With `n + 1` attempts allowed, the loop makes `k + 1` of them and returns what the last of them
  -- returns: `k` is at most `n`, the `k` before it failed for want of a connection, and the last one
  -- did not, or it was the last allowed.
  pub retry-Stops :
      (n : ℕ) (last : Result A) (w : W)
      → (k : ℕ) × Stops n k w × (retry e (suc n) m last w ≡ m (after k w))
  unfolding retry
  retry-Stops zero last w = (0, (omega arith, tt, inl refl), ground arith)
  retry-Stops (suc n) last w = elim (Bool-cases (is_transient e (m w).0)) [
    | inl waits ↦
        let (k, (bound, waited, stop), returned) = retry-Stops n (m w).0 (m w).1 in
        (
          suc k,
          (
            omega arith,
            (waits, waited),
            elim stop [ inl same ↦ inl (ap suc same) | inr quiet ↦ inr quiet ],
          ),
          rw (waits, retry) returned,
        )
    | inr done ↦ (0, (omega arith, tt, inr done), rw (done, retry))
  ]
