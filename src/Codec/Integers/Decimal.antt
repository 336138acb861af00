-- ===== src/Codec/Integers/Decimal.antt =====
-- `Atoi` reads what `%d` writes.
use ubirch_cose_client_go.Prelude.{
  ℕ, zero, suc, ◌+◌, ◌/◌, ◌%◌, ◌≤◌, ◌<◌, ◌≡◌, ap, ◌≢◌, inl, inr, Bool-cases, false, some, [], ◌∷◌,
  ◌++◌, Bytes, ltb, arith,
}
use mathlib.Core.Path.{subst}
use mathlib.Core.List.{append_assoc, append-nil}
use ubirch_cose_client_go.Codec.Integers.{
  digits, unsigned, positive, atoi, decimal, decimal_digits, int_sign,
}

front_fits : (fuel n : ℕ) → ltb n 10 ≡ false → n < suc fuel → n / 10 < fuel
front_fits fuel n long h = ground arith

-- The digits of a number, read behind nothing.
digits-decimal_digits :
    (fuel n : ℕ) (s : Bytes) → n < fuel → digits 0 (decimal_digits fuel n ++ s) ≡ digits n s
unfolding digits decimal_digits
digits-decimal_digits zero n s h = absurd (omega arith)
digits-decimal_digits (suc fuel) n s h = elim (Bool-cases (ltb n 10)) [
  | inl short ↦ ground arith
  | inr long ↦ ground (
    arith,
    append_assoc (decimal_digits fuel (n / 10)) ((n % 10 + 48) ∷ []) s,
    digits-decimal_digits fuel (n / 10) ((n % 10 + 48) ∷ s) (front_fits fuel n long h),
  )
]

-- A text of digits.
abbrev StartsWithDigit : Bytes → Type 0
StartsWithDigit [] = 1 ≤ 0
StartsWithDigit (c ∷ s) = (48 ≤ c) × (c ≤ 57)

decimal_digits-StartsWithDigit :
    (fuel n : ℕ) (s : Bytes) → n < fuel → StartsWithDigit (decimal_digits fuel n ++ s)
unfolding decimal_digits
decimal_digits-StartsWithDigit zero n s h = absurd (omega arith)
decimal_digits-StartsWithDigit (suc fuel) n s h = elim (Bool-cases (ltb n 10)) [
  | inl short ↦ ground arith
  | inr long ↦
      rw (long, append_assoc (decimal_digits fuel (n / 10)) ((n % 10 + 48) ∷ []) s)
        (decimal_digits-StartsWithDigit fuel (n / 10) ((n % 10 + 48) ∷ s)
          (front_fits fuel n long h))
]

atoi-digits :
    (text : Bytes) (n : ℕ)
    → StartsWithDigit text
    → digits 0 text ≡ some n
    → n < int_sign
    → atoi text ≡ some n
unfolding atoi unsigned positive
atoi-digits [] n start read small = absurd (omega arith)
atoi-digits (c ∷ s) n start read small = ground arith

-- A number below 2^63 is read back from its digits.
pub atoi-decimal : (n : ℕ) → n < int_sign → atoi (decimal n) ≡ some n
unfolding decimal digits
atoi-decimal n small =
    let text = decimal_digits (suc n) n in
    atoi-digits (decimal n) n
      (rw (append-nil text) at (decimal_digits-StartsWithDigit (suc n) n [] (omega arith)))
      (rw (append-nil text) at (digits-decimal_digits (suc n) n [] (omega arith))) small

pub decimal-ne-nil : (n : ℕ) → decimal n ≢ []
unfolding decimal
decimal-ne-nil n empty =
    let start = decimal_digits-StartsWithDigit (suc n) n [] (omega arith) in
    let text : decimal n ++ [] ≡ [] = ap (λ (t : Bytes). t ++ []) empty in
    absurd (omega (arith, subst StartsWithDigit text start))
