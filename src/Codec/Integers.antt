-- ===== src/Codec/Integers.antt =====
-- `strconv.Atoi`, and `int` arithmetic. An `int` is its 64 bits, as the number that they stand for
-- without a sign.
pub mod Decimal
use ubirch_cose_client_go.Prelude.{
  zero, suc, ◌++◌, ◌/◌, ℕ, ◌+◌, ◌-◌, ◌*◌, ◌%◌, ◌&&◌, Option, none, some, [], ◌∷◌, Bytes, ltb, leb,
  nat_beq, if◌then◌else◌,
}

-- the first number that 64 bits do not hold, and the first whose sign is negative
abbrev pub int_size : ℕ
int_size = 18446744073709551616

abbrev pub int_sign : ℕ
int_sign = 9223372036854775808

-- the number that the digits continue
unfoldable digits : ℕ → Bytes → Option ℕ
digits n [] = some n
digits n (c ∷ s) =
    let rest = digits (n * 10 + (c - b'0')) s in if leb b'0' c && leb c b'9' then rest else none

unsigned : Bytes → Option ℕ
unsigned [] = none
unsigned (c ∷ s) = digits 0 (c ∷ s)

positive : Option ℕ → Option ℕ
positive none = none
positive (some n) = if ltb n int_sign then some n else none

negative : Option ℕ → Option ℕ
negative none = none
negative (some n) = if leb n int_sign then some ((int_size - n) % int_size) else none

-- The number of a text in decimal, which may have a sign, or none where `Atoi` fails.
unfoldable pub atoi : Bytes → Option ℕ
unfolding digits unsigned positive negative
atoi [] = none
atoi (c ∷ s) =
    if nat_beq c b'-'
    then negative (unsigned s)
    else if nat_beq c b'+'
    then positive (unsigned s)
    else positive (unsigned (c ∷ s))

-- time.Duration(i) * time.Minute, in nanoseconds
unfoldable pub minutes : ℕ → ℕ
minutes i = i * 60000000000 % int_size

decimal_digits : ℕ → ℕ → Bytes
decimal_digits zero n = []
decimal_digits (suc fuel) n =
    let front = decimal_digits fuel (n / 10) in
    if ltb n 10 then (n + 48) ∷ [] else front ++ ((n % 10 + 48) ∷ [])

-- `%d`. A number has no more digits than it counts, and 0 has one.
unfoldable pub decimal : ℕ → Bytes
unfolding decimal_digits
decimal n = decimal_digits (suc n) n
