-- ===== src/Codec/Base64.antt =====
-- `base64.StdEncoding`: `EncodeToString` and `DecodeString`. The decoder skips line ends, wants the
-- padding, and ignores the unused low bits of the last character, as Go's does.
use ubirch_cose_client_go.Prelude.{
  ℕ, ◌+◌, ◌-◌, ◌*◌, ◌/◌, ◌%◌, ◌≤◌, ◌<◌, ◌≡◌, refl, ap, inl, inr, Bool, false, ◌&&◌, ◌||◌, Option,
  none, some, [], ◌∷◌, arith, Bytes, All, length, ltb, leb, nat_beq, if◌then◌else◌, Option-cases,
}
use ubirch_cose_client_go.Codec.Partial.{◌>>=◌}

digit : ℕ → ℕ
digit n =
    if ltb n 26
    then n + 65
    else if ltb n 52
    then n + 71
    else if ltb n 62
    then n - 52 + 48
    else if nat_beq n 62
    then b'+'
    else b'/'

value : ℕ → Option ℕ
value c =
    if leb b'A' c && leb c b'Z'
    then some (c - 65)
    else if leb b'a' c && leb c b'z'
    then some (c - 71)
    else if leb b'0' c && leb c b'9'
    then some (c - 48 + 52)
    else if nat_beq c b'+'
    then some 62
    else if nat_beq c b'/'
    then some 63
    else none

unfoldable pub encode : Bytes → Bytes
unfolding digit
encode [] = []
encode (a ∷ []) = digit (a / 4) ∷ digit (a % 4 * 16) ∷ b'=' ∷ b'=' ∷ []
encode (a ∷ b ∷ []) = digit (a / 4) ∷ digit (a % 4 * 16 + b / 16) ∷ digit (b % 16 * 4) ∷ b'=' ∷ []
encode (a ∷ b ∷ c ∷ r) =
    digit (a / 4)
    ∷ digit (a % 4 * 16 + b / 16)
    ∷ digit (b % 16 * 4 + c / 64)
    ∷ digit (c % 64)
    ∷ encode r

abbrev is_line_end : ℕ → Bool
is_line_end c = nat_beq c 10 || nat_beq c 13

strip_line_ends : Bytes → Bytes
strip_line_ends [] = []
strip_line_ends (c ∷ s) = let rest = strip_line_ends s in if is_line_end c then rest else c ∷ rest

-- the last four characters, of which the last two or one are padding
two_padded : ℕ → ℕ → ℕ → Bytes → Option Bytes
two_padded a b d [] =
    if nat_beq d b'=' then (do x ← value a; y ← value b; some ((x * 4 + y / 16) ∷ [])) else none
two_padded a b d (_ ∷ _) = none

one_padded : ℕ → ℕ → ℕ → Bytes → Option Bytes
one_padded a b c [] = do
  x ← value a
  y ← value b
  z ← value c
  some ((x * 4 + y / 16) ∷ (y % 16 * 16 + z / 4) ∷ [])
one_padded a b c (_ ∷ _) = none

quantum : ℕ → ℕ → ℕ → ℕ → Option Bytes → Option Bytes
quantum a b c d rest = do
  x ← value a
  y ← value b
  z ← value c
  w ← value d
  r ← rest
  some ((x * 4 + y / 16) ∷ (y % 16 * 16 + z / 4) ∷ (z % 4 * 64 + w) ∷ r)

decode_quanta : Bytes → Option Bytes
decode_quanta [] = some []
decode_quanta (a ∷ b ∷ c ∷ d ∷ r) =
    let rest = decode_quanta r in
    if nat_beq c b'='
    then two_padded a b d r
    else if nat_beq d b'='
    then one_padded a b c r
    else quantum a b c d rest
decode_quanta _ = none

unfoldable pub decode : Bytes → Option Bytes
unfolding value strip_line_ends decode_quanta two_padded one_padded quantum
decode s = decode_quanta (strip_line_ends s)

abbrev pub IsByte : ℕ → Type 0
IsByte n = n < 256

-- A digit has its value back, and is neither a line end nor padding.
value-digit : (n : ℕ) → n < 64 → value (digit n) ≡ some n
unfolding digit value
value-digit n h = ground arith

is_line_end-digit : (n : ℕ) → is_line_end (digit n) ≡ false
unfolding digit
is_line_end-digit n = ground arith

digit-ne-padding : (n : ℕ) → nat_beq (digit n) b'=' ≡ false
unfolding digit
digit-ne-padding n = ground arith

strip_line_ends-digit :
    (n : ℕ) (s : Bytes) → strip_line_ends (digit n ∷ s) ≡ digit n ∷ strip_line_ends s
unfolding strip_line_ends
strip_line_ends-digit n s = rw is_line_end-digit

strip_line_ends-encode : (b : Bytes) → strip_line_ends (encode b) ≡ encode b
unfolding encode
strip_line_ends-encode [] = unfold strip_line_ends in refl
strip_line_ends-encode (a ∷ []) = simp strip_line_ends-digit (unfold strip_line_ends in refl)
strip_line_ends-encode (a ∷ b ∷ []) = simp strip_line_ends-digit (unfold strip_line_ends in refl)
strip_line_ends-encode (a ∷ b ∷ c ∷ r) = simp (strip_line_ends-digit, strip_line_ends-encode r)

quantum_lem :
    (a b c : ℕ) (r : Bytes)
    → a < 256
    → b < 256
    → c < 256
    → quantum
        (digit (a / 4))
        (digit (a % 4 * 16 + b / 16))
        (digit (b % 16 * 4 + c / 64))
        (digit (c % 64))
        (some r)
      ≡ some (a ∷ b ∷ c ∷ r)
unfolding quantum
quantum_lem a b c r ha hb hc =
    rw
      (
        value-digit (a / 4) (omega arith),
        value-digit (a % 4 * 16 + b / 16) (omega arith),
        value-digit (b % 16 * 4 + c / 64) (omega arith),
        value-digit (c % 64) (omega arith),
      )
      (ground arith)

decode_quanta-encode : (b : Bytes) → All IsByte b → decode_quanta (encode b) ≡ some b
unfolding encode decode_quanta
decode_quanta-encode [] h = refl
decode_quanta-encode (a ∷ []) (ha, _) =
    unfold two_padded in
    rw (value-digit (a / 4) (omega arith), value-digit (a % 4 * 16) (omega arith)) (ground arith)
decode_quanta-encode (a ∷ b ∷ []) (ha, (hb, _)) =
    unfold one_padded in
    rw
      (
        digit-ne-padding (b % 16 * 4),
        value-digit (a / 4) (omega arith),
        value-digit (a % 4 * 16 + b / 16) (omega arith),
        value-digit (b % 16 * 4) (omega arith),
      )
      (ground arith)
decode_quanta-encode (a ∷ b ∷ c ∷ r) (ha, (hb, (hc, h))) =
    simp (decode_quanta-encode r h, digit-ne-padding) (quantum_lem a b c r ha hb hc)

-- What is encoded from bytes decodes to them.
pub decode-encode : (b : Bytes) → All IsByte b → decode (encode b) ≡ some b
unfolding decode
decode-encode b h = rw strip_line_ends-encode (decode_quanta-encode b h)

length-strip_line_ends-le : (s : Bytes) → length (strip_line_ends s) ≤ length s
unfolding strip_line_ends
length-strip_line_ends-le [] = omega arith
length-strip_line_ends-le (c ∷ s) = ground (arith, length-strip_line_ends-le s)

module _ (x y z : ℕ) (b : Bytes) where
  length-two_padded : (s : Bytes) → two_padded x y z s ≡ some b → length b ≡ 1
  unfolding two_padded
  length-two_padded [] h = ground arith
  length-two_padded (_ ∷ _) h = cc

  length-one_padded : (s : Bytes) → one_padded x y z s ≡ some b → length b ≡ 2
  unfolding one_padded
  length-one_padded [] h = ground arith
  length-one_padded (_ ∷ _) h = cc

  length-quantum : (w : ℕ) (r : Bytes) → quantum x y z w (some r) ≡ some b → length b ≡ length r + 3
  unfolding quantum
  length-quantum w r h = ground arith

  quantum-none : (w : ℕ) → quantum x y z w none ≡ none
  unfolding quantum
  quantum-none w = ground arith

length-decode_quanta-le : (s b : Bytes) → decode_quanta s ≡ some b → 4 * length b ≤ 3 * length s
unfolding decode_quanta
length-decode_quanta-le [] b h = ground arith
length-decode_quanta-le (x ∷ y ∷ z ∷ w ∷ s) b h = elim (Option-cases (decode_quanta s)) [
  | inl failed ↦
      ground
        (arith, quantum-none x y z b w, length-two_padded x y w b s, length-one_padded x y z b s)
  | inr (r, rest) ↦ ground (
    arith,
    length-decode_quanta-le s r rest,
    length-quantum x y z b w r,
    length-two_padded x y w b s,
    length-one_padded x y z b s,
  )
]
length-decode_quanta-le _ b h = cc

-- Four characters at least stand for three bytes.
pub length-decode-le : (s b : Bytes) → decode s ≡ some b → 4 * length b ≤ 3 * length s
unfolding decode
length-decode-le s b h =
    omega (arith, length-decode_quanta-le (strip_line_ends s) b h, length-strip_line_ends-le s)

-- Texts of different bytes are different.
pub encode-injective : (a b : Bytes) → All IsByte a → All IsByte b → encode a ≡ encode b → a ≡ b
encode-injective a b ha hb h = cc (ap decode h, decode-encode a ha, decode-encode b hb)
