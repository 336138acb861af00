-- ===== src/Codec/Hex.antt =====
-- `hex.DecodeString`: pairs of digits in either case.
use ubirch_cose_client_go.Prelude.{
  ℕ, ◌+◌, ◌-◌, ◌*◌, ◌≡◌, ◌&&◌, Option, none, some, [], ◌∷◌, arith, Bytes, length, leb,
  if◌then◌else◌, Option-cases, inl, inr,
}
use ubirch_cose_client_go.Codec.Partial.{◌>>=◌}

from_hex_char : ℕ → Option ℕ
from_hex_char c =
    if leb b'0' c && leb c b'9'
    then some (c - 48)
    else if leb b'a' c && leb c b'f'
    then some (c - 87)
    else if leb b'A' c && leb c b'F'
    then some (c - 55)
    else none

pair : Option ℕ → Option ℕ → Option Bytes → Option Bytes
pair hi lo rest = do x ← hi; y ← lo; r ← rest; some ((x * 16 + y) ∷ r)

unfoldable pub decode : Bytes → Option Bytes
unfolding from_hex_char pair
decode [] = some []
decode (a ∷ []) = none
decode (a ∷ b ∷ s) = pair (from_hex_char a) (from_hex_char b) (decode s)

-- A decoded text has two digits for each byte.
pub length-decode : (s b : Bytes) → decode s ≡ some b → length s ≡ 2 * length b
unfolding decode
length-decode [] b h = ground arith
length-decode (x ∷ []) b h = cc
length-decode (x ∷ y ∷ s) b h = elim (Option-cases (decode s)) [
  | inl failed ↦ ground arith
  | inr (r, decoded) ↦ ground (arith, length-decode s r decoded)
]
