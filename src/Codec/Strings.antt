-- ===== src/Codec/Strings.antt =====
-- What the program uses of `strings`. Case is that of ASCII.
use ubirch_cose_client_go.Prelude.{
  ℕ, ◌+◌, ◌-◌, ◌≡◌, refl, Bool, true, ◌&&◌, [], ◌∷◌, ◌++◌, map, arith, Bytes, length, length-append,
  take, drop, leb, nat_beq, bytes_beq, bytes_beq_iff, if◌then◌else◌, Option, none, some,
}

abbrev lower : ℕ → ℕ
lower c = if leb b'A' c && leb c b'Z' then c + 32 else c

-- strings.ToLower
unfoldable pub to_lower : Bytes → Bytes
to_lower = map lower

-- strings.HasSuffix
unfoldable pub has_suffix : Bytes → Bytes → Bool
has_suffix s suffix =
    leb (length suffix) (length s) && bytes_beq (drop (length s - length suffix) s) suffix

-- strings.TrimSuffix
unfoldable pub trim_suffix : Bytes → Bytes → Bytes
trim_suffix s suffix = if has_suffix s suffix then take (length s - length suffix) s else s

-- strings.SplitN(s, "\n", 2), as the first part and what stands behind the separator, if it is there
unfoldable pub split_line : Bytes → Bytes × Option Bytes
split_line [] = ([], none)
split_line (c ∷ s) =
    let (line, rest) = split_line s in if nat_beq c 10 then ([], some s) else (c ∷ line, rest)

drop-append : (p s : Bytes) → drop (length p) (p ++ s) ≡ s
drop-append [] s = refl
drop-append (c ∷ p) s = drop-append p s

-- A text with the suffix in place has it.
pub has_suffix-append : (p s : Bytes) → has_suffix (p ++ s) s ≡ true
unfolding has_suffix
has_suffix-append p s =
    let behind : length (p ++ s) - length s ≡ length p = omega (arith, length-append p s) in
    rw (behind, drop-append) (ground (arith, length-append p s, bytes_beq_iff s s))
