-- ===== src/Codec/Paths/Slashes.antt =====
-- A path that was cleaned has no two slashes side by side.
use ubirch_cose_client_go.Prelude.{
  if◌then◌else◌, ℕ, ◌≡◌, ◌≢◌, refl, inl, inr, Bool-cases, Bool, true, false, List, [], ◌∷◌, ◌++◌,
  Bytes, All, ◌==◌, bytes_eq, nat_eq, bytes_beq_iff, arith,
}
use ubirch_cose_client_go.Codec.Paths.{
  split, in_front, dot, dot_dot, back, keep, slashed, rooted_path, without_root, clean,
  put_together, cleaned, join,
}

-- No slash is behind a slash.
abbrev pub IsSingle : Bytes → Type 0
IsSingle [] = Unit
IsSingle (c ∷ []) = Unit
IsSingle (c ∷ d ∷ s) = (c ≡ 47 → d ≢ 47) × IsSingle (d ∷ s)

abbrev NoSlash : Bytes → Type 0
NoSlash part = All (λ c. c ≢ 47) part

abbrev IsPart : Bytes → Type 0
IsPart part = (part ≢ []) × NoSlash part

in_front-NoSlash :
    (c : ℕ) (parts : List Bytes)
    → c ≢ 47
    → All NoSlash parts
    → All NoSlash (in_front (c ∷ []) parts)
in_front-NoSlash c [] plain h = ((plain, tt), tt)
in_front-NoSlash c (part ∷ parts) plain (here, rest) = ((plain, here), rest)

split-NoSlash : (s : Bytes) → All NoSlash (split s)
unfolding split
split-NoSlash [] = (tt, tt)
split-NoSlash (c ∷ s) = elim (Bool-cases (c == b'/')) [
  | inl slash ↦ rw (slash, split) (tt, split-NoSlash s)
  | inr other ↦
      rw (other, split)
        (in_front-NoSlash c (split s) (λ same. ground (arith, other, same)) (split-NoSlash s))
]

dot_dot-IsPart : IsPart dot_dot
dot_dot-IsPart = (λ e. cc e, ground arith)

back-IsPart : (rooted : Bool) (kept : List Bytes) → All IsPart kept → All IsPart (back rooted kept)
back-IsPart true [] h = tt
back-IsPart false [] h = (dot_dot-IsPart, tt)
back-IsPart rooted (top ∷ parts) (here, rest) = elim (Bool-cases (top == dot_dot)) [
  | inl same ↦ rw same (dot_dot-IsPart, (here, rest))
  | inr other ↦ rw other rest
]

keep-IsPart :
    (rooted : Bool) (kept parts : List Bytes)
    → All IsPart kept
    → All NoSlash parts
    → All IsPart (keep rooted kept parts)
unfolding keep
keep-IsPart rooted kept [] h plain = h
keep-IsPart rooted kept (part ∷ parts) h (here, rest) = elim (Bool-cases (part == [])) [
  | inl empty ↦ rw empty (keep-IsPart rooted kept parts h rest)
  | inr given ↦ elim (Bool-cases (part == dot)) [
    | inl same ↦ rw (given, same) (keep-IsPart rooted kept parts h rest)
    | inr more ↦ elim (Bool-cases (part == dot_dot)) [
      | inl up ↦
          rw (given, more, up)
            (keep-IsPart rooted (back rooted kept) parts (back-IsPart rooted kept h) rest)
      | inr name ↦
          rw (given, more, name)
            (keep-IsPart rooted (part ∷ kept) parts
              (((λ e. ground (arith, given, e, bytes_beq_iff part [])), here), h) rest)
    ]
  ]
]

plain-IsSingle :
    (c : ℕ) (part s : Bytes) → c ≢ 47 → NoSlash part → IsSingle s → IsSingle (c ∷ (part ++ s))
plain-IsSingle c [] [] other plain single = tt
plain-IsSingle c [] (d ∷ s) other plain single = (λ same. absurd (other same), single)
plain-IsSingle c (d ∷ part) s other (next, plain) single =
    (λ same. absurd (other same), plain-IsSingle d part s next plain single)

slashed-IsSingle :
    (parts : List Bytes) (s : Bytes) → All IsPart parts → IsSingle s → IsSingle (slashed parts s)
unfolding slashed
slashed-IsSingle [] s h single = single
slashed-IsSingle ([] ∷ parts) s ((given, plain), rest) single = absurd (given refl)
slashed-IsSingle ((c ∷ part) ∷ parts) s ((given, (other, plain)), rest) single =
    slashed-IsSingle parts (47 ∷ c ∷ (part ++ s)) rest
      (λ _. other, plain-IsSingle c part s other plain single)

rooted_path-IsSingle : (parts : List Bytes) → All IsPart parts → IsSingle (rooted_path parts)
rooted_path-IsSingle [] h = tt
rooted_path-IsSingle (part ∷ parts) h = slashed-IsSingle (part ∷ parts) [] h tt

without_root-IsSingle : (s : Bytes) → IsSingle s → IsSingle (without_root s)
without_root-IsSingle [] h = tt
without_root-IsSingle (c ∷ []) h = tt
without_root-IsSingle (c ∷ d ∷ s) (_, h) = h

if-IsSingle : (b : Bool) (x y : Bytes) → IsSingle x → IsSingle y → IsSingle (if b then x else y)
if-IsSingle true x y h k = h
if-IsSingle false x y h k = k

clean-IsSingle : (s : Bytes) → IsSingle (clean s)
unfolding clean
clean-IsSingle [] = tt
clean-IsSingle (c ∷ s) =
    let rooted = keep true [] (split s) in
    let unrooted = keep false [] (split (c ∷ s)) in
    if-IsSingle (c == b'/') (rooted_path rooted) (without_root (slashed unrooted []))
      (rooted_path-IsSingle rooted (keep-IsPart true [] (split s) tt (split-NoSlash s)))
      (without_root-IsSingle (slashed unrooted []) (
        slashed-IsSingle unrooted []
          (keep-IsPart false [] (split (c ∷ s)) tt (split-NoSlash (c ∷ s))) tt))

cleaned-IsSingle : (s : Bytes) → IsSingle (cleaned s)
cleaned-IsSingle [] = tt
cleaned-IsSingle (c ∷ s) = clean-IsSingle (c ∷ s)

pub join-IsSingle : (elements : List Bytes) → IsSingle (join elements)
unfolding join
join-IsSingle elements = cleaned-IsSingle (put_together [] elements)

-- A URL has two slashes behind its scheme.
pub IsSingle-ne-url : (scheme rest : Bytes) → IsSingle (scheme ++ (58 ∷ 47 ∷ 47 ∷ rest)) → ⊥
IsSingle-ne-url [] rest (_, (single, _)) = single refl refl
IsSingle-ne-url (c ∷ []) rest (_, single) = IsSingle-ne-url [] rest single
IsSingle-ne-url (c ∷ d ∷ scheme) rest (_, single) = IsSingle-ne-url (d ∷ scheme) rest single
