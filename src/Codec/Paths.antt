-- ===== src/Codec/Paths.antt =====
-- `path.Join` and `path.Clean`, and `filepath.Join` where the separator is the slash.
use ubirch_cose_client_go.Prelude.{
  Bool, true, false, List, [], ◌∷◌, ◌++◌, Bytes, ◌==◌, bytes_eq, nat_eq, if◌then◌else◌,
}
pub mod Slashes

-- the parts between the slashes
abbrev in_front : Bytes → List Bytes → List Bytes
in_front s [] = s ∷ []
in_front s (part ∷ parts) = (s ++ part) ∷ parts

unfoldable split : Bytes → List Bytes
split [] = [] ∷ []
split (c ∷ s) = let rest = split s in if c == b'/' then [] ∷ rest else in_front (c ∷ []) rest

abbrev dot : Bytes
dot = b'.' ∷ []

abbrev dot_dot : Bytes
dot_dot = b'.' ∷ b'.' ∷ []

-- A part `..` takes back the part before it. There is nothing above the root.
abbrev back : Bool → List Bytes → List Bytes
back true [] = []
back false [] = dot_dot ∷ []
back rooted (top ∷ parts) = if top == dot_dot then dot_dot ∷ top ∷ parts else parts

-- the parts that stay, the last first
unfoldable keep : Bool → List Bytes → List Bytes → List Bytes
keep rooted kept [] = kept
keep rooted kept (part ∷ parts) =
    keep rooted
      (if part == []
        then kept
        else if part == dot
        then kept
        else if part == dot_dot
        then back rooted kept
        else part ∷ kept)
      parts

-- the parts from the last to the first, each behind a slash, before `s`
unfoldable slashed : List Bytes → Bytes → Bytes
slashed [] s = s
slashed (part ∷ parts) s = slashed parts (b'/' ∷ (part ++ s))

abbrev rooted_path : List Bytes → Bytes
rooted_path [] = b'/' ∷ []
rooted_path (part ∷ parts) = slashed (part ∷ parts) []

abbrev without_root : Bytes → Bytes
without_root [] = dot
without_root (c ∷ s) = s

unfoldable pub clean : Bytes → Bytes
unfolding split keep slashed
clean [] = dot
clean (c ∷ s) =
    if c == b'/'
    then rooted_path (keep true [] (split s))
    else without_root (slashed (keep false [] (split (c ∷ s))) [])

abbrev joined : Bytes → Bytes → Bytes
joined [] e = e
joined (c ∷ s) [] = c ∷ s ++ (b'/' ∷ [])
joined (c ∷ s) (d ∷ e) = c ∷ s ++ (b'/' ∷ d ∷ e)

abbrev cleaned : Bytes → Bytes
cleaned [] = []
cleaned (c ∷ s) = clean (c ∷ s)

-- what the loop over the elements has put together
unfoldable put_together : Bytes → List Bytes → Bytes
put_together s [] = s
put_together s (e ∷ elements) = put_together (joined s e) elements

unfoldable pub join : List Bytes → Bytes
unfolding put_together
join elements = cleaned (put_together [] elements)
