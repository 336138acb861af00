-- ===== src/Samples/Encoder.antt =====
-- An encoder for the values of the examples, and its decoder. Lengths stand before the parts.
use ubirch_cose_client_go.Prelude.{
  ℕ, zero, suc, ◌≡◌, refl, ap, Option, none, some, [], ◌∷◌, ◌++◌, Bytes, length, take, drop,
}
use ubirch_cose_client_go.Dict.{Dict}
use ubirch_cose_client_go.Errors.{text, Result, ok, err}
use ubirch_cose_client_go.Cose.{Value, int_map, tag, sig_structure, string_map, CoseSign1, negsuc}
use ubirch_cose_client_go.Libs.{EncMode}

abbrev pub join : Bytes → Bytes → Bytes
join a b = length a ∷ (a ++ b)

abbrev cut : Bytes → Bytes × Bytes
cut [] = ([], [])
cut (n ∷ b) = (take n b, drop n b)

pub take-append : (a b : Bytes) → take (length a) (a ++ b) ≡ a
take-append [] b = refl
take-append (x ∷ a) b = ap (λ t. x ∷ t) (take-append a b)

pub drop-append : (a b : Bytes) → drop (length a) (a ++ b) ≡ b
drop-append [] b = refl
drop-append (x ∷ a) b = drop-append a b

abbrev marshal_cose : ℕ → CoseSign1 → Dict ℕ Bytes → Result Bytes
marshal_cose n c ((label, kid) ∷ []) =
    ok (0 ∷ n ∷ label ∷ join c.protected (join kid (join c.payload c.signature)))
marshal_cose n c _ = err (text [])

abbrev marshal : Value → Result Bytes
marshal (tag n c) = marshal_cose n c c.unprotected
marshal (sig_structure s) =
    ok (1 ∷ join s.context (join s.protected_header (join s.external s.payload)))
marshal (int_map ((k, negsuc v) ∷ [])) = ok (2 ∷ k ∷ v ∷ [])
marshal (string_map ((k, v) ∷ [])) = ok (3 ∷ join k v)
marshal _ = err (text [])

abbrev pub mode : EncMode
mode = record { marshal = marshal }

abbrev four : Bytes → Bytes × Bytes × Bytes × Bytes
four b = let (x, r) = cut b in let (y, r') = cut r in let (z, w) = cut r' in (x, y, z, w)

abbrev read_cose : ℕ → ℕ → Bytes × Bytes × Bytes × Bytes → Value
read_cose n label (protected, kid, payload, signature) = tag n (record {
  protected = protected;
  unprotected = (label, kid) ∷ [];
  payload = payload;
  signature = signature;
})

abbrev read_structure : Bytes × Bytes × Bytes × Bytes → Value
read_structure (context, header, external, payload) = sig_structure (record {
  context = context;
  protected_header = header;
  external = external;
  payload = payload;
})

abbrev pub decode : Bytes → Option Value
decode (zero ∷ n ∷ label ∷ b) = some (read_cose n label (four b))
decode (suc zero ∷ b) = some (read_structure (four b))
decode (suc (suc zero) ∷ k ∷ v ∷ []) = some (int_map ((k, negsuc v) ∷ []))
decode (suc (suc (suc zero)) ∷ b) = let (k, v) = cut b in some (string_map ((k, v) ∷ []))
decode _ = none

cut-join : (a b : Bytes) → cut (join a b) ≡ (a, b)
cut-join a b = rw (take-append, drop-append)

four-join : (x y z w : Bytes) → four (join x (join y (join z w))) ≡ (x, y, z, w)
four-join x y z w = simp (take-append, drop-append)

cose-decode :
    (n : ℕ) (c : CoseSign1) (u : Dict ℕ Bytes) (b : Bytes)
    → c.unprotected ≡ u
    → marshal_cose n c u ≡ ok b
    → decode b ≡ some (tag n c)
cose-decode n c ((label, kid) ∷ []) b same h =
    let written : 0 ∷ n ∷ label ∷ join c.protected (join kid (join c.payload c.signature)) ≡ b =
      cc h in
    rw (← written) (simp (take-append, drop-append, ← same))
cose-decode n c _ b same h = cc

pub decode-marshal : (v : Value) (b : Bytes) → marshal v ≡ ok b → decode b ≡ some v
decode-marshal (tag n c) b h = cose-decode n c c.unprotected b refl h
decode-marshal (sig_structure s) b h =
    let written : 1 ∷ join s.context (join s.protected_header (join s.external s.payload)) ≡ b =
      cc h in
    rw (← written) (simp (take-append, drop-append))
decode-marshal (int_map ((k, negsuc v) ∷ [])) b h =
    let written : 2 ∷ k ∷ v ∷ [] ≡ b = cc h in rw (← written)
decode-marshal (string_map ((k, v) ∷ [])) b h =
    let written : 3 ∷ join k v ≡ b = cc h in rw (← written) (simp (take-append, drop-append))
decode-marshal _ b h = cc
