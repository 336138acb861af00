-- ===== src/Dict.antt =====
-- Go's maps and `sync.Map`, as association lists. Proofs elsewhere go by the law.
use mathlib.Core.Path.{subst₂}
use mathlib.Core.Option.{some-injective}
use ubirch_cose_client_go.Prelude.{
  ◌≡◌, refl, inl, inr, Bool-cases, Option, none, some, List, [], ◌∷◌, arith, Eq, ◌==◌,
  if◌then◌else◌,
}

abbrev pub Dict {ℓ κ} : Type ℓ → Type κ → Type (ℓ ⊔ κ)
Dict K V = List (K × V)

module _ {ℓ κ} {K : Type ℓ} {V : Type κ} ⦃e : Eq K⦄ where
  -- m[k], or m.Load(k)
  unfoldable pub lookup : K → Dict K V → Option V
  lookup k [] = none
  lookup k ((j, v) ∷ m) = if j == k then some v else lookup k m

  -- m[k] = v, or m.Store(k, v)
  unfoldable pub insert : K → V → Dict K V → Dict K V
  insert k v [] = (k, v) ∷ []
  insert k v ((j, w) ∷ m) = if j == k then (k, v) ∷ m else (j, w) ∷ insert k v m

  pub lookup-insert :
      (j k : K) (v : V) (m : Dict K V)
      → lookup j (insert k v m) ≡ (if k == j then some v else lookup j m)
  unfolding lookup insert
  lookup-insert j k v [] = refl
  lookup-insert j k v ((i, w) ∷ m) =
      ground
        (arith, e.same_key_iff k j, e.same_key_iff i k, e.same_key_iff i j, lookup-insert j k v m)

  pub lookup-insert_self : (k : K) (v : V) (m : Dict K V) → lookup k (insert k v m) ≡ some v
  lookup-insert_self k v m = ground (arith, lookup-insert k k v m, e.same_key_iff k k)

  -- What holds of every entry.
  abbrev pub Entries {μ} : (K → V → Type μ) → Dict K V → Type μ
  Entries P [] = Unit
  Entries P ((k, v) ∷ m) = P k v × Entries P m

  pub Entries-lookup {μ} :
      (P : K → V → Type μ) (k : K) (v : V) (m : Dict K V)
      → Entries P m
      → lookup k m ≡ some v
      → P k v
  unfolding lookup
  Entries-lookup P k v [] h found = cc
  Entries-lookup P k v ((j, w) ∷ m) (here, rest) found = elim (Bool-cases (j == k)) [
    | inl same ↦ subst₂ P ((e.same_key_iff j k).0 same) (some-injective _ _ (rw same at found)) here
    | inr other ↦ Entries-lookup P k v m rest (rw other at found)
  ]

  pub Entries-map {μ ν} :
      (P : K → V → Type μ) (Q : K → V → Type ν) (m : Dict K V)
      → ((k : K) (v : V) → P k v → Q k v)
      → Entries P m
      → Entries Q m
  Entries-map P Q [] f h = tt
  Entries-map P Q ((k, v) ∷ m) f (here, rest) = (f k v here, Entries-map P Q m f rest)

  pub insert-Entries {μ} :
      (P : K → V → Type μ) (k : K) (v : V) (m : Dict K V)
      → P k v
      → Entries P m
      → Entries P (insert k v m)
  unfolding insert
  insert-Entries P k v [] new h = (new, tt)
  insert-Entries P k v ((j, w) ∷ m) new (here, rest) = elim (Bool-cases (j == k)) [
    | inl same ↦ rw same (new, rest)
    | inr other ↦ rw other (here, insert-Entries P k v m new rest)
  ]
