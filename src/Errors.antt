-- ===== src/Errors.antt =====
-- Go's error values and the functions that return one beside a result.
use ubirch_cose_client_go.Prelude.{
  ◌≡◌, refl, ◌⊎◌, inl, inr, String, Bool, true, false, Option, none, some, [], ◌∷◌, ◌++◌, Bytes,
}
use Prim.Native.Char.{code}

-- The bytes of an ASCII literal. Shut, so that a literal in a program stays one name in a proof.
unfoldable pub codes : String → Bytes
codes String.[] = []
codes (String.◌∷◌ c s) = code c ∷ codes s

-- `ErrExists` and `ErrNotExist` of context_manager.go are compared by identity; every other error
-- shows only its text.
pub data Error : Type 0 where
  exists not_exist : Error
  text : Bytes → Error

-- err.Error()
unfoldable pub error_text : Error → Bytes
error_text exists = codes "entry already exists"
error_text not_exist = codes "entry does not exist"
error_text (text t) = t

-- err == ErrNotExist
abbrev pub is_not_exist : Error → Bool
is_not_exist not_exist = true
is_not_exist _ = false

pub data Result {ℓ} (A : Type ℓ) : Type ℓ where
  ok : A → Result A
  err : Error → Result A

-- A call that changes a state and may return an error. What was written before the error stays.
abbrev pub Exec {ℓ} : Type ℓ → Type ℓ → Type ℓ
Exec S A = S → Result A × S

module _ {ℓ} {S A : Type ℓ} where
  abbrev pub pure : A → Exec S A
  pure a s = (ok a, s)

  abbrev pub fail : Error → Exec S A
  fail e s = (err e, s)

  abbrev pub lift : Result A → Exec S A
  lift r s = (r, s)

module _ {ℓ} {S A B : Type ℓ} where
  abbrev pub continue : Result A → (A → Exec S B) → Exec S B
  continue (ok a) f s = f a s
  continue (err e) f s = (err e, s)

  -- `if err != nil { return err }` behind a call
  infixl 5 ◌>>=◌ ◌>>◌
  abbrev pub ◌>>=◌ : Exec S A → (A → Exec S B) → Exec S B
  ◌>>=◌ m f s = let (r, s') = m s in continue r f s'

  abbrev pub ◌>>◌ : Exec S A → Exec S B → Exec S B
  m >> k = m >>= λ _. k

-- fmt.Errorf("<what>: %v", err)
unfoldable pub wrap : String → Error → Error
wrap what e = text (codes what ++ codes ": " ++ error_text e)

-- What `ioutil.ReadAll` has read, and the error that ended it early.
pub record Stream : Type 0 where
  pub content : Bytes
  pub failure : Option Error

unfoldable pub read_all : Stream → Result Bytes
read_all s = elim s.failure [ none ↦ ok s.content | some e ↦ err e ]

module _ {ℓ} {S A B : Type ℓ} where
  -- A chain that returns a result has passed its first call.
  pub >>=-eq-ok :
      (m : Exec S A) (f : A → Exec S B) (s : S) {b : B} {s'' : S}
      → (m >>= f) s ≡ (ok b, s'')
      → (a : A) × (s' : S) × (m s ≡ (ok a, s')) × (f a s' ≡ (ok b, s''))
  >>=-eq-ok m f s {b} {s''} h = go (m s) refl h
    where
      go :
          (t : Result A × S)
          → m s ≡ t
          → continue t.0 f t.1 ≡ (ok b, s'')
          → (a : A) × (s' : S) × (m s ≡ (ok a, s')) × (f a s' ≡ (ok b, s''))
      go (ok a, s') e k = (a, s', e, k)
      go (err x, s') e k = cc

pub Result-cases {ℓ} :
    {A : Type ℓ} (r : Result A) → ((x : Error) × (r ≡ err x)) ⊎ ((a : A) × (r ≡ ok a))
Result-cases (ok a) = inr (a, refl)
Result-cases (err x) = inl (x, refl)
