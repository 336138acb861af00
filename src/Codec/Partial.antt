-- ===== src/Codec/Partial.antt =====
-- Chains of decoding steps, the first failure of which is the failure of the chain.
use ubirch_cose_client_go.Prelude.{Option, none, some}

infixl 5 ◌>>=◌
abbrev pub ◌>>=◌ {ℓ κ} : {A : Type ℓ} {B : Type κ} → Option A → (A → Option B) → Option B
none >>= f = none
some a >>= f = f a
