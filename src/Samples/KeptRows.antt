-- ===== src/Samples/KeptRows.antt =====
-- The small world as one that keeps its rows: nothing but a commit changes them, and none is lost.
use mathlib.Core.Path.{subst}
use ubirch_cose_client_go.Prelude.{
  ℕ, zero, suc, ◌≡◌, refl, inl, inr, Bool, true, false, Bool-cases, some, [], ◌∷◌, Bytes, arith,
  All, ltb, nat_eq, bytes_eq, if◌then◌else◌,
}
use ubirch_cose_client_go.Codec.Base64.{IsByte}
use ubirch_cose_client_go.Dict.{lookup}
use ubirch_cose_client_go.Errors.{text, Result, ok, err}
use ubirch_cose_client_go.Context.{Uuid, Identity}
use ubirch_cose_client_go.Libs.{Env}
use ubirch_cose_client_go.Protocol.Steps.Rely.{IsKeeping}
use ubirch_cose_client_go.Samples.{World, with_connection, row, holder_of, env}

abbrev are_bytes : Bytes → Bool
are_bytes [] = true
are_bytes (n ∷ b) = if ltb n 256 then are_bytes b else false

abbrev raw_bytes : Result Bytes → Result Bytes
raw_bytes (err x) = err x
raw_bytes (ok raw) = if are_bytes raw then ok raw else err (text [])

-- A public key is made of bytes.
abbrev pub e : Env World (Unit {0}) Bytes
e = record env {
  crypto = record (env.crypto) {
    public_key_pem_to_bytes = λ pem. raw_bytes (env.crypto.public_key_pem_to_bytes pem);
  };
}

abbrev pub Row : Uuid → Identity → World → Type 0
Row uid id w = lookup uid w.rows ≡ some id

abbrev pub Registered : Bytes → Uuid → World → Type 0
Registered raw uid w = holder_of raw w.rows ≡ ok uid

-- Rows may come, if they leave those that are there, and their keys.
pub record Later (w w' : World) : Type 0 where
  pub rows : (uid : Uuid) (id : Identity) → Row uid id w → Row uid id w'
  pub keys : (raw : Bytes) (uid : Uuid) → Registered raw uid w → Registered raw uid w'

pub same_rows : (w w' : World) → w'.rows ≡ w.rows → Later w w'
same_rows w w' same = record {
  rows = λ uid id found. rw same found;
  keys = λ raw uid found. rw same found;
}

answers_rows :
    {A : Type 0} (f : World → Result A) (n : ℕ) (w : World)
    → (with_connection (λ v. (f v, v)) w n).1.rows ≡ w.rows
answers_rows f zero w = refl
answers_rows f (suc n) w = refl

answers :
    {A : Type 0} (f : World → Result A) (a : A) (n : ℕ) (w w' : World)
    → with_connection (λ v. (f v, v)) w n ≡ (ok a, w')
    → (f w ≡ ok a) × (w ≡ w')
answers f a zero w w' h = (cc h, cc h)
answers f a (suc n) w w' h = cc h

row-eq-ok : (uid : Uuid) (id : Identity) (w : World) → row uid w.rows ≡ ok id → Row uid id w
row-eq-ok uid id w h = ground arith

are_bytes-IsByte : (b : Bytes) → are_bytes b ≡ true → All IsByte b
are_bytes-IsByte [] h = tt
are_bytes-IsByte (n ∷ b) h = (ground arith, are_bytes-IsByte b (ground arith))

raw_bytes-IsByte : (r : Result Bytes) (raw : Bytes) → raw_bytes r ≡ ok raw → All IsByte raw
raw_bytes-IsByte (err x) raw h = cc h
raw_bytes-IsByte (ok b) raw h = elim (Bool-cases (are_bytes b)) [
  | inl good ↦ subst (All IsByte) (ground arith) (are_bytes-IsByte b good)
  | inr bad ↦ ground arith
]

-- The page of a server leaves the world as it was.
gets_rows : (check : _) (url : Bytes) (w : World) → (e.web.do_get check url w).1.rows ≡ w.rows
gets_rows check url w = ground arith

pub keeping : IsKeeping e Later Row Registered
keeping = record {
  stays = λ w. same_rows w w refl;
  goes_on = λ w w' w'' first second. record {
    rows = λ uid id found. second.rows uid id (first.rows uid id found);
    keys = λ raw uid found. second.keys raw uid (first.keys raw uid found);
  };
  keeps = λ uid id w w' later found. later.rows uid id found;
  keeps_key = λ raw uid w w' later found. later.keys raw uid found;
  reads = λ uid id w w' h.
      let (found, same) = answers (λ v. row uid v.rows) id w.busy w w' h in
      subst (Row uid id) same (row-eq-ok uid id w found);
  reads_uid = λ raw uid w w' h.
      let (found, same) = answers (λ v. holder_of raw v.rows) uid w.busy w w' h in
      subst (Registered raw uid) same found;
  asks = λ uid w. same_rows w _ (answers_rows (λ v. row uid v.rows) w.busy w);
  asks_uid = λ raw w. same_rows w _ (answers_rows (λ v. holder_of raw v.rows) w.busy w);
  gets = λ check url w. same_rows w _ (gets_rows check url w);
  signs = λ key hash w. same_rows w _ refl;
  bytes = λ pem raw. raw_bytes-IsByte (env.crypto.public_key_pem_to_bytes pem) raw;
}
