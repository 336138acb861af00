-- ===== src/Samples/Transactions.antt =====
-- A database with many transactions at a time. Each inserts an identity, and its commit succeeds
-- where the UUID has no row yet.
use mathlib.Core.Path.{subst}
use ubirch_cose_client_go.Prelude.{
  ℕ, suc, ◌≡◌, refl, ap, Bool, true, false, Option, none, some, [], ◌∷◌, Bytes, arith, nat_eq,
  bytes_eq,
}
use ubirch_cose_client_go.Dict.{Dict, lookup, insert, lookup-insert, lookup-insert_self}
use ubirch_cose_client_go.Errors.{text, Result, ok, err}
use ubirch_cose_client_go.Context.{Uuid, Identity, ContextManager}
use ubirch_cose_client_go.Libs.{Env}
use ubirch_cose_client_go.Protocol.Identities.{IsSealing}
use ubirch_cose_client_go.IdentityHandler.{Backend}
use ubirch_cose_client_go.IdentityHandler.Steps.Rely.{IsRegistering}
use ubirch_cose_client_go.Main.Registered.{IsConverting}
use ubirch_cose_client_go.Samples.{row, holder_of, crypto, encrypter, web, go}
use ubirch_cose_client_go.Samples.Encoder.{mode}

-- The rows, what each transaction has inserted, and the number of the next transaction.
pub record World : Type 0 where
  pub rows : Dict Uuid Identity
  pub inserted : Dict ℕ Identity
  pub next : ℕ

-- What of a dictionary is there to be changed: a key that has no value.
abbrev add : ℕ → Identity → Dict ℕ Identity → Option Identity → Result (Dict ℕ Identity)
add k id m none = ok (insert k id m)
add k id m (some _) = err (text [])

abbrev with_inserted : World → Result (Dict ℕ Identity) → Result (Unit {0}) × World
with_inserted w (ok m) = (ok tt, record w { inserted = m })
with_inserted w (err x) = (err x, w)

abbrev with_rows : World → Result (Dict ℕ Identity) → Result (Unit {0}) × World
with_rows w (ok m) = (ok tt, record w { rows = m })
with_rows w (err x) = (err x, w)

abbrev insert_in : Option ℕ → Identity → World → Result (Unit {0}) × World
insert_in none id w = (err (text []), w)
insert_in (some tx) id w = with_inserted w (add tx id w.inserted (lookup tx w.inserted))

abbrev make_row : World → Option Identity → Result (Unit {0}) × World
make_row w none = (ok tt, w)
make_row w (some id) = with_rows w (add id.uid id w.rows (lookup id.uid w.rows))

abbrev end_in : Option ℕ → Bool → World → Result (Unit {0}) × World
end_in (some tx) true w = make_row w (lookup tx w.inserted)
end_in (some tx) false w = (ok tt, w)
end_in none commit w = (err (text []), w)

abbrev manager : ContextManager World ℕ
manager = record {
  start_transaction = λ w. (ok (some w.next), record w { next = suc w.next });
  close_transaction = end_in;
  store_new_identity = insert_in;
  get_identity = λ uid w. (row uid w.rows, w);
  get_uuid_for_public_key = λ raw w. (holder_of raw w.rows, w);
  close = λ w. w;
}

abbrev pub e : Env World ℕ Bytes
e = record {
  manager = manager;
  crypto = crypto;
  encrypter = encrypter;
  web = web;
  go = go;
  cbor = ok mode;
  pq_error_name = λ code. code;
}

abbrev pub backend : Backend World ℕ
backend = record {
  submit_key_registration = λ uid registration auth w. (ok tt, w);
  submit_csr = λ uid csr w. (ok tt, w);
  cancel = λ tx w. w;
}

abbrev pub Row : Uuid → Identity → World → Type 0
Row uid id w = lookup uid w.rows ≡ some id

abbrev pub Inserted : Option ℕ → Identity → World → Type 0
Inserted none id w = ⊥
Inserted (some tx) id w = lookup tx w.inserted ≡ some id

-- Values may come, and none goes.
abbrev Grows : Dict ℕ Identity → Dict ℕ Identity → Type 0
Grows m n = (k : ℕ) (id : Identity) → lookup k m ≡ some id → lookup k n ≡ some id

abbrev pub Later : World → World → Type 0
Later w w' = Grows w.rows w'.rows × Grows w.inserted w'.inserted

add-Grows :
    (k : ℕ) (id : Identity) (m : Dict ℕ Identity) → lookup k m ≡ none → Grows m (insert k id m)
add-Grows k id m absent j other found =
    ground (arith, lookup-insert j k id m, nat_eq.same_key_iff k j)

same : (w : World) → Later w w
same w = (λ k id found. found, λ k id found. found)

stores_at :
    (tx : ℕ) (id : Identity) (w : World) (r : Option Identity)
    → lookup tx w.inserted ≡ r
    → Later w (with_inserted w (add tx id w.inserted r)).1
stores_at tx id w none absent = (λ k other found. found, add-Grows tx id w.inserted absent)
stores_at tx id w (some _) there = same w

stores : (tx : Option ℕ) (id : Identity) (w : World) → Later w (insert_in tx id w).1
stores none id w = same w
stores (some tx) id w = stores_at tx id w (lookup tx w.inserted) refl

row_at :
    (id : Identity) (w : World) (r : Option Identity)
    → lookup id.uid w.rows ≡ r
    → Later w (with_rows w (add id.uid id w.rows r)).1
row_at id w none absent = (add-Grows id.uid id w.rows absent, λ k other found. found)
row_at id w (some _) there = same w

closes_with : (w : World) (r : Option Identity) → Later w (make_row w r).1
closes_with w none = same w
closes_with w (some id) = row_at id w (lookup id.uid w.rows) refl

closes : (tx : Option ℕ) (w : World) → Later w (end_in tx true w).1
closes none w = same w
closes (some tx) w = closes_with w (lookup tx w.inserted)

inserts_at :
    (tx : ℕ) (id : Identity) (w w' : World) (r : Option Identity)
    → with_inserted w (add tx id w.inserted r) ≡ (ok tt, w')
    → lookup tx w'.inserted ≡ some id
inserts_at tx id w w' none h =
    let last : record w { inserted = insert tx id w.inserted } ≡ w' =
      ap (λ (t : Result (Unit {0}) × World). t.1) h in
    rw (← last) (lookup-insert_self tx id w.inserted)
inserts_at tx id w w' (some _) h = cc h

inserts :
    (tx : Option ℕ) (id : Identity) (w w' : World)
    → insert_in tx id w ≡ (ok tt, w')
    → Inserted tx id w'
inserts none id w w' h = cc h
inserts (some tx) id w w' h = inserts_at tx id w w' (lookup tx w.inserted) h

commits_at :
    (id : Identity) (w w' : World) (r : Option Identity)
    → with_rows w (add id.uid id w.rows r) ≡ (ok tt, w')
    → Row id.uid id w'
commits_at id w w' none h =
    let last : record w { rows = insert id.uid id w.rows } ≡ w' =
      ap (λ (t : Result (Unit {0}) × World). t.1) h in
    rw (← last) (lookup-insert_self id.uid id w.rows)
commits_at id w w' (some _) h = cc h

commits :
    (tx : Option ℕ) (id : Identity) (w w' : World)
    → Inserted tx id w
    → end_in tx true w ≡ (ok tt, w')
    → Row id.uid id w'
commits none id w w' inserted h = elim inserted [ ]
commits (some tx) id w w' inserted h =
    commits_at id w w' (lookup id.uid w.rows) (subst (λ r. make_row w r ≡ (ok tt, w')) inserted h)

keeps_inserted :
    (tx : Option ℕ) (id : Identity) (w w' : World)
    → Later w w'
    → Inserted tx id w
    → Inserted tx id w'
keeps_inserted none id w w' later inserted = inserted
keeps_inserted (some tx) id w w' later inserted = later.1 tx id inserted

pub laws : IsRegistering e backend Later Inserted Row
laws = record {
  stays = same;
  goes_on = λ w w' w'' first second. (
    λ k id found. second.0 k id (first.0 k id found),
    λ k id found. second.1 k id (first.1 k id found),
  );
  keeps = λ uid id w w' later row. later.0 uid id row;
  keeps_inserted = keeps_inserted;
  one = λ uid id id' w row row'. cc (row, row');
  inserts = inserts;
  commits = commits;
  starts = λ w. same w;
  stores = stores;
  closes = closes;
  cancels = λ tx w. same w;
  generates = λ w. same w;
  encrypts = λ key w. same w;
  signs = λ key uid w. same w;
  requests = λ key uid country organization w. same w;
  submits = λ uid registration auth w. same w;
}

pub sealing : IsSealing e
sealing = record {
  decrypt-encrypt =
      λ key sealed w w' encrypted. let same : b'E' ∷ key ≡ sealed = cc encrypted in rw (← same);
}

pub converting : IsConverting e
converting = record {
  converts =
      λ key pem made. let same : b'P' ∷ key ≡ pem = cc made in (key, rw (← same), rw (← same));
}
