-- ===== src/Migration/Atomic.antt =====
-- The proofs about `migrateIdentities`.
use mathlib.Core.Path.{subst}
use ubirch_cose_client_go.Prelude.{
  ◌≡◌, ◌<◌, inl, inr, Option, none, List, [], ◌∷◌, Bytes, length, nat_eq, arith,
}
use ubirch_cose_client_go.Errors.{Error, ok, err, Result-cases}
use ubirch_cose_client_go.Context.{Uuid, Identity, ContextManager, commit}
use ubirch_cose_client_go.IdentityHandler.Atomic.{Keeps}
use ubirch_cose_client_go.Migration.{
  tolerated, check_attributes, migrate_identity, migrate_all, migrate_identities,
}

-- A statement about the world that only a commit changes.
pub record IsCommittedOnly {W Tx : Type 0} (dm : ContextManager W Tx) (cancel : Option Tx → W → W)
    (I : W → Type 0) : Type 0 where
  pub start : Keeps I dm.start_transaction
  pub get : (uid : Uuid) → Keeps I (dm.get_identity uid)
  pub store : (tx : Option Tx) (id : Identity) → Keeps I (dm.store_new_identity tx id)
  pub cancels : (tx : Option Tx) (w : W) → I w → I (cancel tx w)
  pub failed_commit :
      (tx : Option Tx) (x : Error) (w w' : W)
      → I w
      → dm.close_transaction tx commit w ≡ (err x, w')
      → I w'

-- The keys and the token are there.
pub record HasKeys (id : Identity) : Type 0 where
  pub private_key : 0 < length id.private_key
  pub public_key : 0 < length id.public_key
  pub auth_token : 0 < length id.auth_token

module _ {W Tx : Type 0} (dm : ContextManager W Tx) (uuid_string : Uuid → Bytes)
    (cancel : Option Tx → W → W) where
  check_attributes-HasKeys :
      (id : Identity) → check_attributes dm uuid_string cancel id ≡ ok tt → HasKeys id
  unfolding check_attributes
  check_attributes-HasKeys id h = ground arith

  -- The calls that a migration has made in its transaction: each identity has its keys and was
  -- stored, and the commit was the last.
  pub data Stored (tx : Option Tx) : List Identity → W → W → Type 0 where
    committed : {w w' : W} → dm.close_transaction tx commit w ≡ (ok tt, w') → Stored tx [] w w'
    one :
        {id : Identity} {ids : List Identity} {w w1 w2 : W}
        → HasKeys id
        → dm.store_new_identity tx id (dm.get_identity id.uid w).1 ≡ (ok tt, w1)
        → Stored tx ids w1 w2
        → Stored tx (id ∷ ids) w w2

  migrate_all-Stored :
      (tx : Option Tx) (ids : List Identity) (w w' : W)
      → migrate_all dm uuid_string cancel tx ids w ≡ (ok tt, w')
      → Stored tx ids w w'
  unfolding migrate_all migrate_identity
  migrate_all-Stored tx [] w w' h = committed h
  migrate_all-Stored tx (id ∷ ids) w w' h =
      let (r, w1) = dm.get_identity id.uid w in
      elim (Result-cases (tolerated dm uuid_string cancel r)) [
        | inl (x, failed) ↦ ground arith
        | inr (_, passed) ↦ elim (Result-cases (check_attributes dm uuid_string cancel id)) [
          | inl (x, failed) ↦ ground arith
          | inr (_, complete) ↦ elim (Result-cases (dm.store_new_identity tx id w1).0) [
            | inl (x, failed) ↦ ground arith
            | inr (_, stored) ↦
                one (check_attributes-HasKeys id complete) (ground arith)
                  (migrate_all-Stored tx ids (dm.store_new_identity tx id w1).1 w' (ground arith))
          ]
        ]
      ]

  -- A migration that returns no error has begun a transaction, stored every identity of the list in
  -- it, each with its keys and its token, and committed it.
  pub migrate_identities-Stored :
      (ids : List Identity) (w w' : W)
      → migrate_identities dm uuid_string cancel ids w ≡ (ok tt, w')
      → (tx : Option Tx) × (w1 : W) × (w2 : W) × (dm.start_transaction w ≡ (ok tx, w1))
        × Stored tx ids w1 w2
        × (w' ≡ cancel tx w2)
  unfolding migrate_identities
  migrate_identities-Stored ids w w' h =
      let (r, w1) = dm.start_transaction w in
      elim (Result-cases r) [
        | inl (x, failed) ↦ ground arith
        | inr (tx, begun) ↦
            let w2 = (migrate_all dm uuid_string cancel tx ids w1).1 in
            (tx, w1, w2, ground arith, migrate_all-Stored tx ids w1 w2 (ground arith), ground arith)
      ]

  module _ (I : W → Type 0) (laws : IsCommittedOnly dm cancel I) where
    migrate_all_failed :
        (tx : Option Tx) (ids : List Identity) (x : Error) (w w' : W)
        → I w
        → migrate_all dm uuid_string cancel tx ids w ≡ (err x, w')
        → I w'
    unfolding migrate_all migrate_identity
    migrate_all_failed tx [] x w w' inv h = laws.failed_commit tx x w w' inv h
    migrate_all_failed tx (id ∷ ids) x w w' inv h =
        let (r, w1) = dm.get_identity id.uid w in
        let inv1 = laws.get id.uid w inv in
        let inv2 = laws.store tx id w1 inv1 in
        elim (Result-cases (tolerated dm uuid_string cancel r)) [
          | inl (y, failed) ↦ subst I (ground arith) inv1
          | inr (_, passed) ↦ elim (Result-cases (check_attributes dm uuid_string cancel id)) [
            | inl (y, failed) ↦ subst I (ground arith) inv1
            | inr (_, complete) ↦ elim (Result-cases (dm.store_new_identity tx id w1).0) [
              | inl (y, failed) ↦ subst I (ground arith) inv2
              | inr (_, stored) ↦
                  migrate_all_failed tx ids x (dm.store_new_identity tx id w1).1 w' inv2
                    (ground arith)
            ]
          ]
        ]

    -- A migration that fails leaves every statement about the world true that only a commit changes.
    pub migrate_identities_failed :
        (ids : List Identity) (x : Error) (w w' : W)
        → I w
        → migrate_identities dm uuid_string cancel ids w ≡ (err x, w')
        → I w'
    unfolding migrate_identities
    migrate_identities_failed ids x w w' inv h =
        let (r, w1) = dm.start_transaction w in
        let inv1 = laws.start w inv in
        elim (Result-cases r) [
          | inl (y, failed) ↦ subst I (ground arith) (laws.cancels none w1 inv1)
          | inr (tx, begun) ↦
              let w2 = (migrate_all dm uuid_string cancel tx ids w1).1 in
              let inv2 = migrate_all_failed tx ids x w1 w2 inv1 (ground arith) in
              subst I (ground arith) (laws.cancels tx w2 inv2)
        ]
