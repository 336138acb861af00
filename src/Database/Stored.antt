-- ===== src/Database/Stored.antt =====
-- What the database holds behind a commit, and what is read from it.
use ubirch_cose_client_go.Prelude.{
  ◌≡◌, ◌↔◌, Option, none, some, Bytes, arith, nat_eq, Option-cases, inl, inr,
}
use ubirch_cose_client_go.Dict.{Dict, lookup}
use ubirch_cose_client_go.Errors.{not_exist, ok, err}
use ubirch_cose_client_go.Context.{Uuid, Identity, commit}
use ubirch_cose_client_go.Libs.{Env}
use ubirch_cose_client_go.Protocol.{
  store_new_identity, close_transaction, fetch_identity_from_storage,
}
use ubirch_cose_client_go.Protocol.Identities.{IsSealing, fetch-store_new_identity}
use ubirch_cose_client_go.Database.{
  Sql, insert_query, identity_query, insert_identity, end_transaction, select_identity,
  database_manager,
}

-- What the statements mean, for the rows that are visible outside of transactions and the rows that
-- an open transaction has inserted.
pub record Means {W Tx : Type 0} (sql : Sql W Tx) (table_name : Bytes)
    (rows : W → Dict Uuid Identity) (Inserted : W → Tx → Identity → Type 0) : Type 0 where
  pub inserts :
      (tx : Tx) (row : Identity) (w w' : W)
      → sql.exec_in tx (insert_query table_name) row w ≡ (ok tt, w')
      → Inserted w' tx row
  pub commits :
      (tx : Tx) (row : Identity) (w w' : W)
      → Inserted w tx row
      → sql.commit tx w ≡ (ok tt, w')
      → lookup row.uid (rows w') ≡ some row
  pub selects :
      (uid : Uuid) (r : Option Identity) (w w' : W)
      → sql.query_identity (identity_query table_name) (sql.uuid_string uid) w ≡ (ok r, w')
      → r ≡ lookup uid (rows w)

-- The protocol's environment with this database.
abbrev pub on_database :
    {W Tx PublicKey : Type 0} → Sql W Tx → Bytes → Env W Tx PublicKey → Env W Tx PublicKey
on_database sql table_name e = record e { manager = database_manager sql table_name }

module _ {W Tx : Type 0} (sql : Sql W Tx) (table_name : Bytes) (rows : W → Dict Uuid Identity)
    (Inserted : W → Tx → Identity → Type 0) (means : Means sql table_name rows Inserted) where
  -- With statements that mean what SQL says, a query that gets through gives the identity that is
  -- stored, and `ErrNotExist` exactly where none is.
  select_identity_lem :
      (uid : Uuid) (r : Option Identity) (id : Identity) (w w' : W)
      → sql.query_identity (identity_query table_name) (sql.uuid_string uid) w ≡ (ok r, w')
      → ((select_identity sql table_name uid w ≡ (ok id, w')) ↔ (lookup uid (rows w) ≡ some id))
        × ((select_identity sql table_name uid w ≡ (err not_exist, w'))
            ↔ (lookup uid (rows w) ≡ none))
  unfolding select_identity
  select_identity_lem uid r id w w' answered =
      let same : r ≡ lookup uid (rows w) = means.selects uid r w w' answered in
      elim (Option-cases r) [
        | inl missing ↦ ground (arith, same, answered)
        | inr (row, there) ↦ ground (arith, same, answered)
      ]

  -- With statements that mean what SQL says, an identity that was stored in a transaction which was
  -- then committed is fetched as it was handed in, if the query gets through. Decryption has to undo
  -- encryption, and the two conversions of the public key each other.
  pub fetch_behind_commit :
      {PublicKey : Type 0} (e : Env W Tx PublicKey) (tx : Tx) (id : Identity) (raw : Bytes)
      (r : Option Identity) (w w1 w2 w3 : W)
      → IsSealing (on_database sql table_name e)
      → e.crypto.public_key_pem_to_bytes id.public_key ≡ ok raw
      → e.crypto.public_key_bytes_to_pem raw ≡ ok id.public_key
      → store_new_identity (on_database sql table_name e) (some tx) id w ≡ (ok tt, w1)
      → close_transaction (on_database sql table_name e) (some tx) commit w1 ≡ (ok tt, w2)
      → sql.query_identity (identity_query table_name) (sql.uuid_string id.uid) w2 ≡ (ok r, w3)
      → fetch_identity_from_storage (on_database sql table_name e) id.uid w2 ≡ (ok id, w3)
  unfolding insert_identity end_transaction close_transaction
  fetch_behind_commit e tx id raw r w w1 w2 w3 sealing to_raw to_pem stored closed answered =
      fetch-store_new_identity (on_database sql table_name e) (some tx) id raw w w1 w2 w3 sealing
        to_raw to_pem
        (λ given before same kept.
          let inserted = means.inserts tx given before w1 kept in
          let visible : lookup given.uid (rows w2) ≡ some given =
            means.commits tx given w1 w2 inserted closed in
          let visible' : lookup id.uid (rows w2) ≡ some given = rw (← same) visible in
          (select_identity_lem id.uid r given w2 w3 answered).0.1 visible')
        stored
