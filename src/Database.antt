-- ===== src/Database.antt =====
-- database.go: the context manager over a SQL database.
pub mod Stored
use ubirch_cose_client_go.Prelude.{
  String, Bool, true, false, Option, none, some, List, [], ◌∷◌, ◌++◌, Bytes, ◌==◌, bytes_eq,
  if◌then◌else◌,
}
use ubirch_cose_client_go.Errors.{
  Error, not_exist, text, codes, Result, ok, err, Exec, pure, fail, lift, ◌>>=◌, ◌>>◌,
}
use ubirch_cose_client_go.Context.{Uuid, Identity, ContextManager}
use ubirch_cose_client_go.Config.{Config, DatabaseParams}

-- `database/sql` with the driver of PostgreSQL: a query is its text, and the arguments of the insert
-- are the fields of an identity in the order of the columns. A row that is scanned is `none` for
-- `sql.ErrNoRows`. `set_limits` is the four `Set` calls, and `begin` is that of a serializable
-- transaction that is not read only.
pub record Sql (W Tx : Type 0) : Type 0 where
  pub connect : Bytes → Exec W (Unit {0})
  pub set_limits : DatabaseParams → W → W
  pub ping : Exec W (Unit {0})
  pub exec : Bytes → Exec W (Unit {0})
  pub begin : Exec W Tx
  pub commit : Tx → Exec W (Unit {0})
  pub rollback : Tx → Exec W (Unit {0})
  pub exec_in : Tx → Bytes → Identity → Exec W (Unit {0})
  pub query_identity : Bytes → Bytes → Exec W (Option Identity)
  pub query_uid : Bytes → Bytes → Exec W (Option Uuid)
  pub close : W → W
  pub uuid_string : Uuid → Bytes

abbrev pub postgre_sql_identity_table_name : Bytes
postgre_sql_identity_table_name = codes "cose_identity"

unfoldable pub create_table : Bytes → Bytes
create_table table_name =
    codes "CREATE TABLE IF NOT EXISTS "
    ++ table_name
    ++ codes "(uid VARCHAR(255) NOT NULL PRIMARY KEY, "
    ++ codes "private_key BYTEA NOT NULL, "
    ++ codes "public_key BYTEA NOT NULL, "
    ++ codes "auth_token VARCHAR(255) NOT NULL);"

abbrev pub insert_query : Bytes → Bytes
insert_query table_name =
    codes "INSERT INTO "
    ++ table_name
    ++ codes " (uid, private_key, public_key, auth_token) VALUES ($1, $2, $3, $4);"

abbrev pub identity_query : Bytes → Bytes
identity_query table_name = codes "SELECT * FROM " ++ table_name ++ codes " WHERE uid = $1"

abbrev pub uid_query : Bytes → Bytes
uid_query table_name = codes "SELECT uid FROM " ++ table_name ++ codes " WHERE public_key = $1"

abbrev wrong_type : Error
wrong_type = text (codes "transactionCtx for database manager is not of expected type *sql.Tx")

-- `sql.ErrNoRows` becomes `ErrNotExist`.
abbrev pub found : {A : Type 0} → Result (Option A) → Result A
found (err x) = err x
found (ok none) = err not_exist
found (ok (some a)) = ok a

module _ {W Tx : Type 0} (sql : Sql W Tx) where
  unfoldable pub new_sql_database_info : Bytes → Bytes → DatabaseParams → Exec W (Unit {0})
  new_sql_database_info data_source_name table_name db_params = do
    sql.connect data_source_name
    (λ w. (ok tt, sql.set_limits db_params w))
    sql.ping
    sql.exec (create_table table_name)

  module _ (table_name : Bytes) where
    unfoldable pub begin_transaction : Exec W (Option Tx)
    begin_transaction = do tx ← sql.begin; pure (some tx)

    unfoldable pub end_transaction : Option Tx → Bool → Exec W (Unit {0})
    end_transaction none commit = fail wrong_type
    end_transaction (some tx) true = sql.commit tx
    end_transaction (some tx) false = sql.rollback tx

    unfoldable pub insert_identity : Option Tx → Identity → Exec W (Unit {0})
    insert_identity none identity = fail wrong_type
    insert_identity (some tx) identity = sql.exec_in tx (insert_query table_name) identity

    unfoldable pub select_identity : Uuid → Exec W Identity
    select_identity uid w =
        let (r, w') = sql.query_identity (identity_query table_name) (sql.uuid_string uid) w in
        (found r, w')

    unfoldable pub select_uid : Bytes → Exec W Uuid
    select_uid pub_key w =
        let (r, w') = sql.query_uid (uid_query table_name) pub_key w in (found r, w')

    -- An error of the closing is only logged.
    abbrev close_database : W → W
    close_database = sql.close

    -- The methods, under the names of the interface.
    abbrev pub database_manager : ContextManager W Tx
    database_manager = record {
      start_transaction = begin_transaction;
      close_transaction = end_transaction;
      store_new_identity = insert_identity;
      get_identity = select_identity;
      get_uuid_for_public_key = select_uid;
      close = close_database;
    }

  -- `GetCtxManager` of context_manager.go
  unfoldable pub get_ctx_manager : Config → Exec W (ContextManager W Tx)
  get_ctx_manager c =
      if c.postgres_dsn == []
      then fail
          (text (codes "file-based context management is not supported in the current version"))
      else (do
        new_sql_database_info c.postgres_dsn postgre_sql_identity_table_name c.db_params
        pure (database_manager postgre_sql_identity_table_name))
