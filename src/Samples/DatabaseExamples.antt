-- ===== src/Samples/DatabaseExamples.antt =====
-- The protocol on a small database, whose transactions hold the row that was inserted last.
use ubirch_cose_client_go.Prelude.{◌≡◌, refl, ap, none, some, List, [], ◌∷◌, Bytes, nat_eq}
use ubirch_cose_client_go.Dict.{lookup, insert, lookup-insert_self}
use ubirch_cose_client_go.Errors.{Result, ok}
use ubirch_cose_client_go.Context.{Uuid, Identity, commit}
use ubirch_cose_client_go.Protocol.{
  store_new_identity, close_transaction, fetch_identity_from_storage,
  check_identity_attributes_not_nil,
}
use ubirch_cose_client_go.Protocol.Identities.{IsSealing}
use ubirch_cose_client_go.Database.{
  Sql, postgre_sql_identity_table_name, identity_query, insert_identity, end_transaction,
}
use ubirch_cose_client_go.Database.Stored.{Means, on_database, fetch_behind_commit}
use ubirch_cose_client_go.Samples.{World, env, identity, stored, world}

abbrev pub table : Bytes
table = postgre_sql_identity_table_name

abbrev pub committed : List Identity → World → World
committed [] w = w
committed (row ∷ _) w = record w { rows = insert row.uid row w.rows; staged = [] }

abbrev uid_of : Bytes → Uuid
uid_of [] = 0
uid_of (uid ∷ _) = uid

abbrev pub sql : Sql World (Unit {0})
sql = record {
  connect = λ source w. (ok tt, w);
  set_limits = λ params w. w;
  ping = λ w. (ok tt, w);
  exec = λ query w. (ok tt, w);
  begin = λ w. (ok tt, record w { staged = [] });
  commit = λ tx w. (ok tt, committed w.staged w);
  rollback = λ tx w. (ok tt, record w { staged = [] });
  exec_in = λ tx query row w. (ok tt, record w { staged = row ∷ [] });
  query_identity = λ query uid w. (ok (lookup (uid_of uid) w.rows), w);
  query_uid = λ query key w. (ok none, w);
  close = λ w. w;
  uuid_string = λ uid. uid ∷ [];
}

abbrev Inserted : World → Unit {0} → Identity → Type 0
Inserted w tx row = w.staged ≡ row ∷ []

pub visible :
    (row : Identity) (staged : List Identity) (w w' : World)
    → staged ≡ row ∷ []
    → committed staged w ≡ w'
    → lookup row.uid w'.rows ≡ some row
visible row staged w w' inserted closed =
    let step : committed (row ∷ []) w ≡ w' = rw inserted at closed in
    rw (← step) (lookup-insert_self row.uid row w.rows)

means : Means sql table (λ w. w.rows) Inserted
means = record {
  inserts = λ tx row w w' h. rw (← ap (λ (t : Result (Unit {0}) × World). t.1) h);
  commits = λ tx row w w' inserted h.
      visible row w.staged w w' inserted (ap (λ (t : Result (Unit {0}) × World). t.1) h);
  selects = λ uid r w w' h. cc h;
}

asked :
    sql.query_identity (identity_query table) (sql.uuid_string 3) world ≡ (ok (some stored), world)
unfolding lookup
asked = refl

pub sealing : IsSealing (on_database sql table env)
sealing = record {
  decrypt-encrypt =
      λ key sealed w w' encrypted. let same : b'E' ∷ key ≡ sealed = cc encrypted in rw (← same);
}

abbrev pub before : World
before = record { rows = []; staged = []; busy = 0 }

abbrev inside : World
inside = record before { staged = stored ∷ [] }

stored_inside :
    store_new_identity (on_database sql table env) (some tt) identity before ≡ (ok tt, inside)
unfolding store_new_identity check_identity_attributes_not_nil insert_identity
stored_inside = refl

closed : close_transaction (on_database sql table env) (some tt) commit inside ≡ (ok tt, world)
unfolding close_transaction end_transaction insert
closed = refl

fetch_behind_commit_example :
    fetch_identity_from_storage (on_database sql table env) 3 world ≡ (ok identity, world)
fetch_behind_commit_example =
    fetch_behind_commit sql table (λ w. w.rows) Inserted means env tt identity (5 ∷ [])
      (some stored) before inside world world sealing refl refl stored_inside closed asked
