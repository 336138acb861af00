-- ===== src/Migration/FileToDb.antt =====
-- `MigrateFileToDB` of migrator.go: from the configuration and the key file to the database.
use mathlib.Core.Path.{subst}
use ubirch_cose_client_go.Prelude.{
  ◌≡◌, refl, ap, inl, inr, Option, List, [], ◌∷◌, ◌++◌, Bytes, arith,
}
use ubirch_cose_client_go.Errors.{
  text, error_text, codes, Result, ok, err, Exec, lift, ◌>>=◌, ◌>>◌, Result-cases,
}
use ubirch_cose_client_go.Context.{Uuid, Identity}
use ubirch_cose_client_go.Libs.{Go}
use ubirch_cose_client_go.Config.{Config, Files}
use ubirch_cose_client_go.Config.Accounts.{named, load_identities_file, load_tokens}
use ubirch_cose_client_go.FileManager.{
  Os, FileManager, KeyFormat, get_private_key, get_public_key, new_file_manager,
}
use ubirch_cose_client_go.Database.{
  Sql, postgre_sql_identity_table_name, new_sql_database_info, database_manager,
}
use ubirch_cose_client_go.Migration.{migrate_identities}
use ubirch_cose_client_go.Migration.Named.{Names, tokens-Names}
use ubirch_cose_client_go.Migration.Atomic.{Stored, migrate_identities-Stored}

module _ (f : KeyFormat) where
  -- fmt.Errorf("%s: %v", i.Uid, err)
  abbrev for_identity : Uuid → Result Bytes → Result Bytes
  for_identity uid (ok key) = ok key
  for_identity uid (err x) = err (text (f.uuid_string uid ++ codes ": " ++ error_text x))

  -- the body of the loop of `getKeysFromFile`
  unfoldable pub with_keys : FileManager → Identity → Result Identity
  with_keys m i = elim (for_identity i.uid (get_private_key f i.uid m)) [
    | err x ↦ err x
    | ok private_key ↦ elim (for_identity i.uid (get_public_key f i.uid m)) [
      | err x ↦ err x
      | ok public_key ↦ ok (record i { private_key = private_key; public_key = public_key })
    ]
  ]

  unfoldable pub get_keys : FileManager → List Identity → Result (List Identity)
  get_keys m [] = ok []
  get_keys m (i ∷ identities) = elim (with_keys m i) [
    | err x ↦ err x
    | ok keyed ↦ elim (get_keys m identities) [ err x ↦ err x | ok rest ↦ ok (keyed ∷ rest) ]
  ]

  unfoldable pub get_keys_from_file :
      {W : Type 0} → Os W → Bytes → List Identity → W → Result (List Identity)
  get_keys_from_file os config_dir identities w = elim (new_file_manager f os config_dir w) [
    | err x ↦ err x
    | ok m ↦ get_keys m identities
  ]

  -- The same identity, with the keys that the key file has for it.
  pub record HasFileKeys (m : FileManager) (i keyed : Identity) : Type 0 where
    pub uid : keyed.uid ≡ i.uid
    pub auth_token : keyed.auth_token ≡ i.auth_token
    pub private_key : get_private_key f i.uid m ≡ ok keyed.private_key
    pub public_key : get_public_key f i.uid m ≡ ok keyed.public_key

  -- Identity by identity.
  pub data HaveFileKeys (m : FileManager) : List Identity → List Identity → Type 0 where
    nothing : HaveFileKeys m [] []
    one :
        {i keyed : Identity} {identities all_keyed : List Identity}
        → HasFileKeys m i keyed
        → HaveFileKeys m identities all_keyed
        → HaveFileKeys m (i ∷ identities) (keyed ∷ all_keyed)

  for_identity-eq-ok :
      (uid : Uuid) (r : Result Bytes) (key : Bytes) → for_identity uid r ≡ ok key → r ≡ ok key
  for_identity-eq-ok uid (ok k) key h = h
  for_identity-eq-ok uid (err x) key h = cc h

  with_keys-HasFileKeys :
      (m : FileManager) (i keyed : Identity) → with_keys m i ≡ ok keyed → HasFileKeys m i keyed
  unfolding with_keys
  with_keys-HasFileKeys m i keyed h =
      elim (Result-cases (for_identity i.uid (get_private_key f i.uid m))) [
        | inl (x, failed) ↦ ground arith
        | inr (private, first) ↦
            elim (Result-cases (for_identity i.uid (get_public_key f i.uid m))) [
              | inl (x, failed) ↦ ground arith
              | inr (public, second) ↦ subst (HasFileKeys m i) (ground arith) (record {
                uid = refl;
                auth_token = refl;
                private_key = for_identity-eq-ok i.uid (get_private_key f i.uid m) private first;
                public_key = for_identity-eq-ok i.uid (get_public_key f i.uid m) public second;
              })
            ]
      ]

  get_keys-HaveFileKeys :
      (m : FileManager) (identities all_keyed : List Identity)
      → get_keys m identities ≡ ok all_keyed
      → HaveFileKeys m identities all_keyed
  unfolding get_keys
  get_keys-HaveFileKeys m [] all_keyed h = subst (HaveFileKeys m []) (ground arith) nothing
  get_keys-HaveFileKeys m (i ∷ identities) all_keyed h = elim (Result-cases (with_keys m i)) [
    | inl (x, failed) ↦ ground arith
    | inr (keyed, first) ↦ elim (Result-cases (get_keys m identities)) [
      | inl (x, failed) ↦ ground arith
      | inr (rest, others) ↦ subst (HaveFileKeys m (i ∷ identities)) (ground arith) (
          one (with_keys-HasFileKeys m i keyed first)
            (get_keys-HaveFileKeys m identities rest others))
    ]
  ]

  get_keys_from_file-HaveFileKeys :
      {W : Type 0} (os : Os W) (config_dir : Bytes) (identities all_keyed : List Identity) (w : W)
      → get_keys_from_file os config_dir identities w ≡ ok all_keyed
      → (m : FileManager) × (new_file_manager f os config_dir w ≡ ok m)
        × HaveFileKeys m identities all_keyed
  unfolding get_keys_from_file
  get_keys_from_file-HaveFileKeys os config_dir identities all_keyed w h =
      elim (Result-cases (new_file_manager f os config_dir w)) [
        | inl (x, failed) ↦ ground arith
        | inr (m, loaded) ↦ (m, loaded, get_keys-HaveFileKeys m identities all_keyed (ground arith))
      ]

-- the two sources of identities, one behind the other
unfoldable pub configured :
    {PublicKey : Type 0} → Files → Go PublicKey → Config → Result (List Identity)
configured files go c =
    let (r, from_file) = load_identities_file files go c [] in
    let (r', identities) = load_tokens files go c from_file in
    elim r [ err x ↦ err x | ok _ ↦ elim r' [ err x ↦ err x | ok _ ↦ ok identities ] ]

module _ {PublicKey : Type 0} (files : Files) (go : Go PublicKey) (c : Config) where
  configured-Names :
      (identities : List Identity)
      → configured files go c ≡ ok identities
      → Names files c identities
  unfolding configured
  configured-Names identities h =
      let (r, found) = load_identities_file files go c [] in
      let (r', all) = load_tokens files go c found in
      elim (Result-cases r) [
        | inl (x, failed) ↦ ground arith
        | inr (_, first) ↦ elim (Result-cases r') [
          | inl (x, failed) ↦ ground arith
          | inr (_, second) ↦
              let same : all ≡ identities = ground arith in
              subst (Names files c) same (
                tokens-Names files go c found all (ap (λ (s : Result (Unit {0})). (s, found)) first)
                  (ap (λ (s : Result (Unit {0})). (s, all)) second))
        ]
      ]

module _ {W Tx PublicKey : Type 0} (files : Files) (go : Go PublicKey) (f : KeyFormat) (os : Os W)
    (sql : Sql W Tx) (cancel : Option Tx → W → W) where
  unfoldable pub migrate_file_to_db : Config → Exec W (Unit {0})
  migrate_file_to_db c = do
    identities ← lift (configured files go c)
    keyed ← (λ w. (get_keys_from_file f os c.config_dir identities w, w))
    new_sql_database_info sql c.postgres_dsn postgre_sql_identity_table_name c.db_params
    migrate_identities (database_manager sql postgre_sql_identity_table_name) f.uuid_string cancel
        keyed

  -- What a migration has done.
  pub record Migrated (c : Config) (w w' : W) : Type 0 where
    pub identities : List Identity
    pub keyed : List Identity
    pub manager : FileManager
    pub tx : Option Tx
    pub w0 : W
    pub w1 : W
    pub w2 : W
    pub names : Names files c identities
    pub loaded : new_file_manager f os c.config_dir w ≡ ok manager
    pub keys : HaveFileKeys f manager identities keyed
    pub connected :
        new_sql_database_info sql c.postgres_dsn postgre_sql_identity_table_name c.db_params w
        ≡ (ok tt, w0)
    pub begun :
        (database_manager sql postgre_sql_identity_table_name).start_transaction w0 ≡ (ok tx, w1)
    pub stored :
        Stored
          (database_manager sql postgre_sql_identity_table_name)
          f.uuid_string
          cancel
          tx
          keyed
          w1
          w2
    pub ended : w' ≡ cancel tx w2

  -- A migration from the key file that returns no error has taken the identities of the identities
  -- file, which have a UUID and a token of their own each, and behind them one for each entry of the
  -- map of tokens, with the keys that the key file has for them, and has stored each of these in one
  -- transaction of the database, which it has committed.
  pub migrate_file_to_db-Migrated :
      (c : Config) (w w' : W) → migrate_file_to_db c w ≡ (ok tt, w') → Migrated c w w'
  unfolding migrate_file_to_db
  migrate_file_to_db-Migrated c w w' h = elim (Result-cases (configured files go c)) [
    | inl (x, failed) ↦ ground arith
    | inr (identities, named) ↦
        elim (Result-cases (get_keys_from_file f os c.config_dir identities w)) [
          | inl (x, failed) ↦ ground arith
          | inr (keyed, read) ↦
              let (r, w0) =
                new_sql_database_info sql c.postgres_dsn postgre_sql_identity_table_name c.db_params
                  w in
              elim (Result-cases r) [
                | inl (x, failed) ↦ ground arith
                | inr (_, connected) ↦
                    let dm = database_manager sql postgre_sql_identity_table_name in
                    let (m, loaded, keys) =
                      get_keys_from_file-HaveFileKeys f os c.config_dir identities keyed w read in
                    let (tx, w1, w2, begun, stored, ended) =
                      migrate_identities-Stored dm f.uuid_string cancel keyed w0 w'
                        (ground arith) in
                    record {
                      identities = identities;
                      keyed = keyed;
                      manager = m;
                      tx = tx;
                      w0 = w0;
                      w1 = w1;
                      w2 = w2;
                      names = configured-Names files go c identities named;
                      loaded = loaded;
                      keys = keys;
                      connected = ground arith;
                      begun = begun;
                      stored = stored;
                      ended = ended;
                    }
              ]
        ]
  ]
