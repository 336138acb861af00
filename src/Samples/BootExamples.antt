-- ===== src/Samples/BootExamples.antt =====
-- A start of the program on the small database, and its migration from a key file.
use ubirch_cose_client_go.Prelude.{
  ◌≡◌, ◌≢◌, inr, refl, false, Option, List, [], ◌∷◌, Bytes, bytes_eq, bytes_beq, nat_eq, arith,
}
use ubirch_cose_client_go.Dict.{lookup, insert}
use ubirch_cose_client_go.Errors.{codes, ok}
use ubirch_cose_client_go.Config.{
  Config, Files, load, load_file, decode_secret, check_mandatory, set_default_csr, set_default_tls,
  set_default_urls, load_server_tls_certificates, add_fingerprints, set_db_params,
}
use ubirch_cose_client_go.Config.Accounts.{
  named, load_identities_file, check_entries, load_tokens, append_tokens,
}
use ubirch_cose_client_go.Codec.Integers.{atoi, minutes}
use ubirch_cose_client_go.FileManager
use ubirch_cose_client_go.FileManager.{
  Os, present, new_file_manager, load_keys, load_depth, load_body, read_or_backup, decode_or_backup,
  get_key, private_key_entry_id, public_key_entry_id,
}
use ubirch_cose_client_go.Database.{
  new_sql_database_info, begin_transaction, insert_identity, end_transaction, select_identity,
  database_manager, get_ctx_manager, postgre_sql_identity_table_name,
}
use ubirch_cose_client_go.Migration.{
  migrate_identities, migrate_all, migrate_identity, check_attributes,
}
use ubirch_cose_client_go.Migration.FileToDb.{
  configured, with_keys, get_keys, get_keys_from_file, migrate_file_to_db, Migrated,
  migrate_file_to_db-Migrated,
}
use ubirch_cose_client_go.Samples.{World, env, client, helpers, signer, protocol}
use ubirch_cose_client_go.Samples.Disk.{encode, entries, format}
use ubirch_cose_client_go.Samples.ConfigExamples.{files, written, loaded, secret_read}
use ubirch_cose_client_go.Samples.CoseExamples.{data_request, writes}
use ubirch_cose_client_go.Samples.DatabaseExamples.{sql, before}
use ubirch_cose_client_go.Config
use ubirch_cose_client_go.Signer.{new_cose_signer}
use ubirch_cose_client_go.Http.{Request, Written, status_ok}
use ubirch_cose_client_go.Service.AuditTrail.{IsSuccessTest}
use ubirch_cose_client_go.Main.Server.{
  ServerState, sign, sign_hash, register, liveness, Event, request, reload, Handlers, serve, run,
}
use ubirch_cose_client_go.Main.Guarded.{IsCalling}
use ubirch_cose_client_go.Main.Booted.{boot-start, boot_without_token}
use ubirch_cose_client_go.Main.{
  zero_config, config_file, arguments, read_args, Platform, Running, running, assembled, start,
  boot,
}

-- The configuration names the identity 3 alone, whose keys are in the key file.
abbrev one_identity : Files
one_identity = record files {
  decode_config = λ content c. (ok tt, record (written c) { tokens = []; postgres_dsn = 1 ∷ [] });
  decode_identities = λ content. ok (named (3, 7 ∷ []) ∷ []);
}

abbrev key_file : Os World
key_file = record {
  stat = λ file w. present;
  read_file = λ file w. ok (encode ((95 ∷ 48 ∷ 3 ∷ [], 5 ∷ []) ∷ (48 ∷ 3 ∷ [], 6 ∷ []) ∷ []));
  rename = λ from to w. (ok tt, w);
  write_file = λ file content w. (ok tt, w);
}

abbrev cancel : Option (Unit {0}) → World → World
cancel tx w = record w { staged = [] }

abbrev migrated_world : World
migrated_world = record before {
  rows =
      (3, record { uid = 3; private_key = 5 ∷ []; public_key = 6 ∷ []; auth_token = 7 ∷ [] }) ∷ [];
}

abbrev with_database : Config
with_database = record zero_config { postgres_dsn = 1 ∷ [] }

migrated :
    migrate_file_to_db one_identity env.go format key_file sql cancel with_database before
    ≡ (ok tt, migrated_world)
unfolding migrate_file_to_db configured load_identities_file check_entries load_tokens append_tokens
    get_keys_from_file get_keys with_keys new_file_manager load_keys FileManager.load_file
    load_depth load_body read_or_backup decode_or_backup encode entries get_key private_key_entry_id
    public_key_entry_id new_sql_database_info migrate_identities migrate_all migrate_identity
    check_attributes insert_identity select_identity begin_transaction end_transaction lookup insert
    bytes_beq codes
migrated = refl

migrate_file_to_db-Migrated_example :
    Migrated one_identity env.go format key_file sql cancel with_database before migrated_world
migrate_file_to_db-Migrated_example =
    migrate_file_to_db-Migrated one_identity env.go format key_file sql cancel with_database before
      migrated_world migrated

-- A platform with these parts, and a program that is started with a directory.
abbrev platform : Platform World (Unit {0}) Bytes
platform = record {
  files = record one_identity {
    decode_config = λ content c. (ok tt, record (written c) { postgres_dsn = 1 ∷ [] });
  };
  os = key_file;
  key_format = format;
  sql = sql;
  crypto = env.crypto;
  new_key_encrypter = λ secret_bytes. ok env.encrypter;
  web = env.web;
  go = env.go;
  cbor = env.cbor;
  pq_error_name = env.pq_error_name;
  serve = λ server w. w;
  submit_key_registration = λ url uid registration auth w. (ok tt, w);
  submit_csr = λ url uid csr w. (ok tt, w);
  cancel = cancel;
}

abbrev os_args : List Bytes
os_args = codes "client" ∷ codes "/etc" ∷ []

abbrev settings : Config
settings =
    loaded (record (written (record zero_config { config_dir = codes "/etc" })) {
      postgres_dsn = 1 ∷ [];
    })

settings_loaded :
    load platform.files env.go (arguments os_args).config_dir config_file zero_config
    ≡ (ok tt, settings)
unfolding arguments read_args load Config.load_file decode_secret check_mandatory set_default_csr
    set_default_tls set_default_urls load_server_tls_certificates add_fingerprints insert
    set_db_params atoi minutes bytes_beq codes
settings_loaded = rw (load, decode_secret, secret_read)

abbrev server : Running World (Unit {0}) Bytes
server =
    assembled platform settings (database_manager sql postgre_sql_identity_table_name) env.encrypter
      signer before

begun : start platform settings before ≡ (ok server, before)
unfolding start get_ctx_manager new_sql_database_info new_cose_signer set_default_csr
    set_default_tls set_default_urls bytes_beq
begun = refl

serves : (arguments os_args).migrate ≡ false
unfolding arguments read_args bytes_beq codes
serves = refl

booted : boot platform os_args before ≡ running server
booted = boot-start platform os_args settings before before server settings_loaded serves begun

abbrev answered : Written
answered = record { status = 201; header = []; body = [] }

-- A registration handler that looks for the identity 4 and makes it.
abbrev handlers : Handlers World
handlers = record {
  health = answered;
  put_identity = λ init has r s. (answered, (init 4 (8 ∷ []) (has 4 s).1).1);
}

calling : IsCalling handlers
calling = record {
  keeps = λ init has I keep_init keep_has r s v. keep_init 4 (8 ∷ []) (has 4 s).1 (keep_has 4 s v);
}

abbrev without_token : Request
without_token = record data_request { header = [] }

boot_without_token_example :
    (serve server.env server.client server.interval server.backend server.id_handler
      server.cose_signer helpers handlers sign_hash without_token
      (run server.env server.client server.interval server.backend server.id_handler
        server.cose_signer helpers handlers
        (request register data_request ∷ reload ∷ request sign data_request ∷ [])
        server.state).1).0.status
    ≢ status_ok
unfolding lookup
boot_without_token_example =
    boot_without_token platform os_args before server helpers handlers
      (request register data_request ∷ reload ∷ request sign data_request ∷ []) without_token
      sign_hash booted writes calling refl (inr refl)

pub success_test : IsSuccessTest helpers
success_test = record { failure = λ code large. ground arith }

-- A state of the server in which the identity 3 has its certificate.
abbrev certified : ServerState World
certified = record (server.state) { protocol = protocol }

abbrev events : List (Event World)
events =
    request sign data_request
    ∷ reload
    ∷ request sign_hash without_token
    ∷ request liveness without_token
    ∷ []
