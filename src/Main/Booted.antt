-- ===== src/Main/Booted.antt =====
-- What the start of the program has done when its server runs.
use mathlib.Core.Path.{subst}
use ubirch_cose_client_go.Prelude.{
  ◌⊎◌, ◌++◌, true, sym, ◌≡◌, ◌≢◌, refl, ap, inl, inr, Bool-cases, ◌==◌, bytes_eq, bytes_beq_iff,
  Bool, false, none, List, [], Bytes, arith,
}
use ubirch_cose_client_go.Dict.{lookup}
use ubirch_cose_client_go.Errors.{Error, err, codes, error_text, Result, ok, Result-cases}
use ubirch_cose_client_go.Protocol.Invariant.{IsValid, new_protocol-IsValid}
use ubirch_cose_client_go.Protocol.{Interval, set_interval, new_protocol}
use ubirch_cose_client_go.Context.{ContextManager}
use ubirch_cose_client_go.Config.{Config, load}
use ubirch_cose_client_go.Config.Loaded.{WasRead, IsLoaded, load-IsLoaded}
use ubirch_cose_client_go.Database.{
  get_ctx_manager, database_manager, postgre_sql_identity_table_name, new_sql_database_info,
}
use ubirch_cose_client_go.Signer.{new_cose_signer}
use ubirch_cose_client_go.Http.{Request, http_error, status_ok}
use ubirch_cose_client_go.Service.{Helpers, direct_uuid, auth_header}
use ubirch_cose_client_go.Service.Answers.{WritesStatus, handle_request_without_token}
use ubirch_cose_client_go.Main.Server.{
  Handlers, Event, Endpoint, service_of, serve, sign, sign_hash, run,
}
use ubirch_cose_client_go.Main.Guarded.{IsCalling, run-IsValid}
use ubirch_cose_client_go.Migration.FileToDb.{
  migrate_file_to_db, Migrated, migrate_file_to_db-Migrated,
}
use ubirch_cose_client_go.Main.{
  HttpServer, Outcome, fatal, migrated, Platform, Running, running, boot, start, assembled, env_of,
  arguments, config_file, zero_config, http_server,
}

-- Every minute with 60 failed loads in a row at most, or every hour with 3.
abbrev pub Reloads : Bool → Interval → Type 0
Reloads true i = (i.cert_load_interval ≡ 1) × (i.max_cert_load_fail_count ≡ 60)
Reloads false i = (i.cert_load_interval ≡ 60) × (i.max_cert_load_fail_count ≡ 3)

-- The address and the TLS files of the server.
pub record Listens (conf : Config) (server : HttpServer) : Type 0 where
  pub addr : server.addr ≡ conf.tcp_addr
  pub tls : server.tls ≡ conf.tls
  pub cert_file : server.cert_file ≡ conf.tls_cert_file
  pub key_file : server.key_file ≡ conf.tls_key_file

set_interval-Reloads : (every_minute : Bool) → Reloads every_minute (set_interval every_minute)
unfolding set_interval
set_interval-Reloads true = (refl, refl)
set_interval-Reloads false = (refl, refl)

module _ {W Tx PublicKey : Type 0} (x : Platform W Tx PublicKey) where
  -- What a start has found and made, from the world `w` to that of the server.
  pub record Started (conf : Config) (w : W) (r : Running W Tx PublicKey) : Type 0 where
    pub same_config : r.config ≡ conf
    pub pins : r.client.server_tls_cert_fingerprints ≡ conf.server_tls_cert_fingerprints
    pub list_url : r.client.certificate_server_url ≡ conf.certificate_server
    pub key_url : r.client.certificate_server_pub_key_url ≡ conf.certificate_server_pub_key
    pub country : r.id_handler.subject_country ≡ conf.csr_country
    pub organization : r.id_handler.subject_organization ≡ conf.csr_organization
    pub interval : Reloads conf.reload_certs_every_minute r.interval
    pub database : conf.postgres_dsn ≢ []
    pub manager : r.env.manager ≡ database_manager x.sql postgre_sql_identity_table_name
    pub server : HttpServer
    pub listens : Listens conf server
    pub connected :
        new_sql_database_info x.sql conf.postgres_dsn postgre_sql_identity_table_name conf.db_params
          (x.serve server w)
        ≡ (ok tt, r.state.protocol.world)
    pub registers : r.backend.submit_key_registration ≡ x.submit_key_registration conf.key_service
    pub requests : r.backend.submit_csr ≡ x.submit_csr conf.identity_service
    pub encrypter : x.new_key_encrypter conf.secret_bytes ≡ ok r.env.encrypter
    pub cose_signer : new_cose_signer r.env ≡ ok r.cose_signer
    pub fresh : IsValid r.state.protocol
    pub unlogged : r.state.audit_log ≡ []

  get_ctx_manager-eq-ok :
      (conf : Config) (m : ContextManager W Tx) (w w' : W)
      → get_ctx_manager x.sql conf w ≡ (ok m, w')
      → (conf.postgres_dsn ≢ [])
        × (m ≡ database_manager x.sql postgre_sql_identity_table_name)
        × (new_sql_database_info x.sql conf.postgres_dsn postgre_sql_identity_table_name
              conf.db_params w
            ≡ (ok tt, w'))
  unfolding get_ctx_manager
  get_ctx_manager-eq-ok conf m w w' h = elim (Bool-cases (conf.postgres_dsn == [])) [
    | inl empty ↦ ground arith
    | inr given ↦
        let (r, w1) =
          new_sql_database_info x.sql conf.postgres_dsn postgre_sql_identity_table_name
            conf.db_params w in
        elim (Result-cases r) [
          | inl (e, failed) ↦ ground arith
          | inr (_, connected) ↦ (
            λ none_given. ground (arith, bytes_beq_iff conf.postgres_dsn []),
            ground arith,
            ground arith,
          )
        ]
  ]

  start-Started :
      (conf : Config) (w w' : W) (r : Running W Tx PublicKey)
      → start x conf w ≡ (ok r, w')
      → Started conf w r
  unfolding start new_protocol
  start-Started conf w w' r h =
      let (r1, w1) = get_ctx_manager x.sql conf (x.serve (http_server conf) w) in
      elim (Result-cases r1) [
        | inl (e, failed) ↦ ground arith
        | inr (manager, got) ↦ elim (Result-cases (x.new_key_encrypter conf.secret_bytes)) [
          | inl (e, failed) ↦ ground arith
          | inr (encrypter, made) ↦
              elim (Result-cases (new_cose_signer (env_of x manager encrypter))) [
                | inl (e, failed) ↦ ground arith
                | inr (signer, initialised) ↦
                    let (database, same, connected) =
                      get_ctx_manager-eq-ok conf manager (x.serve (http_server conf) w) w1
                        (ground arith) in
                    let same_server : assembled x conf manager encrypter signer w1 ≡ r =
                      ground arith in
                    subst (Started conf w) same_server (record {
                      same_config = refl;
                      pins = refl;
                      list_url = refl;
                      key_url = refl;
                      country = refl;
                      organization = refl;
                      interval = set_interval-Reloads conf.reload_certs_every_minute;
                      database = database;
                      manager = same;
                      server = http_server conf;
                      listens = record {
                        addr = refl;
                        tls = refl;
                        cert_file = refl;
                        key_file = refl;
                      };
                      connected = connected;
                      registers = refl;
                      requests = refl;
                      encrypter = made;
                      cose_signer = initialised;
                      fresh = new_protocol-IsValid w1;
                      unlogged = refl;
                    })
              ]
        ]
      ]

  pub boot-start :
      (os_args : List Bytes) (conf : Config) (w w' : W) (r : Running W Tx PublicKey)
      → load x.files x.go (arguments os_args).config_dir config_file zero_config ≡ (ok tt, conf)
      → (arguments os_args).migrate ≡ false
      → start x conf w ≡ (ok r, w')
      → boot x os_args w ≡ running r
  unfolding boot
  boot-start os_args conf w w' r loaded serves begun = ground (arith, loaded, serves, begun)

  -- The configuration that is loaded, beside the error.
  abbrev pub configuration : List Bytes → Result (Unit {0}) × Config
  configuration os_args = load x.files x.go (arguments os_args).config_dir config_file zero_config

  -- The configuration has the settings that were read, from the file or from the environment.
  abbrev pub WasLoaded : List Bytes → Config → Type 0
  WasLoaded os_args conf =
      (given : Config) × WasRead x.files x.go (codes "config.json")
        (record zero_config { config_dir = (arguments os_args).config_dir }) given
      × IsLoaded x.files x.go given conf

  -- What each end of the start says of it.
  abbrev pub Ended : List Bytes → W → Outcome W Tx PublicKey → Type 0
  Ended os_args w (running r) =
      ((arguments os_args).migrate ≡ false)
      × (conf : Config) × (configuration os_args ≡ (ok tt, conf))
      × WasLoaded os_args conf
      × Started conf w r
  Ended os_args w (migrated w') =
      ((arguments os_args).migrate ≡ true)
      × (conf : Config) × (configuration os_args ≡ (ok tt, conf))
      × WasLoaded os_args conf
      × Migrated x.files x.go x.key_format x.os x.sql x.cancel conf w w'
  Ended os_args w (fatal message w') =
      (e : Error) × (((configuration os_args).0 ≡ err e) × (w' ≡ w)
        ⊎ (((arguments os_args).migrate ≡ true)
              × (migrate_file_to_db x.files x.go x.key_format x.os x.sql x.cancel
                    (configuration os_args).1 w
                  ≡ (err e, w'))
            ⊎ (((arguments os_args).migrate ≡ false)
                × (start x (configuration os_args).1 w ≡ (err e, w')))))

  Ended-subst :
      (os_args : List Bytes) (w : W) (o o' : Outcome W Tx PublicKey)
      → o' ≡ o
      → Ended os_args w o
      → Ended os_args w o'
  Ended-subst os_args w o o' same h = subst (Ended os_args w) (sym same) h

  Ended-boot : (os_args : List Bytes) (w : W) → Ended os_args w (boot x os_args w)
  unfolding boot
  Ended-boot os_args w =
      let a = arguments os_args in
      let (r1, conf) = configuration os_args in
      elim (Result-cases r1) [
        | inl (e, failed) ↦
            Ended-subst os_args w
              (fatal (codes "ERROR: unable to load configuration: " ++ error_text e) w) _
              (ground (arith, failed)) (e, inl (failed, refl))
        | inr (_, loaded) ↦
            let whole : configuration os_args ≡ (ok tt, conf) =
              ap (λ (t : Result (Unit {0})). (t, conf)) loaded in
            let ready =
              load-IsLoaded x.files x.go a.config_dir config_file zero_config conf whole in
            elim (Bool-cases a.migrate) [
              | inl migrates ↦
                  let (r2, w2) =
                    migrate_file_to_db x.files x.go x.key_format x.os x.sql x.cancel conf w in
                  elim (Result-cases r2) [
                    | inl (e, failed) ↦
                        Ended-subst os_args w
                          (fatal (codes "migration failed: " ++ error_text e) w2) _
                          (ground (arith, loaded, migrates, failed))
                          (e, inr (inl (migrates, ground arith)))
                    | inr (_, done) ↦
                        Ended-subst os_args w (migrated w2) _
                          (ground (arith, loaded, migrates, done))
                          (
                            migrates,
                            conf,
                            whole,
                            ready,
                            migrate_file_to_db-Migrated x.files x.go x.key_format x.os x.sql
                                x.cancel conf w w2 (ground arith),
                          )
                  ]
              | inr serves ↦
                  let (r2, w2) = start x conf w in
                  elim (Result-cases r2) [
                    | inl (e, failed) ↦
                        Ended-subst os_args w (fatal (error_text e) w2) _
                          (ground (arith, loaded, serves, failed))
                          (e, inr (inr (serves, ground arith)))
                    | inr (r, begun) ↦
                        Ended-subst os_args w (running r) _ (ground (arith, loaded, serves, begun))
                          (serves, conf, whole, ready, start-Started conf w w2 r (ground arith))
                  ]
            ]
      ]

  -- A program whose server runs serves no signing request without a token, on either of the signing
  -- endpoints, whatever has happened since: requests to any endpoint, reloads of the certificates
  -- and changes of the world, in any order. The conditions: the helpers write the status that they
  -- are given, and the registration handler of ubirch-client-go acts by the two functions that it
  -- is given.
  pub boot_without_token :
      (os_args : List Bytes) (w : W) (p : Running W Tx PublicKey) (h : Helpers)
      (handlers : Handlers W) (events : List (Event W)) (r : Request) (endpoint : Endpoint)
      → boot x os_args w ≡ running p
      → WritesStatus h
      → IsCalling handlers
      → lookup auth_header r.header ≡ none
      → (endpoint ≡ sign) ⊎ (endpoint ≡ sign_hash)
      → (serve p.env p.client p.interval p.backend p.id_handler p.cose_signer h handlers endpoint r
          (run p.env p.client p.interval p.backend p.id_handler p.cose_signer h handlers events
            p.state).1).0.status
        ≢ status_ok
  unfolding serve direct_uuid http_error
  boot_without_token os_args w p h handlers events r endpoint booted writes calling missing signs =
      let (_, _, _, _, s) = subst (Ended os_args w) booted (Ended-boot os_args w) in
      let later =
        (run p.env p.client p.interval p.backend p.id_handler p.cose_signer h handlers events
          p.state).1 in
      let v =
        run-IsValid p.env p.client p.interval p.backend p.id_handler p.cose_signer h handlers
          calling events p.state s.fresh in
      elim (Result-cases (h.parse_uuid r.uuid_param)) [
        | inl (e, bad) ↦ ground (arith, signs)
        | inr (uid, parsed) ↦ λ fine.
            handle_request_without_token p.env p.cose_signer h r uid (service_of later) writes v
              missing (ground (arith, signs))
      ]
