-- ===== src/Main.antt =====
-- main.go: from the arguments and the configuration to a running server.
pub mod Server
pub mod Trail
pub mod Guarded
pub mod Told
pub mod Booted
pub mod Registered
pub mod Interleaved
use ubirch_cose_client_go.Prelude.{
  ℕ, Bool, true, false, Option, List, [], ◌∷◌, ◌++◌, Bytes, ◌==◌, bytes_eq, if◌then◌else◌,
}
use ubirch_cose_client_go.Errors.{
  Error, codes, error_text, Result, ok, err, Exec, pure, lift, ◌>>=◌, ◌>>◌,
}
use ubirch_cose_client_go.Context.{Uuid, ContextManager}
use ubirch_cose_client_go.Libs.{Crypto, KeyEncrypter, Web, Go, EncMode, Env}
use ubirch_cose_client_go.Client.{ExtendedClient}
use ubirch_cose_client_go.Protocol.{Interval, set_interval, new_protocol}
use ubirch_cose_client_go.IdentityHandler.{IdentityHandler, Backend}
use ubirch_cose_client_go.Signer.{CoseSigner, new_cose_signer}
use ubirch_cose_client_go.Config.{Config, Files, load}
use ubirch_cose_client_go.FileManager.{Os, KeyFormat}
use ubirch_cose_client_go.Database.{Sql, get_ctx_manager}
use ubirch_cose_client_go.Migration.FileToDb.{migrate_file_to_db}
use Server.{ServerState}

abbrev pub config_file : Bytes
config_file = codes "config.json"

abbrev pub migrate_arg : Bytes
migrate_arg = codes "--migrate"

-- What the arguments say.
pub record Arguments : Type 0 where
  pub config_dir : Bytes
  pub migrate : Bool

-- the loop over the arguments
unfoldable pub read_args : List Bytes → Arguments → Arguments
read_args [] a = a
read_args (arg ∷ args) a =
    read_args args
      (if arg == migrate_arg then record a { migrate = true } else record a { config_dir = arg })

-- `os.Args`, whose first is the name of the program
unfoldable pub arguments : List Bytes → Arguments
arguments [] = record { config_dir = []; migrate = false }
arguments (program ∷ args) = read_args args (record { config_dir = []; migrate = false })

-- `&Config{}`
abbrev pub zero_config : Config
zero_config = record {
  tokens = [];
  secret_base64 = [];
  register_auth = [];
  env = [];
  postgres_dsn = [];
  db_max_open_conns = [];
  db_max_idle_conns = [];
  db_conn_max_lifetime = [];
  db_conn_max_idle_time = [];
  tcp_addr = [];
  tls = false;
  tls_cert_file = [];
  tls_key_file = [];
  csr_country = [];
  csr_organization = [];
  certificate_server = [];
  certificate_server_pub_key = [];
  reload_certs_every_minute = false;
  key_service = [];
  identity_service = [];
  server_tls_cert_fingerprints = [];
  config_dir = [];
  secret_bytes = [];
  db_params = record {
    max_open_conns = 0;
    max_idle_conns = 0;
    conn_max_lifetime = 0;
    conn_max_idle_time = 0;
  };
}

-- The fields of the `HTTPServer` of ubirch-client-go that are set.
pub record HttpServer : Type 0 where
  pub addr : Bytes
  pub tls : Bool
  pub cert_file : Bytes
  pub key_file : Bytes

-- What the program calls and does not contain. `serve` is what starting the server does until it is
-- ready, `submit_key_registration` and `submit_csr` are given the URL of their service, and `cancel`
-- is what the end of a context does to the transaction that was started with it.
pub record Platform (W Tx PublicKey : Type 0) : Type 0 where
  pub files : Files
  pub os : Os W
  pub key_format : KeyFormat
  pub sql : Sql W Tx
  pub crypto : Crypto W PublicKey
  pub new_key_encrypter : Bytes → Result (KeyEncrypter W)
  pub web : Web W
  pub go : Go PublicKey
  pub cbor : Result EncMode
  pub pq_error_name : Bytes → Bytes
  pub serve : HttpServer → W → W
  pub submit_key_registration : Bytes → Uuid → Bytes → Bytes → Exec W (Unit {0})
  pub submit_csr : Bytes → Uuid → Bytes → Exec W (Unit {0})
  pub cancel : Option Tx → W → W

-- What `main` has put together when it waits for its goroutines.
pub record Running (W Tx PublicKey : Type 0) : Type 0 where
  pub config : Config
  pub env : Env W Tx PublicKey
  pub client : ExtendedClient
  pub interval : Interval
  pub backend : Backend W Tx
  pub id_handler : IdentityHandler
  pub cose_signer : CoseSigner
  pub state : ServerState W

-- How the first part of `main` ends: in `log.Fatal`, in `os.Exit(0)`, or with a server that runs.
pub data Outcome (W Tx PublicKey : Type 0) : Type 0 where
  fatal : Bytes → W → Outcome W Tx PublicKey
  migrated : W → Outcome W Tx PublicKey
  running : Running W Tx PublicKey → Outcome W Tx PublicKey

abbrev pub http_server : Config → HttpServer
http_server conf = record {
  addr = conf.tcp_addr;
  tls = conf.tls;
  cert_file = conf.tls_cert_file;
  key_file = conf.tls_key_file;
}

abbrev pub extended_client : Config → ExtendedClient
extended_client conf = record {
  signing_service_url = [];
  certificate_server_url = conf.certificate_server;
  certificate_server_pub_key_url = conf.certificate_server_pub_key;
  server_tls_cert_fingerprints = conf.server_tls_cert_fingerprints;
}

abbrev pub identity_handler : Config → IdentityHandler
identity_handler conf = record {
  subject_country = conf.csr_country;
  subject_organization = conf.csr_organization;
}

module _ {W Tx PublicKey : Type 0} (x : Platform W Tx PublicKey) where
  -- the services behind the URLs that `main` gives to the client
  abbrev pub backend_of : Config → Backend W Tx
  backend_of conf = record {
    submit_key_registration = x.submit_key_registration conf.key_service;
    submit_csr = x.submit_csr conf.identity_service;
    cancel = x.cancel;
  }

  -- what the methods of the `Protocol` call
  abbrev pub env_of : ContextManager W Tx → KeyEncrypter W → Env W Tx PublicKey
  env_of ctx_manager encrypter = record {
    manager = ctx_manager;
    crypto = x.crypto;
    encrypter = encrypter;
    web = x.web;
    go = x.go;
    cbor = x.cbor;
    pq_error_name = x.pq_error_name;
  }

  abbrev pub assembled :
      Config → ContextManager W Tx → KeyEncrypter W → CoseSigner → W → Running W Tx PublicKey
  assembled conf ctx_manager encrypter cose_signer w = record {
    config = conf;
    env = env_of ctx_manager encrypter;
    client = extended_client conf;
    interval = set_interval conf.reload_certs_every_minute;
    backend = backend_of conf;
    id_handler = identity_handler conf;
    cose_signer = cose_signer;
    state = record {
      protocol = new_protocol w;
      audit_log = [];
      signature_creations = 0;
      created = [];
      started = [];
    };
  }

  -- from the start of the server on
  unfoldable pub start : Config → Exec W (Running W Tx PublicKey)
  start conf = do
    (λ w. (ok tt, x.serve (http_server conf) w))
    ctx_manager ← get_ctx_manager x.sql conf
    encrypter ← lift (x.new_key_encrypter conf.secret_bytes)
    cose_signer ← lift (new_cose_signer (env_of ctx_manager encrypter))
    (λ w. (ok (assembled conf ctx_manager encrypter cose_signer w), w))

  abbrev pub started : Result (Running W Tx PublicKey) × W → Outcome W Tx PublicKey
  started (ok r, w) = running r
  started (err e, w) = fatal (error_text e) w

  abbrev pub migration_ended : Result (Unit {0}) × W → Outcome W Tx PublicKey
  migration_ended (ok _, w) = migrated w
  migration_ended (err e, w) = fatal (codes "migration failed: " ++ error_text e) w

  unfoldable pub boot : List Bytes → W → Outcome W Tx PublicKey
  boot os_args w =
      let a = arguments os_args in
      let (r, conf) = load x.files x.go a.config_dir config_file zero_config in
      elim r [
        | err e ↦ fatal (codes "ERROR: unable to load configuration: " ++ error_text e) w
        | ok _ ↦
            if a.migrate
            then migration_ended
                (migrate_file_to_db x.files x.go x.key_format x.os x.sql x.cancel conf w)
            else started (start conf w)
      ]
