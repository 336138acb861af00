-- ===== src/Config.antt =====
-- config.go: the configuration, and what loading it checks and fills in.
pub mod Settings
pub mod Pins
pub mod Loaded
pub mod Accounts
pub mod Durations
use ubirch_cose_client_go.Prelude.{
  String, ℕ, Bool, true, false, not, Option, none, some, List, [], ◌∷◌, ◌++◌, Bytes, length, ◌==◌,
  nat_eq, bytes_eq, if◌then◌else◌,
}
use ubirch_cose_client_go.Codec.Base64
use ubirch_cose_client_go.Codec.Integers.{atoi, minutes, decimal}
use ubirch_cose_client_go.Codec.Strings.{trim_suffix}
use ubirch_cose_client_go.Dict.{Dict, insert}
use ubirch_cose_client_go.Errors.{
  Error, text, error_text, codes, Result, ok, err, wrap, Exec, pure, fail, lift, ◌>>=◌, ◌>>◌,
}
use ubirch_cose_client_go.Context.{Uuid, Identity}
use ubirch_cose_client_go.Libs.{Go}

abbrev pub secret_length : ℕ
secret_length = 32

abbrev pub prod_stage : Bytes
prod_stage = codes "prod"

-- fmt.Sprintf of the two URLs and of the file name, which have one gap
abbrev default_key_url : Bytes → Bytes
default_key_url env =
    codes "https://identity." ++ env ++ codes ".ubirch.com/api/keyService/v1/pubkey"

abbrev default_identity_url : Bytes → Bytes
default_identity_url env =
    codes "https://identity." ++ env ++ codes ".ubirch.com/api/certs/v1/csr/register"

abbrev pub tls_certs_file_name : Bytes → Bytes
tls_certs_file_name env = env ++ codes "_ubirch_tls_certs.json"

abbrev pub identities_file_name : Bytes
identities_file_name = codes "identities.json"

abbrev default_csr_country : Bytes
default_csr_country = codes "DE"

abbrev default_csr_organization : Bytes
default_csr_organization = codes "ubirch GmbH"

abbrev default_tcp_addr : Bytes
default_tcp_addr = codes ":8080"

abbrev default_tls_cert_file : Bytes
default_tls_cert_file = codes "cert.pem"

abbrev default_tls_key_file : Bytes
default_tls_key_file = codes "key.pem"

abbrev default_db_max_open_conns : ℕ
default_db_max_open_conns = 10

abbrev default_db_max_idle_conns : ℕ
default_db_max_idle_conns = 10

-- in minutes
abbrev default_db_conn_max_lifetime : ℕ
default_db_conn_max_lifetime = 10

abbrev default_db_conn_max_idle_time : ℕ
default_db_conn_max_idle_time = 1

-- of database.go: numbers as 64 bits, the durations in nanoseconds
pub record DatabaseParams : Type 0 where
  pub max_open_conns : ℕ
  pub max_idle_conns : ℕ
  pub conn_max_lifetime : ℕ
  pub conn_max_idle_time : ℕ

-- The fields that the program reads; `debug` and `log_text_format` change only the log.
pub record Config : Type 0 where
  pub tokens : Dict Uuid Bytes
  pub secret_base64 : Bytes
  pub register_auth : Bytes
  pub env : Bytes
  pub postgres_dsn : Bytes
  pub db_max_open_conns : Bytes
  pub db_max_idle_conns : Bytes
  pub db_conn_max_lifetime : Bytes
  pub db_conn_max_idle_time : Bytes
  pub tcp_addr : Bytes
  pub tls : Bool
  pub tls_cert_file : Bytes
  pub tls_key_file : Bytes
  pub csr_country : Bytes
  pub csr_organization : Bytes
  pub certificate_server : Bytes
  pub certificate_server_pub_key : Bytes
  pub reload_certs_every_minute : Bool
  pub key_service : Bytes
  pub identity_service : Bytes
  pub server_tls_cert_fingerprints : Dict Bytes Bytes
  pub config_dir : Bytes
  pub secret_bytes : Bytes
  pub db_params : DatabaseParams

-- The files and the environment, as they are while the program starts: `read_file` is what a file
-- holds, `is_missing` what `os.IsNotExist` says of `os.Stat`, the decoders are those of
-- `encoding/json` (`decode_identities` for lists without `null`, at which `loadIdentitiesFile`
-- panics), and `process` is that of envconfig. `join` is `filepath.Join`, and `atoi_failure` the
-- error of an `Atoi` that failed.
pub record Files : Type 0 where
  pub getenv : Bytes → Bytes
  pub process : Exec Config (Unit {0})
  pub join : Bytes → Bytes → Bytes
  pub read_file : Bytes → Result Bytes
  pub is_missing : Bytes → Bool
  pub decode_config : Bytes → Exec Config (Unit {0})
  pub decode_certificates : Bytes → Result (Dict Bytes Bytes)
  pub decode_identities : Bytes → Result (List Identity)
  pub atoi_failure : Bytes → Error

-- `if value == "" { value = default }`
abbrev pub or_default : Bytes → Bytes → Bytes
or_default value default = if value == [] then default else value

unfoldable pub check_mandatory : Config → Result (Unit {0})
check_mandatory c =
    if not (length c.secret_bytes == secret_length)
    then err (
        text (
          codes "secret for key encryption ('secret32') length must be "
          ++ decimal secret_length
          ++ codes " bytes (is "
          ++ decimal (length c.secret_bytes)
          ++ codes ")"))
    else if length c.register_auth == 0
    then err (text (codes "auth token for identity registration ('registerAuth') wasn't set"))
    else if c.certificate_server == []
    then err (text (codes "missing 'certificateServer' in configuration"))
    else if c.certificate_server_pub_key == []
    then err (text (codes "missing 'certificateServerPubKey' in configuration"))
    else ok tt

unfoldable pub set_default_csr : Config → Config
set_default_csr c = record c {
  csr_country = or_default c.csr_country default_csr_country;
  csr_organization = or_default c.csr_organization default_csr_organization;
}

-- a file name in the configuration's directory, if TLS is enabled
abbrev tls_file : Files → Config → Bytes → Bytes → Bytes
tls_file f c name default = if c.tls then f.join c.config_dir (or_default name default) else name

unfoldable pub set_default_tls : Files → Config → Config
set_default_tls f c = record c {
  tcp_addr = or_default c.tcp_addr default_tcp_addr;
  tls_cert_file = tls_file f c c.tls_cert_file default_tls_cert_file;
  tls_key_file = tls_file f c c.tls_key_file default_tls_key_file;
}

unfoldable pub set_default_urls : Config → Config
set_default_urls c =
    let env = or_default c.env prod_stage in
    record c {
      env = env;
      key_service =
          if c.key_service == []
          then default_key_url env
          else trim_suffix c.key_service (codes "/mpack");
      identity_service = or_default c.identity_service (default_identity_url env);
    }

-- one of the four parts of `setDbParams`
abbrev pub db_param : Files → String → Bytes → ℕ → (ℕ → ℕ) → Result ℕ
db_param f what value default convert = if value == [] then ok default else elim (atoi value) [
  | none ↦ err (wrap what (f.atoi_failure value))
  | some i ↦ ok (convert i)
]

abbrev set_param : (DatabaseParams → DatabaseParams) → Exec Config (Unit {0})
set_param change c = (ok tt, record c { db_params = change c.db_params })

unfoldable pub set_db_params : Files → Exec Config (Unit {0})
set_db_params f c =
    (do
      i ← lift (
          db_param f "failed to set DB parameter MaxOpenConns" c.db_max_open_conns
            default_db_max_open_conns (λ i. i))
      set_param (λ p. record p { max_open_conns = i })
      j ← lift (
          db_param f "failed to set DB parameter MaxIdleConns" c.db_max_idle_conns
            default_db_max_idle_conns (λ i. i))
      set_param (λ p. record p { max_idle_conns = j })
      k ← lift (
          db_param f "failed to set DB parameter ConnMaxLifetime" c.db_conn_max_lifetime
            (minutes default_db_conn_max_lifetime) minutes)
      set_param (λ p. record p { conn_max_lifetime = k })
      l ← lift (
          db_param f "failed to set DB parameter ConnMaxIdleTime" c.db_conn_max_idle_time
            (minutes default_db_conn_max_idle_time) minutes)
      set_param (λ p. record p { conn_max_idle_time = l }))
      c

module _ {PublicKey : Type 0} (f : Files) (go : Go PublicKey) where
  -- the loop over the hosts
  unfoldable pub add_fingerprints : Dict Bytes Bytes → Dict Bytes Bytes → Dict Bytes Bytes
  add_fingerprints [] m = m
  add_fingerprints ((host, cert) ∷ certs) m = elim (go.parse_certificate cert) [
    | err x ↦ add_fingerprints certs m
    | ok _ ↦ add_fingerprints certs (insert host (go.sum256 cert) m)
  ]

  -- behind the decoding of the file
  abbrev pub certificates_found : Bytes → Dict Bytes Bytes → Exec Config (Unit {0})
  certificates_found file [] c =
      (err (text (codes "no TLS certificates found in file " ++ file)), c)
  certificates_found file (cert ∷ certs) c =
      (ok tt, record c { server_tls_cert_fingerprints = add_fingerprints (cert ∷ certs) [] })

  unfoldable pub load_server_tls_certificates : Exec Config (Unit {0})
  load_server_tls_certificates c =
      let file = f.join c.config_dir (tls_certs_file_name c.env) in
      elim (f.read_file file) [
        | err x ↦ (err x, c)
        | ok content ↦ elim (f.decode_certificates content) [
          | err x ↦ (err x, c)
          | ok certs ↦ certificates_found file certs c
        ]
      ]

  unfoldable pub load_file : Bytes → Exec Config (Unit {0})
  load_file filename c = elim (f.read_file (f.join c.config_dir filename)) [
    | err x ↦ (err x, c)
    | ok content ↦ f.decode_config content c
  ]

  -- c.secretBytes, err = base64.StdEncoding.DecodeString(c.SecretBase64)
  unfoldable pub decode_secret : Exec Config (Unit {0})
  decode_secret c = elim (Base64.decode c.secret_base64) [
    | none ↦
        let (x, decoded) = go.base64_failure c.secret_base64 in
        (
          err (
              text (
                codes "unable to decode base64 encoded secret ("
                ++ c.secret_base64
                ++ codes "): "
                ++ error_text x)),
          record c { secret_bytes = decoded },
        )
    | some secret ↦ (ok tt, record c { secret_bytes = secret })
  ]

  abbrev pub set_defaults : Exec Config (Unit {0})
  set_defaults c = (ok tt, set_default_urls (set_default_tls f (set_default_csr c)))

  abbrev checked : Exec Config (Unit {0})
  checked c = (check_mandatory c, c)

  abbrev certificates_loaded : Exec Config (Unit {0})
  certificates_loaded c =
      let (r, c') = load_server_tls_certificates c in
      elim r [ ok _ ↦ (ok tt, c') | err x ↦ (err (wrap "loading TLS certificates failed" x), c') ]

  -- envconfig's `Process`
  abbrev load_env : Exec Config (Unit {0})
  load_env = f.process

  abbrev pub read_settings : Bytes → Exec Config (Unit {0})
  read_settings filename =
      if f.getenv (codes "UBIRCH_SECRET32") == [] then load_file filename else load_env

  unfoldable pub load : Bytes → Bytes → Exec Config (Unit {0})
  load config_dir filename c =
      (do
        read_settings filename
        decode_secret
        checked
        set_defaults
        certificates_loaded
        set_db_params f)
        (record c { config_dir = config_dir })
