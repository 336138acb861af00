-- ===== src/Config/Loaded.antt =====
-- What a configuration that was loaded has.
use mathlib.Core.Path.{subst}
use ubirch_cose_client_go.Prelude.{
  sym, ◌∙◌, ◌≡◌, ◌≢◌, ◌⊎◌, ◌++◌, Bool, true, false, if◌then◌else◌, refl, ap, inl, inr, Bool-cases,
  Option-cases, some, [], Bytes, ◌==◌, nat_eq, bytes_eq, bytes_beq_iff, arith,
}
use ubirch_cose_client_go.Codec.Base64
use ubirch_cose_client_go.Codec.Strings.{trim_suffix}
use ubirch_cose_client_go.Dict.{Dict}
use ubirch_cose_client_go.Errors.{codes, Result, ok, Result-cases}
use ubirch_cose_client_go.Libs.{Go}
use ubirch_cose_client_go.Config.{
  Config, Files, DatabaseParams, or_default, check_mandatory, set_default_csr, set_default_tls,
  set_default_urls, read_settings, load_file, decode_secret, load_server_tls_certificates, load,
}
use ubirch_cose_client_go.Config.Settings.{
  IsMandatory, check_mandatory-IsMandatory, Fills, or_default-Fills, IsSized, set_db_params-IsSized,
}
use ubirch_cose_client_go.Config.Pins.{ArePinned, Pinned, certificates-Pinned}

module _ {PublicKey : Type 0} (f : Files) (go : Go PublicKey) where
  -- The name of a TLS file: a setting or its default, in the configuration's directory, if TLS is
  -- enabled, and else the setting as it is.
  abbrev pub FillsFile : Bool → Bytes → Bytes → Bytes → Bytes → Type 0
  FillsFile true dir given default value =
      (name : Bytes) × Fills given default name × (value ≡ f.join dir name)
  FillsFile false dir given default value = value ≡ given

  -- The URL of the key service: its default, or what was given, without a suffix `/mpack`.
  abbrev pub FillsKeyService : Bytes → Bytes → Bytes → Type 0
  FillsKeyService env given value =
      ((given ≡ [])
        × (value
            ≡ codes "https://identity." ++ env ++ codes ".ubirch.com/api/keyService/v1/pubkey"))
      ⊎ ((given ≢ []) × (value ≡ trim_suffix given (codes "/mpack")))

  -- What the settings that were given become.
  pub record IsFilled (given c : Config) : Type 0 where
    pub mandatory : IsMandatory c
    pub secret : Base64.decode given.secret_base64 ≡ some c.secret_bytes
    pub kept : c ≡ record given {
      secret_bytes = c.secret_bytes;
      csr_country = c.csr_country;
      csr_organization = c.csr_organization;
      tcp_addr = c.tcp_addr;
      tls_cert_file = c.tls_cert_file;
      tls_key_file = c.tls_key_file;
      env = c.env;
      key_service = c.key_service;
      identity_service = c.identity_service;
      server_tls_cert_fingerprints = c.server_tls_cert_fingerprints;
      db_params = c.db_params;
    }
    pub country : Fills given.csr_country (codes "DE") c.csr_country
    pub organization : Fills given.csr_organization (codes "ubirch GmbH") c.csr_organization
    pub address : Fills given.tcp_addr (codes ":8080") c.tcp_addr
    pub cert_file :
        FillsFile given.tls given.config_dir given.tls_cert_file (codes "cert.pem") c.tls_cert_file
    pub key_file :
        FillsFile given.tls given.config_dir given.tls_key_file (codes "key.pem") c.tls_key_file
    pub stage : Fills given.env (codes "prod") c.env
    pub key_service : FillsKeyService c.env given.key_service c.key_service
    pub identity_service :
        Fills given.identity_service
          (codes "https://identity." ++ c.env ++ codes ".ubirch.com/api/certs/v1/csr/register")
          c.identity_service

  -- What a configuration that was loaded has: the settings without a default, the others as they were
  -- given or their defaults, database parameters that are their defaults or what the texts say, and
  -- the fingerprints of the certificates in the file.
  pub record IsLoaded (given c : Config) : Type 0 where
    pub filled : IsFilled given c
    pub sized : IsSized c
    pub pins : ArePinned f go c.config_dir c.env c.server_tls_cert_fingerprints

  tls_file-FillsFile :
      (enabled : Bool) (dir given default : Bytes)
      → FillsFile enabled dir given default
          (if enabled then f.join dir (or_default given default) else given)
  tls_file-FillsFile true dir given default =
      (or_default given default, or_default-Fills given default, refl)
  tls_file-FillsFile false dir given default = refl

  key_service-Fills :
      (env given : Bytes)
      → FillsKeyService env given (
          if given == []
          then codes "https://identity." ++ env ++ codes ".ubirch.com/api/keyService/v1/pubkey"
          else trim_suffix given (codes "/mpack"))
  key_service-Fills env given = elim (Bool-cases (given == [])) [
    | inl empty ↦ inl ((bytes_beq_iff given []).0 empty, ground arith)
    | inr there ↦ inr (λ none. ground (arith, bytes_beq_iff given []), ground arith)
  ]

  filled :
      (given : Config) (secret : Bytes)
      → Base64.decode given.secret_base64 ≡ some secret
      → IsMandatory (record given { secret_bytes = secret })
      → IsFilled given (
          set_default_urls
            (set_default_tls f (set_default_csr (record given { secret_bytes = secret }))))
  unfolding set_default_urls set_default_tls set_default_csr
  filled c secret decoded m = record {
    mandatory = record {
      secret = m.secret;
      register_auth = m.register_auth;
      server = m.server;
      server_key = m.server_key;
    };
    secret = decoded;
    kept = refl;
    country = or_default-Fills c.csr_country (codes "DE");
    organization = or_default-Fills c.csr_organization (codes "ubirch GmbH");
    address = or_default-Fills c.tcp_addr (codes ":8080");
    cert_file = tls_file-FillsFile c.tls c.config_dir c.tls_cert_file (codes "cert.pem");
    key_file = tls_file-FillsFile c.tls c.config_dir c.tls_key_file (codes "key.pem");
    stage = or_default-Fills c.env (codes "prod");
    key_service = key_service-Fills _ c.key_service;
    identity_service = or_default-Fills c.identity_service _;
  }

  IsFilled-frame :
      (given c : Config) (fingerprints : Dict Bytes Bytes) (params : DatabaseParams)
      → IsFilled given c
      → IsFilled given
          (record c { server_tls_cert_fingerprints = fingerprints; db_params = params })
  IsFilled-frame given c fingerprints params m = record {
    mandatory = record {
      secret = m.mandatory.secret;
      register_auth = m.mandatory.register_auth;
      server = m.mandatory.server;
      server_key = m.mandatory.server_key;
    };
    secret = m.secret;
    kept =
        ap
          (λ (d : Config). record d {
            server_tls_cert_fingerprints = fingerprints;
            db_params = params;
          })
          m.kept;
    country = m.country;
    organization = m.organization;
    address = m.address;
    cert_file = m.cert_file;
    key_file = m.key_file;
    stage = m.stage;
    key_service = m.key_service;
    identity_service = m.identity_service;
  }

  combined :
      (given c3 c4 c5 : Config)
      → IsFilled given c3
      → Pinned f go c3 c4
      → IsSized c5 × (c5 ≡ record c4 { db_params = c5.db_params })
      → IsLoaded given c5
  combined given c3 c4 c5 m (pins, frame4) (sized, frame5) =
      let both : record c3 {
        server_tls_cert_fingerprints = c4.server_tls_cert_fingerprints;
        db_params = c5.db_params;
      }
          ≡ c5 =
        sym (frame5 ∙ ap (λ (d : Config). record d { db_params = c5.db_params }) frame4) in
      record {
        filled = subst (IsFilled given) both (IsFilled-frame given c3 _ _ m);
        sized = sized;
        pins =
            subst (λ (d : Config). ArePinned f go d.config_dir d.env d.server_tls_cert_fingerprints)
              both pins;
      }

  decode_secret-eq-ok :
      (given c : Config)
      → decode_secret f go given ≡ (ok tt, c)
      → (secret : Bytes) × (Base64.decode given.secret_base64 ≡ some secret)
        × (c ≡ record given { secret_bytes = secret })
  unfolding decode_secret
  decode_secret-eq-ok given c h = elim (Option-cases (Base64.decode given.secret_base64)) [
    | inl failed ↦ ground arith
    | inr (secret, decoded) ↦ (secret, decoded, ground arith)
  ]

  IsFilled-set_default_urls :
      (given c2 : Config)
      → decode_secret f go given ≡ (ok tt, c2)
      → IsMandatory c2
      → IsFilled given (set_default_urls (set_default_tls f (set_default_csr c2)))
  IsFilled-set_default_urls given c2 h m =
      let (secret, decoded, same) = decode_secret-eq-ok given c2 h in
      subst (λ c. IsFilled given (set_default_urls (set_default_tls f (set_default_csr c))))
        (sym same) (filled given secret decoded (subst IsMandatory same m))

  -- Settings were read from the environment, if the secret is there, and else from the file.
  pub data WasRead (filename : Bytes) (c given : Config) : Type 0 where
    from_file :
        (content : Bytes)
        → f.getenv (codes "UBIRCH_SECRET32") ≡ []
        → f.read_file (f.join c.config_dir filename) ≡ ok content
        → f.decode_config content c ≡ (ok tt, given)
        → WasRead filename c given
    from_env :
        f.getenv (codes "UBIRCH_SECRET32") ≢ []
        → f.process c ≡ (ok tt, given)
        → WasRead filename c given

  read_settings-WasRead :
      (filename : Bytes) (c given : Config)
      → read_settings f go filename c ≡ (ok tt, given)
      → WasRead filename c given
  unfolding load_file
  read_settings-WasRead filename c given h =
      elim (Bool-cases (f.getenv (codes "UBIRCH_SECRET32") == [])) [
        | inl absent ↦ elim (Result-cases (f.read_file (f.join c.config_dir filename))) [
          | inl (x, failed) ↦ ground arith
          | inr (content, read) ↦
              from_file content ((bytes_beq_iff _ []).0 absent) read (ground arith)
        ]
        | inr there ↦
            from_env (λ none. ground (arith, bytes_beq_iff (f.getenv (codes "UBIRCH_SECRET32")) []))
              (ground arith)
      ]

  -- Where loading returns no error, settings were read, from the environment if the secret is there
  -- and else from the file, and the configuration has them: the secret is decoded and has 32 bytes,
  -- the settings without a default are there but for the database, which may be missing, those with
  -- a default are as given or else the default, the TLS files are in the configuration's directory
  -- if TLS is enabled, a URL of the key service loses a suffix `/mpack`, the database parameters
  -- are the defaults or what their texts say, and the pinned fingerprints are those of the
  -- certificates in the file of the stage: of each host that has one that can be parsed, and of no
  -- others. All other settings are as they were read.
  pub load-IsLoaded :
      (config_dir filename : Bytes) (c c' : Config)
      → load f go config_dir filename c ≡ (ok tt, c')
      → (given : Config) × WasRead filename (record c { config_dir = config_dir }) given
        × IsLoaded given c'
  unfolding load
  load-IsLoaded config_dir filename c c' h =
      let (r1, c1) = read_settings f go filename (record c { config_dir = config_dir }) in
      let (r2, c2) = decode_secret f go c1 in
      let c3 = set_default_urls (set_default_tls f (set_default_csr c2)) in
      let (r4, c4) = load_server_tls_certificates f go c3 in
      elim (Result-cases r1) [
        | inl (x, failed) ↦ ground arith
        | inr (_, settings) ↦ elim (Result-cases r2) [
          | inl (x, failed) ↦ ground arith
          | inr (_, secret) ↦ elim (Result-cases (check_mandatory c2)) [
            | inl (x, failed) ↦ ground arith
            | inr (_, mandatory) ↦ elim (Result-cases r4) [
              | inl (x, failed) ↦ ground arith
              | inr (_, certificates) ↦ (
                c1,
                read_settings-WasRead filename (record c { config_dir = config_dir }) c1
                    (ap (λ (t : Result (Unit {0})). (t, c1)) settings),
                combined c1 c3 c4 c'
                    (IsFilled-set_default_urls c1 c2
                      (ap (λ (t : Result (Unit {0})). (t, c2)) secret)
                      (check_mandatory-IsMandatory c2 mandatory))
                    (certificates-Pinned f go c3 c4 (ground arith))
                    (set_db_params-IsSized f c4 c' (ground arith)),
              )
            ]
          ]
        ]
      ]
