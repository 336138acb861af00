-- ===== src/Samples/ConfigExamples.antt =====
-- A configuration file, a file of identities, and a map of tokens.
use ubirch_cose_client_go.Prelude.{
  ◌≡◌, ◌↔◌, refl, false, some, List, [], ◌∷◌, Bytes, All, nat_eq, bytes_eq, bytes_beq, arith, ◌≤◌,
}
use ubirch_cose_client_go.Codec.Base64
use ubirch_cose_client_go.Codec.Base64.{decode-encode}
use ubirch_cose_client_go.Codec.Integers.{atoi, minutes, decimal}
use ubirch_cose_client_go.Config.Durations.{IsMinutes, set_db_params-IsMinutes}
use ubirch_cose_client_go.Dict.{insert}
use ubirch_cose_client_go.Errors.{text, codes, ok}
use ubirch_cose_client_go.Context.{Identity}
use ubirch_cose_client_go.Config.{
  Config, Files, check_mandatory, set_default_csr, set_default_tls, set_default_urls, set_db_params,
  add_fingerprints, load_server_tls_certificates, load_file, decode_secret, load,
}
use ubirch_cose_client_go.Config.Loaded.{WasRead, IsLoaded, load-IsLoaded}
use ubirch_cose_client_go.Config.Accounts.{
  load_identities_file, IsUsable, AreDistinct, named, load_identities_file-AreDistinct,
}
use ubirch_cose_client_go.Main.{zero_config}
use ubirch_cose_client_go.Samples.{env}

abbrev pub secret : Bytes
secret =
    1 ∷ 2 ∷ 3 ∷ 4 ∷ 5 ∷ 6 ∷ 7 ∷ 8 ∷ 9 ∷ 10 ∷ 11 ∷ 12 ∷ 13 ∷ 14 ∷ 15 ∷ 16 ∷ 17 ∷ 18 ∷ 19 ∷ 20 ∷ 21
    ∷ 22 ∷ 23 ∷ 24 ∷ 25 ∷ 26 ∷ 27 ∷ 28 ∷ 29 ∷ 30 ∷ 31 ∷ 32 ∷ []

-- What the file sets. Five minutes are given as text.
abbrev pub written : Config → Config
written c = record c {
  tokens = (3, 7 ∷ []) ∷ (4, 8 ∷ []) ∷ [];
  secret_base64 = Base64.encode secret;
  register_auth = 9 ∷ [];
  certificate_server = 11 ∷ [];
  certificate_server_pub_key = 12 ∷ [];
  db_conn_max_lifetime = 53 ∷ [];
}

abbrev entries : List Identity
entries = named (3, 7 ∷ []) ∷ named (4, 8 ∷ []) ∷ []

abbrev pub files : Files
files = record {
  getenv = λ name. [];
  process = λ c. (ok tt, c);
  join = λ dir name. name;
  read_file = λ name. ok name;
  is_missing = λ name. false;
  decode_config = λ content c. (ok tt, written c);
  decode_certificates = λ content. ok ((11 ∷ [], 11 ∷ []) ∷ []);
  decode_identities = λ content. ok entries;
  atoi_failure = λ value. text [];
}

pub secret_read : Base64.decode (Base64.encode secret) ≡ some secret
secret_read = decode-encode secret (ground arith)

-- What loading makes of what the file sets.
abbrev pub loaded : Config → Config
loaded c =
    record (set_default_urls
      (set_default_tls files (set_default_csr (record c { secret_bytes = secret })))) {
        server_tls_cert_fingerprints = (11 ∷ [], 11 ∷ []) ∷ [];
        db_params = record {
          max_open_conns = 10;
          max_idle_conns = 10;
          conn_max_lifetime = 300000000000;
          conn_max_idle_time = 60000000000;
        };
      }

loads : load files env.go [] [] zero_config ≡ (ok tt, loaded (written zero_config))
unfolding load load_file decode_secret check_mandatory set_default_csr set_default_tls
    set_default_urls load_server_tls_certificates add_fingerprints insert set_db_params atoi minutes
    bytes_beq codes
loads = rw (load, decode_secret, secret_read)

load-IsLoaded_example :
    (given : Config) × WasRead files env.go [] (record zero_config { config_dir = [] }) given
    × IsLoaded files env.go given (loaded (written zero_config))
load-IsLoaded_example =
    load-IsLoaded files env.go [] [] zero_config (loaded (written zero_config)) loads

load_identities_file-AreDistinct_example :
    (((load_identities_file files env.go zero_config []).0 ≡ ok tt)
      ↔ (All IsUsable entries × AreDistinct entries))
    × ((load_identities_file files env.go zero_config []).1 ≡ entries)
load_identities_file-AreDistinct_example =
    load_identities_file-AreDistinct files env.go zero_config [] entries _ refl refl refl

-- Five minutes and ten, as numbers that are written out.
abbrev minutes_config : Config
minutes_config = record (written zero_config) {
  db_conn_max_lifetime = decimal 5;
  db_conn_max_idle_time = decimal 10;
}

abbrev minutes_set : Config
minutes_set = record minutes_config {
  db_params = record {
    max_open_conns = 10;
    max_idle_conns = 10;
    conn_max_lifetime = 300000000000;
    conn_max_idle_time = 600000000000;
  };
}

sets : set_db_params files minutes_config ≡ (ok tt, minutes_set)
unfolding set_db_params atoi minutes bytes_beq codes decimal
sets = refl

set_db_params-IsMinutes_example :
    (IsMinutes 5 300000000000 ↔ (5 ≤ 153722867)) × (IsMinutes 10 600000000000 ↔ (10 ≤ 153722867))
set_db_params-IsMinutes_example =
    set_db_params-IsMinutes files minutes_config minutes_set 5 10 sets (omega arith) (omega arith)
      refl refl
