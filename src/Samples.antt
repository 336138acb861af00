-- ===== src/Samples.antt =====
-- A small world in which every part that the program does not contain is a concrete function: a
-- table of identities, keys whose PEM is a letter before the key, and an encoder that can be read
-- back. The examples run the program in it.
pub mod Encoder
pub mod CoseExamples
pub mod ProtocolExamples
pub mod ClientExamples
pub mod SetupExamples
pub mod ConfigExamples
pub mod MigrationExamples
pub mod DatabaseExamples
pub mod Disk
pub mod FileExamples
pub mod LegacyExamples
pub mod SigningExamples
pub mod BootExamples
pub mod RegisteredExamples
pub mod KeptRows
pub mod InterleavedExamples
pub mod Transactions
pub mod ParallelExamples
use ubirch_cose_client_go.Prelude.{
  ℕ, zero, suc, ◌≡◌, Bool, true, false, Option, none, some, List, [], ◌∷◌, ◌++◌, Bytes, bytes_beq,
  ◌==◌, bytes_eq, nat_eq, if◌then◌else◌,
}
use ubirch_cose_client_go.Codec.Base64
use ubirch_cose_client_go.Dict.{Dict, lookup, insert}
use ubirch_cose_client_go.Errors.{
  Error, not_exist, text, error_text, codes, Result, ok, err, Exec, Stream,
}
use ubirch_cose_client_go.Context.{Uuid, Identity, ContextManager}
use ubirch_cose_client_go.Libs.{
  Crypto, KeyEncrypter, ConnectionState, Response, Web, Certificate, Go, Env,
}
use ubirch_cose_client_go.Client.{ExtendedClient}
use ubirch_cose_client_go.Protocol.{Protocol}
use ubirch_cose_client_go.Http.{http_error}
use ubirch_cose_client_go.Signer.{CoseSigner}
use ubirch_cose_client_go.Service.{Helpers, Service}
use Encoder.{mode}

-- The rows of the database, what an open transaction has stored, and how many of the next calls
-- find no connection.
pub record World : Type 0 where
  pub rows : Dict Uuid Identity
  pub staged : List Identity
  pub busy : ℕ

abbrev pub with_connection :
    {A : Type 0} → (World → Result A × World) → World → ℕ → Result A × World
with_connection m w zero = m w
with_connection m w (suc n) = (err (text (codes "53300")), record w { busy = n })

abbrev pub holder_of : Bytes → Dict Uuid Identity → Result Uuid
holder_of raw [] = err not_exist
holder_of raw ((uid, id) ∷ rows) = if id.public_key == raw then ok uid else holder_of raw rows

abbrev pub row : Uuid → Dict Uuid Identity → Result Identity
row uid rows = elim (lookup uid rows) [ none ↦ err not_exist | some id ↦ ok id ]

abbrev commit_all : List Identity → Dict Uuid Identity → Dict Uuid Identity
commit_all [] rows = rows
commit_all (id ∷ staged) rows = insert id.uid id (commit_all staged rows)

abbrev close_all : Bool → World → World
close_all true w = record w { rows = commit_all w.staged w.rows; staged = [] }
close_all false w = record w { staged = [] }

abbrev pub manager : ContextManager World (Unit {0})
manager = record {
  start_transaction = λ w. with_connection (λ v. (ok (some tt), v)) w w.busy;
  close_transaction = λ tx commit w. (ok tt, close_all commit w);
  store_new_identity = λ tx id w. (ok tt, record w { staged = id ∷ w.staged });
  get_identity = λ uid w. with_connection (λ v. (row uid v.rows, v)) w w.busy;
  get_uuid_for_public_key = λ raw w. with_connection (λ v. (holder_of raw v.rows, v)) w w.busy;
  close = λ w. w;
}

abbrev strip : ℕ → Bytes → Result Bytes
strip mark [] = err (text [])
strip mark (m ∷ b) = if m == mark then ok b else err (text [])

abbrev checks : Result Bytes → Bytes → Result Bool
checks (ok signature) wanted = ok (bytes_beq signature wanted)
checks (err x) wanted = err x

abbrev pub crypto : {W : Type 0} → Crypto W Bytes
crypto = record {
  generate_key = λ w. (ok (5 ∷ []), w);
  get_public_key_from_private_key = λ key. ok (b'P' ∷ key);
  get_signed_key_registration = λ key uid w. (ok (uid ∷ key), w);
  get_csr = λ key uid country organization w. (ok (uid ∷ key), w);
  sign_hash = λ key hash w. (ok (key ++ hash), w);
  verify = λ pem bytes signature. elim (strip b'P' pem) [
    | err x ↦ err x
    | ok key ↦ ok (bytes_beq (key ++ bytes) signature)
  ];
  encode_public_key = λ key. ok (b'P' ∷ key);
  public_key_pem_to_bytes = λ pem. strip b'P' pem;
  public_key_bytes_to_pem = λ raw. ok (b'P' ∷ raw);
}

-- The body of the certificate list: a signature by the key 9, a line end, and the signed list.
abbrev pub listed : Bytes
listed = 1 ∷ 2 ∷ 3 ∷ 4 ∷ 5 ∷ 6 ∷ 7 ∷ 8 ∷ []

abbrev pub list_url : Bytes
list_url = 11 ∷ []

abbrev pub key_url : Bytes
key_url = 12 ∷ []

abbrev page : Bytes → Bytes
page url = if url == list_url then Base64.encode (9 ∷ listed) ++ (10 ∷ listed) else b'P' ∷ 9 ∷ []

-- Each server shows its URL as its certificate.
abbrev pub web : {W : Type 0} → Web W
web = record {
  parse_host = λ url. ok url;
  new_request = λ url. ok tt;
  do_get = λ check url w. elim (check (record { leaf = url; chain = [] })) [
    | some x ↦ (err x, w)
    | none ↦ (
      ok (record {
        status_code = 200;
        status = [];
        tls = some (record { leaf = url; chain = [] });
        body = record { content = page url; failure = none };
      }),
      w,
    )
  ];
  http_failed = λ code. false;
}

-- Hashes are the bytes themselves. A list holds one certificate, for the key 5.
abbrev pub go : Go Bytes
go = record {
  sum256 = λ b. b;
  parse_certificate = λ raw. ok raw;
  unmarshal_trust_list = λ list. ok (record { kid = list; raw_data = 5 ∷ [] } ∷ []);
  unmarshal_string_map = λ body. ok ((body, body) ∷ []);
  base64_failure = λ s. (text [], []);
  hex_failure = λ s. (text [], []);
  uuid_string = λ uid. uid ∷ [];
}

abbrev pub encrypter : {W : Type 0} → KeyEncrypter W
encrypter = record {
  encrypt = λ key w. (ok (b'E' ∷ key), w);
  decrypt = λ sealed. strip b'E' sealed;
}

abbrev pub env : Env World (Unit {0}) Bytes
env = record {
  manager = manager;
  crypto = crypto;
  encrypter = encrypter;
  web = web;
  go = go;
  cbor = ok mode;
  pq_error_name = λ code. code;
}

abbrev pub client : ExtendedClient
client = record {
  signing_service_url = [];
  certificate_server_url = list_url;
  certificate_server_pub_key_url = key_url;
  server_tls_cert_fingerprints = (list_url, list_url) ∷ (key_url, key_url) ∷ [];
}

abbrev pub helpers : Helpers
helpers = record {
  parse_uuid = λ s. ok 3;
  error = λ uid x code. http_error (error_text x) code;
  http_success = λ code. code == 200;
}

abbrev pub signer : CoseSigner
signer = record { enc_mode = mode; protected_header = 2 ∷ 1 ∷ 6 ∷ [] }

-- The identity 3, with the private key 5, as the program has it and as the database has it.
abbrev pub identity : Identity
identity = record { uid = 3; private_key = 5 ∷ []; public_key = b'P' ∷ 5 ∷ []; auth_token = 7 ∷ [] }

abbrev pub stored : Identity
stored = record identity { private_key = b'E' ∷ 5 ∷ []; public_key = 5 ∷ [] }

abbrev pub world : World
world = record { rows = (3, stored) ∷ []; staged = []; busy = 0 }

abbrev pub protocol : Protocol World
protocol = record {
  world = world;
  identity_cache = [];
  uid_cache = [];
  skid_store = (3, listed) ∷ [];
  cert_load_fail_counter = 2;
}

abbrev pub service : Service World
service = record { protocol = protocol; audit_log = []; signature_creations = 0 }
