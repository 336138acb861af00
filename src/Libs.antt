-- ===== src/Libs.antt =====
-- What the program calls and does not contain: the modules of go.mod, the cryptography and the
-- reflective decoders of Go's library, and the network. Each is a parameter, over the state `W` of
-- all that lies outside the process.
use ubirch_cose_client_go.Prelude.{ℕ, Bool, Option, List, Bytes}
use ubirch_cose_client_go.Dict.{Dict}
use ubirch_cose_client_go.Errors.{Error, Result, Exec, Stream}
use ubirch_cose_client_go.Context.{Uuid, ContextManager}
use ubirch_cose_client_go.Cose.{Value}

-- `ubirch.Crypto` of ubirch-protocol-go; `PublicKey` is Go's `interface{}` of a parsed key.
pub record Crypto (W PublicKey : Type 0) : Type 0 where
  pub generate_key : Exec W Bytes
  pub get_public_key_from_private_key : Bytes → Result Bytes
  pub get_signed_key_registration : Bytes → Uuid → Exec W Bytes
  pub get_csr : Bytes → Uuid → Bytes → Bytes → Exec W Bytes
  pub sign_hash : Bytes → Bytes → Exec W Bytes
  pub verify : Bytes → Bytes → Bytes → Result Bool
  pub encode_public_key : PublicKey → Result Bytes
  pub public_key_pem_to_bytes : Bytes → Result Bytes
  pub public_key_bytes_to_pem : Bytes → Result Bytes

-- `encrypters.KeyEncrypter` of ubirch-client-go. Encryption draws random bytes.
pub record KeyEncrypter (W : Type 0) : Type 0 where
  pub encrypt : Bytes → Exec W Bytes
  pub decrypt : Bytes → Result Bytes

-- The connection that `crypto/tls` shows to `VerifyConnection`: the raw leaf certificate, and the
-- others. On the client's side the first is always there.
pub record ConnectionState : Type 0 where
  pub leaf : Bytes
  pub chain : List Bytes

-- `http.Response`: `tls` is nil for a plain connection.
pub record Response : Type 0 where
  pub status_code : ℕ
  pub status : Bytes
  pub tls : Option ConnectionState
  pub body : Stream

-- `net/url` and `net/http`: `do_get` is `client.Do` of a GET with a `VerifyConnection`. It follows
-- redirects, to other hosts and to plain HTTP too, and its response, with the connection in `tls`, is
-- the last one. `http_failed` is the helper of ubirch-client-go, and `new_request` the error of
-- `http.NewRequest`.
pub record Web (W : Type 0) : Type 0 where
  pub parse_host : Bytes → Result Bytes
  pub new_request : Bytes → Result (Unit {0})
  pub do_get : (ConnectionState → Option Error) → Bytes → Exec W Response
  pub http_failed : ℕ → Bool

-- The fields of a `Certificate` of extended_client.go that the program reads.
pub record Certificate : Type 0 where
  pub kid : Bytes
  pub raw_data : Bytes

-- The Go library: `crypto/sha256`, `crypto/x509`, `encoding/json`, and what a failed `DecodeString`
-- returns, its error and the bytes decoded until then. Beside it the `String` of a UUID.
pub record Go (PublicKey : Type 0) : Type 0 where
  pub sum256 : Bytes → Bytes
  pub parse_certificate : Bytes → Result PublicKey
  pub unmarshal_trust_list : Bytes → Result (List Certificate)
  pub unmarshal_string_map : Bytes → Result (Dict Bytes Bytes)
  pub base64_failure : Bytes → Error × Bytes
  pub hex_failure : Bytes → Error × Bytes
  pub uuid_string : Uuid → Bytes

-- `cbor.EncMode` with the canonical options.
pub record EncMode : Type 0 where
  pub marshal : Value → Result Bytes

pub record Env (W Tx PublicKey : Type 0) : Type 0 where
  pub manager : ContextManager W Tx
  pub crypto : Crypto W PublicKey
  pub encrypter : KeyEncrypter W
  pub web : Web W
  pub go : Go PublicKey
  pub cbor : Result EncMode
  -- `Name` of a `pq.ErrorCode`
  pub pq_error_name : Bytes → Bytes
