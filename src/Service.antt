-- ===== src/Service.antt =====
-- services.go: the handler of the two signing endpoints.
pub mod Answers
pub mod Hashes
pub mod Verifiable
pub mod AuditTrail
pub mod Caches
pub mod Steps
use ubirch_cose_client_go.Prelude.{
  String, ℕ, ◌+◌, Bool, not, Option, none, some, List, [], ◌∷◌, ◌++◌, Bytes, length, ◌==◌, nat_eq,
  bytes_eq, if◌then◌else◌,
}
use ubirch_cose_client_go.Codec.Base64
use ubirch_cose_client_go.Codec.Hex
use ubirch_cose_client_go.Codec.Integers.{decimal}
use ubirch_cose_client_go.Codec.Strings.{has_suffix}
use ubirch_cose_client_go.Errors.{
  codes, Error, not_exist, text, error_text, wrap, Result, ok, err, read_all,
}
use ubirch_cose_client_go.Context.{Uuid, Identity}
use ubirch_cose_client_go.Libs.{Env}
use ubirch_cose_client_go.Protocol.{Protocol, get_identity}
use ubirch_cose_client_go.Http.{
  Header, HttpRequest, Request, Written, status_bad_request, status_unauthorized, status_not_found,
  status_internal_server_error, status_text, get, content_type, content_encoding, http_error,
  send_response,
}
use ubirch_cose_client_go.Signer.{CoseSigner, get_sig_struct_bytes, get_cbor_from_json, sign}

abbrev pub auth_header : Bytes
auth_header = codes "X-Auth-Token"

abbrev pub cbor_path : Bytes
cbor_path = codes "/cbor"

abbrev pub hash_endpoint : Bytes
hash_endpoint = codes "/hash"

abbrev pub bin_type : Bytes
bin_type = codes "application/octet-stream"

abbrev pub text_type : Bytes
text_type = codes "text/plain"

abbrev pub json_type : Bytes
json_type = codes "application/json"

abbrev pub cbor_type : Bytes
cbor_type = codes "application/cbor"

abbrev pub hex_encoding : Bytes
hex_encoding = codes "hex"

abbrev pub hash_len : ℕ
hash_len = 32

-- Of google/uuid `Parse`, and of the `httphelper` of ubirch-client-go `Error` and `HttpSuccess`.
pub record Helpers : Type 0 where
  pub parse_uuid : Bytes → Result Uuid
  pub error : Uuid → Error → ℕ → Written
  pub http_success : ℕ → Bool

-- What the handlers change beside the `Protocol`: the audit log, as the identity and the hash of
-- each entry, and the counter of created signatures.
pub record Service (W : Type 0) : Type 0 where
  pub protocol : Protocol W
  pub audit_log : List (Uuid × Bytes)
  pub signature_creations : ℕ

abbrev pub get_uuid : Helpers → Request → Result Uuid
get_uuid h r = elim (h.parse_uuid r.uuid_param) [
  | err x ↦ err (text (codes "invalid UUID: \"" ++ r.uuid_param ++ codes "\": " ++ error_text x))
  | ok uid ↦ ok uid
]

unfoldable pub is_hash_request : Request → Bool
is_hash_request r = has_suffix r.path hash_endpoint

unfoldable pub check_auth : Request → Bytes → Result (Unit {0})
check_auth r correct_auth_token =
    if not (get r.header auth_header == correct_auth_token)
    then err (text (codes "invalid auth token"))
    else ok tt

unfoldable pub read_body : Request → Result Bytes
read_body r = elim (read_all r.body) [
  | err x ↦ err (wrap "unable to read request body" x)
  | ok body ↦ ok body
]

-- the case `BinType`, into which the case `TextType` falls
unfoldable pub hash_of_bytes : Bytes → Result Bytes
hash_of_bytes hash =
    if not (length hash == hash_len)
    then err (
        text (
          codes "invalid SHA256 hash size: expected "
          ++ decimal hash_len
          ++ codes " bytes, got "
          ++ decimal (length hash)
          ++ codes " bytes"))
    else ok hash

-- fmt.Errorf("<what>: %v (%s)", err, string(data)), where a failed `DecodeString` has left in
-- `data` what it had decoded
decoding_failed : String → Error × Bytes → Error
decoding_failed what (x, decoded) =
    text (codes what ++ codes ": " ++ error_text x ++ codes " (" ++ decoded ++ codes ")")

abbrev decoded_hash : Option Bytes → Error → Result Bytes
decoded_hash none x = err x
decoded_hash (some hash) x = hash_of_bytes hash

module _ {W Tx PublicKey : Type 0} (e : Env W Tx PublicKey) where
  unfoldable pub get_hash_from_hash_request : Header → Bytes → Result Bytes
  unfolding decoding_failed
  get_hash_from_hash_request header body =
      if content_type header == text_type
      then (if content_encoding header == hex_encoding
          then decoded_hash (Hex.decode body)
              (decoding_failed "decoding hex encoded hash failed" (e.go.hex_failure body))
          else decoded_hash (Base64.decode body)
              (decoding_failed "decoding base64 encoded hash failed" (e.go.base64_failure body)))
      else if content_type header == bin_type
      then hash_of_bytes body
      else err (
          text (
            codes
              "invalid content-type for hash: expected (\"application/octet-stream\" | \"text/plain\")"))

  module _ (c : CoseSigner) where
    -- the case `CBORType`, into which the case `JSONType` falls
    unfoldable pub payload_and_hash_of_cbor : Bytes → Result (Bytes × Bytes)
    payload_and_hash_of_cbor body = elim (get_sig_struct_bytes c body) [
      | err x ↦ err x
      | ok to_be_signed ↦ ok (body, e.go.sum256 to_be_signed)
    ]

    unfoldable pub get_payload_and_hash_from_data_request : Header → Bytes → Result (Bytes × Bytes)
    get_payload_and_hash_from_data_request header body =
        if content_type header == json_type
        then (elim (get_cbor_from_json e c body) [
          | err x ↦ err (wrap "unable to CBOR encode JSON object" x)
          | ok encoded ↦ payload_and_hash_of_cbor encoded
        ])
        else if content_type header == cbor_type
        then payload_and_hash_of_cbor body
        else err (
            text (
              codes
                "invalid content-type for original data: expected (\"application/cbor\" | \"application/json\")"))

    abbrev with_payload : Bytes → Result Bytes → Result (Bytes × Bytes)
    with_payload payload (err x) = err x
    with_payload payload (ok hash) = ok (payload, hash)

    unfoldable pub get_payload_and_hash : Request → Result (Bytes × Bytes)
    get_payload_and_hash r = elim (read_body r) [
      | err x ↦ err x
      | ok body ↦
          if is_hash_request r
          then with_payload body (get_hash_from_hash_request r.header body)
          else get_payload_and_hash_from_data_request r.header body
    ]

    module _ (h : Helpers) where
      -- from the call of `Sign` on
      unfoldable pub sign_and_send : HttpRequest → Bytes → Service W → Written × Service W
      sign_and_send msg private_key_pem s =
          let (resp, p) = sign e c msg private_key_pem s.protocol in
          let sent = send_response resp in
          if h.http_success resp.status_code
          then (
            sent,
            record {
              protocol = p;
              audit_log = s.audit_log ++ ((msg.id, msg.hash) ∷ []);
              signature_creations = s.signature_creations + 1;
            },
          )
          else (sent, record s { protocol = p })

      -- behind a successful `GetIdentity`
      unfoldable pub serve_identity : Request → Uuid → Identity → Service W → Written × Service W
      serve_identity r uid identity s = elim (check_auth r identity.auth_token) [
        | err x ↦ (http_error (error_text x) status_unauthorized, s)
        | ok _ ↦ elim (get_payload_and_hash r) [
          | err x ↦ (http_error (error_text x) status_bad_request, s)
          | ok (payload, hash) ↦
              sign_and_send (record { id = uid; hash = hash; payload = payload })
                identity.private_key s
        ]
      ]

      abbrev served : Result Identity → Request → Uuid → Service W → Written × Service W
      served (ok identity) r uid s = serve_identity r uid identity s
      served (err not_exist) r uid s =
          (h.error uid (text (codes "unknown UUID")) status_not_found, s)
      served (err x) r uid s =
          (http_error (status_text status_internal_server_error) status_internal_server_error, s)

      unfoldable pub handle_request : Request → Uuid → Service W → Written × Service W
      handle_request r uid s =
          let (got, p) = get_identity e uid s.protocol in
          served got r uid (record s { protocol = p })

      unfoldable pub direct_uuid : Request → Service W → Written × Service W
      direct_uuid r s = elim (get_uuid h r) [
        | err x ↦ (http_error (error_text x) status_not_found, s)
        | ok uid ↦ handle_request r uid s
      ]
