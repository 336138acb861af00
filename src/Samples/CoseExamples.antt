-- ===== src/Samples/CoseExamples.antt =====
-- The signing endpoints in the small world.
use ubirch_cose_client_go.Prelude.{
  ◌↔◌, String, ◌≡◌, ◌≢◌, refl, ap, true, false, none, [], ◌∷◌, ◌++◌, ◌<◌, arith, Bytes, bytes_beq,
  bytes_eq, bytes_beq_iff, length, All,
}
use ubirch_cose_client_go.Codec.Base64
use ubirch_cose_client_go.Codec.Base64.{IsByte, decode-encode}
use ubirch_cose_client_go.Codec.Strings.{has_suffix, to_lower}
use ubirch_cose_client_go.Dict.{lookup, insert}
use ubirch_cose_client_go.Errors.{codes, ok, read_all}
use ubirch_cose_client_go.Protocol.{
  Protocol, get_identity, get_skid, fetch_identity_from_storage, open_identity, retry,
  check_identity_attributes_not_nil,
}
use ubirch_cose_client_go.Http.{
  Header, Request, get, content_type, content_encoding, http_error, send_response, status_ok,
  status_unauthorized,
}
use ubirch_cose_client_go.Signer.{
  sign, create_signed_cose, get_cose, get_sig_struct_bytes, get_cbor_from_json,
}
use ubirch_cose_client_go.Service.{
  auth_header, text_type, hex_encoding, hash_len, is_hash_request, check_auth, read_body,
  payload_and_hash_of_cbor, get_payload_and_hash_from_data_request, get_payload_and_hash,
  get_hash_from_hash_request, sign_and_send, serve_identity, handle_request,
}
use ubirch_cose_client_go.Service.Answers.{
  WritesStatus, Accepted, handle_request-Accepted, Accepted-handle_request,
  handle_request_unauthorized,
}
use ubirch_cose_client_go.Samples.{World}
use ubirch_cose_client_go.Service.Hashes.{Denotes, base64, get_hash_iff, text_payload-ne-hash}
use ubirch_cose_client_go.Service.Verifiable.{
  Reads, KeyPair, Verifies, HashSigned, handle_request-Verifies, handle_request-HashSigned,
}
use ubirch_cose_client_go.Samples.{World, env, helpers, signer, identity, protocol, service, listed}
use ubirch_cose_client_go.Samples.Encoder.{mode, join, decode, decode-marshal}

abbrev header : Bytes → String → Header
header token type =
    (codes "X-Auth-Token", (token, [])) ∷ (codes "Content-Type", (codes type, [])) ∷ []

abbrev pub data_request : Request
data_request = record {
  uuid_param = [];
  path = codes "/3/cbor";
  header = header (7 ∷ []) "application/CBOR";
  body = record { content = 42 ∷ []; failure = none };
}

abbrev hash_text : Bytes
hash_text = codes "AAECAwQFBgcICQoLDA0ODxAREhMUFRYXGBkaGxwdHh8="

abbrev hash_bytes : Bytes
hash_bytes =
    0 ∷ 1 ∷ 2 ∷ 3 ∷ 4 ∷ 5 ∷ 6 ∷ 7 ∷ 8 ∷ 9 ∷ 10 ∷ 11 ∷ 12 ∷ 13 ∷ 14 ∷ 15 ∷ 16 ∷ 17 ∷ 18 ∷ 19 ∷ 20
    ∷ 21 ∷ 22 ∷ 23 ∷ 24 ∷ 25 ∷ 26 ∷ 27 ∷ 28 ∷ 29 ∷ 30 ∷ 31 ∷ []

abbrev hash_request : Request
hash_request = record {
  uuid_param = [];
  path = codes "/3/cbor/hash";
  header = header (7 ∷ []) "text/plain";
  body = record { content = hash_text; failure = none };
}

pub writes : WritesStatus helpers
unfolding http_error
writes = record { status = λ uid x code. refl; success = refl }

reads : Reads mode decode
reads = record { decode-marshal = decode-marshal }

pair : KeyPair env signer (5 ∷ []) (b'P' ∷ 5 ∷ [])
pair = record {
  verify-sign = λ bytes hash signature w w' summed signed.
      let same : 5 ∷ bytes ≡ signature = cc (summed, signed) in
      ap ok ((bytes_beq_iff (5 ∷ bytes) signature).1 same);
}

-- The lookup of the identity 3 in the small world fills its cache.
abbrev looked_up : Protocol World
looked_up = record protocol { identity_cache = (3, identity) ∷ [] }

known : get_identity env 3 service.protocol ≡ (ok identity, looked_up)
unfolding get_identity fetch_identity_from_storage open_identity retry lookup
    check_identity_attributes_not_nil insert
known = refl

data_ok : (handle_request env signer helpers data_request 3 service).0.status ≡ status_ok
unfolding handle_request get_identity fetch_identity_from_storage open_identity retry lookup
    check_identity_attributes_not_nil serve_identity check_auth get codes bytes_beq
    get_payload_and_hash read_body read_all is_hash_request has_suffix
    get_payload_and_hash_from_data_request content_type to_lower payload_and_hash_of_cbor
    get_sig_struct_bytes sign_and_send sign get_skid create_signed_cose get_cose send_response
data_ok = refl

to_data : is_hash_request data_request ≡ false
unfolding is_hash_request has_suffix codes bytes_beq
to_data = refl

-- The same with JSON.
abbrev json_request : Request
json_request = record data_request {
  header = header (7 ∷ []) "application/json";
  body = record { content = codes "{}"; failure = none };
}

json_ok : (handle_request env signer helpers json_request 3 service).0.status ≡ status_ok
unfolding handle_request get_identity fetch_identity_from_storage open_identity retry lookup
    check_identity_attributes_not_nil serve_identity check_auth get codes bytes_beq
    get_payload_and_hash read_body read_all is_hash_request has_suffix
    get_payload_and_hash_from_data_request content_type to_lower payload_and_hash_of_cbor
    get_cbor_from_json get_sig_struct_bytes sign_and_send sign get_skid create_signed_cose get_cose
    send_response
json_ok = refl

json_to_data : is_hash_request json_request ≡ false
unfolding is_hash_request has_suffix codes bytes_beq
json_to_data = refl

handle_request-Verifies_example :
    Verifies env signer decode
      (b'P' ∷ 5 ∷ [])
      (handle_request env signer helpers json_request 3 service).0.body
      json_request.header
      json_request.body.content
handle_request-Verifies_example =
    handle_request-Verifies env signer helpers json_request 3 service identity looked_up
      (b'P' ∷ 5 ∷ []) decode writes reads known pair json_to_data json_ok

handle_request-Accepted_example :
    Accepted env signer helpers data_request 3 service
      (handle_request env signer helpers data_request 3 service).0.body
handle_request-Accepted_example =
    handle_request-Accepted env signer helpers data_request 3 service writes data_ok

to_hash : is_hash_request hash_request ≡ true
unfolding is_hash_request has_suffix codes bytes_beq
to_hash = refl

abbrev hash_answer : Bytes
hash_answer =
    0
    ∷ 18
    ∷ 4
    ∷ join signer.protected_header
        (join listed (join hash_text (identity.private_key ++ hash_bytes)))

in_range : All IsByte hash_bytes
in_range = ground arith

encoded : Base64.encode hash_bytes ≡ hash_text
unfolding Base64.encode codes
encoded = refl

is_text : content_type hash_request.header ≡ text_type
unfolding content_type get lookup codes bytes_beq to_lower
is_text = refl

not_hex : content_encoding hash_request.header ≢ hex_encoding
unfolding content_encoding get lookup codes bytes_beq to_lower
not_hex h = cc

denotes : Denotes hash_request.header hash_text hash_bytes
denotes = base64 is_text not_hex (rw (← encoded) (decode-encode hash_bytes in_range))

hash_read : get_hash_from_hash_request env hash_request.header hash_text ≡ ok hash_bytes
hash_read = (get_hash_iff env hash_request.header hash_text hash_bytes).1 (denotes, refl)

get_hash_iff_example :
    (get_hash_from_hash_request env hash_request.header hash_text ≡ ok hash_bytes)
    ↔ (Denotes hash_request.header hash_text hash_bytes × (length hash_bytes ≡ hash_len))
get_hash_iff_example = get_hash_iff env hash_request.header hash_text hash_bytes

read : get_payload_and_hash env signer hash_request ≡ ok (hash_text, hash_bytes)
unfolding get_payload_and_hash read_body read_all is_hash_request has_suffix codes bytes_beq
read = rw hash_read

authorized : get hash_request.header auth_header ≡ identity.auth_token
unfolding get lookup codes bytes_beq
authorized = refl

signed :
    (create_signed_cose env signer hash_bytes identity.private_key listed hash_text
      looked_up.world).0
    ≡ ok hash_answer
unfolding create_signed_cose get_cose
signed = refl

accepted : Accepted env signer helpers hash_request 3 service hash_answer
unfolding get_skid lookup
accepted = record {
  identity = identity;
  protocol = looked_up;
  payload = hash_text;
  hash = hash_bytes;
  skid = listed;
  known = known;
  authorized = authorized;
  read = read;
  certified = refl;
  made = signed;
}

Accepted-handle_request_example :
    ((handle_request env signer helpers hash_request 3 service).0.status ≡ status_ok)
    × ((handle_request env signer helpers hash_request 3 service).0.body ≡ hash_answer)
    × ((handle_request env signer helpers hash_request 3 service).1.audit_log
        ≡ (3, hash_bytes) ∷ [])
    × ((handle_request env signer helpers hash_request 3 service).1.signature_creations ≡ 1)
unfolding accepted
Accepted-handle_request_example =
    Accepted-handle_request env signer helpers hash_request 3 service hash_answer writes accepted

hash_ok : (handle_request env signer helpers hash_request 3 service).0.status ≡ status_ok
hash_ok =
    (Accepted-handle_request env signer helpers hash_request 3 service hash_answer writes
      accepted).0

text_payload-ne-hash_example :
    (hash_text ≡ hash_request.body.content)
    × (length hash_bytes < length hash_text)
    × (hash_text ≢ hash_bytes)
text_payload-ne-hash_example =
    text_payload-ne-hash env signer hash_request hash_text hash_bytes to_hash is_text read

-- The request with data, with a token that is not the identity's, and with none.
abbrev forged_request : Request
forged_request = record data_request { header = header (8 ∷ []) "application/cbor" }

forged : get forged_request.header auth_header ≢ identity.auth_token
unfolding get lookup codes bytes_beq
forged h = cc

handle_request_unauthorized_example :
    ((handle_request env signer helpers forged_request 3 service).0.status ≡ status_unauthorized)
    × ((handle_request env signer helpers forged_request 3 service).1
        ≡ record service { protocol = looked_up })
handle_request_unauthorized_example =
    handle_request_unauthorized env signer helpers forged_request 3 identity looked_up service known
      forged

handle_request-HashSigned_example :
    HashSigned env signer hash_request 3 identity looked_up decode
      (handle_request env signer helpers hash_request 3 service).0.body
handle_request-HashSigned_example =
    handle_request-HashSigned env signer helpers hash_request 3 service identity looked_up decode
      writes reads known to_hash hash_ok
