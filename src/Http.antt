-- ===== src/Http.antt =====
-- The requests and responses of services.go, and what it uses of `net/http`.
use ubirch_cose_client_go.Prelude.{
  ℕ, none, some, List, [], ◌∷◌, ◌++◌, map, Bytes, ◌==◌, nat_eq, bytes_eq, bytes_beq, if◌then◌else◌,
}
use ubirch_cose_client_go.Codec.Strings.{to_lower}
use ubirch_cose_client_go.Dict.{Dict, lookup}
use ubirch_cose_client_go.Errors.{codes, Stream}
use ubirch_cose_client_go.Context.{Uuid}

-- `http.Header` under canonical keys: the first value of a key, and the others.
abbrev pub Header : Type 0
Header = Dict Bytes (Bytes × List Bytes)

-- An array of 32 bytes, as the list of them.
abbrev pub Sha256Sum : Type 0
Sha256Sum = Bytes

-- `HTTPRequest`
pub record HttpRequest : Type 0 where
  pub id : Uuid
  pub hash : Sha256Sum
  pub payload : Bytes

-- `HTTPResponse`
pub record HttpResponse : Type 0 where
  pub status_code : ℕ
  pub header : Header
  pub content : Bytes

-- `http.Request`, with the URL parameter `uuid` that the router has cut out of the path.
pub record Request : Type 0 where
  pub uuid_param : Bytes
  pub path : Bytes
  pub header : Header
  pub body : Stream

-- What a handler has written to its `http.ResponseWriter`.
pub record Written : Type 0 where
  pub status : ℕ
  pub header : Dict Bytes Bytes
  pub body : Bytes

abbrev pub status_ok : ℕ
status_ok = 200

abbrev pub status_bad_request : ℕ
status_bad_request = 400

abbrev pub status_unauthorized : ℕ
status_unauthorized = 401

abbrev pub status_not_found : ℕ
status_not_found = 404

abbrev pub status_internal_server_error : ℕ
status_internal_server_error = 500

-- `http.StatusText`, on the codes of this program
unfoldable pub status_text : ℕ → Bytes
status_text code =
    if code == status_ok
    then codes "OK"
    else if code == status_bad_request
    then codes "Bad Request"
    else if code == status_unauthorized
    then codes "Unauthorized"
    else if code == status_not_found
    then codes "Not Found"
    else if code == status_internal_server_error
    then codes "Internal Server Error"
    else []

-- `header.Get`, for a canonical key
unfoldable pub get : Header → Bytes → Bytes
get header key = elim (lookup key header) [ none ↦ [] | some (v, _) ↦ v ]

unfoldable pub content_type : Header → Bytes
content_type header = to_lower (get header (codes "Content-Type"))

unfoldable pub content_encoding : Header → Bytes
content_encoding header = to_lower (get header (codes "Content-Transfer-Encoding"))

-- `http.Error`
unfoldable pub http_error : Bytes → ℕ → Written
http_error message code = record {
  status = code;
  header =
      (codes "Content-Type", codes "text/plain; charset=utf-8")
      ∷ (codes "X-Content-Type-Options", codes "nosniff")
      ∷ [];
  body = message ++ (10 ∷ []);
}

unfoldable pub error_response : ℕ → Bytes → HttpResponse
error_response code message = record {
  status_code = code;
  header = (codes "Content-Type", (codes "text/plain; charset=utf-8", [])) ∷ [];
  content = if bytes_beq message [] then status_text code else message;
}

-- `sendResponse`: of each header the first value
unfoldable pub send_response : HttpResponse → Written
send_response resp = record {
  status = resp.status_code;
  header = map (λ (k, (v, _)). (k, v)) resp.header;
  body = resp.content;
}
