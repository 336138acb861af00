-- ===== src/Client.antt =====
-- extended_client.go: the certificate list, over connections whose certificate is pinned.
pub mod Pinning
pub mod SigningService
pub mod Reached
use ubirch_cose_client_go.Prelude.{
  String, ◌≡◌, refl, ℕ, Bool, true, false, not, Option, none, some, List, [], ◌∷◌, ◌++◌, arith,
  Bytes, ◌==◌, bytes_eq, if◌then◌else◌,
}
use ubirch_cose_client_go.Codec.Base64
use ubirch_cose_client_go.Codec.Paths.{join}
use ubirch_cose_client_go.Codec.Strings.{split_line}
use ubirch_cose_client_go.Dict.{Dict, lookup}
use ubirch_cose_client_go.Errors.{
  Error, text, error_text, codes, wrap, read_all, Result, ok, err, Exec, pure, fail, lift, ◌>>=◌,
  ◌>>◌,
}
use ubirch_cose_client_go.Libs.{Env, Certificate, ConnectionState, Response}

-- The fields of `ExtendedClient` that its methods read.
pub record ExtendedClient : Type 0 where
  pub signing_service_url : Bytes
  pub certificate_server_url : Bytes
  pub certificate_server_pub_key_url : Bytes
  pub server_tls_cert_fingerprints : Dict Bytes Bytes

unfoldable pub ucc_header : Bytes → Dict Bytes Bytes
ucc_header auth =
    (codes "x-auth-token", auth) ∷ (codes "content-type", codes "application/octet-stream") ∷ []

-- what `path.Join` makes of the URL; `uid_text` is the `String` of the UUID
unfoldable pub signing_endpoint : ExtendedClient → Bytes → Bytes
signing_endpoint client uid_text = join (client.signing_service_url ∷ uid_text ∷ codes "hash" ∷ [])

-- `post` is the `Post` of the clients of ubirch-client-go.
unfoldable pub send_to_ubirch_signing_service :
    {W Answer : Type 0}
    → (Bytes → Bytes → Dict Bytes Bytes → Exec W Answer)
    → ExtendedClient
    → Bytes
    → Bytes
    → Bytes
    → Exec W Answer
send_to_ubirch_signing_service post client uid_text auth upp =
    post (signing_endpoint client uid_text) upp (ucc_header auth)

abbrev pub Verify : Type 0
Verify = Bytes → Bytes → Bytes → Result Bool

-- `if err != nil { return fmt.Errorf("<what>: %v", err) }` behind a call
abbrev wrapping {ℓ} : {A : Type ℓ} → String → Result A → Result A
wrapping what (ok a) = ok a
wrapping what (err e) = err (wrap what e)

abbrev wrapping_exec {ℓ} : {S A : Type ℓ} → String → Exec S A → Exec S A
wrapping_exec what m s = let (r, s') = m s in (wrapping what r, s')

abbrev or_error {ℓ} : {A : Type ℓ} → Option A → Error → Result A
or_error (some a) e = ok a
or_error none e = err e

abbrev or_fail {ℓ} : {A : Type ℓ} → Option A → Bytes → Result A
or_fail (some a) message = ok a
or_fail none message = err (text message)

require : Bool → Bytes → Result (Unit {0})
require true message = ok tt
require false message = err (text message)

module _ {W Tx PublicKey : Type 0} (e : Env W Tx PublicKey) (client : ExtendedClient) where
  unfoldable pub new_connection_verifier : Bytes → ConnectionState → Option Error
  new_connection_verifier fingerprint connection =
      if not (e.go.sum256 connection.leaf == fingerprint)
      then some (text (codes "pinned server TLS certificate mismatch"))
      else none

  read_response : Response → Result Bytes
  read_response resp =
      if e.web.http_failed resp.status_code
      then err (text (codes "response: (" ++ resp.status ++ codes ") " ++ resp.body.content))
      else read_all resp.body

  unfoldable pub get_with_cert_pinning : Bytes → Exec W Bytes
  unfolding read_response
  get_with_cert_pinning url = do
    host ← lift (e.web.parse_host url)
    fingerprint ← lift (
        or_fail (lookup host client.server_tls_cert_fingerprints)
          (codes "missing TLS certificate fingerprint for host " ++ host))
    lift (e.web.new_request url)
    resp ← e.web.do_get (new_connection_verifier fingerprint) url
    lift (read_response resp)

  unfoldable pub request_certificate_list_public_key : Exec W Bytes
  request_certificate_list_public_key =
      wrapping_exec "retrieving public key for certificate list verification failed"
        (get_with_cert_pinning client.certificate_server_pub_key_url)

  -- Base64 of the signature, a line end, and the signed list.
  unfoldable pub request_certificate_list : Verify → Exec W (List Certificate)
  unfolding require
  request_certificate_list verify = do
    body ←
        wrapping_exec "retrieving public key certificate list failed"
          (get_with_cert_pinning client.certificate_server_url)
    let parts = split_line body
    cert_list ←
        lift
          (or_fail parts.1 (codes "unexpected response content from public key certificate server"))
    pub_key_pem ←
        wrapping_exec "unable to retrieve public key for certificate list verification"
          request_certificate_list_public_key
    signature ← lift (
        wrapping "decoding signature of public key certificate list failed:"
          (or_error (Base64.decode parts.0) (e.go.base64_failure parts.0).0))
    valid ← lift (
        wrapping "unable to verify signature for public key certificate list"
          (verify pub_key_pem cert_list signature))
    lift (require valid (codes "invalid signature for public key certificate list"))
    lift (
        wrapping "unable to decode public key certificate list"
          (e.go.unmarshal_trust_list cert_list))
