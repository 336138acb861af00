-- ===== src/Service/Steps.antt =====
-- The handler of services.go as a goroutine for each request: its calls of the `Protocol`, the
-- signing, the line of the audit log and the counter are steps of their own.
pub mod Alone
pub mod Granted
pub mod Signs
pub mod Bounded
pub mod Kept
use ubirch_cose_client_go.Prelude.{
  ℕ, ◌+◌, Bool, true, false, List, [], ◌∷◌, ◌++◌, Bytes, if◌then◌else◌,
}
use ubirch_cose_client_go.Errors.{codes, Error, not_exist, text, error_text, Result, ok, err}
use ubirch_cose_client_go.Context.{Uuid, Identity}
use ubirch_cose_client_go.Libs.{Env}
use ubirch_cose_client_go.Protocol.{Protocol, on_world}
use ubirch_cose_client_go.Http.{
  HttpRequest, HttpResponse, Request, Written, status_bad_request, status_unauthorized,
  status_not_found, status_internal_server_error, status_text, error_response, http_error,
  send_response,
}
use ubirch_cose_client_go.Signer.{CoseSigner, answer, create_signed_cose}
use ubirch_cose_client_go.Service.{Helpers, Service, get_uuid, check_auth, get_payload_and_hash}
use ubirch_cose_client_go.Threads.{Thread, returned, next, atomic, calling, focus}
use ubirch_cose_client_go.Protocol.Steps.{get_identity_steps, get_skid_steps}

abbrev pub protocol_of : {W : Type 0} → Service W → Protocol W
protocol_of s = s.protocol

abbrev pub with_protocol : {W : Type 0} → Protocol W → Service W → Service W
with_protocol p s = record s { protocol = p }

-- A method of the `Protocol`, called by a handler.
abbrev pub on_protocol : {W A : Type 0} → Thread (Protocol W) A → Thread (Service W) A
on_protocol t = focus protocol_of with_protocol t

-- `auditlogger.AuditLog`, and `SignatureCreationCounter.Inc`
abbrev pub log : {W : Type 0} → Uuid → Bytes → Service W → Service W
log uid hash s = record s { audit_log = s.audit_log ++ ((uid, hash) ∷ []) }

abbrev pub count : {W : Type 0} → Service W → Service W
count s = record s { signature_creations = s.signature_creations + 1 }

module _ {W Tx PublicKey : Type 0} (e : Env W Tx PublicKey) (c : CoseSigner) where
  -- behind `GetSKID`
  abbrev pub signed_steps : HttpRequest → Bytes → Result Bytes → Thread (Protocol W) HttpResponse
  signed_steps msg private_key_pem (err x) =
      returned (error_response status_bad_request (error_text x))
  signed_steps msg private_key_pem (ok skid) =
      atomic (on_world (create_signed_cose e c msg.hash private_key_pem skid msg.payload))
        (λ r. returned (answer r))

  unfoldable pub sign_steps : HttpRequest → Bytes → Thread (Protocol W) HttpResponse
  sign_steps msg private_key_pem =
      calling (get_skid_steps e msg.id) (signed_steps msg private_key_pem)

  module _ (h : Helpers) where
    -- behind `sendResponse`, which has written `written`
    abbrev pub logged_steps : HttpRequest → HttpResponse → Written → Thread (Service W) Written
    logged_steps msg resp written =
        if h.http_success resp.status_code
        then next (log msg.id msg.hash) (λ s. next count (λ s'. returned written))
        else returned written

    -- behind `Sign`: `sendResponse` is a step that writes to the request's own writer, so nothing
    -- that is shared changes, and others may run before the line of the log
    abbrev pub sent_steps : HttpRequest → HttpResponse → Thread (Service W) Written
    sent_steps msg resp = atomic (λ s. (send_response resp, s)) (logged_steps msg resp)

    -- behind a successful `GetIdentity`
    unfoldable pub serve_identity_steps : Request → Uuid → Identity → Thread (Service W) Written
    serve_identity_steps r uid identity = elim (check_auth r identity.auth_token) [
      | err x ↦ returned (http_error (error_text x) status_unauthorized)
      | ok _ ↦ elim (get_payload_and_hash e c r) [
        | err x ↦ returned (http_error (error_text x) status_bad_request)
        | ok (payload, hash) ↦
            let msg : HttpRequest = record { id = uid; hash = hash; payload = payload } in
            calling (on_protocol (sign_steps msg identity.private_key)) (sent_steps msg)
      ]
    ]

    abbrev pub served_steps : Request → Uuid → Result Identity → Thread (Service W) Written
    served_steps r uid (ok identity) = serve_identity_steps r uid identity
    served_steps r uid (err not_exist) =
        returned (h.error uid (text (codes "unknown UUID")) status_not_found)
    served_steps r uid (err x) =
        returned
          (http_error (status_text status_internal_server_error) status_internal_server_error)

    unfoldable pub handle_request_steps : Request → Uuid → Thread (Service W) Written
    handle_request_steps r uid =
        calling (on_protocol (get_identity_steps e uid)) (served_steps r uid)

    unfoldable pub direct_uuid_steps : Request → Thread (Service W) Written
    direct_uuid_steps r = elim (get_uuid h r) [
      | err x ↦ returned (http_error (error_text x) status_not_found)
      | ok uid ↦ handle_request_steps r uid
    ]
