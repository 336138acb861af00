-- ===== src/Service/Steps/Bounded.antt =====
-- How many steps a request takes, whatever the others do in between.
use ubirch_cose_client_go.Prelude.{inl, inr, Bool-cases, Bytes}
use ubirch_cose_client_go.Errors.{not_exist, exists, text, Result, ok, err, Result-cases}
use ubirch_cose_client_go.Context.{Uuid, Identity}
use ubirch_cose_client_go.Libs.{Env}
use ubirch_cose_client_go.Http.{HttpRequest, HttpResponse, Request}
use ubirch_cose_client_go.Signer.{CoseSigner}
use ubirch_cose_client_go.Service.{Helpers, check_auth, get_payload_and_hash}
use ubirch_cose_client_go.Threads.Bounded.{IsWithin, calling-IsWithin, focus-IsWithin}
use ubirch_cose_client_go.Protocol.Steps.{get_identity_steps, get_skid_steps}
use ubirch_cose_client_go.Protocol.Steps.Bounded.{get_identity-IsWithin}
use ubirch_cose_client_go.Service.Steps.{
  protocol_of, with_protocol, on_protocol, signed_steps, sign_steps, sent_steps,
  serve_identity_steps, served_steps, handle_request_steps, direct_uuid_steps,
}

module _ {W Tx PublicKey : Type 0} (e : Env W Tx PublicKey) (c : CoseSigner) where
  signed-IsWithin :
      (msg : HttpRequest) (key : Bytes) (skid : Result Bytes)
      → IsWithin 1 (signed_steps e c msg key skid)
  signed-IsWithin msg key (ok skid) = λ p. tt
  signed-IsWithin msg key (err x) = tt

  sign-IsWithin : (msg : HttpRequest) (key : Bytes) → IsWithin 2 (sign_steps e c msg key)
  unfolding sign_steps get_skid_steps
  sign-IsWithin msg key =
      calling-IsWithin 1 1 (get_skid_steps e msg.id) (signed_steps e c msg key) (λ p. tt)
        (signed-IsWithin msg key)

  module _ (h : Helpers) where
    sent-IsWithin :
        (msg : HttpRequest) (resp : HttpResponse) → IsWithin 3 (sent_steps e c h msg resp)
    sent-IsWithin msg resp = elim (Bool-cases (h.http_success resp.status_code)) [
      | inl fine ↦ rw (IsWithin, fine) (λ s s' s''. tt)
      | inr refused ↦ rw (IsWithin, refused) (λ s. tt)
    ]

    serve_identity-IsWithin :
        (r : Request) (uid : Uuid) (id : Identity)
        → IsWithin 5 (serve_identity_steps e c h r uid id)
    unfolding serve_identity_steps
    serve_identity-IsWithin r uid id = elim (Result-cases (check_auth r id.auth_token)) [
      | inl (x, wrong) ↦ rw (IsWithin, wrong) tt
      | inr (_, right) ↦ elim (Result-cases (get_payload_and_hash e c r)) [
        | inl (x, unread) ↦ rw (IsWithin, right, unread) tt
        | inr ((payload, hash), read) ↦
            let msg : HttpRequest = record { id = uid; hash = hash; payload = payload } in
            rw (IsWithin, right, read)
              (calling-IsWithin 2 3 (on_protocol (sign_steps e c msg id.private_key))
                (sent_steps e c h msg)
                (focus-IsWithin protocol_of with_protocol 2 (sign_steps e c msg id.private_key)
                  (sign-IsWithin msg id.private_key))
                (sent-IsWithin msg))
      ]
    ]

    served-IsWithin :
        (r : Request) (uid : Uuid) (got : Result Identity)
        → IsWithin 5 (served_steps e c h r uid got)
    served-IsWithin r uid (ok id) = serve_identity-IsWithin r uid id
    served-IsWithin r uid (err not_exist) = tt
    served-IsWithin r uid (err exists) = tt
    served-IsWithin r uid (err (text t)) = tt

    -- The cache, five attempts at the database, the cache again, the SKID, the signature, the
    -- response, the line of the audit log, and the counter.
    pub direct_uuid-IsWithin : (r : Request) → IsWithin 12 (direct_uuid_steps e c h r)
    unfolding direct_uuid_steps handle_request_steps
    direct_uuid-IsWithin r = elim (Result-cases (h.parse_uuid r.uuid_param)) [
      | inl (x, malformed) ↦ rw (IsWithin, malformed) tt
      | inr (uid, parsed) ↦
          rw (IsWithin, parsed)
            (calling-IsWithin 7 5 (on_protocol (get_identity_steps e uid))
              (served_steps e c h r uid)
              (focus-IsWithin protocol_of with_protocol 7 (get_identity_steps e uid)
                (get_identity-IsWithin e uid))
              (served-IsWithin r uid))
    ]
