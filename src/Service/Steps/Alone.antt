-- ===== src/Service/Steps/Alone.antt =====
-- A request that nothing interrupts is answered as by the handler in one piece.
use ubirch_cose_client_go.Prelude.{◌≡◌, refl, inl, inr, Bool-cases, Bytes}
use ubirch_cose_client_go.Errors.{not_exist, exists, text, Result, ok, err, Result-cases}
use ubirch_cose_client_go.Context.{Uuid, Identity}
use ubirch_cose_client_go.Libs.{Env}
use ubirch_cose_client_go.Protocol.{Protocol, get_identity, get_skid}
use ubirch_cose_client_go.Http.{HttpRequest, Request}
use ubirch_cose_client_go.Signer.{CoseSigner, sign}
use ubirch_cose_client_go.Service.{
  Helpers, Service, check_auth, get_payload_and_hash, sign_and_send, serve_identity, served,
  handle_request, direct_uuid,
}
use ubirch_cose_client_go.Threads.{Thread, alone, calling}
use ubirch_cose_client_go.Threads.Alone.{alone-calling, alone-focus}
use ubirch_cose_client_go.Protocol.Steps.{get_identity_steps, get_skid_steps}
use ubirch_cose_client_go.Protocol.Steps.Alone.{alone-get_identity}
use ubirch_cose_client_go.Service.Steps.{
  protocol_of, with_protocol, on_protocol, sign_steps, sent_steps, serve_identity_steps,
  served_steps, handle_request_steps, direct_uuid_steps,
}

alone-on_protocol :
    {W A : Type 0} (t : Thread (Protocol W) A) (s : Service W)
    → alone (on_protocol t) s
      ≡ ((alone t s.protocol).0, record s { protocol = (alone t s.protocol).1 })
alone-on_protocol t s =
    alone-focus protocol_of with_protocol (λ p s'. refl) (λ p q s'. refl) (λ s'. refl) t s

module _ {W Tx PublicKey : Type 0} (e : Env W Tx PublicKey) (c : CoseSigner) where
  alone-sign :
      (msg : HttpRequest) (key : Bytes) (p : Protocol W)
      → alone (sign_steps e c msg key) p ≡ sign e c msg key p
  unfolding sign_steps get_skid_steps sign alone calling
  alone-sign msg key p = elim (Result-cases (get_skid e msg.id p)) [
    | inl (x, missing) ↦ rw (alone, sign, missing) refl
    | inr (skid, known) ↦ rw (alone, sign, known) refl
  ]

  module _ (h : Helpers) where
    sent_lem :
        (msg : HttpRequest) (key : Bytes) (s : Service W)
        → (let (resp, p) = sign e c msg key s.protocol in
            alone (sent_steps e c h msg resp) (record s { protocol = p }))
          ≡ sign_and_send e c h msg key s
    unfolding sign_and_send alone
    sent_lem msg key s =
        elim (Bool-cases (h.http_success (sign e c msg key s.protocol).0.status_code)) [
          | inl fine ↦ rw (alone, sign_and_send, fine) refl
          | inr refused ↦ rw (alone, sign_and_send, refused) refl
        ]

    serve_identity_lem :
        (r : Request) (uid : Uuid) (identity : Identity) (s : Service W)
        → alone (serve_identity_steps e c h r uid identity) s
          ≡ serve_identity e c h r uid identity s
    unfolding serve_identity_steps serve_identity alone
    serve_identity_lem r uid identity s = elim (Result-cases (check_auth r identity.auth_token)) [
      | inl (x, wrong) ↦ rw (alone, serve_identity, wrong) refl
      | inr (_, right) ↦ elim (Result-cases (get_payload_and_hash e c r)) [
        | inl (x, unread) ↦ rw (alone, serve_identity, right, unread) refl
        | inr ((payload, hash), read) ↦
            let msg : HttpRequest = record { id = uid; hash = hash; payload = payload } in
            let key = identity.private_key in
            rw
              (
                alone,
                serve_identity,
                right,
                read,
                alone-calling (on_protocol (sign_steps e c msg key)) (sent_steps e c h msg) s,
                alone-on_protocol (sign_steps e c msg key) s,
                alone-sign msg key s.protocol,
              )
              (sent_lem msg key s)
      ]
    ]

    served_lem :
        (r : Request) (uid : Uuid) (got : Result Identity) (s : Service W)
        → alone (served_steps e c h r uid got) s ≡ served e c h got r uid s
    unfolding alone
    served_lem r uid (ok identity) s = serve_identity_lem r uid identity s
    served_lem r uid (err not_exist) s = refl
    served_lem r uid (err exists) s = refl
    served_lem r uid (err (text t)) s = refl

    -- The goroutine of a request, run to its end with no step of others between its own, returns the
    -- answer of `direct_uuid`, and leaves all that the handlers share as that does.
    pub alone-direct_uuid :
        (r : Request) (s : Service W) → alone (direct_uuid_steps e c h r) s ≡ direct_uuid e c h r s
    unfolding direct_uuid_steps handle_request_steps direct_uuid handle_request alone
    alone-direct_uuid r s = elim (Result-cases (h.parse_uuid r.uuid_param)) [
      | inl (x, malformed) ↦ rw (alone, direct_uuid, malformed) refl
      | inr (uid, parsed) ↦
          let (got, p) = get_identity e uid s.protocol in
          rw
            (
              alone,
              direct_uuid,
              handle_request,
              parsed,
              alone-calling (on_protocol (get_identity_steps e uid)) (served_steps e c h r uid) s,
              alone-on_protocol (get_identity_steps e uid) s,
              alone-get_identity e uid s.protocol,
            )
            (served_lem r uid got (record s { protocol = p }))
    ]
