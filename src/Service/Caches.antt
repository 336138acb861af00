-- ===== src/Service/Caches.antt =====
-- What the handler of the signing endpoints does to the caches of the `Protocol`.
use ubirch_cose_client_go.Prelude.{inl, inr, Bool-cases, bytes_eq, Bytes}
use ubirch_cose_client_go.Errors.{not_exist, Result, ok, err, Result-cases}
use ubirch_cose_client_go.Context.{Uuid, Identity}
use ubirch_cose_client_go.Libs.{Env}
use ubirch_cose_client_go.Protocol.{Protocol, get_identity, get_skid}
use ubirch_cose_client_go.Protocol.Invariant.{IsValid, get_identity-IsValid}
use ubirch_cose_client_go.Http.{Request, HttpRequest}
use ubirch_cose_client_go.Signer.{CoseSigner, sign}
use ubirch_cose_client_go.Service.{
  Helpers, Service, direct_uuid, handle_request, served, serve_identity, sign_and_send, check_auth,
  get_payload_and_hash,
}

module _ {W Tx PublicKey : Type 0} (e : Env W Tx PublicKey) (c : CoseSigner) (h : Helpers) where
  sign-IsValid :
      (msg : HttpRequest) (key : Bytes) (p : Protocol W)
      → IsValid p
      → IsValid (sign e c msg key p).1
  unfolding sign
  sign-IsValid msg key p v = elim (Result-cases (get_skid e msg.id p)) [
    | inl (x, failed) ↦ rw (failed, sign) v
    | inr (skid, certified) ↦
        rw (certified, sign) (record { identities = v.identities; skids = v.skids })
  ]

  sign_and_send-IsValid :
      (msg : HttpRequest) (key : Bytes) (s : Service W)
      → IsValid s.protocol
      → IsValid (sign_and_send e c h msg key s).1.protocol
  unfolding sign_and_send
  sign_and_send-IsValid msg key s v =
      let kept = sign-IsValid msg key s.protocol v in
      elim (Bool-cases (h.http_success (sign e c msg key s.protocol).0.status_code)) [
        | inl success ↦ rw (success, sign_and_send) kept
        | inr failure ↦ rw (failure, sign_and_send) kept
      ]

  served-IsValid :
      (got : Result Identity) (r : Request) (uid : Uuid) (s : Service W)
      → IsValid s.protocol
      → IsValid (served e c h got r uid s).1.protocol
  unfolding serve_identity
  served-IsValid (ok identity) r uid s v = elim (Result-cases (check_auth r identity.auth_token)) [
    | inl (x, refused) ↦ rw (refused, serve_identity) v
    | inr (_, passed) ↦ elim (Result-cases (get_payload_and_hash e c r)) [
      | inl (x, unread) ↦ rw (passed, serve_identity, unread) v
      | inr ((payload, hash), read) ↦
          rw (passed, serve_identity, read) (sign_and_send-IsValid _ identity.private_key s v)
    ]
  ]
  served-IsValid (err not_exist) r uid s v = v
  served-IsValid (err x) r uid s v = v

  pub direct_uuid-IsValid :
      (r : Request) (s : Service W)
      → IsValid s.protocol
      → IsValid (direct_uuid e c h r s).1.protocol
  unfolding direct_uuid handle_request
  direct_uuid-IsValid r s v = elim (Result-cases (h.parse_uuid r.uuid_param)) [
    | inl (x, bad) ↦ rw (bad, direct_uuid) v
    | inr (uid, parsed) ↦
        let (got, p) = get_identity e uid s.protocol in
        rw (parsed, direct_uuid)
          (served-IsValid got r uid (record s { protocol = p })
            (get_identity-IsValid e uid s.protocol v))
  ]
