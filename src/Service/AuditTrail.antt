-- ===== src/Service/AuditTrail.antt =====
-- The audit log of the handler, by what a client sees: its requests and their answers.
use mathlib.Core.List.{append-nil}
use ubirch_cose_client_go.Prelude.{
  ℕ, ◌≤◌, ◌≡◌, ◌≢◌, refl, inl, inr, Bool-cases, false, arith, Bytes, List, [], ◌∷◌, ◌++◌, ◌==◌,
  nat_eq, nat_beq_iff, if◌then◌else◌,
}
use ubirch_cose_client_go.Errors.{not_exist, Result, ok, err, Result-cases}
use ubirch_cose_client_go.Context.{Uuid, Identity}
use ubirch_cose_client_go.Libs.{Env}
use ubirch_cose_client_go.Protocol.{get_identity, get_skid}
use ubirch_cose_client_go.Http.{
  Request, Written, HttpRequest, http_error, send_response, status_ok, error_response,
}
use ubirch_cose_client_go.Signer.{CoseSigner, create_signed_cose, sign}
use ubirch_cose_client_go.Service.{
  Service, Helpers, check_auth, get_payload_and_hash, sign_and_send, serve_identity, served,
  handle_request, direct_uuid,
}
use ubirch_cose_client_go.Service.Answers.{
  WritesStatus, handle_request-Accepted, Accepted-handle_request,
}

-- `HttpSuccess` is false of the codes of errors.
pub record IsSuccessTest (h : Helpers) : Type 0 where
  pub failure : (code : ℕ) → 400 ≤ code → h.http_success code ≡ false

module _ {W Tx PublicKey : Type 0} (e : Env W Tx PublicKey) (c : CoseSigner) (h : Helpers) where
  abbrev hash_logged : Result Uuid → Result (Bytes × Bytes) → List (Uuid × Bytes)
  hash_logged (ok uid) (ok (payload, hash)) = (uid, hash) ∷ []
  hash_logged (ok uid) (err x) = []
  hash_logged (err x) read = []

  -- What an answer is to leave in the log: 200 the identity and the hash of the request, any other
  -- code nothing.
  unfoldable pub entry : Request → Written → List (Uuid × Bytes)
  entry r a =
      if a.status == status_ok
      then hash_logged (h.parse_uuid r.uuid_param) (get_payload_and_hash e c r)
      else []

  sign_and_send_refused :
      (msg : HttpRequest) (key : Bytes) (s : Service W)
      → IsSuccessTest h
      → (sign_and_send e c h msg key s).0.status ≢ status_ok
      → (sign_and_send e c h msg key s).1.audit_log ≡ s.audit_log
  unfolding sign_and_send sign send_response error_response
  sign_and_send_refused msg key s test bad = elim (Result-cases (get_skid e msg.id s.protocol)) [
    | inl (x, failed) ↦ ground (arith, test.failure 400 (omega arith))
    | inr (skid, certified) ↦
        elim (Result-cases
          (create_signed_cose e c msg.hash key skid msg.payload s.protocol.world).0) [
            | inl (x, failed) ↦ ground (arith, test.failure 500 (omega arith))
            | inr (cose, made) ↦ ground arith
          ]
  ]

  served_refused :
      (got : Result Identity) (r : Request) (uid : Uuid) (s : Service W)
      → IsSuccessTest h
      → (served e c h got r uid s).0.status ≢ status_ok
      → (served e c h got r uid s).1.audit_log ≡ s.audit_log
  unfolding serve_identity
  served_refused (ok identity) r uid s test bad =
      elim (Result-cases (check_auth r identity.auth_token)) [
        | inl (x, refused) ↦ rw (refused, serve_identity) refl
        | inr (_, passed) ↦ elim (Result-cases (get_payload_and_hash e c r)) [
          | inl (x, unread) ↦ rw (passed, serve_identity, unread) refl
          | inr ((payload, hash), read) ↦
              rw (passed, serve_identity, read)
                (sign_and_send_refused _ identity.private_key s test
                  (rw (passed, serve_identity, read) at bad))
        ]
      ]
  served_refused (err not_exist) r uid s test bad = refl
  served_refused (err x) r uid s test bad = refl

  handle_request_refused :
      (r : Request) (uid : Uuid) (s : Service W)
      → IsSuccessTest h
      → ((handle_request e c h r uid s).0.status == status_ok) ≡ false
      → (handle_request e c h r uid s).1.audit_log ≡ s.audit_log
  unfolding handle_request
  handle_request_refused r uid s test other =
      let (got, p) = get_identity e uid s.protocol in
      served_refused got r uid (record s { protocol = p }) test
        (λ same. ground (arith, other, same))

  -- What one request leaves in the log follows from its answer.
  pub direct_uuid-entry :
      (r : Request) (s : Service W)
      → WritesStatus h
      → IsSuccessTest h
      → (direct_uuid e c h r s).1.audit_log ≡ s.audit_log ++ entry r (direct_uuid e c h r s).0
  unfolding direct_uuid entry http_error
  direct_uuid-entry r s writes test = elim (Result-cases (h.parse_uuid r.uuid_param)) [
    | inl (x, bad) ↦ ground (arith, append-nil s.audit_log)
    | inr (uid, parsed) ↦ elim (Bool-cases ((handle_request e c h r uid s).0.status == status_ok)) [
      | inl fine ↦
          let a = handle_request-Accepted e c h r uid s writes ((nat_beq_iff _ _).0 fine) in
          let (_, _, logged, _) = Accepted-handle_request e c h r uid s _ writes a in
          rw (parsed, direct_uuid, entry, fine, a.read) logged
      | inr other ↦
          rw (parsed, direct_uuid, entry, other)
            (rw (append-nil s.audit_log) (handle_request_refused r uid s test other))
    ]
  ]
