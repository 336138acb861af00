-- ===== src/Service/Steps/Kept.antt =====
-- The handler keeps the rules of the goroutines that share a `Service`.
use mathlib.Core.List.{Memᴰ}
use mathlib.Core.List.Memᴰ
use ubirch_cose_client_go.Prelude.{
  refl, ◌≡◌, inl, inr, true, ◌≢◌, [], ◌∷◌, ◌++◌, Bytes, arith, All-append,
}
use ubirch_cose_client_go.Errors.{
  not_exist, exists, text, error_text, codes, Result, ok, err, Result-cases,
}
use ubirch_cose_client_go.Context.{Uuid, Identity}
use ubirch_cose_client_go.Libs.{Env}
use ubirch_cose_client_go.Client.{ExtendedClient}
use ubirch_cose_client_go.Http.{
  HttpRequest, HttpResponse, Request, Written, get, status_ok, status_not_found,
  status_unauthorized, status_bad_request, status_text, status_internal_server_error, send_response,
  http_error,
}
use ubirch_cose_client_go.Signer.{CoseSigner}
use ubirch_cose_client_go.Service.{Helpers, Service, auth_header, check_auth, get_payload_and_hash}
use ubirch_cose_client_go.Service.Answers.{WritesStatus, check_auth-eq-ok}
use ubirch_cose_client_go.Service.AuditTrail.{IsSuccessTest}
use ubirch_cose_client_go.Threads.{returned, next}
use ubirch_cose_client_go.Threads.Safety.{Rules, Safe, calling-Safe}
use ubirch_cose_client_go.Protocol.Steps.{get_identity_steps}
use ubirch_cose_client_go.Protocol.Steps.Rely.{IsKeeping, Known, Known-Later}
use ubirch_cose_client_go.Protocol.Steps.Kept.{Got, get_identity-Safe}
use ubirch_cose_client_go.Service.Steps.{
  on_protocol, sign_steps, sent_steps, log, count, serve_identity_steps, served_steps,
  handle_request_steps, direct_uuid_steps,
}
use ubirch_cose_client_go.Service.Steps.Granted.{
  Signing, Signing-Later, Logged, Granted, Granted-Later, GoesOn-refl,
}
use ubirch_cose_client_go.Service.Steps.Signs.{shared, Answer, sign-Safe, on_protocol-Safe}

module _ {W Tx PublicKey : Type 0} (e : Env W Tx PublicKey) (client : ExtendedClient)
    (Later : W → W → Type 0) (Row : Uuid → Identity → W → Type 0)
    (Registered : Bytes → Uuid → W → Type 0) (keeping : IsKeeping e Later Row Registered)
    (c : CoseSigner) (h : Helpers) (writes : WritesStatus h) (test : IsSuccessTest h) where
  abbrev own : Rules (Service W)
  own = shared e client Later Row Registered keeping c

  abbrev GrantedHere : Request → Written → Service W → Type 0
  GrantedHere = Granted e client Later Row Registered c h

  abbrev SigningHere : Request → Uuid → Bytes → Bytes → W → Type 0
  SigningHere = Signing e client Later Row Registered c

  -- an answer that is not 200
  refused-Safe :
      (r : Request) (a : Written) (s : Service W)
      → a.status ≢ status_ok
      → Safe own (GrantedHere r) (returned a) s
  refused-Safe r a s other = λ t later holds fine. absurd (other fine)

  logged_steps-Safe :
      (r : Request) (msg : HttpRequest) (resp : HttpResponse) (s : Service W)
      → h.parse_uuid r.uuid_param ≡ ok msg.id
      → SigningHere r msg.id msg.hash resp.content s.protocol.world
      → Safe own
          (GrantedHere r)
          (next (log msg.id msg.hash) (λ s. next count (λ s'. returned (send_response resp))))
          s
  unfolding send_response
  logged_steps-Safe r msg resp s parsed signing = λ t later holds.
      let here =
        Signing-Later e client Later Row Registered c keeping r msg.id msg.hash resp.content
          s.protocol.world t.protocol.world later.0 signing in
      let after = log msg.id msg.hash t in
      let granted : GrantedHere r (send_response resp) after =
        λ fine. (msg.id, msg.hash, parsed, here, Memᴰ.append_right t.audit_log (Memᴰ.head refl)) in
      (
        record {
          protocol = holds.protocol;
          log =
              All-append (Logged e client Later Row Registered c t.protocol.world) t.audit_log
                ((msg.id, msg.hash) ∷ []) holds.log ((r, resp.content, here), tt);
        },
        (
          keeping.stays t.protocol.world,
          λ entry logged. Memᴰ.append_left ((msg.id, msg.hash) ∷ []) logged,
        ),
        λ u later' holds'. (
          record { protocol = holds'.protocol; log = holds'.log },
          GoesOn-refl e client Later Row Registered c keeping u,
          λ v later'' holds''.
              Granted-Later e client Later Row Registered c keeping h r (send_response resp) after v
                (own.goes_on after u v later' later'') granted,
        ),
      )

  sent-Safe :
      (r : Request) (uid : Uuid) (id : Identity) (payload hash : Bytes) (resp : HttpResponse)
      (s : Service W)
      → h.parse_uuid r.uuid_param ≡ ok uid
      → Known e client Later Row Registered uid id s.protocol.world
      → get r.header auth_header ≡ id.auth_token
      → get_payload_and_hash e c r ≡ ok (payload, hash)
      → let msg : HttpRequest = record { id = uid; hash = hash; payload = payload } in
        Answer e client Later Row Registered keeping c msg id.private_key resp s.protocol
        → Safe own (GrantedHere r) (sent_steps e c h msg resp) s
  unfolding send_response
  sent-Safe r uid id payload hash resp s parsed known authorized read (inr refused) =
      λ t later holds. (
        holds,
        GoesOn-refl e client Later Row Registered c keeping t,
        rw (Safe, test.failure resp.status_code refused)
            (refused-Safe r (send_response resp) t (λ fine. omega (arith, fine, refused))),
      )
  sent-Safe r uid id payload hash resp s parsed known authorized read (inl (fine, m)) =
      let signing : SigningHere r uid hash resp.content s.protocol.world = record {
        identity = id;
        known = known;
        authorized = authorized;
        payload = payload;
        read = read;
        skid = m.skid;
        certified = m.certified;
        from = m.from;
        made = m.made;
      } in
      let success : h.http_success resp.status_code ≡ true = rw fine writes.success in
      λ t later holds. (
        holds,
        GoesOn-refl e client Later Row Registered c keeping t,
        rw (Safe, success)
            (logged_steps-Safe r (record { id = uid; hash = hash; payload = payload }) resp t parsed
              (Signing-Later e client Later Row Registered c keeping r uid hash resp.content
                s.protocol.world t.protocol.world later.0 signing)),
      )

  serve_identity-Safe :
      (r : Request) (uid : Uuid) (id : Identity) (s : Service W)
      → h.parse_uuid r.uuid_param ≡ ok uid
      → Known e client Later Row Registered uid id s.protocol.world
      → Safe own (GrantedHere r) (serve_identity_steps e c h r uid id) s
  unfolding serve_identity_steps http_error
  serve_identity-Safe r uid id s parsed known = elim (Result-cases (check_auth r id.auth_token)) [
    | inl (x, wrong) ↦
        rw (Safe, wrong)
          (refused-Safe r (http_error (error_text x) status_unauthorized) s (omega arith))
    | inr (_, right) ↦ elim (Result-cases (get_payload_and_hash e c r)) [
      | inl (x, unread) ↦
          rw (Safe, right, unread)
            (refused-Safe r (http_error (error_text x) status_bad_request) s (omega arith))
      | inr ((payload, hash), read) ↦
          let msg : HttpRequest = record { id = uid; hash = hash; payload = payload } in
          let answers = Answer e client Later Row Registered keeping c msg id.private_key in
          rw (Safe, right, read)
            (calling-Safe own (λ resp t. answers resp t.protocol) (GrantedHere r)
              (on_protocol (sign_steps e c msg id.private_key)) (sent_steps e c h msg) s
              (on_protocol-Safe e client Later Row Registered keeping c answers _ s
                (sign-Safe e client Later Row Registered keeping c msg id.private_key s.protocol))
              (λ resp t later holds made.
                sent-Safe r uid id payload hash resp t parsed
                  (Known-Later e client Later Row Registered keeping uid id s.protocol.world
                    t.protocol.world later.0 known)
                  (check_auth-eq-ok r id.auth_token right) read made))
    ]
  ]

  served-Safe :
      (r : Request) (uid : Uuid) (got : Result Identity) (s : Service W)
      → h.parse_uuid r.uuid_param ≡ ok uid
      → Got e client Later Row Registered keeping uid got s.protocol
      → Safe own (GrantedHere r) (served_steps e c h r uid got) s
  unfolding http_error
  served-Safe r uid (ok id) s parsed known = serve_identity-Safe r uid id s parsed known
  served-Safe r uid (err not_exist) s parsed known =
      refused-Safe r (h.error uid (text (codes "unknown UUID")) status_not_found) s (λ fine.
        omega (arith, fine, writes.status uid (text (codes "unknown UUID")) status_not_found))
  served-Safe r uid (err exists) s parsed known =
      refused-Safe r
        (http_error (status_text status_internal_server_error) status_internal_server_error) s
        (omega arith)
  served-Safe r uid (err (text t)) s parsed known =
      refused-Safe r
        (http_error (status_text status_internal_server_error) status_internal_server_error) s
        (omega arith)

  -- A request is safe from any state on.
  pub direct_uuid-Safe :
      (r : Request) (s : Service W) → Safe own (GrantedHere r) (direct_uuid_steps e c h r) s
  unfolding direct_uuid_steps handle_request_steps http_error
  direct_uuid-Safe r s = elim (Result-cases (h.parse_uuid r.uuid_param)) [
    | inl (x, malformed) ↦
        rw (Safe, malformed)
          (refused-Safe r
            (http_error
              (error_text
                (text (codes "invalid UUID: \"" ++ r.uuid_param ++ codes "\": " ++ error_text x)))
              status_not_found)
            s (omega arith))
    | inr (uid, parsed) ↦
        let got = Got e client Later Row Registered keeping uid in
        rw (Safe, parsed)
          (calling-Safe own (λ id t. got id t.protocol) (GrantedHere r)
            (on_protocol (get_identity_steps e uid)) (served_steps e c h r uid) s
            (on_protocol-Safe e client Later Row Registered keeping c got _ s
              (get_identity-Safe e client Later Row Registered keeping uid s.protocol))
            (λ id t later holds known. served-Safe r uid id t parsed known))
  ]
