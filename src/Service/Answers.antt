-- ===== src/Service/Answers.antt =====
-- What the handler answers, and what it does for an answer.
use ubirch_cose_client_go.Prelude.{
  ℕ, ◌+◌, ◌≡◌, ap, length-append, ◌≢◌, refl, inl, inr, true, none, arith, Bytes, bytes_eq,
  bytes_beq_iff, length, [], ◌∷◌, ◌++◌,
}
use ubirch_cose_client_go.Dict.{lookup}
use ubirch_cose_client_go.Errors.{Error, text, codes, not_exist, Result, ok, err, Result-cases}
use ubirch_cose_client_go.Context.{Uuid, Identity}
use ubirch_cose_client_go.Libs.{Env}
use ubirch_cose_client_go.Protocol.{Protocol, get_identity, get_skid}
use ubirch_cose_client_go.Protocol.Invariant.{IsValid, get_identity-IsComplete}
use ubirch_cose_client_go.Http.{
  Request, HttpRequest, get, http_error, send_response, status_ok, status_unauthorized,
  status_not_found, error_response,
}
use ubirch_cose_client_go.Signer.{CoseSigner, create_signed_cose, sign}
use ubirch_cose_client_go.Service.{
  Service, Helpers, auth_header, check_auth, get_payload_and_hash, sign_and_send, serve_identity,
  served, handle_request, direct_uuid,
}

pub check_auth-eq-ok :
    (r : Request) (token : Bytes) → check_auth r token ≡ ok tt → get r.header auth_header ≡ token
unfolding check_auth
check_auth-eq-ok r token h = ground (arith, bytes_beq_iff (get r.header auth_header) token)

check_auth_same :
    (r : Request) (token : Bytes) → get r.header auth_header ≡ token → check_auth r token ≡ ok tt
unfolding check_auth
check_auth_same r token h = ground (arith, bytes_beq_iff (get r.header auth_header) token)

-- `httphelper.Error` writes the status that it is given, and `HttpSuccess` is true of 200.
pub record WritesStatus (h : Helpers) : Type 0 where
  pub status : (uid : Uuid) (x : Error) (code : ℕ) → (h.error uid x code).status ≡ code
  pub success : h.http_success status_ok ≡ true

module _ {W Tx PublicKey : Type 0} (e : Env W Tx PublicKey) (c : CoseSigner) where
  -- `Sign` answers 200 exactly with a COSE object that was made for a known SKID.
  pub record Signed (msg : HttpRequest) (key : Bytes) (p : Protocol W) (body : Bytes) : Type 0 where
    pub skid : Bytes
    pub certified : get_skid e msg.id p ≡ ok skid
    pub made : (create_signed_cose e c msg.hash key skid msg.payload p.world).0 ≡ ok body

  sign-Signed :
      (msg : HttpRequest) (key : Bytes) (p : Protocol W)
      → (sign e c msg key p).0.status_code ≡ status_ok
      → Signed msg key p (sign e c msg key p).0.content
  unfolding sign error_response
  sign-Signed msg key p fine = elim (Result-cases (get_skid e msg.id p)) [
    | inl (x, failed) ↦ ground arith
    | inr (skid, certified) ↦
        elim (Result-cases (create_signed_cose e c msg.hash key skid msg.payload p.world).0) [
          | inl (x, failed) ↦ ground arith
          | inr (cose, made) ↦ record { skid = skid; certified = certified; made = ground arith }
        ]
  ]

module _ {W Tx PublicKey : Type 0} (e : Env W Tx PublicKey) (c : CoseSigner) (h : Helpers) where
  sign_and_send-sign :
      (msg : HttpRequest) (key : Bytes) (s : Service W)
      → ((sign_and_send e c h msg key s).0.status ≡ (sign e c msg key s.protocol).0.status_code)
        × ((sign_and_send e c h msg key s).0.body ≡ (sign e c msg key s.protocol).0.content)
  unfolding sign_and_send send_response
  sign_and_send-sign msg key s = ground arith

  -- The stages that a request has passed: its identity is known, its token is the identity's, a
  -- payload and a hash were read, the key has a certificate, and a COSE object was made.
  pub record Accepted (r : Request) (uid : Uuid) (s : Service W) (body : Bytes) : Type 0 where
    pub identity : Identity
    pub protocol : Protocol W
    pub payload : Bytes
    pub hash : Bytes
    pub skid : Bytes
    pub known : get_identity e uid s.protocol ≡ (ok identity, protocol)
    pub authorized : get r.header auth_header ≡ identity.auth_token
    pub read : get_payload_and_hash e c r ≡ ok (payload, hash)
    pub certified : get_skid e uid protocol ≡ ok skid
    pub made :
        (create_signed_cose e c hash identity.private_key skid payload protocol.world).0 ≡ ok body

  serve_identity-Accepted :
      (r : Request) (uid : Uuid) (identity : Identity) (p : Protocol W) (s : Service W)
      → get_identity e uid s.protocol ≡ (ok identity, p)
      → (serve_identity e c h r uid identity (record s { protocol = p })).0.status ≡ status_ok
      → Accepted r uid s (serve_identity e c h r uid identity (record s { protocol = p })).0.body
  unfolding serve_identity http_error
  serve_identity-Accepted r uid identity p s known fine =
      elim (Result-cases (check_auth r identity.auth_token)) [
        | inl (x, refused) ↦ ground arith
        | inr (_, passed) ↦ elim (Result-cases (get_payload_and_hash e c r)) [
          | inl (x, bad) ↦ ground arith
          | inr ((payload, hash), read) ↦
              let msg : HttpRequest = record { id = uid; hash = hash; payload = payload } in
              let s' : Service W = record s { protocol = p } in
              let (status, body) = sign_and_send-sign msg identity.private_key s' in
              let made = sign-Signed e c msg identity.private_key p (ground arith) in
              record {
                identity = identity;
                protocol = p;
                payload = payload;
                hash = hash;
                skid = made.skid;
                known = known;
                authorized = check_auth-eq-ok r identity.auth_token passed;
                read = read;
                certified = made.certified;
                made = ground (arith, made.made);
              }
        ]
      ]

  served-Accepted :
      (got : Result Identity) (r : Request) (uid : Uuid) (p : Protocol W) (s : Service W)
      → WritesStatus h
      → get_identity e uid s.protocol ≡ (got, p)
      → (served e c h got r uid (record s { protocol = p })).0.status ≡ status_ok
      → Accepted r uid s (served e c h got r uid (record s { protocol = p })).0.body
  unfolding http_error
  served-Accepted (ok identity) r uid p s writes known fine =
      serve_identity-Accepted r uid identity p s known fine
  served-Accepted (err not_exist) r uid p s writes known fine =
      absurd (omega (arith, writes.status uid (text (codes "unknown UUID")) status_not_found))
  served-Accepted (err x) r uid p s writes known fine = absurd (omega arith)

  -- With a helper that writes the status that it is given, the handler answers 200 only for a request
  -- that has passed every stage, and then with the COSE object that was made.
  pub handle_request-Accepted :
      (r : Request) (uid : Uuid) (s : Service W)
      → WritesStatus h
      → (handle_request e c h r uid s).0.status ≡ status_ok
      → Accepted r uid s (handle_request e c h r uid s).0.body
  unfolding handle_request
  handle_request-Accepted r uid s writes fine =
      let (got, p) = get_identity e uid s.protocol in served-Accepted got r uid p s writes refl fine

  -- A request that has passed every stage is answered with 200 and the COSE object, and is logged
  -- and counted, where the helper counts 200 as a success.
  pub Accepted-handle_request :
      (r : Request) (uid : Uuid) (s : Service W) (body : Bytes)
      → WritesStatus h
      → (a : Accepted r uid s body)
      → ((handle_request e c h r uid s).0.status ≡ status_ok)
        × ((handle_request e c h r uid s).0.body ≡ body)
        × ((handle_request e c h r uid s).1.audit_log ≡ s.audit_log ++ ((uid, a.hash) ∷ []))
        × ((handle_request e c h r uid s).1.signature_creations ≡ s.signature_creations + 1)
  unfolding handle_request serve_identity sign_and_send sign send_response
  Accepted-handle_request r uid s body writes a = ground (
    arith,
    check_auth_same r a.identity.auth_token a.authorized,
    a.known,
    a.read,
    a.certified,
    a.made,
    writes.success,
  )

  -- With a token other than the identity's the answer is 401, and nothing is signed or logged: only
  -- the lookup of the identity has taken place.
  pub handle_request_unauthorized :
      (r : Request) (uid : Uuid) (identity : Identity) (p : Protocol W) (s : Service W)
      → get_identity e uid s.protocol ≡ (ok identity, p)
      → get r.header auth_header ≢ identity.auth_token
      → ((handle_request e c h r uid s).0.status ≡ status_unauthorized)
        × ((handle_request e c h r uid s).1 ≡ record s { protocol = p })
  unfolding handle_request serve_identity check_auth http_error
  handle_request_unauthorized r uid identity p s known differs =
      rw (known, handle_request)
        (ground (arith, bytes_beq_iff (get r.header auth_header) identity.auth_token))

  -- With a valid `Protocol`, and a helper that writes the status that it is given, a request with no
  -- token is not answered 200.
  pub handle_request_without_token :
      (r : Request) (uid : Uuid) (s : Service W)
      → WritesStatus h
      → IsValid s.protocol
      → lookup auth_header r.header ≡ none
      → (handle_request e c h r uid s).0.status ≢ status_ok
  unfolding get
  handle_request_without_token r uid s writes v missing fine =
      let a = handle_request-Accepted r uid s writes fine in
      let complete =
        get_identity-IsComplete e uid a.identity s.protocol v (ap (λ t. t.0) a.known) in
      ground (arith, a.authorized, complete.auth_token)

  -- As many entries in the audit log as the counter counts.
  abbrev IsLogged : Service W → Type 0
  IsLogged s = length s.audit_log ≡ s.signature_creations

  sign_and_send-IsLogged :
      (msg : HttpRequest) (key : Bytes) (s : Service W)
      → IsLogged s
      → IsLogged (sign_and_send e c h msg key s).1
  unfolding sign_and_send
  sign_and_send-IsLogged msg key s logged =
      ground (arith, length-append s.audit_log ((msg.id, msg.hash) ∷ []))

  served-IsLogged :
      (got : Result Identity) (r : Request) (uid : Uuid) (s : Service W)
      → IsLogged s
      → IsLogged (served e c h got r uid s).1
  unfolding serve_identity
  served-IsLogged (ok identity) r uid s logged =
      elim (Result-cases (check_auth r identity.auth_token)) [
        | inl (x, refused) ↦ rw (refused, serve_identity) logged
        | inr (_, passed) ↦ elim (Result-cases (get_payload_and_hash e c r)) [
          | inl (x, bad) ↦ rw (passed, serve_identity, bad) logged
          | inr ((payload, hash), read) ↦
              rw (passed, serve_identity, read)
                (sign_and_send-IsLogged _ identity.private_key s logged)
        ]
      ]
  served-IsLogged (err not_exist) r uid s logged = logged
  served-IsLogged (err x) r uid s logged = logged

  -- Whatever a request asks, the audit log and the counter are in step afterwards, if they were
  -- before.
  direct_uuid-IsLogged :
      (r : Request) (s : Service W) → IsLogged s → IsLogged (direct_uuid e c h r s).1
  unfolding direct_uuid handle_request
  direct_uuid-IsLogged r s logged = elim (Result-cases (h.parse_uuid r.uuid_param)) [
    | inl (x, bad) ↦ rw (bad, direct_uuid) logged
    | inr (uid, parsed) ↦
        let (got, p) = get_identity e uid s.protocol in
        rw (parsed, direct_uuid) (served-IsLogged got r uid (record s { protocol = p }) logged)
  ]
