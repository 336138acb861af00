-- ===== src/Main/Server.antt =====
-- The server of main.go while it runs: its endpoints, and the goroutines beside them.
use ubirch_cose_client_go.Prelude.{ℕ, Bool, Option, none, some, List, [], ◌∷◌, Bytes}
use ubirch_cose_client_go.Codec.Paths.{join}
use ubirch_cose_client_go.Errors.{codes, Exec}
use ubirch_cose_client_go.Context.{Uuid}
use ubirch_cose_client_go.Libs.{Env}
use ubirch_cose_client_go.Client.{ExtendedClient}
use ubirch_cose_client_go.Protocol.{Protocol, Interval, load_skids}
use ubirch_cose_client_go.IdentityHandler.{
  IdentityHandler, Backend, Setup, init_identity, exists_in, submit_csr_or_log_error,
}
use ubirch_cose_client_go.Http.{Request, Written}
use ubirch_cose_client_go.Signer.{CoseSigner}
use ubirch_cose_client_go.Service.{Helpers, Service, cbor_path, hash_endpoint, direct_uuid}

-- The one `Protocol` that the handlers share, and what they change beside it.
pub record ServerState (W : Type 0) : Type 0 where
  pub protocol : Protocol W
  pub audit_log : List (Uuid × Bytes)
  pub signature_creations : ℕ
  pub created : List Uuid
  pub started : List (Uuid × Bytes)

-- What the handler of the signing endpoints sees, and what that of registrations sees.
abbrev pub service_of : {W : Type 0} → ServerState W → Service W
service_of s = record {
  protocol = s.protocol;
  audit_log = s.audit_log;
  signature_creations = s.signature_creations;
}

abbrev pub setup_of : {W : Type 0} → ServerState W → Setup W
setup_of s = record { protocol = s.protocol; created = s.created; started = s.started }

abbrev pub with_service : {W : Type 0} → ServerState W → Service W → ServerState W
with_service s t = record s {
  protocol = t.protocol;
  audit_log = t.audit_log;
  signature_creations = t.signature_creations;
}

abbrev pub with_setup : {W : Type 0} → ServerState W → Setup W → ServerState W
with_setup s t = record s { protocol = t.protocol; created = t.created; started = t.started }

pub data Endpoint : Type 0 where
  liveness register sign sign_hash readiness : Endpoint

pub data Method : Type 0 where
  get post put : Method

pub record Route : Type 0 where
  pub method : Method
  pub pattern : Bytes
  pub endpoint : Endpoint

abbrev uuid_path : Bytes
uuid_path = codes "/{uuid}"

-- The endpoints in the order in which they are set up.
unfoldable pub routes : List Route
routes =
    let direct_uuid_endpoint = join (uuid_path ∷ cbor_path ∷ []) in
    let direct_uuid_hash_endpoint = join (direct_uuid_endpoint ∷ hash_endpoint ∷ []) in
    record { method = get; pattern = codes "/healtz"; endpoint = liveness }
    ∷ record { method = put; pattern = codes "/register"; endpoint = register }
    ∷ record { method = post; pattern = direct_uuid_endpoint; endpoint = sign }
    ∷ record { method = post; pattern = direct_uuid_hash_endpoint; endpoint = sign_hash }
    ∷ record { method = get; pattern = codes "/readiness"; endpoint = readiness }
    ∷ []

-- Of ubirch-client-go the handler `Health`, and the `Put` of an `IdentityCreator`, which is given
-- `initIdentity` and `Exists` to call.
pub record Handlers (W : Type 0) : Type 0 where
  pub health : Written
  pub put_identity :
      (Uuid → Bytes → Exec (Setup W) Bytes)
      → (Uuid → Exec (Setup W) Bool)
      → Request
      → Setup W
      → Written × Setup W

-- What happens to a server: a request for an endpoint, the next reload of the certificates, a
-- goroutine that submits a CSR, and a change of the world by others.
pub data Event (W : Type 0) : Type 0 where
  request : Endpoint → Request → Event W
  reload : Event W
  submission : Uuid → Bytes → Event W
  outside : (W → W) → Event W

module _ {W Tx PublicKey : Type 0} (e : Env W Tx PublicKey) (client : ExtendedClient)
    (interval : Interval) (b : Backend W Tx) (i : IdentityHandler) (c : CoseSigner) (h : Helpers)
    (handlers : Handlers W) where
  -- the handler of an endpoint
  unfoldable pub serve : Endpoint → Request → ServerState W → Written × ServerState W
  serve liveness r s = (handlers.health, s)
  serve readiness r s = (handlers.health, s)
  serve sign r s = let (a, t) = direct_uuid e c h r (service_of s) in (a, with_service s t)
  serve sign_hash r s = let (a, t) = direct_uuid e c h r (service_of s) in (a, with_service s t)
  serve register r s =
      let (a, t) = handlers.put_identity (init_identity e b i) (exists_in e b i) r (setup_of s) in
      (a, with_setup s t)

  abbrev pub on_protocol : (Protocol W → Protocol W) → ServerState W → ServerState W
  on_protocol f s = record s { protocol = f s.protocol }

  -- A request has an answer.
  unfoldable pub step : Event W → ServerState W → Option Written × ServerState W
  step (request endpoint r) s = let (a, s') = serve endpoint r s in (some a, s')
  step reload s = (none, on_protocol (load_skids e client interval) s)
  step (submission uid csr) s = (
    none,
    on_protocol (λ p. record p { world = submit_csr_or_log_error e b i uid csr p.world }) s,
  )
  step (outside f) s = (none, on_protocol (λ p. record p { world = f p.world }) s)

  -- The answers, event by event, and the last state.
  unfoldable pub run : List (Event W) → ServerState W → List (Option Written) × ServerState W
  run [] s = ([], s)
  run (event ∷ events) s =
      let (a, s') = step event s in let (answers, s'') = run events s' in (a ∷ answers, s'')

-- A signal to terminate ends the goroutines of the server; then `main` returns, and its deferred call
-- closes the context manager. Nothing else is written.
unfoldable pub shut_down :
    {W Tx PublicKey : Type 0} → Env W Tx PublicKey → ServerState W → ServerState W
shut_down e s = record s {
  protocol = record (s.protocol) { world = e.manager.close s.protocol.world };
}
