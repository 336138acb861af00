-- ===== src/Main/Guarded.antt =====
-- What holds of a server whatever happens.
use ubirch_cose_client_go.Prelude.{bytes_eq, List, [], ◌∷◌, Bytes, Bool}
use ubirch_cose_client_go.Errors.{Exec}
use ubirch_cose_client_go.Context.{Uuid}
use ubirch_cose_client_go.Libs.{Env}
use ubirch_cose_client_go.Client.{ExtendedClient}
use ubirch_cose_client_go.Protocol.{Interval}
use ubirch_cose_client_go.Protocol.Invariant.{IsValid, load_skids-IsValid}
use ubirch_cose_client_go.IdentityHandler.{
  IdentityHandler, Backend, Setup, init_identity, exists_in,
}
use ubirch_cose_client_go.IdentityHandler.Atomic.{Keeps}
use ubirch_cose_client_go.IdentityHandler.Caches.{init_identity-IsValid, exists_in-IsValid}
use ubirch_cose_client_go.Http.{Request}
use ubirch_cose_client_go.Signer.{CoseSigner}
use ubirch_cose_client_go.Service.{Helpers}
use ubirch_cose_client_go.Service.Caches.{direct_uuid-IsValid}
use ubirch_cose_client_go.Main.Server.{
  ServerState, service_of, setup_of, Endpoint, liveness, register, sign, sign_hash, readiness,
  Handlers, Event, request, reload, submission, outside, step, run, serve,
}

-- The `Put` of ubirch-client-go changes what it is given only by the two functions that it is given:
-- what both keep, it keeps.
pub record IsCalling {W : Type 0} (handlers : Handlers W) : Type 1 where
  pub keeps :
      (init : Uuid → Bytes → Exec (Setup W) Bytes) (has : Uuid → Exec (Setup W) Bool)
      (I : Setup W → Type 0)
      → ((uid : Uuid) (auth : Bytes) → Keeps I (init uid auth))
      → ((uid : Uuid) → Keeps I (has uid))
      → (r : Request) (s : Setup W) → I s
      → I (handlers.put_identity init has r s).1

module _ {W Tx PublicKey : Type 0} (e : Env W Tx PublicKey) (client : ExtendedClient)
    (interval : Interval) (b : Backend W Tx) (i : IdentityHandler) (c : CoseSigner) (h : Helpers)
    (handlers : Handlers W) (calling : IsCalling handlers) where
  serve-IsValid :
      (endpoint : Endpoint) (r : Request) (s : ServerState W)
      → IsValid s.protocol
      → IsValid (serve e client interval b i c h handlers endpoint r s).1.protocol
  unfolding serve
  serve-IsValid liveness r s v = v
  serve-IsValid readiness r s v = v
  serve-IsValid sign r s v = direct_uuid-IsValid e c h r (service_of s) v
  serve-IsValid sign_hash r s v = direct_uuid-IsValid e c h r (service_of s) v
  serve-IsValid register r s v =
      calling.keeps (init_identity e b i) (exists_in e b i) (λ t. IsValid t.protocol)
        (init_identity-IsValid e b i) (exists_in-IsValid e b i) r (setup_of s) v

  step-IsValid :
      (event : Event W) (s : ServerState W)
      → IsValid s.protocol
      → IsValid (step e client interval b i c h handlers event s).1.protocol
  unfolding step
  step-IsValid (request endpoint r) s v = serve-IsValid endpoint r s v
  step-IsValid reload s v = load_skids-IsValid e client interval s.protocol v
  step-IsValid (submission uid csr) s v = record { identities = v.identities; skids = v.skids }
  step-IsValid (outside f) s v = record { identities = v.identities; skids = v.skids }

  pub run-IsValid :
      (events : List (Event W)) (s : ServerState W)
      → IsValid s.protocol
      → IsValid (run e client interval b i c h handlers events s).1.protocol
  unfolding run
  run-IsValid [] s v = v
  run-IsValid (event ∷ events) s v =
      run-IsValid events (step e client interval b i c h handlers event s).1
        (step-IsValid event s v)
