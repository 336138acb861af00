-- ===== src/Main/Interleaved.antt =====
-- The running server of main.go as its goroutines: one for each request, the one that loads the
-- SKIDs, and the world, in any order of their steps.
pub mod Safe
pub mod Answered
use ubirch_cose_client_go.Prelude.{ℕ, ◌≡◌, Bool, List, [], ◌∷◌, ◌++◌}
use ubirch_cose_client_go.Errors.{Result}
use ubirch_cose_client_go.Context.{Uuid}
use ubirch_cose_client_go.Libs.{Env}
use ubirch_cose_client_go.Client.{ExtendedClient}
use ubirch_cose_client_go.Protocol.{Protocol, Interval, new_protocol}
use ubirch_cose_client_go.Http.{Request, Written}
use ubirch_cose_client_go.Signer.{CoseSigner}
use ubirch_cose_client_go.Service.{Helpers, Service}
use ubirch_cose_client_go.Threads.{Thread, returned, calling, forward, advance}
use ubirch_cose_client_go.Protocol.Steps.{exists_steps, load_skids_steps}
use ubirch_cose_client_go.Service.Steps.{on_protocol, direct_uuid_steps}

-- What a handler has returned with: the answer to a request of the signing endpoints, or, in the
-- handler of registrations, the answer of `Exists`.
pub data Done : Type 0 where
  answered : Request → Written → Done
  looked_up : Uuid → Result Bool → Done

-- What is shared, the handlers that run or have returned, and the goroutine of `NewProtocol`.
pub record Running (W : Type 0) : Type 0 where
  pub service : Service W
  pub handlers : List (Thread (Service W) Done)
  pub loader : Thread (Service W) (Unit {0})

-- The world goes on.
abbrev pub in_world : {W : Type 0} → W → Service W → Service W
in_world w s = record s { protocol = record (s.protocol) { world = w } }

module _ {W Tx PublicKey : Type 0} (e : Env W Tx PublicKey) (client : ExtendedClient)
    (interval : Interval) (c : CoseSigner) (h : Helpers) where
  abbrev pub answering : Request → Thread (Service W) Done
  answering r = calling (direct_uuid_steps e c h r) (λ a. returned (answered r a))

  abbrev pub looking_up : Uuid → Thread (Service W) Done
  looking_up uid =
      calling (on_protocol (exists_steps e uid)) (λ found. returned (looked_up uid found))

  abbrev pub loading : Thread (Service W) (Unit {0})
  loading = on_protocol (load_skids_steps e client interval)

  -- `NewProtocol` has started its goroutine, and no request has come.
  abbrev pub started : W → Running W
  started w = record {
    service = record { protocol = new_protocol w; audit_log = []; signature_creations = 0 };
    handlers = [];
    loader = loading;
  }

  -- A request comes, a registration asks for a UUID, a handler or the loader takes its next step, the
  -- ticker of the loader ticks, which it hears when it is not loading, or the world goes on, as
  -- `Later` says.
  pub data Step (Later : W → W → Type 0) (s : Running W) : Running W → Type 0 where
    accept : (r : Request) → Step Later s (record s { handlers = s.handlers ++ (answering r ∷ []) })
    register :
        (uid : Uuid) → Step Later s (record s { handlers = s.handlers ++ (looking_up uid ∷ []) })
    turn :
        (n : ℕ)
        → Step Later s (record s {
          service = (advance n s.handlers s.service).1;
          handlers = (advance n s.handlers s.service).0;
        })
    load : Step Later s (record s {
      service = (forward s.loader s.service).1;
      loader = (forward s.loader s.service).0;
    })
    tick : s.loader ≡ returned tt → Step Later s (record s { loader = loading })
    outside :
        (w : W)
        → Later s.service.protocol.world w
        → Step Later s (record s { service = in_world w s.service })

  pub data Reach (Later : W → W → Type 0) (w : W) : Running W → Type 0 where
    here : Reach Later w (started w)
    onward : {s t : Running W} → Reach Later w s → Step Later s t → Reach Later w t
