-- ===== src/Main/Trail.antt =====
-- The audit log of a server, by what its clients see.
use ubirch_cose_client_go.Prelude.{Option, some, List, [], ◌∷◌, ◌++◌, Bytes}
use ubirch_cose_client_go.Context.{Uuid}
use ubirch_cose_client_go.Libs.{Env}
use ubirch_cose_client_go.Client.{ExtendedClient}
use ubirch_cose_client_go.Protocol.{Interval}
use ubirch_cose_client_go.IdentityHandler.{IdentityHandler, Backend}
use ubirch_cose_client_go.Http.{Written}
use ubirch_cose_client_go.Signer.{CoseSigner}
use ubirch_cose_client_go.Service.{Helpers}
use ubirch_cose_client_go.Service.AuditTrail.{entry}
use ubirch_cose_client_go.Main.Server.{
  sign, sign_hash, Handlers, Event, request, reload, submission, outside,
}

module _ {W Tx PublicKey : Type 0} (e : Env W Tx PublicKey) (client : ExtendedClient)
    (interval : Interval) (b : Backend W Tx) (i : IdentityHandler) (c : CoseSigner) (h : Helpers)
    (handlers : Handlers W) where
  -- What an event and its answer are to leave in the log.
  abbrev pub event_entry : Event W → Option Written → List (Uuid × Bytes)
  event_entry (request sign r) (some a) = entry e c h r a
  event_entry (request sign_hash r) (some a) = entry e c h r a
  event_entry (request endpoint r) answer = []
  event_entry reload answer = []
  event_entry (submission uid csr) answer = []
  event_entry (outside f) answer = []

  -- The log that the events and their answers tell of.
  abbrev pub trail : List (Event W) → List (Option Written) → List (Uuid × Bytes)
  trail [] answers = []
  trail (event ∷ events) [] = []
  trail (event ∷ events) (a ∷ answers) = event_entry event a ++ trail events answers
