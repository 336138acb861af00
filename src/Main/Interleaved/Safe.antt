-- ===== src/Main/Interleaved/Safe.antt =====
-- What holds of a running server, however its goroutines are interleaved.
use mathlib.Core.Path.{subst}
use mathlib.Core.List.{Memᴰ}
use ubirch_cose_client_go.Prelude.{sym, Bool, true, false, List, [], ◌∷◌, Bytes, All-append}
use ubirch_cose_client_go.Errors.{exists, not_exist, text, Result, ok, err}
use ubirch_cose_client_go.Context.{Uuid, Identity}
use ubirch_cose_client_go.Libs.{Env}
use ubirch_cose_client_go.Client.{ExtendedClient}
use ubirch_cose_client_go.Protocol.{Protocol, Interval, known}
use ubirch_cose_client_go.Http.{Request, Written}
use ubirch_cose_client_go.Signer.{CoseSigner}
use ubirch_cose_client_go.Service.{Helpers, Service}
use ubirch_cose_client_go.Service.Answers.{WritesStatus}
use ubirch_cose_client_go.Service.AuditTrail.{IsSuccessTest}
use ubirch_cose_client_go.Threads.{Thread, returned, forward, advance}
use ubirch_cose_client_go.Threads.Safety.{
  Rules, Safe, Safe-Follows, AllSafe, AllSafe-Follows, advance-AllKept, forward-ForwardKept,
  calling-Safe,
}
use ubirch_cose_client_go.Protocol.Steps.{get_identity_steps, exists_steps, load_skids_steps}
use ubirch_cose_client_go.Protocol.Steps.Rely.{
  IsKeeping, Known, Known-Later, IsCoherent-Later, new_protocol-IsCoherent,
}
use ubirch_cose_client_go.Protocol.Steps.Kept.{rules, Got, get_identity-Safe}
use ubirch_cose_client_go.Protocol.Steps.Loading.{load_skids-Safe}
use ubirch_cose_client_go.Service.Steps.{on_protocol, direct_uuid_steps}
use ubirch_cose_client_go.Service.Steps.Granted.{
  IsCoherentService, Granted, Granted-Later, protocol-IsCoherentService,
}
use ubirch_cose_client_go.Service.Steps.Signs.{shared, on_protocol-Safe}
use ubirch_cose_client_go.Service.Steps.Kept.{direct_uuid-Safe}
use ubirch_cose_client_go.Main.Interleaved.{
  Done, answered, looked_up, Running, in_world, answering, looking_up, loading, started, Step,
  accept, register, turn, load, tick, outside, Reach, here, onward,
}

module _ {W Tx PublicKey : Type 0} (e : Env W Tx PublicKey) (client : ExtendedClient)
    (Later : W → W → Type 0) (Row : Uuid → Identity → W → Type 0)
    (Registered : Bytes → Uuid → W → Type 0) (keeping : IsKeeping e Later Row Registered)
    (c : CoseSigner) (h : Helpers) (writes : WritesStatus h) (test : IsSuccessTest h)
    (interval : Interval) where
  abbrev own : Rules (Service W)
  own = shared e client Later Row Registered keeping c

  -- A UUID that was found has a row that opens.
  abbrev LookedUp : Uuid → Result Bool → Protocol W → Type 0
  LookedUp uid (ok true) p = (id : Identity) × Known e client Later Row Registered uid id p.world
  LookedUp uid r p = Unit

  abbrev Promise : Done → Service W → Type 0
  Promise (answered r a) s = Granted e client Later Row Registered c h r a s
  Promise (looked_up uid found) s = LookedUp uid found s.protocol

  known_lem :
      (uid : Uuid) (r : Result Identity) (p : Protocol W)
      → Got e client Later Row Registered keeping uid r p
      → LookedUp uid (known r) p
  known_lem uid (ok id) p got = (id, got)
  known_lem uid (err not_exist) p got = tt
  known_lem uid (err exists) p got = tt
  known_lem uid (err (text t)) p got = tt

  LookedUp-Later :
      (uid : Uuid) (found : Result Bool) (p q : Protocol W)
      → Later p.world q.world
      → LookedUp uid found p
      → LookedUp uid found q
  LookedUp-Later uid (ok true) p q later (id, row) =
      (id, Known-Later e client Later Row Registered keeping uid id p.world q.world later row)
  LookedUp-Later uid (ok false) p q later found = tt
  LookedUp-Later uid (err x) p q later found = tt

  answering-Safe :
      (r : Request) (s : Service W) → Safe own Promise (answering e client interval c h r) s
  answering-Safe r s =
      calling-Safe own (Granted e client Later Row Registered c h r) Promise
        (direct_uuid_steps e c h r) (λ a. returned (answered r a)) s
        (direct_uuid-Safe e client Later Row Registered keeping c h writes test r s)
        (λ a t later holds granted u later' holds'.
          Granted-Later e client Later Row Registered c keeping h r a t u later' granted)

  exists-Safe :
      (uid : Uuid) (p : Protocol W)
      → Safe (rules e client Later Row Registered keeping) (LookedUp uid) (exists_steps e uid) p
  unfolding exists_steps
  exists-Safe uid p =
      calling-Safe (rules e client Later Row Registered keeping)
        (Got e client Later Row Registered keeping uid) (LookedUp uid) (get_identity_steps e uid)
        (λ r. returned (known r)) p (get_identity-Safe e client Later Row Registered keeping uid p)
        (λ r q later holds got q' later' holds'.
          LookedUp-Later uid (known r) q q' later' (known_lem uid r q got))

  looking_up-Safe :
      (uid : Uuid) (s : Service W) → Safe own Promise (looking_up e client interval c h uid) s
  looking_up-Safe uid s =
      calling-Safe own (λ found t. LookedUp uid found t.protocol) Promise
        (on_protocol (exists_steps e uid)) (λ found. returned (looked_up uid found)) s
        (on_protocol-Safe e client Later Row Registered keeping c (LookedUp uid)
          (exists_steps e uid) s (exists-Safe uid s.protocol))
        (λ found t later holds got u later' holds'.
          LookedUp-Later uid found t.protocol u.protocol later'.0 got)

  loading-Safe : (s : Service W) → Safe own (λ a t. Unit) (loading e client interval c h) s
  loading-Safe s =
      on_protocol-Safe e client Later Row Registered keeping c (λ a p. Unit)
        (load_skids_steps e client interval) s
        (load_skids-Safe e client Later Row Registered keeping interval s.protocol)

  record IsSafe (s : Running W) : Type 0 where
    service : IsCoherentService e client Later Row Registered c s.service
    handlers : AllSafe own Promise s.handlers s.service
    loader : Safe own (λ a t. Unit) s.loader s.service

  started-IsSafe : (w : W) → IsSafe (started e client interval c h w)
  started-IsSafe w = record {
    service = record {
      protocol = new_protocol-IsCoherent e client Later Row Registered w;
      log = tt;
    };
    handlers = tt;
    loader = loading-Safe _;
  }

  Step-IsSafe : {s t : Running W} → Step e client interval c h Later s t → IsSafe s → IsSafe t
  Step-IsSafe {s} (accept r) safe = record {
    service = safe.service;
    handlers =
        All-append (λ t. Safe own Promise t s.service) s.handlers _ safe.handlers
          (answering-Safe r s.service, tt);
    loader = safe.loader;
  }
  Step-IsSafe {s} (register uid) safe = record {
    service = safe.service;
    handlers =
        All-append (λ t. Safe own Promise t s.service) s.handlers _ safe.handlers
          (looking_up-Safe uid s.service, tt);
    loader = safe.loader;
  }
  Step-IsSafe {s} (turn n) safe =
      let k = advance-AllKept own Promise n s.handlers s.service safe.service safe.handlers in
      record {
        service = k.holds;
        handlers = k.safe;
        loader =
            Safe-Follows own (λ a t. Unit) s.loader s.service (advance n s.handlers s.service).1
              k.follows safe.loader;
      }
  Step-IsSafe {s} load safe =
      let k = forward-ForwardKept own (λ a t. Unit) s.loader s.service safe.service safe.loader in
      record {
        service = k.holds;
        handlers =
            AllSafe-Follows own Promise s.handlers s.service (forward s.loader s.service).1
              k.follows safe.handlers;
        loader = k.safe;
      }
  Step-IsSafe {s} (tick idle) safe = record {
    service = safe.service;
    handlers = safe.handlers;
    loader = loading-Safe s.service;
  }
  Step-IsSafe {s} (outside w later) safe = record {
    service =
        protocol-IsCoherentService e client Later Row Registered c keeping
          (record (s.service.protocol) { world = w }) s.service safe.service
          (IsCoherent-Later e client Later Row Registered keeping s.service.protocol w
            safe.service.protocol later)
          later;
    handlers =
        AllSafe-Follows own Promise s.handlers s.service (in_world w s.service)
          (later, λ entry logged. logged) safe.handlers;
    loader =
        Safe-Follows own (λ a t. Unit) s.loader s.service (in_world w s.service)
          (later, λ entry logged. logged) safe.loader;
  }

  Reach-IsSafe : (w : W) {s : Running W} → Reach e client interval c h Later w s → IsSafe s
  Reach-IsSafe w here = started-IsSafe w
  Reach-IsSafe w (onward reached step) = Step-IsSafe step (Reach-IsSafe w reached)

  -- However the goroutines of a server are interleaved, at every moment: a cached identity is what
  -- the row of its UUID opens to, a cached UUID is the one that its key is registered for, the SKID
  -- store is empty or holds the matches of all certificates of one list that the server signed, and
  -- each entry of the audit log stands for a signing of that hash, for a request with the token of
  -- the identity. The conditions: the database keeps its rows and answers with them, public keys
  -- are bytes, and the helpers write the status that they are given, and tell 200 from errors.
  pub Reach-IsCoherentService :
      (w : W) (s : Running W)
      → Reach e client interval c h Later w s
      → IsCoherentService e client Later Row Registered c s.service
  Reach-IsCoherentService w s reached = (Reach-IsSafe w reached).service

  AllSafe_member :
      (threads : List (Thread (Service W) Done)) (t : Thread (Service W) Done) (s : Service W)
      → AllSafe own Promise threads s
      → Memᴰ t threads
      → Safe own Promise t s
  AllSafe_member [] t s safe member = elim member [ ]
  AllSafe_member (u ∷ threads) t s (safe, rest) (Memᴰ.head same) =
      subst (λ v. Safe own Promise v s) (sym same) safe
  AllSafe_member (u ∷ threads) t s (safe, rest) (Memᴰ.tail deeper) =
      AllSafe_member threads t s rest deeper

  -- However the goroutines of a server are interleaved, a handler that has returned with an answer
  -- 200 has answered with a COSE object, made for a request with the token of the identity, of
  -- which the hash was read, and the audit log has the UUID and the hash. The identity is what the
  -- row of the request's UUID opens to, and the KID is that of a certificate with its key, from a
  -- list that the server signed. The conditions: the database keeps its rows and answers with them,
  -- public keys are bytes, and the helpers write the status that they are given, and tell 200 from
  -- errors.
  pub Reach-Granted :
      (w : W) (s : Running W) (r : Request) (a : Written)
      → Reach e client interval c h Later w s
      → Memᴰ (returned (answered r a)) s.handlers
      → Granted e client Later Row Registered c h r a s.service
  Reach-Granted w s r a reached returned_there =
      let safe = Reach-IsSafe w reached in
      AllSafe_member s.handlers (returned (answered r a)) s.service safe.handlers returned_there
        s.service (own.stays s.service) safe.service
