-- ===== src/Service/Steps/Granted.antt =====
-- What stands behind an answer 200 and behind an entry of the audit log.
use mathlib.Core.List.{Memᴰ}
use ubirch_cose_client_go.Prelude.{◌≡◌, List, [], ◌∷◌, Bytes, All}
use ubirch_cose_client_go.Errors.{ok}
use ubirch_cose_client_go.Context.{Uuid, Identity}
use ubirch_cose_client_go.Libs.{Env}
use ubirch_cose_client_go.Client.{ExtendedClient}
use ubirch_cose_client_go.Protocol.{Protocol}
use ubirch_cose_client_go.Http.{Request, Written, get, status_ok}
use ubirch_cose_client_go.Signer.{CoseSigner, create_signed_cose}
use ubirch_cose_client_go.Service.{Helpers, Service, auth_header, get_payload_and_hash}
use ubirch_cose_client_go.Threads.Safety.{Rules}
use ubirch_cose_client_go.Protocol.Steps.Certified.{Certified, Certified-Later}
use ubirch_cose_client_go.Protocol.Steps.Rely.{IsKeeping, Known, Known-Later, IsCoherent}

module _ {W Tx PublicKey : Type 0} (e : Env W Tx PublicKey) (client : ExtendedClient)
    (Later : W → W → Type 0) (Row : Uuid → Identity → W → Type 0)
    (Registered : Bytes → Uuid → W → Type 0) (c : CoseSigner) where
  -- The stages of a signing: the identity is what a row of the database opens to, the request has
  -- its token, the hash is that of the request, and the KID is from a certificate of a list.
  pub record Signing (r : Request) (uid : Uuid) (hash : Bytes) (body : Bytes) (w : W) : Type 0 where
    pub identity : Identity
    pub known : Known e client Later Row Registered uid identity w
    pub authorized : get r.header auth_header ≡ identity.auth_token
    pub payload : Bytes
    pub read : get_payload_and_hash e c r ≡ ok (payload, hash)
    pub skid : Bytes
    pub certified : Certified e Registered client uid skid w
    pub from : W
    pub made : (create_signed_cose e c hash identity.private_key skid payload from).0 ≡ ok body

  -- An entry of the audit log stands for a signing.
  abbrev pub Logged : W → Uuid × Bytes → Type 0
  Logged w (uid, hash) = (r : Request) × (body : Bytes) × Signing r uid hash body w

  pub record IsCoherentService (s : Service W) : Type 0 where
    pub protocol : IsCoherent e client Later Row Registered s.protocol
    pub log : All (Logged s.protocol.world) s.audit_log

  module _ (h : Helpers) where
    -- An answer 200 is the COSE object of a signing, which is in the audit log.
    abbrev pub Granted : Request → Written → Service W → Type 0
    Granted r a s =
        a.status ≡ status_ok
        → (uid : Uuid) × (hash : Bytes) × (h.parse_uuid r.uuid_param ≡ ok uid)
          × Signing r uid hash a.body s.protocol.world
          × Memᴰ (uid, hash) s.audit_log

  module _ (keeping : IsKeeping e Later Row Registered) where
    pub Signing-Later :
        (r : Request) (uid : Uuid) (hash body : Bytes) (w w' : W)
        → Later w w'
        → Signing r uid hash body w
        → Signing r uid hash body w'
    Signing-Later r uid hash body w w' later s = record {
      identity = s.identity;
      known = Known-Later e client Later Row Registered keeping uid s.identity w w' later s.known;
      authorized = s.authorized;
      payload = s.payload;
      read = s.read;
      skid = s.skid;
      certified =
          Certified-Later e Registered client Later keeping.keeps_key uid s.skid w w' later
            s.certified;
      from = s.from;
      made = s.made;
    }

    Logged-Later :
        (entries : List (Uuid × Bytes)) (w w' : W)
        → Later w w'
        → All (Logged w) entries
        → All (Logged w') entries
    Logged-Later [] w w' later all = tt
    Logged-Later ((uid, hash) ∷ entries) w w' later ((r, body, s), all) =
        ((r, body, Signing-Later r uid hash body w w' later s), Logged-Later entries w w' later all)

    -- The world goes on, and the audit log keeps its entries.
    abbrev pub GoesOn : Service W → Service W → Type 0
    GoesOn s t =
        Later s.protocol.world t.protocol.world
        × ((entry : Uuid × Bytes) → Memᴰ entry s.audit_log → Memᴰ entry t.audit_log)

    pub GoesOn-refl : (s : Service W) → GoesOn s s
    GoesOn-refl s = (keeping.stays s.protocol.world, λ entry logged. logged)

    -- The rules of the goroutines that share a `Service`.
    abbrev pub service_rules : Rules (Service W)
    service_rules = record {
      Holds = IsCoherentService;
      Follows = GoesOn;
      stays = GoesOn-refl;
      goes_on = λ s t u first second. (
        keeping.goes_on s.protocol.world t.protocol.world u.protocol.world first.0 second.0,
        λ entry logged. second.1 entry (first.1 entry logged),
      );
    }

    -- A step of the protocol keeps the log's entries true.
    pub protocol-IsCoherentService :
        (p : Protocol W) (s : Service W)
        → IsCoherentService s
        → IsCoherent e client Later Row Registered p
        → Later s.protocol.world p.world
        → IsCoherentService (record s { protocol = p })
    protocol-IsCoherentService p s holds coherent later = record {
      protocol = coherent;
      log = Logged-Later s.audit_log s.protocol.world p.world later holds.log;
    }

    pub Granted-Later :
        (h : Helpers) (r : Request) (a : Written) (s t : Service W)
        → GoesOn s t
        → Granted h r a s
        → Granted h r a t
    Granted-Later h r a s t later granted fine =
        let (uid, hash, parsed, signing, logged) = granted fine in
        (
          uid,
          hash,
          parsed,
          Signing-Later r uid hash a.body s.protocol.world t.protocol.world later.0 signing,
          later.1 (uid, hash) logged,
        )
