-- ===== src/Protocol/Steps/Rely.antt =====
-- What goroutines may rely on: a database that keeps its rows, and caches that tell the truth.
use ubirch_cose_client_go.Prelude.{◌≡◌, refl, inl, Option, Bytes, All, nat_eq, bytes_eq}
use ubirch_cose_client_go.Codec.Base64
use ubirch_cose_client_go.Codec.Base64.{IsByte, encode-injective}
use ubirch_cose_client_go.Dict.{Entries, Entries-map}
use ubirch_cose_client_go.Errors.{Error, ok}
use ubirch_cose_client_go.Context.{Uuid, Identity}
use ubirch_cose_client_go.Libs.{Env, ConnectionState}
use ubirch_cose_client_go.Client.{ExtendedClient}
use ubirch_cose_client_go.Protocol.{Protocol, new_protocol, open_identity}
use ubirch_cose_client_go.Threads.Safety.{Rules}
use ubirch_cose_client_go.Protocol.Steps.Certified.{IsWhole, IsWhole-Later}

-- How the world goes on, and what stays true of it: the row of a UUID, and the UUID
-- that a public key is registered for. What the database answers is so, and no call of the
-- handlers undoes it.
pub record IsKeeping {W Tx PublicKey : Type 0} (e : Env W Tx PublicKey) (Later : W → W → Type 0)
    (Row : Uuid → Identity → W → Type 0) (Registered : Bytes → Uuid → W → Type 0) : Type 0 where
  pub stays : (w : W) → Later w w
  pub goes_on : (w w' w'' : W) → Later w w' → Later w' w'' → Later w w''
  pub keeps : (uid : Uuid) (id : Identity) (w w' : W) → Later w w' → Row uid id w → Row uid id w'
  pub keeps_key :
      (raw : Bytes) (uid : Uuid) (w w' : W)
      → Later w w'
      → Registered raw uid w
      → Registered raw uid w'
  pub reads :
      (uid : Uuid) (id : Identity) (w w' : W)
      → e.manager.get_identity uid w ≡ (ok id, w')
      → Row uid id w'
  pub reads_uid :
      (raw : Bytes) (uid : Uuid) (w w' : W)
      → e.manager.get_uuid_for_public_key raw w ≡ (ok uid, w')
      → Registered raw uid w'
  pub asks : (uid : Uuid) (w : W) → Later w (e.manager.get_identity uid w).1
  pub asks_uid : (raw : Bytes) (w : W) → Later w (e.manager.get_uuid_for_public_key raw w).1
  pub gets :
      (check : ConnectionState → Option Error) (url : Bytes) (w : W)
      → Later w (e.web.do_get check url w).1
  pub signs : (key hash : Bytes) (w : W) → Later w (e.crypto.sign_hash key hash w).1
  pub bytes : (pem raw : Bytes) → e.crypto.public_key_pem_to_bytes pem ≡ ok raw → All IsByte raw

module _ {W Tx PublicKey : Type 0} (e : Env W Tx PublicKey) (client : ExtendedClient)
    (Later : W → W → Type 0) (Row : Uuid → Identity → W → Type 0)
    (Registered : Bytes → Uuid → W → Type 0) where
  -- The identity that a row opens to.
  pub record Known (uid : Uuid) (id : Identity) (w : W) : Type 0 where
    pub given : Identity
    pub row : Row uid given w
    pub opens : open_identity e given ≡ ok id

  -- What a key of the cache of UUIDs says.
  abbrev pub Found : Bytes → Uuid → W → Type 0
  Found key uid w = (raw : Bytes) → All IsByte raw → Base64.encode raw ≡ key → Registered raw uid w

  pub record IsCoherent (p : Protocol W) : Type 0 where
    pub identities : Entries (λ uid id. Known uid id p.world) p.identity_cache
    pub uids : Entries (λ key uid. Found key uid p.world) p.uid_cache
    pub skids : IsWhole e Registered client p.skid_store p.world

  pub new_protocol-IsCoherent : (w : W) → IsCoherent (new_protocol w)
  unfolding new_protocol
  new_protocol-IsCoherent w = record { identities = tt; uids = tt; skids = inl refl }

  module _ (keeping : IsKeeping e Later Row Registered) where
    pub Known-Later :
        (uid : Uuid) (id : Identity) (w w' : W) → Later w w' → Known uid id w → Known uid id w'
    Known-Later uid id w w' later k = record {
      given = k.given;
      row = keeping.keeps uid k.given w w' later k.row;
      opens = k.opens;
    }

    pub IsCoherent-Later :
        (p : Protocol W) (w : W)
        → IsCoherent p
        → Later p.world w
        → IsCoherent (record p { world = w })
    IsCoherent-Later p w c later = record {
      identities =
          Entries-map (λ uid id. Known uid id p.world) (λ uid id. Known uid id w) p.identity_cache
            (λ uid id. Known-Later uid id p.world w later) c.identities;
      uids =
          Entries-map (λ key uid. Found key uid p.world) (λ key uid. Found key uid w) p.uid_cache
            (λ key uid found raw bytes same.
              keeping.keeps_key raw uid p.world w later (found raw bytes same))
            c.uids;
      skids =
          IsWhole-Later e Registered client Later keeping.keeps_key p.skid_store p.world w later
            c.skids;
    }

    -- The rules of the goroutines that share a `Protocol`.
    abbrev pub protocol_rules : Rules (Protocol W)
    protocol_rules = record {
      Holds = IsCoherent;
      Follows = λ p q. Later p.world q.world;
      stays = λ p. keeping.stays p.world;
      goes_on = λ p q r. keeping.goes_on p.world q.world r.world;
    }
