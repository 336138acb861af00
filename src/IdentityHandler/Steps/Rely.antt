-- ===== src/IdentityHandler/Steps/Rely.antt =====
-- What registrations may rely on: a database in which a row has one UUID, and stays.
use mathlib.Core.List.{Memᴰ}
use ubirch_cose_client_go.Prelude.{◌≡◌, Option, List, [], ◌∷◌, Bytes, arith, All}
use ubirch_cose_client_go.Errors.{ok}
use ubirch_cose_client_go.Context.{Uuid, Identity, commit}
use ubirch_cose_client_go.Libs.{Env}
use ubirch_cose_client_go.Protocol.{open_identity}
use ubirch_cose_client_go.IdentityHandler.{Backend, Setup}
use ubirch_cose_client_go.IdentityHandler.Steps.{in_world}
use ubirch_cose_client_go.Threads.Safety.{Rules}

-- How the world goes on, and what stays true of it: the row of a UUID, of which there is one, and
-- what has been inserted in a transaction. A commit that succeeds makes rows of that, and no call
-- of a registration undoes a row.
pub record IsRegistering {W Tx PublicKey : Type 0} (e : Env W Tx PublicKey) (b : Backend W Tx)
    (Later : W → W → Type 0) (Inserted : Option Tx → Identity → W → Type 0)
    (Row : Uuid → Identity → W → Type 0) : Type 0 where
  pub stays : (w : W) → Later w w
  pub goes_on : (w w' w'' : W) → Later w w' → Later w' w'' → Later w w''
  pub keeps : (uid : Uuid) (id : Identity) (w w' : W) → Later w w' → Row uid id w → Row uid id w'
  pub keeps_inserted :
      (tx : Option Tx) (id : Identity) (w w' : W)
      → Later w w'
      → Inserted tx id w
      → Inserted tx id w'
  pub one : (uid : Uuid) (id id' : Identity) (w : W) → Row uid id w → Row uid id' w → id ≡ id'
  pub inserts :
      (tx : Option Tx) (id : Identity) (w w' : W)
      → e.manager.store_new_identity tx id w ≡ (ok tt, w')
      → Inserted tx id w'
  pub commits :
      (tx : Option Tx) (id : Identity) (w w' : W)
      → Inserted tx id w
      → e.manager.close_transaction tx commit w ≡ (ok tt, w')
      → Row id.uid id w'
  pub starts : (w : W) → Later w (e.manager.start_transaction w).1
  pub stores :
      (tx : Option Tx) (id : Identity) (w : W) → Later w (e.manager.store_new_identity tx id w).1
  pub closes : (tx : Option Tx) (w : W) → Later w (e.manager.close_transaction tx commit w).1
  pub cancels : (tx : Option Tx) (w : W) → Later w (b.cancel tx w)
  pub generates : (w : W) → Later w (e.crypto.generate_key w).1
  pub encrypts : (key : Bytes) (w : W) → Later w (e.encrypter.encrypt key w).1
  pub signs :
      (key : Bytes) (uid : Uuid) (w : W)
      → Later w (e.crypto.get_signed_key_registration key uid w).1
  pub requests :
      (key : Bytes) (uid : Uuid) (country organization : Bytes) (w : W)
      → Later w (e.crypto.get_csr key uid country organization w).1
  pub submits :
      (uid : Uuid) (registration auth : Bytes) (w : W)
      → Later w (b.submit_key_registration uid registration auth w).1

module _ {W Tx PublicKey : Type 0} (e : Env W Tx PublicKey) (b : Backend W Tx)
    (Later : W → W → Type 0) (Inserted : Option Tx → Identity → W → Type 0)
    (Row : Uuid → Identity → W → Type 0) (laws : IsRegistering e b Later Inserted Row) where
  -- The row of a device, and the identity that it opens to.
  pub record Device (uid : Uuid) (w : W) : Type 0 where
    pub given : Identity
    pub identity : Identity
    pub row : Row uid given w
    pub opens : open_identity e given ≡ ok identity

  pub Device-Later : (uid : Uuid) (w w' : W) → Later w w' → Device uid w → Device uid w'
  Device-Later uid w w' later d = record {
    given = d.given;
    identity = d.identity;
    row = laws.keeps uid d.given w w' later d.row;
    opens = d.opens;
  }

  -- A UUID has one device.
  pub Device-unique : (uid : Uuid) (w : W) (d d' : Device uid w) → d.identity ≡ d'.identity
  Device-unique uid w d d' =
      ground (arith, d.opens, d'.opens, laws.one uid d.given d'.given w d.row d'.row)

  -- The devices of the audit log are in the database.
  abbrev pub AreCreated : Setup W → Type 0
  AreCreated s = All (λ uid. Device uid s.protocol.world) s.created

  -- The world goes on, and the audit log keeps its devices.
  abbrev pub GoesOn : Setup W → Setup W → Type 0
  GoesOn s t =
      Later s.protocol.world t.protocol.world
      × ((uid : Uuid) → Memᴰ uid s.created → Memᴰ uid t.created)

  abbrev pub setup_rules : Rules (Setup W)
  setup_rules = record {
    Holds = AreCreated;
    Follows = GoesOn;
    stays = λ s. (laws.stays s.protocol.world, λ uid logged. logged);
    goes_on = λ s t u first second. (
      laws.goes_on s.protocol.world t.protocol.world u.protocol.world first.0 second.0,
      λ uid logged. second.1 uid (first.1 uid logged),
    );
  }

  devices_later :
      (uids : List Uuid) (w w' : W)
      → Later w w'
      → All (λ uid. Device uid w) uids
      → All (λ uid. Device uid w') uids
  devices_later [] w w' later all = tt
  devices_later (uid ∷ uids) w w' later (d, all) =
      (Device-Later uid w w' later d, devices_later uids w w' later all)

  pub in_world-AreCreated :
      (s : Setup W) (w : W) → Later s.protocol.world w → AreCreated s → AreCreated (in_world w s)
  in_world-AreCreated s w later all = devices_later s.created s.protocol.world w later all
