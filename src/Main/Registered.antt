-- ===== src/Main/Registered.antt =====
-- A device from its registration to its first signature.
use mathlib.Core.Path.{subst}
use ubirch_cose_client_go.Prelude.{
  [], ◌≡◌, refl, ap, sym, ◌∙◌, Option, none, Bytes, arith, nat_eq, bytes_eq,
}
use ubirch_cose_client_go.Dict.{lookup}
use ubirch_cose_client_go.Errors.{ok}
use ubirch_cose_client_go.Context.{Uuid, Identity, commit}
use ubirch_cose_client_go.Libs.{Env}
use ubirch_cose_client_go.Protocol.{
  Protocol, open_identity, fetch_identity_from_storage, retry, get_identity, get_skid,
  close_transaction,
}
use ubirch_cose_client_go.Protocol.Identities.{IsSealing, store_new_identity-Stored}
use ubirch_cose_client_go.IdentityHandler.{IdentityHandler, Backend, Setup, init_identity}
use ubirch_cose_client_go.IdentityHandler.Created.{init_identity-Created}
use ubirch_cose_client_go.Http.{Request, get, status_ok}
use ubirch_cose_client_go.Signer.{CoseSigner, create_signed_cose}
use ubirch_cose_client_go.Service.{
  Service, Helpers, auth_header, get_payload_and_hash, handle_request,
}
use ubirch_cose_client_go.Service.Answers.{WritesStatus, Accepted, Accepted-handle_request}

-- A storage that keeps its rows: what an open transaction holds is not changed by calls of others,
-- is a row behind the commit, and is found.
pub record IsStoring {W Tx PublicKey : Type 0} (e : Env W Tx PublicKey) (b : Backend W Tx)
    (Holds : Option Tx → Identity → W → Type 0) (Row : Identity → W → Type 0) : Type 0 where
  pub stores :
      (tx : Option Tx) (id : Identity) (w w' : W)
      → e.manager.store_new_identity tx id w ≡ (ok tt, w')
      → Holds tx id w'
  pub signs :
      (tx : Option Tx) (id : Identity) (key : Bytes) (uid : Uuid) (w : W)
      → Holds tx id w
      → Holds tx id (e.crypto.get_signed_key_registration key uid w).1
  pub requests :
      (tx : Option Tx) (id : Identity) (key : Bytes) (uid : Uuid) (country organization : Bytes)
      (w : W)
      → Holds tx id w
      → Holds tx id (e.crypto.get_csr key uid country organization w).1
  pub submits :
      (tx : Option Tx) (id : Identity) (uid : Uuid) (registration auth : Bytes) (w : W)
      → Holds tx id w
      → Holds tx id (b.submit_key_registration uid registration auth w).1
  pub commits :
      (tx : Option Tx) (id : Identity) (w w' : W)
      → Holds tx id w
      → e.manager.close_transaction tx commit w ≡ (ok tt, w')
      → Row id w'
  pub cancels : (tx : Option Tx) (id : Identity) (w : W) → Row id w → Row id (b.cancel tx w)
  pub finds : (id : Identity) (w : W) → Row id w → (e.manager.get_identity id.uid w).0 ≡ ok id

-- The public key of a key that was made has a raw form, and PEM is made of it again.
pub record IsConverting {W Tx PublicKey : Type 0} (e : Env W Tx PublicKey) : Type 0 where
  pub converts :
      (key pem : Bytes)
      → e.crypto.get_public_key_from_private_key key ≡ ok pem
      → (raw : Bytes) × (e.crypto.public_key_pem_to_bytes pem ≡ ok raw)
        × (e.crypto.public_key_bytes_to_pem raw ≡ ok pem)

-- Every key signs every hash, and every object is encoded.
pub record IsSigning {W Tx PublicKey : Type 0} (e : Env W Tx PublicKey) (c : CoseSigner)
    : Type 0 where
  pub signs :
      (hash key kid payload : Bytes) (w : W)
      → (body : Bytes) × ((create_signed_cose e c hash key kid payload w).0 ≡ ok body)

module _ {W Tx PublicKey : Type 0} (e : Env W Tx PublicKey) (b : Backend W Tx) (i : IdentityHandler)
    (Holds : Option Tx → Identity → W → Type 0) (Row : Identity → W → Type 0)
    (storing : IsStoring e b Holds Row) (sealing : IsSealing e) (converting : IsConverting e) where
  -- The row of a device, and the identity that it opens to.
  pub record HasRow (uid : Uuid) (auth : Bytes) (w : W) : Type 0 where
    pub given : Identity
    pub identity : Identity
    pub row : Row given w
    pub given_uid : given.uid ≡ uid
    pub token : identity.auth_token ≡ auth
    pub opens : open_identity e given ≡ ok identity

  init_identity-HasRow :
      (uid : Uuid) (auth csr : Bytes) (s s' : Setup W)
      → init_identity e b i uid auth s ≡ (ok csr, s')
      → HasRow uid auth s'.protocol.world
  unfolding close_transaction
  init_identity-HasRow uid auth csr s s' h =
      let (c, _) = init_identity-Created e b i uid auth csr s s' h in
      let id : Identity = record {
        uid = uid;
        private_key = c.private_key;
        public_key = c.public_key;
        auth_token = auth;
      } in
      let (raw, to_raw, to_pem) = converting.converts c.private_key c.public_key c.paired in
      let stored =
        store_new_identity-Stored e c.tx id raw c.w2 c.w3 sealing to_raw to_pem c.stored in
      let g = c.registered in
      let held3 = storing.stores c.tx stored.given stored.before c.w3 stored.stored in
      let held1 =
        subst (Holds c.tx stored.given) (ap (λ t. t.1) g.signed)
          (storing.signs c.tx stored.given c.private_key uid c.w3 held3) in
      let held2 = subst (Holds c.tx stored.given) (ap (λ t. t.1) g.requested) (
        storing.requests c.tx stored.given c.private_key uid i.subject_country
          i.subject_organization g.w1 held1) in
      let held4 =
        subst (Holds c.tx stored.given) (ap (λ t. t.1) g.submitted)
          (storing.submits c.tx stored.given uid g.registration [] g.w2 held2) in
      let there = storing.commits c.tx stored.given c.w4 c.w5 held4 c.committed in
      record {
        given = stored.given;
        identity = id;
        row =
            subst (Row stored.given) (sym c.released)
              (storing.cancels c.tx stored.given c.w5 there);
        given_uid = stored.same_uid;
        token = refl;
        opens = stored.opens;
      }

  fetch-HasRow :
      (uid : Uuid) (auth : Bytes) (p : Protocol W) (r : HasRow uid auth p.world)
      → lookup uid p.identity_cache ≡ none
      → (q : Protocol W) × (get_identity e uid p ≡ (ok r.identity, q))
        × (q.skid_store ≡ p.skid_store)
  unfolding get_identity fetch_identity_from_storage retry
  fetch-HasRow uid auth p r missing =
      let found : (e.manager.get_identity uid p.world).0 ≡ ok r.given =
        subst (λ u. (e.manager.get_identity u p.world).0 ≡ ok r.given) r.given_uid
          (storing.finds r.given p.world r.row) in
      (
        (get_identity e uid p).1,
        ground (arith, missing, found, r.opens),
        ground (arith, missing, found, r.opens),
      )

  -- A device that was registered is served. Once `initIdentity` has returned a CSR, a signing request
  -- for the device, with its token and a body that can be read, is answered 200 by a service that
  -- has an SKID for it, has not cached it, and finds its row. The conditions: the storage keeps rows,
  -- decryption undoes encryption, public keys are converted both ways, signing does not fail, and
  -- the helpers write the status that they are given.
  pub handle_request-init_identity :
      (uid : Uuid) (auth csr : Bytes) (before after : Setup W) (c : CoseSigner) (h : Helpers)
      (s : Service W) (r : Request) (payload hash skid : Bytes)
      → init_identity e b i uid auth before ≡ (ok csr, after)
      → ((id : Identity) → Row id after.protocol.world → Row id s.protocol.world)
      → lookup uid s.protocol.identity_cache ≡ none
      → get_skid e uid s.protocol ≡ ok skid
      → get r.header auth_header ≡ auth
      → get_payload_and_hash e c r ≡ ok (payload, hash)
      → WritesStatus h
      → IsSigning e c
      → (handle_request e c h r uid s).0.status ≡ status_ok
  unfolding get_skid
  handle_request-init_identity uid auth csr before after c h s r payload hash skid made stays
        missing certified token read writes signing =
      let there = init_identity-HasRow uid auth csr before after made in
      let here : HasRow uid auth s.protocol.world = record {
        given = there.given;
        identity = there.identity;
        row = stays there.given there.row;
        given_uid = there.given_uid;
        token = there.token;
        opens = there.opens;
      } in
      let (q, known, same) = fetch-HasRow uid auth s.protocol here missing in
      let (body, signed) = signing.signs hash there.identity.private_key skid payload q.world in
      let accepted : Accepted e c h r uid s body = record {
        identity = there.identity;
        protocol = q;
        payload = payload;
        hash = hash;
        skid = skid;
        known = known;
        authorized = token ∙ sym there.token;
        read = read;
        certified = ground (arith, certified, same);
        made = signed;
      } in
      (Accepted-handle_request e c h r uid s body writes accepted).0
