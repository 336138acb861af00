-- ===== src/Protocol.antt =====
-- protocol.go, and `isConnectionNotAvailable` of database.go. Methods that reach the caches or the
-- SKID store change a `Protocol`; those that only call the context manager change the world.
pub mod Retry
pub mod Identities
pub mod UidCache
pub mod Skids
pub mod Invariant
pub mod Steps
use ubirch_cose_client_go.Prelude.{
  String, ℕ, zero, suc, ◌+◌, Bool, true, false, not, ◌||◌, Option, none, some, List, [], ◌∷◌, ◌++◌,
  Bytes, ◌==◌, nat_eq, bytes_eq, length, if◌then◌else◌,
}
use ubirch_cose_client_go.Codec.Base64
use ubirch_cose_client_go.Dict.{Dict, lookup, insert}
use ubirch_cose_client_go.Errors.{
  Error, not_exist, text, error_text, codes, Result, ok, err, Exec, pure, lift, ◌>>=◌, ◌>>◌,
}
use ubirch_cose_client_go.Context.{Uuid, uuid_nil, Identity, ContextManager}
use ubirch_cose_client_go.Libs.{Env, Certificate}
use ubirch_cose_client_go.Client.{ExtendedClient, request_certificate_list}

abbrev pub skid_len : ℕ
skid_len = 8

abbrev pub max_db_conn_attempts : ℕ
max_db_conn_attempts = 5

-- `certLoadInterval`, in minutes, and `maxCertLoadFailCount`
pub record Interval : Type 0 where
  pub cert_load_interval : ℕ
  pub max_cert_load_fail_count : ℕ

unfoldable pub set_interval : Bool → Interval
set_interval true = record { cert_load_interval = 1; max_cert_load_fail_count = 60 }
set_interval false = record { cert_load_interval = 60; max_cert_load_fail_count = 3 }

-- The fields of `Protocol` that change, with the state of all that it calls.
pub record Protocol (W : Type 0) : Type 0 where
  pub world : W
  pub identity_cache : Dict Uuid Identity
  pub uid_cache : Dict Bytes Uuid
  pub skid_store : Dict Uuid Bytes
  pub cert_load_fail_counter : ℕ

-- `NewProtocol`, before its goroutine has run
unfoldable pub new_protocol : {W : Type 0} → W → Protocol W
new_protocol w = record {
  world = w;
  identity_cache = [];
  uid_cache = [];
  skid_store = [];
  cert_load_fail_counter = 0;
}

-- A call of something that sees only the world.
abbrev pub on_world : {W A : Type 0} → Exec W A → Exec (Protocol W) A
on_world m p = let (r, w) = m p.world in (r, record p { world = w })

-- What a Go function returns beside an error that ends the loop at once.
abbrev zero_identity : Identity
zero_identity = record { uid = uuid_nil; private_key = []; public_key = []; auth_token = [] }

-- the three returns of `Exists`
abbrev pub known : Result Identity → Result Bool
known (ok id) = ok true
known (err not_exist) = ok false
known (err x) = err x

-- the end of the body of the loop over the certificates
abbrev pub matched : Bytes → Result Uuid → Dict Uuid Bytes → Dict Uuid Bytes
matched kid (err x) store = store
matched kid (ok uid) store = if not (length kid == skid_len) then store else insert uid kid store

module _ {W Tx PublicKey : Type 0} (e : Env W Tx PublicKey) where
  unfoldable pub is_connection_not_available : Error → Bool
  is_connection_not_available x =
      error_text x == e.pq_error_name (codes "53300")
      || error_text x == e.pq_error_name (codes "53400")

  abbrev pub is_transient : {A : Type 0} → Result A → Bool
  is_transient (ok a) = false
  is_transient (err x) = is_connection_not_available x

  -- for i := 0; i < attempts; i++ { last, err = m(); if transient { continue }; break }
  unfoldable pub retry : {A : Type 0} → ℕ → Exec W A → Result A → Exec W A
  retry zero m last w = (last, w)
  retry (suc n) m last w =
      let (r, w') = m w in elim (is_transient r) [ true ↦ retry n m r w' | false ↦ (r, w') ]

  unfoldable pub start_transaction : Exec W (Option Tx)
  start_transaction = retry max_db_conn_attempts e.manager.start_transaction (ok none)

  unfoldable pub close : Protocol W → Protocol W
  close p = record p { world = e.manager.close p.world }

  unfoldable pub close_transaction : Option Tx → Bool → Exec W (Unit {0})
  close_transaction = e.manager.close_transaction

  unfoldable pub check_identity_attributes_not_nil : Identity → Result (Unit {0})
  check_identity_attributes_not_nil i =
      if i.uid == uuid_nil
      then err (text (codes "uuid has Nil value: " ++ e.go.uuid_string i.uid))
      else if length i.private_key == 0
      then err (text (codes "empty private key"))
      else if length i.public_key == 0
      then err (text (codes "empty public key"))
      else if length i.auth_token == 0
      then err (text (codes "empty auth token"))
      else ok tt

  unfoldable pub store_new_identity : Option Tx → Identity → Exec W (Unit {0})
  store_new_identity tx id = do
    lift (check_identity_attributes_not_nil id)
    encrypted ← e.encrypter.encrypt id.private_key
    raw ← lift (e.crypto.public_key_pem_to_bytes id.public_key)
    e.manager.store_new_identity tx (record id { private_key = encrypted; public_key = raw })

  -- the part of `fetchIdentityFromStorage` behind the loop
  unfoldable pub open_identity : Identity → Result Identity
  open_identity id = elim (e.encrypter.decrypt id.private_key) [
    | err x ↦ err x
    | ok decrypted ↦ elim (e.crypto.public_key_bytes_to_pem id.public_key) [
      | err x ↦ err x
      | ok pem ↦
          let opened : Identity = record id { private_key = decrypted; public_key = pem } in
          elim (check_identity_attributes_not_nil opened) [ err x ↦ err x | ok _ ↦ ok opened ]
    ]
  ]

  unfoldable pub fetch_identity_from_storage : Uuid → Exec W Identity
  unfolding open_identity
  fetch_identity_from_storage uid = do
    id ← retry max_db_conn_attempts (e.manager.get_identity uid) (ok zero_identity)
    lift (open_identity id)

  unfoldable pub cache_identity : Uuid → Identity → Exec (Protocol W) Identity
  cache_identity uid id p = (ok id, record p { identity_cache = insert uid id p.identity_cache })

  unfoldable pub get_identity : Uuid → Exec (Protocol W) Identity
  unfolding cache_identity
  get_identity uid p = elim (lookup uid p.identity_cache) [
    | some id ↦ (ok id, p)
    | none ↦ (on_world (fetch_identity_from_storage uid) >>= cache_identity uid) p
  ]

  unfoldable pub fetch_uuid_for_public_key_from_storage : Bytes → Exec W Uuid
  fetch_uuid_for_public_key_from_storage raw =
      retry max_db_conn_attempts (e.manager.get_uuid_for_public_key raw) (ok uuid_nil)

  unfoldable pub cache_uid : Bytes → Uuid → Exec (Protocol W) Uuid
  cache_uid key uid p = (ok uid, record p { uid_cache = insert key uid p.uid_cache })

  unfoldable pub uuid_for_raw_key : Bytes → Exec (Protocol W) Uuid
  unfolding cache_uid
  uuid_for_raw_key raw p = elim (lookup (Base64.encode raw) p.uid_cache) [
    | some uid ↦ (ok uid, p)
    | none ↦
        (on_world (fetch_uuid_for_public_key_from_storage raw) >>= cache_uid (Base64.encode raw)) p
  ]

  unfoldable pub get_uuid_for_public_key : Bytes → Exec (Protocol W) Uuid
  get_uuid_for_public_key pem = do
    raw ← lift (e.crypto.public_key_pem_to_bytes pem)
    uuid_for_raw_key raw

  unfoldable pub exists : Uuid → Exec (Protocol W) Bool
  exists uid p = let (r, p') = get_identity uid p in (known r, p')

  unfoldable pub get_skid : Uuid → Protocol W → Result Bytes
  get_skid uid p = elim (lookup uid p.skid_store) [
    | none ↦ err (
        text (
          codes "SKID unknown for identity "
          ++ e.go.uuid_string uid
          ++ codes " (missing X.509 public key certificate)"))
    | some skid ↦ ok skid
  ]

  unfoldable pub set_skid_store : Dict Uuid Bytes → Protocol W → Protocol W
  set_skid_store store p = record p { skid_store = store }

  -- the body of the loop over the certificates
  unfoldable pub load_cert :
      Certificate → Dict Uuid Bytes → Protocol W → Dict Uuid Bytes × Protocol W
  load_cert cert store p = elim (e.go.parse_certificate cert.raw_data) [
    | err x ↦ (store, p)
    | ok public_key ↦ elim (e.crypto.encode_public_key public_key) [
      | err x ↦ (store, p)
      | ok pem ↦ let (r, p') = get_uuid_for_public_key pem p in (matched cert.kid r store, p')
    ]
  ]

  unfoldable pub load_certs :
      List Certificate → Dict Uuid Bytes → Protocol W → Dict Uuid Bytes × Protocol W
  load_certs [] store p = (store, p)
  load_certs (cert ∷ certs) store p =
      let (store', p') = load_cert cert store p in load_certs certs store' p'

  unfoldable pub replace_skids : List Certificate → Protocol W → Protocol W
  unfolding set_skid_store
  replace_skids certs p = let (store, p') = load_certs certs [] p in set_skid_store store p'

  module _ (client : ExtendedClient) (interval : Interval) where
    abbrev loaded : Result (List Certificate) → Protocol W → Protocol W
    loaded (err x) p =
        let failed : Protocol W = record p {
          cert_load_fail_counter = p.cert_load_fail_counter + 1;
        } in
        if not (failed.cert_load_fail_counter == interval.max_cert_load_fail_count)
        then failed
        else replace_skids [] failed
    loaded (ok certs) p = replace_skids certs (record p { cert_load_fail_counter = 0 })

    unfoldable pub load_skids : Protocol W → Protocol W
    unfolding replace_skids
    load_skids p =
        let (r, w) = request_certificate_list e client e.crypto.verify p.world in
        loaded r (record p { world = w })

-- A `Protocol` is a context manager over another.
abbrev pub protocol_manager :
    {W Tx PublicKey : Type 0} → Env W Tx PublicKey → ContextManager (Protocol W) Tx
protocol_manager e = record {
  start_transaction = on_world (start_transaction e);
  close_transaction = λ tx commit. on_world (close_transaction e tx commit);
  store_new_identity = λ tx id. on_world (store_new_identity e tx id);
  get_identity = get_identity e;
  get_uuid_for_public_key = get_uuid_for_public_key e;
  close = close e;
}
