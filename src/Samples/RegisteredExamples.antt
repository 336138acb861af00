-- ===== src/Samples/RegisteredExamples.antt =====
-- A device that is registered on the small database, and then signs.
use ubirch_cose_client_go.Prelude.{
  ◌≡◌, refl, ap, true, Option, none, some, [], ◌∷◌, Bytes, nat_eq, bytes_eq, bytes_beq,
}
use ubirch_cose_client_go.Codec.Strings.{has_suffix, to_lower}
use ubirch_cose_client_go.Dict.{lookup, insert}
use ubirch_cose_client_go.Errors.{codes, Result, ok, read_all}
use ubirch_cose_client_go.Context.{Identity}
use ubirch_cose_client_go.Libs.{Env}
use ubirch_cose_client_go.Database.{
  insert_identity, end_transaction, begin_transaction, select_identity,
}
use ubirch_cose_client_go.Database.Stored.{on_database}
use ubirch_cose_client_go.Protocol.{
  retry, get_skid, start_transaction, close_transaction, store_new_identity, new_protocol,
  check_identity_attributes_not_nil,
}
use ubirch_cose_client_go.IdentityHandler.{
  Setup, register_public_key, create_in, in_transaction, init_identity,
}
use ubirch_cose_client_go.Http.{get, content_type, status_ok}
use ubirch_cose_client_go.Signer.{create_signed_cose, get_cose, get_sig_struct_bytes}
use ubirch_cose_client_go.Service.{
  Service, auth_header, is_hash_request, read_body, payload_and_hash_of_cbor,
  get_payload_and_hash_from_data_request, get_payload_and_hash, handle_request,
}
use ubirch_cose_client_go.Main.Registered.{
  IsStoring, IsConverting, IsSigning, handle_request-init_identity,
}
use ubirch_cose_client_go.Samples.{World, env, helpers, signer, world, listed, protocol}
use ubirch_cose_client_go.Samples.CoseExamples.{data_request, writes}
use ubirch_cose_client_go.Samples.DatabaseExamples.{sql, table, visible, sealing}
use ubirch_cose_client_go.Samples.SetupExamples.{backend, handler, start}

abbrev e : Env World (Unit {0}) Bytes
e = on_database sql table env

abbrev Holds : Option (Unit {0}) → Identity → World → Type 0
Holds tx id w = w.staged ≡ id ∷ []

abbrev Row : Identity → World → Type 0
Row id w = lookup id.uid w.rows ≡ some id

stores :
    (tx : Option (Unit {0})) (id : Identity) (w w' : World)
    → insert_identity sql table tx id w ≡ (ok tt, w')
    → Holds tx id w'
unfolding insert_identity
stores none id w w' h = cc h
stores (some tx) id w w' h =
    let same : record w { staged = id ∷ [] } ≡ w' = ap (λ (t : Result (Unit {0}) × World). t.1) h in
    rw (← same)

commits :
    (tx : Option (Unit {0})) (id : Identity) (w w' : World)
    → Holds tx id w
    → end_transaction sql table tx true w ≡ (ok tt, w')
    → Row id w'
unfolding end_transaction
commits none id w w' held h = cc h
commits (some tx) id w w' held h =
    visible id w.staged w w' held (ap (λ (t : Result (Unit {0}) × World). t.1) h)

finds : (id : Identity) (w : World) → Row id w → (select_identity sql table id.uid w).0 ≡ ok id
unfolding select_identity
finds id w row = rw row

storing : IsStoring e backend Holds Row
storing = record {
  stores = stores;
  signs = λ tx id key uid w held. held;
  requests = λ tx id key uid country organization w held. held;
  submits = λ tx id uid registration auth w held. held;
  commits = commits;
  cancels = λ tx id w row. row;
  finds = finds;
}

converting : IsConverting e
converting = record {
  converts =
      λ key pem made. let same : b'P' ∷ key ≡ pem = cc made in (key, rw (← same), rw (← same));
}

signing : IsSigning e signer
unfolding create_signed_cose get_cose
signing = record { signs = λ hash key kid payload w. (_, refl) }

abbrev after : Setup World
after = record start {
  protocol = record (start.protocol) { world = world };
  created = 3 ∷ [];
  started = (3, 3 ∷ 5 ∷ []) ∷ [];
}

made : init_identity e backend handler 3 (7 ∷ []) start ≡ (ok (3 ∷ 5 ∷ []), after)
unfolding init_identity in_transaction start_transaction retry create_in store_new_identity
    check_identity_attributes_not_nil register_public_key close_transaction new_protocol
    begin_transaction insert_identity end_transaction insert
made = refl

-- Later the certificate has been listed.
abbrev later : Service World
later = record { protocol = protocol; audit_log = []; signature_creations = 0 }

read : (t : Bytes × Bytes) × (get_payload_and_hash e signer data_request ≡ ok t)
unfolding get_payload_and_hash read_body read_all is_hash_request has_suffix
    get_payload_and_hash_from_data_request content_type to_lower payload_and_hash_of_cbor
    get_sig_struct_bytes get lookup codes bytes_beq
read = (_, refl)

certified : get_skid e 3 protocol ≡ ok listed
unfolding get_skid lookup
certified = refl

token : get data_request.header auth_header ≡ 7 ∷ []
unfolding get lookup codes bytes_beq
token = refl

uncached : lookup 3 protocol.identity_cache ≡ none
unfolding lookup
uncached = refl

handle_request-init_identity_example :
    (handle_request e signer helpers data_request 3 later).0.status ≡ status_ok
handle_request-init_identity_example =
    handle_request-init_identity e backend handler Holds Row storing sealing converting 3 (7 ∷ [])
      (3 ∷ 5 ∷ []) start after signer helpers later data_request read.0.0 read.0.1 listed made
      (λ id row. row) uncached certified token read.1 writes signing
