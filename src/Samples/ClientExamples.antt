-- ===== src/Samples/ClientExamples.antt =====
-- The certificate list, and the SKIDs that are loaded from it, in the small world.
use mathlib.Core.Option.{or_else}
use ubirch_cose_client_go.Prelude.{
  ◌≡◌, refl, ap, true, false, none, some, [], ◌∷◌, ◌++◌, arith, Bytes, bytes_beq, bytes_eq, nat_eq,
  List, Option, Option-cases, inl, inr,
}
use ubirch_cose_client_go.Codec.Base64
use ubirch_cose_client_go.Codec.Base64.{decode-encode}
use ubirch_cose_client_go.Codec.Strings.{split_line}
use ubirch_cose_client_go.Dict.{lookup, Entries, insert-Entries, Entries-lookup}
use ubirch_cose_client_go.Errors.{Error, ok, err, Result, read_all, Result-cases}
use ubirch_cose_client_go.Context.{Uuid}
use ubirch_cose_client_go.Libs.{Env, Certificate, ConnectionState, Response}
use ubirch_cose_client_go.Client.{
  ExtendedClient, new_connection_verifier, get_with_cert_pinning, request_certificate_list,
  request_certificate_list_public_key,
}
use ubirch_cose_client_go.Client.Pinning.{
  IsChecked, LeafMatches, Pinned, VerifiedList, get_with_cert_pinning-LeafMatches,
  request_certificate_list-VerifiedList,
}
use ubirch_cose_client_go.Protocol.{
  Protocol, set_interval, new_protocol, get_identity, load_skids, get_uuid_for_public_key,
  uuid_for_raw_key, fetch_uuid_for_public_key_from_storage, retry,
}
use ubirch_cose_client_go.Protocol.Skids.{
  loads, loads-AllFail, IsStable, skid_for, lookup-load_skids,
}
use ubirch_cose_client_go.Protocol.Invariant.{IsValid, here, next, load, get, Reach-IsValid}
use ubirch_cose_client_go.Samples.{World, env, client, world, protocol, listed, list_url}

passed_by :
    (check : ConnectionState → Option Error) (url : Bytes) (verdict : Option Error) (w w' : World)
    (resp : Response) (c : ConnectionState)
    → check (record { leaf = url; chain = [] }) ≡ verdict
    → env.web.do_get check url w ≡ (ok resp, w')
    → resp.tls ≡ some c
    → check c ≡ none
passed_by check url none w w' resp c same answered tls = cc (rw same at answered, same, tls)
passed_by check url (some x) w w' resp c same answered tls = cc (rw same at answered)

checked : IsChecked env.web
checked = record {
  passed = λ check url w w' resp c answered tls.
      passed_by check url (check (record { leaf = url; chain = [] })) w w' resp c refl answered tls;
}

abbrev signature : Bytes
signature = 9 ∷ listed

abbrev body : Bytes
body = Base64.encode signature ++ (10 ∷ listed)

list_fetched : get_with_cert_pinning env client list_url world ≡ (ok body, world)
unfolding get_with_cert_pinning lookup bytes_beq new_connection_verifier read_all
list_fetched = refl

get_with_cert_pinning-LeafMatches_example :
    (p : Pinned env client list_url world world body) × LeafMatches env.go.sum256 p.fingerprint
      p.resp.tls
get_with_cert_pinning-LeafMatches_example =
    get_with_cert_pinning-LeafMatches env client list_url world world body checked list_fetched

abbrev certs : List Certificate
certs = record { kid = listed; raw_data = 5 ∷ [] } ∷ []

signature_read : Base64.decode (Base64.encode signature) ≡ some signature
signature_read = decode-encode signature (ground arith)

loaded : request_certificate_list env client env.crypto.verify world ≡ (ok certs, world)
unfolding request_certificate_list request_certificate_list_public_key get_with_cert_pinning lookup
    bytes_beq new_connection_verifier read_all split_line Base64.encode
loaded = rw signature_read

request_certificate_list-VerifiedList_example :
    VerifiedList env client env.crypto.verify world world certs
request_certificate_list-VerifiedList_example =
    request_certificate_list-VerifiedList env client env.crypto.verify world world certs loaded

-- A client with no fingerprints gets no list. Its third failure in a row clears the store.
abbrev lost : ExtendedClient
lost = record client { server_tls_cert_fingerprints = [] }

failed :
    (x : Error) × ((request_certificate_list env lost env.crypto.verify protocol.world).0 ≡ err x)
unfolding request_certificate_list get_with_cert_pinning lookup
failed = (_, refl)

loads-AllFail_example :
    ((loads env lost (set_interval false) 1 protocol).cert_load_fail_counter ≡ 3)
    × ((loads env lost (set_interval false) 1 protocol).skid_store ≡ [])
unfolding set_interval
loads-AllFail_example = loads-AllFail env lost (set_interval false) 1 protocol (failed, tt)

Reach-IsValid_example :
    IsValid (get_identity env 3 (load_skids env client (set_interval true) (new_protocol world))).1
Reach-IsValid_example =
    Reach-IsValid env client (set_interval true) world _ (next (next here load) (get 3))

-- The small world, where every key belongs to the identity 3.
abbrev owned : Env World (Unit {0}) Bytes
owned = record env {
  manager = record (env.manager) { get_uuid_for_public_key = λ raw w. (ok 3, w) };
}

abbrev AllForThree : Protocol World → Type 0
AllForThree p = Entries (λ (key : Bytes) (uid : Uuid). uid ≡ 3) p.uid_cache

abbrev registry : Bytes → Result Uuid
registry pem = elim (env.crypto.public_key_pem_to_bytes pem) [ err x ↦ err x | ok raw ↦ ok 3 ]

by_lookup :
    (raw : Bytes) (p : Protocol World)
    → AllForThree p
    → ((uuid_for_raw_key owned raw p).0 ≡ ok 3) × AllForThree (uuid_for_raw_key owned raw p).1
unfolding uuid_for_raw_key fetch_uuid_for_public_key_from_storage retry
by_lookup raw p inv = elim (Option-cases (lookup (Base64.encode raw) p.uid_cache)) [
  | inl miss ↦
      rw (miss, uuid_for_raw_key)
        (refl, insert-Entries _ (Base64.encode raw) 3 p.uid_cache refl inv)
  | inr (uid, hit) ↦
      rw (hit, uuid_for_raw_key)
        (
          ap ok (
              Entries-lookup (λ (key : Bytes) (uid : Uuid). uid ≡ 3) (Base64.encode raw) uid
                p.uid_cache inv hit),
          inv,
        )
]

by_pem :
    (pem : Bytes) (p : Protocol World)
    → AllForThree p
    → ((get_uuid_for_public_key owned pem p).0 ≡ registry pem)
      × AllForThree (get_uuid_for_public_key owned pem p).1
unfolding get_uuid_for_public_key
by_pem pem p inv = elim (Result-cases (env.crypto.public_key_pem_to_bytes pem)) [
  | inl (x, bad) ↦ rw (bad, registry) (refl, inv)
  | inr (raw, to_raw) ↦ rw (to_raw, registry) (by_lookup raw p inv)
]

stable : IsStable owned AllForThree registry
stable = record {
  answers = λ pem p inv. (by_pem pem p inv).0;
  keeps = λ pem p inv. (by_pem pem p inv).1;
}

lookup-load_skids_example :
    ((load_skids owned client (set_interval true) protocol).cert_load_fail_counter ≡ 0)
    × (lookup 3 (load_skids owned client (set_interval true) protocol).skid_store ≡ some listed)
unfolding skid_for or_else request_certificate_list get_with_cert_pinning
    request_certificate_list_public_key new_connection_verifier
lookup-load_skids_example =
    lookup-load_skids owned stable client (set_interval true) 3 certs protocol world loaded tt
