-- ===== src/Samples/InterleavedExamples.antt =====
-- A request that is answered while the SKIDs are being loaded.
use mathlib.Core.List.{Memᴰ}
use ubirch_cose_client_go.Prelude.{
  get_elem?, some, ℕ, zero, suc, ◌≡◌, refl, List, [], ◌∷◌, arith, nat_eq, bytes_eq, bytes_beq,
}
use ubirch_cose_client_go.Codec.Base64
use ubirch_cose_client_go.Codec.Strings.{has_suffix, to_lower, split_line}
use ubirch_cose_client_go.Dict.{lookup, insert}
use ubirch_cose_client_go.Errors.{codes, error_text, read_all}
use ubirch_cose_client_go.Http.{Written, status_ok, get, content_type, send_response}
use ubirch_cose_client_go.Signer.{create_signed_cose, get_cose, get_sig_struct_bytes}
use ubirch_cose_client_go.Client.{
  request_certificate_list, request_certificate_list_public_key, get_with_cert_pinning,
  new_connection_verifier,
}
use ubirch_cose_client_go.Protocol.{
  Interval, new_protocol, open_identity, check_identity_attributes_not_nil, get_skid,
  set_skid_store, is_connection_not_available,
}
use ubirch_cose_client_go.Service.{
  check_auth, get_payload_and_hash, read_body, is_hash_request,
  get_payload_and_hash_from_data_request, payload_and_hash_of_cbor,
}
use ubirch_cose_client_go.Threads.{returned, forward, advance, calling, focus}
use ubirch_cose_client_go.Protocol.Steps.{
  get_identity_steps, fetch_identity_steps, retry_steps, load_skids_steps, load_certs_steps,
  get_uuid_steps, uuid_steps, get_skid_steps,
}
use ubirch_cose_client_go.Service.Steps.{
  direct_uuid_steps, handle_request_steps, serve_identity_steps, sign_steps,
}
use ubirch_cose_client_go.Service.Steps.Granted.{Granted, IsCoherentService}
use ubirch_cose_client_go.Main.Interleaved.{
  Done, answered, Running, accept, turn, load, Reach, here, onward,
}
use ubirch_cose_client_go.Main.Interleaved.Answered.{Turns, Turns-returned}
use ubirch_cose_client_go.Main.Interleaved.Safe.{Reach-Granted, Reach-IsCoherentService}
use ubirch_cose_client_go.Threads.Bounded.{meeting}
use ubirch_cose_client_go.Protocol.Steps.Bounded.{listed, meeting-load_skids}
use ubirch_cose_client_go.Samples.{World, client, helpers, signer, world, protocol}
use ubirch_cose_client_go.Samples.CoseExamples.{data_request, writes}
use ubirch_cose_client_go.Samples.BootExamples.{success_test}
use ubirch_cose_client_go.Samples.KeptRows.{e, Row, Registered, Later, keeping}

abbrev every_hour : Interval
every_hour = record { cert_load_interval = 60; max_cert_load_fail_count = 3 }

-- The next step is one of the first handler, or of the loader.
data Turn : Type 0 where
  handler loader : Turn

record Run : Type 0 where
  last : Running World
  reach : Reach e client every_hour signer helpers Later world last

abbrev step : Turn → Run → Run
step handler r = record { last = _; reach = onward r.reach (turn 0) }
step loader r = record { last = _; reach = onward r.reach load }

abbrev steps : List Turn → Run → Run
steps [] r = r
steps (t ∷ turns) r = steps turns (step t r)

abbrev accepted : Run
accepted = record { last = _; reach = onward here (accept data_request) }

-- The handler has its identity before the SKIDs are there, and asks for the SKID behind that.
abbrev served : Run
served =
    steps
      (handler ∷ loader ∷ handler ∷ loader ∷ loader ∷ loader ∷ handler ∷ loader ∷ loader ∷ handler
        ∷ handler ∷ handler ∷ handler ∷ handler ∷ [])
      accepted

abbrev written : Written
written = record {
  status = status_ok;
  header = [];
  body =
      0 ∷ 18 ∷ 4 ∷ 3 ∷ 2 ∷ 1 ∷ 6 ∷ 8 ∷ 1 ∷ 2 ∷ 3 ∷ 4 ∷ 5 ∷ 6 ∷ 7 ∷ 8 ∷ 1 ∷ 42 ∷ 5 ∷ 1 ∷ 10 ∷ 83
      ∷ 105 ∷ 103 ∷ 110 ∷ 97 ∷ 116 ∷ 117 ∷ 114 ∷ 101 ∷ 49 ∷ 3 ∷ 2 ∷ 1 ∷ 6 ∷ 0 ∷ 42 ∷ [];
}

has_answered : Memᴰ (returned (answered data_request written)) served.last.handlers
unfolding advance forward calling focus direct_uuid_steps handle_request_steps get_identity_steps
    fetch_identity_steps retry_steps open_identity check_identity_attributes_not_nil lookup insert
    load_skids_steps load_certs_steps get_uuid_steps uuid_steps new_protocol
    request_certificate_list get_with_cert_pinning serve_identity_steps sign_steps get_skid_steps
    get_skid create_signed_cose get_cose send_response check_auth get get_payload_and_hash read_body
    read_all is_hash_request has_suffix get_payload_and_hash_from_data_request content_type to_lower
    payload_and_hash_of_cbor get_sig_struct_bytes codes bytes_beq split_line Base64.decode
    request_certificate_list_public_key new_connection_verifier Base64.encode set_skid_store
    is_connection_not_available error_text
has_answered = Memᴰ.head refl

Reach-Granted_example :
    Granted e client Later Row Registered signer helpers data_request written served.last.service
Reach-Granted_example =
    Reach-Granted e client Later Row Registered keeping signer helpers writes success_test
      every_hour world served.last data_request written served.reach has_answered

Reach-IsCoherentService_example :
    IsCoherentService e client Later Row Registered signer served.last.service
Reach-IsCoherentService_example =
    Reach-IsCoherentService e client Later Row Registered keeping signer helpers writes success_test
      every_hour world served.last served.reach

-- A step of the loader, and then the handler's turns in a row.
abbrev in_a_row :
    (k : ℕ)
    → (t : Running World) × Turns e client every_hour signer helpers Later 0 accepted.last k t
in_a_row zero = (_, Turns.other Turns.begin load)
in_a_row (suc k) = (_, Turns.own (in_a_row k).1)

Turns-returned_example : (d : Done) × (get_elem? (in_a_row 12).0.handlers 0 ≡ some (returned d))
Turns-returned_example =
    Turns-returned e client every_hour signer helpers Later world accepted.last (in_a_row 12).0 0
      accepted.reach (omega arith) (in_a_row 12).1

copies : {A : Type 0} → ℕ → A → List A
copies zero a = []
copies (suc n) a = a ∷ copies n a

one_listed : listed e (request_certificate_list e client e.crypto.verify world).0 ≡ 1
unfolding request_certificate_list get_with_cert_pinning lookup bytes_beq read_all split_line
    Base64.decode request_certificate_list_public_key new_connection_verifier Base64.encode
one_listed = refl

meeting-load_skids_example :
    meeting (protocol ∷ copies 9 protocol) (load_skids_steps e client every_hour) ≡ returned tt
unfolding copies
meeting-load_skids_example =
    meeting-load_skids e client every_hour protocol (copies 9 protocol) (omega (arith, one_listed))
