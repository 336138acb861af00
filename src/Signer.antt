-- ===== src/Signer.antt =====
-- cose_signer.go: the COSE_Sign1 object of a payload, and the structure that is signed.
use ubirch_cose_client_go.Prelude.{[], ◌∷◌, Bytes}
use ubirch_cose_client_go.Errors.{Result, ok, err, error_text, wrap, Exec, lift, ◌>>=◌}
use ubirch_cose_client_go.Cose.{
  cose_alg_label, cose_es256_id, cose_kid_label, cose_sign1_tag, cose_sign1_context, CoseSign1,
  int_map, tag, sig_structure, string_map,
}
use ubirch_cose_client_go.Libs.{Env, EncMode}
use ubirch_cose_client_go.Protocol.{Protocol, get_skid}
use ubirch_cose_client_go.Http.{
  HttpRequest, HttpResponse, status_ok, status_bad_request, status_internal_server_error,
  error_response,
}

-- The fields of `CoseSigner` beside its `Protocol`.
pub record CoseSigner : Type 0 where
  pub enc_mode : EncMode
  pub protected_header : Bytes

-- the object that `getCOSE` encodes
abbrev pub cose_sign1 : CoseSigner → Bytes → Bytes → Bytes → CoseSign1
cose_sign1 c kid payload signature = record {
  protected = c.protected_header;
  unprotected = (cose_kid_label, kid) ∷ [];
  payload = payload;
  signature = signature;
}

unfoldable pub get_cose : CoseSigner → Bytes → Bytes → Bytes → Result Bytes
get_cose c kid payload signature =
    c.enc_mode.marshal (tag cose_sign1_tag (cose_sign1 c kid payload signature))

unfoldable pub get_sig_struct_bytes : CoseSigner → Bytes → Result Bytes
get_sig_struct_bytes c payload = c.enc_mode.marshal (
    sig_structure (record {
      context = cose_sign1_context;
      protected_header = c.protected_header;
      external = [];
      payload = payload;
    }))

-- the two answers of `Sign` behind the lookup of the SKID
abbrev pub answer : Result Bytes → HttpResponse
answer (err x) = error_response status_internal_server_error []
answer (ok cose) = record { status_code = status_ok; header = []; content = cose }

module _ {W Tx PublicKey : Type 0} (e : Env W Tx PublicKey) where
  -- with the canonical options
  abbrev init_cbor_enc_mode : Result EncMode
  init_cbor_enc_mode = e.cbor

  unfoldable pub new_cose_signer : Result CoseSigner
  new_cose_signer = elim init_cbor_enc_mode [
    | err x ↦ err x
    | ok enc_mode ↦ elim (enc_mode.marshal (int_map ((cose_alg_label, cose_es256_id) ∷ []))) [
      | err x ↦ err x
      | ok header ↦ ok (record { enc_mode = enc_mode; protected_header = header })
    ]
  ]

  unfoldable pub get_cbor_from_json : CoseSigner → Bytes → Result Bytes
  get_cbor_from_json c body = elim (e.go.unmarshal_string_map body) [
    | err x ↦ err (wrap "unable to parse JSON request body" x)
    | ok dump ↦ c.enc_mode.marshal (string_map dump)
  ]

  unfoldable pub create_signed_cose : CoseSigner → Bytes → Bytes → Bytes → Bytes → Exec W Bytes
  create_signed_cose c hash private_key_pem kid payload = do
    signature ← e.crypto.sign_hash private_key_pem hash
    lift (get_cose c kid payload signature)

  unfoldable pub sign : CoseSigner → HttpRequest → Bytes → Protocol W → HttpResponse × Protocol W
  sign c msg private_key_pem p = elim (get_skid e msg.id p) [
    | err x ↦ (error_response status_bad_request (error_text x), p)
    | ok skid ↦
        let (r, w) = create_signed_cose c msg.hash private_key_pem skid msg.payload p.world in
        (answer r, record p { world = w })
  ]
