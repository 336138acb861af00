-- ===== src/Client/Reached.antt =====
-- How far a request of the certificate list moves the world: through its GETs only.
use ubirch_cose_client_go.Prelude.{inl, inr, Bool-cases, Option, Option-cases, Bytes, bytes_eq}
use ubirch_cose_client_go.Codec.Base64
use ubirch_cose_client_go.Codec.Strings.{split_line}
use ubirch_cose_client_go.Dict.{lookup}
use ubirch_cose_client_go.Errors.{Error, Result-cases}
use ubirch_cose_client_go.Libs.{Env, ConnectionState}
use ubirch_cose_client_go.Client.{
  ExtendedClient, Verify, get_with_cert_pinning, request_certificate_list,
  request_certificate_list_public_key, new_connection_verifier,
}

module _ {W Tx PublicKey : Type 0} (e : Env W Tx PublicKey) (client : ExtendedClient)
    (I : W → Type 0)
    (gets : (check : ConnectionState → Option Error) (url : Bytes) (w : W)
      → I w
      → I (e.web.do_get check url w).1) where
  get_with_cert_pinning_stays :
      (url : Bytes) (w : W) → I w → I (get_with_cert_pinning e client url w).1
  unfolding get_with_cert_pinning
  get_with_cert_pinning_stays url w inv = elim (Result-cases (e.web.parse_host url)) [
    | inl (x, failed) ↦ rw failed inv
    | inr (host, parsed) ↦ elim (Option-cases (lookup host client.server_tls_cert_fingerprints)) [
      | inl unknown ↦ rw (parsed, unknown) inv
      | inr (fingerprint, pinned) ↦ elim (Result-cases (e.web.new_request url)) [
        | inl (x, failed) ↦ rw (parsed, pinned, failed) inv
        | inr (_, made) ↦
            let check = new_connection_verifier e client fingerprint in
            elim (Result-cases (e.web.do_get check url w).0) [
              | inl (x, failed) ↦ rw (parsed, pinned, made, failed) (gets check url w inv)
              | inr (resp, got) ↦ rw (parsed, pinned, made, got) (gets check url w inv)
            ]
      ]
    ]
  ]

  -- What every GET keeps, a request of the list keeps.
  pub request_certificate_list_stays :
      (verify : Verify) (w : W) → I w → I (request_certificate_list e client verify w).1
  unfolding request_certificate_list request_certificate_list_public_key
  request_certificate_list_stays verify w inv =
      let (first, w1) = get_with_cert_pinning e client client.certificate_server_url w in
      let (second, w2) = get_with_cert_pinning e client client.certificate_server_pub_key_url w1 in
      let inv1 = get_with_cert_pinning_stays client.certificate_server_url w inv in
      let inv2 = get_with_cert_pinning_stays client.certificate_server_pub_key_url w1 inv1 in
      elim (Result-cases first) [
        | inl (x, failed) ↦ rw failed inv1
        | inr (body, fetched) ↦ elim (Option-cases (split_line body).1) [
          | inl short ↦ rw (fetched, short) inv1
          | inr (list, cut) ↦ elim (Result-cases second) [
            | inl (x, failed) ↦ rw (fetched, cut, failed) inv2
            | inr (key, keyed) ↦ elim (Option-cases (Base64.decode (split_line body).0)) [
              | inl corrupt ↦ rw (fetched, cut, keyed, corrupt) inv2
              | inr (signature, signed) ↦ elim (Result-cases (verify key list signature)) [
                | inl (x, failed) ↦ rw (fetched, cut, keyed, signed, failed) inv2
                | inr (valid, checked) ↦ elim (Bool-cases valid) [
                  | inl good ↦ rw (fetched, cut, keyed, signed, checked, good) inv2
                  | inr bad ↦ rw (fetched, cut, keyed, signed, checked, bad) inv2
                ]
              ]
            ]
          ]
        ]
      ]
