-- ===== src/Client/Pinning.antt =====
-- What a successful answer over a pinned connection, and a verified list, rest on.
use ubirch_cose_client_go.Prelude.{
  ◌≡◌, refl, true, false, Option, none, some, List, arith, Bytes, bytes_beq_iff, inl, inr,
  Option-cases, bytes_eq,
}
use ubirch_cose_client_go.Codec.Strings.{split_line}
use ubirch_cose_client_go.Codec.Base64
use ubirch_cose_client_go.Dict.{lookup}
use ubirch_cose_client_go.Errors.{Error, ok, err, Result-cases, read_all}
use ubirch_cose_client_go.Libs.{Env, Web, Certificate, ConnectionState, Response}
use ubirch_cose_client_go.Client.{
  ExtendedClient, Verify, new_connection_verifier, get_with_cert_pinning, read_response,
  request_certificate_list, request_certificate_list_public_key,
}

-- The pinned fingerprint is that of the leaf certificate of the connection that the response came
-- over, if that is TLS.
abbrev pub LeafMatches : (Bytes → Bytes) → Bytes → Option ConnectionState → Type 0
LeafMatches sum fingerprint none = Unit
LeafMatches sum fingerprint (some c) = sum c.leaf ≡ fingerprint

-- `crypto/tls` ends a handshake whose `VerifyConnection` returns an error, so a TLS connection
-- with an answer has passed it.
pub record IsChecked {W : Type 0} (web : Web W) : Type 0 where
  pub passed :
      (check : ConnectionState → Option Error) (url : Bytes) (w w' : W) (resp : Response)
      (c : ConnectionState)
      → web.do_get check url w ≡ (ok resp, w')
      → resp.tls ≡ some c
      → check c ≡ none

module _ {W Tx PublicKey : Type 0} (e : Env W Tx PublicKey) (client : ExtendedClient) where
  -- A host with no fingerprint is not asked: the call fails and the world is as before.
  get_with_cert_pinning_unpinned :
      (url host : Bytes) (w : W)
      → e.web.parse_host url ≡ ok host
      → lookup host client.server_tls_cert_fingerprints ≡ none
      → (x : Error) × (get_with_cert_pinning e client url w ≡ (err x, w))
  unfolding get_with_cert_pinning
  get_with_cert_pinning_unpinned url host w parsed missing = rw (parsed, missing) (_, refl)

  -- What an answer that was accepted rests on: `resp` is what the server sent.
  pub record Pinned (url : Bytes) (w w' : W) (body : Bytes) : Type 0 where
    pub host : Bytes
    pub fingerprint : Bytes
    pub resp : Response
    pub parsed : e.web.parse_host url ≡ ok host
    pub known : lookup host client.server_tls_cert_fingerprints ≡ some fingerprint
    pub answered : e.web.do_get (new_connection_verifier e client fingerprint) url w ≡ (ok resp, w')
    pub succeeded : e.web.http_failed resp.status_code ≡ false
    pub read : read_all resp.body ≡ ok body

  read_response-eq-ok :
      (resp : Response) (body : Bytes)
      → read_response e client resp ≡ ok body
      → (e.web.http_failed resp.status_code ≡ false) × (read_all resp.body ≡ ok body)
  unfolding read_response
  read_response-eq-ok resp body h = ground arith

  pub get_with_cert_pinning-eq-ok :
      (url : Bytes) (w w' : W) (body : Bytes)
      → get_with_cert_pinning e client url w ≡ (ok body, w')
      → Pinned url w w' body
  unfolding get_with_cert_pinning
  get_with_cert_pinning-eq-ok url w w' body h = elim (Result-cases (e.web.parse_host url)) [
    | inl (x, failed) ↦ ground arith
    | inr (host, parsed) ↦ elim (Option-cases (lookup host client.server_tls_cert_fingerprints)) [
      | inl missing ↦ ground arith
      | inr (fingerprint, known) ↦
          elim (Result-cases
            (e.web.do_get (new_connection_verifier e client fingerprint) url w).0) [
              | inl (x, failed) ↦ ground arith
              | inr (resp, answered) ↦ record {
                host = host;
                fingerprint = fingerprint;
                resp = resp;
                parsed = parsed;
                known = known;
                answered = ground arith;
                succeeded = ground (arith, read_response-eq-ok resp body);
                read = ground (arith, read_response-eq-ok resp body);
              }
            ]
    ]
  ]

  verifier-eq-none :
      (fingerprint : Bytes) (c : ConnectionState)
      → new_connection_verifier e client fingerprint c ≡ none
      → e.go.sum256 c.leaf ≡ fingerprint
  unfolding new_connection_verifier
  verifier-eq-none fingerprint c h = ground (arith, bytes_beq_iff (e.go.sum256 c.leaf) fingerprint)

  -- If `crypto/tls` shows each connection to the check, an accepted answer is one to a GET of a URL
  -- whose host has a configured fingerprint, and if the answer came over TLS, the leaf certificate of
  -- its connection has the fingerprint of that host, whichever host the client was redirected to.
  -- Nothing is said of the connection of an answer without TLS.
  pub get_with_cert_pinning-LeafMatches :
      (url : Bytes) (w w' : W) (body : Bytes)
      → IsChecked e.web
      → get_with_cert_pinning e client url w ≡ (ok body, w')
      → (p : Pinned url w w' body) × LeafMatches e.go.sum256 p.fingerprint p.resp.tls
  get_with_cert_pinning-LeafMatches url w w' body checked h =
      let p = get_with_cert_pinning-eq-ok url w w' body h in (p, leaf p p.resp.tls refl)
    where
      leaf :
          (p : Pinned url w w' body) (tls : Option ConnectionState)
          → p.resp.tls ≡ tls
          → LeafMatches e.go.sum256 p.fingerprint tls
      leaf p none same = tt
      leaf p (some c) same =
          verifier-eq-none p.fingerprint c (checked.passed _ url w w' p.resp c p.answered same)

  -- What a list that was accepted rests on.
  pub record VerifiedList (verify : Verify) (w w' : W) (certs : List Certificate) : Type 0 where
    pub body : Bytes
    pub key : Bytes
    pub list : Bytes
    pub signature : Bytes
    pub between : W
    pub fetched :
        get_with_cert_pinning e client client.certificate_server_url w ≡ (ok body, between)
    pub split : (split_line body).1 ≡ some list
    pub signed : Base64.decode (split_line body).0 ≡ some signature
    pub keyed :
        get_with_cert_pinning e client client.certificate_server_pub_key_url between ≡ (ok key, w')
    pub verified : verify key list signature ≡ ok true
    pub decoded : e.go.unmarshal_trust_list list ≡ ok certs

  -- A list is returned only with a signature that the fetched key verifies for all of its bytes.
  pub request_certificate_list-VerifiedList :
      (verify : Verify) (w w' : W) (certs : List Certificate)
      → request_certificate_list e client verify w ≡ (ok certs, w')
      → VerifiedList verify w w' certs
  unfolding request_certificate_list request_certificate_list_public_key
  request_certificate_list-VerifiedList verify w w' certs h =
      let (first, w1) = get_with_cert_pinning e client client.certificate_server_url w in
      elim (Result-cases first) [
        | inl (x, failed) ↦ ground arith
        | inr (body, fetched) ↦ elim (Option-cases (split_line body).1) [
          | inl short ↦ ground arith
          | inr (list, cut) ↦
              let (second, w2) =
                get_with_cert_pinning e client client.certificate_server_pub_key_url w1 in
              elim (Result-cases second) [
                | inl (x, failed) ↦ ground arith
                | inr (key, keyed) ↦ elim (Option-cases (Base64.decode (split_line body).0)) [
                  | inl corrupt ↦ ground arith
                  | inr (signature, signed) ↦ record {
                    body = body;
                    key = key;
                    list = list;
                    signature = signature;
                    between = w1;
                    fetched = ground arith;
                    split = cut;
                    signed = signed;
                    keyed = ground arith;
                    verified = ground arith;
                    decoded = ground arith;
                  }
                ]
              ]
        ]
      ]
