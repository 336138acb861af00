-- ===== src/Service/Verifiable.antt =====
-- What a client can do with the COSE object of a successful answer: read it, and verify it.
use mathlib.Core.Path.{subst, subst₂}
use ubirch_cose_client_go.Prelude.{
  sym, ◌≡◌, refl, inl, inr, true, false, Bool-cases, some, Option, arith, Bytes, bytes_eq, nat_eq,
  bytes_beq_iff, ◌==◌, length, [], ◌∷◌,
}
use ubirch_cose_client_go.Errors.{Result-cases, ok, read_all}
use ubirch_cose_client_go.Dict.{Dict, lookup}
use ubirch_cose_client_go.Context.{Uuid, Identity}
use ubirch_cose_client_go.Cose.{
  Value, CoseSign1, tag, sig_structure, string_map, cose_sign1_tag, cose_sign1_context,
  cose_kid_label,
}
use ubirch_cose_client_go.Libs.{Env, EncMode}
use ubirch_cose_client_go.Protocol.{Protocol, get_identity, get_skid}
use ubirch_cose_client_go.Http.{status_ok, Header, Request, content_type}
use ubirch_cose_client_go.Signer.{
  CoseSigner, cose_sign1, get_cose, get_sig_struct_bytes, get_cbor_from_json, create_signed_cose,
}
use ubirch_cose_client_go.Service.{
  Service, Helpers, hash_len, json_type, cbor_type, is_hash_request, read_body,
  payload_and_hash_of_cbor, get_payload_and_hash_from_data_request, get_payload_and_hash,
  handle_request,
}
use ubirch_cose_client_go.Service.Answers.{Accepted, WritesStatus, handle_request-Accepted}
use ubirch_cose_client_go.Service.Hashes.{Denotes, get_hash-Denotes, hash_request-eq-ok}

-- A decoder that reads back what the encoder wrote.
pub record Reads (mode : EncMode) (decode : Bytes → Option Value) : Type 0 where
  pub decode-marshal : (v : Value) (b : Bytes) → mode.marshal v ≡ ok b → decode b ≡ some v

-- The structure that the signature of a COSE_Sign1 object covers (section 4.4 of the specification).
abbrev pub covered : CoseSign1 → Value
covered cose = sig_structure (record {
  context = cose_sign1_context;
  protected_header = cose.protected;
  external = [];
  payload = cose.payload;
})

module _ {W Tx PublicKey : Type 0} (e : Env W Tx PublicKey) (c : CoseSigner) where
  -- The signature of a hash with `key` verifies with `pem` for the bytes that were hashed.
  pub record KeyPair (key pem : Bytes) : Type 0 where
    pub verify-sign :
        (bytes hash signature : Bytes) (w w' : W)
        → e.go.sum256 bytes ≡ hash
        → e.crypto.sign_hash key hash w ≡ (ok signature, w')
        → e.crypto.verify pem bytes signature ≡ ok true

  -- A COSE object in `body` that names its key and carries a signature of `hash`.
  pub record Carries (decode : Bytes → Option Value) (key hash skid payload body : Bytes) (w : W)
      : Type 0 where
    pub cose : CoseSign1
    pub after : W
    pub decoded : decode body ≡ some (tag cose_sign1_tag cose)
    pub header : cose.protected ≡ c.protected_header
    pub kid : cose.unprotected ≡ (cose_kid_label, skid) ∷ []
    pub content : cose.payload ≡ payload
    pub signed : e.crypto.sign_hash key hash w ≡ (ok cose.signature, after)

  -- What `createSignedCOSE` returns decodes to an object with tag 18, the protected header, the KID,
  -- the payload, and a signature of the hash.
  pub create_signed_cose-Carries :
      (decode : Bytes → Option Value) (key hash skid payload body : Bytes) (w : W)
      → Reads c.enc_mode decode
      → (create_signed_cose e c hash key skid payload w).0 ≡ ok body
      → Carries decode key hash skid payload body w
  unfolding create_signed_cose get_cose
  create_signed_cose-Carries decode key hash skid payload body w reads made =
      let (r, w') = e.crypto.sign_hash key hash w in
      elim (Result-cases r) [
        | inl (x, failed) ↦ ground arith
        | inr (signature, signed) ↦ record {
          cose = cose_sign1 c skid payload signature;
          after = w';
          decoded = reads.decode-marshal _ body (ground arith);
          header = refl;
          kid = refl;
          content = refl;
          signed = ground arith;
        }
      ]

  -- The payload that original data becomes: that of JSON is read as the map of strings that the JSON
  -- is, and CBOR is taken as it is.
  pub data Original (decode : Bytes → Option Value) (header : Header) (body payload : Bytes)
      : Type 0 where
    json :
        (dump : Dict Bytes Bytes)
        → content_type header ≡ json_type
        → e.go.unmarshal_string_map body ≡ ok dump
        → decode payload ≡ some (string_map dump)
        → Original decode header body payload
    cbor : content_type header ≡ cbor_type → payload ≡ body → Original decode header body payload

  json-Original :
      (decode : Bytes → Option Value) (header : Header) (body payload : Bytes)
      → Reads c.enc_mode decode
      → content_type header ≡ json_type
      → get_cbor_from_json e c body ≡ ok payload
      → Original decode header body payload
  unfolding get_cbor_from_json
  json-Original decode header body payload reads is_json made =
      elim (Result-cases (e.go.unmarshal_string_map body)) [
        | inl (x, failed) ↦ ground arith
        | inr (dump, parsed) ↦
            json dump is_json parsed (reads.decode-marshal (string_map dump) payload (ground arith))
      ]

  -- `hash` is that of the structure which a signature over `payload` covers.
  pub record Hashed (payload hash : Bytes) : Type 0 where
    pub to_be_signed : Bytes
    pub encoded : get_sig_struct_bytes c payload ≡ ok to_be_signed
    pub summed : e.go.sum256 to_be_signed ≡ hash

  cbor-eq-ok :
      (body payload hash : Bytes)
      → payload_and_hash_of_cbor e c body ≡ ok (payload, hash)
      → Hashed payload hash × (payload ≡ body)
  unfolding payload_and_hash_of_cbor
  cbor-eq-ok body payload hash h = elim (Result-cases (get_sig_struct_bytes c body)) [
    | inl (x, failed) ↦ ground arith
    | inr (bytes, made) ↦ (
      record { to_be_signed = bytes; encoded = ground arith; summed = ground arith },
      ground arith,
    )
  ]

  -- An accepted request with original data: what its payload is, and that the hash is computed from
  -- the structure over that payload.
  pub data_request-Hashed :
      (decode : Bytes → Option Value) (header : Header) (body payload hash : Bytes)
      → Reads c.enc_mode decode
      → get_payload_and_hash_from_data_request e c header body ≡ ok (payload, hash)
      → Original decode header body payload × Hashed payload hash
  unfolding get_payload_and_hash_from_data_request
  data_request-Hashed decode header body payload hash reads h =
      elim (Bool-cases (content_type header == json_type)) [
        | inl is_json ↦ elim (Result-cases (get_cbor_from_json e c body)) [
          | inl (x, failed) ↦ ground arith
          | inr (encoded, made) ↦
              let (hashed, same) = cbor-eq-ok encoded payload hash (ground arith) in
              (
                json-Original decode header body payload reads ((bytes_beq_iff _ _).0 is_json)
                    (ground arith),
                hashed,
              )
        ]
        | inr not_json ↦ elim (Bool-cases (content_type header == cbor_type)) [
          | inl is_cbor ↦
              let (hashed, same) = cbor-eq-ok body payload hash (ground arith) in
              (cbor ((bytes_beq_iff _ _).0 is_cbor) same, hashed)
          | inr unknown ↦ ground arith
        ]
      ]

  get_payload_and_hash_of_data :
      (r : Request) (payload hash : Bytes)
      → is_hash_request r ≡ false
      → get_payload_and_hash e c r ≡ ok (payload, hash)
      → get_payload_and_hash_from_data_request e c r.header r.body.content ≡ ok (payload, hash)
  unfolding get_payload_and_hash read_body read_all
  get_payload_and_hash_of_data r payload hash to_data h = ground arith

  -- A COSE object that anyone can verify: the structure over its own protected header and payload
  -- is encoded, and its signature verifies for those bytes.
  pub record Verifies (decode : Bytes → Option Value) (pem body : Bytes) (header : Header)
      (original : Bytes) : Type 0 where
    pub cose : CoseSign1
    pub to_be_signed : Bytes
    pub decoded : decode body ≡ some (tag cose_sign1_tag cose)
    pub encoded : c.enc_mode.marshal (covered cose) ≡ ok to_be_signed
    pub verified : e.crypto.verify pem to_be_signed cose.signature ≡ ok true
    pub content : Original decode header original cose.payload

  Accepted-Verifies :
      (h : Helpers) (r : Request) (uid : Uuid) (s : Service W) (body pem : Bytes)
      (decode : Bytes → Option Value)
      → Reads c.enc_mode decode
      → (a : Accepted e c h r uid s body) → KeyPair a.identity.private_key pem
      → is_hash_request r ≡ false
      → Verifies decode pem body r.header r.body.content
  unfolding get_sig_struct_bytes
  Accepted-Verifies h r uid s body pem decode reads a pair to_data =
      let (original, hashed) =
        data_request-Hashed decode r.header r.body.content a.payload a.hash reads
          (get_payload_and_hash_of_data r a.payload a.hash to_data a.read) in
      let made =
        create_signed_cose-Carries decode a.identity.private_key a.hash a.skid a.payload body
          a.protocol.world reads a.made in
      record {
        cose = made.cose;
        to_be_signed = hashed.to_be_signed;
        decoded = made.decoded;
        encoded = rw (made.header, made.content) hashed.encoded;
        verified = pair.verify-sign _ a.hash _ _ _ hashed.summed made.signed;
        content = subst (Original decode r.header r.body.content) (sym made.content) original;
      }

  -- What a 200 for a hash rests on: the hash, which the body of the request stands for, and the KID
  -- of the identity.
  pub record HashSigned (r : Request) (uid : Uuid) (identity : Identity) (p : Protocol W)
      (decode : Bytes → Option Value) (body : Bytes) : Type 0 where
    pub hash : Bytes
    pub skid : Bytes
    pub denotes : Denotes r.header r.body.content hash
    pub size : length hash ≡ hash_len
    pub certified : lookup uid p.skid_store ≡ some skid
    pub carries : Carries decode identity.private_key hash skid r.body.content body p.world

  get_skid-eq-ok :
      (uid : Uuid) (skid : Bytes) (p : Protocol W)
      → get_skid e uid p ≡ ok skid
      → lookup uid p.skid_store ≡ some skid
  unfolding get_skid
  get_skid-eq-ok uid skid p h = ground arith

  Accepted-HashSigned :
      (h : Helpers) (r : Request) (uid : Uuid) (s : Service W) (body : Bytes)
      (decode : Bytes → Option Value)
      → Reads c.enc_mode decode
      → (a : Accepted e c h r uid s body) → is_hash_request r ≡ true
      → HashSigned r uid a.identity a.protocol decode body
  Accepted-HashSigned h r uid s body decode reads a to_hash =
      let (content, hashed) = hash_request-eq-ok e c r a.payload a.hash to_hash a.read in
      let (denotes, size) = get_hash-Denotes e r.header a.payload a.hash hashed in
      record {
        hash = a.hash;
        skid = a.skid;
        denotes = rw content at denotes;
        size = size;
        certified = get_skid-eq-ok uid a.skid a.protocol a.certified;
        carries =
            create_signed_cose-Carries decode a.identity.private_key a.hash a.skid r.body.content
              body a.protocol.world reads (rw content at a.made);
      }

  module _ (h : Helpers) (r : Request) (uid : Uuid) (s : Service W) (identity : Identity)
      (p : Protocol W) where
    -- Where a request with original data is answered 200, the body decodes to a COSE_Sign1 object
    -- whose payload is that data, or, where the data is JSON, decodes to the map of strings that the
    -- JSON is, and whose signature verifies with the identity's key for the structure over the
    -- object's own header and payload. The conditions: the
    -- helper writes the status that it is given, the decoder reads back what the encoder wrote, and
    -- the key verifies what the identity's private key signs.
    pub handle_request-Verifies :
        (pem : Bytes) (decode : Bytes → Option Value)
        → WritesStatus h
        → Reads c.enc_mode decode
        → get_identity e uid s.protocol ≡ (ok identity, p)
        → KeyPair identity.private_key pem
        → is_hash_request r ≡ false
        → (handle_request e c h r uid s).0.status ≡ status_ok
        → Verifies decode pem (handle_request e c h r uid s).0.body r.header r.body.content
    handle_request-Verifies pem decode writes reads known pair to_data fine =
        let a = handle_request-Accepted e c h r uid s writes fine in
        let same : identity ≡ a.identity = cc (known, a.known) in
        Accepted-Verifies h r uid s _ pem decode reads a
          (subst (λ (i : Identity). KeyPair i.private_key pem) same pair) to_data

    -- Where a request with a hash is answered 200, the body decodes to a COSE_Sign1 object whose
    -- KID is the SKID that the store has for the UUID, with the identity's signature of that hash.
    -- Its payload is the body of the request. The helper has to write the status that it is given,
    -- and the decoder to read back what the encoder wrote.
    pub handle_request-HashSigned :
        (decode : Bytes → Option Value)
        → WritesStatus h
        → Reads c.enc_mode decode
        → get_identity e uid s.protocol ≡ (ok identity, p)
        → is_hash_request r ≡ true
        → (handle_request e c h r uid s).0.status ≡ status_ok
        → HashSigned r uid identity p decode (handle_request e c h r uid s).0.body
    handle_request-HashSigned decode writes reads known to_hash fine =
        let a = handle_request-Accepted e c h r uid s writes fine in
        let same : identity ≡ a.identity = cc (known, a.known) in
        let same' : p ≡ a.protocol = cc (known, a.known) in
        subst₂
          (λ (i : Identity) (q : Protocol W).
            HashSigned r uid i q decode (handle_request e c h r uid s).0.body)
          (sym same) (sym same') (Accepted-HashSigned h r uid s _ decode reads a to_hash)
