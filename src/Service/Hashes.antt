-- ===== src/Service/Hashes.antt =====
-- The hash of a request to the `/hash` endpoint, and what becomes the payload beside it.
use ubirch_cose_client_go.Prelude.{
  ap, sym, ◌∙◌, ◌<◌, ◌↔◌, ◌≡◌, ◌≢◌, refl, inl, inr, true, false, Bool-cases, Option-cases, some,
  arith, Bytes, bytes_eq, bytes_beq, bytes_beq_iff, nat_beq_iff, nat_eq, ◌==◌, length,
}
use ubirch_cose_client_go.Codec.Base64
use ubirch_cose_client_go.Codec.Base64.{IsByte, decode-encode}
use ubirch_cose_client_go.Codec.Hex
use ubirch_cose_client_go.Errors.{codes, Result-cases, ok, read_all}
use ubirch_cose_client_go.Libs.{Env}
use ubirch_cose_client_go.Http.{Header, Request, content_type, content_encoding}
use ubirch_cose_client_go.Signer.{CoseSigner}
use ubirch_cose_client_go.Service.{
  text_type, bin_type, hex_encoding, hash_len, is_hash_request, read_body, hash_of_bytes,
  get_hash_from_hash_request, get_payload_and_hash,
}

hash_of_bytes-eq-ok :
    (body hash : Bytes) → hash_of_bytes body ≡ ok hash → (body ≡ hash) × (length hash ≡ hash_len)
unfolding hash_of_bytes
hash_of_bytes-eq-ok body hash h = ground (arith, nat_beq_iff (length body) hash_len)

hash_of_bytes_fits : (hash : Bytes) → length hash ≡ hash_len → hash_of_bytes hash ≡ ok hash
unfolding hash_of_bytes
hash_of_bytes_fits hash h = ground (arith, nat_beq_iff (length hash) hash_len)

-- How a body stands for a hash, by the content type and the transfer encoding of its request.
pub data Denotes (header : Header) (body hash : Bytes) : Type 0 where
  binary : content_type header ≡ bin_type → body ≡ hash → Denotes header body hash
  hex :
      content_type header ≡ text_type
      → content_encoding header ≡ hex_encoding
      → Hex.decode body ≡ some hash
      → Denotes header body hash
  base64 :
      content_type header ≡ text_type
      → content_encoding header ≢ hex_encoding
      → Base64.decode body ≡ some hash
      → Denotes header body hash

text-ne-bin : bytes_beq bin_type text_type ≡ false
unfolding bytes_beq codes
text-ne-bin = refl

module _ {W Tx PublicKey : Type 0} (e : Env W Tx PublicKey) where
  pub get_hash-Denotes :
      (header : Header) (body hash : Bytes)
      → get_hash_from_hash_request e header body ≡ ok hash
      → Denotes header body hash × (length hash ≡ hash_len)
  unfolding get_hash_from_hash_request
  get_hash-Denotes header body hash h = elim (Bool-cases (content_type header == text_type)) [
    | inl is_text ↦ elim (Bool-cases (content_encoding header == hex_encoding)) [
      | inl is_hex ↦ elim (Option-cases (Hex.decode body)) [
        | inl failed ↦ ground arith
        | inr (raw, decoded) ↦
            let (same, fits) = hash_of_bytes-eq-ok raw hash (ground arith) in
            (
              hex ((bytes_beq_iff _ _).0 is_text) ((bytes_beq_iff _ _).0 is_hex)
                  (decoded ∙ ap some same),
              fits,
            )
      ]
      | inr other ↦ elim (Option-cases (Base64.decode body)) [
        | inl failed ↦ ground arith
        | inr (raw, decoded) ↦
            let (same, fits) = hash_of_bytes-eq-ok raw hash (ground arith) in
            (
              base64 ((bytes_beq_iff _ _).0 is_text)
                  (λ same. cc (other, (bytes_beq_iff _ _).1 same)) (decoded ∙ ap some same),
              fits,
            )
      ]
    ]
    | inr not_text ↦ elim (Bool-cases (content_type header == bin_type)) [
      | inl is_bin ↦
          let (same, fits) = hash_of_bytes-eq-ok body hash (ground arith) in
          (binary ((bytes_beq_iff _ _).0 is_bin) same, fits)
      | inr unknown ↦ ground arith
    ]
  ]

  Denotes-get_hash :
      (header : Header) (body hash : Bytes)
      → Denotes header body hash
      → length hash ≡ hash_len
      → get_hash_from_hash_request e header body ≡ ok hash
  unfolding get_hash_from_hash_request
  Denotes-get_hash header body hash (binary is_bin same) fits =
      let not_text : bytes_beq (content_type header) text_type ≡ false = rw is_bin text-ne-bin in
      ground (arith, bytes_beq_iff (content_type header) bin_type, hash_of_bytes_fits hash fits)
  Denotes-get_hash header body hash (hex is_text is_hex decoded) fits = ground (
    arith,
    bytes_beq_iff (content_type header) text_type,
    bytes_beq_iff (content_encoding header) hex_encoding,
    hash_of_bytes_fits hash fits,
  )
  Denotes-get_hash header body hash (base64 is_text not_hex decoded) fits = ground (
    arith,
    bytes_beq_iff (content_type header) text_type,
    bytes_beq_iff (content_encoding header) hex_encoding,
    hash_of_bytes_fits hash fits,
  )

  -- A hash is read from a body exactly where the body stands for it, as bytes, as hexadecimal or as
  -- base64 text by its headers, and it has 32 bytes.
  pub get_hash_iff :
      (header : Header) (body hash : Bytes)
      → (get_hash_from_hash_request e header body ≡ ok hash)
        ↔ (Denotes header body hash × (length hash ≡ hash_len))
  get_hash_iff header body hash = (
    get_hash-Denotes header body hash,
    λ (denotes, fits). Denotes-get_hash header body hash denotes fits,
  )

  text_body-longer :
      (header : Header) (body hash : Bytes)
      → content_type header ≡ text_type
      → length hash ≡ hash_len
      → Denotes header body hash
      → length hash < length body
  text_body-longer header body hash is_text fits (binary is_bin same) =
      cc (text-ne-bin, (bytes_beq_iff bin_type text_type).1 (sym is_bin ∙ is_text))
  text_body-longer header body hash is_text fits (hex _ _ decoded) =
      omega (arith, Hex.length-decode body hash decoded)
  text_body-longer header body hash is_text fits (base64 _ _ decoded) =
      omega (arith, Base64.length-decode-le body hash decoded)

  pub hash_request-eq-ok :
      (c : CoseSigner) (r : Request) (payload hash : Bytes)
      → is_hash_request r ≡ true
      → get_payload_and_hash e c r ≡ ok (payload, hash)
      → (payload ≡ r.body.content) × (get_hash_from_hash_request e r.header payload ≡ ok hash)
  unfolding get_payload_and_hash read_body read_all
  hash_request-eq-ok c r payload hash to_hash h =
      elim (Result-cases (get_hash_from_hash_request e r.header r.body.content)) [
        | inl (x, failed) ↦ ground arith
        | inr (got, hashed) ↦ ground arith
      ]

  -- The payload beside a hash that came as text is the text, which is longer than the hash and so
  -- never the hash itself.
  pub text_payload-ne-hash :
      (c : CoseSigner) (r : Request) (payload hash : Bytes)
      → is_hash_request r ≡ true
      → content_type r.header ≡ text_type
      → get_payload_and_hash e c r ≡ ok (payload, hash)
      → (payload ≡ r.body.content) × (length hash < length payload) × (payload ≢ hash)
  text_payload-ne-hash c r payload hash to_hash is_text h =
      let (same, hashed) = hash_request-eq-ok c r payload hash to_hash h in
      let (denotes, fits) = get_hash-Denotes r.header payload hash hashed in
      let longer = text_body-longer r.header payload hash is_text fits denotes in
      (same, longer, λ equal. omega (arith, ap length equal))
