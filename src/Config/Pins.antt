-- ===== src/Config/Pins.antt =====
-- The pinned fingerprints of a configuration: those of the certificates in its file.
use mathlib.Core.List.{Memᴰ}
use mathlib.Core.Path.{subst}
use ubirch_cose_client_go.Prelude.{
  sym, ap, ◌∙◌, ◌≡◌, refl, inl, inr, Bool-cases, some, [], ◌∷◌, ◌++◌, Bytes, ◌==◌, bytes_eq,
  bytes_beq_iff, arith,
}
use ubirch_cose_client_go.Dict.{Dict, lookup, insert, lookup-insert, Entries, insert-Entries}
use ubirch_cose_client_go.Errors.{codes, Result, ok, Result-cases}
use ubirch_cose_client_go.Libs.{Go}
use ubirch_cose_client_go.Config.{
  tls_certs_file_name, Config, Files, add_fingerprints, certificates_found,
  load_server_tls_certificates,
}

module _ {PublicKey : Type 0} (f : Files) (go : Go PublicKey) where
  -- A fingerprint is that of a certificate of the host, which can be parsed.
  abbrev pub IsPin : Dict Bytes Bytes → Bytes → Bytes → Type 0
  IsPin certs host fingerprint =
      (cert : Bytes) × (key : PublicKey) × Memᴰ (host, cert) certs
      × (go.parse_certificate cert ≡ ok key)
      × (go.sum256 cert ≡ fingerprint)

  abbrev pub HasPin : Bytes → Dict Bytes Bytes → Type 0
  HasPin host m = (fingerprint : Bytes) × (lookup host m ≡ some fingerprint)

  -- The fingerprints are those of the file of certificates for the stage, and each host with a
  -- certificate that can be parsed has one.
  pub record ArePinned (dir stage : Bytes) (m : Dict Bytes Bytes) : Type 0 where
    pub content : Bytes
    pub certs : Dict Bytes Bytes
    pub read : f.read_file (f.join dir (stage ++ codes "_ubirch_tls_certs.json")) ≡ ok content
    pub decoded : f.decode_certificates content ≡ ok certs
    pub sound : Entries (IsPin certs) m
    pub complete :
        (host cert : Bytes) (key : PublicKey)
        → Memᴰ (host, cert) certs
        → go.parse_certificate cert ≡ ok key
        → HasPin host m

  add_fingerprints-IsPin :
      (all certs m : Dict Bytes Bytes)
      → ((x : Bytes × Bytes) → Memᴰ x certs → Memᴰ x all)
      → Entries (IsPin all) m
      → Entries (IsPin all) (add_fingerprints f go certs m)
  unfolding add_fingerprints
  add_fingerprints-IsPin all [] m within pins = pins
  add_fingerprints-IsPin all ((host, cert) ∷ certs) m within pins =
      let deeper : (x : Bytes × Bytes) → Memᴰ x certs → Memᴰ x all =
        λ x there. within x (Memᴰ.tail there) in
      elim (Result-cases (go.parse_certificate cert)) [
        | inl (x, failed) ↦
            rw (failed, add_fingerprints) (add_fingerprints-IsPin all certs m deeper pins)
        | inr (key, parsed) ↦
            rw (parsed, add_fingerprints)
              (add_fingerprints-IsPin all certs _ deeper (
                insert-Entries (IsPin all) host (go.sum256 cert) m
                  (cert, key, within (host, cert) (Memᴰ.head refl), parsed, refl) pins))
      ]

  insert-HasPin :
      (host k v : Bytes) (m : Dict Bytes Bytes) → HasPin host m → HasPin host (insert k v m)
  insert-HasPin host k v m (fingerprint, found) = elim (Bool-cases (k == host)) [
    | inl same ↦ (v, lookup-insert host k v m ∙ ground arith)
    | inr other ↦ (fingerprint, lookup-insert host k v m ∙ ground arith)
  ]

  insert-HasPin_self : (k v : Bytes) (m : Dict Bytes Bytes) → HasPin k (insert k v m)
  insert-HasPin_self k v m = (v, ground (arith, lookup-insert k k v m, bytes_beq_iff k k))

  add_fingerprints-HasPin :
      (host : Bytes) (certs m : Dict Bytes Bytes)
      → HasPin host m
      → HasPin host (add_fingerprints f go certs m)
  unfolding add_fingerprints
  add_fingerprints-HasPin host [] m has = has
  add_fingerprints-HasPin host ((other, cert) ∷ certs) m has =
      elim (Result-cases (go.parse_certificate cert)) [
        | inl (x, failed) ↦ rw (failed, add_fingerprints) (add_fingerprints-HasPin host certs m has)
        | inr (key, parsed) ↦
            rw (parsed, add_fingerprints)
              (add_fingerprints-HasPin host certs _ (insert-HasPin host other _ m has))
      ]

  add_fingerprints_complete :
      (host cert : Bytes) (key : PublicKey) (certs m : Dict Bytes Bytes)
      → Memᴰ (host, cert) certs
      → go.parse_certificate cert ≡ ok key
      → HasPin host (add_fingerprints f go certs m)
  unfolding add_fingerprints
  add_fingerprints_complete host cert key [] m there parsed = elim there [ ]
  add_fingerprints_complete host cert key ((host', cert') ∷ certs) m (Memᴰ.head same) parsed =
      let same_host : host' ≡ host = sym (ap (λ (x : Bytes × Bytes). x.0) same) in
      let parsed' : go.parse_certificate cert' ≡ ok key =
        ap (λ (x : Bytes × Bytes). go.parse_certificate x.1) (sym same) ∙ parsed in
      rw (parsed', add_fingerprints)
        (add_fingerprints-HasPin host certs _ (
          subst (λ k. HasPin k (insert host' (go.sum256 cert') m)) same_host
            (insert-HasPin_self host' (go.sum256 cert') m)))
  add_fingerprints_complete host cert key ((host', cert') ∷ certs) m (Memᴰ.tail there) parsed =
      elim (Result-cases (go.parse_certificate cert')) [
        | inl (x, failed) ↦
            rw (failed, add_fingerprints)
              (add_fingerprints_complete host cert key certs m there parsed)
        | inr (key', parsed') ↦
            rw (parsed', add_fingerprints)
              (add_fingerprints_complete host cert key certs _ there parsed)
      ]

  -- The configuration whose fingerprints were set.
  abbrev pub Pinned : Config → Config → Type 0
  Pinned c c' =
      ArePinned c.config_dir c.env c'.server_tls_cert_fingerprints
      × (c' ≡ record c { server_tls_cert_fingerprints = c'.server_tls_cert_fingerprints })

  pub certificates-Pinned :
      (c c' : Config) → load_server_tls_certificates f go c ≡ (ok tt, c') → Pinned c c'
  unfolding load_server_tls_certificates
  certificates-Pinned c c' h =
      let file = f.join c.config_dir (tls_certs_file_name c.env) in
      elim (Result-cases (f.read_file file)) [
        | inl (x, failed) ↦ ground arith
        | inr (content, read) ↦ elim (Result-cases (f.decode_certificates content)) [
          | inl (x, failed) ↦ ground arith
          | inr (certs, decoded) ↦
              set content certs read decoded (rw (read, load_server_tls_certificates, decoded) at h)
        ]
      ]
    where
      set :
          (content : Bytes) (certs : Dict Bytes Bytes)
          → f.read_file (f.join c.config_dir (tls_certs_file_name c.env)) ≡ ok content
          → f.decode_certificates content ≡ ok certs
          → certificates_found f go (f.join c.config_dir (tls_certs_file_name c.env)) certs c
            ≡ (ok tt, c')
          → Pinned c c'
      set content [] read decoded run = cc run
      set content (cert ∷ certs) read decoded run =
          let same : record c {
            server_tls_cert_fingerprints = add_fingerprints f go (cert ∷ certs) [];
          }
              ≡ c' =
            ap (λ (t : Result (Unit {0}) × Config). t.1) run in
          subst (Pinned c) same (
            record {
              content = content;
              certs = cert ∷ certs;
              read = read;
              decoded = decoded;
              sound = add_fingerprints-IsPin (cert ∷ certs) (cert ∷ certs) [] (λ x there. there) tt;
              complete = λ host body key there parsed.
                  add_fingerprints_complete host body key (cert ∷ certs) [] there parsed;
            },
            refl,
          )
