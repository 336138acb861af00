-- ===== src/Protocol/Steps/Certified.antt =====
-- What a whole SKID store is: the matches of every certificate of one list from the server.
use mathlib.Core.Path.{subst}
use mathlib.Core.List.{Memᴰ}
use ubirch_cose_client_go.Prelude.{
  ◌≡◌, ◌⊎◌, refl, ap, inl, inr, Bool-cases, some, List, [], ◌∷◌, Bytes, length, ◌==◌, arith, nat_eq,
  nat_beq_iff,
}
use ubirch_cose_client_go.Dict.{Dict, lookup, lookup-insert}
use ubirch_cose_client_go.Errors.{Error, Result, ok, err}
use ubirch_cose_client_go.Context.{Uuid}
use ubirch_cose_client_go.Libs.{Env, Certificate}
use ubirch_cose_client_go.Client.{ExtendedClient, request_certificate_list}
use ubirch_cose_client_go.Protocol.{skid_len, matched}
use ubirch_cose_client_go.Protocol.Steps.{key_of}

module _ {W Tx PublicKey : Type 0} (e : Env W Tx PublicKey)
    (Registered : Bytes → Uuid → W → Type 0) where
  -- What an answer of `GetUuidForPublicKey` says of the world.
  abbrev pub Answered : Bytes → Result Uuid → W → Type 0
  Answered pem (err x) w = Unit
  Answered pem (ok uid) w =
      (raw : Bytes) × (e.crypto.public_key_pem_to_bytes pem ≡ ok raw) × Registered raw uid w

  -- The loop over the certificates, from one map to another: each certificate with a key has had an
  -- answer for it.
  pub data Matches (w : W) : List Certificate → Dict Uuid Bytes → Dict Uuid Bytes → Type 0 where
    done : {store : Dict Uuid Bytes} → Matches w [] store store
    unreadable :
        {cert : Certificate} {certs : List Certificate} {store last : Dict Uuid Bytes} {x : Error}
        → key_of e cert ≡ err x
        → Matches w certs store last
        → Matches w (cert ∷ certs) store last
    answered :
        {cert : Certificate} {certs : List Certificate} {store last : Dict Uuid Bytes} {pem : Bytes}
        (r : Result Uuid)
        → key_of e cert ≡ ok pem
        → Answered pem r w
        → Matches w certs (matched cert.kid r store) last
        → Matches w (cert ∷ certs) store last

  pub Matches_nil : {w : W} {store last : Dict Uuid Bytes} → Matches w [] store last → last ≡ store
  Matches_nil done = refl

  -- An entry of an SKID store, by the certificate that it is from.
  pub record Entry (certs : List Certificate) (uid : Uuid) (kid : Bytes) (w : W) : Type 0 where
    pub cert : Certificate
    pub listed : Memᴰ cert certs
    pub same_kid : cert.kid ≡ kid
    pub fits : length kid ≡ skid_len
    pub pem : Bytes
    pub keyed : key_of e cert ≡ ok pem
    pub registered : Answered pem (ok uid) w

  matched-lookup :
      (kid skid : Bytes) (r : Result Uuid) (store : Dict Uuid Bytes) (uid : Uuid)
      → lookup uid (matched kid r store) ≡ some skid
      → (lookup uid store ≡ some skid) ⊎ ((r ≡ ok uid) × (kid ≡ skid) × (length skid ≡ skid_len))
  matched-lookup kid skid (err x) store uid h = inl h
  matched-lookup kid skid (ok u) store uid h = elim (Bool-cases (length kid == skid_len)) [
    | inl fits ↦ elim (Bool-cases (u == uid)) [
      | inl same ↦
          let here : kid ≡ skid = ground (arith, h, lookup-insert uid u kid store) in
          inr (
            ap ok ((nat_beq_iff u uid).0 same),
            here,
            ground (arith, nat_beq_iff (length kid) skid_len),
          )
      | inr other ↦ inl (ground (arith, h, lookup-insert uid u kid store))
    ]
    | inr misfits ↦ inl (rw misfits at h)
  ]

  abbrev deeper :
      {cert : Certificate} {certs : List Certificate} {uid : Uuid} {kid : Bytes} {w : W}
      → Entry certs uid kid w
      → Entry (cert ∷ certs) uid kid w
  deeper entry = record {
    cert = entry.cert;
    listed = Memᴰ.tail entry.listed;
    same_kid = entry.same_kid;
    fits = entry.fits;
    pem = entry.pem;
    keyed = entry.keyed;
    registered = entry.registered;
  }

  -- What the loop has in its map was there before, or is from a certificate.
  pub Matches-lookup :
      {w : W} {certs : List Certificate} {store last : Dict Uuid Bytes} (uid : Uuid) (kid : Bytes)
      → Matches w certs store last
      → lookup uid last ≡ some kid
      → (lookup uid store ≡ some kid) ⊎ Entry certs uid kid w
  Matches-lookup uid kid done found = inl found
  Matches-lookup uid kid (unreadable bad rest) found = elim (Matches-lookup uid kid rest found) [
    | inl old ↦ inl old
    | inr entry ↦ inr (deeper entry)
  ]
  Matches-lookup {w = w} {certs = cert ∷ certs} {store = store} uid kid
        (answered {pem} r keyed said rest) found =
      elim (Matches-lookup uid kid rest found) [
        | inr entry ↦ inr (deeper entry)
        | inl before ↦ elim (matched-lookup cert.kid kid r store uid before) [
          | inl old ↦ inl old
          | inr (known, same, fits) ↦ inr (record {
            cert = cert;
            listed = Memᴰ.head refl;
            same_kid = same;
            fits = fits;
            pem = pem;
            keyed = keyed;
            registered = subst (λ a. Answered pem a w) known said;
          })
        ]
      ]

  module _ (client : ExtendedClient) where
    -- A store that a reload has made, from all certificates of a list that the server signed.
    pub record Loaded (store : Dict Uuid Bytes) (w : W) : Type 0 where
      pub certs : List Certificate
      pub from : W
      pub to : W
      pub sent : request_certificate_list e client e.crypto.verify from ≡ (ok certs, to)
      pub all : Matches w certs [] store

    -- A store is never partly loaded.
    abbrev pub IsWhole : Dict Uuid Bytes → W → Type 0
    IsWhole store w = (store ≡ []) ⊎ Loaded store w

    -- The list behind a KID.
    pub record Certified (uid : Uuid) (kid : Bytes) (w : W) : Type 0 where
      pub certs : List Certificate
      pub from : W
      pub to : W
      pub sent : request_certificate_list e client e.crypto.verify from ≡ (ok certs, to)
      pub entry : Entry certs uid kid w

    pub IsWhole-Certified :
        (store : Dict Uuid Bytes) (uid : Uuid) (kid : Bytes) (w : W)
        → IsWhole store w
        → lookup uid store ≡ some kid
        → Certified uid kid w
    unfolding lookup
    IsWhole-Certified store uid kid w (inl empty) found = ground (arith, empty, found)
    IsWhole-Certified store uid kid w (inr l) found = elim (Matches-lookup uid kid l.all found) [
      | inl none_yet ↦ cc none_yet
      | inr entry ↦ record {
        certs = l.certs;
        from = l.from;
        to = l.to;
        sent = l.sent;
        entry = entry;
      }
    ]

    module _ (Later : W → W → Type 0)
        (keeps_key : (raw : Bytes) (uid : Uuid) (w w' : W)
          → Later w w'
          → Registered raw uid w
          → Registered raw uid w') where
      pub Answered-Later :
          (pem : Bytes) (r : Result Uuid) (w w' : W)
          → Later w w'
          → Answered pem r w
          → Answered pem r w'
      Answered-Later pem (err x) w w' later said = tt
      Answered-Later pem (ok uid) w w' later (raw, converted, registered) =
          (raw, converted, keeps_key raw uid w w' later registered)

      pub Matches-Later :
          (w w' : W) (later : Later w w') {certs : List Certificate} {store last : Dict Uuid Bytes}
          → Matches w certs store last
          → Matches w' certs store last
      Matches-Later w w' later done = done
      Matches-Later w w' later (unreadable bad rest) =
          unreadable bad (Matches-Later w w' later rest)
      Matches-Later w w' later (answered {pem} r keyed said rest) =
          answered r keyed (Answered-Later pem r w w' later said) (Matches-Later w w' later rest)

      pub IsWhole-Later :
          (store : Dict Uuid Bytes) (w w' : W) → Later w w' → IsWhole store w → IsWhole store w'
      IsWhole-Later store w w' later (inl empty) = inl empty
      IsWhole-Later store w w' later (inr l) = inr (record {
        certs = l.certs;
        from = l.from;
        to = l.to;
        sent = l.sent;
        all = Matches-Later w w' later l.all;
      })

      pub Certified-Later :
          (uid : Uuid) (kid : Bytes) (w w' : W)
          → Later w w'
          → Certified uid kid w
          → Certified uid kid w'
      Certified-Later uid kid w w' later c =
          let entry = c.entry in
          record {
            certs = c.certs;
            from = c.from;
            to = c.to;
            sent = c.sent;
            entry = record {
              cert = entry.cert;
              listed = entry.listed;
              same_kid = entry.same_kid;
              fits = entry.fits;
              pem = entry.pem;
              keyed = entry.keyed;
              registered = Answered-Later entry.pem (ok uid) w w' later entry.registered;
            };
          }
