-- ===== src/Protocol/Steps/Loading.antt =====
-- The SKID store: its reader finds a whole one, and its loader leaves one, whatever they meet.
use ubirch_cose_client_go.Prelude.{
  ◌+◌, ◌==◌, ◌≡◌, refl, inl, inr, Bool-cases, Option-cases, List, [], ◌∷◌, Bytes, nat_eq, bytes_eq,
}
use ubirch_cose_client_go.Dict.{Dict, lookup}
use ubirch_cose_client_go.Errors.{Result, ok, err, Result-cases}
use ubirch_cose_client_go.Context.{Uuid, Identity}
use ubirch_cose_client_go.Libs.{Env, Certificate}
use ubirch_cose_client_go.Client.{ExtendedClient, request_certificate_list}
use ubirch_cose_client_go.Client.Reached.{request_certificate_list_stays}
use ubirch_cose_client_go.Protocol.{Protocol, Interval, matched, get_skid, set_skid_store}
use ubirch_cose_client_go.Threads.Safety.{Rules, Safe, calling-Safe}
use ubirch_cose_client_go.Protocol.Steps.{
  get_uuid_steps, get_skid_steps, key_of, load_certs_steps, loaded_steps, load_skids_steps,
}
use ubirch_cose_client_go.Protocol.Steps.Certified.{
  Answered-Later, Matches, done, unreadable, answered, IsWhole, Certified, IsWhole-Certified,
}
use ubirch_cose_client_go.Protocol.Steps.Rely.{IsKeeping, IsCoherent, IsCoherent-Later}
use ubirch_cose_client_go.Protocol.Steps.Kept.{rules, IsAnswered, get_uuid-Safe}
use ubirch_cose_client_go.Protocol.Steps.Certified.{Certified-Later, Matches_nil}

module _ {W Tx PublicKey : Type 0} (e : Env W Tx PublicKey) (client : ExtendedClient)
    (Later : W → W → Type 0) (Row : Uuid → Identity → W → Type 0)
    (Registered : Bytes → Uuid → W → Type 0) (keeping : IsKeeping e Later Row Registered) where
  abbrev shared : Rules (Protocol W)
  shared = rules e client Later Row Registered keeping

  -- An SKID that was returned is the KID of a certificate from a list.
  abbrev pub SkidGot : Uuid → Result Bytes → Protocol W → Type 0
  SkidGot uid (ok kid) p = Certified e Registered client uid kid p.world
  SkidGot uid (err x) p = Unit

  SkidGot-Later :
      (uid : Uuid) (r : Result Bytes) (p q : Protocol W)
      → Later p.world q.world
      → SkidGot uid r p
      → SkidGot uid r q
  SkidGot-Later uid (err x) p q later got = tt
  SkidGot-Later uid (ok kid) p q later got =
      Certified-Later e Registered client Later keeping.keeps_key uid kid p.world q.world later got

  skid_now :
      (uid : Uuid) (p : Protocol W)
      → IsCoherent e client Later Row Registered p
      → SkidGot uid (get_skid e uid p) p
  unfolding get_skid
  skid_now uid p holds = elim (Option-cases (lookup uid p.skid_store)) [
    | inl missing ↦ rw (SkidGot, missing) tt
    | inr (kid, found) ↦
        rw (SkidGot, found)
          (IsWhole-Certified e Registered client p.skid_store uid kid p.world holds.skids found)
  ]

  pub get_skid-Safe :
      (uid : Uuid) (p : Protocol W) → Safe shared (SkidGot uid) (get_skid_steps e uid) p
  unfolding get_skid_steps
  get_skid-Safe uid p = λ q later holds. (
    holds,
    keeping.stays q.world,
    λ q' later' holds'. SkidGot-Later uid (get_skid e uid q) q q' later' (skid_now uid q holds),
  )

  abbrev Whole : Dict Uuid Bytes → Protocol W → Type 0
  Whole store p = IsWhole e Registered client store p.world

  -- The loop leaves a whole store where what it would have made of the rest is whole.
  load_certs-Safe :
      (certs : List Certificate) (store : Dict Uuid Bytes) (p : Protocol W)
      → ((last : Dict Uuid Bytes) (q : Protocol W)
          → Later p.world q.world
          → Matches e Registered q.world certs store last
          → Whole last q)
      → Safe shared (λ a q. Unit) (load_certs_steps e certs store) p
  unfolding load_certs_steps set_skid_store
  load_certs-Safe [] store p whole = λ q later holds. (
    record { identities = holds.identities; uids = holds.uids; skids = whole store q later done },
    keeping.stays q.world,
    λ q' later' holds'. tt,
  )
  load_certs-Safe (cert ∷ certs) store p whole = elim (Result-cases (key_of e cert)) [
    | inl (x, failed) ↦
        rw (Safe, failed)
          (load_certs-Safe certs store p
            (λ last q later rest. whole last q later (unreadable failed rest)))
    | inr (pem, keyed) ↦
        rw (Safe, keyed)
          (calling-Safe shared (IsAnswered e client Later Row Registered keeping pem) (λ a q. Unit)
            (get_uuid_steps e pem) (λ r. load_certs_steps e certs (matched cert.kid r store)) p
            (get_uuid-Safe e client Later Row Registered keeping pem p)
            (λ r q later holds said.
              load_certs-Safe certs (matched cert.kid r store) q (λ last q' later' rest.
                whole last q' (keeping.goes_on p.world q.world q'.world later later') (
                  answered r keyed
                    (Answered-Later e Registered client Later keeping.keeps_key pem r q.world
                      q'.world later' said)
                    rest))))
  ]

  module _ (interval : Interval) where
    loaded-Safe :
        (r : Result (List Certificate)) (p : Protocol W) (from to : W)
        → request_certificate_list e client e.crypto.verify from ≡ (r, to)
        → Safe shared (λ a q. Unit) (loaded_steps e client interval r) p
    loaded-Safe (ok certs) p from to sent = λ q later holds. (
      record { identities = holds.identities; uids = holds.uids; skids = holds.skids },
      keeping.stays q.world,
      load_certs-Safe certs [] _ (λ last q' later' all.
          inr (record { certs = certs; from = from; to = to; sent = sent; all = all })),
    )
    loaded-Safe (err x) p from to sent = λ q later holds. (
      record { identities = holds.identities; uids = holds.uids; skids = holds.skids },
      keeping.stays q.world,
      elim (Bool-cases (q.cert_load_fail_counter + 1 == interval.max_cert_load_fail_count)) [
        | inl full ↦ rw full (
            load_certs-Safe [] [] _
              (λ last q' later' none_left. inl (Matches_nil e Registered none_left)))
        | inr more ↦ rw more (λ q' later' holds'. tt)
      ],
    )

    pub load_skids-Safe :
        (p : Protocol W) → Safe shared (λ a q. Unit) (load_skids_steps e client interval) p
    unfolding load_skids_steps
    load_skids-Safe p = λ q later holds.
        let (r, w) = request_certificate_list e client e.crypto.verify q.world in
        let on =
          request_certificate_list_stays e client (Later q.world)
            (λ check url v so_far.
              keeping.goes_on q.world v (e.web.do_get check url v).1 so_far
                (keeping.gets check url v))
            e.crypto.verify q.world (keeping.stays q.world) in
        (
          IsCoherent-Later e client Later Row Registered keeping q w holds on,
          on,
          loaded-Safe r (record q { world = w }) q.world w refl,
        )
