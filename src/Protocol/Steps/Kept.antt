-- ===== src/Protocol/Steps/Kept.antt =====
-- The methods keep the rules of the goroutines that share a `Protocol`, and what they return is so.
use mathlib.Core.Path.{subst}
use ubirch_cose_client_go.Prelude.{
  ℕ, zero, suc, ◌≡◌, refl, sym, ap, inl, inr, Bool-cases, Option-cases, Bytes, arith, All, nat_eq,
  bytes_eq,
}
use ubirch_cose_client_go.Codec.Base64
use ubirch_cose_client_go.Codec.Base64.{IsByte, encode-injective}
use ubirch_cose_client_go.Dict.{lookup, Entries-lookup, insert-Entries}
use ubirch_cose_client_go.Errors.{Result, ok, err, Exec, Result-cases}
use ubirch_cose_client_go.Context.{Uuid, uuid_nil, Identity}
use ubirch_cose_client_go.Libs.{Env}
use ubirch_cose_client_go.Client.{ExtendedClient}
use ubirch_cose_client_go.Protocol.{
  Protocol, on_world, is_transient, max_db_conn_attempts, zero_identity, open_identity,
}
use ubirch_cose_client_go.Threads.Safety.{Rules, Safe, Safe-weaker, calling-Safe}
use ubirch_cose_client_go.Protocol.Steps.{
  retry_steps, fetch_identity_steps, opened, cached, get_identity_steps, cached_uid, uuid_steps,
  get_uuid_steps,
}
use ubirch_cose_client_go.Protocol.Steps.Certified.{Answered}
use ubirch_cose_client_go.Protocol.Steps.Rely.{
  IsKeeping, Known, Known-Later, Found, IsCoherent-Later, protocol_rules,
}

module _ {W Tx PublicKey : Type 0} (e : Env W Tx PublicKey) (client : ExtendedClient)
    (Later : W → W → Type 0) (Row : Uuid → Identity → W → Type 0)
    (Registered : Bytes → Uuid → W → Type 0) (keeping : IsKeeping e Later Row Registered) where
  abbrev pub rules : Rules (Protocol W)
  rules = protocol_rules e client Later Row Registered keeping

  -- What an answer of the loop over attempts says of the world, where a successful call says it.
  abbrev Said : {A : Type 0} → (A → W → Type 0) → Result A → Protocol W → Type 0
  Said P (ok a) p = P a p.world
  Said P (err x) p = Unit

  Said-Later :
      {A : Type 0} (P : A → W → Type 0)
      → ((a : A) (w w' : W) → Later w w' → P a w → P a w')
      → (r : Result A) (p q : Protocol W) → Later p.world q.world
      → Said P r p
      → Said P r q
  Said-Later P keeps (ok a) p q later said = keeps a p.world q.world later said
  Said-Later P keeps (err x) p q later said = tt

  module _ {A : Type 0} (P : A → W → Type 0)
      (keeps : (a : A) (w w' : W) → Later w w' → P a w → P a w') (m : Exec W A)
      (asks : (w : W) → Later w (m w).1)
      (says : (a : A) (w w' : W) → m w ≡ (ok a, w') → P a w') where
    Said-on_world : (r : Result A) (p : Protocol W) → (m p.world).0 ≡ r → Said P r (on_world m p).1
    Said-on_world (ok a) p h = says a p.world (m p.world).1 (ap (λ r. (r, (m p.world).1)) h)
    Said-on_world (err x) p h = tt

    retry-Safe :
        (n : ℕ) (last : Result A) (p : Protocol W)
        → (n ≡ 0 → Said P last p)
        → Safe rules (Said P) (retry_steps e n m last) p
    unfolding retry_steps
    retry-Safe zero last p said = λ q later holds. Said-Later P keeps last p q later (said refl)
    retry-Safe (suc n) last p said = λ q later holds.
        let (r, q') = on_world m q in
        let kept =
          IsCoherent-Later e client Later Row Registered keeping q (m q.world).1 holds
            (asks q.world) in
        (
          kept,
          asks q.world,
          elim (Bool-cases (is_transient e r)) [
            | inl again ↦ rw again (retry-Safe n r q' (λ _. Said-on_world r q refl))
            | inr stop ↦
                rw stop (λ q'' on holds'. Said-Later P keeps r q' q'' on (Said-on_world r q refl))
          ],
        )

  -- An identity that was returned is what its row opens to.
  abbrev pub Got : Uuid → Result Identity → Protocol W → Type 0
  Got uid = Said (Known e client Later Row Registered uid)

  Got-Later :
      (uid : Uuid) (r : Result Identity) (p q : Protocol W)
      → Later p.world q.world
      → Got uid r p
      → Got uid r q
  Got-Later uid =
      Said-Later (Known e client Later Row Registered uid)
        (λ id w w'. Known-Later e client Later Row Registered keeping uid id w w')

  opened-Got :
      (uid : Uuid) (r : Result Identity) (p : Protocol W)
      → Said (λ id. Row uid id) r p
      → Got uid (opened e r) p
  opened-Got uid (err x) p said = tt
  opened-Got uid (ok given) p row = elim (Result-cases (open_identity e given)) [
    | inl (x, failed) ↦ rw failed tt
    | inr (id, opens) ↦ rw opens (record { given = given; row = row; opens = opens })
  ]

  fetch-Safe : (uid : Uuid) (p : Protocol W) → Safe rules (Got uid) (fetch_identity_steps e uid) p
  unfolding fetch_identity_steps
  fetch-Safe uid p =
      calling-Safe rules (Said (λ id. Row uid id)) (Got uid) _ _ p
        (retry-Safe (λ id. Row uid id) (λ id w w'. keeping.keeps uid id w w')
          (e.manager.get_identity uid) (keeping.asks uid) (λ id w w'. keeping.reads uid id w w')
          max_db_conn_attempts (ok zero_identity) p (λ no_attempt. absurd (omega arith)))
        (λ r q later holds said q' later' holds'.
          Got-Later uid (opened e r) q q' later' (opened-Got uid r q said))

  cached-Safe :
      (uid : Uuid) (r : Result Identity) (p : Protocol W)
      → Got uid r p
      → Safe rules (Got uid) (cached e uid r) p
  cached-Safe uid (err x) p got = λ q later holds. tt
  cached-Safe uid (ok id) p got = λ q later holds.
      let known = Got-Later uid (ok id) p q later got in
      (
        record {
          identities = insert-Entries _ uid id q.identity_cache known holds.identities;
          uids = holds.uids;
          skids = holds.skids;
        },
        keeping.stays q.world,
        λ q' later' holds'. Got-Later uid (ok id) q q' later' known,
      )

  pub get_identity-Safe :
      (uid : Uuid) (p : Protocol W) → Safe rules (Got uid) (get_identity_steps e uid) p
  unfolding get_identity_steps
  get_identity-Safe uid p = λ q later holds. (
    holds,
    keeping.stays q.world,
    elim (Option-cases (lookup uid q.identity_cache)) [
      | inl miss ↦ rw miss (
          calling-Safe rules (Got uid) (Got uid) (fetch_identity_steps e uid) (cached e uid) q
            (fetch-Safe uid q) (λ r q' later' holds' got. cached-Safe uid r q' got))
      | inr (id, hit) ↦ rw hit (λ q' later' holds'.
          Got-Later uid (ok id) q q' later'
            (Entries-lookup _ uid id q.identity_cache holds.identities hit))
    ],
  )

  abbrev UidGot : Bytes → Result Uuid → Protocol W → Type 0
  UidGot raw = Said (Registered raw)

  UidGot-Later :
      (raw : Bytes) (r : Result Uuid) (p q : Protocol W)
      → Later p.world q.world
      → UidGot raw r p
      → UidGot raw r q
  UidGot-Later raw = Said-Later (Registered raw) (λ uid w w'. keeping.keeps_key raw uid w w')

  Found-encode :
      (raw : Bytes) (uid : Uuid) (w : W)
      → All IsByte raw
      → Registered raw uid w
      → Found e client Later Row Registered (Base64.encode raw) uid w
  Found-encode raw uid w bytes registered other bytes' same =
      subst (λ b. Registered b uid w) (encode-injective raw other bytes bytes' (sym same))
        registered

  cached_uid-Safe :
      (raw : Bytes) (r : Result Uuid) (p : Protocol W)
      → All IsByte raw
      → UidGot raw r p
      → Safe rules (UidGot raw) (cached_uid e (Base64.encode raw) r) p
  cached_uid-Safe raw (err x) p bytes got = λ q later holds. tt
  cached_uid-Safe raw (ok uid) p bytes got = λ q later holds.
      let known = UidGot-Later raw (ok uid) p q later got in
      (
        record {
          identities = holds.identities;
          uids =
              insert-Entries _ (Base64.encode raw) uid q.uid_cache
                (Found-encode raw uid q.world bytes known) holds.uids;
          skids = holds.skids;
        },
        keeping.stays q.world,
        λ q' later' holds'. UidGot-Later raw (ok uid) q q' later' known,
      )

  uuid-Safe :
      (raw : Bytes) (p : Protocol W) → All IsByte raw → Safe rules (UidGot raw) (uuid_steps e raw) p
  unfolding uuid_steps
  uuid-Safe raw p bytes = λ q later holds. (
    holds,
    keeping.stays q.world,
    elim (Option-cases (lookup (Base64.encode raw) q.uid_cache)) [
      | inl miss ↦ rw miss (
          calling-Safe rules (UidGot raw) (UidGot raw) _ _ q
            (retry-Safe (Registered raw) (λ uid w w'. keeping.keeps_key raw uid w w')
              (e.manager.get_uuid_for_public_key raw) (keeping.asks_uid raw)
              (λ uid w w'. keeping.reads_uid raw uid w w') max_db_conn_attempts (ok uuid_nil) q
              (λ no_attempt. absurd (omega arith)))
            (λ r q' later' holds' got. cached_uid-Safe raw r q' bytes got))
      | inr (uid, hit) ↦ rw hit (λ q' later' holds'.
          UidGot-Later raw (ok uid) q q' later'
            (Entries-lookup _ (Base64.encode raw) uid q.uid_cache holds.uids hit raw bytes refl))
    ],
  )

  abbrev pub IsAnswered : Bytes → Result Uuid → Protocol W → Type 0
  IsAnswered pem r p = Answered e Registered pem r p.world

  UidGot-Answered :
      (pem raw : Bytes) (r : Result Uuid) (p : Protocol W)
      → e.crypto.public_key_pem_to_bytes pem ≡ ok raw
      → UidGot raw r p
      → IsAnswered pem r p
  UidGot-Answered pem raw (err x) p converted got = tt
  UidGot-Answered pem raw (ok uid) p converted got = (raw, converted, got)

  pub get_uuid-Safe :
      (pem : Bytes) (p : Protocol W) → Safe rules (IsAnswered pem) (get_uuid_steps e pem) p
  unfolding get_uuid_steps
  get_uuid-Safe pem p = elim (Result-cases (e.crypto.public_key_pem_to_bytes pem)) [
    | inl (x, failed) ↦ rw (Safe, failed) (λ q later holds. tt)
    | inr (raw, converted) ↦
        rw (Safe, converted)
          (Safe-weaker rules (UidGot raw) (IsAnswered pem) (uuid_steps e raw) p
            (λ r q. UidGot-Answered pem raw r q converted)
            (uuid-Safe raw p (keeping.bytes pem raw converted)))
  ]
