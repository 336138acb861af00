-- ===== src/Samples/SigningExamples.antt =====
-- A signing service that asks the hosts of URLs, and the routes of the server.
use ubirch_cose_client_go.Prelude.{
  ℕ, zero, suc, ◌+◌, ◌≡◌, refl, ap, sym, ◌∙◌, inl, inr, Bool-cases, Bool, true, false, ◌||◌, [],
  ◌∷◌, ◌++◌, map, Bytes, bytes_beq, bytes_beq_iff, take, drop, if◌then◌else◌, arith, bytes_eq,
  nat_eq,
}
use ubirch_cose_client_go.Codec.Paths.{clean, join}
use ubirch_cose_client_go.Dict.{Dict}
use ubirch_cose_client_go.Errors.{codes, text, Error, Result, ok, err}
use ubirch_cose_client_go.Client.{ExtendedClient, send_to_ubirch_signing_service}
use ubirch_cose_client_go.Client.SigningService.{
  HasHost, NeedsHost, send_to_ubirch_signing_service_refused,
}
use ubirch_cose_client_go.Main.Server.{Route, routes}
use ubirch_cose_client_go.Samples.{client}

abbrev separator : Bytes
separator = b':' ∷ b'/' ∷ b'/' ∷ []

abbrev has_host : Bytes → Bool
has_host [] = false
has_host (c ∷ s) = bytes_beq (take 3 (c ∷ s)) separator || has_host s

-- The world counts the requests.
abbrev post : Bytes → Bytes → Dict Bytes Bytes → ℕ → Result (Unit {0}) × ℕ
post url upp header w = if has_host url then (ok tt, w + 1) else (err (text []), w)

take-drop : (n : ℕ) (s : Bytes) → take n s ++ drop n s ≡ s
take-drop zero s = refl
take-drop (suc n) [] = refl
take-drop (suc n) (c ∷ s) = ap (λ (t : Bytes). c ∷ t) (take-drop n s)

has_host-HasHost : (url : Bytes) → has_host url ≡ true → HasHost url
has_host-HasHost [] h = cc h
has_host-HasHost (c ∷ s) h = elim (Bool-cases (bytes_beq (take 3 (c ∷ s)) separator)) [
  | inl here ↦
      let same : take 3 (c ∷ s) ≡ separator = (bytes_beq_iff (take 3 (c ∷ s)) separator).0 here in
      ([], drop 3 (c ∷ s), sym (take-drop 3 (c ∷ s)) ∙ ap (λ (t : Bytes). t ++ drop 3 (c ∷ s)) same)
  | inr later ↦
      let (scheme, rest, url) = has_host-HasHost s (ground (arith, h, later)) in
      (c ∷ scheme, rest, ap (λ (t : Bytes). c ∷ t) url)
]

needs_host : NeedsHost post
needs_host = record {
  refuses = λ url upp header w no. elim (Bool-cases (has_host url)) [
    | inl there ↦ absurd (no (has_host-HasHost url there))
    | inr missing ↦ (text [], ground (arith, missing))
  ];
}

abbrev configured : ExtendedClient
configured = record client { signing_service_url = codes "https://api.ubirch.com/api/v1/anchor" }

send_to_ubirch_signing_service_refused_example :
    (x : Error) × (send_to_ubirch_signing_service post configured (codes "3") (7 ∷ []) (42 ∷ []) 0
      ≡ (err x, 0))
send_to_ubirch_signing_service_refused_example =
    send_to_ubirch_signing_service_refused post configured (codes "3") (7 ∷ []) (42 ∷ []) 0
      needs_host

joined : join (codes "https://host" ∷ codes "3" ∷ codes "hash" ∷ []) ≡ codes "https:/host/3/hash"
unfolding join clean codes bytes_beq
joined = refl

above : join (codes "/a" ∷ codes "" ∷ codes "../../b/." ∷ codes ".." ∷ codes "c" ∷ []) ≡ codes "/c"
unfolding join clean codes bytes_beq
above = refl

patterns :
    map (λ (r : Route). r.pattern) routes
    ≡ codes "/healtz"
      ∷ codes "/register"
      ∷ codes "/{uuid}/cbor"
      ∷ codes "/{uuid}/cbor/hash"
      ∷ codes "/readiness"
      ∷ []
unfolding routes join clean codes bytes_beq
patterns = refl
