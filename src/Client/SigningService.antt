-- ===== src/Client/SigningService.antt =====
-- `SendToUbirchSigningService`, and what `path.Join` does to its URL.
use ubirch_cose_client_go.Prelude.{◌≡◌, [], ◌∷◌, ◌++◌, Bytes}
use mathlib.Core.Path.{subst}
use ubirch_cose_client_go.Codec.Paths.Slashes.{IsSingle, join-IsSingle, IsSingle-ne-url}
use ubirch_cose_client_go.Dict.{Dict}
use ubirch_cose_client_go.Errors.{codes, Error, err, Exec}
use ubirch_cose_client_go.Client.{
  ExtendedClient, ucc_header, signing_endpoint, send_to_ubirch_signing_service,
}

-- The URL has a scheme and a host.
abbrev pub HasHost : Bytes → Type 0
HasHost url = (scheme : Bytes) × (rest : Bytes) × (url ≡ scheme ++ (b':' ∷ b'/' ∷ b'/' ∷ rest))

-- `net/http` sends no request to a URL without a host.
pub record NeedsHost {W Answer : Type 0} (post : Bytes → Bytes → Dict Bytes Bytes → Exec W Answer)
    : Type 0 where
  pub refuses :
      (url upp : Bytes) (header : Dict Bytes Bytes) (w : W)
      → (HasHost url → ⊥)
      → (x : Error) × (post url upp header w ≡ (err x, w))

signing_endpoint-ne-url :
    (client : ExtendedClient) (uid_text : Bytes) → HasHost (signing_endpoint client uid_text) → ⊥
unfolding signing_endpoint
signing_endpoint-ne-url client uid_text (scheme, rest, url) =
    IsSingle-ne-url scheme rest (
      subst IsSingle url
        (join-IsSingle (client.signing_service_url ∷ uid_text ∷ codes "hash" ∷ [])))

-- `SendToUbirchSigningService` fails for every URL that is configured, and sends nothing: `path.Join`
-- leaves no two slashes side by side, so what it makes of the URL has no host. The condition: the
-- HTTP client refuses a URL without a host.
pub send_to_ubirch_signing_service_refused :
    {W Answer : Type 0} (post : Bytes → Bytes → Dict Bytes Bytes → Exec W Answer)
    (client : ExtendedClient) (uid_text auth upp : Bytes) (w : W)
    → NeedsHost post
    → (x : Error) × (send_to_ubirch_signing_service post client uid_text auth upp w ≡ (err x, w))
unfolding send_to_ubirch_signing_service
send_to_ubirch_signing_service_refused post client uid_text auth upp w needs =
    needs.refuses (signing_endpoint client uid_text) upp (ucc_header auth) w
      (signing_endpoint-ne-url client uid_text)
