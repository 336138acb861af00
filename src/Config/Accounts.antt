-- ===== src/Config/Accounts.antt =====
-- The identities that the configuration names, in its file of identities and its map of tokens.
use mathlib.Core.List.{append-nil, append_assoc}
use ubirch_cose_client_go.Prelude.{
  sym, ◌∙◌, ◌≡◌, ◌≢◌, ◌<◌, ◌↔◌, refl, ap, Bool, true, false, none, some, List, [], ◌∷◌, ◌++◌, map,
  Bytes, length, ◌==◌, nat_eq, nat_beq_iff, bytes_eq, bytes_beq_iff, arith, All, if◌then◌else◌,
}
use ubirch_cose_client_go.Dict.{Dict, lookup, insert, lookup-insert}
use ubirch_cose_client_go.Errors.{text, codes, Result, ok, err}
use ubirch_cose_client_go.Context.{Uuid, uuid_nil, Identity}
use ubirch_cose_client_go.Libs.{Go}
use ubirch_cose_client_go.Config.{identities_file_name, Config, Files}

-- m[token], which is false for a token that is not in the map
abbrev seen : Bytes → Dict Bytes Bool → Bool
seen token tokens = elim (lookup token tokens) [ none ↦ false | some b ↦ b ]

-- An entry that can be used.
abbrev pub IsUsable : Identity → Type 0
IsUsable i = (i.uid ≢ uuid_nil) × (0 < length i.auth_token)

-- No two entries have the same token.
abbrev pub AreDistinct : List Identity → Type 0
AreDistinct [] = Unit
AreDistinct (i ∷ identities) =
    All (λ (j : Identity). j.auth_token ≢ i.auth_token) identities × AreDistinct identities

-- The identity of an entry of the map.
abbrev pub named : Uuid × Bytes → Identity
named (uid, token) = record { uid = uid; private_key = []; public_key = []; auth_token = token }

module _ {PublicKey : Type 0} (f : Files) (go : Go PublicKey) where
  -- the loop over the entries
  unfoldable pub check_entries : Dict Bytes Bool → List Identity → Result (Unit {0})
  check_entries tokens [] = ok tt
  check_entries tokens (i ∷ identities) =
      let rest = check_entries (insert i.auth_token true tokens) identities in
      if i.uid == uuid_nil
      then err (text (go.uuid_string i.uid ++ codes ": empty UUID"))
      else if length i.auth_token == 0
      then err (text (go.uuid_string i.uid ++ codes ": empty auth token field"))
      else if seen i.auth_token tokens
      then err
          (text (go.uuid_string i.uid ++ codes ": can not use same token for multiple identities"))
      else rest

  -- The identities that are there afterwards, beside the error.
  unfoldable pub load_identities_file : Config → List Identity → Result (Unit {0}) × List Identity
  load_identities_file c identities =
      let file = f.join c.config_dir identities_file_name in
      if f.is_missing file then (ok tt, identities) else elim (f.read_file file) [
        | err x ↦ (err x, identities)
        | ok content ↦ elim (f.decode_identities content) [
          | err x ↦ (err x, identities)
          | ok entries ↦ (check_entries [] entries, entries)
        ]
      ]

  -- The tokens are in the order in which the loop over the map meets them.
  unfoldable pub append_tokens : Dict Uuid Bytes → List Identity → Result (Unit {0}) × List Identity
  append_tokens [] identities = (ok tt, identities)
  append_tokens ((uid, token) ∷ tokens) identities =
      let rest = append_tokens tokens (
        identities
        ++ (record { uid = uid; private_key = []; public_key = []; auth_token = token } ∷ [])) in
      if length token == 0
      then (err (text (go.uuid_string uid ++ codes ": empty auth token")), identities)
      else rest

  unfoldable pub load_tokens : Config → List Identity → Result (Unit {0}) × List Identity
  load_tokens c identities = append_tokens c.tokens identities

  AreNew : Dict Bytes Bool → List Identity → Type 0
  AreNew tokens identities = All (λ (j : Identity). seen j.auth_token tokens ≡ false) identities

  AreNew-insert :
      (token : Bytes) (tokens : Dict Bytes Bool) (identities : List Identity)
      → AreNew (insert token true tokens) identities
        ↔ (All (λ (j : Identity). j.auth_token ≢ token) identities × AreNew tokens identities)
  unfolding AreNew
  AreNew-insert token tokens [] = ground arith
  AreNew-insert token tokens (i ∷ identities) = ground (
    arith,
    lookup-insert i.auth_token token true tokens,
    bytes_beq_iff token i.auth_token,
    AreNew-insert token tokens identities,
  )

  entries-eq-ok :
      (tokens : Dict Bytes Bool) (identities : List Identity)
      → (check_entries tokens identities ≡ ok tt)
        ↔ (All IsUsable identities × AreDistinct identities × AreNew tokens identities)
  unfolding check_entries AreNew
  entries-eq-ok tokens [] = ground arith
  entries-eq-ok tokens (i ∷ identities) = ground (
    arith,
    nat_beq_iff i.uid uuid_nil,
    AreNew-insert i.auth_token tokens identities,
    entries-eq-ok (insert i.auth_token true tokens) identities,
  )

  none_seen : (identities : List Identity) → AreNew [] identities
  unfolding AreNew lookup
  none_seen [] = tt
  none_seen (i ∷ identities) = (refl, none_seen identities)

  -- The identities of a file are accepted exactly where each of them has a UUID and a token, and no
  -- two of them have the same token. They take the place of those that were there before.
  pub load_identities_file-AreDistinct :
      (c : Config) (identities entries : List Identity) (content : Bytes)
      → f.is_missing (f.join c.config_dir identities_file_name) ≡ false
      → f.read_file (f.join c.config_dir identities_file_name) ≡ ok content
      → f.decode_identities content ≡ ok entries
      → (((load_identities_file c identities).0 ≡ ok tt)
          ↔ (All IsUsable entries × AreDistinct entries))
        × ((load_identities_file c identities).1 ≡ entries)
  unfolding load_identities_file
  load_identities_file-AreDistinct c identities entries content there read decoded =
      rw (there, read, decoded, load_identities_file)
        (
          (
            λ accepted.
                let (usable, distinct, _) = (entries-eq-ok [] entries).0 accepted in
                (usable, distinct),
            λ (usable, distinct).
                (entries-eq-ok [] entries).1 (usable, distinct, none_seen entries),
          ),
          refl,
        )

  tokens-eq-ok :
      (tokens : Dict Uuid Bytes) (identities after : List Identity)
      → (append_tokens tokens identities ≡ (ok tt, after)) ↔ (
          All (λ (t : Uuid × Bytes). 0 < length t.1) tokens
          × (after ≡ identities ++ map named tokens))
  unfolding append_tokens
  tokens-eq-ok [] identities after =
      let same : identities ++ [] ≡ identities = append-nil identities in
      (
        λ h. (tt, sym (same ∙ ap (λ (t : Result (Unit {0}) × List Identity). t.1) h)),
        λ (_, h). ap (λ (l : List Identity). (ok tt, l)) (sym (h ∙ same)),
      )
  tokens-eq-ok ((uid, token) ∷ tokens) identities after = ground (
    arith,
    tokens-eq-ok tokens (identities ++ (named (uid, token) ∷ [])) after,
    append_assoc identities (named (uid, token) ∷ []) (map named tokens),
  )

  -- The tokens of the map are accepted exactly where none of them is empty. Their identities are put
  -- behind those that were there before, whatever tokens these have.
  pub load_tokens_lem :
      (c : Config) (identities after : List Identity)
      → (load_tokens c identities ≡ (ok tt, after)) ↔ (
          All (λ (t : Uuid × Bytes). 0 < length t.1) c.tokens
          × (after ≡ identities ++ map named c.tokens))
  unfolding load_tokens
  load_tokens_lem c identities after = tokens-eq-ok c.tokens identities after
