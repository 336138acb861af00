-- ===== src/Migration/Named.antt =====
-- The identities that a configuration names, in its file of identities and in its map of tokens.
use mathlib.Core.Path.{subst}
use ubirch_cose_client_go.Prelude.{
  ◌≡◌, ◌<◌, ap, inl, inr, true, false, Bool-cases, List, [], ◌++◌, map, length, All, Bytes, arith,
}
use ubirch_cose_client_go.Errors.{Result, ok, Result-cases}
use ubirch_cose_client_go.Context.{Uuid, Identity}
use ubirch_cose_client_go.Libs.{Go}
use ubirch_cose_client_go.Config.{Config, Files, identities_file_name}
use ubirch_cose_client_go.Config.Accounts.{
  IsUsable, AreDistinct, named, load_identities_file, load_tokens, load_identities_file-AreDistinct,
  load_tokens_lem,
}

-- What the file of identities names: nothing if there is no such file, and else its entries, each
-- with a UUID and a token, and no two with the same token.
pub data FileNames (files : Files) (c : Config) (identities : List Identity) : Type 0 where
  no_file :
      files.is_missing (files.join c.config_dir identities_file_name) ≡ true
      → identities ≡ []
      → FileNames files c identities
  entries :
      (content : Bytes)
      → files.is_missing (files.join c.config_dir identities_file_name) ≡ false
      → files.read_file (files.join c.config_dir identities_file_name) ≡ ok content
      → files.decode_identities content ≡ ok identities
      → All IsUsable identities
      → AreDistinct identities
      → FileNames files c identities

-- The identities that a configuration names: those of the file, and behind them one for each entry of
-- the map of tokens, none of which is empty.
pub record Names (files : Files) (c : Config) (identities : List Identity) : Type 0 where
  pub from_file : List Identity
  pub file : FileNames files c from_file
  pub tokens : All (λ (t : Uuid × Bytes). 0 < length t.1) c.tokens
  pub all : identities ≡ from_file ++ map named c.tokens

module _ {PublicKey : Type 0} (files : Files) (go : Go PublicKey) (c : Config) where
  file-FileNames :
      (identities : List Identity)
      → load_identities_file files go c [] ≡ (ok tt, identities)
      → FileNames files c identities
  unfolding load_identities_file
  file-FileNames identities h =
      let file = files.join c.config_dir identities_file_name in
      elim (Bool-cases (files.is_missing file)) [
        | inl missing ↦ no_file missing (ground arith)
        | inr there ↦ elim (Result-cases (files.read_file file)) [
          | inl (x, failed) ↦ ground arith
          | inr (content, read) ↦ elim (Result-cases (files.decode_identities content)) [
            | inl (x, failed) ↦ ground arith
            | inr (found, decoded) ↦
                let (accepted, same) =
                  load_identities_file-AreDistinct files go c [] found content there read decoded in
                let here : found ≡ identities = ground (arith, same) in
                let (usable, distinct) =
                  accepted.0 (ap (λ (t : Result (Unit {0}) × List Identity). t.0) h) in
                subst (FileNames files c) here (entries content there read decoded usable distinct)
          ]
        ]
      ]

  pub tokens-Names :
      (found all : List Identity)
      → load_identities_file files go c [] ≡ (ok tt, found)
      → load_tokens files go c found ≡ (ok tt, all)
      → Names files c all
  tokens-Names found all first second =
      let (tokens, same) = (load_tokens_lem files go c found all).0 second in
      record { from_file = found; file = file-FileNames found first; tokens = tokens; all = same }
