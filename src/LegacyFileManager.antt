-- ===== src/LegacyFileManager.antt =====
-- legacy_file_manager.go: the key file with encrypted keys, and the porting of its oldest form.
pub mod Porting
use ubirch_cose_client_go.Prelude.{Bool, true, false, List, [], ◌∷◌, ◌++◌, Bytes}
use ubirch_cose_client_go.Dict.{Dict}
use ubirch_cose_client_go.Errors.{text, codes, wrap, Result, ok, err, Exec}
use ubirch_cose_client_go.Context.{Uuid}
use ubirch_cose_client_go.FileManager.{Os, key_file_name, load_file, persist_file, KeyFormat}

-- `ubirch.EncryptedKeystore`, over its own state, and `encoding/json` of its `Keystore` field.
pub record EncryptedKeystore (K : Type 0) : Type 0 where
  pub new_encrypted_keystore : Bytes → K
  pub get_ids : K → Result (List Uuid)
  pub get_private_key : Uuid → K → Result Bytes
  pub set_private_key : Uuid → Bytes → Exec K (Unit {0})
  pub get_public_key : Uuid → K → Result Bytes
  pub set_public_key : Uuid → Bytes → Exec K (Unit {0})
  pub encode : K → Result Bytes
  pub decode : Bytes → Exec K (Unit {0})

-- The fields of `LegacyFileManager`.
pub record LegacyFileManager (K : Type 0) : Type 0 where
  pub key_file : Bytes
  pub keystore : K

module _ {W : Type 0} (os : Os W) (legacy : KeyFormat) where
  -- what follows where the legacy keystore was loaded
  unfoldable pub port_keys : Bytes → Dict Bytes Bytes → Exec W (Unit {0})
  port_keys file [] w = (ok tt, w)
  port_keys file (key ∷ keys) w =
      let (r, w') = persist_file os legacy.encode file (key ∷ keys) w in
      elim r [ err x ↦ (err (wrap "unable to persist keys" x), w') | ok _ ↦ (ok tt, w') ]

  -- `legacy` is the JSON of `legacyCryptoCtx` where it is read, and of its map where it is written.
  unfoldable pub port_legacy_keystore_file : Bytes → Exec W (Unit {0})
  port_legacy_keystore_file file w =
      let (r, keys) = load_file os legacy.decode w file [] in
      elim r [
        | err x ↦ (err (wrap "unable to load legacy protocol context" x), w)
        | ok _ ↦ port_keys file keys w
      ]

  module _ {K : Type 0} (e : EncryptedKeystore K) where
    unfoldable pub load_keys : W → LegacyFileManager K → Result (Unit {0}) × LegacyFileManager K
    load_keys w m =
        let (r, keystore) = load_file os e.decode w m.key_file m.keystore in
        (r, record m { keystore = keystore })

    unfoldable pub persist_keys : LegacyFileManager K → Exec W (Unit {0})
    persist_keys m = persist_file os e.encode m.key_file m.keystore

    -- behind `loadKeys`: the IDs are only counted
    abbrev opened : Result (Unit {0}) × LegacyFileManager K → Result (LegacyFileManager K)
    opened (err x, m) = err x
    opened (ok _, m) = elim (e.get_ids m.keystore) [ err x ↦ err x | ok ids ↦ ok m ]

    unfoldable pub new_legacy_file_manager : Bytes → Bytes → Exec W (LegacyFileManager K)
    new_legacy_file_manager config_dir secret w =
        let file = legacy.join config_dir key_file_name in
        let (r, w') = port_legacy_keystore_file file w in
        elim r [
          | err x ↦ (err x, w')
          | ok _ ↦ (
            opened (
                load_keys w'
                  (record { key_file = file; keystore = e.new_encrypted_keystore secret })),
            w',
          )
        ]

    -- any error counts as the lack of the key
    unfoldable pub exists : Uuid → LegacyFileManager K → Result Bool
    exists uid m = elim (e.get_private_key uid m.keystore) [ err x ↦ ok false | ok key ↦ ok true ]

    unfoldable pub get_private_key : Uuid → LegacyFileManager K → Result Bytes
    get_private_key uid m = e.get_private_key uid m.keystore

    unfoldable pub get_public_key : Uuid → LegacyFileManager K → Result Bytes
    get_public_key uid m = e.get_public_key uid m.keystore

    -- in memory only
    unfoldable pub set_private_key : Uuid → Bytes → Exec (LegacyFileManager K) (Unit {0})
    set_private_key uid key m =
        let (r, keystore) = e.set_private_key uid key m.keystore in
        (r, record m { keystore = keystore })

    unfoldable pub set_public_key : Uuid → Bytes → Exec (LegacyFileManager K) (Unit {0})
    set_public_key uid key m =
        let (r, keystore) = e.set_public_key uid key m.keystore in
        (r, record m { keystore = keystore })
