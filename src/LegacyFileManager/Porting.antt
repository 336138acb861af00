-- ===== src/LegacyFileManager/Porting.antt =====
-- The porting of the oldest form of the key file.
use ubirch_cose_client_go.Prelude.{◌≡◌, ap, inl, inr, [], ◌∷◌, Bytes, bytes_eq, arith}
use ubirch_cose_client_go.Dict.{Dict, Entries}
use ubirch_cose_client_go.Errors.{Result, ok, Result-cases}
use ubirch_cose_client_go.Context.{Uuid}
use ubirch_cose_client_go.FileManager.{Os, load_file, persist_file, KeyFormat}
use ubirch_cose_client_go.FileManager.Durable.{IsDisk, load_file_present, persist_file-eq-ok}
use ubirch_cose_client_go.LegacyFileManager.{port_keys, port_legacy_keystore_file}

-- The key of an entry is the text of a UUID.
abbrev pub IsUuidKey : KeyFormat → Bytes → Bytes → Type 0
IsUuidKey legacy key value = (uid : Uuid) × (legacy.uuid_string uid ≡ key)

-- A map whose keys are UUIDs has no field of `legacyCryptoCtx`: `encoding/json` leaves the keystore
-- empty where it reads such a map.
pub record HasNoField (legacy : KeyFormat) : Type 0 where
  pub decode-encode :
      (keys : Dict Bytes Bytes) (content : Bytes)
      → Entries (IsUuidKey legacy) keys
      → legacy.encode keys ≡ ok content
      → legacy.decode content [] ≡ (ok tt, [])

module _ {W : Type 0} (os : Os W) (files : W → Dict Bytes Bytes) (disk : IsDisk os files)
    (legacy : KeyFormat) where
  port_empty :
      (file : Bytes) (w : W)
      → load_file os legacy.decode w file [] ≡ (ok tt, [])
      → port_legacy_keystore_file os legacy file w ≡ (ok tt, w)
  unfolding port_legacy_keystore_file port_keys
  port_empty file w loaded = ground (arith, loaded)

  port_keys-port :
      (file : Bytes) (keys : Dict Bytes Bytes) (w w' : W)
      → HasNoField legacy
      → Entries (IsUuidKey legacy) keys
      → load_file os legacy.decode w file [] ≡ (ok tt, keys)
      → port_keys os legacy file keys w ≡ (ok tt, w')
      → port_legacy_keystore_file os legacy file w' ≡ (ok tt, w')
  unfolding port_keys
  port_keys-port file [] w w' none_left uuids loaded h =
      let same : w ≡ w' = ap (λ (t : Result (Unit {0}) × W). t.1) h in
      rw (← same) (port_empty file w loaded)
  port_keys-port file (key ∷ keys) w w' none_left uuids loaded h =
      let (r, w1) = persist_file os legacy.encode file (key ∷ keys) w in
      elim (Result-cases r) [
        | inl (x, failed) ↦ ground arith
        | inr (_, done) ↦
            let (content, encoded, there) =
              persist_file-eq-ok os files disk legacy [] file (key ∷ keys) w w' (ground arith) in
            port_empty file w' (
              load_file_present os files disk legacy [] file content [] w' there
                (none_left.decode-encode (key ∷ keys) content uuids encoded))
      ]

  -- On a disk that works, a key file that was ported without an error is not ported again: the
  -- second run finds no legacy keystore in it and changes nothing, the keys being UUIDs.
  pub port-port :
      (file : Bytes) (keys : Dict Bytes Bytes) (w w' : W)
      → HasNoField legacy
      → load_file os legacy.decode w file [] ≡ (ok tt, keys)
      → Entries (IsUuidKey legacy) keys
      → port_legacy_keystore_file os legacy file w ≡ (ok tt, w')
      → port_legacy_keystore_file os legacy file w' ≡ (ok tt, w')
  unfolding port_legacy_keystore_file
  port-port file keys w w' none_left loaded uuids h =
      let ported : port_keys os legacy file keys w ≡ (ok tt, w') = ground (arith, loaded) in
      port_keys-port file keys w w' none_left uuids loaded ported
