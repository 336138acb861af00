-- ===== src/Samples/LegacyExamples.antt =====
-- The porting of the oldest form of the key file, on the disk in memory.
use ubirch_cose_client_go.Prelude.{
  zero, suc, ◌≡◌, refl, [], ◌∷◌, ◌++◌, Bytes, bytes_eq, bytes_beq, length,
}
use ubirch_cose_client_go.Dict.{Dict, lookup, insert}
use ubirch_cose_client_go.Errors.{codes, ok}
use ubirch_cose_client_go.FileManager.{
  bck, KeyFormat, load_file, load_depth, load_body, read_or_backup, decode_or_backup, back_up,
  persist_file,
}
use ubirch_cose_client_go.LegacyFileManager.{port_keys, port_legacy_keystore_file}
use ubirch_cose_client_go.LegacyFileManager.Porting.{HasNoField, port-port}
use ubirch_cose_client_go.Samples.Disk.{os, disk, encode, entries, format, rename, remove}

-- A field `Keystore` begins with 1, and a map of keys with 0.
abbrev keystore_field : Bytes → Dict Bytes Bytes
keystore_field [] = []
keystore_field (zero ∷ content) = []
keystore_field (suc n ∷ content) = entries (length content) content

abbrev legacy : KeyFormat
legacy = record format {
  encode = λ keys. ok (0 ∷ encode keys);
  decode = λ content keys. (ok tt, keystore_field content);
}

no_field : HasNoField legacy
no_field = record {
  decode-encode = λ keys content uuids written.
      let same : 0 ∷ encode keys ≡ content = cc written in rw (← same);
}

abbrev file : Bytes
file = codes "keys.json"

abbrev keys : Dict Bytes Bytes
keys = (48 ∷ 3 ∷ [], 5 ∷ []) ∷ []

abbrev oldest : Dict Bytes Bytes
oldest = (file, 1 ∷ encode keys) ∷ []

abbrev ported : Dict Bytes Bytes
ported = (file ++ bck, 1 ∷ encode keys) ∷ (file, 0 ∷ encode keys) ∷ []

found : load_file os legacy.decode oldest file [] ≡ (ok tt, keys)
unfolding load_file load_depth load_body read_or_backup decode_or_backup lookup codes bytes_beq
    encode entries
found = refl

ports : port_legacy_keystore_file os legacy file oldest ≡ (ok tt, ported)
unfolding port_legacy_keystore_file port_keys persist_file back_up load_file load_depth load_body
    read_or_backup decode_or_backup lookup insert codes bytes_beq encode entries rename remove
ports = refl

port-port_example : port_legacy_keystore_file os legacy file ported ≡ (ok tt, ported)
port-port_example =
    port-port os (λ w. w) disk legacy file keys oldest ported no_field found ((3, refl), tt) ports
