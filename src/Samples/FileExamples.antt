-- ===== src/Samples/FileExamples.antt =====
-- Key files on the disk in memory.
use ubirch_cose_client_go.Prelude.{
  ◌≡◌, refl, some, [], ◌∷◌, ◌++◌, Bytes, bytes_eq, bytes_beq, arith,
}
use ubirch_cose_client_go.Codec.Strings.{has_suffix}
use ubirch_cose_client_go.Dict.{Dict, lookup, insert}
use ubirch_cose_client_go.Errors.{codes, text, ok, err, Exec}
use ubirch_cose_client_go.FileManager.{
  FileManager, OnDisk, bck, key_file_name, load_file, load_body, load_depth, read_or_backup,
  decode_or_backup, back_up, persist_file, set_key, set_private_key, get_private_key,
  get_public_key, new_file_manager, private_key_entry_id,
}
use ubirch_cose_client_go.FileManager.Loading.{load_file_body, load_file-load_body}
use ubirch_cose_client_go.FileManager.Durable.{
  new_file_manager-back_up, new_file_manager-set_private_key,
}
use ubirch_cose_client_go.Samples.Disk.{os, disk, encode, format, json, uuid_text, rename, remove}

abbrev dir : Bytes
dir = 47 ∷ []

abbrev file : Bytes
file = format.join dir key_file_name

abbrev keys : Dict Bytes Bytes
keys = (95 ∷ 48 ∷ 4 ∷ [], 6 ∷ []) ∷ (48 ∷ 4 ∷ [], 8 ∷ []) ∷ []

-- The keys of the identity 4 are on the disk.
abbrev files : Dict Bytes Bytes
files = (file, encode keys) ∷ []

abbrev moved : Dict Bytes Bytes
moved = (file ++ bck, encode keys) ∷ []

renamed : os.rename file (file ++ bck) files ≡ (ok tt, moved)
unfolding rename remove lookup insert codes bytes_beq
renamed = refl

there : lookup file files ≡ some (encode keys)
unfolding lookup codes bytes_beq
there = refl

new_file_manager-back_up_example :
    (new_file_manager format os dir (back_up os format.encode file files)
      ≡ ok (record { key_file = file; keystore = [] }))
    × (lookup (file ++ bck) (back_up os format.encode file files) ≡ some (encode keys))
new_file_manager-back_up_example =
    new_file_manager-back_up os (λ w. w) disk format dir (encode keys) files moved there renamed

abbrev before : OnDisk (Dict Bytes Bytes)
before = record { manager = record { key_file = file; keystore = keys }; world = files }

abbrev more_keys : Dict Bytes Bytes
more_keys = (95 ∷ 48 ∷ 4 ∷ [], 6 ∷ []) ∷ (48 ∷ 4 ∷ [], 8 ∷ []) ∷ (95 ∷ 48 ∷ 3 ∷ [], 9 ∷ []) ∷ []

abbrev after : OnDisk (Dict Bytes Bytes)
after = record {
  manager = record { key_file = file; keystore = more_keys };
  world = (file ++ bck, encode keys) ∷ (file, encode more_keys) ∷ [];
}

-- The key of the identity 3 is set beside those of the identity 4.
set : set_private_key format os 3 (9 ∷ []) before ≡ (ok tt, after)
unfolding set_key persist_file back_up private_key_entry_id rename remove lookup insert codes
    bytes_beq
set = refl

new_file_manager-set_private_key_example :
    (m : FileManager) × (new_file_manager format os dir after.world ≡ ok m)
    × (get_private_key format 3 m ≡ ok (9 ∷ []))
    × (get_private_key format 4 m ≡ get_private_key format 4 before.manager)
    × (get_public_key format 4 m ≡ get_public_key format 4 before.manager)
new_file_manager-set_private_key_example =
    new_file_manager-set_private_key os (λ w. w) disk format dir 3 4 4 (9 ∷ []) before after json
      uuid_text refl set (λ same. ground arith)

-- A decoder that fails on an empty file.
abbrev decoder : Bytes → Exec Bytes (Unit {0})
decoder [] dest = (err (text []), dest)
decoder (c ∷ content) dest = (ok tt, content)

-- The key file is empty, and its backup is not.
abbrev damaged : Dict Bytes Bytes
damaged = (file, []) ∷ (file ++ bck, 1 ∷ 2 ∷ []) ∷ []

recovered : load_file os decoder damaged file [] ≡ (ok tt, 2 ∷ [])
unfolding load_file load_depth load_body read_or_backup decode_or_backup lookup codes bytes_beq
    has_suffix
recovered = refl

load_file-load_body_example :
    (load_file os decoder damaged file []
      ≡ load_body os decoder damaged (load_file os decoder damaged) file [])
    × (load_file os decoder damaged file [] ≡ load_file os decoder damaged file [])
load_file-load_body_example =
    load_file-load_body os decoder damaged (load_file os decoder damaged)
      (load_file_body os decoder damaged) file []
