-- ===== src/FileManager.antt =====
-- file_manager.go: the key file of an older version, and its backup.
pub mod Loading
pub mod Durable
use ubirch_cose_client_go.Prelude.{
  ℕ, zero, suc, Bool, true, false, Option, none, some, List, [], ◌∷◌, ◌++◌, Bytes, bytes_eq,
  if◌then◌else◌,
}
use ubirch_cose_client_go.Codec.Strings.{has_suffix}
use ubirch_cose_client_go.Dict.{Dict, lookup, insert}
use ubirch_cose_client_go.Errors.{Error, text, codes, Result, ok, err, Exec}
use ubirch_cose_client_go.Context.{Uuid}

-- What `os.Stat` finds: a file, an error for which `os.IsNotExist` is true, or another error.
pub data Stat : Type 0 where
  present missing unreadable : Stat

-- The calls of `os` and `ioutil` on files.
pub record Os (W : Type 0) : Type 0 where
  pub stat : Bytes → W → Stat
  pub read_file : Bytes → W → Result Bytes
  pub rename : Bytes → Bytes → Exec W (Unit {0})
  pub write_file : Bytes → Bytes → Exec W (Unit {0})

abbrev pub bck : Bytes
bck = codes ".bck"

abbrev pub key_file_name : Bytes
key_file_name = codes "keys.json"

module _ {W D : Type 0} (os : Os W) (decode : Bytes → Exec D (Unit {0})) (w : W) where
  -- `ioutil.ReadFile`, of the backup if the file cannot be read and is no backup itself
  unfoldable pub read_or_backup : Bytes → Result Bytes
  read_or_backup file = elim (os.read_file file w) [
    | ok content ↦ ok content
    | err x ↦ if has_suffix file bck then err x else os.read_file (file ++ bck) w
  ]

  -- `json.Unmarshal`, and the call of `loadFile` for the backup, `again`, if that fails
  unfoldable pub decode_or_backup : (Bytes → Exec D (Unit {0})) → Bytes → Bytes → Exec D (Unit {0})
  decode_or_backup again file content dest =
      let (r, dest') = decode content dest in
      elim r [
        | ok _ ↦ (ok tt, dest')
        | err x ↦ if has_suffix file bck then (err x, dest') else again (file ++ bck) dest'
      ]

  -- The body of `loadFile`, with the function that it calls for the backup.
  unfoldable pub load_body : (Bytes → Exec D (Unit {0})) → Bytes → Exec D (Unit {0})
  load_body again file dest = elim (os.stat file w) [
    | missing ↦ (ok tt, dest)
    | _ ↦ elim (read_or_backup file) [
      | err x ↦ (err x, dest)
      | ok content ↦ decode_or_backup again file content dest
    ]
  ]

  -- `n` calls, one inside the other, at most
  unfoldable pub load_depth : ℕ → Bytes → Exec D (Unit {0})
  load_depth zero file dest = (err (text []), dest)
  load_depth (suc n) file dest = load_body (load_depth n) file dest

  -- `loadFile`: a file and its backup
  unfoldable pub load_file : Bytes → Exec D (Unit {0})
  load_file = load_depth 2

module _ {W D : Type 0} (os : Os W) (encode : D → Result Bytes) where
  -- the first statement of `persistFile`; a failed rename is only logged
  unfoldable pub back_up : Bytes → W → W
  back_up file w = elim (os.stat file w) [ present ↦ (os.rename file (file ++ bck) w).1 | _ ↦ w ]

  unfoldable pub persist_file : Bytes → D → Exec W (Unit {0})
  persist_file file source w =
      let w' = back_up file w in
      elim (encode source) [ err x ↦ (err x, w') | ok content ↦ os.write_file file content w' ]

-- The fields of `FileManager`.
pub record FileManager : Type 0 where
  pub key_file : Bytes
  pub keystore : Dict Bytes Bytes

-- A `FileManager`, and the files.
pub record OnDisk (W : Type 0) : Type 0 where
  pub manager : FileManager
  pub world : W

-- `encoding/json` of a `map[string][]byte`, `filepath.Join`, and the `String` of a UUID.
pub record KeyFormat : Type 0 where
  pub encode : Dict Bytes Bytes → Result Bytes
  pub decode : Bytes → Exec (Dict Bytes Bytes) (Unit {0})
  pub join : Bytes → Bytes → Bytes
  pub uuid_string : Uuid → Bytes

module _ (f : KeyFormat) where
  unfoldable pub private_key_entry_id : Uuid → Bytes
  private_key_entry_id id = b'_' ∷ f.uuid_string id

  unfoldable pub public_key_entry_id : Uuid → Bytes
  public_key_entry_id id = f.uuid_string id

  unfoldable pub exists_key : Bytes → FileManager → Bool
  exists_key entry_id m = elim (lookup entry_id m.keystore) [ none ↦ false | some key ↦ true ]

  unfoldable pub get_key : Bytes → FileManager → Result Bytes
  get_key entry_id m = elim (lookup entry_id m.keystore) [
    | none ↦ err (text (codes "key not found"))
    | some key ↦ ok key
  ]

  abbrev pub exists_private_key : Uuid → FileManager → Bool
  exists_private_key uid = exists_key (private_key_entry_id uid)

  abbrev pub get_private_key : Uuid → FileManager → Result Bytes
  get_private_key uid = get_key (private_key_entry_id uid)

  abbrev pub get_public_key : Uuid → FileManager → Result Bytes
  get_public_key uid = get_key (public_key_entry_id uid)

  module _ {W : Type 0} (os : Os W) where
    -- `loadKeys` and `NewFileManager`
    unfoldable pub load_keys : W → FileManager → Result (Unit {0}) × FileManager
    load_keys w m =
        let (r, keystore) = load_file os f.decode w m.key_file m.keystore in
        (r, record m { keystore = keystore })

    unfoldable pub new_file_manager : Bytes → W → Result FileManager
    new_file_manager config_dir w =
        let (r, m) =
          load_keys w (record { key_file = f.join config_dir key_file_name; keystore = [] }) in
        elim r [ err x ↦ err x | ok _ ↦ ok m ]

    -- The key stays in memory where it cannot be written.
    abbrev persist_keys : FileManager → Exec W (Unit {0})
    persist_keys m = persist_file os f.encode m.key_file m.keystore

    unfoldable pub set_key : Bytes → Bytes → Exec (OnDisk W) (Unit {0})
    set_key entry_id key s =
        let m : FileManager = record (s.manager) {
          keystore = insert entry_id key s.manager.keystore;
        } in
        let (r, w) = persist_keys m s.world in (r, record { manager = m; world = w })

    abbrev pub set_private_key : Uuid → Bytes → Exec (OnDisk W) (Unit {0})
    set_private_key uid = set_key (private_key_entry_id uid)

    abbrev pub set_public_key : Uuid → Bytes → Exec (OnDisk W) (Unit {0})
    set_public_key uid = set_key (public_key_entry_id uid)
