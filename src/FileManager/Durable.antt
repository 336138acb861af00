-- ===== src/FileManager/Durable.antt =====
-- What a `FileManager` finds when it is started again.
use ubirch_cose_client_go.Prelude.{
  ◌≡◌, ◌≢◌, ap, sym, inl, inr, none, some, [], ◌∷◌, ◌++◌, Bytes, bytes_beq_iff, bytes_eq, ◌==◌,
  length, length-append, arith, if◌then◌else◌,
}
use ubirch_cose_client_go.Dict.{Dict, lookup, insert, lookup-insert}
use ubirch_cose_client_go.Errors.{codes, ok, Result-cases}
use ubirch_cose_client_go.Context.{Uuid}
use ubirch_cose_client_go.FileManager.{
  Os, present, missing, bck, key_file_name, read_or_backup, decode_or_backup, load_body, load_depth,
  load_file, back_up, persist_file, FileManager, OnDisk, KeyFormat, private_key_entry_id,
  public_key_entry_id, get_key, get_private_key, get_public_key, load_keys, new_file_manager,
  set_key, set_private_key,
}

-- A disk that works: the calls do what they say with the contents of its files.
pub record IsDisk {W : Type 0} (os : Os W) (files : W → Dict Bytes Bytes) : Type 0 where
  pub finds :
      (file content : Bytes) (w : W)
      → lookup file (files w) ≡ some content
      → (os.stat file w ≡ present) × (os.read_file file w ≡ ok content)
  pub misses : (file : Bytes) (w : W) → lookup file (files w) ≡ none → os.stat file w ≡ missing
  pub renames :
      (from to other : Bytes) (w w' : W)
      → os.rename from to w ≡ (ok tt, w')
      → lookup other (files w') ≡ (
          if to == other
          then lookup from (files w)
          else if from == other
          then none
          else lookup other (files w))
  pub writes :
      (file content other : Bytes) (w w' : W)
      → os.write_file file content w ≡ (ok tt, w')
      → lookup other (files w') ≡ (if file == other then some content else lookup other (files w))

-- `encoding/json` reads back what it wrote, into an empty map.
pub record IsJson (f : KeyFormat) : Type 0 where
  pub decode-encode :
      (keys : Dict Bytes Bytes) (content : Bytes)
      → f.encode keys ≡ ok content
      → (read : Dict Bytes Bytes) × (f.decode content [] ≡ (ok tt, read))
        × ((k : Bytes) → lookup k read ≡ lookup k keys)

-- The text of a UUID is no other's, and its first character is a digit or a letter.
pub record IsUuidText (f : KeyFormat) : Type 0 where
  pub injective : (a b : Uuid) → f.uuid_string a ≡ f.uuid_string b → a ≡ b
  pub plain : (a : Uuid) (t : Bytes) → f.uuid_string a ≢ b'_' ∷ t

append_suffix-ne : (file : Bytes) → file ≢ file ++ bck
unfolding codes
append_suffix-ne file same = omega (arith, ap length same, length-append file bck)

module _ {W : Type 0} (os : Os W) (files : W → Dict Bytes Bytes) (disk : IsDisk os files)
    (f : KeyFormat) (config_dir : Bytes) where
  new_file_manager-missing :
      (w : W)
      → os.stat (f.join config_dir key_file_name) w ≡ missing
      → new_file_manager f os config_dir w
        ≡ ok (record { key_file = f.join config_dir key_file_name; keystore = [] })
  unfolding new_file_manager load_keys load_file load_depth load_body
  new_file_manager-missing w absent = ground (arith, absent)

  back_up_present :
      (file : Bytes) (w w' : W)
      → os.stat file w ≡ present
      → os.rename file (file ++ bck) w ≡ (ok tt, w')
      → back_up os f.encode file w ≡ w'
  unfolding back_up
  back_up_present file w w' seen renamed = ground (arith, seen, renamed)

  -- On a disk that works: if `persistFile` ends behind its first statement, and the rename has
  -- succeeded, a `FileManager` that is started again has no keys and reports no error. What the key
  -- file held is in the backup.
  pub new_file_manager-back_up :
      (content : Bytes) (w w' : W)
      → lookup (f.join config_dir key_file_name) (files w) ≡ some content
      → os.rename (f.join config_dir key_file_name) (f.join config_dir key_file_name ++ bck) w
        ≡ (ok tt, w')
      → (new_file_manager f os config_dir (back_up os f.encode (f.join config_dir key_file_name) w)
          ≡ ok (record { key_file = f.join config_dir key_file_name; keystore = [] }))
        × (lookup
              (f.join config_dir key_file_name ++ bck)
              (files (back_up os f.encode (f.join config_dir key_file_name) w))
            ≡ some content)
  new_file_manager-back_up content w w' there renamed =
      let file = f.join config_dir key_file_name in
      let (seen, _) = disk.finds file content w there in
      let gone : lookup file (files w') ≡ none = ground (
        arith,
        disk.renames file (file ++ bck) file w w' renamed,
        append_suffix-ne file,
        bytes_beq_iff (file ++ bck) file,
        bytes_beq_iff file file,
      ) in
      let kept : lookup (file ++ bck) (files w') ≡ some content = ground (
        arith,
        disk.renames file (file ++ bck) (file ++ bck) w w' renamed,
        bytes_beq_iff (file ++ bck) (file ++ bck),
      ) in
      let absent = disk.misses file w' gone in
      let moved = back_up_present file w w' seen renamed in
      (rw moved (new_file_manager-missing w' absent), rw moved kept)

  pub load_file_present :
      (file content : Bytes) (read : Dict Bytes Bytes) (w : W)
      → lookup file (files w) ≡ some content
      → f.decode content [] ≡ (ok tt, read)
      → load_file os f.decode w file [] ≡ (ok tt, read)
  unfolding load_file load_depth load_body read_or_backup decode_or_backup
  load_file_present file content read w there decoded =
      ground (arith, disk.finds file content w there, decoded)

  new_file_manager_present :
      (content : Bytes) (read : Dict Bytes Bytes) (w : W)
      → lookup (f.join config_dir key_file_name) (files w) ≡ some content
      → f.decode content [] ≡ (ok tt, read)
      → new_file_manager f os config_dir w
        ≡ ok (record { key_file = f.join config_dir key_file_name; keystore = read })
  unfolding new_file_manager load_keys
  new_file_manager_present content read w there decoded =
      ground
        (arith, load_file_present (f.join config_dir key_file_name) content read w there decoded)

  pub persist_file-eq-ok :
      (file : Bytes) (keys : Dict Bytes Bytes) (w w' : W)
      → persist_file os f.encode file keys w ≡ (ok tt, w')
      → (content : Bytes) × (f.encode keys ≡ ok content) × (lookup file (files w') ≡ some content)
  unfolding persist_file
  persist_file-eq-ok file keys w w' h = elim (Result-cases (f.encode keys)) [
    | inl (x, failed) ↦ ground arith
    | inr (content, encoded) ↦
        let written : os.write_file file content (back_up os f.encode file w) ≡ (ok tt, w') =
          ground arith in
        (
          content,
          encoded,
          ground (
            arith,
            disk.writes file content file (back_up os f.encode file w) w' written,
            bytes_beq_iff file file,
          ),
        )
  ]

  -- What is persisted is found when the manager is started again.
  restarted :
      (keys : Dict Bytes Bytes) (w w' : W)
      → IsJson f
      → persist_file os f.encode (f.join config_dir key_file_name) keys w ≡ (ok tt, w')
      → (read : Dict Bytes Bytes) × (new_file_manager f os config_dir w'
          ≡ ok (record { key_file = f.join config_dir key_file_name; keystore = read }))
        × ((k : Bytes) → lookup k read ≡ lookup k keys)
  restarted keys w w' json h =
      let (content, encoded, there) =
        persist_file-eq-ok (f.join config_dir key_file_name) keys w w' h in
      let (read, decoded, same) = json.decode-encode keys content encoded in
      (read, new_file_manager_present content read w' there decoded, same)

  private-ne-private :
      (a b : Uuid) → IsUuidText f → a ≢ b → private_key_entry_id f a ≢ private_key_entry_id f b
  unfolding private_key_entry_id
  private-ne-private a b texts differ same = differ (texts.injective a b (cc same))

  private-ne-public :
      (a b : Uuid) → IsUuidText f → private_key_entry_id f a ≢ public_key_entry_id f b
  unfolding private_key_entry_id public_key_entry_id
  private-ne-public a b texts same = texts.plain b (f.uuid_string a) (sym same)

  -- Where `SetPrivateKey` returns no error, a manager that is started again has the key, and every
  -- other private key and all public keys that the manager had before. The conditions: the disk
  -- works, JSON is read back as it was written, and UUIDs have texts of their own.
  pub new_file_manager-set_private_key :
      (uid other public : Uuid) (key : Bytes) (s s' : OnDisk W)
      → IsJson f
      → IsUuidText f
      → s.manager.key_file ≡ f.join config_dir key_file_name
      → set_private_key f os uid key s ≡ (ok tt, s')
      → other ≢ uid
      → (m : FileManager) × (new_file_manager f os config_dir s'.world ≡ ok m)
        × (get_private_key f uid m ≡ ok key)
        × (get_private_key f other m ≡ get_private_key f other s.manager)
        × (get_public_key f public m ≡ get_public_key f public s.manager)
  unfolding set_key get_key
  new_file_manager-set_private_key uid other public key s s' json texts here set differ =
      let entry = private_key_entry_id f uid in
      let keys : Dict Bytes Bytes = insert entry key s.manager.keystore in
      let written : persist_file os f.encode (f.join config_dir key_file_name) keys s.world
          ≡ (ok tt, s'.world) =
        ground (arith, here) in
      let (read, started, same) = restarted keys s.world s'.world json written in
      let at = λ (k : Bytes). lookup-insert k entry key s.manager.keystore in
      (
        record { key_file = f.join config_dir key_file_name; keystore = read },
        started,
        ground (arith, same entry, at entry, bytes_beq_iff entry entry),
        ground (
          arith,
          same (private_key_entry_id f other),
          at (private_key_entry_id f other),
          bytes_beq_iff entry (private_key_entry_id f other),
          private-ne-private uid other texts (λ e. differ (sym e)),
        ),
        ground (
          arith,
          same (public_key_entry_id f public),
          at (public_key_entry_id f public),
          bytes_beq_iff entry (public_key_entry_id f public),
          private-ne-public uid public texts,
        ),
      )
