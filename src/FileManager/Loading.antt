-- ===== src/FileManager/Loading.antt =====
-- The recursion of `loadFile`.
use ubirch_cose_client_go.Prelude.{◌≡◌, ◌∙◌, ap, refl, inl, inr, Bool-cases, false, ◌++◌, Bytes}
use ubirch_cose_client_go.Codec.Strings.{has_suffix, has_suffix-append}
use ubirch_cose_client_go.Errors.{Error, Result, ok, err, Exec, Result-cases}
use ubirch_cose_client_go.FileManager.{
  Os, Stat, present, missing, unreadable, bck, read_or_backup, decode_or_backup, load_body,
  load_depth, load_file,
}

module _ {W D : Type 0} (os : Os W) (decode : Bytes → Exec D (Unit {0})) (w : W) where
  decode_or_backup_cong :
      (again again' : Bytes → Exec D (Unit {0})) (file content : Bytes) (dest : D)
      → (has_suffix file bck ≡ false → (d : D) → again (file ++ bck) d ≡ again' (file ++ bck) d)
      → decode_or_backup os decode w again file content dest
        ≡ decode_or_backup os decode w again' file content dest
  unfolding decode_or_backup
  decode_or_backup_cong again again' file content dest same =
      let (r, dest') = decode content dest in
      elim (Result-cases r) [
        | inl (x, failed) ↦ elim (Bool-cases (has_suffix file bck)) [
          | inl backup ↦ rw (failed, decode_or_backup, backup)
          | inr main ↦ rw (failed, decode_or_backup, main) (same main dest')
        ]
        | inr (_, decoded) ↦ rw (decoded, decode_or_backup)
      ]

  -- Two functions that agree on the backup give the same body.
  load_body_cong :
      (again again' : Bytes → Exec D (Unit {0})) (file : Bytes) (dest : D)
      → (has_suffix file bck ≡ false → (d : D) → again (file ++ bck) d ≡ again' (file ++ bck) d)
      → load_body os decode w again file dest ≡ load_body os decode w again' file dest
  unfolding load_body
  load_body_cong again again' file dest same = by_stat (os.stat file w) refl
    where
      found :
          elim (read_or_backup os decode w file) as (λ _. Result (Unit {0}) × D) [
            | err x ↦ (err x, dest)
            | ok content ↦ decode_or_backup os decode w again file content dest
          ]
          ≡ elim (read_or_backup os decode w file) as (λ _. Result (Unit {0}) × D) [
            | err x ↦ (err x, dest)
            | ok content ↦ decode_or_backup os decode w again' file content dest
          ]
      found = elim (Result-cases (read_or_backup os decode w file)) [
        | inl (x, failed) ↦ rw failed
        | inr (content, read) ↦ rw read (decode_or_backup_cong again again' file content dest same)
      ]

      by_stat :
          (s : Stat)
          → os.stat file w ≡ s
          → load_body os decode w again file dest ≡ load_body os decode w again' file dest
      by_stat present h = rw (h, load_body) found
      by_stat missing h = rw (h, load_body)
      by_stat unreadable h = rw (h, load_body) found

  backup_body :
      (again again' : Bytes → Exec D (Unit {0})) (file : Bytes) (dest : D)
      → load_body os decode w again (file ++ bck) dest
        ≡ load_body os decode w again' (file ++ bck) dest
  backup_body again again' file dest =
      load_body_cong again again' (file ++ bck) dest
        (λ main d. cc (main, has_suffix-append file bck))

  pub load_file_body :
      (file : Bytes) (dest : D)
      → load_file os decode w file dest ≡ load_body os decode w (load_file os decode w) file dest
  unfolding load_file load_depth
  load_file_body file dest =
      load_body_cong (load_depth os decode w 1) (load_file os decode w) file dest
        (λ _ d. backup_body _ _ file d)

  -- The recursion of `loadFile` ends: there is one function that calls itself as it does, and no
  -- other.
  pub load_file-load_body :
      (again : Bytes → Exec D (Unit {0}))
      → ((file : Bytes) (dest : D) → again file dest ≡ load_body os decode w again file dest)
      → (file : Bytes) (dest : D)
      → (load_file os decode w file dest ≡ load_body os decode w (load_file os decode w) file dest)
        × (again file dest ≡ load_file os decode w file dest)
  unfolding load_file load_depth
  load_file-load_body again solves file dest = (
    load_file_body file dest,
    solves file dest
        ∙ load_body_cong again (load_depth os decode w 1) file dest
            (λ _ d. solves (file ++ bck) d ∙ backup_body again (load_depth os decode w 0) file d),
  )

  -- A file that cannot be decoded, and has no backup, is loaded without an error: what the decoder
  -- has left is taken.
  pub load_file_corrupt :
      (file content : Bytes) (x : Error) (dest dest' : D)
      → os.stat file w ≡ present
      → os.read_file file w ≡ ok content
      → decode content dest ≡ (err x, dest')
      → has_suffix file bck ≡ false
      → os.stat (file ++ bck) w ≡ missing
      → load_file os decode w file dest ≡ (ok tt, dest')
  unfolding load_file load_depth load_body read_or_backup decode_or_backup
  load_file_corrupt file content x dest dest' there read failed main alone =
      rw
        (
          there, read, failed, main, alone, load_file, load_depth, load_body, read_or_backup,
          decode_or_backup,
        )
        (ap (λ (t : Result (Unit {0}) × D). (ok tt, t.1)) failed)
