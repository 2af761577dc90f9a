-- ===== src/Store/Read.antt =====
-- What is read of a profile, and what the lock of a profile leaves alone.
use codex_vault.Prelude.{
  ◌+◌, ◌≤◌, ◌≡◌, sym, ap, ◌∙◌, ◌≢◌, inl, inr, true, arith, length, take, length-take, take_all, ok,
  Result-cases, Keeps, keeps_rules,
}
use codex_vault.Prelude.Bytes.{Bytes, Text}
use codex_vault.Manifest.{UserManifest, validate}
use codex_vault.Private.Safe.{IsClosed, validate_private_file_ok}
use codex_vault.Private.{Metadata, validate_private_file}
use codex_vault.Files.Contents.{IsFiles}
use codex_vault.Store.Host.{Host, is_uuid}
use codex_vault.Store.Disk.{
  read_manifest, parse_manifest, manifest_path, manifest_size_limit, acquire_lock, write_process_id,
  lock_path,
}
use codex_vault.Store.Session.{lock_profile}

module _ (h : Host) (laws : IsFiles h.files) where
  open laws use {content}

  pub read_manifest-Keeps : (q root : Text) → Keeps (content q) (read_manifest h root)
  unfolding read_manifest
  read_manifest-Keeps q root =
      search (keeps_rules, laws.open_read_keeps, laws.read_to_end_keeps) depth 14

  write_process_id-Keeps : (q path : Text) → q ≢ path → Keeps (content q) (write_process_id h path)
  unfolding write_process_id
  write_process_id-Keeps q path other =
      search
        (
          keeps_rules, laws.set_len_keeps, laws.seek_start_keeps, laws.write_all_keeps,
          laws.flush_keeps,
        )
        depth 14

  acquire_lock-Keeps : (q path : Text) → q ≢ path → Keeps (content q) (acquire_lock h path)
  unfolding acquire_lock
  acquire_lock-Keeps q path other =
      search
        (
          keeps_rules, laws.open_or_create_keeps, laws.set_permissions_keeps, laws.try_lock_keeps,
          laws.drop_lock_leaves, write_process_id-Keeps,
        )
        depth 14

  pub lock_profile-Keeps :
      (q root : Text) → q ≢ lock_path root → Keeps (content q) (lock_profile h root)
  unfolding lock_profile
  lock_profile-Keeps q root other = search (keeps_rules, acquire_lock-Keeps) depth 14

  whole :
      (bytes contents : Bytes)
      → bytes ≡ take (manifest_size_limit + 1) contents
      → length bytes ≤ manifest_size_limit
      → bytes ≡ contents
  whole bytes contents e l =
      e
      ∙ take_all (manifest_size_limit + 1) contents
          (omega (arith, length-take (manifest_size_limit + 1) contents, ap length e))

  -- A manifest that is read with success stood in the file as a whole, within the limit, in a
  -- private file, and is valid.
  pub read_manifest_ok :
      (root : Text) (s : h.system.State) (m : UserManifest)
      → (read_manifest h root s).0 ≡ ok m
      → let p = manifest_path root in
        (h.json.from_slice (content p s) ≡ ok m)
        × (length (content p s) ≤ manifest_size_limit)
        × (validate (is_uuid h) m ≡ ok tt)
        × ((file : Metadata) × (h.system.symlink_metadata p s ≡ ok file)
            × (file.is_file ≡ true)
            × IsClosed h.system file)
  unfolding read_manifest parse_manifest
  read_manifest_ok root s m e =
      let p = manifest_path root in
      let t = (h.files.open_read p s).1 in
      elim (Result-cases (validate_private_file h.system p s)) [
        | inr (x, ev) ↦ absurd (ground arith)
        | inl (file, ev) ↦ elim (Result-cases (h.files.open_read p s).0) [
          | inr (x, eo) ↦ absurd (ground arith)
          | inl (_, eo) ↦
              elim (Result-cases (h.files.read_to_end (manifest_size_limit + 1) p t).0) [
                | inr (x, er) ↦ absurd (ground arith)
                | inl (bytes, er) ↦ elim (Result-cases (h.json.from_slice bytes)) [
                  | inr (x, ej) ↦ absurd (ground arith)
                  | inl (read, ej) ↦ elim (Result-cases (validate (is_uuid h) read)) [
                    | inr (x, el) ↦ absurd (ground arith)
                    | inl (_, el) ↦
                        let (found, is_file, closed) =
                          validate_private_file_ok h.system p s file ev in
                        let read_whole : bytes ≡ content p s =
                          whole bytes (content p s)
                            (laws.read_to_end_ok (manifest_size_limit + 1) p t bytes er
                              ∙ ap (take (manifest_size_limit + 1))
                                  ((laws.open_read_keeps p p).keeps s))
                            (ground arith) in
                        let same : read ≡ m = ground arith in
                        (
                          ap h.json.from_slice (sym read_whole) ∙ ej ∙ ap ok same,
                          rw (← read_whole) (ground arith),
                          ap (validate (is_uuid h)) (sym same) ∙ el,
                          (file, found, is_file, closed),
                        )
                  ]
                ]
              ]
        ]
      ]
