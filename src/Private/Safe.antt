-- ===== src/Private/Safe.antt =====
-- What the checks of private paths establish.
use codex_vault.Prelude.{◌%◌, ◌≡◌, inl, inr, true, false, arith, Bool-cases, ok, Result-cases}
use codex_vault.Prelude.Bytes.{Text}
use codex_vault.Private.{
  FileSystem, Metadata, is_absolute, validate_private_directory, validate_private_file,
  ensure_private_directory, prepare_runtime_root, is_not_found,
}

module _ (f : FileSystem) where
  -- Owned by the user of the process, and closed to the group and to others.
  abbrev pub IsClosed : Metadata → Type 0
  IsClosed m = (m.is_symlink ≡ false) × (m.uid ≡ f.euid) × (m.mode % 64 ≡ 0)

  -- A real directory that only the user of the process can enter.
  abbrev pub IsPrivate : Text → f.State → Type 0
  IsPrivate path s =
      (m : Metadata) × (f.symlink_metadata path s ≡ ok m) × (m.is_dir ≡ true) × IsClosed m

  pub validate_private_directory_ok :
      (path : Text) (s : f.State) → validate_private_directory f path s ≡ ok tt → IsPrivate path s
  unfolding validate_private_directory
  validate_private_directory_ok path s e = elim (Result-cases (f.symlink_metadata path s)) [
    | inl (m, em) ↦ (m, em, ground arith, ground arith)
    | inr (x, em) ↦ absurd (ground arith)
  ]

  pub validate_private_file_ok :
      (path : Text) (s : f.State) (m : Metadata)
      → validate_private_file f path s ≡ ok m
      → (f.symlink_metadata path s ≡ ok m) × (m.is_file ≡ true) × IsClosed m
  unfolding validate_private_file
  validate_private_file_ok path s m e = elim (Result-cases (f.symlink_metadata path s)) [
    | inl (found, em) ↦ ground arith
    | inr (x, em) ↦ absurd (ground arith)
  ]

  -- A call that succeeds ends with a check of the directory that it leaves.
  ensure_private_directory_checked :
      (path : Text) (s : f.State)
      → (ensure_private_directory f path s).0 ≡ ok tt
      → validate_private_directory f path (ensure_private_directory f path s).1 ≡ ok tt
  unfolding ensure_private_directory
  ensure_private_directory_checked path s e = elim (Result-cases (f.symlink_metadata path s)) [
    | inl (m, em) ↦ ground arith
    | inr (x, ex) ↦ elim (Bool-cases (is_not_found f x)) [
      | inl h ↦ elim (Result-cases (f.create_dir 448 path s).0) [
        | inl (_, ec) ↦ ground arith
        | inr (_, ec) ↦ absurd (ground arith)
      ]
      | inr h ↦ absurd (ground arith)
    ]
  ]

  -- The directory is private behind a call that succeeds.
  pub ensure_private_directory-IsPrivate :
      (path : Text) (s : f.State)
      → (ensure_private_directory f path s).0 ≡ ok tt
      → IsPrivate path (ensure_private_directory f path s).1
  ensure_private_directory-IsPrivate path s e =
      validate_private_directory_ok path _ (ensure_private_directory_checked path s e)

  prepare_runtime_root_steps :
      (path result : Text) (s : f.State)
      → (prepare_runtime_root f path s).0 ≡ ok result
      → let t = (ensure_private_directory f path s).1 in
        (is_absolute path ≡ true)
        × ((ensure_private_directory f path s).0 ≡ ok tt)
        × ((prepare_runtime_root f path s).1 ≡ t)
        × (f.canonicalize path t ≡ ok result)
  unfolding prepare_runtime_root
  prepare_runtime_root_steps path result s e = elim (Bool-cases (is_absolute path)) [
    | inl h ↦ elim (Result-cases (ensure_private_directory f path s).0) [
      | inl (_, ed) ↦
          elim (Result-cases (f.canonicalize path (ensure_private_directory f path s).1)) [
            | inl (_, ec) ↦ ground arith
            | inr (_, ec) ↦ absurd (ground arith)
          ]
      | inr (_, ed) ↦ absurd (ground arith)
    ]
    | inr h ↦ absurd (ground arith)
  ]

  abbrev pub IsRuntimeRoot : Text → Text → f.State → Type 0
  IsRuntimeRoot path result s =
      (is_absolute path ≡ true) × IsPrivate path s × (f.canonicalize path s ≡ ok result)

  pub prepare_runtime_root-IsRuntimeRoot :
      (path result : Text) (s : f.State)
      → (prepare_runtime_root f path s).0 ≡ ok result
      → IsRuntimeRoot path result (prepare_runtime_root f path s).1
  prepare_runtime_root-IsRuntimeRoot path result s e =
      let (absolute, ensured, same, canonical) = prepare_runtime_root_steps path result s e in
      rw (same) (absolute, ensure_private_directory-IsPrivate path s ensured, canonical)
