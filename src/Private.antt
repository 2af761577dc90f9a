-- ===== src/Private.antt =====
-- src/config.rs: private directories and files, and the choice of the runtime root; and what the
-- code calls of `std::fs` and `std::path` for it.
pub mod Safe
pub mod Select
pub mod Kept
use codex_vault.Prelude.{
  [], ℕ, ◌%◌, String, Bool, true, false, not, ◌||◌, Option, none, some, List, ◌∷◌, ◌++◌, ◌==◌,
  if◌then◌else◌, ok, err, ◌>>=◌, map_err, ok_or, fail_if, Action, bind, with_error, ◌>>◌,
}
use codex_vault.Prelude.Bytes.{Text, ascii}
use codex_vault.Error.{
  VaultError, IoError, io, ErrorKind, invalid_configuration, kind, IoResult, VaultResult,
}
use codex_vault.Error.Display.{◌<>◌, decimal}

-- `fs::Metadata`
pub record Metadata : Type 0 where
  pub is_dir : Bool
  pub is_file : Bool
  pub is_symlink : Bool
  pub is_socket : Bool
  pub uid : ℕ
  pub mode : ℕ
  pub len : ℕ
  pub dev : ℕ
  pub ino : ℕ

-- The file system: what is looked up in its state, and what changes the state.
pub record FileSystem : Type 1 where
  pub State : Type 0
  pub symlink_metadata : Text → State → IoResult Metadata
  pub canonicalize : Text → State → IoResult Text
  -- `DirBuilder::new().recursive(true).mode(mode).create(path)`
  pub create_dir : ℕ → Text → Action State IoError (Unit {0})
  -- `geteuid`
  pub euid : ℕ
  -- `Path::display`
  pub printed : Text → String

-- `Path::is_absolute` on a Unix path.
abbrev pub is_absolute : Text → Bool
is_absolute [] = false
is_absolute (b ∷ bs) = b == 47

-- `Path::join` with a relative path.
abbrev pub join : Text → Text → Text
join [] name = name
join (b ∷ []) name = if b == 47 then b ∷ name else b ∷ (47 ∷ name)
join (b ∷ (c ∷ path)) name = b ∷ join (c ∷ path) name

abbrev pub app_name : Text
app_name = ascii "codex-vault"

-- `default_vault_root`, by the variables CODEX_VAULT_HOME and HOME.
unfoldable pub default_vault_root : Option Text → Option Text → VaultResult Text
default_vault_root (some root) home = ok root
default_vault_root none home =
    ok_or home (invalid_configuration "HOME and CODEX_VAULT_HOME are unset") >>= λ path.
    ok (join path (ascii ".codex-vault"))

-- The candidates of `select_runtime_root` on Linux, by XDG_RUNTIME_DIR, the temporary directory and
-- the effective user.
unfoldable pub runtime_candidates : Option Text → Text → ℕ → List Text
runtime_candidates xdg temp_dir uid =
    let private_name = app_name ++ (45 ∷ ascii (decimal uid)) in
    let shared = join (ascii "/dev/shm") private_name ∷ join temp_dir private_name ∷ [] in
    elim xdg [ none ↦ shared | some path ↦ join path app_name ∷ shared ]

module _ (f : FileSystem) where
  -- `mode & 0o077` are the lowest six bits.
  abbrev pub unsafe_access : Metadata → Bool
  unsafe_access m = not (m.uid == f.euid) || not (m.mode % 64 == 0)

  -- `validate_private_directory`
  unfoldable pub validate_private_directory : Text → f.State → VaultResult (Unit {0})
  validate_private_directory path s = do
    metadata ← map_err io (f.symlink_metadata path s)
    fail_if (not metadata.is_dir || metadata.is_symlink)
        (invalid_configuration ("private path is not a real directory: " <> f.printed path))
    fail_if (unsafe_access metadata) (
        invalid_configuration
          ("private directory has unsafe ownership or permissions: " <> f.printed path))

  -- `validate_private_file`
  unfoldable pub validate_private_file : Text → f.State → VaultResult Metadata
  validate_private_file path s = do
    metadata ← map_err io (f.symlink_metadata path s)
    fail_if (not metadata.is_file || metadata.is_symlink)
        (invalid_configuration ("private path is not a real file: " <> f.printed path))
    fail_if (unsafe_access metadata) (
        invalid_configuration
          ("private file has unsafe ownership or permissions: " <> f.printed path))
    ok metadata

  abbrev check : {A : Type 0} → (f.State → VaultResult A) → Action f.State VaultError A
  check look s = (look s, s)

  abbrev pub is_not_found : IoError → Bool
  is_not_found e = elim (kind e) [ ErrorKind.not_found ↦ true | _ ↦ false ]

  -- `ensure_private_directory` on Unix.
  unfoldable pub ensure_private_directory : Text → Action f.State VaultError (Unit {0})
  ensure_private_directory path s = elim (f.symlink_metadata path s) [
    | ok _ ↦ check (validate_private_directory path) s
    | err e ↦
        if is_not_found e
        then bind (with_error io (f.create_dir 448 path))
            (λ _. check (validate_private_directory path)) s
        else (err (io e), s)
  ]

  -- `prepare_runtime_root`
  unfoldable pub prepare_runtime_root : Text → Action f.State VaultError Text
  prepare_runtime_root path s =
      if not (is_absolute path)
      then (
        err (
            invalid_configuration
              "runtime root must be an absolute path; refusing implicit relocation"),
        s,
      )
      else bind (ensure_private_directory path)
          (λ _. check (λ t. map_err io (f.canonicalize path t))) s

  -- The loop of `select_runtime_root_from`: what a candidate that fails has changed stays.
  unfoldable pub first_usable : List Text → Action f.State VaultError Text
  first_usable [] s =
      (err (invalid_configuration "no private writable runtime directory is available"), s)
  first_usable (candidate ∷ candidates) s =
      let (r, t) = prepare_runtime_root candidate s in
      elim r [ ok path ↦ (ok path, t) | err _ ↦ first_usable candidates t ]

  -- `select_runtime_root_from`
  unfoldable pub select_runtime_root_from : Option Text → List Text → Action f.State VaultError Text
  select_runtime_root_from (some path) candidates = prepare_runtime_root path
  select_runtime_root_from none candidates = first_usable candidates

  -- `select_runtime_root`, by CODEX_VAULT_RUNTIME_DIR, XDG_RUNTIME_DIR and the temporary directory.
  unfoldable pub select_runtime_root :
      Option Text → Option Text → Text → Action f.State VaultError Text
  select_runtime_root explicit xdg temp_dir =
      select_runtime_root_from explicit (runtime_candidates xdg temp_dir f.euid)
