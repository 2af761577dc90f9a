-- ===== src/Store/Disk.antt =====
-- src/store.rs: the files of a profile, its manifest and its lock.
use codex_vault.Prelude.{
  on_error, ℕ, ◌+◌, Option, none, some, [], ◌∷◌, ◌++◌, ltb, length, ok, ◌>>=◌, ◌>>◌, map_err, ok_or,
  fail_if, Action, bind, lift, with_error,
}
use mathlib.Core.List.{map}
use codex_vault.Prelude.Bytes.{Bytes, Text, ascii}
use codex_vault.Error.{
  VaultError, VaultResult, IoError, ErrorKind, io, kind, locked, invalid_configuration,
  serialization,
}
use codex_vault.Error.Display.{decimal, display_io}
use codex_vault.Manifest.{UserManifest, validate}
use codex_vault.Private.{join, default_vault_root, ensure_private_directory, validate_private_file}
use codex_vault.Files.{parent}
use codex_vault.Store.{to_ascii_lowercase}
use codex_vault.Store.Host.{Host, is_uuid}

abbrev pub manifest_size_limit : ℕ
manifest_size_limit = 65536

pub record VaultStore : Type 0 where
  pub root : Text
  pub runtime_root : Option Text

-- `VaultStore::new` and `with_runtime_root`
abbrev pub new : Text → VaultStore
new root = record { root = root; runtime_root = none }

abbrev pub with_runtime_root : VaultStore → Text → VaultStore
with_runtime_root store runtime_root = record store { runtime_root = some runtime_root }

-- `from_environment`, by the variables CODEX_VAULT_HOME and HOME.
abbrev pub from_environment : Option Text → Option Text → VaultResult VaultStore
from_environment vault_home home = default_vault_root vault_home home >>= λ root. ok (new root)

abbrev pub users_root : VaultStore → Text
users_root store = join store.root (ascii "users")

unfoldable pub user_root : VaultStore → Text → Text
user_root store username = join (users_root store) (map to_ascii_lowercase username)

abbrev pub manifest_path : Text → Text
manifest_path user_root = join user_root (ascii "manifest.json")

abbrev pub state_path : Text → Text
state_path user_root = join user_root (ascii "state.cvlt")

abbrev pub lock_path : Text → Text
lock_path user_root = join user_root (ascii "active.lock")

abbrev pub temporary_manifest : Text → Text → Text
temporary_manifest uuid directory = join directory (ascii ".manifest-" ++ (uuid ++ ascii ".tmp"))

module _ (h : Host) where
  abbrev pub Call : Type 0 → Type 0
  Call A = Action h.system.State VaultError A

  abbrev pub look : {A : Type 0} → (h.system.State → VaultResult A) → Call A
  look m s = (m s, s)

  -- `initialize`
  unfoldable pub initialize : VaultStore → Call (Unit {0})
  initialize store =
      bind (ensure_private_directory h.system store.root)
        (λ _. ensure_private_directory h.system (users_root store))

  -- `write_private_json`; an error of the file while the JSON text is written is one of `serde_json`.
  unfoldable pub write_private_json : Text → UserManifest → Call (Unit {0})
  write_private_json path value = bind (with_error io (h.files.create_new 384 path)) (λ _.
      bind (lift (map_err serialization (h.json.to_vec value))) (λ text.
        bind (with_error (λ e. serialization (display_io e)) (h.files.write_all path text)) (λ _.
          with_error io (bind (h.files.write_all path (10 ∷ [])) (λ _. h.files.sync_all path)))))

  -- `replace_private_json`, by the random UUID in the name of the temporary file.
  unfoldable pub replace_private_json : Text → Text → UserManifest → Call (Unit {0})
  replace_private_json uuid path value =
      bind
        (lift (ok_or (parent path) (invalid_configuration "manifest path has no parent directory")))
        (λ directory.
          let temporary = temporary_manifest uuid directory in
          on_error (λ s. (h.files.remove_file temporary s).1)
            (bind (write_private_json temporary value) (λ _. with_error io (
              bind (h.files.rename temporary path)
                (λ _. bind (h.files.open_file directory) (λ _. h.files.sync_all directory))))))

  unfoldable pub parse_manifest : Bytes → VaultResult UserManifest
  parse_manifest contents = do
    fail_if (ltb manifest_size_limit (length contents))
        (invalid_configuration "user manifest exceeds size limit")
    manifest ← map_err serialization (h.json.from_slice contents)
    validate (is_uuid h) manifest
    ok manifest

  -- `read_manifest`. The limit is tested on the length that the file system reports, and again on
  -- what was read. A length fits a `usize` on the platforms of the program.
  unfoldable pub read_manifest : Text → Call UserManifest
  read_manifest user_root =
      let path = manifest_path user_root in
      bind (look (validate_private_file h.system path)) (λ metadata.
        bind
          (lift (
            fail_if (ltb manifest_size_limit metadata.len)
              (invalid_configuration "invalid user manifest file")))
          (λ _.
            bind
              (with_error io (
                bind (h.files.open_read path)
                  (λ _. h.files.read_to_end (manifest_size_limit + 1) path)))
              (λ contents. lift (parse_manifest contents))))

  abbrev lock_error : IoError → VaultError
  lock_error e = elim (kind e) [ ErrorKind.would_block ↦ locked | _ ↦ io e ]

  -- The text that the lock file holds, in the pieces that `writeln!` writes.
  unfoldable pub write_process_id : Text → Call (Unit {0})
  write_process_id path = with_error io (
      bind (h.files.set_len 0 path) (λ _. bind (h.files.seek_start 0 path) (λ _.
        bind (h.files.write_all path (123 ∷ 34 ∷ (ascii "pid" ++ (34 ∷ 58 ∷ [])))) (λ _.
          bind (h.files.write_all path (ascii (decimal h.process_id)))
            (λ _. bind (h.files.write_all path (125 ∷ 10 ∷ [])) (λ _. h.files.flush path))))))

  -- `acquire_lock`; where it fails behind the lock, the handle is dropped with the lock.
  unfoldable pub acquire_lock : Text → Call (Unit {0})
  acquire_lock path =
      bind
        (with_error io
          (bind (h.files.open_or_create 384 path) (λ _. h.files.set_permissions 384 path)))
        (λ _.
          bind (with_error lock_error (h.files.try_lock_exclusive path))
            (λ _. on_error (h.files.drop_lock path) (write_process_id path)))
