-- ===== src/Tests/PrivatePaths.antt =====
-- A file system with one private directory and one that is open to all.
use codex_vault.Prelude.{[], ◌≡◌, refl, ok, err, none, true, false, ◌∷◌, if◌then◌else◌, List}
use mathlib.Core.List.{Memᴰ}
use codex_vault.Prelude.Bytes.{Text, ascii, eq_bytes}
use codex_vault.Error.{os, ErrorKind, IoResult}
use codex_vault.Private.{
  FileSystem, Metadata, select_runtime_root_from, first_usable, prepare_runtime_root,
  ensure_private_directory, validate_private_directory,
}
use codex_vault.Private.Safe.{IsRuntimeRoot}
use codex_vault.Private.Select.{tried, select_runtime_root_from-IsRuntimeRoot}

-- The directories are listed, the private one first.
look_up : Text → IoResult Metadata
unfolding eq_bytes
look_up path =
    if eq_bytes path (ascii "/run/vault")
    then ok (record {
      is_dir = true;
      is_file = false;
      is_symlink = false;
      is_socket = false;
      uid = 1000;
      mode = 16832;
      len = 0;
      dev = 1;
      ino = 7;
    })
    else if eq_bytes path (ascii "/tmp")
    then ok (record {
      is_dir = true;
      is_file = false;
      is_symlink = false;
      is_socket = false;
      uid = 0;
      mode = 17407;
      len = 0;
      dev = 1;
      ino = 7;
    })
    else err (os ErrorKind.not_found "No such file or directory")

abbrev two_directories : FileSystem
two_directories = record {
  State = List Text;
  symlink_metadata = λ path s. look_up path;
  canonicalize = λ path s. ok path;
  create_dir = λ mode path s. (err (os ErrorKind.permission_denied "Permission denied"), s);
  euid = 1000;
  printed = λ path. "path";
}

abbrev candidates : List Text
candidates = ascii "/tmp" ∷ ascii "/run/vault" ∷ []

selects : (select_runtime_root_from two_directories none candidates []).0 ≡ ok (ascii "/run/vault")
unfolding select_runtime_root_from first_usable prepare_runtime_root ensure_private_directory
    validate_private_directory look_up
selects = refl

select_runtime_root_from-IsRuntimeRoot_example :
    (path : Text) × Memᴰ path (tried none candidates)
    × IsRuntimeRoot two_directories path
        (ascii "/run/vault")
        (select_runtime_root_from two_directories none candidates []).1
select_runtime_root_from-IsRuntimeRoot_example =
    select_runtime_root_from-IsRuntimeRoot two_directories none candidates (ascii "/run/vault") []
      selects
