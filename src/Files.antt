-- ===== src/Files.antt =====
-- What src/store.rs and src/archive.rs call of `std::fs`, `fs2` and `tempfile`, and the functions
-- of `std::path` for it.
pub mod Apart
pub mod Contents
pub mod Directories
pub mod Kept
pub mod Locking
pub mod Paths
use codex_vault.Prelude.{
  ℕ, Bool, ◌&&◌, Option, none, some, List, [], ◌∷◌, ◌++◌, ◌==◌, if◌then◌else◌, length, Action,
}
use mathlib.Core.List.{reverse}
use codex_vault.Prelude.Bytes.{Bytes, Text}
use codex_vault.Error.{IoError, IoResult}
use codex_vault.Device.{Sink, Source}
use codex_vault.Private.{FileSystem}

-- `fs::DirEntry`: its name, its path, and whether it is a directory.
pub record Entry : Type 0 where
  pub file_name : Text
  pub path : Text
  pub is_dir : IoResult Bool

-- The calls on files. An open file stands under the path that it was opened at: the program has at
-- most one handle of a file, and renames none that is open. A handle that is dropped changes
-- nothing, but for one that holds a lock.
pub record Files (f : FileSystem) : Type 0 where
  -- `OpenOptions`: `write` and `create_new` with a mode; `read` with O_NOFOLLOW; `read`, `write` and
  -- `create` with a mode and O_NOFOLLOW; `File::open`.
  pub create_new : ℕ → Text → Action f.State IoError (Unit {0})
  pub open_read : Text → Action f.State IoError (Unit {0})
  pub open_or_create : ℕ → Text → Action f.State IoError (Unit {0})
  pub open_file : Text → Action f.State IoError (Unit {0})
  -- `File::set_permissions`, `set_len`, `seek` from the start, `sync_all`, and `Write`.
  pub set_permissions : ℕ → Text → Action f.State IoError (Unit {0})
  pub set_len : ℕ → Text → Action f.State IoError (Unit {0})
  pub seek_start : ℕ → Text → Action f.State IoError (Unit {0})
  pub sync_all : Text → Action f.State IoError (Unit {0})
  pub write_all : Text → Bytes → Action f.State IoError (Unit {0})
  pub flush : Text → Action f.State IoError (Unit {0})
  -- `Read`, and `take(limit).read_to_end`.
  pub read_exact : Text → ℕ → Action f.State IoError Bytes
  pub read : Text → ℕ → Action f.State IoError Bytes
  pub read_to_end : ℕ → Text → Action f.State IoError Bytes
  -- `FileExt::try_lock_exclusive` and `FileExt::unlock`, and the drop of a handle that has the lock.
  pub try_lock_exclusive : Text → Action f.State IoError (Unit {0})
  pub unlock : Text → Action f.State IoError (Unit {0})
  pub drop_lock : Text → f.State → f.State
  -- `fs::rename`, `remove_file`, `remove_dir_all`, `read_dir`.
  pub rename : Text → Text → Action f.State IoError (Unit {0})
  pub remove_file : Text → Action f.State IoError (Unit {0})
  pub remove_dir_all : Text → Action f.State IoError (Unit {0})
  pub read_dir : Text → Action f.State IoError (List (IoResult Entry))
  -- `tempfile`: `tempdir`, the builder with a prefix and no random bytes in a directory, and
  -- `TempDir::close`.
  pub tempdir : Action f.State IoError Text
  pub tempdir_in : Text → Text → Action f.State IoError Text
  pub close_tempdir : Text → Action f.State IoError (Unit {0})

module _ {f : FileSystem} (fs : Files f) where
  -- A file as a destination, and as a source.
  abbrev pub sink_at : Text → Sink
  sink_at path = record { State = f.State; write_all = fs.write_all path; flush = fs.flush path }

  abbrev pub source_at : Text → Source
  source_at path = record { State = f.State; read_exact = fs.read_exact path; read = fs.read path }

  -- The drop of a `TempDir`: the directory is removed, and an error is ignored.
  abbrev pub drop_tempdir : Text → f.State → f.State
  drop_tempdir path s = (fs.close_tempdir path s).1

-- `Path::parent` of a path with no separator at its end, from the back: the name is dropped with
-- its separator.
drop_name : Text → Text
drop_name [] = []
drop_name (b ∷ bs) = if b == 47 then bs else drop_name bs

unfoldable pub parent : Text → Option Text
unfolding drop_name
parent [] = none
parent (b ∷ []) = if b == 47 then none else some []
parent (b ∷ (c ∷ path)) =
    let above = reverse (drop_name (reverse (b ∷ (c ∷ path)))) in
    if length above == 0 && b == 47 then some (47 ∷ []) else some above

-- The path in front of the extension of its last name, from the back: `none` if the name has no
-- dot behind its first byte.
drop_extension : Text → Option Text
drop_extension [] = none
drop_extension (b ∷ []) = none
drop_extension (b ∷ (c ∷ bs)) =
    if b == 47
    then none
    else if b == 46
    then (if c == 47 then none else some (c ∷ bs))
    else drop_extension (c ∷ bs)

abbrev or_else : Option Text → Text → Text
or_else none path = path
or_else (some front) path = reverse front

-- `Path::with_extension`
unfoldable pub with_extension : Text → Text → Text
unfolding drop_extension
with_extension path extension = or_else (drop_extension (reverse path)) path ++ (46 ∷ extension)
