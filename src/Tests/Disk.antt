-- ===== src/Tests/Disk.antt =====
-- A file system in memory, with files, the position that a file is read at, and locks. It meets
-- the assumptions on files.
use codex_vault.Prelude.{
  ◌&&◌, Option, none, some, ℕ, ◌≡◌, refl, ◌≢◌, inl, inr, Bool, true, false, not, List, [], ◌∷◌,
  ◌++◌, arith, ◌==◌, if◌then◌else◌, Bool-cases, length, take, Result, ok, err, Action,
}
use codex_vault.Prelude.Bytes.{Bytes, Text, ascii, eq_bytes}
use codex_vault.Prelude.Bytes.Laws.{eq_bytes_refl, eq_bytes→eq}
use codex_vault.Error.{os, ErrorKind, IoError}
use codex_vault.Device.Memory.{cursor}
use codex_vault.Private.{FileSystem, Metadata, join}
use codex_vault.Files.{Files}
use codex_vault.Files.Apart.{inside}
use codex_vault.Files.Contents.{IsFiles}

-- A table by path, with a value for a path that it does not list.
unfoldable pub look_up {ℓ} : {A : Type ℓ} → A → List (Text × A) → Text → A
look_up a [] p = a
look_up a ((q, b) ∷ table) p = if eq_bytes p q then b else look_up a table p

module _ {ℓ} {A : Type ℓ} (a : A) where
  pub look_up_same : (table : List (Text × A)) (p : Text) (b : A) → look_up a ((p, b) ∷ table) p ≡ b
  unfolding look_up
  look_up_same table p b = rw (eq_bytes_refl p) refl

  pub look_up_other :
      (table : List (Text × A)) (p q : Text) (b : A)
      → q ≢ p
      → look_up a ((p, b) ∷ table) q ≡ look_up a table q
  unfolding look_up
  look_up_other table p q b other = elim (Bool-cases (eq_bytes q p)) [
    | inl same ↦ absurd (other (eq_bytes→eq q p same))
    | inr differs ↦ rw differs refl
  ]

-- What happened to the files, the last first: a path was given its bytes, or moved to another with
-- all that lies in it.
pub data Change : Type 0 where
  wrote : Text → Bytes → Change
  moved : Text → Text → Change

-- What is behind a front of a path, if it has that front.
unfoldable pub strip : Text → Text → Option Text
strip [] p = some p
strip (b ∷ front) [] = none
strip (b ∷ front) (c ∷ p) = if b == c then strip front p else none

-- The content of a path, by the changes before a last one.
unfoldable pub content_behind : (Text → Bytes) → Change → Text → Bytes
unfolding strip
content_behind before (wrote q bytes) p = if eq_bytes p q then bytes else before p
content_behind before (moved q r) p = if eq_bytes p r then before q else elim (strip (inside r) p) [
  | some rest ↦ before (join q rest)
  | none ↦
      if eq_bytes p q then [] else elim (strip (inside q) p) [ some rest ↦ [] | none ↦ before p ]
]

unfoldable pub content_of : List Change → Text → Bytes
content_of [] p = []
content_of (c ∷ changes) p = content_behind (content_of changes) c p

pub record Disk : Type 0 where
  pub written : List Change
  pub unread : List (Text × Bytes)
  pub held : List (Text × Bool)

unfoldable pub bytes_of : Text → Disk → Bytes
bytes_of p d = content_of d.written p

unfoldable pub is_held : Text → Disk → Bool
is_held p d = look_up false d.held p

abbrev write : Text → Bytes → Disk → Disk
write p bytes d = record d { written = wrote p bytes ∷ d.written }

abbrev pub hold : Text → Bool → Disk → Disk
hold p b d = record d { held = (p, b) ∷ d.held }

abbrev private_metadata : Bool → ℕ → Metadata
private_metadata is_dir len = record {
  is_dir = is_dir;
  is_file = not is_dir;
  is_symlink = false;
  is_socket = false;
  uid = 1000;
  mode = 448;
  len = len;
  dev = 1;
  ino = 7;
}

abbrev pub bob : Text
bob = ascii "bob"

abbrev bob_root : Text
bob_root = ascii "/v/users/bob"

-- A path with no bytes is a private directory, any other a private file; but the directory of one
-- user is not there until a manifest is in it.
abbrev pub disk_system : FileSystem
disk_system = record {
  State = Disk;
  symlink_metadata = λ p d.
      let n = length (bytes_of p d) in
      if eq_bytes p bob_root && length (bytes_of (join bob_root (ascii "manifest.json")) d) == 0
      then err (os ErrorKind.not_found "No such file or directory")
      else ok (private_metadata (n == 0) n);
  canonicalize = λ p d. ok p;
  create_dir = λ mode p d. (ok tt, d);
  euid = 1000;
  printed = λ p. "path";
}

abbrev done : Action Disk IoError (Unit {0})
done d = (ok tt, d)

unfoldable pub try_lock : Text → Action Disk IoError (Unit {0})
try_lock p d =
    if is_held p d
    then (err (os ErrorKind.would_block "Resource temporarily unavailable"), d)
    else (ok tt, hold p true d)

unfoldable pub read_with : (Bytes → Result IoError Bytes × Bytes) → Text → Action Disk IoError Bytes
read_with m p d =
    let (r, rest) = m (look_up [] d.unread p) in (r, record d { unread = (p, rest) ∷ d.unread })

unfoldable pub open_at : Text → Action Disk IoError (Unit {0})
open_at p d = (ok tt, record d { unread = (p, bytes_of p d) ∷ d.unread })

abbrev pub disk_files : Files disk_system
disk_files = record {
  create_new = λ mode p d. (ok tt, write p [] d);
  open_read = open_at;
  open_or_create = λ mode p. done;
  open_file = λ p. done;
  set_permissions = λ mode p. done;
  set_len = λ n p d. (ok tt, write p (take n (bytes_of p d)) d);
  seek_start = λ n p. done;
  sync_all = λ p. done;
  write_all = λ p bytes d. (ok tt, write p (bytes_of p d ++ bytes) d);
  flush = λ p. done;
  read_exact = λ p n. read_with (cursor.read_exact n) p;
  read = λ p n. read_with (cursor.read n) p;
  read_to_end = λ n p d. (ok (take n (bytes_of p d)), d);
  try_lock_exclusive = try_lock;
  unlock = λ p d. (ok tt, hold p false d);
  drop_lock = λ p d. hold p false d;
  rename = λ p q d. (ok tt, record d { written = moved p q ∷ d.written });
  remove_file = λ p d. (ok tt, write p [] d);
  remove_dir_all = λ p. done;
  read_dir = λ p d.
      let name = ascii "alice" in
      (ok (ok (record { file_name = name; path = join p name; is_dir = ok true }) ∷ []), d);
  tempdir = λ d. (ok (ascii "/tmp/x"), d);
  tempdir_in = λ root name d. (ok (join root name), d);
  close_tempdir = λ p. done;
}

pub write_keeps :
    (p q : Text) (bytes : Bytes) (d : Disk) → q ≢ p → bytes_of q (write p bytes d) ≡ bytes_of q d
unfolding bytes_of content_of content_behind
write_keeps p q bytes d other = elim (Bool-cases (eq_bytes q p)) [
  | inl same ↦ absurd (other (eq_bytes→eq q p same))
  | inr differs ↦ rw differs refl
]

pub write_same : (p : Text) (bytes : Bytes) (d : Disk) → bytes_of p (write p bytes d) ≡ bytes
unfolding bytes_of content_of content_behind
write_same p bytes d = rw (eq_bytes_refl p) refl

pub moved_same :
    (p q : Text) (d : Disk)
    → bytes_of q (record d { written = moved p q ∷ d.written }) ≡ bytes_of p d
unfolding bytes_of content_of content_behind
moved_same p q d = rw (eq_bytes_refl q) refl

pub try_lock_leaves : (p q : Text) (d : Disk) → bytes_of q (try_lock p d).1 ≡ bytes_of q d
unfolding try_lock bytes_of
try_lock_leaves p q d = elim (Bool-cases (is_held p d)) [ inl e ↦ rw e refl | inr e ↦ rw e refl ]

unfoldable pub disk_files-IsFiles : IsFiles disk_files
unfolding open_at bytes_of try_lock is_held
disk_files-IsFiles = record {
  content = bytes_of;
  locked = is_held;
  create_new_ok = λ mode p d e. write_same p [] d;
  create_new_keeps = λ mode p q other. record { keeps = λ d. write_keeps p q [] d other };
  write_all_ok = λ p bytes d e. write_same p (bytes_of p d ++ bytes) d;
  write_all_keeps =
      λ p q bytes other. record { keeps = λ d. write_keeps p q (bytes_of p d ++ bytes) d other };
  flush_keeps = λ p q. record { keeps = λ d. refl };
  sync_all_keeps = λ p q. record { keeps = λ d. refl };
  open_file_keeps = λ p q. record { keeps = λ d. refl };
  open_read_keeps = λ p q. record { keeps = λ d. refl };
  read_to_end_keeps = λ n p q. record { keeps = λ d. refl };
  read_to_end_ok = λ n p d bytes e. cc;
  open_or_create_keeps = λ mode p q. record { keeps = λ d. refl };
  set_permissions_keeps = λ mode p q. record { keeps = λ d. refl };
  set_len_keeps =
      λ n p q other. record { keeps = λ d. write_keeps p q (take n (bytes_of p d)) d other };
  seek_start_keeps = λ n p q. record { keeps = λ d. refl };
  try_lock_keeps = λ p q. record { keeps = λ d. try_lock_leaves p q d };
  unlock_keeps = λ p q. record { keeps = λ d. refl };
  drop_lock_leaves = λ p q d. refl;
  remove_file_keeps = λ p q other. record { keeps = λ d. write_keeps p q [] d other };
  close_tempdir_keeps = λ p q outside. record { keeps = λ d. refl };
  rename_ok = λ p q d e. moved_same p q d;
  rename_err = λ p q o d x e. absurd cc;
  open_or_create_lock = λ mode p q. record { keeps = λ d. refl };
  set_permissions_lock = λ mode p q. record { keeps = λ d. refl };
  try_lock_ok = λ p d e. elim (Bool-cases (is_held p d)) [
    | inl taken ↦ absurd (ground (arith, taken))
    | inr free ↦ free
  ];
  try_lock_err = λ p q d x e. elim (Bool-cases (is_held p d)) [
    | inl taken ↦ rw taken refl
    | inr free ↦ absurd (ground (arith, free))
  ];
  drop_lock_free = λ p d. look_up_same false d.held p false;
}
