-- ===== src/Files/Contents.antt =====
-- What the calls on files are documented to do to the contents and the locks of files.
use codex_vault.Prelude.{ℕ, ◌≡◌, ◌≢◌, Bool, false, [], ◌++◌, take, ok, err, Keeps}
use codex_vault.Prelude.Bytes.{Bytes, Text}
use codex_vault.Error.{IoError}
use codex_vault.Device.{IsSink}
use codex_vault.Private.{FileSystem, join}
use codex_vault.Files.{Files, sink_at}

module _ {f : FileSystem} (fs : Files f) where
  -- `content` is what a file holds, and nothing for a path with no file. Two paths of the program
  -- are two files. A call may fail at any time, and leaves then the files as they were, but for the
  -- file that it writes. A temporary directory is removed with what lies in it. `locked` says that
  -- a handle has the lock of a file.
  pub record IsFiles : Type 0 where
    pub content : Text → f.State → Bytes
    pub locked : Text → f.State → Bool
    pub create_new_ok :
        (mode : ℕ) (p : Text) (s : f.State)
        → (fs.create_new mode p s).0 ≡ ok tt
        → content p (fs.create_new mode p s).1 ≡ []
    pub create_new_keeps :
        (mode : ℕ) (p q : Text) → q ≢ p → Keeps (content q) (fs.create_new mode p)
    pub write_all_ok :
        (p : Text) (bytes : Bytes) (s : f.State)
        → (fs.write_all p bytes s).0 ≡ ok tt
        → content p (fs.write_all p bytes s).1 ≡ content p s ++ bytes
    pub write_all_keeps :
        (p q : Text) (bytes : Bytes) → q ≢ p → Keeps (content q) (fs.write_all p bytes)
    pub flush_keeps : (p q : Text) → Keeps (content q) (fs.flush p)
    pub sync_all_keeps : (p q : Text) → Keeps (content q) (fs.sync_all p)
    pub open_file_keeps : (p q : Text) → Keeps (content q) (fs.open_file p)
    pub open_read_keeps : (p q : Text) → Keeps (content q) (fs.open_read p)
    pub read_to_end_keeps : (n : ℕ) (p q : Text) → Keeps (content q) (fs.read_to_end n p)
    pub read_to_end_ok :
        (n : ℕ) (p : Text) (s : f.State) (bytes : Bytes)
        → (fs.read_to_end n p s).0 ≡ ok bytes
        → bytes ≡ take n (content p s)
    pub open_or_create_keeps :
        (mode : ℕ) (p q : Text) → Keeps (content q) (fs.open_or_create mode p)
    pub set_permissions_keeps :
        (mode : ℕ) (p q : Text) → Keeps (content q) (fs.set_permissions mode p)
    pub set_len_keeps : (n : ℕ) (p q : Text) → q ≢ p → Keeps (content q) (fs.set_len n p)
    pub seek_start_keeps : (n : ℕ) (p q : Text) → Keeps (content q) (fs.seek_start n p)
    pub try_lock_keeps : (p q : Text) → Keeps (content q) (fs.try_lock_exclusive p)
    pub unlock_keeps : (p q : Text) → Keeps (content q) (fs.unlock p)
    pub drop_lock_leaves : (p q : Text) → (s : f.State) → content q (fs.drop_lock p s) ≡ content q s
    pub remove_file_keeps : (p q : Text) → q ≢ p → Keeps (content q) (fs.remove_file p)
    pub close_tempdir_keeps :
        (p q : Text) → ((name : Text) → q ≢ join p name) → Keeps (content q) (fs.close_tempdir p)
    pub rename_ok :
        (p q : Text) (s : f.State)
        → (fs.rename p q s).0 ≡ ok tt
        → content q (fs.rename p q s).1 ≡ content p s
    pub rename_err :
        (p q o : Text) (s : f.State) (e : IoError)
        → (fs.rename p q s).0 ≡ err e
        → content o (fs.rename p q s).1 ≡ content o s
    pub open_or_create_lock : (mode : ℕ) (p q : Text) → Keeps (locked q) (fs.open_or_create mode p)
    pub set_permissions_lock :
        (mode : ℕ) (p q : Text) → Keeps (locked q) (fs.set_permissions mode p)
    pub try_lock_ok :
        (p : Text) (s : f.State) → (fs.try_lock_exclusive p s).0 ≡ ok tt → locked p s ≡ false
    pub try_lock_err :
        (p q : Text) (s : f.State) (e : IoError)
        → (fs.try_lock_exclusive p s).0 ≡ err e
        → locked q (fs.try_lock_exclusive p s).1 ≡ locked q s
    pub drop_lock_free : (p : Text) (s : f.State) → locked p (fs.drop_lock p s) ≡ false

  -- A file as a destination.
  abbrev pub sink_at-IsSink : IsFiles → (p : Text) → IsSink (sink_at fs p)
  sink_at-IsSink laws p = record {
    written = laws.content p;
    write_all_ok = λ bytes t e. laws.write_all_ok p bytes t e;
    flush_ok = λ t e. (laws.flush_keeps p p).keeps t;
  }
