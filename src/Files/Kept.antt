-- ===== src/Files/Kept.antt =====
-- A part of the state that calls on files leave as it was.
use codex_vault.Prelude.{ℕ, Keeps}
use codex_vault.Prelude.Bytes.{Bytes, Text}
use codex_vault.Private.{FileSystem, join}
use codex_vault.Files.{Files}

-- The calls leave what `view` shows. Those that write or remove files do so at the paths of `Other`.
pub record IsKept {f : FileSystem} (fs : Files f) {V : Type 0} (view : f.State → V)
    (Other : Text → Type 0) : Type 0 where
  pub create_dir : (mode : ℕ) (p : Text) → Keeps view (f.create_dir mode p)
  pub create_new : (mode : ℕ) (p : Text) → Other p → Keeps view (fs.create_new mode p)
  pub open_read : (p : Text) → Keeps view (fs.open_read p)
  pub open_or_create : (mode : ℕ) (p : Text) → Keeps view (fs.open_or_create mode p)
  pub open_file : (p : Text) → Keeps view (fs.open_file p)
  pub set_permissions : (mode : ℕ) (p : Text) → Keeps view (fs.set_permissions mode p)
  pub set_len : (n : ℕ) (p : Text) → Other p → Keeps view (fs.set_len n p)
  pub seek_start : (n : ℕ) (p : Text) → Keeps view (fs.seek_start n p)
  pub sync_all : (p : Text) → Keeps view (fs.sync_all p)
  pub write_all : (p : Text) (bytes : Bytes) → Other p → Keeps view (fs.write_all p bytes)
  pub flush : (p : Text) → Keeps view (fs.flush p)
  pub read_exact : (p : Text) (n : ℕ) → Keeps view (fs.read_exact p n)
  pub read : (p : Text) (n : ℕ) → Keeps view (fs.read p n)
  pub read_to_end : (n : ℕ) (p : Text) → Keeps view (fs.read_to_end n p)
  pub rename : (p q : Text) → Other p → Other q → Keeps view (fs.rename p q)
  pub remove_file : (p : Text) → Other p → Keeps view (fs.remove_file p)
  pub tempdir_in : (root name : Text) → Keeps view (fs.tempdir_in root name)
  pub close_tempdir :
      (p : Text) → ((name : Text) → Other (join p name)) → Keeps view (fs.close_tempdir p)
