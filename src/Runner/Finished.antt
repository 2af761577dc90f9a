-- ===== src/Runner/Finished.antt =====
-- src/runner.rs: what a run with success has done.
use codex_vault.Prelude.{ℤ, ℕ, ◌+◌, ◌≡◌, false, none, some, List, ◌++◌, ok}
use codex_vault.Prelude.Bytes.{Bytes, Text, ascii}
use codex_vault.Files.{with_extension}
use codex_vault.Files.Contents.{IsFiles}
use codex_vault.Archive.Sealed.{IsArchive}
use codex_vault.Store.Host.{Host}
use codex_vault.Store.Disk.{VaultStore, user_root, state_path, lock_path}
use codex_vault.Store.Session.{UnlockedVault, close}
use codex_vault.Runner.{Processes, ExitStatus, Fresh, start, stop}

-- The code that stands for the end of a process: its own, or 128 and the signal that ended it.
pub data ExitsWith (status : ExitStatus) : ℤ → Type 0 where
  by_code : (code : ℤ) → status.code ≡ some code → ExitsWith status code
  by_signal :
      (n : ℕ) → status.code ≡ none → status.signal ≡ some n → ExitsWith status (ℤ.pos (128 + n))
  unknown : status.code ≡ none → status.signal ≡ none → ExitsWith status (ℤ.pos 128)

module _ (h : Host) (ps : Processes h.system.State) (e : Fresh) where
  -- The program was started and waited for, the code stands for how it ended, and then the vault was
  -- closed.
  record Finished (executable : Text) (arguments : List Text) (vault : UnlockedVault) (code : ℤ)
      (s t : h.system.State) : Type 0 where
    pid : ℕ
    handle : ℕ
    status : ExitStatus
    running : h.system.State
    spawned : (ps.spawn executable arguments vault.codex_home vault.username s).0 ≡ ok pid
    forwarded :
        start h ps pid (ps.spawn executable arguments vault.codex_home vault.username s).1
        ≡ (ok handle, running)
    waited : (ps.wait pid running).0 ≡ ok status
    exits : ExitsWith status code
    closed : close h e.uuid e.seed vault (stop h ps handle (ps.wait pid running).1) ≡ (ok tt, t)

module _ (h : Host) (laws : IsFiles h.files) (ps : Processes h.system.State) where
  open laws use {content, locked}

  -- What a run with success has done, behind the unlocking: it has started the program in the Codex
  -- directory, forwarded signals to it and waited for it; `left` is the state that the program has
  -- left.
  pub record Ran (store : VaultStore) (e : Fresh) (username executable : Text)
      (arguments : List Text) (vault : UnlockedVault) (code : ℤ) (s t : h.system.State)
      : Type 0 where
    pub pid : ℕ
    pub handle : ℕ
    pub status : ExitStatus
    pub running : h.system.State
    pub left : h.system.State
    pub spawned : (ps.spawn executable arguments vault.codex_home vault.username s).0 ≡ ok pid
    pub forwarded :
        start h ps pid (ps.spawn executable arguments vault.codex_home vault.username s).1
        ≡ (ok handle, running)
    pub waited : (ps.wait pid running).0 ≡ ok status
    pub stopped : left ≡ stop h ps handle (ps.wait pid running).1
    pub exits : ExitsWith status code
    pub archived :
        IsArchive h.cipher h.files laws h.tar e.seed vault.data_key vault.codex_home
          (with_extension (state_path (user_root store username)) (ascii "tmp-" ++ e.uuid))
          left
          (content (state_path (user_root store username)) t)
    pub free : locked (lock_path (user_root store username)) t ≡ false
