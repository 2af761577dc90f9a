-- ===== src/Store/Resumed.antt =====
-- A profile that is closed and unlocked again.
use codex_vault.Prelude.{ℕ, ◌≡◌, some, ok}
use codex_vault.Prelude.Bytes.{Bytes, Text}
use codex_vault.Files.Contents.{IsFiles}
use codex_vault.Files.Directories.{IsDirectories}
use codex_vault.Archive.{unseal_directory}
use codex_vault.Store.Host.{Host}
use codex_vault.Store.Disk.{state_path}
use codex_vault.Store.Session.{UnlockedVault}
use codex_vault.Store.Opened.{Opened}

module _ (h : Host) (laws : IsFiles h.files) (directories : IsDirectories h.files laws) where
  open laws use {content}

  -- The archive was unsealed, as it stood before, into the Codex directory.
  record Unsealing (fuel : ℕ) (root : Text) (vault : UnlockedVault) (s t : h.system.State)
      : Type 0 where
    before : h.system.State
    same : content (state_path root) before ≡ content (state_path root) s
    run :
        unseal_directory h.cipher h.files h.tar h.buffer fuel
          (state_path root)
          vault.codex_home
          vault.data_key
          before
        ≡ some (ok tt, t)
