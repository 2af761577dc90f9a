-- ===== src/Tests/Resumptions.antt =====
-- The vault in memory is closed and unlocked again.
use codex_vault.Prelude.{some, ◌∷◌}
use codex_vault.Prelude.Bytes.{Text, ascii}
use codex_vault.Stream.Writer
use codex_vault.Stream.Reader
use codex_vault.Store.Session.{unlock}
use codex_vault.Tests.Disk.{Disk}
use codex_vault.Prelude.{ℕ}
use codex_vault.Tests.Sessions.{fresh_disk, seed}
use codex_vault.Tests.Host.{host, store}
use codex_vault.Tests.Profiles.{alice}
use codex_vault.Tests.Passwords.{password}
use codex_vault.Store.Session.{close}
use codex_vault.Store.Opened.{Opened}
use codex_vault.Tests.Sessions.{vault, end_of}

unfoldable closed : Disk
closed = (close host (ascii "u") (some seed) vault fresh_disk).1

unfoldable resumed : Disk
resumed = end_of (unlock host store 50 alice password closed)

abbrev second : Text → ℕ
second (a ∷ (b ∷ text)) = b
second _ = 0
