-- ===== src/Files/Locking.antt =====
-- What is documented of the locks on files.
use codex_vault.Prelude.{◌≡◌, ◌≢◌, true, ok, Keeps}
use codex_vault.Prelude.Bytes.{Text}
use codex_vault.Private.{FileSystem}
use codex_vault.Files.{Files}
use codex_vault.Files.Contents.{IsFiles}
use codex_vault.Files.Kept.{IsKept}

-- Only the calls on locks change a lock, and only that of their own file.
pub record IsLocking {f : FileSystem} (fs : Files f) (laws : IsFiles fs) : Type 0 where
  pub kept : (q : Text) → IsKept fs (laws.locked q) (λ _. Unit {0})
  pub try_lock_takes :
      (p : Text) (s : f.State)
      → (fs.try_lock_exclusive p s).0 ≡ ok tt
      → laws.locked p (fs.try_lock_exclusive p s).1 ≡ true
  pub try_lock_other : (p q : Text) → q ≢ p → Keeps (laws.locked q) (fs.try_lock_exclusive p)
  pub unlock_other : (p q : Text) → q ≢ p → Keeps (laws.locked q) (fs.unlock p)
  pub drop_lock_other :
      (p q : Text) (s : f.State) → q ≢ p → laws.locked q (fs.drop_lock p s) ≡ laws.locked q s
