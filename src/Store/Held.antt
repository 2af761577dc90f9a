-- ===== src/Store/Held.antt =====
-- The lock of a profile behind the attempt to unlock it.
use codex_vault.Prelude.{ℕ, ◌≡◌, ◌≢◌, true, false, some, ok, err}
use codex_vault.Prelude.Bytes.{Bytes, Text}
use codex_vault.Error.{VaultError, VaultResult}
use codex_vault.Files.Contents.{IsFiles}
use codex_vault.Files.Locking.{IsLocking}
use codex_vault.Archive.{change}
use codex_vault.Store.Host.{Host}
use codex_vault.Store.Disk.{VaultStore, user_root, lock_path}
use codex_vault.Store.Session.{UnlockedVault, unlock}
use codex_vault.Store.Locks.{unlock-locked}
use codex_vault.Store.Sessions.Frame.{unlock_lock}

module _ (h : Host) (laws : IsFiles h.files) (locking : IsLocking h.files laws)
    (changes : (q : Text) (a b : h.tar.Archive) (g : h.system.State → h.system.State)
        (s : h.system.State)
      → h.tar.next a ≡ change g b
      → laws.locked q (g s) ≡ laws.locked q s) where
  open laws use {locked}

  -- With the files as documented, and a `tar` that changes no lock: a profile is unlocked with success
  -- only if its lock was free, and then that lock is held, and is the one that the vault will
  -- release; an attempt that fails leaves it as it was. No attempt changes another lock.
  pub unlock-held :
      (store : VaultStore) (fuel : ℕ) (username : Text) (password : Bytes) (s t : h.system.State)
      (r : VaultResult UnlockedVault)
      → unlock h store fuel username password s ≡ some (r, t)
      → let p = lock_path (user_root store username) in
        ((vault : UnlockedVault)
          → r ≡ ok vault
          → (vault.lock ≡ p) × (locked p s ≡ false) × (locked p t ≡ true))
        × ((e : VaultError) → r ≡ err e → locked p t ≡ locked p s)
        × ((q : Text) → q ≢ p → locked q t ≡ locked q s)
  unlock-held store fuel username password s t r e =
      let (taken, failed) = unlock-locked h laws store fuel username password s t r e in
      let (held, others) =
        unlock_lock h laws locking changes store fuel username password s t r e in
      (
        (λ vault ok_eq. ((taken vault ok_eq).1, (taken vault ok_eq).0, held vault ok_eq)),
        failed,
        others,
      )
