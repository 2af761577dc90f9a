-- ===== src/Store/Locks.antt =====
-- The lock of a profile through the calls that take it.
use codex_vault.Prelude.{
  ℕ, ◌≡◌, sym, ◌∙◌, ◌⊎◌, inl, inr, false, Option, none, some, arith, ok, err, ◌>>◌, Result-cases,
}
use codex_vault.Prelude.Bytes.{Bytes, Text}
use codex_vault.Error.{VaultError, VaultResult}
use codex_vault.Manifest.{UserManifest}
use codex_vault.Private.{validate_private_directory}
use codex_vault.Files.Contents.{IsFiles}
use codex_vault.Store.{validate_username, validate_password}
use codex_vault.Store.Host.{Host}
use codex_vault.Store.Disk.{VaultStore, user_root, acquire_lock, write_process_id, lock_path}
use codex_vault.Store.Session.{
  UnlockedVault, lock_profile, rotate_manifest, then_unlock, rotate_password, unlock, unlock_locked,
  open_profile, fill_runtime, Outcome, unless_unlocked,
}

module _ (h : Host) (laws : IsFiles h.files) where
  open laws use {locked}

  -- The lock is taken only if it is free; a call that fails leaves it as it was.
  acquire_lock_lem :
      (path : Text) (s : h.system.State)
      → ((acquire_lock h path s).0 ≡ ok tt → locked path s ≡ false)
        × ((e : VaultError)
            → (acquire_lock h path s).0 ≡ err e
            → locked path (acquire_lock h path s).1 ≡ locked path s)
  unfolding acquire_lock
  acquire_lock_lem path s =
      let a = (h.files.open_or_create 384 path s).1 in
      let b = (h.files.set_permissions 384 path a).1 in
      let d = (h.files.try_lock_exclusive path b).1 in
      let ka = (laws.open_or_create_lock 384 path path).keeps s in
      let kb = (laws.set_permissions_lock 384 path path).keeps a in
      let free = laws.drop_lock_free path (write_process_id h path d).1 in
      elim (Result-cases (h.files.open_or_create 384 path s).0) [
        | inr (x, ea) ↦ ((λ e. absurd (ground arith)), (λ x' e. ground arith))
        | inl (_, ea) ↦ elim (Result-cases (h.files.set_permissions 384 path a).0) [
          | inr (x, eb) ↦ ((λ e. absurd (ground arith)), (λ x' e. ground arith))
          | inl (_, eb) ↦ elim (Result-cases (h.files.try_lock_exclusive path b).0) [
            | inr (x, ec) ↦
                let kc = laws.try_lock_err path path b x ec in
                ((λ e. absurd (ground arith)), (λ x' e. ground arith))
            | inl (_, ec) ↦
                let was = laws.try_lock_ok path b ec in
                (
                  (λ e. ground arith),
                  (λ x' e. elim (Result-cases (write_process_id h path d).0) [
                    | inl (_, ew) ↦ absurd (ground arith)
                    | inr (y, ew) ↦ ground arith
                  ]),
                )
          ]
        ]
      ]

  lock_profile_lem :
      (root : Text) (s : h.system.State)
      → ((lock_profile h root s).0 ≡ ok tt → locked (lock_path root) s ≡ false)
        × ((e : VaultError)
            → (lock_profile h root s).0 ≡ err e
            → locked (lock_path root) (lock_profile h root s).1 ≡ locked (lock_path root) s)
  unfolding lock_profile
  lock_profile_lem root s =
      let (taken, kept) = acquire_lock_lem (lock_path root) s in
      elim (Result-cases (validate_private_directory h.system root s)) [
        | inr (x, ev) ↦ ((λ e. absurd (ground arith)), (λ x' e. ground arith))
        | inl (_, ev) ↦ ((λ e. taken (ground arith)), (λ x' e. ground (arith, kept x')))
      ]

  -- With the files as documented: a change of the password leaves the lock of the profile as it
  -- was, whatever its result, and succeeds only if the lock was free.
  pub rotate_password-locked :
      (store : VaultStore) (salt nonce : Option Bytes) (uuid username : Text)
      (current_password new_password : Bytes) (s : h.system.State)
      → let p = lock_path (user_root store username) in
        let (r, t) =
          rotate_password h store salt nonce uuid username current_password new_password s in
        (locked p t ≡ locked p s) × (r ≡ ok tt → locked p s ≡ false)
  unfolding rotate_password then_unlock
  rotate_password-locked store salt nonce uuid username current_password new_password s =
      let root = user_root store username in
      let p = lock_path root in
      let a = (lock_profile h root s).1 in
      let b = (rotate_manifest h salt nonce uuid root username current_password new_password a).1 in
      let free = laws.drop_lock_free p (h.files.unlock p b).1 in
      let (taken, kept) = lock_profile_lem root s in
      elim (Result-cases (validate_username username >> validate_password new_password)) [
        | inr (x, ev) ↦ (ground arith, λ e. absurd (ground arith))
        | inl (_, ev) ↦ elim (Result-cases (lock_profile h root s).0) [
          | inr (x, el) ↦ (ground (arith, kept x el), λ e. absurd (ground arith))
          | inl (_, el) ↦ (ground (arith, taken el), λ e. taken el)
        ]
      ]

  fill_runtime-lock :
      (fuel : ℕ) (root : Text) (opened : UserManifest × Bytes × Text) (s t : h.system.State)
      (vault : UnlockedVault)
      → fill_runtime h fuel root opened s ≡ some (ok vault, t)
      → vault.lock ≡ lock_path root
  unfolding fill_runtime
  fill_runtime-lock fuel root (manifest, data_key, runtime) s t vault e = ground arith

  unlock_locked-lock :
      (store : VaultStore) (fuel : ℕ) (username : Text) (password : Bytes) (s t : h.system.State)
      (vault : UnlockedVault)
      → unlock_locked h store fuel username password s ≡ some (ok vault, t)
      → vault.lock ≡ lock_path (user_root store username)
  unfolding unlock_locked
  unlock_locked-lock store fuel username password s t vault e =
      let a = (open_profile h store username password s).1 in
      elim (Result-cases (open_profile h store username password s).0) [
        | inl (opened, eo) ↦
            fill_runtime-lock fuel (user_root store username) opened a t vault (ground arith)
        | inr (x, eo) ↦ absurd (ground arith)
      ]

  -- How an attempt behind the lock can end.
  unless_unlocked_cases :
      (path : Text) (o : Outcome h) (r : VaultResult UnlockedVault) (t : h.system.State)
      → unless_unlocked h path o ≡ some (r, t)
      → ((vault : UnlockedVault) × (o ≡ some (ok vault, t)) × (r ≡ ok vault))
        ⊎ ((e : VaultError) × (r ≡ err e) × (locked path t ≡ false))
  unless_unlocked_cases path none r t e = cc
  unless_unlocked_cases path (some (ok vault, s)) r t e = inl (vault, cc, cc)
  unless_unlocked_cases path (some (err x, s)) r t e =
      inr (x, cc, ground (arith, laws.drop_lock_free path (h.files.unlock path s).1))

  -- With the files as documented: a profile is unlocked only if its lock was free, and the vault
  -- holds that lock; an attempt that fails leaves the lock as it was.
  pub unlock-locked :
      (store : VaultStore) (fuel : ℕ) (username : Text) (password : Bytes) (s t : h.system.State)
      (r : VaultResult UnlockedVault)
      → unlock h store fuel username password s ≡ some (r, t)
      → let p = lock_path (user_root store username) in
        ((vault : UnlockedVault) → r ≡ ok vault → (locked p s ≡ false) × (vault.lock ≡ p))
        × ((e : VaultError) → r ≡ err e → locked p t ≡ locked p s)
  unfolding unlock
  unlock-locked store fuel username password s t r e =
      let root = user_root store username in
      let p = lock_path root in
      let (taken, kept) = lock_profile_lem root s in
      let a = (lock_profile h root s).1 in
      elim (Result-cases (validate_username username)) [
        | inr (x, ev) ↦ ((λ v e'. absurd (ground arith)), λ x' e'. ground arith)
        | inl (_, ev) ↦ elim (Result-cases (lock_profile h root s).0) [
          | inr (x, el) ↦ ((λ v e'. absurd (ground arith)), λ x' e'. ground (arith, kept x el))
          | inl (_, el) ↦
              let free = taken el in
              elim (unless_unlocked_cases p (unlock_locked h store fuel username password a) r t
                (ground arith)) [
                  | inl (v, eo, er) ↦
                      let held = unlock_locked-lock store fuel username password a t v eo in
                      ((λ vault e'. (free, ground arith)), λ x e'. absurd (ground arith))
                  | inr (x, er, after_) ↦
                      ((λ vault e'. absurd (ground arith)), λ x' e'. after_ ∙ sym free)
                ]
        ]
      ]
