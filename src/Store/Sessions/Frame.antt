-- ===== src/Store/Sessions/Frame.antt =====
-- What the calls of the store do to locks.
use codex_vault.Prelude.{
  Keeps-bind, Keeps-lift, ℕ, ◌≡◌, refl, ◌∙◌, ◌≢◌, inl, inr, true, Option, none, some, arith, ok,
  err, Result-cases, Keeps, keeps_rules,
}
use codex_vault.Prelude.Bytes.{Bytes, Text}
use codex_vault.Error.{VaultResult}
use codex_vault.Private.{validate_private_directory}
use codex_vault.Files.Contents.{IsFiles}
use codex_vault.Files.Locking.{IsLocking}
use codex_vault.Archive.{change, seal_directory}
use codex_vault.Archive.Kept.{seal_directory-Keeps}
use codex_vault.Store.{validate_username}
use codex_vault.Store.Host.{Host}
use codex_vault.Store.Disk.{VaultStore, user_root, lock_path, acquire_lock, write_process_id}
use codex_vault.Store.Session.{
  UnlockedVault, Outcome, lock_profile, rotate_manifest, then_unlock, rotate_password,
  unlock_locked, unless_unlocked, unlock, close,
}
use codex_vault.Store.Kept.{write_process_id-Keeps, rotate_manifest-Keeps, unlock_locked-Stays}

module _ (h : Host) (laws : IsFiles h.files) (locking : IsLocking h.files laws) where
  open laws use {locked}

  acquire_lock-locks :
      (path : Text) (s : h.system.State)
      → (acquire_lock h path s).0 ≡ ok tt
      → locked path (acquire_lock h path s).1 ≡ true
  unfolding acquire_lock
  acquire_lock-locks path s e =
      let a = (h.files.open_or_create 384 path s).1 in
      let b = (h.files.set_permissions 384 path a).1 in
      let d = (h.files.try_lock_exclusive path b).1 in
      let kw = (write_process_id-Keeps h (locking.kept path) path tt).keeps d in
      elim (Result-cases (h.files.open_or_create 384 path s).0) [
        | inr (x, ea) ↦ absurd (ground arith)
        | inl (_, ea) ↦ elim (Result-cases (h.files.set_permissions 384 path a).0) [
          | inr (x, eb) ↦ absurd (ground arith)
          | inl (_, eb) ↦ elim (Result-cases (h.files.try_lock_exclusive path b).0) [
            | inr (x, ec) ↦ absurd (ground arith)
            | inl (_, ec) ↦
                let taken = locking.try_lock_takes path b ec in
                elim (Result-cases (write_process_id h path d).0) [
                  | inl (_, ew) ↦ ground arith
                  | inr (y, ew) ↦ absurd (ground arith)
                ]
          ]
        ]
      ]

  acquire_lock-other : (q path : Text) → q ≢ path → Keeps (locked q) (acquire_lock h path)
  unfolding acquire_lock
  acquire_lock-other q path other =
      let k = locking.kept q in
      let tries = locking.try_lock_other path q other in
      let drops = λ (s : h.system.State). locking.drop_lock_other path q s other in
      let writes = write_process_id-Keeps h k path tt in
      search (keeps_rules, k.open_or_create, k.set_permissions) depth 14

  lock_profile-locks :
      (root : Text) (s : h.system.State)
      → (lock_profile h root s).0 ≡ ok tt
      → locked (lock_path root) (lock_profile h root s).1 ≡ true
  unfolding lock_profile
  lock_profile-locks root s e = elim (Result-cases (validate_private_directory h.system root s)) [
    | inr (x, ev) ↦ absurd (ground arith)
    | inl (_, ev) ↦ let k = acquire_lock-locks (lock_path root) s in ground (arith, k)
  ]

  lock_profile-other : (q root : Text) → q ≢ lock_path root → Keeps (locked q) (lock_profile h root)
  unfolding lock_profile
  lock_profile-other q root other = search (keeps_rules, acquire_lock-other) depth 14

  pub rotate_password-other :
      (store : VaultStore) (salt iv : Option Bytes) (uuid username : Text) (current new : Bytes)
      (q : Text)
      → q ≢ lock_path (user_root store username)
      → Keeps (locked q) (rotate_password h store salt iv uuid username current new)
  unfolding rotate_password then_unlock
  rotate_password-other store salt iv uuid username current new q other =
      let root = user_root store username in
      let p = lock_path root in
      Keeps-bind Keeps-lift (λ _. Keeps-bind (lock_profile-other q root other) (λ _. record {
        keeps = λ s.
            let a = (rotate_manifest h salt iv uuid root username current new s).1 in
            locking.drop_lock_other p q _ other
            ∙ (locking.unlock_other p q other).keeps a
            ∙ (rotate_manifest-Keeps h (locking.kept q) salt iv uuid root username current new tt
                  (λ _ _. tt)).keeps
                s;
      }))

  pub close-other :
      (uuid : Text) (seed : Option Bytes) (vault : UnlockedVault) (q : Text)
      → q ≢ vault.lock
      → Keeps (locked q) (close h uuid seed vault)
  unfolding close
  close-other uuid seed vault q other = record {
    keeps = λ s.
        let k = locking.kept q in
        let a =
          (seal_directory h.cipher h.files h.tar uuid seed vault.codex_home vault.state_path
            vault.data_key s).1 in
        let b = (h.files.close_tempdir vault.runtime a).1 in
        locking.drop_lock_other vault.lock q _ other
        ∙ (locking.unlock_other vault.lock q other).keeps b
        ∙ (k.close_tempdir vault.runtime (λ _. tt)).keeps a
        ∙ (seal_directory-Keeps h.cipher h.files h.tar k uuid vault.state_path vault.codex_home
              vault.data_key seed tt tt).keeps
            s;
  }

  module _
      (changes : (q : Text) (a b : h.tar.Archive) (g : h.system.State → h.system.State)
          (s : h.system.State)
        → h.tar.next a ≡ change g b
        → locked q (g s) ≡ locked q s)
      (store : VaultStore) where
    inside :
        (fuel : ℕ) (username q : Text) (password : Bytes) (s t : h.system.State)
        (r : VaultResult UnlockedVault)
        → unlock_locked h store fuel username password s ≡ some (r, t)
        → locked q t ≡ locked q s
    inside fuel username q password s t r e =
        let k = locking.kept q in
        unlock_locked-Stays h k (changes q) (λ runtime. k.close_tempdir runtime (λ _. tt)) store
          fuel username password s t r e

    -- How the end of an attempt leaves a lock.
    ended :
        (path q : Text) (o : Outcome h) (r : VaultResult UnlockedVault) (s t : h.system.State)
        → ((a : VaultResult UnlockedVault) (u : h.system.State)
            → o ≡ some (a, u)
            → locked q u ≡ locked q s)
        → unless_unlocked h path o ≡ some (r, t)
        → ((vault : UnlockedVault) → r ≡ ok vault → locked q t ≡ locked q s)
          × (q ≢ path → locked q t ≡ locked q s)
    ended path q none r s t stays e = absurd cc
    ended path q (some (ok vault, u)) r s t stays e =
        let k = stays (ok vault) u refl in ((λ v ev. ground arith), λ other. ground arith)
    ended path q (some (err x, u)) r s t stays e =
        let k = stays (err x) u refl in
        (
          (λ v ev. absurd (ground arith)),
          λ other.
              let d = locking.drop_lock_other path q (h.files.unlock path u).1 other in
              let l = (locking.unlock_other path q other).keeps u in ground arith,
        )

    -- An attempt that succeeds holds the lock of the profile; the others stay.
    pub unlock_lock :
        (fuel : ℕ) (username : Text) (password : Bytes) (s t : h.system.State)
        (r : VaultResult UnlockedVault)
        → unlock h store fuel username password s ≡ some (r, t)
        → let p = lock_path (user_root store username) in
          ((vault : UnlockedVault) → r ≡ ok vault → locked p t ≡ true)
          × ((q : Text) → q ≢ p → locked q t ≡ locked q s)
    unfolding unlock
    unlock_lock fuel username password s t r e =
        let root = user_root store username in
        let p = lock_path root in
        let a = (lock_profile h root s).1 in
        elim (Result-cases (validate_username username)) [
          | inr (x, ev) ↦ ((λ v er. absurd (ground arith)), λ q other. ground arith)
          | inl (_, ev) ↦ elim (Result-cases (lock_profile h root s).0) [
            | inr (x, el) ↦ (
              (λ v er. absurd (ground arith)),
              λ q other. let k = (lock_profile-other q root other).keeps s in ground arith,
            )
            | inl (_, el) ↦
                let o = unlock_locked h store fuel username password a in
                let end_of : (q : Text)
                    → ((vault : UnlockedVault) → r ≡ ok vault → locked q t ≡ locked q a)
                      × (q ≢ p → locked q t ≡ locked q a) =
                  λ q.
                    ended p q o r a t (λ b u eo. inside fuel username q password a u b eo)
                      (ground arith) in
                (
                  (λ v er. (end_of p).0 v er ∙ lock_profile-locks root s el),
                  λ q other. (end_of q).1 other ∙ (lock_profile-other q root other).keeps s,
                )
          ]
        ]
