-- ===== src/Store/Opened.antt =====
-- What an unlocked vault was opened by.
use codex_vault.Prelude.{
  ℕ, ◌≡◌, sym, ap, ◌∙◌, inl, inr, none, some, arith, ok, err, ok_or, Result-cases,
}
use codex_vault.Prelude.Bytes.{Bytes, Text, ascii}
use codex_vault.Error.{invalid_configuration}
use codex_vault.Manifest.{UserManifest}
use codex_vault.Private.{join}
use codex_vault.Files.Contents.{IsFiles}
use codex_vault.Store.{validate_username, unlock_keys}
use codex_vault.Store.Host.{Host, is_uuid}
use codex_vault.Store.Disk.{
  VaultStore, user_root, manifest_path, state_path, lock_path, read_manifest,
}
use codex_vault.Store.Read.{read_manifest_ok, lock_profile-Keeps}
use codex_vault.Store.Rotate.{manifest_path-ne-lock_path}
use codex_vault.Store.Session.{
  UnlockedVault, Outcome, lock_profile, runtime_root_of, open_profile, fill_runtime,
  unless_unlocked, unlock_locked, unlock,
}

module _ (h : Host) where
  -- The manifest that was read, whose data key opens under the password.
  abbrev Keyed : Text → Text → Bytes → UserManifest × Bytes × Text → h.system.State → Type 0
  Keyed root username password (manifest, data_key, runtime) s =
      ((read_manifest h root s).0 ≡ ok manifest)
      × (unlock_keys h.cipher h.base64 h.argon2 (is_uuid h) manifest username password
          ≡ ok data_key)

  open_profile-Keyed :
      (store : VaultStore) (username : Text) (password : Bytes) (s : h.system.State)
      (opened : UserManifest × Bytes × Text)
      → (open_profile h store username password s).0 ≡ ok opened
      → Keyed (user_root store username) username password opened s
  unfolding open_profile
  open_profile-Keyed store username password s (manifest, data_key, runtime) e =
      let root = user_root store username in
      let a = (read_manifest h root s).1 in
      elim (Result-cases (read_manifest h root s).0) [
        | inr (x, er) ↦ absurd (ground arith)
        | inl (m, er) ↦
            elim (Result-cases
              (unlock_keys h.cipher h.base64 h.argon2 (is_uuid h) m username password)) [
                | inr (x, ek) ↦ absurd (ground arith)
                | inl (key, ek) ↦
                    let b = (runtime_root_of h store a).1 in
                    elim (Result-cases (runtime_root_of h store a).0) [
                      | inr (x, eo) ↦ absurd (ground arith)
                      | inl (runtime_root, eo) ↦
                          elim (Result-cases (
                            ok_or (h.parse_uuid m.id)
                              (invalid_configuration "invalid profile UUID"))) [
                                | inr (x, en) ↦ absurd (ground arith)
                                | inl (name, en) ↦
                                    elim (Result-cases (h.files.tempdir_in runtime_root name b).0) [
                                      | inr (x, et) ↦ absurd (ground arith)
                                      | inl (found, et) ↦ (ground arith, ground arith)
                                    ]
                              ]
                    ]
              ]
      ]

  -- The vault of the opened manifest.
  abbrev Filled : Text → UserManifest × Bytes × Text → UnlockedVault → Type 0
  Filled root (manifest, data_key, runtime) vault =
      (vault.username ≡ manifest.username)
      × (vault.data_key ≡ data_key)
      × (vault.state_path ≡ state_path root)
      × (vault.codex_home ≡ join vault.runtime (ascii "codex-home"))

  fill_runtime-Filled :
      (fuel : ℕ) (root : Text) (opened : UserManifest × Bytes × Text) (s t : h.system.State)
      (vault : UnlockedVault)
      → fill_runtime h fuel root opened s ≡ some (ok vault, t)
      → Filled root opened vault
  unfolding fill_runtime
  fill_runtime-Filled fuel root (manifest, data_key, runtime) s t vault e =
      (ground arith, ground arith, ground arith, ground arith)

  pub unless_unlocked_ok :
      (path : Text) (o : Outcome h) (vault : UnlockedVault) (t : h.system.State)
      → unless_unlocked h path o ≡ some (ok vault, t)
      → o ≡ some (ok vault, t)
  unless_unlocked_ok path none vault t e = cc
  unless_unlocked_ok path (some (ok found, u)) vault t e = e
  unless_unlocked_ok path (some (err x, u)) vault t e = absurd cc

  module _ (laws : IsFiles h.files) where
    open laws use {content}

    -- The vault is that of the manifest in the file, whose data key opens under the password.
    pub record Opened (root username : Text) (password before : Bytes) (vault : UnlockedVault)
        : Type 0 where
      pub manifest : UserManifest
      pub manifest_read : h.json.from_slice before ≡ ok manifest
      pub keys :
          unlock_keys h.cipher h.base64 h.argon2 (is_uuid h) manifest username password
          ≡ ok vault.data_key
      pub username_eq : vault.username ≡ manifest.username
      pub state_path_eq : vault.state_path ≡ state_path root
      pub codex_home_eq : vault.codex_home ≡ join vault.runtime (ascii "codex-home")

    -- With the files as documented: a profile is unlocked only by a password under which the manifest
    -- that stood in its file opens to the vault's data key; the vault has that manifest's username,
    -- the profile's archive, and a Codex directory in its runtime.
    pub unlock-Opened :
        (store : VaultStore) (fuel : ℕ) (username : Text) (password : Bytes) (s t : h.system.State)
        (vault : UnlockedVault)
        → unlock h store fuel username password s ≡ some (ok vault, t)
        → let root = user_root store username in
          Opened root username password (content (manifest_path root) s) vault
    unfolding unlock unlock_locked
    unlock-Opened store fuel username password s t vault e =
        let root = user_root store username in
        let p = manifest_path root in
        let a = (lock_profile h root s).1 in
        let kept : content p a ≡ content p s =
          (lock_profile-Keeps h laws p root (manifest_path-ne-lock_path root)).keeps s in
        elim (Result-cases (validate_username username)) [
          | inr (x, ev) ↦ absurd (ground arith)
          | inl (_, ev) ↦ elim (Result-cases (lock_profile h root s).0) [
            | inr (x, el) ↦ absurd (ground arith)
            | inl (_, el) ↦
                let locked_run =
                  unless_unlocked_ok (lock_path root)
                    (unlock_locked h store fuel username password a) vault t (ground arith) in
                let b = (open_profile h store username password a).1 in
                elim (Result-cases (open_profile h store username password a).0) [
                  | inr (x, eo) ↦ absurd (ground arith)
                  | inl ((manifest, data_key, runtime), eo) ↦
                      let opened : UserManifest × Bytes × Text = (manifest, data_key, runtime) in
                      let (read, keys) = open_profile-Keyed store username password a opened eo in
                      let (name, key, archive, home) =
                        fill_runtime-Filled fuel root opened b t vault (ground arith) in
                      record {
                        manifest = manifest;
                        manifest_read =
                            rw kept at ((read_manifest_ok h laws root a manifest read).0);
                        keys = keys ∙ ap ok (sym key);
                        username_eq = name;
                        state_path_eq = archive;
                        codex_home_eq = home;
                      }
                ]
          ]
        ]
