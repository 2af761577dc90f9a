-- ===== src/Store/Session.antt =====
-- src/store.rs: a profile is unlocked and closed, and its password is changed.
use codex_vault.Prelude.{ℕ, Option, none, some, ok, err, ◌>>◌, ok_or, bind, lift, with_error}
use codex_vault.Prelude.Bytes.{Bytes, Text, ascii}
use codex_vault.Error.{VaultResult, io, authentication, invalid_configuration}
use codex_vault.Manifest.{UserManifest}
use codex_vault.Private.{
  join, ensure_private_directory, validate_private_directory, prepare_runtime_root,
  select_runtime_root,
}
use codex_vault.Files.{drop_tempdir}
use codex_vault.Archive.{seal_directory, unseal_directory}
use codex_vault.Store.{validate_username, validate_password, unlock_keys, rotate_keys}
use codex_vault.Store.Host.{Host, is_uuid}
use codex_vault.Store.Disk.{
  VaultStore, Call, look, user_root, manifest_path, state_path, lock_path, read_manifest,
  replace_private_json, acquire_lock,
}

pub record UnlockedVault : Type 0 where
  pub username : Text
  pub codex_home : Text
  pub runtime : Text
  pub state_path : Text
  pub data_key : Bytes
  pub lock : Text

module _ (h : Host) where
  -- What stands behind the lock in `rotate_password`, by the random salt, nonce and UUID.
  unfoldable pub rotate_manifest :
      Option Bytes → Option Bytes → Text → Text → Text → Bytes → Bytes → Call h (Unit {0})
  rotate_manifest salt nonce uuid root username current_password new_password =
      bind (read_manifest h root) (λ manifest.
        bind
          (lift (
            rotate_keys h.cipher h.base64 h.argon2 salt nonce manifest username current_password
              new_password))
          (λ changed. replace_private_json h uuid (manifest_path root) changed))

  -- A block under a lock: the lock is given up at its end, and dropped. The error of the block
  -- comes before that of the unlock.
  unfoldable pub then_unlock : Text → Call h (Unit {0}) → Call h (Unit {0})
  then_unlock path m s =
      let (r, t) = m s in
      let (q, u) = with_error io (h.files.unlock path) t in (r >> q, h.files.drop_lock path u)

  -- The directory of a profile, which is private, and its lock.
  unfoldable pub lock_profile : Text → Call h (Unit {0})
  lock_profile root =
      bind (with_error (λ _. authentication) (look h (validate_private_directory h.system root)))
        (λ _. acquire_lock h (lock_path root))

  -- `rotate_password`
  unfoldable pub rotate_password :
      VaultStore → Option Bytes → Option Bytes → Text → Text → Bytes → Bytes → Call h (Unit {0})
  rotate_password store salt nonce uuid username current_password new_password =
      let root = user_root store username in
      bind (lift (validate_username username >> validate_password new_password)) (λ _.
        bind (lock_profile root) (λ _.
          then_unlock (lock_path root)
            (rotate_manifest salt nonce uuid root username current_password new_password)))

  -- The root under which a profile is unlocked.
  unfoldable pub runtime_root_of : VaultStore → Call h Text
  runtime_root_of store = elim store.runtime_root [
    | some path ↦ prepare_runtime_root h.system path
    | none ↦ select_runtime_root h.system h.explicit_runtime h.xdg_runtime h.temp_dir
  ]

  -- What stands behind the lock in `unlock`, up to the temporary directory: the manifest, the data
  -- key, and the directory.
  unfoldable pub open_profile : VaultStore → Text → Bytes → Call h (UserManifest × Bytes × Text)
  open_profile store username password =
      bind (read_manifest h (user_root store username)) (λ manifest.
        bind (lift (unlock_keys h.cipher h.base64 h.argon2 (is_uuid h) manifest username password))
          (λ data_key. bind (runtime_root_of store) (λ root.
            bind
              (lift
                (ok_or (h.parse_uuid manifest.id) (invalid_configuration "invalid profile UUID")))
              (λ name.
                bind (with_error io (h.files.tempdir_in root name))
                  (λ runtime. lift (ok (manifest, data_key, runtime)))))))

  abbrev pub Outcome : Type 0
  Outcome = Option (VaultResult UnlockedVault × h.system.State)

  -- The archive is unsealed into the temporary directory, which an error drops. `none` means that
  -- the fuel ran out.
  unfoldable pub fill_runtime : ℕ → Text → UserManifest × Bytes × Text → h.system.State → Outcome
  fill_runtime fuel root (manifest, data_key, runtime) s =
      let codex_home = join runtime (ascii "codex-home") in
      let (r, t) = ensure_private_directory h.system codex_home s in
      elim r [
        | err e ↦ some (err e, drop_tempdir h.files runtime t)
        | ok _ ↦
            elim (unseal_directory h.cipher h.files h.tar h.buffer fuel (state_path root) codex_home
              data_key t) [
                | none ↦ none
                | some (err e, u) ↦ some (err e, drop_tempdir h.files runtime u)
                | some (ok _, u) ↦ some (
                  ok (record {
                    username = manifest.username;
                    codex_home = codex_home;
                    runtime = runtime;
                    state_path = state_path root;
                    data_key = data_key;
                    lock = lock_path root;
                  }),
                  u,
                )
              ]
      ]

  -- The end of `unlock`: an error gives up the lock, whose handle is dropped.
  abbrev pub unless_unlocked : Text → Outcome → Outcome
  unless_unlocked path none = none
  unless_unlocked path (some (ok vault, s)) = some (ok vault, s)
  unless_unlocked path (some (err e, s)) =
      some (err e, h.files.drop_lock path (h.files.unlock path s).1)

  unfoldable pub unlock_locked : VaultStore → ℕ → Text → Bytes → h.system.State → Outcome
  unlock_locked store fuel username password s =
      let (r, t) = open_profile store username password s in
      elim r [
        | err e ↦ some (err e, t)
        | ok opened ↦ fill_runtime fuel (user_root store username) opened t
      ]

  -- `unlock`, with the fuel of the archive.
  unfoldable pub unlock : VaultStore → ℕ → Text → Bytes → h.system.State → Outcome
  unlock store fuel username password s =
      let root = user_root store username in
      let (r, t) = bind (lift (validate_username username)) (λ _. lock_profile root) s in
      elim r [
        | err e ↦ some (err e, t)
        | ok _ ↦ unless_unlocked (lock_path root) (unlock_locked store fuel username password t)
      ]

  -- `UnlockedVault::close`, by the random UUID and seed: all three steps are made, and the first
  -- error is the result.
  unfoldable pub close : Text → Option Bytes → UnlockedVault → Call h (Unit {0})
  close uuid seed vault s =
      let (sealed, t) =
        seal_directory h.cipher h.files h.tar uuid seed vault.codex_home vault.state_path
          vault.data_key s in
      let (cleaned, u) = with_error io (h.files.close_tempdir vault.runtime) t in
      let (unlocked, v) = with_error io (h.files.unlock vault.lock) u in
      (sealed >> (cleaned >> unlocked), h.files.drop_lock vault.lock v)
