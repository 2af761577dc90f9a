-- ===== src/Store/Kept.antt =====
-- What the calls on a profile leave as it was.
use codex_vault.Prelude.{
  Keeps-on_error, Keeps-bind, Keeps-lift, Keeps-with_error, on_error, ℕ, ◌≡◌, ◌∙◌, inl, inr, Option,
  some, arith, Option-cases, Result-cases, bind, with_error, Keeps, keeps_rules,
}
use codex_vault.Prelude.Bytes.{Bytes, Text, ascii}
use codex_vault.Error.{VaultResult, io}
use codex_vault.Manifest.{UserManifest}
use codex_vault.Private.{join, ensure_private_directory}
use codex_vault.Private.Kept.{
  ensure_private_directory-Keeps, prepare_runtime_root-Keeps, select_runtime_root-Keeps,
}
use codex_vault.Files.{parent}
use codex_vault.Files.Kept.{IsKept}
use codex_vault.Archive.{change, unseal_directory}
use codex_vault.Archive.Kept.{unseal_directory-Stays}
use codex_vault.Store.Host.{Host}
use codex_vault.Store.Disk.{
  VaultStore, user_root, manifest_path, state_path, temporary_manifest, read_manifest,
  write_private_json, replace_private_json, write_process_id,
}
use codex_vault.Store.Session.{
  UnlockedVault, rotate_manifest, runtime_root_of, open_profile, fill_runtime, unlock_locked,
}

module _ (h : Host) {V : Type 0} {view : h.system.State → V} {Other : Text → Type 0}
    (kept : IsKept h.files view Other) where
  read_manifest-Keeps : (root : Text) → Keeps view (read_manifest h root)
  unfolding read_manifest
  read_manifest-Keeps root = search (keeps_rules, kept.open_read, kept.read_to_end) depth 14

  pub write_process_id-Keeps : (path : Text) → Other path → Keeps view (write_process_id h path)
  unfolding write_process_id
  write_process_id-Keeps path other =
      search (keeps_rules, kept.set_len, kept.seek_start, kept.write_all, kept.flush) depth 14

  pub write_private_json-Keeps :
      (path : Text) (m : UserManifest) → Other path → Keeps view (write_private_json h path m)
  unfolding write_private_json
  write_private_json-Keeps path m other =
      search (keeps_rules, kept.create_new, kept.write_all, kept.sync_all) depth 14

  replace_private_json-Keeps :
      (uuid path : Text) (m : UserManifest)
      → Other path
      → ((directory : Text)
          → parent path ≡ some directory
          → Other (temporary_manifest uuid directory))
      → Keeps view (replace_private_json h uuid path m)
  unfolding replace_private_json
  replace_private_json-Keeps uuid path m other beside = record {
    keeps = λ s. elim (Option-cases (parent path)) [
      | inl e ↦ ground arith
      | inr (directory, e) ↦
          let p = temporary_manifest uuid directory in
          let free = beside directory e in
          let written = write_private_json-Keeps p m free in
          let undo = λ (u : h.system.State). (kept.remove_file p free).keeps u in
          let block : Keeps view (
              on_error (λ u. (h.files.remove_file p u).1)
                (bind (write_private_json h p m) (λ _. with_error io (
                  bind (h.files.rename p path) (λ _.
                    bind (h.files.open_file directory) (λ _. h.files.sync_all directory)))))) =
            Keeps-on_error _ _ undo (
              Keeps-bind written (λ _. Keeps-with_error io (
                Keeps-bind (kept.rename p path free other)
                  (λ _. Keeps-bind (kept.open_file directory) (λ _. kept.sync_all directory))))) in
          let k = block.keeps s in ground arith
    ];
  }

  pub rotate_manifest-Keeps :
      (salt iv : Option Bytes) (uuid root username : Text) (current new : Bytes)
      → Other (manifest_path root)
      → ((directory : Text)
          → parent (manifest_path root) ≡ some directory
          → Other (temporary_manifest uuid directory))
      → Keeps view (rotate_manifest h salt iv uuid root username current new)
  unfolding rotate_manifest
  rotate_manifest-Keeps salt iv uuid root username current new other beside =
      Keeps-bind (read_manifest-Keeps root) (λ m.
        Keeps-bind Keeps-lift
          (λ changed. replace_private_json-Keeps uuid (manifest_path root) changed other beside))

  runtime_root_of-Keeps : (store : VaultStore) → Keeps view (runtime_root_of h store)
  unfolding runtime_root_of
  runtime_root_of-Keeps store = record {
    keeps = λ s.
        let k =
          (select_runtime_root-Keeps h.system view kept.create_dir h.explicit_runtime h.xdg_runtime
              h.temp_dir).keeps
            s in
        elim (Option-cases store.runtime_root) [
          | inl e ↦ ground arith
          | inr (p, e) ↦
              let l = (prepare_runtime_root-Keeps h.system view kept.create_dir p).keeps s in
              ground arith
        ];
  }

  pub open_profile-Keeps :
      (store : VaultStore) (username : Text) (password : Bytes)
      → Keeps view (open_profile h store username password)
  unfolding open_profile
  open_profile-Keeps store username password =
      Keeps-bind (read_manifest-Keeps (user_root store username)) (λ m.
        Keeps-bind Keeps-lift (λ data_key. Keeps-bind (runtime_root_of-Keeps store) (λ root.
          Keeps-bind Keeps-lift (λ name.
            Keeps-bind (Keeps-with_error io (kept.tempdir_in root name)) (λ runtime. Keeps-lift)))))

  module _
      (changes : (a b : h.tar.Archive) (g : h.system.State → h.system.State) (s : h.system.State)
        → h.tar.next a ≡ change g b
        → view (g s) ≡ view s)
      (clears : (runtime : Text) → Keeps view (h.files.close_tempdir runtime)) where
    fill_runtime-Stays :
        (fuel : ℕ) (root : Text) (opened : UserManifest × Bytes × Text) (s t : h.system.State)
        (r : VaultResult UnlockedVault)
        → fill_runtime h fuel root opened s ≡ some (r, t)
        → view t ≡ view s
    unfolding fill_runtime
    fill_runtime-Stays fuel root (manifest, data_key, runtime) s t r e =
        let home = join runtime (ascii "codex-home") in
        let a = (ensure_private_directory h.system home s).1 in
        let ka = (ensure_private_directory-Keeps h.system view kept.create_dir home).keeps s in
        let cleared = λ (u : h.system.State). (clears runtime).keeps u in
        elim (Result-cases (ensure_private_directory h.system home s).0) [
          | inr (x, ea) ↦ ground (arith, cleared a)
          | inl (_, ea) ↦
              elim (Option-cases (
                unseal_directory h.cipher h.files h.tar h.buffer fuel (state_path root) home
                  data_key a)) [
                    | inl stuck ↦ absurd (ground arith)
                    | inr (o, found) ↦
                        let k =
                          unseal_directory-Stays h.cipher h.files h.tar kept changes
                            (state_path root) h.buffer fuel home data_key a o.1 o.0 found in
                        elim (Result-cases o.0) [
                          | inr (x, eo) ↦ ground (arith, cleared o.1)
                          | inl (_, eo) ↦ ground arith
                        ]
                  ]
        ]

    pub unlock_locked-Stays :
        (store : VaultStore) (fuel : ℕ) (username : Text) (password : Bytes) (s t : h.system.State)
        (r : VaultResult UnlockedVault)
        → unlock_locked h store fuel username password s ≡ some (r, t)
        → view t ≡ view s
    unfolding unlock_locked
    unlock_locked-Stays store fuel username password s t r e =
        let a = (open_profile h store username password s).1 in
        let k = (open_profile-Keeps store username password).keeps s in
        elim (Result-cases (open_profile h store username password s).0) [
          | inr (x, ea) ↦ ground arith
          | inl (opened, ea) ↦
              fill_runtime-Stays fuel (user_root store username) opened a t r (ground arith) ∙ k
        ]
