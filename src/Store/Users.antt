-- ===== src/Store/Users.antt =====
-- src/store.rs: profiles are created and listed.
use codex_vault.Prelude.{
  on_error, then_drop, ℕ, Bool, true, false, not, ◌&&◌, ◌||◌, Option, List, [], ◌∷◌, ◌++◌, ltb,
  ◌==◌, if◌then◌else◌, ok, err, ◌>>◌, bind, lift, with_error,
}
use codex_vault.Prelude.Bytes.{Bytes, Text, ascii}
use codex_vault.Error.{IoResult, io, user_exists}
use codex_vault.Private.{join, ensure_private_directory}
use codex_vault.Files.{Entry, drop_tempdir}
use codex_vault.Archive.{seal_directory}
use codex_vault.Store.{validate_username, validate_password, create_keys}
use codex_vault.Store.Host.{Host}
use codex_vault.Store.Disk.{
  VaultStore, Call, users_root, user_root, manifest_path, state_path, initialize,
  write_private_json, read_manifest,
}

-- What `add_user` takes of the random source, the clock and the UUID generator.
pub record Entropy : Type 0 where
  pub staging : Text
  pub salt : Option Bytes
  pub data_key : Option Bytes
  pub clock : Option ℕ
  pub id : Text
  pub key_nonce : Option Bytes
  pub archive : Text
  pub seed : Option Bytes

abbrev pub staging_path : VaultStore → Text → Text
staging_path store uuid = join (users_root store) (ascii ".creating-" ++ uuid)

-- `sort_unstable` on strings: by their bytes.
unfoldable pub le_text : Text → Text → Bool
le_text [] t = true
le_text (b ∷ s) [] = false
le_text (b ∷ s) (c ∷ t) = ltb b c || b == c && le_text s t

abbrev pub insert : Text → List Text → List Text
insert x [] = x ∷ []
insert x (y ∷ ys) = if le_text x y then x ∷ (y ∷ ys) else y ∷ insert x ys

unfoldable pub sort_unstable : List Text → List Text
sort_unstable [] = []
sort_unstable (x ∷ xs) = insert x (sort_unstable xs)

abbrev pub is_hidden : Text → Bool
is_hidden [] = false
is_hidden (b ∷ name) = b == 46

module _ (h : Host) where
  -- The files of a new profile in the staging directory, which is renamed in the end.
  unfoldable pub write_profile : VaultStore → Text → Bytes → Entropy → Call h (Unit {0})
  write_profile store username password e =
      let staging = staging_path store e.staging in
      bind
        (lift (
          create_keys h.cipher h.base64 h.argon2 e.salt e.data_key e.key_nonce e.clock e.id username
            password))
        (λ (manifest, data_key). bind (write_private_json h (manifest_path staging) manifest) (λ _.
          bind (with_error io h.files.tempdir) (λ empty. then_drop (drop_tempdir h.files empty) (
            bind
              (seal_directory h.cipher h.files h.tar e.archive e.seed empty (state_path staging)
                data_key)
              (λ _. with_error io (h.files.rename staging (user_root store username)))))))

  -- `add_user`
  unfoldable pub add_user : VaultStore → Text → Bytes → Entropy → Call h (Unit {0})
  add_user store username password e =
      let staging = staging_path store e.staging in
      bind (lift (validate_username username >> validate_password password)) (λ _.
        bind (initialize h store) (λ _ s.
          elim (h.system.symlink_metadata (user_root store username) s) [
            | ok _ ↦ (err (user_exists (h.system.printed username)), s)
            | err _ ↦
                bind (ensure_private_directory h.system staging)
                  (λ _.
                    on_error (λ t. (h.files.remove_dir_all staging t).1)
                      (write_profile store username password e))
                  s
          ]))

  -- The loop of `list_users`.
  unfoldable pub collect_users : List (IoResult Entry) → List Text → Call h (List Text)
  collect_users [] users s = (ok (sort_unstable users), s)
  collect_users (err e ∷ entries) users s = (err (io e), s)
  collect_users (ok entry ∷ entries) users s = elim entry.is_dir [
    | err e ↦ (err (io e), s)
    | ok is_dir ↦ elim (not is_dir || is_hidden entry.file_name) [
      | true ↦ collect_users entries users s
      | false ↦
          let (r, t) = read_manifest h entry.path s in
          collect_users entries (elim r [ ok m ↦ users ++ (m.username ∷ []) | err _ ↦ users ]) t
    ]
  ]

  -- `list_users`
  unfoldable pub list_users : VaultStore → Call h (List Text)
  list_users store = bind (initialize h store) (λ _.
      bind (with_error io (h.files.read_dir (users_root store)))
        (λ entries. collect_users entries []))
