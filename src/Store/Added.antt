-- ===== src/Store/Added.antt =====
-- src/store.rs: a user is added as a whole, or not at all.
use codex_vault.Prelude.{
  on_error, Keeps-bind, ℕ, ◌<◌, ◌≡◌, refl, ◌≢◌, inl, inr, true, Option, some, [], ◌∷◌, arith,
  Option-cases, length, ok, err, ◌>>◌, ok_or, Result-cases, chain-eq-ok, Keeps,
}
use mathlib.Core.List.{map}
use codex_vault.Prelude.Bytes.{Bytes, Text}
use codex_vault.Error.{cryptography, VaultError, IoError}
use codex_vault.Manifest.{UserManifest, is_valid_username, new_header}
use codex_vault.Private.{join, ensure_private_directory}
use codex_vault.Private.Kept.{ensure_private_directory-Keeps}
use codex_vault.Files.Contents.{IsFiles}
use codex_vault.Files.Directories.{IsDirectories}
use codex_vault.Stream.Format.{IsAead}
use codex_vault.Keys.{IsBase64, key_length}
use codex_vault.Keys.{default_kdf_parameters, derive_key}
use codex_vault.Store.{
  to_ascii_lowercase, validate_username, validate_password, create_keys, unlock_keys,
}
use codex_vault.Store.Keys.{unlock_keys-create_keys}
use codex_vault.Store.Host.{Host, is_uuid}
use codex_vault.Store.Disk.{VaultStore, users_root, user_root, initialize}
use codex_vault.Store.Users.{Entropy, staging_path, write_profile, add_user}
use codex_vault.Store.Created.{Profile, staged}

-- The directory of a valid username is not hidden.
abbrev IsVisible : VaultStore → Text → Type 0
IsVisible store username =
    (a : ℕ) × (name : Text) × (a ≢ 46)
    × (user_root store username ≡ join (users_root store) (a ∷ name))

user_root-IsVisible :
    (store : VaultStore) (username : Text)
    → is_valid_username username ≡ true
    → IsVisible store username
unfolding user_root is_valid_username
user_root-IsVisible store [] v = absurd cc
user_root-IsVisible store (b ∷ bs) v =
    (to_ascii_lowercase b, map to_ascii_lowercase bs, (λ e. ground arith), refl)

module _ (h : Host) (laws : IsFiles h.files) (directories : IsDirectories h.files laws)
    (ic : IsAead h.cipher) (ib : IsBase64 h.base64) where
  open laws use {content}

  initialize-Keeps : (store : VaultStore) (q : Text) → Keeps (content q) (initialize h store)
  unfolding initialize
  initialize-Keeps store q =
      let k = ensure_private_directory-Keeps h.system (content q) (directories.kept q).create_dir in
      Keeps-bind (k store.root) (λ _. k (users_root store))

  -- Keys that were just created open under their password.
  create_keys-Opens :
      (salt key_nonce random_key : Option Bytes) (clock : Option ℕ) (id username : Text)
      (password data_key : Bytes) (m : UserManifest)
      → is_uuid h id ≡ true
      → ((now : ℕ) → clock ≡ some now → 0 < now)
      → ((key : Bytes) → random_key ≡ some key → length key ≡ key_length)
      → is_valid_username username ≡ true
      → create_keys h.cipher h.base64 h.argon2 salt random_key key_nonce clock id username password
        ≡ ok (m, data_key)
      → unlock_keys h.cipher h.base64 h.argon2 (is_uuid h) m username password ≡ ok data_key
  unfolding create_keys new_header
  create_keys-Opens salt key_nonce random_key clock id username password data_key m fresh
        after_epoch long valid made =
      let (kdf, ek, e1) = chain-eq-ok _ (default_kdf_parameters h.base64 salt) made in
      let (wrapping_key, ew, e2) = chain-eq-ok _ (derive_key h.base64 h.argon2 password kdf) e1 in
      let (key, er, e3) =
        chain-eq-ok _ (ok_or random_key (cryptography "operating-system random source failed"))
          e2 in
      let (header, eh, e4) = chain-eq-ok _ (new_header clock id username kdf) e3 in
      let same : key ≡ data_key = ground arith in
      elim (Option-cases clock) [
        | inl never ↦ absurd (ground arith)
        | inr (now, ec) ↦ elim (Option-cases random_key) [
          | inl failed ↦ absurd (ground arith)
          | inr (k, eb) ↦
              unlock_keys-create_keys h.cipher ic h.base64 ib h.argon2 (is_uuid h) salt random_key
                key_nonce now id username password data_key m fresh valid (after_epoch now ec)
                (long data_key (ground arith)) (rw ec at made)
        ]
      ]

  -- With the ciphers, the encodings and the files as documented, temporary directories outside of the
  -- profile, a UUID, a clock behind the epoch and a data key of 32 bytes: a user is added with
  -- success only where nothing was at the path of the profile, and the profile is then complete, a
  -- manifest that opens under the password to a data key and the sealed archive of a new
  -- temporary directory, as it was created, under that key. After an error the files of the profile
  -- are as they were.
  pub add_user-Profile :
      (store : VaultStore) (username : Text) (password : Bytes) (e : Entropy) (s : h.system.State)
      → ((u : h.system.State) (empty : Text)
          → (h.files.tempdir u).0 ≡ ok empty
          → (inner other : Text) → join (user_root store username) inner ≢ join empty other)
      → is_uuid h e.id ≡ true
      → ((now : ℕ) → e.clock ≡ some now → 0 < now)
      → ((key : Bytes) → e.data_key ≡ some key → length key ≡ key_length)
      → let root = user_root store username in
        let (r, t) = add_user h store username password e s in
        (r ≡ ok tt
          → (new : Profile h laws directories store username password e root t) × (unlock_keys
                h.cipher h.base64 h.argon2
                (is_uuid h)
                new.manifest
                username
                password
              ≡ ok new.data_key)
            × ((x : IoError) × (h.system.symlink_metadata root (initialize h store s).1 ≡ err x)))
        × ((x : VaultError)
            → r ≡ err x
            → (b : ℕ) (name : Text)
            → content (join root (b ∷ name)) t ≡ content (join root (b ∷ name)) s)
  unfolding add_user
  add_user-Profile store username password e s outside fresh after_epoch long =
      let root = user_root store username in
      let staging = staging_path store e.staging in
      let a = (initialize h store s).1 in
      let ka = λ (q : Text). (initialize-Keeps store q).keeps s in
      let d = (ensure_private_directory h.system staging a).1 in
      let kd = λ (q : Text).
        (ensure_private_directory-Keeps h.system (content q) (directories.kept q).create_dir
            staging).keeps
          a in
      elim (Result-cases (validate_username username >> validate_password password)) [
        | inr (x, ev) ↦ ((λ r. absurd (ground arith)), λ y ey b name. ground arith)
        | inl (_, ev) ↦ elim (Result-cases (initialize h store s).0) [
          | inr (x, ea) ↦ (
            (λ r. absurd (ground arith)),
            λ y ey b name. ground (arith, ka (join root (b ∷ name))),
          )
          | inl (_, ea) ↦ elim (Result-cases (h.system.symlink_metadata root a)) [
            | inl (m, em) ↦ (
              (λ r. absurd (ground arith)),
              λ y ey b name. ground (arith, ka (join root (b ∷ name))),
            )
            | inr (x, em) ↦ elim (Result-cases (ensure_private_directory h.system staging a).0) [
              | inr (z, ed) ↦ (
                (λ r. absurd (ground arith)),
                λ y ey b name. ground (arith, ka (join root (b ∷ name)), kd (join root (b ∷ name))),
              )
              | inl (_, ed) ↦
                  let valid : is_valid_username username ≡ true =
                    unfold validate_username in ground arith in
                  let (c, name, visible, named) = user_root-IsVisible store username valid in
                  let (on_ok, on_err) =
                    staged h laws directories store username name c visible named outside e password
                      d in
                  let t =
                    (on_error (λ u. (h.files.remove_dir_all staging u).1)
                      (write_profile h store username password e) d).1 in
                  let final : (add_user h store username password e s).1 ≡ t = ground arith in
                  (
                    (λ r.
                        let new = on_ok (ground arith) in
                        rw final (
                          new,
                          create_keys-Opens e.salt e.key_nonce e.data_key e.clock e.id username
                              password new.data_key new.manifest fresh after_epoch long valid
                              new.keys,
                          (x, em),
                        )),
                    λ y ey b inner.
                        let k = on_err y (ground arith) b inner in
                        ground (arith, ka (join root (b ∷ inner)), kd (join root (b ∷ inner))),
                  )
            ]
          ]
        ]
      ]
