-- ===== src/Store.antt =====
-- src/store.rs: the keys of a profile, from the password to the data key, as `add_user` creates them,
-- `unlock` opens them and `rotate_password` changes them. The files around them are in its modules.
pub mod Keys
pub mod Held
pub mod Host
pub mod Disk
pub mod Replace
pub mod Read
pub mod Users
pub mod Listed
pub mod Session
pub mod Kept
pub mod Sessions
pub mod Added
pub mod Beside
pub mod Closed
pub mod Created
pub mod Opened
pub mod Resumed
pub mod Rotate
pub mod Locks
use codex_vault.Prelude.{
  [], ℕ, ◌+◌, Bool, true, false, not, ◌&&◌, Option, ◌∷◌, ltb, leb, ◌==◌, if◌then◌else◌, length, ok,
  map_err, ok_or, fail_if, ◌>>=◌, ◌>>◌,
}
use codex_vault.Prelude.Bytes.{Bytes, Text}
use codex_vault.Error.{VaultResult, authentication, cryptography, invalid_configuration}
use codex_vault.Manifest.{
  UserManifest, KdfParameters, new_header, associated_data, validate, is_valid_username,
}
use codex_vault.Stream.Format.{Aead}
use codex_vault.Keys.{Base64, Argon2, default_kdf_parameters, derive_key}
use codex_vault.Keys.Wrap.{wrap_data_key, unwrap_data_key}

unfoldable pub validate_username : Text → VaultResult (Unit {0})
validate_username username = fail_if (not (is_valid_username username)) (
    invalid_configuration
      "username must be 1-64 ASCII letters, numbers, dot, underscore, or hyphen")

unfoldable pub validate_password : Bytes → VaultResult (Unit {0})
validate_password password =
    fail_if (ltb (length password) 12)
      (invalid_configuration "password must contain at least 12 bytes")

abbrev pub to_ascii_lowercase : ℕ → ℕ
to_ascii_lowercase b = if leb 65 b && leb b 90 then b + 32 else b

-- `str::eq_ignore_ascii_case`
unfoldable pub eq_ignore_ascii_case : Text → Text → Bool
eq_ignore_ascii_case [] [] = true
eq_ignore_ascii_case (a ∷ s) (b ∷ t) =
    to_ascii_lowercase a == to_ascii_lowercase b && eq_ignore_ascii_case s t
eq_ignore_ascii_case _ _ = false

module _ (c : Aead) (b : Base64) (a : Argon2) where
  -- The last step of each of the two that wrap a key: the manifest with the wrapped key.
  unfoldable pub seal_key : Option Bytes → Bytes → Bytes → UserManifest → VaultResult UserManifest
  seal_key nonce data_key wrapping_key manifest = do
    aad ← associated_data manifest
    wrapped ← wrap_data_key c b nonce data_key wrapping_key aad
    ok (record manifest { wrapped_data_key = wrapped })

  -- `add_user`, from the parameters to the manifest, by the random salt, data key and nonce, the
  -- clock and the UUID.
  unfoldable pub create_keys :
      Option Bytes
      → Option Bytes
      → Option Bytes
      → Option ℕ
      → Text
      → Text
      → Bytes
      → VaultResult (UserManifest × Bytes)
  create_keys salt random_key nonce clock id username password = do
    kdf ← default_kdf_parameters b salt
    wrapping_key ← derive_key b a password kdf
    data_key ← ok_or random_key (cryptography "operating-system random source failed")
    header ← new_header clock id username kdf
    manifest ← seal_key nonce data_key wrapping_key header
    ok (manifest, data_key)

  -- What `unlock` and `rotate_password` do with a manifest to get at its data key: the username, the
  -- wrapping key, and the unwrapping.
  unfoldable pub open_keys : UserManifest → Text → Bytes → VaultResult Bytes
  open_keys manifest username password = do
    fail_if (not (eq_ignore_ascii_case manifest.username username)) authentication
    wrapping_key ← map_err (λ _. authentication) (derive_key b a password manifest.kdf)
    aad ← associated_data manifest
    unwrap_data_key c b manifest.wrapped_data_key wrapping_key aad

  -- `unlock`, from the manifest that was read to the data key.
  unfoldable pub unlock_keys : (Text → Bool) → UserManifest → Text → Bytes → VaultResult Bytes
  unlock_keys is_uuid manifest username password = do
    validate is_uuid manifest
    open_keys manifest username password

  -- `rotate_password`, from the manifest that was read to the one that replaces it, by the random
  -- salt and nonce.
  unfoldable pub rotate_keys :
      Option Bytes → Option Bytes → UserManifest → Text → Bytes → Bytes → VaultResult UserManifest
  rotate_keys salt nonce manifest username current_password new_password = do
    data_key ← open_keys manifest username current_password
    kdf ← default_kdf_parameters b salt
    wrapping_key ← derive_key b a new_password kdf
    seal_key nonce data_key wrapping_key (record manifest { kdf = kdf })
