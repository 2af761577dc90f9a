-- ===== src/Tests/Profiles.antt =====
-- The keys of a profile, created, opened and changed with parameters that run.
use codex_vault.Prelude.{[], ◌≡◌, refl, Bool, true, some, arith, ◌==◌, length, take, drop, ok, err}
use codex_vault.Prelude.Bytes.{Bytes, Text, ascii, eq_bytes, u32_to_be}
use codex_vault.Manifest.{
  UserManifest, new_header, associated_data, push_field, is_valid_username, all_name_bytes,
}
use codex_vault.Keys.{default_kdf_parameters, validate_parameters, derive_key}
use codex_vault.Keys.Wrap.{wrap_data_key, unwrap_data_key}
use codex_vault.Store.{
  eq_ignore_ascii_case, seal_key, create_keys, open_keys, unlock_keys, rotate_keys,
}
use codex_vault.Store.Keys.{unlock_keys-create_keys, open_keys-rotate_keys}
use codex_vault.Tests.Cipher.{toy, toy_encrypt, toy_decrypt, toy-IsAead}
use codex_vault.Tests.Manifests.{manifest_with}
use codex_vault.Tests.Passwords.{plain, plain-IsBase64, short_hash, data_key, nonce, salt, password}

abbrev pub alice : Text
alice = ascii "alice"

abbrev is_uuid : Text → Bool
is_uuid id = length id == 4

abbrev pub new_password : Bytes
new_password = ascii "battery staple"

unfoldable pub manifest : UserManifest
unfolding create_keys seal_key default_kdf_parameters derive_key validate_parameters new_header
    associated_data push_field wrap_data_key toy_encrypt short_hash data_key nonce salt eq_bytes
    u32_to_be take drop
manifest =
    elim (create_keys toy plain short_hash (some salt) (some data_key) (some nonce)
      (some 1700000000) (ascii "6f1c") alice password) [
        | ok made ↦ made.0
        | err e ↦ manifest_with []
      ]

creates :
    create_keys toy plain short_hash
      (some salt)
      (some data_key)
      (some nonce)
      (some 1700000000)
      (ascii "6f1c")
      alice
      password
    ≡ ok (manifest, data_key)
unfolding manifest
creates = refl

named : is_valid_username alice ≡ true
unfolding is_valid_username all_name_bytes
named = refl

key_size : length data_key ≡ 32
unfolding data_key
key_size = refl

unlock_keys-create_keys_example :
    unlock_keys toy plain short_hash is_uuid manifest alice password ≡ ok data_key
unlock_keys-create_keys_example =
    unlock_keys-create_keys toy toy-IsAead plain plain-IsBase64 short_hash is_uuid (some salt)
      (some data_key) (some nonce) 1700000000 (ascii "6f1c") alice password data_key manifest refl
      named (omega arith) key_size creates

opens : open_keys toy plain short_hash manifest alice password ≡ ok data_key
unfolding open_keys eq_ignore_ascii_case unwrap_data_key toy_decrypt manifest
opens = refl

changed : UserManifest
unfolding rotate_keys manifest open_keys eq_ignore_ascii_case unwrap_data_key toy_decrypt
changed =
    elim (rotate_keys toy plain short_hash (some salt) (some nonce) manifest alice password
      new_password) [ ok made ↦ made | err e ↦ manifest_with [] ]

changes :
    rotate_keys toy plain short_hash (some salt) (some nonce) manifest alice password new_password
    ≡ ok changed
unfolding changed
changes = refl

open_keys-rotate_keys_example :
    open_keys toy plain short_hash changed alice new_password ≡ ok data_key
open_keys-rotate_keys_example =
    open_keys-rotate_keys toy toy-IsAead plain plain-IsBase64 short_hash (some salt) (some nonce)
      manifest changed alice password new_password data_key opens changes
