-- ===== src/Tests/Sessions.antt =====
-- The profile in memory: its password is changed, it is unlocked, and a program is run in it.
use codex_vault.Prelude.{
  ◌≤◌, ◌≡◌, refl, ◌⊎◌, true, false, Option, none, some, [], ◌∷◌, length, take, drop, ok,
}
use codex_vault.Prelude.Bytes.{Bytes, Text, ascii, eq_bytes, u32_to_be, u32_from_be}
use codex_vault.Error.{VaultResult}
use codex_vault.Error.Display.{decimal, display_io}
use codex_vault.Manifest.{
  is_valid_username, all_name_bytes, new_header, associated_data, push_field, validate,
}
use codex_vault.Keys.{default_kdf_parameters, validate_parameters, derive_key}
use codex_vault.Keys.Wrap.{wrap_data_key, unwrap_data_key}
use codex_vault.Files.{parent, with_extension}
use codex_vault.Store.{
  validate_username, validate_password, eq_ignore_ascii_case, seal_key, open_keys, unlock_keys,
  rotate_keys,
}
use codex_vault.Private.{
  ensure_private_directory, validate_private_directory, prepare_runtime_root, select_runtime_root,
  select_runtime_root_from, validate_private_file, Metadata,
}
use codex_vault.Private.Safe.{IsClosed}
use codex_vault.Archive.{
  seal_directory, unseal_directory, write_archive, pack, unpack_entries, unpack_move, open_state,
}
use codex_vault.Store.Host.{is_uuid}
use codex_vault.Store.Opened.{Opened, unlock-Opened}
use codex_vault.Store.Read.{read_manifest_ok}
use codex_vault.Stream.Format.{nonce_bytes, add_carry, frame_header}
use codex_vault.Stream.Frame.{seal}
use codex_vault.Stream.Writer
use codex_vault.Stream.Reader
use codex_vault.Stream.Reader.{
  parse_header, check_header, unseal, on_source, accept, read_body, read_next_frame, next_data,
  copy_out, drain, verify_finished,
}
use codex_vault.Store.Disk.{
  manifest_size_limit, user_root, manifest_path, state_path, lock_path, acquire_lock, read_manifest,
  replace_private_json, write_private_json, parse_manifest, write_process_id,
}
use codex_vault.Store.Session.{
  UnlockedVault, rotate_password, unlock, lock_profile, rotate_manifest, then_unlock, unlock_locked,
  open_profile, fill_runtime, runtime_root_of,
}
use codex_vault.Store.Rotate.{Changed, rotate_password-Changed}
use codex_vault.Store.Locks.{rotate_password-locked}
use codex_vault.Tests.Cipher.{toy, toy_encrypt, toy_decrypt, toy-IsAead}
use codex_vault.Tests.Passwords.{plain-IsBase64, short_hash, data_key, nonce, salt, password}
use codex_vault.Tests.Profiles.{manifest, alice, new_password}
use codex_vault.Tests.Disk.{
  wrote, Disk, disk_system, disk_files, disk_files-IsFiles, bytes_of, is_held, content_of,
  content_behind, strip, look_up, try_lock, open_at, read_with,
}
use codex_vault.Tests.Host.{next_move, tar, host, store, text_of, manifest_of}

-- The profile with an empty archive.
unfoldable pub fresh_disk : Disk
fresh_disk = record {
  written = wrote (manifest_path (user_root store alice)) (text_of manifest) ∷ [];
  unread = [];
  held = [];
}

rotate_password-Changed_example :
    let p = manifest_path (user_root store alice) in
    let (r, t) =
      rotate_password host store
        (some salt)
        (some nonce)
        (ascii "u")
        alice
        password
        new_password
        fresh_disk in
    (r ≡ ok tt
      → Changed host disk_files-IsFiles toy-IsAead plain-IsBase64 alice password new_password
          (disk_files-IsFiles.content p fresh_disk)
          (disk_files-IsFiles.content p t))
    × ((disk_files-IsFiles.content p t ≡ disk_files-IsFiles.content p fresh_disk)
        ⊎ Changed host disk_files-IsFiles toy-IsAead plain-IsBase64 alice password new_password
            (disk_files-IsFiles.content p fresh_disk)
            (disk_files-IsFiles.content p t))
rotate_password-Changed_example =
    rotate_password-Changed host disk_files-IsFiles toy-IsAead plain-IsBase64 (some salt)
      (some nonce) (ascii "u") alice password new_password store fresh_disk

rotates :
    (rotate_password host store
      (some salt)
      (some nonce)
      (ascii "u")
      alice
      password
      new_password
      fresh_disk).0
    ≡ ok tt
unfolding rotate_password validate_username is_valid_username all_name_bytes validate_password
    lock_profile validate_private_directory bytes_of content_of content_behind strip look_up
    fresh_disk eq_bytes user_root acquire_lock try_lock is_held then_unlock decimal display_io
    parent unwrap_data_key wrap_data_key default_kdf_parameters derive_key validate_parameters
    rotate_manifest read_manifest replace_private_json write_private_json parse_manifest
    write_process_id rotate_keys open_keys manifest seal_key new_header associated_data push_field
    toy_encrypt toy_decrypt short_hash data_key nonce salt u32_to_be take drop text_of manifest_of
    validate_private_file open_at eq_ignore_ascii_case validate
rotates = refl

unfoldable pub root : Text
root = user_root store alice

abbrev pub seed : Bytes
seed = nonce

-- The profile behind `add_user`, with a sealed archive.
unfoldable pub sealed : Disk
sealed =
    (seal_directory toy disk_files tar (ascii "u") (some seed) (ascii "/x") (state_path root)
      data_key fresh_disk).1

abbrev pub end_of : {A : Type 0} → Option (VaultResult A × Disk) → Disk
end_of none = fresh_disk
end_of (some (r, d)) = d

abbrev pub vault : UnlockedVault
vault = record {
  username = alice;
  codex_home = ascii "/run/6f1c/codex-home";
  runtime = ascii "/run/6f1c";
  state_path = state_path root;
  data_key = data_key;
  lock = lock_path root;
}

abbrev pub unlocked : VaultResult UnlockedVault
unlocked = ok vault

unfoldable pub opened : Disk
opened = end_of (unlock host store 50 alice password sealed)

pub unlocks : unlock host store 50 alice password sealed ≡ some (ok vault, opened)
unfolding root sealed seal_directory with_extension write_archive pack Writer.new Writer.on_inner
    Writer.write_frame Writer.fill_pending Writer.write_chunks Writer.write Writer.flush
    Writer.finish Writer.write_each u32_from_be add_carry nonce_bytes frame_header seal read_with
    parse_header check_header unseal on_source Reader.new accept read_body read_next_frame next_data
    copy_out Reader.read drain verify_finished unpack_entries unpack_move next_move open_state
    unseal_directory unlock unlock_locked open_profile fill_runtime runtime_root_of unlock_keys
    prepare_runtime_root ensure_private_directory opened select_runtime_root
    select_runtime_root_from rotate_password validate_username is_valid_username all_name_bytes
    validate_password lock_profile validate_private_directory bytes_of content_of content_behind
    strip look_up fresh_disk eq_bytes user_root acquire_lock try_lock is_held then_unlock decimal
    display_io parent unwrap_data_key wrap_data_key default_kdf_parameters derive_key
    validate_parameters rotate_manifest read_manifest replace_private_json write_private_json
    parse_manifest write_process_id rotate_keys open_keys manifest seal_key new_header
    associated_data push_field toy_encrypt toy_decrypt short_hash data_key nonce salt u32_to_be take
    drop text_of manifest_of validate_private_file open_at eq_ignore_ascii_case validate
unlocks = refl

rotate_password-locked_example :
    let p = lock_path root in
    let (r, t) =
      rotate_password host store
        (some salt)
        (some nonce)
        (ascii "u")
        alice
        password
        new_password
        fresh_disk in
    (disk_files-IsFiles.locked p t ≡ disk_files-IsFiles.locked p fresh_disk)
    × (r ≡ ok tt → disk_files-IsFiles.locked p fresh_disk ≡ false)
unfolding root
rotate_password-locked_example =
    rotate_password-locked host disk_files-IsFiles store (some salt) (some nonce) (ascii "u") alice
      password new_password fresh_disk

reads : (read_manifest host root fresh_disk).0 ≡ ok manifest
unfolding root rotate_password validate_username is_valid_username all_name_bytes validate_password
    lock_profile validate_private_directory bytes_of content_of content_behind strip look_up
    fresh_disk eq_bytes user_root acquire_lock try_lock is_held then_unlock decimal display_io
    parent unwrap_data_key wrap_data_key default_kdf_parameters derive_key validate_parameters
    rotate_manifest read_manifest replace_private_json write_private_json parse_manifest
    write_process_id rotate_keys open_keys manifest seal_key new_header associated_data push_field
    toy_encrypt toy_decrypt short_hash data_key nonce salt u32_to_be take drop text_of manifest_of
    validate_private_file open_at eq_ignore_ascii_case validate
reads = refl

read_manifest_ok_example :
    let p = manifest_path root in
    (manifest_of (disk_files-IsFiles.content p fresh_disk) ≡ ok manifest)
    × (length (disk_files-IsFiles.content p fresh_disk) ≤ manifest_size_limit)
    × (validate (is_uuid host) manifest ≡ ok tt)
    × ((file : Metadata) × (disk_system.symlink_metadata p fresh_disk ≡ ok file)
        × (file.is_file ≡ true)
        × IsClosed disk_system file)
read_manifest_ok_example = read_manifest_ok host disk_files-IsFiles root fresh_disk manifest reads

unlock-Opened_example :
    Opened host disk_files-IsFiles root alice password
      (disk_files-IsFiles.content (manifest_path root) sealed)
      vault
unfolding root
unlock-Opened_example =
    unlock-Opened host disk_files-IsFiles store 50 alice password sealed opened vault unlocks
