-- ===== src/Tests/Archives.antt =====
-- The archive of the profile in memory, and the list of its one user.
use codex_vault.Prelude.{◌≢◌, ◌++◌, ◌∷◌, ap, arith, All, ◌≡◌, refl, some, [], take, drop, ok, err}
use codex_vault.Prelude.Bytes.{Bytes, Text, ascii, eq_bytes, u32_to_be, u32_from_be}
use codex_vault.Error.{VaultError}
use codex_vault.Error.Display.{decimal, display_io}
use codex_vault.Manifest.{
  is_valid_username, all_name_bytes, new_header, associated_data, push_field, validate,
}
use codex_vault.Keys.{default_kdf_parameters, validate_parameters, derive_key}
use codex_vault.Keys.Wrap.{wrap_data_key, unwrap_data_key}
use codex_vault.Files.{parent, with_extension}
use codex_vault.Store.{
  validate_username, validate_password, eq_ignore_ascii_case, seal_key, open_keys, unlock_keys,
  rotate_keys,
}
use codex_vault.Private.{
  ensure_private_directory, validate_private_directory, prepare_runtime_root, select_runtime_root,
  select_runtime_root_from, validate_private_file,
}
use codex_vault.Archive.{
  seal_directory, unseal_directory, write_archive, pack, unpack_entries, unpack_move, open_state,
}
use codex_vault.Stream.Format.{nonce_bytes, add_carry, frame_header}
use codex_vault.Stream.Frame.{seal}
use codex_vault.Stream.Writer
use codex_vault.Stream.Reader
use codex_vault.Stream.Reader.{
  parse_header, check_header, unseal, on_source, accept, read_body, read_next_frame, next_data,
  copy_out, drain, verify_finished,
}
use codex_vault.Store.Disk.{
  user_root, state_path, acquire_lock, read_manifest, replace_private_json, write_private_json,
  parse_manifest, write_process_id,
}
use codex_vault.Store.Session.{
  rotate_password, unlock, lock_profile, rotate_manifest, then_unlock, unlock_locked, open_profile,
  fill_runtime, runtime_root_of,
}
use codex_vault.Tests.Cipher.{toy, toy_encrypt, toy_decrypt}
use codex_vault.Tests.Passwords.{short_hash, data_key, nonce, salt}
use codex_vault.Tests.Profiles.{manifest, alice}
use codex_vault.Tests.Disk.{
  Disk, disk_files, disk_files-IsFiles, bytes_of, is_held, content_of, content_behind, strip,
  look_up, try_lock, open_at, read_with,
}
use codex_vault.Tests.Host.{next_move, tar, host, store, text_of, manifest_of}
use codex_vault.Archive.Sealed.{IsArchive, seal_directory-IsArchive}
use codex_vault.Files.Paths.{last}
use codex_vault.Store.Disk.{initialize}
use codex_vault.Store.Users.{list_users, collect_users, sort_unstable}
use codex_vault.Store.Listed.{IsSorted, Named, list_users-IsSorted}
use codex_vault.Tests.Sessions.{fresh_disk, sealed, opened, root, seed}

abbrev content : Text → Disk → Bytes
content = disk_files-IsFiles.content

pub other_name : state_path root ≢ with_extension (state_path root) (ascii "tmp-" ++ ascii "u")
unfolding root user_root with_extension last
other_name e = absurd (omega (arith, ap last e))

seal_directory-IsArchive_example :
    let (r, t) =
      seal_directory toy disk_files tar
        (ascii "u")
        (some seed)
        (ascii "/x")
        (state_path root)
        data_key
        fresh_disk in
    (r ≡ ok tt
      → IsArchive toy disk_files disk_files-IsFiles tar
          (some seed)
          data_key
          (ascii "/x")
          (with_extension (state_path root) (ascii "tmp-" ++ ascii "u"))
          fresh_disk
          (content (state_path root) t))
    × ((x : VaultError)
        → r ≡ err x
        → content (state_path root) t ≡ content (state_path root) fresh_disk)
seal_directory-IsArchive_example =
    seal_directory-IsArchive toy disk_files disk_files-IsFiles tar (ascii "u") (state_path root)
      (some seed) (ascii "/x") data_key fresh_disk other_name

lists : (list_users host store fresh_disk).0 ≡ ok (alice ∷ [])
unfolding root sealed seal_directory with_extension write_archive pack Writer.new Writer.on_inner
    Writer.write_frame Writer.fill_pending Writer.write_chunks Writer.write Writer.flush
    Writer.finish Writer.write_each u32_from_be add_carry nonce_bytes frame_header seal read_with
    parse_header check_header unseal on_source Reader.new accept read_body read_next_frame next_data
    copy_out Reader.read drain verify_finished unpack_entries unpack_move next_move open_state
    unseal_directory unlock unlock_locked open_profile fill_runtime runtime_root_of unlock_keys
    prepare_runtime_root ensure_private_directory opened select_runtime_root
    select_runtime_root_from rotate_password validate_username is_valid_username all_name_bytes
    validate_password lock_profile validate_private_directory bytes_of content_of content_behind
    strip look_up fresh_disk eq_bytes user_root acquire_lock try_lock is_held then_unlock decimal
    display_io parent unwrap_data_key wrap_data_key default_kdf_parameters derive_key
    validate_parameters rotate_manifest read_manifest replace_private_json write_private_json
    parse_manifest write_process_id rotate_keys open_keys manifest seal_key new_header
    associated_data push_field toy_encrypt toy_decrypt short_hash data_key nonce salt u32_to_be take
    drop text_of manifest_of validate_private_file open_at eq_ignore_ascii_case validate list_users
    collect_users sort_unstable initialize
lists = refl

list_users-IsSorted_example : IsSorted (alice ∷ []) × All (Named host) (alice ∷ [])
list_users-IsSorted_example = list_users-IsSorted host store fresh_disk (alice ∷ []) lists
