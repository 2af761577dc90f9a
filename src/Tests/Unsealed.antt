-- ===== src/Tests/Unsealed.antt =====
-- The sealed archive of the profile in memory, which is unsealed.
use codex_vault.Prelude.{
  List, suc, length, ◌≡◌, refl, true, false, Option, none, some, [], ◌∷◌, take, drop, ok,
}
use codex_vault.Prelude.Bytes.{Bytes, Text, ascii, eq_bytes, u32_to_be, u32_from_be}
use codex_vault.Error.{VaultResult}
use codex_vault.Error.Display.{decimal, display_io}
use codex_vault.Manifest.{
  is_valid_username, all_name_bytes, new_header, associated_data, push_field, validate,
}
use codex_vault.Keys.{default_kdf_parameters, validate_parameters, derive_key}
use codex_vault.Keys.Wrap.{wrap_data_key, unwrap_data_key}
use codex_vault.Files.{parent, with_extension}
use codex_vault.Store.{
  validate_username, validate_password, eq_ignore_ascii_case, seal_key, open_keys, unlock_keys,
  rotate_keys,
}
use codex_vault.Private.{
  ensure_private_directory, validate_private_directory, prepare_runtime_root, select_runtime_root,
  select_runtime_root_from, validate_private_file,
}
use codex_vault.Archive.{
  seal_directory, unseal_directory, write_archive, pack, unpack_entries, unpack_move, open_state,
}
use codex_vault.Stream.Format.{nonce_bytes, add_carry, frame_header}
use codex_vault.Stream.Frame.{seal}
use codex_vault.Stream.Writer
use codex_vault.Stream.Reader
use codex_vault.Stream.Reader.{
  parse_header, check_header, unseal, on_source, accept, read_body, read_next_frame, next_data,
  copy_out, drain, verify_finished,
}
use codex_vault.Store.Disk.{
  user_root, state_path, acquire_lock, read_manifest, replace_private_json, write_private_json,
  parse_manifest, write_process_id,
}
use codex_vault.Store.Session.{
  rotate_password, unlock, lock_profile, rotate_manifest, then_unlock, unlock_locked, open_profile,
  fill_runtime, runtime_root_of,
}
use codex_vault.Tests.Cipher.{toy, toy_encrypt, toy_decrypt, toy-IsAead}
use codex_vault.Tests.Passwords.{short_hash, data_key, nonce, salt}
use codex_vault.Tests.Profiles.{manifest}
use codex_vault.Tests.Disk.{
  Disk, disk_files, disk_files-IsFiles, bytes_of, is_held, content_of, content_behind, strip,
  look_up, try_lock, open_at, read_with,
}
use codex_vault.Tests.Host.{next_move, tar, text_of, manifest_of}
use codex_vault.Prelude.{inl, inr, Bool-cases, ltb, if◌then◌else◌, ap, ℕ, arith, All, Bool}
use codex_vault.Prelude.Bytes.{IsByte}
use codex_vault.Device.Memory.{cursor, cursor-IsSource}
use codex_vault.Archive.Ends.{EndsWithin, FailsWithin, unseal_directory_total}
use codex_vault.Archive.Unpacking.{IsReadable, IsUnpacking, Unpacks}
use codex_vault.Archive.Unsealed.{unseal_directory-Contains}
use codex_vault.Stream.Content.{Contains}
use codex_vault.Tests.Disk.{look_up_same}
use codex_vault.Tests.Host.{Stage, reading}
use codex_vault.Tests.Unpacking.{reads_on, want-Fails}
use codex_vault.Tests.Sessions.{fresh_disk, root, sealed, opened}

left : Text → Disk → Bytes
left p d = look_up [] d.unread p

unfoldable pub readable : (p : Text) → IsReadable disk_files disk_files-IsFiles p
unfolding read_with cursor-IsSource open_at left disk_files-IsFiles bytes_of
readable p = record {
  source = record {
    rest = left p;
    read_exact_ok = λ n d bytes e.
        let (front, n_) = cursor-IsSource.read_exact_ok n (left p d) bytes e in
        (rw (look_up_same [] d.unread p (cursor.read_exact n (left p d)).1) front, n_);
    read_ok = λ n d bytes e.
        let (front, n_) = cursor-IsSource.read_ok n (left p d) bytes e in
        (rw (look_up_same [] d.unread p (cursor.read n (left p d)).1) front, n_);
    read_nil = λ n d pos e. cursor-IsSource.read_nil n (left p d) pos e;
  };
  open_read_rest = λ d e. look_up_same [] d.unread p (bytes_of p d);
}

pub unpacking : (p : Text) → IsUnpacking disk_files tar (readable p).source.rest
unpacking p = record {
  change_keeps = λ a b g d e. ap (readable p).source.rest (reads_on a b g d e);
  want_err = want-Fails;
}

unfoldable pub all_below : Bytes → Bool
all_below [] = true
all_below (b ∷ bytes) = if ltb b 256 then all_below bytes else false

pub all_below-IsByte : (bytes : Bytes) → all_below bytes ≡ true → All IsByte bytes
unfolding all_below
all_below-IsByte [] e = tt
all_below-IsByte (b ∷ bytes) e = elim (Bool-cases (ltb b 256)) [
  | inl small ↦ (ground arith, all_below-IsByte bytes (ground arith))
  | inr large ↦ absurd (ground arith)
]

below : all_below (disk_files-IsFiles.content (state_path root) sealed) ≡ true
unfolding all_below disk_files-IsFiles root sealed seal_directory with_extension write_archive pack
    Writer.new Writer.on_inner Writer.write_frame Writer.fill_pending Writer.write_chunks
    Writer.write Writer.flush Writer.finish Writer.write_each u32_from_be add_carry nonce_bytes
    frame_header seal read_with parse_header check_header unseal on_source Reader.new accept
    read_body read_next_frame next_data copy_out Reader.read drain verify_finished unpack_entries
    unpack_move next_move open_state unseal_directory unlock unlock_locked open_profile fill_runtime
    runtime_root_of unlock_keys prepare_runtime_root ensure_private_directory opened
    select_runtime_root select_runtime_root_from rotate_password validate_username is_valid_username
    all_name_bytes validate_password lock_profile validate_private_directory bytes_of content_of
    content_behind strip look_up fresh_disk eq_bytes user_root acquire_lock try_lock is_held
    then_unlock decimal display_io parent unwrap_data_key wrap_data_key default_kdf_parameters
    derive_key validate_parameters rotate_manifest read_manifest replace_private_json
    write_private_json parse_manifest write_process_id rotate_keys open_keys manifest seal_key
    new_header associated_data push_field toy_encrypt toy_decrypt short_hash data_key nonce salt
    u32_to_be take drop text_of manifest_of validate_private_file open_at eq_ignore_ascii_case
    validate
below = refl

abbrev result_of : Option (VaultResult (Unit {0}) × Disk) → Disk
result_of none = fresh_disk
result_of (some (r, d)) = d

unfoldable unsealed : Disk
unsealed = result_of (
    unseal_directory toy disk_files tar 8192 50 (state_path root) (ascii "/run/6f1c") data_key
      sealed)

unseals :
    unseal_directory toy disk_files tar 8192 50
      (state_path root)
      (ascii "/run/6f1c")
      data_key
      sealed
    ≡ some (ok tt, unsealed)
unfolding unsealed root sealed seal_directory with_extension write_archive pack Writer.new
    Writer.on_inner Writer.write_frame Writer.fill_pending Writer.write_chunks Writer.write
    Writer.flush Writer.finish Writer.write_each u32_from_be add_carry nonce_bytes frame_header seal
    read_with parse_header check_header unseal on_source Reader.new accept read_body read_next_frame
    next_data copy_out Reader.read drain verify_finished unpack_entries unpack_move next_move
    open_state unseal_directory unlock unlock_locked open_profile fill_runtime runtime_root_of
    unlock_keys prepare_runtime_root ensure_private_directory opened select_runtime_root
    select_runtime_root_from rotate_password validate_username is_valid_username all_name_bytes
    validate_password lock_profile validate_private_directory bytes_of content_of content_behind
    strip look_up fresh_disk eq_bytes user_root acquire_lock try_lock is_held then_unlock decimal
    display_io parent unwrap_data_key wrap_data_key default_kdf_parameters derive_key
    validate_parameters rotate_manifest read_manifest replace_private_json write_private_json
    parse_manifest write_process_id rotate_keys open_keys manifest seal_key new_header
    associated_data push_field toy_encrypt toy_decrypt short_hash data_key nonce salt u32_to_be take
    drop text_of manifest_of validate_private_file open_at eq_ignore_ascii_case validate
unseals = refl

unseal_directory-Contains_example :
    (content : Bytes) × (behind : Bytes) × (seen : List Stage) × Contains toy data_key content
      (disk_files-IsFiles.content (state_path root) sealed)
    × Unpacks disk_files tar (tar.entries (ascii "/run/6f1c")) content behind seen
unseal_directory-Contains_example =
    unseal_directory-Contains toy toy-IsAead disk_files disk_files-IsFiles tar (state_path root)
      (readable (state_path root)) (unpacking (state_path root)) 8192 50 (ascii "/run/6f1c")
      data_key sealed unsealed (omega arith) (all_below-IsByte _ below) unseals

tar_ends : (moves k : ℕ) → EndsWithin tar (suc (suc (suc (suc (suc (suc (suc moves))))))) reading k
unfolding EndsWithin FailsWithin next_move
tar_ends moves k = (λ bytes l. tt, λ e. tt)

short : ltb (length (disk_files-IsFiles.content (state_path root) sealed)) 1003 ≡ true
unfolding disk_files-IsFiles root sealed seal_directory with_extension write_archive pack Writer.new
    Writer.on_inner Writer.write_frame Writer.fill_pending Writer.write_chunks Writer.write
    Writer.flush Writer.finish Writer.write_each u32_from_be add_carry nonce_bytes frame_header seal
    read_with parse_header check_header unseal on_source Reader.new accept read_body read_next_frame
    next_data copy_out Reader.read drain verify_finished unpack_entries unpack_move next_move
    open_state unseal_directory unlock unlock_locked open_profile fill_runtime runtime_root_of
    unlock_keys prepare_runtime_root ensure_private_directory select_runtime_root
    select_runtime_root_from rotate_password validate_username is_valid_username all_name_bytes
    validate_password lock_profile validate_private_directory bytes_of content_of content_behind
    strip look_up fresh_disk eq_bytes user_root acquire_lock try_lock is_held then_unlock decimal
    display_io parent unwrap_data_key wrap_data_key default_kdf_parameters derive_key
    validate_parameters rotate_manifest read_manifest replace_private_json write_private_json
    parse_manifest write_process_id rotate_keys open_keys manifest seal_key new_header
    associated_data push_field toy_encrypt toy_decrypt short_hash data_key nonce salt u32_to_be take
    drop text_of manifest_of validate_private_file open_at eq_ignore_ascii_case validate
short = refl

unseal_directory_total_example :
    (o : VaultResult (Unit {0}) × Disk) × (unseal_directory toy disk_files tar 8192 1003
        (state_path root)
        (ascii "/run/6f1c")
        data_key
        sealed
      ≡ some o)
unseal_directory_total_example =
    unseal_directory_total toy toy-IsAead disk_files disk_files-IsFiles tar (state_path root)
      (readable (state_path root)) (unpacking (state_path root)).change_keeps 8192 1003
      (ascii "/run/6f1c") data_key sealed (all_below-IsByte _ below) (tar_ends 996 _)
      (ground (arith, short))
