-- ===== src/Tests/Runs.antt =====
-- A program run in the profile in memory.
use codex_vault.Prelude.{
  ◌++◌, ℕ, ◌≢◌, ◌⊎◌, ap, arith, ℤ, ◌≡◌, refl, false, none, some, List, [], ◌∷◌, take, drop, ok, err,
}
use codex_vault.Prelude.Bytes.{Text, ascii, eq_bytes, u32_to_be, u32_from_be}
use codex_vault.Error.{os, ErrorKind, VaultResult}
use codex_vault.Error.Display.{decimal, display_io}
use codex_vault.Manifest.{
  is_valid_username, all_name_bytes, new_header, associated_data, push_field, validate,
}
use codex_vault.Keys.{default_kdf_parameters, validate_parameters, derive_key}
use codex_vault.Keys.Wrap.{wrap_data_key, unwrap_data_key}
use codex_vault.Files.{parent, with_extension}
use codex_vault.Store.{
  validate_username, validate_password, eq_ignore_ascii_case, seal_key, open_keys, unlock_keys,
  rotate_keys,
}
use codex_vault.Private.{
  ensure_private_directory, validate_private_directory, prepare_runtime_root, select_runtime_root,
  select_runtime_root_from, validate_private_file,
}
use codex_vault.Archive.{
  seal_directory, unseal_directory, write_archive, pack, unpack_entries, unpack_move, open_state,
}
use codex_vault.Stream.Format.{nonce_bytes, add_carry, frame_header}
use codex_vault.Stream.Frame.{seal}
use codex_vault.Stream.Writer
use codex_vault.Stream.Reader
use codex_vault.Stream.Reader.{
  parse_header, check_header, unseal, on_source, accept, read_body, read_next_frame, next_data,
  copy_out, drain, verify_finished,
}
use codex_vault.Store.Disk.{
  state_path, user_root, lock_path, acquire_lock, read_manifest, replace_private_json,
  write_private_json, parse_manifest, write_process_id,
}
use codex_vault.Store.Session.{
  rotate_password, unlock, lock_profile, rotate_manifest, then_unlock, unlock_locked, open_profile,
  fill_runtime, runtime_root_of, close,
}
use codex_vault.Runner
use codex_vault.Runner.{
  Processes, ExitStatus, Fresh, run_program, run_unlocked, wait_and_close, run_codex,
}
use codex_vault.Runner.Closes.{Closed, run_unlocked-Closed, run_program-locked}
use codex_vault.Tests.Cipher.{toy, toy_encrypt, toy_decrypt}
use codex_vault.Tests.Passwords.{short_hash, data_key, nonce, salt, password}
use codex_vault.Tests.Profiles.{manifest, alice}
use codex_vault.Tests.Disk.{
  disk_files, Disk, disk_files-IsFiles, bytes_of, is_held, content_of, content_behind, strip,
  look_up, try_lock, open_at, read_with,
}
use codex_vault.Archive.Sealed.{IsArchive}
use codex_vault.Private.{join}
use codex_vault.Store.Closed.{close-IsArchive}
use codex_vault.Tests.Archives.{other_name}
use codex_vault.Tests.Sessions.{vault, opened, fresh_disk, sealed, root, seed, end_of}
use codex_vault.Tests.Host.{next_move, tar, host, store, text_of, manifest_of}

-- Processes that all end with the code 3.
abbrev pub processes : Processes Disk
processes = record {
  spawn = λ executable arguments home user d. (ok 100, d);
  kill = λ pid d. (ok tt, d);
  wait = λ pid d. (ok (record { code = some (ℤ.pos 3); signal = none }), d);
  signals = λ d. (ok 1, d);
  forward = λ handle pid d. d;
  close_handle = λ handle d. d;
  join = λ handle d. d;
}

abbrev pub fresh : Fresh
fresh = record { uuid = ascii "u"; seed = some seed }

abbrev arguments : List Text
arguments = ascii "--version" ∷ []

abbrev exited : VaultResult ℤ
exited = ok (ℤ.pos 3)

ended : Disk
ended =
    end_of
      (run_program host processes store 50 fresh alice password (ascii "codex") arguments sealed)

runs :
    run_program host processes store 50 fresh alice password (ascii "codex") arguments sealed
    ≡ some (ok (ℤ.pos 3), ended)
unfolding root sealed seal_directory with_extension write_archive pack Writer.new Writer.on_inner
    Writer.write_frame Writer.fill_pending Writer.write_chunks Writer.write Writer.flush
    Writer.finish Writer.write_each u32_from_be add_carry nonce_bytes frame_header seal read_with
    parse_header check_header unseal on_source Reader.new accept read_body read_next_frame next_data
    copy_out Reader.read drain verify_finished unpack_entries unpack_move next_move open_state
    unseal_directory unlock unlock_locked open_profile fill_runtime runtime_root_of unlock_keys
    prepare_runtime_root ensure_private_directory ended run_program run_unlocked wait_and_close
    Runner.start Runner.stop close fresh_disk select_runtime_root select_runtime_root_from
    rotate_password validate_username is_valid_username all_name_bytes validate_password
    lock_profile validate_private_directory bytes_of content_of content_behind strip look_up
    eq_bytes user_root acquire_lock try_lock is_held then_unlock decimal display_io parent
    unwrap_data_key wrap_data_key default_kdf_parameters derive_key validate_parameters
    rotate_manifest read_manifest replace_private_json write_private_json parse_manifest
    write_process_id rotate_keys open_keys manifest seal_key new_header associated_data push_field
    toy_encrypt toy_decrypt short_hash data_key nonce salt u32_to_be take drop text_of manifest_of
    validate_private_file open_at eq_ignore_ascii_case validate
runs = refl

run_program-locked_example :
    let p = lock_path root in
    (disk_files-IsFiles.locked p ended ≡ disk_files-IsFiles.locked p sealed)
    × ((code : ℤ) → exited ≡ ok code → disk_files-IsFiles.locked p sealed ≡ false)
unfolding root
run_program-locked_example =
    run_program-locked host processes disk_files-IsFiles store 50 fresh alice password
      (ascii "codex") arguments sealed ended (ok (ℤ.pos 3)) runs

-- Processes of which none starts.
abbrev no_processes : Processes Disk
no_processes = record processes {
  spawn = λ executable arguments home user d.
      (err (os ErrorKind.not_found "No such file or directory"), d);
}

run_unlocked-Closed_example :
    let (r, t) = run_unlocked host no_processes fresh (ascii "codex") arguments vault opened in
    Closed host no_processes fresh vault r t
run_unlocked-Closed_example =
    run_unlocked-Closed host no_processes fresh (ascii "codex") arguments vault opened

abbrev second : Text → ℕ
second (a ∷ (b ∷ text)) = b
second _ = 0

outside : (name : Text) → state_path root ≢ join (ascii "/run/6f1c") name
unfolding root user_root
outside name e = absurd (omega (arith, ap second e))

close-IsArchive_example :
    let (r, t) = close host (ascii "u") (some seed) vault opened in
    let archive =
      IsArchive toy disk_files disk_files-IsFiles tar
        (some seed)
        data_key
        (ascii "/run/6f1c/codex-home")
        (with_extension (state_path root) (ascii "tmp-" ++ ascii "u"))
        opened
        (disk_files-IsFiles.content (state_path root) t) in
    (r ≡ ok tt → archive)
    × ((disk_files-IsFiles.content (state_path root) t
          ≡ disk_files-IsFiles.content (state_path root) opened)
        ⊎ archive)
close-IsArchive_example =
    close-IsArchive host disk_files-IsFiles (ascii "u") (some seed) vault opened other_name outside
