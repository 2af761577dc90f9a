-- ===== src/Tests/Additions.antt =====
-- A user is added to the host in memory.
use codex_vault.Prelude.{
  ℕ, ◌≡◌, refl, sym, ap, ◌∙◌, ◌≢◌, inl, inr, false, none, some, [], ◌∷◌, ◌++◌, arith, ◌==◌,
  Bool-cases, Option-cases, length, take, drop, ok, err,
}
use codex_vault.Prelude.Bytes.{Text, ascii, eq_bytes}
use codex_vault.Prelude.Bytes.Laws.{eq_bytes→eq}
use codex_vault.Error.{VaultError, IoError}
use codex_vault.Private.{join}
use codex_vault.Files.Apart.{IsApart, inside, join-inside, join-longer}
use codex_vault.Files.Kept.{IsKept}
use codex_vault.Files.Directories.{IsDirectories}
use codex_vault.Store.{unlock_keys}
use codex_vault.Store.Host.{is_uuid}
use codex_vault.Store.Disk.{user_root, initialize}
use codex_vault.Store.Users.{Entropy, add_user}
use codex_vault.Store.Created.{Profile}
use codex_vault.Store.Added.{add_user-Profile}
use codex_vault.Tests.Cipher.{toy-IsAead}
use codex_vault.Tests.Passwords.{plain-IsBase64, data_key, nonce, salt, password}
use codex_vault.Tests.Disk.{
  bob, Disk, disk_files, disk_files-IsFiles, bytes_of, content_of, content_behind, moved, strip,
  write_keeps, open_at, read_with,
}
use codex_vault.Tests.Host.{host, store}
use codex_vault.Tests.Sessions.{seed}
use codex_vault.Prelude.Bytes.{u32_to_be}
use codex_vault.Manifest.{
  is_valid_username, all_name_bytes, new_header, associated_data, push_field,
}
use codex_vault.Keys.{default_kdf_parameters, validate_parameters, derive_key}
use codex_vault.Keys.Wrap.{wrap_data_key}
use codex_vault.Files.{parent, with_extension}
use codex_vault.Store.{validate_username, validate_password, seal_key}
use codex_vault.Private.{ensure_private_directory, validate_private_directory}
use codex_vault.Archive.{seal_directory, write_archive, pack}
use codex_vault.Stream.Format.{nonce_bytes, add_carry, frame_header}
use codex_vault.Stream.Frame.{seal}
use codex_vault.Stream.Writer
use codex_vault.Stream.Reader.{}
use codex_vault.Store.Disk.{write_private_json}
use codex_vault.Store.Session.{}
use codex_vault.Tests.Cipher.{toy_encrypt}
use codex_vault.Tests.Passwords.{short_hash}
use codex_vault.Tests.Host.{text_of}
use codex_vault.Store.{create_keys}
use codex_vault.Store.Users.{write_profile}

strip_sound : (front p rest : Text) → strip front p ≡ some rest → p ≡ front ++ rest
unfolding strip
strip_sound [] p rest e = ground arith
strip_sound (b ∷ front) [] rest e = absurd cc
strip_sound (b ∷ front) (c ∷ p) rest e = elim (Bool-cases (b == c)) [
  | inl same ↦ let tail = strip_sound front p rest (ground arith) in ground arith
  | inr differs ↦ absurd (ground arith)
]

strip-append : (front rest : Text) → strip front (front ++ rest) ≡ some rest
unfolding strip
strip-append [] rest = refl
strip-append (b ∷ front) rest = ground (arith, strip-append front rest)

strip_apart : (q p : Text) → IsApart q p → strip (inside p) q ≡ none
strip_apart q p (other, outside) = elim (Option-cases (strip (inside p) q)) [
  | inl e ↦ e
  | inr (rest, e) ↦
      absurd (outside rest (strip_sound (inside p) q rest e ∙ sym (join-inside p rest)))
]

eq_bytes_apart : (q p : Text) → q ≢ p → eq_bytes q p ≡ false
eq_bytes_apart q p other = elim (Bool-cases (eq_bytes q p)) [
  | inl same ↦ absurd (other (eq_bytes→eq q p same))
  | inr differs ↦ differs
]

moved_keeps :
    (p r q : Text) (d : Disk)
    → IsApart q p
    → IsApart q r
    → bytes_of q (record d { written = moved p r ∷ d.written }) ≡ bytes_of q d
unfolding bytes_of content_of content_behind
moved_keeps p r q d from into =
    rw
      (
        eq_bytes_apart q r into.0,
        strip_apart q r into,
        eq_bytes_apart q p from.0,
        strip_apart q p from,
      )
      refl

moved_inside :
    (p r : Text) (b : ℕ) (name : Text) (d : Disk)
    → bytes_of (join r (b ∷ name)) (record d { written = moved p r ∷ d.written })
      ≡ bytes_of (join p (b ∷ name)) d
unfolding bytes_of content_of content_behind
moved_inside p r b name d =
    let other : join r (b ∷ name) ≢ r =
      λ e. absurd (omega (arith, join-longer r b name, ap length e)) in
    let found : strip (inside r) (join r (b ∷ name)) ≡ some (b ∷ name) =
      ap (strip (inside r)) (join-inside r (b ∷ name)) ∙ strip-append (inside r) (b ∷ name) in
    rw (eq_bytes_apart (join r (b ∷ name)) r other, found) refl

content-IsKept : (q : Text) → IsKept disk_files (disk_files-IsFiles.content q) (IsApart q)
unfolding disk_files-IsFiles open_at read_with bytes_of
content-IsKept q = record {
  create_dir = λ mode p. record { keeps = λ d. refl };
  create_new = λ mode p o. record { keeps = λ d. write_keeps p q [] d o.0 };
  open_read = λ p. record { keeps = λ d. refl };
  open_or_create = λ mode p. record { keeps = λ d. refl };
  open_file = λ p. record { keeps = λ d. refl };
  set_permissions = λ mode p. record { keeps = λ d. refl };
  set_len = λ n p o. record { keeps = λ d. write_keeps p q (take n (bytes_of p d)) d o.0 };
  seek_start = λ n p. record { keeps = λ d. refl };
  sync_all = λ p. record { keeps = λ d. refl };
  write_all = λ p bytes o. record { keeps = λ d. write_keeps p q (bytes_of p d ++ bytes) d o.0 };
  flush = λ p. record { keeps = λ d. refl };
  read_exact = λ p n. record { keeps = λ d. refl };
  read = λ p n. record { keeps = λ d. refl };
  read_to_end = λ n p. record { keeps = λ d. refl };
  rename = λ p r o o'. record { keeps = λ d. moved_keeps p r q d o o' };
  remove_file = λ p o. record { keeps = λ d. write_keeps p q [] d o.0 };
  tempdir_in = λ p name. record { keeps = λ d. refl };
  close_tempdir = λ p o. record { keeps = λ d. refl };
}

pub disk_files-IsDirectories : IsDirectories disk_files disk_files-IsFiles
unfolding disk_files-IsFiles
disk_files-IsDirectories = record {
  kept = content-IsKept;
  rename_inside = λ p r b name d e. moved_inside p r b name d;
  tempdir_keeps = λ q. record { keeps = λ d. refl };
  remove_dir_all_keeps = λ p q o. record { keeps = λ d. refl };
}

abbrev entropy : Entropy
entropy = record {
  staging = ascii "s";
  salt = some salt;
  data_key = some data_key;
  clock = some 9;
  id = ascii "1234";
  key_nonce = some nonce;
  archive = ascii "a";
  seed = some seed;
}

abbrev second : Text → ℕ
second (a ∷ (b ∷ text)) = b
second _ = 0

outside :
    (d : Disk) (empty : Text)
    → (disk_files.tempdir d).0 ≡ ok empty
    → (inner other : Text) → join (user_root store bob) inner ≢ join empty other
unfolding user_root
outside d empty e inner other same =
    let at : ascii "/tmp/x" ≡ empty = ground arith in
    absurd (omega (arith, ap second (rw (← at) at same)))

empty_disk : Disk
empty_disk = record { written = []; unread = []; held = [] }

adds : (add_user host store bob password entropy empty_disk).0 ≡ ok tt
unfolding content_of content_behind strip add_user create_keys write_profile initialize empty_disk
    seal_directory with_extension write_archive pack Writer.new Writer.on_inner Writer.write_frame
    Writer.fill_pending Writer.write_chunks Writer.write Writer.flush Writer.finish
    Writer.write_each add_carry nonce_bytes frame_header seal ensure_private_directory
    validate_username is_valid_username all_name_bytes validate_password validate_private_directory
    bytes_of eq_bytes user_root parent wrap_data_key default_kdf_parameters derive_key
    validate_parameters write_private_json seal_key new_header associated_data push_field
    toy_encrypt short_hash data_key nonce salt u32_to_be take drop text_of
adds = refl

add_user-Profile_example :
    let root = user_root store bob in
    let (r, t) = add_user host store bob password entropy empty_disk in
    (r ≡ ok tt
      → (new : Profile host disk_files-IsFiles disk_files-IsDirectories store bob password entropy
          root t)
        × (unlock_keys host.cipher host.base64 host.argon2 (is_uuid host) new.manifest bob password
            ≡ ok new.data_key)
        × ((x : IoError) × (host.system.symlink_metadata root (initialize host store empty_disk).1
              ≡ err x)))
    × ((x : VaultError)
        → r ≡ err x
        → (b : ℕ) (name : Text)
        → disk_files-IsFiles.content (join root (b ∷ name)) t
          ≡ disk_files-IsFiles.content (join root (b ∷ name)) empty_disk)
unfolding data_key
add_user-Profile_example =
    add_user-Profile host disk_files-IsFiles disk_files-IsDirectories toy-IsAead plain-IsBase64
      store bob password entropy empty_disk outside refl (λ now e. ground arith)
      (λ key e. ground arith)
