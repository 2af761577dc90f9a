-- ===== src/Tests/Host.antt =====
-- A host in memory with the profile of one user, whose password is changed and in which a program
-- is run.
use codex_vault.Prelude.{
  String, true, false, none, some, [], ◌∷◌, ◌++◌, ◌==◌, if◌then◌else◌, length, take, drop, Result,
  ok, err,
}
use codex_vault.Prelude.Bytes.{Bytes, ascii}
use codex_vault.Error.{os, ErrorKind}
use codex_vault.Manifest.{UserManifest}
use codex_vault.Protocol.{Json}
use codex_vault.Archive.{Tar, Move, EntryType, symlink}
use codex_vault.Store.Host.{Host}
use codex_vault.Store.Disk.{VaultStore}
use codex_vault.Tests.Cipher.{toy}
use codex_vault.Tests.Passwords.{plain, short_hash}
use codex_vault.Tests.Manifests.{manifest_with}
use codex_vault.Tests.Disk.{Disk, disk_system, disk_files}

-- A text of the salt, the nonce, the tag and the ciphertext, behind a brace.
unfoldable pub text_of : UserManifest → Bytes
text_of m =
    123
    ∷ (m.kdf.salt
        ++ (m.wrapped_data_key.iv
            ++ (m.wrapped_data_key.authentication_tag ++ m.wrapped_data_key.ciphertext)))

unfoldable pub manifest_of : Bytes → Result String UserManifest
unfolding take drop
manifest_of [] = err "EOF"
manifest_of (b ∷ text) = ok (record (manifest_with []) {
  kdf = record (manifest_with []).kdf { salt = take 17 text };
  wrapped_data_key = record {
    algorithm = ascii "aes-256-gcm";
    iv = take 13 (drop 17 text);
    authentication_tag = take 17 (drop 30 text);
    ciphertext = take 33 (drop 47 text);
  };
})

abbrev pub json : Json UserManifest
json = record { to_vec = λ m. ok (text_of m); from_slice = manifest_of }

-- An archive that reads a block, unpacks a file by a change that shows nowhere, skips a link, and
-- ends; or fails.
pub data Stage : Type 0 where
  reading at_file changing inside at_link escaping finished broken : Stage

unfoldable pub next_move : Stage → Move Stage Disk
next_move reading = Move.want 512 (λ r. elim r [ ok bytes ↦ at_file | err e ↦ broken ])
next_move at_file = Move.entry (ok EntryType.regular) at_link changing
next_move changing = Move.change (λ d. d) inside
next_move inside = Move.unpacked (ok true) at_link
next_move at_link = Move.entry (ok symlink) finished escaping
next_move escaping = Move.unpacked (ok false) finished
next_move finished = Move.end
next_move broken = Move.failed (os ErrorKind.uncategorized "unexpected end of archive")

-- Two bytes for any directory, which has a file and a link.
abbrev pub tar : Tar Disk
tar = record {
  append_dir_all = λ directory s. ((1 ∷ 2 ∷ []) ∷ [], ok tt);
  Archive = Stage;
  entries = λ destination. reading;
  next = next_move;
}

abbrev pub host : Host
host = record {
  system = disk_system;
  files = disk_files;
  tar = tar;
  cipher = toy;
  base64 = plain;
  argon2 = short_hash;
  json = json;
  parse_uuid = λ text. if length text == 4 then some text else none;
  process_id = 42;
  explicit_runtime = some (ascii "/run");
  xdg_runtime = none;
  temp_dir = ascii "/tmp";
  buffer = 8192;
}

abbrev pub store : VaultStore
store = record { root = ascii "/v"; runtime_root = none }
