-- ===== src/Archive.antt =====
-- src/archive.rs: a directory sealed into an encrypted archive, and unsealed from one; and what the
-- code calls of the `tar` crate.
pub mod Ends
pub mod Kept
pub mod RoundTrip
pub mod Sealed
pub mod Unpacking
pub mod Unsealed
use codex_vault.Prelude.{
  on_error, ℕ, zero, suc, Bool, true, false, Option, none, some, List, ◌++◌, if◌then◌else◌, ok, err,
  map_err, Action, bind, lift, with_error,
}
use codex_vault.Prelude.Bytes.{Bytes, Text, ascii}
use codex_vault.Error.{VaultError, VaultResult, IoError, IoResult, io, integrity}
use codex_vault.Private.{FileSystem, validate_private_file}
use codex_vault.Files.{Files, sink_at, source_at, with_extension}
use codex_vault.Stream.Format.{Aead, map_read_error}
use codex_vault.Stream.Writer
use codex_vault.Stream.Writer.{VaultWriter}
use codex_vault.Stream.Reader
use codex_vault.Stream.Reader.{VaultReader}

pub data EntryType : Type 0 where
  regular directory symlink hard_link other : EntryType

-- One move of a reading archive: it reads its source into a buffer of some length, and goes on with
-- what that gave; it has found an entry, and goes on by skipping it or by unpacking it; it makes a
-- change to the file system while it unpacks; it has unpacked an entry, or refused to; the entries
-- have failed, or are at their end.
pub data Move (T S : Type 0) : Type 0 where
  want : ℕ → (IoResult Bytes → T) → Move T S
  entry : IoResult EntryType → T → T → Move T S
  change : (S → S) → T → Move T S
  unpacked : IoResult Bool → T → Move T S
  failed : IoError → Move T S
  end : Move T S

-- `tar` over a file system with states `S`: `Builder::append_dir_all(".", directory)` without
-- following links, and `into_inner`, are a row of writes, and the error of a read that ends them;
-- `Archive` with `unpack_in(destination)` moves from state to state.
pub record Tar (S : Type 0) : Type 1 where
  pub append_dir_all : Text → S → List Bytes × IoResult (Unit {0})
  pub Archive : Type 0
  pub entries : Text → Archive
  pub next : Archive → Move Archive S

-- Only files and directories are unpacked.
abbrev pub is_unpacked : EntryType → Bool
is_unpacked regular = true
is_unpacked EntryType.directory = true
is_unpacked _ = false

module _ (c : Aead) {f : FileSystem} (fs : Files f) (tar : Tar f.State) where
  -- What the writer has left behind: the file system is its destination.
  abbrev pub destination_of : (path : Text) → VaultWriter (sink_at fs path) → f.State → f.State
  destination_of path w t = elim w.inner [ some u ↦ u | none ↦ t ]

  -- The writes of the archive, the error that may end them, and the end of the writer.
  unfoldable pub write_archive :
      (path : Text)
      → List Bytes × IoResult (Unit {0})
      → Action (VaultWriter (sink_at fs path)) VaultError f.State
  write_archive path (pieces, ended) =
      bind (with_error io (Writer.write_each c (sink_at fs path) pieces))
        (λ _. bind (lift (map_err io ended)) (λ _. Writer.finish c (sink_at fs path)))

  -- The same as a call on the file system.
  unfoldable pub pack :
      (path source : Text) → VaultWriter (sink_at fs path) → Action f.State VaultError (Unit {0})
  pack path source w t =
      let (r, w') = write_archive path (tar.append_dir_all source t) w in
      elim r [ ok u ↦ (ok tt, u) | err e ↦ (err e, destination_of path w' t) ]

  -- `seal_directory`, by the random UUID in the name of the temporary file and the random seed.
  unfoldable pub seal_directory :
      Text → Option Bytes → Text → Text → Bytes → Action f.State VaultError (Unit {0})
  seal_directory uuid seed source destination data_key =
      let temporary = with_extension destination (ascii "tmp-" ++ uuid) in
      on_error (λ s. (fs.remove_file temporary s).1)
        (bind (with_error io (fs.create_new 384 temporary)) (λ _.
          bind (Writer.new c (sink_at fs temporary) seed data_key) (λ w.
            bind (pack temporary source w) (λ _. with_error io (
              bind (fs.flush temporary)
                (λ _. bind (fs.sync_all temporary) (λ _. fs.rename temporary destination)))))))

  abbrev pub Outcome : Text → Type 0
  Outcome path = Option (VaultResult (Unit {0}) × VaultReader (source_at fs path))

  -- One move of the loop over the entries, by what follows it.
  unfoldable pub unpack_move :
      (path : Text)
      → (tar.Archive → VaultReader (source_at fs path) → Outcome path)
      → Move tar.Archive f.State
      → VaultReader (source_at fs path)
      → Outcome path
  unpack_move path rest (want n go) r = elim (Reader.read c (source_at fs path) n r) [
    | none ↦ none
    | some (bytes, r') ↦ rest (go bytes) r'
  ]
  unpack_move path rest (entry (err e) skip unpack) r = some (err (map_read_error e), r)
  unpack_move path rest (entry (ok t) skip unpack) r =
      rest (if is_unpacked t then unpack else skip) r
  unpack_move path rest (change g a) r = rest a (record r { inner = g r.inner })
  unpack_move path rest (unpacked (err e) a) r = some (err (map_read_error e), r)
  unpack_move path rest (unpacked (ok true) a) r = rest a r
  unpack_move path rest (unpacked (ok false) a) r =
      some (err (integrity "archive entry escaped the runtime directory"), r)
  unpack_move path rest (failed e) r = some (err (map_read_error e), r)
  unpack_move path rest end r = some (ok tt, r)

  -- The loop over the entries; `none` means that the fuel ran out.
  unfoldable pub unpack_entries :
      (path : Text) → ℕ → tar.Archive → VaultReader (source_at fs path) → Outcome path
  unpack_entries path zero a r = none
  unpack_entries path (suc fuel) a r = unpack_move path (unpack_entries path fuel) (tar.next a) r

  -- What follows the entries: the rest of the stream is read, into a buffer of some length.
  abbrev pub verified : (path : Text) → ℕ → ℕ → Outcome path → Outcome path
  verified path buffer fuel (some (ok _, r)) =
      Reader.verify_finished c (source_at fs path) buffer fuel r
  verified path buffer fuel (some (err e, r)) = some (err e, r)
  verified path buffer fuel none = none

  abbrev pub released : (path : Text) → Outcome path → Option (VaultResult (Unit {0}) × f.State)
  released path none = none
  released path (some (r, reader)) = some (r, reader.inner)

  -- The file is opened and its header is read.
  unfoldable pub open_state :
      (path : Text) → Bytes → Action f.State VaultError (VaultReader (source_at fs path))
  open_state path data_key =
      bind
        (λ s.
          (map_err (λ _. integrity "unsafe vault state file") (validate_private_file f path s), s))
        (λ _.
          bind (with_error io (fs.open_read path)) (λ _. Reader.new (source_at fs path) data_key))

  -- `unseal_directory`, with the length of a buffer of `io::copy` and the fuel.
  unfoldable pub unseal_directory :
      ℕ → ℕ → Text → Text → Bytes → f.State → Option (VaultResult (Unit {0}) × f.State)
  unseal_directory buffer fuel path destination data_key s =
      let (r, t) = open_state path data_key s in
      elim r [
        | err e ↦ some (err e, t)
        | ok reader ↦
            released path (
              verified path buffer fuel (unpack_entries path fuel (tar.entries destination) reader))
      ]
