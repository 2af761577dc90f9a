-- ===== src/Archive/Unpacking.antt =====
-- What is documented of `tar`, and of the file that it unpacks from, and how its entries end.
use codex_vault.Prelude.{concat, List, [], ◌∷◌, ◌≢◌, ◌⊎◌, ℕ, ◌≡◌, true, ◌++◌, ok, err}
use mathlib.Core.List.{map}
use codex_vault.Prelude.Bytes.{Bytes, Text}
use codex_vault.Error.{IoResult, IoError}
use codex_vault.Device.{IsSource}
use codex_vault.Private.{FileSystem}
use codex_vault.Files.{Files, source_at}
use codex_vault.Files.Contents.{IsFiles}
use codex_vault.Archive.{regular, Tar, want, entry, change, unpacked, failed, end, EntryType}

module _ {f : FileSystem} (fs : Files f) where
  -- What is documented of a file that is opened to be read: all that it holds is left to read.
  pub record IsReadable (laws : IsFiles fs) (path : Text) : Type 0 where
    pub source : IsSource (source_at fs path)
    pub open_read_rest :
        (s : f.State)
        → (fs.open_read path s).0 ≡ ok tt
        → source.rest (fs.open_read path s).1 ≡ laws.content path s

module _ {f : FileSystem} (fs : Files f) (tar : Tar f.State) where
  -- The archive reports an error, with changes of the files at most before it does.
  pub data Fails : tar.Archive → Type 0 where
    at_failed : (a : tar.Archive) (e : IoError) → tar.next a ≡ failed e → Fails a
    at_entry :
        (a skip unpack : tar.Archive) (e : IoError)
        → tar.next a ≡ entry (err e) skip unpack
        → Fails a
    at_unpacked : (a b : tar.Archive) (e : IoError) → tar.next a ≡ unpacked (err e) b → Fails a
    later :
        (a b : tar.Archive) (g : f.State → f.State) → tar.next a ≡ change g b → Fails b → Fails a

  -- The archive goes through all of its entries with success while it takes the bytes of `content`,
  -- up to `left`; `seen` is where it stood at each entry. Regular files and directories are unpacked,
  -- and entries of other types, links among them, are skipped.
  pub data Unpacks : tar.Archive → Bytes → Bytes → List tar.Archive → Type 0 where
    ends : (a : tar.Archive) (left : Bytes) → tar.next a ≡ end → Unpacks a left left []
    reads :
        (a : tar.Archive) (n : ℕ) (go : IoResult Bytes → tar.Archive) (bytes content left : Bytes)
        (seen : List tar.Archive)
        → tar.next a ≡ want n go
        → Unpacks (go (ok bytes)) content left seen
        → Unpacks a (bytes ++ content) left seen
    unpacks :
        (a skip unpack : tar.Archive) (t : EntryType) (content left : Bytes)
        (seen : List tar.Archive)
        → tar.next a ≡ entry (ok t) skip unpack
        → (t ≡ regular) ⊎ (t ≡ EntryType.directory)
        → Unpacks unpack content left seen
        → Unpacks a content left (a ∷ seen)
    skips :
        (a skip unpack : tar.Archive) (t : EntryType) (content left : Bytes)
        (seen : List tar.Archive)
        → tar.next a ≡ entry (ok t) skip unpack
        → (t ≢ regular) × (t ≢ EntryType.directory)
        → Unpacks skip content left seen
        → Unpacks a content left (a ∷ seen)
    lies_inside :
        (a b : tar.Archive) (content left : Bytes) (seen : List tar.Archive)
        → tar.next a ≡ unpacked (ok true) b
        → Unpacks b content left seen
        → Unpacks a content left seen
    changes :
        (a b : tar.Archive) (g : f.State → f.State) (content left : Bytes) (seen : List tar.Archive)
        → tar.next a ≡ change g b
        → Unpacks b content left seen
        → Unpacks a content left seen

  -- What is documented of an archive that `tar` wrote of a directory: the entries that it has when it
  -- is read are those of the directory, in their order. `item` is the entry that an archive stands
  -- at, its path and data; `listing` has those of a directory in a state of the files.
  pub record IsBuilt : Type 1 where
    pub Item : Type 0
    pub item : tar.Archive → Item
    pub listing : Text → f.State → List Item
    pub reads_back :
        (source destination : Text) (s : f.State) (pieces : List Bytes) (left : Bytes)
        (seen : List tar.Archive)
        → tar.append_dir_all source s ≡ (pieces, ok tt)
        → Unpacks (tar.entries destination) (concat pieces) left seen
        → map item seen ≡ listing source s

  -- What `tar` is documented to do while it unpacks from an open file, of which `rest` is left to
  -- read: what it changes is not that file, and an error of a read ends the entries with an error.
  -- The reads of a file are not interrupted.
  pub record IsUnpacking (rest : f.State → Bytes) : Type 0 where
    pub change_keeps :
        (a b : tar.Archive) (g : f.State → f.State) (s : f.State)
        → tar.next a ≡ change g b
        → rest (g s) ≡ rest s
    pub want_err :
        (a : tar.Archive) (n : ℕ) (go : IoResult Bytes → tar.Archive) (e : IoError)
        → tar.next a ≡ want n go
        → Fails (go (err e))
