-- ===== src/Archive/RoundTrip.antt =====
-- src/archive.rs: what is unsealed is what was sealed.
use codex_vault.Prelude.{
  concat, suc, ◌+◌, ◌<◌, ◌≡◌, sym, ap, ◌∙◌, ◌≢◌, some, List, arith, length, ok,
}
use mathlib.Core.Path.{subst}
use mathlib.Core.List.{map}
use codex_vault.Prelude.Bytes.{Bytes, Text}
use codex_vault.Device.Memory.{cursor, cursor-IsSource, cursor-IsReliable}
use codex_vault.Private.{FileSystem}
use codex_vault.Files.{Files, sink_at}
use codex_vault.Files.Contents.{IsFiles, sink_at-IsSink}
use codex_vault.Stream.Format.{Aead, IsAead}
use codex_vault.Stream.Reader
use codex_vault.Stream.Content.{Contains, Contains-drain, Image-Contains}
use codex_vault.Archive.{Tar}
use codex_vault.Archive.Sealed.{IsArchive, begun}
use codex_vault.Archive.Unpacking.{IsBuilt, Unpacks}

-- A file has one content.
pub Contains-unique :
    (c : Aead) (ic : IsAead c) (key a b bytes : Bytes)
    → length key ≡ 32
    → Contains c key a bytes
    → Contains c key b bytes
    → a ≡ b
unfolding cursor-IsSource
Contains-unique c ic key a b bytes k32 ha hb =
    let fuel = suc (length a + length b) in
    let read_all = λ (out : Bytes) (l : length out < fuel) (h : Contains c key out bytes).
      Contains-drain c ic cursor cursor-IsSource cursor-IsReliable key bytes 1 fuel out k32
        (omega arith) l h in
    let (r, r', er, dr, _) = read_all a (omega arith) ha in
    let (q, q', eq, dq, _) = read_all b (omega arith) hb in
    let same : r ≡ q = ground arith in cc (sym dr ∙ ap (Reader.drain c cursor 1 fuel) same ∙ dq)

module _ (c : Aead) (ic : IsAead c) {f : FileSystem} (fs : Files f) (laws : IsFiles fs)
    (tar : Tar f.State) where
  pub IsArchive-Contains :
      (seed key : Bytes) (source temporary : Text) (from : f.State) (bytes : Bytes)
      → length seed ≡ 12
      → (archive : IsArchive c fs laws tar (some seed) key source temporary from bytes)
      → Contains c key (concat archive.pieces) bytes
  IsArchive-Contains seed key source temporary from bytes l12 archive =
      let same : seed ≡ archive.nonce_seed = ground (arith, archive.seed_eq) in
      rw archive.bytes_eq (
        Image-Contains c (sink_at fs temporary) (sink_at-IsSink fs laws temporary)
          archive.nonce_seed key (concat archive.pieces) archive.end (ap length (sym same) ∙ l12)
          archive.image)

  -- A directory was archived as it was in `from`, and the archive goes through all of its entries
  -- again. It was read where the temporary file was begun, and no other file had changed since
  -- `from`; the entries are those of the directory there.
  pub record Restored (built : IsBuilt fs tar) (seed key : Bytes)
      (source destination temporary : Text) (from : f.State) : Type 0 where
    pub same :
        (q : Text)
        → q ≢ temporary
        → laws.content q (begun c fs laws tar temporary (some seed) key from) ≡ laws.content q from
    pub pieces : List Bytes
    pub left : Bytes
    pub seen : List tar.Archive
    pub written :
        tar.append_dir_all source (begun c fs laws tar temporary (some seed) key from)
        ≡ (pieces, ok tt)
    pub unpacked : Unpacks fs tar (tar.entries destination) (concat pieces) left seen
    pub entries :
        map built.item seen
        ≡ built.listing source (begun c fs laws tar temporary (some seed) key from)

  -- The content that is unpacked from an archive is what was written.
  pub IsArchive-Restored :
      (built : IsBuilt fs tar) (seed key : Bytes) (source destination temporary : Text)
      (from : f.State) (bytes content left : Bytes) (seen : List tar.Archive)
      → length seed ≡ 12
      → length key ≡ 32
      → IsArchive c fs laws tar (some seed) key source temporary from bytes
      → Contains c key content bytes
      → Unpacks fs tar (tar.entries destination) content left seen
      → Restored built seed key source destination temporary from
  IsArchive-Restored built seed key source destination temporary from bytes content left seen l12
        k32 archive held took =
      let same : content ≡ concat archive.pieces =
        Contains-unique c ic key content (concat archive.pieces) bytes k32 held
          (IsArchive-Contains seed key source temporary from bytes l12 archive) in
      let read = subst (λ x. Unpacks fs tar (tar.entries destination) x left seen) same took in
      record {
        same = archive.same;
        pieces = archive.pieces;
        left = left;
        seen = seen;
        written = archive.pieces_eq;
        unpacked = read;
        entries =
            built.reads_back source destination (begun c fs laws tar temporary (some seed) key from)
              archive.pieces left seen archive.pieces_eq read;
      }
