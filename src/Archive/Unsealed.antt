-- ===== src/Archive/Unsealed.antt =====
-- A directory that is unsealed with success came from a file that was sealed as a whole.
use codex_vault.Prelude.{
  List, [], ◌∷◌, if◌then◌else◌, ℕ, zero, suc, ◌<◌, ◌≡◌, refl, ◌≢◌, inl, inr, true, false, some,
  ◌++◌, arith, Option-cases, All, ok, err, Result-cases,
}
use mathlib.Core.Path.{subst}
use codex_vault.Prelude.Bytes.{Bytes, Text, IsByte}
use codex_vault.Device.{Source, IsSource}
use codex_vault.Private.{FileSystem, validate_private_file}
use codex_vault.Files.{Files, source_at}
use codex_vault.Files.Contents.{IsFiles}
use codex_vault.Stream.Format.{Aead, IsAead}
use codex_vault.Stream.Reader
use codex_vault.Stream.Reader.{VaultReader}
use codex_vault.Stream.Reader.Meaning.{Means, over, running, IsSound}
use codex_vault.Stream.Reader.Sound.{read-Goes, drain_sound}
use codex_vault.Stream.Content.{Contains, new-Starts}
use codex_vault.Archive.Unpacking.{
  IsReadable, IsUnpacking, Fails, Unpacks, at_failed, at_entry, at_unpacked, later, ends, reads,
  unpacks, skips, lies_inside, changes,
}
use codex_vault.Archive.{
  Tar, Move, want, entry, change, unpacked, failed, end, Outcome, unpack_move, unpack_entries,
  open_state, unseal_directory, EntryType, regular, symlink, hard_link, other, is_unpacked,
}

module _ (c : Aead) (ic : IsAead c) {f : FileSystem} (fs : Files f) (tar : Tar f.State)
    (path : Text) (is : IsSource (source_at fs path)) (it : IsUnpacking fs tar is.rest) where
  abbrev s : Source
  s = source_at fs path

  Fails-entries :
      (fuel : ℕ) (a : tar.Archive) (r r' : VaultReader s)
      → Fails fs tar a
      → unpack_entries c fs tar path fuel a r ≢ some (ok tt, r')
  unfolding unpack_entries unpack_move
  Fails-entries zero a r r' h e = absurd (cc)
  Fails-entries (suc fuel) a r r' (at_failed _ x m) e = absurd (ground arith)
  Fails-entries (suc fuel) a r r' (at_entry _ skip unpack x m) e = absurd (ground arith)
  Fails-entries (suc fuel) a r r' (at_unpacked _ b x m) e = absurd (ground arith)
  Fails-entries (suc fuel) a r r' (later _ b g m h) e =
      Fails-entries fuel b (record r { inner = g r.inner }) r' h (ground arith)

  -- The content behind, with what the entries took in front of it, is the content before.
  abbrev Took : tar.Archive → VaultReader s → VaultReader s → Type 0
  Took a r r' =
      IsSound c s is r'
      × ((out : Bytes)
          → Means c s is r' out
          → (all : Bytes) × (seen : List tar.Archive) × Means c s is r all
            × Unpacks fs tar a all out seen)

  changed :
      (g : f.State → f.State) (r r' : VaultReader s)
      → is.rest (g r.inner) ≡ is.rest r.inner
      → IsSound c s is r
      → let q = record r { inner = g r.inner } in
        IsSound c s is q × ((out : Bytes) → Means c s is q out → Means c s is r out)
  changed g r r' same v = (
    record {
      bytes = rw same v.bytes;
      sequence_le = v.sequence_le;
      closed = λ e. rw same (v.closed e);
    },
    go,
  )
    where
      go : (out : Bytes) → Means c s is (record r { inner = g r.inner }) out → Means c s is r out
      go out (over e n o) = over e (rw same at n) o
      go out (running ps e sealed short o) = running ps e (rw same at sealed) short o

  -- What the code does with an entry of a type.
  chosen :
      (a skip unpack : tar.Archive) (t : EntryType) (content left : Bytes) (seen : List tar.Archive)
      → tar.next a ≡ entry (ok t) skip unpack
      → Unpacks fs tar (if is_unpacked t then unpack else skip) content left seen
      → Unpacks fs tar a content left (a ∷ seen)
  chosen a skip unpack regular content left seen m u =
      unpacks a skip unpack regular content left seen m (inl refl) u
  chosen a skip unpack EntryType.directory content left seen m u =
      unpacks a skip unpack EntryType.directory content left seen m (inr refl) u
  chosen a skip unpack symlink content left seen m u =
      skips a skip unpack symlink content left seen m ((λ e. absurd cc), (λ e. absurd cc)) u
  chosen a skip unpack hard_link content left seen m u =
      skips a skip unpack hard_link content left seen m ((λ e. absurd cc), (λ e. absurd cc)) u
  chosen a skip unpack other content left seen m u =
      skips a skip unpack other content left seen m ((λ e. absurd cc), (λ e. absurd cc)) u

  -- One move that does not end the entries, or ends them well.
  move-Took :
      (rest : tar.Archive → VaultReader s → Outcome c fs tar path)
      → ((a : tar.Archive) (r r' : VaultReader s)
          → rest a r ≡ some (ok tt, r')
          → IsSound c s is r
          → Took a r r')
      → ((a : tar.Archive) (r r' : VaultReader s) → Fails fs tar a → rest a r ≢ some (ok tt, r'))
      → (a : tar.Archive) (m : Move tar.Archive f.State) (r r' : VaultReader s) → tar.next a ≡ m
      → unpack_move c fs tar path rest m r ≡ some (ok tt, r')
      → IsSound c s is r
      → Took a r r'
  unfolding unpack_move
  move-Took rest ih fails a (want n go) r r' m e v = elim (Option-cases (Reader.read c s n r)) [
    | inl stuck ↦ absurd (ground arith)
    | inr (o, found) ↦ elim (Result-cases o.0) [
      | inr (x, failed_read) ↦
          absurd (fails (go (err x)) o.1 r' (it.want_err a n go x m) (ground arith))
      | inl (bytes, given) ↦
          let (v1, back) = read-Goes c ic s is n r o.1 bytes v (ground arith) in
          let (v2, back2) = ih (go (ok bytes)) o.1 r' (ground arith) v1 in
          (
            v2,
            λ out means.
                let (all, seen, before, took) = back2 out means in
                (bytes ++ all, seen, back all before, reads a n go bytes all out seen m took),
          )
    ]
  ]
  move-Took rest ih fails a (entry (err x) skip unpack) r r' m e v = absurd cc
  move-Took rest ih fails a (entry (ok t) skip unpack) r r' m e v =
      let (v2, back2) = ih _ r r' e v in
      (
        v2,
        λ out means.
            let (all, seen, before, took) = back2 out means in
            (all, a ∷ seen, before, chosen a skip unpack t all out seen m took),
      )
  move-Took rest ih fails a (change g b) r r' m e v =
      let (v1, back) = changed g r r' (it.change_keeps a b g r.inner m) v in
      let (v2, back2) = ih b (record r { inner = g r.inner }) r' e v1 in
      (
        v2,
        λ out means.
            let (all, seen, before, took) = back2 out means in
            (all, seen, back all before, changes a b g all out seen m took),
      )
  move-Took rest ih fails a (unpacked (err x) b) r r' m e v = absurd cc
  move-Took rest ih fails a (unpacked (ok true) b) r r' m e v =
      let (v2, back2) = ih b r r' e v in
      (
        v2,
        λ out means.
            let (all, seen, before, took) = back2 out means in
            (all, seen, before, lies_inside a b all out seen m took),
      )
  move-Took rest ih fails a (unpacked (ok false) b) r r' m e v = absurd cc
  move-Took rest ih fails a (failed x) r r' m e v = absurd cc
  move-Took rest ih fails a end r r' m e v =
      let same : r ≡ r' = ground arith in
      subst (Took a r) same (v, λ out means. (out, [], means, ends a out m))

  entries-Took :
      (fuel : ℕ) (a : tar.Archive) (r r' : VaultReader s)
      → unpack_entries c fs tar path fuel a r ≡ some (ok tt, r')
      → IsSound c s is r
      → Took a r r'
  unfolding unpack_entries
  entries-Took zero a r r' e v = absurd cc
  entries-Took (suc fuel) a r r' e v =
      move-Took (unpack_entries c fs tar path fuel) (entries-Took fuel) (Fails-entries fuel) a
        (tar.next a) r r' refl e v

  verify_finished-drain :
      (buffer fuel : ℕ) (r r' : VaultReader s)
      → Reader.verify_finished c s buffer fuel r ≡ some (ok tt, r')
      → (out : Bytes) × (Reader.drain c s buffer fuel r ≡ some (ok out, r'))
  unfolding Reader.verify_finished
  verify_finished-drain buffer fuel r r' e = elim (Option-cases (Reader.drain c s buffer fuel r)) [
    | inl stuck ↦ absurd (ground arith)
    | inr (o, found) ↦ elim (Result-cases o.0) [
      | inr (x, failed_read) ↦ absurd (ground arith)
      | inl (out, given) ↦ (out, ground arith)
    ]
  ]

module _ (c : Aead) (ic : IsAead c) {f : FileSystem} (fs : Files f) (laws : IsFiles fs)
    (tar : Tar f.State) where
  pub opens :
      (path : Text) (key : Bytes) (s : f.State) (reader : VaultReader (source_at fs path))
      → (open_state c fs tar path key s).0 ≡ ok reader
      → ((fs.open_read path s).0 ≡ ok tt)
        × ((Reader.new (source_at fs path) key (fs.open_read path s).1).0 ≡ ok reader)
  unfolding open_state
  opens path key s reader e = elim (Result-cases (validate_private_file f path s)) [
    | inr (x, ev) ↦ absurd (ground arith)
    | inl (m, ev) ↦ elim (Result-cases (fs.open_read path s).0) [
      | inr (x, eo) ↦ absurd (ground arith)
      | inl (_, eo) ↦ (eo, ground arith)
    ]
  ]

  -- With the cipher, the files and `tar` as documented, a file of bytes and a buffer that is not
  -- empty: a directory is unsealed with success only from a file that is, as a whole, the header and
  -- the sealed stream of some content under the key, to its final frame, and `tar` went through its
  -- entries to the last with success on a front of that content: regular files and directories were
  -- unpacked, and entries of other types skipped.
  pub unseal_directory-Contains :
      (path : Text) (ir : IsReadable fs laws path)
      → IsUnpacking fs tar ir.source.rest
      → (buffer fuel : ℕ) (destination : Text) (key : Bytes) (s t : f.State) → 0 < buffer
      → All IsByte (laws.content path s)
      → unseal_directory c fs tar buffer fuel path destination key s ≡ some (ok tt, t)
      → (content : Bytes) × (left : Bytes) × (seen : List tar.Archive) × Contains c key content
          (laws.content path s)
        × Unpacks fs tar (tar.entries destination) content left seen
  unfolding unseal_directory
  unseal_directory-Contains path ir it buffer fuel destination key s t pos bytes e =
      let src = source_at fs path in
      let is : IsSource src = ir.source in
      let u = (fs.open_read path s).1 in
      elim (Result-cases (open_state c fs tar path key s).0) [
        | inr (x, eo) ↦ absurd (ground arith)
        | inl (reader, eo) ↦
            let (opened, started) = opens path key s reader eo in
            let whole = ir.open_read_rest s opened in
            let (v, back) = new-Starts c ic src is key u reader (rw whole bytes) started in
            let a = tar.entries destination in
            elim (Option-cases (unpack_entries c fs tar path fuel a reader)) [
              | inl stuck ↦ absurd (ground arith)
              | inr (o, found) ↦ elim (Result-cases o.0) [
                | inr (x, ended) ↦ absurd (ground arith)
                | inl (_, ended) ↦
                    let (v1, back1) =
                      entries-Took c ic fs tar path is it fuel a reader o.1 (ground arith) v in
                    elim (Option-cases (Reader.verify_finished c src buffer fuel o.1)) [
                      | inl stuck ↦ absurd (ground arith)
                      | inr (q, verified_) ↦
                          let (out, drained) =
                            verify_finished-drain c ic fs tar path is it buffer fuel o.1 q.1
                              (ground arith) in
                          let (means, _) =
                            drain_sound c ic src is buffer pos fuel o.1 q.1 out v1 drained in
                          let (all, seen, before, took) = back1 out means in
                          (all, out, seen, rw whole at (back all before), took)
                    ]
              ]
            ]
      ]
