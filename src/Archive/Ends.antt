-- ===== src/Archive/Ends.antt =====
-- src/archive.rs: unsealing ends, whatever the file holds.
use codex_vault.Prelude.{
  ℕ, zero, suc, ◌-◌, ◌≤◌, ◌<◌, ◌≡◌, refl, ap, inl, inr, true, false, not, none, some, ◌++◌, arith,
  if◌then◌else◌, length, All, length-append, length-drop, ok, err, fail_if, Result-cases,
}
use codex_vault.Prelude.Bytes.{Bytes, Text, IsByte}
use mathlib.Core.Path.{subst}
use codex_vault.Error.{integrity, VaultError, VaultResult, IoError}
use codex_vault.Device.{Source, IsSource}
use codex_vault.Private.{FileSystem}
use codex_vault.Files.{Files, source_at}
use codex_vault.Files.Contents.{IsFiles}
use codex_vault.Stream.Format.{magic, map_read_error, Aead, IsAead}
use codex_vault.Stream.Reader
use codex_vault.Stream.Reader.{VaultReader}
use codex_vault.Stream.Reader.Meaning.{IsSound}
use codex_vault.Stream.Reader.Sound.{read-Goes}
use codex_vault.Stream.Reader.Total.{read_total}
use codex_vault.Stream.Reader.Ends.{left, drain_total, read-left}
use codex_vault.Stream.Content.{new_runs, new-Starts}
use codex_vault.Archive.{
  Tar, Move, want, entry, change, unpacked, failed, end, is_unpacked, Outcome, unpack_move,
  unpack_entries, verified, open_state, unseal_directory,
}
use codex_vault.Archive.Unpacking.{IsReadable}
use codex_vault.Archive.Unsealed.{opens}

new-left :
    (c : Aead) (ic : IsAead c) (s : Source) (is : IsSource s) (key : Bytes) (t : s.State)
    (r : VaultReader s)
    → (Reader.new s key t).0 ≡ ok r
    → left c ic s is r ≤ length (is.rest t)
new-left c ic s is key t r e =
    let (seed, split, len, context, empty_, zero_, open_) = new_runs c ic s is key t r e in
    omega (
      arith,
      ap length split,
      length-append (magic ++ seed) (is.rest r.inner),
      ap length empty_,
      length-drop r.plaintext_offset r.plaintext,
    )

module _ {S : Type 0} (tar : Tar S) where
  -- The archive reports an error within some moves, with changes of the files at most before it.
  abbrev FailingMove : (tar.Archive → Type 0) → Move tar.Archive S → Type 0
  FailingMove rest (want n go) = ⊥
  FailingMove rest (entry (ok t) skip unpack) = ⊥
  FailingMove rest (entry (err e) skip unpack) = Unit {0}
  FailingMove rest (change g a) = rest a
  FailingMove rest (unpacked (ok b) a) = ⊥
  FailingMove rest (unpacked (err e) a) = Unit {0}
  FailingMove rest (failed e) = Unit {0}
  FailingMove rest end = ⊥

  unfoldable pub FailsWithin : ℕ → tar.Archive → Type 0
  FailsWithin zero a = ⊥
  FailsWithin (suc moves) a = FailingMove (FailsWithin moves) (tar.next a)

  -- The archive ends within some moves, whatever the bytes are that it reads, if they are at most as
  -- many as given.
  abbrev EndingMove :
      (tar.Archive → Type 0) → (tar.Archive → ℕ → Type 0) → Move tar.Archive S → ℕ → Type 0
  EndingMove fails rest (want n go) k =
      ((bytes : Bytes) → length bytes ≤ k → rest (go (ok bytes)) (k - length bytes))
      × ((e : IoError) → fails (go (err e)))
  EndingMove fails rest (entry (ok t) skip unpack) k =
      rest (if is_unpacked t then unpack else skip) k
  EndingMove fails rest (change g a) k = rest a k
  EndingMove fails rest (unpacked (ok true) a) k = rest a k
  EndingMove fails rest _ k = Unit {0}

  unfoldable pub EndsWithin : ℕ → tar.Archive → ℕ → Type 0
  EndsWithin zero a k = ⊥
  EndsWithin (suc moves) a k = EndingMove (FailsWithin moves) (EndsWithin moves) (tar.next a) k

module _ (c : Aead) (ic : IsAead c) {f : FileSystem} (fs : Files f) (tar : Tar f.State)
    (path : Text) (is : IsSource (source_at fs path))
    (keeps : (a b : tar.Archive) (g : f.State → f.State) (s : f.State)
      → tar.next a ≡ change g b
      → is.rest (g s) ≡ is.rest s) where
  abbrev s : Source
  s = source_at fs path

  abbrev Ended : Outcome c fs tar path → Type 0
  Ended o = (q : VaultResult (Unit {0}) × VaultReader s) × (o ≡ some q)

  Fails-Ended :
      (fuel : ℕ) (a : tar.Archive) (r : VaultReader s)
      → FailsWithin tar fuel a
      → (x : VaultError) × (q : VaultReader s) × (unpack_entries c fs tar path fuel a r
          ≡ some (err x, q))
  unfolding FailsWithin unpack_entries unpack_move
  Fails-Ended zero a r h = absurd h
  Fails-Ended (suc fuel) a r h = go (Fails-Ended fuel) (tar.next a) r h
    where
      go :
          ((b : tar.Archive) (q : VaultReader s)
            → FailsWithin tar fuel b
            → (x : VaultError) × (t : VaultReader s) × (unpack_entries c fs tar path fuel b q
                ≡ some (err x, t)))
          → (m : Move tar.Archive f.State) (r : VaultReader s)
          → FailingMove tar (FailsWithin tar fuel) m
          → (x : VaultError) × (q : VaultReader s) × (unpack_move c fs tar path
                (unpack_entries c fs tar path fuel)
                m
                r
              ≡ some (err x, q))
      go again (want n k) r h = absurd h
      go again (entry (ok t) skip unpack) r h = absurd h
      go again (entry (err e) skip unpack) r h = (_, r, refl)
      go again (change g b) r h = again b (record r { inner = g r.inner }) h
      go again (unpacked (ok b) a) r h = absurd h
      go again (unpacked (err e) a) r h = (_, r, refl)
      go again (failed e) r h = (_, r, refl)
      go again end r h = absurd h

  -- How the entries end: what is left to read is no more than before, unless with an error.
  abbrev EndsWell : ℕ → Outcome c fs tar path → Type 0
  EndsWell k o =
      (q : VaultResult (Unit {0}) × VaultReader s) × (o ≡ some q)
      × (q.0 ≡ ok tt → IsSound c s is q.1 × (left c ic s is q.1 ≤ k))

  changed :
      (g : f.State → f.State) (r : VaultReader s)
      → is.rest (g r.inner) ≡ is.rest r.inner
      → IsSound c s is r
      → IsSound c s is (record r { inner = g r.inner })
  changed g r same v = record {
    bytes = rw same v.bytes;
    sequence_le = v.sequence_le;
    closed = λ e. rw same (v.closed e);
  }

  entries-EndsWell :
      (fuel k : ℕ) (a : tar.Archive) (r : VaultReader s)
      → EndsWithin tar fuel a k
      → IsSound c s is r
      → left c ic s is r ≤ k
      → EndsWell k (unpack_entries c fs tar path fuel a r)
  unfolding EndsWithin unpack_entries unpack_move
  entries-EndsWell zero k a r h v l = absurd h
  entries-EndsWell (suc fuel) k a r h v l = go (entries-EndsWell fuel) a (tar.next a) k r refl h v l
    where
      go :
          ((j : ℕ) (b : tar.Archive) (q : VaultReader s)
            → EndsWithin tar fuel b j
            → IsSound c s is q
            → left c ic s is q ≤ j
            → EndsWell j (unpack_entries c fs tar path fuel b q))
          → (a : tar.Archive) (m : Move tar.Archive f.State) (k : ℕ) (r : VaultReader s)
          → tar.next a ≡ m
          → EndingMove tar (FailsWithin tar fuel) (EndsWithin tar fuel) m k
          → IsSound c s is r
          → left c ic s is r ≤ k
          → EndsWell k (unpack_move c fs tar path (unpack_entries c fs tar path fuel) m r)
      go again a (want n next) k r e (reads, fails) v l =
          let ((b, r1), found) = read_total c s n r v.sequence_le in
          elim (Result-cases b) [
            | inr (x, failed_read) ↦
                let (y, q, ended) = Fails-Ended fuel (next (err x)) r1 (fails x) in
                ((err y, q), ground arith, λ same. absurd cc)
            | inl (bytes, given) ↦
                let taken : Reader.read c s n r ≡ some (ok bytes, r1) = ground arith in
                let less = read-left c ic s is n r r1 bytes v taken in
                let (v1, _) = read-Goes c ic s is n r r1 bytes v taken in
                let (q, ended, well) =
                  again (k - length bytes) (next (ok bytes)) r1
                    (reads bytes (omega (arith, less, l))) v1 (omega (arith, less, l)) in
                (q, ground arith, λ same. let (vq, lq) = well same in (vq, omega (arith, lq)))
          ]
      go again a (entry (ok t) skip unpack) k r e h v l = again k _ r h v l
      go again a (entry (err x) skip unpack) k r e h v l = ((err _, r), refl, λ same. absurd cc)
      go again a (change g b) k r e h v l =
          let same = keeps a b g r.inner e in
          again k b (record r { inner = g r.inner }) h (changed g r same v) (rw same l)
      go again a (unpacked (ok true) b) k r e h v l = again k b r h v l
      go again a (unpacked (ok false) b) k r e h v l = ((err _, r), refl, λ same. absurd cc)
      go again a (unpacked (err x) b) k r e h v l = ((err _, r), refl, λ same. absurd cc)
      go again a (failed x) k r e h v l = ((err _, r), refl, λ same. absurd cc)
      go again a end k r e h v l = ((ok tt, r), refl, λ same. (v, l))

  -- What follows the entries ends as well.
  verified_total :
      (buffer fuel k : ℕ) (o : Outcome c fs tar path)
      → EndsWell k o
      → k < fuel
      → Ended (verified c fs tar path buffer fuel o)
  unfolding Reader.verify_finished
  verified_total buffer fuel k none (q, e, well) l = absurd cc
  verified_total buffer fuel k (some (err x, r)) (q, e, well) l = ((err x, r), refl)
  verified_total buffer fuel k (some (ok u, r)) (q, e, well) l =
      let at : q.1 ≡ r = ground arith in
      let (v, lr) =
        subst (λ x. IsSound c s is x × (left c ic s is x ≤ k)) at (well (ground arith)) in
      let ((a, r2), drained) = drain_total c ic s is buffer fuel r v (omega (arith, lr, l)) in
      elim (Result-cases a) [
        | inl (bytes, ea) ↦ (
          (fail_if (not r2.finalized) (integrity "encrypted vault is truncated"), r2),
          ground arith,
        )
        | inr (x, ea) ↦ ((err (map_read_error x), r2), ground arith)
      ]

module _ (c : Aead) (ic : IsAead c) {f : FileSystem} (fs : Files f) (laws : IsFiles fs)
    (tar : Tar f.State) where
  -- With the cipher and the files as documented, a file of bytes, and an archive reader that changes
  -- nothing of that file: a directory is unsealed, with success or an error, within every
  -- fuel that is more than the length of the file and in which the archive reader ends for at most
  -- as many bytes, whatever they are.
  pub unseal_directory_total :
      (path : Text) (ir : IsReadable fs laws path)
      → ((a b : tar.Archive) (g : f.State → f.State) (s : f.State)
          → tar.next a ≡ change g b
          → ir.source.rest (g s) ≡ ir.source.rest s)
      → (buffer fuel : ℕ) (destination : Text) (key : Bytes) (s : f.State)
      → All IsByte (laws.content path s)
      → EndsWithin tar fuel (tar.entries destination) (length (laws.content path s))
      → length (laws.content path s) < fuel
      → (o : VaultResult (Unit {0}) × f.State) × (unseal_directory c fs tar buffer fuel path
            destination key s
          ≡ some o)
  unfolding unseal_directory
  unseal_directory_total path ir keeps buffer fuel destination key s bytes ends l =
      let src = source_at fs path in
      let is : IsSource src = ir.source in
      elim (Result-cases (open_state c fs tar path key s).0) [
        | inr (x, eo) ↦ ((err x, (open_state c fs tar path key s).1), ground arith)
        | inl (reader, eo) ↦
            let (opened, started) = opens c ic fs laws tar path key s reader eo in
            let u = (fs.open_read path s).1 in
            let whole = ir.open_read_rest s opened in
            let (v, back) = new-Starts c ic src is key u reader (rw whole bytes) started in
            let within : left c ic src is reader ≤ length (laws.content path s) =
              omega (arith, new-left c ic src is key u reader started, ap length whole) in
            let k = length (laws.content path s) in
            let o = unpack_entries c fs tar path fuel (tar.entries destination) reader in
            let run =
              entries-EndsWell c ic fs tar path is keeps fuel k (tar.entries destination) reader
                ends v within in
            let ((r, t), found) = verified_total c ic fs tar path is keeps buffer fuel k o run l in
            ((r, t.inner), ground arith)
      ]
