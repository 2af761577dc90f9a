-- ===== src/Tests/Unpacking.antt =====
-- The archive in memory, and what is documented of one.
use codex_vault.Prelude.{
  List, [], ◌∷◌, concat, ap, sym, refl, ◌≡◌, ◌≢◌, ◌⊎◌, inl, inr, ok, err, ℕ, ◌∙◌, true,
}
use mathlib.Core.List.{map}
use codex_vault.Prelude.Bytes.{Bytes}
use codex_vault.Error.{os, ErrorKind, IoResult, IoError}
use codex_vault.Archive.{Move, EntryType, regular, change, want, entry, unpacked}
use codex_vault.Archive.Unpacking.{
  IsBuilt, Unpacks, Fails, at_failed, ends, reads, unpacks, skips, lies_inside, changes,
}
use codex_vault.Tests.Disk.{Disk, disk_files}
use codex_vault.Tests.Host.{
  Stage, reading, at_file, changing, inside, at_link, escaping, finished, broken, next_move, tar,
}

pub reads_on : (a b : Stage) (g : Disk → Disk) (d : Disk) → next_move a ≡ change g b → g d ≡ d
unfolding next_move
reads_on changing b g d e = let same : (λ d. d) ≡ g = cc in ap (λ k. k d) (sym same)
reads_on reading b g d e = absurd cc
reads_on at_file b g d e = absurd cc
reads_on inside b g d e = absurd cc
reads_on at_link b g d e = absurd cc
reads_on escaping b g d e = absurd cc
reads_on finished b g d e = absurd cc
reads_on broken b g d e = absurd cc

of_want : Move Stage Disk → IoResult Bytes → Stage
of_want (want n go) r = go r
of_want _ r = broken

pub want-Fails :
    (a : Stage) (n : ℕ) (go : IoResult Bytes → Stage) (e : IoError)
    → next_move a ≡ want n go
    → Fails disk_files tar (go (err e))
unfolding next_move of_want
want-Fails reading n go e m =
    let same : go (err e) ≡ broken = ap (λ k. of_want k (err e)) (sym m) in
    rw same (at_failed broken (os ErrorKind.uncategorized "unexpected end of archive") refl)
want-Fails at_file n go e m = absurd cc
want-Fails changing n go e m = absurd cc
want-Fails inside n go e m = absurd cc
want-Fails at_link n go e m = absurd cc
want-Fails escaping n go e m = absurd cc
want-Fails finished n go e m = absurd cc
want-Fails broken n go e m = absurd cc

-- The entries that the archive has from a stage on.
unfoldable after : Stage → List Stage
after reading = at_file ∷ (at_link ∷ [])
after at_file = at_file ∷ (at_link ∷ [])
after changing = at_link ∷ []
after inside = at_link ∷ []
after at_link = at_link ∷ []
after _ = []

ends_after : (a : Stage) → next_move a ≡ Move.end → after a ≡ []
unfolding after next_move of_want
ends_after reading e = absurd cc
ends_after at_file e = absurd cc
ends_after changing e = absurd cc
ends_after inside e = absurd cc
ends_after at_link e = absurd cc
ends_after escaping e = absurd cc
ends_after finished e = refl
ends_after broken e = absurd cc

reads_after :
    (a : Stage) (n : ℕ) (go : IoResult Bytes → Stage) (bytes : Bytes)
    → next_move a ≡ want n go
    → after a ≡ after (go (ok bytes))
unfolding after next_move of_want
reads_after reading n go bytes e = ap (λ m. after (of_want m (ok bytes))) e
reads_after at_file n go bytes e = absurd cc
reads_after changing n go bytes e = absurd cc
reads_after inside n go bytes e = absurd cc
reads_after at_link n go bytes e = absurd cc
reads_after escaping n go bytes e = absurd cc
reads_after finished n go bytes e = absurd cc
reads_after broken n go bytes e = absurd cc

unpacks_after :
    (a skip unpack : Stage) (t : EntryType)
    → next_move a ≡ entry (ok t) skip unpack
    → (t ≡ regular) ⊎ (t ≡ EntryType.directory)
    → after a ≡ a ∷ after unpack
unfolding after next_move of_want
unpacks_after reading skip unpack t e o = absurd cc
unpacks_after at_file skip unpack t e o = let same : changing ≡ unpack = cc in rw (sym same) refl
unpacks_after changing skip unpack t e o = absurd cc
unpacks_after inside skip unpack t e o = absurd cc
unpacks_after at_link skip unpack t e o = elim o [ inl f ↦ absurd cc | inr f ↦ absurd cc ]
unpacks_after escaping skip unpack t e o = absurd cc
unpacks_after finished skip unpack t e o = absurd cc
unpacks_after broken skip unpack t e o = absurd cc

skips_after :
    (a skip unpack : Stage) (t : EntryType)
    → next_move a ≡ entry (ok t) skip unpack
    → (t ≢ regular) × (t ≢ EntryType.directory)
    → after a ≡ a ∷ after skip
unfolding after next_move of_want
skips_after reading skip unpack t e o = absurd cc
skips_after at_file skip unpack t e o = let same : regular ≡ t = cc in absurd (o.0 (sym same))
skips_after changing skip unpack t e o = absurd cc
skips_after inside skip unpack t e o = absurd cc
skips_after at_link skip unpack t e o = let same : finished ≡ skip = cc in rw (sym same) refl
skips_after escaping skip unpack t e o = absurd cc
skips_after finished skip unpack t e o = absurd cc
skips_after broken skip unpack t e o = absurd cc

inside_after : (a b : Stage) → next_move a ≡ unpacked (ok true) b → after a ≡ after b
unfolding after next_move of_want
inside_after reading b e = absurd cc
inside_after at_file b e = absurd cc
inside_after changing b e = absurd cc
inside_after inside b e = let same : at_link ≡ b = cc in rw (sym same) refl
inside_after at_link b e = absurd cc
inside_after escaping b e = absurd cc
inside_after finished b e = absurd cc
inside_after broken b e = absurd cc

changes_after : (a b : Stage) (g : Disk → Disk) → next_move a ≡ change g b → after a ≡ after b
unfolding after next_move of_want
changes_after reading b g e = absurd cc
changes_after at_file b g e = absurd cc
changes_after changing b g e = let same : inside ≡ b = cc in rw (sym same) refl
changes_after inside b g e = absurd cc
changes_after at_link b g e = absurd cc
changes_after escaping b g e = absurd cc
changes_after finished b g e = absurd cc
changes_after broken b g e = absurd cc

after-Unpacks :
    (a : Stage) (content left : Bytes) (seen : List Stage)
    → Unpacks disk_files tar a content left seen
    → seen ≡ after a
after-Unpacks _ _ _ _ (ends a left e) = sym (ends_after a e)
after-Unpacks _ _ _ _ (reads a n go bytes content left seen e u) =
    after-Unpacks (go (ok bytes)) content left seen u ∙ sym (reads_after a n go bytes e)
after-Unpacks _ _ _ _ (unpacks a skip unpack t content left seen e o u) =
    ap (λ l. a ∷ l) (after-Unpacks unpack content left seen u)
    ∙ sym (unpacks_after a skip unpack t e o)
after-Unpacks _ _ _ _ (skips a skip unpack t content left seen e o u) =
    ap (λ l. a ∷ l) (after-Unpacks skip content left seen u) ∙ sym (skips_after a skip unpack t e o)
after-Unpacks _ _ _ _ (lies_inside a b content left seen e u) =
    after-Unpacks b content left seen u ∙ sym (inside_after a b e)
after-Unpacks _ _ _ _ (changes a b g content left seen e u) =
    after-Unpacks b content left seen u ∙ sym (changes_after a b g e)

-- The item of an entry is its stage.
pub disk_tar-IsBuilt : IsBuilt disk_files tar
unfolding after
disk_tar-IsBuilt = record {
  Item = Stage;
  item = λ a. a;
  listing = λ source s. at_file ∷ (at_link ∷ []);
  reads_back = λ source destination s pieces left seen e u.
      ap (map (λ a. a)) (after-Unpacks reading (concat pieces) left seen u);
}
