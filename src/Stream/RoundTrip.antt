-- ===== src/Stream/RoundTrip.antt =====
-- Writer and reader together: one writer's file under a reader, and two writers with one input.
use codex_vault.Prelude.{
  [], ℕ, suc, true, ◌<◌, ◌≡◌, ◌∙◌, sym, ap, some, List, ◌∷◌, ◌++◌, ok, length, concat,
}
use mathlib.Core.Path.{subst}
use codex_vault.Prelude.Bytes.{Bytes}
use codex_vault.Device.{Sink, IsSink, Source, IsSource, IsReliable}
use codex_vault.Stream.Format.{Aead, IsAead, magic}
use codex_vault.Stream.Frame.{Context, Frame, Sealed}
use codex_vault.Stream.Frame.Laws.{Chunked-unique}
use codex_vault.Stream.Writer
use codex_vault.Stream.Writer.{VaultWriter, write_each, finish}
use codex_vault.Stream.Writer.Image.{Image, file_context, finish-Image}
use codex_vault.Stream.Reader
use codex_vault.Stream.Reader.{VaultReader, drain}
use codex_vault.Stream.Content.{Contains, Contains-drain, Image-Contains}

-- A frame is determined by what it seals.
Frame-unique :
    (c : Aead) (k : Context) (t n : ℕ) (p a b : Bytes)
    → Frame c k t n p a
    → Frame c k t n p b
    → a ≡ b
Frame-unique c k t n p a b (h1, c1, _, s1, e1) (h2, c2, _, s2, e2) = cc

Sealed-unique :
    (c : Aead) (k : Context) (n : ℕ) (ps : List Bytes) (a b : Bytes)
    → Sealed c k n ps a
    → Sealed c k n ps b
    → a ≡ b
Sealed-unique c k n [] a b f g = Frame-unique c k 1 n [] a b f g
Sealed-unique c k n (p ∷ ps) a b (f1, b1, s1, m1, e1) (f2, b2, s2, m2, e2) =
    cc (Frame-unique c k 0 n p f1 f2 s1 s2, Sealed-unique c k (suc n) ps b1 b2 m1 m2)

module _ (c : Aead) (s : Sink) (is : IsSink s) where
  -- Two writers over one destination with one seed and key, each of which succeeds, leave the
  -- same bytes if their inputs are the same when joined, whatever the single writes are.
  pub finish-concat :
      (seed key : Bytes) (xs ys : List Bytes) (t : s.State) (w : VaultWriter s) (u v : s.State)
      → (Writer.new c s (some seed) key t).0 ≡ ok w
      → concat xs ≡ concat ys
      → (write_each c s xs w).0 ≡ ok tt
      → (write_each c s ys w).0 ≡ ok tt
      → (finish c s (write_each c s xs w).1).0 ≡ ok u
      → (finish c s (write_each c s ys w).1).0 ≡ ok v
      → is.written u ≡ is.written v
  finish-concat seed key xs ys t w u v e joined ex ey fx fy =
      let a = finish-Image c s is seed key xs t w u e ex fx in
      let b = finish-Image c s is seed key ys t w v e ey fy in
      let same : a.chunks ≡ b.chunks =
        Chunked-unique a.chunks b.chunks a.chunked b.chunked
          (a.input_eq ∙ joined ∙ sym b.input_eq) in
      let k : Context = file_context key seed in
      let streams : a.stream ≡ b.stream =
        Sealed-unique c k 0 b.chunks a.stream b.stream
          (subst (λ ps. Sealed c k 0 ps a.stream) same a.sealed) b.sealed in
      a.written_eq ∙ ap (λ z. (is.written t ++ (magic ++ seed)) ++ z) streams ∙ sym b.written_eq

module _ (c : Aead) (ic : IsAead c) (s : Sink) (is : IsSink s) (d : Source) (id : IsSource d)
    (ir : IsReliable d id) where
  -- A writer on an empty destination that succeeds, and a reader with the same key on a source
  -- that holds what was written and does not fail: the reader is created, and reading with any
  -- buffer and enough fuel for the content ends, gives the joined input, and has seen the final
  -- frame.
  pub drain-finish :
      (seed key : Bytes) (inputs : List Bytes) (t : s.State) (w : VaultWriter s) (u : s.State)
      (n fuel : ℕ) (q : d.State)
      → length seed ≡ 12
      → length key ≡ 32
      → is.written t ≡ []
      → (Writer.new c s (some seed) key t).0 ≡ ok w
      → (write_each c s inputs w).0 ≡ ok tt
      → (finish c s (write_each c s inputs w).1).0 ≡ ok u
      → id.rest q ≡ is.written u
      → 0 < n
      → length (concat inputs) < fuel
      → (r : VaultReader d) × (r' : VaultReader d) × ((Reader.new d key q).0 ≡ ok r)
        × (drain c d n fuel r ≡ some (ok (concat inputs), r'))
        × (r'.finalized ≡ true)
  drain-finish seed key inputs t w u n fuel q l12 l32 empty_ e1 e2 e3 same pos enough =
      let image = finish-Image c s is seed key inputs t w u e1 e2 e3 in
      let content = Image-Contains c s is seed key (concat inputs) u l12 (
        subst (λ b. Image c s is (file_context key seed) (b ++ (magic ++ seed)) (concat inputs) u)
          empty_ image) in
      Contains-drain c ic d id ir key q n fuel (concat inputs) l32 pos enough
        (subst (Contains c key (concat inputs)) (sym same) content)
