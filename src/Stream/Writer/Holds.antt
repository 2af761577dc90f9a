-- ===== src/Stream/Writer/Holds.antt =====
-- The writer's invariant: what is on the destination are whole chunks, sealed as data frames, and
-- these with what is pending are the input so far. Every successful `write` keeps it.
use codex_vault.Prelude.{
  [], ℕ, ◌+◌, ◌<◌, ◌≤◌, ◌≡◌, ◌∙◌, sym, ap, some, false, List, ◌∷◌, ◌++◌, append-nil, append_assoc,
  arith, length, length-append, concat, All,
}
use mathlib.Core.Path.{subst₂}
use codex_vault.Prelude.Bytes.{Bytes, u32_max}
use codex_vault.Device.{Sink, IsSink}
use codex_vault.Stream.Format.{Aead, chunk_size, data_frame}
use codex_vault.Stream.Frame.{Context, Frame, Frames}
use codex_vault.Stream.Frame.Laws.{Frames-snoc}
use codex_vault.Stream.Writer.{VaultWriter}
use codex_vault.Stream.Writer.Step.{Advanced}

abbrev pub IsFull : Bytes → Type 0
IsFull p = length p ≡ chunk_size

All-snoc : (ps : List Bytes) (p : Bytes) → All IsFull ps → IsFull p → All IsFull (ps ++ (p ∷ []))
All-snoc [] p h hp = (hp, tt)
All-snoc (q ∷ ps) p (hq, h) hp = (hq, All-snoc ps p h hp)

pub concat-snoc : (ps : List Bytes) (p : Bytes) → concat (ps ++ (p ∷ [])) ≡ concat ps ++ p
unfolding concat
concat-snoc [] p = append-nil p
concat-snoc (q ∷ ps) p = rw (concat-snoc ps p) (sym (append_assoc q (concat ps) p))

pub Frame-at :
    (c : Aead) (t : ℕ) (k l : Context) (n m : ℕ) (p frame : Bytes)
    → k ≡ l
    → n ≡ m
    → Frame c k t n p frame
    → Frame c l t m p frame
Frame-at c t k l n m p frame e f h = subst₂ (λ a b. Frame c a t b p frame) e f h

module _ (c : Aead) (s : Sink) (is : IsSink s) (k : Context) (base : Bytes) where
  -- `input` is what was written so far.
  pub record Holds (input : Bytes) (w : VaultWriter s) : Type 0 where
    pub sink : s.State
    pub chunks : List Bytes
    pub frames : Bytes
    pub inner_eq : w.inner ≡ some sink
    pub context_eq : w.context ≡ k
    pub written_eq : is.written sink ≡ base ++ frames
    pub frames_ok : Frames c k 0 chunks frames
    pub full : All IsFull chunks
    pub sequence_eq : w.sequence ≡ length chunks
    pub sequence_le : w.sequence ≤ u32_max
    pub input_eq : concat chunks ++ w.pending ≡ input
    pub pending_lt : length w.pending < chunk_size
    pub finished_eq : w.finished ≡ false

  -- Without what is pending, the input is the sealed chunks.
  pub cleared-Holds :
      (input : Bytes) (w : VaultWriter s) (h : Holds input w)
      → Holds (concat h.chunks) (record w { pending = [] })
  cleared-Holds input w h = record {
    sink = h.sink;
    chunks = h.chunks;
    frames = h.frames;
    inner_eq = h.inner_eq;
    context_eq = h.context_eq;
    written_eq = h.written_eq;
    frames_ok = h.frames_ok;
    full = h.full;
    sequence_eq = h.sequence_eq;
    sequence_le = h.sequence_le;
    input_eq = append-nil (concat h.chunks);
    pending_lt = omega arith;
    finished_eq = h.finished_eq;
  }

  -- A whole chunk becomes a frame.
  pub chunk-Holds :
      (input p : Bytes) (w w' : VaultWriter s) (h : Holds input w)
      → w.pending ≡ []
      → length p ≡ chunk_size
      → Advanced c s is data_frame p w w' h.sink
      → Holds (input ++ p) w'
  chunk-Holds input p w w' h none len a = record {
    sink = a.sink';
    chunks = h.chunks ++ (p ∷ []);
    frames = h.frames ++ a.frame;
    inner_eq = a.inner_eq;
    context_eq = a.context_eq ∙ h.context_eq;
    written_eq =
        a.written_eq ∙ ap (λ b. b ++ a.frame) h.written_eq ∙ append_assoc base h.frames a.frame;
    frames_ok = Frames-snoc c k 0 h.chunks h.frames p a.frame h.frames_ok (
        Frame-at c data_frame w.context k w.sequence (0 + length h.chunks) p a.frame h.context_eq
          (omega (arith, h.sequence_eq)) a.frame_ok);
    full = All-snoc h.chunks p h.full len;
    sequence_eq = omega (arith, length-append h.chunks (p ∷ []), a.sequence_eq, h.sequence_eq);
    sequence_le = omega (arith, a.frame_ok.2, a.sequence_eq);
    input_eq =
        rw (a.pending_eq, none, append-nil, concat-snoc h.chunks p) (ap (λ b. b ++ p) consumed);
    pending_lt = rw (a.pending_eq, none) (omega arith);
    finished_eq = a.finished_eq ∙ h.finished_eq;
  }
    where
      consumed : concat h.chunks ≡ input
      consumed = sym (append-nil (concat h.chunks)) ∙ rw none at h.input_eq

  -- More input that stays pending.
  pub pending-Holds :
      (input x : Bytes) (w : VaultWriter s)
      → Holds input w
      → length w.pending + length x < chunk_size
      → Holds (input ++ x) (record w { pending = w.pending ++ x })
  pending-Holds input x w h fits = record {
    sink = h.sink;
    chunks = h.chunks;
    frames = h.frames;
    inner_eq = h.inner_eq;
    context_eq = h.context_eq;
    written_eq = h.written_eq;
    frames_ok = h.frames_ok;
    full = h.full;
    sequence_eq = h.sequence_eq;
    sequence_le = h.sequence_le;
    input_eq = sym (append_assoc (concat h.chunks) w.pending x) ∙ ap (λ b. b ++ x) h.input_eq;
    pending_lt = omega (arith, length-append w.pending x);
    finished_eq = h.finished_eq;
  }
