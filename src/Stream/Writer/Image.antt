-- ===== src/Stream/Writer/Image.antt =====
-- What a writer that succeeded has left on its destination: the file header, the data frames of
-- the input cut into chunks, and the final frame.
use codex_vault.Prelude.{
  [], ◌+◌, ◌<◌, ◌≤◌, ◌≡◌, refl, ◌∙◌, sym, ap, true, false, some, List, ◌∷◌, ◌++◌, append-nil,
  append_assoc, ok, bind, bind-eq-ok, inl, inr, arith, length, length-append, concat, All,
  Bool-cases,
}
use codex_vault.Prelude.Bytes.{Bytes, u32_max}
use codex_vault.Device.{Sink, IsSink}
use codex_vault.Stream.Format.{Aead, chunk_size, data_frame, final_frame, magic}
use codex_vault.Stream.Frame.{Context, Frames, Sealed}
use codex_vault.Stream.Frame.Laws.{Chunked, Frames-snoc, Frames-Sealed}
use codex_vault.Stream.Writer.{
  VaultWriter, is_empty, new, write_frame, flush_pending, take_inner, on_inner, finish, write_each,
}
use codex_vault.Stream.Writer.Step.{Advanced, write_frame_ok}
use codex_vault.Stream.Writer.Holds.{Holds, IsFull, Frame-at, concat-snoc}
use codex_vault.Stream.Writer.Input.{write_each-Holds}

Full-Chunked : (ps : List Bytes) → All IsFull ps → Chunked ps
Full-Chunked [] h = tt
Full-Chunked (p ∷ ps) (hp, h) = (omega arith, omega arith, inr hp, Full-Chunked ps h)

Full-Chunked_snoc :
    (ps : List Bytes) (p : Bytes)
    → All IsFull ps
    → 0 < length p
    → length p ≤ chunk_size
    → Chunked (ps ++ (p ∷ []))
Full-Chunked_snoc [] p h lo hi = (lo, hi, inl refl, tt)
Full-Chunked_snoc (q ∷ ps) p (hq, h) lo hi =
    (omega arith, omega arith, inr hq, Full-Chunked_snoc ps p h lo hi)

pos_of_not_empty : (xs : Bytes) → is_empty xs ≡ false → 0 < length xs
pos_of_not_empty [] h = cc
pos_of_not_empty (x ∷ xs) h = omega arith

nil_of_empty : (xs : Bytes) → is_empty xs ≡ true → xs ≡ []
nil_of_empty [] h = refl
nil_of_empty (x ∷ xs) h = cc

module _ (c : Aead) (s : Sink) (is : IsSink s) (k : Context) (base : Bytes) where
  -- Nothing is pending: all of the input is sealed.
  record Flushed (input : Bytes) (w : VaultWriter s) : Type 0 where
    sink : s.State
    chunks : List Bytes
    frames : Bytes
    inner_eq : w.inner ≡ some sink
    context_eq : w.context ≡ k
    written_eq : is.written sink ≡ base ++ frames
    frames_ok : Frames c k 0 chunks frames
    chunked : Chunked chunks
    sequence_eq : w.sequence ≡ length chunks
    sequence_le : w.sequence ≤ u32_max
    input_eq : concat chunks ≡ input

  nothing-Flushed :
      (input : Bytes) (w : VaultWriter s)
      → w.pending ≡ []
      → Holds c s is k base input w
      → Flushed input w
  nothing-Flushed input w e h = record {
    sink = h.sink;
    chunks = h.chunks;
    frames = h.frames;
    inner_eq = h.inner_eq;
    context_eq = h.context_eq;
    written_eq = h.written_eq;
    frames_ok = h.frames_ok;
    chunked = Full-Chunked h.chunks h.full;
    sequence_eq = h.sequence_eq;
    sequence_le = h.sequence_le;
    input_eq = sym (append-nil (concat h.chunks)) ∙ rw e at h.input_eq;
  }

  last-Flushed :
      (input : Bytes) (w w' : VaultWriter s) (h : Holds c s is k base input w)
      → 0 < length w.pending
      → Advanced c s is data_frame w.pending (record w { pending = [] }) w' h.sink
      → Flushed input w'
  last-Flushed input w w' h pos a = record {
    sink = a.sink';
    chunks = h.chunks ++ (w.pending ∷ []);
    frames = h.frames ++ a.frame;
    inner_eq = a.inner_eq;
    context_eq = a.context_eq ∙ h.context_eq;
    written_eq =
        a.written_eq ∙ ap (λ b. b ++ a.frame) h.written_eq ∙ append_assoc base h.frames a.frame;
    frames_ok = Frames-snoc c k 0 h.chunks h.frames w.pending a.frame h.frames_ok (
        Frame-at c data_frame w.context k w.sequence (0 + length h.chunks) w.pending a.frame
          h.context_eq (omega (arith, h.sequence_eq)) a.frame_ok);
    chunked = Full-Chunked_snoc h.chunks w.pending h.full pos (omega (arith, h.pending_lt));
    sequence_eq =
        omega (arith, length-append h.chunks (w.pending ∷ []), a.sequence_eq, h.sequence_eq);
    sequence_le = omega (arith, a.frame_ok.2, a.sequence_eq);
    input_eq = concat-snoc h.chunks w.pending ∙ h.input_eq;
  }

  flush_pending-Flushed :
      (input : Bytes) (w : VaultWriter s)
      → Holds c s is k base input w
      → (flush_pending c s w).0 ≡ ok tt
      → Flushed input (flush_pending c s w).1
  unfolding flush_pending
  flush_pending-Flushed input w h r = elim (Bool-cases (is_empty w.pending)) [
    | inl empty ↦ rw empty (nothing-Flushed input w (nil_of_empty w.pending empty) h)
    | inr more ↦ rw more (
        last-Flushed input w _ h (pos_of_not_empty w.pending more) (
          write_frame_ok c s is data_frame w.pending (record w { pending = [] }) h.sink h.inner_eq
            h.sequence_le (rw more at r)))
  ]

  -- The final frame closes the stream, and the destination is handed back.
  pub record Image (input : Bytes) (t : s.State) : Type 0 where
    pub chunks : List Bytes
    pub stream : Bytes
    pub sealed : Sealed c k 0 chunks stream
    pub chunked : Chunked chunks
    pub written_eq : is.written t ≡ base ++ stream
    pub input_eq : concat chunks ≡ input

  take_flushed :
      (w : VaultWriter s) (t u : s.State)
      → w.inner ≡ some t
      → (bind (on_inner c s s.flush) (λ _. take_inner c s) w).0 ≡ ok u
      → is.written u ≡ is.written t
  unfolding on_inner take_inner
  take_flushed w t u e r = ground (arith, is.flush_ok t)

  closed-Image :
      (input : Bytes) (w : VaultWriter s) (u : s.State)
      → Holds c s is k base input w
      → (finish c s w).0 ≡ ok u
      → Image input u
  unfolding finish
  closed-Image input w u h r =
      let (_, e1, same1) = bind-eq-ok (flush_pending c s) _ w r in
      let f = flush_pending-Flushed input w h e1 in
      let w1 : VaultWriter s = (flush_pending c s w).1 in
      let r1 = rw same1 at r in
      let (_, e2, same2) = bind-eq-ok (write_frame c s final_frame []) _ w1 r1 in
      let a = write_frame_ok c s is final_frame [] w1 f.sink f.inner_eq f.sequence_le e2 in
      let w2 : VaultWriter s = (write_frame c s final_frame [] w1).1 in
      record {
        chunks = f.chunks;
        stream = f.frames ++ a.frame;
        sealed = Frames-Sealed c k 0 f.chunks f.frames a.frame f.frames_ok (
            Frame-at c final_frame w1.context k w1.sequence (0 + length f.chunks) [] a.frame
              f.context_eq (omega (arith, f.sequence_eq)) a.frame_ok);
        chunked = f.chunked;
        written_eq =
            take_flushed w2 a.sink' u a.inner_eq (rw same2 at r1)
            ∙ a.written_eq
            ∙ ap (λ b. b ++ a.frame) f.written_eq
            ∙ append_assoc base f.frames a.frame;
        input_eq = f.input_eq;
      }

  start-Holds :
      (w : VaultWriter s) (t : s.State)
      → w.inner ≡ some t
      → w.context ≡ k
      → is.written t ≡ base
      → w.pending ≡ []
      → w.sequence ≡ 0
      → w.finished ≡ false
      → Holds c s is k base [] w
  start-Holds w t i e b p n f = record {
    sink = t;
    chunks = [];
    frames = [];
    inner_eq = i;
    context_eq = e;
    written_eq = b ∙ sym (append-nil base);
    frames_ok = refl;
    full = tt;
    sequence_eq = n;
    sequence_le = omega arith;
    input_eq = unfold concat in p;
    pending_lt = rw p (omega arith);
    finished_eq = f;
  }

-- The context of a file: the key, the header that `new` writes, and its seed.
abbrev pub file_context : Bytes → Bytes → Context
file_context key seed = record { cipher = key; file_header = magic ++ seed; nonce_seed = seed }

module _ (c : Aead) (s : Sink) (is : IsSink s) where
  new-Holds :
      (seed key : Bytes) (t : s.State) (w : VaultWriter s)
      → (new c s (some seed) key t).0 ≡ ok w
      → Holds c s is (file_context key seed) (is.written t ++ (magic ++ seed)) [] w
  unfolding new
  new-Holds seed key t w e =
      let t' : s.State = (s.write_all (magic ++ seed) t).1 in
      start-Holds c s is _ _ w t' (ground arith) (ground arith)
        (ground (arith, is.write_all_ok (magic ++ seed) t)) (ground arith) (ground arith)
        (ground arith)

  -- A writer that is created, given inputs and finished, each with success, leaves behind what
  -- was there the file header and the sealed stream of all the inputs, cut into chunks that are
  -- full but for the last.
  pub finish-Image :
      (seed key : Bytes) (inputs : List Bytes) (t : s.State) (w : VaultWriter s) (u : s.State)
      → (new c s (some seed) key t).0 ≡ ok w
      → (write_each c s inputs w).0 ≡ ok tt
      → (finish c s (write_each c s inputs w).1).0 ≡ ok u
      → Image c s is (file_context key seed) (is.written t ++ (magic ++ seed)) (concat inputs) u
  finish-Image seed key inputs t w u e1 e2 e3 =
      let k : Context = file_context key seed in
      let base : Bytes = is.written t ++ (magic ++ seed) in
      closed-Image c s is k base (concat inputs) (write_each c s inputs w).1 u
        (write_each-Holds c s is k base [] inputs w (new-Holds seed key t w e1) e2) e3
