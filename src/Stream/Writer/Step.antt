-- ===== src/Stream/Writer/Step.antt =====
-- One frame: what a successful `write_frame` puts on the destination, and what it leaves alone.
use codex_vault.Prelude.{
  ℕ, ◌+◌, ◌≤◌, ◌≡◌, refl, some, ◌++◌, append_assoc, ok, Result-cases, inl, inr, arith,
}
use codex_vault.Prelude.Bytes.{Bytes, u32_max}
use codex_vault.Device.{Sink, IsSink}
use codex_vault.Stream.Format.{Aead}
use codex_vault.Stream.Frame.{Frame, seal}
use codex_vault.Stream.Writer.{VaultWriter, write_frame}

module _ (c : Aead) (s : Sink) (is : IsSink s) where
  -- The writer after one more frame; `sink` was its destination before.
  pub record Advanced (t : ℕ) (p : Bytes) (w w' : VaultWriter s) (sink : s.State) : Type 0 where
    pub sink' : s.State
    pub frame : Bytes
    pub frame_ok : Frame c w.context t w.sequence p frame
    pub inner_eq : w'.inner ≡ some sink'
    pub written_eq : is.written sink' ≡ is.written sink ++ frame
    pub context_eq : w'.context ≡ w.context
    pub sequence_eq : w'.sequence ≡ w.sequence + 1
    pub pending_eq : w'.pending ≡ w.pending
    pub finished_eq : w'.finished ≡ w.finished

  pub write_frame_ok :
      (t : ℕ) (p : Bytes) (w : VaultWriter s) (sink : s.State)
      → w.inner ≡ some sink
      → w.sequence ≤ u32_max
      → (write_frame c s t p w).0 ≡ ok tt
      → Advanced t p w (write_frame c s t p w).1 sink
  unfolding write_frame
  write_frame_ok t p w sink i l e = elim (Result-cases (seal c w.context t w.sequence p)) [
    | inl ((header, ciphertext), es) ↦
        let a : s.State = (s.write_all header sink).1 in
        let b : s.State = (s.write_all ciphertext a).1 in
        record {
          sink' = b;
          frame = header ++ ciphertext;
          frame_ok = (header, ciphertext, ground arith, es, refl);
          inner_eq = ground arith;
          written_eq = ground (
            arith,
            is.write_all_ok header sink,
            is.write_all_ok ciphertext a,
            append_assoc (is.written sink) header ciphertext,
          );
          context_eq = ground arith;
          sequence_eq = ground arith;
          pending_eq = ground arith;
          finished_eq = ground arith;
        }
    | inr (x, es) ↦ absurd (ground arith)
  ]
