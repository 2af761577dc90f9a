-- ===== src/Stream/Writer/Inner.antt =====
-- What the writer's methods leave of the state of its destination.
use codex_vault.Prelude.{
  Option-cases, ◌∙◌, some, err, arith, Bool-cases, Result-cases, inl, inr, ok, lift, bind,
  with_error, take, drop, min, ◌++◌, ◌-◌, ◌==◌, length, if◌then◌else◌, [], Result, ◌≡◌, refl,
  Option, Keeps-bind, Keeps-lift, Keeps-with_error, ℕ, zero, suc, Bool, true, false, none, List,
  ◌∷◌, leb, Action, Keeps,
}
use codex_vault.Prelude.Bytes.{Bytes}
use codex_vault.Error.{IoError, VaultError, other_printed}
use codex_vault.Device.{Sink}
use codex_vault.Stream.Format.{Aead, chunk_size, data_frame, final_frame}
use codex_vault.Stream.Frame.{seal}
use codex_vault.Stream.Writer.{
  VaultWriter, is_empty, write_frame, on_inner, fill_pending, write_chunks, write, flush_pending,
  take_inner, finish, write_each,
}

module _ {ν} {V : Type ν} (c : Aead) (s : Sink) (view : s.State → V)
    (writes : (bytes : Bytes) → Keeps view (s.write_all bytes)) (flushes : Keeps view s.flush) where
  abbrev pub shown : VaultWriter s → Option V
  shown w = elim w.inner [ none ↦ none | some u ↦ some (view u) ]

  on_inner-Keeps :
      {A : Type 0} (m : Action s.State IoError A) → Keeps view m → Keeps shown (on_inner c s m)
  unfolding on_inner
  on_inner-Keeps m h = record {
    keeps = λ w. elim (Option-cases w.inner) [
      | inl e ↦ ground arith
      | inr (u, e) ↦ let k = h.keeps u in ground arith
    ];
  }

  either-Keeps {κ ι} :
      {E : Type κ} {A : Type ι} (b : Bool) (x y : Result E A × VaultWriter s) (w : VaultWriter s)
      → shown x.1 ≡ shown w
      → shown y.1 ≡ shown w
      → shown (if b then x else y).1 ≡ shown w
  either-Keeps true x y w hx hy = hx
  either-Keeps false x y w hx hy = hy

  write_frame-Keeps : (t : ℕ) (plaintext : Bytes) → Keeps shown (write_frame c s t plaintext)
  unfolding write_frame
  write_frame-Keeps t plaintext = record {
    keeps = λ w. either-Keeps _ _ _ w refl (
        (Keeps-bind {m = lift (seal c w.context t w.sequence plaintext)} Keeps-lift
            (λ (header, ciphertext).
              Keeps-bind (on_inner-Keeps (s.write_all header) (writes header)) (λ _.
                Keeps-bind (on_inner-Keeps (s.write_all ciphertext) (writes ciphertext))
                  (λ _. record { keeps = λ v. refl })))).keeps
          w);
  }

  fill_pending-Keeps : (input : Bytes) → Keeps shown (fill_pending c s input)
  unfolding fill_pending
  fill_pending-Keeps input = record {
    keeps = λ w.
        let n = min (chunk_size - length w.pending) (length input) in
        let pending = w.pending ++ take n input in
        let filled =
          bind (with_error other_printed (write_frame c s data_frame pending))
            (λ _. lift (ok (drop n input))) (record w { pending = [] }) in
        let k = (write_frame-Keeps data_frame pending).keeps (record w { pending = [] }) in
        let kept : shown filled.1 ≡ shown w =
          elim (Result-cases (write_frame c s data_frame pending (record w { pending = [] })).0) [
            | inl (_, e) ↦ rw e k
            | inr (x, e) ↦ rw e k
          ] in
        let partial : Result IoError Bytes × VaultWriter s =
          (ok (drop n input), record w { pending = pending }) in
        let first : Result IoError Bytes × VaultWriter s = (ok input, w) in
        either-Keeps (is_empty w.pending) first
          (if length pending == chunk_size then filled else partial) w refl
          (either-Keeps (length pending == chunk_size) filled partial w kept refl);
  }

  write_chunks-Keeps : (fuel : ℕ) (input : Bytes) → Keeps shown (write_chunks c s fuel input)
  unfolding write_chunks
  write_chunks-Keeps zero input = record { keeps = λ w. refl }
  write_chunks-Keeps (suc fuel) input =
      let chunk : Keeps shown (
          bind (with_error other_printed (write_frame c s data_frame (take chunk_size input)))
            (λ _. write_chunks c s fuel (drop chunk_size input))) =
        Keeps-bind
          (Keeps-with_error other_printed (write_frame-Keeps data_frame (take chunk_size input)))
          (λ _. write_chunks-Keeps fuel (drop chunk_size input)) in
      record {
        keeps = λ w.
            let whole = chunk.keeps w in
            elim (Bool-cases (leb chunk_size (length input))) [
              | inl e ↦ rw (shown, e) whole
              | inr e ↦ rw (shown, e) refl
            ];
      }

  write-Keeps : (input : Bytes) → Keeps shown (write c s input)
  unfolding write
  write-Keeps input =
      let rest : Keeps shown (
          bind (fill_pending c s input) (λ rest.
            bind (write_chunks c s (length rest) rest)
              (λ tail w'. (ok (length input), record w' { pending = w'.pending ++ tail })))) =
        Keeps-bind (fill_pending-Keeps input) (λ rest.
          Keeps-bind (write_chunks-Keeps (length rest) rest)
            (λ tail. record { keeps = λ v. refl })) in
      record { keeps = λ w. either-Keeps w.finished _ _ w refl (rest.keeps w) }

  pub write_each-Keeps : (inputs : List Bytes) → Keeps shown (write_each c s inputs)
  unfolding write_each
  write_each-Keeps [] = record { keeps = λ w. refl }
  write_each-Keeps (input ∷ inputs) = Keeps-bind (write-Keeps input) (λ _. write_each-Keeps inputs)

  flush_pending-Keeps : Keeps shown (flush_pending c s)
  unfolding flush_pending
  flush_pending-Keeps = record {
    keeps = λ w.
        either-Keeps (is_empty w.pending) _ _ w refl
          ((write_frame-Keeps data_frame w.pending).keeps (record w { pending = [] }));
  }

  -- The destination that `finish` hands back, or leaves in the writer.
  pub finish-shown :
      (w : VaultWriter s) (v : V)
      → shown w ≡ some v
      → let (r, w') = finish c s w in
        ((u : s.State) → r ≡ ok u → view u ≡ v)
        × ((x : VaultError) → r ≡ err x → (u : s.State) → w'.inner ≡ some u → view u ≡ v)
  unfolding finish take_inner
  finish-shown w v e =
      let a = (flush_pending c s w).1 in
      let b = (write_frame c s final_frame [] a).1 in
      let d = (on_inner c s s.flush b).1 in
      let ka : shown a ≡ some v = flush_pending-Keeps.keeps w ∙ e in
      let kb : shown b ≡ some v = (write_frame-Keeps final_frame []).keeps a ∙ ka in
      let kd : shown d ≡ some v = (on_inner-Keeps s.flush flushes).keeps b ∙ kb in
      elim (Result-cases (flush_pending c s w).0) [
        | inr (x, ea) ↦ ((λ u eu. absurd (ground arith)), λ y ey u eu. ground arith)
        | inl (_, ea) ↦ elim (Result-cases (write_frame c s final_frame [] a).0) [
          | inr (x, eb) ↦ ((λ u eu. absurd (ground arith)), λ y ey u eu. ground arith)
          | inl (_, eb) ↦ elim (Result-cases (on_inner c s s.flush b).0) [
            | inr (x, ed) ↦ ((λ u eu. absurd (ground arith)), λ y ey u eu. ground arith)
            | inl (_, ed) ↦ (
              (λ u eu. elim (Option-cases d.inner) [
                | inl ei ↦ absurd (ground arith)
                | inr (u', ei) ↦ ground arith
              ]),
              λ y ey u eu. absurd (ground arith),
            )
          ]
        ]
      ]
