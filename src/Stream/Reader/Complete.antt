-- ===== src/Stream/Reader/Complete.antt =====
-- A sealed stream on a source that does not fail is read to its end, whatever the buffer.
use codex_vault.Prelude.{
  [], ℕ, zero, suc, ◌+◌, ◌<◌, ◌≡◌, refl, ◌∙◌, sym, ap, true, false, some, inl, inr, List, ◌∷◌, ◌++◌,
  append-nil, append_assoc, length-append, ok, arith, length, concat, Bool-cases, All, drop,
  drop_all,
}
use mathlib.Core.Path.{subst, subst₂}
use codex_vault.Prelude.Bytes.{Bytes, u32_max}
use codex_vault.Device.{Source, IsSource, IsReliable}
use codex_vault.Stream.Format.{Aead, IsAead, data_frame, final_frame}
use codex_vault.Stream.Frame.{Context, Frame, Sealed}
use codex_vault.Stream.Reader.{
  VaultReader, exhausted, read_next_frame, next_data, prepend, continue, drain, Run, read_fuel,
}
use codex_vault.Stream.Reader.Step.{Outcome, loaded, ended}
use codex_vault.Stream.Reader.Rounds.{next_data_stop, next_data_ok, read_of_data, drain-suc}
use codex_vault.Stream.Reader.Meaning.{
  loaded_held, Means, over, running, IsShort, held, copy_out_running, copy_out_over,
}
use codex_vault.Stream.Reader.Forward.{chunk, close, read_next_frame_runs}

-- A stream has no more frames than numbers are left.
length-Sealed :
    (c : Aead) (k : Context) (n : ℕ) (ps : List Bytes) (bytes : Bytes)
    → Sealed c k n ps bytes
    → n + length ps < u32_max
length-Sealed c k n [] bytes (_, _, room, _, _) = omega arith
length-Sealed c k n (p ∷ ps) bytes (_, back, _, more, _) =
    omega (arith, length-Sealed c k (suc n) ps back more)

module _ (c : Aead) (ic : IsAead c) (s : Source) (is : IsSource s) (ir : IsReliable s is) where
  abbrev Found : ℕ → VaultReader s → Bytes → Type 0
  Found fuel r out =
      (r' : VaultReader s) × (next_data c s fuel r ≡ some (ok tt, r'))
      × (exhausted c s r' ≡ false)
      × Means c s is r' out

  -- The final frame, and the round that sees it.
  Found-end :
      (fuel : ℕ) (r : VaultReader s)
      → exhausted c s r ≡ true
      → Frame c r.context final_frame r.sequence [] (is.rest r.inner)
      → Found (suc (suc fuel)) r []
  Found-end fuel r spent f =
      let rest : Bytes = is.rest r.inner in
      let (done, b) =
        read_next_frame_runs c ic s is ir final_frame [] rest [] r f (close refl refl refl)
          (sym (append-nil rest)) in
      let r1 : VaultReader s = (read_next_frame c s r).1 in
      let f1 : r1.finalized ≡ true = closed r1 b.outcome in
      let stop : exhausted c s r1 ≡ false = ground arith in
      (
        r1,
        next_data_ok c s r (suc fuel) spent done ∙ next_data_stop c s r1 fuel stop,
        stop,
        over f1 b.rest_eq refl,
      )
    where
      closed :
          (r1 : VaultReader s) → Outcome c s is final_frame [] r.finalized r1 → r1.finalized ≡ true
      closed r1 (loaded t p z f) = absurd (omega arith)
      closed r1 (ended t p z q f) = f

  Found-now :
      (fuel : ℕ) (r : VaultReader s) (out : Bytes)
      → exhausted c s r ≡ false
      → Means c s is r out
      → Found (suc fuel) r out
  Found-now fuel r out stop m = (r, next_data_stop c s r fuel stop, stop, m)

  -- A data frame, and the rounds behind it.
  Found-later :
      (fuel : ℕ) (ps : List Bytes) (p : Bytes) (r : VaultReader s)
      → r.finalized ≡ false
      → exhausted c s r ≡ true
      → Sealed c r.context r.sequence (p ∷ ps) (is.rest r.inner)
      → All IsShort (p ∷ ps)
      → ((r1 : VaultReader s)
          → r1.finalized ≡ false
          → Sealed c r1.context r1.sequence ps (is.rest r1.inner)
          → Found fuel r1 (held c s is r1 ++ concat ps))
      → Found (suc fuel) r (p ++ concat ps)
  Found-later fuel ps p r f0 spent (front, back, f, sealed, split) (short, shorts) later =
      let (done, b) =
        read_next_frame_runs c ic s is ir data_frame p front back r f (chunk refl short) split in
      let r1 : VaultReader s = (read_next_frame c s r).1 in
      let (f1, h1) = data_ r1 b.outcome in
      let sealed1 : Sealed c r1.context r1.sequence ps (is.rest r1.inner) = rw b.rest_eq (
        subst₂ (λ k n. Sealed c k n ps back) (sym b.context_eq) (omega (arith, b.sequence_eq))
          sealed) in
      let (r2, runs, stop, m) = later r1 (f1 ∙ f0) sealed1 in
      (
        r2,
        next_data_ok c s r fuel spent done ∙ runs,
        stop,
        subst (Means c s is r2) (ap (λ t. t ++ concat ps) h1) m,
      )
    where
      data_ :
          (r1 : VaultReader s)
          → Outcome c s is data_frame p r.finalized r1
          → (r1.finalized ≡ r.finalized) × (held c s is r1 ≡ p)
      data_ r1 (loaded t e z f) = (f, loaded_held c s is r1 p e z)
      data_ r1 (ended t e z q f) = absurd (omega arith)

  -- The loop of `read` comes to data or to the end.
  next_data_runs :
      (ps : List Bytes) (fuel : ℕ) (r : VaultReader s)
      → length ps + 1 < fuel
      → r.finalized ≡ false
      → Sealed c r.context r.sequence ps (is.rest r.inner)
      → All IsShort ps
      → Found fuel r (held c s is r ++ concat ps)
  unfolding concat
  next_data_runs ps zero r l f0 sealed short = absurd (omega arith)
  next_data_runs ps (suc zero) r l f0 sealed short = absurd (omega arith)
  next_data_runs [] (suc (suc fuel)) r l f0 sealed short = elim (Bool-cases (exhausted c s r)) [
    | inr stop ↦ Found-now (suc fuel) r _ stop (running [] f0 sealed short refl)
    | inl spent ↦
        let nothing : held c s is r ≡ [] = drop_all r.plaintext_offset r.plaintext (ground arith) in
        subst (Found (suc (suc fuel)) r) (sym (ap (λ t. t ++ []) nothing))
          (Found-end fuel r spent sealed)
  ]
  next_data_runs (p ∷ ps) (suc (suc fuel)) r l f0 sealed short =
      elim (Bool-cases (exhausted c s r)) [
        | inr stop ↦ Found-now (suc fuel) r _ stop (running (p ∷ ps) f0 sealed short refl)
        | inl spent ↦
            let nothing : held c s is r ≡ [] =
              drop_all r.plaintext_offset r.plaintext (ground arith) in
            subst (Found (suc (suc fuel)) r) (sym (ap (λ t. t ++ concat (p ∷ ps)) nothing)) (
              Found-later (suc fuel) ps p r f0 spent sealed short
                λ r1 f1 sealed1. next_data_runs ps (suc fuel) r1 (omega arith) f1 sealed1 short.1)
      ]

  continue_bytes :
      (more : VaultReader s → Run c s) (bytes : Bytes) (r : VaultReader s)
      → 0 < length bytes
      → continue c s more (some (ok bytes, r)) ≡ prepend c s bytes (more r)
  continue_bytes more [] r h = absurd (omega arith)
  continue_bytes more (b ∷ bytes) r h = refl

  abbrev Drained : ℕ → ℕ → VaultReader s → Bytes → Type 0
  Drained n fuel r out =
      (r' : VaultReader s) × (drain c s n fuel r ≡ some (ok out, r')) × (r'.finalized ≡ true)

  -- A read behind the loop, and what follows it.
  drain_step :
      (n fuel : ℕ) (r r1 : VaultReader s) (out : Bytes)
      → 0 < n
      → length out < suc fuel
      → next_data c s read_fuel r ≡ some (ok tt, r1)
      → exhausted c s r1 ≡ false
      → Means c s is r1 out
      → ((r2 : VaultReader s) (rest : Bytes)
          → length rest < fuel
          → Means c s is r2 rest
          → Drained n fuel r2 rest)
      → Drained n (suc fuel) r out
  drain_step n fuel r r1 out pos l found stop (over f e o) later = (
    r1,
    drain-suc c s r n fuel
        ∙ ap (continue c s (drain c s n fuel))
            (read_of_data c s r n r1 (ground arith) found ∙ ap some (copy_out_over c s is n r1 f))
        ∙ rw o,
    f,
  )
  drain_step n fuel r r1 out pos l found stop (running ps f sealed short o) later =
      let (bytes, offset, copied, some_, split) = copy_out_running c s is n r1 pos stop f in
      let r2 : VaultReader s = record r1 { plaintext_offset = offset } in
      let rest : Bytes = drop offset r1.plaintext ++ concat ps in
      let whole : out ≡ bytes ++ rest =
        o
        ∙ ap (λ t. t ++ concat ps) split
        ∙ append_assoc bytes (drop offset r1.plaintext) (concat ps) in
      let (r', runs, f') =
        later r2 rest (omega (arith, ap length whole, length-append bytes rest))
          (running ps f sealed short refl) in
      (
        r',
        drain-suc c s r n fuel
            ∙ ap (continue c s (drain c s n fuel))
                (read_of_data c s r n r1 (ground arith) found ∙ ap some copied)
            ∙ continue_bytes (drain c s n fuel) bytes r2 some_
            ∙ ap (prepend c s bytes) runs
            ∙ rw whole,
        f',
      )

  -- All reads together give the meaning.
  pub drain_complete :
      (n fuel : ℕ) (r : VaultReader s) (out : Bytes)
      → 0 < n
      → length out < fuel
      → Means c s is r out
      → Drained n fuel r out
  drain_complete n zero r out pos l m = absurd (omega arith)
  drain_complete n (suc fuel) r out pos l (over f e o) =
      let stop : exhausted c s r ≡ false = ground arith in
      drain_step n fuel r r out pos l (next_data_stop c s r 4294967295 stop) stop (over f e o)
        λ r2 rest h m. drain_complete n fuel r2 rest pos h m
  drain_complete n (suc fuel) r out pos l (running ps f0 sealed short o) =
      let (r1, found, stop, m) =
        next_data_runs ps read_fuel r
          (omega (arith, length-Sealed c r.context r.sequence ps (is.rest r.inner) sealed)) f0
          sealed short in
      drain_step n fuel r r1 out pos l found stop (subst (Means c s is r1) (sym o) m)
        λ r2 rest h m2. drain_complete n fuel r2 rest pos h m2
