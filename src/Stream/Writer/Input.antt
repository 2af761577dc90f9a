-- ===== src/Stream/Writer/Input.antt =====
-- Every successful `write` takes all of its input and keeps the invariant; so does a row of them.
use codex_vault.Prelude.{
  [], ℕ, ◌+◌, ◌<◌, ◌≡◌, refl, ◌∙◌, sym, ap, false, List, ◌∷◌, ◌++◌, append-nil, append_assoc, ok,
  bind, bind-eq-ok, ◌⊎◌, inl, inr, arith, length, concat,
}
use mathlib.Core.Path.{subst}
use codex_vault.Prelude.Bytes.{Bytes}
use codex_vault.Error.{IoResult}
use codex_vault.Device.{Sink, IsSink}
use codex_vault.Stream.Format.{Aead, chunk_size}
use codex_vault.Stream.Frame.{Context}
use codex_vault.Stream.Writer.{VaultWriter, fill_pending, write_chunks, write, write_each}
use codex_vault.Stream.Writer.Holds.{Holds, pending-Holds}
use codex_vault.Stream.Writer.Keeps.{fill_pending-Filled, write_chunks-ChunksSealed}

module _ (c : Aead) (s : Sink) where
  -- The end of `write`: what is left of the input stays pending.
  abbrev finish_write : Bytes → Bytes → VaultWriter s → IoResult ℕ × VaultWriter s
  finish_write x tail w = (ok (length x), record w { pending = w.pending ++ tail })

  abbrev body : Bytes → VaultWriter s → IoResult ℕ × VaultWriter s
  body x =
      bind (fill_pending c s x)
        (λ rest. bind (write_chunks c s (length rest) rest) (finish_write x))

  write_open : (x : Bytes) (w : VaultWriter s) → w.finished ≡ false → write c s x w ≡ body x w
  unfolding write
  write_open x w e = rw e

  write_chunks_nil : (w : VaultWriter s) → write_chunks c s (length {A = ℕ} []) [] w ≡ (ok [], w)
  unfolding write_chunks
  write_chunks_nil w = refl

module _ (c : Aead) (s : Sink) (is : IsSink s) (k : Context) (base : Bytes) where
  abbrev pub Inv : Bytes → VaultWriter s → Type 0
  Inv = Holds c s is k base

  -- The loop behind `fill_pending`: what it leaves fits behind what is pending.
  abbrev Looped : Bytes → Bytes → IoResult Bytes × VaultWriter s → Type 0
  Looped input x o =
      (tail : Bytes)
      → o.0 ≡ ok tail
      → (front : Bytes) × (x ≡ front ++ tail)
        × Inv (input ++ front) o.1
        × (length o.1.pending + length tail < chunk_size)

  loop-Looped :
      (input rest : Bytes) (w : VaultWriter s)
      → (w.pending ≡ []) ⊎ (rest ≡ [])
      → Inv input w
      → Looped input rest (write_chunks c s (length rest) rest w)
  loop-Looped input rest w (inl clear) h = λ tail r.
      let (front, split, inv, none, short) =
        write_chunks-ChunksSealed c s is k base (length rest) input rest w (omega arith) clear h
          tail r in
      (front, split, inv, rw none (omega arith))
  loop-Looped input rest w (inr nil) h =
      rw (nil, write_chunks_nil c s w)
        λ tail r.
          let same : [] ≡ tail = cc in
          (
            [],
            same,
            subst (λ i. Inv i w) (sym (append-nil input)) h,
            rw (← same) (omega (arith, h.pending_lt)),
          )

  write_body :
      (input x : Bytes) (w : VaultWriter s) (n : ℕ)
      → Inv input w
      → (body c s x w).0 ≡ ok n
      → Inv (input ++ x) (body c s x w).1 × (n ≡ length x)
  write_body input x w n h r =
      let (rest, e1, same1) = bind-eq-ok (fill_pending c s x) _ w r in
      let (front, split, inv, rest_or) = fill_pending-Filled c s is k base input x w h rest e1 in
      let w1 : VaultWriter s = (fill_pending c s x w).1 in
      let r1 = rw same1 at r in
      let (tail, e2, same2) = bind-eq-ok (write_chunks c s (length rest) rest) _ w1 r1 in
      let (front2, split2, inv2, fits) = loop-Looped (input ++ front) rest w1 rest_or inv tail e2 in
      let w2 : VaultWriter s = (write_chunks c s (length rest) rest w1).1 in
      let r2 : (finish_write c s x tail w2).0 ≡ ok n = rw same2 at r1 in
      let counted : n ≡ length x = cc in
      let joined : input ++ front ++ front2 ++ tail ≡ input ++ x =
        append_assoc (input ++ front) front2 tail
        ∙ ap (λ t. input ++ front ++ t) (sym split2)
        ∙ append_assoc input front rest
        ∙ ap (λ t. input ++ t) (sym split) in
      rw (same1, same2)
        (
          subst (λ i. Inv i (record w2 { pending = w2.pending ++ tail })) joined
              (pending-Holds c s is k base (input ++ front ++ front2) tail w2 inv2 fits),
          counted,
        )

  pub write-Holds :
      (input x : Bytes) (w : VaultWriter s) (n : ℕ)
      → Inv input w
      → (write c s x w).0 ≡ ok n
      → Inv (input ++ x) (write c s x w).1 × (n ≡ length x)
  write-Holds input x w n h r =
      rw (write_open c s x w h.finished_eq)
        (write_body input x w n h (rw (write_open c s x w h.finished_eq) at r))

  pub write_each-Holds :
      (input : Bytes) (xs : List Bytes) (w : VaultWriter s)
      → Inv input w
      → (write_each c s xs w).0 ≡ ok tt
      → Inv (input ++ concat xs) (write_each c s xs w).1
  unfolding write_each concat
  write_each-Holds input [] w h r = subst (λ i. Inv i w) (sym (append-nil input)) h
  write_each-Holds input (x ∷ xs) w h r =
      let (n, e, same) = bind-eq-ok (write c s x) (λ _. write_each c s xs) w r in
      let w' : VaultWriter s = (write c s x w).1 in
      rw same (
        subst (λ i. Inv i (write_each c s xs w').1) (append_assoc input x (concat xs))
          (write_each-Holds (input ++ x) xs w' (write-Holds input x w n h e).0 (rw same at r)))
