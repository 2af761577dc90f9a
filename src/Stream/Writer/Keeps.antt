-- ===== src/Stream/Writer/Keeps.antt =====
-- Every successful call of `write` keeps the writer's invariant and takes all of its input.
use codex_vault.Prelude.{
  [], ℕ, zero, suc, ◌-◌, ◌<◌, ◌≤◌, ◌≡◌, refl, ◌∙◌, sym, ap, true, false, List, ◌∷◌, ◌++◌,
  append-nil, append_assoc, ok, bind, with_error, lift, Action, ◌⊎◌, inl, inr, arith, Bool-cases,
  length, length-append, take, drop, length-take, length-drop, take-append-drop, drop_all, concat,
  leb, min, ◌==◌, ==_iff, leb→le,
}
use mathlib.Core.Path.{subst}
use codex_vault.Prelude.Bytes.{Bytes}
use codex_vault.Error.{VaultError, IoError, IoResult, other_printed}
use codex_vault.Device.{Sink, IsSink}
use codex_vault.Stream.Format.{Aead, chunk_size, data_frame}
use codex_vault.Stream.Frame.{Context}
use codex_vault.Stream.Writer.{VaultWriter, is_empty, write_frame, fill_pending, write_chunks}
use codex_vault.Stream.Writer.Step.{write_frame_ok}
use codex_vault.Stream.Writer.Holds.{Holds, cleared-Holds, chunk-Holds, pending-Holds}

is_empty→eq_nil {ℓ} : {A : Type ℓ} (xs : List A) → is_empty xs ≡ true → xs ≡ []
is_empty→eq_nil [] h = refl
is_empty→eq_nil (x ∷ xs) h = cc

-- A block that succeeds has run its first call, and ends as what follows it.
then_call :
    {S A : Type 0} (m : Action S VaultError (Unit {0})) (g : Action S IoError A) (w : S) (b : A)
    → (bind (with_error other_printed m) (λ _. g) w).0 ≡ ok b
    → ((m w).0 ≡ ok tt) × (bind (with_error other_printed m) (λ _. g) w ≡ g (m w).1)
then_call m g w b e = ground arith

module _ (c : Aead) (s : Sink) (x : Bytes) (w : VaultWriter s) where
  abbrev filled : ℕ → Bytes
  filled n = w.pending ++ take n x

  abbrev room : ℕ
  room = min (chunk_size - length w.pending) (length x)

  -- The sealing of a chunk that has filled up.
  abbrev sealing : Action (VaultWriter s) IoError Bytes
  sealing =
      bind (with_error other_printed (write_frame c s data_frame (filled room)))
        (λ _. lift (ok (drop room x)))

  fill_pending_empty : is_empty w.pending ≡ true → fill_pending c s x w ≡ (ok x, w)
  unfolding fill_pending
  fill_pending_empty e = rw e

  fill_pending_full :
      is_empty w.pending ≡ false
      → (length (filled room) == chunk_size) ≡ true
      → fill_pending c s x w ≡ sealing (record w { pending = [] })
  unfolding fill_pending
  fill_pending_full e f = rw (e, f)

  fill_pending_partial :
      is_empty w.pending ≡ false
      → (length (filled room) == chunk_size) ≡ false
      → fill_pending c s x w ≡ (ok (drop room x), record w { pending = filled room })
  unfolding fill_pending
  fill_pending_partial e f = rw (e, f)

module _ (c : Aead) (s : Sink) (is : IsSink s) (k : Context) (base : Bytes) where
  abbrev pub Inv : Bytes → VaultWriter s → Type 0
  Inv = Holds c s is k base

  -- A call that took the front of `x` and left the rest; more is pending only at the end of `x`.
  abbrev pub Filled : Bytes → Bytes → IoResult Bytes × VaultWriter s → Type 0
  Filled input x o =
      (rest : Bytes)
      → o.0 ≡ ok rest
      → (front : Bytes) × (x ≡ front ++ rest)
        × Inv (input ++ front) o.1
        × ((o.1.pending ≡ []) ⊎ (rest ≡ []))

  Inv-at : (i j : Bytes) (w : VaultWriter s) → i ≡ j → Inv i w → Inv j w
  Inv-at i j w e h = subst (λ t. Inv t w) e h

  empty-Filled :
      (input x : Bytes) (w : VaultWriter s)
      → w.pending ≡ []
      → Inv input w
      → Filled input x (ok x, w)
  empty-Filled input x w e h rest r =
      ([], cc, Inv-at input (input ++ []) w (sym (append-nil input)) h, inl e)

  full-Filled :
      (input x : Bytes) (w : VaultWriter s)
      → length (filled c s x w (room c s x w)) ≡ chunk_size
      → Inv input w
      → Filled input x (sealing c s x w (record w { pending = [] }))
  full-Filled input x w len h rest r =
      let n : ℕ = room c s x w in
      let w0 : VaultWriter s = record w { pending = [] } in
      let p : Bytes = filled c s x w n in
      let (done, same) =
        then_call (write_frame c s data_frame p) (lift (ok (drop n x))) w0 rest r in
      let e : drop n x ≡ rest = cc in
      let v = cleared-Holds c s is k base input w h in
      let a = write_frame_ok c s is data_frame p w0 v.sink v.inner_eq v.sequence_le done in
      let joined : concat h.chunks ++ p ≡ input ++ take n x =
        sym (append_assoc (concat h.chunks) w.pending (take n x))
        ∙ ap (λ b. b ++ take n x) h.input_eq in
      rw same (
        take n x,
        sym (take-append-drop n x) ∙ ap (λ t. take n x ++ t) e,
        Inv-at _ _ _ joined (chunk-Holds c s is k base (concat h.chunks) p w0 _ v refl len a),
        inl a.pending_eq,
      )

  partial-Filled :
      (input x : Bytes) (w : VaultWriter s)
      → (length (filled c s x w (room c s x w)) == chunk_size) ≡ false
      → Inv input w
      → Filled input x
          (ok (drop (room c s x w) x), record w { pending = filled c s x w (room c s x w) })
  partial-Filled input x w short h rest r =
      let n : ℕ = room c s x w in
      let taken = length-take n x in
      let grown = length-append w.pending (take n x) in
      let e : drop n x ≡ rest = cc in
      (
        take n x,
        sym (take-append-drop n x) ∙ ap (λ t. take n x ++ t) e,
        pending-Holds c s is k base input (take n x) w h (ground (arith, taken, grown)),
        inr (sym e ∙ drop_all n x (ground (arith, taken, grown))),
      )

  pub fill_pending-Filled :
      (input x : Bytes) (w : VaultWriter s) → Inv input w → Filled input x (fill_pending c s x w)
  fill_pending-Filled input x w h = elim (Bool-cases (is_empty w.pending)) [
    | inl empty ↦
        rw (fill_pending_empty c s x w empty)
          (empty-Filled input x w (is_empty→eq_nil w.pending empty) h)
    | inr more ↦ elim (Bool-cases (length (filled c s x w (room c s x w)) == chunk_size)) [
      | inl full ↦
          rw (fill_pending_full c s x w more full) (full-Filled input x w ((==_iff _ _).0 full) h)
      | inr short ↦ rw (fill_pending_partial c s x w more short) (partial-Filled input x w short h)
    ]
  ]

  -- The loop: whole chunks are sealed, and less than a chunk is left.
  abbrev pub ChunksSealed : Bytes → Bytes → IoResult Bytes × VaultWriter s → Type 0
  ChunksSealed input x o =
      (tail : Bytes)
      → o.0 ≡ ok tail
      → (front : Bytes) × (x ≡ front ++ tail)
        × Inv (input ++ front) o.1
        × (o.1.pending ≡ [])
        × (length tail < chunk_size)

  stop-ChunksSealed :
      (input x : Bytes) (w : VaultWriter s)
      → length x < chunk_size
      → w.pending ≡ []
      → Inv input w
      → ChunksSealed input x (ok x, w)
  stop-ChunksSealed input x w l e h tail r =
      let same : x ≡ tail = cc in
      ([], same, Inv-at input (input ++ []) w (sym (append-nil input)) h, e, rw (← same) l)

  -- A chunk of `x`, and the rest by a later call `o`.
  more-ChunksSealed :
      (input x : Bytes) (w : VaultWriter s) (g : Action (VaultWriter s) IoError Bytes)
      → chunk_size ≤ length x
      → w.pending ≡ []
      → Inv input w
      → ((w' : VaultWriter s)
          → w'.pending ≡ []
          → Inv (input ++ take chunk_size x) w'
          → ChunksSealed (input ++ take chunk_size x) (drop chunk_size x) (g w'))
      → ChunksSealed input x (
          bind
            (with_error other_printed (write_frame c s data_frame (take chunk_size x)))
            (λ _. g)
            w)
  more-ChunksSealed input x w g l e h later tail r =
      let p : Bytes = take chunk_size x in
      let (done, same) = then_call (write_frame c s data_frame p) g w tail r in
      let a = write_frame_ok c s is data_frame p w h.sink h.inner_eq h.sequence_le done in
      let full : length p ≡ chunk_size = omega (arith, length-take chunk_size x) in
      let w' : VaultWriter s = (write_frame c s data_frame p w).1 in
      let (front, split, inv, clear, short) =
        later w' (a.pending_eq ∙ e) (chunk-Holds c s is k base input p w w' h e full a) tail
          (rw same at r) in
      rw same (
        p ++ front,
        sym (take-append-drop chunk_size x)
            ∙ ap (λ t. p ++ t) split
            ∙ sym (append_assoc p front tail),
        Inv-at _ _ _ (append_assoc input p front) inv,
        clear,
        short,
      )

  pub write_chunks-ChunksSealed :
      (fuel : ℕ) (input x : Bytes) (w : VaultWriter s)
      → length x ≤ fuel
      → w.pending ≡ []
      → Inv input w
      → ChunksSealed input x (write_chunks c s fuel x w)
  unfolding write_chunks
  write_chunks-ChunksSealed zero input x w l e h = stop-ChunksSealed input x w (omega arith) e h
  write_chunks-ChunksSealed (suc fuel) input x w l e h =
      elim (Bool-cases (leb chunk_size (length x))) [
        | inl more ↦
            rw (more, write_chunks)
              (more-ChunksSealed input x w (write_chunks c s fuel (drop chunk_size x))
                (leb→le _ _ more) e h
                λ w' e' h'.
                  write_chunks-ChunksSealed fuel _ (drop chunk_size x) w'
                    (omega (arith, length-drop chunk_size x, leb→le _ _ more)) e' h')
        | inr less ↦ rw (less, write_chunks) (stop-ChunksSealed input x w (ground arith) e h)
      ]
