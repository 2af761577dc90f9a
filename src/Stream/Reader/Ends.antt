-- ===== src/Stream/Reader/Ends.antt =====
-- All reads together end: what is left to read bounds their number.
use codex_vault.Prelude.{
  ℕ, zero, suc, ◌+◌, ◌≤◌, ◌<◌, ◌≡◌, sym, ap, ◌∙◌, inl, inr, some, [], ◌∷◌, ◌++◌, arith, Bool-cases,
  length, drop, length-append, length-drop, ok, err, Result-cases,
}
use codex_vault.Prelude.Bytes.{Bytes}
use codex_vault.Error.{IoResult}
use codex_vault.Device.{Source, IsSource}
use codex_vault.Stream.Format.{Aead, IsAead}
use codex_vault.Stream.Frame.{Context, Frame}
use codex_vault.Stream.Seal.{seal→unseal}
use codex_vault.Stream.Reader.{
  VaultReader, read_next_frame, next_data, read, read_fuel, exhausted, drain, continue, prepend,
}
use codex_vault.Stream.Reader.Step.{Opened, loaded, ended, read_next_frame_ok}
use codex_vault.Stream.Reader.Meaning.{
  IsSound, held, frame_Goes, next_data-Goes, copy_out_running, copy_out_over,
}
use codex_vault.Stream.Reader.Rounds.{
  next_data-zero, next_data_stop, next_data_ok, next_data_err, read-eq-ok, drain-suc,
}
use codex_vault.Stream.Reader.Sound.{read-Goes}
use codex_vault.Stream.Reader.Total.{read_total}

module _ (c : Aead) (ic : IsAead c) (s : Source) (is : IsSource s) where
  -- The bytes of the source and those that the reader holds.
  abbrev pub left : VaultReader s → ℕ
  left r = length (is.rest r.inner) + length (held c s is r)

  length-Frame :
      (k : Context) (t n : ℕ) (p frame : Bytes) → Frame c k t n p frame → length p ≤ length frame
  length-Frame k t n p frame (header, ciphertext, _, sealed, e) =
      let (_, _, len, _) = seal→unseal c ic k t n p header ciphertext sealed in
      omega (arith, len, ap length e, length-append header ciphertext)

  Opened-left : (r r' : VaultReader s) → Opened c s is r r' → left r' ≤ length (is.rest r.inner)
  unfolding drop
  Opened-left r r' o =
      let big = length-Frame r.context o.frame_type r.sequence o.plaintext o.frame o.frame_ok in
      let split = ap length o.rest_eq ∙ length-append o.frame (is.rest r'.inner) in
      let holds = length-drop r'.plaintext_offset r'.plaintext in
      elim o.outcome [
        | loaded t p z f ↦ omega (arith, big, split, holds, ap length p)
        | ended t p z q f ↦ omega (arith, big, split, holds, ap length q)
      ]

  -- Frames that are read do not add to it.
  next_data-left :
      (fuel : ℕ) (r r' : VaultReader s)
      → IsSound c s is r
      → next_data c s fuel r ≡ some (ok tt, r')
      → left r' ≤ left r
  next_data-left zero r r' v e = absurd (cc (next_data-zero c s r))
  next_data-left (suc fuel) r r' v e = elim (Bool-cases (exhausted c s r)) [
    | inr stop ↦
        let same : r ≡ r' = cc (next_data_stop c s r fuel stop) in omega (arith, ap left same)
    | inl spent ↦ elim (Result-cases (read_next_frame c s r).0) [
      | inl (_, f) ↦
          let r1 : VaultReader s = (read_next_frame c s r).1 in
          let (v1, _) = frame_Goes c ic s is r v spent f in
          let first = Opened-left r r1 (read_next_frame_ok c ic s is r v.bytes v.sequence_le f) in
          let others = next_data-left fuel r1 r' v1 (sym (next_data_ok c s r fuel spent f) ∙ e) in
          omega (arith, first, others)
      | inr (x, f) ↦ absurd (cc (next_data_err c s r fuel x spent f))
    ]
  ]

  -- A read takes the bytes that it gives off it.
  pub read-left :
      (n : ℕ) (r r' : VaultReader s) (bytes : Bytes)
      → IsSound c s is r
      → read c s n r ≡ some (ok bytes, r')
      → length bytes + left r' ≤ left r
  unfolding read
  read-left zero r r' bytes v e =
      let nothing : bytes ≡ [] = ground arith in
      let same : r ≡ r' = ground arith in omega (arith, ap length nothing, ap left same)
  read-left (suc n) r r' bytes v e =
      let (r1, found, copied) = read-eq-ok c s r (suc n) bytes r' (ground arith) e in
      let less = next_data-left read_fuel r r1 v found in
      let (_, ready) = next_data-Goes c ic s is read_fuel r r1 v found in
      elim (Bool-cases r1.finalized) [
        | inl f ↦
            let over = copy_out_over c s is (suc n) r1 f in
            let nothing : bytes ≡ [] = cc in
            let same : r1 ≡ r' = cc in omega (arith, less, ap length nothing, ap left same)
        | inr f ↦
            let (given, offset, copied', some_, split) =
              copy_out_running c s is (suc n) r1 (omega arith) ready f in
            let same : record r1 { plaintext_offset = offset } ≡ r' = cc in
            let same_bytes : given ≡ bytes = cc in
            let now = ap length split ∙ length-append given (drop offset r1.plaintext) in
            omega (arith, less, now, ap length same_bytes, ap left same)
      ]

  -- With the cipher and the source as documented: reads into any buffer end, behind more reads than
  -- there are bytes left.
  pub drain_total :
      (n fuel : ℕ) (r : VaultReader s)
      → IsSound c s is r
      → left r < fuel
      → (o : IoResult Bytes × VaultReader s) × (drain c s n fuel r ≡ some o)
  drain_total n zero r v l = absurd (omega arith)
  drain_total n (suc fuel) r v l =
      let ((a, r1), found) = read_total c s n r v.sequence_le in
      go (λ q w lq. drain_total n fuel q w lq) a r1 found
    where
      more :
          (b : ℕ) (bytes : Bytes) (r1 : VaultReader s) (q : IoResult Bytes × VaultReader s)
          → read c s n r ≡ some (ok (b ∷ bytes), r1)
          → drain c s n fuel r1 ≡ some q
          → (o : IoResult Bytes × VaultReader s) × (drain c s n (suc fuel) r ≡ some o)
      more b bytes r1 (ok rest, r2) e eq = (
        (ok ((b ∷ bytes) ++ rest), r2),
        drain-suc c s r n fuel
            ∙ ap (continue c s (drain c s n fuel)) e
            ∙ ap (prepend c s (b ∷ bytes)) eq,
      )
      more b bytes r1 (err x, r2) e eq = (
        (err x, r2),
        drain-suc c s r n fuel
            ∙ ap (continue c s (drain c s n fuel)) e
            ∙ ap (prepend c s (b ∷ bytes)) eq,
      )

      go :
          ((q : VaultReader s)
            → IsSound c s is q
            → left q < fuel
            → (o : IoResult Bytes × VaultReader s) × (drain c s n fuel q ≡ some o))
          → (a : IoResult Bytes) (r1 : VaultReader s) → read c s n r ≡ some (a, r1)
          → (o : IoResult Bytes × VaultReader s) × (drain c s n (suc fuel) r ≡ some o)
      go again (err x) r1 e =
          ((err x, r1), drain-suc c s r n fuel ∙ ap (continue c s (drain c s n fuel)) e)
      go again (ok []) r1 e =
          ((ok [], r1), drain-suc c s r n fuel ∙ ap (continue c s (drain c s n fuel)) e)
      go again (ok (b ∷ bytes)) r1 e =
          let (v1, _) = read-Goes c ic s is n r r1 (b ∷ bytes) v e in
          let less = read-left n r r1 (b ∷ bytes) v e in
          let (q, eq) = again r1 v1 (omega (arith, less, l)) in more b bytes r1 q e eq
