-- ===== src/Stream/Reader/Total.antt =====
-- A read ends, whatever the source gives.
use codex_vault.Prelude.{
  after, ℕ, zero, suc, ◌+◌, ◌-◌, ◌≤◌, ◌<◌, ◌≡◌, refl, ◌≢◌, ◌⊎◌, inl, inr, some, [], ◌∷◌, arith,
  ◌==◌, Bool-cases, ok, err, Result-cases,
}
use codex_vault.Prelude.Bytes.{Bytes, u32_max}
use codex_vault.Error.{IoResult}
use codex_vault.Device.{Source}
use codex_vault.Stream.Format.{Aead, final_frame, frame_header_length, tag_length}
use codex_vault.Stream.Reader.{
  copy_out, VaultReader, parse_header, check_header, unseal, on_source, accept, read_body,
  read_next_frame, next_data, read, read_fuel, exhausted,
}

nil_or_more : (xs : Bytes) → (xs ≡ []) ⊎ ((x : ℕ) × (rest : Bytes) × (xs ≡ x ∷ rest))
nil_or_more [] = inl refl
nil_or_more (x ∷ xs) = inr (x, xs, refl)

module _ (c : Aead) (s : Source) where
  -- The number of a round that succeeds was not the largest, and is followed by the next.
  abbrev Counted : VaultReader s → VaultReader s → Type 0
  Counted r r' = (r.sequence ≢ u32_max) × (r'.sequence ≡ r.sequence + 1)

  accept-Counted :
      (t : ℕ) (plaintext : Bytes) (r : VaultReader s)
      → (accept c s t plaintext r).0 ≡ ok tt
      → Counted r (accept c s t plaintext r).1
  unfolding accept on_source
  accept-Counted t plaintext r e = elim (Bool-cases (r.sequence == u32_max)) [
    | inl last ↦ absurd (ground arith)
    | inr more ↦ elim (Bool-cases (t == final_frame)) [
      | inr loads ↦ (ground arith, ground arith)
      | inl closes ↦ elim (Result-cases (s.read 1 r.inner).0) [
        | inr (x, er) ↦ absurd (ground arith)
        | inl (bytes, er) ↦ elim (nil_or_more bytes) [
          | inl none_left ↦ (ground arith, ground arith)
          | inr (b, rest, some_left) ↦ absurd (ground arith)
        ]
      ]
    ]
  ]

  read_next_frame-Counted :
      (r : VaultReader s) → (read_next_frame c s r).0 ≡ ok tt → Counted r (read_next_frame c s r).1
  unfolding read_next_frame read_body on_source
  read_next_frame-Counted r e =
      let a = (s.read_exact frame_header_length r.inner).1 in
      elim (Result-cases (s.read_exact frame_header_length r.inner).0) [
        | inr (x, ea) ↦ absurd (ground arith)
        | inl (header, ea) ↦
            let h = parse_header header in
            let b = (s.read_exact (h.length + tag_length) a).1 in
            elim (Result-cases (check_header r.sequence h)) [
              | inr (x, ec) ↦ absurd (ground arith)
              | inl (_, ec) ↦ elim (Result-cases (s.read_exact (h.length + tag_length) a).0) [
                | inr (x, eb) ↦ absurd (ground arith)
                | inl (ciphertext, eb) ↦
                    elim (Result-cases (unseal c r.context header h.sequence ciphertext)) [
                      | inr (x, eu) ↦ absurd (ground arith)
                      | inl (plaintext, eu) ↦
                          let r' : VaultReader s = record r { inner = b } in
                          let step : read_next_frame c s r ≡ accept c s h.frame_type plaintext r' =
                            ground arith in
                          rw step (accept-Counted h.frame_type plaintext r' (rw step at e))
                    ]
              ]
            ]
      ]

  next_data_total :
      (fuel : ℕ) (r : VaultReader s)
      → r.sequence ≤ u32_max
      → u32_max - r.sequence < fuel
      → (o : IoResult (Unit {0}) × VaultReader s) × (next_data c s fuel r ≡ some o)
  unfolding next_data
  next_data_total zero r le lt = absurd (omega arith)
  next_data_total (suc fuel) r le lt = elim (Bool-cases (exhausted c s r)) [
    | inr stops ↦ ((ok tt, r), ground arith)
    | inl goes ↦
        let r' = (read_next_frame c s r).1 in
        elim (Result-cases (read_next_frame c s r).0) [
          | inr (x, e) ↦ ((err x, r'), ground arith)
          | inl (_, e) ↦
              let (ne, eq) = read_next_frame-Counted r e in
              let (o, eo) = next_data_total fuel r' (omega arith) (omega arith) in (o, ground arith)
        ]
  ]

  -- A read ends for every source, whatever its calls give: the rounds of the loop are fewer than
  -- the numbers that a 32-bit sequence number can still take.
  pub read_total :
      (n : ℕ) (r : VaultReader s)
      → r.sequence ≤ u32_max
      → (o : IoResult Bytes × VaultReader s) × (read c s n r ≡ some o)
  unfolding read
  read_total n r le = elim (Bool-cases (n == 0)) [
    | inl nothing ↦ ((ok [], r), ground arith)
    | inr positive ↦
        let ((a, r'), eo) = next_data_total read_fuel r le (omega arith) in
        (after a (λ _. copy_out c s n) r', rw (positive, eo) refl)
  ]
