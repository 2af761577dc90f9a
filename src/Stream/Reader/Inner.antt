-- ===== src/Stream/Reader/Inner.antt =====
-- What the reader's methods leave of the state of its source.
use codex_vault.Prelude.{
  Keeps-bind, Keeps-lift, ℕ, zero, suc, ◌+◌, ◌≡◌, ◌∙◌, inl, inr, Option, some, [], ◌∷◌, arith, ◌==◌,
  Bool-cases, Option-cases, ok, Result-cases, lift, Keeps,
}
use codex_vault.Prelude.Bytes.{Bytes, u32_max}
use codex_vault.Device.{Source}
use codex_vault.Stream.Format.{
  Aead, file_header_length, final_frame, frame_header_length, tag_length,
}
use codex_vault.Stream.Reader.{
  VaultReader, new, parse_header, check_header, unseal, on_source, accept, read_body,
  read_next_frame, read_exact, next_data, copy_out, read, read_fuel, exhausted, drain,
  verify_finished,
}

module _ {V : Type 0} (c : Aead) (s : Source) (view : s.State → V)
    (exacts : (n : ℕ) → Keeps view (s.read_exact n)) (reads : (n : ℕ) → Keeps view (s.read n)) where
  pub new-Keeps : (key : Bytes) → Keeps view (new s key)
  unfolding new
  new-Keeps key = record {
    keeps = λ t.
        let k = (exacts file_header_length).keeps t in
        elim (Result-cases (s.read_exact file_header_length t).0) [
          | inr (x, e) ↦ ground arith
          | inl (header, e) ↦ ground arith
        ];
  }

  pub new-inner :
      (key : Bytes) (t : s.State) (r : VaultReader s)
      → (new s key t).0 ≡ ok r
      → r.inner ≡ (new s key t).1
  unfolding new
  new-inner key t r e = elim (Result-cases (s.read_exact file_header_length t).0) [
    | inr (x, er) ↦ absurd (ground arith)
    | inl (header, er) ↦ ground arith
  ]

  abbrev pub seen : VaultReader s → V
  seen r = view r.inner

  accept-Keeps : (t : ℕ) (plaintext : Bytes) → Keeps seen (accept c s t plaintext)
  unfolding accept on_source
  accept-Keeps t plaintext = record {
    keeps = λ r.
        let k = (reads 1).keeps r.inner in
        elim (Bool-cases (r.sequence == u32_max)) [
          | inl last ↦ ground arith
          | inr more ↦ elim (Bool-cases (t == final_frame)) [
            | inr loads ↦ ground arith
            | inl closes ↦ elim (Result-cases (s.read 1 r.inner).0) [
              | inr (x, er) ↦ ground arith
              | inl ([], er) ↦ ground arith
              | inl (b ∷ bytes, er) ↦ ground arith
            ]
          ]
        ];
  }

  read_exact-Keeps : (n : ℕ) → Keeps seen (read_exact c s n)
  unfolding on_source
  read_exact-Keeps n = record { keeps = λ r. (exacts n).keeps r.inner }

  read_body-Keeps : (header : Bytes) → Keeps seen (read_body c s header)
  unfolding read_body
  read_body-Keeps header = record {
    keeps = λ r.
        let h = parse_header header in
        (Keeps-bind {m = lift (check_header r.sequence h)} Keeps-lift (λ _.
            Keeps-bind (read_exact-Keeps (h.length + tag_length)) (λ ciphertext.
              Keeps-bind {m = lift (unseal c r.context header h.sequence ciphertext)} Keeps-lift
                (accept-Keeps h.frame_type)))).keeps
          r;
  }

  read_next_frame-Keeps : Keeps seen (read_next_frame c s)
  unfolding read_next_frame
  read_next_frame-Keeps = Keeps-bind (read_exact-Keeps frame_header_length) read_body-Keeps

  -- A run that ends leaves the view.
  abbrev pub Stays : {A : Type 0} → VaultReader s → Option (A × VaultReader s) → Type 0
  Stays {A} r o = (a : A) (r' : VaultReader s) → o ≡ some (a, r') → seen r' ≡ seen r

  next_data-Stays : (fuel : ℕ) (r : VaultReader s) → Stays r (next_data c s fuel r)
  unfolding next_data
  next_data-Stays zero r a r' e = absurd cc
  next_data-Stays (suc fuel) r a r' e =
      let r1 = (read_next_frame c s r).1 in
      let k = read_next_frame-Keeps.keeps r in
      let l = next_data-Stays fuel r1 a r' in
      elim (Bool-cases (exhausted c s r)) [
        | inr stops ↦ ground arith
        | inl goes ↦ elim (Result-cases (read_next_frame c s r).0) [
          | inr (x, er) ↦ ground arith
          | inl (_, er) ↦ l (ground arith) ∙ k
        ]
      ]

  copy_out-Keeps : (n : ℕ) → Keeps seen (copy_out c s n)
  unfolding copy_out
  copy_out-Keeps n = record {
    keeps = λ r. elim (Bool-cases r.finalized) [ inl e ↦ ground arith | inr e ↦ ground arith ];
  }

  pub read-Stays : (n : ℕ) (r : VaultReader s) → Stays r (read c s n r)
  unfolding read
  read-Stays n r a r' e = elim (Bool-cases (n == 0)) [
    | inl nothing ↦ ground arith
    | inr positive ↦ elim (Option-cases (next_data c s read_fuel r)) [
      | inl stuck ↦ absurd (ground arith)
      | inr (o, found) ↦
          let k = next_data-Stays read_fuel r o.0 o.1 found in
          let l = (copy_out-Keeps n).keeps o.1 in
          elim (Result-cases o.0) [ inr (x, er) ↦ ground arith | inl (_, er) ↦ ground arith ]
    ]
  ]

  drain-Stays : (n fuel : ℕ) (r : VaultReader s) → Stays r (drain c s n fuel r)
  unfolding drain
  drain-Stays n zero r a r' e = absurd cc
  drain-Stays n (suc fuel) r a r' e = elim (Option-cases (read c s n r)) [
    | inl stuck ↦ absurd (ground arith)
    | inr (o, found) ↦
        let k = read-Stays n r o.0 o.1 found in
        let l = drain-Stays n fuel o.1 in
        elim (Result-cases o.0) [
          | inr (x, er) ↦ ground arith
          | inl ([], er) ↦ ground arith
          | inl (b ∷ bytes, er) ↦ elim (Option-cases (drain c s n fuel o.1)) [
            | inl stuck ↦ absurd (ground arith)
            | inr (q, ended) ↦
                let m = l q.0 q.1 ended in
                elim (Result-cases q.0) [
                  | inr (y, eq) ↦ ground arith
                  | inl (rest, eq) ↦ ground arith
                ]
          ]
        ]
  ]

  pub verify_finished-Stays :
      (n fuel : ℕ) (r : VaultReader s) → Stays r (verify_finished c s n fuel r)
  unfolding verify_finished
  verify_finished-Stays n fuel r a r' e = elim (Option-cases (drain c s n fuel r)) [
    | inl stuck ↦ absurd (ground arith)
    | inr (o, found) ↦
        let k = drain-Stays n fuel r o.0 o.1 found in
        elim (Result-cases o.0) [ inr (y, eq) ↦ ground arith | inl (rest, eq) ↦ ground arith ]
  ]
