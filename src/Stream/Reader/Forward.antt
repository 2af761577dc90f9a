-- ===== src/Stream/Reader/Forward.antt =====
-- One frame, forward: a well-formed frame at the front of a source that does not fail is read.
use codex_vault.Prelude.{
  [], ℕ, ◌+◌, ◌<◌, ◌≤◌, ◌≡◌, refl, ◌∙◌, sym, ap, ◌∷◌, ◌++◌, append_assoc, append_cancel,
  length-append, ok, arith, length, bind, bind_step, lift,
}
use codex_vault.Prelude.Bytes.{Bytes, u32_max}
use codex_vault.Device.{Source, IsSource, IsReliable}
use codex_vault.Stream.Format.{
  Aead, IsAead, chunk_size, data_frame, final_frame, frame_header_length, tag_length,
}
use codex_vault.Stream.Frame.{Frame}
use codex_vault.Stream.Seal.{length-layout, parse_header-layout, seal→unseal}
use codex_vault.Stream.Reader.{
  VaultReader, Header, parse_header, check_header, unseal, on_source, read_exact, accept,
  open_frame, read_body, read_next_frame,
}
use codex_vault.Stream.Reader.Step.{Outcome, loaded, ended}

check_header_data :
    (n l : ℕ)
    → l ≤ chunk_size
    → check_header n (record { frame_type = data_frame; sequence = n; length = l }) ≡ ok tt
unfolding check_header
check_header_data n l h = ground arith

check_header_final :
    (n : ℕ) → check_header n (record { frame_type = final_frame; sequence = n; length = 0 }) ≡ ok tt
unfolding check_header
check_header_final n = ground arith

-- The frames that a reader takes: data of a chunk at most, or the empty final frame at the end.
pub data Fits (t : ℕ) (p back : Bytes) : Type 0 where
  chunk : t ≡ data_frame → length p ≤ chunk_size → Fits t p back
  close : t ≡ final_frame → p ≡ [] → back ≡ [] → Fits t p back

Fits-le : {t : ℕ} {p back : Bytes} → Fits t p back → length p ≤ chunk_size
Fits-le (chunk e h) = h
Fits-le (close e f g) = rw f (omega arith)

check_header-Fits :
    (t n : ℕ) (p back : Bytes)
    → Fits t p back
    → check_header n (record { frame_type = t; sequence = n; length = length p }) ≡ ok tt
check_header-Fits t n p back (chunk e h) = rw e (check_header_data n (length p) h)
check_header-Fits t n p back (close e f g) = rw (e, f) (check_header_final n)

module _ (c : Aead) (ic : IsAead c) (s : Source) (is : IsSource s) (ir : IsReliable s is) where
  -- A read of exactly the bytes at the front.
  read_front :
      (n : ℕ) (r : VaultReader s) (front back : Bytes)
      → length front ≡ n
      → is.rest r.inner ≡ front ++ back
      → let t = (s.read_exact n r.inner).1 in
        (read_exact c s n r ≡ (ok front, record r { inner = t })) × (is.rest t ≡ back)
  unfolding on_source
  read_front n r front back l e =
      let (bytes, got) =
        ir.read_exact_total n r.inner (rw e (omega (arith, length-append front back))) in
      let (split, len) = is.read_exact_ok n r.inner bytes got in
      let (same, left) = append_cancel front bytes (l ∙ sym len) (sym e ∙ split) in
      (ground arith, sym left)

  -- The reader behind a frame.
  pub record Behind (t : ℕ) (p back : Bytes) (r r' : VaultReader s) : Type 0 where
    pub rest_eq : is.rest r'.inner ≡ back
    pub context_eq : r'.context ≡ r.context
    pub sequence_eq : r'.sequence ≡ r.sequence + 1
    pub outcome : Outcome c s is t p r.finalized r'

  accept_runs :
      (t : ℕ) (p back : Bytes) (r : VaultReader s)
      → Fits t p back
      → r.sequence < u32_max
      → is.rest r.inner ≡ back
      → ((accept c s t p r).0 ≡ ok tt) × Behind t p back r (accept c s t p r).1
  unfolding accept on_source
  accept_runs t p back r (chunk e h) l b = (
    ground arith,
    record {
      rest_eq = ground arith;
      context_eq = ground arith;
      sequence_eq = ground arith;
      outcome = loaded e (ground arith) (ground arith) (ground arith);
    },
  )
  accept_runs t p back r (close e f g) l b =
      let (bytes, got) = ir.read_total 1 r.inner in
      let (split, _) = is.read_ok 1 r.inner bytes got in
      let (none_, left) = nothing bytes (is.rest (s.read 1 r.inner).1) (sym split ∙ b ∙ g) in
      (
        ground arith,
        record {
          rest_eq = ground arith;
          context_eq = ground arith;
          sequence_eq = ground arith;
          outcome = ended e f (ground arith) (ground arith) (ground arith);
        },
      )
    where
      nothing : (xs ys : Bytes) → xs ++ ys ≡ [] → (xs ≡ []) × (ys ≡ [])
      nothing [] ys h = (refl, h)
      nothing (x ∷ xs) ys h = cc

  body_as :
      (header : Bytes) (r r1 : VaultReader s) (h : Header) (ciphertext p : Bytes)
      → parse_header header ≡ h
      → check_header r.sequence h ≡ ok tt
      → read_exact c s (h.length + tag_length) r ≡ (ok ciphertext, r1)
      → unseal c r.context header h.sequence ciphertext ≡ ok p
      → read_body c s header r ≡ accept c s h.frame_type p r1
  unfolding read_body
  body_as header r r1 h ciphertext p e0 e1 e2 e3 =
      ap (λ h. open_frame c s header h r) e0
      ∙ bind_step (lift (check_header r.sequence h)) _ r (ap (λ x. (x, r)) e1)
      ∙ bind_step (read_exact c s (h.length + tag_length)) _ r e2
      ∙ bind_step (lift (unseal c r.context header h.sequence ciphertext)) _ r1
          (ap (λ x. (x, r1)) e3)

  -- The frame is taken, and the reader stands behind it.
  pub read_next_frame_runs :
      (t : ℕ) (p frame back : Bytes) (r : VaultReader s)
      → Frame c r.context t r.sequence p frame
      → Fits t p back
      → is.rest r.inner ≡ frame ++ back
      → ((read_next_frame c s r).0 ≡ ok tt) × Behind t p back r (read_next_frame c s r).1
  unfolding read_next_frame
  read_next_frame_runs t p frame back r (header, ciphertext, room, sealed, split) fits rest =
      let (laid, opened, len, _) =
        seal→unseal c ic r.context t r.sequence p header ciphertext sealed in
      let n : ℕ = length p in
      let len9 : length header ≡ frame_header_length = rw laid (length-layout t r.sequence n) in
      let rest1 : is.rest r.inner ≡ header ++ (ciphertext ++ back) =
        rest ∙ ap (λ b. b ++ back) split ∙ append_assoc header ciphertext back in
      let (read1, left1) =
        read_front frame_header_length r header (ciphertext ++ back) len9 rest1 in
      let r1 : VaultReader s = record r { inner = (s.read_exact frame_header_length r.inner).1 } in
      let (read2, left2) = read_front (n + tag_length) r1 ciphertext back len left1 in
      let r2 : VaultReader s = record r1 { inner = (s.read_exact (n + tag_length) r1.inner).1 } in
      let h : Header = record { frame_type = t; sequence = r.sequence; length = n } in
      let short = Fits-le fits in
      let parsed : parse_header header ≡ h =
        rw laid (parse_header-layout t r.sequence n (omega arith) (omega arith)) in
      let body : read_body c s header r1 ≡ accept c s t p r2 =
        body_as header r1 r2 h ciphertext p parsed (check_header-Fits t r.sequence p back fits)
          read2 opened in
      let all : bind (read_exact c s frame_header_length) (read_body c s) r ≡ accept c s t p r2 =
        bind_step (read_exact c s frame_header_length) (read_body c s) r read1 ∙ body in
      let (done, b) = accept_runs t p back r2 fits room left2 in
      rw all (
        done,
        record {
          rest_eq = b.rest_eq;
          context_eq = b.context_eq;
          sequence_eq = b.sequence_eq;
          outcome = b.outcome;
        },
      )
