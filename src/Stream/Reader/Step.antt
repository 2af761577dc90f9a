-- ===== src/Stream/Reader/Step.antt =====
-- One frame: what a successful `read_next_frame` has taken off the source, and where it leaves
-- the reader.
use codex_vault.Prelude.{
  [], ℕ, ◌+◌, ◌<◌, ◌≤◌, ◌≡◌, refl, ◌∙◌, sym, ap, true, ◌⊎◌, inl, inr, Bool, ◌∷◌, ◌++◌, append_assoc,
  ok, bind-eq-ok, arith, length, All, All-front, Result-cases,
}
use codex_vault.Prelude.Bytes.{Bytes, IsByte, u32_max}
use codex_vault.Device.{Source, IsSource}
use codex_vault.Stream.Format.{
  Aead, IsAead, chunk_size, data_frame, final_frame, frame_header_length, tag_length,
}
use codex_vault.Stream.Frame.{Context, Frame, seal}
use codex_vault.Stream.Seal.{layout, layout-parse_header, unseal→seal, length-unseal}
use codex_vault.Stream.Reader.{
  VaultReader, Header, parse_header, check_header, unseal, on_source, read_exact, accept, read_body,
  read_next_frame,
}

-- The tests of a header say what it may hold.
check_header_ok :
    (n : ℕ) (h : Header)
    → check_header n h ≡ ok tt
    → (h.sequence ≡ n)
      × (h.length ≤ chunk_size)
      × ((h.frame_type ≡ data_frame) ⊎ (h.frame_type ≡ final_frame) × (h.length ≡ 0))
unfolding check_header
check_header_ok n h e = ground arith

module _ (c : Aead) (s : Source) (is : IsSource s) where
  -- Where the reader stands after a frame of each type.
  pub data Outcome (t : ℕ) (p : Bytes) (was : Bool) (r' : VaultReader s) : Type 0 where
    loaded :
        t ≡ data_frame
        → r'.plaintext ≡ p
        → r'.plaintext_offset ≡ 0
        → r'.finalized ≡ was
        → Outcome t p was r'
    ended :
        t ≡ final_frame
        → p ≡ []
        → is.rest r'.inner ≡ []
        → r'.plaintext ≡ []
        → r'.finalized ≡ true
        → Outcome t p was r'

  pub record Opened (r r' : VaultReader s) : Type 0 where
    pub frame_type : ℕ
    pub plaintext : Bytes
    pub frame : Bytes
    pub frame_ok : Frame c r.context frame_type r.sequence plaintext frame
    pub rest_eq : is.rest r.inner ≡ frame ++ is.rest r'.inner
    pub short : length plaintext ≤ chunk_size
    pub context_eq : r'.context ≡ r.context
    pub sequence_eq : r'.sequence ≡ r.sequence + 1
    pub outcome : Outcome frame_type plaintext r.finalized r'

  read_exact_ok :
      (n : ℕ) (r : VaultReader s) (bytes : Bytes)
      → (read_exact c s n r).0 ≡ ok bytes
      → (is.rest r.inner ≡ bytes ++ is.rest (s.read_exact n r.inner).1)
        × (length bytes ≡ n)
        × ((read_exact c s n r).1 ≡ record r { inner = (s.read_exact n r.inner).1 })
  unfolding on_source
  read_exact_ok n r bytes e = ground (arith, is.read_exact_ok n r.inner bytes)

  -- What `accept` finds and leaves.
  record Accepted (t : ℕ) (p : Bytes) (r r' : VaultReader s) : Type 0 where
    room : r.sequence < u32_max
    rest_eq : is.rest r.inner ≡ is.rest r'.inner
    context_eq : r'.context ≡ r.context
    sequence_eq : r'.sequence ≡ r.sequence + 1
    outcome : Outcome t p r.finalized r'

  accept_data :
      (p : Bytes) (r : VaultReader s)
      → r.sequence ≤ u32_max
      → (accept c s data_frame p r).0 ≡ ok tt
      → Accepted data_frame p r (accept c s data_frame p r).1
  unfolding accept
  accept_data p r l e = record {
    room = ground arith;
    rest_eq = ground arith;
    context_eq = ground arith;
    sequence_eq = ground arith;
    outcome = loaded refl (ground arith) (ground arith) (ground arith);
  }

  accept_final :
      (r : VaultReader s)
      → r.sequence ≤ u32_max
      → (accept c s final_frame [] r).0 ≡ ok tt
      → Accepted final_frame [] r (accept c s final_frame [] r).1
  unfolding accept on_source
  accept_final r l e =
      let none : (s.read 1 r.inner).0 ≡ ok [] = ground arith in
      let (split, _) = is.read_ok 1 r.inner [] none in
      let clear : is.rest r.inner ≡ [] = is.read_nil 1 r.inner (omega arith) none in
      record {
        room = ground arith;
        rest_eq = ground arith;
        context_eq = ground arith;
        sequence_eq = ground arith;
        outcome = ended refl refl (ground arith) (ground arith) (ground arith);
      }

  accept_ok :
      (t : ℕ) (p : Bytes) (r : VaultReader s)
      → r.sequence ≤ u32_max
      → (t ≡ data_frame) ⊎ (t ≡ final_frame) × (p ≡ [])
      → (accept c s t p r).0 ≡ ok tt
      → Accepted t p r (accept c s t p r).1
  accept_ok t p r l (inl d) e = rw d (accept_data p r l (rw d at e))
  accept_ok t p r l (inr (f, n)) e = rw (f, n) (accept_final r l (rw (f, n) at e))

nil_of_length : (p : Bytes) → length p ≡ 0 → p ≡ []
nil_of_length [] h = refl
nil_of_length (x ∷ p) h = absurd (omega arith)

module _ (c : Aead) (ic : IsAead c) (s : Source) (is : IsSource s) where
  -- A frame whose header has been read already.
  record Body (header : Bytes) (r r' : VaultReader s) : Type 0 where
    frame_type : ℕ
    plaintext : Bytes
    ciphertext : Bytes
    sealed : seal c r.context frame_type r.sequence plaintext ≡ ok (header, ciphertext)
    short : length plaintext ≤ chunk_size
    rest_eq : is.rest r.inner ≡ ciphertext ++ is.rest r'.inner
    room : r.sequence < u32_max
    context_eq : r'.context ≡ r.context
    sequence_eq : r'.sequence ≡ r.sequence + 1
    outcome : Outcome c s is frame_type plaintext r.finalized r'

  sealed_from :
      (k : Context) (t m n l : ℕ) (header p ciphertext : Bytes)
      → header ≡ layout t m l
      → m ≡ n
      → length p ≡ l
      → length p ≤ u32_max
      → unseal c k header m ciphertext ≡ ok p
      → seal c k t n p ≡ ok (header, ciphertext)
  sealed_from k t m n l header p ciphertext laid e len fits u =
      let laid' : header ≡ layout t n (length p) = rw (← e, len) laid in
      let u' : unseal c k header n ciphertext ≡ ok p = rw (← e) u in
      rw laid' (unseal→seal c ic k t n p ciphertext fits (rw laid' at u'))

  typed :
      (t l : ℕ) (p : Bytes)
      → length p ≡ l
      → (t ≡ data_frame) ⊎ (t ≡ final_frame) × (l ≡ 0)
      → (t ≡ data_frame) ⊎ (t ≡ final_frame) × (p ≡ [])
  typed t l p e (inl d) = inl d
  typed t l p e (inr (f, z)) = inr (f, nil_of_length p (omega arith))

  -- The four calls of `read_body`, each with success.
  read_body_runs :
      (header : Bytes) (r : VaultReader s)
      → (read_body c s header r).0 ≡ ok tt
      → let h = parse_header header in
        (ciphertext : Bytes) × (plaintext : Bytes) × (check_header r.sequence h ≡ ok tt)
        × ((read_exact c s (h.length + tag_length) r).0 ≡ ok ciphertext)
        × (unseal c r.context header h.sequence ciphertext ≡ ok plaintext)
        × (read_body c s header r
            ≡ accept c s h.frame_type plaintext (read_exact c s (h.length + tag_length) r).1)
  unfolding read_body
  read_body_runs header r e =
      let h : Header = parse_header header in
      elim (Result-cases (check_header r.sequence h)) [
        | inl (_, e1) ↦ elim (Result-cases (read_exact c s (h.length + tag_length) r).0) [
          | inl (ciphertext, e2) ↦
              elim (Result-cases (unseal c r.context header h.sequence ciphertext)) [
                | inl (plaintext, e3) ↦ (ciphertext, plaintext, e1, e2, e3, ground arith)
                | inr (x, e3) ↦ absurd (ground arith)
              ]
          | inr (x, e2) ↦ absurd (ground arith)
        ]
        | inr (x, e1) ↦ absurd (ground arith)
      ]

  read_body_ok :
      (header : Bytes) (r : VaultReader s)
      → length header ≡ frame_header_length
      → All IsByte header
      → r.sequence ≤ u32_max
      → (read_body c s header r).0 ≡ ok tt
      → Body header r (read_body c s header r).1
  read_body_ok header r len bytes l e =
      let h : Header = parse_header header in
      let (laid, _, _) = layout-parse_header header len bytes in
      let (ciphertext, plaintext, e1, e2, e3, runs) = read_body_runs header r e in
      let (same_sequence, short, types) = check_header_ok r.sequence h e1 in
      let (rest2, len2, at2) = read_exact_ok c s is (h.length + tag_length) r ciphertext e2 in
      let len3 = length-unseal c ic r.context h.sequence plaintext header ciphertext e3 in
      let len4 : length plaintext ≡ h.length = omega arith in
      let r1 : VaultReader s = record r {
        inner = (s.read_exact (h.length + tag_length) r.inner).1;
      } in
      let kind : (h.frame_type ≡ data_frame) ⊎ (h.frame_type ≡ final_frame) × (plaintext ≡ []) =
        typed h.frame_type h.length plaintext len4 types in
      let a = accept_ok c s is h.frame_type plaintext r1 l kind (rw (runs, at2) at e) in
      let all : read_body c s header r ≡ accept c s h.frame_type plaintext r1 = rw (runs, at2) in
      rw all (record {
        frame_type = h.frame_type;
        plaintext = plaintext;
        ciphertext = ciphertext;
        sealed =
            sealed_from r.context h.frame_type h.sequence r.sequence h.length header plaintext
              ciphertext laid same_sequence len4 (omega arith) e3;
        short = omega arith;
        rest_eq = rest2 ∙ ap (λ b. ciphertext ++ b) a.rest_eq;
        room = a.room;
        context_eq = a.context_eq;
        sequence_eq = a.sequence_eq;
        outcome = a.outcome;
      })

  -- A frame whose plaintext is short, taken off the source; the reader stands behind it.
  pub read_next_frame_ok :
      (r : VaultReader s)
      → All IsByte (is.rest r.inner)
      → r.sequence ≤ u32_max
      → (read_next_frame c s r).0 ≡ ok tt
      → Opened c s is r (read_next_frame c s r).1
  unfolding read_next_frame
  read_next_frame_ok r bytes l e =
      let (header, e1, same) =
        bind-eq-ok (read_exact c s frame_header_length) (read_body c s) r e in
      let (rest1, len, at1) = read_exact_ok c s is frame_header_length r header e1 in
      let r1 : VaultReader s = record r { inner = (s.read_exact frame_header_length r.inner).1 } in
      let header_bytes = All-front IsByte header (is.rest r1.inner) (rw rest1 at bytes) in
      let b = read_body_ok header r1 len header_bytes l (rw (same, at1) at e) in
      rw (same, at1)
        (record {
          frame_type = b.frame_type;
          plaintext = b.plaintext;
          frame = header ++ b.ciphertext;
          frame_ok = (header, b.ciphertext, b.room, b.sealed, refl);
          rest_eq =
              rest1 ∙ ap (λ t. header ++ t) b.rest_eq ∙ sym (append_assoc header b.ciphertext _);
          short = b.short;
          context_eq = b.context_eq;
          sequence_eq = b.sequence_eq;
          outcome = b.outcome;
        })
