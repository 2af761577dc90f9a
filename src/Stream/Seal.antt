-- ===== src/Stream/Seal.antt =====
-- Sealing a frame and opening it: the fields of a header, `seal` of the writer and `unseal` of the
-- reader.
use codex_vault.Prelude.{
  [], ℕ, ◌+◌, ◌≤◌, ◌≡◌, refl, ◌∷◌, ◌++◌, length, ok, All, arith, Result-cases, inl, inr,
}
use codex_vault.Prelude.Bytes.{Bytes, IsByte, IsU32, u32_max, u32_to_be, u32_from_be}
use codex_vault.Stream.Format.{
  Aead, IsAead, nonce_bytes, frame_header, tag_length, frame_header_length,
}
use codex_vault.Stream.Frame.{Context, seal}
use codex_vault.Stream.Reader.{parse_header, unseal}

abbrev pub layout : ℕ → ℕ → ℕ → Bytes
layout frame_type sequence length = frame_type ∷ (u32_to_be sequence ++ u32_to_be length)

pub length-layout : (t n l : ℕ) → length (layout t n l) ≡ frame_header_length
unfolding u32_to_be
length-layout t n l = refl

pub parse_header-layout :
    (t n l : ℕ)
    → IsU32 n
    → IsU32 l
    → parse_header (layout t n l) ≡ record { frame_type = t; sequence = n; length = l }
unfolding parse_header u32_to_be u32_from_be
parse_header-layout t n l hn hl = ground arith

pub layout-parse_header :
    (header : Bytes)
    → length header ≡ frame_header_length
    → All IsByte header
    → let h = parse_header header in
      (header ≡ layout h.frame_type h.sequence h.length) × IsU32 h.sequence × IsU32 h.length
unfolding parse_header u32_to_be u32_from_be
layout-parse_header (t ∷ a ∷ b ∷ c ∷ d ∷ e ∷ f ∷ g ∷ i ∷ []) len h = ground arith
layout-parse_header [] len h = absurd (omega arith)
layout-parse_header _ len h = absurd (omega arith)

module _ (c : Aead) (ic : IsAead c) (k : Context) where
  -- What `seal` gives is a laid out header and a ciphertext that `unseal` opens.
  pub seal→unseal :
      (t n : ℕ) (plaintext header ciphertext : Bytes)
      → seal c k t n plaintext ≡ ok (header, ciphertext)
      → (header ≡ layout t n (length plaintext))
        × (unseal c k header n ciphertext ≡ ok plaintext)
        × (length ciphertext ≡ length plaintext + tag_length)
        × (length plaintext ≤ u32_max)
  unfolding seal unseal frame_header
  seal→unseal t n plaintext header ciphertext e = elim (Result-cases (nonce_bytes k.nonce_seed n)) [
    | inl (nonce, en) ↦
        let aad : Bytes = k.file_header ++ layout t n (length plaintext) in
        ground (
          arith,
          ic.decrypt_iff k.cipher nonce aad plaintext ciphertext,
          ic.length_ciphertext k.cipher nonce aad plaintext ciphertext,
        )
    | inr (x, en) ↦ ground arith
  ]

  pub unseal→seal :
      (t n : ℕ) (plaintext ciphertext : Bytes)
      → length plaintext ≤ u32_max
      → unseal c k (layout t n (length plaintext)) n ciphertext ≡ ok plaintext
      → seal c k t n plaintext ≡ ok (layout t n (length plaintext), ciphertext)
  unfolding seal unseal frame_header
  unseal→seal t n plaintext ciphertext l e = elim (Result-cases (nonce_bytes k.nonce_seed n)) [
    | inl (nonce, en) ↦
        let aad : Bytes = k.file_header ++ layout t n (length plaintext) in
        ground (arith, ic.decrypt_iff k.cipher nonce aad plaintext ciphertext)
    | inr (x, en) ↦ ground arith
  ]

  pub length-unseal :
      (n : ℕ) (plaintext header ciphertext : Bytes)
      → unseal c k header n ciphertext ≡ ok plaintext
      → length ciphertext ≡ length plaintext + tag_length
  unfolding unseal
  length-unseal n plaintext header ciphertext e = elim (Result-cases (nonce_bytes k.nonce_seed n)) [
    | inl (nonce, en) ↦
        let aad : Bytes = k.file_header ++ header in
        ground (
          arith,
          ic.decrypt_iff k.cipher nonce aad plaintext ciphertext,
          ic.length_ciphertext k.cipher nonce aad plaintext ciphertext,
        )
    | inr (x, en) ↦ absurd (ground arith)
  ]
