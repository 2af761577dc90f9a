-- ===== src/Stream/Frame.antt =====
-- The wire format: a sealed frame, a stream of sealed frames, and the bytes that spell it.
pub mod Laws
use codex_vault.Prelude.{[], ℕ, suc, ◌<◌, ◌≡◌, ◌∷◌, ◌++◌, List, length, ok, ok_or, ◌>>=◌, ◌>>◌}
use codex_vault.Prelude.Bytes.{Bytes, u32_max}
use codex_vault.Error.{VaultResult, cryptography}
use codex_vault.Stream.Format.{Aead, data_frame, final_frame, frame_header, nonce_bytes, nonce_from}

-- What stays the same in the frames of one file.
pub record Context : Type 0 where
  pub cipher : Bytes
  pub file_header : Bytes
  pub nonce_seed : Bytes

module _ (c : Aead) where
  -- `write_frame`, from the header to the ciphertext.
  unfoldable pub seal : Context → ℕ → ℕ → Bytes → VaultResult (Bytes × Bytes)
  seal k frame_type sequence plaintext = do
    header ← frame_header frame_type sequence (length plaintext)
    nonce_data ← nonce_bytes k.nonce_seed sequence
    nonce ← ok_or (nonce_from nonce_data) (cryptography "invalid vault nonce")
    ciphertext ←
        ok_or (c.encrypt k.cipher nonce (k.file_header ++ header) plaintext)
          (cryptography "vault frame encryption failed")
    ok (header, ciphertext)

  module _ (k : Context) where
    -- The bytes are one frame.
    abbrev pub Frame : ℕ → ℕ → Bytes → Bytes → Type 0
    Frame frame_type sequence plaintext bytes =
        (header : Bytes) × (ciphertext : Bytes) × (sequence < u32_max)
        × (seal k frame_type sequence plaintext ≡ ok (header, ciphertext))
        × (bytes ≡ header ++ ciphertext)

    -- The bytes are data frames with these plaintexts, numbered from the given sequence on.
    abbrev pub Frames : ℕ → List Bytes → Bytes → Type 0
    Frames sequence [] bytes = bytes ≡ []
    Frames sequence (plaintext ∷ plaintexts) bytes =
        (front : Bytes) × (back : Bytes) × Frame data_frame sequence plaintext front
        × Frames (suc sequence) plaintexts back
        × (bytes ≡ front ++ back)

    -- The same, closed by a final frame.
    abbrev pub Sealed : ℕ → List Bytes → Bytes → Type 0
    Sealed sequence [] bytes = Frame final_frame sequence [] bytes
    Sealed sequence (plaintext ∷ plaintexts) bytes =
        (front : Bytes) × (back : Bytes) × Frame data_frame sequence plaintext front
        × Sealed (suc sequence) plaintexts back
        × (bytes ≡ front ++ back)
