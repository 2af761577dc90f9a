-- ===== src/Stream/Distinct.antt =====
-- src/crypto/vault_stream.rs: the nonces under which the frames of one file are encrypted.
use codex_vault.Prelude.{
  [], ℕ, suc, ◌+◌, ◌≤◌, ◌≡◌, ◌≢◌, refl, ap, some, List, ◌∷◌, ◌++◌, arith, All, length, ok, concat,
  chain-eq-ok, append-nil,
}
use codex_vault.Prelude.Bytes.{Bytes, be_value}
use codex_vault.Device.{Sink, IsSink}
use codex_vault.Stream.Format.{Aead, magic, frame_header, nonce_bytes}
use codex_vault.Stream.Frame.{Context, Frame, Sealed, seal}
use codex_vault.Stream.Nonce.{nonce_bytes_ok}
use codex_vault.Stream.Writer
use codex_vault.Stream.Writer.{VaultWriter}
use codex_vault.Stream.Writer.Image.{file_context, finish-Image}

-- No two are the same.
abbrev pub IsDistinct : List Bytes → Type 0
IsDistinct [] = Unit
IsDistinct (nonce ∷ nonces) = All (λ other. nonce ≢ other) nonces × IsDistinct nonces

-- The bytes are frames, each a header and the ciphertext of one plaintext under one nonce and the
-- key `cipher`, with the file header and its own as the associated data.
abbrev pub Encrypted : Aead → Bytes → Bytes → List Bytes → List Bytes → Bytes → Type 0
Encrypted c cipher file_header [] [] bytes = bytes ≡ []
Encrypted c cipher file_header (plaintext ∷ plaintexts) (nonce ∷ nonces) bytes =
    (header : Bytes) × (ciphertext : Bytes) × (back : Bytes) × (c.encrypt cipher nonce
        (file_header ++ header) plaintext
      ≡ some ciphertext)
    × Encrypted c cipher file_header plaintexts nonces back
    × (bytes ≡ (header ++ ciphertext) ++ back)
Encrypted c cipher file_header _ _ bytes = ⊥

module _ (c : Aead) (k : Context) (l12 : length k.nonce_seed ≡ 12) where
  -- The nonce that a frame is encrypted under: as a number, the seed and the sequence number.
  seal_ok :
      (t sequence : ℕ) (plaintext header ciphertext : Bytes)
      → seal c k t sequence plaintext ≡ ok (header, ciphertext)
      → (nonce : Bytes) × (c.encrypt k.cipher nonce (k.file_header ++ header) plaintext
          ≡ some ciphertext)
        × (be_value nonce ≡ be_value k.nonce_seed + sequence)
  unfolding seal
  seal_ok t sequence plaintext header ciphertext e =
      let (header_, eh, e1) = chain-eq-ok _ (frame_header t sequence (length plaintext)) e in
      let (nonce, ed, e2) = chain-eq-ok _ (nonce_bytes k.nonce_seed sequence) e1 in
      let (value, long) = nonce_bytes_ok k.nonce_seed l12 sequence ed in
      (nonce, ground (arith, long), value)

  -- The nonces of frames that are numbered from a sequence number on.
  record Nonces (sequence : ℕ) (plaintexts : List Bytes) (bytes : Bytes) : Type 0 where
    nonces : List Bytes
    frames : Encrypted c k.cipher k.file_header plaintexts nonces bytes
    distinct : IsDistinct nonces
    above : All (λ nonce. be_value k.nonce_seed + sequence ≤ be_value nonce) nonces

  later :
      (base n : ℕ) (nonce : Bytes) (nonces : List Bytes)
      → be_value nonce ≡ base + n
      → All (λ other. base + suc n ≤ be_value other) nonces
      → All (λ other. nonce ≢ other) nonces × All (λ other. base + n ≤ be_value other) nonces
  later base n nonce [] e h = (tt, tt)
  later base n nonce (other ∷ nonces) e (lo, h) =
      let (apart, above) = later base n nonce nonces e h in
      (((λ same. omega (arith, ap be_value same)), apart), (omega arith, above))

  cons-Nonces :
      (t sequence : ℕ) (plaintext front back : Bytes) (plaintexts : List Bytes)
      → Frame c k t sequence plaintext front
      → Nonces (suc sequence) plaintexts back
      → Nonces sequence (plaintext ∷ plaintexts) (front ++ back)
  cons-Nonces t sequence plaintext front back plaintexts (header, ciphertext, small, sealed, e)
        rest =
      let (nonce, encrypted, value) = seal_ok t sequence plaintext header ciphertext sealed in
      let (apart, above) =
        later (be_value k.nonce_seed) sequence nonce rest.nonces value rest.above in
      record {
        nonces = nonce ∷ rest.nonces;
        frames = (header, ciphertext, back, encrypted, rest.frames, ap (λ x. x ++ back) e);
        distinct = (apart, rest.distinct);
        above = (omega arith, above);
      }

  Sealed-Nonces :
      (sequence : ℕ) (chunks : List Bytes) (bytes : Bytes)
      → Sealed c k sequence chunks bytes
      → Nonces sequence (chunks ++ ([] ∷ [])) bytes
  Sealed-Nonces sequence [] bytes frame = rw append-nil at (
      cons-Nonces _ sequence [] bytes [] [] frame
        (record { nonces = []; frames = refl; distinct = tt; above = tt }))
  Sealed-Nonces sequence (plaintext ∷ chunks) bytes (front, back, frame, sealed, e) = rw e (
      cons-Nonces _ sequence plaintext front back (chunks ++ ([] ∷ [])) frame
        (Sealed-Nonces (suc sequence) chunks back sealed))

module _ (c : Aead) (s : Sink) (is : IsSink s) where
  -- A writer is created with a seed of 12 bytes, given inputs and finished, each with success. It
  -- leaves behind what was there the file header and frames of the inputs, cut into chunks, with one
  -- more of no bytes; and the nonces that the cipher encrypted these frames under, with the key of
  -- the file, are all different.
  pub finish-IsDistinct :
      (seed key : Bytes) (inputs : List Bytes) (t : s.State) (w : VaultWriter s) (u : s.State)
      → length seed ≡ 12
      → (Writer.new c s (some seed) key t).0 ≡ ok w
      → (Writer.write_each c s inputs w).0 ≡ ok tt
      → (Writer.finish c s (Writer.write_each c s inputs w).1).0 ≡ ok u
      → (chunks : List Bytes) × (nonces : List Bytes) × (stream : Bytes) × (is.written u
          ≡ (is.written t ++ (magic ++ seed)) ++ stream)
        × (concat chunks ≡ concat inputs)
        × Encrypted c key (magic ++ seed) (chunks ++ ([] ∷ [])) nonces stream
        × IsDistinct nonces
  finish-IsDistinct seed key inputs t w u l12 e1 e2 e3 =
      let image = finish-Image c s is seed key inputs t w u e1 e2 e3 in
      let found =
        Sealed-Nonces c (file_context key seed) l12 0 image.chunks image.stream image.sealed in
      (
        image.chunks, found.nonces, image.stream, image.written_eq, image.input_eq, found.frames,
        found.distinct,
      )
