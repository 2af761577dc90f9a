-- ===== src/Stream/Nonce.antt =====
-- The nonces of the frames as numbers: the seed of a file and the sequence number of a frame.
use codex_vault.Prelude.{
  [], ℕ, ◌+◌, ◌*◌, ◌/◌, ◌%◌, ◌^◌, ◌≤◌, ◌<◌, ◌≡◌, refl, ap, ◌∙◌, ◌∷◌, ok, err, length, All, arith,
  suc,
}
use codex_vault.Prelude.Bytes.{Bytes, IsByte, be_value}
use codex_vault.Prelude.Bytes.Value.{be_value-lt}
use codex_vault.Error.{cryptography}
use codex_vault.Stream.Format.{add_carry, nonce_bytes}
use native.Mathlib.Nat.{pow-suc}

length-add_carry : (seed : Bytes) (sequence : ℕ) → length (add_carry seed sequence).0 ≡ length seed
unfolding add_carry
length-add_carry [] sequence = refl
length-add_carry (byte ∷ bytes) sequence = ap suc (length-add_carry bytes sequence)

add_carry_value :
    (seed : Bytes) (sequence : ℕ)
    → be_value (add_carry seed sequence).0 + (add_carry seed sequence).1 * 256 ^ length seed
      ≡ be_value seed + sequence
unfolding add_carry be_value
add_carry_value [] sequence = omega arith
add_carry_value (byte ∷ bytes) sequence =
    let carry : ℕ = (add_carry bytes sequence).1 in
    let sum : ℕ = byte + carry % 256 in
    let split : sum % 256 + (carry / 256 + sum / 256) * 256 ≡ byte + carry = omega arith in
    rw (pow-suc, length-add_carry)
      (omega (arith, add_carry_value bytes sequence, ap (λ (t : ℕ). t * 256 ^ length bytes) split))

add_carry-IsByte : (seed : Bytes) (sequence : ℕ) → All IsByte (add_carry seed sequence).0
unfolding add_carry
add_carry-IsByte [] sequence = tt
add_carry-IsByte (byte ∷ bytes) sequence = (omega arith, add_carry-IsByte bytes sequence)

module _ (seed : Bytes) (length_seed : length seed ≡ 12) where
  carry_value :
      (sequence : ℕ)
      → be_value (add_carry seed sequence).0 + (add_carry seed sequence).1 * 256 ^ 12
        ≡ be_value seed + sequence
  carry_value sequence = rw length_seed at (add_carry_value seed sequence)

  length_sum : (sequence : ℕ) → length (add_carry seed sequence).0 ≡ 12
  length_sum sequence = length-add_carry seed sequence ∙ length_seed

  sum-lt : (sequence : ℕ) → be_value (add_carry seed sequence).0 < 256 ^ 12
  sum-lt sequence = rw (length_sum sequence) at (be_value-lt _ (add_carry-IsByte seed sequence))

  -- The sum of seed and sequence fits 96 bits: the nonce is that sum, in 12 bytes. It does not
  -- fit: the call fails with the overflow error.
  pub nonce_bytes_exact :
      (sequence : ℕ)
      → (be_value seed + sequence < 256 ^ 12
          → (nonce : Bytes) × (nonce_bytes seed sequence ≡ ok nonce)
            × (be_value nonce ≡ be_value seed + sequence)
            × (length nonce ≡ 12)
            × All IsByte nonce)
        × (256 ^ 12 ≤ be_value seed + sequence
            → nonce_bytes seed sequence ≡ err (cryptography "vault nonce sequence overflow"))
  unfolding nonce_bytes
  nonce_bytes_exact sequence = (
    λ fits. (
      (add_carry seed sequence).0,
      ground (arith, carry_value sequence, sum-lt sequence),
      ground (arith, carry_value sequence, sum-lt sequence),
      length_sum sequence,
      add_carry-IsByte seed sequence,
    ),
    λ large. ground (arith, carry_value sequence, sum-lt sequence),
  )

  pub nonce_bytes_ok :
      (sequence : ℕ) {nonce : Bytes}
      → nonce_bytes seed sequence ≡ ok nonce
      → (be_value nonce ≡ be_value seed + sequence) × (length nonce ≡ 12)
  unfolding nonce_bytes
  nonce_bytes_ok sequence {nonce} h = ground (arith, carry_value sequence, length_sum sequence)
