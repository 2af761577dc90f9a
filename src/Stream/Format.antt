-- ===== src/Stream/Format.antt =====
-- src/crypto/vault_stream.rs, lines 15 to 73: constants, nonces, frame headers, error mapping;
-- and what the code calls of the `aes_gcm` crate.
use codex_vault.Prelude.{
  [], ℕ, String, ◌+◌, ◌/◌, ◌%◌, ◌≤◌, ◌≡◌, ◌↔◌, Option, none, some, ◌∷◌, ◌++◌, ok, err,
  if◌then◌else◌, ltb, ◌==◌, length,
}
use codex_vault.Prelude.Bytes.{Bytes, u32_max, u32_to_be, ascii}
use codex_vault.Error.{
  ErrorKind, VaultError, integrity, cryptography, io, IoError, os, integrity_payload, VaultResult,
}

-- b"CDXVLT02"
abbrev pub magic : Bytes
magic = ascii "CDXVLT02"

abbrev pub nonce_seed_length : ℕ
nonce_seed_length = 12

abbrev pub file_header_length : ℕ
file_header_length = 20

abbrev pub frame_header_length : ℕ
frame_header_length = 9

abbrev pub tag_length : ℕ
tag_length = 16

abbrev pub chunk_size : ℕ
chunk_size = 65536

abbrev pub data_frame : ℕ
data_frame = 0

abbrev pub final_frame : ℕ
final_frame = 1

-- The `aes_gcm` crate: `encrypt` and `decrypt` take the key, the nonce, the associated data and
-- the message or the ciphertext with its tag.
pub record Aead : Type 0 where
  pub encrypt : Bytes → Bytes → Bytes → Bytes → Option Bytes
  pub decrypt : Bytes → Bytes → Bytes → Bytes → Option Bytes

-- AES-256-GCM as it is documented. It is deterministic under a nonce: decryption recomputes the
-- tag and accepts exactly the ciphertexts of encryption. A ciphertext is its message's length and
-- a tag of 16 bytes. Messages within the limit of 2 ^ 36 - 32 bytes are encrypted.
pub record IsAead (c : Aead) : Type 0 where
  pub decrypt_iff :
      (key nonce aad message ciphertext : Bytes)
      → (c.decrypt key nonce aad ciphertext ≡ some message)
        ↔ (c.encrypt key nonce aad message ≡ some ciphertext)
  pub length_ciphertext :
      (key nonce aad message ciphertext : Bytes)
      → c.encrypt key nonce aad message ≡ some ciphertext
      → length ciphertext ≡ length message + tag_length
  pub encrypt_total :
      (key nonce aad message : Bytes)
      → length key ≡ 32
      → length nonce ≡ 12
      → length message ≤ 68719476704
      → (ciphertext : Bytes) × (c.encrypt key nonce aad message ≡ some ciphertext)

-- `io_integrity`
abbrev pub io_integrity : String → IoError
io_integrity message = integrity_payload message

-- `map_read_error`: the payload if it downcasts, else by the error's kind.
unfoldable pub map_read_error : IoError → VaultError
map_read_error (integrity_payload message) = integrity message
map_read_error (os ErrorKind.invalid_data text) =
    integrity "encrypted vault or archive data is invalid"
map_read_error error = io error

-- The loop of `nonce_bytes` over the seed from its last byte; returns the bytes and the carry out.
unfoldable pub add_carry : Bytes → ℕ → Bytes × ℕ
add_carry [] carry = ([], carry)
add_carry (byte ∷ bytes) sequence =
    let (rest, carry) = add_carry bytes sequence in
    let sum = byte + carry % 256 in ((sum % 256) ∷ rest, carry / 256 + sum / 256)

unfoldable pub nonce_bytes : Bytes → ℕ → VaultResult Bytes
nonce_bytes seed sequence =
    let (bytes, carry) = add_carry seed sequence in
    if carry == 0 then ok bytes else err (cryptography "vault nonce sequence overflow")

unfoldable pub frame_header : ℕ → ℕ → ℕ → VaultResult Bytes
frame_header frame_type sequence length =
    if ltb u32_max length
    then err (cryptography "vault frame length overflow")
    else ok (frame_type ∷ (u32_to_be sequence ++ u32_to_be length))

-- `Aes256Gcm::new_from_slice` checks the length of the key, `Nonce::try_from` that of the nonce.
abbrev pub new_from_slice : Bytes → Option Bytes
new_from_slice key = if length key == 32 then some key else none

abbrev pub nonce_from : Bytes → Option Bytes
nonce_from bytes = if length bytes == 12 then some bytes else none
