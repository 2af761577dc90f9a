-- ===== src/Keys/Wrap.antt =====
-- src/crypto/key_wrap.rs: the data key, sealed under the key that the password gives.
pub mod Laws
use codex_vault.Prelude.{
  ℕ, ◌-◌, not, ◌||◌, Option, none, some, ◌++◌, ltb, ◌==◌, if◌then◌else◌, length, take, drop, ok,
  ok_or, fail_if, ◌>>=◌, ◌>>◌,
}
use codex_vault.Prelude.Bytes.{Bytes, ascii}
use codex_vault.Error.{VaultResult, authentication, cryptography}
use codex_vault.Manifest.{WrappedKey}
use codex_vault.Stream.Format.{Aead, tag_length, new_from_slice, nonce_from}
use codex_vault.Keys.{Base64, key_length}

abbrev pub nonce_length : ℕ
nonce_length = 12

-- `checked_sub`
abbrev pub checked_sub : ℕ → ℕ → Option ℕ
checked_sub a b = if ltb a b then none else some (a - b)

module _ (c : Aead) (b : Base64) where
  -- The end of `wrap_data_key`: the ciphertext and its tag, encoded apart.
  abbrev pub wrapped_key : Bytes → Bytes → ℕ → WrappedKey
  wrapped_key nonce encrypted split = record {
    algorithm = ascii "aes-256-gcm";
    iv = b.encode nonce;
    ciphertext = b.encode (take split encrypted);
    authentication_tag = b.encode (drop split encrypted);
  }

  -- `wrap_data_key`, by the nonce that `getrandom::fill` gave, if it gave one.
  unfoldable pub wrap_data_key : Option Bytes → Bytes → Bytes → Bytes → VaultResult WrappedKey
  wrap_data_key random data_key wrapping_key associated_data = do
    nonce_bytes ← ok_or random (cryptography "operating-system random source failed")
    cipher ← ok_or (new_from_slice wrapping_key) (cryptography "invalid wrapping key")
    nonce ← ok_or (nonce_from nonce_bytes) (cryptography "invalid key-wrap nonce")
    encrypted ←
        ok_or (c.encrypt cipher nonce associated_data data_key)
          (cryptography "data-key wrapping failed")
    split ←
        ok_or (checked_sub (length encrypted) tag_length)
          (cryptography "invalid wrapped data-key length")
    ok (wrapped_key nonce_bytes encrypted split)

  -- `unwrap_data_key`
  unfoldable pub unwrap_data_key : WrappedKey → Bytes → Bytes → VaultResult Bytes
  unwrap_data_key wrapped wrapping_key associated_data = do
    nonce_bytes ← ok_or (b.decode wrapped.iv) authentication
    ciphertext ← ok_or (b.decode wrapped.ciphertext) authentication
    tag ← ok_or (b.decode wrapped.authentication_tag) authentication
    fail_if
        (not (length nonce_bytes == nonce_length)
          || (not (length ciphertext == key_length) || not (length tag == tag_length)))
        authentication
    cipher ← ok_or (new_from_slice wrapping_key) authentication
    nonce ← ok_or (nonce_from nonce_bytes) authentication
    plaintext ← ok_or (c.decrypt cipher nonce associated_data (ciphertext ++ tag)) authentication
    ok_or (if length plaintext == key_length then some plaintext else none) authentication
