-- ===== src/Keys.antt =====
-- src/crypto/kdf.rs: the parameters of Argon2id and the key that a password gives;
-- what the code calls of the `base64` and `argon2` crates.
pub mod Derive
pub mod Wrap
use codex_vault.Prelude.{
  ℕ, ◌≡◌, Bool, not, ◌&&◌, ◌||◌, Option, none, some, leb, ◌==◌, length, ok, err, ok_or, fail_if,
  ◌>>=◌, ◌>>◌,
}
use codex_vault.Prelude.Bytes.{Bytes, Text, ascii, eq_bytes}
use codex_vault.Error.{VaultResult, invalid_configuration, cryptography}
use codex_vault.Manifest.{KdfParameters}

abbrev pub salt_length : ℕ
salt_length = 16

abbrev pub key_length : ℕ
key_length = 32

-- The standard engine of `base64`.
pub record Base64 : Type 0 where
  pub encode : Bytes → Text
  pub decode : Text → Option Bytes

-- What is encoded is decoded.
pub record IsBase64 (b : Base64) : Type 0 where
  pub decode-encode : (bytes : Bytes) → b.decode (b.encode bytes) ≡ some bytes

-- `Params::new` accepts a memory cost, a time cost, a parallelism and an output length;
-- `hash_password_into` takes these, the password and the salt.
pub record Argon2 : Type 0 where
  pub accepts : ℕ → ℕ → ℕ → ℕ → Bool
  pub hash_password_into : ℕ → ℕ → ℕ → ℕ → Bytes → Bytes → Option Bytes

-- `default_kdf_parameters`, by the salt that `getrandom::fill` gave, if it gave one.
unfoldable pub default_kdf_parameters : Base64 → Option Bytes → VaultResult KdfParameters
default_kdf_parameters b none = err (cryptography "operating-system random source failed")
default_kdf_parameters b (some salt) = ok (record {
  algorithm = ascii "argon2id";
  salt = b.encode salt;
  memory_cost_ki_b = 65536;
  time_cost = 3;
  parallelism = 1;
  output_length = key_length;
})

-- `(low..=high).contains(&n)`
abbrev pub contains : ℕ → ℕ → ℕ → Bool
contains low high n = leb low n && leb n high

unfoldable pub validate_parameters : KdfParameters → VaultResult (Unit {0})
validate_parameters p =
    fail_if
      (not (eq_bytes p.algorithm (ascii "argon2id"))
        || (not (contains 16384 262144 p.memory_cost_ki_b)
            || (not (contains 1 10 p.time_cost)
                || (not (contains 1 16 p.parallelism) || not (p.output_length == key_length)))))
      (invalid_configuration "invalid Argon2id parameters in user manifest")

-- `derive_key`. On the platforms of the program a `u32` fits a `usize`.
unfoldable pub derive_key : Base64 → Argon2 → Bytes → KdfParameters → VaultResult Bytes
derive_key b a password p = do
  validate_parameters p
  salt ← ok_or (b.decode p.salt) (invalid_configuration "invalid KDF salt encoding")
  fail_if (not (length salt == salt_length)) (invalid_configuration "invalid KDF salt length")
  fail_if (not (a.accepts p.memory_cost_ki_b p.time_cost p.parallelism p.output_length))
      (invalid_configuration "invalid Argon2id parameters")
  ok_or
      (a.hash_password_into p.memory_cost_ki_b p.time_cost p.parallelism p.output_length password
        salt)
      (cryptography "Argon2id key derivation failed")
