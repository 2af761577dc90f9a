-- ===== src/Keys/Derive.antt =====
-- The parameters that the key derivation of src/crypto/kdf.rs accepts.
use codex_vault.Prelude.{◌≤◌, ◌≡◌, inl, inr, true, some, arith, Option-cases, length, ok}
use codex_vault.Prelude.Bytes.{Bytes, ascii, eq_bytes}
use codex_vault.Prelude.Bytes.Laws.{eq_bytes→eq, eq_bytes_refl}
use codex_vault.Manifest.{KdfParameters}
use codex_vault.Keys.{
  Base64, IsBase64, Argon2, default_kdf_parameters, validate_parameters, derive_key, salt_length,
  key_length,
}

-- The bounds on the work that a manifest can ask for.
abbrev pub IsBounded : KdfParameters → Type 0
IsBounded p =
    (16384 ≤ p.memory_cost_ki_b)
    × (p.memory_cost_ki_b ≤ 262144)
    × (1 ≤ p.time_cost)
    × (p.time_cost ≤ 10)
    × (1 ≤ p.parallelism)
    × (p.parallelism ≤ 16)
    × (p.output_length ≡ key_length)

-- A key is derived only with Argon2id parameters within the bounds and a salt of 16 bytes, and is
-- the one that Argon2id gives for them.
pub derive_key-IsBounded :
    (b : Base64) (a : Argon2) (password : Bytes) (p : KdfParameters) (key : Bytes)
    → derive_key b a password p ≡ ok key
    → (p.algorithm ≡ ascii "argon2id")
      × IsBounded p
      × ((salt : Bytes) × (b.decode p.salt ≡ some salt)
          × (length salt ≡ salt_length)
          × (a.hash_password_into p.memory_cost_ki_b p.time_cost p.parallelism p.output_length
                password salt
              ≡ some key))
unfolding derive_key validate_parameters
derive_key-IsBounded b a password p key e = elim (Option-cases (b.decode p.salt)) [
  | inl missing ↦ absurd (ground arith)
  | inr (salt, es) ↦
      let h : eq_bytes p.algorithm (ascii "argon2id") ≡ true = ground arith in
      (eq_bytes→eq _ _ h, ground arith, (salt, es, ground arith, ground arith))
]

-- With base64 as documented, the default parameters with a salt of 16 bytes are accepted: the key
-- is the one that Argon2id gives for 64 MiB, three passes and one lane.
derive_key-default_kdf_parameters :
    (b : Base64) (a : Argon2) (password salt key : Bytes) (p : KdfParameters)
    → IsBase64 b
    → length salt ≡ salt_length
    → default_kdf_parameters b (some salt) ≡ ok p
    → a.accepts 65536 3 1 32 ≡ true
    → a.hash_password_into 65536 3 1 32 password salt ≡ some key
    → derive_key b a password p ≡ ok key
unfolding derive_key validate_parameters default_kdf_parameters
derive_key-default_kdf_parameters b a password salt key p ib hs hp ha hk =
    ground (arith, ib.decode-encode salt, eq_bytes_refl (ascii "argon2id"))
