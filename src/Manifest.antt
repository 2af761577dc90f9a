-- ===== src/Manifest.antt =====
-- src/manifest.rs: the manifest of a user, its validation, and the bytes that bind its header
-- to the wrapped data key.
pub mod Header
pub mod Names
use codex_vault.Prelude.{
  [], ℕ, Bool, true, false, not, ◌&&◌, ◌||◌, Option, none, some, ◌∷◌, ◌++◌, ltb, leb, ◌==◌,
  if◌then◌else◌, length, ok, err, fail_if, ◌>>=◌, ◌>>◌,
}
use codex_vault.Prelude.Bytes.{Bytes, Text, ascii, eq_bytes, u32_max, u32_to_be, u64_to_be}
use codex_vault.Error.{VaultResult, invalid_configuration}

abbrev pub manifest_version : ℕ
manifest_version = 1

-- "cdxvlt02"
abbrev pub vault_format : Text
vault_format = ascii "cdxvlt02"

pub record KdfParameters : Type 0 where
  pub algorithm : Text
  pub salt : Text
  pub memory_cost_ki_b : ℕ
  pub time_cost : ℕ
  pub parallelism : ℕ
  pub output_length : ℕ

pub record WrappedKey : Type 0 where
  pub algorithm : Text
  pub iv : Text
  pub ciphertext : Text
  pub authentication_tag : Text

pub record UserManifest : Type 0 where
  pub version : ℕ
  pub id : Text
  pub username : Text
  pub created_at : ℕ
  pub kdf : KdfParameters
  pub wrapped_data_key : WrappedKey
  pub vault_format : Text

-- `UserManifest::new_header`, by the clock's seconds since the epoch, if it is not before, and the
-- text of the random UUID.
unfoldable pub new_header : Option ℕ → Text → Text → KdfParameters → VaultResult UserManifest
new_header none id username kdf = err (invalid_configuration "system clock is before Unix epoch")
new_header (some created_at) id username kdf = ok (record {
  version = manifest_version;
  id = id;
  username = username;
  created_at = created_at;
  kdf = kdf;
  wrapped_data_key = record {
    algorithm = ascii "aes-256-gcm";
    iv = [];
    ciphertext = [];
    authentication_tag = [];
  };
  vault_format = vault_format;
})

-- `push_field`: the output that it leaves.
unfoldable pub push_field : Bytes → Bytes → VaultResult Bytes
push_field output value =
    if ltb u32_max (length value)
    then err (invalid_configuration "manifest field exceeds encoding limit")
    else ok (output ++ (u32_to_be (length value) ++ value))

-- b"CDXVAULT-WRAP-AAD-01"
abbrev pub label : Bytes
label = ascii "CDXVAULT-WRAP-AAD-01"

-- `UserManifest::associated_data`
unfoldable pub associated_data : UserManifest → VaultResult Bytes
associated_data m = do
  with_id ← push_field (label ++ u32_to_be m.version) m.id
  with_username ← push_field with_id m.username
  with_algorithm ← push_field (with_username ++ u64_to_be m.created_at) m.kdf.algorithm
  with_salt ← push_field with_algorithm m.kdf.salt
  push_field
      (with_salt
        ++ (u32_to_be m.kdf.memory_cost_ki_b
            ++ (u32_to_be m.kdf.time_cost
                ++ (u32_to_be m.kdf.parallelism ++ u32_to_be m.kdf.output_length))))
      m.vault_format

-- `u8::is_ascii_alphanumeric`
abbrev pub is_ascii_alphanumeric : ℕ → Bool
is_ascii_alphanumeric b =
    (leb 48 b && leb b 57) || ((leb 65 b && leb b 90) || (leb 97 b && leb b 122))

-- The bytes of a username: alphanumeric, or one of '.', '_' and '-'.
abbrev pub is_name_byte : ℕ → Bool
is_name_byte b = is_ascii_alphanumeric b || (b == 46 || (b == 95 || b == 45))

unfoldable pub all_name_bytes : Text → Bool
all_name_bytes [] = true
all_name_bytes (b ∷ bs) = is_name_byte b && all_name_bytes bs

unfoldable pub is_valid_username : Text → Bool
is_valid_username [] = false
is_valid_username (b ∷ bs) =
    if ltb 64 (length (b ∷ bs)) || not (is_ascii_alphanumeric b)
    then false
    else all_name_bytes (b ∷ bs)

-- `UserManifest::validate`, with the test that `Uuid::parse_str` accepts a text.
unfoldable pub validate : (Text → Bool) → UserManifest → VaultResult (Unit {0})
validate is_uuid m =
    fail_if
      (not (m.version == manifest_version)
        || (not (is_uuid m.id)
            || (not (is_valid_username m.username)
                || (m.created_at == 0
                    || (not (eq_bytes m.vault_format vault_format)
                        || not (eq_bytes m.wrapped_data_key.algorithm (ascii "aes-256-gcm")))))))
      (invalid_configuration "unsupported or invalid user manifest")
