-- ===== src/Tests/Passwords.antt =====
-- Key derivation and key wrapping, with a cipher and an encoding that run.
use codex_vault.Prelude.{
  [], ◌≡◌, refl, ok, err, true, some, none, ◌∷◌, ◌++◌, length, replicate, take,
}
use codex_vault.Prelude.Bytes.{Bytes, ascii, eq_bytes}
use codex_vault.Error.{authentication}
use codex_vault.Manifest.{WrappedKey, KdfParameters}
use codex_vault.Keys.{
  Base64, IsBase64, Argon2, default_kdf_parameters, validate_parameters, derive_key,
}
use codex_vault.Keys.Derive.{IsBounded, derive_key-IsBounded}
use codex_vault.Keys.Wrap.{wrap_data_key, unwrap_data_key}
use codex_vault.Keys.Wrap.Laws.{unwrap_data_key-wrap_data_key, unwrap_data_key-encrypt}
use codex_vault.Tests.Cipher.{toy, toy_decrypt, toy-IsAead}

-- An encoding that writes a digit in front.
abbrev pub plain : Base64
plain = record {
  encode = λ bytes. 65 ∷ bytes;
  decode = λ text. elim text [ [] ↦ none | b ∷ bytes ↦ some bytes ];
}

pub plain-IsBase64 : IsBase64 plain
plain-IsBase64 = record { decode-encode = λ bytes. refl }

-- A derivation that gives the password, cut or filled up to 32 bytes.
unfoldable pub short_hash : Argon2
unfolding take replicate
short_hash = record {
  accepts = λ m t p n. true;
  hash_password_into = λ m t p n password salt. some (take 32 (password ++ replicate 32 0));
}

unfoldable pub data_key : Bytes
unfolding replicate
data_key = replicate 32 7

abbrev wrapping_key : Bytes
unfolding replicate
wrapping_key = replicate 32 1

unfoldable pub nonce : Bytes
unfolding replicate
nonce = replicate 12 2

unfoldable pub salt : Bytes
unfolding replicate
salt = replicate 16 9

wrapped : WrappedKey
unfolding replicate
wrapped = record {
  algorithm = ascii "aes-256-gcm";
  iv = 65 ∷ nonce;
  ciphertext = 65 ∷ data_key;
  authentication_tag = 65 ∷ replicate 16 61;
}

unwrap_data_key-wrap_data_key_example :
    (w : WrappedKey) × (wrap_data_key toy plain (some nonce) data_key wrapping_key (5 ∷ []) ≡ ok w)
    × (unwrap_data_key toy plain w wrapping_key (5 ∷ []) ≡ ok data_key)
unfolding nonce data_key wrapping_key
unwrap_data_key-wrap_data_key_example =
    unwrap_data_key-wrap_data_key toy toy-IsAead plain plain-IsBase64 nonce data_key wrapping_key
      (5 ∷ []) refl refl refl

unwraps : unwrap_data_key toy plain wrapped wrapping_key (5 ∷ []) ≡ ok data_key
unfolding unwrap_data_key toy_decrypt wrapped nonce data_key
unwraps = refl

unwrap_data_key-encrypt_example :
    (n : Bytes) × (ciphertext : Bytes) × (tag : Bytes) × (plain.decode wrapped.iv ≡ some n)
    × (plain.decode wrapped.ciphertext ≡ some ciphertext)
    × (plain.decode wrapped.authentication_tag ≡ some tag)
    × (toy.encrypt wrapping_key n (5 ∷ []) data_key ≡ some (ciphertext ++ tag))
    × (length data_key ≡ 32)
unwrap_data_key-encrypt_example =
    unwrap_data_key-encrypt toy toy-IsAead plain wrapped wrapping_key (5 ∷ []) data_key unwraps

refuses : unwrap_data_key toy plain wrapped wrapping_key (6 ∷ []) ≡ err authentication
unfolding unwrap_data_key toy_decrypt wrapped nonce data_key
refuses = refl

abbrev pub password : Bytes
password = ascii "correct horse"

abbrev parameters : KdfParameters
parameters = record {
  algorithm = ascii "argon2id";
  salt = 65 ∷ salt;
  memory_cost_ki_b = 65536;
  time_cost = 3;
  parallelism = 1;
  output_length = 32;
}

abbrev derived : Bytes
unfolding take replicate
derived = take 32 (password ++ replicate 32 0)

by_default : default_kdf_parameters plain (some salt) ≡ ok parameters
unfolding default_kdf_parameters
by_default = refl

derives : derive_key plain short_hash password parameters ≡ ok derived
unfolding derive_key validate_parameters eq_bytes salt short_hash
derives = refl

derive_key-IsBounded_example :
    (parameters.algorithm ≡ ascii "argon2id")
    × IsBounded parameters
    × ((s : Bytes) × (plain.decode parameters.salt ≡ some s)
        × (length s ≡ 16)
        × (short_hash.hash_password_into 65536 3 1 32 password s ≡ some derived))
derive_key-IsBounded_example =
    derive_key-IsBounded plain short_hash password parameters derived derives
