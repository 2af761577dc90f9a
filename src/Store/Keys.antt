-- ===== src/Store/Keys.antt =====
-- The data key of a profile through creation, unlocking and a change of the password.
use codex_vault.Prelude.{
  [], ℕ, ◌<◌, ◌≡◌, refl, sym, ap, ◌∙◌, Bool, true, not, Option, none, some, ◌∷◌, arith, length, ok,
  map_err, ok_or, fail_if, chain-eq-ok,
}
use codex_vault.Prelude.Bytes.{Bytes, Text, ascii, eq_bytes}
use codex_vault.Error.{cryptography, authentication}
use codex_vault.Prelude.Bytes.Laws.{eq_bytes_refl}
use codex_vault.Manifest.{
  manifest_version, vault_format, UserManifest, WrappedKey, associated_data, validate, new_header,
  is_valid_username,
}
use codex_vault.Stream.Format.{Aead, IsAead}
use codex_vault.Keys.{Base64, IsBase64, Argon2, default_kdf_parameters, derive_key, key_length}
use codex_vault.Keys.Wrap.{wrap_data_key}
use codex_vault.Keys.Wrap.Laws.{unwrap_data_key-encrypt, unwrap_of_wrap}
use codex_vault.Store.{
  eq_ignore_ascii_case, seal_key, open_keys, unlock_keys, create_keys, rotate_keys,
}

eq_ignore_ascii_case_refl : (s : Text) → eq_ignore_ascii_case s s ≡ true
unfolding eq_ignore_ascii_case
eq_ignore_ascii_case_refl [] = refl
eq_ignore_ascii_case_refl (b ∷ s) = ground (arith, eq_ignore_ascii_case_refl s)

associated_data_wrapped :
    (m : UserManifest) (w : WrappedKey)
    → associated_data (record m { wrapped_data_key = w }) ≡ associated_data m
unfolding associated_data
associated_data_wrapped m w = refl

validate_of_fields :
    (is_uuid : Text → Bool) (m : UserManifest)
    → m.version ≡ manifest_version
    → is_uuid m.id ≡ true
    → is_valid_username m.username ≡ true
    → 0 < m.created_at
    → eq_bytes m.vault_format vault_format ≡ true
    → eq_bytes m.wrapped_data_key.algorithm (ascii "aes-256-gcm") ≡ true
    → validate is_uuid m ≡ ok tt
unfolding validate
validate_of_fields is_uuid m hv hi hu hc hf ha = ground arith

module _ (c : Aead) (ic : IsAead c) (b : Base64) (ib : IsBase64 b) (a : Argon2) where
  -- The manifest that `seal_key` gives opens, under the password of its wrapping key.
  seal_key-Opens :
      (nonce : Option Bytes) (data_key wrapping_key password : Bytes) (m n : UserManifest)
      (username : Text)
      → length data_key ≡ key_length
      → seal_key c b a nonce data_key wrapping_key m ≡ ok n
      → derive_key b a password m.kdf ≡ ok wrapping_key
      → eq_ignore_ascii_case m.username username ≡ true
      → open_keys c b a n username password ≡ ok data_key
  unfolding seal_key open_keys
  seal_key-Opens nonce data_key wrapping_key password m n username len e d u =
      let (aad, ea, e1) = chain-eq-ok _ (associated_data m) e in
      let (w, ew, e2) = chain-eq-ok _ (wrap_data_key c b nonce data_key wrapping_key aad) e1 in
      let back = unwrap_of_wrap c ic b ib nonce data_key wrapping_key aad w len ew in
      let same : record m { wrapped_data_key = w } ≡ n = ground arith in
      rw (← same) (ground (arith, associated_data_wrapped m w))

  pub open_keys_ok :
      (m : UserManifest) (username : Text) (password data_key : Bytes)
      → open_keys c b a m username password ≡ ok data_key
      → (eq_ignore_ascii_case m.username username ≡ true) × (length data_key ≡ key_length)
  unfolding open_keys
  open_keys_ok m username password data_key e =
      let (_, eu, e1) =
        chain-eq-ok _ (fail_if (not (eq_ignore_ascii_case m.username username)) authentication) e in
      let (wrapping_key, ew, e2) =
        chain-eq-ok _ (map_err (λ _. authentication) (derive_key b a password m.kdf)) e1 in
      let (aad, ea, e3) = chain-eq-ok _ (associated_data m) e2 in
      let (_, _, _, _, _, _, _, len) =
        unwrap_data_key-encrypt c ic b m.wrapped_data_key wrapping_key aad data_key e3 in
      (ground arith, len)

  -- What the wrapping of a key keeps of the manifest, and the algorithm that it names.
  abbrev Kept : UserManifest → UserManifest → Type 0
  Kept m n =
      (n.version ≡ m.version)
      × (n.id ≡ m.id)
      × (n.username ≡ m.username)
      × (n.created_at ≡ m.created_at)
      × (n.vault_format ≡ m.vault_format)
      × (n.wrapped_data_key.algorithm ≡ ascii "aes-256-gcm")

  seal_key-Kept :
      (nonce : Option Bytes) (data_key wrapping_key : Bytes) (m n : UserManifest)
      → seal_key c b a nonce data_key wrapping_key m ≡ ok n
      → Kept m n
  unfolding seal_key wrap_data_key
  seal_key-Kept none data_key wrapping_key m n e = absurd (ground arith)
  seal_key-Kept (some nonce) data_key wrapping_key m n e = ground arith

  -- With the ciphers and encodings as documented: the keys that are created for a valid username,
  -- at a time after the epoch, with a UUID that is accepted and a data key of 32 bytes, are
  -- unlocked by the same username and password, and give that data key.
  pub unlock_keys-create_keys :
      (is_uuid : Text → Bool) (salt random_key nonce : Option Bytes) (now : ℕ) (id username : Text)
      (password data_key : Bytes) (m : UserManifest)
      → is_uuid id ≡ true
      → is_valid_username username ≡ true
      → 0 < now
      → length data_key ≡ key_length
      → create_keys c b a salt random_key nonce (some now) id username password ≡ ok (m, data_key)
      → unlock_keys c b a is_uuid m username password ≡ ok data_key
  unfolding create_keys unlock_keys new_header
  unlock_keys-create_keys is_uuid salt random_key nonce now id username password data_key m hi hu ht
        hd e =
      let (kdf, ek, e1) = chain-eq-ok _ (default_kdf_parameters b salt) e in
      let (wrapping_key, ew, e2) = chain-eq-ok _ (derive_key b a password kdf) e1 in
      let (key, er, e3) =
        chain-eq-ok _ (ok_or random_key (cryptography "operating-system random source failed"))
          e2 in
      let header : UserManifest = record {
        version = manifest_version;
        id = id;
        username = username;
        created_at = now;
        kdf = kdf;
        wrapped_data_key = record {
          algorithm = ascii "aes-256-gcm";
          iv = [];
          ciphertext = [];
          authentication_tag = [];
        };
        vault_format = vault_format;
      } in
      let (sealed, es, e4) = chain-eq-ok _ (seal_key c b a nonce key wrapping_key header) e3 in
      let same_key : key ≡ data_key = ground arith in
      let same : sealed ≡ m = ground arith in
      let (kv, ki, ku, kc, kf, ka) = seal_key-Kept nonce key wrapping_key header sealed es in
      let opens : open_keys c b a sealed username password ≡ ok key =
        seal_key-Opens nonce key wrapping_key password header sealed username
          (ap length same_key ∙ hd) es ew (eq_ignore_ascii_case_refl username) in
      let valid : validate is_uuid sealed ≡ ok tt =
        validate_of_fields is_uuid sealed kv (ap is_uuid ki ∙ hi) (ap is_valid_username ku ∙ hu)
          (omega arith) (ap (λ f. eq_bytes f vault_format) kf ∙ eq_bytes_refl vault_format)
          (ap (λ f. eq_bytes f (ascii "aes-256-gcm")) ka ∙ eq_bytes_refl (ascii "aes-256-gcm")) in
      let valid_m : validate is_uuid m ≡ ok tt = ap (validate is_uuid) (sym same) ∙ valid in
      let opens_m : open_keys c b a m username password ≡ ok data_key =
        ap (λ x. open_keys c b a x username password) (sym same) ∙ opens ∙ ap ok same_key in
      ground (arith, valid_m, opens_m)

  -- With the ciphers and encodings as documented: a manifest whose data key of 32 bytes opens under
  -- a username and the current password opens under that username and the new password behind a
  -- change of the password, and gives the same data key.
  pub open_keys-rotate_keys :
      (salt nonce : Option Bytes) (m n : UserManifest) (username : Text)
      (current_password new_password data_key : Bytes)
      → open_keys c b a m username current_password ≡ ok data_key
      → rotate_keys c b a salt nonce m username current_password new_password ≡ ok n
      → open_keys c b a n username new_password ≡ ok data_key
  unfolding rotate_keys
  open_keys-rotate_keys salt nonce m n username current_password new_password data_key e h =
      let (key, ek, h1) = chain-eq-ok _ (open_keys c b a m username current_password) h in
      let (kdf, ed, h2) = chain-eq-ok _ (default_kdf_parameters b salt) h1 in
      let (wrapping_key, ew, h3) = chain-eq-ok _ (derive_key b a new_password kdf) h2 in
      let same : key ≡ data_key = cc in
      let (names, len) = open_keys_ok m username current_password key ek in
      rw (← same) (
        seal_key-Opens nonce key wrapping_key new_password (record m { kdf = kdf }) n username len
          h3 ew names)
