-- ===== src/Tests/Manifests.antt =====
-- A user's manifest and its username.
use codex_vault.Prelude.{[], ◌≡◌, refl, ok, err, true, ◌∷◌, arith, length, ◌≤◌}
use codex_vault.Prelude.Bytes.{Bytes, ascii, u32_to_be}
use codex_vault.Manifest.{
  UserManifest, associated_data, push_field, is_valid_username, all_name_bytes, vault_format,
}
use codex_vault.Manifest.Header.{SameHeader, associated_data_injective}
use codex_vault.Manifest.Names.{IsEntryName, is_valid_username-IsEntryName}

abbrev pub manifest_with : Bytes → UserManifest
manifest_with ciphertext = record {
  version = 1;
  id = ascii "6f1c";
  username = ascii "alice";
  created_at = 1700000000;
  kdf = record {
    algorithm = ascii "argon2id";
    salt = ascii "AAAA";
    memory_cost_ki_b = 65536;
    time_cost = 3;
    parallelism = 1;
    output_length = 32;
  };
  wrapped_data_key = record {
    algorithm = ascii "aes-256-gcm";
    iv = [];
    ciphertext = ciphertext;
    authentication_tag = [];
  };
  vault_format = vault_format;
}

bytes_of : UserManifest → Bytes
unfolding associated_data push_field u32_to_be
bytes_of m = elim (associated_data m) [ ok bytes ↦ bytes | err e ↦ [] ]

encodes : associated_data (manifest_with []) ≡ ok (bytes_of (manifest_with []))
unfolding bytes_of
encodes = refl

encodes_other : associated_data (manifest_with (1 ∷ [])) ≡ ok (bytes_of (manifest_with []))
unfolding bytes_of
encodes_other = refl

associated_data_injective_example : SameHeader (manifest_with []) (manifest_with (1 ∷ []))
associated_data_injective_example =
    associated_data_injective (manifest_with []) (manifest_with (1 ∷ []))
      (bytes_of (manifest_with [])) (omega arith) (omega arith) encodes encodes_other

accepts : is_valid_username (ascii "alice.b-1") ≡ true
unfolding is_valid_username all_name_bytes
accepts = refl

is_valid_username-IsEntryName_example :
    IsEntryName (ascii "alice.b-1") × (length (ascii "alice.b-1") ≤ 64)
is_valid_username-IsEntryName_example = is_valid_username-IsEntryName (ascii "alice.b-1") accepts
