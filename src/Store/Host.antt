-- ===== src/Store/Host.antt =====
-- What the profile store stands on: the file system, the libraries and the environment.
use codex_vault.Prelude.{ℕ, Bool, true, false, Option, some, none}
use codex_vault.Prelude.Bytes.{Text}
use codex_vault.Manifest.{UserManifest}
use codex_vault.Protocol.{Json}
use codex_vault.Stream.Format.{Aead}
use codex_vault.Keys.{Base64, Argon2}
use codex_vault.Private.{FileSystem}
use codex_vault.Files.{Files}
use codex_vault.Archive.{Tar}

pub record Host : Type 1 where
  pub system : FileSystem
  pub files : Files system
  pub tar : Tar system.State
  pub cipher : Aead
  pub base64 : Base64
  pub argon2 : Argon2
  -- `serde_json::to_writer_pretty` and `from_slice` of a manifest.
  pub json : Json UserManifest
  -- `Uuid::parse_str`, and the text that `to_string` gives for the UUID.
  pub parse_uuid : Text → Option Text
  pub process_id : ℕ
  -- CODEX_VAULT_RUNTIME_DIR, XDG_RUNTIME_DIR and `env::temp_dir`.
  pub explicit_runtime : Option Text
  pub xdg_runtime : Option Text
  pub temp_dir : Text
  -- The length of the buffer of `io::copy`.
  pub buffer : ℕ

abbrev is_some : Option Text → Bool
is_some none = false
is_some (some t) = true

abbrev pub is_uuid : Host → Text → Bool
is_uuid h id = is_some (h.parse_uuid id)
