-- ===== src/Error.antt =====
-- src/error.rs: the errors of every component, and the I/O errors that they wrap.
pub mod Display
use codex_vault.Prelude.{ℕ, String, Result}

-- The kinds of `std::io::ErrorKind` that the code tells apart; `uncategorized` is any other.
pub data ErrorKind : Type 0 where
  not_found already_exists would_block connection_refused : ErrorKind
  invalid_data unexpected_eof permission_denied uncategorized : ErrorKind

-- `VaultError`, with `std::io::Error`. An I/O error is one that the system or a library reports,
-- by its kind and text; one that wraps the `IntegrityIoError` of vault_stream.rs; or an
-- `io::Error::other` of a text or of the text that a `VaultError` prints.
-- A JSON error is kept as the text that it prints.
mutual
  pub data VaultError : Type 0 where
    io : IoError → VaultError
    authentication : VaultError
    integrity : String → VaultError
    invalid_configuration : String → VaultError
    user_exists : String → VaultError
    locked : VaultError
    launch : String → VaultError
    protocol : String → VaultError
    peer_rejected : ℕ → VaultError
    daemon_already_running : VaultError
    unsupported_platform : String → VaultError
    serialization : String → VaultError
    cryptography : String → VaultError

  pub data IoError : Type 0 where
    os : ErrorKind → String → IoError
    integrity_payload : String → IoError
    other_text : String → IoError
    other_printed : VaultError → IoError

-- `crate::Result` and `std::io::Result`
abbrev pub VaultResult {ℓ} : Type ℓ → Type ℓ
VaultResult A = Result VaultError A

abbrev pub IoResult {ℓ} : Type ℓ → Type ℓ
IoResult A = Result IoError A

-- `io::Error::kind`
abbrev pub kind : IoError → ErrorKind
kind (os k text) = k
kind (integrity_payload message) = ErrorKind.invalid_data
kind (other_text text) = ErrorKind.uncategorized
kind (other_printed e) = ErrorKind.uncategorized
