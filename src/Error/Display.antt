-- ===== src/Error/Display.antt =====
-- src/error.rs: the text that an error prints (`#[error(...)]`), with that of the I/O errors.
use codex_vault.Prelude.{ℕ, zero, suc, ◌/◌, ◌%◌, ltb, ◌==◌, if◌then◌else◌, String}
use codex_vault.Error.{VaultError, IoError}
use Prim.Native.String.{◌++◌ as append}

infixr 65 ◌<>◌
abbrev pub ◌<>◌ : String → String → String
s <> t = append s t

digit : ℕ → String
digit n =
    if n == 0
    then "0"
    else if n == 1
    then "1"
    else if n == 2
    then "2"
    else if n == 3
    then "3"
    else if n == 4
    then "4"
    else if n == 5
    then "5"
    else if n == 6
    then "6"
    else if n == 7
    then "7"
    else if n == 8
    then "8"
    else "9"

digits : ℕ → ℕ → String
unfolding digit
digits zero n = ""
digits (suc fuel) n =
    let front = digits fuel (n / 10) in if ltb n 10 then digit n else front <> digit (n % 10)

-- A number below 10 ^ 20, which every 64-bit number is, in decimal.
unfoldable pub decimal : ℕ → String
unfolding digits
decimal n = digits 20 n

unfoldable mutual
  pub display : VaultError → String
  display (VaultError.io e) = "I/O error: " <> display_io e
  display VaultError.authentication = "invalid username or password"
  display (VaultError.integrity text) = "vault integrity verification failed: " <> text
  display (VaultError.invalid_configuration text) = "invalid configuration: " <> text
  display (VaultError.user_exists text) = "user already exists: " <> text
  display VaultError.locked = "this user vault is already unlocked"
  display (VaultError.launch text) = "failed to launch Codex: " <> text
  display (VaultError.protocol text) = "daemon protocol error: " <> text
  display (VaultError.peer_rejected uid) = "daemon rejected peer UID " <> decimal uid
  display VaultError.daemon_already_running = "Codex Vault daemon is already running"
  display (VaultError.unsupported_platform text) = "unsupported platform: " <> text
  display (VaultError.serialization text) = "serialization error: " <> text
  display (VaultError.cryptography text) = "cryptographic operation failed: " <> text

  pub display_io : IoError → String
  display_io (IoError.os kind text) = text
  display_io (IoError.integrity_payload text) = text
  display_io (IoError.other_text text) = text
  display_io (IoError.other_printed e) = display e
