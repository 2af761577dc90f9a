-- ===== src/Stream.antt =====
-- src/crypto/vault_stream.rs: the authenticated, chunked file format of the encrypted state.
pub mod Format
pub mod Nonce
pub mod Frame
pub mod Writer
pub mod Reader
pub mod Seal
pub mod Content
pub mod Distinct
pub mod RoundTrip
