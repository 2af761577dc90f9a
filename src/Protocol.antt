-- ===== src/Protocol.antt =====
-- src/daemon_protocol.rs: the messages of the daemon, and their frames: four bytes of length and
-- a JSON text. `serde_json` is a parameter.
pub mod Framing
use codex_vault.Prelude.{
  ℕ, ℤ, ◌≤◌, String, ◌≡◌, Bool, true, false, ◌||◌, ltb, ◌==◌, if◌then◌else◌, length, Result, ok,
  err, map_err, Action, bind, lift, with_error,
}
use codex_vault.Prelude.Bytes.{Bytes, Text, u32_to_be, u32_from_be, u32_max}
use codex_vault.Error.{VaultError, IoError, protocol, serialization, io, VaultResult}
use codex_vault.Error.Display.{◌<>◌, decimal, display_io}
use codex_vault.Device.{Sink, Source}

abbrev pub protocol_version : ℕ
protocol_version = 1

abbrev pub max_frame_bytes : ℕ
max_frame_bytes = 16384

pub data CapabilityState : Type 0 where
  enabled disabled : CapabilityState

pub record DaemonCapabilities : Type 0 where
  pub kernel_peer_credentials : CapabilityState
  pub pam_authentication : CapabilityState
  pub dedicated_uid : CapabilityState
  pub encrypted_mount : CapabilityState

pub record PeerIdentity : Type 0 where
  pub pid : ℤ
  pub uid : ℕ
  pub gid : ℕ

pub record DaemonStatus : Type 0 where
  pub protocol_version : ℕ
  pub daemon_version : String
  pub daemon_uid : ℕ
  pub peer : PeerIdentity
  pub capabilities : DaemonCapabilities

pub data DaemonErrorCode : Type 0 where
  unsupported_protocol peer_rejected invalid_request : DaemonErrorCode

pub data DaemonRequest : Type 0 where
  status_of : ℕ → DaemonRequest

pub data DaemonResponse : Type 0 where
  status : DaemonStatus → DaemonResponse
  error : ℕ → DaemonErrorCode → String → DaemonResponse

abbrev pub is_enabled : CapabilityState → Bool
is_enabled enabled = true
is_enabled disabled = false

abbrev pub alpha_status_only : DaemonCapabilities
alpha_status_only = record {
  kernel_peer_credentials = enabled;
  pam_authentication = disabled;
  dedicated_uid = disabled;
  encrypted_mount = disabled;
}

-- `serde_json` at a type: `to_vec` and `from_slice`, with the text of an error.
pub record Json (T : Type 0) : Type 0 where
  pub to_vec : T → Result String Bytes
  pub from_slice : Bytes → Result String T

-- What is written is read back, and is a byte string that is not empty.
pub record IsJson {T : Type 0} (j : Json T) : Type 0 where
  pub from_slice-to_vec :
      (x : T) (bytes : Bytes) → j.to_vec x ≡ ok bytes → j.from_slice bytes ≡ ok x
  pub to_vec_bytes : (x : T) (bytes : Bytes) → j.to_vec x ≡ ok bytes → 1 ≤ length bytes

abbrev outside : ℕ → Bool
outside length = length == 0 || ltb max_frame_bytes length

-- `write_message`; what was written before an error stays written.
unfoldable pub write_message :
    {T : Type 0} → Json T → (s : Sink) → T → Action s.State VaultError (Unit {0})
write_message j s message = bind (lift (map_err serialization (j.to_vec message))) (λ payload.
    if outside (length payload)
    then lift (err (protocol "message length must be between 1 and 16384 bytes"))
    else if ltb u32_max (length payload)
    then lift (err (protocol "message length exceeds u32"))
    else with_error io (
        bind (s.write_all (u32_to_be (length payload)))
          (λ _. bind (s.write_all payload) (λ _. s.flush))))

abbrev pub protocol_io : String → IoError → VaultError
protocol_io context e = protocol (context <> (": " <> display_io e))

-- `read_message`
unfoldable pub read_message : {T : Type 0} → Json T → (s : Source) → Action s.State VaultError T
read_message j s =
    bind (with_error (protocol_io "message header is truncated") (s.read_exact 4)) (λ header.
      let length = u32_from_be header in
      if outside length
      then lift
          (err (protocol ("invalid message length " <> (decimal length <> "; maximum is 16384"))))
      else bind (with_error (protocol_io "message payload is truncated") (s.read_exact length))
          (λ payload.
            lift (map_err (λ e. protocol ("invalid JSON message: " <> e)) (j.from_slice payload))))
