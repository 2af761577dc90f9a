-- ===== src/Daemon.antt =====
-- src/daemon.rs: one connection of the daemon, and the client's side of it; and what the code
-- calls of a Unix socket.
pub mod Client
pub mod Connection
pub mod Listener
pub mod Program
use codex_vault.Prelude.{
  ℕ, String, not, Option, none, some, ◌==◌, if◌then◌else◌, Result, ok, err, map_err, Action, bind,
  lift, with_error,
}
use codex_vault.Prelude.Bytes.{Bytes, Text}
use codex_vault.Error.{
  VaultError, VaultResult, IoError, IoResult, io, protocol, peer_rejected, invalid_configuration,
}
use codex_vault.Error.Display.{◌<>◌, decimal}
use codex_vault.Device.{Sink, Source}
use codex_vault.Private.{is_absolute}
use codex_vault.Protocol.{
  Json, DaemonRequest, status_of, DaemonResponse, status, DaemonErrorCode, DaemonStatus,
  PeerIdentity, alpha_status_only, protocol_version, write_message, read_message,
}

-- A connected `UnixStream`: the bytes of both directions in one state, the timeouts, and the
-- credentials that the kernel keeps of the peer.
pub record Socket : Type 1 where
  pub State : Type 0
  pub read_exact : ℕ → Action State IoError Bytes
  pub read : ℕ → Action State IoError Bytes
  pub write_all : Bytes → Action State IoError (Unit {0})
  pub flush : Action State IoError (Unit {0})
  pub set_read_timeout : Action State IoError (Unit {0})
  pub set_write_timeout : Action State IoError (Unit {0})
  pub peer_credentials : State → Result String PeerIdentity

abbrev pub source_of : Socket → Source
source_of k = record { State = k.State; read_exact = k.read_exact; read = k.read }

abbrev pub sink_of : Socket → Sink
sink_of k = record { State = k.State; write_all = k.write_all; flush = k.flush }

-- The daemon: its crate's version and the effective user.
pub record Server : Type 0 where
  pub version : String
  pub uid : ℕ

-- `{:?}` of an error code.
abbrev pub debug_code : DaemonErrorCode → String
debug_code DaemonErrorCode.unsupported_protocol = "UnsupportedProtocol"
debug_code DaemonErrorCode.peer_rejected = "PeerRejected"
debug_code DaemonErrorCode.invalid_request = "InvalidRequest"

-- The answer to a peer that is not allowed.
abbrev pub rejection : DaemonResponse
rejection =
    DaemonResponse.error protocol_version DaemonErrorCode.peer_rejected
      "kernel-authenticated peer UID is not allowed"

-- The answer to a request of a peer that is allowed.
unfoldable pub answer : Server → PeerIdentity → DaemonRequest → DaemonResponse
answer d peer (status_of version) =
    if version == protocol_version
    then status (record {
      protocol_version = protocol_version;
      daemon_version = d.version;
      daemon_uid = d.uid;
      peer = peer;
      capabilities = alpha_status_only;
    })
    else DaemonResponse.error protocol_version DaemonErrorCode.unsupported_protocol
        ("client protocol version " <> (decimal version <> " is unsupported; expected 1"))

unfoldable pub set_timeouts : (k : Socket) → Action k.State VaultError (Unit {0})
set_timeouts k = with_error io (bind k.set_read_timeout (λ _. k.set_write_timeout))

-- The test of a response in `query_daemon_status`.
unfoldable pub accept_response : DaemonResponse → VaultResult DaemonStatus
accept_response (status s) =
    if s.protocol_version == protocol_version
    then ok s
    else err (
        protocol
          ("daemon returned protocol version " <> (decimal s.protocol_version <> " instead of 1")))
accept_response (DaemonResponse.error version code message) =
    err (protocol ("daemon rejected request (" <> (debug_code code <> ("): " <> message))))

module _ (jq : Json DaemonRequest) (jr : Json DaemonResponse) (k : Socket) where
  -- The end of `handle_connection`, by the peer's identity.
  unfoldable pub serve_peer : Server → ℕ → PeerIdentity → Action k.State VaultError (Unit {0})
  serve_peer d allowed_uid peer =
      if not (peer.uid == allowed_uid)
      then bind (write_message jr (sink_of k) rejection) (λ _. lift (err (peer_rejected peer.uid)))
      else bind (read_message jq (source_of k))
          (λ request. write_message jr (sink_of k) (answer d peer request))

  unfoldable pub credentials : Action k.State VaultError PeerIdentity
  credentials s = (
    map_err (λ e. protocol ("failed to read kernel peer credentials: " <> e))
        (k.peer_credentials s),
    s,
  )

  -- `handle_connection`
  unfoldable pub handle_connection : Server → ℕ → Action k.State VaultError (Unit {0})
  unfolding credentials
  handle_connection d allowed_uid =
      bind (set_timeouts k) (λ _. bind credentials (serve_peer d allowed_uid))

  -- `query_daemon_status` on a path, with the result of `UnixStream::connect`; it gives the state
  -- of the socket, if there is one.
  unfoldable pub query_daemon_status :
      Text → IoResult k.State → VaultResult DaemonStatus × Option k.State
  query_daemon_status path connected =
      if not (is_absolute path)
      then (err (invalid_configuration "daemon socket path must be absolute"), none)
      else elim connected [
        | err e ↦ (err (io e), none)
        | ok s ↦
            let (r, t) =
              bind (set_timeouts k)
                (λ _. bind (write_message jq (sink_of k) (status_of protocol_version)) (λ _.
                  bind (read_message jr (source_of k))
                    (λ response. lift (accept_response response))))
                s in
            (r, some t)
      ]
