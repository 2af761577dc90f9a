-- ===== src/Tests/Connections.antt =====
-- A connection of the daemon over a socket in memory.
use codex_vault.Prelude.{[], ◌⊎◌, ℤ, ◌≡◌, refl, true, ◌∷◌, ◌++◌, arith, take, drop, ok, err}
use codex_vault.Prelude.Bytes.{Bytes, u32_to_be, u32_from_be, ascii}
use codex_vault.Error.{VaultError, IoResult, peer_rejected}
use codex_vault.Protocol.{
  Json, DaemonRequest, DaemonResponse, DaemonErrorCode, PeerIdentity, status, error, status_of,
  DaemonStatus, write_message, read_message, alpha_status_only,
}
use codex_vault.Device.Memory.{cursor}
use codex_vault.Private.{is_absolute}
use codex_vault.Daemon.{
  Socket, Server, source_of, sink_of, answer, set_timeouts, credentials, serve_peer,
  handle_connection, query_daemon_status, accept_response,
}
use codex_vault.Daemon.Connection.{Answers, handle_connection-rejection, handle_connection-answer}
use codex_vault.Daemon.Client.{query_daemon_status_lem}
use codex_vault.Tests.Messages.{plain_json}

abbrev pub caller : PeerIdentity
caller = record { pid = ℤ.pos 42; uid = 1000; gid = 1000 }

abbrev pub server : Server
server = record { version = "0.2.0"; uid = 1000 }

-- What is left to read, and what was written.
abbrev pub memory_socket : Socket
memory_socket = record {
  State = Bytes × Bytes;
  read_exact = λ n s. let (r, t) = cursor.read_exact n s.0 in (r, (t, s.1));
  read = λ n s. let (r, t) = cursor.read n s.0 in (r, (t, s.1));
  write_all = λ bytes s. (ok tt, (s.0, s.1 ++ bytes));
  flush = λ s. (ok tt, s);
  set_read_timeout = λ s. (ok tt, s);
  set_write_timeout = λ s. (ok tt, s);
  peer_credentials = λ s. ok caller;
}

abbrev pub the_status : DaemonStatus
the_status = record {
  protocol_version = 1;
  daemon_version = "0.2.0";
  daemon_uid = 1000;
  peer = caller;
  capabilities = alpha_status_only;
}

-- A response is one byte: a status, or an error.
abbrev pub plain_response : Json DaemonResponse
plain_response = record {
  to_vec = λ x. elim x [ status s ↦ ok (1 ∷ []) | error v c m ↦ ok (2 ∷ []) ];
  from_slice = λ bytes. elim bytes [ b ∷ rest ↦ ok (status the_status) | [] ↦ err "EOF" ];
}

abbrev pub request : Bytes
request = 0 ∷ 0 ∷ 0 ∷ 2 ∷ 123 ∷ 1 ∷ []

abbrev pub connection : Bytes × Bytes
connection = (request, [])

handle_connection-rejection_example :
    let (r, t) = handle_connection plain_json plain_response memory_socket server 0 connection in
    let (written, u) =
      write_message plain_response
        (sink_of memory_socket)
        (error 1 DaemonErrorCode.peer_rejected "kernel-authenticated peer UID is not allowed")
        (set_timeouts memory_socket connection).1 in
    (t ≡ u)
    × (((written ≡ ok tt) × (r ≡ err (peer_rejected 1000)))
        ⊎ ((e : VaultError) × (written ≡ err e) × (r ≡ err e)))
unfolding set_timeouts
handle_connection-rejection_example =
    handle_connection-rejection plain_json plain_response memory_socket server 0 connection caller
      refl refl (omega arith)

serves :
    (handle_connection plain_json plain_response memory_socket server 1000 connection).0 ≡ ok tt
unfolding handle_connection serve_peer credentials set_timeouts answer read_message write_message
    u32_to_be u32_from_be take drop
serves = refl

handle_connection-answer_example :
    let u = (set_timeouts memory_socket connection).1 in
    let v = (read_message plain_json (source_of memory_socket) u).1 in
    let end =
      (handle_connection plain_json plain_response memory_socket server 1000 connection).1 in
    (peer : PeerIdentity) × (q : DaemonRequest) × (response : DaemonResponse)
    × (memory_socket.peer_credentials u ≡ ok peer)
    × (peer.uid ≡ 1000)
    × ((read_message plain_json (source_of memory_socket) u).0 ≡ ok q)
    × Answers server peer q response
    × ((write_message plain_response (sink_of memory_socket) response v).0 ≡ ok tt)
    × ((write_message plain_response (sink_of memory_socket) response v).1 ≡ end)
handle_connection-answer_example =
    handle_connection-answer plain_json plain_response memory_socket server 1000 connection serves

abbrev pub answered : IoResult (Bytes × Bytes)
answered = ok (0 ∷ 0 ∷ 0 ∷ 1 ∷ 1 ∷ [], [])

queries :
    (query_daemon_status plain_json plain_response memory_socket (ascii "/run/s") answered).0
    ≡ ok the_status
unfolding query_daemon_status accept_response set_timeouts read_message write_message the_status
    u32_to_be u32_from_be take drop
queries = refl

query_daemon_status_lem_example :
    (s : Bytes × Bytes) × (answered ≡ ok s)
    × (is_absolute (ascii "/run/s") ≡ true)
    × (let u = (set_timeouts memory_socket s).1 in
        let sent = write_message plain_json (sink_of memory_socket) (status_of 1) u in
        (sent.0 ≡ ok tt)
        × ((read_message plain_response (source_of memory_socket) sent.1).0
            ≡ ok (status the_status))
        × (the_status.protocol_version ≡ 1))
query_daemon_status_lem_example =
    query_daemon_status_lem plain_json plain_response memory_socket (ascii "/run/s") answered
      the_status queries
