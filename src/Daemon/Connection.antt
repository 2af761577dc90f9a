-- ===== src/Daemon/Connection.antt =====
-- What the daemon answers on one connection.
use codex_vault.Prelude.{
  ℕ, ◌≡◌, ◌≢◌, inl, inr, arith, ◌==◌, Bool-cases, ok, err, Result-cases, ◌⊎◌, String,
}
use codex_vault.Error.{VaultError, peer_rejected}
use codex_vault.Protocol.{
  Json, DaemonRequest, DaemonResponse, DaemonErrorCode, PeerIdentity, status, status_of, enabled,
  disabled, write_message, read_message,
}
use codex_vault.Daemon.{
  Socket, Server, source_of, sink_of, rejection, answer, set_timeouts, handle_connection,
  serve_peer, credentials,
}

-- What the protocol says that a peer is answered: the version that is spoken is 1, and its status
-- names the daemon and the peer; another version is refused by its code.
pub data Answers (d : Server) (peer : PeerIdentity) : DaemonRequest → DaemonResponse → Type 0 where
  served : Answers d peer (status_of 1) (
      status (record {
        protocol_version = 1;
        daemon_version = d.version;
        daemon_uid = d.uid;
        peer = peer;
        capabilities = record {
          kernel_peer_credentials = enabled;
          pam_authentication = disabled;
          dedicated_uid = disabled;
          encrypted_mount = disabled;
        };
      }))
  refused :
      (version : ℕ) (message : String)
      → version ≢ 1
      → Answers d peer
          (status_of version)
          (DaemonResponse.error 1 DaemonErrorCode.unsupported_protocol message)

module _ (jq : Json DaemonRequest) (jr : Json DaemonResponse) (k : Socket) (d : Server) where
  answer-Answers :
      (peer : PeerIdentity) (request : DaemonRequest)
      → Answers d peer request (answer d peer request)
  unfolding answer
  answer-Answers peer (status_of version) = elim (Bool-cases (version == 1)) [
    | inl same ↦ let at : version ≡ 1 = ground arith in rw at served
    | inr other ↦ rw other (refused version _ (λ e. absurd (ground arith)))
  ]

  -- A peer whose user is not the allowed one is never served, nor is its request read. After the
  -- timeouts are set, all that happens to the socket is that an error is written, of protocol
  -- version 1, with the code that the peer is rejected and the text that its user is not allowed. The
  -- connection ends with the error that names the user of the peer, or, if the writing failed, with
  -- the error of that.
  pub handle_connection-rejection :
      (allowed_uid : ℕ) (s : k.State) (peer : PeerIdentity)
      → (set_timeouts k s).0 ≡ ok tt
      → k.peer_credentials (set_timeouts k s).1 ≡ ok peer
      → peer.uid ≢ allowed_uid
      → let (r, t) = handle_connection jq jr k d allowed_uid s in
        let (written, u) =
          write_message jr
            (sink_of k)
            (DaemonResponse.error 1 DaemonErrorCode.peer_rejected
              "kernel-authenticated peer UID is not allowed")
            (set_timeouts k s).1 in
        (t ≡ u)
        × (((written ≡ ok tt) × (r ≡ err (peer_rejected peer.uid)))
            ⊎ ((e : VaultError) × (written ≡ err e) × (r ≡ err e)))
  unfolding handle_connection serve_peer credentials
  handle_connection-rejection allowed_uid s peer et ep other =
      elim (Result-cases (write_message jr (sink_of k) rejection (set_timeouts k s).1).0) [
        | inl (_, ew) ↦ (ground arith, inl (ew, ground arith))
        | inr (e, ew) ↦ (ground arith, inr (e, ew, ground arith))
      ]

  -- A connection that ends with success has served a peer of the allowed user: a request was read,
  -- and the last call on the socket has written the response to it with success. The response to the
  -- protocol version 1 is the status of the daemon, with the identity that the kernel gave of the
  -- peer; to another version it is the error with the code of an unsupported protocol.
  pub handle_connection-answer :
      (allowed_uid : ℕ) (s : k.State)
      → (handle_connection jq jr k d allowed_uid s).0 ≡ ok tt
      → let u = (set_timeouts k s).1 in
        let v = (read_message jq (source_of k) u).1 in
        (peer : PeerIdentity) × (request : DaemonRequest) × (response : DaemonResponse)
        × (k.peer_credentials u ≡ ok peer)
        × (peer.uid ≡ allowed_uid)
        × ((read_message jq (source_of k) u).0 ≡ ok request)
        × Answers d peer request response
        × ((write_message jr (sink_of k) response v).0 ≡ ok tt)
        × ((write_message jr (sink_of k) response v).1
            ≡ (handle_connection jq jr k d allowed_uid s).1)
  unfolding handle_connection serve_peer credentials
  handle_connection-answer allowed_uid s e = elim (Result-cases (set_timeouts k s).0) [
    | inl (_, et) ↦ elim (Result-cases (k.peer_credentials (set_timeouts k s).1)) [
      | inl (peer, ep) ↦ elim (Bool-cases (peer.uid == allowed_uid)) [
        | inl same ↦ elim (Result-cases (read_message jq (source_of k) (set_timeouts k s).1).0) [
          | inl (request, er) ↦ (
            peer,
            request,
            answer d peer request,
            ep,
            ground arith,
            er,
            answer-Answers peer request,
            ground arith,
            ground arith,
          )
          | inr (x, er) ↦ absurd (ground arith)
        ]
        | inr other ↦ absurd (ground arith)
      ]
      | inr (x, ep) ↦ absurd (ground arith)
    ]
    | inr (x, et) ↦ absurd (ground arith)
  ]
