-- ===== src/Daemon/Client.antt =====
-- What a client takes for the status of the daemon.
use codex_vault.Prelude.{
  ◌≡◌, sym, ap, ◌∙◌, inl, inr, true, arith, Bool-cases, ok, Result-cases, Action, bind, lift,
  bind-eq-ok,
}
use codex_vault.Prelude.Bytes.{Text}
use codex_vault.Error.{VaultError, IoResult}
use codex_vault.Private.{is_absolute}
use codex_vault.Protocol.{
  Json, DaemonRequest, DaemonResponse, DaemonStatus, status, status_of, protocol_version,
  write_message, read_message,
}
use codex_vault.Daemon.{
  Socket, source_of, sink_of, set_timeouts, accept_response, query_daemon_status,
}

accept_response_ok :
    (r : DaemonResponse) (st : DaemonStatus)
    → accept_response r ≡ ok st
    → (r ≡ status st) × (st.protocol_version ≡ protocol_version)
unfolding accept_response
accept_response_ok (status s) st e = ground arith
accept_response_ok (DaemonResponse.error version code message) st e = absurd (cc)

module _ (jq : Json DaemonRequest) (jr : Json DaemonResponse) (k : Socket) where
  abbrev conversation : Action k.State VaultError DaemonStatus
  conversation = bind (set_timeouts k) (λ _.
      bind (write_message jq (sink_of k) (status_of protocol_version))
        (λ _. bind (read_message jr (source_of k)) (λ response. lift (accept_response response))))

  conversation_ok :
      (s : k.State) (st : DaemonStatus)
      → (conversation s).0 ≡ ok st
      → let u = (set_timeouts k s).1 in
        let request = write_message jq (sink_of k) (status_of protocol_version) u in
        (request.0 ≡ ok tt)
        × ((read_message jr (source_of k) request.1).0 ≡ ok (status st))
        × (st.protocol_version ≡ protocol_version)
  conversation_ok s st e =
      let (_, et, e1) = bind-eq-ok (set_timeouts k) _ s e in
      let u = (set_timeouts k s).1 in
      let (_, ew, e2) =
        bind-eq-ok (write_message jq (sink_of k) (status_of protocol_version)) _ u
          (ap (λ o. o.0) (sym e1) ∙ e) in
      let v = (write_message jq (sink_of k) (status_of protocol_version) u).1 in
      let (response, er, e3) =
        bind-eq-ok (read_message jr (source_of k)) _ v
          (ap (λ o. o.0) (sym e2) ∙ (ap (λ o. o.0) (sym e1) ∙ e)) in
      let (same, version) =
        accept_response_ok response st
          (ap (λ o. o.0) (sym e3) ∙ (ap (λ o. o.0) (sym e2) ∙ (ap (λ o. o.0) (sym e1) ∙ e))) in
      (ew, er ∙ ap ok same, version)

  -- A status that the client reports was read from the socket that it connected to by an absolute
  -- path, as the response behind its own request, and has the client's protocol version.
  pub query_daemon_status_lem :
      (path : Text) (connected : IoResult k.State) (st : DaemonStatus)
      → (query_daemon_status jq jr k path connected).0 ≡ ok st
      → (s : k.State) × (connected ≡ ok s)
        × (is_absolute path ≡ true)
        × (let u = (set_timeouts k s).1 in
            let request = write_message jq (sink_of k) (status_of protocol_version) u in
            (request.0 ≡ ok tt)
            × ((read_message jr (source_of k) request.1).0 ≡ ok (status st))
            × (st.protocol_version ≡ protocol_version))
  unfolding query_daemon_status
  query_daemon_status_lem path connected st e = elim (Bool-cases (is_absolute path)) [
    | inl absolute ↦ elim (Result-cases connected) [
      | inl (s, es) ↦ (s, es, absolute, conversation_ok s st (ground arith))
      | inr (x, es) ↦ absurd (ground arith)
    ]
    | inr relative ↦ absurd (ground arith)
  ]
