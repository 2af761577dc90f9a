-- ===== src/Daemon/Listener.antt =====
-- src/daemon.rs: the socket file of the daemon, and its loop; and what the code calls of
-- `std::os::unix::net` and `std::fs` for it.
pub mod Bound
pub mod Rounds
use codex_vault.Prelude.{
  on_error, then_drop, ℕ, Bool, true, false, not, ◌&&◌, ◌||◌, Option, none, some, List, [], ◌∷◌,
  ◌++◌, ◌==◌, if◌then◌else◌, ok, err, ◌>>=◌, ◌>>◌, ok_or, fail_if, Action, bind, lift, with_error,
}
use codex_vault.Prelude.Bytes.{Text, ascii}
use codex_vault.Error.{
  VaultError, VaultResult, IoError, IoResult, ErrorKind, kind, io, invalid_configuration,
  daemon_already_running,
}
use codex_vault.Error.Display.{decimal}
use codex_vault.Private.{
  FileSystem, Metadata, is_absolute, join, app_name, unsafe_access, is_not_found,
  ensure_private_directory,
}
use codex_vault.Files.{parent}
use codex_vault.Protocol.{Json, DaemonRequest, DaemonResponse}
use codex_vault.Daemon.{Socket, Server, handle_connection}

-- `DaemonConfig`
pub record DaemonConfig : Type 0 where
  pub socket_path : Text
  pub allowed_uid : ℕ

-- The calls on socket files: a `connect` whose stream is dropped changes no file.
pub record Sockets (f : FileSystem) (k : Socket) : Type 0 where
  pub connect : Text → f.State → IoResult (Unit {0})
  pub bind_socket : Text → Action f.State IoError (Unit {0})
  pub set_permissions : ℕ → Text → Action f.State IoError (Unit {0})
  pub remove_file : Text → Action f.State IoError (Unit {0})
  pub set_nonblocking : Action f.State IoError (Unit {0})
  -- `signal_hook::flag::register` of a signal.
  pub register : ℕ → Action f.State IoError (Unit {0})
  pub accept : Action f.State IoError k.State

-- `default_daemon_socket`, by CODEX_VAULT_SOCKET, XDG_RUNTIME_DIR, the effective user, the temporary
-- directory, and `Path::is_dir`.
unfoldable pub default_daemon_socket :
    Option Text → Option Text → ℕ → Text → (Text → Bool) → VaultResult Text
default_daemon_socket (some path) xdg uid temp_dir is_dir =
    if is_absolute path
    then ok path
    else err (invalid_configuration "CODEX_VAULT_SOCKET must be an absolute path")
default_daemon_socket none (some runtime) uid temp_dir is_dir =
    if is_absolute runtime
    then ok (join (join runtime app_name) (ascii "control.sock"))
    else err (invalid_configuration "XDG_RUNTIME_DIR must be an absolute path")
default_daemon_socket none none uid temp_dir is_dir =
    let run_user = ascii "/run/user/" ++ ascii (decimal uid) in
    ok (
      join
        (if is_dir run_user
          then join run_user app_name
          else join temp_dir (app_name ++ (45 ∷ ascii (decimal uid))))
        (ascii "control.sock"))

-- `DaemonConfig::for_current_user`, by the result of `default_daemon_socket`.
abbrev pub for_current_user : Option Text → VaultResult Text → ℕ → VaultResult DaemonConfig
for_current_user socket_path chosen euid =
    (elim socket_path [ some path ↦ ok path | none ↦ chosen ]) >>= λ path.
    ok (record { socket_path = path; allowed_uid = euid })

pub record SocketGuard : Type 0 where
  pub path : Text
  pub device : ℕ
  pub inode : ℕ

module _ (f : FileSystem) (k : Socket) (ss : Sockets f k) where
  -- The drop of a guard: the socket is removed if it is the one that was bound.
  unfoldable pub drop_guard : SocketGuard → f.State → f.State
  drop_guard guard s = elim (f.symlink_metadata guard.path s) [
    | err _ ↦ s
    | ok m ↦
        if m.is_socket && m.dev == guard.device && m.ino == guard.inode
        then (ss.remove_file guard.path s).1
        else s
  ]

  abbrev is_gone : IoError → Bool
  is_gone e = elim (kind e) [
    | ErrorKind.connection_refused ↦ true
    | ErrorKind.not_found ↦ true
    | _ ↦ false
  ]

  -- `remove_stale_socket`
  unfoldable pub remove_stale_socket : Text → Action f.State VaultError (Unit {0})
  remove_stale_socket path s = elim (f.symlink_metadata path s) [
    | err e ↦ (if is_not_found f e then ok tt else err (io e), s)
    | ok m ↦
        if not m.is_socket || not (m.uid == f.euid)
        then (
          err (
              invalid_configuration
                "daemon socket path exists and is not a socket owned by the current UID"),
          s,
        )
        else elim (ss.connect path s) [
          | ok _ ↦ (err daemon_already_running, s)
          | err e ↦ if is_gone e then with_error io (ss.remove_file path) s else (err (io e), s)
        ]
  ]

  unfoldable pub look_at : Text → Action f.State IoError Metadata
  look_at path s = (f.symlink_metadata path s, s)

  -- The end of `bind_listener`, with the guard.
  unfoldable pub secure_socket : SocketGuard → Action f.State VaultError SocketGuard
  secure_socket guard = on_error (drop_guard guard) (
      bind (with_error io (bind (ss.set_permissions 384 guard.path) (λ _. look_at guard.path)))
        (λ m. lift (
          if not m.is_socket || unsafe_access f m
          then err (invalid_configuration "daemon socket has unsafe ownership or permissions")
          else ok guard)))

  -- `bind_listener`
  unfoldable pub bind_listener : Text → Action f.State VaultError SocketGuard
  bind_listener path =
      bind
        (lift (
          fail_if (not (is_absolute path))
            (invalid_configuration "daemon socket path must be absolute")
          >> ok_or (parent path)
              (invalid_configuration "daemon socket path has no parent directory")))
        (λ directory. bind (ensure_private_directory f directory) (λ _.
          bind (remove_stale_socket path) (λ _. bind (with_error io (ss.bind_socket path)) (λ _.
            bind (on_error (λ s. (ss.remove_file path s).1) (with_error io (look_at path)))
              (λ m. secure_socket (record { path = path; device = m.dev; inode = m.ino }))))))

  module _ (jq : Json DaemonRequest) (jr : Json DaemonResponse) (d : Server) where
    -- `serve_daemon_once`; the state of the connection is a part of the result.
    unfoldable pub serve_daemon_once :
        DaemonConfig → Action f.State VaultError (VaultResult (Unit {0}) × k.State)
    serve_daemon_once config = bind (bind_listener config.socket_path) (λ guard.
        then_drop (drop_guard guard) (
          bind (with_error io ss.accept)
            (λ c. lift (ok (handle_connection jq jr k d config.allowed_uid c)))))

    -- One round of the loop: whether the flag to stop is set, and what `accept` gives.
    pub record Round : Type 0 where
      pub stop : Bool
      pub accepted : IoResult k.State

    abbrev pub Served : Type 0
    Served = VaultResult (Unit {0}) × k.State

    abbrev pub is_would_block : IoError → Bool
    is_would_block e = elim (kind e) [ ErrorKind.would_block ↦ true | _ ↦ false ]

    -- The loop of `serve_daemon`, with what became of every connection; `none` as its first
    -- component means that it still runs.
    unfoldable pub serve_rounds : ℕ → List Round → Option (VaultResult (Unit {0})) × List Served
    serve_rounds uid [] = (none, [])
    serve_rounds uid (round ∷ rounds) =
        let (ended, served) = serve_rounds uid rounds in
        if round.stop then (some (ok tt), []) else elim round.accepted [
          | ok c ↦ (ended, handle_connection jq jr k d uid c ∷ served)
          | err e ↦ if is_would_block e then (ended, served) else (some (err (io e)), [])
        ]

    -- `serve_daemon`; SIGINT is 2, and SIGTERM is 15.
    unfoldable pub serve_daemon :
        DaemonConfig
        → List Round
        → Action f.State VaultError (Option (VaultResult (Unit {0})) × List Served)
    serve_daemon config rounds =
        bind (with_error io (bind (ss.register 2) (λ _. ss.register 15))) (λ _.
          bind (bind_listener config.socket_path) (λ guard s.
            let (r, t) = with_error io ss.set_nonblocking s in
            elim r [
              | err e ↦ (err e, drop_guard guard t)
              | ok _ ↦
                  let (ended, served) = serve_rounds config.allowed_uid rounds in
                  (ok (ended, served), elim ended [ some _ ↦ drop_guard guard t | none ↦ t ])
            ]))
