-- ===== src/Tests/Listeners.antt =====
-- The daemon's socket file in memory: it is bound, refused and served.
use codex_vault.Prelude.{
  ℕ, ◌+◌, ◌≡◌, refl, ◌⊎◌, Bool, true, false, not, Option, none, some, List, [], ◌∷◌, ◌++◌, arith,
  if◌then◌else◌, ok, err, is_ok,
}
use codex_vault.Prelude.Bytes.{Text, ascii, eq_bytes}
use codex_vault.Error.{os, ErrorKind, IoResult}
use mathlib.Core.List.{map}
use codex_vault.Private.{
  FileSystem, Metadata, ensure_private_directory, validate_private_directory, is_absolute,
}
use codex_vault.Private.Safe.{IsPrivate}
use codex_vault.Files.{parent}
use codex_vault.Daemon.{handle_connection}
use codex_vault.Daemon.Listener.{
  Sockets, SocketGuard, Round, bind_listener, remove_stale_socket, secure_socket, drop_guard,
  look_at, serve_rounds,
}
use codex_vault.Daemon.Listener.Bound.{IsSecure, bind_listener-IsSecure, bind_listener-running}
use codex_vault.Daemon.Listener.Rounds.{connections, serve_rounds-connections}
use codex_vault.Tests.Messages.{plain_json}
use codex_vault.Tests.Connections.{memory_socket, plain_response, server, connection}

abbrev path : Text
path = ascii "/run/d/s"

metadata : Bool → ℕ → Metadata
metadata is_socket mode = record {
  is_dir = not is_socket;
  is_file = false;
  is_symlink = false;
  is_socket = is_socket;
  uid = 1000;
  mode = mode;
  len = 0;
  dev = 1;
  ino = 7;
}

-- The mode of the one socket, if there is one.
look_up : Text → Option ℕ → IoResult Metadata
unfolding eq_bytes metadata
look_up p s =
    if eq_bytes p path
    then elim s [
      | some mode ↦ ok (metadata true mode)
      | none ↦ err (os ErrorKind.not_found "No such file or directory")
    ]
    else ok (metadata false 16832)

abbrev one_socket : FileSystem
one_socket = record {
  State = Option ℕ;
  symlink_metadata = look_up;
  canonicalize = λ p s. ok p;
  create_dir = λ mode p s. (ok tt, s);
  euid = 1000;
  printed = λ p. "path";
}

-- Nobody answers at the socket.
abbrev quiet_sockets : Sockets one_socket memory_socket
quiet_sockets = record {
  connect = λ p s. err (os ErrorKind.connection_refused "Connection refused");
  bind_socket = λ p s. (ok tt, some 49645);
  set_permissions = λ mode p s. (ok tt, some (49152 + mode));
  remove_file = λ p s. (ok tt, none);
  set_nonblocking = λ s. (ok tt, s);
  register = λ signal s. (ok tt, s);
  accept = λ s. (ok connection, s);
}

-- A daemon answers.
abbrev busy_sockets : Sockets one_socket memory_socket
busy_sockets = record quiet_sockets { connect = λ p s. ok tt }

abbrev guard : SocketGuard
guard = record { path = path; device = 1; inode = 7 }

binds :
    bind_listener one_socket memory_socket quiet_sockets path (some 49645) ≡ (ok guard, some 49536)
unfolding bind_listener parent ensure_private_directory validate_private_directory look_up eq_bytes
    remove_stale_socket secure_socket look_at drop_guard metadata
binds = refl

bind_listener-IsSecure_example :
    (is_absolute path ≡ true)
    × (guard.path ≡ path)
    × IsSecure one_socket memory_socket quiet_sockets path (some 49536)
    × ((directory : Text) × (parent path ≡ some directory)
        × IsPrivate one_socket directory
            (ensure_private_directory one_socket directory (some 49645)).1)
bind_listener-IsSecure_example =
    bind_listener-IsSecure one_socket memory_socket quiet_sockets path (some 49645) (some 49536)
      guard binds

above : parent path ≡ some (ascii "/run/d")
unfolding parent
above = refl

there :
    look_up path (ensure_private_directory one_socket (ascii "/run/d") (some 49645)).1
    ≡ ok (metadata true 49645)
unfolding ensure_private_directory look_up eq_bytes
there = refl

bind_listener-running_example :
    let (r, t) = bind_listener one_socket memory_socket busy_sockets path (some 49645) in
    (is_ok r ≡ false)
    × ((t ≡ some 49645)
        ⊎ (t ≡ (ensure_private_directory one_socket (ascii "/run/d") (some 49645)).1))
bind_listener-running_example =
    bind_listener-running one_socket memory_socket busy_sockets path (ascii "/run/d") (some 49645)
      (metadata true 49645) above there refl

abbrev ARound : Type 0
ARound = Round one_socket memory_socket quiet_sockets plain_json plain_response server

abbrev rounds : List ARound
rounds =
    record {
      stop = false;
      accepted = err (os ErrorKind.would_block "Resource temporarily unavailable");
    }
    ∷ record { stop = false; accepted = ok connection }
    ∷ []

abbrev last_round : ARound
last_round = record { stop = true; accepted = ok connection }

serve_rounds-connections_example :
    let handled = map (handle_connection plain_json plain_response memory_socket server 0) (
      connections one_socket memory_socket quiet_sockets plain_json plain_response server rounds) in
    (serve_rounds one_socket memory_socket quiet_sockets plain_json plain_response server 0 rounds
      ≡ (none, handled))
    × (serve_rounds one_socket memory_socket quiet_sockets plain_json plain_response server 0
          (rounds ++ (last_round ∷ []))
        ≡ (some (ok tt), handled))
serve_rounds-connections_example =
    serve_rounds-connections one_socket memory_socket quiet_sockets plain_json plain_response server
      0 rounds [] last_round
      ((refl, λ e same. ground (arith, same)), ((refl, λ e same. absurd cc), tt)) refl
