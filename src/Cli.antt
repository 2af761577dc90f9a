-- ===== src/Cli.antt =====
-- src/main.rs: the commands of `codex-vault`, on the store, the daemon's socket and the terminal; and
-- what the code calls of `rpassword` and `std::io` for them.
pub mod Confirmed
use codex_vault.Prelude.{
  ℤ, ℕ, ◌+◌, String, Bool, not, Option, none, some, List, [], ◌∷◌, if◌then◌else◌, ok, err, map_err,
  Action, bind, lift, with_error,
}
use mathlib.Core.List.{map}
use codex_vault.Prelude.Bytes.{Bytes, Text, ascii, eq_bytes}
use codex_vault.Error.{
  VaultError, VaultResult, IoError, IoResult, io, invalid_configuration, serialization,
}
use codex_vault.Error.Display.{◌<>◌, decimal, display}
use codex_vault.Protocol.{
  Json, DaemonRequest, DaemonResponse, DaemonStatus, CapabilityState, enabled, disabled,
  PeerIdentity, DaemonCapabilities,
}
use codex_vault.Daemon.{Socket, query_daemon_status}
use codex_vault.Store.Host.{Host}
use codex_vault.Store.Disk.{VaultStore, Call, from_environment, initialize}
use codex_vault.Store.Users.{Entropy, add_user, list_users}
use codex_vault.Store.Session.{rotate_password}
use codex_vault.Runner.{Processes, Fresh, run_codex}

-- `Command`, with `UserCommand` and `DaemonCommand`.
pub data Command : Type 0 where
  init : Command
  user_add : Text → Command
  user_passwd : Text → Command
  user_list : Command
  daemon_status : Option Text → Bool → Command
  run : Option Text → List Text → Command

-- The terminal. A text that is printed is given as a string. The calls: a password behind a prompt, a
-- printed text, on the standard output and as an error, the flush of what was printed, and a line;
-- and `str::trim`.
pub record Terminal (S : Type 0) : Type 0 where
  pub prompt_password : String → Action S IoError Bytes
  pub print : String → S → S
  pub eprint : String → S → S
  pub flush : Action S IoError (Unit {0})
  pub read_line : Action S IoError Text
  pub trim : Text → Text

-- What one command takes of its surroundings: CODEX_VAULT_HOME, HOME, CODEX_VAULT_USER,
-- CODEX_VAULT_REAL_CODEX, `default_daemon_socket`, and the random source and the clock.
pub record Surroundings : Type 0 where
  pub vault_home : Option Text
  pub home : Option Text
  pub vault_user : Option Text
  pub real_codex : Option Text
  pub daemon_socket : VaultResult Text
  pub entropy : Entropy
  pub salt : Option Bytes
  pub nonce : Option Bytes
  pub uuid : Text
  pub fresh : Fresh

-- A signed number in decimal.
abbrev pub signed : ℤ → String
signed (ℤ.pos n) = decimal n
signed (ℤ.negsuc n) = "-" <> decimal (n + 1)

-- `capability_label`
abbrev pub capability_label : CapabilityState → String
capability_label enabled = "enabled"
capability_label disabled = "disabled"

module _ (h : Host) (c : Terminal h.system.State) where
  -- `println!` in front of the exit code.
  abbrev pub say : List String → Call h ℤ
  say [] s = (ok (ℤ.pos 0), s)
  say (line ∷ lines) s = say lines (c.print (line <> "\n") s)

  -- A new password, which is asked for twice.
  unfoldable pub new_password : String → Call h Bytes
  new_password confirm = bind (with_error io (c.prompt_password "New password: ")) (λ password.
      bind (with_error io (c.prompt_password confirm)) (λ confirmation. lift (
        if eq_bytes password confirmation
        then ok password
        else err (invalid_configuration "passwords do not match"))))

  -- `prompt_username`
  unfoldable pub prompt_username : Action h.system.State IoError Text
  prompt_username s =
      bind c.flush (λ _. bind c.read_line (λ line. lift (ok (c.trim line))))
        (c.print "Username: " s)

  -- The arms of `execute`.
  unfoldable pub execute_add : VaultStore → Entropy → Text → Call h ℤ
  execute_add store e username = bind (new_password "Confirm password: ") (λ password.
      bind (add_user h store username password e) (λ _.
        say (("Created encrypted Codex profile for " <> (h.system.printed username <> ".")) ∷ [])))

  unfoldable pub execute_passwd : VaultStore → Option Bytes → Option Bytes → Text → Text → Call h ℤ
  execute_passwd store salt nonce uuid username =
      bind (with_error io (c.prompt_password "Current password: ")) (λ current.
        bind (new_password "Confirm new password: ") (λ password.
          bind (rotate_password h store salt nonce uuid username current password)
            (λ _. say (("Updated password for " <> (h.system.printed username <> ".")) ∷ []))))

  unfoldable pub execute_list : VaultStore → Call h ℤ
  execute_list store = bind (list_users h store) (λ users. elim users [
    | [] ↦ say ("No users." ∷ [])
    | user ∷ others ↦ say (map h.system.printed (user ∷ others))
  ])

  -- The texts of a status.
  unfoldable pub status_lines : Text → DaemonStatus → List String
  status_lines socket s =
      "Daemon: reachable"
      ∷ ("Socket: " <> h.system.printed socket)
      ∷ ("Protocol: " <> decimal s.protocol_version)
      ∷ ("Daemon version: " <> s.daemon_version)
      ∷ ("Daemon UID: " <> decimal s.daemon_uid)
      ∷ ("Peer credentials: pid="
          <> (signed s.peer.pid
              <> (" uid=" <> (decimal s.peer.uid <> (" gid=" <> decimal s.peer.gid)))))
      ∷ ("Capabilities: peer-credentials=yes pam="
          <> (capability_label s.capabilities.pam_authentication
              <> (" dedicated-uid="
                  <> (capability_label s.capabilities.dedicated_uid
                      <> (" encrypted-mount="
                          <> capability_label s.capabilities.encrypted_mount)))))
      ∷ []

  -- The username of `run`: the argument, CODEX_VAULT_USER, or what is typed.
  unfoldable pub run_user : Option Text → Option Text → Call h Text
  run_user (some username) variable = lift (ok username)
  run_user none (some username) = lift (ok username)
  run_user none none = with_error io prompt_username

  module _ (ps : Processes h.system.State) (jq : Json DaemonRequest) (jr : Json DaemonResponse)
      (js : Json DaemonStatus) (k : Socket) (connect : Text → IoResult k.State) where
    unfoldable pub execute_status : VaultResult Text → Bool → Call h ℤ
    execute_status socket json = bind (lift socket) (λ socket.
        bind (lift (query_daemon_status jq jr k socket (connect socket)).0) (λ status.
          if json
          then bind (lift (map_err serialization (js.to_vec status)))
              (λ text. say (h.system.printed text ∷ []))
          else say (status_lines socket status)))

    -- `execute`, with the fuel of the archive.
    unfoldable pub execute :
        ℕ → Surroundings → Command → h.system.State → Option (VaultResult ℤ × h.system.State)
    execute fuel e command s = elim (from_environment e.vault_home e.home) [
      | err x ↦ some (err x, s)
      | ok store ↦ elim command [
        | init ↦ some (bind (initialize h store) (λ _. say ("Codex Vault initialized." ∷ [])) s)
        | user_add username ↦ some (execute_add store e.entropy username s)
        | user_passwd username ↦ some (execute_passwd store e.salt e.nonce e.uuid username s)
        | user_list ↦ some (execute_list store s)
        | daemon_status socket json ↦
            some
              (execute_status (elim socket [ some path ↦ ok path | none ↦ e.daemon_socket ]) json s)
        | run user arguments ↦
            let (asked, t) =
              bind {B = Text × Bytes} (run_user user e.vault_user)
                (λ username.
                  bind (with_error io (c.prompt_password "Password: "))
                    (λ password. lift (ok (username, password))))
                s in
            elim asked [
              | err x ↦ some (err x, t)
              | ok (username, password) ↦
                  run_codex h ps store fuel e.fresh e.real_codex username password arguments t
            ]
      ]
    ]

    -- `main`: the exit code.
    unfoldable pub main : ℕ → Surroundings → Command → h.system.State → Option (ℤ × h.system.State)
    main fuel e command s = elim (execute fuel e command s) [
      | none ↦ none
      | some (ok code, t) ↦ some (code, t)
      | some (err x, t) ↦ some (ℤ.pos 1, c.eprint ("codex-vault: " <> (display x <> "\n")) t)
    ]
