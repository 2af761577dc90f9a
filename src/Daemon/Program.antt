-- ===== src/Daemon/Program.antt =====
-- src/bin/codex-vaultd.rs: the program of the daemon, behind the parsing of its arguments.
use codex_vault.Prelude.{
  [], ◌∷◌, String, ℕ, Bool, Option, none, some, List, if◌then◌else◌, ok, err, Action, bind, lift,
}
use codex_vault.Prelude.Bytes.{Text}
use codex_vault.Error.{VaultError, VaultResult}
use codex_vault.Error.Display.{◌<>◌, display}
use codex_vault.Private.{FileSystem}
use codex_vault.Protocol.{Json, DaemonRequest, DaemonResponse}
use codex_vault.Daemon.{Socket, Server}
use codex_vault.Daemon.Listener.{
  Sockets, Round, Served, for_current_user, serve_daemon_once, serve_daemon,
}

-- `Cli`
pub record Cli : Type 0 where
  pub socket : Option Text
  pub once : Bool

-- `println!` and `eprintln!`.
pub record Output (S : Type 0) : Type 0 where
  pub print : String → S → S
  pub eprint : String → S → S

module _ (f : FileSystem) (k : Socket) (ss : Sockets f k) (jq : Json DaemonRequest)
    (jr : Json DaemonResponse) (d : Server) (out : Output f.State) where
  -- The result of the daemon, `none` while it still runs, and what became of its connections.
  abbrev pub Ended : Type 0
  Ended = Option (VaultResult (Unit {0})) × List (Served f k ss jq jr d)

  -- `execute`, by the result of `default_daemon_socket` and the rounds of the daemon's loop.
  unfoldable pub execute :
      Cli → VaultResult Text → List (Round f k ss jq jr d) → Action f.State VaultError Ended
  execute cli chosen rounds = bind (lift (for_current_user cli.socket chosen f.euid)) (λ config s.
      let t = out.print ("codex-vaultd starting on " <> (f.printed config.socket_path <> "\n")) s in
      if cli.once
      then bind (serve_daemon_once f k ss jq jr d config)
          (λ served. lift (ok (some served.0, served ∷ []))) t
      else serve_daemon f k ss jq jr d config rounds t)

  abbrev failed : VaultError → f.State → Option ℕ × f.State
  failed e s = (some 1, out.eprint ("codex-vaultd: " <> (display e <> "\n")) s)

  -- `main`: the exit code, or `none` while the daemon runs.
  unfoldable pub main :
      Cli → VaultResult Text → List (Round f k ss jq jr d) → f.State → Option ℕ × f.State
  main cli chosen rounds s =
      let (r, t) = execute cli chosen rounds s in
      elim r [
        | err e ↦ failed e t
        | ok (ended, served) ↦ elim ended [
          | none ↦ (none, t)
          | some (ok _) ↦ (some 0, t)
          | some (err e) ↦ failed e t
        ]
      ]
