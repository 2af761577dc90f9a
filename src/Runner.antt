-- ===== src/Runner.antt =====
-- src/runner.rs: a profile is unlocked, the program runs in it, and the profile is closed; and what
-- the code calls of `std::process` and `signal_hook`.
pub mod Closes
pub mod Finished
use codex_vault.Prelude.{
  ℤ, ℕ, ◌+◌, Option, none, some, List, ok, err, ◌>>=◌, ◌>>◌, Action, bind, lift, with_error,
}
use codex_vault.Prelude.Bytes.{Bytes, Text, ascii}
use codex_vault.Error.{VaultError, VaultResult, IoError, io, launch}
use codex_vault.Error.Display.{display_io}
use codex_vault.Store.Host.{Host}
use codex_vault.Store.Disk.{VaultStore, Call}
use codex_vault.Store.Session.{UnlockedVault, Outcome, unlock, close}

-- `ExitStatus`: the code, or the signal that ended the process.
pub record ExitStatus : Type 0 where
  pub code : Option ℤ
  pub signal : Option ℕ

-- Processes by their number: `Command::spawn` of an executable with its arguments, CODEX_HOME and
-- CODEX_VAULT_ACTIVE_USER; `kill` and `wait`. `Signals::new` with its handle, the thread that sends
-- the signals to a process, the close of the handle, and the join of the thread.
pub record Processes (S : Type 0) : Type 0 where
  pub spawn : Text → List Text → Text → Text → Action S IoError ℕ
  pub kill : ℕ → Action S IoError (Unit {0})
  pub wait : ℕ → Action S IoError ExitStatus
  pub signals : Action S IoError ℕ
  pub forward : ℕ → ℕ → S → S
  pub close_handle : ℕ → S → S
  pub join : ℕ → S → S

-- What the program exits with: the code, or 128 and the signal.
abbrev pub exit_code : ExitStatus → ℤ
exit_code status = elim status.code [
  | some code ↦ code
  | none ↦ elim status.signal [ some signal ↦ ℤ.pos (128 + signal) | none ↦ ℤ.pos 128 ]
]

-- What one run takes of the random source for the file that it seals.
pub record Fresh : Type 0 where
  pub uuid : Text
  pub seed : Option Bytes

module _ (h : Host) (ps : Processes h.system.State) where
  -- `SignalForwarder::start` and `stop`
  unfoldable pub start : ℕ → Call h ℕ
  start pid = bind (with_error io ps.signals) (λ handle s. (ok handle, ps.forward handle pid s))

  unfoldable pub stop : ℕ → h.system.State → h.system.State
  stop handle s = ps.join handle (ps.close_handle handle s)

  -- The program is waited for, and the profile is closed.
  unfoldable pub wait_and_close : Fresh → UnlockedVault → ℕ → ℕ → Call h ℤ
  wait_and_close e vault pid handle s =
      let (status, t) = with_error io (ps.wait pid) s in
      let (closed, u) = close h e.uuid e.seed vault (stop handle t) in
      (status >>= λ status. (closed >> ok (exit_code status)), u)

  -- `run_program`, behind the unlocking.
  unfoldable pub run_unlocked : Fresh → Text → List Text → UnlockedVault → Call h ℤ
  run_unlocked e executable arguments vault s =
      let (child, t) = ps.spawn executable arguments vault.codex_home vault.username s in
      elim child [
        | err x ↦ bind (close h e.uuid e.seed vault) (λ _. lift (err (launch (display_io x)))) t
        | ok pid ↦
            let (started, u) = start pid t in
            elim started [
              | err x ↦
                  bind (close h e.uuid e.seed vault) (λ _. lift (err x))
                    (ps.wait pid (ps.kill pid u).1).1
              | ok handle ↦ wait_and_close e vault pid handle u
            ]
      ]

  -- What an unlocked profile is used for; an error of the unlocking is the result.
  abbrev pub in_vault :
      (UnlockedVault → Call h ℤ) → Outcome h → Option (VaultResult ℤ × h.system.State)
  in_vault m none = none
  in_vault m (some (ok vault, s)) = some (m vault s)
  in_vault m (some (err x, s)) = some (err x, s)

  -- `run_program`, with the fuel of the archive.
  unfoldable pub run_program :
      VaultStore
      → ℕ
      → Fresh
      → Text
      → Bytes
      → Text
      → List Text
      → h.system.State
      → Option (VaultResult ℤ × h.system.State)
  run_program store fuel e username password executable arguments s =
      in_vault (run_unlocked e executable arguments) (unlock h store fuel username password s)

  -- `run_codex`, by CODEX_VAULT_REAL_CODEX.
  unfoldable pub run_codex :
      VaultStore
      → ℕ
      → Fresh
      → Option Text
      → Text
      → Bytes
      → List Text
      → h.system.State
      → Option (VaultResult ℤ × h.system.State)
  run_codex store fuel e real username password arguments =
      run_program store fuel e username password
        (elim real [ some executable ↦ executable | none ↦ ascii "codex" ]) arguments
