-- ===== src/Cli/Confirmed.antt =====
-- A password that is not confirmed changes nothing.
use codex_vault.Prelude.{
  ℤ, ℕ, String, ◌≡◌, refl, ◌≢◌, inl, inr, false, some, arith, Bool-cases, ok, err,
}
use codex_vault.Prelude.Bytes.{Bytes, Text, eq_bytes}
use codex_vault.Prelude.Bytes.Laws.{eq_bytes→eq}
use codex_vault.Error.{IoResult, invalid_configuration}
use codex_vault.Private.{default_vault_root}
use codex_vault.Protocol.{Json, DaemonRequest, DaemonResponse, DaemonStatus}
use codex_vault.Daemon.{Socket}
use codex_vault.Store.Host.{Host}
use codex_vault.Runner.{Processes}
use codex_vault.Error.Display.{display}
use codex_vault.Cli.{
  Terminal, Surroundings, user_add, user_passwd, new_password, execute_add, execute_passwd, execute,
  main,
}

differ : (a b : Bytes) → a ≢ b → eq_bytes a b ≡ false
differ a b other = elim (Bool-cases (eq_bytes a b)) [
  | inl same ↦ absurd (other (eq_bytes→eq a b same))
  | inr differs ↦ differs
]

module _ (h : Host) (c : Terminal h.system.State) where
  new_password_mismatch :
      (confirm : String) (s t u : h.system.State) (a b : Bytes)
      → c.prompt_password "New password: " s ≡ (ok a, t)
      → c.prompt_password confirm t ≡ (ok b, u)
      → a ≢ b
      → new_password h c confirm s ≡ (err (invalid_configuration "passwords do not match"), u)
  unfolding new_password
  new_password_mismatch confirm s t u a b ea eb other =
      let differs = differ a b other in rw (ea, eb, differs) refl

  module _ (ps : Processes h.system.State) (jq : Json DaemonRequest) (jr : Json DaemonResponse)
      (js : Json DaemonStatus) (k : Socket) (connect : Text → IoResult k.State) where
    -- A user whose two passwords differ is not added: the command fails, and behind the two prompts
    -- nothing is called.
    execute-user_add :
        (fuel : ℕ) (e : Surroundings) (root username : Text) (s t u : h.system.State) (a b : Bytes)
        → default_vault_root e.vault_home e.home ≡ ok root
        → c.prompt_password "New password: " s ≡ (ok a, t)
        → c.prompt_password "Confirm password: " t ≡ (ok b, u)
        → a ≢ b
        → execute h c ps jq jr js k connect fuel e (user_add username) s
          ≡ some (err (invalid_configuration "passwords do not match"), u)
    unfolding execute execute_add
    execute-user_add fuel e root username s t u a b er ea eb other =
        let m = new_password_mismatch "Confirm password: " s t u a b ea eb other in
        ground (arith, er, m)

    execute-user_passwd :
        (fuel : ℕ) (e : Surroundings) (root username : Text) (s t u v : h.system.State)
        (current a b : Bytes)
        → default_vault_root e.vault_home e.home ≡ ok root
        → c.prompt_password "Current password: " s ≡ (ok current, t)
        → c.prompt_password "New password: " t ≡ (ok a, u)
        → c.prompt_password "Confirm new password: " u ≡ (ok b, v)
        → a ≢ b
        → execute h c ps jq jr js k connect fuel e (user_passwd username) s
          ≡ some (err (invalid_configuration "passwords do not match"), v)
    unfolding execute execute_passwd
    execute-user_passwd fuel e root username s t u v current a b er ec ea eb other =
        let m = new_password_mismatch "Confirm new password: " t u v a b ea eb other in
        ground (arith, er, ec, m)

    -- A password whose new value is not confirmed is not changed: the program prints the error and
    -- ends with the code 1, and behind the three prompts nothing else is called.
    pub main-user_passwd :
        (fuel : ℕ) (e : Surroundings) (root username : Text) (s t u v : h.system.State)
        (current a b : Bytes)
        → default_vault_root e.vault_home e.home ≡ ok root
        → c.prompt_password "Current password: " s ≡ (ok current, t)
        → c.prompt_password "New password: " t ≡ (ok a, u)
        → c.prompt_password "Confirm new password: " u ≡ (ok b, v)
        → a ≢ b
        → main h c ps jq jr js k connect fuel e (user_passwd username) s
          ≡ some
              (ℤ.pos 1, c.eprint "codex-vault: invalid configuration: passwords do not match\n" v)
    unfolding main display
    main-user_passwd fuel e root username s t u v current a b er ec ea eb other =
        rw (main, execute-user_passwd fuel e root username s t u v current a b er ec ea eb other)
          refl
