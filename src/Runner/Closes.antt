-- ===== src/Runner/Closes.antt =====
-- Every run of a program in an unlocked profile ends with the close of the profile.
use codex_vault.Prelude.{
  ℤ, ℕ, ◌≡◌, refl, ◌⊎◌, inl, inr, false, Option, none, some, List, arith, ok, err, Result-cases,
  bind, lift,
}
use codex_vault.Prelude.Bytes.{Bytes, Text}
use codex_vault.Error.{VaultError, VaultResult, launch}
use codex_vault.Error.Display.{display_io}
use codex_vault.Files.Contents.{IsFiles}
use codex_vault.Store.Host.{Host}
use codex_vault.Store.Disk.{VaultStore, Call, user_root, lock_path}
use codex_vault.Store.Session.{UnlockedVault, Outcome, unlock, close}
use codex_vault.Store.Locks.{unlock-locked}
use codex_vault.Runner.{
  Processes, Fresh, start, stop, wait_and_close, run_unlocked, in_vault, run_program,
}

module _ (h : Host) (ps : Processes h.system.State) (e : Fresh) where
  -- The run ends in the close of the vault, from some state, and its result is no success if the
  -- close fails.
  pub record Closed (vault : UnlockedVault) (r : VaultResult ℤ) (t : h.system.State) : Type 0 where
    pub before : h.system.State
    pub last_step : t ≡ (close h e.uuid e.seed vault before).1
    pub close_ok : (code : ℤ) → r ≡ ok code → (close h e.uuid e.seed vault before).0 ≡ ok tt

  -- A failure behind which the vault is closed.
  abbrev failed_close : VaultError → UnlockedVault → Call h ℤ
  failed_close x vault = bind (close h e.uuid e.seed vault) (λ _. lift (err x))

  failed_close-Closed :
      (x : VaultError) (vault : UnlockedVault) (s : h.system.State)
      → let (r, t) = failed_close x vault s in Closed vault r t
  failed_close-Closed x vault s = elim (Result-cases (close h e.uuid e.seed vault s).0) [
    | inl (_, ec) ↦ record {
      before = s;
      last_step = ground arith;
      close_ok = λ code eq. absurd (ground arith);
    }
    | inr (y, ec) ↦ record {
      before = s;
      last_step = ground arith;
      close_ok = λ code eq. absurd (ground arith);
    }
  ]

  -- Behind the unlocking, whatever becomes of the start of the program, of the forwarding of signals
  -- and of the wait, the run ends in the close of the vault, and it has no success if the close fails.
  pub run_unlocked-Closed :
      (executable : Text) (arguments : List Text) (vault : UnlockedVault) (s : h.system.State)
      → let (r, t) = run_unlocked h ps e executable arguments vault s in Closed vault r t
  unfolding run_unlocked wait_and_close
  run_unlocked-Closed executable arguments vault s =
      let t = (ps.spawn executable arguments vault.codex_home vault.username s).1 in
      elim (Result-cases (ps.spawn executable arguments vault.codex_home vault.username s).0) [
        | inr (x, es) ↦
            let step : run_unlocked h ps e executable arguments vault s
                ≡ failed_close (launch (display_io x)) vault t =
              ground arith in
            rw step (failed_close-Closed (launch (display_io x)) vault t)
        | inl (pid, es) ↦
            let u = (start h ps pid t).1 in
            elim (Result-cases (start h ps pid t).0) [
              | inr (x, ef) ↦
                  let v = (ps.wait pid (ps.kill pid u).1).1 in
                  let step : run_unlocked h ps e executable arguments vault s
                      ≡ failed_close x vault v =
                    ground arith in
                  rw step (failed_close-Closed x vault v)
              | inl (handle, ef) ↦
                  let v = stop h ps handle (ps.wait pid u).1 in
                  record {
                    before = v;
                    last_step = ground arith;
                    close_ok = λ code eq. elim (Result-cases (close h e.uuid e.seed vault v).0) [
                      | inl (_, ec) ↦ ec
                      | inr (y, ec) ↦ absurd (ground arith)
                    ];
                  }
            ]
      ]

module _ (h : Host) (ps : Processes h.system.State) where
  -- How a run ends: the profile is unlocked and used, or it is not unlocked.
  pub in_vault_cases :
      (m : UnlockedVault → Call h ℤ) (o : Outcome h) (r : VaultResult ℤ) (t : h.system.State)
      → in_vault h ps m o ≡ some (r, t)
      → ((vault : UnlockedVault) × (u : h.system.State) × (o ≡ some (ok vault, u))
          × (m vault u ≡ (r, t)))
        ⊎ ((x : VaultError) × (o ≡ some (err x, t)) × (r ≡ err x))
  in_vault_cases m none r t eq = cc
  in_vault_cases m (some (ok vault, u)) r t eq = inl (vault, u, refl, cc)
  in_vault_cases m (some (err x, u)) r t eq = inr (x, cc, cc)

  pub close-free :
      (laws : IsFiles h.files) (uuid : Text) (seed : Option Bytes) (vault : UnlockedVault)
      (s : h.system.State)
      → laws.locked vault.lock (close h uuid seed vault s).1 ≡ false
  unfolding close
  close-free laws uuid seed vault s = laws.drop_lock_free vault.lock _

  -- With the files as documented: a run leaves the lock of the profile as it was, whatever its
  -- result, and succeeds only if the lock was free.
  pub run_program-locked :
      (laws : IsFiles h.files) (store : VaultStore) (fuel : ℕ) (e : Fresh) (username : Text)
      (password : Bytes) (executable : Text) (arguments : List Text) (s t : h.system.State)
      (r : VaultResult ℤ)
      → run_program h ps store fuel e username password executable arguments s ≡ some (r, t)
      → let p = lock_path (user_root store username) in
        (laws.locked p t ≡ laws.locked p s) × ((code : ℤ) → r ≡ ok code → laws.locked p s ≡ false)
  unfolding run_program
  run_program-locked laws store fuel e username password executable arguments s t r eq =
      elim (in_vault_cases (run_unlocked h ps e executable arguments)
        (unlock h store fuel username password s) r t eq) [
          | inl (vault, u, eu, em) ↦
              let (free, held) =
                (unlock-locked h laws store fuel username password s u (ok vault) eu).0 vault
                  refl in
              let done = run_unlocked-Closed h ps e executable arguments vault u in
              let opened = close-free laws e.uuid e.seed vault done.before in
              let last = done.last_step in (ground arith, λ code er. free)
          | inr (x, eu, er) ↦
              let kept =
                (unlock-locked h laws store fuel username password s t (err x) eu).1 x refl in
              (kept, λ code er2. absurd cc)
        ]
