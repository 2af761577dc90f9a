-- ===== src/Tests/Locks.antt =====
-- Calls on the profile in memory, and the machine of its lock.
use codex_vault.Prelude.{ok, err, ap, ◌≢◌, ◌≡◌, refl, true, false, some, [], ◌∷◌}
use codex_vault.Prelude.Bytes.{Text, ascii}
use codex_vault.Store.Disk.{lock_path}
use codex_vault.Store.Session.{rotate_password}
use codex_vault.Tests.Passwords.{nonce, salt, password}
use codex_vault.Tests.Profiles.{alice, new_password}
use codex_vault.Tests.Disk.{
  Disk, disk_files, disk_files-IsFiles, is_held, try_lock, open_at, read_with,
}
use codex_vault.Tests.Host.{next_move, host, store}
use codex_vault.Prelude.{inl, inr, Bool-cases, List, arith}
use codex_vault.Archive.{change}
use codex_vault.Files.Kept.{IsKept}
use codex_vault.Files.Locking.{IsLocking}
use codex_vault.Store.Session.{close}
use codex_vault.Store.Sessions.{
  Event, replay, Request, unlocking, closing, rotating, serve, serve_all,
}
use codex_vault.Store.Sessions.Refines.{serve_all-replay}
use codex_vault.Tests.Disk.{look_up_same, look_up_other}
use codex_vault.Tests.Host.{Stage}
use codex_vault.Tests.Unpacking.{reads_on}
use codex_vault.Store.Held.{unlock-held}
use codex_vault.Store.Session.{UnlockedVault}
use codex_vault.Error.{VaultError}
use codex_vault.Tests.Sessions.{root, seed, sealed, vault, opened, unlocks, unlocked}

locks-IsKept : (q : Text) → IsKept disk_files (disk_files-IsFiles.locked q) (λ _. Unit {0})
unfolding disk_files-IsFiles open_at read_with is_held
locks-IsKept q = record {
  create_dir = λ mode p. record { keeps = λ d. refl };
  create_new = λ mode p o. record { keeps = λ d. refl };
  open_read = λ p. record { keeps = λ d. refl };
  open_or_create = λ mode p. record { keeps = λ d. refl };
  open_file = λ p. record { keeps = λ d. refl };
  set_permissions = λ mode p. record { keeps = λ d. refl };
  set_len = λ n p o. record { keeps = λ d. refl };
  seek_start = λ n p. record { keeps = λ d. refl };
  sync_all = λ p. record { keeps = λ d. refl };
  write_all = λ p bytes o. record { keeps = λ d. refl };
  flush = λ p. record { keeps = λ d. refl };
  read_exact = λ p n. record { keeps = λ d. refl };
  read = λ p n. record { keeps = λ d. refl };
  read_to_end = λ n p. record { keeps = λ d. refl };
  rename = λ p r o o'. record { keeps = λ d. refl };
  remove_file = λ p o. record { keeps = λ d. refl };
  tempdir_in = λ p name. record { keeps = λ d. refl };
  close_tempdir = λ p o. record { keeps = λ d. refl };
}

disk_files-IsLocking : IsLocking disk_files disk_files-IsFiles
unfolding disk_files-IsFiles try_lock is_held
disk_files-IsLocking = record {
  kept = locks-IsKept;
  try_lock_takes = λ p d e. elim (Bool-cases (is_held p d)) [
    | inl taken ↦ absurd (ground (arith, taken))
    | inr free ↦ rw free (look_up_same false d.held p true)
  ];
  try_lock_other = λ p q other. record {
    keeps = λ d. elim (Bool-cases (is_held p d)) [
      | inl taken ↦ rw taken refl
      | inr free ↦ rw free (look_up_other false d.held p q true other)
    ];
  };
  unlock_other = λ p q other. record { keeps = λ d. look_up_other false d.held p q false other };
  drop_lock_other = λ p q d other. look_up_other false d.held p q false other;
}

changes :
    (q : Text) (a b : Stage) (g : Disk → Disk) (d : Disk)
    → next_move a ≡ change g b
    → disk_files-IsFiles.locked q (g d) ≡ disk_files-IsFiles.locked q d
changes q a b g d e = ap (disk_files-IsFiles.locked q) (reads_on a b g d e)

unlock-held_example :
    let p = lock_path root in
    let locked = disk_files-IsFiles.locked in
    ((v : UnlockedVault)
      → unlocked ≡ ok v
      → (v.lock ≡ p) × (locked p sealed ≡ false) × (locked p opened ≡ true))
    × ((x : VaultError) → unlocked ≡ err x → locked p opened ≡ locked p sealed)
    × ((q : Text) → q ≢ p → locked q opened ≡ locked q sealed)
unfolding root
unlock-held_example =
    unlock-held host disk_files-IsFiles disk_files-IsLocking changes store 50 alice password sealed
      opened (ok vault) unlocks

-- The profile is unlocked, closed, and its password changed.
abbrev requests : List Request
requests =
    unlocking 50 alice password
    ∷ (closing (ascii "u") (some seed) vault
        ∷ (rotating (some salt) (some nonce) (ascii "u") alice password new_password ∷ []))

abbrev events : List Event
events = Event.opened (lock_path root) ∷ (Event.closed (lock_path root) ∷ (Event.unchanged ∷ []))

abbrev shut : Disk
shut = (close host (ascii "u") (some seed) vault opened).1

abbrev after_all : Disk
after_all =
    (rotate_password host store (some salt) (some nonce) (ascii "u") alice password new_password
      shut).1

serves : serve_all host store requests sealed ≡ some (events, after_all)
unfolding serve_all serve
serves = rw (serve_all, serve, unlocks) refl

serve_all-replay_example :
    replay (lock_path root) events (disk_files-IsFiles.locked (lock_path root) sealed)
    ≡ some (disk_files-IsFiles.locked (lock_path root) after_all)
serve_all-replay_example =
    serve_all-replay host disk_files-IsFiles disk_files-IsLocking changes store (lock_path root)
      requests events sealed after_all serves
