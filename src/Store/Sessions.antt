-- ===== src/Store/Sessions.antt =====
-- Rows of calls on the profiles, and the lock of one profile as a machine with two states.
pub mod Frame
pub mod Refines
use codex_vault.Prelude.{
  ℕ, Bool, true, false, Option, none, some, List, [], ◌∷◌, if◌then◌else◌, ok, err,
}
use codex_vault.Prelude.Bytes.{Bytes, Text, eq_bytes}
use codex_vault.Error.{VaultError, VaultResult}
use codex_vault.Store.Host.{Host}
use codex_vault.Store.Disk.{VaultStore}
use codex_vault.Store.Session.{UnlockedVault, Outcome, rotate_password, unlock, close}

-- What a call did to a lock.
pub data Event : Type 0 where
  opened : Text → Event
  closed : Text → Event
  unchanged : Event

-- The lock `p` is free or held: it is opened only if it is free, and closing it frees it.
unfoldable pub step : Text → Event → Bool → Option Bool
step p (opened q) held = if eq_bytes q p then (if held then none else some true) else some held
step p (closed q) held = some (if eq_bytes q p then false else held)
step p unchanged held = some held

unfoldable pub replay : Text → List Event → Bool → Option Bool
replay p [] held = some held
replay p (e ∷ events) held = elim (step p e held) [ none ↦ none | some now ↦ replay p events now ]

-- A call of the store, with all of its arguments.
pub data Request : Type 0 where
  unlocking : ℕ → Text → Bytes → Request
  closing : Text → Option Bytes → UnlockedVault → Request
  rotating : Option Bytes → Option Bytes → Text → Text → Bytes → Bytes → Request

module _ (h : Host) (store : VaultStore) where
  abbrev noted : Outcome h → Option (Event × h.system.State)
  noted none = none
  noted (some (ok vault, s)) = some (opened vault.lock, s)
  noted (some (err e, s)) = some (unchanged, s)

  unfoldable pub serve : Request → h.system.State → Option (Event × h.system.State)
  unfolding noted
  serve (unlocking fuel username password) s = noted (unlock h store fuel username password s)
  serve (closing uuid seed vault) s = some (closed vault.lock, (close h uuid seed vault s).1)
  serve (rotating salt iv uuid username current new) s =
      some (unchanged, (rotate_password h store salt iv uuid username current new s).1)

  unfoldable pub serve_all : List Request → h.system.State → Option (List Event × h.system.State)
  serve_all [] s = some ([], s)
  serve_all (r ∷ requests) s = elim (serve r s) [
    | none ↦ none
    | some (e, t) ↦ elim (serve_all requests t) [
      | none ↦ none
      | some (events, u) ↦ some (e ∷ events, u)
    ]
  ]
