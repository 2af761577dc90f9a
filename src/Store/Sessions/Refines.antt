-- ===== src/Store/Sessions/Refines.antt =====
-- The locks of the store refine the machine.
use codex_vault.Prelude.{
  ◌≡◌, sym, ◌≢◌, ◌⊎◌, inl, inr, true, false, Option, some, List, [], ◌∷◌, arith, Bool-cases,
  Option-cases, Result-cases,
}
use codex_vault.Prelude.Bytes.{Bytes, Text, eq_bytes}
use codex_vault.Prelude.Bytes.Laws.{eq_bytes→eq, eq_bytes_refl}
use codex_vault.Files.Contents.{IsFiles}
use codex_vault.Files.Locking.{IsLocking}
use codex_vault.Archive.{change}
use codex_vault.Store.Host.{Host}
use codex_vault.Store.Disk.{VaultStore, user_root, lock_path}
use codex_vault.Store.Session.{UnlockedVault, unlock, close}
use codex_vault.Store.Locks.{unlock-locked, rotate_password-locked}
use codex_vault.Store.Sessions.{
  Event, step, replay, Request, unlocking, closing, rotating, serve, serve_all,
}
use codex_vault.Store.Sessions.Frame.{rotate_password-other, close-other, unlock_lock}

same_or_other : (p q : Text) → (p ≡ q) × (eq_bytes q p ≡ true) ⊎ (p ≢ q) × (eq_bytes q p ≡ false)
same_or_other p q = elim (Bool-cases (eq_bytes q p)) [
  | inl e ↦ inl (sym (eq_bytes→eq q p e), e)
  | inr e ↦ inr ((λ same. absurd (cc (rw same at e, eq_bytes_refl q))), e)
]

module _ (h : Host) (laws : IsFiles h.files) (locking : IsLocking h.files laws)
    (changes : (q : Text) (a b : h.tar.Archive) (g : h.system.State → h.system.State)
        (s : h.system.State)
      → h.tar.next a ≡ change g b
      → laws.locked q (g s) ≡ laws.locked q s)
    (store : VaultStore) where
  open laws use {locked}

  close-free :
      (uuid : Text) (seed : Option Bytes) (vault : UnlockedVault) (s : h.system.State)
      → locked vault.lock (close h uuid seed vault s).1 ≡ false
  unfolding close
  close-free uuid seed vault s = laws.drop_lock_free vault.lock _

  serve-step :
      (p : Text) (r : Request) (e : Event) (s t : h.system.State)
      → serve h store r s ≡ some (e, t)
      → step p e (locked p s) ≡ some (locked p t)
  unfolding serve step
  serve-step p (unlocking fuel username password) e s t eq =
      let path = lock_path (user_root store username) in
      elim (Option-cases (unlock h store fuel username password s)) [
        | inl stuck ↦ absurd (ground arith)
        | inr (o, found) ↦
            let (on_ok, on_err) =
              unlock-locked h laws store fuel username password s o.1 o.0 found in
            let (takes, others) =
              unlock_lock h laws locking changes store fuel username password s o.1 o.0 found in
            elim (Result-cases o.0) [
              | inl (vault, ev) ↦
                  let (free, own) = on_ok vault ev in
                  let held = takes vault ev in
                  elim (same_or_other p path) [
                    | inl (same, es) ↦ ground arith
                    | inr (other, es) ↦ let k = others p other in ground arith
                  ]
              | inr (x, ev) ↦ elim (same_or_other p path) [
                | inl (same, es) ↦ let k = on_err x ev in ground arith
                | inr (other, es) ↦ let k = others p other in ground arith
              ]
            ]
      ]
  serve-step p (closing uuid seed vault) e s t eq =
      let free = close-free uuid seed vault s in
      elim (same_or_other p vault.lock) [
        | inl (same, es) ↦ ground arith
        | inr (other, es) ↦
            let k = (close-other h laws locking uuid seed vault p other).keeps s in ground arith
      ]
  serve-step p (rotating salt iv uuid username current new) e s t eq =
      let path = lock_path (user_root store username) in
      let (own, _) = rotate_password-locked h laws store salt iv uuid username current new s in
      elim (same_or_other p path) [
        | inl (same, es) ↦ ground arith
        | inr (other, es) ↦
            let k =
              (rotate_password-other h laws locking store salt iv uuid username current new p
                  other).keeps
                s in
            ground arith
      ]

  -- With the files, their locks and `tar` as documented: whatever is asked of the store, in any
  -- order and for any profiles, what happens to the lock of each profile is a run of the machine,
  -- from the state of the lock before to its state behind. So a profile is never unlocked again
  -- before its vault is closed.
  pub serve_all-replay :
      (p : Text) (requests : List Request) (events : List Event) (s t : h.system.State)
      → serve_all h store requests s ≡ some (events, t)
      → replay p events (locked p s) ≡ some (locked p t)
  unfolding serve_all replay
  serve_all-replay p [] events s t eq = ground arith
  serve_all-replay p (r ∷ requests) events s t eq = elim (Option-cases (serve h store r s)) [
    | inl stuck ↦ absurd (ground arith)
    | inr (o, served) ↦
        let one = serve-step p r o.0 s o.1 served in
        elim (Option-cases (serve_all h store requests o.1)) [
          | inl stuck ↦ absurd (ground arith)
          | inr (q, rest) ↦
              let others = serve_all-replay p requests q.0 o.1 q.1 rest in ground arith
        ]
  ]
