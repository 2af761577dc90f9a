-- ===== src/Daemon/Listener/Rounds.antt =====
-- The daemon's loop against the connections that it accepts.
use codex_vault.Prelude.{
  ℕ, ◌≡◌, refl, inl, inr, true, false, none, some, List, [], ◌∷◌, ◌++◌, arith, All, ok, err,
  Result-cases,
}
use mathlib.Core.List.{map}
use codex_vault.Error.{IoError}
use codex_vault.Private.{FileSystem}
use codex_vault.Protocol.{Json, DaemonRequest, DaemonResponse}
use codex_vault.Daemon.{Socket, Server, handle_connection}
use codex_vault.Daemon.Listener.{Sockets, Round, serve_rounds, is_would_block}

module _ (f : FileSystem) (k : Socket) (ss : Sockets f k) (jq : Json DaemonRequest)
    (jr : Json DaemonResponse) (d : Server) where
  abbrev Rounds : Type 0
  Rounds = List (Round f k ss jq jr d)

  -- The connections that were accepted, in their order.
  unfoldable pub connections : Rounds → List k.State
  connections [] = []
  connections (round ∷ rounds) = elim round.accepted [
    | ok c ↦ c ∷ connections rounds
    | err e ↦ connections rounds
  ]

  -- Nobody asks for the end, and there is a connection or none yet.
  abbrev pub IsQuiet : Round f k ss jq jr d → Type 0
  IsQuiet round =
      (round.stop ≡ false)
      × ((e : IoError) → round.accepted ≡ err e → is_would_block f k ss jq jr d e ≡ true)

  -- Behind any number of quiet rounds, the daemon has handled every connection that it accepted, in
  -- their order, whatever became of those before; then it ends with success when it is asked to.
  pub serve_rounds-connections :
      (uid : ℕ) (rounds rest : Rounds) (last : Round f k ss jq jr d)
      → All IsQuiet rounds
      → last.stop ≡ true
      → let handled = map (handle_connection jq jr k d uid) (connections rounds) in
        (serve_rounds f k ss jq jr d uid rounds ≡ (none, handled))
        × (serve_rounds f k ss jq jr d uid (rounds ++ (last ∷ rest)) ≡ (some (ok tt), handled))
  unfolding serve_rounds connections map
  serve_rounds-connections uid [] rest last quiet e = (refl, ground arith)
  serve_rounds-connections uid (round ∷ rounds) rest last (quiet, others) e =
      let (goes_on, waits) = quiet in
      let (running, stopped) = serve_rounds-connections uid rounds rest last others e in
      elim (Result-cases round.accepted) [
        | inl (c, ea) ↦ (ground arith, ground arith)
        | inr (x, ea) ↦ let blocks = waits x ea in (ground arith, ground arith)
      ]
