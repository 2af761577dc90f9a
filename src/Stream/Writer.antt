-- ===== src/Stream/Writer.antt =====
-- src/crypto/vault_stream.rs, `VaultWriter`: input of any length is cut into chunks, and each
-- chunk is sealed as a frame. Every method returns the writer that it leaves, after an error too.
mod Step
pub mod Holds
mod Keeps
mod Input
pub mod Image
pub mod Inner
use codex_vault.Prelude.{
  [], ℕ, zero, suc, ◌+◌, ◌-◌, min, Bool, true, false, Option, none, some, List, ◌∷◌, ◌++◌, Action,
  bind, with_error, lift, ok, err, map_err, ok_or, length, take, drop, leb, ◌==◌, if◌then◌else◌,
}
use codex_vault.Prelude.Bytes.{Bytes, u32_max}
use codex_vault.Error.{
  VaultError, VaultResult, io, cryptography, IoError, other_text, other_printed,
}
use codex_vault.Device.{Sink}
use codex_vault.Stream.Format.{Aead, magic, chunk_size, data_frame, final_frame, new_from_slice}
use codex_vault.Stream.Frame.{Context, seal}

pub record VaultWriter (s : Sink) : Type 0 where
  pub inner : Option s.State
  pub context : Context
  pub open context use *
  pub pending : Bytes
  pub sequence : ℕ
  pub finished : Bool

abbrev pub is_empty {ℓ} : {A : Type ℓ} → List A → Bool
is_empty [] = true
is_empty (x ∷ xs) = false

module _ {s : Sink} where
  abbrev start : Bytes → Bytes → Option Bytes → s.State → VaultResult (VaultWriter s)
  start file_header nonce_seed none t = err (cryptography "invalid vault data key")
  start file_header nonce_seed (some cipher) t = ok (record {
    inner = some t;
    context = record { cipher = cipher; file_header = file_header; nonce_seed = nonce_seed };
    pending = [];
    sequence = 0;
    finished = false;
  })

  abbrev advance : Action (VaultWriter s) VaultError (Unit {0})
  advance w = (ok tt, record w { sequence = w.sequence + 1 })

module _ (c : Aead) (s : Sink) where
  abbrev pub Write : Type 0 → Type 0 → Type 0
  Write E A = Action (VaultWriter s) E A

  -- `VaultWriter::new`; the seed is what `getrandom::fill` gave, if it gave one. The destination
  -- moves into the writer, and is returned beside an error.
  unfoldable pub new : Option Bytes → Bytes → Action s.State VaultError (VaultWriter s)
  new none data_key t = (err (cryptography "operating-system random source failed"), t)
  new (some nonce_seed) data_key t =
      let file_header = magic ++ nonce_seed in
      bind (with_error io (s.write_all file_header))
        (λ _ u. (start file_header nonce_seed (new_from_slice data_key) u, u)) t

  -- `inner_mut()?` and a call of a method on it.
  unfoldable pub on_inner : {A : Type 0} → Action s.State IoError A → Write VaultError A
  on_inner m w = elim w.inner [
    | none ↦ (err (cryptography "vault writer is already finished"), w)
    | some t ↦ let (r, u) = m t in (map_err io r, record w { inner = some u })
  ]

  -- `write_frame`
  unfoldable pub write_frame : ℕ → Bytes → Write VaultError (Unit {0})
  unfolding on_inner
  write_frame frame_type plaintext w =
      if w.sequence == u32_max
      then (err (cryptography "vault frame sequence exhausted"), w)
      else bind (lift (seal c w.context frame_type w.sequence plaintext))
          (λ (header, ciphertext).
            bind (on_inner (s.write_all header))
              (λ _. bind (on_inner (s.write_all ciphertext)) (λ _. advance)))
          w

  -- The first part of `write`: fill up what is pending, and seal it if it is a whole chunk.
  -- `mem::take` leaves nothing pending also where the frame fails. Returns the input left.
  unfoldable pub fill_pending : Bytes → Write IoError Bytes
  fill_pending input w =
      let n = min (chunk_size - length w.pending) (length input) in
      let pending = w.pending ++ take n input in
      if is_empty w.pending
      then (ok input, w)
      else if length pending == chunk_size
      then bind (with_error other_printed (write_frame data_frame pending))
          (λ _. lift (ok (drop n input))) (record w { pending = [] })
      else (ok (drop n input), record w { pending = pending })

  -- The `while` of `write`. Each round takes a chunk, so the input's length is fuel enough.
  unfoldable pub write_chunks : ℕ → Bytes → Write IoError Bytes
  write_chunks zero input w = (ok input, w)
  write_chunks (suc fuel) input w = elim (leb chunk_size (length input)) [
    | true ↦
        bind (with_error other_printed (write_frame data_frame (take chunk_size input)))
          (λ _. write_chunks fuel (drop chunk_size input)) w
    | false ↦ (ok input, w)
  ]

  -- `Write::write`
  unfoldable pub write : Bytes → Write IoError ℕ
  write input w =
      if w.finished
      then (err (other_text "vault writer is already finished"), w)
      else bind (fill_pending input)
          (λ rest.
            bind (write_chunks (length rest) rest)
              (λ tail w'. (ok (length input), record w' { pending = w'.pending ++ tail })))
          w

  -- `Write::flush`
  unfoldable pub flush : Write IoError (Unit {0})
  flush w = elim w.inner [
    | none ↦ (err (other_text "vault writer is already finished"), w)
    | some t ↦ let (r, u) = s.flush t in (r, record w { inner = some u })
  ]

  flush_pending : Write VaultError (Unit {0})
  flush_pending w =
      if is_empty w.pending
      then (ok tt, w)
      else write_frame data_frame w.pending (record w { pending = [] })

  take_inner : Write VaultError s.State
  take_inner w = (
    ok_or w.inner (cryptography "vault writer is already finished"),
    record w { inner = none; finished = true },
  )

  -- `finish`
  unfoldable pub finish : Write VaultError s.State
  unfolding flush_pending take_inner
  finish =
      bind flush_pending
        (λ _. bind (write_frame final_frame []) (λ _. bind (on_inner s.flush) (λ _. take_inner)))

  -- A sequence of writes, as `tar::Builder` makes them, that stops at the first error.
  unfoldable pub write_each : List Bytes → Write IoError (Unit {0})
  write_each [] w = (ok tt, w)
  write_each (input ∷ inputs) w = bind (write input) (λ _. write_each inputs) w
