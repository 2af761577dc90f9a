-- ===== src/Device.antt =====
-- What the code uses of `std::io`: a destination (`Write`) and a source (`Read`), with the
-- documented behaviour of their methods, and the two in-memory ones, `Vec<u8>` and `Cursor`.
pub mod Memory
use codex_vault.Prelude.{[], ℕ, ◌≤◌, ◌<◌, ◌≡◌, ok, ◌++◌, length, Action}
use codex_vault.Prelude.Bytes.{Bytes}
use codex_vault.Error.{IoError}

-- `Write::write_all` and `Write::flush`.
pub record Sink : Type 1 where
  pub State : Type 0
  pub write_all : Bytes → Action State IoError (Unit {0})
  pub flush : Action State IoError (Unit {0})

-- A call that succeeds has written all of its bytes behind what was there, and a flush nothing.
-- A call may fail at any time.
pub record IsSink (s : Sink) : Type 0 where
  pub written : s.State → Bytes
  pub write_all_ok :
      (bytes : Bytes) (t : s.State)
      → (s.write_all bytes t).0 ≡ ok tt
      → written (s.write_all bytes t).1 ≡ written t ++ bytes
  pub flush_ok : (t : s.State) → (s.flush t).0 ≡ ok tt → written (s.flush t).1 ≡ written t

-- `Read::read_exact` into a buffer of the given length, and `Read::read`. The bytes that were
-- read are the value of the call.
pub record Source : Type 1 where
  pub State : Type 0
  pub read_exact : ℕ → Action State IoError Bytes
  pub read : ℕ → Action State IoError Bytes

-- A call that succeeds takes its bytes off the front of what is left: `read_exact` as many as the
-- buffer holds; `read` at most as many, and none from a source with bytes left only if the
-- buffer is empty. A call may fail at any time.
pub record IsSource (s : Source) : Type 0 where
  pub rest : s.State → Bytes
  pub read_exact_ok :
      (n : ℕ) (t : s.State) (bytes : Bytes)
      → (s.read_exact n t).0 ≡ ok bytes
      → (rest t ≡ bytes ++ rest (s.read_exact n t).1) × (length bytes ≡ n)
  pub read_ok :
      (n : ℕ) (t : s.State) (bytes : Bytes)
      → (s.read n t).0 ≡ ok bytes
      → (rest t ≡ bytes ++ rest (s.read n t).1) × (length bytes ≤ n)
  pub read_nil : (n : ℕ) (t : s.State) → 0 < n → (s.read n t).0 ≡ ok [] → rest t ≡ []

-- A source that does not fail while it has bytes left: each call that can succeed does.
pub record IsReliable (s : Source) (is : IsSource s) : Type 0 where
  pub read_exact_total :
      (n : ℕ) (t : s.State)
      → n ≤ length (is.rest t)
      → (bytes : Bytes) × ((s.read_exact n t).0 ≡ ok bytes)
  pub read_total : (n : ℕ) (t : s.State) → (bytes : Bytes) × ((s.read n t).0 ≡ ok bytes)
