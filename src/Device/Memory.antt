-- ===== src/Device/Memory.antt =====
-- `Vec<u8>` as a destination and `Cursor` as a source. Neither fails, but for a short source.
use codex_vault.Prelude.{
  [], ℕ, ◌<◌, ◌≡◌, refl, ok, err, ◌++◌, ◌∷◌, zero, suc, length, take, drop, ltb, length-take,
  take-append-drop, if◌then◌else◌, arith,
}
use codex_vault.Prelude.Bytes.{Bytes}
use codex_vault.Error.{os, ErrorKind}
use codex_vault.Device.{Sink, IsSink, Source, IsSource, IsReliable}

abbrev pub vec : Sink
vec = record { State = Bytes; write_all = λ bytes t. (ok tt, t ++ bytes); flush = λ t. (ok tt, t) }

unfoldable pub vec-IsSink : IsSink vec
vec-IsSink = record { written = λ t. t; write_all_ok = λ bytes t e. refl; flush_ok = λ t e. refl }

-- What is left of the bytes is the cursor's state. A short `read_exact` uses up the source.
abbrev pub cursor : Source
cursor = record {
  State = Bytes;
  read_exact = λ n t.
      if ltb (length t) n
      then (err (os ErrorKind.unexpected_eof "failed to fill whole buffer"), [])
      else (ok (take n t), drop n t);
  read = λ n t. (ok (take n t), drop n t);
}

pub take_of_pos : (n : ℕ) (t : Bytes) → 0 < n → take n t ≡ [] → t ≡ []
unfolding take
take_of_pos n [] h e = refl
take_of_pos zero (x ∷ t) h e = absurd (omega arith)
take_of_pos (suc n) (x ∷ t) h e = cc

unfoldable pub cursor-IsSource : IsSource cursor
cursor-IsSource = record {
  rest = λ t. t;
  read_exact_ok = λ n t bytes e. ground (arith, take-append-drop n t, length-take n t);
  read_ok = λ n t bytes e. ground (arith, take-append-drop n t, length-take n t);
  read_nil = λ n t h e. take_of_pos n t h (ground arith);
}

pub cursor-IsReliable : IsReliable cursor cursor-IsSource
unfolding cursor-IsSource
cursor-IsReliable = record {
  read_exact_total = λ n t h. (take n t, ground arith);
  read_total = λ n t. (take n t, refl);
}
