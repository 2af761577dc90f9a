-- ===== src/Stream/Reader/Rounds.antt =====
-- One round of each of the reader's loops, as an equation for each way that it can go.
use codex_vault.Prelude.{
  ℕ, suc, ◌≡◌, refl, sym, ◌∙◌, true, false, none, some, ok, err, Option, ◌==◌, after,
}
use codex_vault.Prelude.Bytes.{Bytes}
use codex_vault.Error.{IoError, IoResult}
use codex_vault.Device.{Source}
use codex_vault.Stream.Format.{Aead}
use codex_vault.Stream.Reader.{
  VaultReader, read_next_frame, exhausted, next_data, read, copy_out, continue, continue, drain,
  read_fuel,
}

module _ (c : Aead) (s : Source) (r : VaultReader s) where
  pub next_data-zero : next_data c s 0 r ≡ none
  unfolding next_data
  next_data-zero = refl

  pub next_data_stop :
      (fuel : ℕ) → exhausted c s r ≡ false → next_data c s (suc fuel) r ≡ some (ok tt, r)
  unfolding next_data
  next_data_stop fuel e = rw (e, next_data)

  pub next_data_ok :
      (fuel : ℕ)
      → exhausted c s r ≡ true
      → (read_next_frame c s r).0 ≡ ok tt
      → next_data c s (suc fuel) r ≡ next_data c s fuel (read_next_frame c s r).1
  unfolding next_data
  next_data_ok fuel e f = rw (e, f, next_data)

  pub next_data_err :
      (fuel : ℕ) (x : IoError)
      → exhausted c s r ≡ true
      → (read_next_frame c s r).0 ≡ err x
      → next_data c s (suc fuel) r ≡ some (err x, (read_next_frame c s r).1)
  unfolding next_data
  next_data_err fuel x e f = rw (e, f, next_data)

  read_as :
      (n : ℕ)
      → (n == 0) ≡ false
      → read c s n r ≡ elim (next_data c s read_fuel r) [
        | none ↦ none
        | some (a, r') ↦ some (after a (λ _. copy_out c s n) r')
      ]
  unfolding read
  read_as n e = rw e

  pub read_of_data :
      (n : ℕ) (r1 : VaultReader s)
      → (n == 0) ≡ false
      → next_data c s read_fuel r ≡ some (ok tt, r1)
      → read c s n r ≡ some (copy_out c s n r1)
  read_of_data n r1 e f = read_as n e ∙ rw f

  copied :
      (o : Option (IoResult (Unit {0}) × VaultReader s)) (n : ℕ) (bytes : Bytes)
      (r' : VaultReader s)
      → elim o [ none ↦ none | some (a, r') ↦ some (after a (λ _. copy_out c s n) r') ]
        ≡ some (ok bytes, r')
      → (r1 : VaultReader s) × (o ≡ some (ok tt, r1)) × (copy_out c s n r1 ≡ (ok bytes, r'))
  copied none n bytes r' e = cc
  copied (some (ok _, r1)) n bytes r' e = (r1, refl, cc)
  copied (some (err x, r1)) n bytes r' e = cc

  -- A read that gives bytes has found data, and copies from it.
  pub read-eq-ok :
      (n : ℕ) (bytes : Bytes) (r' : VaultReader s)
      → (n == 0) ≡ false
      → read c s n r ≡ some (ok bytes, r')
      → (r1 : VaultReader s) × (next_data c s read_fuel r ≡ some (ok tt, r1))
        × (copy_out c s n r1 ≡ (ok bytes, r'))
  read-eq-ok n bytes r' e f = copied (next_data c s read_fuel r) n bytes r' (sym (read_as n e) ∙ f)

  pub drain-zero : (n : ℕ) → drain c s n 0 r ≡ none
  unfolding drain
  drain-zero n = refl

  pub drain-suc :
      (n fuel : ℕ) → drain c s n (suc fuel) r ≡ continue c s (drain c s n fuel) (read c s n r)
  unfolding drain
  drain-suc n fuel = refl
