-- ===== src/Stream/Reader/Sound.antt =====
-- Reading to the end with success: the source was a sealed stream, and the bytes are its content.
use codex_vault.Prelude.{
  [], ℕ, zero, suc, ◌<◌, ◌≡◌, refl, ◌∙◌, sym, ap, true, false, some, none, inl, inr, ◌∷◌, ◌++◌,
  append_assoc, ok, err, Option, arith, length, concat, Bool-cases, drop,
}
use mathlib.Core.Path.{subst, subst₂}
use codex_vault.Prelude.Bytes.{Bytes}
use codex_vault.Error.{IoResult}
use codex_vault.Device.{Source, IsSource}
use codex_vault.Stream.Format.{Aead, IsAead}
use codex_vault.Stream.Reader.{VaultReader, read, prepend, continue, drain, read_fuel}
use codex_vault.Stream.Reader.Rounds.{read-eq-ok, drain-zero, drain-suc}
use codex_vault.Stream.Reader.Meaning.{
  Goes, Means, over, running, IsSound, held, next_data-Goes, copy_out_running, copy_out_over,
}

module _ (c : Aead) (s : Source) where
  abbrev Run : Type 0
  Run = Option (IoResult Bytes × VaultReader s)

  -- How a row of reads can succeed: at once with nothing, or with bytes and the rest.
  data Continues (more : VaultReader s → Run) (o : Run) (out : Bytes) (r' : VaultReader s)
      : Type 0 where
    last : o ≡ some (ok [], r') → out ≡ [] → Continues more o out r'
    later :
        (bytes rest : Bytes) (r1 : VaultReader s)
        → o ≡ some (ok bytes, r1)
        → 0 < length bytes
        → more r1 ≡ some (ok rest, r')
        → out ≡ bytes ++ rest
        → Continues more o out r'

  prepended :
      (bytes out : Bytes) (o : Run) (r' : VaultReader s)
      → prepend c s bytes o ≡ some (ok out, r')
      → (rest : Bytes) × (o ≡ some (ok rest, r')) × (out ≡ bytes ++ rest)
  prepended bytes out (some (ok rest, r)) r' e = (rest, cc, cc)
  prepended bytes out (some (err x, r)) r' e = cc
  prepended bytes out none r' e = cc

  continue_cases :
      (more : VaultReader s → Run) (o : Run) (out : Bytes) (r' : VaultReader s)
      → continue c s more o ≡ some (ok out, r')
      → Continues more o out r'
  continue_cases more (some (ok (b ∷ bytes), r)) out r' e =
      let (rest, f, g) = prepended (b ∷ bytes) out (more r) r' e in
      later (b ∷ bytes) rest r refl (omega arith) f g
  continue_cases more (some (ok [], r)) out r' e = last (cc) (cc)
  continue_cases more (some (err x, r)) out r' e = cc
  continue_cases more none out r' e = cc

module _ (c : Aead) (ic : IsAead c) (s : Source) (is : IsSource s) (n : ℕ) (pos : 0 < n) where
  -- A read that gives nothing has come to the end, and keeps the meaning.
  read_nothing :
      (r r' : VaultReader s)
      → IsSound c s is r
      → read c s n r ≡ some (ok [], r')
      → Goes c ic s is r r' × (r'.finalized ≡ true)
  read_nothing r r' v e =
      let (r1, found, copied) = read-eq-ok c s r n [] r' (ground arith) e in
      let ((v1, back), ready) = next_data-Goes c ic s is read_fuel r r1 v found in
      elim (Bool-cases r1.finalized) [
        | inl f ↦
            let same : r1 ≡ r' = cc (copy_out_over c s is n r1 f) in
            subst (λ q. Goes c ic s is r q × (q.finalized ≡ true)) same ((v1, back), f)
        | inr f ↦
            let (bytes, offset, copied', some_, _) = copy_out_running c s is n r1 pos ready f in
            absurd (ground arith)
      ]

  -- A reader before some of its plaintext was copied out.
  moved :
      (r : VaultReader s) (offset : ℕ) (bytes : Bytes)
      → r.finalized ≡ false
      → held c s is r ≡ bytes ++ drop offset r.plaintext
      → IsSound c s is r
      → let r' = record r { plaintext_offset = offset } in
        IsSound c s is r' × ((rest : Bytes) → Means c s is r' rest → Means c s is r (bytes ++ rest))
  moved r offset bytes f split v =
      (record { bytes = v.bytes; sequence_le = v.sequence_le; closed = v.closed }, go)
    where
      go :
          (rest : Bytes)
          → Means c s is (record r { plaintext_offset = offset }) rest
          → Means c s is r (bytes ++ rest)
      go rest (over f' e n_) = absurd (ground arith)
      go rest (running ps f' sealed short e) = running ps f sealed short (
          ap (λ t. bytes ++ t) e
          ∙ sym (append_assoc bytes (drop offset r.plaintext) (concat ps))
          ∙ ap (λ t. t ++ concat ps) (sym split))

  -- A read that gives bytes leaves a reader with the rest.
  read_bytes :
      (r r2 : VaultReader s) (bytes : Bytes)
      → IsSound c s is r
      → 0 < length bytes
      → read c s n r ≡ some (ok bytes, r2)
      → IsSound c s is r2 × ((rest : Bytes) → Means c s is r2 rest → Means c s is r (bytes ++ rest))
  read_bytes r r2 bytes v some_ e =
      let (r1, found, copied) = read-eq-ok c s r n bytes r2 (ground arith) e in
      let ((v1, back), ready) = next_data-Goes c ic s is read_fuel r r1 v found in
      elim (Bool-cases r1.finalized) [
        | inl f ↦ absurd (ground (arith, copy_out_over c s is n r1 f))
        | inr f ↦
            let (bytes', offset, copied', _, split) = copy_out_running c s is n r1 pos ready f in
            let (v2, back2) = moved r1 offset bytes' f split v1 in
            let same : record r1 { plaintext_offset = offset } ≡ r2 = cc in
            let same_bytes : bytes' ≡ bytes = cc in
            subst₂
              (λ b q.
                IsSound c s is q
                × ((rest : Bytes) → Means c s is q rest → Means c s is r (b ++ rest)))
              same_bytes same (v2, λ rest m. back _ (back2 rest m))
      ]

  -- All reads together.
  pub drain_sound :
      (fuel : ℕ) (r r' : VaultReader s) (out : Bytes)
      → IsSound c s is r
      → drain c s n fuel r ≡ some (ok out, r')
      → Means c s is r out × (r'.finalized ≡ true)
  drain_sound zero r r' out v e = absurd (cc (drain-zero c s r n))
  drain_sound (suc fuel) r r' out v e =
      go
        (continue_cases c s (drain c s n fuel) (read c s n r) out r'
          (sym (drain-suc c s r n fuel) ∙ e))
        (drain_sound fuel)
    where
      go :
          Continues c s (drain c s n fuel) (read c s n r) out r'
          → ((r1 q : VaultReader s) (rest : Bytes)
              → IsSound c s is r1
              → drain c s n fuel r1 ≡ some (ok rest, q)
              → Means c s is r1 rest × (q.finalized ≡ true))
          → Means c s is r out × (r'.finalized ≡ true)
      go (last e1 none_) ih =
          let ((v1, back), f) = read_nothing r r' v e1 in
          (subst (Means c s is r) (sym none_) (back [] (over f (v1.closed f) refl)), f)
      go (later bytes rest r1 e1 some_ e2 split) ih =
          let (v1, back) = read_bytes r r1 bytes v some_ e1 in
          let (m, f) = ih r1 r' rest v1 e2 in (subst (Means c s is r) (sym split) (back rest m), f)

module _ (c : Aead) (ic : IsAead c) (s : Source) (is : IsSource s) where
  -- A read with success of any length, also of none, keeps the meaning, read backwards.
  pub read-Goes :
      (n : ℕ) (r r2 : VaultReader s) (bytes : Bytes)
      → IsSound c s is r
      → read c s n r ≡ some (ok bytes, r2)
      → IsSound c s is r2 × ((rest : Bytes) → Means c s is r2 rest → Means c s is r (bytes ++ rest))
  unfolding read
  read-Goes zero r r2 bytes v e =
      let same : r ≡ r2 = ground arith in
      let nothing : bytes ≡ [] = ground arith in
      rw nothing (subst (λ q. Goes c ic s is r q) same (v, λ out m. m))
  read-Goes (suc n) r r2 [] v e = (read_nothing c ic s is (suc n) (omega arith) r r2 v e).0
  read-Goes (suc n) r r2 (b ∷ bytes) v e =
      read_bytes c ic s is (suc n) (omega arith) r r2 (b ∷ bytes) v (omega arith) e
