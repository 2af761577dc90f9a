-- ===== src/Stream/Reader/Meaning.antt =====
-- What is left to read: the rest of the source is a sealed stream, numbered on from the reader's
-- frame, and the plaintext is what the reader holds and the plaintexts of the stream.
use codex_vault.Prelude.{
  [], ℕ, zero, suc, ◌+◌, ◌<◌, ◌≤◌, ◌≡◌, ◌∙◌, sym, ap, true, false, some, inl, inr, List, ◌∷◌, ◌++◌,
  append-nil, ok, Result-cases, arith, length, All, All-back, concat, drop, drop_all, drop-drop,
  take, Bool-cases, min, length-take, length-drop, take-append-drop,
}
use mathlib.Core.Path.{subst, subst₂}
use codex_vault.Prelude.Bytes.{Bytes, IsByte, u32_max}
use codex_vault.Device.{Source, IsSource}
use codex_vault.Stream.Format.{Aead, IsAead, chunk_size}
use codex_vault.Stream.Frame.{Sealed}
use codex_vault.Stream.Reader.{VaultReader, read_next_frame, exhausted, next_data, copy_out}
use codex_vault.Stream.Reader.Step.{Opened, Outcome, loaded, ended, read_next_frame_ok}
use codex_vault.Stream.Reader.Rounds.{next_data-zero, next_data_stop, next_data_ok, next_data_err}

abbrev pub IsShort : Bytes → Type 0
IsShort p = length p ≤ chunk_size

module _ (c : Aead) (s : Source) (is : IsSource s) where
  -- The source holds bytes, and the frame's number fits.
  pub record IsSound (r : VaultReader s) : Type 0 where
    pub bytes : All IsByte (is.rest r.inner)
    pub sequence_le : r.sequence ≤ u32_max
    pub closed : r.finalized ≡ true → is.rest r.inner ≡ []

  abbrev pub held : VaultReader s → Bytes
  held r = drop r.plaintext_offset r.plaintext

  pub data Means (r : VaultReader s) (out : Bytes) : Type 0 where
    over : r.finalized ≡ true → is.rest r.inner ≡ [] → out ≡ [] → Means r out
    running :
        (ps : List Bytes)
        → r.finalized ≡ false
        → Sealed c r.context r.sequence ps (is.rest r.inner)
        → All IsShort ps
        → out ≡ held r ++ concat ps
        → Means r out

  pub loaded_held :
      (r : VaultReader s) (p : Bytes) → r.plaintext ≡ p → r.plaintext_offset ≡ 0 → held r ≡ p
  unfolding drop
  loaded_held r p e z = rw (z, e)

  -- One frame back: what is left behind the frame, with the frame.
  before_frame :
      (r r' : VaultReader s) (out : Bytes)
      → r.finalized ≡ false
      → held r ≡ []
      → Opened c s is r r'
      → Means r' out
      → Means r out
  unfolding concat
  before_frame r r' out f0 h0 o m = go o.outcome m
    where
      behind :
          (ps : List Bytes)
          → Sealed c r'.context r'.sequence ps (is.rest r'.inner)
          → Sealed c r.context (suc r.sequence) ps (is.rest r'.inner)
      behind ps =
          subst₂ (λ k n. Sealed c k n ps (is.rest r'.inner)) o.context_eq
            (omega (arith, o.sequence_eq))

      go : Outcome c s is o.frame_type o.plaintext r.finalized r' → Means r' out → Means r out
      go (loaded t p z f) (over f' e n) = absurd (ground arith)
      go (loaded t p z f) (running ps f' sealed short e) =
          running (o.plaintext ∷ ps) f0
            (o.frame, is.rest r'.inner, rw t at o.frame_ok, behind ps sealed, o.rest_eq)
            (o.short, short) (e ∙ rw (loaded_held r' o.plaintext p z, h0))
      go (ended t p z q f) (over f' e n) =
          running [] f0 (rw (o.rest_eq, z, append-nil) (rw (t, p) at o.frame_ok)) tt (rw (n, h0))
      go (ended t p z q f) (running ps f' sealed short e) = absurd (ground arith)

  rest-IsSound :
      (r r' : VaultReader s) → r.finalized ≡ false → IsSound r → Opened c s is r r' → IsSound r'
  rest-IsSound r r' f0 v o = record {
    bytes = All-back IsByte o.frame (is.rest r'.inner) (rw o.rest_eq at v.bytes);
    sequence_le = omega (arith, o.sequence_eq, o.frame_ok.2);
    closed = go o.outcome;
  }
    where
      go :
          Outcome c s is o.frame_type o.plaintext r.finalized r'
          → r'.finalized ≡ true
          → is.rest r'.inner ≡ []
      go (loaded t p z f) h = absurd (ground arith)
      go (ended t p z q f) h = z

module _ (c : Aead) (ic : IsAead c) (s : Source) (is : IsSource s) where
  abbrev pub Goes : VaultReader s → VaultReader s → Type 0
  Goes r r' = IsSound c s is r' × ((out : Bytes) → Means c s is r' out → Means c s is r out)

  -- One successful frame keeps the meaning, read backwards.
  pub frame_Goes :
      (r : VaultReader s)
      → IsSound c s is r
      → exhausted c s r ≡ true
      → (read_next_frame c s r).0 ≡ ok tt
      → Goes r (read_next_frame c s r).1
  frame_Goes r v e f =
      let r' : VaultReader s = (read_next_frame c s r).1 in
      let o = read_next_frame_ok c ic s is r v.bytes v.sequence_le f in
      let spent : length r.plaintext ≤ r.plaintext_offset = ground arith in
      let open_ : r.finalized ≡ false = ground arith in
      (
        rest-IsSound c s is r r' open_ v o,
        λ out m.
            before_frame c s is r r' out open_ (drop_all r.plaintext_offset r.plaintext spent) o m,
      )

  -- The loop of `read` that ends with success has found data or the end, and keeps the meaning.
  pub next_data-Goes :
      (fuel : ℕ) (r r' : VaultReader s)
      → IsSound c s is r
      → next_data c s fuel r ≡ some (ok tt, r')
      → Goes r r' × (exhausted c s r' ≡ false)
  next_data-Goes zero r r' v e = absurd (cc (next_data-zero c s r))
  next_data-Goes (suc fuel) r r' v e = elim (Bool-cases (exhausted c s r)) [
    | inr stop ↦
        let same : r ≡ r' = cc (next_data_stop c s r fuel stop) in
        subst (λ q. Goes r q × (exhausted c s q ≡ false)) same ((v, λ out m. m), stop)
    | inl spent ↦ elim (Result-cases (read_next_frame c s r).0) [
      | inl (_, f) ↦
          let r1 : VaultReader s = (read_next_frame c s r).1 in
          let (v1, back) = frame_Goes r v spent f in
          let ((v', back'), found) =
            next_data-Goes fuel r1 r' v1 (sym (next_data_ok c s r fuel spent f) ∙ e) in
          ((v', λ out m. back out (back' out m)), found)
      | inr (x, f) ↦ absurd (cc (next_data_err c s r fuel x spent f))
    ]
  ]

module _ (c : Aead) (s : Source) (is : IsSource s) where
  -- The bytes that a read copies come before what is left.
  pub copy_out_running :
      (n : ℕ) (r : VaultReader s)
      → 0 < n
      → exhausted c s r ≡ false
      → r.finalized ≡ false
      → (bytes : Bytes) × (offset : ℕ) × (copy_out c s n r
          ≡ (ok bytes, record r { plaintext_offset = offset }))
        × (0 < length bytes)
        × (held c s is r ≡ bytes ++ drop offset r.plaintext)
  unfolding copy_out
  copy_out_running n r pos e f =
      let remaining : Bytes = drop r.plaintext_offset r.plaintext in
      let m : ℕ = min (length remaining) n in
      (
        take m remaining,
        r.plaintext_offset + m,
        ground arith,
        ground (arith, length-take m remaining, length-drop r.plaintext_offset r.plaintext),
        sym (take-append-drop m remaining)
            ∙ ap (λ t. take m remaining ++ t) (sym (drop-drop r.plaintext_offset m r.plaintext)),
      )

  pub copy_out_over :
      (n : ℕ) (r : VaultReader s) → r.finalized ≡ true → copy_out c s n r ≡ (ok [], r)
  unfolding copy_out
  copy_out_over n r f = rw f
