-- ===== src/Files/Apart.antt =====
-- Paths of which one does not lead to the other, as they differ behind a common front.
use codex_vault.Prelude.{
  ℕ, ◌<◌, ◌≡◌, refl, sym, ap, ◌∙◌, ◌≢◌, inl, inr, [], ◌∷◌, ◌++◌, append_assoc, arith, ◌==◌,
  Bool-cases, length, length-append,
}
use mathlib.Core.List.{reverse, reverse-append, reverse-reverse}
use codex_vault.Prelude.Bytes.{Text, ascii}
use codex_vault.Private.{join}
use codex_vault.Files.{with_extension}

-- `q` is not `p`, and not in `p`.
abbrev pub IsApart : Text → Text → Type 0
IsApart q p = (q ≢ p) × ((name : Text) → q ≢ join p name)

-- A path that goes on behind `front` with the byte `b`.
abbrev pub IsUnder : Text → ℕ → Text → Type 0
IsUnder front b p = (rest : Text) × (p ≡ front ++ (b ∷ rest))

-- The front of what is joined to a path.
abbrev pub inside : Text → Text
inside p = join p []

pub join-inside : (p name : Text) → join p name ≡ inside p ++ name
join-inside [] name = refl
join-inside (b ∷ []) name = elim (Bool-cases (b == 47)) [ inl e ↦ rw e refl | inr e ↦ rw e refl ]
join-inside (b ∷ (c ∷ p)) name = ap (λ x. b ∷ x) (join-inside (c ∷ p) name)

inside_more : (p : Text) → (sep : Text) × (inside p ≡ p ++ sep)
inside_more [] = ([], refl)
inside_more (b ∷ []) = elim (Bool-cases (b == 47)) [
  | inl e ↦ ([], rw e refl)
  | inr e ↦ (47 ∷ [], rw e refl)
]
inside_more (b ∷ (c ∷ p)) = let (sep, e) = inside_more (c ∷ p) in (sep, ap (λ x. b ∷ x) e)

pub join-longer : (p : Text) (b : ℕ) (name : Text) → length p < length (join p (b ∷ name))
join-longer p b name =
    let (sep, e) = inside_more p in
    omega (
      arith,
      ap length (join-inside p (b ∷ name)),
      ap length e,
      length-append (inside p) (b ∷ name),
      length-append p sep,
    )

pub join-IsUnder : (p : Text) (b : ℕ) (name : Text) → IsUnder (inside p) b (join p (b ∷ name))
join-IsUnder p b name = (name, join-inside p (b ∷ name))

pub IsUnder-join :
    (front : Text) (b : ℕ) (p name : Text) → IsUnder front b p → IsUnder front b (join p name)
IsUnder-join front b p name (rest, e) =
    let (sep, es) = inside_more p in
    (
      rest ++ (sep ++ name),
      join-inside p name
          ∙ ap (λ x. x ++ name) es
          ∙ ap (λ x. (x ++ sep) ++ name) e
          ∙ simp (append_assoc) refl,
    )

split_at : (front : Text) (a b : ℕ) (r s : Text) → front ++ (a ∷ r) ≡ front ++ (b ∷ s) → a ≡ b
split_at [] a b r s e = cc
split_at (x ∷ front) a b r s e = split_at front a b r s cc

-- Two paths that go on with two bytes are apart.
pub under-IsApart :
    (front : Text) (a b : ℕ) (q p : Text)
    → IsUnder front a q
    → IsUnder front b p
    → a ≢ b
    → IsApart q p
under-IsApart front a b q p (r, eq) (s, ep) other = (
  (λ e. other (split_at front a b r s (sym eq ∙ e ∙ ep))),
  λ name e.
      let (t, et) = IsUnder-join front b p name (s, ep) in
      other (split_at front a b r t (sym eq ∙ e ∙ et)),
)

-- The extension of the archive's name is replaced.
pub with_extension-state :
    (front extension : Text)
    → with_extension (front ++ ascii "state.cvlt") extension
      ≡ front ++ (ascii "state." ++ extension)
unfolding with_extension
with_extension-state front extension =
    rw (reverse-append front (ascii "state.cvlt"))
      (simp (reverse-append (ascii "etats") (reverse front), reverse-reverse, append_assoc) refl)
