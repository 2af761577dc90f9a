-- ===== src/Files/Paths.antt =====
-- Paths that differ in their last byte, and paths that have a parent.
use codex_vault.Prelude.{
  ℕ, ◌≡◌, refl, inl, inr, Bool, true, false, some, [], ◌∷◌, ◌++◌, arith, ◌==◌, if◌then◌else◌,
  Bool-cases,
}
use codex_vault.Prelude.Bytes.{Text}
use codex_vault.Private.{join}
use codex_vault.Files.{parent}

unfoldable pub last : Text → ℕ
last [] = 0
last (b ∷ []) = b
last (b ∷ (c ∷ bs)) = last (c ∷ bs)

pub last-append : (xs : Text) (y : ℕ) (ys : Text) → last (xs ++ (y ∷ ys)) ≡ last (y ∷ ys)
unfolding last
last-append [] y ys = refl
last-append (x ∷ []) y ys = refl
last-append (x ∷ (z ∷ xs)) y ys = last-append (z ∷ xs) y ys

pub last-join : (path : Text) (y : ℕ) (ys : Text) → last (join path (y ∷ ys)) ≡ last (y ∷ ys)
unfolding last
last-join [] y ys = refl
last-join (b ∷ []) y ys = ground arith
last-join (b ∷ (c ∷ [])) y ys = ground (arith, last-join (c ∷ []) y ys)
last-join (b ∷ (c ∷ (d ∷ path))) y ys = last-join (c ∷ (d ∷ path)) y ys

abbrev pub HasParent : Text → Type 0
HasParent path = (above : Text) × (parent path ≡ some above)

either_some : (c : Bool) (x y : Text) → (z : Text) × ((if c then some x else some y) ≡ some z)
either_some true x y = (x, refl)
either_some false x y = (y, refl)

pub parent_some : (b c : ℕ) (path : Text) → HasParent (b ∷ (c ∷ path))
unfolding parent
parent_some b c path = either_some _ _ _

either-HasParent :
    (c : Bool) (x y : Text) → HasParent x → HasParent y → HasParent (if c then x else y)
either-HasParent true x y hx hy = hx
either-HasParent false x y hx hy = hy

pub parent-join : (path : Text) (y z : ℕ) (ys : Text) → HasParent (join path (y ∷ (z ∷ ys)))
parent-join [] y z ys = parent_some y z ys
parent-join (b ∷ []) y z ys =
    either-HasParent (b == 47) _ _ (parent_some b y (z ∷ ys)) (parent_some b 47 (y ∷ (z ∷ ys)))
parent-join (b ∷ (c ∷ [])) y z ys = elim (Bool-cases (c == 47)) [
  | inl slash ↦ rw slash (parent_some b c (y ∷ (z ∷ ys)))
  | inr name ↦ rw name (parent_some b c (47 ∷ (y ∷ (z ∷ ys))))
]
parent-join (b ∷ (c ∷ (d ∷ path))) y z ys = parent_some b _ _
