-- ===== src/Prelude/Unchanged.antt =====
-- Blocks that leave a part of the state as it was, whatever their result.
use codex_vault.Prelude.Outcome.{Result, ok, err, Action, after, bind, lift, with_error, on_error}
use mathlib.Core.Path.{◌≡◌, refl, ◌∙◌}

-- The call leaves what `view` shows of the state, with any result.
pub record Keeps {ℓ ν κ ι} {S : Type ℓ} {V : Type ν} {E : Type κ} {A : Type ι} (view : S → V)
    (m : Action S E A) : Type (ℓ ⊔ ν) where
  pub keeps : (s : S) → view (m s).1 ≡ view s

module _ {ℓ ν} {S : Type ℓ} {V : Type ν} {view : S → V} where
  pub Keeps-lift {κ ι} : {E : Type κ} {A : Type ι} {r : Result E A} → Keeps view (lift r)
  Keeps-lift = record { keeps = λ s. refl }

  pub Keeps-look {κ ι} : {E : Type κ} {A : Type ι} {m : S → Result E A} → Keeps view (λ s. (m s, s))
  Keeps-look = record { keeps = λ s. refl }

  pub Keeps-with_error {κ ι μ} :
      {E : Type κ} {F : Type ι} {A : Type μ} (g : E → F) {m : Action S E A}
      → Keeps view m
      → Keeps view (with_error g m)
  Keeps-with_error g h = record { keeps = λ s. h.keeps s }

  after-Keeps {κ ι μ} :
      {E : Type κ} {A : Type ι} {B : Type μ} (r : Result E A) (f : A → Action S E B) (s : S)
      → ((a : A) → Keeps view (f a))
      → view (after r f s).1 ≡ view s
  after-Keeps (ok a) f s h = (h a).keeps s
  after-Keeps (err e) f s h = refl

  pub Keeps-bind {κ ι μ} :
      {E : Type κ} {A : Type ι} {B : Type μ} {m : Action S E A} {f : A → Action S E B}
      → Keeps view m
      → ((a : A) → Keeps view (f a))
      → Keeps view (bind m f)
  Keeps-bind {m} {f} h k = record { keeps = λ s. after-Keeps (m s).0 f (m s).1 k ∙ h.keeps s }

  undone {κ ι} :
      {E : Type κ} {A : Type ι} (undo : S → S) (r : Result E A) (s : S)
      → ((t : S) → view (undo t) ≡ view t)
      → view (elim r [ ok _ ↦ s | err _ ↦ undo s ]) ≡ view s
  undone undo (ok a) s h = refl
  undone undo (err e) s h = h s

  pub Keeps-on_error {κ ι} :
      {E : Type κ} {A : Type ι} (undo : S → S) (m : Action S E A)
      → ((t : S) → view (undo t) ≡ view t)
      → Keeps view m
      → Keeps view (on_error undo m)
  Keeps-on_error undo m u h = record { keeps = λ s. undone undo (m s).0 (m s).1 u ∙ h.keeps s }

pub ruleset keeps_rules = (Keeps-bind, Keeps-on_error, Keeps-lift, Keeps-look, Keeps-with_error)
