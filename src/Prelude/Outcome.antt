-- ===== src/Prelude/Outcome.antt =====
-- Rust's `Result`, the `?` operator as bind, and methods that mutate an object and may fail.
use mathlib.Core.Path.{◌≡◌, refl, ap}
use mathlib.Core.Logic.{◌⊎◌, inl, inr}
use mathlib.Core.Bool.{Bool, true, false}
use mathlib.Core.Option.{Option, none, some}

pub data Result {ℓ κ} (E : Type ℓ) (A : Type κ) : Type (ℓ ⊔ κ) where
  ok : A → Result E A
  err : E → Result E A

module _ {ℓ κ ι} {E : Type ℓ} {A : Type κ} {B : Type ι} where
  infixl 5 ◌>>=◌ ◌>>◌
  abbrev pub ◌>>=◌ : Result E A → (A → Result E B) → Result E B
  ok a >>= f = f a
  err e >>= f = err e

  abbrev pub ◌>>◌ : Result E A → Result E B → Result E B
  m >> k = m >>= λ _. k

-- `map_err`
abbrev pub map_err {ℓ κ ι} :
    {E : Type ℓ} {F : Type κ} {A : Type ι} → (E → F) → Result E A → Result F A
map_err f (ok a) = ok a
map_err f (err e) = err (f e)

-- `ok_or`
abbrev pub ok_or {ℓ κ} : {E : Type ℓ} {A : Type κ} → Option A → E → Result E A
ok_or none e = err e
ok_or (some a) e = ok a

-- `.ok()`
abbrev pub to_option {ℓ κ} : {E : Type ℓ} {A : Type κ} → Result E A → Option A
to_option (ok a) = some a
to_option (err e) = none

-- `is_ok()`
abbrev pub is_ok {ℓ κ} : {E : Type ℓ} {A : Type κ} → Result E A → Bool
is_ok (ok a) = true
is_ok (err e) = false

-- `if c { return Err(e) }`
abbrev pub fail_if {ℓ} : {E : Type ℓ} → Bool → E → Result E (Unit {0})
fail_if true e = err e
fail_if false e = ok tt

pub Result-cases {ℓ κ} :
    {E : Type ℓ} {A : Type κ} (r : Result E A) → ((a : A) × (r ≡ ok a)) ⊎ ((e : E) × (r ≡ err e))
Result-cases (ok a) = inl (a, refl)
Result-cases (err e) = inr (e, refl)

-- A chain that succeeds: what its first part gave, and that the rest gave the result for it.
module _ {ℓ κ ι} {E : Type ℓ} {A : Type κ} {B : Type ι} (k : A → Result E B) where
  pub chain-eq-ok :
      (first : Result E A) {result : B}
      → first >>= k ≡ ok result
      → (a : A) × (first ≡ ok a) × (k a ≡ ok result)
  chain-eq-ok (ok a) whole = (a, refl, whole)
  chain-eq-ok (err e) whole = cc

-- A call by `&mut self`: what was changed before an error stays changed.
abbrev pub Action {ℓ κ ι} : Type ℓ → Type κ → Type ι → Type (ℓ ⊔ κ ⊔ ι)
Action S E A = S → Result E A × S

-- What follows a call that ended with `r`: the rest of the block, or the error.
abbrev pub after {ℓ κ ι μ} :
    {S : Type ℓ} {E : Type κ} {A : Type ι} {B : Type μ}
    → Result E A
    → (A → Action S E B)
    → Action S E B
after (ok a) f s = f a s
after (err e) f s = (err e, s)

abbrev pub bind {ℓ κ ι μ} :
    {S : Type ℓ} {E : Type κ} {A : Type ι} {B : Type μ}
    → Action S E A
    → (A → Action S E B)
    → Action S E B
bind m f s = let (r, s') = m s in after r f s'

abbrev pub lift {ℓ κ ι} : {S : Type ℓ} {E : Type κ} {A : Type ι} → Result E A → Action S E A
lift r s = (r, s)

-- The call of a method of an owned object: its error is converted, the state stays.
abbrev pub with_error {ℓ κ ι μ} :
    {S : Type ℓ} {E : Type κ} {F : Type ι} {A : Type μ} → (E → F) → Action S E A → Action S F A
with_error f m s = let (r, s') = m s in (map_err f r, s')

-- A block that undoes something if it fails; an error of the undoing is ignored.
abbrev pub on_error {ℓ κ ι} :
    {S : Type ℓ} {E : Type κ} {A : Type ι} → (S → S) → Action S E A → Action S E A
on_error undo m s = let (r, t) = m s in (r, elim r [ ok _ ↦ t | err _ ↦ undo t ])

-- A block whose local value is dropped at its end.
abbrev pub then_drop {ℓ κ ι} :
    {S : Type ℓ} {E : Type κ} {A : Type ι} → (S → S) → Action S E A → Action S E A
then_drop drop_it m s = let (r, t) = m s in (r, drop_it t)

-- A block that succeeds has run its first call, and ends as what follows it.
module _ {ℓ κ ι μ} {S : Type ℓ} {E : Type κ} {A : Type ι} {B : Type μ} where
  after-eq-ok :
      (r : Result E A) (f : A → Action S E B) (s : S) {b : B}
      → (after r f s).0 ≡ ok b
      → (a : A) × (r ≡ ok a) × (after r f s ≡ f a s)
  after-eq-ok (ok a) f s h = (a, refl, refl)
  after-eq-ok (err e) f s h = cc

  pub bind-eq-ok :
      (m : Action S E A) (f : A → Action S E B) (s : S) {b : B}
      → (bind m f s).0 ≡ ok b
      → (a : A) × ((m s).0 ≡ ok a) × (bind m f s ≡ f a (m s).1)
  bind-eq-ok m f s h = after-eq-ok (m s).0 f (m s).1 h

module _ {ℓ κ ι μ} {S : Type ℓ} {E : Type κ} {A : Type ι} {B : Type μ} where
  pub bind_step :
      (m : Action S E A) (f : A → Action S E B) (s : S) {a : A} {t : S}
      → m s ≡ (ok a, t)
      → bind m f s ≡ f a t
  bind_step m f s e = ap (λ o. after o.0 f o.1) e

module _ {κ ι μ} {E : Type κ} {F : Type ι} {A : Type μ} where
  pub map_err-eq-ok : (f : E → F) (r : Result E A) {a : A} → map_err f r ≡ ok a → r ≡ ok a
  map_err-eq-ok f (ok b) h = cc
  map_err-eq-ok f (err e) h = cc
