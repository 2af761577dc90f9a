-- ===== src/Prelude/Bytes/Laws.antt =====
-- Laws of byte strings and of big-endian words.
use codex_vault.Prelude.Bytes.{Bytes, IsByte, IsU32, eq_bytes, u32_to_be, u32_from_be}
use codex_vault.Prelude.Lists.{length, All}
use Prim.Native.Nat.{ℕ}
use mathlib.Core.Path.{◌≡◌, refl, ap}
use mathlib.Core.Bool.{true}
use mathlib.Core.List.{[], ◌∷◌}
use native.Mathlib.Omega.{arith}

pub eq_bytes_refl : (xs : Bytes) → eq_bytes xs xs ≡ true
unfolding eq_bytes
eq_bytes_refl [] = refl
eq_bytes_refl (x ∷ xs) = ground (arith, eq_bytes_refl xs)

pub eq_bytes→eq : (xs ys : Bytes) → eq_bytes xs ys ≡ true → xs ≡ ys
unfolding eq_bytes
eq_bytes→eq [] [] h = refl
eq_bytes→eq [] (y ∷ ys) h = cc
eq_bytes→eq (x ∷ xs) [] h = cc
eq_bytes→eq (x ∷ xs) (y ∷ ys) h = ground (arith, eq_bytes→eq xs ys)

pub u32_from_be-u32_to_be : (n : ℕ) → IsU32 n → u32_from_be (u32_to_be n) ≡ n
unfolding u32_from_be u32_to_be
u32_from_be-u32_to_be n h = omega arith

pub length-u32_to_be : (n : ℕ) → length (u32_to_be n) ≡ 4
unfolding u32_to_be
length-u32_to_be n = refl

pub u32_to_be-IsByte : (n : ℕ) → All IsByte (u32_to_be n)
unfolding u32_to_be
u32_to_be-IsByte n = omega arith

pub u32_to_be_injective : (m n : ℕ) → IsU32 m → IsU32 n → u32_to_be m ≡ u32_to_be n → m ≡ n
u32_to_be_injective m n hm hn e =
    omega (arith, u32_from_be-u32_to_be m hm, u32_from_be-u32_to_be n hn, ap u32_from_be e)
