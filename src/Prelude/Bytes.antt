-- ===== src/Prelude/Bytes.antt =====
-- Byte strings as lists of numbers, big-endian words, and the number that a byte string spells.
pub mod Laws
pub mod Value
use codex_vault.Prelude.Tests.{◌==◌}
use codex_vault.Prelude.Lists.{length}
use Prim.Native.Nat.{ℕ, ◌+◌, ◌*◌, ◌/◌, ◌%◌, ◌^◌, ◌<◌}
use mathlib.Core.Bool.{Bool, true, false, ◌&&◌}
use mathlib.Core.List.{List, [], ◌∷◌, ◌++◌}
use Prim.Native.String.{String}
use Prim.Native.Char.{code}

abbrev pub Bytes : Type 0
Bytes = List ℕ

abbrev pub IsByte : ℕ → Type 0
IsByte b = b < 256

abbrev pub IsU32 : ℕ → Type 0
IsU32 n = n < 2 ^ 32

abbrev pub IsU64 : ℕ → Type 0
IsU64 n = n < 2 ^ 64

-- A Rust string is its UTF-8 bytes.
abbrev pub Text : Type 0
Text = Bytes

abbrev pub u32_max : ℕ
u32_max = 4294967295

-- `b"..."`, for ASCII text.
abbrev pub ascii : String → Bytes
ascii String.[] = []
ascii (String.◌∷◌ c s) = code c ∷ ascii s

-- `==` on byte slices.
unfoldable pub eq_bytes : Bytes → Bytes → Bool
eq_bytes [] [] = true
eq_bytes (a ∷ xs) (b ∷ ys) = a == b && eq_bytes xs ys
eq_bytes _ _ = false

-- `u32::to_be_bytes`
unfoldable pub u32_to_be : ℕ → Bytes
u32_to_be n = (n / 16777216 % 256) ∷ (n / 65536 % 256) ∷ (n / 256 % 256) ∷ (n % 256) ∷ []

-- `u64::to_be_bytes`
abbrev pub u64_to_be : ℕ → Bytes
u64_to_be n = u32_to_be (n / 4294967296) ++ u32_to_be n

-- `u32::from_be_bytes`
unfoldable pub u32_from_be : Bytes → ℕ
u32_from_be (a ∷ b ∷ c ∷ d ∷ []) = a * 16777216 + b * 65536 + c * 256 + d
u32_from_be _ = 0

-- The number that a byte string spells, most significant byte first.
unfoldable pub be_value : Bytes → ℕ
be_value [] = 0
be_value (b ∷ bs) = b * 256 ^ length bs + be_value bs
