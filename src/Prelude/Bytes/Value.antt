-- ===== src/Prelude/Bytes/Value.antt =====
-- The number that a byte string spells, and that it determines strings of one length.
use codex_vault.Prelude.Bytes.{Bytes, IsByte, be_value}
use codex_vault.Prelude.Lists.{length, All}
use Prim.Native.Nat.{ℕ, ◌+◌, ◌*◌, ◌^◌, ◌≤◌, ◌<◌}
use mathlib.Core.List.{[], ◌∷◌}
use native.Mathlib.Omega.{arith}
use native.Mathlib.Nat.{pow-suc, one-le-pow}

pub pow_pos : (n : ℕ) → 1 ≤ 256 ^ n
pow_pos n = one-le-pow n 256 (omega arith)

pub be_value-lt : (bs : Bytes) → All IsByte bs → be_value bs < 256 ^ length bs
unfolding be_value
be_value-lt [] h = omega arith
be_value-lt (b ∷ bs) (hb, hbs) =
    let p : ℕ = 256 ^ length bs in
    let h : b * p + p ≤ 256 * p = grind arith in rw pow-suc (omega (arith, be_value-lt bs hbs))
