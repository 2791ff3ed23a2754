-- ===== src/Base/Power.antt =====
-- `vr_is_power_of_2` of vr/vr_common/src/vr/util/conditions_int.h.
use Prim.Native.Nat.{ℕ, zero, suc, ◌+◌, ◌-◌, ◌/◌, ◌^◌, ◌<◌, min, bit_and, digits, bit_and-bitwise}
use mathlib.Core.Path.{◌≡◌, refl, ◌∙◌}
use mathlib.Core.Bool.{Bool, true, ◌&&◌}
use native.Mathlib.Nat.{two-pow-succ, pow-suc}
use native.Mathlib.Omega.{arith}
use vrt.Base.Tests.{◌==◌, ltb}

-- A power of two is positive.
pub pow_pos : (n : ℕ) → 0 < 2 ^ n
pow_pos zero = omega arith
pow_pos (suc n) = omega (arith, pow-suc 2 n, pow_pos n)

unfoldable pub is_power_of_2 : ℕ → Bool
is_power_of_2 i = ltb 0 i && (bit_and i (i - 1) == 0)

and_digits : ℕ → ℕ → ℕ → ℕ
and_digits n a b = digits (λ b. zero) min n a b

and_digits-zero : (n a b : ℕ) → a ≡ 0 → and_digits n a b ≡ 0
unfolding and_digits
and_digits-zero zero a b e = refl
and_digits-zero (suc n) zero b e = refl
and_digits-zero (suc n) (suc a) b e = absurd (omega arith)

-- The digits of a power of two and of the number before it are never both 1.
and_digits-power : (k n a b : ℕ) → a ≡ 2 ^ k → b + 1 ≡ 2 ^ k → and_digits n a b ≡ 0
unfolding and_digits
and_digits-power k zero a b e f = refl
and_digits-power k (suc n) zero b e f = refl
and_digits-power zero (suc n) (suc a) b e f =
    let low : b ≡ 0 = omega arith in
    let none_left = and_digits-zero n (suc a / 2) (b / 2) (omega arith) in omega arith
and_digits-power (suc k) (suc n) (suc a) b e f =
    let twice = two-pow-succ k in
    let rest = and_digits-power k n (suc a / 2) (b / 2) (omega arith) (omega arith) in omega arith

pub is_power_of_2-pow : (n k : ℕ) → n ≡ 2 ^ k → is_power_of_2 n ≡ true
unfolding is_power_of_2 and_digits
is_power_of_2-pow n k e = rw (and_zero) (ground (arith, pow_pos k))
  where
    and_zero : bit_and n (n - 1) ≡ 0
    and_zero =
        bit_and-bitwise n (n - 1) ∙ and_digits-power k n n (n - 1) e (omega (arith, e, pow_pos k))
