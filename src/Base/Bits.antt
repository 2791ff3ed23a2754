-- ===== src/Base/Bits.antt =====
-- Exclusive or of two numbers.
use Prim.Native.Nat.{
  ℕ, zero, suc, ◌/◌, ◌%◌, ◌^◌, ◌≤◌, ◌<◌, bit_xor, digits, differ, bit_xor-bitwise,
}
use mathlib.Core.Path.{◌≡◌, sym, ◌∙◌}
use native.Mathlib.Nat.{two-pow-succ}
use native.Mathlib.Omega.{arith}

abbrev xor_digits : ℕ → ℕ → ℕ → ℕ
xor_digits n a b = digits (λ b. b) differ n a b

differ-eq_zero : (x y : ℕ) → differ x y ≡ 0 → x ≡ y
differ-eq_zero zero y e = sym e
differ-eq_zero (suc x) zero e = e
differ-eq_zero (suc x) (suc y) e = let ih = differ-eq_zero x y e in omega arith

xor_digits-eq_zero : (n a b : ℕ) → a ≤ n → xor_digits n a b ≡ 0 → a ≡ b
xor_digits-eq_zero zero a b h e = omega arith
xor_digits-eq_zero (suc n) zero b h e = sym e
xor_digits-eq_zero (suc n) (suc a) b h e =
    let high = xor_digits-eq_zero n (suc a / 2) (b / 2) (omega arith) (omega arith) in
    let low = differ-eq_zero (suc a % 2) (b % 2) (omega arith) in omega arith

differ-le : (x y : ℕ) → x ≤ 1 → y ≤ 1 → differ x y ≤ 1
differ-le zero y h k = k
differ-le (suc x) zero h k = h
differ-le (suc x) (suc y) h k = differ-le x y (omega arith) (omega arith)

xor_digits-lt : (k n a b : ℕ) → a < 2 ^ k → b < 2 ^ k → xor_digits n a b < 2 ^ k
xor_digits-lt k zero a b h i = i
xor_digits-lt k (suc n) zero b h i = i
xor_digits-lt zero (suc n) (suc a) b h i = absurd (omega arith)
xor_digits-lt (suc k) (suc n) (suc a) b h i =
    let twice = two-pow-succ k in
    let high = xor_digits-lt k n (suc a / 2) (b / 2) (omega arith) (omega arith) in
    let low = differ-le (suc a % 2) (b % 2) (omega arith) (omega arith) in omega arith

-- Only equal numbers have no digit in which they differ.
pub bit_xor-eq_zero : (a b : ℕ) → bit_xor a b ≡ 0 → a ≡ b
bit_xor-eq_zero a b e = xor_digits-eq_zero a a b (omega arith) (sym (bit_xor-bitwise a b) ∙ e)

pub bit_xor-lt : (k a b : ℕ) → a < 2 ^ k → b < 2 ^ k → bit_xor a b < 2 ^ k
bit_xor-lt k a b h i =
    let e = bit_xor-bitwise a b in let d = xor_digits-lt k a a b h i in omega arith
