-- ===== src/Base/Int.antt =====
-- Signed machine numbers, over the native naturals.
use Prim.Native.Nat.{ℕ, zero, suc, ◌+◌, ◌-◌, ◌^◌}
use mathlib.Core.Bool.{Bool, true, false}
use vrt.Base.Tests.{ltb, if◌then◌else◌}

-- `negsuc n` is -1 - n.
pub data ℤ : Type 0 where
  pos negsuc : ℕ → ℤ

-- the opposite of a natural number
abbrev pub negate : ℕ → ℤ
negate zero = pos 0
negate (suc n) = negsuc n

infixl 60 ◌+ℤ◌
abbrev pub ◌+ℤ◌ : ℤ → ℤ → ℤ
pos a +ℤ pos b = pos (a + b)
pos a +ℤ negsuc b = if ltb b a then pos (a - suc b) else negsuc (b - a)
negsuc a +ℤ pos b = if ltb a b then pos (b - suc a) else negsuc (a - b)
negsuc a +ℤ negsuc b = negsuc (suc (a + b))

abbrev pub ltℤ : ℤ → ℤ → Bool
ltℤ (pos a) (pos b) = ltb a b
ltℤ (pos a) (negsuc b) = false
ltℤ (negsuc a) (pos b) = true
ltℤ (negsuc a) (negsuc b) = ltb b a

-- the natural number, or 0
abbrev pub positive_part : ℤ → ℕ
positive_part (pos a) = a
positive_part (negsuc a) = 0

-- `int16_t` of 16 bits
abbrev pub int16 : ℕ → ℤ
int16 n = if ltb n (2 ^ 15) then pos n else negsuc (2 ^ 16 - 1 - n)
