-- ===== src/TimerQueue/Random.antt =====
-- The random numbers of vr/vr_common/src/vr/util/random.h, of 32 bits.
use Prim.Native.Nat.{bit_xor}
use vrt.Base.{ℕ, ◌*◌, ◌/◌, ◌%◌, ◌^◌, ◌≢◌, ◌<◌, arith}
use vrt.Base.Bits.{bit_xor-eq_zero, bit_xor-lt}

abbrev shifted_left : (by y : ℕ) → ℕ
shifted_left by y = bit_xor y (y * 2 ^ by % 2 ^ 32)

abbrev shifted_right : (by y : ℕ) → ℕ
shifted_right by y = bit_xor y (y / 2 ^ by)

-- `xorshift_impl::evaluate`, on the state as an `uint32_t`
unfoldable pub evaluate : ℕ → ℕ
evaluate state = shifted_left 17 (shifted_right 3 (shifted_left 13 state))

-- A number of 32 bits that is not 0.
abbrev pub IsState : ℕ → Type 0
IsState y = (y ≢ 0) × (y < 2 ^ 32)

shifted_left_13-IsState : (y : ℕ) → IsState y → IsState (shifted_left 13 y)
shifted_left_13-IsState y (ne, lt) = (
  λ e. let same = bit_xor-eq_zero y (y * 2 ^ 13 % 2 ^ 32) e in ne (omega arith),
  bit_xor-lt 32 y (y * 2 ^ 13 % 2 ^ 32) lt (omega arith),
)

shifted_left_17-IsState : (y : ℕ) → IsState y → IsState (shifted_left 17 y)
shifted_left_17-IsState y (ne, lt) = (
  λ e. let same = bit_xor-eq_zero y (y * 2 ^ 17 % 2 ^ 32) e in ne (omega arith),
  bit_xor-lt 32 y (y * 2 ^ 17 % 2 ^ 32) lt (omega arith),
)

shifted_right_3-IsState : (y : ℕ) → IsState y → IsState (shifted_right 3 y)
shifted_right_3-IsState y (ne, lt) = (
  λ e. let same = bit_xor-eq_zero y (y / 2 ^ 3) e in ne (omega arith),
  bit_xor-lt 32 y (y / 2 ^ 3) lt (omega arith),
)

-- From a state that is not 0 the generator never comes to 0, the state it could not leave.
pub evaluate-IsState : (y : ℕ) → IsState y → IsState (evaluate y)
unfolding evaluate
evaluate-IsState y h =
    shifted_left_17-IsState (shifted_right 3 (shifted_left 13 y))
      (shifted_right_3-IsState (shifted_left 13 y) (shifted_left_13-IsState y h))
