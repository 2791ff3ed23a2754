-- ===== src/ScatterTable/Log2.antt =====
-- `log2_floor` and `log2_ceil` of vr/vr_common/src/vr/util/ops_int.h, which size the table.
use native.Mathlib.Nat.{pow-suc}
use vrt.Base.{
  ℕ, zero, suc, ◌+◌, ◌-◌, ◌*◌, ◌^◌, ◌≤◌, ◌<◌, ◌≡◌, leb, if◌then◌else◌, arith, Bool-cases, inl, inr,
}

-- The instruction `lzcnt` on a register of `w` bits: the count of leading zero bits.
unfoldable pub lzcnt : ℕ → ℕ → ℕ
lzcnt zero x = 0
lzcnt (suc w) x = if leb (2 ^ w) x then 0 else suc (lzcnt w x)

-- `log2_floor` plus one, which is the number that `log2_ceil` adds up (`log2_floor (0)` is -1).
unfoldable pub log2_floor_plus_one : ℕ → ℕ → ℕ
unfolding lzcnt
log2_floor_plus_one w x = w - lzcnt w x

-- `log2_ceil` of a positive number
unfoldable pub log2_ceil : ℕ → ℕ → ℕ
unfolding log2_floor_plus_one
log2_ceil w x = log2_floor_plus_one w (x - 1)

pub lzcnt-le : (w x : ℕ) → lzcnt w x ≤ w
unfolding lzcnt
lzcnt-le zero x = omega arith
lzcnt-le (suc w) x = ground (arith, lzcnt-le w x)

-- The bits that are left of a number after its leading zeros: 2 ^ (n - 1) ≤ x < 2 ^ n.
pub lzcnt_bounds :
    (w x : ℕ) → x < 2 ^ w → (x < 2 ^ (w - lzcnt w x)) × (2 ^ (w - lzcnt w x) ≤ 2 * x + 1)
unfolding lzcnt
lzcnt_bounds zero x h = (h, omega arith)
lzcnt_bounds (suc w) x h = elim (Bool-cases (leb (2 ^ w) x)) [
  | inl e ↦ let s : suc w - 0 ≡ suc w = omega arith in rw e (rw s (h, ground (arith, pow-suc 2 w)))
  | inr e ↦
      let s : suc w - suc (lzcnt w x) ≡ w - lzcnt w x = omega arith in
      rw e (rw s (lzcnt_bounds w x (ground arith)))
]

-- For a positive x of at most 2 ^ w, 2 to the log2_ceil of x is at least x and below twice x.
pub log2_ceil_bounds :
    (w x : ℕ) → 0 < x → x ≤ 2 ^ w → (x ≤ 2 ^ log2_ceil w x) × (2 ^ log2_ceil w x < 2 * x)
unfolding log2_ceil log2_floor_plus_one
log2_ceil_bounds w x h k = omega (arith, lzcnt_bounds w (x - 1) (omega arith))
