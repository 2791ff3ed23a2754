-- ===== src/SpscBuffer/Window.antt =====
-- The values of the ring of vr/vr_common/src/vr/mc/lf_spsc_buffer.h between two positions.
use vrt.Base.{
  ℕ, zero, suc, ◌+◌, ◌*◌, ◌/◌, ◌%◌, ◌^◌, ◌-◌, ◌≡◌, ◌≢◌, ◌≤◌, ◌<◌, refl, sym, ap, ◌∙◌, List, [], ◌∷◌,
  ◌++◌, length, arith,
}
use native.Mathlib.Nat.{mod-mod_of_dvd, mod-add-div, mul-le-mul_left, mul-one, mul_assoc, pow-suc}
use native.Mathlib.Decide.{dec_le}
use vrt.SpscBuffer.Defs.{IsCapacity, slot}

module _ {A : Type 0} where
  -- `n` values from position `i` on
  abbrev pub window : (ℕ → A) → (i n : ℕ) → List A
  window f i zero = []
  window f i (suc n) = f i ∷ window f (suc i) n

  pub length-window : (f : ℕ → A) (i n : ℕ) → length (window f i n) ≡ n
  length-window f i zero = refl
  length-window f i (suc n) = ap suc (length-window f (suc i) n)

  pub window-suc : (f : ℕ → A) (i n : ℕ) → window f i (suc n) ≡ window f i n ++ (f (i + n) ∷ [])
  window-suc f i zero = let e : i + 0 ≡ i = omega arith in rw e refl
  window-suc f i (suc n) =
      let e : i + suc n ≡ suc i + n = omega arith in
      rw e (ap (λ xs. f i ∷ xs) (window-suc f (suc i) n))

  pub window-ext :
      (f g : ℕ → A) (i n : ℕ)
      → ((j : ℕ) → i ≤ j → j < i + n → f j ≡ g j)
      → window f i n ≡ window g i n
  window-ext f g i zero h = refl
  window-ext f g i (suc n) h =
      let first = h i (omega arith) (omega arith) in
      let rest = window-ext f g (suc i) n (λ j lo hi. h j (omega arith) (omega arith)) in cc

-- Positions less than a capacity apart have different remainders.
mod-apart : (cap i j : ℕ) → i < j → j < i + cap → i % cap ≢ j % cap
mod-apart cap i j lt near e =
    let a = mod-add-div i cap in
    let b = mod-add-div j cap in
    elim (dec_le (j / cap) (i / cap)) [
      | yes le ↦ let c = mul-le-mul_left cap le in omega arith
      | no gt ↦
          let c : cap * suc (i / cap) ≤ cap * (j / cap) = mul-le-mul_left cap (omega arith) in
          let d : cap * suc (i / cap) ≡ cap * (i / cap) + cap = omega arith in omega arith
    ]

two_pow-add : (k d : ℕ) → 2 ^ (k + d) ≡ 2 ^ k * 2 ^ d
two_pow-add k zero = let e : k + 0 ≡ k = omega arith in rw e (sym (mul-one (2 ^ k)))
two_pow-add k (suc d) =
    let e : k + suc d ≡ suc (k + d) = omega arith in
    ap (λ n. 2 ^ n) e
    ∙ pow-suc 2 (k + d)
    ∙ ap (λ n. n * 2) (two_pow-add k d)
    ∙ mul_assoc (2 ^ k) (2 ^ d) 2
    ∙ ap (λ n. 2 ^ k * n) (sym (pow-suc 2 d))

module _ (cap : ℕ) (is_capacity : IsCapacity cap) where
  -- The cast to 32 bits drops nothing of an index.
  slot-mod : (i : ℕ) → slot cap i ≡ i % cap
  slot-mod i =
      let (k, le, same) = is_capacity in
      let split : 2 ^ 32 ≡ cap * 2 ^ (32 - k) =
        let e : 32 ≡ k + (32 - k) = omega arith in
        ap (λ n. 2 ^ n) e ∙ two_pow-add k (32 - k) ∙ ap (λ c. c * 2 ^ (32 - k)) (sym same) in
      mod-mod_of_dvd cap i ∣ (2 ^ (32 - k), split) ∣₁

  -- Positions less than a capacity apart have different slots.
  pub slot-apart : (i j : ℕ) → i < j → j < i + cap → slot cap i ≢ slot cap j
  slot-apart i j lt near e = mod-apart cap i j lt near (sym (slot-mod i) ∙ e ∙ slot-mod j)
