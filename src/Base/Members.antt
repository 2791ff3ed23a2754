-- ===== src/Base/Members.antt =====
-- Membership and distinctness of lists of numbers, as predicates by recursion, and the pigeonhole
-- principle: distinct numbers below `n` are at most `n`.
use Prim.Native.Nat.{ℕ, zero, suc, ◌≤◌, ◌<◌}
use mathlib.Core.Path.{◌≡◌, refl}
use mathlib.Core.Logic.{◌≢◌, inl, inr}
use mathlib.Core.Bool.{Bool, true, false, ◌||◌}
use mathlib.Core.List.{List, [], ◌∷◌}
use native.Mathlib.Omega.{arith}
use vrt.Base.Tests.{◌==◌, if◌then◌else◌, Bool-cases}
use vrt.Base.Lists.{length}

abbrev pub All {ℓ κ} : {A : Type ℓ} → (A → Type κ) → List A → Type κ
All P [] = Unit
All P (x ∷ xs) = P x × All P xs

abbrev pub Distinct : List ℕ → Type 0
Distinct [] = Unit
Distinct (x ∷ xs) = All (λ y. x ≢ y) xs × Distinct xs

abbrev pub contains : ℕ → List ℕ → Bool
contains a [] = false
contains a (x ∷ xs) = a == x || contains a xs

pub All-map {ℓ κ μ} :
    {A : Type ℓ} {P : A → Type κ} {Q : A → Type μ} (f : (a : A) → P a → Q a) (xs : List A)
    → All P xs
    → All Q xs
All-map f [] h = tt
All-map f (x ∷ xs) h = (f x h.0, All-map f xs h.1)

pub All-contains {κ} :
    (P : ℕ → Type κ) (a : ℕ) (xs : List ℕ) → All P xs → contains a xs ≡ true → P a
All-contains P a [] h e = cc
All-contains P a (x ∷ xs) h e = elim (Bool-cases (a == x)) [
  | inl y ↦ let s : a ≡ x = ground arith in rw s h.0
  | inr n ↦ All-contains P a xs h.1 (rw n at e)
]

pub not_contains : (a : ℕ) (xs : List ℕ) → All (λ y. a ≢ y) xs → contains a xs ≡ false
not_contains a [] h = refl
not_contains a (x ∷ xs) h = ground (arith, not_contains a xs h.1, h.0)

pub All-ne_of_not_contains : (a : ℕ) (xs : List ℕ) → contains a xs ≡ false → All (λ y. a ≢ y) xs
All-ne_of_not_contains a [] h = tt
All-ne_of_not_contains a (x ∷ xs) h = (ground arith, All-ne_of_not_contains a xs (ground arith))

-- the numbers other than `a`
without : ℕ → List ℕ → List ℕ
without a [] = []
without a (x ∷ xs) = if x == a then without a xs else x ∷ without a xs

without-All {κ} : (P : ℕ → Type κ) (a : ℕ) (xs : List ℕ) → All P xs → All P (without a xs)
unfolding without
without-All P a [] h = tt
without-All P a (x ∷ xs) h = elim (Bool-cases (x == a)) [
  | inl y ↦ rw y (without-All P a xs h.1)
  | inr n ↦ rw n (h.0, without-All P a xs h.1)
]

without-Distinct : (a : ℕ) (xs : List ℕ) → Distinct xs → Distinct (without a xs)
unfolding without
without-Distinct a [] h = tt
without-Distinct a (x ∷ xs) h = elim (Bool-cases (x == a)) [
  | inl y ↦ rw y (without-Distinct a xs h.1)
  | inr n ↦ rw n (without-All _ a xs h.0, without-Distinct a xs h.1)
]

without_below : (n : ℕ) (xs : List ℕ) → All (λ x. x < suc n) xs → All (λ x. x < n) (without n xs)
unfolding without
without_below n [] h = tt
without_below n (x ∷ xs) h = elim (Bool-cases (x == n)) [
  | inl y ↦ rw y (without_below n xs h.1)
  | inr m ↦ rw m (ground (arith, h.0), without_below n xs h.1)
]

length-without_ne : (a : ℕ) (xs : List ℕ) → All (λ y. a ≢ y) xs → length (without a xs) ≡ length xs
unfolding without
length-without_ne a [] h = refl
length-without_ne a (x ∷ xs) h = ground (arith, length-without_ne a xs h.1, h.0)

length-without : (a : ℕ) (xs : List ℕ) → Distinct xs → length xs ≤ suc (length (without a xs))
unfolding without
length-without a [] h = omega arith
length-without a (x ∷ xs) h = elim (Bool-cases (x == a)) [
  | inl y ↦
      let s : x ≡ a = ground arith in rw y (omega (arith, length-without_ne a xs (rw s at (h.0))))
  | inr n ↦ rw n (omega (arith, length-without a xs h.1))
]

pub pigeonhole : (n : ℕ) (xs : List ℕ) → All (λ x. x < n) xs → Distinct xs → length xs ≤ n
pigeonhole zero [] h d = omega arith
pigeonhole zero (x ∷ xs) h d = absurd (omega (arith, h.0))
pigeonhole (suc n) xs h d = omega (
  arith,
  length-without n xs d,
  pigeonhole n (without n xs) (without_below n xs h) (without-Distinct n xs d),
)
