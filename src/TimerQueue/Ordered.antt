-- ===== src/TimerQueue/Ordered.antt =====
-- Ordered sequences of entries of vr/vr_common/src/vr/containers/util/treap_priority_queue.h, with one
-- more or one less.
use vrt.Base.{
  ℕ, ◌≡◌, ◌≢◌, ◌≤◌, ◌<◌, ◌||◌, refl, sym, ◌∙◌, inl, inr, true, false, List, [], ◌∷◌, ◌==◌, All,
  All-map, Distinct, contains, Bool-cases, arith,
}
use vrt.Base.Store.{Store}
use vrt.TimerQueue.Defs.{Entry, key_at, comparator, IsOrdered, insert_upper, remove}

module _ {V : Type 0} (E : Store (Entry V)) (r : ℕ) where
  pub insert_upper-All :
      (P : ℕ → Type 0) (rs : List ℕ) → P r → All P rs → All P (insert_upper E r rs)
  insert_upper-All P [] p h = (p, tt)
  insert_upper-All P (y ∷ ys) p h = elim (Bool-cases (comparator E r y)) [
    | inl t ↦ rw t (p, h)
    | inr t ↦ rw t (h.0, insert_upper-All P ys p h.1)
  ]

  pub insert_upper-IsOrdered : (rs : List ℕ) → IsOrdered E rs → IsOrdered E (insert_upper E r rs)
  insert_upper-IsOrdered [] h = (tt, tt)
  insert_upper-IsOrdered (y ∷ ys) h = elim (Bool-cases (comparator E r y)) [
    | inl t ↦
        let lt : key_at E r < key_at E y = ground arith in
        rw t ((omega arith, All-map (λ z le. omega arith) ys h.0), h)
    | inr t ↦
        let le : key_at E y ≤ key_at E r = ground arith in
        rw t
          (insert_upper-All (λ z. key_at E y ≤ key_at E z) ys le h.0, insert_upper-IsOrdered ys h.1)
  ]

  pub insert_upper-Distinct :
      (rs : List ℕ) → All (λ y. y ≢ r) rs → Distinct rs → Distinct (insert_upper E r rs)
  insert_upper-Distinct [] n h = (tt, tt)
  insert_upper-Distinct (y ∷ ys) n h = elim (Bool-cases (comparator E r y)) [
    | inl t ↦ rw t (((λ e. n.0 (sym e)), All-map (λ z ne e. ne (sym e)) ys n.1), h)
    | inr t ↦ rw t (insert_upper-All (λ z. y ≢ z) ys n.0 h.0, insert_upper-Distinct ys n.1 h.1)
  ]

  pub contains-insert_upper :
      (j : ℕ) (rs : List ℕ)
      → (j == r || contains j rs) ≡ true
      → contains j (insert_upper E r rs) ≡ true
  contains-insert_upper j [] h = h
  contains-insert_upper j (y ∷ ys) h = elim (Bool-cases (comparator E r y)) [
    | inl t ↦ rw t h
    | inr t ↦ rw t (elim (Bool-cases (j == y)) [
      | inl q ↦ rw q refl
      | inr q ↦ let c = contains-insert_upper j ys (rw q at h) in rw q c
    ])
  ]

module _ (r : ℕ) where
  pub remove-All : (P : ℕ → Type 0) (rs : List ℕ) → All P rs → All P (remove r rs)
  remove-All P [] h = tt
  remove-All P (y ∷ ys) h = elim (Bool-cases (y == r)) [
    | inl t ↦ rw t h.1
    | inr t ↦ rw t (h.0, remove-All P ys h.1)
  ]

  pub remove-IsOrdered :
      {V : Type 0} (E : Store (Entry V)) (rs : List ℕ) → IsOrdered E rs → IsOrdered E (remove r rs)
  remove-IsOrdered E [] h = tt
  remove-IsOrdered E (y ∷ ys) h = elim (Bool-cases (y == r)) [
    | inl t ↦ rw t h.1
    | inr t ↦ rw t (remove-All (λ z. key_at E y ≤ key_at E z) ys h.0, remove-IsOrdered E ys h.1)
  ]

  pub remove-Distinct : (rs : List ℕ) → Distinct rs → Distinct (remove r rs)
  remove-Distinct [] h = tt
  remove-Distinct (y ∷ ys) h = elim (Bool-cases (y == r)) [
    | inl t ↦ rw t h.1
    | inr t ↦ rw t (remove-All (λ z. y ≢ z) ys h.0, remove-Distinct ys h.1)
  ]

  pub remove-gone : (rs : List ℕ) → Distinct rs → All (λ y. y ≢ r) (remove r rs)
  remove-gone [] h = tt
  remove-gone (y ∷ ys) h = elim (Bool-cases (y == r)) [
    | inl t ↦ let same : y ≡ r = ground arith in rw t (All-map (λ z ne e. ne (same ∙ sym e)) ys h.0)
    | inr t ↦ rw t (ground arith, remove-gone ys h.1)
  ]

  pub contains-remove :
      (j : ℕ) (rs : List ℕ) → j ≢ r → contains j rs ≡ true → contains j (remove r rs) ≡ true
  contains-remove j [] ne h = h
  contains-remove j (y ∷ ys) ne h = elim (Bool-cases (y == r)) [
    | inl t ↦
        let same : y ≡ r = ground arith in
        let other : j == y ≡ false = ground (arith, same) in rw t (rw other at h)
    | inr t ↦ rw t (elim (Bool-cases (j == y)) [
      | inl q ↦ rw q refl
      | inr q ↦ let c = contains-remove j ys ne (rw q at h) in rw q c
    ])
  ]
