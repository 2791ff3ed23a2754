-- ===== src/LimitBook/Erased.antt =====
-- A level that loses one of its orders or a part of its quantity, and the levels that do not list it.
use mathlib.Core.Path.{subst}
use mathlib.Core.Bool.{false≢true}
use native.Mathlib.Decide.{ℕ_discrete}
use vrt.Base.{
  ℕ, suc, ◌+◌, ◌-◌, ◌≡◌, ◌≢◌, ◌≤◌, refl, sym, ap, ◌∙◌, inl, inr, true, false, some, List, [], ◌∷◌,
  ◌==◌, if◌then◌else◌, length, All, All-map, Distinct, contains, Bool-cases, arith,
}
use vrt.Base.Run.{ok}
use vrt.LimitBook.Defs.{Order, Level, Traits, Store, set_at, clear_at, erase, if_qty, if_count}
use vrt.LimitBook.Sound.{qty_at, total, Child, LevelSound, some-injective}

-- The second list is the first without the first `o` in it.
pub data Erased (o : ℕ) : List ℕ → List ℕ → Type 0 where
  first : {xs : List ℕ} → Erased o (o ∷ xs) xs
  later : {y : ℕ} {xs ys : List ℕ} → y ≢ o → Erased o xs ys → Erased o (y ∷ xs) (y ∷ ys)

pub erase-Erased :
    (o : ℕ) (xs : List ℕ)
    → contains o xs ≡ true
    → (ys : List ℕ) × (erase o xs ≡ ok ys) × Erased o xs ys
unfolding erase
erase-Erased o [] c = absurd (false≢true c)
erase-Erased o (x ∷ xs) c = elim (ℕ_discrete x o) [
  | yes q ↦
      let test : x == o ≡ true = ground arith in
      (xs, rw test refl, subst (λ y. Erased o (y ∷ xs) xs) (sym q) first)
  | no ne ↦
      let test : x == o ≡ false = ground arith in
      let (ys, e, d) = erase-Erased o xs (ground arith) in (x ∷ ys, rw (test, e) refl, later ne d)
]

pub Erased-length : {o : ℕ} {xs ys : List ℕ} → Erased o xs ys → length xs ≡ suc (length ys)
Erased-length first = refl
Erased-length (later ne d) = ap suc (Erased-length d)

pub Erased-total :
    {o : ℕ} {xs ys : List ℕ} (orders : Store Order)
    → Erased o xs ys
    → total orders xs ≡ qty_at orders o + total orders ys
Erased-total orders first = refl
Erased-total orders (later ne d) = omega (arith, Erased-total orders d)

pub Erased-All : {o : ℕ} {xs ys : List ℕ} (P : ℕ → Type 0) → Erased o xs ys → All P xs → All P ys
Erased-All P first h = h.1
Erased-All P (later ne d) h = (h.0, Erased-All P d h.1)

pub Erased-Distinct : {o : ℕ} {xs ys : List ℕ} → Erased o xs ys → Distinct xs → Distinct ys
Erased-Distinct first h = h.1
Erased-Distinct (later {y = y} ne d) h = (Erased-All (λ z. y ≢ z) d h.0, Erased-Distinct d h.1)

pub Erased-gone : {o : ℕ} {xs ys : List ℕ} → Erased o xs ys → Distinct xs → All (λ y. y ≢ o) ys
Erased-gone {ys = ys} first h = All-map (λ y ne q. ne (sym q)) ys h.0
Erased-gone (later ne d) h = (ne, Erased-gone d h.1)

pub Erased-contains :
    {o : ℕ} {xs ys : List ℕ} (j : ℕ)
    → Erased o xs ys
    → j ≢ o
    → contains j xs ≡ true
    → contains j ys ≡ true
Erased-contains j first ne c = ground arith
Erased-contains j (later {y = y} other d) ne c = elim (Bool-cases (j == y)) [
  | inl q ↦ rw q refl
  | inr q ↦ let c' = Erased-contains j d ne (rw q at c) in rw q c'
]

module _ (f g : Store Order) (o : ℕ) (same : (j : ℕ) → j ≢ o → g j ≡ f j) where
  pub total-elsewhere : (xs : List ℕ) → All (λ y. y ≢ o) xs → total g xs ≡ total f xs
  total-elsewhere [] h = refl
  total-elsewhere (y ∷ xs) h =
      let now : qty_at g y ≡ qty_at f y = rw (qty_at, same y h.0) refl in
      omega (arith, now, total-elsewhere xs h.1)

  pub Child-elsewhere : (r j : ℕ) → j ≢ o → Child f r j → Child g r j
  Child-elsewhere r j ne (y, e, p) = (y, same j ne ∙ e, p)

  pub Children-elsewhere :
      (r : ℕ) (xs : List ℕ) → All (λ y. y ≢ o) xs → All (Child f r) xs → All (Child g r) xs
  Children-elsewhere r [] h c = tt
  Children-elsewhere r (y ∷ xs) h c = (Child-elsewhere r y h.0 c.0, Children-elsewhere r xs h.1 c.1)

  -- A level that does not list the order stays as it is.
  pub LevelSound-elsewhere :
      (t : Traits) (r : ℕ) (l : Level)
      → All (λ y. y ≢ o) l.orders
      → LevelSound t f r l
      → LevelSound t g r l
  LevelSound-elsewhere t r l h s = record {
    counted = s.counted;
    summed = s.summed ∙ ap (if_qty t) (sym (total-elsewhere l.orders h));
    children = Children-elsewhere r l.orders h s.children;
    distinct = s.distinct;
  }

pub other-not_Child :
    (orders : Store Order) (o r : ℕ) (x : Order)
    → orders o ≡ some x
    → x.parent ≢ r
    → (xs : List ℕ) → All (Child orders r) xs
    → All (λ y. y ≢ o) xs
other-not_Child orders o r x e ne =
    All-map (λ j (y, f, p) q.
      ne (ap (λ y. y.parent) (some-injective (sym e ∙ ap orders (sym q) ∙ f)) ∙ p))

module _ (t : Traits) (orders : Store Order) (r o : ℕ) (l : Level) (x : Order) (ys : List ℕ)
    (sound : LevelSound t orders r l) (there : orders o ≡ some x) (d : Erased o l.orders ys) where
  at_o : qty_at orders o ≡ x.qty
  at_o = rw (qty_at, there) refl

  pub qty_enough : t.has_qty ≡ true → x.qty ≤ l.qty
  qty_enough e = let s = sound.summed in omega (arith, rw e at s, at_o, Erased-total orders d)

  pub count_enough : t.has_order_count ≡ true → 1 ≤ l.order_count
  count_enough e = let s = sound.counted in omega (arith, rw e at s, Erased-length d)

  -- The level without the order.
  abbrev pub reduced : Level
  reduced = record l {
    orders = ys;
    qty = if t.has_qty then l.qty - x.qty else l.qty;
    order_count = if t.has_order_count then l.order_count - 1 else l.order_count;
  }

  elsewhere : (j : ℕ) → j ≢ o → clear_at orders o j ≡ orders j
  elsewhere j ne = let test : j == o ≡ false = ground arith in rw test refl

  pub LevelSound-reduced : LevelSound t (clear_at orders o) r reduced
  LevelSound-reduced = record {
    counted = counted;
    summed = summed;
    children =
        Children-elsewhere orders (clear_at orders o) o elsewhere r ys
          (Erased-gone d sound.distinct) (Erased-All (Child orders r) d sound.children);
    distinct = Erased-Distinct d sound.distinct;
  }
    where
      rest : total (clear_at orders o) ys ≡ total orders ys
      rest =
          total-elsewhere orders (clear_at orders o) o elsewhere ys (Erased-gone d sound.distinct)

      counted :
          (if t.has_order_count then l.order_count - 1 else l.order_count) ≡ if_count t (length ys)
      counted =
          let c = sound.counted in
          elim (Bool-cases t.has_order_count) [
            | inl e ↦ rw e (omega (arith, rw e at c, Erased-length d))
            | inr e ↦ rw e (rw e at c)
          ]

      summed :
          (if t.has_qty then l.qty - x.qty else l.qty) ≡ if_qty t (total (clear_at orders o) ys)
      summed =
          let s = sound.summed in
          elim (Bool-cases t.has_qty) [
            | inl e ↦ rw e (omega (arith, rw e at s, rest, at_o, Erased-total orders d))
            | inr e ↦ rw e (rw e at s)
          ]

  module _ (q : ℕ) (part : q ≤ x.qty) where
    abbrev pub filled : Store Order
    filled = set_at orders o (record x { qty = x.qty - q })

    -- The level after a part of the order's quantity is gone.
    abbrev pub lowered : Level
    lowered = record l { qty = if t.has_qty then l.qty - q else l.qty }

    pub LevelSound-lowered : x.parent ≡ r → LevelSound t filled r lowered
    LevelSound-lowered parent = record {
      counted = sound.counted;
      summed = summed;
      children = All-map child l.orders sound.children;
      distinct = sound.distinct;
    }
      where
        others : (j : ℕ) → j ≢ o → filled j ≡ orders j
        others j ne = let test : j == o ≡ false = ground arith in rw test refl

        itself : o == o ≡ true
        itself = ground arith

        child : (j : ℕ) → Child orders r j → Child filled r j
        child j c = elim (ℕ_discrete j o) [
          | yes same ↦
              let test : j == o ≡ true = ground arith in
              (record x { qty = x.qty - q }, rw test refl, parent)
          | no ne ↦ Child-elsewhere orders filled o others r j ne c
        ]

        rest : total filled ys ≡ total orders ys
        rest = total-elsewhere orders filled o others ys (Erased-gone d sound.distinct)

        now : qty_at filled o ≡ x.qty - q
        now = rw (qty_at, itself) refl

        summed : (if t.has_qty then l.qty - q else l.qty) ≡ if_qty t (total filled l.orders)
        summed =
            let s = sound.summed in
            elim (Bool-cases t.has_qty) [
              | inl e ↦ rw e (
                  omega (
                    arith,
                    rw e at s,
                    rest,
                    at_o,
                    now,
                    Erased-total orders d,
                    Erased-total filled d,
                  ))
              | inr e ↦ rw e (rw e at s)
            ]
