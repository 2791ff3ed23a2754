-- ===== src/LimitBook/Checker.antt =====
-- The check of a level in vr/vr_rt/src/vr/market/books/limit_order_book_checker.h.
use vrt.Base.{
  ℕ, suc, ◌+◌, ◌≡◌, refl, ap, ◌∙◌, inl, inr, Bool, true, false, not, Option, none, some, List, [],
  ◌∷◌, ◌==◌, if◌then◌else◌, length, All, Bool-cases, arith,
}
use vrt.Base.Run.{Run, ok, invalid_input, check_failure, ◌>>=◌, ◌>>◌, check, valid}
use vrt.LimitBook.Defs.{Order, Level, Traits, Store, is_empty}
use vrt.LimitBook.Sound.{LevelSound, Child, total, qty_at}

-- The loop over the orders of a level: `parent` is none before the first one.
unfoldable pub check_orders :
    Store Order → List ℕ → (parent : Option ℕ) → (qty ord_count : ℕ) → Run (Option ℕ × ℕ × ℕ)
check_orders orders [] parent qty ord_count = ok (parent, qty, ord_count)
check_orders orders (r ∷ rs) parent qty ord_count = do
  ord ← valid (orders r)
  elim parent [
    | none ↦ check_orders orders rs (some ord.parent) (qty + ord.qty) (ord_count + 1)
    | some p ↦ do
      check (ord.parent == p) invalid_input
      check_orders orders rs (some p) (qty + ord.qty) (ord_count + 1)
  ]

-- `check_book_level`; `level_alloc_map` is the pool's allocation bitmap.
unfoldable pub check_book_level :
    Traits → Store Order → (level_alloc_map : ℕ → Bool) → Level → Run ℕ
unfolding check_orders
check_book_level t orders level_alloc_map book_level = do
  check (not (is_empty book_level.orders)) invalid_input
  (parent, qty, ord_count) ← check_orders orders book_level.orders none 0 0
  p ← valid parent
  check (level_alloc_map p) check_failure
  check
      (ord_count
        == (if t.has_order_count then book_level.order_count else length book_level.orders))
      invalid_input
  check (if t.has_qty then qty == book_level.qty else true) invalid_input
  ok qty

module _ (orders : Store Order) (r : ℕ) where
  check_orders-Child :
      (rs : List ℕ) (qty ord_count : ℕ)
      → All (Child orders r) rs
      → check_orders orders rs (some r) qty ord_count
        ≡ ok (some r, qty + total orders rs, ord_count + length rs)
  unfolding check_orders
  check_orders-Child [] qty ord_count h =
      let a : qty ≡ qty + 0 = omega arith in
      let c : ord_count ≡ ord_count + 0 = omega arith in
      ap (λ (p : ℕ × ℕ). ok (some r, p.0, p.1))
        (ap (λ x. (x, ord_count)) a ∙ ap (λ y. (qty + 0, y)) c)
  check_orders-Child (o ∷ rs) qty ord_count ((x, e, p), h) =
      let test : x.parent == r ≡ true = ground arith in
      let own : qty_at orders o ≡ x.qty = rw (qty_at, e) refl in
      let a : qty + x.qty + total orders rs ≡ qty + (qty_at orders o + total orders rs) =
        omega (arith, own) in
      let c : ord_count + 1 + length rs ≡ ord_count + suc (length rs) = omega arith in
      rw e (
        rw test (
          check_orders-Child rs (qty + x.qty) (ord_count + 1) h
          ∙ ap (λ z. ok (some r, z, ord_count + 1 + length rs)) a
          ∙ ap (λ z. ok (some r, qty + (qty_at orders o + total orders rs), z)) c))

  -- The loop from the first order on.
  check_orders-All :
      (rs : List ℕ)
      → is_empty rs ≡ false
      → All (Child orders r) rs
      → check_orders orders rs none 0 0 ≡ ok (some r, total orders rs, length rs)
  unfolding check_orders
  check_orders-All [] e h = cc
  check_orders-All (o ∷ rs) e ((x, at_o, p), h) =
      let own : qty_at orders o ≡ x.qty = rw (qty_at, at_o) refl in
      let a : 0 + x.qty + total orders rs ≡ qty_at orders o + total orders rs =
        omega (arith, own) in
      let c : 0 + 1 + length rs ≡ suc (length rs) = omega arith in
      rw at_o (
        ap (λ z. check_orders orders rs (some z) (0 + x.qty) (0 + 1)) p
        ∙ check_orders-Child rs (0 + x.qty) (0 + 1) h
        ∙ ap (λ z. ok (some r, z, 0 + 1 + length rs)) a
        ∙ ap (λ z. ok (some r, qty_at orders o + total orders rs, z)) c)

pub check_book_level-LevelSound :
    (t : Traits) (orders : Store Order) (level_alloc_map : ℕ → Bool) (r : ℕ) (l : Level)
    → LevelSound t orders r l
    → is_empty l.orders ≡ false
    → level_alloc_map r ≡ true
    → check_book_level t orders level_alloc_map l ≡ ok (total orders l.orders)
unfolding check_book_level
check_book_level-LevelSound t orders level_alloc_map r l s some_orders allocated = rw some_orders (
    rw (check_orders-All orders r l.orders some_orders s.children)
      (rw allocated (rw count_test (rw qty_test refl))))
  where
    count_test :
        length l.orders == (if t.has_order_count then l.order_count else length l.orders) ≡ true
    count_test =
        let c = s.counted in
        elim (Bool-cases t.has_order_count) [
          | inl e ↦ let c' : l.order_count ≡ length l.orders = rw e at c in rw e (ground arith)
          | inr e ↦ rw e (ground arith)
        ]

    qty_test : (if t.has_qty then total orders l.orders == l.qty else true) ≡ true
    qty_test =
        let c = s.summed in
        elim (Bool-cases t.has_qty) [
          | inl e ↦ let c' : l.qty ≡ total orders l.orders = rw e at c in rw e (ground arith)
          | inr e ↦ rw e refl
        ]
