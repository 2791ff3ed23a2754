-- ===== src/LimitBook/Sound.antt =====
-- The invariant of a book: its levels agree with their orders, and its maps with its pools.
use vrt.Base.{
  ℕ, suc, ◌+◌, ◌≡◌, ◌≢◌, refl, sym, ap, ◌∙◌, inl, inr, true, false, none, some, List, [], ◌∷◌, ◌==◌,
  length, All, All-map, Distinct, contains, Bool-cases, arith,
}
pub use vrt.Base.{none≢some, some-injective}
use vrt.LimitBook.Sides.{flip}
use vrt.LimitBook.Defs.{
  MarketSide, Order, Level, Traits, Store, set_at, PriceMap, Book, at, is_empty, if_qty, if_count,
}

abbrev pub qty_at : Store Order → ℕ → ℕ
qty_at orders r = elim (orders r) [ none ↦ 0 | some o ↦ o.qty ]

-- the quantity of the orders of a list
abbrev pub total : Store Order → List ℕ → ℕ
total orders [] = 0
total orders (r ∷ rs) = qty_at orders r + total orders rs

-- An order of the level at `r`.
abbrev pub Child : Store Order → ℕ → ℕ → Type 0
Child orders r o = (x : Order) × (orders o ≡ some x) × (x.parent ≡ r)

-- The aggregate fields of the level at `r` are those of its orders, and the orders know it.
pub record LevelSound (t : Traits) (orders : Store Order) (r : ℕ) (l : Level) : Type 0 where
  pub counted : l.order_count ≡ if_count t (length l.orders)
  pub summed : l.qty ≡ if_qty t (total orders l.orders)
  pub children : All (Child orders r) l.orders
  pub distinct : Distinct l.orders

-- The levels have orders and agree with them; every order is in its parent's list; the price maps
-- lead to levels of their prices, and the maps of order ids to orders of levels on their side. Two
-- ids have two orders, and the two sides no order and no level in common.
pub record Sound {M : Type 0} (t : Traits) (pm : PriceMap M) (b : Book M) : Type 0 where
  pub levels :
      (r : ℕ) (l : Level)
      → b.levels r ≡ some l
      → LevelSound t b.orders r l × (is_empty l.orders ≡ false)
  pub listed :
      (o : ℕ) (x : Order)
      → b.orders o ≡ some x
      → (l : Level) × (b.levels x.parent ≡ some l) × (contains o l.orders ≡ true)
  pub priced :
      (s : MarketSide) (p r : ℕ)
      → pm.find (at b s).price_map p ≡ some r
      → (l : Level) × (b.levels r ≡ some l) × (l.price ≡ p)
  pub ids :
      (s : MarketSide) (i o : ℕ)
      → (at b s).oid_map i ≡ some o
      → (x : Order) × (l : Level) × (b.orders o ≡ some x)
        × (b.levels x.parent ≡ some l)
        × (pm.find (at b s).price_map l.price ≡ some x.parent)
  pub unique :
      (s : MarketSide) (i j o : ℕ)
      → (at b s).oid_map i ≡ some o
      → (at b s).oid_map j ≡ some o
      → i ≡ j
  pub no_common_order :
      (s : MarketSide) (i j o : ℕ)
      → (at b s).oid_map i ≡ some o
      → (at b (flip s)).oid_map j ≢ some o
  pub no_common_level :
      (s : MarketSide) (p q r : ℕ)
      → pm.find (at b s).price_map p ≡ some r
      → pm.find (at b (flip s)).price_map q ≢ some r

module _ (orders : Store Order) (o : ℕ) (x : Order) (fresh : orders o ≡ none) where
  qty_at-other : (i : ℕ) → i ≢ o → qty_at (set_at orders o x) i ≡ qty_at orders i
  qty_at-other i ne = let e : i == o ≡ false = ground arith in rw (qty_at, e) refl

  pub fresh_ne : (r i : ℕ) → Child orders r i → i ≢ o
  fresh_ne r i (y, e, _) q = none≢some (ap orders q ∙ fresh) e

  pub total-fresh :
      (r : ℕ) (is : List ℕ)
      → All (Child orders r) is
      → total (set_at orders o x) is ≡ total orders is
  total-fresh r [] h = refl
  total-fresh r (i ∷ is) h =
      let a = qty_at-other i (fresh_ne r i h.0) in let b = total-fresh r is h.1 in omega arith

  pub Child-fresh : (r i : ℕ) → Child orders r i → Child (set_at orders o x) r i
  Child-fresh r i (y, e, p) =
      let ne : i == o ≡ false = ground (arith, fresh_ne r i (y, e, p)) in (y, rw ne e, p)

  -- A new order changes nothing for a level that does not list it.
  pub LevelSound-fresh :
      (t : Traits) (r : ℕ) (l : Level)
      → LevelSound t orders r l
      → LevelSound t (set_at orders o x) r l
  LevelSound-fresh t r l s = record {
    counted = s.counted;
    summed = s.summed ∙ ap (if_qty t) (sym (total-fresh r l.orders s.children));
    children = All-map (Child-fresh r) l.orders s.children;
    distinct = s.distinct;
  }

  -- The order in front of a level's list, with its quantity and count added.
  pub LevelSound-push :
      (t : Traits) (r : ℕ) (l : Level)
      → x.parent ≡ r
      → LevelSound t orders r l
      → LevelSound t (set_at orders o x) r (record l {
        qty = if_qty t (l.qty + x.qty);
        order_count = if_count t (l.order_count + 1);
        orders = o ∷ l.orders;
      })
  LevelSound-push t r l p s = record {
    counted = counted;
    summed = summed;
    children = ((x, rw itself refl, p), All-map (Child-fresh r) l.orders s.children);
    distinct = (All-map (λ i c q. fresh_ne r i c (sym q)) l.orders s.children, s.distinct);
  }
    where
      itself : o == o ≡ true
      itself = ground arith

      first : qty_at (set_at orders o x) o ≡ x.qty
      first = rw (qty_at, itself) refl

      counted : if_count t (l.order_count + 1) ≡ if_count t (suc (length l.orders))
      counted =
          let c = s.counted in
          elim (Bool-cases t.has_order_count) [
            | inl e ↦ rw e (omega (arith, rw e at c))
            | inr e ↦ rw e refl
          ]

      summed :
          if_qty t (l.qty + x.qty)
          ≡ if_qty t (qty_at (set_at orders o x) o + total (set_at orders o x) l.orders)
      summed =
          let c = s.summed in
          let f = total-fresh r l.orders s.children in
          elim (Bool-cases t.has_qty) [
            | inl e ↦ rw e (omega (arith, rw e at c, first, f))
            | inr e ↦ rw e refl
          ]
