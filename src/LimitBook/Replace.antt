-- ===== src/LimitBook/Replace.antt =====
-- `order_replace` to a price that has no level.
use vrt.Base.{
  ℕ, ◌+◌, ◌-◌, ◌^◌, ◌<◌, ◌≡◌, ◌≢◌, ◌≤◌, refl, ap, ◌∙◌, inl, inr, true, false, none, some, [], ◌==◌,
  leb, Bool-cases, arith,
}
use vrt.Base.Run.{ok}
use vrt.LimitBook.Sides.{set_at-twice}
use vrt.LimitBook.Defs.{
  MarketSide, Order, Level, Traits, set_at, Allocator, PriceMap, Book, at, set_side, minus,
  narrow-fits,
}
use vrt.LimitBook.Listener.{destination, order_replace}

module _ {M : Type 0} (t : Traits) (pm : PriceMap M) (new_order : Allocator Order)
    (new_level : Allocator Level) (b : Book M) (s : MarketSide) (i o r p q : ℕ) (x : Order) where
  destination-new :
      new_level.pick b.levels ≡ ok r
      → pm.find (at b s).price_map p ≡ none
      → destination t pm new_order new_level b s p
        ≡ ok (
          (r, r),
          record (set_side b s (record (at b s) { price_map = pm.insert (at b s).price_map p r })) {
            levels =
                set_at b.levels r (record { price = p; qty = 0; order_count = 0; orders = [] });
          },
        )
  unfolding destination
  destination-new pick_level none_there = rw (destination, none_there, pick_level) refl

  -- The book that the order leaves behind.
  abbrev moved : Level → Book M
  moved l =
      record (set_side b s (record (at b s) { price_map = pm.insert (at b s).price_map p r })) {
        levels = set_at b.levels r l;
        orders = set_at b.orders o (record { parent = r; qty = q });
      }

  -- An order of a book that moves to a price without a level, by a quantity that is not below its
  -- own and is in the range of an `int32_t`: the new level stays without orders and with a count of 0, and every other level, the one
  -- that the order leaves too, is as it was.
  pub order_replace-new_price :
      new_level.pick b.levels ≡ ok r
      → pm.find (at b s).price_map p ≡ none
      → (at b s).oid_map i ≡ some o
      → b.orders o ≡ some x
      → x.qty ≤ q
      → q < 2 ^ 31
      → (b' : Book M) × (l : Level) × (order_replace t pm new_order new_level
            (record { side = s; oid = i; price = p; qty = q })
            b
          ≡ ok b')
        × (b'.levels r ≡ some l)
        × (l.orders ≡ [])
        × (l.order_count ≡ 0)
        × ((j : ℕ) → j ≢ r → b'.levels j ≡ b.levels j)
        × (b'.orders o ≡ some (record { parent = r; qty = q }))
  unfolding order_replace minus
  order_replace-new_price pick_level none_there at_i at_o enough small =
      elim (Bool-cases t.has_qty) [
        | inl has ↦ (
          moved (record { price = p; qty = 0 + q - x.qty; order_count = 0; orders = [] }),
          record { price = p; qty = 0 + q - x.qty; order_count = 0; orders = [] },
          rw (order_replace, at_i, at_o)
              (rw (destination-new pick_level none_there) (
                rw itself (
                  rw has (
                    rw (room, narrow-fits (0 + q - x.qty) (omega arith), narrow-fits q small)
                      (both _ _ _))))),
          rw itself refl,
          refl,
          refl,
          λ j ne. let test : j == r ≡ false = ground arith in rw test refl,
          rw own refl,
        )
        | inr lacks ↦ (
          moved (record { price = p; qty = 0; order_count = 0; orders = [] }),
          record { price = p; qty = 0; order_count = 0; orders = [] },
          rw (order_replace, at_i, at_o)
              (rw (destination-new pick_level none_there)
                (rw itself (rw (lacks, narrow-fits q small) (one _ _)))),
          rw itself refl,
          refl,
          refl,
          λ j ne. let test : j == r ≡ false = ground arith in rw test refl,
          rw own refl,
        )
      ]
    where
      itself : r == r ≡ true
      itself = ground arith

      own : o == o ≡ true
      own = ground arith

      room : leb x.qty (0 + q) ≡ true
      room = ground arith

      one :
          (l : Level) (y : Order)
          → ok (record (moved l) {
            orders = set_at (set_at b.orders o y) o (record { parent = r; qty = q });
          })
            ≡ ok (moved l)
      one l y =
          ap (λ orders. ok (record (moved l) { orders = orders }))
            (set_at-twice b.orders o y (record { parent = r; qty = q }))

      both :
          (k l : Level) (y : Order)
          → ok (record (moved l) {
            levels = set_at (set_at b.levels r k) r l;
            orders = set_at (set_at b.orders o y) o (record { parent = r; qty = q });
          })
            ≡ ok (moved l)
      both k l y =
          ap
            (λ levels. ok (record (moved l) {
              levels = levels;
              orders = set_at (set_at b.orders o y) o (record { parent = r; qty = q });
            }))
            (set_at-twice b.levels r k l)
          ∙ one l y
