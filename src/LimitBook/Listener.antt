-- ===== src/LimitBook/Listener.antt =====
-- The handlers of vr/vr_rt/src/vr/market/books/asx/market_data_listener.h.
use vrt.Base.{ℕ, ◌+◌, ◌-◌, not, none, some, [], ◌∷◌, leb, ltb, ◌==◌, if◌then◌else◌, is_some}
use vrt.Base.Run.{Run, ok, ◌>>=◌, ◌>>◌, assert, valid}
use vrt.LimitBook.Defs.{
  MarketSide, Order, Level, Traits, set_at, clear_at, Allocator, PriceMap, Book, at, set_side,
  minus, narrow, erase, is_empty, front, assert_count, if_qty, if_count,
}

-- The fields of a message that the listener reads; `order_delete` has no price and no quantity.
pub record Message : Type 0 where
  pub side : MarketSide
  pub oid : ℕ
  pub price : ℕ
  pub qty : ℕ

module _ {M : Type 0} (t : Traits) (pm : PriceMap M) (new_order : Allocator Order)
    (new_level : Allocator Level) where
  -- The level of a price, for an order of quantity `qty`: a new one, or the one that is there with its
  -- fields updated. The result has its reference and the parent for the order.
  unfoldable pub add_to_level : Book M → MarketSide → (price qty : ℕ) → Run ((ℕ × ℕ) × Book M)
  unfolding front narrow
  add_to_level b s price qty = elim (pm.find (at b s).price_map price) [
    | none ↦ do
      r ← new_level.pick b.levels
      l_qty ← narrow (if_qty t qty)
      let l : Level = record { price = price; qty = l_qty; order_count = if_count t 1; orders = [] }
      let side = record (at b s) { price_map = pm.insert (at b s).price_map price r }
      ok ((r, r), record (set_side b s side) { levels = set_at b.levels r l })
    | some r ↦ do
      l ← valid (b.levels r)
      assert (l.price == price)
      l_qty ← narrow (if_qty t (l.qty + qty))
      let l' : Level = record l { qty = l_qty; order_count = if_count t (l.order_count + 1) }
      f ← front l.orders
      o ← valid (b.orders f)
      ok ((r, o.parent), record b { levels = set_at b.levels r l' })
  ]

  -- `visit (order_add)`
  unfoldable pub order_add : Message → Book M → Run (Book M)
  unfolding add_to_level narrow assert_count
  order_add msg b = do
    o_ref ← new_order.pick b.orders
    assert (not (is_some ((at b (msg.side)).oid_map (msg.oid))))
    let side = record (at b (msg.side)) {
      oid_map = set_at (at b (msg.side)).oid_map (msg.oid) o_ref;
    }
    ((l_ref, parent), b₁) ←
        add_to_level (set_side b (msg.side) side) (msg.side) (msg.price) (msg.qty)
    o_qty ← narrow (msg.qty)
    l ← valid (b₁.levels l_ref)
    let l' : Level = record l { orders = o_ref ∷ l.orders }
    assert_count t l'
    ok (record b₁ {
      orders = set_at b₁.orders o_ref (record { parent = parent; qty = o_qty });
      levels = set_at b₁.levels l_ref l';
    })

  -- `remove_order`; the order's id is already gone from the map in the one call, and not in the other.
  unfoldable pub remove_order : MarketSide → (oid o_ref : ℕ) → Order → Book M → Run (Book M)
  unfolding erase minus assert_count
  remove_order s oid o_ref o b = do
    let side = record (at b s) { oid_map = clear_at (at b s).oid_map oid }
    let parent = o.parent
    l ← valid (b.levels parent)
    rest ← erase o_ref l.orders
    let b₁ = set_side b s side
    if is_empty rest
        then (do
          let side₂ = record side { price_map = pm.erase side.price_map l.price }
          ok (record (set_side b₁ s side₂) {
            levels = clear_at b₁.levels parent;
            orders = clear_at b₁.orders o_ref;
          }))
        else (do
          qty ← (if t.has_qty then minus l.qty o.qty else ok l.qty)
          count ← (if t.has_order_count then minus l.order_count 1 else ok l.order_count)
          let l' : Level = record l { orders = rest; qty = qty; order_count = count }
          assert_count t l'
          ok (record b₁ { levels = set_at b₁.levels parent l'; orders = clear_at b₁.orders o_ref }))

  -- `visit (order_fill)`
  unfoldable pub order_fill : Message → Book M → Run (Book M)
  unfolding remove_order minus assert_count
  order_fill msg b = do
    assert (ltb 0 (msg.qty))
    elim ((at b (msg.side)).oid_map (msg.oid)) [
      | none ↦ ok b
      | some o_ref ↦ do
        o ← valid (b.orders o_ref)
        if leb o.qty (msg.qty) then remove_order (msg.side) (msg.oid) o_ref o b else (do
          let filled = set_at b.orders o_ref (record o { qty = o.qty - msg.qty })
          if t.has_qty
              then (do
                l ← valid (b.levels o.parent)
                qty ← minus l.qty (msg.qty)
                assert_count t (record l { qty = qty })
                ok (record b {
                  levels = set_at b.levels o.parent (record l { qty = qty });
                  orders = filled;
                }))
              else ok (record b { orders = filled }))
    ]

  -- `visit (order_delete)`
  unfoldable pub order_delete : Message → Book M → Run (Book M)
  unfolding remove_order
  order_delete msg b = elim ((at b (msg.side)).oid_map (msg.oid)) [
    | none ↦ ok b
    | some o_ref ↦ do
      let side = record (at b (msg.side)) { oid_map = clear_at (at b (msg.side)).oid_map (msg.oid) }
      o ← valid (b.orders o_ref)
      remove_order (msg.side) (msg.oid) o_ref o (set_side b (msg.side) side)
  ]

  -- The destination of `order_replace`: the level of the price, new or there already, and the parent
  -- that the order gets.
  unfoldable pub destination : Book M → MarketSide → (price : ℕ) → Run ((ℕ × ℕ) × Book M)
  unfolding front
  destination b s price = elim (pm.find (at b s).price_map price) [
    | none ↦ do
      r ← new_level.pick b.levels
      let l : Level = record { price = price; qty = 0; order_count = 0; orders = [] }
      let side = record (at b s) { price_map = pm.insert (at b s).price_map price r }
      ok ((r, r), record (set_side b s side) { levels = set_at b.levels r l })
    | some r ↦ do
      l ← valid (b.levels r)
      assert (l.price == price)
      f ← front l.orders
      o ← valid (b.orders f)
      ok ((r, o.parent), b)
  ]

  -- The order moves from level `from` to another level.
  unfoldable pub splice :
      MarketSide → (o_ref : ℕ) → Order → (from to qty : ℕ) → Book M → Run (Book M)
  unfolding erase minus narrow assert_count
  splice s o_ref o from to qty b = do
    l ← valid (b.levels from)
    n ← valid (b.levels to)
    n_qty ← narrow (if_qty t (n.qty + qty))
    rest ← erase o_ref l.orders
    let n' : Level = record n {
      qty = n_qty;
      order_count = if_count t (n.order_count + 1);
      orders = o_ref ∷ n.orders;
    }
    let b₁ : Book M = record b { levels = set_at b.levels to n' }
    if is_empty rest
        then (do
          let side = record (at b₁ s) { price_map = pm.erase (at b₁ s).price_map l.price }
          ok (record (set_side b₁ s side) { levels = clear_at b₁.levels from }))
        else (do
          l_qty ← (if t.has_qty then minus l.qty o.qty else ok l.qty)
          count ← (if t.has_order_count then minus l.order_count 1 else ok l.order_count)
          let l' : Level = record l { orders = rest; qty = l_qty; order_count = count }
          assert_count t l'
          ok (record b₁ { levels = set_at b₁.levels from l' }))

  -- `visit (order_replace)`. The order's parent is set before it is read as the level to leave.
  unfoldable pub order_replace : Message → Book M → Run (Book M)
  unfolding destination splice minus narrow
  order_replace msg b = elim ((at b (msg.side)).oid_map (msg.oid)) [
    | none ↦ ok b
    | some o_ref ↦ do
      o ← valid (b.orders o_ref)
      ((new_l, parent), b₁) ← destination b (msg.side) (msg.price)
      let b₂ : Book M = record b₁ { orders = set_at b₁.orders o_ref (record o { parent = parent }) }
      let o_parent_ref = parent
      l ← valid (b₂.levels o_parent_ref)
      b₃ ←
          (if not (o_parent_ref == new_l)
            then splice (msg.side) o_ref o o_parent_ref new_l (msg.qty) b₂
            else (if t.has_qty
                then (do
                  sum ← minus (l.qty + msg.qty) o.qty
                  qty ← narrow sum
                  ok (record b₂ { levels = set_at b₂.levels new_l (record l { qty = qty }) }))
                else ok b₂))
      o_qty ← narrow (msg.qty)
      ok (record b₃ { orders = set_at b₃.orders o_ref (record { parent = parent; qty = o_qty }) })
  ]
