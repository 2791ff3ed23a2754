-- ===== src/LimitBook/Remove.antt =====
-- `remove_order` and the handlers that call it, `order_fill` and `order_delete`, keep a book sound.
use mathlib.Core.Path.{subst}
use vrt.Base.{
  ℕ, ◌-◌, ◌≡◌, ◌≢◌, ◌≤◌, refl, sym, ap, ◌∙◌, inl, inr, Bool, true, false, none, some, List, leb,
  if◌then◌else◌, length, contains, Bool-cases, arith,
}
use vrt.Base.Run.{Run, ok}
use vrt.LimitBook.Sides.{
  flip, set_side-twice, at-set_side, clear_at-twice, at_other-set_side, clear_at_self, clear_at-ne,
}
use vrt.LimitBook.Defs.{
  MarketSide, bid, ask, Store, Order, Level, Traits, set_at, clear_at, Allocator, PriceMap,
  BookSide, Book, at, set_side, erase, minus, is_empty, if_count,
}
use vrt.LimitBook.Listener.{remove_order}
use vrt.LimitBook.Sound.{Sound, some-injective}
use vrt.LimitBook.Erased.{erase-Erased, qty_enough, count_enough, LevelSound-reduced}
use vrt.LimitBook.Removed.{Rest, removed, removed-Sound}
use vrt.LimitBook.Kept.{kept}
use vrt.LimitBook.Emptied.{emptied}
use vrt.LimitBook.Add.{assert_count-counted}

pub minus-ok : (a b : ℕ) → b ≤ a → minus a b ≡ ok (a - b)
unfolding minus
minus-ok a b h = let test : leb b a ≡ true = ground arith in rw test refl

pub minus_if-ok :
    (c : Bool) (a b : ℕ)
    → (c ≡ true → b ≤ a)
    → (if c then minus a b else ok a) ≡ ok (if c then a - b else a)
minus_if-ok true a b h = minus-ok a b (h refl)
minus_if-ok false a b h = refl

module _ {M : Type 0} (t : Traits) (pm : PriceMap M) (new_order : Allocator Order)
    (new_level : Allocator Level) where
  module _ (b : Book M) (id o : ℕ) (x : Order) (l : Level) (ys : List ℕ)
      (level : b.levels x.parent ≡ some l) (erased : erase o l.orders ≡ ok ys) where
    abbrev side_without : MarketSide → BookSide M
    side_without s = record (at b s) { oid_map = clear_at (at b s).oid_map id }

    remove_order-kept :
        (s : MarketSide) (qty count : ℕ)
        → (if t.has_qty then minus l.qty x.qty else ok l.qty) ≡ ok qty
        → (if t.has_order_count then minus l.order_count 1 else ok l.order_count) ≡ ok count
        → is_empty ys ≡ false
        → count ≡ if_count t (length ys)
        → remove_order t pm new_order new_level s id o x b
          ≡ ok (record (set_side b s (side_without s)) {
            levels =
                set_at b.levels x.parent (record l { orders = ys; qty = qty; order_count = count });
            orders = clear_at b.orders o;
          })
    unfolding remove_order
    remove_order-kept s qty count e f some_orders counted =
        rw (level, erased, some_orders, e, f)
          (rw
            (assert_count-counted t (record l { orders = ys; qty = qty; order_count = count })
              counted)
            refl)

    remove_order-emptied :
        (s : MarketSide)
        → is_empty ys ≡ true
        → remove_order t pm new_order new_level s id o x b
          ≡ ok
              (record (set_side b s (record {
                oid_map = clear_at (at b s).oid_map id;
                price_map = pm.erase (at b s).price_map l.price;
              })) { levels = clear_at b.levels x.parent; orders = clear_at b.orders o })
    unfolding remove_order
    remove_order-emptied s no_orders =
        let finish : Book M → Run (Book M) = λ b'.
          ok (record b' { levels = clear_at b.levels x.parent; orders = clear_at b.orders o }) in
        let last : BookSide M = record {
          oid_map = clear_at (at b s).oid_map id;
          price_map = pm.erase (at b s).price_map l.price;
        } in
        rw (level, erased, no_orders) (ap finish (set_side-twice b s (side_without s) last))

  -- The id that `order_delete` has taken out of the map is taken out again.
  pub remove_order-cleared :
      (s : MarketSide) (id o : ℕ) (x : Order) (b : Book M)
      → remove_order t pm new_order new_level s id o x
          (set_side b s (record (at b s) { oid_map = clear_at (at b s).oid_map id }))
        ≡ remove_order t pm new_order new_level s id o x b
  unfolding remove_order
  remove_order-cleared bid id o x b = rw (remove_order, clear_at-twice b.bids.oid_map id) refl
  remove_order-cleared ask id o x b = rw (remove_order, clear_at-twice b.asks.oid_map id) refl

-- What an order that is gone leaves behind: a sound book without it and its id, and with the other
-- orders, the other ids and the other side's maps as they were.
abbrev pub Gone :
    {M : Type 0} → Traits → PriceMap M → MarketSide → (id o : ℕ) → Book M → Book M → Type 0
Gone t pm s id o b b' =
    Sound t pm b'
    × ((at b' s).oid_map id ≡ none)
    × (b'.orders o ≡ none)
    × ((j : ℕ) → j ≢ o → b'.orders j ≡ b.orders j)
    × ((i : ℕ) → i ≢ id → (at b' s).oid_map i ≡ (at b s).oid_map i)
    × (at b' (flip s) ≡ at b (flip s))

module _ {M : Type 0} (t : Traits) (pm : PriceMap M) (new_order : Allocator Order)
    (new_level : Allocator Level) (b : Book M) (v : Sound t pm b) (s : MarketSide) (id o : ℕ)
    (x : Order) (known : (at b s).oid_map id ≡ some o) (there : b.orders o ≡ some x) where
  removed-Gone :
      (l : Level) (level : b.levels x.parent ≡ some l)
      (leads : pm.find (at b s).price_map l.price ≡ some x.parent) (levels : Store Level) (m : M)
      (rest : Rest t pm b v s id o x l known there level leads levels m)
      → Gone t pm s id o b (removed t pm b v s id o x l known there level leads levels m rest)
  removed-Gone l level leads levels m rest = (
    removed-Sound t pm b v s id o x l known there level leads levels m rest,
    ap (λ side. side.oid_map id) side_now ∙ clear_at_self (at b s).oid_map id,
    clear_at_self b.orders o,
    clear_at-ne b.orders o,
    λ i ne. ap (λ side. side.oid_map i) side_now ∙ clear_at-ne (at b s).oid_map id i ne,
    at_other-set_side b s side,
  )
    where
      side : BookSide M
      side = record { oid_map = clear_at (at b s).oid_map id; price_map = m }

      side_now : at (set_side b s side) s ≡ side
      side_now = at-set_side b s side

  pub remove_order-Gone :
      (b' : Book M) × (remove_order t pm new_order new_level s id o x b ≡ ok b')
      × Gone t pm s id o b b'
  remove_order-Gone =
      let (y, l, at_y, at_l, found) = v.ids s id o known in
      let same : y ≡ x = some-injective (sym at_y ∙ there) in
      let level : b.levels x.parent ≡ some l = subst (λ x. b.levels x.parent ≡ some l) same at_l in
      let leads : pm.find (at b s).price_map l.price ≡ some x.parent =
        subst (λ x. pm.find (at b s).price_map l.price ≡ some x.parent) same found in
      let (k, at_k, listed) = v.listed o x there in
      let is_l : k ≡ l = some-injective (sym at_k ∙ level) in
      let (ys, erased, d) =
        erase-Erased o l.orders (subst (λ k. contains o k.orders ≡ true) is_l listed) in
      let sound = (v.levels x.parent l level).0 in
      elim (Bool-cases (is_empty ys)) [
        | inl no_orders ↦ (
          _,
          remove_order-emptied t pm new_order new_level b id o x l ys level erased s no_orders,
          removed-Gone l level leads _ _
              (emptied t pm b v s id o x l known there level leads ys d no_orders),
        )
        | inr some_orders ↦ (
          _,
          remove_order-kept t pm new_order new_level b id o x l ys level erased s _ _
              (minus_if-ok t.has_qty l.qty x.qty
                (qty_enough t b.orders x.parent o l x ys sound there d))
              (minus_if-ok t.has_order_count l.order_count 1
                (count_enough t b.orders x.parent o l x ys sound there d))
              some_orders (LevelSound-reduced t b.orders x.parent o l x ys sound there d).counted,
          removed-Gone l level leads _ _
              (kept t pm b v s id o x l known there level leads ys d some_orders),
        )
      ]
