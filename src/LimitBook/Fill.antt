-- ===== src/LimitBook/Fill.antt =====
-- `order_fill` and `order_delete` in a sound book.
use vrt.Base.{
  ℕ, ◌-◌, ◌≡◌, ◌≢◌, ◌≤◌, ◌<◌, ◌⊎◌, refl, ◌∙◌, inl, inr, true, false, none, some, List, ◌==◌, leb,
  ltb, Bool-cases, Option-cases, arith,
}
use vrt.Base.Run.{ok}
use vrt.LimitBook.Defs.{
  MarketSide, Store, Order, Level, Traits, set_at, Allocator, PriceMap, Book, at, minus,
}
use vrt.LimitBook.Listener.{Message, order_fill, order_delete}
use vrt.LimitBook.Sound.{Sound}
use vrt.LimitBook.Erased.{Erased, erase-Erased, qty_enough}
use vrt.LimitBook.Filled.{at_parent, less, partly, partly-Sound}
use vrt.LimitBook.Add.{assert_count-counted}
use vrt.LimitBook.Remove.{Gone, remove_order-Gone, remove_order-cleared, minus-ok}

-- What a partial fill by `q` leaves behind: a sound book with the order's quantity less by `q`, and
-- with the other orders and both sides' maps as they were.
abbrev pub Filled :
    {M : Type 0} → Traits → PriceMap M → (o q : ℕ) → Order → Book M → Book M → Type 0
Filled t pm o q x b b' =
    Sound t pm b'
    × (b'.orders o ≡ some (record x { qty = x.qty - q }))
    × ((j : ℕ) → j ≢ o → b'.orders j ≡ b.orders j)
    × (b'.bids ≡ b.bids)
    × (b'.asks ≡ b.asks)

module _ {M : Type 0} (t : Traits) (pm : PriceMap M) (new_order : Allocator Order)
    (new_level : Allocator Level) where
  module _ (b : Book M) (v : Sound t pm b) (s : MarketSide) (id o price q : ℕ) (x : Order)
      (known : (at b s).oid_map id ≡ some o) (there : b.orders o ≡ some x) (some_qty : 0 < q)
      (part : q < x.qty) where
    abbrev message : Message
    message = record { side = s; oid = id; price = price; qty = q }

    module _ (l : Level) (level : b.levels x.parent ≡ some l) (ys : List ℕ)
        (d : Erased o l.orders ys) where
      at_most : q ≤ x.qty
      at_most = omega arith

      abbrev now : Level
      now = less t pm b v o q x l ys there level d at_most

      part-Filled :
          (levels : Store Level) (at_level : levels x.parent ≡ some now)
          (at_others : (r : ℕ) → r ≢ x.parent → levels r ≡ b.levels r)
          → Filled t pm o q x b
              (partly t pm b v o q x l ys there level d at_most levels at_level at_others)
      part-Filled levels at_level at_others = (
        partly-Sound t pm b v o q x l ys there level d at_most levels at_level at_others,
        rw itself refl,
        other,
        refl,
        refl,
      )
        where
          itself : o == o ≡ true
          itself = ground arith

          other : (j : ℕ) → j ≢ o → set_at b.orders o (record x { qty = x.qty - q }) j ≡ b.orders j
          other j ne = let test : j == o ≡ false = ground arith in rw test refl

      run_partly :
          (b' : Book M) × (order_fill t pm new_order new_level message b ≡ ok b')
          × Filled t pm o q x b b'
      unfolding order_fill
      run_partly =
          let positive : ltb 0 q ≡ true = ground arith in
          let parent_is_parent : x.parent == x.parent ≡ true = ground arith in
          let not_all : leb x.qty q ≡ false = ground arith in
          elim (Bool-cases t.has_qty) [
            | inl h ↦
                let enough =
                  qty_enough t b.orders x.parent o l x ys
                    (at_parent t pm b v o q x l ys there level d at_most) there d h in
                let counted = (v.levels x.parent l level).0.counted in
                let takes : minus l.qty q ≡ ok (l.qty - q) = minus-ok l.qty q (omega arith) in
                (
                  _,
                  rw (positive, known, there, not_all, h, level)
                      (rw takes
                        (rw (assert_count-counted t (record l { qty = l.qty - q }) counted) refl)),
                  part-Filled (set_at b.levels x.parent (record l { qty = l.qty - q }))
                      (rw parent_is_parent (rw h refl))
                      (λ r ne. let test : r == x.parent ≡ false = ground arith in rw test refl),
                )
            | inr h ↦ (
              _,
              rw (positive, known, there, not_all, h) refl,
              part-Filled b.levels (rw h level) (λ r ne. refl),
            )
          ]

  module _ (b : Book M) (v : Sound t pm b) (msg : Message) where
    -- An order of the book that the message names.
    abbrev Named : Type 0
    Named =
        (o : ℕ) × (x : Order) × ((at b (msg.side)).oid_map (msg.oid) ≡ some o)
        × (b.orders o ≡ some x)

    -- The message's id is unknown, or leads to an order.
    lookup : ((at b (msg.side)).oid_map (msg.oid) ≡ none) ⊎ Named
    lookup = elim (Option-cases ((at b (msg.side)).oid_map (msg.oid))) [
      | inl unknown ↦ inl unknown
      | inr (o, known) ↦
          let (x, _, there, _, _) = v.ids (msg.side) (msg.oid) o known in inr (o, x, known, there)
    ]

    -- In a sound book, a delete of an unknown id changes nothing; one of a known id ends in a sound book
    -- without that order and that id, in which every other order, every other id of the side and the
    -- maps of the other side are as they were. It neither throws nor faults.
    pub order_delete-Gone :
        (b' : Book M) × (order_delete t pm new_order new_level msg b ≡ ok b')
        × ((((at b (msg.side)).oid_map (msg.oid) ≡ none) × (b' ≡ b))
            ⊎ ((o : ℕ) × ((at b (msg.side)).oid_map (msg.oid) ≡ some o)
                × Gone t pm (msg.side) (msg.oid) o b b'))
    unfolding order_delete
    order_delete-Gone = elim lookup [
      | inl unknown ↦ (b, rw (order_delete, unknown) refl, inl (unknown, refl))
      | inr (o, x, known, there) ↦
          let (b', run, gone) =
            remove_order-Gone t pm new_order new_level b v (msg.side) (msg.oid) o x known there in
          (
            b',
            rw (order_delete, known, there)
                (remove_order-cleared t pm new_order new_level (msg.side) (msg.oid) o x b ∙ run),
            inr (o, known, gone),
          )
    ]

    -- In a sound book, a fill by more than 0 of an unknown id changes nothing; one of a known id by the
    -- order's quantity or more removes the order as a delete does; one by less ends in a sound book in
    -- which that order's quantity is less by the fill's, and the other orders and all maps are as they
    -- were. It neither throws nor faults.
    pub order_fill-Filled :
        0 < msg.qty
        → (b' : Book M) × (order_fill t pm new_order new_level msg b ≡ ok b')
          × ((((at b (msg.side)).oid_map (msg.oid) ≡ none) × (b' ≡ b))
              ⊎ ((o : ℕ) × (x : Order) × ((at b (msg.side)).oid_map (msg.oid) ≡ some o)
                  × (b.orders o ≡ some x)
                  × (((x.qty ≤ msg.qty) × Gone t pm (msg.side) (msg.oid) o b b')
                      ⊎ ((msg.qty < x.qty) × Filled t pm o (msg.qty) x b b'))))
    unfolding order_fill
    order_fill-Filled some_qty =
        let positive : ltb 0 (msg.qty) ≡ true = ground arith in
        elim lookup [
          | inl unknown ↦ (b, rw (positive, unknown) refl, inl (unknown, refl))
          | inr (o, x, known, there) ↦ elim (Bool-cases (leb x.qty (msg.qty))) [
            | inl all ↦
                let (b', run, gone) =
                  remove_order-Gone t pm new_order new_level b v (msg.side) (msg.oid) o x known
                    there in
                (
                  b',
                  rw (positive, known, there, all) run,
                  inr (o, x, known, there, inl (ground arith, gone)),
                )
            | inr not_all ↦
                let part : msg.qty < x.qty = ground arith in
                let (l, level, listed) = v.listed o x there in
                let (ys, _, d) = erase-Erased o l.orders listed in
                let (b', run, filled) =
                  run_partly b v (msg.side) (msg.oid) o (msg.price) (msg.qty) x known there some_qty
                    part l level ys d in
                (b', run, inr (o, x, known, there, inr (part, filled)))
          ]
        ]
