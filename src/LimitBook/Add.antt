-- ===== src/LimitBook/Add.antt =====
-- `order_add` keeps a book sound.
use mathlib.Core.Bool.{false≢true}
use vrt.Base.{
  ℕ, ◌+◌, ◌^◌, ◌<◌, ◌≡◌, refl, sym, ap, ◌∙◌, inl, inr, true, false, none, some, Option-cases, List,
  [], ◌∷◌, ◌==◌, length, All, Bool-cases, arith,
}
use vrt.Base.Run.{Run, ok}
use vrt.LimitBook.Sides.{set_at-twice, set_side-twice, at-set_side}
use vrt.LimitBook.Defs.{
  MarketSide, bid, ask, Store, BookSide, Order, Level, Traits, set_at, Allocator, PriceMap, Book,
  at, set_side, is_empty, front, if_qty, if_count, assert_count, narrow-fits, if_qty-le,
}
use vrt.LimitBook.Listener.{Message, add_to_level, order_add}
use vrt.LimitBook.Sound.{Sound, LevelSound, Child, LevelSound-push}
use vrt.LimitBook.Targets.{no_orders, new_target, old_target}
use vrt.LimitBook.Added.{Target, added, added-Sound}

-- What a new order leaves behind: a sound book in which its id leads to it and its parent to a level
-- of its price.
abbrev pub Entered :
    {M : Type 0} → Traits → PriceMap M → MarketSide → (i o p q : ℕ) → Book M → Type 0
Entered t pm s i o p q b' =
    Sound t pm b'
    × ((at b' s).oid_map i ≡ some o)
    × (x : Order) × (b'.orders o ≡ some x)
    × (x.qty ≡ q)
    × (l : Level) × (b'.levels x.parent ≡ some l)
    × (l.price ≡ p)

pub assert_count-counted :
    (t : Traits) (l : Level)
    → l.order_count ≡ if_count t (length l.orders)
    → assert_count t l ≡ ok tt
unfolding assert_count
assert_count-counted t l e = elim (Bool-cases t.has_order_count) [
  | inl c ↦
      let test : l.order_count == length l.orders ≡ true = ground (arith, rw c at e) in
      rw c (rw test refl)
  | inr c ↦ rw c refl
]

module _ {M : Type 0} (t : Traits) (pm : PriceMap M) (new_order : Allocator Order)
    (new_level : Allocator Level) (b : Book M) (v : Sound t pm b) (i o r p q : ℕ)
    (pick_order : new_order.pick b.orders ≡ ok o) (narrow_qty : q < 2 ^ 31) where
  abbrev message : MarketSide → Message
  message s = record { side = s; oid = i; price = p; qty = q }

  fresh_order : b.orders o ≡ none
  fresh_order = new_order.pick_free b.orders o pick_order

  abbrev child : ℕ → Order
  child parent = record { parent = parent; qty = q }

  add_to_level-new :
      (b : Book M) (s : MarketSide)
      → new_level.pick b.levels ≡ ok r
      → pm.find (at b s).price_map p ≡ none
      → add_to_level t pm new_order new_level b s p q
        ≡ ok (
          (r, r),
          record (set_side b s (record (at b s) { price_map = pm.insert (at b s).price_map p r })) {
            levels =
                set_at b.levels r
                  (record { price = p; qty = if_qty t q; order_count = if_count t 1; orders = [] });
          },
        )
  unfolding add_to_level
  add_to_level-new b s pick_level none_there =
      rw (add_to_level, none_there, pick_level)
        (rw (narrow-fits (if_qty t q) (omega (if_qty-le t q, narrow_qty, arith))) refl)

  abbrev side_with_id : MarketSide → BookSide M
  side_with_id s = record (at b s) { oid_map = set_at (at b s).oid_map i o }

  abbrev with_id : MarketSide → Book M
  with_id s = set_side b s (side_with_id s)

  -- The order is the first of a new level.
  add_new :
      (s : MarketSide) (pick_level : new_level.pick b.levels ≡ ok r)
      (none_there : pm.find (at b s).price_map p ≡ none)
      → (at b s).oid_map i ≡ none
      → order_add t pm new_order new_level (message s) b
        ≡ ok (
            added t pm b v s i o
              (child r)
              (no_orders p)
              (pm.insert (at b s).price_map p r)
              fresh_order
              (new_target t pm b v s p r new_level pick_level none_there))
  unfolding order_add
  add_new s pick_level none_there no_id =
      let there =
        ap (λ side. pm.find side.price_map p) (at-set_side b s (side_with_id s)) ∙ none_there in
      rw (pick_order, no_id)
        (rw (add_to_level-new (with_id s) s pick_level there) (
          rw (narrow-fits q narrow_qty, itself)
            (rw (assert_count-counted t first_level refl) (
              ap (λ side. finish (set_side (with_id s) s (priced side)) unlisted)
                (at-set_side b s (side_with_id s))
              ∙ ap (λ b'. finish b' unlisted)
                  (set_side-twice b s (side_with_id s) (priced (side_with_id s)))
              ∙ ap (finish (set_side b s (priced (side_with_id s)))) levels))))
    where
      itself : r == r ≡ true
      itself = ground arith

      first_level : Level
      first_level = record {
        price = p;
        qty = if_qty t q;
        order_count = if_count t 1;
        orders = o ∷ [];
      }

      priced : BookSide M → BookSide M
      priced side = record side { price_map = pm.insert side.price_map p r }

      unlisted : Store Level
      unlisted = set_at (set_at b.levels r (record first_level { orders = [] })) r first_level

      finish : Book M → Store Level → Run (Book M)
      finish b' levels = ok (record b' { orders = set_at b.orders o (child r); levels = levels })

      levels :
          set_at (set_at b.levels r (record first_level { orders = [] })) r first_level
          ≡ set_at b.levels r (record {
            price = p;
            qty = if_qty t (0 + q);
            order_count = if_count t (0 + 1);
            orders = o ∷ [];
          })
      levels =
          let e : q ≡ 0 + q = omega arith in
          set_at-twice b.levels r (record first_level { orders = [] }) first_level ∙ rw (sym e) refl

  first-Child :
      (k : Level) (rest : List ℕ)
      → k.orders ≡ rest
      → is_empty rest ≡ false
      → All (Child b.orders r) rest
      → (f : ℕ) × (y : Order) × (front k.orders ≡ ok f) × (b.orders f ≡ some y) × (y.parent ≡ r)
  unfolding front
  first-Child k [] e some_orders c = absurd (false≢true (sym some_orders))
  first-Child k (f ∷ fs) e some_orders ((y, at_y, par), _) = (f, y, rw e refl, at_y, par)

  module _ (k : Level) (at_k : b.levels r ≡ some k) (priced : k.price ≡ p)
      (narrow_sum : k.qty + q < 2 ^ 31) where
    add_to_level-old :
        (b' : Book M) (s : MarketSide)
        → b'.levels ≡ b.levels
        → b'.orders ≡ b.orders
        → pm.find (at b' s).price_map p ≡ some r
        → add_to_level t pm new_order new_level b' s p q
          ≡ ok (
            (r, r),
            record b' {
              levels = set_at b'.levels r (record k {
                qty = if_qty t (k.qty + q);
                order_count = if_count t (k.order_count + 1);
              });
            },
          )
    unfolding add_to_level
    add_to_level-old b' s levels orders there =
        let (sound, some_orders) = v.levels r k at_k in
        let (f, y, first, at_y, par) = first-Child k k.orders refl some_orders sound.children in
        let test : k.price == p ≡ true = ground arith in
        rw (add_to_level, there)
          (rw (levels, at_k)
            (rw
              (
                test,
                narrow-fits (if_qty t (k.qty + q))
                    (omega (if_qty-le t (k.qty + q), narrow_sum, arith)),
              )
              (rw first (rw (orders, at_y) (rw par refl)))))

    -- The order goes in front of a level that is there.
    add_old :
        (s : MarketSide) (there : pm.find (at b s).price_map p ≡ some r)
        → (at b s).oid_map i ≡ none
        → order_add t pm new_order new_level (message s) b
          ≡ ok (
              added t pm b v s i o
                (child r)
                k
                (at b s).price_map
                fresh_order
                (old_target t pm b v s p r k at_k priced there))
    unfolding order_add
    add_old s there no_id =
        let found =
          ap (λ side. pm.find side.price_map p) (at-set_side b s (side_with_id s)) ∙ there in
        let finish : Store Level → Run (Book M) = λ levels.
          ok (record (with_id s) { orders = set_at b.orders o (child r); levels = levels }) in
        rw (pick_order, no_id)
          (rw (add_to_level-old (with_id s) s refl refl found) (
            rw (narrow-fits q narrow_qty, itself)
              (rw (assert_count-counted t longer pushes.counted) (
                ap finish (set_at-twice b.levels r (record longer { orders = k.orders }) longer)))))
      where
        itself : r == r ≡ true
        itself = ground arith

        longer : Level
        longer = record k {
          qty = if_qty t (k.qty + q);
          order_count = if_count t (k.order_count + 1);
          orders = o ∷ k.orders;
        }

        pushes : LevelSound t (set_at b.orders o (child r)) r longer
        pushes = LevelSound-push b.orders o (child r) fresh_order t r k refl (v.levels r k at_k).0

  entered :
      (s : MarketSide) (j : ℕ) (l : Level) (m : M) (target : Target t pm b v s j l m)
      → l.price ≡ p
      → Entered t pm s i o p q (added t pm b v s i o (child j) l m fresh_order target)
  entered s j l m target same = (
    added-Sound t pm b v s i o (child j) l m fresh_order target,
    elim s
        as (λ s.
          (at (set_side b s (record { oid_map = set_at (at b s).oid_map i o; price_map = m }))
              s).oid_map
            i
          ≡ some o) [ bid ↦ rw i_is_i refl | ask ↦ rw i_is_i refl ],
    child j,
    rw o_is_o refl,
    refl,
    record l {
      qty = if_qty t (l.qty + q);
      order_count = if_count t (l.order_count + 1);
      orders = o ∷ l.orders;
    },
    rw j_is_j refl,
    same,
  )
    where
      i_is_i : i == i ≡ true
      i_is_i = ground arith

      o_is_o : o == o ≡ true
      o_is_o = ground arith

      j_is_j : j == j ≡ true
      j_is_j = ground arith

-- In a sound book, with room in both pools, an order with a new id is added, if its quantity, and its
-- sum with that of the level of its price, is in the range of an `int32_t`: the book stays sound, the id
-- leads to the order with its quantity, and its parent is a level of its price.
pub order_add-Entered :
    {M : Type 0} (t : Traits) (pm : PriceMap M) (new_order : Allocator Order)
    (new_level : Allocator Level) (b : Book M) (v : Sound t pm b) (s : MarketSide) (i o r p q : ℕ)
    (pick_order : new_order.pick b.orders ≡ ok o)
    → new_level.pick b.levels ≡ ok r
    → (at b s).oid_map i ≡ none
    → q < 2 ^ 31
    → ((j : ℕ) (k : Level)
        → pm.find (at b s).price_map p ≡ some j
        → b.levels j ≡ some k
        → k.qty + q < 2 ^ 31)
    → (b' : Book M) × (order_add t pm new_order new_level
          (record { side = s; oid = i; price = p; qty = q })
          b
        ≡ ok b')
      × Entered t pm s i o p q b'
order_add-Entered t pm new_order new_level b v s i o r p q pick_order pick_level no_id small sums =
    elim (Option-cases (pm.find (at b s).price_map p)) [
      | inl none_there ↦ (
        _,
        add_new t pm new_order new_level b v i o r p q pick_order small s pick_level none_there
            no_id,
        entered t pm new_order new_level b v i o r p q pick_order small s r _ _
            (new_target t pm b v s p r new_level pick_level none_there) refl,
      )
      | inr (r', there) ↦
          let (k, at_k, same) = v.priced s p r' there in
          (
            _,
            add_old t pm new_order new_level b v i o r' p q pick_order small k at_k same
                (sums r' k there at_k) s there no_id,
            entered t pm new_order new_level b v i o r' p q pick_order small s r' k
                (at b s).price_map (old_target t pm b v s p r' k at_k same there) same,
          )
    ]
