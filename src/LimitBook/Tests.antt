-- ===== src/LimitBook/Tests.antt =====
-- A small book of vr/vr_rt/src/vr/market/books, on which the theorems apply.
use mathlib.Core.Path.{subst}
use vrt.Base.{
  is_some, ℕ, ◌≡◌, ◌≤◌, ◌<◌, ◌⊎◌, ◌∙◌, ◌≢◌, refl, sym, ap, true, false, Option, none, some, [], ◌∷◌,
  ◌==◌, if◌then◌else◌, contains, arith, Bool-cases, inl, inr,
}
use vrt.Base.Run.{Run, ok, fault}
use vrt.LimitBook.Sides.{flip}
use vrt.LimitBook.Defs.{
  MarketSide, bid, ask, Order, Level, Traits, Store, set_at, clear_at, Allocator, PriceMap,
  BookSide, Book, at, is_empty,
}
use vrt.LimitBook.Listener.{Message, order_add, order_replace, order_delete, order_fill}
use vrt.LimitBook.Remove.{Gone}
use vrt.LimitBook.Fill.{Filled, order_delete-Gone, order_fill-Filled}
use vrt.LimitBook.Sound.{Sound, LevelSound, none≢some, some-injective}
use vrt.LimitBook.Add.{Entered, order_add-Entered}
use vrt.LimitBook.Replace.{order_replace-new_price}
use vrt.LimitBook.SideChecker.{check_book, check_book-Sound}

abbrev full_traits : Traits
full_traits = record { has_qty = true; has_order_count = true }

abbrev price_maps : PriceMap (Store ℕ)
price_maps = record {
  find = λ m p. m p;
  insert = set_at;
  erase = clear_at;
  find-insert = λ m p r q. refl;
  find-erase = λ m p q. refl;
}

-- A pool of two slots gives the first one that is free.
abbrev pick_of_two : {A : Type 0} → Store A → Run ℕ
pick_of_two s = elim (s 0) [ none ↦ ok 0 | some _ ↦ elim (s 1) [ none ↦ ok 1 | some _ ↦ fault ] ]

pick_free_of :
    {A : Type 0} (s : Store A) (r : ℕ) (first second : Option A)
    → s 0 ≡ first
    → s 1 ≡ second
    → elim first [ none ↦ ok 0 | some _ ↦ elim second [ none ↦ ok 1 | some _ ↦ fault ] ] ≡ ok r
    → s r ≡ none
pick_free_of s r none second e f h = let same : 0 ≡ r = cc in subst (λ r. s r ≡ none) same e
pick_free_of s r (some a) none e f h = let same : 1 ≡ r = cc in subst (λ r. s r ≡ none) same f
pick_free_of s r (some a) (some c) e f h = cc

abbrev two_slots : {A : Type 0} → Allocator A
two_slots = record {
  pick = pick_of_two;
  pick_free = λ s r h. pick_free_of s r (s 0) (s 1) refl refl h;
}

abbrev first_order : Order
first_order = record { parent = 0; qty = 5 }

abbrev first_level : Level
first_level = record { price = 10; qty = 5; order_count = 1; orders = 0 ∷ [] }

abbrev only : {A : Type 0} → ℕ → A → Store A
only r a i = if i == r then some a else none

abbrev nothing : BookSide (Store ℕ)
nothing = record { oid_map = λ _. none; price_map = λ _. none }

-- A bid of 5 at the price 10, with the id 7.
abbrev one_bid : Book (Store ℕ)
one_bid = record {
  bids = record { oid_map = only 7 0; price_map = only 10 0 };
  asks = nothing;
  orders = only 0 first_order;
  levels = only 0 first_level;
}

only-eq_some :
    {A : Type 0} (r : ℕ) (a : A) (i : ℕ) (c : A) → only r a i ≡ some c → (i ≡ r) × (a ≡ c)
only-eq_some r a i c e = elim (Bool-cases (i == r)) [
  | inl q ↦ (ground arith, some-injective (rw q at e))
  | inr q ↦ absurd (none≢some refl (rw q at e))
]

one_bid-Sound : Sound full_traits price_maps one_bid
one_bid-Sound = record {
  levels = λ r l e.
      let (q, same) = only-eq_some 0 first_level r l e in
      subst (λ l. LevelSound full_traits one_bid.orders r l × (is_empty l.orders ≡ false)) same
        (
          subst (λ r. LevelSound full_traits one_bid.orders r first_level) (sym q)
              (record {
                counted = refl;
                summed = refl;
                children = ((first_order, refl, refl), tt);
                distinct = (tt, tt);
              }),
          refl,
        );
  listed = λ o x e.
      let (q, same) = only-eq_some 0 first_order o x e in
      subst (λ x. (l : Level) × (one_bid.levels x.parent ≡ some l) × (contains o l.orders ≡ true))
        same (first_level, refl, ground arith);
  priced = by_price;
  ids = by_id;
  unique = by_unique;
  no_common_order = apart;
  no_common_level = levels_apart;
}
  where
    by_price :
        (s : MarketSide) (p r : ℕ)
        → (at one_bid s).price_map p ≡ some r
        → (l : Level) × (one_bid.levels r ≡ some l) × (l.price ≡ p)
    by_price bid p r e =
        let (q, same) = only-eq_some 10 0 p r e in (first_level, rw (sym same) refl, sym q)
    by_price ask p r e = absurd (none≢some refl e)

    by_id :
        (s : MarketSide) (i o : ℕ)
        → (at one_bid s).oid_map i ≡ some o
        → (x : Order) × (l : Level) × (one_bid.orders o ≡ some x)
          × (one_bid.levels x.parent ≡ some l)
          × ((at one_bid s).price_map l.price ≡ some x.parent)
    by_id bid i o e =
        let (q, same) = only-eq_some 7 0 i o e in
        (first_order, first_level, rw (sym same) refl, refl, refl)
    by_id ask i o e = absurd (none≢some refl e)

    by_unique :
        (s : MarketSide) (i j o : ℕ)
        → (at one_bid s).oid_map i ≡ some o
        → (at one_bid s).oid_map j ≡ some o
        → i ≡ j
    by_unique bid i j o e f = (only-eq_some 7 0 i o e).0 ∙ sym (only-eq_some 7 0 j o f).0
    by_unique ask i j o e f = absurd (none≢some refl e)

    apart :
        (s : MarketSide) (i j o : ℕ)
        → (at one_bid s).oid_map i ≡ some o
        → (at one_bid (flip s)).oid_map j ≢ some o
    apart bid i j o e f = none≢some refl f
    apart ask i j o e f = none≢some refl e

    levels_apart :
        (s : MarketSide) (p q r : ℕ)
        → (at one_bid s).price_map p ≡ some r
        → (at one_bid (flip s)).price_map q ≢ some r
    levels_apart bid p q r e f = none≢some refl f
    levels_apart ask p q r e f = none≢some refl e

order_add-Entered_example :
    (b' : Book (Store ℕ)) × (order_add full_traits price_maps two_slots two_slots
        (record { side = bid; oid = 8; price = 10; qty = 3 })
        one_bid
      ≡ ok b')
    × Entered full_traits price_maps bid 8 1 10 3 b'
order_add-Entered_example =
    order_add-Entered full_traits price_maps two_slots two_slots one_bid one_bid-Sound bid 8 1 1 10
      3 refl refl refl (omega arith)
      (λ j k at_j at_k.
        let (_, at_zero) = only-eq_some 10 0 10 j at_j in
        let (_, is_first) = only-eq_some 0 first_level j k at_k in
        let five : k.qty ≡ 5 = ap (λ (k : Level). k.qty) (sym is_first) in omega arith)

abbrev delete_first : Message
delete_first = record { side = bid; oid = 7; price = 0; qty = 0 }

order_delete-Gone_example :
    (b' : Book (Store ℕ)) × (order_delete full_traits price_maps two_slots two_slots delete_first
        one_bid
      ≡ ok b')
    × (((one_bid.bids.oid_map 7 ≡ none) × (b' ≡ one_bid))
        ⊎ ((o : ℕ) × (one_bid.bids.oid_map 7 ≡ some o)
            × Gone full_traits price_maps bid 7 o one_bid b'))
order_delete-Gone_example =
    order_delete-Gone full_traits price_maps two_slots two_slots one_bid one_bid-Sound delete_first

abbrev fill_first : Message
fill_first = record { side = bid; oid = 7; price = 10; qty = 2 }

order_fill-Filled_example :
    (b' : Book (Store ℕ)) × (order_fill full_traits price_maps two_slots two_slots fill_first
        one_bid
      ≡ ok b')
    × (((one_bid.bids.oid_map 7 ≡ none) × (b' ≡ one_bid))
        ⊎ ((o : ℕ) × (x : Order) × (one_bid.bids.oid_map 7 ≡ some o)
            × (one_bid.orders o ≡ some x)
            × (((x.qty ≤ 2) × Gone full_traits price_maps bid 7 o one_bid b')
                ⊎ ((2 < x.qty) × Filled full_traits price_maps o 2 x one_bid b'))))
order_fill-Filled_example =
    order_fill-Filled full_traits price_maps two_slots two_slots one_bid one_bid-Sound fill_first
      (omega arith)

order_replace-new_price_example :
    (b' : Book (Store ℕ)) × (l : Level) × (order_replace full_traits price_maps two_slots two_slots
        (record { side = bid; oid = 7; price = 11; qty = 6 })
        one_bid
      ≡ ok b')
    × (b'.levels 1 ≡ some l)
    × (l.orders ≡ [])
    × (l.order_count ≡ 0)
    × ((j : ℕ) → j ≢ 1 → b'.levels j ≡ one_bid.levels j)
    × (b'.orders 0 ≡ some (record { parent = 1; qty = 6 }))
order_replace-new_price_example =
    order_replace-new_price full_traits price_maps two_slots two_slots one_bid bid 7 0 1 11 6
      first_order refl refl refl refl (omega arith) (omega arith)

check_book-Sound_example :
    check_book full_traits price_maps one_bid
      (λ r. is_some (one_bid.levels r))
      (0 ∷ [])
      []
      (some 1)
      (some 0)
    ≡ ok 1
check_book-Sound_example =
    check_book-Sound full_traits price_maps one_bid (λ r. is_some (one_bid.levels r)) one_bid-Sound
      (λ r. refl) true (0 ∷ []) []
      (record {
        complete = λ p r e. let (_, zero_r) = only-eq_some 10 0 p r e in ground (arith, zero_r);
        members = ((10, refl), tt);
        sorted = (first_level, refl, tt, tt);
      })
      (record { complete = λ p r e. absurd (none≢some refl e); members = tt; sorted = tt })
