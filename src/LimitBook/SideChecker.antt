-- ===== src/LimitBook/SideChecker.antt =====
-- The checks of a side and of a book in vr/vr_rt/src/vr/market/books/limit_order_book_checker.h.
use vrt.Base.{
  ℕ, zero, suc, ◌+◌, ◌≡◌, refl, sym, ap, ◌∙◌, All, contains, ltb, some-injective, Bool, true, false,
  Option, none, some, List, [], ◌∷◌, ◌==◌, if◌then◌else◌, length, is_some, arith,
}
use vrt.Base.Run.{Run, ok, invalid_input, ◌>>=◌, ◌>>◌, check, valid}
use vrt.Base.Int.{ℤ, pos, negate, ◌+ℤ◌, ltℤ}
use vrt.LimitBook.Defs.{MarketSide, bid, ask, Level, Traits, PriceMap, Book, at, before}
use vrt.LimitBook.Sound.{Sound}
use vrt.LimitBook.Checker.{check_book_level, check_book_level-LevelSound}

abbrev is_ref : Option ℕ → ℕ → Bool
is_ref none r = false
is_ref (some i) r = i == r

-- `sign (s) * (lhs - rhs)`
unfoldable pub signed_difference : MarketSide → ℕ → ℕ → ℤ
signed_difference bid lhs rhs = pos lhs +ℤ negate rhs
signed_difference ask lhs rhs = pos rhs +ℤ negate lhs

abbrev in_order : MarketSide → Option ℕ → ℕ → Bool
in_order s none px = true
in_order s (some px_prev) px = ltℤ (pos 0) (signed_difference s px_prev px)

abbrev depth_agrees : Option ℕ → ℕ → Bool
depth_agrees none n = true
depth_agrees (some d) n = n == d

-- The count that a price map of these levels keeps.
abbrev pub kept_depth : Bool → List ℕ → Option ℕ
kept_depth const_time_depth rs = if const_time_depth then some (length rs) else none

depth_kept : (c : Bool) (rs : List ℕ) → depth_agrees (kept_depth c rs) (length rs) ≡ true
depth_kept true rs = ground arith
depth_kept false rs = refl

module _ {M : Type 0} (t : Traits) (pm : PriceMap M) (b : Book M) (level_alloc_map : ℕ → Bool) where
  -- The loop over the levels of a side, in the order of its price map.
  unfoldable pub check_levels : MarketSide → List ℕ → (px_prev : Option ℕ) → (lvl_count : ℕ) → Run ℕ
  unfolding check_book_level signed_difference
  check_levels s [] px_prev lvl_count = ok lvl_count
  check_levels s (r ∷ rs) px_prev lvl_count = do
    lvl ← valid (b.levels r)
    check (is_ref (pm.find (at b s).price_map lvl.price) r) invalid_input
    check (in_order s px_prev lvl.price) invalid_input
    qty ← check_book_level t b.orders level_alloc_map lvl
    check_levels s rs (some lvl.price) (lvl_count + 1)

  -- `check_book_side`; `lvls` is the traversal of the price map, and `depth` the count that the map
  -- keeps, if the book's traits ask for it.
  unfoldable pub check_book_side : MarketSide → (lvls : List ℕ) → (depth : Option ℕ) → Run ℕ
  unfolding check_levels
  check_book_side s lvls depth = do
    lvl_count ← check_levels s lvls none 0
    check (depth_agrees depth lvl_count) invalid_input
    ok lvl_count

  -- `check_book`, after the allocation map: the count of the levels of both sides.
  unfoldable pub check_book :
      (bid_lvls ask_lvls : List ℕ) → (bid_depth ask_depth : Option ℕ) → Run ℕ
  unfolding check_book_side
  check_book bid_lvls ask_lvls bid_depth ask_depth = do
    bid_count ← check_book_side bid bid_lvls bid_depth
    ask_count ← check_book_side ask ask_lvls ask_depth
    ok (bid_count + ask_count)

  abbrev Before : MarketSide → Option ℕ → ℕ → Type 0
  Before s none px = Unit
  Before s (some px_prev) px = before s px_prev px ≡ true

  -- Each level is before the next by the comparator of its side.
  abbrev pub InOrder : MarketSide → Option ℕ → List ℕ → Type 0
  InOrder s px_prev [] = Unit
  InOrder s px_prev (r ∷ rs) =
      (l : Level) × (b.levels r ≡ some l) × Before s px_prev l.price × InOrder s (some l.price) rs

  -- What a traversal of the ordered set of a side visits: the levels that are in it, all of them and no
  -- others, in the order of the set's comparator.
  pub record Traversal (s : MarketSide) (rs : List ℕ) : Type 0 where
    pub complete : (p r : ℕ) → pm.find (at b s).price_map p ≡ some r → contains r rs ≡ true
    pub members : All (λ r. (p : ℕ) × (pm.find (at b s).price_map p ≡ some r)) rs
    pub sorted : InOrder s none rs

  positive_difference :
      (lhs rhs : ℕ) → ltb rhs lhs ≡ true → ltℤ (pos 0) (pos lhs +ℤ negate rhs) ≡ true
  positive_difference lhs zero h = ground arith
  positive_difference lhs (suc rhs) h =
      let gap : ltb rhs lhs ≡ true = ground arith in rw gap (ground arith)

  -- The comparator's order is the one that the checker tests.
  Before-in_order :
      (s : MarketSide) (px_prev : Option ℕ) (px : ℕ)
      → Before s px_prev px
      → in_order s px_prev px ≡ true
  unfolding before signed_difference
  Before-in_order s none px h = refl
  Before-in_order bid (some px_prev) px h = positive_difference px_prev px h
  Before-in_order ask (some px_prev) px h = positive_difference px px_prev h

  module _ (v : Sound t pm b) (allocated : (r : ℕ) → level_alloc_map r ≡ is_some (b.levels r)) where
    check_levels-InOrder :
        (s : MarketSide) (rs : List ℕ) (px_prev : Option ℕ) (n : ℕ)
        → All (λ r. (p : ℕ) × (pm.find (at b s).price_map p ≡ some r)) rs
        → InOrder s px_prev rs
        → check_levels s rs px_prev n ≡ ok (n + length rs)
    unfolding check_levels
    check_levels-InOrder s [] px_prev n ms h = let e : n ≡ n + 0 = omega arith in ap ok e
    check_levels-InOrder s (r ∷ rs) px_prev n ((p, leads), ms) (l, at_r, first, rest) =
        let (sound, some_orders) = v.levels r l at_r in
        let (k, at_k, price) = v.priced s p r leads in
        let same : k ≡ l = some-injective (sym at_k ∙ at_r) in
        let found : pm.find (at b s).price_map l.price ≡ some r =
          ap (λ (k : Level). pm.find (at b s).price_map k.price) (sym same)
          ∙ ap (pm.find (at b s).price_map) price
          ∙ leads in
        let bit : level_alloc_map r ≡ true = allocated r ∙ ap is_some at_r in
        let itself : r == r ≡ true = ground arith in
        let e : n + 1 + length rs ≡ n + suc (length rs) = omega arith in
        rw at_r (
          rw found (
            rw itself (
              rw (Before-in_order s px_prev l.price first) (
                rw
                  (check_book_level-LevelSound t b.orders level_alloc_map r l sound some_orders bit)
                  (check_levels-InOrder s rs (some l.price) (n + 1) ms rest ∙ ap ok e)))))

    side_accepted :
        (const_time_depth : Bool) (s : MarketSide) (rs : List ℕ)
        → Traversal s rs
        → check_book_side s rs (kept_depth const_time_depth rs) ≡ ok (length rs)
    unfolding check_book_side
    side_accepted const_time_depth s rs h =
        let e : 0 + length rs ≡ length rs = omega arith in
        rw (check_levels-InOrder s rs none 0 h.members h.sorted)
          (rw e (rw (depth_kept const_time_depth rs) refl))

    -- The checker accepts a sound book, given the allocation map of its levels and, for each side, the
    -- list of the levels of its price map in the order of the comparator: it answers the number of
    -- levels in the two lists.
    pub check_book-Sound :
        (const_time_depth : Bool) (bid_lvls ask_lvls : List ℕ)
        → Traversal bid bid_lvls
        → Traversal ask ask_lvls
        → check_book bid_lvls ask_lvls
            (kept_depth const_time_depth bid_lvls)
            (kept_depth const_time_depth ask_lvls)
          ≡ ok (length bid_lvls + length ask_lvls)
    unfolding check_book
    check_book-Sound const_time_depth bid_lvls ask_lvls hb ha =
        rw (side_accepted const_time_depth bid bid_lvls hb)
          (rw (side_accepted const_time_depth ask ask_lvls ha) refl)
