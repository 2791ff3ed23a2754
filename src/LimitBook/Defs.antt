-- ===== src/LimitBook/Defs.antt =====
-- The data of a limit order book (vr/vr_rt/src/vr/market/books/limit_order_book.h and
-- impl/limit_order_book_impl.h). The object pools and the maps of order ids stand by their abstract
-- views: a pool is what `Pool.FreeList.object_at` shows of it, a map what `ScatterTable.Spec.contents`
-- shows. A quantity that would be negative is a fault. Prices are in the
-- book's unit.
use vrt.Base.{
  ℕ, ◌+◌, ◌-◌, ◌%◌, ◌^◌, ◌<◌, ◌≡◌, Bool, true, false, Option, none, some, List, [], ◌∷◌, leb, ltb,
  ◌==◌, if◌then◌else◌, length, ◌≤◌, refl, inl, inr, Bool-cases, arith,
}
use vrt.Base.Run.{Run, ok, fault, ◌>>=◌, assert, valid}
pub use vrt.Base.Store.{Store, set_at, clear_at, Allocator}

pub data MarketSide : Type 0 where
  bid ask : MarketSide

-- `book_order`
pub record Order : Type 0 where
  pub parent : ℕ
  pub qty : ℕ

-- `book_level`; `orders` are the references of its intrusive list, in order
pub record Level : Type 0 where
  pub price : ℕ
  pub qty : ℕ
  pub order_count : ℕ
  pub orders : List ℕ

-- The traits of a level: which aggregate fields it has.
pub record Traits : Type 0 where
  pub has_qty : Bool
  pub has_order_count : Bool

-- boost::intrusive::splay_set of levels, by price: `insert_check` finds the level of a price,
-- `insert_commit` adds one, `erase` takes out the level of a price.
pub record PriceMap (M : Type 0) : Type 0 where
  pub find : M → ℕ → Option ℕ
  pub insert : M → ℕ → ℕ → M
  pub erase : M → ℕ → M
  pub find-insert :
      (m : M) (p r q : ℕ) → find (insert m p r) q ≡ (if q == p then some r else find m q)
  pub find-erase : (m : M) (p q : ℕ) → find (erase m p) q ≡ (if q == p then none else find m q)

-- `book_side`
pub record BookSide (M : Type 0) : Type 0 where
  pub oid_map : Store ℕ
  pub price_map : M

-- `limit_order_book_impl`, with its arena of pools
pub record Book (M : Type 0) : Type 0 where
  pub bids : BookSide M
  pub asks : BookSide M
  pub orders : Store Order
  pub levels : Store Level

module _ {M : Type 0} where
  abbrev pub at : Book M → MarketSide → BookSide M
  at b bid = b.bids
  at b ask = b.asks

  abbrev pub set_side : Book M → MarketSide → BookSide M → Book M
  set_side b s side = record b {
    bids = elim s [ bid ↦ side | ask ↦ b.bids ];
    asks = elim s [ bid ↦ b.asks | ask ↦ side ];
  }

  -- `book_side::eq_price`
  unfoldable pub eq_price : PriceMap M → Book M → MarketSide → ℕ → Run (Option Level)
  eq_price pm b s price = elim (pm.find (at b s).price_map price) [
    | none ↦ ok none
    | some r ↦ do l ← valid (b.levels r); ok (some l)
  ]

-- `book_level::comparator`: bids from the highest price on, asks from the lowest.
unfoldable pub before : MarketSide → ℕ → ℕ → Bool
before bid lhs rhs = ltb rhs lhs
before ask lhs rhs = ltb lhs rhs

-- `calc_sum` of the orders of a level
unfoldable pub calc_sum : Store Order → List ℕ → Run ℕ
calc_sum orders [] = ok 0
calc_sum orders (r ∷ rs) = do o ← valid (orders r); sum ← calc_sum orders rs; ok (o.qty + sum)

-- `-=` of a quantity
unfoldable pub minus : ℕ → ℕ → Run ℕ
minus a b = if leb b a then ok (a - b) else fault

-- A quantity that is stored in a `qty_t`, an `int32_t` (vr/vr_rt/src/vr/market/defs.h): its low 32 bits,
-- and a fault if these are a negative number.
unfoldable pub narrow : ℕ → Run ℕ
narrow n = if ltb (n % 2 ^ 32) (2 ^ 31) then ok (n % 2 ^ 32) else fault

-- `erase` of an intrusive list: the node must be in it.
unfoldable pub erase : ℕ → List ℕ → Run (List ℕ)
erase r [] = fault
erase r (x ∷ xs) = let rest = (do ys ← erase r xs; ok (x ∷ ys)) in if x == r then ok xs else rest

abbrev pub is_empty : List ℕ → Bool
is_empty [] = true
is_empty (x ∷ xs) = false

-- `front`
unfoldable pub front : List ℕ → Run ℕ
front [] = fault
front (x ∷ xs) = ok x

-- Aggregate fields that the traits leave out are 0.
abbrev pub if_qty : Traits → ℕ → ℕ
if_qty t n = if t.has_qty then n else 0

abbrev pub if_count : Traits → ℕ → ℕ
if_count t n = if t.has_order_count then n else 0

-- The debug assertion on the count of a level.
unfoldable pub assert_count : Traits → Level → Run (Unit {0})
assert_count t l = if t.has_order_count then assert (l.order_count == length l.orders) else ok tt

pub narrow-fits : (n : ℕ) → n < 2 ^ 31 → narrow n ≡ ok n
unfolding narrow
narrow-fits n h =
    let low : n % 2 ^ 32 ≡ n = omega arith in
    let test : ltb n (2 ^ 31) ≡ true = ground arith in rw low (rw test refl)

pub if_qty-le : (t : Traits) (n : ℕ) → if_qty t n ≤ n
if_qty-le t n = elim (Bool-cases t.has_qty) [
  | inl e ↦ rw e (omega arith)
  | inr e ↦ rw e (omega arith)
]
