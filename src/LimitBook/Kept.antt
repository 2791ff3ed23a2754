-- ===== src/LimitBook/Kept.antt =====
-- A book without an order whose level keeps others.
use native.Mathlib.Decide.{ℕ_discrete}
use mathlib.Core.Path.{subst}
use vrt.Base.{ℕ, ◌≡◌, ◌≢◌, refl, sym, ap, ◌∙◌, true, false, some, List, ◌==◌, contains, arith}
use vrt.LimitBook.Sides.{flip}
use vrt.LimitBook.Defs.{
  MarketSide, Order, Level, Traits, set_at, clear_at, PriceMap, Book, at, is_empty,
}
use vrt.LimitBook.Sound.{Sound, LevelSound, some-injective}
use vrt.LimitBook.Erased.{Erased, Erased-contains, LevelSound-reduced, reduced}
use vrt.LimitBook.Removed.{Rest, other_level}

module _ {M : Type 0} (t : Traits) (pm : PriceMap M) (b : Book M) (v : Sound t pm b)
    (s : MarketSide) (id o : ℕ) (x : Order) (l : Level) (known : (at b s).oid_map id ≡ some o)
    (there : b.orders o ≡ some x) (level : b.levels x.parent ≡ some l)
    (leads : pm.find (at b s).price_map l.price ≡ some x.parent) where
  module _ (ys : List ℕ) (d : Erased o l.orders ys) where
    abbrev pub at_parent : LevelSound t b.orders x.parent l
    at_parent = (v.levels x.parent l level).0

    -- The order's level keeps its other orders.
    pub kept :
        is_empty ys ≡ false
        → Rest t pm b v s id o x l known there level leads
            (set_at b.levels x.parent (reduced t b.orders x.parent o l x ys at_parent there d))
            (at b s).price_map
    kept some_orders = record {
      sound = sound;
      lists = lists;
      finds = λ p r e. let (k, at_k, same) = price s p r e in (e, k, at_k, same);
      keeps = λ r k e found. found;
      others = price (flip s);
    }
      where
        l' : Level
        l' = reduced t b.orders x.parent o l x ys at_parent there d

        sound :
            (r : ℕ) (k : Level)
            → set_at b.levels x.parent l' r ≡ some k
            → LevelSound t (clear_at b.orders o) r k × (is_empty k.orders ≡ false)
        sound r k e = elim (ℕ_discrete r x.parent) [
          | yes q ↦
              let test : r == x.parent ≡ true = ground arith in
              let same : l' ≡ k = some-injective (rw test at e) in
              subst (λ k. LevelSound t (clear_at b.orders o) r k × (is_empty k.orders ≡ false)) same
                (
                  subst (λ r. LevelSound t (clear_at b.orders o) r l') (sym q)
                      (LevelSound-reduced t b.orders x.parent o l x ys at_parent there d),
                  some_orders,
                )
          | no ne ↦
              let test : r == x.parent ≡ false = ground arith in
              other_level t pm b v s id o x l known there level leads r k ne (rw test at e)
        ]

        lists :
            (j r : ℕ) (k : Level)
            → j ≢ o
            → b.levels r ≡ some k
            → contains j k.orders ≡ true
            → (k' : Level) × (set_at b.levels x.parent l' r ≡ some k')
              × (k'.price ≡ k.price)
              × (contains j k'.orders ≡ true)
        lists j r k ne e c = elim (ℕ_discrete r x.parent) [
          | yes q ↦
              let test : r == x.parent ≡ true = ground arith in
              let same : k ≡ l = some-injective (sym e ∙ ap b.levels q ∙ level) in
              (
                l',
                rw test refl,
                ap (λ k. k.price) (sym same),
                Erased-contains j d ne (subst (λ k. contains j k.orders ≡ true) same c),
              )
          | no other ↦ let test : r == x.parent ≡ false = ground arith in (k, rw test e, refl, c)
        ]

        price :
            (z : MarketSide) (p r : ℕ)
            → pm.find (at b z).price_map p ≡ some r
            → (k : Level) × (set_at b.levels x.parent l' r ≡ some k) × (k.price ≡ p)
        price z p r e =
            let (k, at_k, same) = v.priced z p r e in
            elim (ℕ_discrete r x.parent) [
              | yes q ↦
                  let test : r == x.parent ≡ true = ground arith in
                  let is_l : k ≡ l = some-injective (sym at_k ∙ ap b.levels q ∙ level) in
                  (l', rw test refl, ap (λ k. k.price) (sym is_l) ∙ same)
              | no other ↦
                  let test : r == x.parent ≡ false = ground arith in (k, rw test at_k, same)
            ]
