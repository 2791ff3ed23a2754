-- ===== src/LimitBook/Emptied.antt =====
-- A book without an order that was the last one of its level.
use native.Mathlib.Decide.{ℕ_discrete}
use mathlib.Core.Path.{subst}
use mathlib.Core.Bool.{false≢true}
use vrt.Base.{
  ℕ, ◌≡◌, ◌≢◌, refl, sym, ap, ◌∙◌, inl, inr, true, false, some, List, [], ◌∷◌, ◌==◌, contains,
  Bool-cases, arith,
}
use vrt.LimitBook.Sides.{flip}
use vrt.LimitBook.Defs.{MarketSide, Order, Level, Traits, clear_at, PriceMap, Book, at, is_empty}
use vrt.LimitBook.Sound.{Sound, LevelSound, none≢some, some-injective}
use vrt.LimitBook.Erased.{Erased, Erased-contains}
use vrt.LimitBook.Removed.{Rest, other_level}

module _ {M : Type 0} (t : Traits) (pm : PriceMap M) (b : Book M) (v : Sound t pm b)
    (s : MarketSide) (id o : ℕ) (x : Order) (l : Level) (known : (at b s).oid_map id ≡ some o)
    (there : b.orders o ≡ some x) (level : b.levels x.parent ≡ some l)
    (leads : pm.find (at b s).price_map l.price ≡ some x.parent) where
  module _ (ys : List ℕ) (d : Erased o l.orders ys) where
    -- The order was the last one of its level, which goes.
    pub emptied :
        is_empty ys ≡ true
        → Rest t pm b v s id o x l known there level leads
            (clear_at b.levels x.parent)
            (pm.erase (at b s).price_map l.price)
    emptied no_orders = record {
      sound = sound;
      lists = lists;
      finds = finds;
      keeps = keeps;
      others = others;
    }
      where
        left :
            (r : ℕ) (k : Level)
            → clear_at b.levels x.parent r ≡ some k
            → (r ≢ x.parent) × (b.levels r ≡ some k)
        left r k e = elim (ℕ_discrete r x.parent) [
          | yes q ↦
              let test : r == x.parent ≡ true = ground arith in
              absurd (none≢some refl (rw test at e))
          | no ne ↦ let test : r == x.parent ≡ false = ground arith in (ne, rw test at e)
        ]

        sound :
            (r : ℕ) (k : Level)
            → clear_at b.levels x.parent r ≡ some k
            → LevelSound t (clear_at b.orders o) r k × (is_empty k.orders ≡ false)
        sound r k e =
            let (ne, e') = left r k e in
            other_level t pm b v s id o x l known there level leads r k ne e'

        none_left : (j : ℕ) → contains j ys ≢ true
        none_left j c = none_in ys no_orders c
          where
            none_in : (zs : List ℕ) → is_empty zs ≡ true → contains j zs ≢ true
            none_in [] e c = false≢true c
            none_in (z ∷ zs) e c = false≢true e

        lists :
            (j r : ℕ) (k : Level)
            → j ≢ o
            → b.levels r ≡ some k
            → contains j k.orders ≡ true
            → (k' : Level) × (clear_at b.levels x.parent r ≡ some k')
              × (k'.price ≡ k.price)
              × (contains j k'.orders ≡ true)
        lists j r k ne e c = elim (ℕ_discrete r x.parent) [
          | yes q ↦
              let same : k ≡ l = some-injective (sym e ∙ ap b.levels q ∙ level) in
              absurd (
                none_left j
                  (Erased-contains j d ne (subst (λ k. contains j k.orders ≡ true) same c)))
          | no other ↦ let test : r == x.parent ≡ false = ground arith in (k, rw test e, refl, c)
        ]

        finds :
            (p r : ℕ)
            → pm.find (pm.erase (at b s).price_map l.price) p ≡ some r
            → (pm.find (at b s).price_map p ≡ some r)
              × (k : Level) × (clear_at b.levels x.parent r ≡ some k)
              × (k.price ≡ p)
        finds p r e =
            let erased = sym (pm.find-erase (at b s).price_map l.price p) ∙ e in
            elim (Bool-cases (p == l.price)) [
              | inl q ↦ absurd (none≢some refl (rw q at erased))
              | inr q ↦
                  let found : pm.find (at b s).price_map p ≡ some r = rw q at erased in
                  let (k, at_k, same) = v.priced s p r found in
                  let ne : r ≢ x.parent = λ is_parent.
                    let is_l : k ≡ l = some-injective (sym at_k ∙ ap b.levels is_parent ∙ level) in
                    let price : l.price ≡ p = ap (λ k. k.price) (sym is_l) ∙ same in
                    ground (arith, price) in
                  let test : r == x.parent ≡ false = ground arith in (found, k, rw test at_k, same)
            ]

        keeps :
            (r : ℕ) (k : Level)
            → clear_at b.levels x.parent r ≡ some k
            → pm.find (at b s).price_map k.price ≡ some r
            → pm.find (pm.erase (at b s).price_map l.price) k.price ≡ some r
        keeps r k e found =
            let (ne, _) = left r k e in
            let other : k.price ≢ l.price =
              λ q. ne (some-injective (sym found ∙ ap (pm.find (at b s).price_map) q ∙ leads)) in
            let test : k.price == l.price ≡ false = ground arith in
            pm.find-erase (at b s).price_map l.price k.price ∙ rw test found

        others :
            (p r : ℕ)
            → pm.find (at b (flip s)).price_map p ≡ some r
            → (k : Level) × (clear_at b.levels x.parent r ≡ some k) × (k.price ≡ p)
        others p r e =
            let (k, at_k, same) = v.priced (flip s) p r e in
            let ne : r ≢ x.parent =
              λ q. v.no_common_level s l.price p x.parent leads (e ∙ ap some q) in
            let test : r == x.parent ≡ false = ground arith in (k, rw test at_k, same)
