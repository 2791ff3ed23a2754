-- ===== src/LimitBook/Targets.antt =====
-- Where `order_add` puts an order: a new level, or one that is there.
use vrt.Base.{
  ℕ, ◌≡◌, ◌≢◌, ◌⊎◌, refl, sym, ap, ◌∙◌, inl, inr, true, false, none, some, [], ◌==◌, if◌then◌else◌,
  Bool-cases, arith,
}
use vrt.Base.Run.{ok}
use vrt.LimitBook.Defs.{MarketSide, Level, Traits, Allocator, PriceMap, Book, at}
use vrt.LimitBook.Sound.{Sound, none≢some, some-injective}
use vrt.LimitBook.Added.{Target}

-- a new level
abbrev pub no_orders : ℕ → Level
no_orders p = record { price = p; qty = 0; order_count = 0; orders = [] }

module _ {M : Type 0} (t : Traits) (pm : PriceMap M) (b : Book M) (v : Sound t pm b)
    (s : MarketSide) (p r : ℕ) where
  module _ (new_level : Allocator Level) (pick_level : new_level.pick b.levels ≡ ok r)
      (none_there : pm.find (at b s).price_map p ≡ none) where
    fresh_level : b.levels r ≡ none
    fresh_level = new_level.pick_free b.levels r pick_level

    pub new_target : Target t pm b v s r (no_orders p) (pm.insert (at b s).price_map p r)
    new_target = record {
      sound = record {
        counted = elim (Bool-cases t.has_order_count) [ inl e ↦ rw e refl | inr e ↦ rw e refl ];
        summed = elim (Bool-cases t.has_qty) [ inl e ↦ rw e refl | inr e ↦ rw e refl ];
        children = tt;
        distinct = tt;
      };
      same = λ k e. absurd (none≢some fresh_level e);
      leads = inserted p ∙ rw p_is_p refl;
      keeps = keeps;
      found = found;
    }
      where
        p_is_p : p == p ≡ true
        p_is_p = ground arith

        inserted :
            (q : ℕ)
            → pm.find (pm.insert (at b s).price_map p r) q
              ≡ (if q == p then some r else pm.find (at b s).price_map q)
        inserted q = pm.find-insert (at b s).price_map p r q

        keeps :
            (q j : ℕ)
            → pm.find (at b s).price_map q ≡ some j
            → pm.find (pm.insert (at b s).price_map p r) q ≡ some j
        keeps q j e =
            let ne : q ≢ p =
              λ same. none≢some (ap (pm.find (at b s).price_map) same ∙ none_there) e in
            let test : q == p ≡ false = ground arith in inserted q ∙ rw test e

        found :
            (q j : ℕ)
            → pm.find (pm.insert (at b s).price_map p r) q ≡ some j
            → ((j ≡ r) × (q ≡ p) × (b.levels r ≡ none)) ⊎ (pm.find (at b s).price_map q ≡ some j)
        found q j e = elim (Bool-cases (q == p)) [
          | inl same ↦
              inl (
                sym (some-injective (rw same at (sym (inserted q) ∙ e))),
                ground arith,
                fresh_level,
              )
          | inr other ↦ inr (rw other at (sym (inserted q) ∙ e))
        ]

  module _ (k : Level) (at_k : b.levels r ≡ some k) (priced : k.price ≡ p) where
    pub old_target :
        pm.find (at b s).price_map p ≡ some r → Target t pm b v s r k (at b s).price_map
    old_target there = record {
      sound = (v.levels r k at_k).0;
      same = λ k' e.
          let same = some-injective (sym at_k ∙ e) in
          (ap (λ l. l.price) (sym same), ap (λ l. l.orders) (sym same));
      leads = ap (pm.find (at b s).price_map) priced ∙ there;
      keeps = λ q j e. e;
      found = λ q j e. inr e;
    }
