-- ===== src/LimitBook/Removed.antt =====
-- A book without one of its orders is sound, whether its level stays or goes with it.
use native.Mathlib.Decide.{ℕ_discrete}
use mathlib.Core.Path.{subst}
use vrt.Base.{ℕ, ◌≡◌, ◌≢◌, refl, sym, ap, ◌∙◌, true, false, some, ◌==◌, contains, arith}
use vrt.LimitBook.Sides.{flip, by_side, by_sides}
use vrt.LimitBook.Defs.{
  MarketSide, Store, BookSide, Order, Level, Traits, clear_at, PriceMap, Book, at, set_side,
  is_empty,
}
use vrt.LimitBook.Sound.{Sound, LevelSound, none≢some, some-injective}
use vrt.LimitBook.Erased.{LevelSound-elsewhere, other-not_Child}

module _ {M : Type 0} (t : Traits) (pm : PriceMap M) (b : Book M) (v : Sound t pm b)
    (s : MarketSide) (id o : ℕ) (x : Order) (l : Level) (known : (at b s).oid_map id ≡ some o)
    (there : b.orders o ≡ some x) (level : b.levels x.parent ≡ some l)
    (leads : pm.find (at b s).price_map l.price ≡ some x.parent) where
  -- Levels and prices of a side after the order is gone, as the rest of the book needs them.
  pub record Rest (levels : Store Level) (m : M) : Type 0 where
    pub sound :
        (r : ℕ) (k : Level)
        → levels r ≡ some k
        → LevelSound t (clear_at b.orders o) r k × (is_empty k.orders ≡ false)
    pub lists :
        (j r : ℕ) (k : Level)
        → j ≢ o
        → b.levels r ≡ some k
        → contains j k.orders ≡ true
        → (k' : Level) × (levels r ≡ some k') × (k'.price ≡ k.price) × (contains j k'.orders ≡ true)
    pub finds :
        (p r : ℕ)
        → pm.find m p ≡ some r
        → (pm.find (at b s).price_map p ≡ some r)
          × (k : Level) × (levels r ≡ some k)
          × (k.price ≡ p)
    pub keeps :
        (r : ℕ) (k : Level)
        → levels r ≡ some k
        → pm.find (at b s).price_map k.price ≡ some r
        → pm.find m k.price ≡ some r
    pub others :
        (p r : ℕ)
        → pm.find (at b (flip s)).price_map p ≡ some r
        → (k : Level) × (levels r ≡ some k) × (k.price ≡ p)

  module _ (levels : Store Level) (m : M) (rest : Rest levels m) where
    -- The book without the order, its id and, where it was the last one, its level.
    abbrev pub removed : Book M
    removed =
        record (set_side b s (record { oid_map = clear_at (at b s).oid_map id; price_map = m })) {
          orders = clear_at b.orders o;
          levels = levels;
        }

    abbrev rest_ids : Store ℕ
    rest_ids = clear_at (at b s).oid_map id

    old_id : (i j : ℕ) → rest_ids i ≡ some j → (i ≢ id) × ((at b s).oid_map i ≡ some j)
    old_id i j e = elim (ℕ_discrete i id) [
      | yes q ↦ let test : i == id ≡ true = ground arith in absurd (none≢some refl (rw test at e))
      | no ne ↦ let test : i == id ≡ false = ground arith in (ne, rw test at e)
    ]

    list_order :
        (i : ℕ) (y : Order)
        → removed.orders i ≡ some y
        → (k : Level) × (levels y.parent ≡ some k) × (contains i k.orders ≡ true)
    list_order i y e = elim (ℕ_discrete i o) [
      | yes q ↦ let test : i == o ≡ true = ground arith in absurd (none≢some refl (rw test at e))
      | no ne ↦
          let test : i == o ≡ false = ground arith in
          let (k, at_k, c) = v.listed i y (rw test at e) in
          let (k', at_k', _, c') = rest.lists i y.parent k ne at_k c in (k', at_k', c')
    ]

    abbrev Leads : ℕ → M → Type 0
    Leads j m' =
        (y : Order) × (k : Level) × (removed.orders j ≡ some y)
        × (levels y.parent ≡ some k)
        × (pm.find m' k.price ≡ some y.parent)

    -- An order that is not the removed one is in a level of the same price, where it was.
    stays :
        (j : ℕ) (m' : M)
        → j ≢ o
        → (y : Order) (k : Level) (at_y : b.orders j ≡ some y) (at_k : b.levels y.parent ≡ some k)
        → pm.find m' k.price ≡ some y.parent
        → Leads j m'
    stays j m' ne y k at_y at_k found =
        let test : j == o ≡ false = ground arith in
        let (k₁, at_k₁, c) = v.listed j y at_y in
        let same : k₁ ≡ k = some-injective (sym at_k₁ ∙ at_k) in
        let c₂ : contains j k.orders ≡ true = subst (λ k. contains j k.orders ≡ true) same c in
        let (k', at_k', price, _) = rest.lists j y.parent k ne at_k c₂ in
        (y, k', rw test at_y, at_k', ap (pm.find m') price ∙ found)

    id-Leads : (i j : ℕ) → rest_ids i ≡ some j → Leads j m
    id-Leads i j e =
        let (other, e') = old_id i j e in
        let (y, k, at_y, at_k, found) = v.ids s i j e' in
        let ne : j ≢ o = λ q. other (v.unique s i id o (e' ∙ ap some q) known) in
        let (y', k', at_y', at_k', found') = stays j (at b s).price_map ne y k at_y at_k found in
        (y', k', at_y', at_k', rest.keeps y'.parent k' at_k' found')

    other_id-Leads :
        (i j : ℕ) → (at b (flip s)).oid_map i ≡ some j → Leads j (at b (flip s)).price_map
    other_id-Leads i j e =
        let (y, k, at_y, at_k, found) = v.ids (flip s) i j e in
        let ne : j ≢ o = λ q. v.no_common_order s id i o known (e ∙ ap some q) in
        stays j (at b (flip s)).price_map ne y k at_y at_k found

    pub removed-Sound : Sound t pm removed
    removed-Sound = record {
      levels = rest.sound;
      listed = list_order;
      priced =
          by_side
            (λ z side.
              (p i : ℕ)
              → pm.find side.price_map p ≡ some i
              → (k : Level) × (levels i ≡ some k) × (k.price ≡ p))
            b s side (λ p i e. let (_, k, at_k, price) = rest.finds p i e in (k, at_k, price))
            rest.others;
      ids =
          by_side (λ z side. (i j : ℕ) → side.oid_map i ≡ some j → Leads j side.price_map) b s side
            id-Leads other_id-Leads;
      unique =
          by_side
            (λ z side. (i i' j : ℕ) → side.oid_map i ≡ some j → side.oid_map i' ≡ some j → i ≡ i') b
            s side (λ i i' j e f. v.unique s i i' j (old_id i j e).1 (old_id i' j f).1)
            (v.unique (flip s));
      no_common_order =
          by_sides
            (λ side side'. (i i' j : ℕ) → side.oid_map i ≡ some j → side'.oid_map i' ≢ some j) b s
            side (λ i i' j e f. v.no_common_order s i i' j (old_id i j e).1 f)
            (λ i i' j e f. v.no_common_order s i' i j (old_id i' j f).1 e);
      no_common_level =
          by_sides
            (λ side side'.
              (p q r : ℕ) → pm.find side.price_map p ≡ some r → pm.find side'.price_map q ≢ some r)
            b s side (λ p q r e f. v.no_common_level s p q r (rest.finds p r e).0 f)
            (λ p q r e f. v.no_common_level s q p r (rest.finds q r f).0 e);
    }
      where
        side : BookSide M
        side = record { oid_map = rest_ids; price_map = m }

  elsewhere : (j : ℕ) → j ≢ o → clear_at b.orders o j ≡ b.orders j
  elsewhere j ne = let test : j == o ≡ false = ground arith in rw test refl

  -- A level other than the order's.
  pub other_level :
      (r : ℕ) (k : Level)
      → r ≢ x.parent
      → b.levels r ≡ some k
      → LevelSound t (clear_at b.orders o) r k × (is_empty k.orders ≡ false)
  other_level r k ne e =
      let (sound, some_orders) = v.levels r k e in
      (
        LevelSound-elsewhere b.orders (clear_at b.orders o) o elsewhere t r k
            (other-not_Child b.orders o r x there (λ q. ne (sym q)) k.orders sound.children) sound,
        some_orders,
      )
