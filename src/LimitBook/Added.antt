-- ===== src/LimitBook/Added.antt =====
-- A book with an order added to one of its levels, or to a new one, is sound.
use mathlib.Core.Path.{subst}
use native.Mathlib.Decide.{ℕ_discrete}
use vrt.Base.{
  ℕ, ◌+◌, ◌≡◌, ◌≢◌, refl, sym, ap, ◌∙◌, inl, inr, ◌⊎◌, true, false, none, some, ◌∷◌, ◌==◌, contains,
  Bool-cases, arith,
}
use vrt.LimitBook.Sides.{flip, by_side, by_sides}
use vrt.LimitBook.Defs.{
  MarketSide, Store, BookSide, Order, Level, Traits, set_at, PriceMap, Book, at, set_side, is_empty,
  if_qty, if_count,
}
use vrt.LimitBook.Sound.{
  Sound, LevelSound, none≢some, some-injective, LevelSound-fresh, LevelSound-push,
}

module _ {M : Type 0} (t : Traits) (pm : PriceMap M) (b : Book M) (v : Sound t pm b) where
  -- Level `r`, before the order is in it: one of the book, or a new and empty one.
  pub record Target (s : MarketSide) (r : ℕ) (l : Level) (m : M) : Type 0 where
    pub sound : LevelSound t b.orders r l
    pub same : (k : Level) → b.levels r ≡ some k → (k.price ≡ l.price) × (k.orders ≡ l.orders)
    pub leads : pm.find m l.price ≡ some r
    pub keeps : (p i : ℕ) → pm.find (at b s).price_map p ≡ some i → pm.find m p ≡ some i
    pub found :
        (p i : ℕ)
        → pm.find m p ≡ some i
        → ((i ≡ r) × (p ≡ l.price) × (b.levels r ≡ none)) ⊎ (pm.find (at b s).price_map p ≡ some i)

  module _ (s : MarketSide) (oid o : ℕ) (x : Order) (l : Level) (m : M) (fresh : b.orders o ≡ none)
      (target : Target s x.parent l m) where
    abbrev pushed : Level
    pushed = record l {
      qty = if_qty t (l.qty + x.qty);
      order_count = if_count t (l.order_count + 1);
      orders = o ∷ l.orders;
    }

    -- The book with the order in front of the level's list.
    abbrev pub added : Book M
    added =
        record (set_side b s (record { oid_map = set_at (at b s).oid_map oid o; price_map = m })) {
          orders = set_at b.orders o x;
          levels = set_at b.levels x.parent pushed;
        }

    here : x.parent == x.parent ≡ true
    here = ground arith

    its_own : o == o ≡ true
    its_own = ground arith

    -- The level of a reference of the old book in the new one.
    survives :
        (i : ℕ) (k : Level)
        → b.levels i ≡ some k
        → (k' : Level) × (added.levels i ≡ some k')
          × (k'.price ≡ k.price)
          × ((j : ℕ) → contains j k.orders ≡ true → contains j k'.orders ≡ true)
    survives i k e = elim (ℕ_discrete i x.parent) [
      | yes q ↦
          let same = target.same k (ap b.levels (sym q) ∙ e) in
          let test : i == x.parent ≡ true = ground arith in
          (
            pushed,
            rw test refl,
            sym same.0,
            λ j c. let c' : contains j l.orders ≡ true = rw same.1 at c in ground arith,
          )
      | no ne ↦ let test : i == x.parent ≡ false = ground arith in (k, rw test e, refl, λ j c. c)
    ]

    push_level :
        (i : ℕ) (k : Level)
        → added.levels i ≡ some k
        → LevelSound t added.orders i k × (is_empty k.orders ≡ false)
    push_level i k e = elim (ℕ_discrete i x.parent) [
      | yes q ↦
          let test : i == x.parent ≡ true = ground arith in
          let same : pushed ≡ k = some-injective (rw test at e) in
          subst (λ k. LevelSound t added.orders i k × (is_empty k.orders ≡ false)) same
            (
              subst (λ i. LevelSound t added.orders i pushed) (sym q)
                  (LevelSound-push b.orders o x fresh t x.parent l refl target.sound),
              refl,
            )
      | no ne ↦
          let test : i == x.parent ≡ false = ground arith in
          let old = v.levels i k (rw test at e) in
          (LevelSound-fresh b.orders o x fresh t i k old.0, old.1)
    ]

    list_order :
        (i : ℕ) (y : Order)
        → added.orders i ≡ some y
        → (k : Level) × (added.levels y.parent ≡ some k) × (contains i k.orders ≡ true)
    list_order i y e = elim (ℕ_discrete i o) [
      | yes q ↦
          let test : i == o ≡ true = ground arith in
          let same : x ≡ y = some-injective (rw test at e) in
          subst (λ y. (k : Level) × (added.levels y.parent ≡ some k) × (contains i k.orders ≡ true))
            same (pushed, rw here refl, rw test refl)
      | no ne ↦
          let test : i == o ≡ false = ground arith in
          let (k, at_k, c) = v.listed i y (rw test at e) in
          let (k', at_k', _, keeps) = survives y.parent k at_k in (k', at_k', keeps i c)
    ]

    price_old :
        (z : MarketSide) (p i : ℕ)
        → pm.find (at b z).price_map p ≡ some i
        → (k : Level) × (added.levels i ≡ some k) × (k.price ≡ p)
    price_old z p i e =
        let (k, at_k, same) = v.priced z p i e in
        let (k', at_k', price, _) = survives i k at_k in (k', at_k', price ∙ same)

    price_new :
        (p i : ℕ) → pm.find m p ≡ some i → (k : Level) × (added.levels i ≡ some k) × (k.price ≡ p)
    price_new p i e = elim (target.found p i e) [
      | inl (q, same, _) ↦
          let test : i == x.parent ≡ true = ground arith in (pushed, rw test refl, sym same)
      | inr f ↦ price_old s p i f
    ]

    abbrev Leads : ℕ → M → Type 0
    Leads j m' =
        (y : Order) × (k : Level) × (added.orders j ≡ some y)
        × (added.levels y.parent ≡ some k)
        × (pm.find m' k.price ≡ some y.parent)

    unlisted : (z : MarketSide) (i : ℕ) → (at b z).oid_map i ≢ some o
    unlisted z i e = let (y, _, at_y, _, _) = v.ids z i o e in none≢some fresh at_y

    id_old :
        (z : MarketSide) (m' : M) (i j : ℕ)
        → ((p i : ℕ) → pm.find (at b z).price_map p ≡ some i → pm.find m' p ≡ some i)
        → (at b z).oid_map i ≡ some j
        → Leads j m'
    id_old z m' i j keeps e =
        let (y, k, at_y, at_k, leads) = v.ids z i j e in
        let (k', at_k', price, _) = survives y.parent k at_k in
        let ne : j ≢ o = λ q. unlisted z i (e ∙ ap some q) in
        let test : j == o ≡ false = ground arith in
        (y, k', rw test at_y, at_k', ap (pm.find m') price ∙ keeps k.price y.parent leads)

    abbrev new_ids : Store ℕ
    new_ids = set_at (at b s).oid_map oid o

    id_new : (i j : ℕ) → new_ids i ≡ some j → Leads j m
    id_new i j e = elim (Bool-cases (i == oid)) [
      | inl q ↦
          let same : o ≡ j = some-injective (rw q at e) in
          let test : j == o ≡ true = ground (arith, same) in
          (x, pushed, rw test refl, rw here refl, target.leads)
      | inr q ↦ id_old s m i j target.keeps (rw q at e)
    ]

    -- The new id's order, or one that another id had.
    new_or_old :
        (i j : ℕ) → new_ids i ≡ some j → ((i ≡ oid) × (j ≡ o)) ⊎ ((at b s).oid_map i ≡ some j)
    new_or_old i j e = elim (Bool-cases (i == oid)) [
      | inl q ↦ inl (ground arith, sym (some-injective (rw q at e)))
      | inr q ↦ inr (rw q at e)
    ]

    unique_new : (i i' j : ℕ) → new_ids i ≡ some j → new_ids i' ≡ some j → i ≡ i'
    unique_new i i' j e e' = elim (new_or_old i j e) [
      | inl (a, c) ↦ elim (new_or_old i' j e') [
        | inl (a', _) ↦ a ∙ sym a'
        | inr f ↦ absurd (unlisted s i' (f ∙ ap some c))
      ]
      | inr f ↦ elim (new_or_old i' j e') [
        | inl (_, c) ↦ absurd (unlisted s i (f ∙ ap some c))
        | inr f' ↦ v.unique s i i' j f f'
      ]
    ]

    order_apart : (i i' j : ℕ) → new_ids i ≡ some j → (at b (flip s)).oid_map i' ≢ some j
    order_apart i i' j e f = elim (new_or_old i j e) [
      | inl (_, c) ↦ unlisted (flip s) i' (f ∙ ap some c)
      | inr g ↦ v.no_common_order s i i' j g f
    ]

    level_apart : (p q r : ℕ) → pm.find m p ≡ some r → pm.find (at b (flip s)).price_map q ≢ some r
    level_apart p q r e f = elim (target.found p r e) [
      | inl (c, _, gone) ↦
          let (k, at_k, _) = v.priced (flip s) q r f in none≢some (ap b.levels c ∙ gone) at_k
      | inr g ↦ v.no_common_level s p q r g f
    ]

    pub added-Sound : Sound t pm added
    added-Sound = record {
      levels = push_level;
      listed = list_order;
      priced =
          by_side
            (λ z side.
              (p i : ℕ)
              → pm.find side.price_map p ≡ some i
              → (k : Level) × (added.levels i ≡ some k) × (k.price ≡ p))
            b s side price_new (price_old (flip s));
      ids =
          by_side (λ z side. (i j : ℕ) → side.oid_map i ≡ some j → Leads j side.price_map) b s side
            id_new (λ i j. id_old (flip s) (at b (flip s)).price_map i j (λ p k f. f));
      unique =
          by_side
            (λ z side. (i i' j : ℕ) → side.oid_map i ≡ some j → side.oid_map i' ≡ some j → i ≡ i') b
            s side unique_new (v.unique (flip s));
      no_common_order =
          by_sides
            (λ side side'. (i i' j : ℕ) → side.oid_map i ≡ some j → side'.oid_map i' ≢ some j) b s
            side order_apart (λ i i' j e f. order_apart i' i j f e);
      no_common_level =
          by_sides
            (λ side side'.
              (p q r : ℕ) → pm.find side.price_map p ≡ some r → pm.find side'.price_map q ≢ some r)
            b s side level_apart (λ p q r e f. level_apart q p r f e);
    }
      where
        side : BookSide M
        side = record { oid_map = new_ids; price_map = m }
