-- ===== src/LimitBook/Filled.antt =====
-- A book in which an order has lost a part of its quantity is sound.
use mathlib.Core.Path.{subst}
use native.Mathlib.Decide.{ℕ_discrete}
use vrt.Base.{
  ℕ, ◌-◌, ◌≡◌, ◌≢◌, ◌≤◌, refl, sym, ap, ◌∙◌, true, false, some, List, ◌==◌, contains, arith,
}
use vrt.LimitBook.Sides.{flip}
use vrt.LimitBook.Defs.{
  MarketSide, Store, Order, Level, Traits, set_at, PriceMap, Book, at, is_empty,
}
use vrt.LimitBook.Sound.{Sound, LevelSound, some-injective}
use vrt.LimitBook.Erased.{
  Erased, lowered, LevelSound-lowered, LevelSound-elsewhere, other-not_Child,
}

module _ {M : Type 0} (t : Traits) (pm : PriceMap M) (b : Book M) (v : Sound t pm b) (o q : ℕ)
    (x : Order) (l : Level) (ys : List ℕ) (there : b.orders o ≡ some x)
    (level : b.levels x.parent ≡ some l) (d : Erased o l.orders ys) (part : q ≤ x.qty) where
  abbrev pub at_parent : LevelSound t b.orders x.parent l
  at_parent = (v.levels x.parent l level).0

  abbrev pub rest : Order
  rest = record x { qty = x.qty - q }

  abbrev pub less : Level
  less = lowered t b.orders x.parent o l x ys at_parent there d q part

  module _ (levels : Store Level) (at_level : levels x.parent ≡ some less)
      (at_others : (r : ℕ) → r ≢ x.parent → levels r ≡ b.levels r) where
    abbrev pub partly : Book M
    partly = record b { levels = levels; orders = set_at b.orders o rest }

    others : (j : ℕ) → j ≢ o → partly.orders j ≡ b.orders j
    others j ne = let test : j == o ≡ false = ground arith in rw test refl

    now : partly.orders o ≡ some rest
    now = let test : o == o ≡ true = ground arith in rw test refl

    levels_sound :
        (r : ℕ) (k : Level)
        → levels r ≡ some k
        → LevelSound t partly.orders r k × (is_empty k.orders ≡ false)
    levels_sound r k e = elim (ℕ_discrete r x.parent) [
      | yes same ↦
          let is_less : less ≡ k = some-injective (sym at_level ∙ ap levels (sym same) ∙ e) in
          subst (λ k. LevelSound t partly.orders r k × (is_empty k.orders ≡ false)) is_less
            (
              subst (λ r. LevelSound t partly.orders r less) (sym same)
                  (LevelSound-lowered t b.orders x.parent o l x ys at_parent there d q part refl),
              (v.levels x.parent l level).1,
            )
      | no ne ↦
          let (sound, some_orders) = v.levels r k (sym (at_others r ne) ∙ e) in
          (
            LevelSound-elsewhere b.orders partly.orders o others t r k
                (other-not_Child b.orders o r x there (λ same. ne (sym same)) k.orders
                  sound.children)
                sound,
            some_orders,
          )
    ]

    survives :
        (r : ℕ) (k : Level)
        → b.levels r ≡ some k
        → (k' : Level) × (levels r ≡ some k') × (k'.price ≡ k.price) × (k'.orders ≡ k.orders)
    survives r k e = elim (ℕ_discrete r x.parent) [
      | yes same ↦
          let is_l : l ≡ k = some-injective (sym level ∙ ap b.levels (sym same) ∙ e) in
          (less, ap levels same ∙ at_level, ap (λ k. k.price) is_l, ap (λ k. k.orders) is_l)
      | no ne ↦ (k, at_others r ne ∙ e, refl, refl)
    ]

    old_order :
        (j : ℕ) (y : Order)
        → partly.orders j ≡ some y
        → (z : Order) × (b.orders j ≡ some z) × (z.parent ≡ y.parent)
    old_order j y e = elim (ℕ_discrete j o) [
      | yes same ↦
          let is_rest : rest ≡ y = some-injective (sym now ∙ ap partly.orders (sym same) ∙ e) in
          (x, ap b.orders same ∙ there, ap (λ y. y.parent) is_rest)
      | no ne ↦ (y, sym (others j ne) ∙ e, refl)
    ]

    new_order :
        (j : ℕ) (z : Order)
        → b.orders j ≡ some z
        → (y : Order) × (partly.orders j ≡ some y) × (y.parent ≡ z.parent)
    new_order j z e = elim (ℕ_discrete j o) [
      | yes same ↦
          let is_x : x ≡ z = some-injective (sym there ∙ ap b.orders (sym same) ∙ e) in
          (rest, ap partly.orders same ∙ now, ap (λ y. y.parent) is_x)
      | no ne ↦ (z, others j ne ∙ e, refl)
    ]

    listed :
        (j : ℕ) (y : Order)
        → partly.orders j ≡ some y
        → (k : Level) × (levels y.parent ≡ some k) × (contains j k.orders ≡ true)
    listed j y e =
        let (z, at_z, parent) = old_order j y e in
        let (k, at_k, c) = v.listed j z at_z in
        let (k', at_k', _, same) = survives z.parent k at_k in
        (
          k',
          ap levels (sym parent) ∙ at_k',
          subst (λ orders. contains j orders ≡ true) (sym same) c,
        )

    ids :
        (s : MarketSide) (i j : ℕ)
        → (at partly s).oid_map i ≡ some j
        → (y : Order) × (k : Level) × (partly.orders j ≡ some y)
          × (levels y.parent ≡ some k)
          × (pm.find (at partly s).price_map k.price ≡ some y.parent)
    ids s i j e =
        let side : at partly s ≡ at b s = elim s [
          | MarketSide.bid ↦ refl
          | MarketSide.ask ↦ refl
        ] in
        let (z, k, at_z, at_k, leads) = v.ids s i j (sym (ap (λ side. side.oid_map i) side) ∙ e) in
        let (y, at_y, parent) = new_order j z at_z in
        let (k', at_k', price, _) = survives z.parent k at_k in
        (
          y,
          k',
          at_y,
          ap levels parent ∙ at_k',
          ap (λ side. pm.find side.price_map k'.price) side
              ∙ ap (pm.find (at b s).price_map) price
              ∙ leads
              ∙ ap some (sym parent),
        )

    -- The maps of the book stay, and so does what is said of them alone.
    pub partly-Sound : Sound t pm partly
    partly-Sound = record {
      levels = levels_sound;
      listed = listed;
      priced = priced;
      ids = ids;
      unique = unique;
      no_common_order = no_common_order;
      no_common_level = no_common_level;
    }
      where
        price :
            (z : MarketSide) (p r : ℕ)
            → pm.find (at b z).price_map p ≡ some r
            → (k : Level) × (levels r ≡ some k) × (k.price ≡ p)
        price z p r e =
            let (k, at_k, same) = v.priced z p r e in
            let (k', at_k', as_old, _) = survives r k at_k in (k', at_k', as_old ∙ same)

        priced :
            (z : MarketSide) (p r : ℕ)
            → pm.find (at partly z).price_map p ≡ some r
            → (k : Level) × (levels r ≡ some k) × (k.price ≡ p)
        priced MarketSide.bid = price MarketSide.bid
        priced MarketSide.ask = price MarketSide.ask

        unique :
            (z : MarketSide) (i j o : ℕ)
            → (at partly z).oid_map i ≡ some o
            → (at partly z).oid_map j ≡ some o
            → i ≡ j
        unique MarketSide.bid = v.unique MarketSide.bid
        unique MarketSide.ask = v.unique MarketSide.ask

        no_common_order :
            (z : MarketSide) (i j o : ℕ)
            → (at partly z).oid_map i ≡ some o
            → (at partly (flip z)).oid_map j ≢ some o
        no_common_order MarketSide.bid = v.no_common_order MarketSide.bid
        no_common_order MarketSide.ask = v.no_common_order MarketSide.ask

        no_common_level :
            (z : MarketSide) (p q r : ℕ)
            → pm.find (at partly z).price_map p ≡ some r
            → pm.find (at partly (flip z)).price_map q ≢ some r
        no_common_level MarketSide.bid = v.no_common_level MarketSide.bid
        no_common_level MarketSide.ask = v.no_common_level MarketSide.ask
