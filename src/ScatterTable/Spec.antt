-- ===== src/ScatterTable/Spec.antt =====
-- A table's validity, and what it contains: a scan of all slots, against which the operations stand.
use native.Mathlib.Nat.{le_refl}
use vrt.Base.{
  ℕ, zero, suc, ◌+◌, ◌^◌, ◌≤◌, ◌<◌, ◌≡◌, refl, Bool, true, false, ◌≢◌, ◌↔◌, if◌then◌else◌, arith,
  inl, inr, sym, ◌∙◌, ap, Bool-cases, Option, none, some,
}
use vrt.ScatterTable.Defs.{update, Key, Slot, free, used, Table}
use vrt.ScatterTable.Ring.{alone}
use vrt.ScatterTable.Layout.{Plan, Layout}

-- The count of the slots in 1 … n that `on` tells.
abbrev pub count : (ℕ → Bool) → ℕ → ℕ
count on zero = 0
count on (suc n) = (if on (suc n) then 1 else 0) + count on n

pub count-le : (on : ℕ → Bool) (n : ℕ) → count on n ≤ n
count-le on zero = omega arith
count-le on (suc n) = ground (arith, count-le on n)

pub count-beyond :
    (on : ℕ → Bool) (e : ℕ) (b : Bool) (n : ℕ) → n < e → count (update on e b) n ≡ count on n
count-beyond on e b zero h = refl
count-beyond on e b (suc n) h = ground (arith, count-beyond on e b n)

pub count-add :
    (on : ℕ → Bool) (e n : ℕ)
    → on e ≡ false
    → 0 < e
    → e ≤ n
    → count (update on e true) n ≡ suc (count on n)
count-add on e zero f h k = absurd (omega arith)
count-add on e (suc n) f h k = ground (arith, count-add on e n, count-beyond on e true n)

pub count-drop :
    (on : ℕ → Bool) (e n : ℕ)
    → on e ≡ true
    → 0 < e
    → e ≤ n
    → suc (count (update on e false) n) ≡ count on n
count-drop on e zero f h k = absurd (omega arith)
count-drop on e (suc n) f h k = ground (arith, count-drop on e n, count-beyond on e false n)

pub count-full : (on : ℕ → Bool) (n : ℕ) → ((i : ℕ) → 0 < i → i ≤ n → on i ≡ true) → count on n ≡ n
count-full on zero all = refl
count-full on (suc n) all =
    ground (arith, count-full on n (λ i h k. all i h (omega arith)), all (suc n))

some_lem : {V : Type 0} {a b : V} → some a ≡ some b → a ≡ b
some_lem e = cc

option_ext : {V : Type 0} (o p : Option V) → ((w : V) → (o ≡ some w) ↔ (p ≡ some w)) → o ≡ p
option_ext none none h = refl
option_ext none (some a) h = (h a).1 refl
option_ext (some a) p h = sym ((h a).0 refl)

module _ {K V : Type 0} ⦃key : Key K⦄ where
  -- The plan of a table's slots is complete and counted.
  pub record Valid (t : Table K V) (g : Plan K V) : Type 0 where
    pub layout : Layout t.buckets g
    pub complete : (i : ℕ) → i ≤ t.buckets.capacity → g.used_on i ≡ false → g.free_on i ≡ true
    pub counted : t.size ≡ count g.used_on t.buckets.capacity
    pub some_slots : 0 < t.buckets.capacity
    pub power : (k : ℕ) × (t.buckets.capacity ≡ 2 ^ k)

  -- The value of a key, by a scan of slots 1 … n.
  unfoldable pub scan : ℕ → (ℕ → Slot K V) → K → Option V
  scan zero cell k = none
  scan (suc n) cell k = elim (cell (suc n)) [
    | free p m ↦ scan n cell k
    | used m j v ↦ if key.equal j k then some v else scan n cell k
  ]

  pub scan-at_used :
      (n : ℕ) (cell : ℕ → Slot K V) (k : K) (m : ℕ) (j : K) (v : V)
      → cell (suc n) ≡ used m j v
      → scan (suc n) cell k ≡ (if key.equal j k then some v else scan n cell k)
  unfolding scan
  scan-at_used n cell k m j v e =
      ap
        (λ (s : Slot K V). elim s as (λ _. Option V) [
          | free p m ↦ scan n cell k
          | used m j v ↦ if key.equal j k then some v else scan n cell k
        ])
        e

  pub scan-at_free :
      (n : ℕ) (cell : ℕ → Slot K V) (k : K) (p m : ℕ)
      → cell (suc n) ≡ free p m
      → scan (suc n) cell k ≡ scan n cell k
  unfolding scan
  scan-at_free n cell k p m e =
      ap
        (λ (s : Slot K V). elim s as (λ _. Option V) [
          | free p m ↦ scan n cell k
          | used m j v ↦ if key.equal j k then some v else scan n cell k
        ])
        e

  -- The abstract view of a table: a finite map from keys to values.
  unfoldable pub contents : Table K V → K → Option V
  contents t k = scan t.buckets.capacity t.buckets.cell k

  -- A key stands in a slot with a value.
  abbrev pub Has : Plan K V → K → V → Type 0
  Has g k v = (i : ℕ) × (g.used_on i ≡ true) × (g.key i ≡ k) × (g.value i ≡ v)

  module _ (t : Table K V) (g : Plan K V) (v : Valid t g) where
    scan-used :
        (n i : ℕ) (k : K)
        → n ≤ t.buckets.capacity
        → i ≤ n
        → g.used_on i ≡ true
        → g.key i ≡ k
        → scan n t.buckets.cell k ≡ some (g.value i)
    scan-used zero i k le h u e = let low = (v.layout.chains i u).low in absurd (omega arith)
    scan-used (suc n) i k le h u e = elim (Bool-cases (g.used_on (suc n))) [
      | inl on ↦
          rw (scan-at_used n t.buckets.cell k _ _ _ (v.layout.used_cells (suc n) on))
            (elim (Bool-cases (key.equal (g.key (suc n)) k)) [
              | inl same ↦
                  let q =
                    v.layout.unique (suc n) i on u
                      ((key.equal_iff (g.key (suc n)) k).0 same ∙ sym e) in
                  rw same (ap (λ x. some (g.value x)) q)
              | inr other ↦ rw other (
                  scan-used n i k (omega arith)
                    (ground (arith, (key.equal_iff (g.key (suc n)) k).1, ap g.key)) u e)
            ])
      | inr off ↦
          rw
            (scan-at_free n t.buckets.cell k _ _
              (v.layout.free_cells (suc n) (v.complete (suc n) le off)))
            (scan-used n i k (omega arith) (ground arith) u e)
    ]

    scan-Has :
        (n : ℕ) (k : K) (w : V)
        → n ≤ t.buckets.capacity
        → scan n t.buckets.cell k ≡ some w
        → Has g k w
    unfolding scan
    scan-Has zero k w le h = cc
    scan-Has (suc n) k w le h = elim (Bool-cases (g.used_on (suc n))) [
      | inl on ↦
          let h' =
            rw (scan-at_used n t.buckets.cell k _ _ _ (v.layout.used_cells (suc n) on)) at h in
          elim (Bool-cases (key.equal (g.key (suc n)) k)) [
            | inl same ↦
                (suc n, on, (key.equal_iff (g.key (suc n)) k).0 same, some_lem (rw same at h'))
            | inr other ↦ scan-Has n k w (omega arith) (rw other at h')
          ]
      | inr off ↦ scan-Has n k w (omega arith) (
          rw
            (scan-at_free n t.buckets.cell k _ _
              (v.layout.free_cells (suc n) (v.complete (suc n) le off)))
            at h)
    ]

    pub contents_iff : (k : K) (w : V) → (contents t k ≡ some w) ↔ Has g k w
    unfolding contents
    contents_iff k w = (
      scan-Has t.buckets.capacity k w (le_refl _),
      λ h.
          let (i, u, e, q) = h in
          scan-used t.buckets.capacity i k (le_refl _) (v.layout.chains i u).high u e ∙ ap some q,
    )

    -- With fewer entries than slots there is a free slot.
    pub free_slot_left : t.size < t.buckets.capacity → g.nx 0 ≢ 0
    free_slot_left room none_left =
        let full = count-full g.used_on t.buckets.capacity (λ i low high.
          elim (Bool-cases (g.used_on i)) [
            | inl u ↦ u
            | inr n ↦
                let z =
                  alone t.buckets.capacity g.free_on g.nx g.pv g.pos v.layout.ring none_left
                    (suc (g.pos i)) i (omega arith) (v.complete i high n) in
                absurd (omega arith)
          ]) in
        let c = v.counted in omega arith

  -- Tables whose plans have the same entry for a key have the same contents there.
  pub contents_congr :
      (t t' : Table K V) (g g' : Plan K V)
      → Valid t g
      → Valid t' g'
      → (k : K) → ((w : V) → Has g k w ↔ Has g' k w)
      → contents t' k ≡ contents t k
  contents_congr t t' g g' v v' k same = option_ext (contents t' k) (contents t k) (λ w. (
    λ e. (contents_iff t g v k w).1 ((same w).1 ((contents_iff t' g' v' k w).0 e)),
    λ e. (contents_iff t' g' v' k w).1 ((same w).0 ((contents_iff t g v k w).0 e)),
  ))
