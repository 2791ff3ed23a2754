-- ===== src/ScatterTable/Rehash.antt =====
-- `rehash_impl`: the entries of the old slots, put into new ones.
use native.Mathlib.Nat.{le_refl}
use vrt.Base.{
  ℕ, zero, suc, ◌+◌, ◌≤◌, ◌<◌, ◌≡◌, refl, Bool, true, false, leb, if◌then◌else◌, sym, ◌∙◌, ap, inl,
  inr, Bool-cases, none, some, ◌≢◌, arith,
}
use vrt.Base.Run.{Run, ok}
use vrt.ScatterTable.Defs.{Key, Slot, free, Table, reinsert, put}
use vrt.ScatterTable.Layout.{Plan, load-cell}
use vrt.ScatterTable.Spec.{Valid, count, contents, contents_iff, scan, scan-at_used, scan-at_free}
use vrt.ScatterTable.Put.{Absent}
use vrt.ScatterTable.PutOnce.{put_once-Placed}
use vrt.ScatterTable.PutLaw.{with_entry, Stores-contents}

module _ {K : Type 0} ⦃key : Key K⦄ where
  equal_sym : (a b : K) → key.equal a b ≡ key.equal b a
  equal_sym a b = elim (Bool-cases (key.equal a b)) [
    | inl e ↦ e ∙ sym ((key.equal_iff b a).1 (sym ((key.equal_iff a b).0 e)))
    | inr e ↦ elim (Bool-cases (key.equal b a)) [
      | inl f ↦ (key.equal_iff a b).1 (sym ((key.equal_iff b a).0 f)) ∙ sym f
      | inr f ↦ e ∙ sym f
    ]
  ]

module _ {K V : Type 0} ⦃key : Key K⦄ where
  -- What `put` does to a valid table that has a slot to spare.
  abbrev pub Puts : (Table K V → K → V → Run (ℕ × Table K V)) → Type 0
  Puts put_new =
      (t : Table K V) (g : Plan K V)
      → Valid t g
      → t.size < t.buckets.capacity
      → (k : K) (w : V)
      → (e : ℕ) × (t' : Table K V) × (g' : Plan K V) × (put_new t k w ≡ ok (e, t'))
        × Valid t' g'
        × ((j : K) → contents t' j ≡ with_entry (contents t) k w j)
        × (t'.size ≤ t.size + 1)
        × (contents t k ≡ none → t'.size ≡ t.size + 1)
        × (t'.buckets.capacity ≡ t.buckets.capacity)

  pub none-Absent :
      (t : Table K V) (g : Plan K V) → Valid t g → (k : K) → contents t k ≡ none → Absent g k
  none-Absent t g v k missing i u s =
      let found = (contents_iff t g v k (g.value i)).1 (i, u, s, refl) in cc

  pub put-Puts :
      (max_capacity : ℕ) (junk : Slot K V) (fixed : Bool) (fuel : ℕ)
      → Puts (put max_capacity junk (suc fuel) fixed)
  unfolding put
  put-Puts max_capacity junk fixed fuel t g v room k w =
      let (e, t', g', run, v', stores, size, longer, same) = put_once-Placed t g v k w fixed room in
      (
        e,
        t',
        g',
        rw run refl,
        v',
        Stores-contents t t' g g' k w v v' stores,
        size,
        λ missing. longer (none-Absent t g v k missing),
        same,
      )

  module _ (old : Table K V) (h : Plan K V) (u : Valid old h) where
    count_mono : (m n : ℕ) → m ≤ n → count h.used_on m ≤ count h.used_on n
    count_mono m zero le = let e : m ≡ 0 = omega arith in rw e (le_refl _)
    count_mono m (suc n) le = elim (Bool-cases (leb m n)) [
      | inl e ↦ let c = count_mono m n (ground arith) in ground arith
      | inr e ↦ let q : m ≡ suc n = ground arith in rw q (le_refl _)
    ]

    -- Slots without entries add nothing to a scan.
    scan_rest :
        (m d : ℕ) (j : K)
        → m + d ≤ old.buckets.capacity
        → count h.used_on m ≡ count h.used_on (m + d)
        → scan (m + d) old.buckets.cell j ≡ scan m old.buckets.cell j
    scan_rest m zero j le same = let e : m + 0 ≡ m = omega arith in rw e refl
    scan_rest m (suc d) j le same =
        let e : m + suc d ≡ suc (m + d) = omega arith in
        let low = count_mono m (m + d) (omega arith) in
        let same' : count h.used_on m ≡ count h.used_on (suc (m + d)) = rw e at same in
        let off : h.used_on (suc (m + d)) ≡ false = ground arith in
        rw e (
          scan-at_free (m + d) old.buckets.cell j _ _
            (u.layout.free_cells (suc (m + d)) (u.complete (suc (m + d)) (omega arith) off))
          ∙ scan_rest m d j (omega arith) (ground arith))

    -- A scan of slots without a key does not find it.
    scan_absent :
        (n : ℕ) (j : K)
        → n ≤ old.buckets.capacity
        → ((i : ℕ) → i ≤ n → h.used_on i ≡ true → h.key i ≢ j)
        → scan n old.buckets.cell j ≡ none
    unfolding scan
    scan_absent zero j le absent = refl
    scan_absent (suc n) j le absent = elim (Bool-cases (h.used_on (suc n))) [
      | inl on ↦
          let other : key.equal (h.key (suc n)) j ≡ false =
            elim (Bool-cases (key.equal (h.key (suc n)) j)) [
              | inl e ↦
                  absurd (absent (suc n) (omega arith) on ((key.equal_iff (h.key (suc n)) j).0 e))
              | inr e ↦ e
            ] in
          scan-at_used n old.buckets.cell j _ _ _ (u.layout.used_cells (suc n) on)
          ∙ rw other (scan_absent n j (omega arith) (λ i le. absent i (omega arith)))
      | inr off ↦
          scan-at_free n old.buckets.cell j _ _
            (u.layout.free_cells (suc n) (u.complete (suc n) le off))
          ∙ scan_absent n j (omega arith) (λ i le. absent i (omega arith))
    ]

    module _ (put_new : Table K V → K → V → Run (ℕ × Table K V)) (puts : Puts put_new) where
      abbrev pub Kept : (capacity : ℕ) → Run (Table K V) → Type 0
      Kept capacity r =
          (t' : Table K V) × (g' : Plan K V) × (r ≡ ok t')
          × Valid t' g'
          × (t'.size ≡ old.size)
          × (t'.buckets.capacity ≡ capacity)
          × ((j : K) → contents t' j ≡ contents old j)

      pub reinsert-Kept :
          (n m i : ℕ) (t : Table K V) (g : Plan K V)
          → Valid t g
          → m + n ≡ old.buckets.capacity
          → i + count h.used_on m ≡ old.size
          → t.size ≡ count h.used_on m
          → old.size ≤ t.buckets.capacity
          → ((j : K) → contents t j ≡ scan m old.buckets.cell j)
          → Kept t.buckets.capacity (reinsert put_new n (m + 1) i old.buckets t)
      unfolding reinsert contents
      reinsert-Kept zero m (suc i) t g v all counted size room same =
          let q : m ≡ old.buckets.capacity = omega arith in
          let c = u.counted in
          let c' : suc i + count h.used_on old.buckets.capacity ≡ old.size = rw q at (counted) in
          absurd (omega arith)
      reinsert-Kept zero m zero t g v all counted size room same =
          let q : m ≡ old.buckets.capacity = omega arith in
          (t, g, refl, v, omega arith, refl, λ j. same j ∙ ap (λ m. scan m old.buckets.cell j) q)
      reinsert-Kept (suc n) m zero t g v all counted size room same =
          (t, g, refl, v, omega arith, refl, λ j. same j ∙ rest j)
        where
          rest : (j : K) → scan m old.buckets.cell j ≡ scan old.buckets.capacity old.buckets.cell j
          rest j =
              let c = u.counted in
              let c' : count h.used_on m ≡ count h.used_on (m + suc n) = rw all (omega arith) in
              sym (scan_rest m (suc n) j (omega arith) c') ∙ ap (λ m. scan m old.buckets.cell j) all
      reinsert-Kept (suc n) m (suc i) t g v all counted size room same =
          elim (Bool-cases (h.used_on (m + 1))) [
            | inl on ↦
                let (x, t₁, g₁, run, v₁, law, _, longer, same₁) =
                  puts t g v (omega arith) (h.key (m + 1)) (h.value (m + 1)) in
                let more = one_more on in
                let size₁ = longer (same (h.key (m + 1)) ∙ not_yet on) in
                let (t', g', runs, v', size', capacity', keeps) =
                  reinsert-Kept n (m + 1) i t₁ g₁ v₁ (omega arith) (omega arith) (omega arith)
                    (omega arith) (λ j. law j ∙ entry on j) in
                (
                  t',
                  g',
                  rw (load-cell old.buckets (m + 1) (omega arith), u.layout.used_cells (m + 1) on)
                      (rw run runs),
                  v',
                  size',
                  capacity' ∙ same₁,
                  keeps,
                )
            | inr off ↦
                let none = none_more off in
                let (t', g', runs, v', size', capacity', keeps) =
                  reinsert-Kept n (m + 1) (suc i) t g v (omega arith) (omega arith) (omega arith)
                    room (λ j. same j ∙ sym (no_entry off j)) in
                (
                  t',
                  g',
                  rw (load-cell old.buckets (m + 1) (omega arith), empty off) runs,
                  v',
                  size',
                  capacity',
                  keeps,
                )
          ]
        where
          next : m + 1 ≡ suc m
          next = omega arith

          one_more : h.used_on (m + 1) ≡ true → count h.used_on (m + 1) ≡ suc (count h.used_on m)
          one_more on =
              let on' : h.used_on (suc m) ≡ true = rw next at on in
              ap (count h.used_on) next ∙ ground arith

          none_more : h.used_on (m + 1) ≡ false → count h.used_on (m + 1) ≡ count h.used_on m
          none_more off =
              let off' : h.used_on (suc m) ≡ false = rw next at off in
              ap (count h.used_on) next ∙ ground arith

          empty :
              h.used_on (m + 1) ≡ false
              → old.buckets.cell (m + 1) ≡ free (h.pv (m + 1)) (h.nx (m + 1))
          empty off = u.layout.free_cells (m + 1) (u.complete (m + 1) (omega arith) off)

          no_entry :
              h.used_on (m + 1) ≡ false
              → (j : K) → scan (m + 1) old.buckets.cell j ≡ scan m old.buckets.cell j
          no_entry off j =
              ap (λ n. scan n old.buckets.cell j) next
              ∙ scan-at_free m old.buckets.cell j (h.pv (m + 1)) (h.nx (m + 1))
                  (ap old.buckets.cell (sym next) ∙ empty off)

          not_yet : h.used_on (m + 1) ≡ true → scan m old.buckets.cell (h.key (m + 1)) ≡ none
          not_yet on =
              scan_absent m (h.key (m + 1)) (omega arith)
                (λ i le used q. let twice = u.layout.unique i (m + 1) used on q in omega arith)

          entry :
              h.used_on (m + 1) ≡ true
              → (j : K)
              → with_entry (contents t) (h.key (m + 1)) (h.value (m + 1)) j
                ≡ scan (m + 1) old.buckets.cell j
          entry on j =
              ap (λ f. if key.equal j (h.key (m + 1)) then some (h.value (m + 1)) else f) (same j)
              ∙ ap (λ c. if c then some (h.value (m + 1)) else scan m old.buckets.cell j)
                  (equal_sym j (h.key (m + 1)))
              ∙ sym (
                  ap (λ n. scan n old.buckets.cell j) next
                  ∙ scan-at_used m old.buckets.cell j (h.cn (m + 1)) (h.key (m + 1))
                      (h.value (m + 1))
                      (ap old.buckets.cell (sym next) ∙ u.layout.used_cells (m + 1) on))
