-- ===== src/ScatterTable/Resize.antt =====
-- `rehash` of vr/vr_common/src/vr/containers/util/chained_scatter_table.h, which clients call.
use native.Mathlib.Decide.{ℕ_discrete}
use vrt.Base.{
  ℕ, ◌^◌, ◌≤◌, ◌<◌, ◌≡◌, refl, ◌⊎◌, inl, inr, Bool, true, false, leb, ltb, ◌==◌, sym, Bool-cases,
  arith,
}
use vrt.Base.Run.{ok, throws, invalid_input}
use vrt.ScatterTable.Log2.{log2_ceil}
use vrt.ScatterTable.Defs.{Key, Slot, Table, put, rehash}
use vrt.ScatterTable.Layout.{Plan}
use vrt.ScatterTable.Spec.{Valid, contents, count-le}
use vrt.ScatterTable.Rehash.{put-Puts}
use vrt.ScatterTable.Grow.{rehash_impl-contents}

module _ {K V : Type 0} ⦃key : Key K⦄ where
  -- In a valid table, for a positive count whose power of two is within the limit,
  -- `rehash` throws if the entries are more than that power; and if not, the new table is valid, has that
  -- capacity, as many entries and the same contents.
  pub rehash-contents :
      (max_capacity : ℕ) (junk : Slot K V) (fixed : Bool) (t : Table K V) (g : Plan K V)
      → Valid t g
      → (count : ℕ) → 0 < count
      → 2 ^ log2_ceil 32 count ≤ max_capacity
      → (k : K) (w : V)
      → ((2 ^ log2_ceil 32 count < t.size)
          × (rehash max_capacity junk fixed t count ≡ throws invalid_input))
        ⊎ ((t.size ≤ 2 ^ log2_ceil 32 count)
            × (t' : Table K V) × (g' : Plan K V) × (rehash max_capacity junk fixed t count ≡ ok t')
            × Valid t' g'
            × (t'.size ≡ t.size)
            × (t'.buckets.capacity ≡ 2 ^ log2_ceil 32 count)
            × ((j : K) → contents t' j ≡ contents t j))
  unfolding rehash
  rehash-contents max_capacity junk fixed t g v count positive room k w =
      let some_count : ltb 0 count ≡ true = ground arith in
      elim (ℕ_discrete (2 ^ log2_ceil 32 count) t.buckets.capacity) [
        | yes same ↦
            let test : 2 ^ log2_ceil 32 count == t.buckets.capacity ≡ true = ground arith in
            inr (
              omega (arith, v.counted, count-le g.used_on t.buckets.capacity),
              t,
              g,
              rw (some_count, test) refl,
              v,
              refl,
              sym same,
              λ j. refl,
            )
        | no other ↦
            let test : 2 ^ log2_ceil 32 count == t.buckets.capacity ≡ false = ground arith in
            elim (Bool-cases (leb t.size (2 ^ log2_ceil 32 count))) [
              | inl fits ↦
                  let (t', g', runs, v', size, capacity, keeps) =
                    rehash_impl-contents max_capacity junk (put max_capacity junk 2 fixed)
                      (put-Puts max_capacity junk fixed 1) t g v (2 ^ log2_ceil 32 count)
                      (log2_ceil 32 count) refl (ground arith) other room k w in
                  inr (
                    ground arith,
                    t',
                    g',
                    rw runs (rw (some_count, test, fits) refl),
                    v',
                    size,
                    capacity,
                    keeps,
                  )
              | inr over ↦ inl (ground arith, rw (some_count, test, over) refl)
            ]
      ]
