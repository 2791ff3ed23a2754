-- ===== src/ScatterTable/Defs/Sizing.antt =====
-- `put` with its rehash, `rehash` and the constructor of the table (vr/vr_common/src/vr/containers/util/chained_scatter_table.h).
use vrt.Base.{ℕ, zero, suc, ◌+◌, ◌*◌, ◌^◌, Bool, not, leb, ltb, ◌==◌, if◌then◌else◌}
use vrt.Base.Run.{Run, ok, fault, invalid_input, ◌>>=◌, ◌>>◌, assert, check}
use vrt.Base.Power.{is_power_of_2}
use vrt.ScatterTable.Log2.{log2_ceil}
use vrt.ScatterTable.Defs.Slots.{Key, Slot, free, used, Buckets, Table, load, allocate_capacity}
use vrt.ScatterTable.Defs.Access.{done, full, put_once}

module _ {K V : Type 0} ⦃key : Key K⦄ where
  -- `rehash_impl`: every entry of the old buckets, in order, is put into new ones. `put_new` is `put`;
  -- `i` entries are left to find, from slot `e_addr` on, in at most `n` slots.
  unfoldable pub reinsert :
      (Table K V → K → V → Run (ℕ × Table K V))
      → (n e_addr i : ℕ) → Buckets K V
      → Table K V
      → Run (Table K V)
  unfolding load
  reinsert put_new zero e_addr zero old t = ok t
  reinsert put_new zero e_addr (suc i) old t = fault
  reinsert put_new (suc n) e_addr zero old t = ok t
  reinsert put_new (suc n) e_addr (suc i) old t = do
    s ← load old e_addr
    elim s [
      | free p m ↦ reinsert put_new n (e_addr + 1) (suc i) old t
      | used m k v ↦ do (_, t') ← put_new t k v; reinsert put_new n (e_addr + 1) i old t'
    ]

  module _ (max_capacity : ℕ) (junk : Slot K V) where
    unfoldable pub rehash_impl :
        (Table K V → K → V → Run (ℕ × Table K V)) → Table K V → (new_capacity : ℕ) → Run (Table K V)
    unfolding is_power_of_2 reinsert allocate_capacity
    rehash_impl put_new t new_capacity = do
      assert (is_power_of_2 new_capacity)
      assert (leb t.size new_capacity)
      assert (not (new_capacity == t.buckets.capacity))
      b ← allocate_capacity max_capacity new_capacity junk
      let fresh : Table K V = record { size = 0; buckets = b }
      t' ← reinsert put_new t.buckets.capacity 1 t.size t.buckets fresh
      assert (t'.size == t.size)
      ok t'

    -- `put`. A retry follows a rehash, and the puts of a rehash need none: two rounds are enough.
    unfoldable pub put : (fuel : ℕ) → (fixed : Bool) → Table K V → K → V → Run (ℕ × Table K V)
    unfolding put_once rehash_impl
    put zero fixed t k v = fault
    put (suc fuel) fixed t k v = do
      r ← put_once fixed t k v
      elim r [
        | done e t' ↦ ok (e, t')
        | full ↦ do
          t' ← rehash_impl (put fuel fixed) t (2 * t.buckets.capacity)
          put fuel fixed t' k v
      ]

    -- `rehash`
    unfoldable pub rehash : (fixed : Bool) → Table K V → (count : ℕ) → Run (Table K V)
    unfolding rehash_impl put log2_ceil
    rehash fixed t count = do
      check (ltb 0 count) invalid_input
      let target_capacity = 2 ^ log2_ceil 32 count
      if target_capacity == t.buckets.capacity then ok t else (do
        check (leb t.size target_capacity) invalid_input
        rehash_impl (put 2 fixed) t target_capacity)

    -- The constructor.
    unfoldable pub construct : (initial_capacity : ℕ) → Run (Table K V)
    unfolding allocate_capacity log2_ceil
    construct initial_capacity = do
      check (ltb 0 initial_capacity) invalid_input
      b ← allocate_capacity max_capacity (2 ^ log2_ceil 32 initial_capacity) junk
      ok (record { size = 0; buckets = b })
