-- ===== src/ScatterTable/Grow.antt =====
-- `put` of a new key in a full table that may grow.
use native.Mathlib.Nat.{two-pow-succ}
use vrt.Base.{
  ◌==◌, ◌^◌, ◌≢◌, leb, true, ℕ, suc, ◌*◌, ◌≤◌, ◌≡◌, refl, false, if◌then◌else◌, sym, ◌∙◌, ap, inl,
  inr, none, some, Option-cases, arith,
}
use vrt.Base.Run.{Run, ok}
use vrt.Base.Power.{is_power_of_2-pow, pow_pos}
use vrt.ScatterTable.Defs.{Key, Slot, Table, rehash_impl, put}
use vrt.ScatterTable.Layout.{Plan}
use vrt.ScatterTable.Spec.{Valid, contents, contents_iff, scan}
use vrt.ScatterTable.Construct.{
  allocate_capacity_lem, fresh-Layout, fresh_buckets, fresh_plan, count-none,
}
use vrt.ScatterTable.Put.{Absent}
use vrt.ScatterTable.PutLaw.{with_entry, put_once-full}
use vrt.ScatterTable.Rehash.{Puts, none-Absent, put-Puts, reinsert-Kept}

module _ {K V : Type 0} ⦃key : Key K⦄ where
  fresh-Valid :
      (capacity n : ℕ) (junk : Slot K V) (k : K) (w : V)
      → capacity ≡ 2 ^ n
      → Valid (record { size = 0; buckets = fresh_buckets capacity junk }) (fresh_plan capacity k w)
  fresh-Valid capacity n junk k w power = record {
    layout = fresh-Layout capacity junk k w (rw power (pow_pos n));
    complete = λ i h off. ground arith;
    counted = sym (count-none capacity);
    some_slots = rw power (pow_pos n);
    power = (n, power);
  }

  fresh-contents :
      (capacity n : ℕ) (junk : Slot K V) (k : K) (w : V)
      → capacity ≡ 2 ^ n
      → (j : K) → contents (record { size = 0; buckets = fresh_buckets capacity junk }) j ≡ none
  fresh-contents capacity n junk k w power j =
      elim (Option-cases
        (contents (record { size = 0; buckets = fresh_buckets capacity junk }) j)) [
          | inl e ↦ e
          | inr (x, e) ↦
              let (i, u, _, _) =
                (contents_iff _ _ (fresh-Valid capacity n junk k w power) j x).0 e in
              absurd (ground arith)
        ]

  -- A rehash of a valid table to another capacity, a power of two that is enough and within the limit,
  -- with a put that keeps its law, succeeds: the new table is valid, has that capacity, as many
  -- entries and the same contents.
  pub rehash_impl-contents :
      (max_capacity : ℕ) (junk : Slot K V) (put_new : Table K V → K → V → Run (ℕ × Table K V))
      (puts : Puts put_new) (t : Table K V) (g : Plan K V)
      → Valid t g
      → (new_capacity n : ℕ) → new_capacity ≡ 2 ^ n
      → t.size ≤ new_capacity
      → new_capacity ≢ t.buckets.capacity
      → new_capacity ≤ max_capacity
      → (k : K) (w : V)
      → (t' : Table K V) × (g' : Plan K V) × (rehash_impl max_capacity junk put_new t new_capacity
          ≡ ok t')
        × Valid t' g'
        × (t'.size ≡ t.size)
        × (t'.buckets.capacity ≡ new_capacity)
        × ((j : K) → contents t' j ≡ contents t j)
  unfolding rehash_impl scan
  rehash_impl-contents max_capacity junk put_new puts t g v new_capacity n power enough other room k
        w =
      let (t', g', runs, v', size, capacity, keeps) =
        reinsert-Kept t g v put_new puts t.buckets.capacity 0 t.size
          (record { size = 0; buckets = fresh_buckets new_capacity junk })
          (fresh_plan new_capacity k w) (fresh-Valid new_capacity n junk k w power) (omega arith)
          (omega arith) (omega arith) enough (fresh-contents new_capacity n junk k w power) in
      let fits : leb t.size new_capacity ≡ true = ground arith in
      let differs : new_capacity == t.buckets.capacity ≡ false = ground arith in
      let all_in : t'.size == t.size ≡ true = ground arith in
      (
        t',
        g',
        rw (allocate_capacity_lem max_capacity new_capacity n junk room power)
            (rw (is_power_of_2-pow new_capacity n power, fits, differs) (rw runs (rw all_in refl))),
        v',
        size,
        capacity,
        keeps,
      )

  -- A new key in a valid, full table that is not of fixed capacity, with room for twice the
  -- capacity: `put` rehashes and succeeds, the table stays valid, and its contents are those before
  -- with the value at the key.
  pub put-grows :
      (max_capacity : ℕ) (junk : Slot K V) (fuel : ℕ) (t : Table K V) (g : Plan K V)
      → Valid t g
      → t.size ≡ t.buckets.capacity
      → 2 * t.buckets.capacity ≤ max_capacity
      → (k : K) (w : V) → contents t k ≡ none
      → (e : ℕ) × (t' : Table K V) × (g' : Plan K V) × (put max_capacity junk
            (suc (suc fuel))
            false
            t
            k
            w
          ≡ ok (e, t'))
        × Valid t' g'
        × ((j : K) → contents t' j ≡ with_entry (contents t) k w j)
  unfolding put
  put-grows max_capacity junk fuel t g v full_up room k w missing =
      let some_slots = v.some_slots in
      let (n, power) = v.power in
      let twice = two-pow-succ n in
      let (t₁, g₁, rehashes, v₁, size₁, capacity₁, keeps) =
        rehash_impl-contents max_capacity junk (put max_capacity junk (suc fuel) false)
          (put-Puts max_capacity junk false fuel) t g v (2 * t.buckets.capacity) (suc n)
          (omega arith) (omega arith) (λ q. omega arith) room k w in
      let (e, t', g', puts, v', law, _, _, _) =
        put-Puts max_capacity junk false fuel t₁ g₁ v₁ (omega arith) k w in
      (
        e,
        t',
        g',
        rw (put_once-full t g v full_up k w absent false) (rw rehashes puts),
        v',
        λ j. law j ∙ ap (λ f. if key.equal j k then some w else f) (keeps j),
      )
    where
      absent : Absent g k
      absent = none-Absent t g v k missing
