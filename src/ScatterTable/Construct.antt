-- ===== src/ScatterTable/Construct.antt =====
-- The constructor and `allocate_capacity`: all slots are on the free list.
use mathlib.Core.Path.{fun_ext}
use vrt.Base.{
  ℕ, zero, suc, ◌+◌, ◌-◌, ◌^◌, ◌≤◌, ◌<◌, ◌≡◌, refl, true, false, ◌&&◌, ◌==◌, leb, ltb,
  if◌then◌else◌, sym, ◌∙◌, ap, inl, inr, none, Option-cases, arith,
}
use vrt.Base.Run.{ok}
use vrt.Base.Power.{is_power_of_2-pow, pow_pos}
use vrt.ScatterTable.Log2.{log2_ceil, log2_ceil_bounds}
use vrt.ScatterTable.Defs.{Key, Slot, free, Buckets, Table, link_free, allocate_capacity, construct}
use vrt.ScatterTable.Layout.{Plan, Layout, set_cell, set_free_next-cell, set_free_prev-cell}
use vrt.ScatterTable.Spec.{Valid, count, contents, contents_iff}

module _ {K V : Type 0} where
  link_free-cell :
      (n index : ℕ) (cell : ℕ → Slot K V) (i : ℕ)
      → link_free n index cell i
        ≡ (if leb index i && ltb i (index + n) then free (i - 1) (i + 1) else cell i)
  unfolding link_free
  link_free-cell zero index cell i = ground arith
  link_free-cell (suc n) index cell i = link_free-cell n (index + 1) _ i ∙ ground arith

  -- The slots of a new table: a ring in the order of their indices.
  abbrev pub fresh_cell : (capacity : ℕ) → Slot K V → ℕ → Slot K V
  fresh_cell capacity junk i =
      if leb i capacity
      then free (if i == 0 then capacity else i - 1) (if i == capacity then 0 else i + 1)
      else junk

  abbrev pub fresh_buckets : ℕ → Slot K V → Buckets K V
  fresh_buckets capacity junk = record { capacity = capacity; cell = fresh_cell capacity junk }

  pub allocate_capacity_lem :
      (max_capacity capacity k : ℕ) (junk : Slot K V)
      → capacity ≤ max_capacity
      → capacity ≡ 2 ^ k
      → allocate_capacity max_capacity capacity junk ≡ ok (fresh_buckets capacity junk)
  unfolding allocate_capacity
  allocate_capacity_lem max_capacity capacity k junk room power =
      rw (is_power_of_2-pow capacity k power, test)
        (rw
          (set_free_next-cell linked capacity (capacity - 1) (capacity + 1) 0 (omega arith) at_last)
          (set_free_prev-cell (set_cell linked capacity (free (capacity - 1) 0)) 0 0 1 capacity
              (omega arith) at_zero
            ∙ ap (λ c. ok (record { capacity = capacity; cell = c })) (fun_ext same)))
    where
      some_slots : 0 < capacity
      some_slots = rw power (pow_pos k)

      test : leb capacity max_capacity ≡ true
      test = ground arith

      linked : Buckets K V
      linked = record { capacity = capacity; cell = link_free (capacity + 1) 0 (λ _. junk) }

      at_last : link_free (capacity + 1) 0 (λ _. junk) capacity ≡ free (capacity - 1) (capacity + 1)
      at_last = link_free-cell (capacity + 1) 0 (λ _. junk) capacity ∙ ground arith

      at_zero :
          (if 0 == capacity
            then free (capacity - 1) 0
            else link_free (capacity + 1) 0 (λ _. junk) 0)
          ≡ free 0 1
      at_zero = rw (link_free-cell (capacity + 1) 0 (λ _. junk) 0) (ground (arith, some_slots))

      same :
          (i : ℕ)
          → (if i == 0
              then free capacity 1
              else (if i == capacity
                  then free (capacity - 1) 0
                  else link_free (capacity + 1) 0 (λ _. junk) i))
            ≡ fresh_cell capacity junk i
      same i = rw (link_free-cell (capacity + 1) 0 (λ _. junk) i) (ground (arith, some_slots))

  abbrev pub fresh_plan : (capacity : ℕ) → K → V → Plan K V
  fresh_plan capacity k v = record {
    free_on = λ i. leb i capacity;
    used_on = λ _. false;
    nx = λ i. if i == capacity then 0 else i + 1;
    pv = λ i. if i == 0 then capacity else i - 1;
    pos = λ i. i;
    key = λ _. k;
    value = λ _. v;
    cn = λ _. 0;
    pr = λ _. 0;
    rank = λ _. 0;
  }

pub count-none : (n : ℕ) → count (λ _. false) n ≡ 0
count-none zero = refl
count-none (suc n) = omega (arith, count-none n)

module _ {K V : Type 0} ⦃key : Key K⦄ where
  pub fresh-Layout :
      (capacity : ℕ) (junk : Slot K V) (k : K) (v : V)
      → 0 < capacity
      → Layout (fresh_buckets capacity junk) (fresh_plan capacity k v)
  fresh-Layout capacity junk k v pos = record {
    ring = record {
      sentinel = ground arith;
      each = λ i on. record {
        bound = ground arith;
        on_next = ground arith;
        on_prev = ground arith;
        prev_next = ground arith;
        next_prev = ground arith;
        up = λ ne. ground arith;
      };
    };
    chains = λ i on. absurd (ground arith);
    free_cells = λ i on. ground arith;
    used_cells = λ i on. absurd (ground arith);
    unique = λ i j on. absurd (ground arith);
    apart = λ i on. absurd (ground arith);
  }

  -- For a positive number of at most 2 ^ 32 whose power of two is within the limit, the constructor
  -- makes a valid table with room for it and nothing in it.
  pub construct-contents :
      (max_capacity : ℕ) (junk : Slot K V) (n : ℕ) (k : K) (v : V)
      → 0 < n
      → n ≤ 2 ^ 32
      → 2 ^ log2_ceil 32 n ≤ max_capacity
      → (t : Table K V) × (g : Plan K V) × (construct max_capacity junk n ≡ ok t)
        × Valid t g
        × (n ≤ t.buckets.capacity)
        × ((j : K) → contents t j ≡ none)
  unfolding construct
  construct-contents max_capacity junk n k v some_slots narrow room = (
    t,
    g,
    rw test (
        rw (allocate_capacity_lem max_capacity (2 ^ log2_ceil 32 n) (log2_ceil 32 n) junk room refl)
          refl),
    valid,
    bounds.0,
    λ j. elim (Option-cases (contents t j)) [
      | inl e ↦ e
      | inr (w, e) ↦ let (i, u, _, _) = (contents_iff t g valid j w).0 e in absurd (ground arith)
    ],
  )
    where
      bounds : (n ≤ 2 ^ log2_ceil 32 n) × (2 ^ log2_ceil 32 n < n + n)
      bounds = let (a, b) = log2_ceil_bounds 32 n some_slots narrow in (a, omega arith)

      large : 0 < 2 ^ log2_ceil 32 n
      large = omega (arith, bounds.0)

      test : ltb 0 n ≡ true
      test = ground arith

      t : Table K V
      t = record { size = 0; buckets = fresh_buckets (2 ^ log2_ceil 32 n) junk }

      g : Plan K V
      g = fresh_plan (2 ^ log2_ceil 32 n) k v

      valid : Valid t g
      valid = record {
        layout = fresh-Layout (2 ^ log2_ceil 32 n) junk k v large;
        complete = λ i h off. ground arith;
        counted = sym (count-none (2 ^ log2_ceil 32 n));
        some_slots = large;
        power = (log2_ceil 32 n, refl);
      }
