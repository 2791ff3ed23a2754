-- ===== src/ScatterTable/Tests.antt =====
-- Small tables of chained_scatter_table.h (vr/vr_common/src/vr/containers/util), on which the theorems apply.
use vrt.Base.{
  ℕ, ◌*◌, ◌^◌, ◌≤◌, ◌<◌, ◌≡◌, ◌≢◌, ◌↔◌, ◌⊎◌, refl, true, false, ◌==◌, if◌then◌else◌, none, arith,
}
use vrt.Base.Run.{ok, throws, capacity_limit, invalid_input}
use vrt.ScatterTable.Log2.{log2_ceil, log2_ceil_bounds}
use vrt.ScatterTable.Defs.{
  Key, free, used, Table, home, get, put, put_once, remove_and_get, construct, rehash_impl, rehash,
}
use vrt.ScatterTable.Layout.{Plan}
use vrt.ScatterTable.Spec.{Valid, contents, scan}
use vrt.ScatterTable.Get.{get-contents}
use vrt.ScatterTable.PutLaw.{put-contents, put_once-full, with_entry}
use vrt.ScatterTable.Remove.{remove_and_get-contents, without}
use vrt.ScatterTable.Rehash.{put-Puts}
use vrt.ScatterTable.Resize.{rehash-contents}
use vrt.ScatterTable.Grow.{put-grows, rehash_impl-contents}
use vrt.ScatterTable.Construct.{construct-contents}

equal_numbers : (a b : ℕ) → (a == b ≡ true) ↔ (a ≡ b)
equal_numbers a b = (λ e. ground arith, λ e. ground arith)

instance abbrev numbers : Key ℕ
numbers = record { equal = λ a b. a == b; hash = λ a. a; equal_iff = equal_numbers }

-- Two slots; the key 4 has slot 1, and slot 2 is free.
abbrev half : Table ℕ ℕ
half = record {
  size = 1;
  buckets = record {
    capacity = 2;
    cell = λ i. if i == 0 then free 2 2 else (if i == 1 then used 0 4 40 else free 0 0);
  };
}

abbrev half_plan : Plan ℕ ℕ
half_plan = record {
  free_on = λ i. if i == 0 then true else i == 2;
  used_on = λ i. i == 1;
  nx = λ i. if i == 0 then 2 else 0;
  pv = λ i. if i == 0 then 2 else 0;
  pos = λ i. i;
  key = λ _. 4;
  value = λ _. 40;
  cn = λ _. 0;
  pr = λ _. 0;
  rank = λ _. 0;
}

half-Valid : Valid half half_plan
unfolding home
half-Valid = record {
  layout = record {
    ring = record {
      sentinel = refl;
      each = λ i on. record {
        bound = ground arith;
        on_next = ground arith;
        on_prev = ground arith;
        prev_next = ground arith;
        next_prev = ground arith;
        up = λ ne. ground arith;
      };
    };
    chains = λ i on. record {
      low = ground arith;
      high = ground arith;
      on_home = refl;
      home_home = refl;
      on_next = λ ne. absurd (ground arith);
      home_next = λ ne. absurd (ground arith);
      next_ne_home = λ ne. absurd (ground arith);
      prev_next = λ ne. absurd (ground arith);
      up = λ ne. absurd (ground arith);
      on_prev = λ ne. absurd (ground arith);
      next_prev = λ ne. absurd (ground arith);
    };
    free_cells = λ i on. ground arith;
    used_cells = λ i on. ground arith;
    unique = λ i j a b q. ground arith;
    apart = λ i on. ground arith;
  };
  complete = λ i h off. ground arith;
  counted = refl;
  some_slots = omega arith;
  power = (1, refl);
}

-- Two slots, both in the chain of slot 1.
abbrev crowded : Table ℕ ℕ
crowded = record {
  size = 2;
  buckets = record {
    capacity = 2;
    cell = λ i. if i == 0 then free 0 0 else (if i == 1 then used 2 4 40 else used 0 6 60);
  };
}

abbrev crowded_plan : Plan ℕ ℕ
crowded_plan = record {
  free_on = λ i. i == 0;
  used_on = λ i. if i == 1 then true else i == 2;
  nx = λ _. 0;
  pv = λ _. 0;
  pos = λ _. 0;
  key = λ i. if i == 1 then 4 else 6;
  value = λ i. if i == 1 then 40 else 60;
  cn = λ i. if i == 1 then 2 else 0;
  pr = λ _. 1;
  rank = λ i. i;
}

homes : (i : ℕ) → home 2 (crowded_plan.key i) ≡ 1
unfolding home
homes i = ground arith

crowded-Valid : Valid crowded crowded_plan
crowded-Valid = record {
  layout = record {
    ring = record {
      sentinel = refl;
      each = λ i on. record {
        bound = ground arith;
        on_next = refl;
        on_prev = refl;
        prev_next = ground arith;
        next_prev = ground arith;
        up = λ ne. absurd (ground arith);
      };
    };
    chains = λ i on. record {
      low = ground arith;
      high = ground arith;
      on_home = ground (arith, homes i);
      home_home = ground (arith, homes i, homes (home 2 (crowded_plan.key i)));
      on_next = λ ne. ground arith;
      home_next = λ ne. ground (arith, homes i, homes (crowded_plan.cn i));
      next_ne_home = λ ne. ground (arith, homes i);
      prev_next = λ ne. ground arith;
      up = λ ne. ground arith;
      on_prev = λ ne. refl;
      next_prev = λ ne. ground (arith, homes i);
    };
    free_cells = λ i on. ground arith;
    used_cells = λ i on. ground arith;
    unique = λ i j a b q. ground arith;
    apart = λ i on. ground arith;
  };
  complete = λ i h off. ground arith;
  counted = refl;
  some_slots = omega arith;
  power = (1, refl);
}

get-contents_example : get crowded 6 ≡ ok (contents crowded 6)
get-contents_example = get-contents crowded crowded_plan crowded-Valid 6

put-contents_example :
    (e : ℕ) × (t : Table ℕ ℕ) × (g : Plan ℕ ℕ) × (put 100 (free 0 0) 2 false half 8 80 ≡ ok (e, t))
    × Valid t g
    × ((j : ℕ) → contents t j ≡ with_entry (contents half) 8 80 j)
put-contents_example =
    put-contents 100 (free 0 0) false 1 half half_plan half-Valid (omega arith) 8 80

absent_five : (i : ℕ) → crowded_plan.used_on i ≡ true → crowded_plan.key i ≢ 5
absent_five i on q = ground arith

put_once-full_example : put_once true crowded 5 50 ≡ throws capacity_limit
put_once-full_example = put_once-full crowded crowded_plan crowded-Valid refl 5 50 absent_five true

remove_and_get-contents_example :
    (t : Table ℕ ℕ) × (g : Plan ℕ ℕ) × (remove_and_get crowded 4 ≡ ok (contents crowded 4, t))
    × Valid t g
    × ((j : ℕ) → contents t j ≡ without (contents crowded) 4 j)
remove_and_get-contents_example = remove_and_get-contents crowded crowded_plan crowded-Valid 4

construct-contents_example :
    (t : Table ℕ ℕ) × (g : Plan ℕ ℕ) × (construct 8 (free 0 0) 3 ≡ ok t)
    × Valid t g
    × (3 ≤ t.buckets.capacity)
    × ((j : ℕ) → contents t j ≡ none)
unfolding log2_ceil
construct-contents_example =
    construct-contents 8 (free 0 0) 3 4 40 (omega arith) (omega arith) (omega arith)

log2_ceil_bounds_example : (5 ≤ 2 ^ log2_ceil 32 5) × (2 ^ log2_ceil 32 5 < 2 * 5)
log2_ceil_bounds_example = log2_ceil_bounds 32 5 (omega arith) (omega arith)

missing_five : contents crowded 5 ≡ none
unfolding contents scan
missing_five = refl

put-grows_example :
    (e : ℕ) × (t : Table ℕ ℕ) × (g : Plan ℕ ℕ) × (put 100 (free 0 0) 2 false crowded 5 50
      ≡ ok (e, t))
    × Valid t g
    × ((j : ℕ) → contents t j ≡ with_entry (contents crowded) 5 50 j)
put-grows_example =
    put-grows 100 (free 0 0) 0 crowded crowded_plan crowded-Valid refl (omega arith) 5 50
      missing_five

rehash_impl-contents_example :
    (t : Table ℕ ℕ) × (g : Plan ℕ ℕ) × (rehash_impl 100
        (free 0 0)
        (put 100 (free 0 0) 1 true)
        crowded
        8
      ≡ ok t)
    × Valid t g
    × (t.size ≡ 2)
    × (t.buckets.capacity ≡ 8)
    × ((j : ℕ) → contents t j ≡ contents crowded j)
rehash_impl-contents_example =
    rehash_impl-contents 100 (free 0 0) (put 100 (free 0 0) 1 true) (put-Puts 100 (free 0 0) true 0)
      crowded crowded_plan crowded-Valid 8 3 refl (omega arith) (λ q. omega arith) (omega arith) 4
      40

rehash-contents_example :
    ((2 ^ log2_ceil 32 5 < 2) × (rehash 100 (free 0 0) false crowded 5 ≡ throws invalid_input))
    ⊎ ((2 ≤ 2 ^ log2_ceil 32 5)
        × (t : Table ℕ ℕ) × (g : Plan ℕ ℕ) × (rehash 100 (free 0 0) false crowded 5 ≡ ok t)
        × Valid t g
        × (t.size ≡ 2)
        × (t.buckets.capacity ≡ 2 ^ log2_ceil 32 5)
        × ((j : ℕ) → contents t j ≡ contents crowded j))
unfolding log2_ceil
rehash-contents_example =
    rehash-contents 100 (free 0 0) false crowded crowded_plan crowded-Valid 5 (omega arith)
      (omega arith) 4 40
