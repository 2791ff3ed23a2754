-- ===== src/Pool/Tests.antt =====
-- Small pools of the allocator (vr/vr_common/src/vr/util/object_pools.h), on which its theorems apply.
use vrt.Base.{
  ℕ, zero, suc, ◌+◌, ◌*◌, ◌↔◌, ◌≤◌, ◌<◌, ◌≡◌, refl, Bool, true, false, none, some, List, [], ◌∷◌,
  ◌==◌, if◌then◌else◌, length, contains, arith, Distinct, is_some,
}
use vrt.Base.Run.{ok, throws, invalid_input}
use vrt.Pool.Defs.{
  Slot, link, object, Options, Pool, chunk_capacity, capacity, construct, allocate, release, deref,
  allocation_bitmap, check_pool,
}
use vrt.Pool.Content.{content}
use vrt.Pool.FreeList.{IsValid, FreePath, object_at}
use vrt.Pool.Allocate.{Allocated, allocate-free}
use vrt.Pool.Exhausted.{AllTaken, allocate-exhausted}
use vrt.Pool.Grow.{allocate-grow}
use vrt.Pool.Construct.{construct_lem, chunks_for}
use vrt.Pool.Release.{release_lem, deref-object_at}
use vrt.Pool.Walk.{allocation_bitmap-object_at, check_pool-IsValid, check_pool_sound}

abbrev pair : Slot ℕ → Slot ℕ → ℕ → Slot ℕ
pair a b i = if i == 0 then a else b

-- Chunks of two slots, and a pointer type that ends at 7.
abbrev small : Options
small = record { chunk_index_shift = 1; max_capacity = 7; check_input = true }

-- The same with a pointer type that ends at 5.
abbrev tiny : Options
tiny = record small { max_capacity = 5 }

abbrev one_free : Pool ℕ
one_free = record {
  chunks = pair (object 10) (object 11) ∷ pair (object 12) (link 7) ∷ [];
  chunk_count = 2;
  free_list = 3;
}

abbrev none_free : Options → Pool ℕ
none_free o = record {
  chunks = pair (object 10) (object 11) ∷ pair (object 12) (object 13) ∷ [];
  chunk_count = 2;
  free_list = o.max_capacity;
}

below_four : (r : ℕ) → r < 4 → (P : ℕ → Type 0) → P 0 → P 1 → P 2 → P 3 → P r
below_four zero h P a b c d = a
below_four (suc zero) h P a b c d = b
below_four (suc (suc zero)) h P a b c d = c
below_four (suc (suc (suc zero))) h P a b c d = d
below_four (suc (suc (suc (suc r)))) h P a b c d = absurd (omega arith)

one_free-IsValid : IsValid small one_free (3 ∷ [])
unfolding content
one_free-IsValid = record {
  counted = refl;
  bounded = omega arith;
  path = (refl, omega arith, 7, refl, refl);
  distinct = (tt, tt);
  objects = λ r h.
      below_four r h
        (λ r. contains r (3 ∷ []) ≡ false → (x : ℕ) × (content small one_free.chunks r ≡ object x))
        (λ _. (10, refl)) (λ _. (11, refl)) (λ _. (12, refl)) (λ e. absurd (ground arith));
}

none_free-small : IsValid small (none_free small) []
unfolding content
none_free-small = record {
  counted = refl;
  bounded = omega arith;
  path = refl;
  distinct = tt;
  objects = λ r h.
      below_four r h
        (λ r.
          contains r [] ≡ false → (x : ℕ) × (content small (none_free small).chunks r ≡ object x))
        (λ _. (10, refl)) (λ _. (11, refl)) (λ _. (12, refl)) (λ _. (13, refl));
}

none_free-tiny : IsValid tiny (none_free tiny) []
unfolding content
none_free-tiny = record {
  counted = refl;
  bounded = omega arith;
  path = refl;
  distinct = tt;
  objects = λ r h.
      below_four r h
        (λ r. contains r [] ≡ false → (x : ℕ) × (content tiny (none_free tiny).chunks r ≡ object x))
        (λ _. (10, refl)) (λ _. (11, refl)) (λ _. (12, refl)) (λ _. (13, refl));
}

construct_lem_example :
    (p : Pool ℕ) × (free : List ℕ) × (construct small 3 ≡ ok p)
    × IsValid small p free
    × (3 ≤ capacity small p)
    × ((r : ℕ) → object_at small p r ≡ none)
construct_lem_example = construct_lem small ℕ 3 (omega arith) (unfold chunks_for in omega arith)

allocate-free_example :
    (q : Pool ℕ) × (allocate small 20 one_free ≡ ok (3, q)) × Allocated small 20 one_free 3 q []
allocate-free_example = allocate-free small 20 one_free 3 [] one_free-IsValid

allocate-grow_example :
    (q : Pool ℕ) × (r : ℕ) × (free : List ℕ) × (allocate small 20 (none_free small) ≡ ok (r, q))
    × Allocated small 20 (none_free small) r q free
allocate-grow_example =
    allocate-grow small (none_free small) none_free-small (omega arith) 20 (omega arith)

allocate-exhausted_example : (allocate tiny 20 (none_free tiny) ≡ throws invalid_input) ↔ (
    AllTaken tiny (none_free tiny)
    × (tiny.max_capacity < (length (none_free tiny).chunks + 1) * chunk_capacity tiny))
allocate-exhausted_example =
    allocate-exhausted tiny (none_free tiny) [] none_free-tiny (omega arith) 20

second_object : object_at small one_free 1 ≡ some 11
unfolding object_at content
second_object = refl

release_lem_example :
    (q : Pool ℕ) × (release small 1 one_free ≡ ok q)
    × IsValid small q (1 ∷ 3 ∷ [])
    × ((s : ℕ) → object_at small q s ≡ (if s == 1 then none else object_at small one_free s))
release_lem_example = release_lem small one_free (3 ∷ []) 1 11 one_free-IsValid second_object

deref-object_at_example : deref small one_free 1 ≡ ok 11
deref-object_at_example =
    deref-object_at small one_free (3 ∷ []) 1 11 one_free-IsValid second_object

allocation_bitmap-object_at_example :
    (bits : ℕ → Bool) × (allocation_bitmap small one_free ≡ ok bits)
    × ((r : ℕ) → bits r ≡ is_some (object_at small one_free r))
allocation_bitmap-object_at_example =
    allocation_bitmap-object_at small one_free (3 ∷ []) one_free-IsValid

check_pool-IsValid_example : check_pool small one_free ≡ ok tt
check_pool-IsValid_example = check_pool-IsValid small one_free (3 ∷ []) one_free-IsValid

check_pool_sound_example :
    (free : List ℕ) × FreePath small
      (content small one_free.chunks)
      (length one_free.chunks * chunk_capacity small)
      one_free.free_list
      free
    × Distinct free
check_pool_sound_example =
    check_pool_sound small one_free refl
      (check_pool-IsValid small one_free (3 ∷ []) one_free-IsValid)
