-- ===== src/Pool/Grow.antt =====
-- `allocate_first_slot_of_new_chunk`: a pool with no free slot grows by a chunk.
use native.Mathlib.Decide.{dec_lt, ℕ_discrete}
use vrt.Base.{
  ℕ, suc, ◌+◌, ◌-◌, ◌*◌, ◌≤◌, ◌<◌, ◌≡◌, refl, true, false, List, [], ◌∷◌, ◌++◌, leb, ◌==◌,
  if◌then◌else◌, length, arith, contains, none, some, ◌∙◌, length-append,
}
use vrt.Base.Run.{ok}
use vrt.Pool.Defs.{
  link, object, Options, Pool, addr, Chunk, chunk_capacity, null_ref, address, store, allocate_slot,
  allocate, allocate_first_slot_of_new_chunk, allocate_chunk, link_slots, new_chunk,
}
use vrt.Pool.Content.{content, write, store-write, length-write, content-write}
use vrt.Pool.FreeList.{IsValid, object_at}
use vrt.Pool.Runs.{
  count_up, contains-count_up, count_up-Distinct, FreePath-count_up, link_slots-at,
  content-append_old, content-append_new, index_of_offset,
}
use vrt.Pool.Allocate.{Allocated}

module _ (o : Options) {A : Type 0} (p : Pool A) (v : IsValid o p []) (wide : 1 < chunk_capacity o)
    (a : A) where
  first_ref : ℕ
  first_ref = length p.chunks * chunk_capacity o

  last_ref : ℕ
  last_ref = first_ref + (chunk_capacity o - 1)

  appended : List (Chunk A)
  appended = p.chunks ++ link_slots o (chunk_capacity o - 2) 1 (first_ref + 1) (new_chunk o) ∷ []

  -- all but the object
  grown : List (Chunk A)
  grown = write o appended last_ref (link (null_ref o))

  filled : List (Chunk A)
  filled = write o grown first_ref (object a)

  length-appended : length appended * chunk_capacity o ≡ last_ref + 1
  unfolding appended last_ref first_ref
  length-appended = rw (length-append p.chunks _) (omega arith)

  length-filled : length filled ≡ length p.chunks + 1
  unfolding filled grown appended
  length-filled =
      rw (length-write o _ _ _, length-write o _ _ _, length-append p.chunks _) (omega arith)

  bound-filled : length filled * chunk_capacity o ≡ last_ref + 1
  unfolding last_ref first_ref
  bound-filled = rw length-filled (omega arith)

  content-filled :
      (s : ℕ)
      → content o filled s ≡ (
          if first_ref == s
          then object a
          else (if last_ref == s then link (null_ref o) else content o appended s))
  unfolding filled grown
  content-filled s = rw (
    content-write o grown first_ref (object a) s first_lt,
    content-write o appended last_ref (link (null_ref o)) s last_lt,
  )
    where
      last_lt : last_ref < length appended * chunk_capacity o
      last_lt = omega (arith, length-appended)

      first_lt : first_ref < length grown * chunk_capacity o
      first_lt =
          rw (length-write o appended last_ref (link (null_ref o)))
            (unfold last_ref in omega (arith, length-appended))

  content-appended_old : (s : ℕ) → s < first_ref → content o appended s ≡ content o p.chunks s
  unfolding first_ref appended
  content-appended_old s h =
      content-append_old o p.chunks
        (link_slots o (chunk_capacity o - 2) 1 (first_ref + 1) (new_chunk o)) s h

  content-appended_new :
      (s : ℕ) → first_ref < s → s < last_ref → content o appended s ≡ link (suc s)
  unfolding first_ref last_ref appended
  content-appended_new s h k =
      let j : ℕ = s - first_ref in
      let e : first_ref + j ≡ s = omega arith in
      rw (← e) (
        content-append_new o p.chunks
          (link_slots o (chunk_capacity o - 2) 1 (first_ref + 1) (new_chunk o)) j (omega arith)
        ∙ link_slots-at o (chunk_capacity o - 2) 1 (first_ref + 1) (new_chunk o {A = A}) j
        ∙ ground arith)

  content-old : (s : ℕ) → s < first_ref → content o filled s ≡ content o p.chunks s
  unfolding last_ref
  content-old s h = rw (content-filled s) (ground (arith, content-appended_old s h))

  content-new : (s : ℕ) → first_ref < s → s < last_ref → content o filled s ≡ link (suc s)
  content-new s h k = rw (content-filled s) (ground (arith, content-appended_new s h k))

  content-last : content o filled last_ref ≡ link (null_ref o)
  unfolding last_ref
  content-last = rw (content-filled last_ref) (ground arith)

  content-first : content o filled first_ref ≡ object a
  content-first = rw (content-filled first_ref) (ground arith)

  -- The slots of the new chunk but its first.
  rest_of_chunk : List ℕ
  rest_of_chunk = count_up (suc (chunk_capacity o - 2)) (suc first_ref)

  grown_pool : Pool A
  grown_pool = record {
    chunks = filled;
    chunk_count = p.chunk_count + 1;
    free_list = first_ref + 1;
  }

  grown_pool-IsValid :
      (length p.chunks + 1) * chunk_capacity o ≤ o.max_capacity → IsValid o grown_pool rest_of_chunk
  unfolding grown_pool rest_of_chunk
  grown_pool-IsValid room = record {
    counted = omega (arith, v.counted, length-filled);
    bounded = rw length-filled room;
    path =
        let e : first_ref + 1 ≡ suc first_ref = omega arith in
        rw e (
          FreePath-count_up o (content o filled) (length filled * chunk_capacity o)
            (chunk_capacity o - 2) (suc first_ref) last_ref (unfold last_ref in omega arith)
            (omega (arith, bound-filled)) (λ s h k. content-new s (omega arith) k) content-last);
    distinct = count_up-Distinct (suc (chunk_capacity o - 2)) (suc first_ref);
    objects = objects;
  }
    where
      objects :
          (r : ℕ)
          → r < length filled * chunk_capacity o
          → contains r (count_up (suc (chunk_capacity o - 2)) (suc first_ref)) ≡ false
          → (x : A) × (content o filled r ≡ object x)
      objects r h n = elim (dec_lt r first_ref) [
        | yes old ↦
            let (x, e) = v.objects r (unfold first_ref in old) refl in (x, content-old r old ∙ e)
        | no new ↦
            let same : first_ref ≡ r =
              unfold last_ref in
              ground (
                arith,
                bound-filled,
                contains-count_up (suc (chunk_capacity o - 2)) (suc first_ref) r,
              ) in
            (a, rw same at content-first)
      ]

  object_at-first : object_at o p first_ref ≡ none
  unfolding object_at first_ref
  object_at-first = ground arith

  -- The slots of the new chunk hold no object but the first.
  object_at-new : (s : ℕ) → first_ref < s → object_at o grown_pool s ≡ none
  unfolding object_at grown_pool
  object_at-new s h = elim (dec_lt s last_ref) [
    | yes k ↦ rw (content-new s h k) (ground arith)
    | no k ↦ elim (ℕ_discrete s last_ref) [
      | yes e ↦ rw (e, content-last) (ground arith)
      | no n ↦ ground (arith, bound-filled)
    ]
  ]

  object_at-grown :
      (s : ℕ) → object_at o grown_pool s ≡ (if s == first_ref then some a else object_at o p s)
  object_at-grown s = elim (dec_lt s first_ref) [
    | yes old ↦ ground (arith, below old)
    | no above ↦ elim (dec_lt first_ref s) [
      | yes new ↦ ground (arith, object_at-new s new, beyond new)
      | no below' ↦ let e : s ≡ first_ref = omega arith in rw e (ground (arith, at_first))
    ]
  ]
    where
      below : s < first_ref → object_at o grown_pool s ≡ object_at o p s
      below h =
          unfold object_at grown_pool in
          rw (content-old s h) (unfold first_ref last_ref in ground (arith, bound-filled))

      beyond : first_ref < s → object_at o p s ≡ none
      beyond h = unfold object_at first_ref in ground arith

      at_first : object_at o grown_pool first_ref ≡ some a
      at_first =
          unfold object_at grown_pool in
          rw content-first (unfold last_ref in ground (arith, bound-filled))

  address-first : address o first_ref ≡ addr (length p.chunks) 0
  unfolding address first_ref
  address-first =
      ground (arith, index_of_offset (length p.chunks) (chunk_capacity o) 0 (omega arith))

  address-last : address o last_ref ≡ addr (length p.chunks) (chunk_capacity o - 1)
  unfolding address last_ref first_ref
  address-last = ground (
    arith,
    index_of_offset (length p.chunks) (chunk_capacity o) (chunk_capacity o - 1) (omega arith),
  )

  store-last :
      store
        (p.chunks
          ++ link_slots o
              (chunk_capacity o - 2)
              1
              (length p.chunks * chunk_capacity o + 1)
              (new_chunk o)
            ∷ [])
        (addr (length p.chunks) (chunk_capacity o - 1))
        (link (null_ref o))
      ≡ ok grown
  unfolding grown appended first_ref
  store-last =
      rw (← address-last)
        (store-write o appended last_ref (link (null_ref o)) (omega (arith, length-appended)))

  store-first : store grown (addr (length p.chunks) 0) (object a) ≡ ok filled
  unfolding filled
  store-first = rw (← address-first) (
      store-write o grown first_ref (object a) (
        unfold grown last_ref in
        rw (length-write o appended last_ref (link (null_ref o))) (omega (arith, length-appended))))

  allocate-grown :
      (length p.chunks + 1) * chunk_capacity o ≤ o.max_capacity
      → allocate o a p ≡ ok (first_ref, grown_pool)
  unfolding allocate allocate_slot allocate_first_slot_of_new_chunk allocate_chunk
  allocate-grown room =
      rw (v.path, v.counted)
        (rw test (
          rw enough (rw store-last (rw store-first (unfold grown_pool first_ref in rw v.counted)))))
    where
      test : null_ref o == null_ref o ≡ true
      test = ground arith

      enough : leb ((length p.chunks + 1) * chunk_capacity o) o.max_capacity ≡ true
      enough = ground arith

-- In a valid pool with no free slot and room below the limit of the pointer type, `allocate` adds
-- a chunk: the pool stays valid, the reference has the object, and every other reference keeps its
-- own.
pub allocate-grow :
    (o : Options) {A : Type 0} (p : Pool A)
    → IsValid o p []
    → 1 < chunk_capacity o
    → (a : A) → (length p.chunks + 1) * chunk_capacity o ≤ o.max_capacity
    → (q : Pool A) × (r : ℕ) × (free : List ℕ) × (allocate o a p ≡ ok (r, q))
      × Allocated o a p r q free
allocate-grow o p v wide a room = (
  grown_pool o p v wide a,
  first_ref o p v wide a,
  rest_of_chunk o p v wide a,
  allocate-grown o p v wide a room,
  (
    grown_pool-IsValid o p v wide a room,
    object_at-first o p v wide a,
    object_at-grown o p v wide a,
  ),
)
