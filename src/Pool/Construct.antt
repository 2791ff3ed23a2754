-- ===== src/Pool/Construct.antt =====
-- The constructor of a pool: all slots of its chunks on the free list, in order.
use native.Mathlib.Nat.{add-div_left, add-mod_left, lt-div-mul-add, le-div_iff_mul-le}
use native.Mathlib.Decide.{dec_lt}
use vrt.Base.{
  ℕ, zero, suc, ◌+◌, ◌-◌, ◌*◌, ◌/◌, ◌≤◌, ◌<◌, ◌≡◌, refl, ap, true, List, [], ◌∷◌, ltb, leb, ◌==◌,
  if◌then◌else◌, length, arith, none, sym, ◌∙◌, replicate, length-replicate,
}
use vrt.Base.Run.{ok}
use vrt.Pool.Defs.{
  link, Options, Pool, addr, Chunk, chunk_capacity, null_ref, address, capacity, store, link_slots,
  link_chunks, new_chunk, create, construct,
}
use vrt.Pool.Content.{content, write, store-write, length-write, content-write, chunk_capacity_pos}
use vrt.Pool.FreeList.{IsValid, object_at}
use vrt.Pool.Runs.{
  count_up, contains-count_up, count_up-Distinct, FreePath-count_up, link_slots-at, index_of_offset,
}

module _ (o : Options) {A : Type 0} where
  length-link_chunks : (ref : ℕ) (cs : List (Chunk A)) → length (link_chunks o ref cs) ≡ length cs
  unfolding link_chunks
  length-link_chunks ref [] = refl
  length-link_chunks ref (c ∷ cs) = ap suc (length-link_chunks (ref + chunk_capacity o) cs)

  content-cons_first :
      (c : Chunk A) (m : List (Chunk A)) (r : ℕ) → r < chunk_capacity o → content o (c ∷ m) r ≡ c r
  unfolding content
  content-cons_first c m r h =
      let (q, e) = index_of_offset 0 (chunk_capacity o) r h in
      let z : 0 * chunk_capacity o + r ≡ r = omega arith in rw (rw z at q, rw z at e)

  content-cons_next :
      (c : Chunk A) (m : List (Chunk A)) (r : ℕ)
      → content o (c ∷ m) (chunk_capacity o + r) ≡ content o m r
  unfolding content
  content-cons_next c m r =
      let q : (chunk_capacity o + r) / chunk_capacity o ≡ suc (r / chunk_capacity o) =
        add-div_left r (chunk_capacity_pos o) ∙ omega arith in
      rw (q, add-mod_left (chunk_capacity o) r)

  content-link_chunks :
      (ref : ℕ) (cs : List (Chunk A)) (r : ℕ)
      → r < length cs * chunk_capacity o
      → content o (link_chunks o ref cs) r ≡ link (ref + r + 1)
  unfolding link_chunks
  content-link_chunks ref [] r h = absurd (omega arith)
  content-link_chunks ref (c ∷ cs) r h = elim (dec_lt r (chunk_capacity o)) [
    | yes k ↦
        rw
          (content-cons_first (link_slots o (chunk_capacity o) 0 ref c)
            (link_chunks o (ref + chunk_capacity o) cs) r k)
          (link_slots-at o (chunk_capacity o) 0 ref c r ∙ ground arith)
    | no k ↦
        let s : ℕ = r - chunk_capacity o in
        let e : chunk_capacity o + s ≡ r = omega arith in
        let ih = content-link_chunks (ref + chunk_capacity o) cs s (omega arith) in
        let arg : ref + chunk_capacity o + s + 1 ≡ ref + r + 1 = omega arith in
        rw (← e) (
          content-cons_next (link_slots o (chunk_capacity o) 0 ref c)
            (link_chunks o (ref + chunk_capacity o) cs) s
          ∙ ih
          ∙ ap link (arg ∙ ap (λ (t : ℕ). ref + t + 1) (sym e)))
  ]

-- The count of chunks of `create`, whose slots are at least as many as asked for.
chunks_enough : (n c : ℕ) → 0 < c → (n ≤ (n + c - 1) / c * c)
chunks_enough n c h = omega (arith, lt-div-mul-add {a = n + c - 1} {b = c} h)

chunks_pos : (n c : ℕ) → 0 < c → 0 < n → 0 < (n + c - 1) / c
chunks_pos n c h k = (le-div_iff_mul-le h).1 (omega arith)

-- The count of chunks that `create` makes.
unfoldable pub chunks_for : Options → ℕ → ℕ
chunks_for o n = (n + chunk_capacity o - 1) / chunk_capacity o

module _ (o : Options) (A : Type 0) (n : ℕ) (some_slots : 0 < n) where
  last_ref : ℕ
  last_ref = (chunks_for o n) * chunk_capacity o - 1

  chunks_for_pos : 0 < (chunks_for o n)
  unfolding chunks_for
  chunks_for_pos = chunks_pos n (chunk_capacity o) (chunk_capacity_pos o) some_slots

  slots_pos : 0 < (chunks_for o n) * chunk_capacity o
  slots_pos = grind (arith, chunks_for_pos, chunk_capacity_pos o)

  linked : List (Chunk A)
  linked = link_chunks o 0 (replicate (chunks_for o n) (new_chunk o))

  fresh : List (Chunk A)
  fresh = write o linked last_ref (link (null_ref o))

  length-linked : length linked ≡ (chunks_for o n)
  unfolding linked
  length-linked = length-link_chunks o 0 _ ∙ length-replicate (chunks_for o n) (new_chunk o)

  length-fresh : length fresh ≡ (chunks_for o n)
  unfolding fresh
  length-fresh = length-write o linked last_ref (link (null_ref o)) ∙ length-linked

  content-fresh :
      (r : ℕ)
      → r < (chunks_for o n) * chunk_capacity o
      → content o fresh r ≡ (if last_ref == r then link (null_ref o) else link (suc r))
  unfolding fresh
  content-fresh r h =
      rw
        (content-write o linked last_ref (link (null_ref o)) r
          (rw length-linked (unfold last_ref in omega (arith, slots_pos))))
        (ground (arith, at))
    where
      at : content o linked r ≡ link (suc r)
      at =
          unfold linked in
          content-link_chunks o 0 (replicate (chunks_for o n) (new_chunk o)) r
            (rw (length-replicate (chunks_for o n) (new_chunk o {A = A})) h)
          ∙ ap link (omega arith)

  -- The pool that the constructor makes, and its free list: every slot.
  constructed : Pool A
  constructed = record { chunks = fresh; chunk_count = (chunks_for o n); free_list = 0 }

  all_slots : List ℕ
  all_slots = count_up (suc last_ref) 0

  constructed-IsValid :
      (chunks_for o n) * chunk_capacity o ≤ o.max_capacity → IsValid o constructed all_slots
  unfolding constructed all_slots
  constructed-IsValid room = record {
    counted = sym length-fresh;
    bounded = rw length-fresh room;
    path =
        FreePath-count_up o (content o fresh) (length fresh * chunk_capacity o) last_ref 0 last_ref
          (omega arith) (rw length-fresh (unfold last_ref in omega (arith, slots_pos)))
          (λ s h k. content-fresh s (unfold last_ref in omega arith) ∙ ground arith)
          (content-fresh last_ref (unfold last_ref in omega (arith, slots_pos)) ∙ ground arith);
    distinct = count_up-Distinct (suc last_ref) 0;
    objects = λ r h m.
        absurd
          (unfold last_ref in ground (arith, contains-count_up (suc last_ref) 0 r, length-fresh));
  }

  object_at-constructed : (r : ℕ) → object_at o constructed r ≡ none
  unfolding object_at constructed
  object_at-constructed r = elim (dec_lt r ((chunks_for o n) * chunk_capacity o)) [
    | yes h ↦ rw (length-fresh, content-fresh r h) (ground arith)
    | no h ↦ rw length-fresh (ground arith)
  ]

  address-last : address o last_ref ≡ addr ((chunks_for o n) - 1) (chunk_capacity o - 1)
  unfolding address last_ref
  address-last =
      let e : (chunks_for o n) * chunk_capacity o - 1
          ≡ ((chunks_for o n) - 1) * chunk_capacity o + (chunk_capacity o - 1) =
        split (chunks_for o n) (chunk_capacity o) chunks_for_pos (chunk_capacity_pos o) in
      rw e (
        ground (
          arith,
          index_of_offset ((chunks_for o n) - 1) (chunk_capacity o) (chunk_capacity o - 1)
              (omega (arith, chunk_capacity_pos o)),
        ))
    where
      split : (k c : ℕ) → 0 < k → 0 < c → k * c - 1 ≡ (k - 1) * c + (c - 1)
      split zero c h j = absurd (omega arith)
      split (suc k) c h j = let e : suc k - 1 ≡ k = omega arith in rw e (omega arith)

  store-last :
      store
        (link_chunks o 0 (replicate (chunks_for o n) (new_chunk o)))
        (addr ((chunks_for o n) - 1) (chunk_capacity o - 1))
        (link (null_ref o))
      ≡ ok fresh
  unfolding fresh linked
  store-last = rw (← address-last) (
      store-write o linked last_ref (link (null_ref o))
        (rw length-linked (unfold last_ref in omega (arith, slots_pos))))

  store-created :
      store
        (link_chunks o 0 (create o {A = A} n).0)
        (addr ((create o {A = A} n).1 - 1) (chunk_capacity o - 1))
        (link (null_ref o))
      ≡ ok fresh
  unfolding create chunks_for
  store-created = store-last

  construct-constructed :
      (chunks_for o n) * chunk_capacity o ≤ o.max_capacity → construct o n ≡ ok constructed
  unfolding construct create constructed
  construct-constructed room =
      rw one_chunk (rw one_slot (rw enough (rw store-created (unfold chunks_for in refl))))
    where
      one_chunk : ltb 0 ((n + chunk_capacity o - 1) / chunk_capacity o) ≡ true
      one_chunk = unfold chunks_for in ground (arith, chunks_for_pos)

      one_slot : ltb 0 n ≡ true
      one_slot = ground arith

      enough :
          leb ((n + chunk_capacity o - 1) / chunk_capacity o * chunk_capacity o) o.max_capacity
          ≡ true
      enough = unfold chunks_for in ground arith

-- For a positive capacity whose chunks are within the limit, the constructor makes a valid pool of
-- at least that capacity, with no object in it.
pub construct_lem :
    (o : Options) (A : Type 0) (n : ℕ)
    → 0 < n
    → chunks_for o n * chunk_capacity o ≤ o.max_capacity
    → (p : Pool A) × (free : List ℕ) × (construct o n ≡ ok p)
      × IsValid o p free
      × (n ≤ capacity o p)
      × ((r : ℕ) → object_at o p r ≡ none)
unfolding capacity constructed chunks_for
construct_lem o A n some_slots room = (
  constructed o A n some_slots,
  all_slots o A n some_slots,
  construct-constructed o A n some_slots room,
  constructed-IsValid o A n some_slots room,
  chunks_enough n (chunk_capacity o) (chunk_capacity_pos o),
  object_at-constructed o A n some_slots,
)
