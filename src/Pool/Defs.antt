-- ===== src/Pool/Defs.antt =====
-- The allocator of fixed-size slots and the object pool (util/object_pools.h and .cpp).
-- A reference is a slot's number; its chunk and its slot there are the shifted and the masked
-- reference. A chunk is its slots' contents. Fresh memory from the system is `raw`; what the
-- system's allocator does when it has none is not modelled.
use vrt.Base.{
  ℕ, zero, suc, ◌+◌, ◌-◌, ◌*◌, ◌/◌, ◌%◌, ◌^◌, Bool, false, ◌&&◌, ◌||◌, not, contains, none, some,
  List, [], ◌∷◌, ◌++◌, leb, ltb, ◌==◌, if◌then◌else◌, get_elem?, set, replicate,
}
use vrt.Base.Run.{
  Run, ok, throws, fault, invalid_input, out_of_bounds, check_failure, ◌>>=◌, ◌>>◌, check, assert,
}

-- what the first bytes of a slot hold: a free slot has the next free slot's reference
pub data Slot (A : Type 0) : Type 0 where
  raw : Slot A
  link : ℕ → Slot A
  object : A → Slot A

-- The template arguments: the chunk capacity is 2 ^ `chunk_index_shift`; `max_capacity` is the
-- largest value of the pointer type; `check_input` is VR_CHECK_INPUT.
pub record Options : Type 0 where
  pub chunk_index_shift : ℕ
  pub max_capacity : ℕ
  pub check_input : Bool

abbrev pub chunk_capacity : Options → ℕ
chunk_capacity o = 2 ^ o.chunk_index_shift

abbrev pub null_ref : Options → ℕ
null_ref o = o.max_capacity

abbrev pub Chunk : Type 0 → Type 0
Chunk A = ℕ → Slot A

-- `m_chunks`, `m_chunk_count` and `m_free_list`
pub record Pool (A : Type 0) : Type 0 where
  pub chunks : List (Chunk A)
  pub chunk_count : ℕ
  pub free_list : ℕ

pub record Addr : Type 0 where
  pub chunk : ℕ
  pub slot : ℕ

abbrev pub addr : ℕ → ℕ → Addr
addr c i = record { chunk = c; slot = i }

abbrev pub update : {A : Type 0} → Chunk A → ℕ → Slot A → Chunk A
update c i s j = if i == j then s else c j

unfoldable pub load : {A : Type 0} → List (Chunk A) → Addr → Run (Slot A)
load m a = elim (get_elem? m a.chunk) [ none ↦ fault | some c ↦ ok (c a.slot) ]

unfoldable pub store : {A : Type 0} → List (Chunk A) → Addr → Slot A → Run (List (Chunk A))
store m a s = elim (get_elem? m a.chunk) [
  | none ↦ fault
  | some c ↦ ok (set m a.chunk (update c a.slot s))
]

-- `allocate_chunk` of the base class: the array of chunks is copied into one that is longer by one.
unfoldable pub allocate_chunk : {A : Type 0} → List (Chunk A) → Chunk A → List (Chunk A)
allocate_chunk m chunk = m ++ chunk ∷ []

-- a slot's contents read as a reference
unfoldable pub load_link : {A : Type 0} → List (Chunk A) → Addr → Run ℕ
unfolding load
load_link m a = do s ← load m a; elim s [ raw ↦ fault | link r ↦ ok r | object x ↦ fault ]

-- a slot's contents used as an object
unfoldable pub load_object : {A : Type 0} → List (Chunk A) → Addr → Run A
unfolding load
load_object m a = do s ← load m a; elim s [ raw ↦ fault | link r ↦ fault | object x ↦ ok x ]

module _ (o : Options) where
  unfoldable pub capacity : {A : Type 0} → Pool A → ℕ
  capacity p = p.chunk_count * chunk_capacity o

  -- The two halves of a reference: shift and mask.
  unfoldable pub address : ℕ → Addr
  address ref = addr (ref / chunk_capacity o) (ref % chunk_capacity o)

  -- The mutable overload drops its own template argument, so `allocate` checks as VR_CHECK_INPUT says.
  unfoldable pub dereference : {A : Type 0} → Pool A → ℕ → Run Addr
  unfolding address
  dereference p ref =
      let a = address ref in
      if o.check_input then (do check (ltb a.chunk p.chunk_count) out_of_bounds; ok a) else ok a

  -- The constructor's inner loop: `n` slots from `i` on, the last reference written being `ref`.
  unfoldable pub link_slots : {A : Type 0} → (n i ref : ℕ) → Chunk A → Chunk A
  link_slots zero i ref c = c
  link_slots (suc n) i ref c = link_slots n (i + 1) (ref + 1) (update c i (link (ref + 1)))

  -- `aligned_alloc`
  abbrev pub new_chunk : {A : Type 0} → Chunk A
  new_chunk i = raw

  -- The constructor's outer loop.
  unfoldable pub link_chunks : {A : Type 0} → ℕ → List (Chunk A) → List (Chunk A)
  unfolding link_slots
  link_chunks ref [] = []
  link_chunks ref (c ∷ cs) =
      link_slots (chunk_capacity o) 0 ref c ∷ link_chunks (ref + chunk_capacity o) cs

  -- `create` of the base class: the count of chunks, rounded up, and the chunks.
  unfoldable pub create : {A : Type 0} → ℕ → List (Chunk A) × ℕ
  create initial_capacity =
      let chunk_count = (initial_capacity + chunk_capacity o - 1) / chunk_capacity o in
      (replicate chunk_count new_chunk, chunk_count)

  -- The constructor.
  unfoldable pub construct : {A : Type 0} → ℕ → Run (Pool A)
  unfolding create link_chunks store
  construct initial_capacity = do
    let (chunks, chunk_count) = create initial_capacity
    assert (ltb 0 chunk_count)
    check (ltb 0 initial_capacity) invalid_input
    check (leb (chunk_count * chunk_capacity o) o.max_capacity) invalid_input
    linked ←
        store (link_chunks 0 chunks) (addr (chunk_count - 1) (chunk_capacity o - 1))
          (link (null_ref o))
    ok (record { chunks = linked; chunk_count = chunk_count; free_list = 0 })

  -- The first slot of a new chunk; its other slots become the free list.
  unfoldable pub allocate_first_slot_of_new_chunk :
      {A : Type 0} → Pool A → Run ((Addr × ℕ) × Pool A)
  unfolding allocate_chunk link_slots store
  allocate_first_slot_of_new_chunk p = do
    let chunk_count = p.chunk_count
    check (leb ((chunk_count + 1) * chunk_capacity o) o.max_capacity) invalid_input
    let first_ref = chunk_count * chunk_capacity o
    let chunk = link_slots (chunk_capacity o - 2) 1 (first_ref + 1) new_chunk
    chunks ←
        store (allocate_chunk p.chunks chunk) (addr chunk_count (chunk_capacity o - 1))
          (link (null_ref o))
    ok (
      (addr chunk_count 0, first_ref),
      record { chunks = chunks; chunk_count = chunk_count + 1; free_list = first_ref + 1 },
    )

  unfoldable pub allocate_slot : {A : Type 0} → Pool A → Run ((Addr × ℕ) × Pool A)
  unfolding allocate_first_slot_of_new_chunk dereference load_link
  allocate_slot p =
      let first_ref = p.free_list in
      if first_ref == null_ref o then allocate_first_slot_of_new_chunk p else (do
        first ← dereference p first_ref
        next ← load_link p.chunks first
        ok ((first, first_ref), record p { free_list = next }))

  -- `object_pool::allocate`: the object is constructed in the slot.
  unfoldable pub allocate : {A : Type 0} → A → Pool A → Run (ℕ × Pool A)
  unfolding allocate_slot store
  allocate x p = do
    (ar, q) ← allocate_slot p
    chunks ← store q.chunks ar.0 (object x)
    ok (ar.1, record q { chunks = chunks })

  -- `object_pool::release`: `destruct` of the allocator.
  unfoldable pub release : {A : Type 0} → ℕ → Pool A → Run (Pool A)
  unfolding dereference load_object store
  release ref p = do
    released ← dereference p ref
    let first_ref = p.free_list
    x ← load_object p.chunks released
    chunks ← store p.chunks released (link first_ref)
    ok (record p { chunks = chunks; free_list = ref })

  -- `object_pool::operator []`, which checks no bounds
  unfoldable pub deref : {A : Type 0} → Pool A → ℕ → Run A
  unfolding address load_object
  deref p ref = load_object p.chunks (address ref)

  -- The loop of `allocation_bitmap`: the references on the free list are reset, without a check of
  -- bounds, on fuel.
  unfoldable pub reset_free : {A : Type 0} → ℕ → Pool A → ℕ → (ℕ → Bool) → Run (ℕ → Bool)
  unfolding address load_link
  reset_free zero p ref bits = fault
  reset_free (suc fuel) p ref bits =
      let rest = (do
        next ← load_link p.chunks (address ref)
        reset_free fuel p next (λ r. if r == ref then false else bits r)) in
      if ref == null_ref o then ok bits else rest

  -- One bit for each slot: `true` if it is allocated.
  unfoldable pub allocation_bitmap : {A : Type 0} → Pool A → Run (ℕ → Bool)
  unfolding reset_free capacity
  allocation_bitmap p = reset_free (suc (capacity p)) p p.free_list (λ r. ltb r (capacity p))

-- an element of a set of addresses
abbrev pub contains_addr : Addr → List Addr → Bool
contains_addr a [] = false
contains_addr a (b ∷ bs) = (a.chunk == b.chunk && a.slot == b.slot) || contains_addr a bs

module _ (o : Options) {A : Type 0} where
  -- The loop of the checker: `n` rounds are left, `uniq_refs` and `uniq_addrs` have been seen.
  unfoldable pub check_loop : (n : ℕ) → Pool A → ℕ → List ℕ → List Addr → Run (Unit {0})
  unfolding dereference load_link
  check_loop zero p ref uniq_refs uniq_addrs = throws check_failure
  check_loop (suc n) p ref uniq_refs uniq_addrs =
      let rest = (do
        ref_node ← dereference o p ref
        check (not (contains ref uniq_refs)) check_failure
        check (not (contains_addr ref_node uniq_addrs)) check_failure
        next ← load_link p.chunks ref_node
        check_loop n p next (ref ∷ uniq_refs) (ref_node ∷ uniq_addrs)) in
      if ref == null_ref o then ok tt else rest

  -- `fixed_size_allocator::check`
  unfoldable pub check_pool : Pool A → Run (Unit {0})
  unfolding check_loop
  check_pool p = do
    let free_node_upper_bound = p.chunk_count * chunk_capacity o
    check (leb free_node_upper_bound o.max_capacity) invalid_input
    check_loop (suc free_node_upper_bound) p p.free_list [] []
