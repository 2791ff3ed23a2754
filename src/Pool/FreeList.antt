-- ===== src/Pool/FreeList.antt =====
-- The invariant of a pool: its free list, a chain of references through the free slots.
use vrt.Base.{
  ℕ, ◌*◌, ◌≤◌, ◌<◌, ◌≡◌, refl, true, false, List, [], ◌∷◌, ltb, if◌then◌else◌, length, arith, All,
  Distinct, contains, sym, ◌∙◌, Option, none, some, All-contains,
}
use vrt.Base.Run.{ok}
use vrt.Pool.Defs.{
  Slot, raw, link, object, Options, Pool, chunk_capacity, null_ref, address, dereference,
}
use vrt.Pool.Content.{content, chunk_capacity_pos, index_lt}

-- The chain of links from reference `r` visits `refs`, in this order, and ends in the null reference.
abbrev pub FreePath : Options → {A : Type 0} → (ℕ → Slot A) → ℕ → ℕ → List ℕ → Type 0
FreePath o slot limit r [] = r ≡ null_ref o
FreePath o slot limit r (x ∷ refs) =
    (r ≡ x) × (x < limit) × (n : ℕ) × (slot x ≡ link n) × FreePath o slot limit n refs

-- `free` is the free list of the pool, in order.
pub record IsValid (o : Options) {A : Type 0} (p : Pool A) (free : List ℕ) : Type 0 where
  pub counted : p.chunk_count ≡ length p.chunks
  pub bounded : length p.chunks * chunk_capacity o ≤ o.max_capacity
  pub path : FreePath o (content o p.chunks) (length p.chunks * chunk_capacity o) p.free_list free
  pub distinct : Distinct free
  pub objects :
      (r : ℕ)
      → r < length p.chunks * chunk_capacity o
      → contains r free ≡ false
      → (x : A) × (content o p.chunks r ≡ object x)

module _ (o : Options) {A : Type 0} where
  -- Another memory that has the same slots on the path.
  pub FreePath-frame :
      (f g : ℕ → Slot A) (m n : ℕ) (r : ℕ) (refs : List ℕ)
      → m ≤ n
      → All (λ x. f x ≡ g x) refs
      → FreePath o f m r refs
      → FreePath o g n r refs
  FreePath-frame f g m n r [] le same h = h
  FreePath-frame f g m n r (x ∷ refs) le same (e, b, k, l, rest) =
      (e, omega arith, k, sym same.0 ∙ l, FreePath-frame f g m n k refs le same.1 rest)

  pub FreePath-bounded :
      (f : ℕ → Slot A) (m r : ℕ) (refs : List ℕ) → FreePath o f m r refs → All (λ x. x < m) refs
  FreePath-bounded f m r [] h = tt
  FreePath-bounded f m r (x ∷ refs) (e, b, k, l, rest) = (b, FreePath-bounded f m k refs rest)

  pub FreePath-links :
      (f : ℕ → Slot A) (m r : ℕ) (refs : List ℕ)
      → FreePath o f m r refs
      → All (λ x. (n : ℕ) × (f x ≡ link n)) refs
  FreePath-links f m r [] h = tt
  FreePath-links f m r (x ∷ refs) (e, b, k, l, rest) = ((k, l), FreePath-links f m k refs rest)

  -- A good reference passes the bounds check.
  pub dereference-address :
      (p : Pool A) (r : ℕ)
      → p.chunk_count ≡ length p.chunks
      → r < length p.chunks * chunk_capacity o
      → dereference o p r ≡ ok (address o r)
  unfolding dereference address
  dereference-address p r c h =
      ground (arith, index_lt r (length p.chunks) (chunk_capacity o) (chunk_capacity_pos o) h)

abbrev pub as_object : {A : Type 0} → Slot A → Option A
as_object raw = none
as_object (link n) = none
as_object (object x) = some x

-- The abstract view of a pool: a finite map from references to objects.
unfoldable pub object_at : Options → {A : Type 0} → Pool A → ℕ → Option A
object_at o p r =
    if ltb r (length p.chunks * chunk_capacity o) then as_object (content o p.chunks r) else none

module _ (o : Options) {A : Type 0} where
  -- A slot on the free list holds no object.
  pub object_at-free :
      (p : Pool A) (free : List ℕ) (r : ℕ)
      → IsValid o p free
      → contains r free ≡ true
      → object_at o p r ≡ none
  unfolding object_at
  object_at-free p free r v h =
      let (n, l) =
        All-contains (λ x. (n : ℕ) × (content o p.chunks x ≡ link n)) r free
          (FreePath-links o (content o p.chunks) _ p.free_list free v.path) h in
      ground (arith)

  -- What an object in the pool says of its slot.
  pub object_at-eq_some :
      (p : Pool A) (free : List ℕ) (r : ℕ) (x : A)
      → IsValid o p free
      → object_at o p r ≡ some x
      → (content o p.chunks r ≡ object x)
        × (r < length p.chunks * chunk_capacity o)
        × (contains r free ≡ false)
  unfolding object_at
  object_at-eq_some p free r x v h = (
    content_lem (content o p.chunks r) refl,
    ground arith,
    ground (arith, object_at-free p free r v),
  )
    where
      content_lem : (s : Slot A) → content o p.chunks r ≡ s → content o p.chunks r ≡ object x
      content_lem raw e = ground arith
      content_lem (link n) e = ground arith
      content_lem (object y) e = ground arith
