-- ===== src/Pool/Release.antt =====
-- `object_pool::release`, and reading an object by its reference.
use native.Mathlib.Nat.{le_refl}
use vrt.Base.{
  ℕ, ◌*◌, ◌≤◌, ◌<◌, ◌≡◌, refl, false, List, ◌∷◌, ◌≢◌, ◌==◌, if◌then◌else◌, length, arith, All,
  All-map, contains, All-ne_of_not_contains, none, some, sym, ◌∙◌,
}
use vrt.Base.Run.{ok}
use vrt.Pool.Defs.{
  link, object, Options, Pool, chunk_capacity, address, load_object, release, deref,
}
use vrt.Pool.Content.{content, write, load-content, store-write, length-write, content-write}
use vrt.Pool.FreeList.{IsValid, FreePath-frame, dereference-address, object_at, object_at-eq_some}

module _ (o : Options) {A : Type 0} where
  -- The pool after the slot of `r` is linked at the head of the free list.
  unfoldable pub freed : Pool A → ℕ → Pool A
  freed p r = record p { chunks = write o p.chunks r (link p.free_list); free_list = r }

  pub load_object-content :
      (p : Pool A) (r : ℕ) (x : A)
      → r < length p.chunks * chunk_capacity o
      → content o p.chunks r ≡ object x
      → load_object p.chunks (address o r) ≡ ok x
  unfolding load_object
  load_object-content p r x h e = rw (load-content o p.chunks r h, e)

  -- In a valid pool, a reference that holds an object is dereferenced to it.
  pub deref-object_at :
      (p : Pool A) (free : List ℕ) (r : ℕ) (x : A)
      → IsValid o p free
      → object_at o p r ≡ some x
      → deref o p r ≡ ok x
  unfolding deref
  deref-object_at p free r x v h =
      let (c, b, f) = object_at-eq_some o p free r x v h in load_object-content p r x b c

  release-freed :
      (p : Pool A) (free : List ℕ) (r : ℕ) (x : A)
      → IsValid o p free
      → object_at o p r ≡ some x
      → release o r p ≡ ok (freed p r)
  unfolding release freed
  release-freed p free r x v h =
      let (c, b, f) = object_at-eq_some o p free r x v h in
      rw (dereference-address o p r v.counted b)
        (rw (load_object-content p r x b c) (rw (store-write o p.chunks r (link p.free_list) b)))

  freed-IsValid :
      (p : Pool A) (free : List ℕ) (r : ℕ)
      → IsValid o p free
      → r < length p.chunks * chunk_capacity o
      → contains r free ≡ false
      → IsValid o (freed p r) (r ∷ free)
  unfolding freed
  freed-IsValid p free r v b f = record {
    counted = v.counted ∙ sym len;
    bounded = rw len v.bounded;
    path = (
      refl,
      rw len b,
      p.free_list,
      self,
      FreePath-frame o _ _ _ _ p.free_list free le same v.path,
    );
    distinct = (ne, v.distinct);
    objects = λ s h n. kept s (rw len at h) n;
  }
    where
      len : length (write o p.chunks r (link p.free_list)) ≡ length p.chunks
      len = length-write o p.chunks r (link p.free_list)

      at :
          (s : ℕ)
          → content o (write o p.chunks r (link p.free_list)) s
            ≡ (if r == s then link p.free_list else content o p.chunks s)
      at s = content-write o p.chunks r (link p.free_list) s b

      self : content o (write o p.chunks r (link p.free_list)) r ≡ link p.free_list
      self = ground (arith, at r)

      le :
          length p.chunks * chunk_capacity o
          ≤ length (write o p.chunks r (link p.free_list)) * chunk_capacity o
      le = rw len (le_refl _)

      kept :
          (s : ℕ)
          → s < length p.chunks * chunk_capacity o
          → contains s (r ∷ free) ≡ false
          → (x : A) × (content o (write o p.chunks r (link p.free_list)) s ≡ object x)
      kept s h n = let (x, e) = v.objects s h (ground arith) in (x, ground (arith, at s))

      ne : All (λ y. r ≢ y) free
      ne = All-ne_of_not_contains r free f

      same :
          All (λ s. content o p.chunks s ≡ content o (write o p.chunks r (link p.free_list)) s) free
      same = All-map (λ s n. ground (arith, at s)) free ne

  object_at-freed :
      (p : Pool A) (r s : ℕ)
      → r < length p.chunks * chunk_capacity o
      → object_at o (freed p r) s ≡ (if s == r then none else object_at o p s)
  unfolding object_at freed
  object_at-freed p r s b =
      rw
        (
          length-write o p.chunks r (link p.free_list),
          content-write o p.chunks r (link p.free_list) s b,
        )
        (ground arith)

  -- Releasing an object of a valid pool succeeds: the pool stays valid with the reference in front of
  -- its free list, the object is gone, and every other reference keeps its object.
  pub release_lem :
      (p : Pool A) (free : List ℕ) (r : ℕ) (x : A)
      → IsValid o p free
      → object_at o p r ≡ some x
      → (q : Pool A) × (release o r p ≡ ok q)
        × IsValid o q (r ∷ free)
        × ((s : ℕ) → object_at o q s ≡ (if s == r then none else object_at o p s))
  release_lem p free r x v h =
      let (c, b, f) = object_at-eq_some o p free r x v h in
      (
        freed p r,
        release-freed p free r x v h,
        freed-IsValid p free r v b f,
        λ s. object_at-freed p r s b,
      )
