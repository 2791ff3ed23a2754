-- ===== src/Pool/Allocate.antt =====
-- `object_pool::allocate`: from the free list, or as the first slot of a new chunk.
use native.Mathlib.Nat.{le_refl}
use vrt.Base.{
  ℕ, ◌*◌, ◌≤◌, ◌<◌, ◌≡◌, false, List, ◌∷◌, inl, inr, ◌==◌, if◌then◌else◌, length, arith, Bool-cases,
  All, All-map, contains, none, some, sym, ◌∙◌,
}
use vrt.Base.Run.{ok}
use vrt.Pool.Defs.{
  link, object, Options, Pool, chunk_capacity, null_ref, load_link, allocate_slot, allocate,
}
use vrt.Pool.Content.{content, write, load-content, store-write, length-write, content-write}
use vrt.Pool.FreeList.{
  IsValid, FreePath, FreePath-frame, dereference-address, object_at, object_at-free,
}

module _ (o : Options) {A : Type 0} where
  -- The pool after the first free slot is taken for the object `a`.
  unfoldable pub taken : Pool A → ℕ → ℕ → A → Pool A
  taken p r next a = record p { chunks = write o p.chunks r (object a); free_list = next }

  module _ (p : Pool A) (x : ℕ) (free : List ℕ) (next : ℕ) (v : IsValid o p (x ∷ free))
      (b : x < length p.chunks * chunk_capacity o) (l : content o p.chunks x ≡ link next)
      (a : A) where
    allocate-taken : allocate o a p ≡ ok (x, taken p x next a)
    unfolding allocate allocate_slot taken load_link
    allocate-taken = rw (v.path.0) (
        rw (test) (
          rw (dereference-address o p x v.counted b)
            (rw (load-content o p.chunks x b, l) (rw (store-write o p.chunks x (object a) b)))))
      where
        test : x == null_ref o ≡ false
        test = ground (arith, v.bounded)

    taken-IsValid :
        FreePath o (content o p.chunks) (length p.chunks * chunk_capacity o) next free
        → IsValid o (taken p x next a) free
    unfolding taken
    taken-IsValid path = record {
      counted = v.counted ∙ sym len;
      bounded = rw len v.bounded;
      path = FreePath-frame o _ _ _ _ next free le same path;
      distinct = v.distinct.1;
      objects = λ s h n. kept s (rw len at h) n;
    }
      where
        len : length (write o p.chunks x (object a)) ≡ length p.chunks
        len = length-write o p.chunks x (object a)

        at :
            (s : ℕ)
            → content o (write o p.chunks x (object a)) s
              ≡ (if x == s then object a else content o p.chunks s)
        at s = content-write o p.chunks x (object a) s b

        le :
            length p.chunks * chunk_capacity o
            ≤ length (write o p.chunks x (object a)) * chunk_capacity o
        le = rw len (le_refl _)

        same : All (λ s. content o p.chunks s ≡ content o (write o p.chunks x (object a)) s) free
        same = All-map (λ s n. ground (arith, at s)) free v.distinct.0

        kept :
            (s : ℕ)
            → s < length p.chunks * chunk_capacity o
            → contains s free ≡ false
            → (y : A) × (content o (write o p.chunks x (object a)) s ≡ object y)
        kept s h n = elim (Bool-cases (x == s)) [
          | inl e ↦ (a, rw (at s, e))
          | inr e ↦ let (y, c) = v.objects s h (ground arith) in (y, rw (at s, e) c)
        ]

    object_at-taken :
        (s : ℕ) → object_at o (taken p x next a) s ≡ (if s == x then some a else object_at o p s)
    unfolding object_at taken
    object_at-taken s =
        rw (length-write o p.chunks x (object a), content-write o p.chunks x (object a) s b)
          (ground arith)

  -- The result of an allocation: a reference that held no object now holds `a`, every other reference
  -- is as it was, and the pool is valid.
  abbrev pub Allocated : A → Pool A → ℕ → Pool A → List ℕ → Type 0
  Allocated a p r q free =
      IsValid o q free
      × (object_at o p r ≡ none)
      × ((s : ℕ) → object_at o q s ≡ (if s == r then some a else object_at o p s))

  -- In a valid pool with a free slot, `allocate` takes the head of the free list: the pool stays
  -- valid, the reference has the object, and every other reference keeps its own.
  pub allocate-free :
      (a : A) (p : Pool A) (x : ℕ) (free : List ℕ)
      → IsValid o p (x ∷ free)
      → (q : Pool A) × (allocate o a p ≡ ok (x, q)) × Allocated a p x q free
  allocate-free a p x free v =
      let (e, b, next, l, path) = v.path in
      (
        taken p x next a,
        allocate-taken p x free next v b l a,
        (
          taken-IsValid p x free next v b l a path,
          object_at-free o p (x ∷ free) x v (ground arith),
          object_at-taken p x free next v b l a,
        ),
      )
