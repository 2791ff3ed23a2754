-- ===== src/Pool/Walk.antt =====
-- Walks along the free list: `allocation_bitmap` and the checker.
use native.Mathlib.Nat.{div-lt_iff_lt-mul}
use native.Mathlib.Decide.{dec_lt}
use vrt.Base.{
  ℕ, zero, suc, ◌*◌, ◌/◌, ◌≤◌, ◌<◌, ◌≡◌, refl, Bool, true, false, not, List, [], ◌∷◌, ◌≢◌, inl, inr,
  ltb, leb, ◌==◌, if◌then◌else◌, length, arith, Bool-cases, All, Distinct, contains, none, some,
  ◌∙◌, pigeonhole, map, Option-cases, get_elem?, is_some, leb→le,
}
use vrt.Base.Run.{ok, check, check-eq_ok, bind-eq_ok, check_failure, invalid_input}
use vrt.Pool.Defs.{
  Slot, raw, link, object, Options, Pool, Addr, chunk_capacity, null_ref, address, dereference,
  load, load_link, capacity, reset_free, allocation_bitmap, contains_addr, check_loop, check_pool,
}
use vrt.Pool.Content.{content, load-content, chunk_capacity_pos, same_ref}
use vrt.Pool.FreeList.{
  IsValid, FreePath, FreePath-bounded, dereference-address, object_at, object_at-free,
}

module _ (o : Options) {A : Type 0} (p : Pool A) (counted : p.chunk_count ≡ length p.chunks)
    (bounded : length p.chunks * chunk_capacity o ≤ o.max_capacity) where
  abbrev limit : ℕ
  limit = length p.chunks * chunk_capacity o

  load_link-content :
      (r n : ℕ)
      → r < limit
      → content o p.chunks r ≡ link n
      → load_link p.chunks (address o r) ≡ ok n
  unfolding load_link
  load_link-content r n h e = rw (load-content o p.chunks r h, e)

  not_null : (r : ℕ) → r < limit → r == null_ref o ≡ false
  not_null r h = ground (arith, bounded)

  -- The bits of the references on the path are reset.
  reset_free-path :
      (fuel r : ℕ) (refs : List ℕ) (bits : ℕ → Bool)
      → length refs < fuel
      → FreePath o (content o p.chunks) limit r refs
      → (b : ℕ → Bool) × (reset_free o fuel p r bits ≡ ok b)
        × ((s : ℕ) → b s ≡ (if contains s refs then false else bits s))
  unfolding reset_free
  reset_free-path zero r refs bits h path = absurd (omega arith)
  reset_free-path (suc fuel) r [] bits h path =
      let done : r == null_ref o ≡ true = ground arith in (bits, rw done, λ s. refl)
  reset_free-path (suc fuel) r (x ∷ refs) bits h (e, b, n, l, path) =
      let (bs, run, at) =
        reset_free-path fuel n refs (λ s. if s == x then false else bits s) (omega arith) path in
      (bs, rw e (rw (not_null x b) (rw (load_link-content x n b l) run)), λ s. at s ∙ ground arith)

  -- Distinct references have distinct addresses.
  contains_addr-address :
      (r : ℕ) (refs : List ℕ) → contains_addr (address o r) (map (address o) refs) ≡ contains r refs
  contains_addr-address r [] = refl
  contains_addr-address r (x ∷ refs) =
      rw (contains_addr-address r refs)
        (unfold address in ground (arith, same_ref r x (chunk_capacity o)))

  abbrev Unseen : List ℕ → List ℕ → Type 0
  Unseen seen refs = All (λ y. contains y seen ≡ false) refs

  check_loop-path :
      (n r : ℕ) (refs seen : List ℕ)
      → length refs < n
      → FreePath o (content o p.chunks) limit r refs
      → Distinct refs
      → Unseen seen refs
      → check_loop o n p r seen (map (address o) seen) ≡ ok tt
  unfolding check_loop
  check_loop-path zero r refs seen h path d u = absurd (omega arith)
  check_loop-path (suc n) r [] seen h path d u =
      let done : r == null_ref o ≡ true = ground arith in rw done
  check_loop-path (suc n) r (x ∷ refs) seen h (e, b, k, l, path) d u = rw e (
      rw (not_null x b) (
        rw (dereference-address o p x counted b) (
          rw u.0 (
            rw (contains_addr-address x seen) (
              rw u.0 (
                rw (load_link-content x k b l)
                  (check_loop-path n k refs (x ∷ seen) (omega arith) path d.1 unseen)))))))
    where
      unseen : Unseen (x ∷ seen) refs
      unseen = Unseen-cons x seen refs d.0 u.1
        where
          Unseen-cons :
              (x : ℕ) (seen refs : List ℕ)
              → All (λ y. x ≢ y) refs
              → Unseen seen refs
              → Unseen (x ∷ seen) refs
          Unseen-cons x seen [] a b = tt
          Unseen-cons x seen (y ∷ refs) a b =
              (ground (arith, a.0, b.0), Unseen-cons x seen refs a.1 b.1)

  get_elem?-bound :
      {B : Type 0} (xs : List B) (i : ℕ) (b : B) → get_elem? xs i ≡ some b → i < length xs
  get_elem?-bound [] i b h = cc
  get_elem?-bound (x ∷ xs) zero b h = omega arith
  get_elem?-bound (x ∷ xs) (suc i) b h = omega (arith, get_elem?-bound xs i b h)

  -- A link that is read stands in a slot of the pool.
  load_link_inv :
      (r n : ℕ)
      → load_link p.chunks (address o r) ≡ ok n
      → (r < limit) × (content o p.chunks r ≡ link n)
  unfolding load_link
  load_link_inv r n h = elim (Option-cases (get_elem? p.chunks (r / chunk_capacity o))) [
    | inl e ↦ absurd (missing e)
    | inr (c, e) ↦
        let k : r < limit =
          (div-lt_iff_lt-mul (chunk_capacity_pos o)).0 (get_elem?-bound p.chunks _ c e) in
        (k, slot_lem k (content o p.chunks r) refl)
  ]
    where
      missing : get_elem? p.chunks (r / chunk_capacity o) ≡ none → ⊥
      missing e = unfold load address in (cc (rw (e, load) at h))

      slot_lem : r < limit → (s : Slot A) → content o p.chunks r ≡ s → s ≡ link n
      slot_lem k raw e = cc (rw (load-content o p.chunks r k, e) at h)
      slot_lem k (link m) e = cc (rw (load-content o p.chunks r k, e) at h)
      slot_lem k (object x) e = cc (rw (load-content o p.chunks r k, e) at h)

  dereference_inv : (r : ℕ) (a : Addr) → dereference o p r ≡ ok a → a ≡ address o r
  unfolding dereference
  dereference_inv r a h = ground arith

  Unseen-weaken :
      (x : ℕ) (seen refs : List ℕ)
      → Unseen (x ∷ seen) refs
      → Unseen seen refs × All (λ y. x ≢ y) refs
  Unseen-weaken x seen [] h = (tt, tt)
  Unseen-weaken x seen (y ∷ refs) h =
      let (a, b) = Unseen-weaken x seen refs h.1 in
      ((ground (arith, h.0), a), (ground (arith, h.0), b))

  -- A check that passes has found a free list that ends, with no reference on it twice.
  check_loop_sound :
      (n r : ℕ) (seen : List ℕ) (addrs : List Addr)
      → check_loop o n p r seen addrs ≡ ok tt
      → (refs : List ℕ) × FreePath o (content o p.chunks) limit r refs
        × Unseen seen refs
        × Distinct refs
  unfolding check_loop
  check_loop_sound zero r seen addrs h = cc
  check_loop_sound (suc n) r seen addrs h = elim (Bool-cases (r == null_ref o)) [
    | inl e ↦ ([], ground arith, tt, tt)
    | inr e ↦
        let h' = rw e at h in
        let (a, d, h₁) = bind-eq_ok (dereference o p r) _ h' in
        let (_, c, h₂) = bind-eq_ok (check (not (contains r seen)) check_failure) _ h₁ in
        let (_, _, h₃) = bind-eq_ok (check (not (contains_addr a addrs)) check_failure) _ h₂ in
        let (next, l, h₄) = bind-eq_ok (load_link p.chunks a) _ h₃ in
        let (refs, path, unseen, distinct) = check_loop_sound n next (r ∷ seen) (a ∷ addrs) h₄ in
        let (b, k) = load_link_inv r next (rw (dereference_inv r a d) at l) in
        let (u, ne) = Unseen-weaken r seen refs unseen in
        (
          r ∷ refs,
          (refl, b, next, k, path),
          (not-eq_true (contains r seen) (check-eq_ok (not (contains r seen)) check_failure c), u),
          (ne, distinct),
        )
  ]
    where
      not-eq_true : (b : Bool) → not b ≡ true → b ≡ false
      not-eq_true true e = cc
      not-eq_true false e = refl

module _ (o : Options) {A : Type 0} (p : Pool A) (free : List ℕ) (v : IsValid o p free) where
  free_short : length free ≤ capacity o p
  unfolding capacity
  free_short = rw v.counted (
      pigeonhole _ free (FreePath-bounded o (content o p.chunks) _ p.free_list free v.path)
        v.distinct)

  nothing_unseen : (refs : List ℕ) → All (λ y. contains y [] ≡ false) refs
  nothing_unseen [] = tt
  nothing_unseen (x ∷ refs) = (refl, nothing_unseen refs)

  -- In a valid pool, `allocation_bitmap` ends, and the bit of a reference is set exactly if the
  -- reference holds an object.
  pub allocation_bitmap-object_at :
      (bits : ℕ → Bool) × (allocation_bitmap o p ≡ ok bits)
      × ((r : ℕ) → bits r ≡ is_some (object_at o p r))
  unfolding allocation_bitmap
  allocation_bitmap-object_at =
      let (bits, run, at) =
        reset_free-path o p v.counted v.bounded (suc (capacity o p)) p.free_list free
          (λ r. ltb r (capacity o p)) (omega (arith, free_short)) v.path in
      (bits, run, λ r. at r ∙ same r)
    where
      same :
          (r : ℕ)
          → (if contains r free then false else ltb r (capacity o p)) ≡ is_some (object_at o p r)
      same r = elim (Bool-cases (contains r free)) [
        | inl e ↦ rw (e, object_at-free o p free r v e)
        | inr e ↦ elim (dec_lt r (length p.chunks * chunk_capacity o)) [
          | yes h ↦
              let (x, c) = v.objects r h e in
              unfold object_at capacity in rw (e, c) (ground (arith, v.counted))
          | no h ↦ unfold object_at capacity in rw (e, v.counted) (ground arith)
        ]
      ]

  -- The checker accepts a valid pool.
  pub check_pool-IsValid : check_pool o p ≡ ok tt
  unfolding check_pool
  check_pool-IsValid = rw room (
      check_loop-path o p v.counted v.bounded (suc (p.chunk_count * chunk_capacity o)) p.free_list
        free [] (unfold capacity in omega (arith, free_short)) v.path v.distinct
        (nothing_unseen free))
    where
      room : leb (p.chunk_count * chunk_capacity o) o.max_capacity ≡ true
      room = rw v.counted (ground (arith, v.bounded))

-- What the checker accepts has a free list that ends, stays in bounds and has no repetition.
pub check_pool_sound :
    (o : Options) {A : Type 0} (p : Pool A)
    → p.chunk_count ≡ length p.chunks
    → check_pool o p ≡ ok tt
    → (free : List ℕ) × FreePath o
        (content o p.chunks)
        (length p.chunks * chunk_capacity o)
        p.free_list
        free
      × Distinct free
unfolding check_pool
check_pool_sound o p counted h =
    let (_, room, walk) =
      bind-eq_ok (check (leb (p.chunk_count * chunk_capacity o) o.max_capacity) invalid_input) _
        h in
    let bounded : length p.chunks * chunk_capacity o ≤ o.max_capacity =
      rw counted at (leb→le _ _ (check-eq_ok _ invalid_input room)) in
    let (free, path, _, distinct) =
      check_loop_sound o p counted bounded (suc (p.chunk_count * chunk_capacity o)) p.free_list []
        [] walk in
    (free, path, distinct)
