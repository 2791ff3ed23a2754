-- ===== src/Pool/Exhausted.antt =====
-- When `allocate` of vr/vr_common/src/vr/util/object_pools.h throws.
use mathlib.Core.Logic.{◌↔◌}
use vrt.Base.{
  ℕ, ◌+◌, ◌*◌, ◌<◌, ◌≡◌, refl, sym, ◌∙◌, inl, inr, true, false, some, none≢some, List, [], ◌∷◌, leb,
  ltb, ◌==◌, length, Bool-cases, arith,
}
use vrt.Base.Run.{throws, invalid_input}
use vrt.Pool.Defs.{
  Options, Pool, chunk_capacity, null_ref, allocate, allocate_slot,
  allocate_first_slot_of_new_chunk,
}
use vrt.Pool.FreeList.{IsValid, object_at, object_at-free}
use vrt.Pool.Allocate.{allocate-free}
use vrt.Pool.Grow.{allocate-grow}

module _ (o : Options) {A : Type 0} (p : Pool A) where
  -- The pool has an object in every slot.
  abbrev pub AllTaken : Type 0
  AllTaken = (r : ℕ) → r < length p.chunks * chunk_capacity o → (x : A) × (object_at o p r ≡ some x)

  none_free-AllTaken : IsValid o p [] → AllTaken
  unfolding object_at
  none_free-AllTaken v r low =
      let (x, e) = v.objects r low refl in
      let test : ltb r (length p.chunks * chunk_capacity o) ≡ true = ground arith in
      (x, rw test (rw e refl))

  throws_lem :
      IsValid o p []
      → (a : A) → o.max_capacity < (length p.chunks + 1) * chunk_capacity o
      → allocate o a p ≡ throws invalid_input
  unfolding allocate allocate_slot allocate_first_slot_of_new_chunk
  throws_lem v a full = rw (v.path, v.counted) (rw test (rw over))
    where
      test : null_ref o == null_ref o ≡ true
      test = ground arith

      over : leb ((length p.chunks + 1) * chunk_capacity o) o.max_capacity ≡ false
      over = ground arith

  -- In a valid pool with more than one slot in a chunk, `allocate` throws exactly when every slot has an object and one more chunk is
  -- beyond the limit of the pointer type.
  pub allocate-exhausted :
      (free : List ℕ)
      → IsValid o p free
      → 1 < chunk_capacity o
      → (a : A)
      → (allocate o a p ≡ throws invalid_input)
        ↔ (AllTaken × (o.max_capacity < (length p.chunks + 1) * chunk_capacity o))
  allocate-exhausted [] v wide a = (
    λ e. elim (Bool-cases (leb ((length p.chunks + 1) * chunk_capacity o) o.max_capacity)) [
      | inl fits ↦
          let (q, r, fs, run, _) = allocate-grow o p v wide a (ground arith) in
          absurd (let both = sym e ∙ run in cc)
      | inr over ↦ (none_free-AllTaken v, ground arith)
    ],
    λ h. throws_lem v a h.1,
  )
  allocate-exhausted (x ∷ free) v wide a = (
    λ e. let (q, run, _) = allocate-free o a p x free v in absurd (let both = sym e ∙ run in cc),
    λ h.
        let (at_x, low, _, _, _) = v.path in
        let (y, there) = h.0 x low in
        absurd (none≢some (object_at-free o p (x ∷ free) x v (ground arith)) there),
  )
