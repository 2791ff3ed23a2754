-- ===== src/Pool/Content.antt =====
-- What a reference denotes in the chunks: reads and writes through a reference's address.
use native.Mathlib.Nat.{div-add-mod, pow-suc}
use vrt.Base.{
  ℕ, zero, suc, ◌*◌, ◌/◌, ◌%◌, ◌^◌, ◌<◌, ◌≡◌, refl, ap, List, [], ◌∷◌, ◌==◌, if◌then◌else◌, length,
  get_elem?, get_or, set, some, arith, length-set,
}
use vrt.Base.Power.{pow_pos}
use vrt.Base.Run.{ok}
use vrt.Pool.Defs.{Slot, Options, chunk_capacity, Chunk, update, new_chunk, address, load, store}

pub chunk_capacity_pos : (o : Options) → 0 < chunk_capacity o
chunk_capacity_pos o = pow_pos o.chunk_index_shift

pow_gt_one : (n : ℕ) → 0 < n → 1 < 2 ^ n
pow_gt_one zero h = absurd (omega arith)
pow_gt_one (suc n) h = omega (arith, pow-suc 2 n, pow_pos n)

-- The static assertion on the chunk capacity.
pub chunk_capacity_gt_one : (o : Options) → 0 < o.chunk_index_shift → 1 < chunk_capacity o
chunk_capacity_gt_one o h = pow_gt_one o.chunk_index_shift h

module _ (o : Options) {A : Type 0} where
  unfoldable pub content : List (Chunk A) → ℕ → Slot A
  content m ref = get_or m (ref / chunk_capacity o) (new_chunk o) (ref % chunk_capacity o)

  unfoldable pub write : List (Chunk A) → ℕ → Slot A → List (Chunk A)
  write m ref s =
      set m (ref / chunk_capacity o)
        (update (get_or m (ref / chunk_capacity o) (new_chunk o)) (ref % chunk_capacity o) s)

get_elem?-get_or :
    {A : Type 0} (xs : List A) (i : ℕ) (d : A)
    → i < length xs
    → get_elem? xs i ≡ some (get_or xs i d)
get_elem?-get_or [] i d h = absurd (omega arith)
get_elem?-get_or (x ∷ xs) zero d h = refl
get_elem?-get_or (x ∷ xs) (suc i) d h = get_elem?-get_or xs i d (omega arith)

get_or-set :
    {A : Type 0} (xs : List A) (i j : ℕ) (v d : A)
    → i < length xs
    → get_or (set xs i v) j d ≡ (if j == i then v else get_or xs j d)
get_or-set [] i j v d h = absurd (omega arith)
get_or-set (x ∷ xs) (suc i) (suc j) v d h = ground (arith, get_or-set xs i j v d)
get_or-set (x ∷ xs) zero zero v d h = ground arith
get_or-set (x ∷ xs) i j v d h = ground arith

pub index_lt : (r n c : ℕ) → 0 < c → r < n * c → r / c < n
index_lt r n c p h = grind (arith)

pub same_ref : (r s c : ℕ) → r / c ≡ s / c → r % c ≡ s % c → r ≡ s
same_ref r s c p q = omega (arith, div-add-mod r c, div-add-mod s c, ap (λ (t : ℕ). c * t) p)

module _ (o : Options) {A : Type 0} where
  pub load-content :
      (m : List (Chunk A)) (r : ℕ)
      → r < length m * chunk_capacity o
      → load m (address o r) ≡ ok (content o m r)
  unfolding load address content
  load-content m r h = rw (
    get_elem?-get_or m (r / chunk_capacity o) (new_chunk o)
        (index_lt r (length m) (chunk_capacity o) (chunk_capacity_pos o) h),
    load,
  )

  pub store-write :
      (m : List (Chunk A)) (r : ℕ) (s : Slot A)
      → r < length m * chunk_capacity o
      → store m (address o r) s ≡ ok (write o m r s)
  unfolding store address write
  store-write m r s h = rw (
    get_elem?-get_or m (r / chunk_capacity o) (new_chunk o)
        (index_lt r (length m) (chunk_capacity o) (chunk_capacity_pos o) h),
    store,
  )

  pub length-write : (m : List (Chunk A)) (r : ℕ) (s : Slot A) → length (write o m r s) ≡ length m
  unfolding write
  length-write m r s = length-set m (r / chunk_capacity o) _

  pub content-write :
      (m : List (Chunk A)) (r : ℕ) (s : Slot A) (q : ℕ)
      → r < length m * chunk_capacity o
      → content o (write o m r s) q ≡ (if r == q then s else content o m q)
  unfolding content write
  content-write m r s q h =
      rw
        (get_or-set m (r / chunk_capacity o) (q / chunk_capacity o) _ (new_chunk o)
          (index_lt r (length m) (chunk_capacity o) (chunk_capacity_pos o) h))
        (ground (arith, same_ref r q (chunk_capacity o)))
