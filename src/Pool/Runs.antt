-- ===== src/Pool/Runs.antt =====
-- Chains of consecutive references, which the constructor and a new chunk make.
use vrt.Base.{
  ℕ, zero, suc, ◌+◌, ◌-◌, ◌*◌, ◌/◌, ◌%◌, ◌≤◌, ◌<◌, ◌≡◌, refl, List, [], ◌∷◌, ◌++◌, ◌≢◌, ltb, leb,
  ◌==◌, ◌&&◌, if◌then◌else◌, length, get_or, arith, All, Distinct, contains,
}
use vrt.Pool.Defs.{
  Slot, link, Options, chunk_capacity, Chunk, update, new_chunk, null_ref, link_slots,
}
use vrt.Pool.Content.{content, chunk_capacity_pos, index_lt}
use vrt.Pool.FreeList.{FreePath}

-- a, a + 1, …
abbrev pub count_up : ℕ → ℕ → List ℕ
count_up zero a = []
count_up (suc n) a = a ∷ count_up n (suc a)

pub contains-count_up : (n a s : ℕ) → contains s (count_up n a) ≡ (leb a s && ltb s (a + n))
contains-count_up zero a s = ground arith
contains-count_up (suc n) a s = rw (contains-count_up n (suc a) s) (ground arith)

count_up-above : (n a b : ℕ) → a < b → All (λ y. a ≢ y) (count_up n b)
count_up-above zero a b h = tt
count_up-above (suc n) a b h = (omega arith, count_up-above n a (suc b) (omega arith))

pub count_up-Distinct : (n a : ℕ) → Distinct (count_up n a)
count_up-Distinct zero a = tt
count_up-Distinct (suc n) a =
    (count_up-above n a (suc a) (omega arith), count_up-Distinct n (suc a))

-- The references of a chunk that is appended.
pub index_of_offset : (n c j : ℕ) → j < c → ((n * c + j) / c ≡ n) × ((n * c + j) % c ≡ j)
index_of_offset n c j h = grind arith

module _ (o : Options) {A : Type 0} where
  pub FreePath-count_up :
      (f : ℕ → Slot A) (limit n a last : ℕ)
      → last ≡ a + n
      → last < limit
      → ((s : ℕ) → a ≤ s → s < last → f s ≡ link (suc s))
      → f last ≡ link (null_ref o)
      → FreePath o f limit a (count_up (suc n) a)
  FreePath-count_up f limit zero a last e b links end =
      let same : last ≡ a = omega arith in (refl, omega arith, null_ref o, (rw same at end), refl)
  FreePath-count_up f limit (suc n) a last e b links end = (
    refl,
    omega arith,
    suc a,
    links a (omega arith) (omega arith),
    FreePath-count_up f limit n (suc a) last (omega arith) b (λ s h k. links s (omega arith) k) end,
  )

  -- What the inner loop writes.
  pub link_slots-at :
      (n i ref : ℕ) (c : Chunk A) (j : ℕ)
      → link_slots o n i ref c j
        ≡ (if leb i j && ltb j (i + n) then link (ref + (j - i) + 1) else c j)
  unfolding link_slots
  link_slots-at zero i ref c j = ground arith
  link_slots-at (suc n) i ref c j =
      rw (link_slots-at n (i + 1) (ref + 1) (update c i (link (ref + 1))) j) (ground arith)

  get_or-append :
      (m : List (Chunk A)) (c d : Chunk A) (i : ℕ)
      → get_or (m ++ c ∷ []) i d ≡ (if i == length m then c else get_or m i d)
  get_or-append [] c d zero = ground arith
  get_or-append [] c d (suc i) = ground arith
  get_or-append (x ∷ m) c d zero = ground arith
  get_or-append (x ∷ m) c d (suc i) = ground (arith, get_or-append m c d i)

  pub content-append_old :
      (m : List (Chunk A)) (c : Chunk A) (s : ℕ)
      → s < length m * chunk_capacity o
      → content o (m ++ c ∷ []) s ≡ content o m s
  unfolding content
  content-append_old m c s h =
      rw (get_or-append m c (new_chunk o) (s / chunk_capacity o))
        (ground (arith, index_lt s (length m) (chunk_capacity o) (chunk_capacity_pos o) h))

  pub content-append_new :
      (m : List (Chunk A)) (c : Chunk A) (j : ℕ)
      → j < chunk_capacity o
      → content o (m ++ c ∷ []) (length m * chunk_capacity o + j) ≡ c j
  unfolding content
  content-append_new m c j h =
      let (q, r) = index_of_offset (length m) (chunk_capacity o) j h in
      rw (q, r) (rw (get_or-append m c (new_chunk o) (length m)) (ground arith))
