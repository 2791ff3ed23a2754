-- ===== src/ScatterTable/Defs/Slots.antt =====
-- The table's slots and its free list (containers/util/chained_scatter_table.h).
-- A slot is told by the sign of its `_next_`: a used slot's is the index of the next slot of its
-- chain (0 at the end), a free slot's is -(index + 1). The constructors stand for the two signs and
-- hold the index. Slot 0 is the sentinel of the free list. `fixed` is the trait `fixed_capacity`.
-- A loop over a chain takes as many rounds as there are slots.
use vrt.Base.{ℕ, zero, suc, ◌+◌, ◌-◌, Bool, true, leb, ltb, ◌==◌, if◌then◌else◌, ◌≡◌, ◌↔◌}
use vrt.Base.Run.{Run, ok, throws, fault, invalid_input, capacity_limit, ◌>>=◌, ◌>>◌, check, assert}
use vrt.Base.Power.{is_power_of_2}

-- The template parameters: the keys' `==` and the functor HASH.
pub record Key (K : Type 0) : Type 0 where
  pub equal : K → K → Bool
  pub hash : K → ℕ
  pub equal_iff : (a b : K) → (equal a b ≡ true) ↔ (a ≡ b)

pub data Slot (K V : Type 0) : Type 0 where
  free : (prev next : ℕ) → Slot K V
  used : (next : ℕ) → K → V → Slot K V

-- `m_buckets` and its capacity, without the sentinel
pub record Buckets (K V : Type 0) : Type 0 where
  pub capacity : ℕ
  pub cell : ℕ → Slot K V

-- `m_size`, `m_capacity_mask` + 1 and `m_buckets`
pub record Table (K V : Type 0) : Type 0 where
  pub size : ℕ
  pub buckets : Buckets K V

abbrev pub update {ℓ} : {A : Type ℓ} → (ℕ → A) → ℕ → A → ℕ → A
update f i a j = if j == i then a else f j

module _ {K V : Type 0} where
  unfoldable pub load : Buckets K V → ℕ → Run (Slot K V)
  load b i = if leb i b.capacity then ok (b.cell i) else fault

  unfoldable pub store : Buckets K V → ℕ → Slot K V → Run (Buckets K V)
  store b i s = if leb i b.capacity then ok (record b { cell = update b.cell i s }) else fault

  -- The links of a free slot: (`_prev_`, index in `_next_`).
  unfoldable pub load_free : Buckets K V → ℕ → Run (ℕ × ℕ)
  unfolding load
  load_free b i = do s ← load b i; elim s [ free p n ↦ ok (p, n) | used n k v ↦ fault ]

  -- A used slot: (`_next_`, `_key_`, `_value_`).
  unfoldable pub load_used : Buckets K V → ℕ → Run (ℕ × K × V)
  unfolding load
  load_used b i = do s ← load b i; elim s [ free p n ↦ fault | used n k v ↦ ok (n, k, v) ]

  unfoldable pub set_free_next : Buckets K V → ℕ → ℕ → Run (Buckets K V)
  unfolding load_free store
  set_free_next b i n = do (p, _) ← load_free b i; store b i (free p n)

  unfoldable pub set_free_prev : Buckets K V → ℕ → ℕ → Run (Buckets K V)
  unfolding load_free store
  set_free_prev b i p = do (_, n) ← load_free b i; store b i (free p n)

  unfoldable pub set_used_next : Buckets K V → ℕ → ℕ → Run (Buckets K V)
  unfolding load_used store
  set_used_next b i n = do (_, k, v) ← load_used b i; store b i (used n k v)

  -- The first slot of the free list is unlinked. The second result is its index.
  unfoldable pub acquire_free_slot : (fixed : Bool) → Buckets K V → Run (ℕ × Buckets K V)
  unfolding load_free set_free_prev set_free_next
  acquire_free_slot fixed b = do
    (_, first_free) ← load_free b 0
    if first_free == 0 then (if fixed then throws capacity_limit else fault) else ok tt
    (_, ff_next) ← load_free b first_free
    b₁ ← set_free_prev b ff_next 0
    b₂ ← set_free_next b₁ 0 ff_next
    ok (first_free, b₂)

  -- A slot becomes the first of the free list.
  unfoldable pub free_slot : ℕ → Buckets K V → Run (Buckets K V)
  unfolding load_free set_free_prev set_free_next store
  free_slot e b = do
    assert (ltb 0 e)
    (_, first_free) ← load_free b 0
    b₁ ← set_free_prev b first_free e
    b₂ ← store b₁ e (free 0 first_free)
    set_free_next b₂ 0 e

  -- The loop of `allocate_capacity`: `n` slots from `index` on.
  unfoldable pub link_free : (n index : ℕ) → (ℕ → Slot K V) → ℕ → Slot K V
  link_free zero index cell = cell
  link_free (suc n) index cell =
      link_free n (index + 1) (update cell index (free (index - 1) (index + 1)))

  -- `allocate_capacity`; `junk` is what the fresh memory holds.
  unfoldable pub allocate_capacity : (max_capacity capacity : ℕ) → Slot K V → Run (Buckets K V)
  unfolding is_power_of_2 link_free set_free_prev set_free_next
  allocate_capacity max_capacity capacity junk = do
    assert (is_power_of_2 capacity)
    check (leb capacity max_capacity) invalid_input
    let b : Buckets K V = record {
      capacity = capacity;
      cell = link_free (capacity + 1) 0 (λ _. junk);
    }
    b₁ ← set_free_next b capacity 0
    set_free_prev b₁ 0 capacity
