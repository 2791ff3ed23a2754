-- ===== src/SpscBuffer/Defs.antt =====
-- The operations of vr/vr_common/src/vr/mc/lf_spsc_buffer.h. A position is a 64-bit count of
-- operations; the model has it unbounded. `& (CAPACITY - 1)`, for a power of two, is written `% cap`,
-- and the comparison of `m_p_position - CAPACITY` with `m_c_local` is written as a sum.
use vrt.Base.{
  ℕ, ◌+◌, ◌-◌, ◌%◌, ◌^◌, ◌≡◌, ◌≤◌, Bool, true, false, ◌||◌, ◌&&◌, not, leb, ◌==◌, if◌then◌else◌,
}
use vrt.Base.Run.{Run, ok, fault}

-- What `vr_is_power_of_2 (CAPACITY)` admits of a positive `int32_t`.
abbrev pub IsCapacity : ℕ → Type 0
IsCapacity cap = (k : ℕ) × (k ≤ 30) × (cap ≡ 2 ^ k)

-- `consumer_context`: owned by the consumer, read by the producer
pub record ConsumerContext : Type 0 where
  pub c_position : ℕ
  pub p_local : ℕ

-- `producer_context`: owned by the producer, read by the consumer
pub record ProducerContext : Type 0 where
  pub p_position : ℕ
  pub c_local : ℕ

-- `lf_spsc_buffer`: cache line 0 has the consumer's context, line 1 the producer's, and `m_data` is on
-- the lines from 2 on.
pub record Buffer (T : Type 0) : Type 0 where
  pub c_ctx : ConsumerContext
  pub p_ctx : ProducerContext
  pub lines : ℕ → T

-- `dequeue_result`: the bit of its pointer
pub record DequeueResult : Type 0 where
  pub invalid : Bool

-- `enqueue_result`: the two bits of its pointer
pub record EnqueueResult : Type 0 where
  pub invalid : Bool
  pub commit : Bool

-- the index of a position in `m_data`
abbrev pub slot : ℕ → ℕ → ℕ
slot cap position = position % 2 ^ 32 % cap

-- `commit`
unfoldable pub commit : EnqueueResult → Run EnqueueResult
commit r = if r.invalid then fault else ok (record r { commit = true })

module _ {T : Type 0} where
  abbrev pub write : (ℕ → T) → ℕ → T → ℕ → T
  write lines i v j = if j == i then v else lines j

  -- A new buffer, with `initial` for the zeroed storage.
  unfoldable pub new : T → Buffer T
  new initial = record {
    c_ctx = record { c_position = 0; p_local = 0 };
    p_ctx = record { p_position = 0; c_local = 0 };
    lines = λ i. initial;
  }

  unfoldable pub size : Buffer T → ℕ
  size b = b.p_ctx.p_position - b.c_ctx.c_position

  -- `p_position` is what the load of the producer's position sees.
  unfoldable pub try_dequeue : (p_position : ℕ) → Buffer T → DequeueResult × Buffer T
  try_dequeue p_position b =
      if leb b.c_ctx.p_local b.c_ctx.c_position
      then (
        record { invalid = leb p_position b.c_ctx.c_position },
        record b { c_ctx = record (b.c_ctx) { p_local = p_position } },
      )
      else (record { invalid = false }, b)

  -- the destructor of `dequeue_result`
  unfoldable pub release_dequeue : DequeueResult → Buffer T → Buffer T
  release_dequeue r b =
      if not r.invalid
      then record b { c_ctx = record (b.c_ctx) { c_position = b.c_ctx.c_position + 1 } }
      else b

  -- the destructor of `enqueue_result`
  unfoldable pub release_enqueue : EnqueueResult → Buffer T → Buffer T
  release_enqueue r b =
      if r.commit && not r.invalid
      then record b { p_ctx = record (b.p_ctx) { p_position = b.p_ctx.p_position + 1 } }
      else b

  module _ (cap : ℕ) where
    -- `c_position` is what the load of the consumer's position sees.
    unfoldable pub try_enqueue : (c_position : ℕ) → Buffer T → EnqueueResult × Buffer T
    try_enqueue c_position b =
        if leb (b.p_ctx.c_local + cap) b.p_ctx.p_position
        then (
          record { invalid = leb (c_position + cap) b.p_ctx.p_position; commit = false },
          record b { p_ctx = record (b.p_ctx) { c_local = c_position } },
        )
        else (record { invalid = false; commit = false }, b)

    -- the line of `dequeue_result::value`, from the line of the consumer's context on
    unfoldable pub dequeue_line : Buffer T → ℕ
    dequeue_line b = 0 + (2 + slot cap b.c_ctx.c_position)

    -- the line of `enqueue_result::value`, from the line of the producer's context on
    unfoldable pub enqueue_line : Buffer T → ℕ
    enqueue_line b = 1 + (1 + slot cap b.p_ctx.p_position)

    -- `dequeue_result::value`
    unfoldable pub dequeue_value : DequeueResult → Buffer T → Run T
    unfolding dequeue_line
    dequeue_value r b = if r.invalid then fault else ok (b.lines (dequeue_line b))

    -- A write through `enqueue_result::value`. The pointer of a committed result has the bit in it, and
    -- is no context.
    unfoldable pub set_value : EnqueueResult → T → Buffer T → Run (Buffer T)
    unfolding enqueue_line
    set_value r v b =
        if r.invalid || r.commit
        then fault
        else ok (record b { lines = write (b.lines) (enqueue_line b) v })
