-- ===== src/SpscBuffer/Access.antt =====
-- What a result of the ring of vr/vr_common/src/vr/mc/lf_spsc_buffer.h gives access to.
use mathlib.Core.Logic.{◌↔◌}
use vrt.Base.{
  ℕ, suc, ◌+◌, ◌-◌, ◌≡◌, ◌≢◌, ◌≤◌, ◌<◌, sym, ap, inl, inr, true, false, some, List, [], ◌∷◌, length,
  Bool-cases, arith,
}
use vrt.Base.Run.{ok}
use vrt.SpscBuffer.Defs.{
  IsCapacity, DequeueResult, EnqueueResult, size, try_dequeue, enqueue_line, dequeue_line,
  dequeue_value,
}
use vrt.SpscBuffer.System.{System, Event, Reach}
use vrt.SpscBuffer.Window.{window, length-window, slot-apart}
use vrt.SpscBuffer.Inv.{Ordered, Reach-Ordered, try_dequeue-cases}
use vrt.SpscBuffer.Refine.{contents, value_at, enqueue_line-at, dequeue_line-at}

module _ {T : Type 0} {cap : ℕ} {initial : T} {es : List (Event T)} {s : System T}
    (r : Reach cap initial es s) where
  o : Ordered cap s
  o = Reach-Ordered r

  length-contents :
      length (contents cap s.buffer) ≡ s.buffer.p_ctx.p_position - s.buffer.c_ctx.c_position
  length-contents = length-window (value_at cap s.buffer.lines) s.buffer.c_ctx.c_position _

  -- In a reachable state, `size` is the number of values in the ring, and is at most its capacity.
  pub size-contents : (size s.buffer ≡ length (contents cap s.buffer)) × (size s.buffer ≤ cap)
  unfolding size
  size-contents = (sym length-contents, omega (arith, o.room, o.behind))

  -- A `try_dequeue` that sees the stored position has an invalid result exactly when the ring is empty.
  pub try_dequeue-empty :
      ((try_dequeue s.buffer.p_ctx.p_position s.buffer).0.invalid ≡ true)
      ↔ (contents cap s.buffer ≡ [])
  try_dequeue-empty = elim (try_dequeue-cases s.buffer.p_ctx.p_position s.buffer) [
    | inl (e, lt) ↦ rw e (
      λ q. cc,
      λ empty. absurd (omega (arith, ap length empty, length-contents, lt, o.published)),
    )
    | inr (i, e, test, le) ↦ elim (Bool-cases i) [
      | inl t ↦
          let none_left : s.buffer.p_ctx.p_position - s.buffer.c_ctx.c_position ≡ 0 =
            ground (arith, test, t) in
          rw e (
            λ q. ap (window (value_at cap s.buffer.lines) s.buffer.c_ctx.c_position) none_left,
            λ q. t,
          )
      | inr f ↦
          let more : s.buffer.c_ctx.c_position < s.buffer.p_ctx.p_position =
            ground (arith, test, f) in
          rw e (λ q. cc, λ empty. absurd (omega (arith, ap length empty, length-contents, more)))
    ]
  ]

  -- In a reachable state in which both threads have a valid result, these give access to two different
  -- cache lines: no slot is written and read at once.
  pub lines-apart :
      (w : EnqueueResult) (d : DequeueResult)
      → IsCapacity cap
      → s.producer ≡ some w
      → w.invalid ≡ false
      → s.consumer ≡ some d
      → d.invalid ≡ false
      → enqueue_line cap s.buffer ≢ dequeue_line cap s.buffer
  lines-apart w d is_capacity has_w w_valid has_d d_valid e =
      slot-apart cap is_capacity s.buffer.c_ctx.c_position s.buffer.p_ctx.p_position
        (omega (arith, o.may_read d has_d d_valid, o.published))
        (omega (arith, o.may_write w has_w w_valid, o.behind))
        (omega (arith, e, enqueue_line-at cap s.buffer, dequeue_line-at cap s.buffer))

  -- In a reachable state, the value of a valid `dequeue_result` is the oldest one in the ring.
  pub dequeue_value-oldest :
      (d : DequeueResult)
      → s.consumer ≡ some d
      → d.invalid ≡ false
      → (v : T) × (rest : List T) × (dequeue_value cap d s.buffer ≡ ok v)
        × (contents cap s.buffer ≡ v ∷ rest)
  unfolding dequeue_value
  dequeue_value-oldest d has_d valid =
      let n : ℕ = s.buffer.p_ctx.p_position - (s.buffer.c_ctx.c_position + 1) in
      let more : s.buffer.p_ctx.p_position - s.buffer.c_ctx.c_position ≡ suc n =
        omega (arith, o.may_read d has_d valid, o.published) in
      (
        value_at cap s.buffer.lines s.buffer.c_ctx.c_position,
        window (value_at cap s.buffer.lines) (suc s.buffer.c_ctx.c_position) n,
        rw valid (ap (λ i. ok (s.buffer.lines i)) (dequeue_line-at cap s.buffer)),
        ap (window (value_at cap s.buffer.lines) s.buffer.c_ctx.c_position) more,
      )
