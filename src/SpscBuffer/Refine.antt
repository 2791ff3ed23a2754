-- ===== src/SpscBuffer/Refine.antt =====
-- The ring of vr/vr_common/src/vr/mc/lf_spsc_buffer.h implements a bounded queue.
use vrt.Base.{
  ℕ, suc, ◌+◌, ◌-◌, ◌≡◌, ◌<◌, refl, sym, ap, ◌∙◌, inl, inr, false, some, List, [], ◌∷◌, ◌++◌, ◌==◌,
  length, Bool-cases, not, ◌&&◌, arith,
}
use vrt.Base.Run.{ok}
use vrt.SpscBuffer.Defs.{
  IsCapacity, Buffer, DequeueResult, EnqueueResult, slot, write, try_dequeue, try_enqueue,
  release_dequeue, release_enqueue, enqueue_line, dequeue_line, dequeue_value, set_value,
}
use vrt.SpscBuffer.System.{
  System, Event, put, got, quiet, Step, given, taken, begin_enqueue, write_value, commit_value,
  end_enqueue, begin_dequeue, end_dequeue,
}
use vrt.SpscBuffer.Window.{window, length-window, window-suc, window-ext, slot-apart}
use vrt.SpscBuffer.Inv.{Ordered, try_enqueue-cases, try_dequeue-cases, set_value-eq_ok}

-- A queue of at most `cap` values before and after an event.
abbrev pub Fifo : {T : Type 0} → ℕ → Event T → List T → List T → Type 0
Fifo cap (put v) before after = (length before < cap) × (after ≡ before ++ (v ∷ []))
Fifo cap (got v) before after = before ≡ v ∷ after
Fifo cap quiet before after = after ≡ before

module _ {T : Type 0} (cap : ℕ) where
  -- Each thread counts the lines of `m_data` from its own context on.
  pub enqueue_line-at : (b : Buffer T) → enqueue_line cap b ≡ 2 + slot cap b.p_ctx.p_position
  unfolding enqueue_line
  enqueue_line-at b = omega arith

  pub dequeue_line-at : (b : Buffer T) → dequeue_line cap b ≡ 2 + slot cap b.c_ctx.c_position
  unfolding dequeue_line
  dequeue_line-at b = omega arith

  -- the value at a position
  abbrev pub value_at : (ℕ → T) → ℕ → T
  value_at lines i = lines (2 + slot cap i)

  -- The values that are in and not yet out, the oldest first.
  abbrev pub contents : Buffer T → List T
  contents b =
      window (value_at b.lines) b.c_ctx.c_position (b.p_ctx.p_position - b.c_ctx.c_position)

  module _ (is_capacity : IsCapacity cap) (s : System T) (o : Ordered cap s) where
    begin_enqueue-contents :
        (loaded : ℕ) → contents (try_enqueue cap loaded s.buffer).1 ≡ contents s.buffer
    begin_enqueue-contents loaded = elim (try_enqueue-cases cap loaded s.buffer) [
      | inl (e, _) ↦ rw e refl
      | inr (i, e, _, _) ↦ rw e refl
    ]

    begin_dequeue-contents :
        (loaded : ℕ) → contents (try_dequeue loaded s.buffer).1 ≡ contents s.buffer
    begin_dequeue-contents loaded = elim (try_dequeue-cases loaded s.buffer) [
      | inl (e, _) ↦ rw e refl
      | inr (i, e, _, _) ↦ rw e refl
    ]

    -- A producer writes where no value is.
    set_value-contents :
        (r : EnqueueResult) (v : T) (b : Buffer T)
        → s.producer ≡ some r
        → set_value cap r v s.buffer ≡ ok b
        → contents b ≡ contents s.buffer
    unfolding enqueue_line
    set_value-contents r v b e run =
        let (same, valid) = set_value-eq_ok cap r v s.buffer b run in
        rw same (
          window-ext (value_at (write (s.buffer.lines) (enqueue_line cap s.buffer) v))
            (value_at s.buffer.lines) s.buffer.c_ctx.c_position
            (s.buffer.p_ctx.p_position - s.buffer.c_ctx.c_position)
            (λ j lo hi.
              let apart =
                slot-apart cap is_capacity j s.buffer.p_ctx.p_position
                  (omega (arith, o.seen, o.published))
                  (omega (arith, o.may_write r e valid, o.behind)) in
              let test : 2 + slot cap j == 1 + (1 + slot cap s.buffer.p_ctx.p_position) ≡ false =
                ground (arith, apart) in
              rw test refl))

    end_enqueue-Fifo :
        (r : EnqueueResult)
        → s.producer ≡ some r
        → Fifo cap
            (given cap r s.buffer)
            (contents s.buffer)
            (contents (release_enqueue r s.buffer))
    unfolding given release_enqueue enqueue_line
    end_enqueue-Fifo r e = elim (Bool-cases (r.commit && not r.invalid)) [
      | inr f ↦ rw f refl
      | inl t ↦
          let valid : r.invalid ≡ false = ground (arith, t) in
          let n : ℕ = s.buffer.p_ctx.p_position - s.buffer.c_ctx.c_position in
          let longer : s.buffer.p_ctx.p_position + 1 - s.buffer.c_ctx.c_position ≡ suc n =
            omega (arith, o.seen, o.published) in
          let last : s.buffer.c_ctx.c_position + n ≡ s.buffer.p_ctx.p_position =
            omega (arith, o.seen, o.published) in
          rw t (
            omega (
              arith,
              length-window (value_at s.buffer.lines) s.buffer.c_ctx.c_position n,
              o.may_write r e valid,
              o.behind,
            ),
            ap (window (value_at s.buffer.lines) s.buffer.c_ctx.c_position) longer
                ∙ window-suc (value_at s.buffer.lines) s.buffer.c_ctx.c_position n
                ∙ ap
                    (λ i.
                      window (value_at s.buffer.lines) s.buffer.c_ctx.c_position n
                      ++ (value_at s.buffer.lines i ∷ []))
                    last
                ∙ ap (λ i. contents s.buffer ++ (s.buffer.lines i ∷ []))
                    (sym (enqueue_line-at s.buffer)),
          )
    ]

    end_dequeue-Fifo :
        (r : DequeueResult)
        → s.consumer ≡ some r
        → Fifo cap
            (taken cap r s.buffer)
            (contents s.buffer)
            (contents (release_dequeue r s.buffer))
    unfolding taken dequeue_value dequeue_line release_dequeue
    end_dequeue-Fifo r e = elim (Bool-cases r.invalid) [
      | inl t ↦ rw t refl
      | inr f ↦
          let n : ℕ = s.buffer.p_ctx.p_position - (s.buffer.c_ctx.c_position + 1) in
          let more : s.buffer.p_ctx.p_position - s.buffer.c_ctx.c_position ≡ suc n =
            omega (arith, o.may_read r e f, o.published) in
          let after : suc s.buffer.c_ctx.c_position ≡ s.buffer.c_ctx.c_position + 1 = omega arith in
          rw f (
            ap (window (value_at s.buffer.lines) s.buffer.c_ctx.c_position) more
            ∙ ap
                (λ i.
                  value_at s.buffer.lines s.buffer.c_ctx.c_position
                  ∷ window (value_at s.buffer.lines) i n)
                after
            ∙ ap
                (λ i.
                  s.buffer.lines i
                  ∷ window (value_at s.buffer.lines) (s.buffer.c_ctx.c_position + 1) n)
                (sym (dequeue_line-at s.buffer)))
    ]

  -- From a state whose positions are in order, every step of either thread does to the values between
  -- the positions what its event does to a queue of at most `cap` values: a put, into a queue that is
  -- not full, adds one at the end, a get takes the first one, and the other steps change nothing.
  pub Step-Fifo :
      {s t : System T} {e : Event T} (is_capacity : IsCapacity cap)
      → Step cap s e t
      → Ordered cap s
      → Fifo cap e (contents s.buffer) (contents t.buffer)
  Step-Fifo {s} ic (begin_enqueue loaded old now idle) o = begin_enqueue-contents ic s o loaded
  Step-Fifo {s} ic (begin_dequeue loaded old now idle) o = begin_dequeue-contents ic s o loaded
  Step-Fifo {s} ic (write_value r v b e run) o = set_value-contents ic s o r v b e run
  Step-Fifo {s} ic (commit_value r r' e run) o = refl
  Step-Fifo {s} ic (end_enqueue r e) o = end_enqueue-Fifo ic s o r e
  Step-Fifo {s} ic (end_dequeue r e) o = end_dequeue-Fifo ic s o r e
