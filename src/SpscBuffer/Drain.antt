-- ===== src/SpscBuffer/Drain.antt =====
-- A consumer of the ring of vr/vr_common/src/vr/mc/lf_spsc_buffer.h that goes on by itself.
use vrt.Base.{ℕ, ◌≡◌, Bool, true, false, none, List, [], ◌∷◌}
use vrt.SpscBuffer.System.{
  System, Event, Step, begin_enqueue, write_value, commit_value, end_enqueue, begin_dequeue,
  end_dequeue, puts, gots,
}
use vrt.SpscBuffer.Refine.{contents}

-- A step of the consumer's thread.
unfoldable pub of_consumer :
    {T : Type 0} {cap : ℕ} {s t : System T} {e : Event T} → Step cap s e t → Bool
of_consumer (begin_enqueue loaded old now idle) = false
of_consumer (write_value r v b e run) = false
of_consumer (commit_value r r' e run) = false
of_consumer (end_enqueue r e) = false
of_consumer (begin_dequeue loaded old now idle) = true
of_consumer (end_dequeue r e) = true

-- Steps of the consumer alone, one after the other, with their events.
pub data Consumes {T : Type 0} (cap : ℕ) : System T → List (Event T) → System T → Type 0 where
  done : {s : System T} → Consumes cap s [] s
  step :
      {s t u : System T} {e : Event T} {es : List (Event T)} (st : Step cap s e t)
      → of_consumer st ≡ true
      → Consumes cap t es u
      → Consumes cap s (e ∷ es) u

-- The consumer alone goes from `s` to a state in which it is idle and the ring is empty, with gets of
-- all that was in the ring, in order.
pub record Drained {T : Type 0} (cap : ℕ) (s : System T) : Type 0 where
  pub events : List (Event T)
  pub last : System T
  pub steps : Consumes cap s events last
  pub producer : last.producer ≡ s.producer
  pub idle : last.consumer ≡ none
  pub no_puts : puts events ≡ []
  pub all : gots events ≡ contents cap s.buffer
  pub empty : contents cap last.buffer ≡ []
