-- ===== src/SpscBuffer/Tests.antt =====
-- A ring of vr/vr_common/src/vr/mc/lf_spsc_buffer.h with two slots, and the theorems on its states.
use vrt.Base.{ℕ, ◌≡◌, ◌≢◌, refl, some, List, ◌++◌, arith}
use vrt.SpscBuffer.Defs.{
  IsCapacity, new, try_dequeue, try_enqueue, release_enqueue, commit, enqueue_line, dequeue_line,
  set_value,
}
use vrt.SpscBuffer.System.{
  System, Event, quiet, given, Step, Reach, here, next, begin_enqueue, write_value, commit_value,
  end_enqueue, begin_dequeue, puts, gots,
}
use vrt.SpscBuffer.Inv.{Ordered, Reach-Ordered}
use vrt.SpscBuffer.Refine.{Fifo, contents, Step-Fifo}
use vrt.SpscBuffer.Order.{Reach-Fifo}
use vrt.SpscBuffer.Access.{lines-apart}

two-IsCapacity : IsCapacity 2
two-IsCapacity = (1, omega arith, refl)

record Reached : Type 0 where
  events : List (Event ℕ)
  last : System ℕ
  reach : Reach 2 0 events last

-- a producer with a result in which it has written 5
abbrev written : Reached
unfolding try_enqueue set_value enqueue_line new
written = record {
  events = _;
  last = _;
  reach =
      next (next here (begin_enqueue 0 (omega arith) (omega arith) refl))
        (write_value _ 5 _ refl refl);
}

-- that value is in the ring
abbrev one_in : Reached
unfolding try_enqueue set_value enqueue_line new given release_enqueue commit
one_in = record {
  events = _;
  last = _;
  reach = next (next written.reach (commit_value _ _ refl refl)) (end_enqueue _ refl);
}

-- the consumer and the producer both have a valid result
abbrev both : Reached
unfolding try_enqueue try_dequeue set_value enqueue_line new given release_enqueue commit
both = record {
  events = _;
  last = _;
  reach =
      next (next one_in.reach (begin_dequeue 1 (omega arith) (omega arith) refl))
        (begin_enqueue 0 (omega arith) (omega arith) refl);
}

Reach-Ordered_example : Ordered 2 both.last
Reach-Ordered_example = Reach-Ordered both.reach

abbrev begun : System ℕ
begun = record one_in.last {
  buffer = (try_dequeue 1 one_in.last.buffer).1;
  consumer = some (try_dequeue 1 one_in.last.buffer).0;
}

begins : Step 2 one_in.last quiet begun
unfolding new try_enqueue set_value enqueue_line given release_enqueue commit
begins = begin_dequeue 1 (omega arith) (omega arith) refl

Step-Fifo_example : Fifo 2 quiet (contents 2 one_in.last.buffer) (contents 2 begun.buffer)
Step-Fifo_example = Step-Fifo 2 two-IsCapacity begins (Reach-Ordered one_in.reach)

Reach-Fifo_example : puts both.events ≡ gots both.events ++ contents 2 both.last.buffer
Reach-Fifo_example = Reach-Fifo two-IsCapacity both.reach

lines-apart_example : enqueue_line 2 both.last.buffer ≢ dequeue_line 2 both.last.buffer
unfolding try_enqueue try_dequeue set_value enqueue_line new given release_enqueue commit
lines-apart_example = lines-apart both.reach _ _ two-IsCapacity refl refl refl refl
