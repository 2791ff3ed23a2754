-- ===== src/SpscBuffer/System.antt =====
-- A producer and a consumer over one ring. A step is one operation of one thread; each operation has
-- at most one access to what the other thread writes, so the steps interleave the threads' accesses.
-- Memory is that of x86-TSO, as the source relies on it: a thread's stores reach the other one in their
-- order, and may be late. So a load of the other thread's position sees a value between the one it saw
-- last and the one that is stored; the value of a slot is stored before the position that publishes it,
-- and read before the one that gives it back. A thread has one result at a time.
use vrt.Base.{ℕ, ◌≤◌, ◌≡◌, Option, none, some, List, [], ◌∷◌, ◌++◌, not, ◌&&◌, if◌then◌else◌}
use vrt.Base.Run.{ok, throws, fault}
use vrt.SpscBuffer.Defs.{
  Buffer, DequeueResult, EnqueueResult, new, try_dequeue, try_enqueue, release_dequeue,
  release_enqueue, commit, enqueue_line, dequeue_value, set_value,
}

module _ (T : Type 0) where
  pub record System : Type 0 where
    pub buffer : Buffer T
    pub producer : Option EnqueueResult
    pub consumer : Option DequeueResult

  -- What a step does to the queue: a value goes in, or out, or neither.
  pub data Event : Type 0 where
    put : T → Event
    got : T → Event
    quiet : Event

module _ {T : Type 0} where
  -- The values that went in, and those that came out.
  unfoldable pub puts : List (Event T) → List T
  puts [] = []
  puts (put v ∷ es) = v ∷ puts es
  puts (got v ∷ es) = puts es
  puts (quiet ∷ es) = puts es

  unfoldable pub gots : List (Event T) → List T
  gots [] = []
  gots (put v ∷ es) = gots es
  gots (got v ∷ es) = v ∷ gots es
  gots (quiet ∷ es) = gots es

  module _ (cap : ℕ) where
    -- The value that a released `enqueue_result` puts in.
    unfoldable pub given : EnqueueResult → Buffer T → Event T
    unfolding enqueue_line
    given r b = if r.commit && not r.invalid then put (b.lines (enqueue_line cap b)) else quiet

    -- The value that a released `dequeue_result` takes out.
    unfoldable pub taken : DequeueResult → Buffer T → Event T
    unfolding dequeue_value
    taken r b = elim (dequeue_value cap r b) [ ok v ↦ got v | throws e ↦ quiet | fault ↦ quiet ]

    abbrev pub start : T → System T
    unfolding new
    start initial = record { buffer = new initial; producer = none; consumer = none }

    pub data Step (s : System T) : Event T → System T → Type 0 where
      begin_enqueue :
          (loaded : ℕ)
          → s.buffer.p_ctx.c_local ≤ loaded
          → loaded ≤ s.buffer.c_ctx.c_position
          → s.producer ≡ none
          → Step s quiet (record s {
            buffer = (try_enqueue cap loaded s.buffer).1;
            producer = some (try_enqueue cap loaded s.buffer).0;
          })
      write_value :
          (r : EnqueueResult) (v : T) (b : Buffer T)
          → s.producer ≡ some r
          → set_value cap r v s.buffer ≡ ok b
          → Step s quiet (record s { buffer = b })
      commit_value :
          (r r' : EnqueueResult)
          → s.producer ≡ some r
          → commit r ≡ ok r'
          → Step s quiet (record s { producer = some r' })
      end_enqueue :
          (r : EnqueueResult)
          → s.producer ≡ some r
          → Step s
              (given r s.buffer)
              (record s { buffer = release_enqueue r s.buffer; producer = none })
      begin_dequeue :
          (loaded : ℕ)
          → s.buffer.c_ctx.p_local ≤ loaded
          → loaded ≤ s.buffer.p_ctx.p_position
          → s.consumer ≡ none
          → Step s quiet (record s {
            buffer = (try_dequeue loaded s.buffer).1;
            consumer = some (try_dequeue loaded s.buffer).0;
          })
      end_dequeue :
          (r : DequeueResult)
          → s.consumer ≡ some r
          → Step s
              (taken r s.buffer)
              (record s { buffer = release_dequeue r s.buffer; consumer = none })

    -- The states that the threads reach, with the events on the way, the first one first.
    pub data Reach (initial : T) : List (Event T) → System T → Type 0 where
      here : Reach initial [] (start initial)
      next :
          {es : List (Event T)} {s t : System T} {e : Event T}
          → Reach initial es s
          → Step s e t
          → Reach initial (es ++ (e ∷ [])) t
