-- ===== src/TimerQueue/Tests.antt =====
-- A queue of vr/vr_common/src/vr/util/timer_event_queue.h with one event, on sequences for the tree.
use mathlib.Core.Path.{subst}
use vrt.Base.{
  ℕ, ◌≡◌, refl, inl, inr, none, some, none≢some, List, [], ◌∷◌, ◌==◌, contains, true, Bool-cases,
  Option-cases, arith,
}
use vrt.Base.Store.{Store, set_at, Allocator}
use vrt.Base.Run.{ok, fault, fault≢ok, ok-injective}
use vrt.TimerQueue.Random.{IsState, evaluate, evaluate-IsState}
use vrt.TimerQueue.Defs.{
  Entry, insert_upper, remove, TreapMultiset, Queue, front, enqueue, dequeue, reschedule,
  reschedule_front,
}
use vrt.TimerQueue.Sound.{events, insert_event, Sound}
use vrt.TimerQueue.Inserted.{pending}
use vrt.TimerQueue.Events.{
  enqueue-pending, dequeue-pending, reschedule-pending, reschedule_front-pending,
}

abbrev sequences : TreapMultiset (List ℕ) ℕ
sequences = record {
  nothing = [];
  sequence = λ rs. rs;
  insert = insert_upper;
  erase = remove;
  sequence-nothing = refl;
  sequence-insert = λ entries r q ordered. refl;
  sequence-erase = λ r q. refl;
}

abbrev second_slot : Allocator (Entry ℕ)
second_slot = record { pick = λ s. elim (s 1) [ none ↦ ok 1 | some e ↦ fault ]; pick_free = free }
  where
    free :
        (s : Store (Entry ℕ)) (r : ℕ)
        → elim (s 1) [ none ↦ ok 1 | some e ↦ fault ] ≡ ok r
        → s r ≡ none
    free s r h = elim (Option-cases (s 1)) [
      | inl e ↦ let same : 1 ≡ r = ok-injective (rw e at h) in subst (λ r. s r ≡ none) same e
      | inr (x, e) ↦ absurd (fault≢ok (rw e at h))
    ]

-- the value 7 at the time 10
abbrev entry : Entry ℕ
entry = record { key = 10; value = 7; instance_ref = 0; priority = 5 }

abbrev one_event : Queue (List ℕ) ℕ
one_event = record { queue = 0 ∷ []; entries = set_at (λ r. none) 0 entry; priority = 5 }

five-IsState : IsState 5
five-IsState = (omega arith, omega arith)

one_event-Sound : Sound sequences one_event
one_event-Sound = record {
  ordered = (tt, tt);
  distinct = (tt, tt);
  present = ((entry, refl, refl), tt);
  listed = listed;
  random = five-IsState;
}
  where
    listed : (r : ℕ) (e : Entry ℕ) → one_event.entries r ≡ some e → contains r (0 ∷ []) ≡ true
    listed r e h = elim (Bool-cases (r == 0)) [
      | inl t ↦ rw t refl
      | inr t ↦ absurd (none≢some refl (rw t at h))
    ]

evaluate-IsState_example : IsState (evaluate 5)
evaluate-IsState_example = evaluate-IsState 5 five-IsState

enqueue-pending_example :
    (q' : Queue (List ℕ) ℕ) × (enqueue sequences second_slot 3 8 one_event ≡ ok q')
    × Sound sequences q'
    × (pending sequences q' ≡ insert_event 3 8 (pending sequences one_event))
enqueue-pending_example = enqueue-pending sequences one_event one_event-Sound second_slot 3 8 1 refl

dequeue-pending_example :
    (q' : Queue (List ℕ) ℕ) × (dequeue sequences one_event ≡ ok q')
    × Sound sequences q'
    × (pending sequences q' ≡ [])
dequeue-pending_example = dequeue-pending sequences one_event one_event-Sound 10 7 [] refl

reschedule-pending_example :
    (q' : Queue (List ℕ) ℕ) × (reschedule sequences 0 10 one_event ≡ ok q')
    × Sound sequences q'
    × (pending sequences q' ≡ insert_event 10 7 (events one_event.entries (remove 0 (0 ∷ []))))
reschedule-pending_example =
    reschedule-pending sequences one_event one_event-Sound 0 entry 10 refl (omega arith)

reschedule_front-pending_example :
    (r : ℕ) × (q' : Queue (List ℕ) ℕ) × (reschedule_front sequences 12 one_event ≡ ok (r, q'))
    × (front sequences one_event ≡ some r)
    × Sound sequences q'
    × (pending sequences q' ≡ insert_event 12 7 [])
reschedule_front-pending_example =
    reschedule_front-pending sequences one_event one_event-Sound 10 7 [] 12 refl (omega arith)
