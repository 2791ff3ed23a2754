-- ===== src/TimerQueue/Events.antt =====
-- `enqueue`, `dequeue` and the two reschedules of a timer event queue
-- (vr/vr_common/src/vr/util/timer_event_queue.h) on the events that it stands for.
use mathlib.Core.List.{nil≢cons, head-eq_of_cons-eq, tail-eq_of_cons-eq}
use vrt.Base.{
  ℕ, ◌≡◌, ◌≢◌, ◌≤◌, ◌<◌, ◌∙◌, refl, sym, ap, inl, inr, true, false, some, none≢some, some-injective,
  List, [], ◌∷◌, ◌==◌, leb, ltb, All, All-contains, contains, Bool-cases, arith,
}
use vrt.Base.Store.{clear_at, Allocator}
use vrt.Base.Run.{ok}
use vrt.TimerQueue.Random.{evaluate, evaluate-IsState}
use vrt.TimerQueue.Defs.{
  Entry, remove, TreapMultiset, Queue, front, enqueue, dequeue, requeue, requeue_front, reschedule,
  reschedule_front,
}
use vrt.TimerQueue.Sound.{
  events, insert_event, Present, events-there, events-elsewhere, Present-elsewhere,
  IsOrdered-elsewhere, Sound,
}
use vrt.TimerQueue.Inserted.{
  pending, Without, inserted, inserted-events, inserted-Sound, seq, fresh-Without, erased-Without,
}

module _ {Q V : Type 0} (treap : TreapMultiset Q V) (q : Queue Q V) (s : Sound treap q) where
  -- In a queue that satisfies the invariant, with room in its pool, an event is added behind those that
  -- are not later, the others stay, and the invariant holds again.
  pub enqueue-pending :
      (pool : Allocator (Entry V)) (key : ℕ) (value : V) (r : ℕ)
      → pool.pick q.entries ≡ ok r
      → (q' : Queue Q V) × (enqueue treap pool key value q ≡ ok q')
        × Sound treap q'
        × (pending treap q' ≡ insert_event key value (pending treap q))
  unfolding enqueue
  enqueue-pending pool key value r pick =
      let e : Entry V = record {
        key = key;
        value = value;
        instance_ref = r;
        priority = evaluate q.priority;
      } in
      let w = fresh-Without treap q s r (pool.pick_free q.entries r pick) in
      let state = evaluate-IsState q.priority s.random in
      let running : q.priority == 0 ≡ false = ground (arith, s.random.0) in
      (
        inserted treap q.queue q.entries r (evaluate q.priority) w e refl state,
        rw (pick, running) refl,
        inserted-Sound treap q.queue q.entries r (evaluate q.priority) w e refl state,
        inserted-events treap q.queue q.entries r (evaluate q.priority) w e refl state,
      )

  -- The entry of the first event.
  first-Present :
      (rs : List ℕ) (k : ℕ) (v : V) (es : List (ℕ × V))
      → All (Present q.entries) rs
      → events q.entries rs ≡ (k, v) ∷ es
      → (r : ℕ) × (tail : List ℕ) × (x : Entry V) × (rs ≡ r ∷ tail)
        × (q.entries r ≡ some x)
        × (x.instance_ref ≡ r)
        × (x.key ≡ k)
        × (x.value ≡ v)
        × (events q.entries tail ≡ es)
  first-Present [] k v es p e = absurd (nil≢cons e)
  first-Present (r ∷ tail) k v es ((x, there, own), p) e =
      let now = sym (events-there q.entries r x tail there) ∙ e in
      (
        r,
        tail,
        x,
        refl,
        there,
        own,
        ap (λ e. e.0) (head-eq_of_cons-eq now),
        ap (λ e. e.1) (head-eq_of_cons-eq now),
        tail-eq_of_cons-eq now,
      )

  remove-first : (r : ℕ) (tail : List ℕ) → remove r (r ∷ tail) ≡ tail
  remove-first r tail = let test : r == r ≡ true = ground arith in rw test refl

  module _ (r : ℕ) where
    abbrev taken : Queue Q V
    taken = record q { queue = treap.erase r q.queue; entries = clear_at q.entries r }

    w : Without treap (treap.erase r q.queue) q.entries r
    w = erased-Without treap q s r

    others : (j : ℕ) → j ≢ r → clear_at q.entries r j ≡ q.entries j
    others j ne = let test : j == r ≡ false = ground arith in rw test refl

    taken-Sound : Sound treap taken
    taken-Sound = record {
      ordered =
          IsOrdered-elsewhere q.entries (clear_at q.entries r) r others (treap.sequence taken.queue)
            w.gone w.ordered;
      distinct = w.distinct;
      present =
          Present-elsewhere q.entries (clear_at q.entries r) r others (treap.sequence taken.queue)
            w.gone w.present;
      listed = listed;
      random = s.random;
    }
      where
        listed :
            (j : ℕ) (e : Entry V)
            → clear_at q.entries r j ≡ some e
            → contains j (treap.sequence taken.queue) ≡ true
        listed j e h = elim (Bool-cases (j == r)) [
          | inl t ↦ absurd (none≢some refl (rw t at h))
          | inr t ↦ w.listed j e (ground arith) (rw t at h)
        ]

    taken-pending : pending treap taken ≡ events q.entries (remove r (seq treap q s))
    taken-pending =
        events-elsewhere q.entries (clear_at q.entries r) r others (treap.sequence taken.queue)
          w.gone
        ∙ ap (events q.entries) (treap.sequence-erase r q.queue)

  -- In a queue with events that satisfies the invariant, `dequeue` takes the first one and leaves the
  -- others as they were; the invariant holds again.
  pub dequeue-pending :
      (k : ℕ) (v : V) (es : List (ℕ × V))
      → pending treap q ≡ (k, v) ∷ es
      → (q' : Queue Q V) × (dequeue treap q ≡ ok q') × Sound treap q' × (pending treap q' ≡ es)
  unfolding dequeue front
  dequeue-pending k v es e =
      let (r, tail, x, at_front, there, own, _, _, rest) =
        first-Present (treap.sequence q.queue) k v es s.present e in
      (
        taken r,
        rw (at_front, there) (rw own refl),
        taken-Sound r,
        taken-pending r
            ∙ ap (λ rs. events q.entries (remove r rs)) at_front
            ∙ ap (events q.entries) (remove-first r tail)
            ∙ rest,
      )

  -- In a queue that satisfies the invariant, an entry is rescheduled to its own time or a later one:
  -- without it the other events are as they were, and its event is added behind those that are not
  -- later; the invariant holds again.
  pub reschedule-pending :
      (r : ℕ) (x : Entry V) (ts : ℕ)
      → q.entries r ≡ some x
      → x.key ≤ ts
      → (q' : Queue Q V) × (reschedule treap r ts q ≡ ok q')
        × Sound treap q'
        × (pending treap q'
            ≡ insert_event ts x.value (events q.entries (remove r (treap.sequence q.queue))))
  unfolding reschedule requeue
  reschedule-pending r x ts there le =
      let test : leb x.key ts ≡ true = ground arith in
      let e : Entry V = record x { key = ts } in
      let c = s.listed r x there in
      let (y, at_y, own) =
        All-contains (Present q.entries) r (treap.sequence q.queue) s.present c in
      let same : y ≡ x = some-injective (sym at_y ∙ there) in
      let own' : x.instance_ref ≡ r = ap (λ y. y.instance_ref) (sym same) ∙ own in
      (
        inserted treap (treap.erase r q.queue) q.entries r q.priority (w r) e own' s.random,
        rw (there, test) refl,
        inserted-Sound treap (treap.erase r q.queue) q.entries r q.priority (w r) e own' s.random,
        inserted-events treap (treap.erase r q.queue) q.entries r q.priority (w r) e own' s.random
            ∙ ap (λ rs. insert_event ts x.value (events q.entries rs))
                (treap.sequence-erase r q.queue),
      )

  -- In a queue with events that satisfies the invariant, the first event is rescheduled to a later time:
  -- it is added to the others behind those that are not later, and the invariant holds again.
  pub reschedule_front-pending :
      (k : ℕ) (v : V) (es : List (ℕ × V)) (ts : ℕ)
      → pending treap q ≡ (k, v) ∷ es
      → k < ts
      → (r : ℕ) × (q' : Queue Q V) × (reschedule_front treap ts q ≡ ok (r, q'))
        × (front treap q ≡ some r)
        × Sound treap q'
        × (pending treap q' ≡ insert_event ts v es)
  unfolding reschedule_front requeue_front front
  reschedule_front-pending k v es ts e lt =
      let (r, tail, x, at_front, there, own, key, value, rest) =
        first-Present (treap.sequence q.queue) k v es s.present e in
      let test : ltb x.key ts ≡ true = ground (arith, key, lt) in
      let new : Entry V = record x { key = ts } in
      (
        r,
        inserted treap (treap.erase r q.queue) q.entries r q.priority (w r) new own s.random,
        rw (at_front, there, test) refl,
        rw at_front refl,
        inserted-Sound treap (treap.erase r q.queue) q.entries r q.priority (w r) new own s.random,
        inserted-events treap (treap.erase r q.queue) q.entries r q.priority (w r) new own s.random
            ∙ ap (λ rs. insert_event ts x.value (events q.entries rs))
                (treap.sequence-erase r q.queue)
            ∙ ap (λ rs. insert_event ts x.value (events q.entries (remove r rs))) at_front
            ∙ ap (λ rs. insert_event ts x.value (events q.entries rs)) (remove-first r tail)
            ∙ ap (insert_event ts x.value) rest
            ∙ ap (λ v. insert_event ts v es) value,
      )
