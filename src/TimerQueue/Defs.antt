-- ===== src/TimerQueue/Defs.antt =====
-- The operations of vr/vr_common/src/vr/containers/util/treap_priority_queue.h and of
-- vr/vr_common/src/vr/util/timer_event_queue.h. The pool of entries stands by its abstract view; boost's
-- treap_multiset is the parameter `TreapMultiset`. Timestamps are not negative.
use vrt.Base.{
  ℕ, ◌≡◌, ◌≤◌, Bool, true, false, Option, none, some, List, [], ◌∷◌, leb, ltb, ◌==◌, not,
  if◌then◌else◌, All,
}
use vrt.Base.Store.{Store, set_at, clear_at, Allocator}
use vrt.Base.Run.{Run, ok, ◌>>=◌, ◌>>◌, assert, valid, check, check_failure}
use vrt.TimerQueue.Random.{evaluate}

-- `timer_event`, with the fields of its schema
pub record Entry (V : Type 0) : Type 0 where
  pub key : ℕ
  pub value : V
  pub instance_ref : ℕ
  pub priority : ℕ

-- the timestamp of an entry
abbrev pub key_at : {V : Type 0} → Store (Entry V) → ℕ → ℕ
key_at entries r = elim (entries r) [ none ↦ 0 | some e ↦ e.key ]

-- `timer_event::comparator`
abbrev pub comparator : {V : Type 0} → Store (Entry V) → ℕ → ℕ → Bool
comparator entries lhs rhs = ltb (key_at entries lhs) (key_at entries rhs)

-- No entry is before one that it follows.
abbrev pub IsOrdered : {V : Type 0} → Store (Entry V) → List ℕ → Type 0
IsOrdered entries [] = Unit
IsOrdered entries (r ∷ rs) =
    All (λ y. key_at entries r ≤ key_at entries y) rs × IsOrdered entries rs

-- at the upper bound: after all that are not later
abbrev pub insert_upper : {V : Type 0} → Store (Entry V) → ℕ → List ℕ → List ℕ
insert_upper entries r [] = r ∷ []
insert_upper entries r (y ∷ ys) =
    let rest = insert_upper entries r ys in if comparator entries r y then r ∷ y ∷ ys else y ∷ rest

abbrev pub remove : ℕ → List ℕ → List ℕ
remove r [] = []
remove r (y ∷ ys) = let rest = remove r ys in if y == r then ys else y ∷ rest

-- boost::intrusive::treap_multiset, by the sequence of its references from `begin ()` on: `insert` puts
-- an entry at the upper bound, by the comparator, of an ordered sequence, and `erase` takes one out.
pub record TreapMultiset (Q V : Type 0) : Type 0 where
  pub nothing : Q
  pub sequence : Q → List ℕ
  pub insert : Store (Entry V) → ℕ → Q → Q
  pub erase : ℕ → Q → Q
  pub sequence-nothing : sequence nothing ≡ []
  pub sequence-insert :
      (entries : Store (Entry V)) (r : ℕ) (q : Q)
      → IsOrdered entries (sequence q)
      → sequence (insert entries r q) ≡ insert_upper entries r (sequence q)
  pub sequence-erase : (r : ℕ) (q : Q) → sequence (erase r q) ≡ remove r (sequence q)

-- `treap_priority_queue`
pub record Queue (Q V : Type 0) : Type 0 where
  pub queue : Q
  pub entries : Store (Entry V)
  pub priority : ℕ

module _ {Q V : Type 0} (treap : TreapMultiset Q V) where
  -- The constructor; `crc` is what stands in for a seed of 0.
  unfoldable pub new : (priority_seed crc : ℕ) → Run (Queue Q V)
  new priority_seed crc = do
    let priority = if priority_seed == 0 then crc else priority_seed
    check (not (priority == 0)) check_failure
    ok (record { queue = treap.nothing; entries = λ r. none; priority = priority })

  abbrev pub first : List ℕ → Option ℕ
  first [] = none
  first (r ∷ rs) = some r

  unfoldable pub front : Queue Q V → Option ℕ
  front q = first (treap.sequence q.queue)

  unfoldable pub empty : Queue Q V → Bool
  empty q = elim (treap.sequence q.queue) [ [] ↦ true | _ ∷ _ ↦ false ]

  unfoldable pub enqueue : Allocator (Entry V) → (key : ℕ) → V → Queue Q V → Run (Queue Q V)
  enqueue pool key value q = do
    r ← pool.pick (q.entries)
    assert (not (q.priority == 0))
    let priority = evaluate (q.priority)
    let e : Entry V = record { key = key; value = value; instance_ref = r; priority = priority }
    let entries = set_at q.entries r e
    ok (record { queue = treap.insert entries r q.queue; entries = entries; priority = priority })

  unfoldable pub dequeue : Queue Q V → Run (Queue Q V)
  unfolding front
  dequeue q = do
    r ← valid (front q)
    e ← valid (q.entries r)
    ok (record q { queue = treap.erase r q.queue; entries = clear_at q.entries (e.instance_ref) })

  unfoldable pub requeue : (e : ℕ) → (key : ℕ) → Queue Q V → Run (Queue Q V)
  requeue r key q = do
    e ← valid (q.entries r)
    let entries = set_at q.entries r (record e { key = key })
    ok (record q { queue = treap.insert entries r (treap.erase r q.queue); entries = entries })

  unfoldable pub requeue_front : (key : ℕ) → Queue Q V → Run (ℕ × Queue Q V)
  unfolding front
  requeue_front key q = do
    r ← valid (front q)
    e ← valid (q.entries r)
    let entries = set_at q.entries r (record e { key = key })
    ok (r, record q { queue = treap.insert entries r (treap.erase r q.queue); entries = entries })

  unfoldable pub reschedule : (e : ℕ) → (ts : ℕ) → Queue Q V → Run (Queue Q V)
  reschedule r ts q = do e ← valid (q.entries r); assert (leb (e.key) ts); requeue r ts q

  unfoldable pub reschedule_front : (ts : ℕ) → Queue Q V → Run (ℕ × Queue Q V)
  unfolding front
  reschedule_front ts q = do
    r ← valid (front q)
    e ← valid (q.entries r)
    assert (ltb (e.key) ts)
    requeue_front ts q
