-- ===== src/TimerQueue/Inserted.antt =====
-- A tree with one entry more, and one with one less, in the queue of
-- vr/vr_common/src/vr/containers/util/treap_priority_queue.h.
use native.Mathlib.Decide.{ℕ_discrete}
use mathlib.Core.Path.{subst}
use vrt.Base.{
  ℕ, ◌≡◌, ◌≢◌, ◌||◌, ◌∙◌, refl, sym, ap, true, false, none, some, none≢some, List, ◌==◌, All,
  All-map, Distinct, contains, arith,
}
use vrt.Base.Store.{Store, set_at}
use vrt.TimerQueue.Random.{IsState}
use vrt.TimerQueue.Defs.{Entry, IsOrdered, insert_upper, TreapMultiset, Queue}
use vrt.TimerQueue.Ordered.{
  insert_upper-All, insert_upper-IsOrdered, insert_upper-Distinct, contains-insert_upper,
  remove-All, remove-IsOrdered, remove-Distinct, remove-gone, contains-remove,
}
use vrt.TimerQueue.Sound.{
  events, insert_event, Present, events-elsewhere, Present-elsewhere, IsOrdered-elsewhere,
  events-insert_upper, Sound,
}

module _ {Q V : Type 0} (treap : TreapMultiset Q V) where
  -- the events of a queue, the first one first
  abbrev pub pending : Queue Q V → List (ℕ × V)
  pending q = events q.entries (treap.sequence q.queue)

  -- A tree and a pool that agree but for the reference `r`, which the tree does not have.
  pub record Without (tree : Q) (E : Store (Entry V)) (r : ℕ) : Type 0 where
    pub ordered : IsOrdered E (treap.sequence tree)
    pub distinct : Distinct (treap.sequence tree)
    pub present : All (Present E) (treap.sequence tree)
    pub gone : All (λ y. y ≢ r) (treap.sequence tree)
    pub listed :
        (j : ℕ) (e : Entry V) → j ≢ r → E j ≡ some e → contains j (treap.sequence tree) ≡ true

  module _ (tree : Q) (E : Store (Entry V)) (r p : ℕ) (w : Without tree E r) (e : Entry V)
      (own : e.instance_ref ≡ r) (state : IsState p) where
    abbrev pub inserted : Queue Q V
    inserted = record {
      queue = treap.insert (set_at E r e) r tree;
      entries = set_at E r e;
      priority = p;
    }

    elsewhere : (j : ℕ) → j ≢ r → set_at E r e j ≡ E j
    elsewhere j ne = let test : j == r ≡ false = ground arith in rw test refl

    here : set_at E r e r ≡ some e
    here = let test : r == r ≡ true = ground arith in rw test refl

    now-IsOrdered : IsOrdered (set_at E r e) (treap.sequence tree)
    now-IsOrdered =
        IsOrdered-elsewhere E (set_at E r e) r elsewhere (treap.sequence tree) w.gone w.ordered

    now-Present : All (Present (set_at E r e)) (treap.sequence tree)
    now-Present =
        Present-elsewhere E (set_at E r e) r elsewhere (treap.sequence tree) w.gone w.present

    sequence_now :
        treap.sequence inserted.queue ≡ insert_upper (set_at E r e) r (treap.sequence tree)
    sequence_now = treap.sequence-insert (set_at E r e) r tree now-IsOrdered

    pub inserted-events :
        pending inserted ≡ insert_event e.key e.value (events E (treap.sequence tree))
    inserted-events =
        ap (events (set_at E r e)) sequence_now
        ∙ events-insert_upper (set_at E r e) r e (treap.sequence tree) here now-Present
        ∙ ap (insert_event e.key e.value)
            (events-elsewhere E (set_at E r e) r elsewhere (treap.sequence tree) w.gone)

    pub inserted-Sound : Sound treap inserted
    inserted-Sound = record {
      ordered =
          subst (IsOrdered (set_at E r e)) (sym sequence_now)
            (insert_upper-IsOrdered (set_at E r e) r (treap.sequence tree) now-IsOrdered);
      distinct =
          subst Distinct (sym sequence_now)
            (insert_upper-Distinct (set_at E r e) r (treap.sequence tree) w.gone w.distinct);
      present = subst (All (Present (set_at E r e))) (sym sequence_now) (
          insert_upper-All (set_at E r e) r (Present (set_at E r e)) (treap.sequence tree)
            (e, here, own) now-Present);
      listed = listed;
      random = state;
    }
      where
        in_old :
            (j : ℕ) (x : Entry V)
            → set_at E r e j ≡ some x
            → (j == r || contains j (treap.sequence tree)) ≡ true
        in_old j x h = elim (ℕ_discrete j r) [
          | yes q ↦ let test : j == r ≡ true = ground arith in rw test refl
          | no ne ↦
              let test : j == r ≡ false = ground arith in
              let c = w.listed j x ne (rw test at h) in rw (test, c) refl
        ]

        listed :
            (j : ℕ) (x : Entry V)
            → set_at E r e j ≡ some x
            → contains j (treap.sequence inserted.queue) ≡ true
        listed j x h =
            ap (contains j) sequence_now
            ∙ contains-insert_upper (set_at E r e) r j (treap.sequence tree) (in_old j x h)

  module _ (q : Queue Q V) (s : Sound treap q) where
    abbrev pub seq : List ℕ
    seq = treap.sequence q.queue

    pub fresh-Without : (r : ℕ) → q.entries r ≡ none → Without q.queue q.entries r
    fresh-Without r fresh = record {
      ordered = s.ordered;
      distinct = s.distinct;
      present = s.present;
      gone =
          All-map (λ j (e, at_j, _) same. none≢some (ap q.entries same ∙ fresh) at_j) seq s.present;
      listed = λ j e ne at_j. s.listed j e at_j;
    }

    pub erased-Without : (r : ℕ) → Without (treap.erase r q.queue) q.entries r
    erased-Without r =
        let now = sym (treap.sequence-erase r q.queue) in
        record {
          ordered = subst (IsOrdered q.entries) now (remove-IsOrdered r q.entries seq s.ordered);
          distinct = subst Distinct now (remove-Distinct r seq s.distinct);
          present =
              subst (All (Present q.entries)) now (remove-All r (Present q.entries) seq s.present);
          gone = subst (All (λ y. y ≢ r)) now (remove-gone r seq s.distinct);
          listed = λ j e ne at_j.
              ap (contains j) (sym now) ∙ contains-remove r j seq ne (s.listed j e at_j);
        }
