-- ===== src/TimerQueue/Sound.antt =====
-- The invariant of the queue of vr/vr_common/src/vr/containers/util/treap_priority_queue.h, and the events
-- that it stands for.
use vrt.Base.{
  ℕ, ◌≡◌, ◌≢◌, ◌≤◌, ◌∙◌, refl, sym, ap, inl, inr, true, false, none, some, List, [], ◌∷◌, ltb,
  if◌then◌else◌, All, Distinct, contains, Bool-cases, Option-cases, arith,
}
use vrt.Base.Store.{Store}
use vrt.TimerQueue.Random.{IsState}
use vrt.TimerQueue.Defs.{Entry, key_at, comparator, IsOrdered, insert_upper, TreapMultiset, Queue}

module _ {V : Type 0} where
  -- The events of a sequence of entries: their timestamps and values.
  abbrev pub events : Store (Entry V) → List ℕ → List (ℕ × V)
  events E [] = []
  events E (r ∷ rs) = elim (E r) [ none ↦ events E rs | some e ↦ (e.key, e.value) ∷ events E rs ]

  -- An event goes after those that are not later.
  abbrev pub insert_event : ℕ → V → List (ℕ × V) → List (ℕ × V)
  insert_event k v [] = (k, v) ∷ []
  insert_event k v ((k', v') ∷ es) =
      let rest = insert_event k v es in if ltb k k' then (k, v) ∷ (k', v') ∷ es else (k', v') ∷ rest

  -- An entry that is there, and knows its reference.
  abbrev pub Present : Store (Entry V) → ℕ → Type 0
  Present E r = (e : Entry V) × (E r ≡ some e) × (e.instance_ref ≡ r)

  pub events-there :
      (E : Store (Entry V)) (r : ℕ) (e : Entry V) (rs : List ℕ)
      → E r ≡ some e
      → events E (r ∷ rs) ≡ (e.key, e.value) ∷ events E rs
  events-there E r e rs h = rw (events, h) refl

  events-absent :
      (E : Store (Entry V)) (r : ℕ) (rs : List ℕ) → E r ≡ none → events E (r ∷ rs) ≡ events E rs
  events-absent E r rs h = rw (events, h) refl

  key_at-there : (E : Store (Entry V)) (r : ℕ) (e : Entry V) → E r ≡ some e → key_at E r ≡ e.key
  key_at-there E r e h = rw (key_at, h) refl

  module _ (E F : Store (Entry V)) (r : ℕ) (same : (j : ℕ) → j ≢ r → F j ≡ E j) where
    pub events-elsewhere : (rs : List ℕ) → All (λ y. y ≢ r) rs → events F rs ≡ events E rs
    events-elsewhere [] h = refl
    events-elsewhere (y ∷ ys) h =
        let rest = events-elsewhere ys h.1 in
        elim (Option-cases (E y)) [
          | inl e ↦ events-absent F y ys (same y h.0 ∙ e) ∙ rest ∙ sym (events-absent E y ys e)
          | inr (x, e) ↦
              events-there F y x ys (same y h.0 ∙ e)
              ∙ ap (λ es. (x.key, x.value) ∷ es) rest
              ∙ sym (events-there E y x ys e)
        ]

    pub Present-elsewhere :
        (rs : List ℕ) → All (λ y. y ≢ r) rs → All (Present E) rs → All (Present F) rs
    Present-elsewhere [] n h = tt
    Present-elsewhere (y ∷ ys) n ((e, at_y, own), h) =
        ((e, same y n.0 ∙ at_y, own), Present-elsewhere ys n.1 h)

    later-elsewhere :
        (x : ℕ) (rs : List ℕ)
        → x ≢ r
        → All (λ y. y ≢ r) rs
        → All (λ y. key_at E x ≤ key_at E y) rs
        → All (λ y. key_at F x ≤ key_at F y) rs
    later-elsewhere x [] ne n h = tt
    later-elsewhere x (y ∷ ys) ne n h =
        let kx : key_at F x ≡ key_at E x = rw (key_at, same x ne) refl in
        let ky : key_at F y ≡ key_at E y = rw (key_at, same y n.0) refl in
        (omega (arith, kx, ky, h.0), later-elsewhere x ys ne n.1 h.1)

    pub IsOrdered-elsewhere : (rs : List ℕ) → All (λ y. y ≢ r) rs → IsOrdered E rs → IsOrdered F rs
    IsOrdered-elsewhere [] n h = tt
    IsOrdered-elsewhere (y ∷ ys) n h =
        (later-elsewhere y ys n.0 n.1 h.0, IsOrdered-elsewhere ys n.1 h.1)

  -- An entry at the upper bound of a sequence is an event after those that are not later.
  pub events-insert_upper :
      (E : Store (Entry V)) (r : ℕ) (e : Entry V) (rs : List ℕ)
      → E r ≡ some e
      → All (Present E) rs
      → events E (insert_upper E r rs) ≡ insert_event e.key e.value (events E rs)
  events-insert_upper E r e [] h p = events-there E r e [] h
  events-insert_upper E r e (y ∷ ys) h ((x, at_y, own), p) =
      let kr = key_at-there E r e h in
      let ky = key_at-there E y x at_y in
      let tail = events-there E y x ys at_y in
      elim (Bool-cases (comparator E r y)) [
        | inl t ↦
            let t' : ltb e.key x.key ≡ true = ground (arith, kr, ky, t) in
            rw t (events-there E r e (y ∷ ys) h ∙ rw tail (rw t' refl))
        | inr t ↦
            let t' : ltb e.key x.key ≡ false = ground (arith, kr, ky, t) in
            let ih = events-insert_upper E r e ys h p in
            rw t (
              events-there E y x (insert_upper E r ys) at_y
              ∙ rw (tail, t') (ap (λ es. (x.key, x.value) ∷ es) ih))
      ]

module _ {Q V : Type 0} (treap : TreapMultiset Q V) where
  -- The sequence is ordered and distinct, and its references are those of the entries; the priorities
  -- go on.
  pub record Sound (q : Queue Q V) : Type 0 where
    pub ordered : IsOrdered q.entries (treap.sequence q.queue)
    pub distinct : Distinct (treap.sequence q.queue)
    pub present : All (Present q.entries) (treap.sequence q.queue)
    pub listed :
        (r : ℕ) (e : Entry V) → q.entries r ≡ some e → contains r (treap.sequence q.queue) ≡ true
    pub random : IsState q.priority
