-- ===== src/TimerQueue/New.antt =====
-- A new queue of vr/vr_common/src/vr/containers/util/treap_priority_queue.h.
use mathlib.Core.Path.{subst}
use vrt.Base.{
  ℕ, ◌≡◌, ◌<◌, ◌⊎◌, ◌^◌, refl, sym, ap, inl, inr, none, none≢some, [], ◌==◌, All, Distinct,
  Bool-cases, arith,
}
use vrt.Base.Store.{Store}
use vrt.Base.Run.{ok, throws, check_failure}
use vrt.TimerQueue.Random.{IsState}
use vrt.TimerQueue.Defs.{Entry, IsOrdered, TreapMultiset, Queue, new}
use vrt.TimerQueue.Sound.{events, Present, Sound}
use vrt.TimerQueue.Inserted.{pending}

-- The constructor stops where its seed and what stands in for it are both 0; else it makes a queue
-- without events that satisfies the invariant.
pub new-Sound :
    {Q V : Type 0} (treap : TreapMultiset Q V) (seed crc : ℕ)
    → seed < 2 ^ 32
    → crc < 2 ^ 32
    → ((seed ≡ 0) × (crc ≡ 0) × (new treap seed crc ≡ throws check_failure))
      ⊎ ((q : Queue Q V) × (new treap seed crc ≡ ok q) × Sound treap q × (pending treap q ≡ []))
unfolding new
new-Sound {V = V} treap seed crc h k =
    let nothing = treap.sequence-nothing in
    let no_entries : Store (Entry V) = λ r. none in
    let made : (p : ℕ)
        → IsState p
        → Sound treap (record { queue = treap.nothing; entries = no_entries; priority = p }) =
      λ p state. record {
        ordered = subst (IsOrdered no_entries) (sym nothing) tt;
        distinct = subst Distinct (sym nothing) tt;
        present = subst (All (Present no_entries)) (sym nothing) tt;
        listed = λ r e at_r. absurd (none≢some refl at_r);
        random = state;
      } in
    elim (Bool-cases (seed == 0)) [
      | inl t ↦ elim (Bool-cases (crc == 0)) [
        | inl t' ↦ inl (ground arith, ground arith, rw (t, t') refl)
        | inr t' ↦
            inr (_, rw (t, t') refl, made crc (ground arith, k), ap (events no_entries) nothing)
      ]
      | inr t ↦
          inr (_, rw t (rw t refl), made seed (ground arith, h), ap (events no_entries) nothing)
    ]
