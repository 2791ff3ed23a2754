-- ===== src/ScatterTable/Ring.antt =====
-- The circular free list as a ring of links: `nx` and `pv` are the links of the slots on it, 0 is the
-- sentinel, and `pos` grows along the links up to the sentinel, so that there is one circle only.
use vrt.Base.{
  ℕ, zero, suc, ◌+◌, ◌≤◌, ◌<◌, ◌≡◌, Bool, true, false, ◌≢◌, ◌==◌, if◌then◌else◌, arith, sym, ◌∙◌,
  ap,
}
use native.Mathlib.Decide.{ℕ_discrete}
use vrt.ScatterTable.Defs.{update}

-- Slot `i` is on the ring of the slots that `on` tells.
pub record OnRing (limit : ℕ) (on : ℕ → Bool) (nx pv pos : ℕ → ℕ) (i : ℕ) : Type 0 where
  pub bound : i ≤ limit
  pub on_next : on (nx i) ≡ true
  pub on_prev : on (pv i) ≡ true
  pub prev_next : pv (nx i) ≡ i
  pub next_prev : nx (pv i) ≡ i
  pub up : nx i ≢ 0 → pos i < pos (nx i)

pub record Ring (limit : ℕ) (on : ℕ → Bool) (nx pv pos : ℕ → ℕ) : Type 0 where
  pub sentinel : on 0 ≡ true
  pub each : (i : ℕ) → on i ≡ true → OnRing limit on nx pv pos i

module _ (limit : ℕ) (on : ℕ → Bool) (nx pv pos : ℕ → ℕ) (r : Ring limit on nx pv pos) where
  -- A sentinel that points to itself is alone.
  pub alone : nx 0 ≡ 0 → (fuel i : ℕ) → pos i < fuel → on i ≡ true → i ≡ 0
  alone e zero i h o = absurd (omega arith)
  alone e (suc fuel) i h o = elim (ℕ_discrete i 0) [
    | yes z ↦ z
    | no n ↦
        let a = r.each i o in
        let b = r.each (pv i) a.on_prev in
        let ne : nx (pv i) ≢ 0 = λ z. n (sym a.next_prev ∙ z) in
        let lt : pos (pv i) < pos i = omega (arith, b.up ne, ap pos a.next_prev) in
        let p : pv i ≡ 0 = alone e fuel (pv i) (omega arith) a.on_prev in
        sym a.next_prev ∙ ap nx p ∙ e
  ]

  module _ (e : ℕ) (o : on e ≡ true) (inner : e ≢ 0) where
    unlink_at :
        (i : ℕ)
        → i ≢ e
        → on i ≡ true
        → OnRing limit (update on e false) (update nx (pv e) (nx e)) (update pv (nx e) (pv e)) pos i
    unlink_at i ne oi = record {
      bound = a.bound;
      on_next = ground (arith, a, b);
      on_prev = ground (arith, a, b);
      prev_next = ground (arith, a, b);
      next_prev = ground (arith, a, b);
      up = ground (arith, a, b, p);
    }
      where
        a : OnRing limit on nx pv pos i
        a = r.each i oi

        b : OnRing limit on nx pv pos e
        b = r.each e o

        p : OnRing limit on nx pv pos (pv e)
        p = r.each (pv e) b.on_prev

    -- Slot `e` is unlinked.
    pub unlink :
        Ring limit (update on e false) (update nx (pv e) (nx e)) (update pv (nx e) (pv e)) pos
    unlink = record {
      sentinel = ground (arith, r.sentinel);
      each = λ i h. unlink_at i (ground arith) (ground arith);
    }

  module _ (e : ℕ) (fresh : on e ≡ false) (inner : e ≤ limit) where
    abbrev pub front_pos : ℕ → ℕ
    front_pos i = if i == 0 then 0 else (if i == e then 1 else pos i + 2)

    link_front_self :
        OnRing limit
          (update on e true)
          (update (update nx e (nx 0)) 0 e)
          (update (update pv (nx 0) e) e 0)
          front_pos
          e
    link_front_self = record {
      bound = inner;
      on_next = ground (arith, z, r.sentinel);
      on_prev = ground (arith, z, r.sentinel);
      prev_next = ground (arith, z, r.sentinel);
      next_prev = ground (arith, z, r.sentinel);
      up = ground (arith, z, r.sentinel);
    }
      where
        z : OnRing limit on nx pv pos 0
        z = r.each 0 r.sentinel

    link_front_at :
        (i : ℕ)
        → i ≢ e
        → on i ≡ true
        → OnRing limit
            (update on e true)
            (update (update nx e (nx 0)) 0 e)
            (update (update pv (nx 0) e) e 0)
            front_pos
            i
    link_front_at i ne oi = record {
      bound = a.bound;
      on_next = ground (arith, a, z, r.sentinel);
      on_prev = ground (arith, a, z, r.sentinel);
      prev_next = ground (arith, a, z, r.sentinel);
      next_prev = ground (arith, a, z, r.sentinel);
      up = ground (arith, a, z, r.sentinel);
    }
      where
        a : OnRing limit on nx pv pos i
        a = r.each i oi

        z : OnRing limit on nx pv pos 0
        z = r.each 0 r.sentinel

    -- Slot `e` is linked behind the sentinel.
    pub link_front :
        Ring limit
          (update on e true)
          (update (update nx e (nx 0)) 0 e)
          (update (update pv (nx 0) e) e 0)
          front_pos
    link_front = record {
      sentinel = ground (arith, r.sentinel);
      each = λ i h. elim (ℕ_discrete i e) [
        | yes same ↦ rw same link_front_self
        | no ne ↦ link_front_at i ne (ground arith)
      ];
    }
