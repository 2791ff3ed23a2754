-- ===== src/ScatterTable/Freed.antt =====
-- `free_slot`: an unused slot becomes the first of the free list.
use mathlib.Core.Path.{fun_ext}
use vrt.Base.{ℕ, ◌≤◌, ◌<◌, ◌≡◌, true, false, ◌==◌, ltb, if◌then◌else◌, arith, ◌∙◌, ap}
use vrt.Base.Run.{ok}
use vrt.ScatterTable.Defs.{update, Key, Slot, free, Buckets, free_slot}
use vrt.ScatterTable.Ring.{OnRing, link_front, front_pos}
use vrt.ScatterTable.Layout.{
  Plan, Layout, set_cell, load_free-cell, store-cell, set_free_prev-cell, set_free_next-cell,
}

module _ {K V : Type 0} ⦃key : Key K⦄ (b : Buckets K V) (g : Plan K V) (l : Layout b g) (e : ℕ)
    (low : 0 < e) (high : e ≤ b.capacity) (no_free : g.free_on e ≡ false)
    (no_used : g.used_on e ≡ false) where
  abbrev pub freed : Plan K V
  freed = record g {
    free_on = update g.free_on e true;
    nx = update (update g.nx e (g.nx 0)) 0 e;
    pv = update (update g.pv (g.nx 0) e) e 0;
    pos = front_pos b.capacity g.free_on g.nx g.pv g.pos l.ring e no_free high;
  }

  abbrev pub freed_cell : ℕ → Slot K V
  freed_cell i =
      if i == 0
      then free (if g.nx 0 == 0 then e else g.pv 0) e
      else (if i == e
          then free 0 (g.nx 0)
          else (if i == g.nx 0 then free e (g.nx (g.nx 0)) else b.cell i))

  zero_on : OnRing b.capacity g.free_on g.nx g.pv g.pos 0
  zero_on = l.ring.each 0 l.ring.sentinel

  pub freed-Layout : Layout (record b { cell = freed_cell }) freed
  freed-Layout = record {
    ring = link_front b.capacity g.free_on g.nx g.pv g.pos l.ring e no_free high;
    chains = l.chains;
    free_cells = λ i h. ground (arith, l.free_cells i, zero_on);
    used_cells = λ i h. ground (arith, l.used_cells i, l.apart i, zero_on, l.ring.sentinel);
    unique = l.unique;
    apart = λ i h. ground (arith, l.apart i);
  }

  pub free_slot_lem : free_slot e b ≡ ok (record b { cell = freed_cell })
  unfolding free_slot
  free_slot_lem = rw positive (
      rw (load_free-cell b 0 (g.pv 0) (g.nx 0) (omega arith) at_zero) (
        rw (set_free_prev-cell b (g.nx 0) (g.pv (g.nx 0)) (g.nx (g.nx 0)) e first.bound at_first) (
          rw (store-cell (set_cell b (g.nx 0) (free e (g.nx (g.nx 0)))) e (free 0 (g.nx 0)) high) (
            set_free_next-cell
              (set_cell (set_cell b (g.nx 0) (free e (g.nx (g.nx 0)))) e (free 0 (g.nx 0))) 0
              (if g.nx 0 == 0 then e else g.pv 0) (if g.nx 0 == 0 then g.nx (g.nx 0) else g.nx 0) e
              (omega arith) (ground (arith, at_zero))
            ∙ ap (λ c. ok (record b { cell = c })) (fun_ext (λ i. ground arith))))))
    where
      positive : ltb 0 e ≡ true
      positive = ground arith

      at_zero : b.cell 0 ≡ free (g.pv 0) (g.nx 0)
      at_zero = l.free_cells 0 l.ring.sentinel

      first : OnRing b.capacity g.free_on g.nx g.pv g.pos (g.nx 0)
      first = l.ring.each (g.nx 0) zero_on.on_next

      at_first : b.cell (g.nx 0) ≡ free (g.pv (g.nx 0)) (g.nx (g.nx 0))
      at_first = l.free_cells (g.nx 0) zero_on.on_next
