-- ===== src/ScatterTable/Layout.antt =====
-- How the slots hold the ring of free slots and the chains of used ones, and what the steps of the
-- operations do to them.
use mathlib.Core.Path.{fun_ext, subst}
use vrt.Base.{ℕ, ◌≤◌, ◌≡◌, Bool, true, false, ◌≢◌, ◌==◌, leb, if◌then◌else◌, arith, sym, ◌∙◌, ap}
use vrt.Base.Run.{Run, ok, ◌>>=◌, bind_assoc}
use vrt.ScatterTable.Defs.{
  update, Key, Slot, free, used, Buckets, load, store, load_free, load_used, set_free_next,
  set_free_prev, set_used_next, acquire_free_slot, home,
}
use vrt.ScatterTable.Ring.{Ring, OnRing, unlink}
use vrt.ScatterTable.Chains.{Chains}

-- What each slot is for: on the free list or in a chain, with the links there.
pub record Plan (K V : Type 0) : Type 0 where
  pub free_on : ℕ → Bool
  pub used_on : ℕ → Bool
  pub nx : ℕ → ℕ
  pub pv : ℕ → ℕ
  pub pos : ℕ → ℕ
  pub key : ℕ → K
  pub value : ℕ → V
  pub cn : ℕ → ℕ
  pub pr : ℕ → ℕ
  pub rank : ℕ → ℕ

module _ {K V : Type 0} where
  abbrev pub FreeCells : (ℕ → Slot K V) → (on : ℕ → Bool) (nx pv : ℕ → ℕ) → Type 0
  FreeCells cell on nx pv = (i : ℕ) → on i ≡ true → cell i ≡ free (pv i) (nx i)

  abbrev pub UsedCells : (ℕ → Slot K V) → (on : ℕ → Bool) (cn : ℕ → ℕ) → (ℕ → K) → (ℕ → V) → Type 0
  UsedCells cell on cn key value = (i : ℕ) → on i ≡ true → cell i ≡ used (cn i) (key i) (value i)

  abbrev pub set_cell : Buckets K V → ℕ → Slot K V → Buckets K V
  set_cell b i s = record b { cell = update b.cell i s }

  pub load-cell : (b : Buckets K V) (i : ℕ) → i ≤ b.capacity → load b i ≡ ok (b.cell i)
  unfolding load
  load-cell b i h = ground arith

  pub store-cell :
      (b : Buckets K V) (i : ℕ) (s : Slot K V) → i ≤ b.capacity → store b i s ≡ ok (set_cell b i s)
  unfolding store
  store-cell b i s h = rw (let e : leb i b.capacity ≡ true = ground arith in e)

  pub load_free-cell :
      (b : Buckets K V) (i p n : ℕ)
      → i ≤ b.capacity
      → b.cell i ≡ free p n
      → load_free b i ≡ ok (p, n)
  unfolding load_free
  load_free-cell b i p n h e = rw (load-cell b i h, e)

  pub load_used-cell :
      (b : Buckets K V) (i n : ℕ) (k : K) (v : V)
      → i ≤ b.capacity
      → b.cell i ≡ used n k v
      → load_used b i ≡ ok (n, k, v)
  unfolding load_used
  load_used-cell b i n k v h e = rw (load-cell b i h, e)

  pub set_free_next-cell :
      (b : Buckets K V) (i p m n : ℕ)
      → i ≤ b.capacity
      → b.cell i ≡ free p m
      → set_free_next b i n ≡ ok (set_cell b i (free p n))
  unfolding set_free_next
  set_free_next-cell b i p m n h e = rw (load_free-cell b i p m h e) (store-cell b i (free p n) h)

  pub set_free_prev-cell :
      (b : Buckets K V) (i m n p : ℕ)
      → i ≤ b.capacity
      → b.cell i ≡ free m n
      → set_free_prev b i p ≡ ok (set_cell b i (free p n))
  unfolding set_free_prev
  set_free_prev-cell b i m n p h e = rw (load_free-cell b i m n h e) (store-cell b i (free p n) h)

  pub set_used_next-cell :
      (b : Buckets K V) (i m n : ℕ) (k : K) (v : V)
      → i ≤ b.capacity
      → b.cell i ≡ used m k v
      → set_used_next b i n ≡ ok (set_cell b i (used n k v))
  unfolding set_used_next
  set_used_next-cell b i m n k v h e =
      rw (load_used-cell b i m k v h e) (store-cell b i (used n k v) h)

module _ {K V : Type 0} ⦃key : Key K⦄ where
  pub record Layout (b : Buckets K V) (g : Plan K V) : Type 0 where
    pub ring : Ring b.capacity g.free_on g.nx g.pv g.pos
    pub chains : Chains b.capacity g.used_on (λ i. home b.capacity (g.key i)) g.cn g.pr g.rank
    pub free_cells : FreeCells b.cell g.free_on g.nx g.pv
    pub used_cells : UsedCells b.cell g.used_on g.cn g.key g.value
    pub unique : (i j : ℕ) → g.used_on i ≡ true → g.used_on j ≡ true → g.key i ≡ g.key j → i ≡ j
    pub apart : (i : ℕ) → g.used_on i ≡ true → g.free_on i ≡ false

  -- The plan without slot `e` on its free list.
  abbrev pub unlinked : Plan K V → ℕ → Plan K V
  unlinked g e = record g {
    free_on = update g.free_on e false;
    nx = update g.nx (g.pv e) (g.nx e);
    pv = update g.pv (g.nx e) (g.pv e);
  }

  -- Both neighbours of slot `e` are made to skip it.
  abbrev pub skipped : Buckets K V → Plan K V → ℕ → ℕ → Slot K V
  skipped b g e i =
      if i == g.nx e
      then free (g.pv e) (if i == g.pv e then g.nx e else g.nx i)
      else (if i == g.pv e then free (g.pv i) (g.nx e) else b.cell i)

  module _ (b : Buckets K V) (g : Plan K V) (l : Layout b g) (e : ℕ) (o : g.free_on e ≡ true)
      (inner : e ≢ 0) where
    pub skipped-Layout : Layout (record b { cell = skipped b g e }) (unlinked g e)
    skipped-Layout = record {
      ring = unlink b.capacity g.free_on g.nx g.pv g.pos l.ring e o inner;
      chains = l.chains;
      free_cells = λ i h. ground (arith, l.free_cells i, l.ring.each e o);
      used_cells = λ i h. ground (arith, l.used_cells i, l.apart i, l.ring.each e o);
      unique = l.unique;
      apart = λ i h. ground (arith, l.apart i);
    }

    pub neighbours :
        (g.pv e ≤ b.capacity)
        × (g.nx e ≤ b.capacity)
        × (g.pv (g.nx e) ≡ e)
        × (g.nx (g.pv e) ≡ e)
        × (e ≤ b.capacity)
    neighbours =
        let a = l.ring.each e o in
        (
          (l.ring.each _ a.on_prev).bound,
          (l.ring.each _ a.on_next).bound,
          a.prev_next,
          a.next_prev,
          a.bound,
        )

    -- The two writes that unlink a slot, the link of the slot before it first.
    pub unlink_next_prev :
        (set_free_next b (g.pv e) (g.nx e) >>= λ b₁. set_free_prev b₁ (g.nx e) (g.pv e))
        ≡ ok (record b { cell = skipped b g e })
    unlink_next_prev =
        rw (set_free_next-cell b (g.pv e) (g.pv (g.pv e)) (g.nx (g.pv e)) (g.nx e) low at_prev) (
          set_free_prev-cell (set_cell b (g.pv e) (free (g.pv (g.pv e)) (g.nx e))) (g.nx e)
            (if g.nx e == g.pv e then g.pv (g.pv e) else g.pv (g.nx e))
            (if g.nx e == g.pv e then g.nx e else g.nx (g.nx e)) (g.pv e) high
            (ground (arith, at_next))
          ∙ ap (λ c. ok (record b { cell = c })) (fun_ext same))
      where
        at_prev : b.cell (g.pv e) ≡ free (g.pv (g.pv e)) (g.nx (g.pv e))
        at_prev = l.free_cells (g.pv e) (l.ring.each e o).on_prev

        at_next : b.cell (g.nx e) ≡ free (g.pv (g.nx e)) (g.nx (g.nx e))
        at_next = l.free_cells (g.nx e) (l.ring.each e o).on_next

        low : g.pv e ≤ b.capacity
        low = neighbours.0

        high : g.nx e ≤ b.capacity
        high = neighbours.1

        same :
            (i : ℕ)
            → update
                (update b.cell (g.pv e) (free (g.pv (g.pv e)) (g.nx e)))
                (g.nx e)
                (free (g.pv e) (if g.nx e == g.pv e then g.nx e else g.nx (g.nx e)))
                i
              ≡ skipped b g e i
        same i = ground arith

    -- The same writes in the other order.
    pub unlink_prev_next :
        (set_free_prev b (g.nx e) (g.pv e) >>= λ b₁. set_free_next b₁ (g.pv e) (g.nx e))
        ≡ ok (record b { cell = skipped b g e })
    unlink_prev_next =
        rw (set_free_prev-cell b (g.nx e) (g.pv (g.nx e)) (g.nx (g.nx e)) (g.pv e) high at_next) (
          set_free_next-cell (set_cell b (g.nx e) (free (g.pv e) (g.nx (g.nx e)))) (g.pv e)
            (if g.pv e == g.nx e then g.pv e else g.pv (g.pv e))
            (if g.pv e == g.nx e then g.nx (g.nx e) else g.nx (g.pv e)) (g.nx e) low
            (ground (arith, at_prev))
          ∙ ap (λ c. ok (record b { cell = c })) (fun_ext same))
      where
        at_prev : b.cell (g.pv e) ≡ free (g.pv (g.pv e)) (g.nx (g.pv e))
        at_prev = l.free_cells (g.pv e) (l.ring.each e o).on_prev

        at_next : b.cell (g.nx e) ≡ free (g.pv (g.nx e)) (g.nx (g.nx e))
        at_next = l.free_cells (g.nx e) (l.ring.each e o).on_next

        low : g.pv e ≤ b.capacity
        low = neighbours.0

        high : g.nx e ≤ b.capacity
        high = neighbours.1

        same :
            (i : ℕ)
            → update
                (update b.cell (g.nx e) (free (g.pv e) (g.nx (g.nx e))))
                (g.pv e)
                (free (if g.pv e == g.nx e then g.pv e else g.pv (g.pv e)) (g.nx e))
                i
              ≡ skipped b g e i
        same i = ground arith

  module _ (b : Buckets K V) (g : Plan K V) (l : Layout b g) where
    -- With a free slot, `acquire_free_slot` unlinks the first of the list.
    pub acquire_free_slot_lem :
        (fixed : Bool)
        → g.nx 0 ≢ 0
        → acquire_free_slot fixed b ≡ ok (g.nx 0, record b { cell = skipped b g (g.nx 0) })
    unfolding acquire_free_slot
    acquire_free_slot_lem fixed h =
        rw (load_free-cell b 0 (g.pv 0) (g.nx 0) (omega arith) (l.free_cells 0 l.ring.sentinel)) (
          rw more (
            rw
              (load_free-cell b (g.nx 0) (g.pv (g.nx 0)) (g.nx (g.nx 0)) first.bound
                (l.free_cells (g.nx 0) zero.on_next))
              (sym (
                  bind_assoc (set_free_prev b (g.nx (g.nx 0)) 0)
                    (λ b₁. set_free_next b₁ 0 (g.nx (g.nx 0))) (λ b₂. ok (g.nx 0, b₂)))
                ∙ ap (λ (r : Run (Buckets K V)). r >>= λ b₂. ok (g.nx 0, b₂)) unlinks)))
      where
        zero : OnRing b.capacity g.free_on g.nx g.pv g.pos 0
        zero = l.ring.each 0 l.ring.sentinel

        first : OnRing b.capacity g.free_on g.nx g.pv g.pos (g.nx 0)
        first = l.ring.each (g.nx 0) zero.on_next

        more : g.nx 0 == 0 ≡ false
        more = ground arith

        unlinks :
            (set_free_prev b (g.nx (g.nx 0)) 0 >>= λ b₁. set_free_next b₁ 0 (g.nx (g.nx 0)))
            ≡ ok (record b { cell = skipped b g (g.nx 0) })
        unlinks =
            subst
              (λ z.
                (set_free_prev b (g.nx (g.nx 0)) z >>= λ b₁. set_free_next b₁ z (g.nx (g.nx 0)))
                ≡ ok (record b { cell = skipped b g (g.nx 0) }))
              zero.prev_next (unlink_prev_next b g l (g.nx 0) zero.on_next h)
