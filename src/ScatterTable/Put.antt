-- ===== src/ScatterTable/Put.antt =====
-- `put` up to a rehash: its three cases, and a table that is full.
use native.Mathlib.Decide.{ℕ_discrete}
use vrt.Base.{ℕ, ◌+◌, ◌≤◌, ◌<◌, ◌≡◌, ◌≢◌, ◌↔◌, refl, Bool, true, false, sym, ◌∙◌, ap, arith}
use vrt.Base.Run.{Run, ok, ◌>>=◌, bind_assoc}
use vrt.ScatterTable.Defs.{
  update, Key, used, Buckets, Table, home, Put, done, fill, put_empty, acquire_free_slot,
  set_free_next, set_free_prev, set_used_next,
}
use vrt.ScatterTable.Layout.{
  Plan, Layout, set_cell, store-cell, set_used_next-cell, unlinked, skipped, skipped-Layout,
  unlink_next_prev, acquire_free_slot_lem,
}
use vrt.ScatterTable.Steps.{revalued, headed, head-Layout, tailed, tail-Layout}
use vrt.ScatterTable.Spec.{Valid, count-add, Has}
use vrt.ScatterTable.Get.{home-bound, no_home-absent}

module _ {K V : Type 0} ⦃key : Key K⦄ where
  -- The entries after a store: the key's is the value, and the others stay.
  abbrev pub Stores : Plan K V → K → V → Plan K V → Type 0
  Stores g k v g' = ((j : K) → j ≢ k → (w : V) → Has g j w ↔ Has g' j w) × Has g' k v

  abbrev pub Absent : Plan K V → K → Type 0
  Absent g k = (i : ℕ) → g.used_on i ≡ true → g.key i ≢ k

  module _ (g g' : Plan K V) (e : ℕ) (k : K) (v : V) (used' : g'.used_on ≡ update g.used_on e true)
      (key' : g'.key ≡ update g.key e k) (value' : g'.value ≡ update g.value e v) where
    -- An entry in a slot that was not used.
    pub added-Stores : g.used_on e ≡ false → Stores g k v g'
    added-Stores fresh = (
      λ j ne w. (
        λ h.
            let (i, u, s, q) = h in
            (i, rw used' (ground arith), rw key' (ground arith), rw value' (ground arith)),
        λ h. let (i, u, s, q) = h in back j ne w i (rw used' at u) (rw key' at s) (rw value' at q),
      ),
      (e, rw used' (ground arith), rw key' (ground arith), rw value' (ground arith)),
    )
      where
        back :
            (j : K)
            → j ≢ k
            → (w : V) (i : ℕ) → update g.used_on e true i ≡ true
            → update g.key e k i ≡ j
            → update g.value e v i ≡ w
            → Has g j w
        back j ne w i u s q = elim (ℕ_discrete i e) [
          | yes same ↦ absurd (ne (ground arith))
          | no other ↦ (i, ground arith, ground arith, ground arith)
        ]

  -- One more slot is used.
  pub added-Valid :
      (t : Table K V) (g g' : Plan K V) (b : Buckets K V) (e : ℕ)
      → Valid t g
      → b.capacity ≡ t.buckets.capacity
      → Layout b g'
      → g'.used_on ≡ update g.used_on e true
      → g'.free_on ≡ update g.free_on e false
      → g.used_on e ≡ false
      → 0 < e
      → e ≤ t.buckets.capacity
      → Valid (record { size = t.size + 1; buckets = b }) g'
  added-Valid t g g' b e v same l used' free' fresh low high = record {
    layout = l;
    complete = λ i h off. rw free' (ground (arith, rw used' at off, v.complete i, same));
    counted =
        rw (used', same)
          (ground (arith, count-add g.used_on e t.buckets.capacity fresh low high, v.counted));
    some_slots = rw same (v.some_slots);
    power = rw same (v.power);
  }

  -- `put_once` stores the entry.
  abbrev pub Placed : (fixed : Bool) → Table K V → Plan K V → K → V → Run (Put K V) → Type 0
  Placed fixed t g k v r =
      (e : ℕ) × (t' : Table K V) × (g' : Plan K V) × (r ≡ ok (done e t'))
      × Valid t' g'
      × Stores g k v g'
      × (t'.size ≤ t.size + 1)
      × (Absent g k → t'.size ≡ t.size + 1)
      × (t'.buckets.capacity ≡ t.buckets.capacity)

  module _ (t : Table K V) (g : Plan K V) (v : Valid t g) (k : K) (w : V) where
    at_home : ℕ
    at_home = home t.buckets.capacity k

    pub put_empty-Placed :
        (fixed : Bool) (e : ℕ)
        → home t.buckets.capacity k ≡ e
        → g.used_on e ≡ false
        → Placed fixed t g k w (put_empty t e (g.pv e) (g.nx e) k w)
    unfolding put_empty fill
    put_empty-Placed fixed e at off = (
      e,
      record { size = t.size + 1; buckets = set_cell b e (used 0 k w) },
      headed b (unlinked g e) l e low high gone off k w,
      runs,
      added-Valid t g (headed b (unlinked g e) l e low high gone off k w)
          (set_cell b e (used 0 k w)) e v refl
          (head-Layout b (unlinked g e) l e low high gone off k w at absent) refl refl off low high,
      added-Stores g (headed b (unlinked g e) l e low high gone off k w) e k w refl refl refl off,
      omega arith,
      λ a. refl,
      refl,
    )
      where
        bounds : (0 < e) × (e ≤ t.buckets.capacity)
        bounds = rw (sym at) (home-bound t.buckets.capacity k v.some_slots)

        low : 0 < e
        low = bounds.0

        high : e ≤ t.buckets.capacity
        high = bounds.1

        inner : e ≢ 0
        inner = ground (arith, low)

        on : g.free_on e ≡ true
        on = v.complete e high off

        b : Buckets K V
        b = record (t.buckets) { cell = skipped t.buckets g e }

        l : Layout b (unlinked g e)
        l = skipped-Layout t.buckets g v.layout e on inner

        gone : (unlinked g e).free_on e ≡ false
        gone = ground arith

        absent : Absent g k
        absent = no_home-absent t g v k (rw at off)

        runs :
            put_empty t e (g.pv e) (g.nx e) k w
            ≡ ok (done e (record { size = t.size + 1; buckets = set_cell b e (used 0 k w) }))
        runs =
            sym (
              bind_assoc (set_free_next t.buckets (g.pv e) (g.nx e))
                (λ b₁. set_free_prev b₁ (g.nx e) (g.pv e)) (λ b₂. fill t b₂ e k w))
            ∙ rw (unlink_next_prev t.buckets g v.layout e on inner)
                (rw (store-cell b e (used 0 k w) high) refl)

    -- A new key behind slot `ep`, the last of its chain.
    pub put_tail-Placed :
        (ep : ℕ)
        → g.used_on ep ≡ true
        → g.cn ep ≡ 0
        → home t.buckets.capacity k ≡ home t.buckets.capacity (g.key ep)
        → Absent g k
        → g.nx 0 ≢ 0
        → (fixed : Bool)
        → Placed fixed t g k w (
            acquire_free_slot fixed t.buckets >>= λ (e, b₁).
            set_used_next b₁ ep e >>= λ b₂. fill t b₂ e k w)
    unfolding fill
    put_tail-Placed ep on end at absent some_free fixed = (
      e,
      record { size = t.size + 1; buckets = b₂ },
      g₂,
      rw (acquire_free_slot_lem t.buckets g v.layout fixed some_free) (
          rw
            (set_used_next-cell b ep 0 e (g.key ep) (g.value ep) (v.layout.chains ep on).high at_ep)
            (rw (store-cell (set_cell b ep (used e (g.key ep) (g.value ep))) e (used 0 k w) high)
              refl)),
      added-Valid t g g₂ b₂ e v refl
          (tail-Layout b (unlinked g e) l e low high gone fresh ep k w on end at absent) refl refl
          fresh low high,
      added-Stores g g₂ e k w refl refl refl fresh,
      omega arith,
      λ a. refl,
      refl,
    )
      where
        e : ℕ
        e = g.nx 0

        free_e : g.free_on e ≡ true
        free_e = (v.layout.ring.each 0 v.layout.ring.sentinel).on_next

        low : 0 < e
        low = ground (arith, some_free)

        high : e ≤ t.buckets.capacity
        high = (v.layout.ring.each e free_e).bound

        fresh : g.used_on e ≡ false
        fresh = ground (arith, v.layout.apart e, free_e)

        b : Buckets K V
        b = record (t.buckets) { cell = skipped t.buckets g e }

        l : Layout b (unlinked g e)
        l = skipped-Layout t.buckets g v.layout e free_e some_free

        gone : (unlinked g e).free_on e ≡ false
        gone = ground arith

        at_ep : b.cell ep ≡ used 0 (g.key ep) (g.value ep)
        at_ep = l.used_cells ep on ∙ ap (λ n. used n (g.key ep) (g.value ep)) end

        b₂ : Buckets K V
        b₂ = set_cell (set_cell b ep (used e (g.key ep) (g.value ep))) e (used 0 k w)

        g₂ : Plan K V
        g₂ = tailed b (unlinked g e) l e low high gone fresh ep k w

    -- A new value for a key.
    pub revalued-Stores :
        (e : ℕ)
        → g.used_on e ≡ true
        → g.key e ≡ k
        → Stores g k w (revalued t.buckets g v.layout e w)
    revalued-Stores e on same = (
      λ j ne x. (
        λ (i, u, s, q). (i, u, s, ground (arith, ap g.key)),
        λ (i, u, s, q). (i, u, s, ground (arith, ap g.key)),
      ),
      (e, on, same, ground arith),
    )
