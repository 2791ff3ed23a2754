-- ===== src/ScatterTable/Displace.antt =====
-- Case 3 of `put`: the slot of another chain's entry is vacated for the key.
use native.Mathlib.Decide.{ℕ_discrete}
use vrt.Base.{ℕ, ◌+◌, ◌≤◌, ◌<◌, ◌≡◌, ◌≢◌, ◌==◌, refl, Bool, true, false, sym, ◌∙◌, ap, arith}
use vrt.Base.Run.{ok, ◌>>=◌}
use vrt.ScatterTable.Defs.{
  update, Key, Slot, used, Buckets, Table, home, load, store, done, fill, acquire_free_slot,
  set_used_next, find_pred,
}
use vrt.ScatterTable.Layout.{
  Plan, Layout, set_cell, load-cell, store-cell, set_used_next-cell, unlinked, skipped,
  skipped-Layout, acquire_free_slot_lem,
}
use vrt.ScatterTable.Steps.{stale-Layout, headed, head-Layout, displaced, displace-Layout}
use vrt.ScatterTable.Walks.{find_pred_lem}
use vrt.ScatterTable.Spec.{Valid, count, count-add, count-drop}
use vrt.ScatterTable.Put.{Stores, Absent, Placed}

module _ {K V : Type 0} ⦃key : Key K⦄ (t : Table K V) (g : Plan K V) (v : Valid t g) (k : K) (w : V)
    (e : ℕ) (at : home t.buckets.capacity k ≡ e) (on : g.used_on e ≡ true)
    (guest : home t.buckets.capacity (g.key e) ≢ e) (some_free : g.nx 0 ≢ 0) where
  -- the free slot, where the content of `e` goes
  abbrev d : ℕ
  d = g.nx 0

  free_d : g.free_on d ≡ true
  free_d = (v.layout.ring.each 0 v.layout.ring.sentinel).on_next

  low : 0 < d
  low = ground (arith, some_free)

  high : d ≤ t.buckets.capacity
  high = (v.layout.ring.each d free_d).bound

  fresh : g.used_on d ≡ false
  fresh = ground (arith, v.layout.apart d, free_d)

  other : e ≢ d
  other = ground (arith, fresh, on)

  absent : Absent g k
  absent i u s = guest (
      ap (home t.buckets.capacity) (ap g.key (sym at ∙ ap (home t.buckets.capacity) (sym s)))
      ∙ (v.layout.chains i u).home_home
      ∙ ap (home t.buckets.capacity) s
      ∙ at)

  abbrev b₁ : Buckets K V
  b₁ = record (t.buckets) { cell = skipped t.buckets g d }

  l₁ : Layout b₁ (unlinked g d)
  l₁ = skipped-Layout t.buckets g v.layout d free_d some_free

  gone : (unlinked g d).free_on d ≡ false
  gone = ground arith

  abbrev content : Slot K V
  content = used (g.cn e) (g.key e) (g.value e)

  abbrev b₂ : Buckets K V
  b₂ = set_cell b₁ d content

  l₂ : Layout b₂ (unlinked g d)
  l₂ = stale-Layout b₁ (unlinked g d) l₁ d content gone fresh

  inner : e ≢ home t.buckets.capacity (g.key e)
  inner q = guest (sym q)

  abbrev b₃ : Buckets K V
  b₃ = set_cell b₂ (g.pr e) (used d (g.key (g.pr e)) (g.value (g.pr e)))

  abbrev g₃ : Plan K V
  g₃ = displaced b₁ (unlinked g d) l₁ d low high gone fresh e on inner

  l₃ : Layout b₃ g₃
  l₃ = displace-Layout b₁ (unlinked g d) l₁ d low high gone fresh e on inner

  bounds : (0 < e) × (e ≤ t.buckets.capacity)
  bounds = let c = v.layout.chains e on in (c.low, c.high)

  g₃_free : g₃.free_on e ≡ false
  g₃_free = ground (arith, v.layout.apart e, on)

  g₃_used : g₃.used_on e ≡ false
  g₃_used = ground arith

  absent₃ : Absent g₃ k
  absent₃ i u s = ground (arith, absent i, absent e on, u, s, other)

  abbrev g₄ : Plan K V
  g₄ = headed b₃ g₃ l₃ e bounds.0 bounds.1 g₃_free g₃_used k w

  abbrev b₄ : Buckets K V
  b₄ = set_cell b₃ e (used 0 k w)

  l₄ : Layout b₄ g₄
  l₄ = head-Layout b₃ g₃ l₃ e bounds.0 bounds.1 g₃_free g₃_used k w at absent₃

  three_updates : t.size + 1 ≡ count g₄.used_on t.buckets.capacity
  three_updates =
      let c1 = count-add g.used_on d t.buckets.capacity fresh low high in
      let c2 =
        count-drop (update g.used_on d true) e t.buckets.capacity (ground arith) bounds.0
          bounds.1 in
      let c3 =
        count-add (update (update g.used_on d true) e false) e t.buckets.capacity (ground arith)
          bounds.0 bounds.1 in
      let c = v.counted in omega arith

  displaced-Valid : Valid (record { size = t.size + 1; buckets = b₄ }) g₄
  displaced-Valid = record {
    layout = l₄;
    complete = λ i h off. ground (arith, v.complete i, off);
    counted = three_updates;
    some_slots = v.some_slots;
    power = v.power;
  }

  d_ne_e : d == e ≡ false
  d_ne_e = ground (arith, other)

  d_is_d : d == d ≡ true
  d_is_d = ground arith

  moved_key : g₄.key d ≡ g.key e
  moved_key = rw (d_ne_e, d_is_d) refl

  moved_value : g₄.value d ≡ g.value e
  moved_value = rw (d_ne_e, d_is_d) refl

  -- The entries are where they were, but that of `e`, which is in slot `d`.
  displaced-Stores : Stores g k w g₄
  displaced-Stores = (
    λ j ne x. (
      λ (i, u, s, q). elim (ℕ_discrete i e) [
        | yes z ↦ (
          d,
          ground arith,
          moved_key ∙ ap g.key (sym z) ∙ s,
          moved_value ∙ ap g.value (sym z) ∙ q,
        )
        | no z ↦ (i, ground (arith, u, fresh), ground (arith, u, fresh), ground (arith, u, fresh))
      ],
      λ (i, u, s, q). elim (ℕ_discrete i d) [
        | yes z ↦ (e, on, ground arith, ground arith)
        | no z ↦ elim (ℕ_discrete i e) [
          | yes z' ↦ absurd (ne (ground arith))
          | no z' ↦ (i, ground arith, ground arith, ground arith)
        ]
      ],
    ),
    (e, ground arith, ground arith, ground arith),
  )

  displace_runs :
      (fixed : Bool)
      → (acquire_free_slot fixed t.buckets >>= λ (d, b₁). load b₁ e >>= λ s. store b₁ d s >>= λ b₂.
          find_pred b₂.capacity b₂ e (home t.buckets.capacity (g.key e)) >>= λ ep.
          set_used_next b₂ ep d >>= λ b₃. fill t b₃ e k w)
        ≡ ok (done e (record { size = t.size + 1; buckets = b₄ }))
  unfolding fill
  displace_runs fixed = rw (acquire_free_slot_lem t.buckets g v.layout fixed some_free) (
      rw (load-cell b₁ e bounds.1, l₁.used_cells e on)
        (rw (store-cell b₁ d content high) (
          rw (find_pred_lem b₂ (unlinked g d) l₂ e on inner) (
            rw
              (set_used_next-cell b₂ (g.pr e) e d (g.key (g.pr e)) (g.value (g.pr e)) prev_bound
                at_prev)
              (rw (store-cell b₃ e (used 0 k w) bounds.1) refl)))))
    where
      prev_bound : g.pr e ≤ t.buckets.capacity
      prev_bound = (v.layout.chains (g.pr e) ((v.layout.chains e on).on_prev inner)).high

      at_prev : b₂.cell (g.pr e) ≡ used e (g.key (g.pr e)) (g.value (g.pr e))
      at_prev =
          l₂.used_cells (g.pr e) ((v.layout.chains e on).on_prev inner)
          ∙ ap (λ n. used n (g.key (g.pr e)) (g.value (g.pr e)))
              ((v.layout.chains e on).next_prev inner)

  pub displace-Placed :
      (fixed : Bool)
      → Placed fixed t g k w (
          acquire_free_slot fixed t.buckets >>= λ (d, b₁). load b₁ e >>= λ s. store b₁ d s >>= λ b₂.
          find_pred b₂.capacity b₂ e (home t.buckets.capacity (g.key e)) >>= λ ep.
          set_used_next b₂ ep d >>= λ b₃. fill t b₃ e k w)
  displace-Placed fixed = (
    e,
    record { size = t.size + 1; buckets = b₄ },
    g₄,
    displace_runs fixed,
    displaced-Valid,
    displaced-Stores,
    omega arith,
    λ a. refl,
    refl,
  )
