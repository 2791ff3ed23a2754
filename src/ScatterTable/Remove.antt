-- ===== src/ScatterTable/Remove.antt =====
-- `remove_and_get`: the slot that is emptied, and what is left in the table.
use mathlib.Core.Path.{subst}
use native.Mathlib.Decide.{ℕ_discrete}
use vrt.Base.{
  ℕ, ◌-◌, ltb, ◌≤◌, ◌<◌, ◌≡◌, ◌≢◌, ◌↔◌, ◌==◌, if◌then◌else◌, refl, true, false, inl, inr, sym, ◌∙◌,
  ap, Bool-cases, Option-cases, Option, none, some, arith,
}
use vrt.Base.Run.{Run, ok, ◌>>=◌, ◌>>◌, assert}
use vrt.ScatterTable.Defs.{
  update, Key, used, Buckets, Table, home, Walk, found, last, walk, unchain, remove_and_get,
  free_slot,
}
use vrt.ScatterTable.Layout.{Plan, Layout, set_cell, load-cell, store-cell, set_used_next-cell}
use vrt.ScatterTable.Steps.{cut, cut_alone-Layout, cut_last-Layout, pulled, pull-Layout}
use vrt.ScatterTable.Walks.{walk_lem, walk-last_absent, Outcome, remove_loop-walk}
use vrt.ScatterTable.Spec.{
  Valid, count-drop, contents, contents_iff, contents_congr, contents_congr, Has,
}
use vrt.ScatterTable.Freed.{freed, freed_cell, freed-Layout, free_slot_lem}
use vrt.ScatterTable.Put.{Absent}
use vrt.ScatterTable.Get.{home-bound, no_home-absent}

module _ {K V : Type 0} ⦃key : Key K⦄ where
  -- The entries without a key's.
  abbrev pub without : (K → Option V) → K → K → Option V
  without f k j = if key.equal j k then none else f j

  -- The entries after a removal: the key's is gone, and the others stay.
  abbrev pub Removes : Plan K V → K → Plan K V → Type 0
  Removes g k g' = ((j : K) → j ≢ k → (w : V) → Has g j w ↔ Has g' j w) × Absent g' k

  -- One slot less is used.
  dropped-Valid :
      (t : Table K V) (g g' : Plan K V) (b : Buckets K V) (e : ℕ)
      → Valid t g
      → b.capacity ≡ t.buckets.capacity
      → Layout b g'
      → g'.used_on ≡ update g.used_on e false
      → g'.free_on ≡ update g.free_on e true
      → g.used_on e ≡ true
      → 0 < e
      → e ≤ t.buckets.capacity
      → Valid (record { size = t.size - 1; buckets = b }) g'
  dropped-Valid t g g' b e v same l used' free' on low high = record {
    layout = l;
    complete = λ i h off. rw free' (ground (arith, rw used' at off, v.complete i, same));
    counted =
        rw (used', same)
          (ground (arith, count-drop g.used_on e t.buckets.capacity on low high, v.counted));
    some_slots = rw same (v.some_slots);
    power = rw same (v.power);
  }

  module _ (t : Table K V) (g : Plan K V) (v : Valid t g) (e : ℕ) (on : g.used_on e ≡ true) where
    -- The last slot of a chain goes.
    cut-Removes : g.cn e ≡ 0 → Removes g (g.key e) (cut t.buckets g v.layout e on)
    cut-Removes end = (
      λ j ne w. (
        λ (i, u, s, q). (i, ground (arith, ap g.key), s, q),
        λ (i, u, s, q). (i, ground (arith, u), s, q),
      ),
      λ i u s. ground (arith, v.layout.unique i e),
    )

    -- The content of the next slot moves here, and the next slot goes.
    pulled-Removes : g.cn e ≢ 0 → Removes g (g.key e) (pulled t.buckets g v.layout e on)
    pulled-Removes more = (
      λ j ne w. (
        λ (i, u, s, q). elim (ℕ_discrete i (g.cn e)) [
          | yes z ↦ (e, ground arith, ground (arith, ap g.key z), ground (arith, ap g.value z))
          | no z ↦ (i, ground arith, ground (arith, ap g.key), ground (arith, ap g.key))
        ],
        λ (i, u, s, q). elim (ℕ_discrete i e) [
          | yes z ↦ (g.cn e, (v.layout.chains e on).on_next more, ground arith, ground arith)
          | no z ↦ (i, ground arith, ground arith, ground arith)
        ],
      ),
      λ i u s. elim (ℕ_discrete i e) [
        | yes z ↦ absurd (twice (ground arith))
        | no z ↦ ground (arith, v.layout.unique i e)
      ],
    )
      where
        twice : g.key (g.cn e) ≢ g.key e
        twice q =
            let c = v.layout.chains e on in
            let same = v.layout.unique (g.cn e) e (c.on_next more) on q in
            ground (arith, c.up more, ap g.rank same)

  -- `remove_and_get` gives the value and takes the entry out.
  abbrev pub Removed : Table K V → Plan K V → K → V → Run (Option V × Table K V) → Type 0
  Removed t g k w r =
      (t' : Table K V) × (g' : Plan K V) × (r ≡ ok (some w, t')) × Valid t' g' × Removes g k g'

  module _ (t : Table K V) (g : Plan K V) (v : Valid t g) (b : Buckets K V) (g' : Plan K V)
      (same : b.capacity ≡ t.buckets.capacity) (l : Layout b g') (e : ℕ)
      (used' : g'.used_on ≡ update g.used_on e false) (free' : g'.free_on ≡ g.free_on)
      (on : g.used_on e ≡ true) where
    low : 0 < e
    low = (v.layout.chains e on).low

    high : e ≤ b.capacity
    high = rw same (v.layout.chains e on).high

    no_free : g'.free_on e ≡ false
    no_free = rw free' (v.layout.apart e on)

    no_used : g'.used_on e ≡ false
    no_used = rw used' (ground arith)

    -- The slot that has been taken out of its chain goes to the free list.
    freed-Removed :
        (k : K) (w : V)
        → Removes g k g'
        → Removed t g k w (
            free_slot e b >>= λ b₂.
            assert (ltb 0 t.size) >> ok (some w, record { size = t.size - 1; buckets = b₂ }))
    freed-Removed k w r = (
      record {
        size = t.size - 1;
        buckets = record b { cell = freed_cell b g' l e low high no_free no_used };
      },
      freed b g' l e low high no_free no_used,
      rw (free_slot_lem b g' l e low high no_free no_used) (rw some_entry refl),
      dropped-Valid t g (freed b g' l e low high no_free no_used)
          (record b { cell = freed_cell b g' l e low high no_free no_used }) e v same
          (freed-Layout b g' l e low high no_free no_used) used' (rw free' refl) on low
          (rw (sym same) high),
      r,
    )
      where
        some_entry : ltb 0 t.size ≡ true
        some_entry =
            let c = count-drop g.used_on e t.buckets.capacity on low (rw (sym same) high) in
            ground (arith, v.counted)

  module _ (t : Table K V) (g : Plan K V) (v : Valid t g) (e : ℕ) (on : g.used_on e ≡ true) where
    -- The slot before `e` as `remove_loop` gives it.
    abbrev before : ℕ
    before =
        if e == home t.buckets.capacity (g.key e) then home t.buckets.capacity (g.key e) else g.pr e

    unchained-Removed : Removed t g (g.key e) (g.value e) (
        unchain t.buckets e (g.cn e) before >>= λ (gone, b₁). free_slot gone b₁ >>= λ b₂.
        assert (ltb 0 t.size) >> ok (some (g.value e), record { size = t.size - 1; buckets = b₂ }))
    unfolding unchain
    unchained-Removed = elim (ℕ_discrete (g.cn e) 0) [
      | yes end ↦
          let test : g.cn e == 0 ≡ true = ground arith in
          rw test (elim (ℕ_discrete e (home t.buckets.capacity (g.key e))) [
            | yes first ↦
                let here : e == before ≡ true = ground arith in
                rw here (
                  freed-Removed t g v t.buckets (cut t.buckets g v.layout e on) refl
                    (cut_alone-Layout t.buckets g v.layout e on end first) e refl refl on (g.key e)
                    (g.value e) (cut-Removes t g v e on end))
            | no inner ↦
                let c = v.layout.chains e on in
                let is_prev : before ≡ g.pr e = ground arith in
                let apart : e == g.pr e ≡ false =
                  ground (arith, c.next_prev inner, c.low, ap g.cn) in
                let p = c.on_prev inner in
                rw (is_prev) (
                  rw apart (
                    rw
                      (set_used_next-cell t.buckets (g.pr e) (g.cn (g.pr e)) 0 (g.key (g.pr e))
                        (g.value (g.pr e)) (v.layout.chains (g.pr e) p).high
                        (v.layout.used_cells (g.pr e) p))
                      (freed-Removed t g v
                        (set_cell t.buckets (g.pr e) (used 0 (g.key (g.pr e)) (g.value (g.pr e))))
                        (cut t.buckets g v.layout e on) refl
                        (cut_last-Layout t.buckets g v.layout e on end inner) e refl refl on
                        (g.key e) (g.value e) (cut-Removes t g v e on end))))
          ])
      | no more ↦
          let c = v.layout.chains e on in
          let n = c.on_next more in
          let test : g.cn e == 0 ≡ false = ground arith in
          rw test (
            rw
              (
                load-cell t.buckets (g.cn e) (v.layout.chains (g.cn e) n).high,
                v.layout.used_cells (g.cn e) n,
              )
              (rw
                (store-cell t.buckets e (used (g.cn (g.cn e)) (g.key (g.cn e)) (g.value (g.cn e)))
                  c.high)
                (freed-Removed t g v
                  (set_cell t.buckets e (used (g.cn (g.cn e)) (g.key (g.cn e)) (g.value (g.cn e))))
                  (pulled t.buckets g v.layout e on) refl
                  (pull-Layout t.buckets g v.layout e on more) (g.cn e) refl refl n (g.key e)
                  (g.value e) (pulled-Removes t g v e on more))))
    ]

module _ {K V : Type 0} ⦃key : Key K⦄ (t : Table K V) (g : Plan K V) (v : Valid t g) (k : K) where
  -- A key that is there.
  remove-found :
      (ep : ℕ)
      → walk t.buckets.capacity t.buckets k (home t.buckets.capacity k) ≡ ok (found ep)
      → (g.used_on ep ≡ true) × (g.key ep ≡ k)
      → g.used_on (home t.buckets.capacity k) ≡ true
      → Removed t g k (g.value ep) (remove_and_get t k)
  unfolding remove_and_get
  remove-found ep run (on, same) on_h =
      subst (λ k'. Removed t g k' (g.value ep) (remove_and_get t k)) same
        (rw
          (
            load-cell t.buckets (home t.buckets.capacity k) (v.layout.chains _ on_h).high,
            v.layout.used_cells (home t.buckets.capacity k) on_h,
          )
          (rw
            (remove_loop-walk t.buckets g v.layout t.buckets.capacity (home t.buckets.capacity k)
              (home t.buckets.capacity k) k (home t.buckets.capacity k) (found ep) on_h (on, same)
              run)
            (rw is_before (unchained-Removed t g v ep on))))
    where
      here : home t.buckets.capacity (g.key ep) ≡ home t.buckets.capacity k
      here = ap (home t.buckets.capacity) same

      is_before :
          (if ep == home t.buckets.capacity k then home t.buckets.capacity k else g.pr ep)
          ≡ before t g v ep on
      is_before = rw here refl

  -- A key that is not there leaves the table as it was.
  remove-walked :
      (o : Walk)
      → walk t.buckets.capacity t.buckets k (home t.buckets.capacity k) ≡ ok o
      → Outcome t.buckets g v.layout k
          (home t.buckets.capacity (g.key (home t.buckets.capacity k)))
          o
      → g.used_on (home t.buckets.capacity k) ≡ true
      → Absent g k
      → remove_and_get t k ≡ ok (none, t)
  unfolding remove_and_get
  remove-walked (found ep) run (on, same) on_h absent = absurd (absent ep on same)
  remove-walked (last ep) run out on_h absent =
      rw
        (
          load-cell t.buckets (home t.buckets.capacity k) (v.layout.chains _ on_h).high,
          v.layout.used_cells (home t.buckets.capacity k) on_h,
        )
        (rw
          (remove_loop-walk t.buckets g v.layout t.buckets.capacity (home t.buckets.capacity k)
            (home t.buckets.capacity k) k
            (home t.buckets.capacity (g.key (home t.buckets.capacity k))) (last ep) on_h out run)
          refl)

  remove-unused : g.used_on (home t.buckets.capacity k) ≡ false → remove_and_get t k ≡ ok (none, t)
  unfolding remove_and_get
  remove-unused off =
      let (low, high) = home-bound t.buckets.capacity k v.some_slots in
      rw
        (
          load-cell t.buckets (home t.buckets.capacity k) high,
          v.layout.free_cells (home t.buckets.capacity k) (v.complete _ high off),
        )
        refl

  Absent-contents :
      (t' : Table K V) (g' : Plan K V) → Valid t' g' → Absent g' k → contents t' k ≡ none
  Absent-contents t' g' v' absent = elim (Option-cases (contents t' k)) [
    | inl e ↦ e
    | inr (w, e) ↦ let (i, u, s, _) = (contents_iff t' g' v' k w).0 e in absurd (absent i u s)
  ]

  Removes-contents :
      (t' : Table K V) (g' : Plan K V)
      → Valid t' g'
      → Removes g k g'
      → (j : K) → contents t' j ≡ without (contents t) k j
  Removes-contents t' g' v' (others, gone) j = elim (Bool-cases (key.equal j k)) [
    | inl e ↦ rw e (ap (contents t') ((key.equal_iff j k).0 e) ∙ Absent-contents t' g' v' gone)
    | inr e ↦ rw e (contents_congr t t' g g' v v' j (others j (ne_lem e)))
  ]
    where
      ne_lem : key.equal j k ≡ false → j ≢ k
      ne_lem e q = ground (arith, (key.equal_iff j k).1 q, e)

  abbrev Gone : Type 0
  Gone =
      (t' : Table K V) × (g' : Plan K V) × (remove_and_get t k ≡ ok (contents t k, t'))
      × Valid t' g'
      × ((j : K) → contents t' j ≡ without (contents t) k j)

  gone-found : (w : V) → Has g k w → Removed t g k w (remove_and_get t k) → Gone
  gone-found w h (t', g', run, v', r) = (
    t',
    g',
    run ∙ ap (λ o. ok (o, t')) (sym ((contents_iff t g v k w).1 h)),
    v',
    Removes-contents t' g' v' r,
  )

  gone-absent : Absent g k → remove_and_get t k ≡ ok (none, t) → Gone
  gone-absent a run = (
    t,
    g,
    run ∙ ap (λ o. ok (o, t)) (sym (Absent-contents t g v a)),
    v,
    Removes-contents t g v ((λ j ne w. ((λ h. h), (λ h. h))), a),
  )

  -- In a valid table, `remove_and_get` gives what the table contains at the key. The table stays
  -- valid, and its contents are those before without the key.
  pub remove_and_get-contents :
      (t' : Table K V) × (g' : Plan K V) × (remove_and_get t k ≡ ok (contents t k, t'))
      × Valid t' g'
      × ((j : K) → contents t' j ≡ without (contents t) k j)
  remove_and_get-contents = elim (Bool-cases (g.used_on (home t.buckets.capacity k))) [
    | inr off ↦ gone-absent (no_home-absent t g v k off) (remove-unused off)
    | inl on ↦
        let (o, run, out) = walk_lem t.buckets g v.layout k (home t.buckets.capacity k) on in
        elim o
            as (λ o.
              walk t.buckets.capacity t.buckets k (home t.buckets.capacity k) ≡ ok o
              → Outcome t.buckets g v.layout k
                  (home t.buckets.capacity (g.key (home t.buckets.capacity k))) o
              → Gone) [
                | found ep ↦ λ run out.
                    gone-found (g.value ep) (ep, out.0, out.1, refl) (remove-found ep run out on)
                | last ep ↦ λ run out.
                    let a = walk-last_absent t.buckets g v.layout k ep run in
                    gone-absent a (remove-walked (last ep) run out on a)
              ]
          run out
  ]
