-- ===== src/ScatterTable/Walks.antt =====
-- The loops over a chain: they end within the capacity, and find what is there.
use native.Mathlib.Decide.{ℕ_discrete}
use vrt.Base.{
  ℕ, zero, suc, ◌+◌, ◌≤◌, ◌<◌, ◌≡◌, refl, true, false, ◌≢◌, ◌==◌, ltb, if◌then◌else◌, arith, inl,
  inr, sym, ◌∙◌, ap, Bool-cases, Option, none, some, List, [], ◌∷◌, length, All, All-map, Distinct,
  pigeonhole,
}
use vrt.Base.Run.{ok, ◌>>=◌, ok-injective}
use vrt.ScatterTable.Defs.{
  Key, Buckets, home, load_used, Walk, found, last, walk, get_loop, find_pred, remove_loop,
}
use vrt.ScatterTable.Layout.{Plan, Layout, load_used-cell}

module _ {K V : Type 0} ⦃key : Key K⦄ (b : Buckets K V) (g : Plan K V) (l : Layout b g) where
  abbrev pub home_of : ℕ → ℕ
  home_of i = home b.capacity (g.key i)

  pub load_used-on : (i : ℕ) → g.used_on i ≡ true → load_used b i ≡ ok (g.cn i, g.key i, g.value i)
  load_used-on i h =
      load_used-cell b i (g.cn i) (g.key i) (g.value i) (l.chains i h).high (l.used_cells i h)

  -- The slots that a walk has passed before it comes to slot `j`.
  abbrev pub Passed : ℕ → List ℕ → Type 0
  Passed j seen = Distinct seen × All (λ x. (0 < x) × (x ≤ b.capacity) × (g.rank x < g.rank j)) seen

  pub Passed-next :
      (j : ℕ) (seen : List ℕ)
      → g.used_on j ≡ true
      → g.cn j ≢ 0
      → Passed j seen
      → Passed (g.cn j) (j ∷ seen)
  Passed-next j seen u more (d, a) =
      let c = l.chains j u in
      let up = c.up more in
      (
        (All-map (λ x h. let lt = h.2 in λ e. absurd (omega (arith, ap g.rank e))) seen a, d),
        ((c.low, c.high, up), All-map (λ x h. (h.0, h.1, let lt = h.2 in omega arith)) seen a),
      )

  -- No walk passes as many slots as there are.
  pub Passed-short :
      (j : ℕ) (seen : List ℕ) → g.used_on j ≡ true → Passed j seen → length seen < b.capacity
  Passed-short j seen u (d, a) =
      let c = l.chains j u in
      omega (
        arith,
        pigeonhole (suc b.capacity) (0 ∷ j ∷ seen)
            (
              omega arith,
              (let h = c.high in omega arith, All-map (λ x h. let hi = h.1 in omega arith) seen a),
            )
            (
              (let h = c.low in omega arith, All-map (λ x h. let lo = h.0 in omega arith) seen a),
              (All-map (λ x h. let lt = h.2 in λ e. absurd (omega (arith, ap g.rank e))) seen a, d),
            ),
      )

  -- Slot `i` is reached from slot `j` in `d` steps.
  abbrev pub Ahead : ℕ → ℕ → ℕ → Type 0
  Ahead zero j i = j ≡ i
  Ahead (suc d) j i = (g.cn j ≢ 0) × Ahead d (g.cn j) i

  Ahead-next : (d j i : ℕ) → Ahead d j i → g.cn i ≢ 0 → Ahead (suc d) j (g.cn i)
  Ahead-next zero j i e more = rw e (more, refl)
  Ahead-next (suc d) j i (m, a) more = (m, Ahead-next d (g.cn j) i a more)

  -- Every used slot is reached from its home slot.
  pub reach : (fuel i : ℕ) → g.rank i < fuel → g.used_on i ≡ true → (d : ℕ) × Ahead d (home_of i) i
  reach zero i h u = absurd (omega arith)
  reach (suc fuel) i h u = elim (ℕ_discrete i (home_of i)) [
    | yes same ↦ (0, sym same)
    | no ne ↦
        let a = l.chains i u in
        let p = l.chains (g.pr i) (a.on_prev ne) in
        let back = a.next_prev ne in
        let more : g.cn (g.pr i) ≢ 0 = ground (arith, a) in
        let lt = p.up more in
        let (d, ahead) = reach fuel (g.pr i) (omega (arith, ap g.rank back)) (a.on_prev ne) in
        let same_home : home_of (g.pr i) ≡ home_of i = sym (p.home_next more) ∙ ap home_of back in
        (suc d, rw (← same_home) (rw back at (Ahead-next d (home_of (g.pr i)) (g.pr i) ahead more)))
  ]

  -- What a walk for a key from slot `j` comes to.
  abbrev pub Outcome : K → ℕ → Walk → Type 0
  Outcome k h (found i) = (g.used_on i ≡ true) × (g.key i ≡ k)
  Outcome k h (last i) = (g.used_on i ≡ true) × (g.cn i ≡ 0) × (home_of i ≡ h)

  walk_ends :
      (fuel j : ℕ) (k : K) (h : ℕ) (seen : List ℕ)
      → g.used_on j ≡ true
      → home_of j ≡ h
      → Passed j seen
      → length seen + fuel ≡ b.capacity
      → (w : Walk) × (walk fuel b k j ≡ ok w) × Outcome k h w
  unfolding walk
  walk_ends zero j k h seen u at p room = absurd (omega (arith, Passed-short j seen u p))
  walk_ends (suc fuel) j k h seen u at p room = elim (Bool-cases (key.equal (g.key j) k)) [
    | inl e ↦ (found j, rw (load_used-on j u) (rw e), (u, (key.equal_iff (g.key j) k).0 e))
    | inr e ↦ elim (ℕ_discrete (g.cn j) 0) [
      | yes end ↦
          let t : g.cn j == 0 ≡ true = ground arith in
          (last j, rw (load_used-on j u) (rw e (rw t)), (u, end, at))
      | no more ↦
          let c = l.chains j u in
          let t : g.cn j == 0 ≡ false = ground arith in
          let (w, run, out) =
            walk_ends fuel (g.cn j) k h (j ∷ seen) (c.on_next more) (c.home_next more ∙ at)
              (Passed-next j seen u more p) (omega arith) in
          (w, rw (load_used-on j u) (rw e (rw t run)), out)
    ]
  ]

  -- A walk from a used slot ends, in the capacity's rounds.
  pub walk_lem :
      (k : K) (j : ℕ)
      → g.used_on j ≡ true
      → (w : Walk) × (walk b.capacity b k j ≡ ok w) × Outcome k (home_of j) w
  walk_lem k j u = walk_ends b.capacity j k (home_of j) [] u refl (tt, tt) (omega arith)

  -- A walk does not pass a slot with its key.
  walk_misses :
      (fuel d j i m : ℕ) (k : K)
      → g.used_on j ≡ true
      → Ahead d j i
      → g.key i ≡ k
      → walk fuel b k j ≡ ok (last m)
      → ⊥
  unfolding walk
  walk_misses zero d j i m k u a same run = cc
  walk_misses (suc fuel) zero j i m k u a same run =
      let t : key.equal (g.key j) k ≡ true = (key.equal_iff (g.key j) k).1 (ap g.key a ∙ same) in
      cc (rw t at (rw (load_used-on j u) at run))
  walk_misses (suc fuel) (suc d) j i m k u (more, a) same run =
      let run' = rw (load_used-on j u) at run in
      elim (Bool-cases (key.equal (g.key j) k)) [
        | inl e ↦ cc (rw e at run')
        | inr e ↦
            let t : g.cn j == 0 ≡ false = ground arith in
            walk_misses fuel d (g.cn j) i m k ((l.chains j u).on_next more) a same
              (rw t at (rw e at run'))
      ]

  -- A walk from the home of a key that ends at a last slot shows that the key has no slot.
  pub walk-last_absent :
      (k : K) (m : ℕ)
      → walk b.capacity b k (home b.capacity k) ≡ ok (last m)
      → (i : ℕ) → g.used_on i ≡ true
      → g.key i ≢ k
  walk-last_absent k m run i u same =
      let (d, ahead) = reach (suc (g.rank i)) i (omega arith) u in
      let e : home_of i ≡ home b.capacity k = ap (home b.capacity) same in
      walk_misses b.capacity d (home b.capacity k) i m k (rw e at ((l.chains i u).on_home))
        (rw e at ahead) same run

  -- What `get` answers at the end of a walk.
  abbrev pub answer : Walk → Option V
  answer (found i) = some (g.value i)
  answer (last i) = none

  pub get_loop-walk :
      (fuel j : ℕ) (k : K) (w : Walk)
      → g.used_on j ≡ true
      → walk fuel b k j ≡ ok w
      → get_loop fuel b k j ≡ ok (answer w)
  unfolding walk get_loop
  get_loop-walk zero j k w u run = cc
  get_loop-walk (suc fuel) j k w u run =
      let run' = rw (load_used-on j u) at run in
      rw (load_used-on j u) (elim (Bool-cases (key.equal (g.key j) k)) [
        | inl e ↦ rw e (ap (λ r. r >>= λ w. ok (answer w)) (rw e at run'))
        | inr e ↦ elim (ℕ_discrete (g.cn j) 0) [
          | yes end ↦
              let t : g.cn j == 0 ≡ true = ground arith in
              rw e (rw t (ap (λ r. r >>= λ w. ok (answer w)) (rw t at (rw e at run'))))
          | no more ↦
              let t : g.cn j == 0 ≡ false = ground arith in
              rw e (
                rw t (
                  get_loop-walk fuel (g.cn j) k w ((l.chains j u).on_next more)
                    (rw t at (rw e at run'))))
        ]
      ])

  -- What the loop of `remove_impl` gives at the end of a walk: the slot, and the one before it.
  abbrev pub removal : (ep j : ℕ) → Walk → Option (ℕ × ℕ × V × ℕ)
  removal ep j (found i) = some (i, g.cn i, g.value i, if i == j then ep else g.pr i)
  removal ep j (last i) = none

  removal-next :
      (ep j : ℕ) (k : K) (h : ℕ) (w : Walk)
      → g.used_on j ≡ true
      → Outcome k h w
      → key.equal (g.key j) k ≡ false
      → g.cn j ≢ 0
      → removal j (g.cn j) w ≡ removal ep j w
  removal-next ep j k h (found i) u (_, same) e more =
      ap (λ (p : ℕ). some (i, g.cn i, g.value i, p))
        (ground (arith, (l.chains j u).prev_next more, apart))
    where
      apart : i ≢ j
      apart q = cc ((key.equal_iff (g.key j) k).1 (sym (ap g.key q) ∙ same))
  removal-next ep j k h (last i) u o e more = refl

  pub remove_loop-walk :
      (fuel ep j : ℕ) (k : K) (h : ℕ) (w : Walk)
      → g.used_on j ≡ true
      → Outcome k h w
      → walk fuel b k j ≡ ok w
      → remove_loop fuel b k ep j ≡ ok (removal ep j w)
  unfolding walk remove_loop
  remove_loop-walk zero ep j k h w u o run = cc
  remove_loop-walk (suc fuel) ep j k h w u o run =
      let run' = rw (load_used-on j u) at run in
      rw (load_used-on j u) (elim (Bool-cases (key.equal (g.key j) k)) [
        | inl e ↦ rw e (here (ok-injective (rw e at run')))
        | inr e ↦ elim (ℕ_discrete (g.cn j) 0) [
          | yes end ↦
              let t : g.cn j == 0 ≡ true = ground arith in
              rw e (rw t (ap (λ r. r >>= λ w. ok (removal ep j w)) (rw t at (rw e at run'))))
          | no more ↦
              let t : g.cn j == 0 ≡ false = ground arith in
              rw e (
                rw t (
                  remove_loop-walk fuel j (g.cn j) k h w ((l.chains j u).on_next more) o
                    (rw t at (rw e at run'))
                  ∙ ap ok (removal-next ep j k h w u o e more)))
        ]
      ])
    where
      here : found j ≡ w → ok (some (j, g.cn j, g.value j, ep)) ≡ ok (removal ep j w)
      here q = ap ok (itself ∙ ap (removal ep j) q)
        where
          itself : some (j, g.cn j, g.value j, ep) ≡ removal ep j (found j)
          itself = ap (λ (p : ℕ). some (j, g.cn j, g.value j, p)) (ground arith)

  -- The predecessor of a slot is found.
  find_pred_ends :
      (fuel d j e : ℕ) (seen : List ℕ)
      → g.used_on j ≡ true
      → Ahead d j (g.pr e)
      → 0 < e
      → g.cn (g.pr e) ≡ e
      → Passed j seen
      → length seen + fuel ≡ b.capacity
      → find_pred fuel b e j ≡ ok (g.pr e)
  unfolding find_pred
  find_pred_ends zero d j e seen u a pos back p room =
      absurd (omega (arith, Passed-short j seen u p))
  find_pred_ends (suc fuel) zero j e seen u a pos back p room =
      let t : g.cn j == e ≡ true = ground (arith, ap g.cn a) in
      rw (load_used-on j u) (rw t (ap ok a))
  find_pred_ends (suc fuel) (suc d) j e seen u (more, a) pos back p room =
      rw (load_used-on j u) (elim (ℕ_discrete (g.cn j) e) [
        | yes same ↦
            let t : g.cn j == e ≡ true = ground arith in
            rw t (ap ok (ground (arith, (l.chains j u).prev_next)))
        | no ne ↦
            let t : g.cn j == e ≡ false = ground arith in
            let low : ltb 0 (g.cn j) ≡ true = ground arith in
            rw t (
              rw low (
                find_pred_ends fuel d (g.cn j) e (j ∷ seen) ((l.chains j u).on_next more) a pos back
                  (Passed-next j seen u more p) (omega arith)))
      ])

  pub find_pred_lem :
      (e : ℕ)
      → g.used_on e ≡ true
      → e ≢ home_of e
      → find_pred b.capacity b e (home_of e) ≡ ok (g.pr e)
  find_pred_lem e u inner =
      let c = l.chains e u in
      let p = l.chains (g.pr e) (c.on_prev inner) in
      let back = c.next_prev inner in
      let low = c.low in
      let (d, ahead) = reach (suc (g.rank (g.pr e))) (g.pr e) (omega arith) (c.on_prev inner) in
      let same_home : home_of (g.pr e) ≡ home_of e =
        sym (p.home_next (λ z. absurd (omega arith))) ∙ ap home_of back in
      find_pred_ends b.capacity d (home_of e) e [] c.on_home (rw same_home at ahead) c.low back
        (tt, tt) (omega arith)
