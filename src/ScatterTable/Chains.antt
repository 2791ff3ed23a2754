-- ===== src/ScatterTable/Chains.antt =====
-- The collision chains as links: `cn` is the next slot of a chain (0 at its end), `pr` the one before,
-- `home` the first slot of a slot's chain, and `rank` grows along a chain.
use vrt.Base.{
  ℕ, zero, suc, ◌+◌, ◌≤◌, ◌<◌, ◌≡◌, Bool, true, false, ◌≢◌, ◌==◌, if◌then◌else◌, arith, sym, ◌∙◌,
  ap,
}
use native.Mathlib.Decide.{ℕ_discrete}
use vrt.ScatterTable.Defs.{update}

-- Slot `i` is in a chain of the slots that `on` tells.
pub record InChain (limit : ℕ) (on : ℕ → Bool) (home cn pr rank : ℕ → ℕ) (i : ℕ) : Type 0 where
  pub low : 0 < i
  pub high : i ≤ limit
  pub on_home : on (home i) ≡ true
  pub home_home : home (home i) ≡ home i
  pub on_next : cn i ≢ 0 → on (cn i) ≡ true
  pub home_next : cn i ≢ 0 → home (cn i) ≡ home i
  pub next_ne_home : cn i ≢ 0 → cn i ≢ home i
  pub prev_next : cn i ≢ 0 → pr (cn i) ≡ i
  pub up : cn i ≢ 0 → rank i < rank (cn i)
  pub on_prev : i ≢ home i → on (pr i) ≡ true
  pub next_prev : i ≢ home i → cn (pr i) ≡ i

abbrev pub Chains : (limit : ℕ) (on : ℕ → Bool) (home cn pr rank : ℕ → ℕ) → Type 0
Chains limit on home cn pr rank = (i : ℕ) → on i ≡ true → InChain limit on home cn pr rank i

module _ (limit : ℕ) (on : ℕ → Bool) (home cn pr rank : ℕ → ℕ)
    (c : Chains limit on home cn pr rank) where
  -- A chain of one slot, at its home.
  module _ (e : ℕ) (low : 0 < e) (high : e ≤ limit) (fresh : on e ≡ false) where
    add_head_at :
        (i : ℕ)
        → i ≢ e
        → on i ≡ true
        → InChain limit (update on e true) (update home e e) (update cn e 0) pr rank i
    add_head_at i ne oi = record {
      low = a.low;
      high = a.high;
      on_home = ground (arith, a);
      home_home = ground (arith, a);
      on_next = ground (arith, a);
      home_next = ground (arith, a);
      next_ne_home = ground (arith, a);
      prev_next = ground (arith, a);
      up = ground (arith, a);
      on_prev = ground (arith, a);
      next_prev = ground (arith, a);
    }
      where
        a : InChain limit on home cn pr rank i
        a = c i oi

    pub add_head : Chains limit (update on e true) (update home e e) (update cn e 0) pr rank
    add_head i h = elim (ℕ_discrete i e) [
      | yes same ↦ rw same (record {
        low = low;
        high = high;
        on_home = ground arith;
        home_home = ground arith;
        on_next = ground arith;
        home_next = ground arith;
        next_ne_home = ground arith;
        prev_next = ground arith;
        up = ground arith;
        on_prev = ground arith;
        next_prev = ground arith;
      })
      | no ne ↦ add_head_at i ne (ground arith)
    ]

  -- A slot is added behind the last slot `j` of a chain.
  module _ (e : ℕ) (low : 0 < e) (high : e ≤ limit) (fresh : on e ≡ false) (j : ℕ)
      (oj : on j ≡ true) (end : cn j ≡ 0) where
    abbrev pub tail_rank : ℕ → ℕ
    tail_rank = update rank e (rank j + 1)

    add_tail_self :
        InChain limit
          (update on e true)
          (update home e (home j))
          (update (update cn j e) e 0)
          (update pr e j)
          tail_rank
          e
    add_tail_self = record {
      low = ground (arith, c j oj);
      high = ground (arith, c j oj);
      on_home = ground (arith, c j oj);
      home_home = ground (arith, c j oj);
      on_next = ground (arith, c j oj);
      home_next = ground (arith, c j oj);
      next_ne_home = ground (arith, c j oj);
      prev_next = ground (arith, c j oj);
      up = ground (arith, c j oj);
      on_prev = ground (arith, c j oj);
      next_prev = ground (arith, c j oj);
    }

    add_tail_at :
        (i : ℕ)
        → i ≢ e
        → on i ≡ true
        → InChain limit
            (update on e true)
            (update home e (home j))
            (update (update cn j e) e 0)
            (update pr e j)
            tail_rank
            i
    add_tail_at i ne oi = record {
      low = ground (arith, c i oi, c j oj);
      high = ground (arith, c i oi, c j oj);
      on_home = ground (arith, c i oi, c j oj);
      home_home = ground (arith, c i oi, c j oj);
      on_next = ground (arith, c i oi, c j oj);
      home_next = ground (arith, c i oi, c j oj);
      next_ne_home = ground (arith, c i oi, c j oj);
      prev_next = ground (arith, c i oi, c j oj);
      up = ground (arith, c i oi, c j oj);
      on_prev = ground (arith, c i oi, c j oj);
      next_prev = ground (arith, c i oi, c j oj);
    }

    pub add_tail :
        Chains limit
          (update on e true)
          (update home e (home j))
          (update (update cn j e) e 0)
          (update pr e j)
          tail_rank
    add_tail i h = elim (ℕ_discrete i e) [
      | yes same ↦ rw same add_tail_self
      | no ne ↦ add_tail_at i ne (ground arith)
    ]

  -- The content of slot `e`, which is not the first of its chain, moves to slot `d`.
  module _ (e d : ℕ) (low : 0 < d) (high : d ≤ limit) (fresh : on d ≡ false) (oe : on e ≡ true)
      (inner : e ≢ home e) where
    abbrev pub moved_on : ℕ → Bool
    moved_on = update (update on d true) e false

    abbrev pub moved_next : ℕ → ℕ
    moved_next = update (update cn d (cn e)) (pr e) d

    abbrev pub moved_prev : ℕ → ℕ
    moved_prev = update (update pr (cn e) d) d (pr e)

    abbrev pub moved_rank : ℕ → ℕ
    moved_rank = update rank d (rank e)

    displace_self :
        InChain limit moved_on (update home d (home e)) moved_next moved_prev moved_rank d
    displace_self = record {
      low = ground (arith, c e oe, c (pr e) ((c e oe).on_prev inner));
      high = ground (arith, c e oe, c (pr e) ((c e oe).on_prev inner));
      on_home = ground (arith, c e oe, c (pr e) ((c e oe).on_prev inner));
      home_home = ground (arith, c e oe, c (pr e) ((c e oe).on_prev inner));
      on_next = ground (arith, c e oe, c (pr e) ((c e oe).on_prev inner));
      home_next = ground (arith, c e oe, c (pr e) ((c e oe).on_prev inner));
      next_ne_home = ground (arith, c e oe, c (pr e) ((c e oe).on_prev inner));
      prev_next = ground (arith, c e oe, c (pr e) ((c e oe).on_prev inner));
      up = ground (arith, c e oe, c (pr e) ((c e oe).on_prev inner));
      on_prev = ground (arith, c e oe, c (pr e) ((c e oe).on_prev inner));
      next_prev = ground (arith, c e oe, c (pr e) ((c e oe).on_prev inner));
    }

    displace_at :
        (i : ℕ)
        → i ≢ d
        → i ≢ e
        → on i ≡ true
        → InChain limit moved_on (update home d (home e)) moved_next moved_prev moved_rank i
    displace_at i nd ne oi = record {
      low = ground (arith, c i oi, c e oe, c (pr e) ((c e oe).on_prev inner));
      high = ground (arith, c i oi, c e oe, c (pr e) ((c e oe).on_prev inner));
      on_home = ground (arith, c i oi, c e oe, c (pr e) ((c e oe).on_prev inner));
      home_home = ground (arith, c i oi, c e oe, c (pr e) ((c e oe).on_prev inner));
      on_next = ground (arith, c i oi, c e oe, c (pr e) ((c e oe).on_prev inner));
      home_next = ground (arith, c i oi, c e oe, c (pr e) ((c e oe).on_prev inner));
      next_ne_home = ground (arith, c i oi, c e oe, c (pr e) ((c e oe).on_prev inner));
      prev_next = ground (arith, c i oi, c e oe, c (pr e) ((c e oe).on_prev inner));
      up = ground (arith, c i oi, c e oe, c (pr e) ((c e oe).on_prev inner));
      on_prev = ground (arith, c i oi, c e oe, c (pr e) ((c e oe).on_prev inner));
      next_prev = ground (arith, c i oi, c e oe, c (pr e) ((c e oe).on_prev inner));
    }

    pub displace : Chains limit moved_on (update home d (home e)) moved_next moved_prev moved_rank
    displace i h = elim (ℕ_discrete i d) [
      | yes same ↦ rw same displace_self
      | no nd ↦ displace_at i nd (ground arith) (ground arith)
    ]

  -- A first slot with no next is alone in its chain.
  pub single : (fuel i : ℕ) → rank i < fuel → on i ≡ true → cn (home i) ≡ 0 → i ≡ home i
  single zero i h oi end = absurd (omega arith)
  single (suc fuel) i h oi end = elim (ℕ_discrete i (home i)) [
    | yes same ↦ same
    | no ne ↦
        let a = c i oi in
        let b = c (pr i) (a.on_prev ne) in
        let more : cn (pr i) ≢ 0 = ground (arith, a) in
        let same_home : home (pr i) ≡ home i = ground (arith, a, b) in
        let below : rank (pr i) < rank i = ground (arith, a, b) in
        let first : pr i ≡ home (pr i) =
          single fuel (pr i) (omega arith) (a.on_prev ne) (rw same_home end) in
        absurd (ground (arith, a, b))
  ]

  -- The last slot of a chain is taken out.
  module _ (e : ℕ) (oe : on e ≡ true) (end : cn e ≡ 0) where
    abbrev pub cut_next : ℕ → ℕ
    cut_next = if e == home e then cn else update cn (pr e) 0

    remove_last_at :
        (i : ℕ) → i ≢ e → on i ≡ true → InChain limit (update on e false) home cut_next pr rank i
    remove_last_at i ne oi = record {
      low = ground (arith, c i oi, c e oe);
      high = ground (arith, c i oi, c e oe);
      on_home = ground (arith, c i oi, c e oe, alone);
      home_home = ground (arith, c i oi, c e oe);
      on_next = ground (arith, c i oi, c e oe);
      home_next = ground (arith, c i oi, c e oe);
      next_ne_home = ground (arith, c i oi, c e oe);
      prev_next = ground (arith, c i oi, c e oe);
      up = ground (arith, c i oi, c e oe);
      on_prev = ground (arith, c i oi, c e oe);
      next_prev = ground (arith, c i oi, c e oe);
    }
      where
        alone : e ≢ home i
        alone h = ne (single (suc (rank i)) i (omega arith) oi (sym (ap cn h) ∙ end) ∙ sym h)

    pub remove_last : Chains limit (update on e false) home cut_next pr rank
    remove_last i h = remove_last_at i (ground arith) (ground arith)

  -- The content of the slot behind `e` moves into `e`, and that slot is taken out.
  module _ (e : ℕ) (oe : on e ≡ true) (more : cn e ≢ 0) where
    abbrev pub pulled_next : ℕ → ℕ
    pulled_next = update cn e (cn (cn e))

    abbrev pub pulled_prev : ℕ → ℕ
    pulled_prev = update pr (cn (cn e)) e

    remove_next_at :
        (i : ℕ)
        → i ≢ cn e
        → on i ≡ true
        → InChain limit (update on (cn e) false) home pulled_next pulled_prev rank i
    remove_next_at i ne oi = record {
      low = ground (arith, c i oi, c e oe, c (cn e) ((c e oe).on_next more));
      high = ground (arith, c i oi, c e oe, c (cn e) ((c e oe).on_next more));
      on_home = ground (arith, c i oi, c e oe, c (cn e) ((c e oe).on_next more));
      home_home = ground (arith, c i oi, c e oe, c (cn e) ((c e oe).on_next more));
      on_next = ground (arith, c i oi, c e oe, c (cn e) ((c e oe).on_next more));
      home_next = ground (arith, c i oi, c e oe, c (cn e) ((c e oe).on_next more));
      next_ne_home = ground (arith, c i oi, c e oe, c (cn e) ((c e oe).on_next more));
      prev_next = ground (arith, c i oi, c e oe, c (cn e) ((c e oe).on_next more));
      up = ground (arith, c i oi, c e oe, c (cn e) ((c e oe).on_next more));
      on_prev = ground (arith, c i oi, c e oe, c (cn e) ((c e oe).on_next more));
      next_prev = ground (arith, c i oi, c e oe, c (cn e) ((c e oe).on_next more));
    }

    pub remove_next : Chains limit (update on (cn e) false) home pulled_next pulled_prev rank
    remove_next i h = remove_next_at i (ground arith) (ground arith)
