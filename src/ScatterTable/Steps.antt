-- ===== src/ScatterTable/Steps.antt =====
-- What the writes to used slots do to the chains: filling, displacing, taking out, freeing.
use mathlib.Core.Path.{fun_ext, subst}
use vrt.Base.{ℕ, ◌+◌, ◌≤◌, ◌<◌, ◌≡◌, Bool, true, false, ◌≢◌, ◌==◌, if◌then◌else◌, arith}
use vrt.ScatterTable.Defs.{update, Key, Slot, used, Buckets, home}
use vrt.ScatterTable.Chains.{Chains, add_head, add_tail, displace, remove_last, remove_next}
use vrt.ScatterTable.Layout.{Plan, Layout, set_cell}

-- Chains whose homes are given by another function with the same values.
same_homes :
    (limit : ℕ) (on : ℕ → Bool) (h h' cn pr rank : ℕ → ℕ)
    → ((i : ℕ) → h i ≡ h' i)
    → Chains limit on h cn pr rank
    → Chains limit on h' cn pr rank
same_homes limit on h h' cn pr rank e c = subst (λ f. Chains limit on f cn pr rank) (fun_ext e) c

module _ {K V : Type 0} ⦃key : Key K⦄ (b : Buckets K V) (g : Plan K V) (l : Layout b g) where
  -- A slot that is in no list can hold anything.
  pub stale-Layout :
      (d : ℕ) (s : Slot K V) → g.free_on d ≡ false → g.used_on d ≡ false → Layout (set_cell b d s) g
  stale-Layout d s f u = record {
    ring = l.ring;
    chains = l.chains;
    free_cells = λ i h. ground (arith, l.free_cells i);
    used_cells = λ i h. ground (arith, l.used_cells i);
    unique = l.unique;
    apart = l.apart;
  }

  -- A new value for a key that is there.
  abbrev pub revalued : ℕ → V → Plan K V
  revalued e v = record g { value = update g.value e v }

  pub revalue-Layout :
      (e : ℕ) (v : V)
      → g.used_on e ≡ true
      → Layout (set_cell b e (used (g.cn e) (g.key e) v)) (revalued e v)
  revalue-Layout e v u = record {
    ring = l.ring;
    chains = l.chains;
    free_cells = λ i h. ground (arith, l.free_cells i, l.apart i);
    used_cells = λ i h. ground (arith, l.used_cells i);
    unique = l.unique;
    apart = l.apart;
  }

  module _ (e : ℕ) (low : 0 < e) (high : e ≤ b.capacity) (no_free : g.free_on e ≡ false)
      (no_used : g.used_on e ≡ false) where
    abbrev pub headed : K → V → Plan K V
    headed k v = record g {
      used_on = update g.used_on e true;
      key = update g.key e k;
      value = update g.value e v;
      cn = update g.cn e 0;
    }

    -- A key with no slot goes to its home slot, alone in its chain.
    pub head-Layout :
        (k : K) (v : V)
        → home b.capacity k ≡ e
        → ((i : ℕ) → g.used_on i ≡ true → g.key i ≢ k)
        → Layout (set_cell b e (used 0 k v)) (headed k v)
    head-Layout k v at_home absent = record {
      ring = l.ring;
      chains =
          same_homes b.capacity (update g.used_on e true)
            (update (λ i. home b.capacity (g.key i)) e e) _ (update g.cn e 0) g.pr g.rank
            (λ i. ground arith)
            (add_head b.capacity g.used_on (λ i. home b.capacity (g.key i)) g.cn g.pr g.rank
              l.chains e low high no_used);
      free_cells = λ i h. ground (arith, l.free_cells i);
      used_cells = λ i h. ground (arith, l.used_cells i);
      unique = λ i j hi hj q. ground (arith, l.unique i j, absent i, absent j);
      apart = λ i h. ground (arith, l.apart i);
    }

    abbrev pub tailed : ℕ → K → V → Plan K V
    tailed j k v = record g {
      used_on = update g.used_on e true;
      key = update g.key e k;
      value = update g.value e v;
      cn = update (update g.cn j e) e 0;
      pr = update g.pr e j;
      rank = update g.rank e (g.rank j + 1);
    }

    -- A key with no slot goes behind the last slot of its chain.
    pub tail-Layout :
        (j : ℕ) (k : K) (v : V)
        → g.used_on j ≡ true
        → g.cn j ≡ 0
        → home b.capacity k ≡ home b.capacity (g.key j)
        → ((i : ℕ) → g.used_on i ≡ true → g.key i ≢ k)
        → Layout
            (set_cell (set_cell b j (used e (g.key j) (g.value j))) e (used 0 k v))
            (tailed j k v)
    tail-Layout j k v oj end at_home absent = record {
      ring = l.ring;
      chains =
          same_homes b.capacity (update g.used_on e true)
            (update (λ i. home b.capacity (g.key i)) e (home b.capacity (g.key j))) _
            (update (update g.cn j e) e 0) (update g.pr e j) (update g.rank e (g.rank j + 1))
            (λ i. ground arith)
            (add_tail b.capacity g.used_on (λ i. home b.capacity (g.key i)) g.cn g.pr g.rank
              l.chains e low high no_used j oj end);
      free_cells = λ i h. ground (arith, l.free_cells i, l.apart j);
      used_cells = λ i h. ground (arith, l.used_cells i);
      unique = λ i m hi hm q. ground (arith, l.unique i m, absent i, absent m);
      apart = λ i h. ground (arith, l.apart i);
    }

    module _ (d : ℕ) (used_d : g.used_on d ≡ true) (inner : d ≢ home b.capacity (g.key d)) where
      abbrev pub displaced : Plan K V
      displaced = record g {
        used_on = update (update g.used_on e true) d false;
        key = update g.key e (g.key d);
        value = update g.value e (g.value d);
        cn = update (update g.cn e (g.cn d)) (g.pr d) e;
        pr = update (update g.pr (g.cn d) e) e (g.pr d);
        rank = update g.rank e (g.rank d);
      }

      -- The content of slot `d`, which is not at its home, moves to the empty slot `e`.
      pub displace-Layout :
          Layout
            (set_cell
              (set_cell b e (used (g.cn d) (g.key d) (g.value d)))
              (g.pr d)
              (used e (g.key (g.pr d)) (g.value (g.pr d))))
            displaced
      displace-Layout = record {
        ring = l.ring;
        chains =
            same_homes b.capacity (update (update g.used_on e true) d false)
              (update (λ i. home b.capacity (g.key i)) e (home b.capacity (g.key d))) _
              (update (update g.cn e (g.cn d)) (g.pr d) e)
              (update (update g.pr (g.cn d) e) e (g.pr d)) (update g.rank e (g.rank d))
              (λ i. ground arith)
              (displace b.capacity g.used_on (λ i. home b.capacity (g.key i)) g.cn g.pr g.rank
                l.chains d e low high no_used used_d inner);
        free_cells = λ i h.
            ground (arith, l.free_cells i, l.apart (g.pr d), (l.chains d used_d).on_prev inner);
        used_cells = λ i h. ground (arith, l.used_cells i, (l.chains d used_d).on_prev inner);
        unique = λ i m hi hm q. ground (arith, l.unique i m, l.unique i d, l.unique d m);
        apart = λ i h. ground (arith, l.apart i);
      }

  module _ (e : ℕ) (used_e : g.used_on e ≡ true) where
    abbrev pub cut : Plan K V
    cut = record g {
      used_on = update g.used_on e false;
      cn = if e == home b.capacity (g.key e) then g.cn else update g.cn (g.pr e) 0;
    }

    -- The last slot of a chain is taken out. Its predecessor, if any, is the end now.
    pub cut_alone-Layout : g.cn e ≡ 0 → e ≡ home b.capacity (g.key e) → Layout b cut
    cut_alone-Layout end first = record {
      ring = l.ring;
      chains =
          remove_last b.capacity g.used_on (λ i. home b.capacity (g.key i)) g.cn g.pr g.rank
            l.chains e used_e end;
      free_cells = l.free_cells;
      used_cells = λ i h. ground (arith, l.used_cells i);
      unique = λ i m hi hm q. ground (arith, l.unique i m);
      apart = λ i h. ground (arith, l.apart i);
    }

    pub cut_last-Layout :
        g.cn e ≡ 0
        → e ≢ home b.capacity (g.key e)
        → Layout (set_cell b (g.pr e) (used 0 (g.key (g.pr e)) (g.value (g.pr e)))) cut
    cut_last-Layout end inner = record {
      ring = l.ring;
      chains =
          remove_last b.capacity g.used_on (λ i. home b.capacity (g.key i)) g.cn g.pr g.rank
            l.chains e used_e end;
      free_cells = λ i h.
          ground (arith, l.free_cells i, l.apart (g.pr e), (l.chains e used_e).on_prev inner);
      used_cells = λ i h. ground (arith, l.used_cells i, (l.chains e used_e).on_prev inner);
      unique = λ i m hi hm q. ground (arith, l.unique i m);
      apart = λ i h. ground (arith, l.apart i);
    }

    abbrev pub pulled : Plan K V
    pulled = record g {
      used_on = update g.used_on (g.cn e) false;
      key = update g.key e (g.key (g.cn e));
      value = update g.value e (g.value (g.cn e));
      cn = update g.cn e (g.cn (g.cn e));
      pr = update g.pr (g.cn (g.cn e)) e;
    }

    -- The content of the next slot of the chain moves here, and the next slot is taken out.
    pub pull-Layout :
        g.cn e ≢ 0
        → Layout (set_cell b e (used (g.cn (g.cn e)) (g.key (g.cn e)) (g.value (g.cn e)))) pulled
    pull-Layout more = record {
      ring = l.ring;
      chains =
          same_homes b.capacity (update g.used_on (g.cn e) false) (λ i. home b.capacity (g.key i)) _
            (update g.cn e (g.cn (g.cn e))) (update g.pr (g.cn (g.cn e)) e) g.rank
            (λ i. ground (arith, (l.chains e used_e).home_next more))
            (remove_next b.capacity g.used_on (λ i. home b.capacity (g.key i)) g.cn g.pr g.rank
              l.chains e used_e more);
      free_cells = λ i h. ground (arith, l.free_cells i, l.apart e);
      used_cells = λ i h. ground (arith, l.used_cells i);
      unique = λ i m hi hm q. ground (
        arith,
        l.unique i m,
        l.unique i (g.cn e),
        l.unique (g.cn e) m,
        (l.chains e used_e).on_next more,
      );
      apart = λ i h. ground (arith, l.apart i);
    }
