-- ===== src/ScatterTable/PutOnce.antt =====
-- `put` up to a rehash: its three cases together, and a table that is full.
use native.Mathlib.Decide.{ℕ_discrete}
use vrt.Base.{
  ℕ, ◌<◌, ◌≡◌, ◌≢◌, ◌==◌, refl, Bool, true, false, not, ◌&&◌, inl, inr, sym, ◌∙◌, Bool-cases, arith,
}
use vrt.Base.Run.{ok}
use vrt.ScatterTable.Defs.{
  Key, used, Buckets, Table, home, found, last, walk, put_chain, put_displace, put_once,
}
use vrt.ScatterTable.Layout.{Plan, set_cell, load-cell, store-cell}
use vrt.ScatterTable.Steps.{revalued, revalue-Layout}
use vrt.ScatterTable.Walks.{walk_lem, walk-last_absent, Outcome, load_used-on}
use vrt.ScatterTable.Spec.{Valid, free_slot_left}
use vrt.ScatterTable.Put.{Placed, put_empty-Placed, put_tail-Placed, revalued-Stores}
use vrt.ScatterTable.Displace.{displace-Placed}
use vrt.ScatterTable.Get.{home-bound}

module _ {K V : Type 0} ⦃key : Key K⦄ (t : Table K V) (g : Plan K V) (v : Valid t g) (k : K)
    (w : V) where
  walked-absent :
      (fixed : Bool)
      → t.size < t.buckets.capacity
      → (e ep : ℕ) → home t.buckets.capacity k ≡ e
      → walk t.buckets.capacity t.buckets k e ≡ ok (last ep)
      → Outcome t.buckets g v.layout k e (last ep)
      → Placed fixed t g k w (put_chain fixed t e k w)
  unfolding put_chain
  walked-absent fixed room e ep at run (on, end, homes) = rw run (
      rw test (
        put_tail-Placed t g v k w ep on end (at ∙ sym homes)
          (walk-last_absent t.buckets g v.layout k ep (rw (sym at) at run))
          (free_slot_left t g v room) fixed))
    where
      test : not fixed && (t.size == t.buckets.capacity) ≡ false
      test = ground (arith, Bool-cases fixed)

  walked-found :
      (fixed : Bool) (e ep : ℕ)
      → walk t.buckets.capacity t.buckets k e ≡ ok (found ep)
      → Outcome t.buckets g v.layout k e (found ep)
      → Placed fixed t g k w (put_chain fixed t e k w)
  unfolding put_chain
  walked-found fixed e ep run (on, same) = (
    ep,
    record t { buckets = b },
    revalued t.buckets g v.layout ep w,
    rw run (
        rw (load_used-on t.buckets g v.layout ep on) (
          rw (store-cell t.buckets ep (used (g.cn ep) (g.key ep) w) (v.layout.chains ep on).high)
            refl)),
    record {
      layout = revalue-Layout t.buckets g v.layout ep w on;
      complete = v.complete;
      counted = v.counted;
      some_slots = v.some_slots;
      power = v.power;
    },
    revalued-Stores t g v k w ep on same,
    omega arith,
    λ a. absurd (a ep on same),
    refl,
  )
    where
      b : Buckets K V
      b = set_cell t.buckets ep (used (g.cn ep) (g.key ep) w)

  displaced-room :
      (fixed : Bool) (e : ℕ)
      → t.size < t.buckets.capacity
      → home t.buckets.capacity k ≡ e
      → g.used_on e ≡ true
      → home t.buckets.capacity (g.key e) ≢ e
      → Placed fixed t g k w (put_displace fixed t e (home t.buckets.capacity (g.key e)) k w)
  unfolding put_displace
  displaced-room fixed e room at on guest =
      rw test (displace-Placed t g v k w e at on guest (free_slot_left t g v room) fixed)
    where
      test : not fixed && (t.size == t.buckets.capacity) ≡ false
      test = ground (arith, Bool-cases fixed)

  chained :
      (fixed : Bool) (e : ℕ)
      → t.size < t.buckets.capacity
      → home t.buckets.capacity k ≡ e
      → g.used_on e ≡ true
      → home t.buckets.capacity (g.key e) ≡ e
      → Placed fixed t g k w (put_chain fixed t e k w)
  chained fixed e room at on own =
      let (o, run, out) = walk_lem t.buckets g v.layout k e on in
      elim o
          as (λ o.
            walk t.buckets.capacity t.buckets k e ≡ ok o
            → Outcome t.buckets g v.layout k e o
            → Placed fixed t g k w (put_chain fixed t e k w)) [
              | found ep ↦ λ run out. walked-found fixed e ep run out
              | last ep ↦ λ run out. walked-absent fixed room e ep at run out
            ]
        run (rw own at out)

  -- With a slot to spare, `put` succeeds without a rehash: the table stays valid and has the entry.
  pub put_once-Placed :
      (fixed : Bool) → t.size < t.buckets.capacity → Placed fixed t g k w (put_once fixed t k w)
  unfolding put_once
  put_once-Placed fixed room =
      let (low, high) = home-bound t.buckets.capacity k v.some_slots in
      rw (load-cell t.buckets (home t.buckets.capacity k) high)
        (elim (Bool-cases (g.used_on (home t.buckets.capacity k))) [
          | inr off ↦
              rw (v.layout.free_cells (home t.buckets.capacity k) (v.complete _ high off))
                (put_empty-Placed t g v k w fixed (home t.buckets.capacity k) refl off)
          | inl on ↦
              rw (v.layout.used_cells (home t.buckets.capacity k) on)
                (elim (ℕ_discrete (home t.buckets.capacity (g.key (home t.buckets.capacity k)))
                  (home t.buckets.capacity k)) [
                    | yes own ↦
                        rw
                          (let test : home t.buckets.capacity (g.key (home t.buckets.capacity k))
                                  == home t.buckets.capacity k
                                ≡ true =
                              ground arith in
                            test)
                          (chained fixed (home t.buckets.capacity k) room refl on own)
                    | no guest ↦
                        rw
                          (let test : home t.buckets.capacity (g.key (home t.buckets.capacity k))
                                  == home t.buckets.capacity k
                                ≡ false =
                              ground arith in
                            test)
                          (displaced-room fixed (home t.buckets.capacity k) room refl on guest)
                  ])
        ])
