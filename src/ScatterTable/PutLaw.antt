-- ===== src/ScatterTable/PutLaw.antt =====
-- What `put` does to the contents, and what it does in a full table.
use native.Mathlib.Decide.{ℕ_discrete}
use vrt.Base.{
  ℕ, suc, ◌≤◌, ◌<◌, ◌≡◌, ◌≢◌, ◌==◌, if◌then◌else◌, refl, Bool, true, false, inl, inr, ◌∙◌, ap,
  Bool-cases, Option, some, arith,
}
use vrt.Base.Run.{Run, ok, throws, capacity_limit}
use vrt.ScatterTable.Defs.{
  update, Key, Slot, Table, home, found, last, walk, Put, full, put_chain, put_displace, put_once,
  acquire_free_slot, put,
}
use vrt.ScatterTable.Layout.{Plan, load-cell, load_free-cell}
use vrt.ScatterTable.Walks.{walk_lem, Outcome}
use vrt.ScatterTable.Spec.{Valid, count-le, count-add, contents, contents_iff, contents_congr}
use vrt.ScatterTable.Put.{Stores, Absent}
use vrt.ScatterTable.PutOnce.{put_once-Placed}
use vrt.ScatterTable.Get.{home-bound}

module _ {K V : Type 0} ⦃key : Key K⦄ where
  abbrev pub with_entry : (K → Option V) → K → V → K → Option V
  with_entry f k w j = if key.equal j k then some w else f j

  pub Stores-contents :
      (t t' : Table K V) (g g' : Plan K V) (k : K) (w : V)
      → Valid t g
      → Valid t' g'
      → Stores g k w g'
      → (j : K) → contents t' j ≡ with_entry (contents t) k w j
  Stores-contents t t' g g' k w v v' (others, this) j = elim (Bool-cases (key.equal j k)) [
    | inl e ↦ rw e (ap (contents t') ((key.equal_iff j k).0 e) ∙ (contents_iff t' g' v' k w).1 this)
    | inr e ↦ rw e (contents_congr t t' g g' v v' j (others j (λ q. ne_lem e q)))
  ]
    where
      ne_lem : key.equal j k ≡ false → j ≢ k
      ne_lem e q = ground (arith, (key.equal_iff j k).1 q, e)

  -- In a valid table with a slot to spare, `put` succeeds without a rehash: the table stays valid,
  -- and its contents are those before with the value at the key.
  pub put-contents :
      (max_capacity : ℕ) (junk : Slot K V) (fixed : Bool) (fuel : ℕ) (t : Table K V) (g : Plan K V)
      → Valid t g
      → t.size < t.buckets.capacity
      → (k : K) (w : V)
      → (e : ℕ) × (t' : Table K V) × (g' : Plan K V) × (put max_capacity junk (suc fuel) fixed t k w
          ≡ ok (e, t'))
        × Valid t' g'
        × ((j : K) → contents t' j ≡ with_entry (contents t) k w j)
  unfolding put
  put-contents max_capacity junk fixed fuel t g v room k w =
      let (e, t', g', run, v', stores, _, _, _) = put_once-Placed t g v k w fixed room in
      (e, t', g', rw run refl, v', Stores-contents t t' g g' k w v v' stores)

  module _ (t : Table K V) (g : Plan K V) (v : Valid t g)
      (full_up : t.size ≡ t.buckets.capacity) where
    none_left : g.nx 0 ≡ 0
    none_left = elim (ℕ_discrete (g.nx 0) 0) [
      | yes z ↦ z
      | no n ↦
          let z = v.layout.ring.each 0 v.layout.ring.sentinel in
          let o = v.layout.ring.each (g.nx 0) z.on_next in
          let off : g.used_on (g.nx 0) ≡ false =
            ground (arith, v.layout.apart (g.nx 0), z.on_next) in
          let a = count-add g.used_on (g.nx 0) t.buckets.capacity off (ground (arith, n)) o.bound in
          let b = count-le (update g.used_on (g.nx 0) true) t.buckets.capacity in
          let c = v.counted in absurd (omega arith)
    ]

    all_used : (i : ℕ) → 0 < i → i ≤ t.buckets.capacity → g.used_on i ≡ true
    all_used i low high = elim (Bool-cases (g.used_on i)) [
      | inl u ↦ u
      | inr off ↦
          let a = count-add g.used_on i t.buckets.capacity off low high in
          let b = count-le (update g.used_on i true) t.buckets.capacity in
          let c = v.counted in absurd (omega arith)
    ]

    acquire-full : acquire_free_slot true t.buckets ≡ throws capacity_limit
    unfolding acquire_free_slot
    acquire-full =
        rw
          (load_free-cell t.buckets 0 (g.pv 0) (g.nx 0) (omega arith)
            (v.layout.free_cells 0 v.layout.ring.sentinel))
          (rw none_left refl)

    abbrev refused : Bool → Run (Put K V)
    refused fixed = if fixed then throws capacity_limit else ok full

    module _ (k : K) (w : V) (absent : Absent g k) where
      ends :
          (fixed : Bool) (e ep : ℕ)
          → walk t.buckets.capacity t.buckets k e ≡ ok (last ep)
          → put_chain fixed t e k w ≡ refused fixed
      unfolding put_chain
      ends true e ep run = rw run (rw acquire-full refl)
      ends false e ep run =
          let test : (t.size == t.buckets.capacity) ≡ true = ground arith in rw run (rw test refl)

      put_chain-full :
          (fixed : Bool) (e : ℕ) → g.used_on e ≡ true → put_chain fixed t e k w ≡ refused fixed
      put_chain-full fixed e on =
          let (o, run, out) = walk_lem t.buckets g v.layout k e on in
          elim o
              as (λ o.
                walk t.buckets.capacity t.buckets k e ≡ ok o
                → Outcome t.buckets g v.layout k (home t.buckets.capacity (g.key e)) o
                → put_chain fixed t e k w ≡ refused fixed) [
                  | found ep ↦ λ run out. absurd (absent ep out.0 out.1)
                  | last ep ↦ λ run out. ends fixed e ep run
                ]
            run out

      put_displace-full : (fixed : Bool) (e h : ℕ) → put_displace fixed t e h k w ≡ refused fixed
      unfolding put_displace
      put_displace-full true e h = rw acquire-full refl
      put_displace-full false e h =
          let test : (t.size == t.buckets.capacity) ≡ true = ground arith in rw test refl

      -- A new key in a valid table that is full: one of fixed capacity throws, and the other asks for a
      -- rehash.
      pub put_once-full :
          (fixed : Bool) → put_once fixed t k w ≡ (if fixed then throws capacity_limit else ok full)
      unfolding put_once
      put_once-full fixed =
          let (low, high) = home-bound t.buckets.capacity k v.some_slots in
          let on = all_used (home t.buckets.capacity k) low high in
          rw (load-cell t.buckets (home t.buckets.capacity k) high) (
            rw (v.layout.used_cells (home t.buckets.capacity k) on)
              (elim (Bool-cases (
                home t.buckets.capacity (g.key (home t.buckets.capacity k))
                == home t.buckets.capacity k)) [
                  | inl own ↦ rw own (put_chain-full fixed (home t.buckets.capacity k) on)
                  | inr guest ↦ rw guest (
                      put_displace-full fixed (home t.buckets.capacity k)
                        (home t.buckets.capacity (g.key (home t.buckets.capacity k))))
                ]))
