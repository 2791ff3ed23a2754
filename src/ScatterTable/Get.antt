-- ===== src/ScatterTable/Get.antt =====
-- `get` finds what the table contains.
use mathlib.Core.Bool.{false≢true}
use vrt.Base.{
  ℕ, ◌≢◌, ◌<◌, ◌≤◌, ◌≡◌, refl, true, false, inl, inr, sym, ◌∙◌, ap, Bool-cases, none, Option-cases,
  arith,
}
use vrt.Base.Run.{ok}
use vrt.ScatterTable.Defs.{Key, Table, home, get, Walk, found, last, walk}
use vrt.ScatterTable.Layout.{Plan, load-cell}
use vrt.ScatterTable.Walks.{walk_lem, walk-last_absent, get_loop-walk, answer, Outcome}
use vrt.ScatterTable.Spec.{Valid, contents, contents_iff}

pub home-bound :
    {K : Type 0} ⦃key : Key K⦄ (n : ℕ) (k : K) → 0 < n → (0 < home n k) × (home n k ≤ n)
unfolding home
home-bound n k h = omega arith

module _ {K V : Type 0} ⦃key : Key K⦄ where
  absent-contents :
      (t : Table K V) (g : Plan K V) (v : Valid t g) (k : K)
      → ((i : ℕ) → g.used_on i ≡ true → g.key i ≢ k)
      → contents t k ≡ none
  absent-contents t g v k absent = elim (Option-cases (contents t k)) [
    | inl e ↦ e
    | inr (w, e) ↦ let (i, u, s, _) = (contents_iff t g v k w).0 e in absurd (absent i u s)
  ]

  -- A key with no slot at its home has no slot.
  pub no_home-absent :
      (t : Table K V) (g : Plan K V)
      → Valid t g
      → (k : K) → g.used_on (home t.buckets.capacity k) ≡ false
      → (i : ℕ) → g.used_on i ≡ true
      → g.key i ≢ k
  no_home-absent t g v k off i u e =
      let on = (v.layout.chains i u).on_home in
      false≢true (sym off ∙ ap (λ x. g.used_on (home t.buckets.capacity x)) (sym e) ∙ on)

  answer-contents :
      (t : Table K V) (g : Plan K V) (v : Valid t g) (k : K) (h : ℕ) (w : Walk)
      → Outcome t.buckets g v.layout k h w
      → walk t.buckets.capacity t.buckets k (home t.buckets.capacity k) ≡ ok w
      → contents t k ≡ answer t.buckets g v.layout w
  answer-contents t g v k h (found i) o run =
      (contents_iff t g v k (g.value i)).1 (i, o.0, o.1, refl)
  answer-contents t g v k h (last i) o run =
      absent-contents t g v k (walk-last_absent t.buckets g v.layout k i run)

  -- In a valid table, `get`, which walks one chain, answers what a scan of all slots does.
  pub get-contents :
      (t : Table K V) (g : Plan K V) → Valid t g → (k : K) → get t k ≡ ok (contents t k)
  unfolding get
  get-contents t g v k =
      let (low, high) = home-bound t.buckets.capacity k v.some_slots in
      rw (load-cell t.buckets (home t.buckets.capacity k) high)
        (elim (Bool-cases (g.used_on (home t.buckets.capacity k))) [
          | inl u ↦
              let (w, run, o) = walk_lem t.buckets g v.layout k (home t.buckets.capacity k) u in
              rw (v.layout.used_cells (home t.buckets.capacity k) u) (
                get_loop-walk t.buckets g v.layout t.buckets.capacity (home t.buckets.capacity k) k
                  w u run
                ∙ ap ok (sym (answer-contents t g v k _ w o run)))
          | inr n ↦
              rw (v.layout.free_cells (home t.buckets.capacity k) (v.complete _ high n))
                (ap ok (sym (absent-contents t g v k (no_home-absent t g v k n))))
        ])
