-- ===== src/ScatterTable/Defs/Access.antt =====
-- `get`, `put` up to a rehash and `remove` of the table (vr/vr_common/src/vr/containers/util/chained_scatter_table.h).
use vrt.Base.{
  ℕ, zero, suc, ◌+◌, ◌-◌, ◌%◌, Bool, not, Option, none, some, ltb, ◌==◌, if◌then◌else◌, ◌&&◌,
}
use vrt.Base.Run.{Run, ok, fault, ◌>>=◌, ◌>>◌, assert}
use vrt.ScatterTable.Defs.Slots.{
  Key, free, used, Buckets, Table, load, store, load_used, set_free_next, set_free_prev,
  set_used_next, acquire_free_slot, free_slot,
}

-- The result of walking a chain for a key: the slot that has it, or the chain's last slot.
pub data Walk : Type 0 where
  found last : ℕ → Walk

-- The result of `put` before a retry: the slot of the value and the new table, or a full table.
pub data Put (K V : Type 0) : Type 0 where
  done : ℕ → Table K V → Put K V
  full : Put K V

module _ {K : Type 0} ⦃key : Key K⦄ where
  -- The hash address: `& m_capacity_mask`, the capacity being a power of two, past the sentinel.
  unfoldable pub home : ℕ → K → ℕ
  home capacity k = key.hash k % capacity + 1

module _ {K V : Type 0} ⦃key : Key K⦄ where
  -- The loop of `get`.
  unfoldable pub get_loop : (fuel : ℕ) → Buckets K V → K → ℕ → Run (Option V)
  unfolding load_used
  get_loop zero b k e = fault
  get_loop (suc fuel) b k e = do
    (e_next, e_key, e_value) ← load_used b e
    let rest = get_loop fuel b k e_next
    if key.equal e_key k then ok (some e_value) else (if e_next == 0 then ok none else rest)

  unfoldable pub get : Table K V → K → Run (Option V)
  unfolding home load get_loop
  get t k = do
    let key_haddr = home t.buckets.capacity k
    s ← load t.buckets key_haddr
    elim s [ free p n ↦ ok none | used n j v ↦ get_loop t.buckets.capacity t.buckets k key_haddr ]

  -- The loop of case 2 of `put`.
  unfoldable pub walk : (fuel : ℕ) → Buckets K V → K → ℕ → Run Walk
  unfolding load_used
  walk zero b k ep = fault
  walk (suc fuel) b k ep = do
    (ep_next, ep_key, _) ← load_used b ep
    let rest = walk fuel b k ep_next
    if key.equal ep_key k then ok (found ep) else (if ep_next == 0 then ok (last ep) else rest)

  -- The loop of case 3 of `put`: the predecessor of slot `e` in its chain.
  unfoldable pub find_pred : (fuel : ℕ) → Buckets K V → (e ep : ℕ) → Run ℕ
  unfolding load_used
  find_pred zero b e ep = fault
  find_pred (suc fuel) b e ep = do
    (ep_next, _, _) ← load_used b ep
    let rest = (do assert (ltb 0 ep_next); find_pred fuel b e ep_next)
    if ep_next == e then ok ep else rest

  -- The label `fill_e`.
  unfoldable pub fill : Table K V → Buckets K V → ℕ → K → V → Run (Put K V)
  unfolding store
  fill t b e k v = do
    b' ← store b e (used 0 k v)
    ok (done e (record { size = t.size + 1; buckets = b' }))

  -- Case 1: the home slot is free, and is unlinked from the free list.
  unfoldable pub put_empty : Table K V → (e prev next : ℕ) → K → V → Run (Put K V)
  unfolding set_free_next set_free_prev fill
  put_empty t e prev next k v = do
    b₁ ← set_free_next t.buckets prev next
    b₂ ← set_free_prev b₁ next prev
    fill t b₂ e k v

  -- Case 2: the home slot starts the key's own chain.
  unfoldable pub put_chain : (fixed : Bool) → Table K V → (e : ℕ) → K → V → Run (Put K V)
  unfolding walk load_used store acquire_free_slot set_used_next fill
  put_chain fixed t e k v = do
    w ← walk t.buckets.capacity t.buckets k e
    elim w [
      | found ep ↦ do
        (ep_next, ep_key, _) ← load_used t.buckets ep
        b ← store t.buckets ep (used ep_next ep_key v)
        ok (done ep (record t { buckets = b }))
      | last ep ↦ if not fixed && (t.size == t.buckets.capacity) then ok full else (do
        (slot, b₁) ← acquire_free_slot fixed t.buckets
        b₂ ← set_used_next b₁ ep slot
        fill t b₂ slot k v)
    ]

  -- Case 3: the home slot belongs to the chain of another address, and its content is displaced.
  unfoldable pub put_displace : (fixed : Bool) → Table K V → (e e_haddr : ℕ) → K → V → Run (Put K V)
  unfolding load store acquire_free_slot find_pred set_used_next fill
  put_displace fixed t e e_haddr k v =
      if not fixed && (t.size == t.buckets.capacity) then ok full else (do
        (e_displaced, b₁) ← acquire_free_slot fixed t.buckets
        s ← load b₁ e
        b₂ ← store b₁ e_displaced s
        ep ← find_pred b₂.capacity b₂ e e_haddr
        b₃ ← set_used_next b₂ ep e_displaced
        fill t b₃ e k v)

  -- `put` up to `rehash_and_retry`
  unfoldable pub put_once : (fixed : Bool) → Table K V → K → V → Run (Put K V)
  unfolding home load put_empty put_chain put_displace
  put_once fixed t k v = do
    let key_haddr = home t.buckets.capacity k
    s ← load t.buckets key_haddr
    elim s [
      | free prev next ↦ put_empty t key_haddr prev next k v
      | used next e_key _ ↦
          let e_haddr = home t.buckets.capacity e_key in
          if e_haddr == key_haddr
          then put_chain fixed t key_haddr k v
          else put_displace fixed t key_haddr e_haddr k v
    ]

  -- The loop of `remove_impl`: the slot that has the key, its `_next_` and value, and the slot before
  -- it (itself, if it is the first).
  unfoldable pub remove_loop :
      (fuel : ℕ) → Buckets K V → K → (ep e : ℕ) → Run (Option (ℕ × ℕ × V × ℕ))
  unfolding load_used
  remove_loop zero b k ep e = fault
  remove_loop (suc fuel) b k ep e = do
    (e_next, e_key, e_value) ← load_used b e
    let rest = remove_loop fuel b k e e_next
    if key.equal e_key k
        then ok (some (e, e_next, e_value, ep))
        else (if e_next == 0 then ok none else rest)

  -- The slot that has been found is emptied: its successor moves into it, or its predecessor ends the
  -- chain. The result is the slot to free.
  unfoldable pub unchain : Buckets K V → (e e_next ep : ℕ) → Run (ℕ × Buckets K V)
  unfolding load store set_used_next
  unchain b e e_next ep =
      if e_next == 0
      then (do b' ← (if e == ep then ok b else set_used_next b ep 0); ok (e, b'))
      else (do s ← load b e_next; b' ← store b e s; ok (e_next, b'))

  -- `remove_and_get`; `remove` gives only whether the key was there.
  unfoldable pub remove_and_get : Table K V → K → Run (Option V × Table K V)
  unfolding home load remove_loop unchain free_slot
  remove_and_get t k = do
    let key_haddr = home t.buckets.capacity k
    s ← load t.buckets key_haddr
    elim s [
      | free p n ↦ ok (none, t)
      | used n j v ↦ do
        r ← remove_loop t.buckets.capacity t.buckets k key_haddr key_haddr
        elim r [
          | none ↦ ok (none, t)
          | some (e, e_next, value, ep) ↦ do
            (gone, b₁) ← unchain t.buckets e e_next ep
            b₂ ← free_slot gone b₁
            assert (ltb 0 t.size)
            ok (some value, record { size = t.size - 1; buckets = b₂ })
        ]
    ]
