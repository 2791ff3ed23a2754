-- ===== src/SpscBuffer/Inv.antt =====
-- The order of the positions of vr/vr_common/src/vr/mc/lf_spsc_buffer.h, in every reachable state.
use vrt.Base.{
  ℕ, Bool, ◌+◌, ◌⊎◌, ◌||◌, ◌≡◌, ◌≤◌, ◌<◌, none≢some, some-injective, refl, sym, ap, ◌∙◌, inl, inr,
  true, false, none, some, List, leb, Bool-cases, not, ◌&&◌, arith,
}
use vrt.Base.Run.{ok, ok-injective, fault≢ok}
use vrt.SpscBuffer.Defs.{
  Buffer, DequeueResult, EnqueueResult, new, try_dequeue, try_enqueue, release_dequeue,
  release_enqueue, commit, set_value, write, enqueue_line,
}
use vrt.SpscBuffer.System.{
  System, Event, Step, Reach, start, begin_enqueue, write_value, commit_value, end_enqueue,
  begin_dequeue, end_dequeue, here, next,
}

-- Each thread's copy of the other's position lags, the ring has at most `cap` values, and a valid
-- result has a slot, or a value, of its own.
pub record Ordered {T : Type 0} (cap : ℕ) (s : System T) : Type 0 where
  pub seen : s.buffer.c_ctx.c_position ≤ s.buffer.c_ctx.p_local
  pub published : s.buffer.c_ctx.p_local ≤ s.buffer.p_ctx.p_position
  pub behind : s.buffer.p_ctx.c_local ≤ s.buffer.c_ctx.c_position
  pub room : s.buffer.p_ctx.p_position ≤ s.buffer.p_ctx.c_local + cap
  pub may_write :
      (r : EnqueueResult)
      → s.producer ≡ some r
      → r.invalid ≡ false
      → s.buffer.p_ctx.p_position < s.buffer.p_ctx.c_local + cap
  pub may_read :
      (r : DequeueResult)
      → s.consumer ≡ some r
      → r.invalid ≡ false
      → s.buffer.c_ctx.c_position < s.buffer.c_ctx.p_local

commit-eq_ok :
    (r r' : EnqueueResult)
    → commit r ≡ ok r'
    → (r' ≡ record { invalid = false; commit = true }) × (r.invalid ≡ false)
unfolding commit
commit-eq_ok r r' e = elim (Bool-cases r.invalid) [
  | inl t ↦ absurd (fault≢ok (rw t at e))
  | inr f ↦ (sym (ok-injective (rw f at e)), f)
]

module _ {T : Type 0} where
  -- The result of `try_enqueue` is valid with or without a new look at the consumer's position, or is
  -- invalid after one.
  pub try_enqueue-cases :
      (cap loaded : ℕ) (b : Buffer T)
      → ((try_enqueue cap loaded b ≡ (record { invalid = false; commit = false }, b))
          × (b.p_ctx.p_position < b.p_ctx.c_local + cap))
        ⊎ ((i : Bool) × (try_enqueue cap loaded b ≡ (
          record { invalid = i; commit = false },
          record b { p_ctx = record (b.p_ctx) { c_local = loaded } },
        ))
            × (leb (loaded + cap) b.p_ctx.p_position ≡ i)
            × (b.p_ctx.c_local + cap ≤ b.p_ctx.p_position))
  unfolding try_enqueue
  try_enqueue-cases cap loaded b =
      elim (Bool-cases (leb (b.p_ctx.c_local + cap) b.p_ctx.p_position)) [
        | inl e ↦ inr (leb (loaded + cap) b.p_ctx.p_position, rw e refl, refl, ground arith)
        | inr e ↦ inl (rw e refl, ground arith)
      ]

  pub try_dequeue-cases :
      (loaded : ℕ) (b : Buffer T)
      → ((try_dequeue loaded b ≡ (record { invalid = false }, b))
          × (b.c_ctx.c_position < b.c_ctx.p_local))
        ⊎ ((i : Bool) × (try_dequeue loaded b ≡ (
          record { invalid = i },
          record b { c_ctx = record (b.c_ctx) { p_local = loaded } },
        ))
            × (leb loaded b.c_ctx.c_position ≡ i)
            × (b.c_ctx.p_local ≤ b.c_ctx.c_position))
  unfolding try_dequeue
  try_dequeue-cases loaded b = elim (Bool-cases (leb b.c_ctx.p_local b.c_ctx.c_position)) [
    | inl e ↦ inr (leb loaded b.c_ctx.c_position, rw e refl, refl, ground arith)
    | inr e ↦ inl (rw e refl, ground arith)
  ]

  begun_enqueue :
      (cap loaded : ℕ) (s : System T)
      → s.buffer.p_ctx.c_local ≤ loaded
      → loaded ≤ s.buffer.c_ctx.c_position
      → Ordered cap s
      → Ordered cap (record s {
        buffer = (try_enqueue cap loaded s.buffer).1;
        producer = some (try_enqueue cap loaded s.buffer).0;
      })
  begun_enqueue cap loaded s old now o = elim (try_enqueue-cases cap loaded s.buffer) [
    | inl (e, lt) ↦ rw e (record {
      seen = o.seen;
      published = o.published;
      behind = o.behind;
      room = o.room;
      may_write = λ r q valid. lt;
      may_read = o.may_read;
    })
    | inr (i, e, test, le) ↦ rw e (record {
      seen = o.seen;
      published = o.published;
      behind = now;
      room = omega (arith, o.room, old);
      may_write = λ r q valid.
          let none_full : i ≡ false = ap (λ r. r.invalid) (some-injective q) ∙ valid in
          ground (arith, none_full, test);
      may_read = o.may_read;
    })
  ]

  begun_dequeue :
      (cap loaded : ℕ) (s : System T)
      → s.buffer.c_ctx.p_local ≤ loaded
      → loaded ≤ s.buffer.p_ctx.p_position
      → Ordered cap s
      → Ordered cap (record s {
        buffer = (try_dequeue loaded s.buffer).1;
        consumer = some (try_dequeue loaded s.buffer).0;
      })
  begun_dequeue cap loaded s old now o = elim (try_dequeue-cases loaded s.buffer) [
    | inl (e, lt) ↦ rw e (record {
      seen = o.seen;
      published = o.published;
      behind = o.behind;
      room = o.room;
      may_write = o.may_write;
      may_read = λ r q valid. lt;
    })
    | inr (i, e, test, le) ↦ rw e (record {
      seen = omega (arith, o.seen, old);
      published = now;
      behind = o.behind;
      room = o.room;
      may_write = o.may_write;
      may_read = λ r q valid.
          let some_left : i ≡ false = ap (λ r. r.invalid) (some-injective q) ∙ valid in
          ground (arith, some_left, test);
    })
  ]

  -- A write or a `commit` leaves the positions, and the result as valid as it was.
  ended_enqueue :
      (cap : ℕ) (s : System T) (r : EnqueueResult)
      → s.producer ≡ some r
      → Ordered cap s
      → Ordered cap (record s { buffer = release_enqueue r s.buffer; producer = none })
  unfolding release_enqueue
  ended_enqueue cap s r e o = elim (Bool-cases (r.commit && not r.invalid)) [
    | inl t ↦
        let valid : r.invalid ≡ false = ground (arith, t) in
        rw t (record {
          seen = o.seen;
          published = omega (arith, o.published);
          behind = o.behind;
          room = omega (arith, o.may_write r e valid);
          may_write = λ r q. absurd (none≢some refl q);
          may_read = o.may_read;
        })
    | inr f ↦ rw f (record {
      seen = o.seen;
      published = o.published;
      behind = o.behind;
      room = o.room;
      may_write = λ r q. absurd (none≢some refl q);
      may_read = o.may_read;
    })
  ]

  ended_dequeue :
      (cap : ℕ) (s : System T) (r : DequeueResult)
      → s.consumer ≡ some r
      → Ordered cap s
      → Ordered cap (record s { buffer = release_dequeue r s.buffer; consumer = none })
  unfolding release_dequeue
  ended_dequeue cap s r e o = elim (Bool-cases r.invalid) [
    | inl t ↦ rw t (record {
      seen = o.seen;
      published = o.published;
      behind = o.behind;
      room = o.room;
      may_write = o.may_write;
      may_read = λ r q. absurd (none≢some refl q);
    })
    | inr f ↦ rw f (record {
      seen = omega (arith, o.may_read r e f);
      published = o.published;
      behind = omega (arith, o.behind);
      room = o.room;
      may_write = o.may_write;
      may_read = λ r q. absurd (none≢some refl q);
    })
  ]

  pub set_value-eq_ok :
      (cap : ℕ) (r : EnqueueResult) (v : T) (b b' : Buffer T)
      → set_value cap r v b ≡ ok b'
      → (b' ≡ record b { lines = write (b.lines) (enqueue_line cap b) v }) × (r.invalid ≡ false)
  unfolding set_value
  set_value-eq_ok cap r v b b' e = elim (Bool-cases (r.invalid || r.commit)) [
    | inl t ↦ absurd (fault≢ok (rw t at e))
    | inr f ↦ (sym (ok-injective (rw f at e)), ground (arith, f))
  ]

  -- Every step of the two threads keeps the order of the positions.
  pub Step-Ordered :
      {cap : ℕ} {s t : System T} {e : Event T} → Step cap s e t → Ordered cap s → Ordered cap t
  Step-Ordered {cap} {s} (begin_enqueue loaded old now idle) o =
      begun_enqueue cap loaded s old now o
  Step-Ordered {cap} {s} (begin_dequeue loaded old now idle) o =
      begun_dequeue cap loaded s old now o
  Step-Ordered {cap} {s} (end_enqueue r e) o = ended_enqueue cap s r e o
  Step-Ordered {cap} {s} (end_dequeue r e) o = ended_dequeue cap s r e o
  Step-Ordered {cap} {s} (write_value r v b e run) o =
      let (same, _) = set_value-eq_ok cap r v s.buffer b run in
      rw same (record {
        seen = o.seen;
        published = o.published;
        behind = o.behind;
        room = o.room;
        may_write = o.may_write;
        may_read = o.may_read;
      })
  Step-Ordered {cap} {s} (commit_value r r' e run) o =
      let (_, valid) = commit-eq_ok r r' run in
      record {
        seen = o.seen;
        published = o.published;
        behind = o.behind;
        room = o.room;
        may_write = λ r₁ q v. o.may_write r e valid;
        may_read = o.may_read;
      }

  start-Ordered : (cap : ℕ) (initial : T) → Ordered cap (start cap initial)
  unfolding new
  start-Ordered cap initial = record {
    seen = omega arith;
    published = omega arith;
    behind = omega arith;
    room = omega arith;
    may_write = λ r q. absurd (none≢some refl q);
    may_read = λ r q. absurd (none≢some refl q);
  }

  -- In every state that the threads reach, the positions are in order.
  pub Reach-Ordered :
      {cap : ℕ} {initial : T} {es : List (Event T)} {s : System T}
      → Reach cap initial es s
      → Ordered cap s
  Reach-Ordered {cap} {initial} here = start-Ordered cap initial
  Reach-Ordered (next r st) = Step-Ordered st (Reach-Ordered r)
