-- ===== src/SoupTcp/Deliver.antt =====
-- Whatever the segments of a stream are, vr/vr_rt/src/vr/market/rt/asx/execution_link.cpp visits its
-- frames.
use mathlib.Core.List.{append_assoc, append-nil}
use vrt.Base.{
  ℕ, ◌+◌, ◌-◌, ◌≡◌, ◌≤◌, ◌<◌, ◌⊎◌, refl, sym, ap, ◌∙◌, inl, inr, true, false, some, List, [], ◌∷◌,
  ◌++◌, length, length-append, drop, ltb, leb, Bool-cases, All, arith,
}
use vrt.Base.Run.{ok}
use vrt.SoupTcp.Defs.{dispatch_recv}
use vrt.SoupTcp.Link.{Partition, flush}
use vrt.SoupTcp.Frames.{Frame, encode_all, IsFrame, drop-append}
use vrt.SoupTcp.Prefix.{IsPart}
use vrt.SoupTcp.Scan.{meant_all, encode_all-append}
use vrt.SoupTcp.Stream.{Further, Stream, start, Op, segment, release, step, run, received, Tracked}
use vrt.SoupTcp.Poll.{start-Tracked, segment-Tracked}

flush-bound :
    (p : Partition) (bound : ℕ)
    → p.recv_pos_begin < bound
    → bound ≤ p.recv_pos_begin + p.recv_size
    → flush p (some bound)
      ≡ ok (
        record p { recv_pos_begin = bound; recv_size = p.recv_size - (bound - p.recv_pos_begin) },
        bound - p.recv_pos_begin,
      )
unfolding flush
flush-bound p bound lt le =
    let new : ltb p.recv_pos_begin bound ≡ true = ground arith in
    let enough : leb (bound - p.recv_pos_begin) p.recv_size ≡ true = ground arith in
    rw (new, enough) refl

flush-nothing :
    (p : Partition) (bound : ℕ) → bound ≤ p.recv_pos_begin → flush p (some bound) ≡ ok (p, 0)
unfolding flush
flush-nothing p bound le =
    let old : ltb p.recv_pos_begin bound ≡ false = ground arith in rw old refl

nothing_new : (done : List Frame) → Further done done
nothing_new done = ([], tt, sym (append-nil done))

All-append :
    (fs gs : List Frame)
    → All (IsFrame dispatch_recv) fs
    → All (IsFrame dispatch_recv) gs
    → All (IsFrame dispatch_recv) (fs ++ gs)
All-append [] gs h k = k
All-append (f ∷ fs) gs h k = (h.0, All-append fs gs h.1 k)

further : (a b c : List Frame) → Further a b → Further b c → Further a c
further a b c (new, h, e) (new', h', e') =
    (new ++ new', All-append new new' h h', e' ∙ ap (λ fs. fs ++ new') e ∙ append_assoc a new new')

module _ {fs : List Frame} where
  release-Tracked :
      (s : Stream) (k : Tracked fs s) (bound : ℕ)
      → (s' : Stream) × (step (release bound) s ≡ ok s')
        × (k' : Tracked fs s') × (s'.arrived ≡ s.arrived)
        × Further k.done k'.done
  release-Tracked s k bound = elim (Bool-cases (leb bound s.published)) [
    | inr above ↦ (s, rw above refl, k, refl, nothing_new k.done)
    | inl below ↦
        let known : bound ≤ s.published = ground arith in
        elim (Bool-cases (ltb s.part.recv_pos_begin bound)) [
          | inr old ↦ (
            s,
            rw (below, flush-nothing s.part bound (ground arith)) refl,
            k,
            refl,
            nothing_new k.done,
          )
          | inl new ↦
              let lt : s.part.recv_pos_begin < bound = ground arith in
              let total = k.size ∙ ap length k.arrived ∙ length-append (encode_all k.done) k.left in
              (
                record s {
                  part = record (s.part) {
                    recv_pos_begin = bound;
                    recv_size = s.part.recv_size - (bound - s.part.recv_pos_begin);
                  };
                },
                rw (below, flush-bound s.part bound lt (omega (arith, total, known, k.published)))
                    refl,
                record {
                  done = k.done;
                  todo = k.todo;
                  left = k.left;
                  frames = k.frames;
                  arrived = k.arrived;
                  known = k.known;
                  is_part = k.is_part;
                  strict = k.strict;
                  visits = k.visits;
                  published = k.published;
                  size = omega (arith, k.size, total, known, k.published);
                  available = k.available;
                  begin = omega (arith, known, k.published);
                },
                refl,
                nothing_new k.done,
              )
        ]
  ]

  pub run-Tracked :
      (ops : List Op) (s : Stream) (y : List ℕ) (k : Tracked fs s)
      → (s.arrived ++ received ops) ++ y ≡ encode_all fs
      → (s' : Stream) × (run ops s ≡ ok s')
        × (k' : Tracked fs s') × (s'.arrived ≡ s.arrived ++ received ops)
        × Further k.done k'.done
  run-Tracked [] s y k e = (s, refl, k, sym (append-nil s.arrived), nothing_new k.done)
  run-Tracked (segment bytes ∷ ops) s y k e =
      let assoc = append_assoc s.arrived bytes (received ops) in
      let (s₁, run₁, k₁, a₁, f₁) =
        segment-Tracked s k bytes (received ops ++ y) (
          sym (append_assoc (s.arrived ++ bytes) (received ops) y)
          ∙ ap (λ xs. xs ++ y) assoc
          ∙ e) in
      let (s₂, run₂, k₂, a₂, f₂) =
        run-Tracked ops s₁ y k₁
          (ap (λ xs. (xs ++ received ops) ++ y) a₁ ∙ ap (λ xs. xs ++ y) assoc ∙ e) in
      (
        s₂,
        rw run₁ run₂,
        k₂,
        a₂ ∙ ap (λ xs. xs ++ received ops) a₁ ∙ assoc,
        further k.done k₁.done k₂.done f₁ f₂,
      )
  run-Tracked (release bound ∷ ops) s y k e =
      let (s₁, run₁, k₁, a₁, f₁) = release-Tracked s k bound in
      let (s₂, run₂, k₂, a₂, f₂) =
        run-Tracked ops s₁ y k₁ (ap (λ xs. (xs ++ received ops) ++ y) a₁ ∙ e) in
      (
        s₂,
        rw run₁ run₂,
        k₂,
        a₂ ∙ ap (λ xs. xs ++ received ops) a₁,
        further k.done k₁.done k₂.done f₁ f₂,
      )

-- If the bytes of all segments are the beginning of a stream of frames, each of a known type and with
-- a length that fits, then the link takes the segments, with flushes in between, without a fault. It
-- has then visited exactly the frames that have arrived as a whole, in their order, and the published
-- position is their end; what is left is a part of the next frame.
pub run-meant :
    (fs : List Frame) (ops : List Op) (y : List ℕ)
    → All (IsFrame dispatch_recv) fs
    → received ops ++ y ≡ encode_all fs
    → (s : Stream) × (done : List Frame) × (todo : List Frame) × (left : List ℕ) × (run ops start
        ≡ ok s)
      × (fs ≡ done ++ todo)
      × (received ops ≡ encode_all done ++ left)
      × (((todo ≡ []) × (left ≡ [])) ⊎ (length left < length (encode_all todo)))
      × IsPart left
      × (s.visits ≡ meant_all done)
      × (s.published ≡ length (encode_all done))
run-meant fs ops y h e =
    let (s, runs, k, a, _) = run-Tracked ops start y (start-Tracked fs h) e in
    (
      s,
      k.done,
      k.todo,
      k.left,
      runs,
      k.frames,
      sym a ∙ k.arrived,
      k.strict,
      k.is_part,
      k.visits,
      k.published,
    )

-- A stream of frames that has arrived as a whole, in segments of any size and with flushes in between,
-- is visited as a whole: the visits are those that its frames mean, in their order.
pub run-meant_all :
    (fs : List Frame) (ops : List Op)
    → All (IsFrame dispatch_recv) fs
    → received ops ≡ encode_all fs
    → (s : Stream) × (run ops start ≡ ok s) × (s.visits ≡ meant_all fs)
run-meant_all fs ops h e =
    let (s, runs, k, a, _) =
      run-Tracked ops start [] (start-Tracked fs h) (append-nil (received ops) ∙ e) in
    let whole = sym k.arrived ∙ a ∙ e ∙ ap encode_all k.frames ∙ encode_all-append k.done k.todo in
    let left : k.left ≡ encode_all k.todo =
      sym (drop-append (encode_all k.done) k.left)
      ∙ ap (drop (length (encode_all k.done))) whole
      ∙ drop-append (encode_all k.done) (encode_all k.todo) in
    elim k.strict [
      | inl (none_left, _) ↦ (
        s,
        runs,
        k.visits
            ∙ ap meant_all
                (sym (append-nil k.done) ∙ ap (λ fs. k.done ++ fs) (sym none_left) ∙ sym k.frames),
      )
      | inr less ↦ absurd (omega (arith, less, ap length left))
    ]
