-- ===== src/SoupTcp/Poll.antt =====
-- A segment that arrives in the middle of a stream.
use mathlib.Core.List.{append_assoc, append-nil}
use vrt.Base.{
  ℕ, zero, suc, ◌+◌, ◌-◌, ◌≡◌, ◌≤◌, ◌<◌, ◌⊎◌, refl, sym, ap, ◌∙◌, inl, inr, true, false, Option,
  none, some, List, [], ◌∷◌, ◌++◌, length, length-append, length-drop, drop, ltb, leb, Bool-cases,
  if◌then◌else◌, All, arith,
}
use vrt.Base.Run.{ok}
use vrt.SoupTcp.Defs.{Visit, dispatch_recv}
use vrt.SoupTcp.Link.{Partition, receive, scan}
use vrt.SoupTcp.Frames.{Frame, encode_all, IsFrame, drop-append}
use vrt.SoupTcp.Prefix.{[]-IsPart, split-prefix}
use vrt.SoupTcp.Scan.{meant_all, meant_all-append, encode_all-append, scan-encode}
use vrt.SoupTcp.Stream.{Further, Stream, start, segment, step, Tracked}

drop-nil : (n : ℕ) → drop {A = ℕ} n [] ≡ []
drop-nil zero = refl
drop-nil (suc n) = refl

drop-drop : (m n : ℕ) (xs : List ℕ) → drop m (drop n xs) ≡ drop (n + m) xs
drop-drop m zero xs = let e : 0 + m ≡ m = omega arith in rw e refl
drop-drop m (suc n) [] = drop-nil m ∙ sym (drop-nil (suc n + m))
drop-drop m (suc n) (x ∷ xs) =
    let e : suc n + m ≡ suc (n + m) = omega arith in rw e (drop-drop m n xs)

pub start-Tracked : (fs : List Frame) → All (IsFrame dispatch_recv) fs → Tracked fs start
start-Tracked fs h = record {
  done = [];
  todo = fs;
  left = [];
  frames = refl;
  arrived = refl;
  known = h;
  is_part = []-IsPart;
  strict = nothing_yet fs;
  visits = refl;
  published = refl;
  size = refl;
  available = refl;
  begin = omega arith;
}
  where
    nothing_yet :
        (fs : List Frame) → ((fs ≡ []) × (◌≡◌ {A = List ℕ} [] [])) ⊎ (0 < length (encode_all fs))
    nothing_yet [] = inl (refl, refl)
    nothing_yet (f ∷ fs) = inr (omega arith)

-- A poll with new bytes parses from where the last one stopped.
receive-scan :
    (p : Partition) (polled bytes : List ℕ) (parsed : ℕ) (visits : List Visit)
    → p.recv_size < length polled
    → p.recv_available ≤ p.recv_size
    → drop (p.recv_size - p.recv_available) polled ≡ bytes
    → scan (suc (length bytes)) bytes ≡ ok (parsed, visits)
    → receive p polled
      ≡ ok (
        record p { recv_size = length polled; recv_available = length bytes - parsed },
        visits,
        (if ltb 0 parsed
            then some (p.recv_pos_begin + parsed + (p.recv_size - p.recv_available))
            else none),
      )
unfolding receive
receive-scan p polled bytes parsed visits more in_size here scanned =
    let new : ltb p.recv_size (length polled) ≡ true = ground arith in
    let sound : leb p.recv_available p.recv_size ≡ true = ground arith in
    rw (new, sound) (rw here (rw scanned refl))

receive-idle :
    (p : Partition) (polled : List ℕ)
    → length polled ≤ p.recv_size
    → receive p polled ≡ ok (p, [], none)
unfolding receive
receive-idle p polled h =
    let old : ltb p.recv_size (length polled) ≡ false = ground arith in rw old refl

module _ {fs : List Frame} (s : Stream) (k : Tracked fs s) where
  abbrev begin : ℕ
  begin = s.part.recv_pos_begin

  counted : begin + s.part.recv_size ≡ length (encode_all k.done) + length k.left
  counted = k.size ∙ ap length k.arrived ∙ length-append (encode_all k.done) k.left

  -- What is not yet parsed starts at the same place of the link's bytes.
  unparsed :
      (bytes : List ℕ)
      → drop (s.part.recv_size - s.part.recv_available) (drop begin (s.arrived ++ bytes))
        ≡ k.left ++ bytes
  unparsed bytes =
      let at_end : begin + (s.part.recv_size - s.part.recv_available) ≡ length (encode_all k.done) =
        omega (arith, counted, k.available, k.begin) in
      drop-drop (s.part.recv_size - s.part.recv_available) begin (s.arrived ++ bytes)
      ∙ ap (λ n. drop n (s.arrived ++ bytes)) at_end
      ∙ ap (λ xs. drop (length (encode_all k.done)) (xs ++ bytes)) k.arrived
      ∙ ap (drop (length (encode_all k.done))) (append_assoc (encode_all k.done) k.left bytes)
      ∙ drop-append (encode_all k.done) (k.left ++ bytes)

  module _ (bytes y : List ℕ) (stream : (s.arrived ++ bytes) ++ y ≡ encode_all fs) where
    -- The rest of the stream.
    rest_of_stream : (k.left ++ bytes) ++ y ≡ encode_all k.todo
    rest_of_stream =
        let left = sym (drop-append (encode_all k.done) ((k.left ++ bytes) ++ y)) in
        let whole : encode_all k.done ++ ((k.left ++ bytes) ++ y)
            ≡ encode_all k.done ++ encode_all k.todo =
          sym (append_assoc (encode_all k.done) (k.left ++ bytes) y)
          ∙ ap (λ xs. xs ++ y) (sym (append_assoc (encode_all k.done) k.left bytes))
          ∙ ap (λ xs. (xs ++ bytes) ++ y) (sym k.arrived)
          ∙ stream
          ∙ ap encode_all k.frames
          ∙ encode_all-append k.done k.todo in
        left
        ∙ ap (drop (length (encode_all k.done))) whole
        ∙ drop-append (encode_all k.done) (encode_all k.todo)

  -- The partition after a poll that has parsed `parsed` of `unread` bytes, and the position it publishes.
  abbrev polled_part : ℕ → (unread parsed : ℕ) → Partition
  polled_part total unread parsed = record (s.part) {
    recv_size = total;
    recv_available = unread - parsed;
  }

  abbrev position : ℕ → Option ℕ
  position parsed =
      if ltb 0 parsed
      then some (begin + parsed + (s.part.recv_size - s.part.recv_available))
      else none

  pub segment-Tracked :
      (bytes y : List ℕ)
      → (s.arrived ++ bytes) ++ y ≡ encode_all fs
      → (s' : Stream) × (step (segment bytes) s ≡ ok s')
        × (k' : Tracked fs s') × (s'.arrived ≡ s.arrived ++ bytes)
        × Further k.done k'.done
  segment-Tracked [] y stream =
      let nothing = append-nil s.arrived in
      let polled : length (drop begin (s.arrived ++ [])) ≤ s.part.recv_size =
        omega (arith, length-drop begin (s.arrived ++ []), ap length nothing, k.size) in
      (
        record s { arrived = s.arrived ++ []; visits = s.visits ++ [] },
        rw (receive-idle s.part (drop begin (s.arrived ++ [])) polled) refl,
        record {
          done = k.done;
          todo = k.todo;
          left = k.left;
          frames = k.frames;
          arrived = nothing ∙ k.arrived;
          known = k.known;
          is_part = k.is_part;
          strict = k.strict;
          visits = append-nil s.visits ∙ k.visits;
          published = k.published;
          size = k.size ∙ ap length (sym nothing);
          available = k.available;
          begin = k.begin;
        },
        refl,
        ([], tt, sym (append-nil k.done)),
      )
  segment-Tracked (b ∷ bs) y stream =
      let bytes = b ∷ bs in
      let (done, todo, p, ef, ex, ep, hd, ht, part, strict) =
        split-prefix dispatch_recv k.todo (k.left ++ bytes) y k.known
          (rest_of_stream bytes y stream) in
      let unread = k.left ++ bytes in
      let polled = drop begin (s.arrived ++ bytes) in
      let size : length polled ≡ length s.arrived + length bytes - begin =
        omega (arith, length-drop begin (s.arrived ++ bytes), length-append s.arrived bytes) in
      let unread_size : length unread ≡ length (encode_all done) + length p =
        ap length ex ∙ length-append (encode_all done) p in
      let scanned =
        ap (λ x. scan (suc (length x)) x) ex
        ∙ scan-encode done p (suc (length (encode_all done ++ p))) hd part (omega arith) in
      let all_done = length-append (encode_all k.done) (encode_all done) in
      let joined = ap length (encode_all-append k.done done) in
      let run_receive =
        receive-scan s.part polled unread (length (encode_all done)) (meant_all done)
          (omega (arith, size, k.size)) (omega (arith, counted, k.available, k.begin))
          (unparsed bytes) scanned in
      (
        record {
          part = polled_part (length polled) (length unread) (length (encode_all done));
          arrived = s.arrived ++ bytes;
          visits = s.visits ++ meant_all done;
          published = elim (position (length (encode_all done))) [
            | none ↦ s.published
            | some n ↦ n
          ];
        },
        rw run_receive refl,
        record {
          done = k.done ++ done;
          todo = todo;
          left = p;
          frames = k.frames ∙ ap (λ fs. k.done ++ fs) ef ∙ sym (append_assoc k.done done todo);
          arrived =
              ap (λ xs. xs ++ bytes) k.arrived
              ∙ append_assoc (encode_all k.done) k.left bytes
              ∙ ap (λ xs. encode_all k.done ++ xs) ex
              ∙ sym (append_assoc (encode_all k.done) (encode_all done) p)
              ∙ ap (λ xs. xs ++ p) (sym (encode_all-append k.done done));
          known = ht;
          is_part = part;
          strict = strict;
          visits = ap (λ vs. vs ++ meant_all done) k.visits ∙ sym (meant_all-append k.done done);
          published = elim (Bool-cases (ltb 0 (length (encode_all done)))) [
            | inl t ↦ rw t (omega (arith, counted, k.available, k.begin, all_done, joined))
            | inr t ↦
                let none_new : length (encode_all done) ≡ 0 = ground arith in
                rw t (omega (arith, none_new, k.published, all_done, joined))
          ];
          size = omega (arith, size, k.size, counted, length-append s.arrived bytes);
          available = omega (arith, unread_size);
          begin = omega (arith, k.begin, all_done, joined);
        },
        refl,
        (done, hd, refl),
      )
