-- ===== src/SoupTcp/Reader.antt =====
-- A reader of the execution link, vr/vr_rt/src/vr/market/rt/agents/asx/execution_manager.h, makes the visits
-- that the link makes.
use mathlib.Core.List.{append_assoc, append-nil}
use vrt.Base.{
  ℕ, zero, suc, ◌+◌, ◌-◌, ◌≡◌, ◌≤◌, ◌<◌, refl, sym, ap, ◌∙◌, true, false, some, List, [], ◌∷◌, ◌++◌,
  length, length-append, take, drop, ltb, leb, ◌==◌, All, arith,
}
use vrt.Base.Int.{pos}
use vrt.Base.Run.{ok}
use vrt.SoupTcp.Defs.{Visit, dispatch_recv, consume_recv}
use vrt.SoupTcp.Link.{read_all, update}
use vrt.SoupTcp.Frames.{Frame, encode, encode_all, IsFrame, consume-encode, drop-append}
use vrt.SoupTcp.Scan.{
  meant_all, meant-known, meant_all-append, encode_all-append, consume_recv-consume,
}
use vrt.SoupTcp.Stream.{Stream, start, Op, run, received}
use vrt.SoupTcp.Poll.{start-Tracked}
use vrt.SoupTcp.Deliver.{run-Tracked}

read_all-last :
    (n k : ℕ) (bytes : List ℕ) (v : Visit)
    → consume_recv 0 bytes ≡ ok (pos k, some v)
    → drop k bytes ≡ []
    → read_all (suc n) bytes ≡ ok (k, v ∷ [])
unfolding read_all
read_all-last n k bytes v first after = rw first (rw after refl)

read_all-more :
    (n k : ℕ) (bytes rest : List ℕ) (v : Visit) (m : ℕ) (vs : List Visit)
    → consume_recv 0 bytes ≡ ok (pos k, some v)
    → drop k bytes ≡ rest
    → 3 ≤ length rest
    → read_all n rest ≡ ok (m, vs)
    → read_all (suc n) bytes ≡ ok (k + m, v ∷ vs)
unfolding read_all
read_all-more n k bytes rest v m vs first after h others =
    let more : leb 3 (length rest) ≡ true = ground arith in
    rw first (rw after (rw (more, others) refl))

consume-first :
    (f : Frame) (v : Visit) (rest : List ℕ)
    → IsFrame dispatch_recv f
    → dispatch_recv f.type f.body ≡ ok v
    → consume_recv 0 (encode f ++ rest) ≡ ok (pos (3 + length f.body), some v)
consume-first f v rest (short, _, _) known =
    consume_recv-consume (encode f ++ rest) ∙ consume-encode dispatch_recv f short v rest known

drop-first : (f : Frame) (rest : List ℕ) → drop (3 + length f.body) (encode f ++ rest) ≡ rest
drop-first f rest =
    let e : 3 + length f.body ≡ length (encode f) = omega arith in
    rw e (drop-append (encode f) rest)

-- A whole number of frames is read to its end.
read_all-encode :
    (f : Frame) (fs : List Frame) (n : ℕ)
    → All (IsFrame dispatch_recv) (f ∷ fs)
    → length (encode_all (f ∷ fs)) < n
    → read_all n (encode_all (f ∷ fs)) ≡ ok (length (encode_all (f ∷ fs)), meant_all (f ∷ fs))
read_all-encode f fs zero h lt = absurd (omega arith)
read_all-encode f [] (suc n) ((short, v, known), _) lt =
    read_all-last n (3 + length f.body) (encode f ++ []) v
      (consume-first f v [] (short, v, known) known) (drop-first f [])
    ∙ ap (λ k. ok (k, v ∷ [])) (omega (arith, length-append (encode f) []))
    ∙ ap (λ vs. ok (length (encode f ++ []), vs ++ [])) (sym (meant-known f v known))
read_all-encode f (g ∷ fs) (suc n) ((short, v, known), h) lt =
    let size = length-append (encode f) (encode_all (g ∷ fs)) in
    let ih = read_all-encode g fs n h (omega arith) in
    read_all-more n (3 + length f.body) (encode_all (f ∷ g ∷ fs)) (encode_all (g ∷ fs)) v
      (length (encode_all (g ∷ fs))) (meant_all (g ∷ fs))
      (consume-first f v (encode_all (g ∷ fs)) (short, v, known) known)
      (drop-first f (encode_all (g ∷ fs))) (omega arith) ih
    ∙ ap (λ k. ok (k, v ∷ meant_all (g ∷ fs))) (omega (arith, size))
    ∙ ap (λ vs. ok (length (encode_all (f ∷ g ∷ fs)), vs ++ meant_all (g ∷ fs)))
        (sym (meant-known f v known))

update-idle :
    (position : ℕ) (bytes : List ℕ)
    → length bytes ≡ position
    → update position bytes ≡ ok (position, [])
unfolding update
update-idle position bytes e =
    let none_new : ltb 0 (length bytes - position) ≡ false = ground arith in rw none_new refl

update-new :
    (position : ℕ) (bytes rest : List ℕ) (visits : List Visit)
    → drop position bytes ≡ rest
    → length bytes ≡ position + length rest
    → 3 ≤ length rest
    → read_all (suc (length rest)) rest ≡ ok (length rest, visits)
    → update position bytes ≡ ok (position + length rest, visits)
unfolding update
update-new position bytes rest visits here size h reads =
    let available : length bytes - position ≡ length rest = omega arith in
    let new : ltb 0 (length rest) ≡ true = ground arith in
    let enough : leb 3 (length rest) ≡ true = ground arith in
    let whole : length rest == length rest ≡ true = ground arith in
    rw (available, here) (rw (new, enough) (rw reads (rw whole refl)))

-- From the end of frames that are read, a reader reads the ones that follow.
update-meant :
    (old new : List Frame)
    → All (IsFrame dispatch_recv) new
    → update (length (encode_all old)) (encode_all (old ++ new))
      ≡ ok (length (encode_all (old ++ new)), meant_all new)
update-meant old [] h =
    let same = ap encode_all (append-nil old) in
    ap (update (length (encode_all old))) same
    ∙ update-idle (length (encode_all old)) (encode_all old) refl
    ∙ ap (λ xs. ok (length xs, [])) (sym same)
update-meant old (f ∷ fs) h =
    let joined = encode_all-append old (f ∷ fs) in
    let size = ap length joined ∙ length-append (encode_all old) (encode_all (f ∷ fs)) in
    update-new (length (encode_all old)) (encode_all (old ++ (f ∷ fs))) (encode_all (f ∷ fs))
      (meant_all (f ∷ fs))
      (ap (drop (length (encode_all old))) joined
        ∙ drop-append (encode_all old) (encode_all (f ∷ fs)))
      size (omega arith) (read_all-encode f fs (suc (length (encode_all (f ∷ fs)))) h (omega arith))
    ∙ ap (λ n. ok (n, meant_all (f ∷ fs))) (sym size)

take-append : (xs ys : List ℕ) → take (length xs) (xs ++ ys) ≡ xs
take-append [] ys = refl
take-append (x ∷ xs) ys = ap (λ zs. x ∷ zs) (take-append xs ys)

-- The bytes of all segments are the beginning of a stream of frames, each of a known type and with a
-- length that fits. A reader that has read up to the position published after the first segments and
-- flushes, and polls after the second ones, makes exactly the visits that the link made in between,
-- without a fault, and is then at the position published last.
pub run-update :
    (fs : List Frame) (first second : List Op) (y : List ℕ)
    → All (IsFrame dispatch_recv) fs
    → (received first ++ received second) ++ y ≡ encode_all fs
    → (s₁ : Stream) × (s₂ : Stream) × (visits : List Visit) × (run first start ≡ ok s₁)
      × (run second s₁ ≡ ok s₂)
      × (s₂.visits ≡ s₁.visits ++ visits)
      × (update s₁.published (take s₂.published s₂.arrived) ≡ ok (s₂.published, visits))
run-update fs first second y h e =
    let (s₁, run₁, k₁, a₁, _) =
      run-Tracked first start (received second ++ y) (start-Tracked fs h)
        (sym (append_assoc (received first) (received second) y) ∙ e) in
    let (s₂, run₂, k₂, a₂, (new, known, more)) =
      run-Tracked second s₁ y k₁ (ap (λ xs. (xs ++ received second) ++ y) a₁ ∙ e) in
    let end : take s₂.published s₂.arrived ≡ encode_all (k₁.done ++ new) =
      ap (λ n. take n s₂.arrived) k₂.published
      ∙ ap (take (length (encode_all k₂.done))) k₂.arrived
      ∙ take-append (encode_all k₂.done) k₂.left
      ∙ ap encode_all more in
    (
      s₁,
      s₂,
      meant_all new,
      run₁,
      run₂,
      k₂.visits
          ∙ ap meant_all more
          ∙ meant_all-append k₁.done new
          ∙ ap (λ vs. vs ++ meant_all new) (sym k₁.visits),
      ap (λ n. update n (take s₂.published s₂.arrived)) k₁.published
          ∙ ap (update (length (encode_all k₁.done))) end
          ∙ update-meant k₁.done new known
          ∙ ap (λ fs. ok (length (encode_all fs), meant_all new)) (sym more)
          ∙ ap (λ n. ok (n, meant_all new)) (sym k₂.published),
    )
