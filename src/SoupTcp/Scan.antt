-- ===== src/SoupTcp/Scan.antt =====
-- The loop of vr/vr_rt/src/vr/market/rt/asx/execution_link.cpp over the frames of a stream.
use mathlib.Core.List.{append_assoc}
use vrt.Base.{
  ℕ, zero, suc, ◌+◌, ◌≡◌, ◌≤◌, ◌<◌, refl, sym, ap, ◌∙◌, inl, inr, true, some, List, [], ◌∷◌, ◌++◌,
  length, length-append, drop, leb, Bool-cases, All, arith,
}
use vrt.Base.Int.{pos}
use vrt.Base.Run.{ok, throws, fault}
use vrt.SoupTcp.Defs.{Visit, dispatch_recv, consume, consume_recv}
use vrt.SoupTcp.Link.{scan}
use vrt.SoupTcp.Frames.{
  Frame, encode, encode_all, IsFrame, consume-encode, consume-partial, drop-append,
}
use vrt.SoupTcp.Prefix.{IsPart}

-- The visits that frames are for.
abbrev pub meant : Frame → List Visit
meant f = elim (dispatch_recv f.type f.body) [ ok v ↦ v ∷ [] | throws e ↦ [] | fault ↦ [] ]

abbrev pub meant_all : List Frame → List Visit
meant_all [] = []
meant_all (f ∷ fs) = meant f ++ meant_all fs

pub meant_all-append : (fs gs : List Frame) → meant_all (fs ++ gs) ≡ meant_all fs ++ meant_all gs
meant_all-append [] gs = refl
meant_all-append (f ∷ fs) gs =
    ap (λ vs. meant f ++ vs) (meant_all-append fs gs)
    ∙ sym (append_assoc (meant f) (meant_all fs) (meant_all gs))

pub encode_all-append :
    (fs gs : List Frame) → encode_all (fs ++ gs) ≡ encode_all fs ++ encode_all gs
encode_all-append [] gs = refl
encode_all-append (f ∷ fs) gs =
    ap (λ bytes. encode f ++ bytes) (encode_all-append fs gs)
    ∙ sym (append_assoc (encode f) (encode_all fs) (encode_all gs))

pub consume_recv-consume : (bytes : List ℕ) → consume_recv 0 bytes ≡ consume dispatch_recv 0 bytes
unfolding consume_recv
consume_recv-consume bytes = refl

pub meant-known : (f : Frame) (v : Visit) → dispatch_recv f.type f.body ≡ ok v → meant f ≡ v ∷ []
meant-known f v known = rw (meant, known) refl

scan-part : (n : ℕ) (p : List ℕ) → IsPart p → scan (suc n) p ≡ ok (0, [])
unfolding scan
scan-part n p (f, missing, short, e, less) = elim (Bool-cases (leb 3 (length p))) [
  | inl t ↦
      let enough : 3 ≤ length p = ground arith in
      rw t (
        rw (consume_recv-consume p ∙ consume-partial dispatch_recv f short p missing e enough less)
          refl)
  | inr t ↦ rw t refl
]

scan-frame :
    (n k : ℕ) (bytes rest : List ℕ) (v : Visit) (m : ℕ) (vs : List Visit)
    → 3 ≤ length bytes
    → consume_recv 0 bytes ≡ ok (pos k, some v)
    → drop k bytes ≡ rest
    → scan n rest ≡ ok (m, vs)
    → scan (suc n) bytes ≡ ok (k + m, v ∷ vs)
unfolding scan
scan-frame n k bytes rest v m vs h first after others =
    let enough : leb 3 (length bytes) ≡ true = ground arith in
    rw (enough, first) (rw after (rw others refl))

-- With one round more than there are bytes, the loop ends: it makes the visits of the whole frames, and
-- stops before the part of a frame at the end.
pub scan-encode :
    (fs : List Frame) (p : List ℕ) (n : ℕ)
    → All (IsFrame dispatch_recv) fs
    → IsPart p
    → length (encode_all fs ++ p) < n
    → scan n (encode_all fs ++ p) ≡ ok (length (encode_all fs), meant_all fs)
scan-encode fs p zero h part lt = absurd (omega arith)
scan-encode [] p (suc n) h part lt = scan-part n p part
scan-encode (f ∷ fs) p (suc n) ((short, v, known), h) part lt =
    let size = length-append (encode f) (encode_all fs) in
    let all_size = length-append (encode f ++ encode_all fs) p in
    let rest_size = length-append (encode_all fs) p in
    let assoc = append_assoc (encode f) (encode_all fs) p in
    let ih = scan-encode fs p n h part (omega arith) in
    let one =
      scan-frame n (3 + length f.body) (encode f ++ (encode_all fs ++ p)) (encode_all fs ++ p) v
        (length (encode_all fs)) (meant_all fs) (omega arith)
        (consume_recv-consume (encode f ++ (encode_all fs ++ p))
          ∙ consume-encode dispatch_recv f short v (encode_all fs ++ p) known)
        (drop-frame f (encode_all fs ++ p)) ih in
    ap (scan (suc n)) assoc
    ∙ one
    ∙ ap (λ k. ok (k, v ∷ meant_all fs)) (omega (arith, size))
    ∙ ap (λ vs. ok (length (encode_all (f ∷ fs)), vs ++ meant_all fs)) (sym (meant-known f v known))
  where
    drop-frame : (f : Frame) (rest : List ℕ) → drop (3 + length f.body) (encode f ++ rest) ≡ rest
    drop-frame f rest =
        let e : 3 + length f.body ≡ length (encode f) = omega arith in
        rw e (drop-append (encode f) rest)
