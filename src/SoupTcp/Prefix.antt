-- ===== src/SoupTcp/Prefix.antt =====
-- A part of a stream of frames is some whole frames and a part of the next one.
use mathlib.Core.List.{append_assoc, head-eq_of_cons-eq, tail-eq_of_cons-eq}
use native.Mathlib.Decide.{dec_le}
use vrt.Base.{
  ℕ, suc, ◌+◌, ◌^◌, ◌≡◌, ◌≤◌, ◌<◌, ◌⊎◌, inl, inr, refl, sym, ap, ◌∙◌, List, [], ◌∷◌, ◌++◌, length,
  length-append, All, arith,
}
use vrt.Base.Run.{Run}
use vrt.SoupTcp.Defs.{Visit}
use vrt.SoupTcp.Frames.{Frame, encode, encode_all, IsFrame}

module _ {A : Type 0} where
  longer :
      (x y a b : List A)
      → x ++ y ≡ a ++ b
      → length a ≤ length x
      → (z : List A) × (x ≡ a ++ z) × (z ++ y ≡ b)
  longer x y [] b e h = (x, refl, e)
  longer [] y (c ∷ a) b e h = absurd (omega arith)
  longer (d ∷ x) y (c ∷ a) b e h =
      let (z, ex, ey) = longer x y a b (tail-eq_of_cons-eq e) (omega arith) in
      let same = head-eq_of_cons-eq e in (z, cc, ey)

  shorter : (x y a b : List A) → x ++ y ≡ a ++ b → length x ≤ length a → (z : List A) × (x ++ z ≡ a)
  shorter x y a b e h = let (z, ea, _) = longer a b x y (sym e) h in (z, sym ea)

-- The bytes are the beginning of a frame, without its end.
abbrev pub IsPart : List ℕ → Type 0
IsPart p =
    (f : Frame) × (missing : List ℕ) × (suc (length f.body) < 2 ^ 15)
    × (p ++ missing ≡ encode f)
    × (length p < 3 + length f.body)

pub []-IsPart : IsPart []
[]-IsPart = (
  record { type = 72; body = [] },
  encode (record { type = 72; body = [] }),
  omega arith,
  refl,
  omega arith,
)

encode_all-nil : (fs : List Frame) → [] ≡ encode_all fs → fs ≡ []
encode_all-nil [] e = refl
encode_all-nil (f ∷ fs) e = cc

pub split-prefix :
    (dispatch : ℕ → List ℕ → Run Visit) (fs : List Frame) (x y : List ℕ)
    → All (IsFrame dispatch) fs
    → x ++ y ≡ encode_all fs
    → (done : List Frame) × (todo : List Frame) × (p : List ℕ) × (fs ≡ done ++ todo)
      × (x ≡ encode_all done ++ p)
      × (p ++ y ≡ encode_all todo)
      × All (IsFrame dispatch) done
      × All (IsFrame dispatch) todo
      × IsPart p
      × (((todo ≡ []) × (p ≡ [])) ⊎ (length p < length (encode_all todo)))
split-prefix dispatch [] [] y h e = ([], [], [], refl, refl, e, tt, tt, []-IsPart, inl (refl, refl))
split-prefix dispatch [] (c ∷ x) y h e = cc
split-prefix dispatch (f ∷ fs) x y h e = elim (dec_le (3 + length f.body) (length x)) [
  | yes le ↦
      let (z, ex, ez) = longer x y (encode f) (encode_all fs) e (omega arith) in
      let (done, todo, p, ef, ez', ep, hd, ht, part, strict) =
        split-prefix dispatch fs z y h.1 ez in
      (
        f ∷ done,
        todo,
        p,
        ap (λ fs. f ∷ fs) ef,
        ex ∙ ap (λ z. encode f ++ z) ez' ∙ sym (append_assoc (encode f) (encode_all done) p),
        ep,
        (h.0, hd),
        ht,
        part,
        strict,
      )
  | no gt ↦
      let (z, ez) = shorter x y (encode f) (encode_all fs) e (omega arith) in
      (
        [],
        f ∷ fs,
        x,
        refl,
        refl,
        e,
        tt,
        h,
        (f, z, h.0.0, ez, omega arith),
        inr (omega (arith, length-append f.body (encode_all fs))),
      )
]
