-- ===== src/SoupTcp/Frames.antt =====
-- Frames as a sender writes them, and what `consume` of vr/vr_rt/src/vr/market/net/SoupTCP_.h does with
-- one, whole or in part.
use mathlib.Core.List.{head-eq_of_cons-eq, tail-eq_of_cons-eq}
use vrt.Base.{
  ℕ, suc, ◌+◌, ◌-◌, ◌*◌, ◌/◌, ◌%◌, ◌^◌, ◌≡◌, ◌≤◌, ◌<◌, refl, ap, ◌∙◌, true, false, none, some, List,
  [], ◌∷◌, ◌++◌, length, length-append, take, drop, leb, ltb, arith,
}
use vrt.Base.Int.{pos, negsuc, ◌+ℤ◌, positive_part}
use vrt.Base.Run.{Run, ok}
use vrt.SoupTcp.Defs.{PacketHdr, Visit, read_hdr, consume}

pub record Frame : Type 0 where
  pub type : ℕ
  pub body : List ℕ

-- A frame as bytes: the length of its type and body in two bytes, the type, and the body.
abbrev pub encode : Frame → List ℕ
encode f = suc (length f.body) / 256 ∷ suc (length f.body) % 256 ∷ f.type ∷ f.body

abbrev pub encode_all : List Frame → List ℕ
encode_all [] = []
encode_all (f ∷ fs) = encode f ++ encode_all fs

-- The length of a frame fits a positive `int16_t`, and the direction knows its type.
abbrev pub IsFrame : (ℕ → List ℕ → Run Visit) → Frame → Type 0
IsFrame dispatch f = (suc (length f.body) < 2 ^ 15) × (v : Visit) × (dispatch f.type f.body ≡ ok v)

take_all : (xs ys : List ℕ) → take (length xs) (xs ++ ys) ≡ xs
take_all [] ys = refl
take_all (x ∷ xs) ys = ap (λ zs. x ∷ zs) (take_all xs ys)

pub drop-append : (xs ys : List ℕ) → drop (length xs) (xs ++ ys) ≡ ys
drop-append [] ys = refl
drop-append (x ∷ xs) ys = drop-append xs ys

module _ (dispatch : ℕ → List ℕ → Run Visit) (bytes : List ℕ) (hdr : PacketHdr) (n : ℕ) where
  consume-whole :
      (v : Visit)
      → read_hdr bytes ≡ ok hdr
      → 3 ≤ length bytes
      → pos 3 +ℤ hdr.length +ℤ negsuc 0 ≡ pos n
      → n ≤ length bytes
      → dispatch hdr.type (take (positive_part (hdr.length +ℤ negsuc 0)) (drop 3 bytes)) ≡ ok v
      → consume dispatch 0 bytes ≡ ok (pos n, some v)
  unfolding consume
  consume-whole v header enough soup all_there known =
      let has_hdr : leb 3 (length bytes) ≡ true = ground arith in
      let whole : ltb (length bytes) n ≡ false = ground arith in
      rw (has_hdr, header) (rw soup (rw whole (rw known refl)))

  consume-part :
      read_hdr bytes ≡ ok hdr
      → 3 ≤ length bytes
      → pos 3 +ℤ hdr.length +ℤ negsuc 0 ≡ pos n
      → length bytes < n
      → consume dispatch 0 bytes ≡ ok (negsuc 0, none)
  unfolding consume
  consume-part header enough soup less =
      let has_hdr : leb 3 (length bytes) ≡ true = ground arith in
      let part : ltb (length bytes) n ≡ true = ground arith in
      rw (has_hdr, header) (rw soup (rw part refl))

module _ (dispatch : ℕ → List ℕ → Run Visit) (f : Frame)
    (short : suc (length f.body) < 2 ^ 15) where
  read_hdr-encode :
      (rest : List ℕ)
      → read_hdr (encode f ++ rest)
        ≡ ok (record { length = pos (suc (length f.body)); type = f.type })
  unfolding read_hdr
  read_hdr-encode rest =
      let n : suc (length f.body) / 256 * 256 + suc (length f.body) % 256 ≡ suc (length f.body) =
        omega arith in
      let test : ltb (suc (length f.body)) (2 ^ 15) ≡ true = ground arith in rw n (rw test refl)

  soup_len : pos 3 +ℤ pos (suc (length f.body)) +ℤ negsuc 0 ≡ pos (3 + length f.body)
  soup_len =
      let test : ltb 0 (3 + suc (length f.body)) ≡ true = ground arith in
      let n : 3 + suc (length f.body) - 1 ≡ 3 + length f.body = omega arith in rw test (ap pos n)

  -- A whole frame, whatever follows it, is visited and consumed.
  pub consume-encode :
      (v : Visit) (rest : List ℕ)
      → dispatch f.type f.body ≡ ok v
      → consume dispatch 0 (encode f ++ rest) ≡ ok (pos (3 + length f.body), some v)
  consume-encode v rest known =
      consume-whole dispatch (encode f ++ rest)
        (record { length = pos (suc (length f.body)); type = f.type }) (3 + length f.body) v
        (read_hdr-encode rest) (omega (arith, size)) soup_len (omega (arith, size))
        (ap (dispatch f.type) (ap (λ n. take n (f.body ++ rest)) body_len ∙ take_all f.body rest)
          ∙ known)
    where
      size : length (encode f ++ rest) ≡ 3 + length f.body + length rest
      size = omega (arith, length-append f.body rest)

      body_len : positive_part (pos (suc (length f.body)) +ℤ negsuc 0) ≡ length f.body
      body_len = ground arith

  -- A frame of which the header is there and the end is not is left for later.
  pub consume-partial :
      (part missing : List ℕ)
      → part ++ missing ≡ encode f
      → 3 ≤ length part
      → length part < 3 + length f.body
      → consume dispatch 0 part ≡ ok (negsuc 0, none)
  unfolding read_hdr
  consume-partial part missing e enough less =
      consume-part dispatch part (record { length = pos (suc (length f.body)); type = f.type })
        (3 + length f.body) (header part e enough) enough soup_len less
    where
      same_hdr :
          (a b c : ℕ) (ys xs body : List ℕ)
          → a ∷ b ∷ c ∷ ys ≡ suc (length f.body) / 256 ∷ suc (length f.body) % 256 ∷ f.type ∷ body
          → read_hdr (a ∷ b ∷ c ∷ xs)
            ≡ ok (record { length = pos (suc (length f.body)); type = f.type })
      same_hdr a b c ys xs body e =
          let ea = head-eq_of_cons-eq e in
          let eb = head-eq_of_cons-eq (tail-eq_of_cons-eq e) in
          let ec = head-eq_of_cons-eq (tail-eq_of_cons-eq (tail-eq_of_cons-eq e)) in
          rw (ea, eb, ec) (read_hdr-encode xs)

      header :
          (part : List ℕ)
          → part ++ missing ≡ encode f
          → 3 ≤ length part
          → read_hdr part ≡ ok (record { length = pos (suc (length f.body)); type = f.type })
      header [] e enough = absurd (omega arith)
      header (a ∷ []) e enough = absurd (omega arith)
      header (a ∷ b ∷ []) e enough = absurd (omega arith)
      header (a ∷ b ∷ c ∷ xs) e enough = same_hdr a b c (xs ++ missing) xs f.body e
