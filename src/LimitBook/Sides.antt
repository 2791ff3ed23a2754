-- ===== src/LimitBook/Sides.antt =====
-- Reads and writes of the two sides and of the stores of a book.
use mathlib.Core.Path.{fun_ext}
use vrt.Base.{ℕ, ◌≡◌, ◌≢◌, refl, inl, inr, true, false, none, ◌==◌, Bool-cases, arith}
use vrt.LimitBook.Defs.{MarketSide, bid, ask, Store, set_at, clear_at, BookSide, Book, at, set_side}

abbrev pub flip : MarketSide → MarketSide
flip bid = ask
flip ask = bid

-- What holds of a side that is written and of the other one holds of each.
pub by_side {ℓ} :
    {M : Type 0} (P : MarketSide → BookSide M → Type ℓ) (b : Book M) (s : MarketSide)
    (x : BookSide M)
    → P s x
    → P (flip s) (at b (flip s))
    → (z : MarketSide) → P z (at (set_side b s x) z)
by_side P b bid x h k bid = h
by_side P b bid x h k ask = k
by_side P b ask x h k bid = k
by_side P b ask x h k ask = h

pub by_sides {ℓ} :
    {M : Type 0} (P : BookSide M → BookSide M → Type ℓ) (b : Book M) (s : MarketSide)
    (x : BookSide M)
    → P x (at b (flip s))
    → P (at b (flip s)) x
    → (z : MarketSide) → P (at (set_side b s x) z) (at (set_side b s x) (flip z))
by_sides P b bid x h k bid = h
by_sides P b bid x h k ask = k
by_sides P b ask x h k bid = k
by_sides P b ask x h k ask = h

pub set_at-twice :
    {A : Type 0} (f : Store A) (r : ℕ) (a c : A) → set_at (set_at f r a) r c ≡ set_at f r c
set_at-twice f r a c =
    fun_ext (λ i. elim (Bool-cases (i == r)) [ inl e ↦ rw e refl | inr e ↦ rw e refl ])

pub set_side-twice :
    {M : Type 0} (b : Book M) (s : MarketSide) (x y : BookSide M)
    → set_side (set_side b s x) s y ≡ set_side b s y
set_side-twice b bid x y = refl
set_side-twice b ask x y = refl

pub at-set_side :
    {M : Type 0} (b : Book M) (s : MarketSide) (x : BookSide M) → at (set_side b s x) s ≡ x
at-set_side b bid x = refl
at-set_side b ask x = refl

pub clear_at-twice : {A : Type 0} (f : Store A) (r : ℕ) → clear_at (clear_at f r) r ≡ clear_at f r
clear_at-twice f r =
    fun_ext (λ i. elim (Bool-cases (i == r)) [ inl e ↦ rw e refl | inr e ↦ rw e refl ])

pub at_other-set_side :
    {M : Type 0} (b : Book M) (s : MarketSide) (x : BookSide M)
    → at (set_side b s x) (flip s) ≡ at b (flip s)
at_other-set_side b bid x = refl
at_other-set_side b ask x = refl

pub clear_at_self : {A : Type 0} (f : Store A) (r : ℕ) → clear_at f r r ≡ none
clear_at_self f r = let test : r == r ≡ true = ground arith in rw test refl

pub clear_at-ne : {A : Type 0} (f : Store A) (r i : ℕ) → i ≢ r → clear_at f r i ≡ f i
clear_at-ne f r i ne = let test : i == r ≡ false = ground arith in rw test refl
