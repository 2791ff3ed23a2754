-- ===== src/Base/Run.antt =====
-- Results of C++ code: asserts.h and exceptions.h. A `check_…` macro throws; a failed `assert_…`
-- (compiled out of a release build), a bad dereference or a loop out of rounds is a fault.
use mathlib.Core.Path.{◌≡◌, refl}
use mathlib.Core.Logic.{◌≢◌}
use mathlib.Core.Bool.{Bool, true, false}
use mathlib.Core.Option.{Option, none, some}

pub data Exception : Type 0 where
  invalid_input out_of_bounds capacity_limit check_failure : Exception

pub data Run {ℓ} (A : Type ℓ) : Type ℓ where
  ok : A → Run A
  throws : Exception → Run A
  fault : Run A

infixl 5 ◌>>=◌ ◌>>◌
abbrev pub ◌>>=◌ {ℓ κ} : {A : Type ℓ} {B : Type κ} (m : Run A) (next : A → Run B) → Run B
fault >>= next = fault
throws x >>= next = throws x
ok a >>= next = next a

abbrev pub ◌>>◌ {ℓ} : {B : Type ℓ} → Run (Unit {0}) → Run B → Run B
m >> k = m >>= λ _. k

-- `check_…`
abbrev pub check : Bool → Exception → Run (Unit {0})
check true e = ok tt
check false e = throws e

-- `assert_…`
abbrev pub assert : Bool → Run (Unit {0})
assert true = ok tt
assert false = fault

-- a pointer or an index that must be good
abbrev pub valid {ℓ} : {A : Type ℓ} → Option A → Run A
valid none = fault
valid (some a) = ok a

pub ok-injective {ℓ} : {A : Type ℓ} {a b : A} → ok a ≡ ok b → a ≡ b
ok-injective e = cc

pub fault≢ok {ℓ} : {A : Type ℓ} {a : A} → fault ≢ ok a
fault≢ok e = cc

-- Chains associate.
pub bind_assoc {ℓ} :
    {A B C : Type ℓ} (m : Run A) (first : A → Run B) (second : B → Run C)
    → (m >>= first >>= second) ≡ (m >>= λ a. first a >>= second)
bind_assoc fault first second = refl
bind_assoc (throws x) first second = refl
bind_assoc (ok a) first second = refl

-- The parts of a chain that succeeds.
pub bind-eq_ok {ℓ κ} :
    {A : Type ℓ} {B : Type κ} (m : Run A) (f : A → Run B) {b : B}
    → (m >>= f) ≡ ok b
    → (a : A) × (m ≡ ok a) × (f a ≡ ok b)
bind-eq_ok (ok a) f h = (a, refl, h)
bind-eq_ok (throws e) f h = cc
bind-eq_ok fault f h = cc

pub check-eq_ok : (b : Bool) (e : Exception) {u : Unit {0}} → check b e ≡ ok u → b ≡ true
check-eq_ok true e h = refl
check-eq_ok false e h = cc
