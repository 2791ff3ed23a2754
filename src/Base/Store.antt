-- ===== src/Base/Store.antt =====
-- The abstract view of a pool: a finite map from references to objects, and the choice of a reference
-- for a new one.
use vrt.Base.Tests.{◌==◌, if◌then◌else◌}
use vrt.Base.Run.{Run, ok}
use Prim.Native.Nat.{ℕ}
use mathlib.Core.Path.{◌≡◌}
use mathlib.Core.Option.{Option, none, some}

abbrev pub Store : Type 0 → Type 0
Store A = ℕ → Option A

abbrev pub set_at : {A : Type 0} → Store A → ℕ → A → Store A
set_at s r a i = if i == r then some a else s i

abbrev pub clear_at : {A : Type 0} → Store A → ℕ → Store A
clear_at s r i = if i == r then none else s i

-- What a pool gives an allocation: a reference that holds no object.
pub record Allocator (A : Type 0) : Type 0 where
  pub pick : Store A → Run ℕ
  pub pick_free : (s : Store A) (r : ℕ) → pick s ≡ ok r → s r ≡ none
