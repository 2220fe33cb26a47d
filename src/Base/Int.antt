-- ===== src/Base/Int.antt =====
-- Signed machine integers where the code only compares them: `negsuc n` is -(n + 1).
use Prim.Native.Nat.{ℕ, ◌≤◌}
use mathlib.Core.Bool.{Bool, true, false}
use cockroachdbxaws.Base.Tests.{ltb, leb, ◌==◌}

pub data ℤ : Type 0 where
  pos : ℕ → ℤ
  negsuc : ℕ → ℤ

abbrev pub is_zero : ℤ → Bool
is_zero (pos n) = n == 0
is_zero (negsuc n) = false

-- `x < 1`.
abbrev pub below_one : ℤ → Bool
below_one (pos n) = n == 0
below_one (negsuc n) = true

-- `x > bound`, for a bound that is not negative.
abbrev pub above : ℤ → ℕ → Bool
above (pos n) bound = ltb bound n
above (negsuc n) bound = false

abbrev pub is_negative : ℤ → Bool
is_negative (pos n) = false
is_negative (negsuc n) = true

-- `x <= y`.
abbrev pub at_most : ℤ → ℤ → Bool
at_most (pos a) (pos b) = leb a b
at_most (pos a) (negsuc b) = false
at_most (negsuc a) (pos b) = true
at_most (negsuc a) (negsuc b) = leb b a

-- 1 ≤ x ≤ bound.
abbrev pub InRange : ℤ → ℕ → Type 0
InRange (pos n) bound = (1 ≤ n) × (n ≤ bound)
InRange (negsuc n) bound = ⊥
