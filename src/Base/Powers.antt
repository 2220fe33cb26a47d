-- ===== src/Base/Powers.antt =====
-- Repeated doubling.
use native.Mathlib.Nat.{pow-suc}
use Prim.Native.Nat.{ℕ, zero, suc, ◌*◌, ◌^◌, ◌≤◌}
use mathlib.Core.Path.{◌≡◌, ap}
use native.Mathlib.Omega.{arith}

pub pow_pos : (k : ℕ) → 1 ≤ 2 ^ k
pow_pos zero = omega arith
pow_pos (suc k) = omega (arith, pow-suc 2 k, pow_pos k)

pub grow : (d k : ℕ) → d ≤ d * 2 ^ k
grow d k = let one = pow_pos k in grind arith

pub regroup : (d k : ℕ) → d * 2 ^ suc k ≡ d * 2 * 2 ^ k
regroup d k = omega (arith, ap (λ (t : ℕ). d * t) (pow-suc 2 k))
