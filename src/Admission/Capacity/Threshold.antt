-- ===== src/Admission/Capacity/Threshold.antt =====
-- The near-capacity threshold: integer rounding against the exact comparison of percentages.
use cockroachdbxaws.Base.{
  ℕ, ◌+◌, ◌*◌, ◌/◌, ◌%◌, ◌^◌, ◌≤◌, ◌<◌, true, ◌≡◌, ◌⊎◌, ◌↔◌, inl, inr, arith, dec_lt, leb→le,
}
use cockroachdbxaws.Admission.Capacity.{CapacityPolicy, CapacityState, near_capacity, threshold_of}

mul-le_right : (a b k : ℕ) → a ≤ b → k * a ≤ k * b
mul-le_right a b k h = grind arith

-- No step of the threshold wraps.
threshold_exact :
    (c p : ℕ) → c < 2 ^ 64 → p ≤ 100 → threshold_of c p ≡ c / 100 * p + (c % 100 * p + 99) / 100
unfolding threshold_of
threshold_exact c p h k =
    let whole : c / 100 * p ≤ c / 100 * 100 = mul-le_right p 100 (c / 100) k in
    let part : c % 100 * p ≤ c % 100 * 100 = mul-le_right p 100 (c % 100) k in omega arith

regroup : (q r c p : ℕ) → c ≡ q * 100 + r → c * p ≡ q * p * 100 + r * p
regroup q r c p e = rw e (omega arith)

threshold_iff : (c p u : ℕ) → c < 2 ^ 64 → p ≤ 100 → (threshold_of c p ≤ u) ↔ (c * p ≤ u * 100)
threshold_iff c p u h k =
    let exact = threshold_exact c p h k in
    let split : c * p ≡ c / 100 * p * 100 + c % 100 * p =
      regroup (c / 100) (c % 100) c p (omega arith) in
    (λ t. omega arith, λ t. omega arith)

-- Either the quotient is 0 and the remainder is the number, or the number reaches the divisor.
div-mod-cases : (u c : ℕ) → 0 < c → ((u / c ≡ 0) × (u % c ≡ u) × (u < c)) ⊎ ((1 ≤ u / c) × (c ≤ u))
div-mod-cases u c h = elim (dec_lt u c) [
  | yes l ↦ inl (grind arith, grind arith, l)
  | no l ↦ inr (grind arith, omega arith)
]

-- For a capacity of 64 bits, the usage is near capacity exactly where there is a capacity, the configured
-- percentage is from 1 to 100, and the usage is at least that percentage of the capacity, compared without
-- rounding.
pub near_capacity_iff :
    (p : CapacityPolicy) (s : CapacityState)
    → s.capacity < 2 ^ 64
    → (near_capacity p s ≡ true) ↔ (
        (0 < s.capacity)
        × (0 < p.near_capacity_percent)
        × (p.near_capacity_percent ≤ 100)
        × (s.capacity * p.near_capacity_percent ≤ s.used * 100))
unfolding near_capacity
near_capacity_iff p s hc = (
  λ h.
      let pos : 0 < s.capacity = ground arith in
      let ppos : 0 < p.near_capacity_percent = ground arith in
      let ple : p.near_capacity_percent ≤ 100 = ground arith in
      (pos, ppos, ple, (in_range pos ppos ple).0 h),
  λ (pos, ppos, ple, h). (in_range pos ppos ple).1 h,
)
  where
    in_range :
        0 < s.capacity
        → 0 < p.near_capacity_percent
        → p.near_capacity_percent ≤ 100
        → (near_capacity p s ≡ true) ↔ (s.capacity * p.near_capacity_percent ≤ s.used * 100)
    in_range pos ppos ple =
        let t = threshold_iff s.capacity p.near_capacity_percent (s.used % s.capacity) hc ple in
        let bound : s.capacity * p.near_capacity_percent ≤ s.capacity * 100 =
          mul-le_right p.near_capacity_percent 100 s.capacity ple in
        let cases = div-mod-cases s.used s.capacity pos in
        (
          λ h. ground (
            arith,
            leb→le (threshold_of s.capacity p.near_capacity_percent) (s.used % s.capacity),
          ),
          λ h. ground arith,
        )
