-- ===== src/Outbox/Backoff/ClosedForm.antt =====
-- The retry schedule against its closed form.
use Prim.Native.Nat.{min}
use cockroachdbxaws.Base.{
  ℕ, zero, suc, ◌+◌, ◌-◌, ◌*◌, ◌%◌, ◌^◌, ◌≤◌, ◌<◌, ◌≡◌, ◌⊎◌, refl, ap, ◌∙◌, inl, inr, true, false,
  arith, Bool-cases, dec_lt, grow, regroup,
}
use cockroachdbxaws.Outbox.Backoff.{
  Schedule, less64, doubling, capped, clamp_jitter, add_jitter, backoff,
}

capped_lem : (bound d : ℕ) → 0 < d → d < 2 ^ 63 → capped bound d ≡ min d bound
unfolding capped
capped_lem bound d p h = ground arith

module _ (k bound d : ℕ) where
  doubling_below :
      less64 d bound ≡ true → doubling (suc k) bound d ≡ doubling k bound (d * 2 % 2 ^ 64)
  unfolding doubling
  doubling_below h = ground arith

  doubling_reached : less64 d bound ≡ false → doubling (suc k) bound d ≡ d
  unfolding doubling
  doubling_reached h = ground arith

doubling_lem :
    (k bound d : ℕ)
    → 0 < d
    → d < 2 ^ 63
    → bound ≤ 2 ^ 62
    → capped bound (doubling k bound d) ≡ min (d * 2 ^ k) bound
unfolding doubling
doubling_lem zero bound d p h b = rw (capped_lem bound d p h) (omega arith)
doubling_lem (suc k) bound d p h b = elim (Bool-cases (less64 d bound)) [
  | inl below ↦
      let wrap : d * 2 % 2 ^ 64 ≡ d * 2 = ground arith in
      let ih = doubling_lem k bound (d * 2) (omega arith) (ground arith) b in
      rw (doubling_below k bound d below, wrap, ih, regroup d k) refl
  | inr reached ↦
      rw (doubling_reached k bound d reached, capped_lem bound d p h)
        (let g = grow d (suc k) in ground arith)
]

add_jitter_lem :
    (bound delay j : ℕ)
    → 0 < delay
    → delay < 2 ^ 63
    → j < 2 ^ 63
    → ((delay + j < 2 ^ 63) × (add_jitter bound delay j ≡ delay + j))
      ⊎ ((2 ^ 63 ≤ delay + j) × (add_jitter bound delay j ≡ bound))
unfolding add_jitter
add_jitter_lem bound delay j p h k = elim (dec_lt (delay + j) (2 ^ 63)) [
  | yes l ↦ inl (l, ground arith)
  | no l ↦ inr (omega arith, ground arith)
]

-- The doubled minimum, capped at the ceiling.
abbrev pub nominal : Schedule → ℕ → ℕ
nominal s attempt = min (s.backoff_min * 2 ^ (attempt - 1)) s.backoff_max

nominal_pos :
    (s : Schedule) (attempt : ℕ)
    → 0 < s.backoff_min
    → s.backoff_min ≤ s.backoff_max
    → 0 < nominal s attempt
nominal_pos s attempt p q = let g = grow s.backoff_min (attempt - 1) in omega arith

-- With a positive minimum and a ceiling of at most 2 ^ 62 nanoseconds, the delay before the next
-- attempt is the minimum doubled once for each attempt after the first and capped at the ceiling,
-- plus the jitter; where that sum would overflow int64 it is the ceiling.
pub backoff_lem :
    (s : Schedule) (attempt j : ℕ)
    → 0 < s.backoff_min
    → s.backoff_min ≤ s.backoff_max
    → s.backoff_max ≤ 2 ^ 62
    → clamp_jitter (s.jitter (nominal s attempt)) ≡ j
    → j < 2 ^ 63
    → ((nominal s attempt + j < 2 ^ 63) × (backoff s attempt ≡ nominal s attempt + j))
      ⊎ ((2 ^ 63 ≤ nominal s attempt + j) × (backoff s attempt ≡ s.backoff_max))
unfolding backoff
backoff_lem s attempt j p q r e k =
    rw (doubling_lem (attempt - 1) s.backoff_max s.backoff_min p (omega arith) r) (
      rw e (
        add_jitter_lem s.backoff_max (nominal s attempt) j (nominal_pos s attempt p q) (omega arith)
          k))

collapse :
    (bound m : ℕ) → m < 2 ^ 58 → 2 ^ 62 + 2 * m < bound → doubling 3 bound (2 ^ 61 + m) ≡ 8 * m
unfolding doubling
collapse bound m h q =
    let first = doubling_below 2 bound (2 ^ 61 + m) (ground arith) in
    let second = doubling_below 1 bound (2 ^ 62 + 2 * m) (ground arith) in
    let third = doubling_below 0 bound (2 ^ 63 + 4 * m) (ground arith) in
    let first_sum : (2 ^ 61 + m) * 2 % 2 ^ 64 ≡ 2 ^ 62 + 2 * m = omega arith in
    let second_sum : (2 ^ 62 + 2 * m) * 2 % 2 ^ 64 ≡ 2 ^ 63 + 4 * m = omega arith in
    let third_sum : (2 ^ 63 + 4 * m) * 2 % 2 ^ 64 ≡ 8 * m = omega arith in
    first
    ∙ ap (doubling 2 bound) first_sum
    ∙ second
    ∙ ap (doubling 1 bound) second_sum
    ∙ third
    ∙ third_sum

-- The overflow guard is incomplete. With a minimum of 2 ^ 61 + m nanoseconds, for m positive and less than
-- 2 ^ 58, and a ceiling above 2 ^ 62 + 2 * m and below 2 ^ 63, the third doubling wraps past zero, so the
-- fourth attempt waits 8 * m nanoseconds plus the jitter where that sum fits in int64, and 8 * m is less
-- than the minimum.
pub backoff_overflow :
    (s : Schedule) (m j : ℕ)
    → 0 < m
    → m < 2 ^ 58
    → s.backoff_min ≡ 2 ^ 61 + m
    → 2 ^ 62 + 2 * m < s.backoff_max
    → s.backoff_max < 2 ^ 63
    → clamp_jitter (s.jitter (8 * m)) ≡ j
    → 8 * m + j < 2 ^ 63
    → (backoff s 4 ≡ 8 * m + j) × (8 * m < s.backoff_min)
unfolding backoff
backoff_overflow s m j p h e q r c k =
    let low : min (8 * m) s.backoff_max ≡ 8 * m = omega arith in
    let capped_at : capped s.backoff_max (8 * m) ≡ 8 * m =
      capped_lem s.backoff_max (8 * m) (omega arith) (omega arith) ∙ low in
    let sum = add_jitter_lem s.backoff_max (8 * m) j (omega arith) (omega arith) (omega arith) in
    (rw e (rw (collapse s.backoff_max m h q) (rw capped_at (rw c (ground arith)))), omega arith)
