-- ===== src/Cloudwatch.antt =====
-- services/static-log-analysis/internal/cloudwatch/backoff.go: the retry windows of the CloudWatch
-- reader. Durations are Go's `int64` nanoseconds, as integers.
use cockroachdbxaws.Base.{
  ℕ, zero, suc, ◌+◌, ◌-◌, ◌*◌, ◌/◌, ◌%◌, ◌^◌, Bool, true, false, not, ◌&&◌, ◌||◌, Option, none,
  some, ℤ, pos, negsuc, if◌then◌else◌, ltb, leb, ◌==◌,
}
pub mod Windows

abbrev pub default_backoff_base : ℕ
default_backoff_base = 200 * 1_000_000

abbrev pub default_backoff_max : ℕ
default_backoff_max = 20 * 1_000_000_000

abbrev pub default_backoff_attempts : ℕ
default_backoff_attempts = 5

pub record Backoff : Type 0 where
  pub base : ℤ
  pub max : ℤ
  pub max_attempts : ℤ
  -- `nil`, or the injected source
  pub jitter : Option (ℕ → ℤ)

-- `if d <= 0 { return fallback }; return d`.
abbrev pub positive_or : ℤ → ℕ → ℕ
positive_or (pos zero) fallback = fallback
positive_or (pos (suc n)) fallback = suc n
positive_or (negsuc n) fallback = fallback

unfoldable pub base_of : Backoff → ℕ
base_of b = positive_or b.base default_backoff_base

unfoldable pub max_of : Backoff → ℕ
max_of b = positive_or b.max default_backoff_max

unfoldable pub attempts : Backoff → ℕ
attempts b = positive_or b.max_attempts default_backoff_attempts

-- The loop `for i := 1; i < attempt; i++`, with the rounds that are left. The doubling wraps around as
-- on 64 bits.
unfoldable pub window_loop : ℕ → ℕ → ℕ → ℕ
window_loop zero maximum window = if ltb maximum window then maximum else window
window_loop (suc left) maximum window =
    let rest = window_loop left maximum (window * 2 % 2 ^ 64) in
    if leb (maximum / 2) window then maximum else rest

-- `Window`; an attempt below 1 counts as 1.
unfoldable pub window : Backoff → ℕ → ℕ
window b attempt = window_loop (attempt - 1) (max_of b) (base_of b)

-- `Delay`, where the package's own source is a parameter: `rand.Int64N(n)`.
unfoldable pub delay : (ℕ → ℕ) → Backoff → ℕ → ℤ
delay int64n b attempt = elim b.jitter [
  | some jitter ↦ jitter (window b attempt)
  | none ↦ if window b attempt == 0 then pos 0 else pos (int64n (window b attempt + 1))
]

abbrev is_negative : ℤ → Bool
is_negative (pos n) = false
is_negative (negsuc n) = true

abbrev below : ℤ → ℤ → Bool
below (pos m) (pos n) = ltb m n
below (pos m) (negsuc n) = false
below (negsuc m) (pos n) = true
below (negsuc m) (negsuc n) = ltb n m

abbrev is_positive : ℤ → Bool
is_positive i = below (pos 0) i

-- `Validate`: the configuration is accepted.
unfoldable pub validate_backoff : Backoff → Bool
validate_backoff b =
    if is_negative b.base || is_negative b.max
    then false
    else if is_positive b.base && is_positive b.max && below b.max b.base
    then false
    else not (is_negative b.max_attempts)
