-- ===== src/Outbox/Backoff.antt =====
-- outbox/publisher.go, `Backoff`: the retry schedule over int64 nanoseconds. A Duration is its
-- 64-bit pattern, so a doubling that overflows wraps and reads as negative; the injected jitter is
-- a function into `ℤ`.
use cockroachdbxaws.Base.{
  ℕ, zero, suc, ◌+◌, ◌-◌, ◌*◌, ◌%◌, ◌^◌, Bool, true, false, not, ◌&&◌, ◌||◌, ltb, leb, ◌==◌,
  if◌then◌else◌, ℤ, pos, negsuc,
}
pub mod ClosedForm

-- The sign bit, `d <= 0`, and `d < bound` for a bound that is not negative.
abbrev pub is_negative64 : ℕ → Bool
is_negative64 d = leb (2 ^ 63) d

abbrev pub not_positive64 : ℕ → Bool
not_positive64 d = is_negative64 d || (d == 0)

abbrev pub less64 : ℕ → ℕ → Bool
less64 d bound = is_negative64 d || ltb d bound

pub record Schedule : Type 0 where
  pub backoff_min : ℕ
  pub backoff_max : ℕ
  pub jitter : ℕ → ℤ

-- `for i := 1; i < attempt && delay < BackoffMax; i++ { delay *= 2 }`, by the rounds left.
pub doubling : ℕ → ℕ → ℕ → ℕ
doubling zero bound delay = delay
doubling (suc rounds) bound delay = elim (less64 delay bound) [
  | true ↦ doubling rounds bound (delay * 2 % 2 ^ 64)
  | false ↦ delay
]

-- `if delay > BackoffMax || delay <= 0 { delay = BackoffMax }`.
pub capped : ℕ → ℕ → ℕ
capped bound delay =
    if (not (is_negative64 delay) && ltb bound delay) || not_positive64 delay then bound else delay

-- `if jitter < 0 { jitter = 0 }`.
abbrev pub clamp_jitter : ℤ → ℕ
clamp_jitter (pos n) = n
clamp_jitter (negsuc n) = 0

-- `total := delay + jitter; if total <= 0 { return BackoffMax }`.
pub add_jitter : ℕ → ℕ → ℕ → ℕ
add_jitter bound delay jitter =
    let total = (delay + jitter) % 2 ^ 64 in if not_positive64 total then bound else total

pub backoff : Schedule → ℕ → ℕ
unfolding capped doubling add_jitter
backoff s attempt =
    let delay = capped s.backoff_max (doubling (attempt - 1) s.backoff_max s.backoff_min) in
    add_jitter s.backoff_max delay (clamp_jitter (s.jitter delay))
