-- ===== src/Tests/Cloudwatch.antt =====
-- cloudwatch: the retry windows at concrete inputs.
use cockroachdbxaws.Base.{ℕ, ◌-◌, none, pos}
use cockroachdbxaws.Cloudwatch.{Backoff}

-- A fifth of a second up to twenty seconds, by the defaults.
abbrev throttled : Backoff
throttled = record { base = pos 0; max = pos 0; max_attempts = pos 0; jitter = none }

-- The greatest delay that the source can draw.
abbrev longest : ℕ → ℕ
longest n = n - 1
