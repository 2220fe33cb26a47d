-- ===== src/Journal/Times.antt =====
-- journal/journal.go: the instants that the journal accepts. A `time.Time` is its number of nanoseconds
-- after the Unix epoch, which has no bound, and whether its location is `time.UTC`.
use cockroachdbxaws.Base.{
  ℕ, ◌+◌, ◌-◌, ◌*◌, ◌%◌, ◌^◌, Bool, true, not, ◌&&◌, ◌||◌, Option, none, some, ℤ, pos, negsuc,
  at_most, if◌then◌else◌, leb, ltb, ◌==◌, ◌≡◌, ◌<◌, arith,
}

pub record Time : Type 0 where
  pub nanos : ℤ
  pub utc : Bool

abbrev pub same_nanos : ℤ → ℤ → Bool
same_nanos x y = at_most x y && at_most y x

-- `t.Before(u)`, `t.Equal(u)`; `t.After(u)` is `before u t`.
abbrev pub before : Time → Time → Bool
before t u = not (at_most u.nanos t.nanos)

abbrev pub equal : Time → Time → Bool
equal t u = same_nanos t.nanos u.nanos

-- The first instant of year 1.
abbrev pub zero_time : Time
zero_time = record { nanos = negsuc (62_135_596_800 * 1_000_000_000 - 1); utc = true }

abbrev pub is_zero_time : Time → Bool
is_zero_time t = same_nanos t.nanos zero_time.nanos

abbrev pub min_int64 : ℤ
min_int64 = negsuc (2 ^ 63 - 1)

abbrev pub max_int64 : ℤ
max_int64 = pos (2 ^ 63 - 1)

-- `uint64(x)` of an `int64`, and `int64(w)` of a `uint64`.
unfoldable pub uint64 : ℤ → ℕ
uint64 (pos n) = n % 2 ^ 64
uint64 (negsuc n) = 2 ^ 64 - 1 - n % 2 ^ 64

unfoldable pub int64 : ℕ → ℤ
int64 w = if ltb w (2 ^ 63) then pos w else negsuc (2 ^ 64 - 1 - w)

-- `uint64(t.UnixNano())`, which wraps around out of the range of an `int64`.
unfoldable pub unix_nano : Time → ℕ
unix_nano t = uint64 t.nanos

-- `time.Unix(0, int64(w)).UTC()`.
unfoldable pub from_unix_nano : ℕ → Time
from_unix_nano w = record { nanos = int64 w; utc = true }

-- The last condition of the code, that `UnixNano` gives the instant back, holds within the bounds.
unfoldable pub valid_journal_time : Time → Bool
valid_journal_time t =
    not (is_zero_time t)
    && t.utc
    && at_most min_int64 t.nanos
    && at_most t.nanos max_int64
    && equal t (from_unix_nano (unix_nano t))

-- `t.Add(d)`, for a positive duration.
abbrev pub add_nanos : ℤ → ℕ → ℤ
add_nanos (pos a) d = pos (a + d)
add_nanos (negsuc a) d = if leb d a then negsuc (a - d) else pos (d - a - 1)

-- `safeAdd`, for a duration that is an `int64`: `maxJournalTime.Add(-d)` is not negative.
unfoldable pub safe_add : Time → ℤ → Option Time
safe_add t (negsuc d) = none
safe_add t (pos d) =
    if not (valid_journal_time t) || (d == 0) || not (at_most t.nanos (pos (2 ^ 63 - 1 - d)))
    then none
    else some (record t { nanos = add_nanos t.nanos d })

-- The word of an instant in range gives it back.
pub from_unix_nano-unix_nano :
    (t : Time) → valid_journal_time t ≡ true → from_unix_nano (unix_nano t) ≡ t
unfolding valid_journal_time unix_nano from_unix_nano uint64 int64
from_unix_nano-unix_nano t h = ground arith

pub unix_nano-lt : (t : Time) → unix_nano t < 2 ^ 64
unfolding unix_nano uint64
unix_nano-lt t = ground arith
