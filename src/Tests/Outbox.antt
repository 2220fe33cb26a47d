-- ===== src/Tests/Outbox.antt =====
-- outbox: the retry schedule at concrete inputs.
use cockroachdbxaws.Base.{◌+◌, ◌-◌, ◌*◌, ◌^◌, ◌≤◌, ◌<◌, ◌≡◌, ◌⊎◌, refl, arith, pos}
use cockroachdbxaws.Outbox.Backoff.{Schedule, backoff}
use cockroachdbxaws.Outbox.Backoff.ClosedForm.{nominal, backoff_lem, backoff_overflow}

-- One second doubled up to five minutes, with half a second of jitter.
abbrev schedule : Schedule
schedule = record {
  backoff_min = 1_000_000_000;
  backoff_max = 300_000_000_000;
  jitter = λ d. pos 500_000_000;
}

backoff_lem_example :
    ((nominal schedule 4 + 500_000_000 < 2 ^ 63)
      × (backoff schedule 4 ≡ nominal schedule 4 + 500_000_000))
    ⊎ ((2 ^ 63 ≤ nominal schedule 4 + 500_000_000) × (backoff schedule 4 ≡ schedule.backoff_max))
backoff_lem_example =
    backoff_lem schedule 4 500_000_000 (omega arith) (omega arith) (omega arith) refl (omega arith)

-- A ceiling of two hundred years and a minimum of seventy-three.
abbrev centuries : Schedule
centuries = record { backoff_min = 2 ^ 61 + 1; backoff_max = 2 ^ 63 - 1; jitter = λ d. pos 5 }

backoff_overflow_example : (backoff centuries 4 ≡ 8 * 1 + 5) × (8 * 1 < centuries.backoff_min)
backoff_overflow_example =
    backoff_overflow centuries 1 5 (omega arith) (omega arith) refl (omega arith) (omega arith) refl
      (omega arith)
