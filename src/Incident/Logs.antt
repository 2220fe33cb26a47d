-- ===== src/Incident/Logs.antt =====
-- incident.go: instants, the durations of the engine, and what it reads of a `model.NormalizedLog`.
-- An instant is its number of nanoseconds after the earliest instant that a Go `time.Time` can hold,
-- so that the zero `time.Time` (year 1) is the numeral below and subtracting a duration from it or
-- from any later instant is exact.
use cockroachdbxaws.Base.{
  ℕ, ◌+◌, ◌*◌, ◌^◌, Text, text_eq, text_lt, blank, codes, Bool, not, ◌&&◌, if◌then◌else◌, ltb, ◌==◌,
}
use cockroachdbxaws.Model.{SeverityClass, severity_class_error}

abbrev pub Time : Type 0
Time = ℕ

abbrev pub zero_time : Time
zero_time = 2 ^ 63 * 1_000_000_000

-- `t.IsZero()`.
abbrev pub is_zero_time : Time → Bool
is_zero_time t = t == zero_time

-- `t.Before(u)`; `t.After(u)` is `before u t`.
abbrev pub before : Time → Time → Bool
before t u = ltb t u

abbrev pub minute : ℕ
minute = 60 * 1_000_000_000

abbrev pub default_investigation_threshold : ℕ
default_investigation_threshold = 5

abbrev pub default_investigation_window : ℕ
default_investigation_window = 5 * minute

abbrev pub default_allowed_lateness : ℕ
default_allowed_lateness = 2 * minute

abbrev pub default_quiet_period : ℕ
default_quiet_period = 15 * minute

abbrev pub default_reopen_window : ℕ
default_reopen_window = 120 * minute

abbrev pub default_state_retention : ℕ
default_state_retention =
    default_investigation_window + default_allowed_lateness + default_reopen_window

abbrev pub default_reinvestigation_interval : ℕ
default_reinvestigation_interval = 1_440 * minute

-- The fields that the engine reads.
pub record NormalizedLog : Type 0 where
  pub record_id : Text
  pub event_time : Time
  pub observed_time : Time
  -- `Deployment.ID`
  pub deployment : Text
  pub severity_class : SeverityClass
  -- `Service.Status`, `Service.Name` and `Service.Environment`
  pub service_status : Text
  pub service_name : Text
  pub service_environment : Text

-- `model.UnknownDeployment` and `model.EnrichmentAvailable`.
abbrev pub unknown_deployment : Text
unknown_deployment = codes "unknown-deployment"

abbrev pub enrichment_available : Text
enrichment_available = codes "available"

unfoldable pub bounded_activity : NormalizedLog → Time
bounded_activity r = if before r.observed_time r.event_time then r.observed_time else r.event_time

unfoldable pub deployment_id : NormalizedLog → Text
deployment_id r = if blank r.deployment then unknown_deployment else r.deployment

unfoldable pub investigation_eligible : NormalizedLog → Bool
investigation_eligible r =
    text_eq r.severity_class severity_class_error
    && text_eq r.service_status enrichment_available
    && not (blank r.service_name)
    && not (blank r.service_environment)

unfoldable pub sorts_before : NormalizedLog → NormalizedLog → Bool
sorts_before l r =
    if not (l.event_time == r.event_time)
    then before l.event_time r.event_time
    else if not (text_eq (deployment_id l) (deployment_id r))
    then text_lt (deployment_id l) (deployment_id r)
    else text_lt l.record_id r.record_id
