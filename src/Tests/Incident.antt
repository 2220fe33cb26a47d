-- ===== src/Tests/Incident.antt =====
-- incident: the engine at concrete inputs.
use cockroachdbxaws.Base.{
  All, text_eq, select, ℕ, ◌+◌, ◌*◌, ◌<◌, ◌≡◌, ◌↔◌, refl, Text, codes, true, false, not, ◌&&◌, ◌||◌,
  List, [], ◌∷◌, map, length, Any, Option, some, inr, arith, if◌then◌else◌,
}
use cockroachdbxaws.Model.{severity_class_error}
use cockroachdbxaws.Incident.Logs.{
  Time, zero_time, is_zero_time, NormalizedLog, enrichment_available, default_investigation_window,
  minute,
}
use cockroachdbxaws.Incident.Window.{in_half_open_window, count_in_sorted_window}
use cockroachdbxaws.Incident.Window.Counts.{IsSorted, count_if, count_in_sorted_window_lem}
use cockroachdbxaws.Incident.Generation.{new_generation, generation_satisfies_threshold}
use cockroachdbxaws.Incident.Generation.Threshold.{Qualifies}
use cockroachdbxaws.Incident.Generation.Fold.{
  InOrder, contributions, eligible_times, generation_satisfies_threshold_iff,
}
use cockroachdbxaws.Incident.Family.{
  Family, new_family, topology, threshold_generation, generation_count, retention_horizon,
}
use cockroachdbxaws.Incident.Episodes.{fold_records}
use cockroachdbxaws.Incident.Episodes.Contiguous.{filed, own, Timed, Apart, fold_records-filed}
use cockroachdbxaws.Incident.Engine.{new_engine}
use cockroachdbxaws.Incident.Engine.Observe.{observe, observe_evidence, observe_contribution}
use cockroachdbxaws.Incident.Engine.Observe.Duplicates.{observe-idempotent}
use cockroachdbxaws.Incident.Engine.Observe.Evidence.{membership, observe_evidence-membership}
use cockroachdbxaws.Incident.Engine.Observe.Frontiers.{FrontiersOrdered}
use cockroachdbxaws.Incident.Engine.Observe.Requests.{found, observe_contribution-request}
use cockroachdbxaws.Incident.Engine.Advance.{prune}
use cockroachdbxaws.Incident.Engine.Advance.Retention.{is_kept, prune-select}

-- The first instant of the tests: an hour after the zero time.
abbrev start : Time
start = zero_time + 60 * minute

abbrev error_at : Text → ℕ → NormalizedLog
error_at id after = record {
  record_id = id;
  event_time = start + after;
  observed_time = start + after + 5;
  deployment = codes "d1";
  severity_class = severity_class_error;
  service_status = enrichment_available;
  service_name = codes "checkout";
  service_environment = codes "production";
}

abbrev one_family : NormalizedLog → Option Text
one_family r = some (codes "F")

observe-idempotent_example :
    (observe one_family
      (observe one_family new_engine (error_at (codes "a") 0)).0
      (error_at (codes "a") 0)).0
    ≡ (observe one_family new_engine (error_at (codes "a") 0)).0
observe-idempotent_example = observe-idempotent one_family new_engine (error_at (codes "a") 0)

-- Five errors within five minutes.
abbrev pub burst : List NormalizedLog
burst =
    error_at (codes "a") 0
    ∷ error_at (codes "b") 1
    ∷ error_at (codes "c") 2
    ∷ error_at (codes "d") 3
    ∷ error_at (codes "e") 4
    ∷ []

burst-InOrder : InOrder zero_time burst
burst-InOrder = (
  omega arith,
  omega arith,
  (
    omega arith,
    omega arith,
    (omega arith, omega arith, (omega arith, omega arith, (omega arith, omega arith, tt))),
  ),
)

generation_satisfies_threshold_iff_example :
    (generation_satisfies_threshold
        (contributions (new_generation 1 (codes "d1")) burst)
        (start + 5)
      ≡ true)
    ↔ Any (λ u. Qualifies (eligible_times burst) u × (u < start + 5)) (eligible_times burst)
generation_satisfies_threshold_iff_example =
    generation_satisfies_threshold_iff 1 (codes "d1") burst (start + 5) burst-InOrder

-- A family whose watermark is ten hours after the burst that it retains.
abbrev watched : Family
watched = record (new_family (codes "F")) {
  events = burst;
  ordered = burst;
  max_event_time = start + 602 * minute;
  watermark = start + 600 * minute;
  finalized_through = start + 600 * minute;
}

watched-FrontiersOrdered : FrontiersOrdered watched
watched-FrontiersOrdered = inr (omega arith, omega arith, omega arith, omega arith)

abbrev pub recent : NormalizedLog
recent = error_at (codes "z") (700 * minute)

observe_evidence-membership_example :
    let after = (observe_evidence watched (error_at (codes "y") 7) []).0 in
    (map membership after.generations ≡ map membership watched.generations)
    × (after.ordered ≡ watched.ordered)
    × (after.events ≡ watched.events)
    × (topology after.generations ≡ topology watched.generations)
    × ((t : Time)
        → threshold_generation after.generations t ≡ threshold_generation watched.generations t)
observe_evidence-membership_example =
    observe_evidence-membership watched (error_at (codes "y") 7) []

observe_contribution-request_example :
    let done = observe_contribution watched recent [] in
    let after = done.0.0 in
    (done.1.0 ≡ (not watched.active_investigation && after.active_investigation))
    × (watched.active_investigation ≡ true → after.active_investigation ≡ true)
    × (done.1.0 ≡ true → done.1.1 ≡ false)
    × (after.active_investigation ≡ true → after.context_version ≡ generation_count after)
    × (after.active_investigation ≡ (
        watched.active_investigation
        || found (threshold_generation after.generations after.finalized_through)))
observe_contribution-request_example = observe_contribution-request watched recent []

prune-select_example :
    let horizon = retention_horizon watched (start + 605 * minute) in
    let done = prune (codes "b" ∷ []) watched (start + 605 * minute) [] in
    (done.0.0.ordered ≡ select (is_kept (codes "b" ∷ []) horizon) watched.ordered)
    × (done.0.0.evidence ≡ select (λ x. is_kept (codes "b" ∷ []) horizon x.log) watched.evidence)
    × (length done.0.0.ordered + length done.0.0.evidence + done.1
        ≡ length watched.ordered + length watched.evidence)
unfolding retention_horizon
prune-select_example =
    prune-select (codes "b" ∷ []) watched (start + 605 * minute) []
      (
        (omega arith, (omega arith, (omega arith, (omega arith, tt)))),
        (
          (omega arith, (omega arith, (omega arith, tt))),
          ((omega arith, (omega arith, tt)), ((omega arith, tt), (tt, tt))),
        ),
      )
      (ground arith)

burst-Apart : Apart burst
unfolding text_eq
burst-Apart = (
  (refl, (refl, (refl, (refl, tt)))),
  ((refl, (refl, (refl, tt))), ((refl, (refl, tt)), ((refl, tt), (tt, tt)))),
)

fold_records-filed_example :
    (filed (fold_records [] burst) ≡ map own burst) × All Timed (fold_records [] burst)
fold_records-filed_example = fold_records-filed burst burst-Apart

abbrev times : List Time
times = start ∷ (start + 3) ∷ (start + 9) ∷ []

times-IsSorted : IsSorted times
times-IsSorted = ((omega arith, (omega arith, tt)), ((omega arith, tt), (tt, tt)))

count_in_sorted_window_lem_example : count_in_sorted_window times (start + 4) ≡ (
    if is_zero_time (start + 4)
    then 0
    else count_if (λ t. in_half_open_window t (start + 4) default_investigation_window) times)
count_in_sorted_window_lem_example = count_in_sorted_window_lem times (start + 4) times-IsSorted
