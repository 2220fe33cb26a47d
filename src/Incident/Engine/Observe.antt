-- ===== src/Incident/Engine/Observe.antt =====
-- incident.go: `Observe`.
use cockroachdbxaws.Base.{
  ℕ, zero, suc, ◌+◌, ◌-◌, Text, text_eq, text_lt, Bool, true, false, not, ◌&&◌, ◌||◌, List, [], ◌∷◌,
  ◌++◌, length, any, get_elem?, Option, none, some, if◌then◌else◌, ltb, leb, ◌==◌, lookup, store,
  delete,
}
use cockroachdbxaws.Incident.Logs.{
  Time, zero_time, is_zero_time, before, NormalizedLog, sorts_before, deployment_id,
  bounded_activity, default_allowed_lateness, default_state_retention, default_quiet_period,
}
use cockroachdbxaws.Incident.Search.{search_slice, insert_at}
use cockroachdbxaws.Incident.Generation.{
  Generation, DetectionStatus, active, put_log, count_in_window, occurrence_count,
}
use cockroachdbxaws.Incident.Family.{
  Family, EvidenceRecord, RecordLocation, new_family, generation_count, finalize_through,
  generation_for_evidence, generation_containing, topology, threshold_generation, generation_at,
  refresh_statuses,
}
use cockroachdbxaws.Incident.Episodes.{
  starts_episode, fold_record, fold_episodes, release_leading_empty,
}
use cockroachdbxaws.Incident.Evidence.{
  Seen, attach_retained_evidence, index_evidence, index_locations, put_evidence, attach_evidence,
}
use cockroachdbxaws.Incident.Engine.{
  Engine, Update, Observed, refused, nil_family, observed, update,
}
use cockroachdbxaws.Incident.Engine.Transitions.{insert, extend, rebuild, arrive}
pub mod Duplicates
pub mod Evidence
pub mod Frontiers
pub mod Reachable
pub mod Requests

abbrev pub is_late : Family → NormalizedLog → Bool
is_late f r = not (is_zero_time f.watermark) && before r.event_time f.watermark

abbrev pub is_very_late : Family → NormalizedLog → Bool
is_very_late f r = before r.event_time (f.watermark - default_state_retention)

abbrev pub is_evidence : Family → NormalizedLog → Bool
is_evidence f r =
    (not (is_zero_time f.finalized_through) && before r.event_time f.finalized_through)
    || (not (is_zero_time f.advanced_to)
        && not (before f.advanced_to (bounded_activity r + default_quiet_period)))

-- `Observe` of a record that is retained as evidence.
unfoldable pub observe_evidence : Family → NormalizedLog → Seen → Family × Seen
observe_evidence f r seen =
    let target = generation_for_evidence f.generations (deployment_id r) r.event_time in
    let attach = not (is_very_late f r) && elim target [ none ↦ false | some i ↦ true ] in
    let e : EvidenceRecord = record { log = r; attach = attach; late = is_late f r } in
    attach_evidence (record f { evidence = put_evidence e f.evidence }) e seen

-- `Observe` of a record that contributes: the state, whether an investigation is requested, and
-- whether the context changed.
unfoldable pub request : Family → Family × Bool
request f = elim (threshold_generation f.generations f.finalized_through) [
  | none ↦ (f, false)
  | some i ↦
      if f.active_investigation
      then (f, false)
      else (record f { active_investigation = true }, true)
]

unfoldable pub set_context : Family → Family
set_context f =
    if f.active_investigation then record f { context_version = generation_count f } else f

unfoldable pub observe_contribution :
    Family → NormalizedLog → Seen → (Family × Seen) × (Bool × Bool)
observe_contribution f r seen =
    let inserted = insert f.ordered r in
    let kept = record f { events = put_log r f.events; ordered = inserted.0 } in
    let grown = if inserted.1 then extend kept r seen else rebuild kept seen in
    let asked = request grown.0 in
    let after = set_context asked.0 in
    let context_updated =
      not asked.1
      && after.active_investigation
      && (not (text_eq (topology f.generations) (topology after.generations))
          || not (f.context_version == after.context_version)) in
    ((after, grown.1), (asked.1, context_updated))

unfoldable pub family_or_new : Text → List (Text × Family) → Family
family_or_new id families = elim (lookup id families) [ none ↦ new_family id | some f ↦ f ]

-- `Observe` of a record that was not seen before, in the family `id`.
unfoldable pub observe_new : Engine → Text → NormalizedLog → Engine × Observed
observe_new e id r =
    let f = arrive (family_or_new id e.families) r in
    let noted = observe_evidence f r e.seen in
    let grown = observe_contribution f r e.seen in
    if is_evidence f r
    then (
      record e { families = store id noted.0 e.families; seen = noted.1 },
      observed (
          update noted.0 (generation_containing noted.0.generations r.record_id) false false false
            (is_late f r) true),
    )
    else (
      record e { families = store id grown.0.0 e.families; seen = grown.0.1 },
      observed (
          update grown.0.0 (generation_containing grown.0.0.generations r.record_id) false grown.1.0
            grown.1.1 false false),
    )

-- `Observe`.
unfoldable pub observe : (NormalizedLog → Option Text) → Engine → NormalizedLog → Engine × Observed
observe family_id e r = elim (family_id r) [
  | none ↦ (e, refused)
  | some id ↦ elim (lookup r.record_id e.seen) [
    | none ↦ observe_new e id r
    | some location ↦ elim (lookup location.incident_id e.families) [
      | none ↦ (e, nil_family)
      | some f ↦ (
        e,
        observed (
            update f (generation_at f location.generation) true false false location.late
              location.evidence),
      )
    ]
  ]
]
