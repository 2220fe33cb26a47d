-- ===== src/Tests/Engine.antt =====
-- incident: a burst of errors through the whole engine.
use cockroachdbxaws.Base.{
  ◌+◌, ◌*◌, ◌≡◌, refl, Text, codes, Bool, true, List, [], ◌∷◌, map, Option, some, text_eq, text_lt,
  blank, lookup, store,
}
use cockroachdbxaws.Model.{severity_class_error}
use cockroachdbxaws.Incident.Logs.{
  NormalizedLog, zero_time, minute, enrichment_available, bounded_activity, deployment_id,
  investigation_eligible, sorts_before,
}
use cockroachdbxaws.Incident.Search.{search_slice, search, search_loop, test_at, insert_at}
use cockroachdbxaws.Incident.Generation.{
  new_generation, put_log, has_log, add_contribution, satisfied_after,
  generation_satisfies_threshold,
}
use cockroachdbxaws.Incident.Family.{
  new_family, finalize_through, generation_containing, threshold_generation, refresh_statuses,
  strict_successor, retention_horizon,
}
use cockroachdbxaws.Incident.Episodes.{starts_episode, fold_record}
use cockroachdbxaws.Incident.Evidence.{
  attach_each, detach_all, attach_retained_evidence, index_evidence,
}
use cockroachdbxaws.Incident.Engine.{Engine, Update, update, update_family, new_engine}
use cockroachdbxaws.Incident.Engine.Transitions.{
  insert, extend_last, begins_episode, starts_generation, last_number, extend, arrive,
}
use cockroachdbxaws.Incident.Engine.Observe.{
  observe, observe_new, observe_contribution, request, set_context, family_or_new,
}
use cockroachdbxaws.Incident.Engine.Advance.{
  advance, advance_families, advance_family, advance_frontiers, advance_request, quiet_updates,
  was_active, compact, prune, prune_ordered, prune_evidence, remove_logs, compact_seen, sorted_ids,
  insert_id,
}

abbrev error : Text → NormalizedLog
error id = record {
  record_id = id;
  event_time = zero_time + 60 * minute;
  observed_time = zero_time + 60 * minute;
  deployment = codes "d1";
  severity_class = severity_class_error;
  service_status = enrichment_available;
  service_name = codes "checkout";
  service_environment = codes "production";
}

abbrev one_family : NormalizedLog → Option Text
one_family r = some (codes "F")

abbrev seen_by : Engine → NormalizedLog → Engine
seen_by e r = (observe one_family e r).0

abbrev four : Engine
four =
    seen_by
      (seen_by (seen_by (seen_by new_engine (error (codes "a"))) (error (codes "b")))
        (error (codes "c")))
      (error (codes "d"))

abbrev five : Engine
five = seen_by four (error (codes "e"))

abbrev requests : Engine → List Bool
requests e = map (λ (u : Update). u.investigation_requested) (advance e (zero_time + 70 * minute)).1

-- When the errors' time is final, four of them request nothing, five request one investigation, and the
-- next cycle requests no other.
threshold_run :
    (requests four ≡ [])
    × (requests five ≡ true ∷ [])
    × (requests (advance five (zero_time + 70 * minute)).0 ≡ [])
unfolding observe observe_new observe_contribution request set_context family_or_new arrive insert
    extend extend_last begins_episode starts_generation last_number fold_record starts_episode
    add_contribution satisfied_after new_generation put_log has_log bounded_activity deployment_id
    investigation_eligible sorts_before search_slice search search_loop test_at insert_at new_family
    finalize_through generation_containing threshold_generation refresh_statuses
    generation_satisfies_threshold attach_each detach_all attach_retained_evidence index_evidence
    text_eq text_lt blank lookup store advance advance_families advance_family advance_frontiers
    advance_request quiet_updates was_active compact prune prune_ordered prune_evidence compact_seen
    sorted_ids insert_id strict_successor retention_horizon update update_family remove_logs
threshold_run = (refl, refl, refl)
