-- ===== src/Incident/Engine/Advance.antt =====
-- incident.go: `Advance`, and the compaction that ends it.
use cockroachdbxaws.Base.{
  ℕ, zero, suc, ◌+◌, ◌-◌, Text, text_eq, text_lt, Bool, true, false, not, ◌&&◌, ◌||◌, List, [], ◌∷◌,
  ◌++◌, length, any, get_elem?, Option, none, some, if◌then◌else◌, ltb, leb, ◌==◌, lookup, store,
  delete,
}
use cockroachdbxaws.Incident.Logs.{
  Time, zero_time, is_zero_time, before, NormalizedLog, sorts_before, deployment_id,
  bounded_activity, default_allowed_lateness, default_state_retention, default_quiet_period,
  default_reinvestigation_interval,
}
use cockroachdbxaws.Incident.Search.{search_slice, insert_at}
use cockroachdbxaws.Incident.Generation.{
  Generation, DetectionStatus, active, quiet, put_log, count_in_window, occurrence_count,
}
use cockroachdbxaws.Incident.Family.{
  Family, EvidenceRecord, RecordLocation, new_family, generation_count, finalize_through,
  generation_for_evidence, generation_containing, topology, threshold_generation, generation_at,
  refresh_statuses, retention_horizon, strict_successor,
}
use cockroachdbxaws.Incident.Episodes.{
  starts_episode, fold_record, fold_episodes, release_leading_empty,
}
use cockroachdbxaws.Incident.Evidence.{
  Seen, attach_retained_evidence, index_evidence, index_locations, put_evidence, attach_evidence,
}
use cockroachdbxaws.Incident.Engine.{
  Engine, Update, Observed, refused, nil_family, observed, update,
}
use cockroachdbxaws.Incident.Engine.Transitions.{rebuild}
pub mod Retention

-- The frontiers and the statuses that a cycle moves.
unfoldable pub advance_frontiers : Family → Time → Family
advance_frontiers f now =
    let advanced =
      if is_zero_time f.advanced_to || before f.advanced_to now
      then record f { advanced_to = now }
      else f in
    let deadline = now - default_allowed_lateness in
    let maximum = strict_successor f.max_event_time in
    let frontier = if before maximum deadline then maximum else deadline in
    let finalized =
      if not (is_zero_time f.max_event_time)
      then finalize_through advanced frontier
      else advanced in
    record finalized { generations = refresh_statuses finalized.advanced_to finalized.generations }

unfoldable pub advance_request : Family → Family × Option ℕ
advance_request f = elim (threshold_generation f.generations f.finalized_through) [
  | none ↦ (f, none)
  | some i ↦
      if f.active_investigation
      then (f, none)
      else (record f { active_investigation = true; context_version = generation_count f }, some i)
]

-- `old[number] == DetectionActive`: the last generation with the number is active.
unfoldable pub was_active : ℕ → List Generation → Bool → Bool
was_active number [] found = found
was_active number (g ∷ gs) found =
    was_active number gs
      (if g.number == number then elim g.status [ active ↦ true | quiet ↦ false ] else found)

abbrev pub is_quiet : Generation → Bool
is_quiet g = elim g.status [ active ↦ false | quiet ↦ true ]

abbrev pub same_index : ℕ → Option ℕ → Bool
same_index i none = false
same_index i (some j) = i == j

-- The updates of the generations that became quiet, but for the requested one.
unfoldable pub quiet_updates :
    Family → List Generation → Option ℕ → ℕ → List Generation → List Update
quiet_updates f old requested i [] = []
quiet_updates f old requested i (g ∷ gs) =
    let rest = quiet_updates f old requested (suc i) gs in
    if was_active g.number old false && is_quiet g && not (same_index i requested)
    then update f (some g) false false false false false ∷ rest
    else rest

-- The kept and the released records; the first `cut` are behind the horizon.
unfoldable pub prune_ordered :
    List Text → ℕ → List NormalizedLog → List NormalizedLog × List NormalizedLog
prune_ordered pinned cut [] = ([], [])
prune_ordered pinned zero (r ∷ rs) = (r ∷ rs, [])
prune_ordered pinned (suc cut) (r ∷ rs) =
    let rest = prune_ordered pinned cut rs in
    if any (text_eq r.record_id) pinned then (r ∷ rest.0, rest.1) else (rest.0, r ∷ rest.1)

unfoldable pub prune_evidence :
    List Text → Time → List EvidenceRecord → List EvidenceRecord × List NormalizedLog
prune_evidence pinned horizon [] = ([], [])
prune_evidence pinned horizon (x ∷ xs) =
    let rest = prune_evidence pinned horizon xs in
    if before x.log.event_time horizon && not (any (text_eq x.log.record_id) pinned)
    then (rest.0, x.log ∷ rest.1)
    else (x ∷ rest.0, rest.1)

unfoldable pub remove_log : Text → List NormalizedLog → List NormalizedLog
remove_log id [] = []
remove_log id (x ∷ xs) = if text_eq x.record_id id then remove_log id xs else x ∷ remove_log id xs

unfoldable pub remove_logs : List NormalizedLog → List NormalizedLog → List NormalizedLog
remove_logs [] events = events
remove_logs (r ∷ rs) events = remove_logs rs (remove_log r.record_id events)

-- `forget` of each.
unfoldable pub forget_logs : List NormalizedLog → Seen → Seen
forget_logs [] seen = seen
forget_logs (r ∷ rs) seen = forget_logs rs (delete r.record_id seen)

abbrev pub cut_at : Time → List NormalizedLog → ℕ
cut_at horizon ordered = search_slice (λ r. not (before r.event_time horizon)) ordered

-- `prune`: the family, the seen identities, and how many were released.
unfoldable pub prune : List Text → Family → Time → Seen → (Family × Seen) × ℕ
prune pinned f now seen =
    let horizon = retention_horizon f now in
    let records = prune_ordered pinned (cut_at horizon f.ordered) f.ordered in
    let noted = prune_evidence pinned horizon f.evidence in
    if is_zero_time horizon then ((f, seen), 0) else (
      (
        record f {
          ordered = records.0;
          events = remove_logs records.1 f.events;
          evidence = noted.0;
        },
        forget_logs noted.1 (forget_logs records.1 seen),
      ),
      length records.1 + length noted.1,
    )

-- `compact`.
unfoldable pub compact : Engine → Text → Family → Time → Engine
compact e id f now =
    let pruned = prune e.pinned f now e.seen in
    let rebuilt = if pruned.1 == 0 then pruned.0 else rebuild pruned.0.0 pruned.0.1 in
    let left = rebuilt.0 in
    let empty = (length left.events == 0) && (length left.evidence == 0) in
    let suppresses =
      left.active_investigation
      && before now (left.last_activity + default_reinvestigation_interval) in
    record e {
      families = if empty && not suppresses then delete id e.families else store id left e.families;
      seen = rebuilt.1;
      pruned_seen = e.pruned_seen + pruned.1;
    }

-- `compactSeen`: the rebuilt map holds the same entries.
unfoldable pub compact_seen : Engine → Engine
compact_seen e =
    if ltb e.pruned_seen 1_024 || leb e.pruned_seen (length e.seen)
    then e
    else record e { pruned_seen = 0 }

-- One round of `Advance`.
unfoldable pub advance_family : Engine → Text → Time → Engine × List Update
advance_family e id now = elim (lookup id e.families) [
  | none ↦ (e, [])
  | some f ↦
      let asked = advance_request (advance_frontiers f now) in
      let launched : List Update = elim asked.1 [
        | none ↦ []
        | some i ↦
            update asked.0 (get_elem? asked.0.generations i) false true false false false ∷ []
      ] in
      let quieted = quiet_updates asked.0 f.generations asked.1 0 asked.0.generations in
      (
        compact (record e { families = store id asked.0 e.families }) id asked.0 now,
        launched ++ quieted,
      )
]

unfoldable pub advance_families : Engine → List Text → Time → Engine × List Update
advance_families e [] now = (e, [])
advance_families e (id ∷ ids) now =
    let first = advance_family e id now in
    let rest = advance_families first.0 ids now in (rest.0, first.1 ++ rest.1)

unfoldable pub insert_id : Text → List Text → List Text
insert_id id [] = id ∷ []
insert_id id (x ∷ xs) = if text_lt x id then x ∷ insert_id id xs else id ∷ x ∷ xs

-- `sort.Strings` of the keys.
unfoldable pub sorted_ids : List (Text × Family) → List Text
sorted_ids [] = []
sorted_ids (e ∷ es) = insert_id e.0 (sorted_ids es)

-- `Advance`.
unfoldable pub advance : Engine → Time → Engine × List Update
advance e now =
    let done = advance_families e (sorted_ids e.families) now in (compact_seen done.0, done.1)
