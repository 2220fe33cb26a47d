-- ===== src/Incident/Engine/Transitions.antt =====
-- incident.go: the transitions of a family: keeping the order, extending the last episode, and the
-- whole reconstruction.
use cockroachdbxaws.Base.{
  ℕ, suc, text_eq, ◌+◌, ◌-◌, Bool, true, false, not, ◌||◌, List, [], ◌∷◌, length, if◌then◌else◌,
  ◌==◌, store,
}
use cockroachdbxaws.Incident.Logs.{
  is_zero_time, before, NormalizedLog, sorts_before, bounded_activity, deployment_id,
  default_reopen_window, default_allowed_lateness,
}
use cockroachdbxaws.Incident.Search.{search_slice, insert_at}
use cockroachdbxaws.Incident.Generation.{Generation, new_generation, add_contribution}
use cockroachdbxaws.Incident.Family.{Family, generation_count, finalize_through, refresh_statuses}
use cockroachdbxaws.Incident.Episodes.{fold_episodes, release_leading_empty}
use cockroachdbxaws.Incident.Evidence.{
  Seen, attach_retained_evidence, index_evidence, index_locations,
}
pub mod Order
pub mod Refold

-- `insert`: the order after it, and whether the record landed at its end.
unfoldable pub insert : List NormalizedLog → NormalizedLog → List NormalizedLog × Bool
insert ordered r =
    let index = search_slice (λ x. not (sorts_before x r)) ordered in
    (insert_at index r ordered, index == length ordered)

-- The condition of `extend`, of which `foldEpisodes` has a copy of its own.
unfoldable pub begins_episode : Generation → NormalizedLog → Bool
begins_episode g r =
    not (text_eq g.deployment (deployment_id r))
    || not (before (bounded_activity r) (g.last_activity + default_reopen_window))

-- `extend` would append a generation.
unfoldable pub starts_generation : List Generation → NormalizedLog → Bool
starts_generation [] r = true
starts_generation (g ∷ []) r = begins_episode g r
starts_generation (g ∷ h ∷ gs) r = starts_generation (h ∷ gs) r

-- The record is added to the last generation, or to a new one with this number.
unfoldable pub extend_last : ℕ → List Generation → NormalizedLog → List Generation
extend_last number [] r = add_contribution (new_generation number (deployment_id r)) r ∷ []
extend_last number (g ∷ []) r =
    if begins_episode g r
    then g ∷ add_contribution (new_generation number (deployment_id r)) r ∷ []
    else add_contribution g r ∷ []
extend_last number (g ∷ h ∷ gs) r = g ∷ extend_last number (h ∷ gs) r

unfoldable pub last_number : List Generation → ℕ
last_number [] = 0
last_number (g ∷ []) = g.number
last_number (g ∷ h ∷ gs) = last_number (h ∷ gs)

unfoldable pub extend : Family → NormalizedLog → Seen → Family × Seen
extend f r seen =
    let created = starts_generation f.generations r in
    let folded = extend_last (generation_count f + 1) f.generations r in
    let refreshed = refresh_statuses f.advanced_to folded in
    let attached = if created then attach_retained_evidence f.evidence refreshed else refreshed in
    let indexed = if created then index_evidence f.id attached f.evidence seen else seen in
    (
      record f { generations = attached },
      store r.record_id
          (record {
            incident_id = f.id;
            generation = last_number attached;
            late = false;
            evidence = false;
          })
          indexed,
    )

unfoldable pub renumber : ℕ → List Generation → List Generation
renumber number [] = []
renumber number (g ∷ gs) = record g { number = number } ∷ renumber (suc number) gs

unfoldable pub rebuild : Family → Seen → Family × Seen
rebuild f seen =
    let folded =
      attach_retained_evidence f.evidence (fold_episodes f.ordered f.events f.generations) in
    let released = release_leading_empty folded in
    let pruned = f.pruned_generations + released.0 in
    let rebuilt = record f {
      pruned_generations = pruned;
      generations = refresh_statuses f.advanced_to (renumber (pruned + 1) released.1);
    } in
    (rebuilt, index_locations rebuilt seen)

-- The frontiers that the arrival of a record moves.
unfoldable pub arrive : Family → NormalizedLog → Family
arrive f r =
    let moved =
      if is_zero_time f.max_event_time || before f.max_event_time r.event_time
      then finalize_through
          (record f {
            max_event_time = r.event_time;
            watermark = r.event_time - default_allowed_lateness;
          })
          (r.event_time - default_allowed_lateness)
      else f in
    if before moved.last_activity (bounded_activity r)
    then record moved { last_activity = bounded_activity r }
    else moved
