-- ===== src/Tests/Reconstruction.antt =====
-- incident: the reconstruction order and the refolding at concrete inputs.
use cockroachdbxaws.Base.{
  ◌+◌, ◌*◌, arith, inl, Text, refl, blank, text_eq, ◌≡◌, codes, true, [], ◌∷◌, map, All,
}
use mathlib.Core.List.{Perm}
use cockroachdbxaws.Incident.Logs.{
  NormalizedLog, minute, bounded_activity, deployment_id, investigation_eligible, sorts_before,
}
use cockroachdbxaws.Incident.Generation.{add_contribution, satisfied_after, put_log, new_generation}
use cockroachdbxaws.Incident.Family.{Family, new_family}
use cockroachdbxaws.Incident.Episodes.{fold_records, fold_record, starts_episode}
use cockroachdbxaws.Incident.Search.{search_slice, search, search_loop, test_at}
use cockroachdbxaws.Incident.Engine.Transitions.{insert, extend}
use cockroachdbxaws.Incident.Engine.Transitions.Order.{
  InReconstructionOrder, insert-InReconstructionOrder,
}
use cockroachdbxaws.Incident.Engine.Transitions.Refold.{core, extend-refolds}
use cockroachdbxaws.Incident.Engine.Advance.Retention.{ByTime}
use cockroachdbxaws.Incident.Engine.Transitions.{arrive}
use cockroachdbxaws.Incident.Engine.Advance.{advance_frontiers}
use cockroachdbxaws.Incident.Engine.Observe.Frontiers.{FrontiersOrdered, Forward}
use cockroachdbxaws.Incident.Engine.Observe.Reachable.{
  Moves, unmoved, arrives, cycles, is_finalized, Moves-FrontiersOrdered,
}
use cockroachdbxaws.Tests.Incident.{burst, recent}

burst-InReconstructionOrder : InReconstructionOrder burst
unfolding sorts_before
burst-InReconstructionOrder = (
  (refl, (refl, (refl, (refl, tt)))),
  ((refl, (refl, (refl, tt))), ((refl, (refl, tt)), ((refl, tt), (tt, tt)))),
)

insert-InReconstructionOrder_example :
    InReconstructionOrder (insert burst recent).0
    × ByTime (insert burst recent).0
    × Perm (insert burst recent).0 (recent ∷ burst)
    × ((insert burst recent).1 ≡ true → All (λ x. sorts_before x recent ≡ true) burst)
insert-InReconstructionOrder_example =
    insert-InReconstructionOrder burst recent burst-InReconstructionOrder

-- A family that has folded the burst.
abbrev folded : Family
folded = record (new_family (codes "F")) {
  events = burst;
  ordered = burst;
  generations = fold_records [] burst;
}

folded_core : map core folded.generations ≡ fold_records [] burst
unfolding core fold_records fold_record starts_episode add_contribution satisfied_after
    new_generation put_log bounded_activity deployment_id investigation_eligible search_slice search
    search_loop test_at blank text_eq
folded_core = refl

recent-last : (insert burst recent).1 ≡ true
unfolding insert search_slice search search_loop test_at sorts_before
recent-last = refl

extend-refolds_example :
    map core (extend folded recent []).0.generations ≡ fold_records [] (insert burst recent).0
extend-refolds_example = extend-refolds folded recent [] folded_core recent-last

abbrev later : Family
later = advance_frontiers (arrive (new_family (codes "F")) recent) (recent.event_time + 10 * minute)

later-moved : Moves (new_family (codes "F")) later
later-moved = cycles (arrives unmoved recent (omega arith)) (recent.event_time + 10 * minute)

Moves-FrontiersOrdered_example :
    FrontiersOrdered later
    × Forward (new_family (codes "F")) later
    × ((r : NormalizedLog)
        → is_finalized (new_family (codes "F")) r ≡ true
        → is_finalized later r ≡ true)
    × ((id : Text) → FrontiersOrdered (new_family id))
unfolding new_family
Moves-FrontiersOrdered_example =
    Moves-FrontiersOrdered (new_family (codes "F")) later (inl (refl, refl, refl)) later-moved
