-- ===== src/Incident/Family.antt =====
-- incident.go: the state of one incident family, and what is read from it. The generations are a list,
-- a pointer to one of them is its index, and the current generation is the last of them: `extend` and
-- `rebuild` assign no other.
use cockroachdbxaws.Base.{
  ℕ, zero, suc, ◌+◌, ◌-◌, ◌*◌, ◌%◌, ◌^◌, Text, text_eq, Bool, true, false, not, ◌&&◌, ◌||◌, List,
  [], ◌∷◌, ◌++◌, length, get_elem?, Option, none, some, if◌then◌else◌, ltb,
}
use cockroachdbxaws.Incident.Logs.{
  Time, zero_time, is_zero_time, before, NormalizedLog, default_allowed_lateness,
  default_state_retention, default_quiet_period,
}
use cockroachdbxaws.Incident.Generation.{
  Generation, active, quiet, has_log, generation_satisfies_threshold,
}

pub record EvidenceRecord : Type 0 where
  pub log : NormalizedLog
  pub attach : Bool
  pub late : Bool

pub record RecordLocation : Type 0 where
  pub incident_id : Text
  pub generation : ℕ
  pub late : Bool
  pub evidence : Bool

pub record Family : Type 0 where
  pub id : Text
  pub events : List NormalizedLog
  pub evidence : List EvidenceRecord
  pub ordered : List NormalizedLog
  pub generations : List Generation
  pub active_investigation : Bool
  pub context_version : ℕ
  pub max_event_time : Time
  pub watermark : Time
  pub finalized_through : Time
  pub advanced_to : Time
  pub last_activity : Time
  pub pruned_generations : ℕ

unfoldable pub new_family : Text → Family
new_family id = record {
  id = id;
  events = [];
  evidence = [];
  ordered = [];
  generations = [];
  active_investigation = false;
  context_version = 0;
  max_event_time = zero_time;
  watermark = zero_time;
  finalized_through = zero_time;
  advanced_to = zero_time;
  last_activity = zero_time;
  pruned_generations = 0;
}

abbrev pub generation_count : Family → ℕ
generation_count f = f.pruned_generations + length f.generations

unfoldable pub retention_horizon : Family → Time → Time
retention_horizon f now =
    let idle = now - default_allowed_lateness in
    let frontier =
      if not (is_zero_time now) && before f.watermark idle then idle else f.watermark in
    if is_zero_time frontier then zero_time else frontier - default_state_retention

unfoldable pub finalize_through : Family → Time → Family
finalize_through f event_time =
    if is_zero_time f.finalized_through || before f.finalized_through event_time
    then record f { finalized_through = event_time }
    else f

-- The loop `for i := len - 1; i >= 0; i--`; the accumulator is `earliest`.
unfoldable pub evidence_target_loop : List Generation → ℕ → Text → Time → Option ℕ → Option ℕ
evidence_target_loop gs zero deployment event_time earliest = earliest
evidence_target_loop gs (suc i) deployment event_time earliest = elim (get_elem? gs i) [
  | none ↦ earliest
  | some g ↦ elim (text_eq g.deployment deployment) [
    | false ↦ evidence_target_loop gs i deployment event_time earliest
    | true ↦ elim (before event_time g.first_occurrence) [
      | false ↦ some i
      | true ↦ evidence_target_loop gs i deployment event_time (some i)
    ]
  ]
]

unfoldable pub generation_for_evidence : List Generation → Text → Time → Option ℕ
generation_for_evidence gs deployment event_time =
    evidence_target_loop gs (length gs) deployment event_time none

unfoldable pub generation_containing : List Generation → Text → Option Generation
generation_containing [] id = none
generation_containing (g ∷ gs) id =
    if has_log id g.records || has_log id g.evidence then some g else generation_containing gs id

-- `strings.Join` of the deployments, with a zero byte between two.
unfoldable pub topology : List Generation → Text
topology [] = []
topology (g ∷ []) = g.deployment
topology (g ∷ h ∷ gs) = g.deployment ++ 0 ∷ topology (h ∷ gs)

-- The index of the generation that `thresholdGeneration` returns.
unfoldable pub threshold_generation : List Generation → Time → Option ℕ
threshold_generation [] finalized_through = none
threshold_generation (g ∷ gs) finalized_through =
    if generation_satisfies_threshold g finalized_through
    then some 0
    else elim (threshold_generation gs finalized_through) [ none ↦ none | some i ↦ some (suc i) ]

unfoldable pub generation_at : Family → ℕ → Option Generation
generation_at f number =
    if ltb number (1 + f.pruned_generations)
    then none
    else get_elem? f.generations (number - 1 - f.pruned_generations)

unfoldable pub refresh_statuses : Time → List Generation → List Generation
refresh_statuses advanced_to [] = []
refresh_statuses advanced_to (g ∷ gs) =
    let past_quiet =
      not (is_zero_time advanced_to)
      && not (before advanced_to (g.last_activity + default_quiet_period)) in
    let last : Bool = elim gs [ [] ↦ true | h ∷ hs ↦ false ] in
    record g { status = if not last || past_quiet then quiet else active }
    ∷ refresh_statuses advanced_to gs

-- `Add` wraps around after the last instant of a Go `time.Time`.
unfoldable pub strict_successor : Time → Time
strict_successor event_time =
    let successor = (event_time + 1) % (2 ^ 64 * 1_000_000_000) in
    if before event_time successor then successor else event_time
