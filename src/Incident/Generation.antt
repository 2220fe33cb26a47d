-- ===== src/Incident/Generation.antt =====
-- incident.go: one episode (`generation`), the contribution of a record, and its counts. The maps
-- keyed by record identifier are lists of records with distinct identifiers.
use cockroachdbxaws.Base.{
  ℕ, zero, suc, ◌+◌, ◌-◌, Text, text_eq, Bool, true, false, not, ◌&&◌, ◌||◌, List, [], ◌∷◌, ◌++◌,
  length, any, if◌then◌else◌, leb, ltb,
}
use cockroachdbxaws.Incident.Logs.{
  Time, zero_time, is_zero_time, before, NormalizedLog, bounded_activity, deployment_id,
  investigation_eligible, default_investigation_window, default_investigation_threshold,
  default_reopen_window,
}
use cockroachdbxaws.Incident.Search.{search_slice}
use cockroachdbxaws.Incident.Window.{count_in_sorted_window}
pub mod Threshold
pub mod Fold

pub data DetectionStatus : Type 0 where
  active quiet : DetectionStatus

pub record Generation : Type 0 where
  pub number : ℕ
  pub deployment : Text
  pub status : DetectionStatus
  pub first_occurrence : Time
  pub latest_occurrence : Time
  pub last_activity : Time
  pub max_event_time : Time
  pub records : List NormalizedLog
  pub evidence : List NormalizedLog
  pub times : List Time
  pub evidence_times : List Time
  pub eligible : List Time
  pub satisfied_at : Time

unfoldable pub new_generation : ℕ → Text → Generation
new_generation number deployment = record {
  number = number;
  deployment = deployment;
  status = active;
  first_occurrence = zero_time;
  latest_occurrence = zero_time;
  last_activity = zero_time;
  max_event_time = zero_time;
  records = [];
  evidence = [];
  times = [];
  evidence_times = [];
  eligible = [];
  satisfied_at = zero_time;
}

-- `m[r.RecordID] = r`.
unfoldable pub put_log : NormalizedLog → List NormalizedLog → List NormalizedLog
put_log r [] = r ∷ []
put_log r (x ∷ xs) = if text_eq x.record_id r.record_id then r ∷ xs else x ∷ put_log r xs

-- `_, ok := m[id]`.
unfoldable pub has_log : Text → List NormalizedLog → Bool
has_log id [] = false
has_log id (x ∷ xs) = text_eq x.record_id id || has_log id xs

-- `if kept.IsZero() || t.After(kept) { kept = t }`, and the same with `Before`.
abbrev pub latest : Time → Time → Time
latest kept t = if is_zero_time kept || before kept t then t else kept

abbrev pub earliest : Time → Time → Time
earliest kept t = if is_zero_time kept || before t kept then t else kept

-- The threshold test of `addContribution` at an eligible record's event time, which has already been
-- appended to `eligible`.
unfoldable pub satisfied_after : List Time → Time → Time → Time
satisfied_after eligible satisfied_at t =
    let first = search_slice (λ u. before (t - default_investigation_window) u) eligible in
    if not (is_zero_time satisfied_at)
    then satisfied_at
    else if leb default_investigation_threshold (length eligible - first)
    then t
    else satisfied_at

unfoldable pub add_contribution : Generation → NormalizedLog → Generation
add_contribution g r =
    let eligible =
      if investigation_eligible r then g.eligible ++ r.event_time ∷ [] else g.eligible in
    record g {
      records = put_log r g.records;
      times = g.times ++ r.event_time ∷ [];
      eligible = eligible;
      satisfied_at =
          if investigation_eligible r
          then satisfied_after eligible g.satisfied_at r.event_time
          else g.satisfied_at;
      first_occurrence = earliest g.first_occurrence r.event_time;
      latest_occurrence = latest g.latest_occurrence r.event_time;
      max_event_time = latest g.max_event_time r.event_time;
      last_activity = latest g.last_activity (bounded_activity r);
    }

unfoldable pub occurrence_count : Generation → ℕ
occurrence_count g = length g.records + length g.evidence

unfoldable pub count_in_window : Generation → Time → ℕ
count_in_window g watermark =
    count_in_sorted_window g.times watermark + count_in_sorted_window g.evidence_times watermark

-- `generationSatisfiesThreshold`.
unfoldable pub generation_satisfies_threshold : Generation → Time → Bool
generation_satisfies_threshold g finalized_through =
    not (is_zero_time g.satisfied_at) && before g.satisfied_at finalized_through
