-- ===== src/Incident/Engine.antt =====
-- incident.go: the engine and its operations. The digest of the record's fingerprint is a parameter:
-- `family_id` answers `none` when `fingerprint.Error` refuses the record, and the family's identifier
-- otherwise. The mutex serialises the operations, so each is one step from state to state.
use cockroachdbxaws.Base.{
  ℕ, zero, suc, ◌+◌, ◌-◌, Text, text_eq, text_lt, Bool, true, false, not, ◌&&◌, ◌||◌, List, [], ◌∷◌,
  ◌++◌, length, any, get_elem?, Option, none, some, if◌then◌else◌, ltb, leb, ◌==◌, lookup, store,
  delete,
}
use cockroachdbxaws.Incident.Logs.{
  Time, zero_time, is_zero_time, before, NormalizedLog, sorts_before, deployment_id,
  bounded_activity, default_allowed_lateness, default_state_retention, default_quiet_period,
}
use cockroachdbxaws.Incident.Search.{search_slice, insert_at}
use cockroachdbxaws.Incident.Generation.{
  Generation, DetectionStatus, active, put_log, count_in_window, occurrence_count,
}
use cockroachdbxaws.Incident.Family.{
  Family, EvidenceRecord, RecordLocation, new_family, generation_count, finalize_through,
  generation_for_evidence, generation_containing, topology, threshold_generation, generation_at,
  refresh_statuses,
}
use cockroachdbxaws.Incident.Episodes.{
  starts_episode, fold_record, fold_episodes, release_leading_empty,
}
use cockroachdbxaws.Incident.Evidence.{
  Seen, attach_retained_evidence, index_evidence, index_locations, put_evidence, attach_evidence,
}
pub mod Transitions
pub mod Observe
pub mod Advance

pub record Engine : Type 0 where
  pub families : List (Text × Family)
  pub seen : Seen
  pub pruned_seen : ℕ
  pub pinned : List Text

pub record Update : Type 0 where
  pub incident_id : Text
  pub generation : ℕ
  pub generation_count : ℕ
  pub deployment : Text
  pub occurrence_count : ℕ
  pub window_count : ℕ
  pub watermark_window_count : ℕ
  -- `none` is the empty status of an update that names no generation.
  pub detection_status : Option DetectionStatus
  pub duplicate : Bool
  pub investigation_requested : Bool
  pub active_investigation : Bool
  pub context_version : ℕ
  pub context_updated : Bool
  pub watermark : Time
  pub late : Bool
  pub evidence_only : Bool

-- What `Observe` returns, or its failure: `fingerprint.Error` refuses the record, or a seen record's
-- family is gone and `update` follows a nil pointer.
pub data Observed : Type 0 where
  refused : Observed
  nil_family : Observed
  observed : Update → Observed

abbrev pub new_engine : Engine
new_engine = record { families = []; seen = []; pruned_seen = 0; pinned = [] }

-- `Pin`: the set is replaced.
unfoldable pub pin : Engine → List Text → Engine
pin e ids = record e { pinned = ids }

-- `update`, without a generation and with one.
unfoldable pub update_family :
    Family → (duplicate requested context_updated late evidence_only : Bool) → Update
update_family f duplicate requested context_updated late evidence_only = record {
  incident_id = f.id;
  generation = 0;
  generation_count = generation_count f;
  deployment = [];
  occurrence_count = 0;
  window_count = 0;
  watermark_window_count = 0;
  detection_status = none;
  duplicate = duplicate;
  investigation_requested = requested;
  active_investigation = f.active_investigation;
  context_version = f.context_version;
  context_updated = context_updated;
  watermark = f.watermark;
  late = late;
  evidence_only = evidence_only;
}

unfoldable pub update :
    Family
    → Option Generation
    → (duplicate requested context_updated late evidence_only : Bool) → Update
update f none duplicate requested context_updated late evidence_only =
    update_family f duplicate requested context_updated late evidence_only
update f (some g) duplicate requested context_updated late evidence_only =
    record (update_family f duplicate requested context_updated late evidence_only) {
      generation = g.number;
      deployment = g.deployment;
      occurrence_count = occurrence_count g;
      window_count = count_in_window g g.max_event_time;
      watermark_window_count = count_in_window g f.watermark;
      detection_status = some g.status;
    }
