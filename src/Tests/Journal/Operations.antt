-- ===== src/Tests/Journal/Operations.antt =====
-- internal/journal: a batch of one record is appended, claimed and committed.
use cockroachdbxaws.Base.{
  ℕ, ◌≡◌, refl, codes, true, false, List, [], ◌∷◌, some, pos, All, length, ◌⊎◌, ◌≤◌, text_eq,
  text_lt, blank, lookup, store, delete, select, all_runes, all_runes_from,
}
use cockroachdbxaws.Incident.Search.{search_slice, search, search_loop, test_at}
use cockroachdbxaws.Journal.Results.{Result, ok, err}
use cockroachdbxaws.Journal.State.{Journal}
use cockroachdbxaws.Journal.Append.{Admission}
use cockroachdbxaws.Journal.Claims.{ClaimedRecord, CommitClaim}
use cockroachdbxaws.Journal.Safety.{OperationsSound, operations-Sound, append_batch-Grown}
use cockroachdbxaws.Journal.Mutation.Bounds.{Fits}
use cockroachdbxaws.Journal.Mutation.Overlay.{commit_mutation-reads}
use cockroachdbxaws.Journal.Commits.Fencing.{Fenced, mark_committed_batch-Fenced}
use cockroachdbxaws.Journal.Commits.Durability.{Durable, mark_committed_batch-Durable}
use cockroachdbxaws.Journal.Claims.Attempts.{Claimed, claim-Claimed}
use cockroachdbxaws.Tests.Journal.Laws.{world-StoreLaws, digest-size}
use cockroachdbxaws.Tests.Journal.{
  at_nanos, Entries, world, at_time, log, id, digest, config, apply_ops, insert_entry, sorted,
  scan_of, repeat,
}
use cockroachdbxaws.Journal.Bytes.{
  uvarint_bytes, uvarint, read_uvarint_from, read_uvarint, big_endian, read_big_endian,
  append_bytes, take_bytes, equal32, checked, unchecked,
}
use cockroachdbxaws.Journal.Times.{
  Time, uint64, int64, unix_nano, from_unix_nano, valid_journal_time, safe_add,
}
use cockroachdbxaws.Journal.Identifiers.{
  valid_identifier, valid_record_id, valid_claim_token, valid_classification, classification_rank,
  fmt_hex, claim_token,
}
use cockroachdbxaws.Journal.Codec.{
  append_optional_time, read_optional_time, valid_state, valid_stored, stored_of, encode_stored,
  decode_stored,
}
use cockroachdbxaws.Journal.Codec.Values.{
  append_strings, read_strings, encode_strings, decode_strings, format_value, usage_value,
  decode_usage, append_counts, priority_value, read_counts, decode_priority, zeros, reserve_value,
}
use cockroachdbxaws.Journal.Codec.Batches.{
  strings_are_sorted, no_equal_neighbours, sorted_unique, batch_member_by_id, append_members,
  read_members, read_live, valid_batch, encode_batch, decode_batch,
}
use cockroachdbxaws.Journal.Codec.Quarantines.{
  metadata_of, encode_quarantine, encode_legacy_quarantine, decode_quarantine,
}
use cockroachdbxaws.Journal.Keys.{
  append_component, append_components, key, key_format, key_owner, key_usage, key_priority,
  key_boundary, batch_key, record_key, quarantine_key, batch_ref_key, batch_ref_prefix,
  transition_reserve_key, batch_original_ref_key, batch_original_ref_prefix, append_ordered_time,
  pending_key, claim_key, committed_key, read_component, parse_pending_key, parse_timed_key,
  parse_two_component_key, prefix_end,
}
use cockroachdbxaws.Journal.State.{
  after_error, valid_record_boundary, boundary_value, verify_manifest, usable, load_record,
  validate_empty_index, validate_transition_reserve, valid_record_times,
}
use cockroachdbxaws.Journal.Mutation.{
  Mutation, new_mutation, set, del, add_priority, sub_priority, next_priorities, insert_op,
  sorted_ops, is_manifest_key, mutation_get, cost, discharge, charge, next_usage, check_room,
  prepare_commit, apply_writes, commit_mutation,
}
use cockroachdbxaws.Journal.References.{
  batch_refs_loop, batch_refs, del_original_refs, remove_refs_loop, remove_batch_refs,
  check_reference, history_loop, validate_historical_identity, stored_batch_loop,
  validate_stored_batch,
}
use cockroachdbxaws.Journal.Append.{
  insert_prepared, sorted_prepared, equal_strings, same_members, prepare_one, prepare, replay_batch,
  refer_to, replay_quarantined, add_pending, append_record, append_records, refer_originals,
  add_batch, append_plan, append_batch,
}
use cockroachdbxaws.Journal.Claims.{
  expire_loop, expire_claims, claim_expired, claim_loop, claim_pending, commit_with, claim,
  adopt_loop, adopt_plan, adopt_claims, check_indexes, renew_loop, renew_plan, renew_claims,
}
use cockroachdbxaws.Journal.Commits.{
  commit_one, commit_loop, commit_plan, mark_committed_batch, mark_committed, quarantine_plan,
  quarantine,
}
use cockroachdbxaws.Journal.Retention.{
  compact_loop, compact_plan, compact, capacity_of, count_state, stats_loop, count_entries,
  count_namespace, stats_plan, stats_of,
}

abbrev zeros4 : List ℕ
zeros4 = 0 ∷ 0 ∷ 0 ∷ 0 ∷ []

abbrev opened : Journal Entries
opened = record {
  db =
      (key_format, format_value digest)
      ∷ (key_owner, checked digest (codes "JOW1") config.owner)
      ∷ (key_boundary, boundary_value world)
      ∷ (key_usage, usage_value digest 0)
      ∷ (key_priority, priority_value digest zeros4)
      ∷ [];
  usage = 0;
  priorities = zeros4;
  healthy = true;
  closed = false;
}

abbrev admission : Admission
admission = record { record' = log; priority = 1 }

abbrev appended : Result (Unit {0}) × Journal Entries
appended = append_batch world (at_time 200) opened (codes "b1") (admission ∷ [])

abbrev claimed : Result (List ClaimedRecord) × Journal Entries
claimed = claim world (at_time 300) appended.1 (pos 10) (codes "worker")

abbrev claims_of : Result (List ClaimedRecord) → List CommitClaim
claims_of (err e) = []
claims_of (ok []) = []
claims_of (ok (c ∷ cs)) = record { record_id = id; token = c.token } ∷ []

abbrev marked : Result (Unit {0}) × Journal Entries
marked = mark_committed_batch world (at_time 400) claimed.1 (claims_of claimed.0)

abbrev returned : Result (List ClaimedRecord) → List ClaimedRecord
returned (err e) = []
returned (ok cs) = cs

abbrev claims : List CommitClaim
claims = claims_of claimed.0

-- The record is appended, claimed and committed.
marked_ok : (appended.0 ≡ ok tt) × (length claims ≡ 1) × (marked.0 ≡ ok tt)
unfolding text_eq text_lt blank lookup store delete select all_runes all_runes_from search_slice
    search search_loop test_at apply_ops insert_entry sorted scan_of repeat uvarint_bytes uvarint
    read_uvarint_from read_uvarint big_endian read_big_endian append_bytes take_bytes equal32
    checked unchecked uint64 int64 unix_nano from_unix_nano valid_journal_time safe_add
    valid_identifier valid_record_id valid_claim_token valid_classification classification_rank
    fmt_hex claim_token append_optional_time read_optional_time valid_state valid_stored stored_of
    encode_stored decode_stored append_strings read_strings encode_strings decode_strings
    format_value usage_value decode_usage append_counts priority_value read_counts decode_priority
    zeros reserve_value strings_are_sorted no_equal_neighbours sorted_unique batch_member_by_id
    append_members read_members read_live valid_batch encode_batch decode_batch metadata_of
    encode_quarantine encode_legacy_quarantine decode_quarantine append_component append_components
    key key_format key_owner key_usage key_priority key_boundary batch_key record_key quarantine_key
    batch_ref_key batch_ref_prefix transition_reserve_key batch_original_ref_key
    batch_original_ref_prefix append_ordered_time pending_key claim_key committed_key read_component
    parse_pending_key parse_timed_key parse_two_component_key prefix_end after_error
    valid_record_boundary boundary_value verify_manifest usable load_record validate_empty_index
    validate_transition_reserve valid_record_times set del add_priority sub_priority next_priorities
    insert_op sorted_ops is_manifest_key mutation_get cost discharge charge next_usage check_room
    prepare_commit apply_writes commit_mutation batch_refs_loop batch_refs del_original_refs
    remove_refs_loop remove_batch_refs check_reference history_loop validate_historical_identity
    stored_batch_loop validate_stored_batch insert_prepared sorted_prepared equal_strings
    same_members prepare_one prepare replay_batch refer_to replay_quarantined add_pending
    append_record append_records refer_originals add_batch append_plan append_batch expire_loop
    expire_claims claim_expired claim_loop claim_pending commit_with claim adopt_loop adopt_plan
    adopt_claims check_indexes renew_loop renew_plan renew_claims commit_one commit_loop commit_plan
    mark_committed_batch mark_committed quarantine_plan quarantine compact_loop compact_plan compact
    capacity_of count_state stats_loop count_entries count_namespace stats_plan stats_of
marked_ok = (refl, refl, refl)

claimed_ok : claimed.0 ≡ ok (returned claimed.0)
unfolding text_eq text_lt blank lookup store delete select all_runes all_runes_from search_slice
    search search_loop test_at apply_ops insert_entry sorted scan_of repeat uvarint_bytes uvarint
    read_uvarint_from read_uvarint big_endian read_big_endian append_bytes take_bytes equal32
    checked unchecked uint64 int64 unix_nano from_unix_nano valid_journal_time safe_add
    valid_identifier valid_record_id valid_claim_token valid_classification classification_rank
    fmt_hex claim_token append_optional_time read_optional_time valid_state valid_stored stored_of
    encode_stored decode_stored append_strings read_strings encode_strings decode_strings
    format_value usage_value decode_usage append_counts priority_value read_counts decode_priority
    zeros reserve_value strings_are_sorted no_equal_neighbours sorted_unique batch_member_by_id
    append_members read_members read_live valid_batch encode_batch decode_batch metadata_of
    encode_quarantine encode_legacy_quarantine decode_quarantine append_component append_components
    key key_format key_owner key_usage key_priority key_boundary batch_key record_key quarantine_key
    batch_ref_key batch_ref_prefix transition_reserve_key batch_original_ref_key
    batch_original_ref_prefix append_ordered_time pending_key claim_key committed_key read_component
    parse_pending_key parse_timed_key parse_two_component_key prefix_end after_error
    valid_record_boundary boundary_value verify_manifest usable load_record validate_empty_index
    validate_transition_reserve valid_record_times set del add_priority sub_priority next_priorities
    insert_op sorted_ops is_manifest_key mutation_get cost discharge charge next_usage check_room
    prepare_commit apply_writes commit_mutation batch_refs_loop batch_refs del_original_refs
    remove_refs_loop remove_batch_refs check_reference history_loop validate_historical_identity
    stored_batch_loop validate_stored_batch insert_prepared sorted_prepared equal_strings
    same_members prepare_one prepare replay_batch refer_to replay_quarantined add_pending
    append_record append_records refer_originals add_batch append_plan append_batch expire_loop
    expire_claims claim_expired claim_loop claim_pending commit_with claim adopt_loop adopt_plan
    adopt_claims check_indexes renew_loop renew_plan renew_claims commit_one commit_loop commit_plan
    mark_committed_batch mark_committed quarantine_plan quarantine compact_loop compact_plan compact
    capacity_of count_state stats_loop count_entries count_namespace stats_plan stats_of
claimed_ok = refl

mark_committed_batch-Durable_example : All (Durable world marked.1.db) claims
mark_committed_batch-Durable_example =
    mark_committed_batch-Durable world world-StoreLaws digest-size (at_time 400) claimed.1 claims
      marked_ok.2

mark_committed_batch-Fenced_example : All (Fenced world claimed.1.db (at_nanos 400)) claims
mark_committed_batch-Fenced_example =
    mark_committed_batch-Fenced world (at_time 400) claimed.1 claims marked_ok.2

operations-Sound_example : OperationsSound world (at_time 400) claimed.1
operations-Sound_example = operations-Sound world (at_time 400) claimed.1

append_batch-Grown_example : (appended.1.usage ≤ 0) ⊎ Fits world (at_time 200) 0 appended.1.usage
append_batch-Grown_example =
    append_batch-Grown world (at_time 200) opened (codes "b1") (admission ∷ [])

claim-Claimed_example :
    (returned claimed.0 ≡ [])
    ⊎ ((expiry : Time) × (safe_add (at_nanos 300) (pos 1_000) ≡ some expiry)
        × All
            (Claimed world
              (commit_with world
                (at_time 300)
                appended.1
                (claim_expired world (at_time 300) appended.1 (pos 10) (codes "worker"))).1.db
              (codes "worker")
              expiry)
            (returned claimed.0)
        × (length (returned claimed.0) ≤ 10))
claim-Claimed_example =
    claim-Claimed world (at_time 300) appended.1 (pos 10) (codes "worker") (returned claimed.0)
      claimed_ok

abbrev change : Mutation
change = record new_mutation { ops = (codes "k", some (codes "v")) ∷ [] }

change-committed :
    ((commit_mutation world (at_time 200) opened change true).0 ≡ ok tt)
    × (text_eq key_usage (codes "k") ≡ false)
    × (text_eq key_priority (codes "k") ≡ false)
unfolding text_eq text_lt blank lookup store delete select all_runes all_runes_from search_slice
    search search_loop test_at apply_ops insert_entry sorted scan_of repeat uvarint_bytes uvarint
    read_uvarint_from read_uvarint big_endian read_big_endian append_bytes take_bytes equal32
    checked unchecked uint64 int64 unix_nano from_unix_nano valid_journal_time safe_add
    valid_identifier valid_record_id valid_claim_token valid_classification classification_rank
    fmt_hex claim_token append_optional_time read_optional_time valid_state valid_stored stored_of
    encode_stored decode_stored append_strings read_strings encode_strings decode_strings
    format_value usage_value decode_usage append_counts priority_value read_counts decode_priority
    zeros reserve_value strings_are_sorted no_equal_neighbours sorted_unique batch_member_by_id
    append_members read_members read_live valid_batch encode_batch decode_batch metadata_of
    encode_quarantine encode_legacy_quarantine decode_quarantine append_component append_components
    key key_format key_owner key_usage key_priority key_boundary batch_key record_key quarantine_key
    batch_ref_key batch_ref_prefix transition_reserve_key batch_original_ref_key
    batch_original_ref_prefix append_ordered_time pending_key claim_key committed_key read_component
    parse_pending_key parse_timed_key parse_two_component_key prefix_end after_error
    valid_record_boundary boundary_value verify_manifest usable load_record validate_empty_index
    validate_transition_reserve valid_record_times set del add_priority sub_priority next_priorities
    insert_op sorted_ops is_manifest_key mutation_get cost discharge charge next_usage check_room
    prepare_commit apply_writes commit_mutation batch_refs_loop batch_refs del_original_refs
    remove_refs_loop remove_batch_refs check_reference history_loop validate_historical_identity
    stored_batch_loop validate_stored_batch insert_prepared sorted_prepared equal_strings
    same_members prepare_one prepare replay_batch refer_to replay_quarantined add_pending
    append_record append_records refer_originals add_batch append_plan append_batch expire_loop
    expire_claims claim_expired claim_loop claim_pending commit_with claim adopt_loop adopt_plan
    adopt_claims check_indexes renew_loop renew_plan renew_claims commit_one commit_loop commit_plan
    mark_committed_batch mark_committed quarantine_plan quarantine compact_loop compact_plan compact
    capacity_of count_state stats_loop count_entries count_namespace stats_plan stats_of
change-committed = (refl, refl, refl)

commit_mutation-reads_example :
    world.get (commit_mutation world (at_time 200) opened change true).1.db (codes "k")
    ≡ mutation_get world opened.db change (codes "k")
commit_mutation-reads_example =
    commit_mutation-reads world world-StoreLaws (at_time 200) opened change true (codes "k")
      (tt, tt) change-committed.1 change-committed.2 change-committed.0
