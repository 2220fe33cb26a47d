-- ===== src/Tests/Journal/Codec.antt =====
-- internal/journal: the durable forms and the keys of concrete records.
use cockroachdbxaws.Base.{
  ◌+◌, ◌-◌, ◌^◌, ◌<◌, ◌≡◌, refl, Text, codes, true, [], ◌∷◌, length, inl, ◌≤◌, arith, ltb, ◌||◌,
  ◌&&◌, ◌==◌, text_eq, text_lt, blank, lookup, store, delete, select, all, all_runes,
  all_runes_from,
}
use cockroachdbxaws.Incident.Search.{search_slice, search, search_loop, test_at}
use cockroachdbxaws.Journal.Bytes.{
  uvarint_bytes, uvarint, read_uvarint_from, read_uvarint, big_endian, read_big_endian,
  append_bytes, take_bytes, equal32, checked, unchecked,
}
use cockroachdbxaws.Journal.Times.{
  uint64, int64, unix_nano, from_unix_nano, valid_journal_time, safe_add,
}
use cockroachdbxaws.Journal.Identifiers.{
  valid_identifier, valid_record_id, valid_claim_token, valid_classification, classification_rank,
  fmt_hex, claim_token,
}
use cockroachdbxaws.Journal.Codec.{
  append_optional_time, read_optional_time, valid_state, valid_stored, stored_of, encode_stored,
  decode_stored,
}
use cockroachdbxaws.Journal.Codec.Values.{
  append_strings, read_strings, encode_strings, decode_strings, format_value, usage_value,
  decode_usage, append_counts, priority_value, read_counts, decode_priority, zeros, reserve_value,
}
use cockroachdbxaws.Journal.Codec.Batches.{
  strings_are_sorted, no_equal_neighbours, sorted_unique, batch_member_by_id, append_members,
  read_members, read_live, valid_batch, encode_batch, decode_batch,
}
use cockroachdbxaws.Journal.Codec.Quarantines.{
  metadata_of, encode_quarantine, encode_legacy_quarantine, decode_quarantine,
}
use cockroachdbxaws.Journal.Keys.{
  append_component, append_components, key, key_format, key_owner, key_usage, key_priority,
  key_boundary, batch_key, record_key, quarantine_key, batch_ref_key, batch_ref_prefix,
  transition_reserve_key, batch_original_ref_key, batch_original_ref_prefix, append_ordered_time,
  pending_key, claim_key, committed_key, read_component, parse_pending_key, parse_timed_key,
  parse_two_component_key, prefix_end,
}
use cockroachdbxaws.Journal.State.{
  after_error, valid_record_boundary, boundary_value, verify_manifest, usable, load_record,
  validate_empty_index, validate_transition_reserve, valid_record_times,
}
use cockroachdbxaws.Journal.Mutation.{
  set, del, add_priority, sub_priority, next_priorities, insert_op, sorted_ops, is_manifest_key,
  mutation_get, cost, discharge, charge, next_usage, check_room, prepare_commit, apply_writes,
  commit_mutation,
}
use cockroachdbxaws.Journal.References.{
  batch_refs_loop, batch_refs, del_original_refs, remove_refs_loop, remove_batch_refs,
  check_reference, history_loop, validate_historical_identity, stored_batch_loop,
  validate_stored_batch,
}
use cockroachdbxaws.Journal.Append.{
  insert_prepared, sorted_prepared, equal_strings, same_members, prepare_one, prepare, replay_batch,
  refer_to, replay_quarantined, add_pending, append_record, append_records, refer_originals,
  add_batch, append_plan, append_batch,
}
use cockroachdbxaws.Journal.Claims.{
  expire_loop, expire_claims, claim_expired, claim_loop, claim_pending, commit_with, claim,
  adopt_loop, adopt_plan, adopt_claims, check_indexes, renew_loop, renew_plan, renew_claims,
}
use cockroachdbxaws.Journal.Commits.{
  commit_one, commit_loop, commit_plan, mark_committed_batch, mark_committed, quarantine_plan,
  quarantine,
}
use cockroachdbxaws.Journal.Retention.{
  compact_loop, compact_plan, compact, capacity_of, count_state, stats_loop, count_entries,
  count_namespace, stats_plan, stats_of,
}
use cockroachdbxaws.Journal.Results.{ok}
use cockroachdbxaws.Journal.Codec.{StoredRecord, state_pending}
use cockroachdbxaws.Journal.Codec.RoundTrip.{Storable, decode_stored-encode_stored}
use cockroachdbxaws.Journal.Codec.Validity.{decode_stored-Storable}
use cockroachdbxaws.Journal.Codec.Batches.{StoredBatch}
use cockroachdbxaws.Journal.Codec.Batches.RoundTrip.{StorableBatch, decode_batch-encode_batch}
use cockroachdbxaws.Journal.Codec.Quarantines.{no_digest}
use cockroachdbxaws.Journal.Identifiers.{max_owner_bytes, claim_token_bytes}
use cockroachdbxaws.Journal.Keys.Order.{timed_before, pending_key-order}
use cockroachdbxaws.Journal.Claims.{claim_of}
use cockroachdbxaws.Journal.Claims.Growth.{claim-fits_reserve}
use cockroachdbxaws.Journal.Times.{zero_time}
use cockroachdbxaws.Tests.Journal.Laws.{digest-size, all-All}
use cockroachdbxaws.Tests.Journal.{
  world, id, digest, at_nanos, repeat, apply_ops, insert_entry, sorted, scan_of,
}

abbrev stored : StoredRecord
stored = record {
  state = state_pending;
  priority = 2;
  received = at_nanos 100;
  claim_expiry = zero_time;
  committed_at = zero_time;
  attempt = 3;
  claim_owner = [];
  claim_token = [];
  semantic = no_digest;
  envelope = codes "x";
}

stored-Storable : Storable stored
unfolding text_eq text_lt blank lookup store delete select all_runes all_runes_from search_slice
    search search_loop test_at apply_ops insert_entry sorted scan_of repeat uvarint_bytes uvarint
    read_uvarint_from read_uvarint big_endian read_big_endian append_bytes take_bytes equal32
    checked unchecked uint64 int64 unix_nano from_unix_nano valid_journal_time safe_add
    valid_identifier valid_record_id valid_claim_token valid_classification classification_rank
    fmt_hex claim_token append_optional_time read_optional_time valid_state valid_stored stored_of
    encode_stored decode_stored append_strings read_strings encode_strings decode_strings
    format_value usage_value decode_usage append_counts priority_value read_counts decode_priority
    zeros reserve_value strings_are_sorted no_equal_neighbours sorted_unique batch_member_by_id
    append_members read_members read_live valid_batch encode_batch decode_batch metadata_of
    encode_quarantine encode_legacy_quarantine decode_quarantine append_component append_components
    key key_format key_owner key_usage key_priority key_boundary batch_key record_key quarantine_key
    batch_ref_key batch_ref_prefix transition_reserve_key batch_original_ref_key
    batch_original_ref_prefix append_ordered_time pending_key claim_key committed_key read_component
    parse_pending_key parse_timed_key parse_two_component_key prefix_end after_error
    valid_record_boundary boundary_value verify_manifest usable load_record validate_empty_index
    validate_transition_reserve valid_record_times set del add_priority sub_priority next_priorities
    insert_op sorted_ops is_manifest_key mutation_get cost discharge charge next_usage check_room
    prepare_commit apply_writes commit_mutation batch_refs_loop batch_refs del_original_refs
    remove_refs_loop remove_batch_refs check_reference history_loop validate_historical_identity
    stored_batch_loop validate_stored_batch insert_prepared sorted_prepared equal_strings
    same_members prepare_one prepare replay_batch refer_to replay_quarantined add_pending
    append_record append_records refer_originals add_batch append_plan append_batch expire_loop
    expire_claims claim_expired claim_loop claim_pending commit_with claim adopt_loop adopt_plan
    adopt_claims check_indexes renew_loop renew_plan renew_claims commit_one commit_loop commit_plan
    mark_committed_batch mark_committed quarantine_plan quarantine compact_loop compact_plan compact
    capacity_of count_state stats_loop count_entries count_namespace stats_plan stats_of
stored-Storable = record {
  valid = refl;
  expiry = inl refl;
  committed = inl refl;
  received_valid = refl;
  attempt_size = omega arith;
  digest_size = refl;
  owner_size = omega arith;
  token_size = omega arith;
  envelope_size = omega arith;
}

decode_stored-encode_stored_example : decode_stored digest (encode_stored digest stored) ≡ ok stored
decode_stored-encode_stored_example =
    decode_stored-encode_stored digest digest-size stored stored-Storable

abbrev payload : Text
payload = encode_stored digest stored

encoded-bytes : (all (λ b. ltb b 256) payload ≡ true) × (length payload < 2 ^ 64)
unfolding text_eq text_lt blank lookup store delete select all_runes all_runes_from search_slice
    search search_loop test_at apply_ops insert_entry sorted scan_of repeat uvarint_bytes uvarint
    read_uvarint_from read_uvarint big_endian read_big_endian append_bytes take_bytes equal32
    checked unchecked uint64 int64 unix_nano from_unix_nano valid_journal_time safe_add
    valid_identifier valid_record_id valid_claim_token valid_classification classification_rank
    fmt_hex claim_token append_optional_time read_optional_time valid_state valid_stored stored_of
    encode_stored decode_stored append_strings read_strings encode_strings decode_strings
    format_value usage_value decode_usage append_counts priority_value read_counts decode_priority
    zeros reserve_value strings_are_sorted no_equal_neighbours sorted_unique batch_member_by_id
    append_members read_members read_live valid_batch encode_batch decode_batch metadata_of
    encode_quarantine encode_legacy_quarantine decode_quarantine append_component append_components
    key key_format key_owner key_usage key_priority key_boundary batch_key record_key quarantine_key
    batch_ref_key batch_ref_prefix transition_reserve_key batch_original_ref_key
    batch_original_ref_prefix append_ordered_time pending_key claim_key committed_key read_component
    parse_pending_key parse_timed_key parse_two_component_key prefix_end after_error
    valid_record_boundary boundary_value verify_manifest usable load_record validate_empty_index
    validate_transition_reserve valid_record_times set del add_priority sub_priority next_priorities
    insert_op sorted_ops is_manifest_key mutation_get cost discharge charge next_usage check_room
    prepare_commit apply_writes commit_mutation batch_refs_loop batch_refs del_original_refs
    remove_refs_loop remove_batch_refs check_reference history_loop validate_historical_identity
    stored_batch_loop validate_stored_batch insert_prepared sorted_prepared equal_strings
    same_members prepare_one prepare replay_batch refer_to replay_quarantined add_pending
    append_record append_records refer_originals add_batch append_plan append_batch expire_loop
    expire_claims claim_expired claim_loop claim_pending commit_with claim adopt_loop adopt_plan
    adopt_claims check_indexes renew_loop renew_plan renew_claims commit_one commit_loop commit_plan
    mark_committed_batch mark_committed quarantine_plan quarantine compact_loop compact_plan compact
    capacity_of count_state stats_loop count_entries count_namespace stats_plan stats_of
encoded-bytes = (refl, omega arith)

decode_stored-Storable_example : Storable stored
decode_stored-Storable_example =
    decode_stored-Storable digest payload stored (all-All payload encoded-bytes.0) encoded-bytes.1
      decode_stored-encode_stored_example

claim-fits_reserve_example :
    length (encode_stored digest (claim_of world (codes "worker") id (at_nanos 1_300) stored))
      + length (claim_key (at_nanos 1_300) id)
    ≤ length (encode_stored digest stored)
      + length (pending_key 2 (at_nanos 100) id)
      + (max_owner_bytes + 1 + claim_token_bytes - 1)
unfolding text_eq text_lt blank lookup store delete select all_runes all_runes_from search_slice
    search search_loop test_at apply_ops insert_entry sorted scan_of repeat uvarint_bytes uvarint
    read_uvarint_from read_uvarint big_endian read_big_endian append_bytes take_bytes equal32
    checked unchecked uint64 int64 unix_nano from_unix_nano valid_journal_time safe_add
    valid_identifier valid_record_id valid_claim_token valid_classification classification_rank
    fmt_hex claim_token append_optional_time read_optional_time valid_state valid_stored stored_of
    encode_stored decode_stored append_strings read_strings encode_strings decode_strings
    format_value usage_value decode_usage append_counts priority_value read_counts decode_priority
    zeros reserve_value strings_are_sorted no_equal_neighbours sorted_unique batch_member_by_id
    append_members read_members read_live valid_batch encode_batch decode_batch metadata_of
    encode_quarantine encode_legacy_quarantine decode_quarantine append_component append_components
    key key_format key_owner key_usage key_priority key_boundary batch_key record_key quarantine_key
    batch_ref_key batch_ref_prefix transition_reserve_key batch_original_ref_key
    batch_original_ref_prefix append_ordered_time pending_key claim_key committed_key read_component
    parse_pending_key parse_timed_key parse_two_component_key prefix_end after_error
    valid_record_boundary boundary_value verify_manifest usable load_record validate_empty_index
    validate_transition_reserve valid_record_times set del add_priority sub_priority next_priorities
    insert_op sorted_ops is_manifest_key mutation_get cost discharge charge next_usage check_room
    prepare_commit apply_writes commit_mutation batch_refs_loop batch_refs del_original_refs
    remove_refs_loop remove_batch_refs check_reference history_loop validate_historical_identity
    stored_batch_loop validate_stored_batch insert_prepared sorted_prepared equal_strings
    same_members prepare_one prepare replay_batch refer_to replay_quarantined add_pending
    append_record append_records refer_originals add_batch append_plan append_batch expire_loop
    expire_claims claim_expired claim_loop claim_pending commit_with claim adopt_loop adopt_plan
    adopt_claims check_indexes renew_loop renew_plan renew_claims commit_one commit_loop commit_plan
    mark_committed_batch mark_committed quarantine_plan quarantine compact_loop compact_plan compact
    capacity_of count_state stats_loop count_entries count_namespace stats_plan stats_of
claim-fits_reserve_example =
    claim-fits_reserve world digest-size stored (codes "worker") id (at_nanos 1_300) refl refl refl
      refl

abbrev batch : StoredBatch
batch = record {
  original = record { record_id = id; priority = 2; semantic = no_digest } ∷ [];
  live = id ∷ [];
}

batch-StorableBatch : StorableBatch batch
unfolding text_eq text_lt blank lookup store delete select all_runes all_runes_from search_slice
    search search_loop test_at apply_ops insert_entry sorted scan_of repeat uvarint_bytes uvarint
    read_uvarint_from read_uvarint big_endian read_big_endian append_bytes take_bytes equal32
    checked unchecked uint64 int64 unix_nano from_unix_nano valid_journal_time safe_add
    valid_identifier valid_record_id valid_claim_token valid_classification classification_rank
    fmt_hex claim_token append_optional_time read_optional_time valid_state valid_stored stored_of
    encode_stored decode_stored append_strings read_strings encode_strings decode_strings
    format_value usage_value decode_usage append_counts priority_value read_counts decode_priority
    zeros reserve_value strings_are_sorted no_equal_neighbours sorted_unique batch_member_by_id
    append_members read_members read_live valid_batch encode_batch decode_batch metadata_of
    encode_quarantine encode_legacy_quarantine decode_quarantine append_component append_components
    key key_format key_owner key_usage key_priority key_boundary batch_key record_key quarantine_key
    batch_ref_key batch_ref_prefix transition_reserve_key batch_original_ref_key
    batch_original_ref_prefix append_ordered_time pending_key claim_key committed_key read_component
    parse_pending_key parse_timed_key parse_two_component_key prefix_end after_error
    valid_record_boundary boundary_value verify_manifest usable load_record validate_empty_index
    validate_transition_reserve valid_record_times set del add_priority sub_priority next_priorities
    insert_op sorted_ops is_manifest_key mutation_get cost discharge charge next_usage check_room
    prepare_commit apply_writes commit_mutation batch_refs_loop batch_refs del_original_refs
    remove_refs_loop remove_batch_refs check_reference history_loop validate_historical_identity
    stored_batch_loop validate_stored_batch insert_prepared sorted_prepared equal_strings
    same_members prepare_one prepare replay_batch refer_to replay_quarantined add_pending
    append_record append_records refer_originals add_batch append_plan append_batch expire_loop
    expire_claims claim_expired claim_loop claim_pending commit_with claim adopt_loop adopt_plan
    adopt_claims check_indexes renew_loop renew_plan renew_claims commit_one commit_loop commit_plan
    mark_committed_batch mark_committed quarantine_plan quarantine compact_loop compact_plan compact
    capacity_of count_state stats_loop count_entries count_namespace stats_plan stats_of
batch-StorableBatch = record {
  members = (record { id_valid = refl; priority_small = omega arith; digest_size = refl }, tt);
  live_ids = (refl, tt);
  valid = refl;
  some_member = omega arith;
  not_too_many = omega arith;
  live_members = omega arith;
}

decode_batch-encode_batch_example : decode_batch digest (encode_batch digest batch) ≡ ok batch
decode_batch-encode_batch_example =
    decode_batch-encode_batch digest digest-size batch batch-StorableBatch

-- A lower priority number is claimed first, although it was received later.
pending_key-order_example :
    text_lt (pending_key 1 (at_nanos 200) id) (pending_key 2 (at_nanos 100) id)
    ≡ (ltb 1 2 || ((1 == 2) && timed_before (at_nanos 200) id (at_nanos 100) id))
unfolding text_eq text_lt blank lookup store delete select all_runes all_runes_from search_slice
    search search_loop test_at apply_ops insert_entry sorted scan_of repeat uvarint_bytes uvarint
    read_uvarint_from read_uvarint big_endian read_big_endian append_bytes take_bytes equal32
    checked unchecked uint64 int64 unix_nano from_unix_nano valid_journal_time safe_add
    valid_identifier valid_record_id valid_claim_token valid_classification classification_rank
    fmt_hex claim_token append_optional_time read_optional_time valid_state valid_stored stored_of
    encode_stored decode_stored append_strings read_strings encode_strings decode_strings
    format_value usage_value decode_usage append_counts priority_value read_counts decode_priority
    zeros reserve_value strings_are_sorted no_equal_neighbours sorted_unique batch_member_by_id
    append_members read_members read_live valid_batch encode_batch decode_batch metadata_of
    encode_quarantine encode_legacy_quarantine decode_quarantine append_component append_components
    key key_format key_owner key_usage key_priority key_boundary batch_key record_key quarantine_key
    batch_ref_key batch_ref_prefix transition_reserve_key batch_original_ref_key
    batch_original_ref_prefix append_ordered_time pending_key claim_key committed_key read_component
    parse_pending_key parse_timed_key parse_two_component_key prefix_end after_error
    valid_record_boundary boundary_value verify_manifest usable load_record validate_empty_index
    validate_transition_reserve valid_record_times set del add_priority sub_priority next_priorities
    insert_op sorted_ops is_manifest_key mutation_get cost discharge charge next_usage check_room
    prepare_commit apply_writes commit_mutation batch_refs_loop batch_refs del_original_refs
    remove_refs_loop remove_batch_refs check_reference history_loop validate_historical_identity
    stored_batch_loop validate_stored_batch insert_prepared sorted_prepared equal_strings
    same_members prepare_one prepare replay_batch refer_to replay_quarantined add_pending
    append_record append_records refer_originals add_batch append_plan append_batch expire_loop
    expire_claims claim_expired claim_loop claim_pending commit_with claim adopt_loop adopt_plan
    adopt_claims check_indexes renew_loop renew_plan renew_claims commit_one commit_loop commit_plan
    mark_committed_batch mark_committed quarantine_plan quarantine compact_loop compact_plan compact
    capacity_of count_state stats_loop count_entries count_namespace stats_plan stats_of
pending_key-order_example =
    pending_key-order 1 2 (at_nanos 200) (at_nanos 100) id id refl refl refl refl
