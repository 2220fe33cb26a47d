-- ===== src/Journal/References.antt =====
-- journal/journal.go: the references between records and the batches that brought them.
use cockroachdbxaws.Base.{
  ℕ, ◌+◌, Text, text_eq, Bool, true, false, not, ◌&&◌, ◌||◌, List, [], ◌∷◌, Option, none, some,
  length, select, if◌then◌else◌, ltb, ◌==◌,
}
use cockroachdbxaws.Journal.Results.{
  Result, ok, err, duplicate_conflict, decode_failure, store_failure, ◌>>=◌, ◌>>◌, refuse, present,
  relabel,
}
use cockroachdbxaws.Journal.Codec.{StoredRecord}
use cockroachdbxaws.Journal.Codec.Batches.{
  BatchMember, StoredBatch, encode_batch, decode_batch, batch_member_by_id, contains_string,
}
use cockroachdbxaws.Journal.Keys.{
  batch_key, batch_ref_key, batch_ref_prefix, batch_original_ref_key, batch_original_ref_prefix,
  ns_batch_ref, ns_batch_original_ref, parse_two_component_key, prefix_end,
}
use cockroachdbxaws.Journal.State.{
  Found, failed, missing, found, Scan, ended, broken, entry, World, load_record,
  validate_empty_index,
}
use cockroachdbxaws.Journal.Mutation.{Mutation, set, del, mutation_get}

-- Equal digest and priority.
abbrev pub same_identity : BatchMember → Text → ℕ → Bool
same_identity m semantic priority = text_eq m.semantic semantic && (m.priority == priority)

abbrev is_missing : Option StoredRecord → Bool
is_missing none = true
is_missing (some r) = false

-- A record that is there has the identity of the member.
abbrev agrees : Option StoredRecord → BatchMember → Bool
agrees none m = true
agrees (some r) m = same_identity m r.semantic r.priority

module _ {S : Type 0} (w : World S) where
  -- `get` of a key that must be there.
  abbrev pub require : Found → Result Text
  require failed = err decode_failure
  require missing = err decode_failure
  require (found v) = ok v

  -- `get` of a key that may be missing.
  abbrev permit : Found → Result (Option Text)
  permit failed = err decode_failure
  permit missing = ok none
  permit (found v) = ok (some v)

  -- A reference that is there, with nothing in it.
  abbrev is_empty_ref : Option Text → Bool
  is_empty_ref none = false
  is_empty_ref (some v) = length v == 0

  abbrev is_ref : Option Text → Bool
  is_ref none = false
  is_ref (some v) = true

  -- The loop of `batchRefs`, over the record's references; `count` of them were read before.
  unfoldable pub batch_refs_loop : S → Text → StoredRecord → ℕ → Scan → Result (List Text)
  batch_refs_loop db record_id stored count ended = ok []
  batch_refs_loop db record_id stored count broken = err store_failure
  batch_refs_loop db record_id stored count (entry key value rest) = do
    (id, batch) ← present (parse_two_component_key key ns_batch_ref) decode_failure
    refuse (not (text_eq id record_id) || not (length value == 0)) decode_failure
    encoded ← require (w.get db (batch_key batch))
    metadata ← relabel decode_failure (decode_batch w.sha256 encoded)
    member ← present (batch_member_by_id metadata record_id) decode_failure
    refuse
        (not (contains_string metadata.live record_id)
          || not (same_identity member stored.semantic stored.priority))
        decode_failure
    validate_empty_index w db (batch_original_ref_key record_id batch)
    refuse (ltb w.cfg.max_batch_refs (count + 1)) decode_failure
    refs ← batch_refs_loop db record_id stored (count + 1) rest
    ok (batch ∷ refs)

  -- `batchRefs`.
  unfoldable pub batch_refs : S → Text → Result (List Text)
  batch_refs db record_id = do
    loaded ← relabel decode_failure (load_record w db record_id)
    stored ← present loaded decode_failure
    let p = batch_ref_prefix record_id
    scan ← present (w.new_iter db p (prefix_end p)) store_failure
    batch_refs_loop db record_id stored 0 scan

  -- The loop that takes the originals' references to an empty batch away.
  unfoldable pub del_original_refs : Text → List BatchMember → Mutation → Mutation
  del_original_refs batch_id [] m = m
  del_original_refs batch_id (member ∷ members) m =
      del_original_refs batch_id members (del (batch_original_ref_key member.record_id batch_id) m)

  -- The loop of `removeBatchRefs`.
  unfoldable pub remove_refs_loop : S → Text → List Text → Mutation → Result Mutation
  remove_refs_loop db record_id [] m = ok m
  remove_refs_loop db record_id (batch_id ∷ refs) m = do
    value ← require (mutation_get w db m (batch_key batch_id))
    batch ← decode_batch w.sha256 value
    _ ← present (batch_member_by_id batch record_id) decode_failure
    refuse (not (contains_string batch.live record_id)) decode_failure
    let next = select (λ id. not (text_eq id record_id)) batch.live
    let unreferenced = del (batch_ref_key record_id batch_id) m
    let kept =
        if length next == 0
        then del (batch_key batch_id) (del_original_refs batch_id batch.original unreferenced)
        else set (batch_key batch_id) (encode_batch w.sha256 (record batch { live = next }))
            unreferenced
    remove_refs_loop db record_id refs kept

  -- `removeBatchRefs`.
  unfoldable pub remove_batch_refs : S → Text → Mutation → Result Mutation
  remove_batch_refs db record_id m = do
    refs ← batch_refs db record_id
    remove_refs_loop db record_id refs m

  -- A batch's reference to a record, against the record and the batch's list of live members.
  unfoldable pub check_reference :
      StoredBatch → BatchMember → Option StoredRecord → Option Text → Result (Unit {0})
  check_reference batch member stored ref =
      if contains_string batch.live member.record_id
      then refuse (is_missing stored || not (agrees stored member) || not (is_empty_ref ref))
          decode_failure
      else do
        refuse (is_ref ref) decode_failure
        refuse (not (agrees stored member)) duplicate_conflict

  -- The loop of `validateHistoricalIdentity`; `count` batches were read before.
  unfoldable pub history_loop : S → Text → Text → ℕ → ℕ → Scan → Result ℕ
  history_loop db record_id semantic priority count ended = ok count
  history_loop db record_id semantic priority count broken = err store_failure
  history_loop db record_id semantic priority count (entry key value rest) = do
    (id, batch_id) ← present (parse_two_component_key key ns_batch_original_ref) decode_failure
    refuse (not (text_eq id record_id) || not (length value == 0)) decode_failure
    encoded ← require (w.get db (batch_key batch_id))
    batch ← relabel decode_failure (decode_batch w.sha256 encoded)
    member ← present (batch_member_by_id batch record_id) decode_failure
    refuse (not (same_identity member semantic priority)) duplicate_conflict
    stored ← relabel decode_failure (load_record w db record_id)
    ref ← permit (w.get db (batch_ref_key record_id batch_id))
    check_reference batch member stored ref
    refuse (ltb w.cfg.max_batch_refs (count + 1)) decode_failure
    history_loop db record_id semantic priority (count + 1) rest

  -- `validateHistoricalIdentity`.
  unfoldable pub validate_historical_identity : S → Text → Text → ℕ → Result ℕ
  validate_historical_identity db record_id semantic priority = do
    let p = batch_original_ref_prefix record_id
    scan ← present (w.new_iter db p (prefix_end p)) store_failure
    history_loop db record_id semantic priority 0 scan

  -- The loop of `validateStoredBatch`.
  unfoldable pub stored_batch_loop : S → Text → StoredBatch → List BatchMember → Result (Unit {0})
  stored_batch_loop db batch_id batch [] = ok tt
  stored_batch_loop db batch_id batch (member ∷ members) = do
    validate_empty_index w db (batch_original_ref_key member.record_id batch_id)
    stored ← relabel decode_failure (load_record w db member.record_id)
    ref ← permit (w.get db (batch_ref_key member.record_id batch_id))
    check_reference batch member stored ref
    refs ←
        if contains_string batch.live member.record_id
        then relabel decode_failure (batch_refs db member.record_id)
        else ok (batch_id ∷ [])
    refuse (not (contains_string refs batch_id)) decode_failure
    stored_batch_loop db batch_id batch members

  -- `validateStoredBatch`.
  unfoldable pub validate_stored_batch : S → Text → StoredBatch → Result (Unit {0})
  validate_stored_batch db batch_id batch = do
    refuse ((length batch.live == 0) || (length batch.original == 0)) decode_failure
    stored_batch_loop db batch_id batch batch.original
