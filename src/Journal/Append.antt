-- ===== src/Journal/Append.antt =====
-- journal/journal.go, `AppendBatch`: admitted records become pending records of one batch.
use cockroachdbxaws.Base.{
  ℕ, Text, text_eq, text_lt, Bool, true, false, not, ◌&&◌, ◌||◌, List, [], ◌∷◌, ◌++◌, map, Option,
  none, some, length, lookup, if◌then◌else◌, ltb, leb, ◌==◌,
}
use cockroachdbxaws.Journal.Results.{
  Result, ok, err, invalid_input, capacity, duplicate_conflict, corrupted, ◌>>=◌, ◌>>◌, refuse,
  present, relabel,
}
use cockroachdbxaws.Journal.Times.{zero_time}
use cockroachdbxaws.Journal.Identifiers.{valid_identifier, max_boundary_bytes}
use cockroachdbxaws.Journal.Codec.{StoredRecord, encode_stored, state_pending, priority_low}
use cockroachdbxaws.Journal.Codec.Values.{format_value, reserve_value}
use cockroachdbxaws.Journal.Codec.Batches.{
  BatchMember, StoredBatch, encode_batch, decode_batch, batch_original_ids, max_append_records,
}
use cockroachdbxaws.Journal.Codec.Quarantines.{encode_quarantine, decode_quarantine}
use cockroachdbxaws.Journal.Keys.{
  key_format, record_key, pending_key, batch_key, batch_ref_key, batch_original_ref_key,
  quarantine_key, transition_reserve_key,
}
use cockroachdbxaws.Journal.State.{
  NormalizedLog, failed, missing, found, World, Surroundings, Journal, after_error, usable,
  load_record, valid_record_boundary, valid_record_times,
}
use cockroachdbxaws.Journal.Mutation.{Mutation, new_mutation, set, add_priority, commit_mutation}
use cockroachdbxaws.Journal.References.{
  batch_refs, validate_historical_identity, validate_stored_batch,
}

pub record Admission : Type 0 where
  pub record' : NormalizedLog
  pub priority : ℕ

-- `prepared`, under the identity of its record.
pub record Prepared : Type 0 where
  pub admission : Admission
  pub encoded : Text
  pub semantic : Text

-- 256 << 10
abbrev pub max_encoded_record_bytes : ℕ
max_encoded_record_bytes = 262_144

-- `errors.Is(err, ErrDuplicateConflict)` is passed on, any other error is corruption.
abbrev pub conflict_or_corrupt {ℓ} : {A : Type ℓ} → Result A → Result A
conflict_or_corrupt (ok a) = ok a
conflict_or_corrupt (err duplicate_conflict) = err duplicate_conflict
conflict_or_corrupt (err _) = err corrupted

-- `sort.Strings(ids)`, on the prepared records: their identities are distinct.
unfoldable pub insert_prepared : Text × Prepared → List (Text × Prepared) → List (Text × Prepared)
insert_prepared e [] = e ∷ []
insert_prepared e (x ∷ xs) = if text_lt x.0 e.0 then x ∷ insert_prepared e xs else e ∷ x ∷ xs

unfoldable pub sorted_prepared : List (Text × Prepared) → List (Text × Prepared)
sorted_prepared [] = []
sorted_prepared (e ∷ es) = insert_prepared e (sorted_prepared es)

abbrev pub member_of : Text × Prepared → BatchMember
member_of e = record { record_id = e.0; priority = e.1.admission.priority; semantic = e.1.semantic }

-- `equalStrings`.
unfoldable pub equal_strings : List Text → List Text → Bool
equal_strings [] [] = true
equal_strings [] (b ∷ bs) = false
equal_strings (a ∷ as') [] = false
equal_strings (a ∷ as') (b ∷ bs) = text_eq a b && equal_strings as' bs

-- The loop over `batch.original` and the records of the call, both sorted by the same identities.
unfoldable pub same_members : List BatchMember → List (Text × Prepared) → Bool
same_members [] ps = true
same_members (m ∷ ms) [] = false
same_members (m ∷ ms) (p ∷ ps) =
    text_eq m.semantic p.1.semantic && (m.priority == p.1.admission.priority) && same_members ms ps

module _ {S : Type 0} (w : World S) where
  -- One turn of the loop over the admissions, up to the test of a duplicate.
  unfoldable pub prepare_one : Text → Admission → Result Prepared
  prepare_one batch_id a = do
    refuse
        (ltb priority_low a.priority
          || not (text_eq a.record'.batch_id batch_id)
          || not (valid_record_boundary w a.record')
          || not (valid_record_times a.record')
          || not (w.validate a.record'))
        invalid_input
    refuse (ltb max_encoded_record_bytes (w.encoded_normalized_size a.record')) invalid_input
    refuse (not (w.validate_record a.record')) invalid_input
    encoded ←
        present (w.encode_durable a.record' w.cfg.tenant_id w.cfg.classification) invalid_input
    decoded ← present (w.decode_durable encoded w.cfg.tenant_id w.cfg.classification) invalid_input
    refuse (not (text_eq decoded.record_id a.record'.record_id)) invalid_input
    semantic ← present (w.semantic_digest_envelope encoded) invalid_input
    ok (record { admission = a; encoded = encoded; semantic = semantic })

  -- The loop over the admissions; `unique` holds the records so far, in the order of `ids`.
  unfoldable pub prepare :
      Text → List Admission → List (Text × Prepared) → Result (List (Text × Prepared))
  prepare batch_id [] unique = ok unique
  prepare batch_id (a ∷ admissions) unique = do
    p ← prepare_one batch_id a
    let prior = lookup a.record'.record_id unique
    refuse
        (elim prior [
          | none ↦ false
          | some q ↦ not (text_eq q.semantic p.semantic) || not (q.admission.priority == a.priority)
        ])
        duplicate_conflict
    prepare batch_id admissions
        (elim prior [ none ↦ unique ++ (a.record'.record_id, p) ∷ [] | some q ↦ unique ])

  -- The answer for a batch that is stored already.
  unfoldable pub replay_batch : S → Text → List (Text × Prepared) → Text → Result (Unit {0})
  replay_batch db batch_id prepared existing = do
    batch ← relabel corrupted (decode_batch w.sha256 existing)
    refuse
        (not (
          equal_strings (batch_original_ids batch.original)
            (map (λ (e : Text × Prepared). e.0) prepared)))
        duplicate_conflict
    refuse (not (same_members batch.original prepared)) duplicate_conflict
    conflict_or_corrupt (validate_stored_batch w db batch_id batch)

  -- A record that is stored already gains a reference.
  unfoldable pub refer_to :
      S → Text → Text → Prepared → StoredRecord → Mutation → Result (Bool × Mutation)
  refer_to db batch_id id p stored m = do
    refuse
        (not (text_eq stored.semantic p.semantic) || not (stored.priority == p.admission.priority))
        duplicate_conflict
    refs ← relabel corrupted (batch_refs w db id)
    refuse (leb w.cfg.max_batch_refs (length refs)) capacity
    ok (true, set (batch_ref_key id batch_id) [] m)

  -- A record that was quarantined stays so; a legacy tombstone takes the identity of the replay.
  unfoldable pub replay_quarantined : Text → Prepared → Text → Mutation → Result (Bool × Mutation)
  replay_quarantined id p value m = do
    metadata ← relabel corrupted (decode_quarantine w.sha256 value)
    refuse (not (text_eq metadata.record_id id)) corrupted
    elim metadata.legacy [
      | true ↦ ok (
        false,
        set (quarantine_key id)
            (encode_quarantine w.sha256 id metadata.reason metadata.at metadata.attempt p.semantic
              p.admission.priority)
            m,
      )
      | false ↦ do
        refuse
            (not (text_eq metadata.semantic p.semantic)
              || not (metadata.priority == p.admission.priority))
            duplicate_conflict
        ok (false, m)
    ]

  abbrev pub pending_record : Prepared → StoredRecord
  pending_record p = record {
    state = state_pending;
    priority = p.admission.priority;
    received = p.admission.record'.received_at;
    claim_expiry = zero_time;
    committed_at = zero_time;
    attempt = 0;
    claim_owner = [];
    claim_token = [];
    semantic = p.semantic;
    envelope = p.encoded;
  }

  unfoldable pub add_pending : Text → Text → Prepared → Mutation → Mutation
  add_pending batch_id id p m =
      let stored = pending_record p in
      let recorded = set (record_key id) (encode_stored w.sha256 stored) m in
      let indexed = set (pending_key stored.priority stored.received id) [] recorded in
      let referred = set (batch_ref_key id batch_id) [] indexed in
      add_priority stored.priority
        (set (transition_reserve_key id) (reserve_value w.sha256) referred)

  -- One turn of the loop over the identities: whether the record is live, and the changes.
  unfoldable pub append_record : S → Text → Text × Prepared → Mutation → Result (Bool × Mutation)
  append_record db batch_id (id, p) m = do
    history_count ←
        conflict_or_corrupt (validate_historical_identity w db id p.semantic p.admission.priority)
    refuse (leb w.cfg.max_batch_refs history_count) capacity
    loaded ← relabel corrupted (load_record w db id)
    elim loaded [
      | some stored ↦ refer_to db batch_id id p stored m
      | none ↦ elim (w.get db (quarantine_key id)) [
        | failed ↦ err corrupted
        | found value ↦ replay_quarantined id p value m
        | missing ↦ ok (true, add_pending batch_id id p m)
      ]
    ]

  unfoldable pub append_records :
      S → Text → List (Text × Prepared) → Mutation → Result (List Text × Mutation)
  append_records db batch_id [] m = ok ([], m)
  append_records db batch_id (e ∷ es) m = do
    (is_live, next) ← append_record db batch_id e m
    (live, last) ← append_records db batch_id es next
    ok (if is_live then e.0 ∷ live else live, last)

  unfoldable pub refer_originals : Text → List (Text × Prepared) → Mutation → Mutation
  refer_originals batch_id [] m = m
  refer_originals batch_id (e ∷ es) m =
      refer_originals batch_id es (set (batch_original_ref_key e.0 batch_id) [] m)

  -- The batch itself, where a record of it is live, and the format marker.
  unfoldable pub add_batch : Text → List (Text × Prepared) → List Text → Mutation → Mutation
  add_batch batch_id prepared live m =
      let batch : StoredBatch = record { original = map member_of prepared; live = live } in
      let whole =
        set (batch_key batch_id) (encode_batch w.sha256 batch)
          (refer_originals batch_id prepared m) in
      set key_format (format_value w.sha256) (if length live == 0 then m else whole)

  -- What `AppendBatch` decides before it commits: `none` where the batch is stored already.
  unfoldable pub append_plan : Journal S → Text → List Admission → Result (Option Mutation)
  append_plan j batch_id admissions = do
    usable w j
    refuse
        (not (valid_identifier batch_id max_boundary_bytes)
          || (length admissions == 0)
          || ltb max_append_records (length admissions))
        invalid_input
    unique ← prepare batch_id admissions []
    let prepared = sorted_prepared unique
    elim (w.get j.db (batch_key batch_id)) [
      | failed ↦ err corrupted
      | found existing ↦ do replay_batch j.db batch_id prepared existing; ok none
      | missing ↦ do
        (live, m) ← append_records j.db batch_id prepared new_mutation
        ok (some (add_batch batch_id prepared live m))
    ]

  unfoldable pub append_batch :
      Surroundings → Journal S → Text → List Admission → Result (Unit {0}) × Journal S
  append_batch u j batch_id admissions = elim (append_plan j batch_id admissions) [
    | err e ↦ (err e, after_error e j)
    | ok none ↦ (ok tt, j)
    | ok (some m) ↦ commit_mutation w u j m true
  ]
