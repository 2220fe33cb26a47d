-- ===== src/Journal/State.antt =====
-- journal/journal.go and journal/types.go: the journal's state and configuration, the store under it, and
-- the checks of single keys.
use cockroachdbxaws.Base.{
  ℕ, ◌≡◌, ◌⊎◌, inl, inr, refl, Text, text_eq, codes, Bool, true, false, not, ◌&&◌, ◌||◌, List, [],
  ◌∷◌, Option, none, some, ℤ, length, if◌then◌else◌, ltb, ◌==◌,
}
use cockroachdbxaws.Journal.Results.{
  JournalError, Result, ok, err, closed, not_healthy, corrupted, decode_failure, store_failure,
  ◌>>=◌, ◌>>◌, refuse,
}
use cockroachdbxaws.Journal.Bytes.{checked}
use cockroachdbxaws.Journal.Times.{Time, before, valid_journal_time}
use cockroachdbxaws.Journal.Identifiers.{classification_rank}
use cockroachdbxaws.Journal.Codec.{StoredRecord, decode_stored}
use cockroachdbxaws.Journal.Codec.Values.{
  encode_strings, format_value, usage_value, priority_value, reserve_value,
}
use cockroachdbxaws.Journal.Keys.{
  key_format, key_owner, key_boundary, key_usage, key_priority, record_key, transition_reserve_key,
}

pub record RawReference : Type 0 where
  pub region : Text
  pub classification : Text
  pub from : Time
  pub to : Time
  pub expires_at : Time

-- What the journal reads of a `model.NormalizedLog`; `contents` is all the rest.
pub record NormalizedLog : Type 0 where
  pub record_id : Text
  pub batch_id : Text
  pub region : Text
  pub policy_version : Text
  pub raw_reference : Option RawReference
  pub received_at : Time
  pub event_time : Time
  pub observed_time : Time
  pub contents : Text

pub record Config : Type 0 where
  pub owner : Text
  pub tenant_id : Text
  pub region : Text
  pub classification : Text
  -- `Validator.Version()`
  pub policy_version : Text
  pub max_bytes : ℕ
  pub min_free_bytes : ℕ
  pub claim_ttl : ℤ
  pub safety_delay : ℤ
  pub entry_overhead : ℕ
  pub max_batch_refs : ℕ

-- `get`: an error of the store, no such key, or its value.
pub data Found : Type 0 where
  failed missing : Found
  found : Text → Found

pub Found-cases : (f : Found) → (f ≡ failed) ⊎ (f ≡ missing) ⊎ ((v : Text) × (f ≡ found v))
Found-cases failed = inl refl
Found-cases missing = inr (inl refl)
Found-cases (found v) = inr (inr (v, refl))

-- An iterator over a range in key order: its entries, and then the end or an error of the store.
pub data Scan : Type 0 where
  ended broken : Scan
  entry : Text → Text → Scan → Scan

-- The store (github.com/cockroachdb/pebble), the hash, and what turns a record into bytes and judges it.
-- A batch of writes is applied in one step, or answers `false`.
pub record World (S : Type 0) : Type 0 where
  pub get : S → Text → Found
  pub new_iter : S → Text → Option Text → Option Scan
  pub write : S → List (Text × Option Text) → Bool × S
  pub sha256 : Text → Text
  -- `record.Validate() == nil` and `Validator.ValidateRecord(record) == nil`
  pub validate : NormalizedLog → Bool
  pub validate_record : NormalizedLog → Bool
  pub encoded_normalized_size : NormalizedLog → ℕ
  pub encode_durable : NormalizedLog → Text → Text → Option Text
  pub decode_durable : Text → Text → Text → Option NormalizedLog
  pub semantic_digest_envelope : Text → Option Text
  pub cfg : Config

-- What one call of an operation reads of its surroundings: the clock's answers, in order, and the answer
-- of `FreeSpace`.
pub record Surroundings : Type 0 where
  pub now : ℕ → Time
  pub free_space : Option ℕ

pub record Journal (S : Type 0) : Type 0 where
  pub db : S
  pub usage : ℕ
  -- four counts
  pub priorities : List ℕ
  pub healthy : Bool
  pub closed : Bool

-- The journal when an operation ends with an error: `corrupt()` marks it on the way.
unfoldable pub after_error : {S : Type 0} → JournalError → Journal S → Journal S
after_error corrupted j = record j { healthy = false }
after_error _ j = j

module _ {S : Type 0} (w : World S) where
  -- `validRecordBoundary`.
  unfoldable pub valid_record_boundary : NormalizedLog → Bool
  valid_record_boundary r =
      if not (text_eq r.region w.cfg.region) || not (text_eq r.policy_version w.cfg.policy_version)
      then false
      else elim r.raw_reference [
        | none ↦ true
        | some ref ↦
            let ref_rank = classification_rank ref.classification in
            not (
              not (text_eq ref.region w.cfg.region)
              || (ref_rank == 0)
              || ltb (classification_rank w.cfg.classification) ref_rank)
      ]

  unfoldable pub boundary_value : Text
  boundary_value = checked w.sha256 (codes "JBD1") (
      encode_strings w.sha256 (codes "JBS1")
        (w.cfg.region ∷ w.cfg.tenant_id ∷ w.cfg.classification ∷ w.cfg.policy_version ∷ []))

  -- One item of the loop of `verifyManifest`.
  abbrev pub holds_value : S → Text → Text → Bool
  holds_value db key value = elim (w.get db key) [
    | failed ↦ false
    | missing ↦ false
    | found v ↦ text_eq v value
  ]

  unfoldable pub verify_manifest : Journal S → Bool
  verify_manifest j =
      holds_value j.db key_format (format_value w.sha256)
      && holds_value j.db key_owner (checked w.sha256 (codes "JOW1") w.cfg.owner)
      && holds_value j.db key_boundary boundary_value
      && holds_value j.db key_usage (usage_value w.sha256 j.usage)
      && holds_value j.db key_priority (priority_value w.sha256 j.priorities)

  unfoldable pub usable : Journal S → Result (Unit {0})
  usable j = do
    refuse j.closed closed
    refuse (not j.healthy) not_healthy
    refuse (not (verify_manifest j)) corrupted

  -- `loadRecord`.
  unfoldable pub load_record : S → Text → Result (Option StoredRecord)
  load_record db id = elim (w.get db (record_key id)) [
    | failed ↦ err store_failure
    | missing ↦ ok none
    | found value ↦ do r ← decode_stored w.sha256 value; ok (some r)
  ]

  -- `validateEmptyIndex`.
  unfoldable pub validate_empty_index : S → Text → Result (Unit {0})
  validate_empty_index db index_key = elim (w.get db index_key) [
    | failed ↦ err decode_failure
    | missing ↦ err decode_failure
    | found value ↦ refuse (not (length value == 0)) decode_failure
  ]

  -- `validateTransitionReserve`.
  unfoldable pub validate_transition_reserve : S → Text → Bool → Result (Unit {0})
  validate_transition_reserve db record_id expected =
      elim (w.get db (transition_reserve_key record_id)) [
        | failed ↦ err decode_failure
        | missing ↦ refuse expected decode_failure
        | found value ↦
            refuse (not expected || not (text_eq value (reserve_value w.sha256))) decode_failure
      ]

-- `validRecordTimes`.
unfoldable pub valid_record_times : NormalizedLog → Bool
valid_record_times r =
    valid_journal_time r.received_at
    && valid_journal_time r.event_time
    && valid_journal_time r.observed_time
    && elim r.raw_reference [
      | none ↦ true
      | some ref ↦
          not (before ref.to ref.from)
          && before ref.to ref.expires_at
          && valid_journal_time ref.from
          && valid_journal_time ref.to
          && valid_journal_time ref.expires_at
    ]
