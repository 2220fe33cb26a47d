-- ===== src/Journal/Codec/Quarantines.antt =====
-- journal/codec.go: the tombstone of a quarantined record, in its present and its legacy form.
use cockroachdbxaws.Base.{
  ℕ, Text, codes, Bool, true, false, not, ◌&&◌, ◌||◌, [], ◌∷◌, ◌++◌, none, some, length,
  if◌then◌else◌, ltb, ◌==◌,
}
use cockroachdbxaws.Journal.Bytes.{
  drop, big_endian, read_big_endian, append_bytes, take_bytes, checked, unchecked,
}
use cockroachdbxaws.Journal.Results.{Result, ok, err, decode_failure, ◌>>=◌, ◌>>◌, refuse, present}
use cockroachdbxaws.Journal.Times.{
  Time, is_zero_time, unix_nano, from_unix_nano, valid_journal_time,
}
use cockroachdbxaws.Journal.Identifiers.{valid_record_id}
use cockroachdbxaws.Journal.Codec.{byte_at, slice, priority_low}

-- `QuarantineReason` is a byte from `QuarantineInvalidNormalizedRecord` to `QuarantineUnsupportedData`.
abbrev pub first_reason : ℕ
first_reason = 1

abbrev pub last_reason : ℕ
last_reason = 3

pub record QuarantineMetadata : Type 0 where
  pub record_id : Text
  pub reason : ℕ
  pub at : Time
  pub attempt : ℕ
  pub semantic : Text
  pub priority : ℕ
  pub legacy : Bool

-- The bytes that both forms begin with.
abbrev quarantine_head : ℕ → Time → ℕ → Text
quarantine_head reason at attempt =
    let present' = if is_zero_time at then 0 else 1 in
    ((reason ∷ present' ∷ []) ++ big_endian 8 (unix_nano at)) ++ big_endian 4 attempt

-- A legacy tombstone has neither a priority nor a digest.
abbrev pub no_digest : Text
no_digest =
    0 ∷ 0 ∷ 0 ∷ 0 ∷ 0 ∷ 0 ∷ 0 ∷ 0 ∷ 0 ∷ 0 ∷ 0 ∷ 0 ∷ 0 ∷ 0 ∷ 0 ∷ 0 ∷ 0 ∷ 0 ∷ 0 ∷ 0 ∷ 0 ∷ 0 ∷ 0 ∷ 0
    ∷ 0 ∷ 0 ∷ 0 ∷ 0 ∷ 0 ∷ 0 ∷ 0 ∷ 0 ∷ []

unfoldable pub metadata_of : Bool → Text → Result QuarantineMetadata
metadata_of legacy payload = do
  refuse (ltb (length payload) (if legacy then 15 else 48) || not (byte_at 1 payload == 1))
      decode_failure
  let reason = byte_at 0 payload
  refuse (ltb reason first_reason || ltb last_reason reason) decode_failure
  let at = from_unix_nano (read_big_endian 0 (slice 2 10 payload))
  let attempt = read_big_endian 0 (slice 10 14 payload)
  let fields = drop 14 payload
  let priority = if legacy then 0 else byte_at 0 fields
  let semantic = if legacy then no_digest else slice 1 33 fields
  (id, rest) ← present (take_bytes (if legacy then fields else drop 33 fields)) decode_failure
  refuse
      (not (valid_journal_time at)
        || (attempt == 0)
        || not (length rest == 0)
        || not (valid_record_id id))
      decode_failure
  refuse (not legacy && ltb priority_low priority) decode_failure
  ok (record {
    record_id = id;
    reason = reason;
    at = at;
    attempt = attempt;
    semantic = semantic;
    priority = priority;
    legacy = legacy;
  })

module _ (sha256 : Text → Text) where
  unfoldable pub encode_quarantine : Text → ℕ → Time → ℕ → Text → ℕ → Text
  encode_quarantine record_id reason at attempt semantic priority =
      let fields = (quarantine_head reason at attempt ++ priority ∷ []) ++ semantic in
      checked sha256 (codes "JQV2") (append_bytes fields record_id)

  unfoldable pub encode_legacy_quarantine : Text → ℕ → Time → ℕ → Text
  encode_legacy_quarantine record_id reason at attempt =
      checked sha256 (codes "JQV1") (append_bytes (quarantine_head reason at attempt) record_id)

  unfoldable pub decode_quarantine : Text → Result QuarantineMetadata
  decode_quarantine data' = elim (unchecked sha256 data' (codes "JQV2")) [
    | some payload ↦ metadata_of false payload
    | none ↦ elim (unchecked sha256 data' (codes "JQV1")) [
      | some payload ↦ metadata_of true payload
      | none ↦ err decode_failure
    ]
  ]
