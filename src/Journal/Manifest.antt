-- ===== src/Journal/Manifest.antt =====
-- journal/journal.go: `openManifest`, which reads the journal of an earlier process or starts one, `Close`,
-- and `RecoverRetained`, which gives its records back.
use cockroachdbxaws.Base.{
  ℕ, zero, suc, ◌-◌, Text, text_eq, Bool, true, false, not, ◌&&◌, ◌||◌, List, [], ◌∷◌, Option, none,
  some, codes, ℤ, below_one, above, length, if◌then◌else◌, ltb, ◌==◌,
}
use cockroachdbxaws.Journal.Bytes.{take, drop, checked, unchecked, read_big_endian}
use cockroachdbxaws.Journal.Results.{
  JournalError, Result, ok, err, invalid_input, corruption, corrupted, incompatible_format,
  owner_mismatch, boundary_mismatch, ◌>>=◌, ◌>>◌, refuse, present, relabel,
}
use cockroachdbxaws.Journal.Times.{equal}
use cockroachdbxaws.Journal.Identifiers.{valid_record_id}
use cockroachdbxaws.Journal.Codec.{
  StoredRecord, decode_stored, state_pending, state_claimed, state_committed,
}
use cockroachdbxaws.Journal.Codec.Values.{
  decode_strings, format_value, usage_value, decode_usage, priority_value, decode_priority,
}
use cockroachdbxaws.Journal.Keys.{
  key_format, key_owner, key_boundary, key_usage, key_priority, record_key, pending_key, claim_key,
  committed_key, read_component, prefix, ns_record,
}
use cockroachdbxaws.Journal.State.{
  NormalizedLog, Found, failed, missing, found, Scan, ended, broken, entry, World, Journal,
  after_error, usable, boundary_value, valid_record_boundary, validate_empty_index,
}
use cockroachdbxaws.Journal.Claims.{max_transition_records, to_nat}
pub mod Reopening
pub mod Usable

pub record RecoveredRecord : Type 0 where
  pub record' : NormalizedLog
  pub state : ℕ

module _ {S : Type 0} (w : World S) where
  -- `get` of a key that an open journal must have.
  abbrev pub stored_value : Found → Result Text
  stored_value failed = err corruption
  stored_value missing = err corruption
  stored_value (found v) = ok v

  -- A journal without a format marker is started, in an empty store only.
  unfoldable pub start_manifest : S → Result S
  start_manifest db = do
    scan ← present (w.new_iter db [] none) corruption
    elim scan [
      | entry key value rest ↦ err incompatible_format
      | broken ↦ err corruption
      | ended ↦
          let (done, next) = w.write db (
            (key_format, some (format_value w.sha256))
            ∷ (key_owner, some (checked w.sha256 (codes "JOW1") w.cfg.owner))
            ∷ (key_boundary, some (boundary_value w))
            ∷ (key_usage, some (usage_value w.sha256 0))
            ∷ (key_priority, some (priority_value w.sha256 (0 ∷ 0 ∷ 0 ∷ 0 ∷ [])))
            ∷ []) in
          if done then ok next else err corruption
    ]

  unfoldable pub check_format : Text → Result (Unit {0})
  check_format format = do
    payload ← present (unchecked w.sha256 format (codes "JFM1")) corruption
    refuse (not (length payload == 4)) corruption
    refuse
        (not (read_big_endian 0 (take 2 payload) == 1)
          || not (read_big_endian 0 (drop 2 payload) == 0))
        incompatible_format

  unfoldable pub check_owner : S → Result (Unit {0})
  check_owner db = do
    owner ← stored_value (w.get db key_owner)
    payload ← present (unchecked w.sha256 owner (codes "JOW1")) corruption
    refuse (not (text_eq payload w.cfg.owner)) owner_mismatch

  unfoldable pub check_boundary : S → Result (Unit {0})
  check_boundary db = do
    boundary ← stored_value (w.get db key_boundary)
    payload ← present (unchecked w.sha256 boundary (codes "JBD1")) corruption
    fields ← relabel corruption (decode_strings w.sha256 payload (codes "JBS1"))
    refuse (not (length fields == 4)) corruption
    refuse (not (text_eq boundary (boundary_value w))) boundary_mismatch

  -- The counters of a journal whose format marker is there.
  unfoldable pub read_manifest : S → Text → Result (ℕ × List ℕ)
  read_manifest db format = do
    check_format format
    check_owner db
    check_boundary db
    encoded ← stored_value (w.get db key_usage)
    usage ← present (decode_usage w.sha256 encoded) corruption
    counts ← stored_value (w.get db key_priority)
    priorities ← present (decode_priority w.sha256 counts) corruption
    ok (usage, priorities)

  -- `openManifest`: the store afterwards and the two counters.
  unfoldable pub open_manifest : S → Result (S × ℕ × List ℕ)
  open_manifest db = elim (w.get db key_format) [
    | failed ↦ err corruption
    | missing ↦ do next ← start_manifest db; ok (next, 0, 0 ∷ 0 ∷ 0 ∷ 0 ∷ [])
    | found format ↦ do (usage, priorities) ← read_manifest db format; ok (db, usage, priorities)
  ]

  -- `Close`, for a store and a lock that answer whether they closed.
  unfoldable pub close : Bool → Bool → Journal S → Result (Unit {0}) × Journal S
  close db_closed lock_closed j =
      if j.closed
      then (ok tt, j)
      else (refuse (not db_closed || not lock_closed) corruption, record j { closed = true })

  -- The key in the index of a record's state.
  unfoldable pub index_of : StoredRecord → Text → Result Text
  index_of stored id =
      if stored.state == state_pending
      then ok (pending_key stored.priority stored.received id)
      else if stored.state == state_claimed
      then ok (claim_key stored.claim_expiry id)
      else if stored.state == state_committed
      then ok (committed_key stored.committed_at id)
      else err corrupted

  -- One turn of the loop of `RecoverRetained`: the identity and the record.
  unfoldable pub recover_one : S → Text → Text → Result (Text × RecoveredRecord)
  recover_one db key value = do
    (id, rest) ← present (read_component (drop 2 key)) corrupted
    refuse (not (length rest == 0) || not (valid_record_id id)) corrupted
    stored ← relabel corrupted (decode_stored w.sha256 value)
    record' ←
        present (w.decode_durable stored.envelope w.cfg.tenant_id w.cfg.classification) corrupted
    refuse
        (not (text_eq record'.record_id id)
          || not (equal record'.received_at stored.received)
          || not (valid_record_boundary w record')
          || not (w.validate_record record'))
        corrupted
    semantic ← present (w.semantic_digest_envelope stored.envelope) corrupted
    refuse (not (text_eq semantic stored.semantic)) corrupted
    index ← index_of stored id
    relabel corrupted (validate_empty_index w db index)
    ok (id, record { record' = record'; state = stored.state })

  -- The loop: the records of the page, and the identity of its last record where more of them follow.
  unfoldable pub recover_loop : S → ℕ → Text → Scan → Result (List RecoveredRecord × Text)
  recover_loop db limit last ended = ok ([], [])
  recover_loop db limit last broken = err corrupted
  recover_loop db zero last (entry key value rest) = ok ([], last)
  recover_loop db (suc limit) last (entry key value rest) = do
    (id, recovered) ← recover_one db key value
    (others, next) ← recover_loop db limit id rest
    ok (recovered ∷ others, next)

  -- The record that a page starts after is passed over.
  unfoldable pub skip_key : Text → Scan → Scan
  skip_key key ended = ended
  skip_key key broken = broken
  skip_key key (entry k v rest) = if text_eq k key then rest else entry k v rest

  unfoldable pub recover_plan : Journal S → Text → ℤ → Result (List RecoveredRecord × Text)
  recover_plan j after limit = do
    usable w j
    refuse
        (below_one limit
          || above limit max_transition_records
          || (not (length after == 0) && not (valid_record_id after)))
        invalid_input
    let first = if length after == 0 then prefix ns_record else record_key after
    scan ← present (w.new_iter j.db first (some (prefix (suc ns_record)))) corrupted
    recover_loop j.db (to_nat w limit) []
        (if length after == 0 then scan else skip_key (record_key after) scan)

  unfoldable pub recover_retained :
      Journal S → Text → ℤ → Result (List RecoveredRecord × Text) × Journal S
  recover_retained j after limit = elim (recover_plan j after limit) [
    | err e ↦ (err e, after_error e j)
    | ok page ↦ (ok page, j)
  ]
