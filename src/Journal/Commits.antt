-- ===== src/Journal/Commits.antt =====
-- journal/journal.go: `MarkCommittedBatch`, `MarkCommitted` and `Quarantine`, which end a claim.
use cockroachdbxaws.Base.{
  ℕ, Text, text_eq, Bool, true, false, not, ◌&&◌, ◌||◌, List, [], ◌∷◌, Option, none, some, length,
  if◌then◌else◌, ltb, ◌==◌,
}
use cockroachdbxaws.Journal.Results.{
  JournalError, Result, ok, err, invalid_input, stale_claim, corrupted, ◌>>=◌, ◌>>◌, refuse,
  present, relabel,
}
use cockroachdbxaws.Journal.Times.{Time, zero_time, before, valid_journal_time, safe_add}
use cockroachdbxaws.Journal.Identifiers.{valid_record_id, valid_claim_token}
use cockroachdbxaws.Journal.Codec.{StoredRecord, encode_stored, state_claimed, state_committed}
use cockroachdbxaws.Journal.Codec.Quarantines.{encode_quarantine, first_reason, last_reason}
use cockroachdbxaws.Journal.Keys.{record_key, claim_key, committed_key, quarantine_key}
use cockroachdbxaws.Journal.State.{World, Surroundings, Journal, after_error, usable, load_record}
use cockroachdbxaws.Journal.Mutation.{Mutation, new_mutation, set, del, sub_priority}
use cockroachdbxaws.Journal.References.{remove_batch_refs}
use cockroachdbxaws.Journal.Claims.{
  CommitClaim, max_transition_records, check_claim, check_indexes, commit_with, holds,
}
pub mod Fencing
pub mod Durability

module _ {S : Type 0} (w : World S) where
  abbrev pub committed : Time → StoredRecord → StoredRecord
  committed now r = record r {
    state = state_committed;
    committed_at = now;
    claim_owner = [];
    claim_expiry = zero_time;
  }

  abbrev pub commit_record : Text → Time → StoredRecord → Mutation → Mutation
  commit_record id now stored m = set (committed_key now id) [] (
      set (record_key id) (encode_stored w.sha256 (committed now stored))
        (del (claim_key stored.claim_expiry id) m))

  -- One claim: it was committed before under its token, or it is held and is committed now.
  unfoldable pub commit_one : S → Time → CommitClaim → Mutation → Result Mutation
  commit_one db now c m = do
    loaded ← relabel corrupted (load_record w db c.record_id)
    stored ← present loaded stale_claim
    elim (stored.state == state_committed) [
      | true ↦ do
        check_indexes w db (committed_key stored.committed_at c.record_id) c.record_id
        refuse (not (text_eq stored.claim_token c.token)) stale_claim
        ok m
      | false ↦ do
        refuse (not (holds w stored c now)) stale_claim
        check_indexes w db (claim_key stored.claim_expiry c.record_id) c.record_id
        ok (commit_record c.record_id now stored m)
    ]

  unfoldable pub commit_loop : S → Time → List Text → List CommitClaim → Mutation → Result Mutation
  commit_loop db now seen [] m = ok m
  commit_loop db now seen (c ∷ cs) m = do
    check_claim w c seen
    next ← commit_one db now c m
    commit_loop db now (c.record_id ∷ seen) cs next

  unfoldable pub commit_plan : Surroundings → Journal S → List CommitClaim → Result Mutation
  commit_plan u j claims = do
    usable w j
    refuse ((length claims == 0) || ltb max_transition_records (length claims)) invalid_input
    refuse (not (valid_journal_time (u.now 0))) corrupted
    _ ← present (safe_add (u.now 0) w.cfg.safety_delay) corrupted
    commit_loop j.db (u.now 0) [] claims new_mutation

  abbrev pub no_value : Result Mutation → Result (Unit {0} × Mutation)
  no_value (ok m) = ok (tt, m)
  no_value (err e) = err e

  unfoldable pub mark_committed_batch :
      Surroundings → Journal S → List CommitClaim → Result (Unit {0}) × Journal S
  mark_committed_batch u j claims = commit_with w u j (no_value (commit_plan u j claims))

  unfoldable pub mark_committed :
      Surroundings → Journal S → Text → Text → Result (Unit {0}) × Journal S
  mark_committed u j record_id token =
      mark_committed_batch u j (record { record_id = record_id; token = token } ∷ [])

  unfoldable pub quarantine_plan : Surroundings → Journal S → Text → Text → ℕ → Result Mutation
  quarantine_plan u j record_id token reason = do
    let now = u.now 0
    usable w j
    refuse
        (not (valid_record_id record_id)
          || not (valid_claim_token token)
          || ltb reason first_reason
          || ltb last_reason reason)
        invalid_input
    loaded ← relabel corrupted (load_record w j.db record_id)
    refuse (not (valid_journal_time now)) corrupted
    stored ← present loaded stale_claim
    refuse (not (holds w stored (record { record_id = record_id; token = token }) now)) stale_claim
    check_indexes w j.db (claim_key stored.claim_expiry record_id) record_id
    let gone =
        del (record_key record_id) (del (claim_key stored.claim_expiry record_id) new_mutation)
    m ← relabel corrupted (remove_batch_refs w j.db record_id (sub_priority stored.priority gone))
    ok (
        set (quarantine_key record_id)
          (encode_quarantine w.sha256 record_id reason now stored.attempt stored.semantic
            stored.priority)
          m)

  unfoldable pub quarantine :
      Surroundings → Journal S → Text → Text → ℕ → Result (Unit {0}) × Journal S
  quarantine u j record_id token reason =
      commit_with w u j (no_value (quarantine_plan u j record_id token reason))
