-- ===== src/Journal/Claims.antt =====
-- journal/journal.go: `expireClaims`, `Claim`, `AdoptClaims` and `RenewClaims`.
use cockroachdbxaws.Base.{
  ℕ, zero, suc, ◌+◌, ◌-◌, ◌^◌, Text, text_eq, blank, any, Bool, true, false, not, ◌&&◌, ◌||◌, List,
  [], ◌∷◌, ◌++◌, Option, none, some, ℤ, pos, negsuc, below_one, above, length, if◌then◌else◌, ltb,
  ◌==◌,
}
use cockroachdbxaws.Journal.Results.{
  JournalError, Result, ok, err, invalid_input, stale_claim, corrupted, decode_failure,
  store_failure, ◌>>=◌, ◌>>◌, refuse, present, relabel,
}
use cockroachdbxaws.Journal.Times.{Time, zero_time, before, equal, valid_journal_time, safe_add}
use cockroachdbxaws.Journal.Identifiers.{
  valid_identifier, valid_record_id, valid_claim_token, claim_token, max_owner_bytes,
}
use cockroachdbxaws.Journal.Codec.{
  StoredRecord, encode_stored, state_pending, state_claimed, state_committed,
}
use cockroachdbxaws.Journal.Codec.Values.{reserve_value}
use cockroachdbxaws.Journal.Keys.{
  record_key, pending_key, claim_key, transition_reserve_key, parse_pending_key, parse_timed_key,
  prefix, ns_pending, ns_claim,
}
use cockroachdbxaws.Journal.State.{
  NormalizedLog, Scan, ended, broken, entry, World, Surroundings, Journal, after_error, usable,
  load_record, validate_empty_index, validate_transition_reserve,
}
use cockroachdbxaws.Journal.Mutation.{Mutation, new_mutation, set, del, commit_mutation}
pub mod Attempts
pub mod Growth

abbrev pub max_transition_records : ℕ
max_transition_records = 1_000

abbrev pub max_uint32 : ℕ
max_uint32 = 2 ^ 32 - 1

-- `replay` is the digest of the sealed identity, whose priority is the record's.
pub record ClaimedRecord : Type 0 where
  pub record' : NormalizedLog
  pub priority : ℕ
  pub replay : Text
  pub token : Text
  pub owner : Text
  pub attempt : ℕ
  pub expires_at : Time

pub record CommitClaim : Type 0 where
  pub record_id : Text
  pub token : Text

abbrev pub claimed_of : NormalizedLog → StoredRecord → ClaimedRecord
claimed_of record' stored = record {
  record' = record';
  priority = stored.priority;
  replay = stored.semantic;
  token = stored.claim_token;
  owner = stored.claim_owner;
  attempt = stored.attempt;
  expires_at = stored.claim_expiry;
}

-- A lapsed claim becomes pending again, and a pending record a claim.
abbrev pub lapsed : StoredRecord → StoredRecord
lapsed r = record r {
  state = state_pending;
  claim_owner = [];
  claim_token = [];
  claim_expiry = zero_time;
}

module _ {S : Type 0} (w : World S) where
  -- The record of a key in an index, in the state that the index says.
  abbrev pub indexed : S → Text → ℕ → Result StoredRecord
  indexed db id state = do
    loaded ← relabel corrupted (load_record w db id)
    stored ← present loaded corrupted
    refuse (not (stored.state == state)) corrupted
    ok stored

  abbrev pub expire_record : Text → Text → StoredRecord → Mutation → Mutation
  expire_record key id stored m =
      let recorded = set (record_key id) (encode_stored w.sha256 (lapsed stored)) (del key m) in
      set (transition_reserve_key id) (reserve_value w.sha256)
        (set (pending_key stored.priority stored.received id) [] recorded)

  -- The loop of `expireClaims`, over the claims in the order of their expiries. Each of its errors is
  -- corruption to its caller.
  unfoldable pub expire_loop : S → Time → ℕ → Scan → Mutation → Result (ℕ × Mutation)
  expire_loop db now limit ended m = ok (0, m)
  expire_loop db now limit broken m = err corrupted
  expire_loop db now zero (entry key value rest) m = ok (0, m)
  expire_loop db now (suc limit) (entry key value rest) m = do
    refuse (not (length value == 0)) corrupted
    (expiry, id) ← present (parse_timed_key key ns_claim) corrupted
    elim (before now expiry) [
      | true ↦ ok (0, m)
      | false ↦ do
        stored ← indexed db id state_claimed
        refuse (not (equal stored.claim_expiry expiry)) corrupted
        relabel corrupted (validate_transition_reserve w db id false)
        (expired, last) ← expire_loop db now limit rest (expire_record key id stored m)
        ok (suc expired, last)
    ]

  unfoldable pub expire_claims : S → Time → Mutation → ℕ → Result (ℕ × Mutation)
  expire_claims db now m limit = do
    refuse ((limit == 0) || ltb max_transition_records limit) corrupted
    scan ← present (w.new_iter db (prefix ns_claim) (some (prefix (suc ns_claim)))) corrupted
    refuse (not (valid_journal_time now)) corrupted
    expire_loop db now limit scan m

  -- `Claim` up to the commit of the lapsed claims.
  unfoldable pub claim_expired : Surroundings → Journal S → ℤ → Text → Result (ℕ × Mutation)
  claim_expired u j limit owner = do
    usable w j
    refuse (below_one limit || above limit max_transition_records || blank owner) invalid_input
    refuse (not (valid_identifier owner max_owner_bytes)) invalid_input
    expire_claims j.db (u.now 0) new_mutation max_transition_records

  -- The claim that `owner` gets on a pending record.
  abbrev pub claim_of : Text → Text → Time → StoredRecord → StoredRecord
  claim_of owner id expiry r = record r {
    state = state_claimed;
    attempt = r.attempt + 1;
    claim_owner = owner;
    claim_expiry = expiry;
    claim_token = claim_token w.sha256 w.cfg.owner owner id (r.attempt + 1) expiry;
  }

  abbrev pub claim_record : Text → Text → StoredRecord → Mutation → Mutation
  claim_record key id stored m =
      set (record_key id) (encode_stored w.sha256 stored)
        (set (claim_key stored.claim_expiry id) [] (del key (del (transition_reserve_key id) m)))

  -- The loop of `Claim`, over the pending records in the order of their keys.
  unfoldable pub claim_loop :
      S → Text → Time → ℕ → Scan → Mutation → Result (List ClaimedRecord × Mutation)
  claim_loop db owner expiry limit ended m = ok ([], m)
  claim_loop db owner expiry limit broken m = err corrupted
  claim_loop db owner expiry zero (entry key value rest) m = ok ([], m)
  claim_loop db owner expiry (suc limit) (entry key value rest) m = do
    refuse (not (length value == 0)) corrupted
    (priority, received, id) ← present (parse_pending_key key) corrupted
    stored ← indexed db id state_pending
    refuse (not (stored.priority == priority) || not (equal stored.received received)) corrupted
    refuse (stored.attempt == max_uint32) corrupted
    relabel corrupted (validate_transition_reserve w db id true)
    let claimed = claim_of owner id expiry stored
    record' ←
        present (w.decode_durable claimed.envelope w.cfg.tenant_id w.cfg.classification) corrupted
    (others, last) ← claim_loop db owner expiry limit rest (claim_record key id claimed m)
    ok (claimed_of record' claimed ∷ others, last)

  -- `Claim` after the commit of the lapsed claims, of which there were `expired`.
  unfoldable pub claim_pending :
      Surroundings → S → ℕ → ℕ → Text → Result (List ClaimedRecord × Mutation)
  claim_pending u db limit expired owner = do
    let budget = max_transition_records - expired
    scan ← present (w.new_iter db (prefix ns_pending) (some (prefix (suc ns_pending)))) corrupted
    expiry ← present (safe_add (u.now 1) w.cfg.claim_ttl) corrupted
    claim_loop db owner expiry (if ltb budget limit then budget else limit) scan new_mutation

  -- A result with the changes that go with it: they are committed, and then it is returned.
  unfoldable pub commit_with :
      {A : Type 0} → Surroundings → Journal S → Result (A × Mutation) → Result A × Journal S
  commit_with u j (err e) = (err e, after_error e j)
  commit_with u j (ok (a, m)) =
      let (done, next) = commit_mutation w u j m false in (done >>= λ _. ok a, next)

  abbrev pub to_nat : ℤ → ℕ
  to_nat (pos n) = n
  to_nat (negsuc n) = 0

  unfoldable pub claim :
      Surroundings → Journal S → ℤ → Text → Result (List ClaimedRecord) × Journal S
  claim u j limit owner =
      let (expired, next) = commit_with u j (claim_expired u j limit owner) in
      elim expired [
        | err e ↦ (err e, next)
        | ok count ↦
            if max_transition_records - count == 0
            then (ok [], next)
            else commit_with u next (claim_pending u next.db (to_nat limit) count owner)
      ]

  -- The loop of `AdoptClaims`, over the claims in the order of their expiries.
  unfoldable pub adopt_loop : S → Text → Time → ℕ → Scan → Result (List ClaimedRecord)
  adopt_loop db owner now limit ended = ok []
  adopt_loop db owner now limit broken = err corrupted
  adopt_loop db owner now zero (entry key value rest) = ok []
  adopt_loop db owner now (suc limit) (entry key value rest) = do
    refuse (not (length value == 0)) corrupted
    (expiry, id) ← present (parse_timed_key key ns_claim) corrupted
    stored ← indexed db id state_claimed
    refuse (not (equal stored.claim_expiry expiry)) corrupted
    elim (not (before now expiry) || not (text_eq stored.claim_owner owner)) [
      | true ↦ adopt_loop db owner now (suc limit) rest
      | false ↦ do
        relabel corrupted (validate_transition_reserve w db id false)
        record' ←
            present (w.decode_durable stored.envelope w.cfg.tenant_id w.cfg.classification)
              corrupted
        others ← adopt_loop db owner now limit rest
        ok (claimed_of record' stored ∷ others)
    ]

  unfoldable pub adopt_plan : Surroundings → Journal S → Text → ℤ → Result (List ClaimedRecord)
  adopt_plan u j owner limit = do
    usable w j
    refuse
        (below_one limit
          || above limit max_transition_records
          || not (valid_identifier owner max_owner_bytes))
        invalid_input
    scan ← present (w.new_iter j.db (prefix ns_claim) (some (prefix (suc ns_claim)))) corrupted
    refuse (not (valid_journal_time (u.now 0))) corrupted
    adopt_loop j.db owner (u.now 0) (to_nat limit) scan

  unfoldable pub adopt_claims :
      Surroundings → Journal S → Text → ℤ → Result (List ClaimedRecord) × Journal S
  adopt_claims u j owner limit = elim (adopt_plan u j owner limit) [
    | err e ↦ (err e, after_error e j)
    | ok adopted ↦ (ok adopted, j)
  ]

  -- What a claim that a caller names must be, with the identities named before it.
  abbrev pub check_claim : CommitClaim → List Text → Result (Unit {0})
  check_claim c seen =
      refuse
        (not (valid_record_id c.record_id)
          || not (valid_claim_token c.token)
          || any (text_eq c.record_id) seen)
        invalid_input

  -- A claim that is held: the stored record is claimed under the token and not expired.
  abbrev pub holds : StoredRecord → CommitClaim → Time → Bool
  holds stored c now =
      (stored.state == state_claimed)
      && text_eq stored.claim_token c.token
      && before now stored.claim_expiry

  unfoldable pub check_indexes : S → Text → Text → Result (Unit {0})
  check_indexes db index_key id = do
    relabel corrupted (validate_empty_index w db index_key)
    relabel corrupted (validate_transition_reserve w db id false)

  abbrev pub renewed : Text → Time → StoredRecord → StoredRecord
  renewed id expiry r = record r {
    claim_expiry = expiry;
    claim_token = claim_token w.sha256 w.cfg.owner r.claim_owner id r.attempt expiry;
  }

  unfoldable pub renew_loop :
      S
      → Time
      → Time
      → List Text
      → List CommitClaim
      → Mutation
      → Result (List ClaimedRecord × Mutation)
  renew_loop db now expiry seen [] m = ok ([], m)
  renew_loop db now expiry seen (c ∷ cs) m = do
    check_claim c seen
    loaded ← relabel corrupted (load_record w db c.record_id)
    stored ← present loaded stale_claim
    elim (stored.state == state_committed) [
      | true ↦ do
        refuse (not (text_eq stored.claim_token c.token)) stale_claim
        renew_loop db now expiry (c.record_id ∷ seen) cs m
      | false ↦ do
        refuse (not (holds stored c now)) stale_claim
        check_indexes db (claim_key stored.claim_expiry c.record_id) c.record_id
        record' ←
            present (w.decode_durable stored.envelope w.cfg.tenant_id w.cfg.classification)
              corrupted
        let next = renewed c.record_id expiry stored
        let indexed' =
            set (claim_key expiry c.record_id) []
              (del (claim_key stored.claim_expiry c.record_id) m)
        (others, last) ←
            renew_loop db now expiry (c.record_id ∷ seen) cs
              (set (record_key c.record_id) (encode_stored w.sha256 next) indexed')
        ok (claimed_of record' next ∷ others, last)
    ]

  unfoldable pub renew_plan :
      Surroundings → Journal S → List CommitClaim → Result (List ClaimedRecord × Mutation)
  renew_plan u j claims = do
    usable w j
    refuse ((length claims == 0) || ltb max_transition_records (length claims)) invalid_input
    refuse (not (valid_journal_time (u.now 0))) corrupted
    expiry ← present (safe_add (u.now 0) w.cfg.claim_ttl) corrupted
    renew_loop j.db (u.now 0) expiry [] claims new_mutation

  unfoldable pub renew_claims :
      Surroundings → Journal S → List CommitClaim → Result (List ClaimedRecord) × Journal S
  renew_claims u j claims = commit_with u j (renew_plan u j claims)
