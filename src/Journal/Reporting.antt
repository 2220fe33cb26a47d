-- ===== src/Journal/Reporting.antt =====
-- journal/journal.go: the errors that the operations may end with.
use cockroachdbxaws.Base.{
  refl, arith, ℕ, zero, suc, subst, ◌≡◌, inl, inr, Text, Bool, true, false, List, [], ◌∷◌, ℤ, pos,
  negsuc, Option, none, some, Bool-cases,
}
use cockroachdbxaws.Journal.Results.{
  JournalError, Result, ok, err, corruption, incompatible_format, owner_mismatch, boundary_mismatch,
  decode_failure, store_failure,
}
use cockroachdbxaws.Journal.Times.{Time}
use cockroachdbxaws.Journal.Codec.{StoredRecord}
use cockroachdbxaws.Journal.State.{World, Surroundings, Journal, Scan, ended, broken, entry, usable}
use cockroachdbxaws.Journal.Mutation.{
  Mutation, sorted_ops, next_priorities, discharge, charge, next_usage, check_room, prepare_commit,
  commit_mutation, apply_writes,
}
use cockroachdbxaws.Journal.Mutation.Effects.{commit_mutation_cases}
use cockroachdbxaws.Journal.Claims.{CommitClaim, check_indexes, renew_loop, renew_plan}
use cockroachdbxaws.Journal.Commits.{commit_one, commit_loop, commit_plan, quarantine_plan}
use cockroachdbxaws.Journal.Append.{
  Admission, Prepared, prepare_one, prepare, replay_batch, refer_to, replay_quarantined,
  append_record, append_records, append_plan,
}
use cockroachdbxaws.Journal.Retention.{compact_loop, compact_plan}

-- An error that an operation on an open journal may end with. `corruption` is not one, since an operation
-- reports it by `corrupted`, nor are the other errors of opening a journal and the package's own.
abbrev pub operational : JournalError → Bool
operational corruption = false
operational incompatible_format = false
operational owner_mismatch = false
operational boundary_mismatch = false
operational decode_failure = false
operational store_failure = false
operational _ = true

abbrev pub reported : {A : Type 0} → Result A → Bool
reported (ok a) = true
reported (err e) = operational e

module _ {S : Type 0} (w : World S) where
  usable-reported : (j : Journal S) → reported (usable w j) ≡ true
  unfolding usable
  usable-reported j = ground arith

  check_indexes-reported : (db : S) (key id : Text) → reported (check_indexes w db key id) ≡ true
  unfolding check_indexes
  check_indexes-reported db key id = ground arith

  commit_one-reported :
      (db : S) (now : Time) (c : CommitClaim) (m : Mutation)
      → reported (commit_one w db now c m) ≡ true
  unfolding commit_one
  commit_one-reported db now c m = grind (arith, check_indexes-reported db)

  commit_loop-reported :
      (db : S) (now : Time) (seen : List Text) (cs : List CommitClaim) (m : Mutation)
      → reported (commit_loop w db now seen cs m) ≡ true
  unfolding commit_loop
  commit_loop-reported db now seen [] m = refl
  commit_loop-reported db now seen (c ∷ cs) m =
      grind
        (arith, commit_one-reported db now c m, commit_loop-reported db now (c.record_id ∷ seen) cs)

  pub commit_plan-reported :
      (u : Surroundings) (j : Journal S) (claims : List CommitClaim)
      → reported (commit_plan w u j claims) ≡ true
  unfolding commit_plan
  commit_plan-reported u j claims =
      grind (arith, usable-reported j, commit_loop-reported j.db (u.now 0) [] claims)

  renew_loop-reported :
      (db : S) (now expiry : Time) (seen : List Text) (cs : List CommitClaim) (m : Mutation)
      → reported (renew_loop w db now expiry seen cs m) ≡ true
  unfolding renew_loop
  renew_loop-reported db now expiry seen [] m = refl
  renew_loop-reported db now expiry seen (c ∷ cs) m =
      grind (
        arith,
        check_indexes-reported db,
        renew_loop-reported db now expiry (c.record_id ∷ seen) cs,
      )

  pub renew_plan-reported :
      (u : Surroundings) (j : Journal S) (claims : List CommitClaim)
      → reported (renew_plan w u j claims) ≡ true
  unfolding renew_plan
  renew_plan-reported u j claims = grind (arith, usable-reported j, renew_loop-reported j.db)

  pub quarantine_plan-reported :
      (u : Surroundings) (j : Journal S) (id token : Text) (reason : ℕ)
      → reported (quarantine_plan w u j id token reason) ≡ true
  unfolding quarantine_plan
  quarantine_plan-reported u j id token reason =
      grind (arith, usable-reported j, check_indexes-reported j.db)

  compact_loop-reported :
      (db : S) (now : Time) (limit : ℕ) (scan : Scan) (m : Mutation)
      → reported (compact_loop w db now limit scan m) ≡ true
  unfolding compact_loop
  compact_loop-reported db now limit ended m = refl
  compact_loop-reported db now limit broken m = refl
  compact_loop-reported db now zero (entry key value rest) m = refl
  compact_loop-reported db now (suc limit) (entry key value rest) m =
      grind (arith, compact_loop-reported db now limit rest)

  pub compact_plan-reported :
      (u : Surroundings) (j : Journal S) (limit : ℤ) → reported (compact_plan w u j limit) ≡ true
  unfolding compact_plan
  compact_plan-reported u j limit = grind (arith, usable-reported j, compact_loop-reported j.db)

  prepare_one-reported :
      (batch_id : Text) (a : Admission) → reported (prepare_one w batch_id a) ≡ true
  unfolding prepare_one
  prepare_one-reported batch_id a = ground arith

  prepare-reported :
      (batch_id : Text) (as' : List Admission) (unique : List (Text × Prepared))
      → reported (prepare w batch_id as' unique) ≡ true
  unfolding prepare
  prepare-reported batch_id [] unique = refl
  prepare-reported batch_id (a ∷ as') unique =
      grind (arith, prepare_one-reported batch_id a, prepare-reported batch_id as')

  replay_batch-reported :
      (db : S) (batch_id : Text) (ps : List (Text × Prepared)) (existing : Text)
      → reported (replay_batch w db batch_id ps existing) ≡ true
  unfolding replay_batch
  replay_batch-reported db batch_id ps existing = ground arith

  refer_to-reported :
      (db : S) (batch_id id : Text) (p : Prepared) (r : StoredRecord) (m : Mutation)
      → reported (refer_to w db batch_id id p r m) ≡ true
  unfolding refer_to
  refer_to-reported db batch_id id p r m = ground arith

  replay_quarantined-reported :
      (id : Text) (p : Prepared) (value : Text) (m : Mutation)
      → reported (replay_quarantined w id p value m) ≡ true
  unfolding replay_quarantined
  replay_quarantined-reported id p value m = ground arith

  append_record-reported :
      (db : S) (batch_id : Text) (e : Text × Prepared) (m : Mutation)
      → reported (append_record w db batch_id e m) ≡ true
  unfolding append_record
  append_record-reported db batch_id (id, p) m =
      grind (arith, refer_to-reported db batch_id id p, replay_quarantined-reported id p)

  append_records-reported :
      (db : S) (batch_id : Text) (es : List (Text × Prepared)) (m : Mutation)
      → reported (append_records w db batch_id es m) ≡ true
  unfolding append_records
  append_records-reported db batch_id [] m = refl
  append_records-reported db batch_id (e ∷ es) m =
      grind (arith, append_record-reported db batch_id e, append_records-reported db batch_id es)

  pub append_plan-reported :
      (j : Journal S) (batch_id : Text) (admissions : List Admission)
      → reported (append_plan w j batch_id admissions) ≡ true
  unfolding append_plan
  append_plan-reported j batch_id admissions = grind (
    arith,
    usable-reported j,
    prepare-reported batch_id admissions [],
    replay_batch-reported j.db batch_id,
    append_records-reported j.db batch_id,
  )

  next_priorities-reported : (ps : List ℕ) (ds : List ℤ) → reported (next_priorities ps ds) ≡ true
  unfolding next_priorities
  next_priorities-reported [] ds = refl
  next_priorities-reported (p ∷ ps) [] = refl
  next_priorities-reported (p ∷ ps) (negsuc n ∷ ds) = ground (arith, next_priorities-reported ps ds)
  next_priorities-reported (p ∷ ps) (pos n ∷ ds) = ground (arith, next_priorities-reported ps ds)

  discharge-reported : (db : S) (key : Text) (next : ℕ) → reported (discharge w db key next) ≡ true
  unfolding discharge
  discharge-reported db key next = ground arith

  charge-reported :
      (key : Text) (v : Option Text) (next : ℕ) → reported (charge w key v next) ≡ true
  unfolding charge
  charge-reported key none next = refl
  charge-reported key (some value) next = ground arith

  next_usage-reported :
      (db : S) (es : List (Text × Option Text)) (next : ℕ)
      → reported (next_usage w db es next) ≡ true
  unfolding next_usage
  next_usage-reported db [] next = refl
  next_usage-reported db (e ∷ es) next =
      grind
        (arith, next_usage-reported db es, discharge-reported db e.0 next, charge-reported e.0 e.1)

  check_room-reported :
      (u : Surroundings) (usage next : ℕ) → reported (check_room w u usage next) ≡ true
  unfolding check_room
  check_room-reported u usage next = ground arith

  prepare_commit-reported :
      (u : Surroundings) (j : Journal S) (m : Mutation) (c : Bool)
      → reported (prepare_commit w u j m c) ≡ true
  unfolding prepare_commit
  prepare_commit-reported u j m c = grind (
    arith,
    next_priorities-reported j.priorities m.priority_delta,
    next_usage-reported j.db (sorted_ops m.ops) j.usage,
    check_room-reported u j.usage,
  )

  pub commit_mutation-reported :
      (u : Surroundings) (j : Journal S) (m : Mutation) (c : Bool)
      → reported (commit_mutation w u j m c).0 ≡ true
  unfolding apply_writes
  commit_mutation-reported u j m c =
      commit_mutation_cases w u j m c (λ r. reported r.0 ≡ true) (λ n. refl)
        (λ e f. subst (λ r. reported r ≡ true) f (prepare_commit-reported u j m c))
        (λ plan f. elim (Bool-cases (w.write j.db plan.0).0) [
          | inl done ↦ rw done refl
          | inr undone ↦ rw undone refl
        ])
