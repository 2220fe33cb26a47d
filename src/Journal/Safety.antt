-- ===== src/Journal/Safety.antt =====
-- journal/journal.go: the operations that change the journal, where they end with an error.
use cockroachdbxaws.Base.{
  ℕ, ◌-◌, ◌≡◌, ◌⊎◌, refl, inl, inr, Text, Bool, true, false, List, ℤ, ◌==◌, Option-cases,
  Bool-cases, ◌≤◌, arith,
}
use cockroachdbxaws.Journal.Results.{
  Result, ok, err, closed, not_healthy, corrupted, JournalError, Result-cases, ◌>>=◌,
}
use cockroachdbxaws.Journal.State.{
  World, Surroundings, Journal, usable, verify_manifest, after_error,
}
use cockroachdbxaws.Journal.Mutation.{Mutation, commit_mutation}
use cockroachdbxaws.Journal.Mutation.Effects.{
  Atomic, after_error-Refused, after_error-usage, commit_mutation-Atomic,
}
use cockroachdbxaws.Journal.Mutation.Bounds.{Fits, commit_mutation-Grown}
use cockroachdbxaws.Journal.Reporting.{
  reported, append_plan-reported, renew_plan-reported, commit_plan-reported,
  quarantine_plan-reported, compact_plan-reported, commit_mutation-reported,
}
use cockroachdbxaws.Journal.Append.{Admission, append_plan, append_batch}
use cockroachdbxaws.Journal.Claims.{
  CommitClaim, claim_expired, claim_pending, commit_with, claim, renew_plan, renew_claims,
  max_transition_records,
}
use cockroachdbxaws.Journal.Commits.{
  commit_plan, mark_committed_batch, quarantine_plan, quarantine, no_value,
}
use cockroachdbxaws.Journal.Retention.{compact_plan, compact}

-- What a journal that is closed, marked, or not the manifest's own makes of a call.
abbrev pub Refusal :
    {S A : Type 0} → (shut healthy verified : Bool) → Journal S → Result A × Journal S → Type 0
Refusal true healthy verified j r = r ≡ (err closed, j)
Refusal false false verified j r = r ≡ (err not_healthy, j)
Refusal false true false j r = r ≡ (err corrupted, record j { healthy = false })
Refusal false true true j r = Unit {0}

Refusal-cases :
    {S A : Type 0} (shut healthy verified : Bool) (j : Journal S) (r : Result A × Journal S)
    → (shut ≡ true → r ≡ (err closed, j))
    → (shut ≡ false → healthy ≡ false → r ≡ (err not_healthy, j))
    → (shut ≡ false
        → healthy ≡ true
        → verified ≡ false
        → r ≡ (err corrupted, record j { healthy = false }))
    → Refusal shut healthy verified j r
Refusal-cases true healthy verified j r a b c = a refl
Refusal-cases false false verified j r a b c = b refl refl
Refusal-cases false true false j r a b c = c refl refl refl
Refusal-cases false true true j r a b c = tt

module _ {S : Type 0} (w : World S) (u : Surroundings) where
  -- An operation refuses a journal that is not usable, ends with no error but its own, and does all or
  -- nothing.
  abbrev pub Sound : {A : Type 0} → Journal S → Result A × Journal S → Type 0
  Sound j r =
      Refusal j.closed j.healthy (verify_manifest w j) j r × (reported r.0 ≡ true) × Atomic w j r

  guarded :
      {A : Type 0} (j : Journal S) (r : Result A × Journal S)
      → ((e : JournalError) → usable w j ≡ err e → r ≡ (err e, after_error e j))
      → Refusal j.closed j.healthy (verify_manifest w j) j r
  unfolding usable after_error
  guarded j r h =
      Refusal-cases j.closed j.healthy (verify_manifest w j) j r (λ shut. h closed (ground arith))
        (λ open' ill. h not_healthy (ground arith)) (λ open' well bad. h corrupted (ground arith))

  commit_with-Atomic :
      {A : Type 0} (j : Journal S) (r : Result (A × Mutation)) → Atomic w j (commit_with w u j r)
  unfolding commit_with
  commit_with-Atomic j (err e) = after_error-Refused w e j
  commit_with-Atomic j (ok (a, m)) =
      carried a (commit_mutation w u j m false) (commit_mutation-Atomic w u j m false)
    where
      carried :
          {A : Type 0} (a : A) (r : Result (Unit {0}) × Journal S)
          → Atomic w j r
          → Atomic w j (r.0 >>= λ _. ok a, r.1)
      carried a (err e, k) h = h
      carried a (ok t, k) h = h

  commit_with-reported :
      {A : Type 0} (j : Journal S) (r : Result (A × Mutation))
      → reported r ≡ true
      → reported (commit_with w u j r).0 ≡ true
  unfolding commit_with
  commit_with-reported j (err e) h = h
  commit_with-reported j (ok (a, m)) h = ground (arith, commit_mutation-reported w u j m false)

  no_value-reported : (r : Result Mutation) → reported r ≡ true → reported (no_value w r) ≡ true
  no_value-reported (ok m) h = refl
  no_value-reported (err e) h = h

  commit_with-Sound :
      {A : Type 0} (j : Journal S) (r : Result (A × Mutation))
      → ((e : JournalError) → usable w j ≡ err e → r ≡ err e)
      → reported r ≡ true
      → Sound j (commit_with w u j r)
  unfolding commit_with
  commit_with-Sound j r h k = (
    guarded j (commit_with w u j r) (λ e f. rw (h e f) refl),
    commit_with-reported j r k,
    commit_with-Atomic j r,
  )

  append_batch-Atomic :
      (j : Journal S) (batch_id : Text) (admissions : List Admission)
      → Atomic w j (append_batch w u j batch_id admissions)
  unfolding append_batch
  append_batch-Atomic j batch_id admissions =
      elim (Result-cases (append_plan w j batch_id admissions)) [
        | inl (e, f) ↦ rw (f, append_batch) (after_error-Refused w e j)
        | inr (plan, f) ↦
            rw (f, append_batch)
              (elim (Option-cases plan) [
                | inl n ↦ rw n (refl, refl, inl refl)
                | inr (m, s) ↦ rw s (commit_mutation-Atomic w u j m true)
              ])
      ]

  append_batch-reported :
      (j : Journal S) (batch_id : Text) (admissions : List Admission)
      → reported (append_batch w u j batch_id admissions).0 ≡ true
  unfolding append_batch
  append_batch-reported j batch_id admissions =
      let plan = append_plan-reported w j batch_id admissions in
      elim (Result-cases (append_plan w j batch_id admissions)) [
        | inl (e, f) ↦ let plan_error = rw f at plan in rw (f, append_batch) plan_error
        | inr (chosen, f) ↦
            rw (f, append_batch)
              (elim (Option-cases chosen) [
                | inl n ↦ rw n refl
                | inr (m, s) ↦ rw s (commit_mutation-reported w u j m true)
              ])
      ]

  append_batch-Sound :
      (j : Journal S) (batch_id : Text) (admissions : List Admission)
      → Sound j (append_batch w u j batch_id admissions)
  unfolding append_batch append_plan
  append_batch-Sound j batch_id admissions = (
    guarded j (append_batch w u j batch_id admissions) (λ e f. rw (f, append_batch) refl),
    append_batch-reported j batch_id admissions,
    append_batch-Atomic j batch_id admissions,
  )

  -- The operations that change the journal in one commit.
  abbrev pub OperationsSound : Journal S → Type 0
  OperationsSound j =
      ((batch_id : Text) (admissions : List Admission)
        → Sound j (append_batch w u j batch_id admissions))
      × ((claims : List CommitClaim) → Sound j (renew_claims w u j claims))
      × ((claims : List CommitClaim) → Sound j (mark_committed_batch w u j claims))
      × ((id token : Text) (reason : ℕ) → Sound j (quarantine w u j id token reason))
      × ((limit : ℤ) → Sound j (compact w u j limit))

  -- Each operation that changes the journal in one commit (appending a batch, renewing claims, committing
  -- claims, quarantining a record, compacting) refuses a closed journal, then an unhealthy one, and marks
  -- one whose manifest does not verify. It reports corruption by `corrupt()` only, and none of the errors of
  -- opening a journal or of the package's own. Where it ends with the error of `corrupt()`, the journal is marked,
  -- its counters are as they were and the store took no batch; where it ends with any other error, the
  -- journal is as it was. Where it succeeds, it wrote at most one batch, which the store took, and the
  -- journal is as healthy as before.
  pub operations-Sound : (j : Journal S) → OperationsSound j
  unfolding renew_claims mark_committed_batch quarantine compact renew_plan commit_plan
      quarantine_plan compact_plan
  operations-Sound j = (
    append_batch-Sound j,
    λ claims.
        commit_with-Sound j (renew_plan w u j claims) (λ e f. rw f refl)
          (renew_plan-reported w u j claims),
    λ claims.
        commit_with-Sound j (no_value w (commit_plan w u j claims)) (λ e f. rw f refl)
          (no_value-reported (commit_plan w u j claims) (commit_plan-reported w u j claims)),
    λ id token reason.
        commit_with-Sound j (no_value w (quarantine_plan w u j id token reason)) (λ e f. rw f refl)
          (no_value-reported (quarantine_plan w u j id token reason)
            (quarantine_plan-reported w u j id token reason)),
    λ limit.
        commit_with-Sound j (compact_plan w u j limit) (λ e f. rw f refl)
          (compact_plan-reported w u j limit),
  )

  -- `Claim` is two such steps: the lapsed claims are returned, and then pending records are claimed. It
  -- ends with the error of the first, or it starts the second from the journal that the first left.
  pub claim-Atomic :
      (j : Journal S) (limit : ℤ) (owner : Text)
      → let first = commit_with w u j (claim_expired w u j limit owner) in
        Atomic w j first
        × (((e : JournalError) × (first.0 ≡ err e) × (claim w u j limit owner ≡ (err e, first.1)))
            ⊎ ((expired : ℕ) × (first.0 ≡ ok expired) × Atomic w first.1 (claim w u j limit owner)))
  unfolding claim
  claim-Atomic j limit owner =
      let first = commit_with w u j (claim_expired w u j limit owner) in
      (
        commit_with-Atomic j (claim_expired w u j limit owner),
        elim (Result-cases first.0) [
          | inl (e, f) ↦ inl (e, f, rw (f, claim) refl)
          | inr (count, f) ↦ inr (
            count,
            f,
            rw (f, claim)
                (elim (Bool-cases (max_transition_records - count == 0)) [
                  | inl done ↦ rw done (refl, refl, inl refl)
                  | inr more ↦
                      rw more
                        (commit_with-Atomic first.1 (claim_pending w u first.1.db _ count owner))
                ]),
          )
        ],
      )

  -- After a batch is appended, no more bytes are in use than before, or they are within the limit and
  -- their growth leaves the headroom of the file system.
  pub append_batch-Grown :
      (j : Journal S) (batch_id : Text) (admissions : List Admission)
      → ((append_batch w u j batch_id admissions).1.usage ≤ j.usage)
        ⊎ Fits w u j.usage (append_batch w u j batch_id admissions).1.usage
  unfolding append_batch
  append_batch-Grown j batch_id admissions =
      elim (Result-cases (append_plan w j batch_id admissions)) [
        | inl (e, f) ↦ rw (f, append_batch) (inl (omega (arith, after_error-usage e j)))
        | inr (plan, f) ↦
            rw (f, append_batch)
              (elim (Option-cases plan) [
                | inl n ↦ rw n (inl (omega arith))
                | inr (m, s) ↦ rw s (commit_mutation-Grown w u j m)
              ])
      ]
