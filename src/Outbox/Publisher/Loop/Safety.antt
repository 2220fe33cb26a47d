-- ===== src/Outbox/Publisher/Loop/Safety.antt =====
-- What each call of a cycle rests on: a condition on a call and on the calls before it.
use cockroachdbxaws.Base.{
  ◌+◌, ◌≤◌, ◌≡◌, ◌⊎◌, refl, inl, inr, true, false, List, [], ◌∷◌, none, some, length, text_eq_iff,
  arith, Bool-cases, Option-cases, leb, leb→le, codes,
}
use cockroachdbxaws.Outbox.Transport.{Reason, GoError, classify, timeout, attempts_exhausted}
use cockroachdbxaws.Outbox.Publisher.{
  OutboxClaim, Config, Call, context_checked, clock_read, offered, dead_letter_sent, marked,
  retry_recorded, Environment, Cycle, mark_outbox_published, mark_published, retry_after, retry,
  release_now, dead_letter, settle, deliver, check_boundary, attribute,
}
use cockroachdbxaws.Outbox.Publisher.Cases.{offer, deliver_cases}
use cockroachdbxaws.Outbox.Publisher.Loop.{run_claims, publish_cycle, no_counts, tokens_from}
use cockroachdbxaws.Outbox.Publisher.Loop.Turns.{ready, run_claims_turn}

-- The claim belongs to the publisher's region and tenant, and routes there.
abbrev pub InScope : Config → OutboxClaim → Type 0
InScope c claim =
    (claim.scope.region ≡ c.scope.region)
    × (claim.scope.tenant_id ≡ c.scope.tenant_id)
    × (attribute (codes "region") claim.message.attributes ≡ c.scope.region)

-- The last call before was the clock's, and the lease covers a whole attempt from there.
abbrev pub Covered : Config → OutboxClaim → List Call → Type 0
Covered c claim (clock_read now ∷ older) = now + c.publish_timeout ≤ claim.expires_at
Covered c claim _ = ⊥

-- The call just before the clock reading was acknowledged for this very claim.
abbrev Acknowledged : OutboxClaim → List Call → Type 0
Acknowledged claim (offered claim' none ∷ older) = claim' ≡ claim
Acknowledged claim (dead_letter_sent claim' _ none ∷ older) = claim' ≡ claim
Acknowledged claim _ = ⊥

abbrev pub AfterClock : OutboxClaim → List Call → Type 0
AfterClock claim (clock_read now ∷ older) = Acknowledged claim older
AfterClock claim _ = ⊥

-- The attempt on this claim failed with this error: at the boundary, or in the call just before.
abbrev pub FailedWith : Config → OutboxClaim → GoError → List Call → Type 0
FailedWith c claim err older =
    (check_boundary c claim ≡ some err)
    ⊎ ((rest : List Call) × (older ≡ offered claim (some err) ∷ rest))

-- A dead-letter send follows a failure of this claim that is not the deployment's, and that either
-- rejects the message or comes at the last allowed attempt.
abbrev pub Condemned : Config → OutboxClaim → List Call → Type 0
Condemned c claim older =
    (err : GoError) × FailedWith c claim err older
    × ((classify err).0.is_deployment_fault ≡ false)
    × (((classify err).0.is_message_rejected ≡ true) ⊎ (c.max_attempts ≤ claim.attempt))

abbrev pub Permitted : Config → Call → List Call → Type 0
Permitted c (context_checked _) older = Unit {0}
Permitted c (clock_read _) older = Unit {0}
Permitted c (offered claim _) older = InScope c claim × Covered c claim older
Permitted c (dead_letter_sent claim _ _) older = Condemned c claim older
Permitted c (marked claim _ _) older = AfterClock claim older
Permitted c (retry_recorded _ _ _ _ _) older = Unit {0}

abbrev pub AllPermitted : Config → List Call → Type 0
AllPermitted c [] = Unit {0}
AllPermitted c (x ∷ xs) = Permitted c x xs × AllPermitted c xs

boundary-InScope :
    (c : Config) (claim : OutboxClaim) → check_boundary c claim ≡ none → InScope c claim
unfolding check_boundary
boundary-InScope c claim h = ground (
  arith,
  text_eq_iff claim.scope.region c.scope.region,
  text_eq_iff claim.scope.tenant_id c.scope.tenant_id,
  text_eq_iff (attribute (codes "region") claim.message.attributes) c.scope.region,
)

module _ (c : Config) (e : Environment) (claim : OutboxClaim) where
  mark-Permitted :
      (s : Cycle)
      → Acknowledged claim s.log
      → AllPermitted c s.log
      → AllPermitted c (mark_published e claim s).log
  unfolding mark_published mark_outbox_published
  mark-Permitted s a p = ground arith

  dead_letter-Permitted :
      (reason : Reason) (s : Cycle)
      → Condemned c claim s.log
      → AllPermitted c s.log
      → AllPermitted c (dead_letter c e claim reason s).log
  unfolding dead_letter mark_outbox_published retry_after
  dead_letter-Permitted reason s d p = ground arith

  settle-Permitted :
      (err : GoError) (s : Cycle)
      → FailedWith c claim err s.log
      → AllPermitted c s.log
      → AllPermitted c (settle c e claim err s).1.log
  unfolding settle retry retry_after
  settle-Permitted err s f p = elim (Bool-cases (classify err).0.is_deployment_fault) [
    | inl fault ↦ ground (arith, fault)
    | inr ok ↦ elim (Bool-cases (classify err).0.is_message_rejected) [
      | inl bad ↦
          rw (ok, settle)
            (rw bad (dead_letter-Permitted (classify err).1 s (err, f, ok, inl bad) p))
      | inr fine ↦ elim (Bool-cases (leb c.max_attempts claim.attempt)) [
        | inl last ↦
            rw (ok, settle)
              (rw fine (
                rw last (
                  dead_letter-Permitted attempts_exhausted s
                    (err, f, ok, inr (leb→le c.max_attempts claim.attempt last)) p)))
        | inr more ↦ ground (arith, ok, fine, more)
      ]
    ]
  ]

  deliver-Permitted :
      (s : Cycle)
      → Covered c claim s.log
      → AllPermitted c s.log
      → AllPermitted c (deliver c e claim s).1.log
  deliver-Permitted s l p =
      deliver_cases c e claim s (λ r. AllPermitted c r.1.log)
        (λ err b. settle-Permitted err s (inl b) p)
        (λ b a. mark-Permitted (offer claim none s) refl ((boundary-InScope c claim b, l), p))
        (λ err b a.
          settle-Permitted err (offer claim (some err) s) (inr (s.log, refl))
            ((boundary-InScope c claim b, l), p))

release_now-Permitted :
    (c : Config) (e : Environment) (claims : List OutboxClaim) (reason : Reason) (s : Cycle)
    → AllPermitted c s.log
    → AllPermitted c (release_now e claims reason s).log
unfolding release_now retry_after
release_now-Permitted c e [] reason s p = p
release_now-Permitted c e (claim ∷ claims) reason s p =
    release_now-Permitted c e claims reason (retry_after e claim reason 0 s) (tt, (tt, p))

run_claims-Permitted :
    (c : Config) (e : Environment) (claims : List OutboxClaim) (s : Cycle)
    → AllPermitted c s.log
    → AllPermitted c (run_claims c e claims s).1.log
unfolding run_claims
run_claims-Permitted c e [] s p = p
run_claims-Permitted c e (claim ∷ claims) s p =
    let start : AllPermitted c (ready e s).log = (tt, (tt, p)) in
    run_claims_turn c e claim claims s (λ r. AllPermitted c r.1.log) (λ stop. (tt, p))
      (λ no_lease. release_now-Permitted c e (claim ∷ claims) timeout (ready e s) start)
      (λ lease fault.
        release_now-Permitted c e claims _ (deliver c e claim (ready e s)).1
          (deliver-Permitted c e claim (ready e s) (leb→le _ _ lease) start))
      λ lease fine.
        run_claims-Permitted c e claims (deliver c e claim (ready e s)).1
          (deliver-Permitted c e claim (ready e s) (leb→le _ _ lease) start)

-- Every call of a cycle is permitted. A message is offered to the queue only if its claim has the
-- publisher's region and tenant and routes to that region, and only straight after a clock reading
-- from which the lease covers a whole attempt. A row is marked published only when the call before
-- was acknowledged for that claim. A message is sent to the dead-letter queue only after a failure
-- of that claim that is not a deployment fault and that rejects it or meets the attempt limit.
pub publish_cycle-AllPermitted :
    (c : Config) (e : Environment) → AllPermitted c (publish_cycle c e).1.log
unfolding publish_cycle
publish_cycle-AllPermitted c e = elim (Option-cases (tokens_from e c.batch 0)) [
  | inl n ↦ rw (n, publish_cycle) (tt, tt)
  | inr (tokens, y) ↦ elim (Option-cases (e.claim_outbox tokens (e.now 0))) [
    | inl n ↦ rw (y, publish_cycle) (rw n (tt, tt))
    | inr (claims, m) ↦
        rw (y, publish_cycle)
          (rw m (
            run_claims-Permitted c e claims
              (record { log = clock_read (e.now 0) ∷ []; result = no_counts (length claims) })
              (tt, tt)))
  ]
]
