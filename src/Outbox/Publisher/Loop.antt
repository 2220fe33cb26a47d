-- ===== src/Outbox/Publisher/Loop.antt =====
-- outbox/publisher.go, `PublishCycle`: the fencing tokens, the claim, and the loop over the claims.
use cockroachdbxaws.Base.{
  ℕ, zero, suc, ◌+◌, Text, Bool, true, false, List, [], ◌∷◌, ◌++◌, Option, none, some, length,
  if◌then◌else◌, leb,
}
use cockroachdbxaws.Outbox.Transport.{timeout}
use cockroachdbxaws.Outbox.Publisher.{
  OutboxClaim, Config, Counts, Call, context_checked, clock_read, Environment, Cycle, record_call,
  add_retried, read_clock, release_now, deliver,
}
pub mod Turns
pub mod Accounting
pub mod Safety
mod Examples

pub data CycleError : Type 0 where
  token_failed claim_failed deployment_failed : CycleError

-- The loop of `tokens`: `count` identifiers, the first of them the `i`-th.
pub tokens_from : Environment → ℕ → ℕ → Option (List Text)
tokens_from e zero i = some []
tokens_from e (suc count) i =
    let rest = tokens_from e count (i + 1) in
    elim (e.new_id i) [
      | none ↦ none
      | some token ↦ elim rest [ none ↦ none | some later ↦ some (token ∷ later) ]
    ]

-- `leaseCovers`, at the clock's answer.
abbrev pub lease_covers : Config → OutboxClaim → ℕ → Bool
lease_covers c claim now = leb (now + c.publish_timeout) claim.expires_at

-- One entry of the log is made on each side of `ctx.Err()`; the calls after it are made only where
-- the context is live.
pub run_claims : Config → Environment → List OutboxClaim → Cycle → Option CycleError × Cycle
run_claims c e [] s = (none, s)
run_claims c e (claim ∷ claims) s =
    let (now, t) = read_clock e (record_call (context_checked false) s) in
    let (outcome, u) = deliver c e claim t in
    let rest = run_claims c e claims u in
    elim (e.cancelled (length s.log)) [
      | true ↦ (none, record_call (context_checked true) s)
      | false ↦ elim (lease_covers c claim now) [
        | false ↦
            (none, add_retried (suc (length claims)) (release_now e (claim ∷ claims) timeout t))
        | true ↦ elim outcome.fault [
          | true ↦ (
            some deployment_failed,
            add_retried (length claims) (release_now e claims outcome.reason u),
          )
          | false ↦ rest
        ]
      ]
    ]

abbrev pub no_counts : ℕ → Counts
no_counts claimed = record {
  claimed = claimed;
  published = 0;
  dead_lettered = 0;
  retried = 0;
  unrecorded = 0;
}

pub publish_cycle : Config → Environment → Option CycleError × Cycle
unfolding tokens_from run_claims
publish_cycle c e =
    let (now, s) = read_clock e (record { log = []; result = no_counts 0 }) in
    elim (tokens_from e c.batch 0) [
      | none ↦ (some token_failed, s)
      | some tokens ↦ elim (e.claim_outbox tokens now) [
        | none ↦ (some claim_failed, s)
        | some claims ↦ run_claims c e claims (record s { result = no_counts (length claims) })
      ]
    ]
