-- ===== src/Outbox/Publisher.antt =====
-- outbox/publisher.go: one publish cycle. What the publisher calls (clock, identifier source, store,
-- transport, context) answers by an `Environment`, indexed by the number of calls made so far, so
-- every behaviour of those parts is some environment; the log records each call with its answer.
use cockroachdbxaws.Base.{
  ℕ, zero, suc, ◌+◌, ◌-◌, Text, text_eq, codes, Bool, true, false, not, ◌&&◌, ◌||◌, List, [], ◌∷◌,
  ◌++◌, Option, none, some, length, if◌then◌else◌, ltb, leb, ◌==◌,
}
use cockroachdbxaws.Queue.{Message}
use cockroachdbxaws.Outbox.Transport.{
  Reason, OutboxFailure, Class, GoError, timeout, region_mismatch, rejected, attempts_exhausted,
  other, err_deployment_fault, err_message_rejected, new_failure, failure, classify,
}
use cockroachdbxaws.Outbox.Backoff.{Schedule, backoff}
pub mod Cases
pub mod Loop

pub record Scope : Type 0 where
  pub region : Text
  pub tenant_id : Text

pub record OutboxClaim : Type 0 where
  pub scope : Scope
  pub message : Message
  pub token : Text
  pub owner : Text
  pub attempt : ℕ
  pub expires_at : ℕ

-- The parts of `agent.Assignment` that the boundary check reads.
pub record Assignment : Type 0 where
  pub region : Text
  pub tenant_id : Text

pub record Config : Type 0 where
  pub scope : Scope
  pub batch : ℕ
  pub publish_timeout : ℕ
  pub schedule : Schedule
  pub max_attempts : ℕ
  -- `agent.DecodeAssignment`.
  pub decode_assignment : Text → Option Assignment

-- `Result`.
pub record Counts : Type 0 where
  pub claimed : ℕ
  pub published : ℕ
  pub dead_lettered : ℕ
  pub retried : ℕ
  pub unrecorded : ℕ

pub data Call : Type 0 where
  -- `ctx.Err() != nil`
  context_checked : Bool → Call
  clock_read : ℕ → Call
  -- `Transport.Publish` and `Transport.DeadLetter`; `none` is an acknowledgement
  offered : OutboxClaim → Option GoError → Call
  dead_letter_sent : OutboxClaim → Reason → Option GoError → Call
  -- `Store.MarkOutboxPublished` and `Store.RetryOutbox`, and whether they were recorded
  marked : OutboxClaim → ℕ → Bool → Call
  retry_recorded : OutboxClaim → OutboxFailure → ℕ → ℕ → Bool → Call

pub record Environment : Type 0 where
  pub new_id : ℕ → Option Text
  pub claim_outbox : List Text → ℕ → Option (List OutboxClaim)
  pub cancelled : ℕ → Bool
  pub now : ℕ → ℕ
  pub publish : ℕ → Message → Option GoError
  pub dead_letter : ℕ → Message → Reason → Option GoError
  pub mark_published : ℕ → OutboxClaim → ℕ → Bool
  pub retry_outbox : ℕ → OutboxClaim → OutboxFailure → ℕ → ℕ → Bool

-- The newest call first.
pub record Cycle : Type 0 where
  pub log : List Call
  pub result : Counts

abbrev pub record_call : Call → Cycle → Cycle
record_call call s = record s { log = call ∷ s.log }

abbrev pub add_retried : ℕ → Cycle → Cycle
add_retried n s = record s { result = record r { retried = r.retried + n } }
  where
    open s use {result as r}

abbrev pub add_published : Cycle → Cycle
add_published s = record s { result = record r { published = r.published + 1 } }
  where
    open s use {result as r}

abbrev pub add_dead_lettered : Cycle → Cycle
add_dead_lettered s = record s { result = record r { dead_lettered = r.dead_lettered + 1 } }
  where
    open s use {result as r}

abbrev pub add_unrecorded : Cycle → Cycle
add_unrecorded s = record s { result = record r { unrecorded = r.unrecorded + 1 } }
  where
    open s use {result as r}

-- `m[key]`, the empty string where the key is missing.
pub attribute : Text → List (Text × Text) → Text
attribute key [] = []
attribute key ((k, v) ∷ m) = if text_eq k key then v else attribute key m

abbrev pub assignment_message_type : Text
assignment_message_type = codes "agent.assignment.v1"

abbrev cross_region : Option GoError
cross_region = some (new_failure err_deployment_fault region_mismatch)

pub check_boundary : Config → OutboxClaim → Option GoError
unfolding attribute
check_boundary c claim =
    if not (text_eq claim.scope.region c.scope.region)
      || not (text_eq claim.scope.tenant_id c.scope.tenant_id)
    then cross_region
    else if not (text_eq (attribute (codes "region") claim.message.attributes) c.scope.region)
    then cross_region
    else if text_eq claim.message.type' assignment_message_type
    then elim (c.decode_assignment claim.message.body) [
      | none ↦ some (new_failure err_message_rejected rejected)
      | some a ↦
          if not (text_eq a.region c.scope.region) || not (text_eq a.tenant_id c.scope.tenant_id)
          then cross_region
          else none
    ]
    else none

-- `Clock.Now()`.
abbrev pub read_clock : Environment → Cycle → ℕ × Cycle
read_clock e s = let now = e.now (length s.log) in (now, record_call (clock_read now) s)

-- `Store.MarkOutboxPublished(ctx, claim, Clock.Now())`.
pub mark_outbox_published : Environment → OutboxClaim → Cycle → Bool × Cycle
mark_outbox_published e claim s =
    let (now, t) = read_clock e s in
    let done = e.mark_published (length t.log) claim now in
    (done, record_call (marked claim now done) t)

pub mark_published : Environment → OutboxClaim → Cycle → Cycle
mark_published e claim s =
    let (done, t) = mark_outbox_published e claim s in
    if done then add_published t else add_unrecorded t

pub retry_after : Environment → OutboxClaim → Reason → ℕ → Cycle → Cycle
retry_after e claim reason delay s =
    let (now, t) = read_clock e s in
    let next = now + delay in
    let done = e.retry_outbox (length t.log) claim (failure reason) now next in
    record_call (retry_recorded claim (failure reason) now next done) t

pub retry : Config → Environment → OutboxClaim → Reason → Cycle → Cycle
retry c e claim reason s = retry_after e claim reason (backoff c.schedule claim.attempt) s

-- `releaseNow`.
pub release_now : Environment → List OutboxClaim → Reason → Cycle → Cycle
release_now e [] reason s = s
release_now e (claim ∷ claims) reason s =
    release_now e claims reason (retry_after e claim reason 0 s)

pub dead_letter : Config → Environment → OutboxClaim → Reason → Cycle → Cycle
dead_letter c e claim reason s = elim (e.dead_letter (length s.log) claim.message reason) [
  | some err ↦
      let (class, retry_reason) = classify err in
      let delay =
        if class.is_message_rejected
        then c.schedule.backoff_max
        else backoff c.schedule claim.attempt in
      add_retried 1 (
        retry_after e claim retry_reason delay
          (record_call (dead_letter_sent claim reason (some err)) s))
  | none ↦
      let (done, t) =
        mark_outbox_published e claim (record_call (dead_letter_sent claim reason none) s) in
      if done then add_dead_lettered t else add_unrecorded t
]

-- What `deliver` returns beside the state: whether the deployment is at fault, and the reason.
pub record Outcome : Type 0 where
  pub reason : Reason
  pub fault : Bool

-- The `switch` of `deliver` on a failed attempt.
pub settle : Config → Environment → OutboxClaim → GoError → Cycle → Outcome × Cycle
settle c e claim err s =
    let (class, reason) = classify err in
    if class.is_deployment_fault
    then (record { reason = reason; fault = true }, add_retried 1 (retry_after e claim reason 0 s))
    else if class.is_message_rejected
    then (record { reason = reason; fault = false }, dead_letter c e claim reason s)
    else if leb c.max_attempts claim.attempt
    then (
      record { reason = attempts_exhausted; fault = false },
      dead_letter c e claim attempts_exhausted s,
    )
    else (record { reason = reason; fault = false }, add_retried 1 (retry c e claim reason s))

pub deliver : Config → Environment → OutboxClaim → Cycle → Outcome × Cycle
deliver c e claim s = elim (check_boundary c claim) [
  | some err ↦ settle c e claim err s
  | none ↦ elim (e.publish (length s.log) claim.message) [
    | none ↦ (
      record { reason = other []; fault = false },
      mark_published e claim (record_call (offered claim none) s),
    )
    | some err ↦ settle c e claim err (record_call (offered claim (some err)) s)
  ]
]
