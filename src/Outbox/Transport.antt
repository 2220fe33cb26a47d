-- ===== src/Outbox/Transport.antt =====
-- outbox/transport.go: failure classes, categorical reasons and `classify`. A Go error is what the
-- code can ask of it: the answers of `errors.As` and `errors.Is`.
use cockroachdbxaws.Base.{Bool, true, false, Option, none, some, Text, if◌then◌else◌}

-- `Reason` is a string type; `other` is any text outside the closed set.
pub data Reason : Type 0 where
  queue_unavailable timeout lost_ack rejected attempts_exhausted : Reason
  region_mismatch deployment_fault : Reason
  other : Text → Reason

pub data OutboxFailure : Type 0 where
  failure_queue_unavailable failure_timeout failure_lost_ack failure_rejected : OutboxFailure

-- `Reason.Valid`.
pub is_valid : Reason → Bool
is_valid (other t) = false
is_valid _ = true

-- `Reason.failure`.
pub failure : Reason → OutboxFailure
failure timeout = failure_timeout
failure lost_ack = failure_lost_ack
failure rejected = failure_rejected
failure attempts_exhausted = failure_rejected
failure region_mismatch = failure_rejected
failure queue_unavailable = failure_queue_unavailable
failure deployment_fault = failure_queue_unavailable
failure (other t) = failure_queue_unavailable

-- What `errors.Is` says of a class against the three sentinels.
pub record Class : Type 0 where
  pub is_deployment_fault : Bool
  pub is_message_rejected : Bool
  pub is_retryable : Bool

abbrev pub err_retryable : Class
err_retryable = record {
  is_deployment_fault = false;
  is_message_rejected = false;
  is_retryable = true;
}

abbrev pub err_message_rejected : Class
err_message_rejected = record {
  is_deployment_fault = false;
  is_message_rejected = true;
  is_retryable = false;
}

abbrev pub err_deployment_fault : Class
err_deployment_fault = record {
  is_deployment_fault = true;
  is_message_rejected = false;
  is_retryable = false;
}

-- The `*Failure` in an error's chain; its class may be nil.
pub record Failure : Type 0 where
  pub class : Option Class
  pub reason : Reason

pub record GoError : Type 0 where
  pub as_failure : Option Failure
  pub is_deployment : Bool
  pub is_rejected : Bool
  pub is_retryable : Bool
  pub is_deadline_exceeded : Bool

-- `NewFailure`: an invalid reason is replaced. The error's chain holds the class, so `errors.Is`
-- answers from it.
unfoldable pub new_failure : Class → Reason → GoError
unfolding is_valid
new_failure class reason = record {
  as_failure = some (record {
    class = some class;
    reason = if is_valid reason then reason else queue_unavailable;
  });
  is_deployment = class.is_deployment_fault;
  is_rejected = class.is_message_rejected;
  is_retryable = class.is_retryable;
  is_deadline_exceeded = false;
}

-- The `switch` of `classify` on the sentinels.
abbrev classify_sentinel : GoError → Class × Reason
classify_sentinel e =
    if e.is_deployment
    then (err_deployment_fault, deployment_fault)
    else if e.is_rejected
    then (err_message_rejected, rejected)
    else if e.is_retryable
    then (err_retryable, queue_unavailable)
    else if e.is_deadline_exceeded
    then (err_retryable, timeout)
    else (err_retryable, queue_unavailable)

unfoldable pub classify : GoError → Class × Reason
classify e = elim e.as_failure [
  | none ↦ classify_sentinel e
  | some f ↦ elim f.class [ none ↦ classify_sentinel e | some c ↦ (c, f.reason) ]
]
