-- ===== src/Outbox/Publisher/Cases.antt =====
-- The ways a delivery goes, as a rule for any statement about its outcome.
use cockroachdbxaws.Base.{◌≡◌, inl, inr, false, [], Option, none, some, length, Option-cases}
use cockroachdbxaws.Outbox.Transport.{GoError, other}
use cockroachdbxaws.Outbox.Publisher.{
  OutboxClaim, Config, offered, Environment, Cycle, Outcome, record_call, mark_published, settle,
  deliver, check_boundary,
}

abbrev pub offer : OutboxClaim → Option GoError → Cycle → Cycle
offer claim answer s = record_call (offered claim answer) s

module _ (c : Config) (e : Environment) (claim : OutboxClaim) (s : Cycle) where
  -- Refused at the boundary, acknowledged, or failed.
  pub deliver_cases :
      (P : Outcome × Cycle → Type 0)
      → ((err : GoError) → check_boundary c claim ≡ some err → P (settle c e claim err s))
      → (check_boundary c claim ≡ none
          → e.publish (length s.log) claim.message ≡ none
          → P (
            record { reason = other []; fault = false },
            mark_published e claim (offer claim none s),
          ))
      → ((err : GoError)
          → check_boundary c claim ≡ none
          → e.publish (length s.log) claim.message ≡ some err
          → P (settle c e claim err (offer claim (some err) s)))
      → P (deliver c e claim s)
  unfolding deliver
  deliver_cases P refused acked failed = elim (Option-cases (check_boundary c claim)) [
    | inr (err, b) ↦ rw (b, deliver) (refused err b)
    | inl b ↦ elim (Option-cases (e.publish (length s.log) claim.message)) [
      | inl a ↦ rw (b, deliver) (rw a (acked b a))
      | inr (err, a) ↦ rw (b, deliver) (rw a (failed err b a))
    ]
  ]
