-- ===== src/Outbox/Publisher/Loop/Turns.antt =====
-- The ways one turn of the loop over the claims goes, as a rule for any statement about its result.
use cockroachdbxaws.Base.{
  ℕ, suc, ◌≡◌, inl, inr, true, false, Bool, List, ◌∷◌, Option, none, some, length, Bool-cases,
}
use cockroachdbxaws.Outbox.Transport.{timeout}
use cockroachdbxaws.Outbox.Publisher.{
  OutboxClaim, Config, context_checked, clock_read, Environment, Cycle, record_call, add_retried,
  release_now, deliver,
}
use cockroachdbxaws.Outbox.Publisher.Loop.{CycleError, deployment_failed, lease_covers, run_claims}

-- The state after `ctx.Err()` is asked, and after the clock is read as well.
abbrev pub checked : Bool → Cycle → Cycle
checked stop s = record_call (context_checked stop) s

abbrev pub ready : Environment → Cycle → Cycle
ready e s = let t = checked false s in record_call (clock_read (e.now (length t.log))) t

abbrev pub clock_at : Environment → Cycle → ℕ
clock_at e s = e.now (length (checked false s).log)

module _ (c : Config) (e : Environment) (claim : OutboxClaim) (claims : List OutboxClaim)
    (s : Cycle) where
  pub run_claims_turn :
      (P : Option CycleError × Cycle → Type 0)
      → (e.cancelled (length s.log) ≡ true → P (none, checked true s))
      → (lease_covers c claim (clock_at e s) ≡ false
          → P (
            none,
            add_retried (suc (length claims)) (release_now e (claim ∷ claims) timeout (ready e s)),
          ))
      → (lease_covers c claim (clock_at e s) ≡ true
          → (deliver c e claim (ready e s)).0.fault ≡ true
          → P (
            some deployment_failed,
            add_retried (length claims) (
                release_now e claims
                  (deliver c e claim (ready e s)).0.reason
                  (deliver c e claim (ready e s)).1),
          ))
      → (lease_covers c claim (clock_at e s) ≡ true
          → (deliver c e claim (ready e s)).0.fault ≡ false
          → P (run_claims c e claims (deliver c e claim (ready e s)).1))
      → P (run_claims c e (claim ∷ claims) s)
  unfolding run_claims
  run_claims_turn P stopped uncovered faulted carried =
      elim (Bool-cases (e.cancelled (length s.log))) [
        | inl stop ↦ rw (stop, run_claims) (stopped stop)
        | inr go ↦ elim (Bool-cases (lease_covers c claim (clock_at e s))) [
          | inr no_lease ↦ rw (go, run_claims) (rw no_lease (uncovered no_lease))
          | inl lease ↦ elim (Bool-cases (deliver c e claim (ready e s)).0.fault) [
            | inl fault ↦ rw (go, run_claims) (rw lease (rw fault (faulted lease fault)))
            | inr fine ↦ rw (go, run_claims) (rw lease (rw fine (carried lease fine)))
          ]
        ]
      ]
