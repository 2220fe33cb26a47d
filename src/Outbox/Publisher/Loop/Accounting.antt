-- ===== src/Outbox/Publisher/Loop/Accounting.antt =====
-- The counts of a publish cycle (outbox/publisher.go, `PublishCycle`) and the store's transitions.
use cockroachdbxaws.Base.{
  ℕ, suc, ◌+◌, ◌<◌, ◌≡◌, ◌⊎◌, refl, ap, sym, ◌∙◌, inl, inr, true, false, ◌++◌, Bool-cases, Text,
  Option, List, [], ◌∷◌, none, some, length, arith, Option-cases,
}
use cockroachdbxaws.Outbox.Transport.{Reason, GoError, classify, attempts_exhausted, timeout}
use mathlib.Core.List.{append_assoc, append-nil}
use cockroachdbxaws.Outbox.Backoff.{backoff}
use cockroachdbxaws.Outbox.Publisher.{
  OutboxClaim, Config, Counts, Call, context_checked, clock_read, marked, retry_recorded,
  Environment, Cycle, add_retried, mark_outbox_published, mark_published, retry_after, retry,
  release_now, dead_letter, settle, deliver,
}
use cockroachdbxaws.Outbox.Publisher.Loop.{run_claims, publish_cycle, no_counts, tokens_from}
use cockroachdbxaws.Outbox.Publisher.Loop.Turns.{ready, run_claims_turn}
use cockroachdbxaws.Outbox.Publisher.Cases.{offer, deliver_cases}

-- The claims that the store recorded a mark or a retry of, or was asked to, the first one first.
abbrev pub settled : List Call → List OutboxClaim
settled [] = []
settled (marked claim _ _ ∷ xs) = settled xs ++ claim ∷ []
settled (retry_recorded claim _ _ _ _ ∷ xs) = settled xs ++ claim ∷ []
settled (_ ∷ xs) = settled xs

-- The retries, the marks that the store recorded, and the marks that it did not record.
abbrev pub retries : List Call → ℕ
retries [] = 0
retries (retry_recorded _ _ _ _ _ ∷ xs) = 1 + retries xs
retries (_ ∷ xs) = retries xs

abbrev pub marks : List Call → ℕ
marks [] = 0
marks (marked _ _ true ∷ xs) = 1 + marks xs
marks (_ ∷ xs) = marks xs

abbrev pub lost_marks : List Call → ℕ
lost_marks [] = 0
lost_marks (marked _ _ false ∷ xs) = 1 + lost_marks xs
lost_marks (_ ∷ xs) = lost_marks xs

-- The counts of a cycle are those of its calls.
abbrev pub Counted : Cycle → Type 0
Counted s =
    (s.result.retried ≡ retries s.log)
    × (s.result.unrecorded ≡ lost_marks s.log)
    × (s.result.published + s.result.dead_lettered ≡ marks s.log)

-- These claims were settled between two states, each once and in this order.
pub record Settles (claims : List OutboxClaim) (s t : Cycle) : Type 0 where
  pub stored : settled t.log ≡ settled s.log ++ claims
  pub counted : Counted s → Counted t
  pub same_claims : t.result.claimed ≡ s.result.claimed

mark_published-Settles :
    (e : Environment) (claim : OutboxClaim) (s : Cycle)
    → Settles (claim ∷ []) s (mark_published e claim s)
unfolding mark_published mark_outbox_published
mark_published-Settles e claim s =
    elim (Bool-cases (e.mark_published (suc (length s.log)) claim (e.now (length s.log)))) [
      | inl done ↦
          rw done (record { stored = refl; counted = λ c. omega arith; same_claims = refl })
      | inr lost ↦
          rw lost (record { stored = refl; counted = λ c. omega arith; same_claims = refl })
    ]

retry-Settles :
    (e : Environment) (claim : OutboxClaim) (reason : Reason) (delay : ℕ) (s : Cycle)
    → Settles (claim ∷ []) s (add_retried 1 (retry_after e claim reason delay s))
unfolding retry_after
retry-Settles e claim reason delay s = record {
  stored = refl;
  counted = λ c. omega arith;
  same_claims = refl;
}

dead_letter-Settles :
    (c : Config) (e : Environment) (claim : OutboxClaim) (reason : Reason) (s : Cycle)
    → Settles (claim ∷ []) s (dead_letter c e claim reason s)
unfolding dead_letter mark_outbox_published retry_after
dead_letter-Settles c e claim reason s =
    elim (Option-cases (e.dead_letter (length s.log) claim.message reason)) [
      | inr (err, d) ↦
          rw (d, dead_letter)
            (record { stored = refl; counted = λ k. omega arith; same_claims = refl })
      | inl d ↦
          rw (d, dead_letter)
            (elim (Bool-cases
              (e.mark_published (suc (suc (length s.log))) claim (e.now (suc (length s.log))))) [
                | inl done ↦
                    rw done
                      (record { stored = refl; counted = λ k. omega arith; same_claims = refl })
                | inr lost ↦
                    rw lost
                      (record { stored = refl; counted = λ k. omega arith; same_claims = refl })
              ])
    ]

settle-Settles :
    (c : Config) (e : Environment) (claim : OutboxClaim) (err : GoError) (s : Cycle)
    → Settles (claim ∷ []) s (settle c e claim err s).1
unfolding settle retry
settle-Settles c e claim err s = ground (
  arith,
  dead_letter-Settles c e claim (classify err).1 s,
  dead_letter-Settles c e claim attempts_exhausted s,
  retry-Settles e claim (classify err).1 0 s,
  retry-Settles e claim (classify err).1 (backoff c.schedule claim.attempt) s,
)

deliver-Settles :
    (c : Config) (e : Environment) (claim : OutboxClaim) (s : Cycle)
    → Settles (claim ∷ []) s (deliver c e claim s).1
deliver-Settles c e claim s =
    deliver_cases c e claim s (λ r. Settles (claim ∷ []) s r.1)
      (λ err b. settle-Settles c e claim err s)
      (λ b a.
        after_offer none (mark_published e claim (offer claim none s))
          (mark_published-Settles e claim (offer claim none s)))
      (λ err b a.
        after_offer (some err) (settle c e claim err (offer claim (some err) s)).1
          (settle-Settles c e claim err (offer claim (some err) s)))
  where
    after_offer :
        (answer : Option GoError) (t : Cycle)
        → Settles (claim ∷ []) (offer claim answer s) t
        → Settles (claim ∷ []) s t
    after_offer answer t h = record {
      stored = h.stored;
      counted = h.counted;
      same_claims = h.same_claims;
    }

-- Claims were given back to the store, and are still to be counted as retried.
record Releases (claims : List OutboxClaim) (s t : Cycle) : Type 0 where
  stored : settled t.log ≡ settled s.log ++ claims
  retried : retries t.log ≡ retries s.log + length claims
  same_marks : marks t.log ≡ marks s.log
  same_lost : lost_marks t.log ≡ lost_marks s.log
  same_result : t.result ≡ s.result

release_now-Releases :
    (e : Environment) (claims : List OutboxClaim) (reason : Reason) (s : Cycle)
    → Releases claims s (release_now e claims reason s)
unfolding release_now retry_after
release_now-Releases e [] reason s = record {
  stored = sym (append-nil (settled s.log));
  retried = omega arith;
  same_marks = refl;
  same_lost = refl;
  same_result = refl;
}
release_now-Releases e (claim ∷ claims) reason s =
    let ih = release_now-Releases e claims reason (retry_after e claim reason 0 s) in
    record {
      stored = ih.stored ∙ append_assoc (settled s.log) (claim ∷ []) claims;
      retried = omega (arith, ih.retried);
      same_marks = ih.same_marks;
      same_lost = ih.same_lost;
      same_result = ih.same_result;
    }

release_now-Settles :
    (e : Environment) (claims : List OutboxClaim) (reason : Reason) (s : Cycle)
    → Settles claims s (add_retried (length claims) (release_now e claims reason s))
release_now-Settles e claims reason s =
    let h = release_now-Releases e claims reason s in
    record {
      stored = h.stored;
      counted = λ c.
          let (r, u, p) = c in
          rw (h.same_result) (omega (arith, h.retried), u ∙ sym h.same_lost, p ∙ sym h.same_marks);
      same_claims = ap (λ (k : Counts). k.claimed) h.same_result;
    }

Settles-add :
    {xs ys : List OutboxClaim} {s t u : Cycle}
    → Settles xs s t
    → Settles ys t u
    → Settles (xs ++ ys) s u
Settles-add {xs} {ys} {s} a b = record {
  stored = b.stored ∙ ap (λ zs. zs ++ ys) a.stored ∙ append_assoc (settled s.log) xs ys;
  counted = λ c. b.counted (a.counted c);
  same_claims = b.same_claims ∙ a.same_claims;
}

-- The claims were all settled, or the context was cancelled with the last of them left.
abbrev pub Accounted : List OutboxClaim → Cycle → Cycle → Type 0
Accounted claims s t =
    Settles claims s t
    ⊎ ((done : List OutboxClaim) × (left : List OutboxClaim) × (done ++ left ≡ claims)
        × (0 < length left)
        × Settles done s t
        × ((older : List Call) × (t.log ≡ context_checked true ∷ older)))

run_claims-Accounted :
    (c : Config) (e : Environment) (claims : List OutboxClaim) (s : Cycle)
    → Accounted claims s (run_claims c e claims s).1
unfolding run_claims
run_claims-Accounted c e [] s =
    inl (record { stored = sym (append-nil (settled s.log)); counted = λ k. k; same_claims = refl })
run_claims-Accounted c e (claim ∷ claims) s =
    run_claims_turn c e claim claims s (λ r. Accounted (claim ∷ claims) s r.1)
      (λ stop. inr (
        [],
        claim ∷ claims,
        refl,
        omega arith,
        record { stored = sym (append-nil (settled s.log)); counted = λ k. k; same_claims = refl },
        (s.log, refl),
      ))
      (λ no_lease. inl (begun _ _ (release_now-Settles e (claim ∷ claims) timeout (ready e s))))
      (λ lease fault. inl (
        begun _ _ (
          Settles-add (deliver-Settles c e claim (ready e s)) (
            release_now-Settles e claims (deliver c e claim (ready e s)).0.reason
              (deliver c e claim (ready e s)).1))))
      λ lease fine.
        let one = deliver-Settles c e claim (ready e s) in
        elim (run_claims-Accounted c e claims (deliver c e claim (ready e s)).1) [
          | inl all ↦ inl (begun _ _ (Settles-add one all))
          | inr (done, left, whole, more, part, last) ↦ inr (
            claim ∷ done,
            left,
            ap {B = List OutboxClaim} (λ xs. claim ∷ xs) whole,
            more,
            begun _ _ (Settles-add one part),
            last,
          )
        ]
  where
    begun : (xs : List OutboxClaim) (t : Cycle) → Settles xs (ready e s) t → Settles xs s t
    begun xs t h = record { stored = h.stored; counted = h.counted; same_claims = h.same_claims }

-- What a cycle that got these claims did with them.
abbrev pub Finished : List OutboxClaim → Cycle → Type 0
Finished claims t =
    (t.result.claimed ≡ length claims)
    × ((settled t.log ≡ claims)
        ⊎ ((left : List OutboxClaim) × (settled t.log ++ left ≡ claims)
            × (0 < length left)
            × ((older : List Call) × (t.log ≡ context_checked true ∷ older))))

-- Every claimed message is accounted for. A cycle without tokens or claims counts and settles nothing. A
-- cycle that got claims asks the store for one mark or one retry of each of them, in their order and for no
-- others, unless it was cancelled at its last step, when it did so for the claims before those that were
-- left. In every cycle the retried count is the number of the retries, the unrecorded count that of the
-- marks that the store did not record, and the published and dead-lettered counts together are the marks
-- that it recorded.
pub publish_cycle-accounts :
    (c : Config) (e : Environment)
    → let t = (publish_cycle c e).1 in
      Counted t
      × ((((tokens_from e c.batch 0 ≡ none)
              ⊎ ((tokens : List Text) × (tokens_from e c.batch 0 ≡ some tokens)
                  × (e.claim_outbox tokens (e.now 0) ≡ none)))
            × (t.result ≡ no_counts 0)
            × (settled t.log ≡ []))
          ⊎ ((tokens : List Text) × (claims : List OutboxClaim) × (tokens_from e c.batch 0
                ≡ some tokens)
              × (e.claim_outbox tokens (e.now 0) ≡ some claims)
              × Finished claims t))
unfolding publish_cycle
publish_cycle-accounts c e = elim (Option-cases (tokens_from e c.batch 0)) [
  | inl n ↦ rw (n, publish_cycle) ((refl, refl, refl), inl (inl refl, refl, refl))
  | inr (tokens, y) ↦ elim (Option-cases (e.claim_outbox tokens (e.now 0))) [
    | inl n ↦
        rw (y, publish_cycle) (rw n ((refl, refl, refl), inl (inr (tokens, refl, n), refl, refl)))
    | inr (claims, m) ↦
        rw (y, publish_cycle)
          (rw m
            (elim (run_claims-Accounted c e claims
              (record { log = clock_read (e.now 0) ∷ []; result = no_counts (length claims) })) [
                | inl all ↦ (
                  all.counted (refl, refl, refl),
                  inr (tokens, claims, refl, m, (all.same_claims, inl all.stored)),
                )
                | inr (done, left, whole, more, part, last) ↦ (
                  part.counted (refl, refl, refl),
                  inr (
                    tokens,
                    claims,
                    refl,
                    m,
                    (
                      part.same_claims,
                      inr (left, ap (λ xs. xs ++ left) part.stored ∙ whole, more, last),
                    ),
                  ),
                )
              ]))
  ]
]
