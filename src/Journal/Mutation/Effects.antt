-- ===== src/Journal/Mutation/Effects.antt =====
-- journal/journal.go, `commitMutation`: what a commit leaves behind, whether it succeeds or not.
use cockroachdbxaws.Base.{
  ℕ, ◌≡◌, ◌⊎◌, refl, inl, inr, ap, subst, Text, Bool, true, false, List, [], Option, List-cases,
  Bool-cases, ltb, ◌&&◌, arith, if◌then◌else◌,
}
use cockroachdbxaws.Journal.Results.{
  JournalError, Result, ok, err, invalid_input, capacity, duplicate_conflict, not_healthy,
  corruption, corrupted, stale_claim, closed, decode_failure, store_failure, incompatible_format,
  owner_mismatch, boundary_mismatch, Result-cases, ok-injective,
}
use cockroachdbxaws.Journal.State.{World, Surroundings, Journal, after_error}
use cockroachdbxaws.Journal.Mutation.{
  Mutation, next_priorities, next_usage, sorted_ops, check_room, prepare_commit, apply_writes,
  commit_mutation, writes_of,
}

-- The store is as it was, or one batch was written and the store answered so.
abbrev pub Written : {S : Type 0} → World S → Bool → S → S → Type 0
Written w answer db next =
    (next ≡ db)
    ⊎ ((writes : List (Text × Option Text)) × ((w.write db writes).0 ≡ answer)
        × (next ≡ (w.write db writes).1))

-- After `corrupt()` the journal is marked, its counters are as they were, and the store took no batch;
-- after any other error the journal is as it was.
abbrev pub Refused : {S : Type 0} → World S → JournalError → Journal S → Journal S → Type 0
Refused w e j k =
    ((e ≡ corrupted)
      × (k.healthy ≡ false)
      × (k.usage ≡ j.usage)
      × (k.priorities ≡ j.priorities)
      × (k.closed ≡ j.closed)
      × Written w false j.db k.db)
    ⊎ ((¬ (e ≡ corrupted)) × (k ≡ j))

-- What an operation may do: an error leaves nothing half done, and a success wrote at most one batch, which
-- the store took, and does not mark the journal.
abbrev pub Atomic : {S A : Type 0} → World S → Journal S → Result A × Journal S → Type 0
Atomic w j (err e, k) = Refused w e j k
Atomic w j (ok a, k) = (k.healthy ≡ j.healthy) × (k.closed ≡ j.closed) × Written w true j.db k.db

-- `corrupt()` marks the journal, and no other error changes it.
after_error_cases :
    {S : Type 0}
    → (e : JournalError)
    → ((e ≡ corrupted) ⊎ ((¬ (e ≡ corrupted)) × ((j : Journal S) → after_error e j ≡ j)))
unfolding after_error
after_error_cases invalid_input = inr (λ h. cc, λ j. refl)
after_error_cases capacity = inr (λ h. cc, λ j. refl)
after_error_cases duplicate_conflict = inr (λ h. cc, λ j. refl)
after_error_cases not_healthy = inr (λ h. cc, λ j. refl)
after_error_cases corruption = inr (λ h. cc, λ j. refl)
after_error_cases corrupted = inl refl
after_error_cases stale_claim = inr (λ h. cc, λ j. refl)
after_error_cases closed = inr (λ h. cc, λ j. refl)
after_error_cases incompatible_format = inr (λ h. cc, λ j. refl)
after_error_cases owner_mismatch = inr (λ h. cc, λ j. refl)
after_error_cases boundary_mismatch = inr (λ h. cc, λ j. refl)
after_error_cases decode_failure = inr (λ h. cc, λ j. refl)
after_error_cases store_failure = inr (λ h. cc, λ j. refl)

module _ {S : Type 0} (w : World S) where
  pub after_error-Refused : (e : JournalError) (j : Journal S) → Refused w e j (after_error e j)
  unfolding after_error
  after_error-Refused e j = elim (after_error_cases {S = S} e) [
    | inl mark ↦ rw mark (inl (refl, refl, refl, refl, refl, inl refl))
    | inr (other, same) ↦ inr (other, same j)
  ]

  pub apply_writes-Atomic :
      (j : Journal S) (plan : List (Text × Option Text) × ℕ × List ℕ)
      → Atomic w j (apply_writes w j plan)
  unfolding apply_writes after_error
  apply_writes-Atomic j plan = elim (Bool-cases (w.write j.db plan.0).0) [
    | inl done ↦ rw done (refl, refl, inr (plan.0, done, refl))
    | inr undone ↦ rw undone (inl (refl, refl, refl, refl, refl, inr (plan.0, undone, refl)))
  ]

  -- The three ways a commit goes, as a rule for any statement about its result.
  pub commit_mutation_cases {κ} :
      (u : Surroundings) (j : Journal S) (m : Mutation) (c : Bool)
      (P : Result (Unit {0}) × Journal S → Type κ)
      → (m.ops ≡ [] → P (ok tt, j))
      → ((e : JournalError) → prepare_commit w u j m c ≡ err e → P (err e, after_error e j))
      → ((plan : List (Text × Option Text) × ℕ × List ℕ)
          → prepare_commit w u j m c ≡ ok plan
          → P (apply_writes w j plan))
      → P (commit_mutation w u j m c)
  unfolding commit_mutation
  commit_mutation_cases u j m c P none' refused planned = elim (List-cases m.ops) [
    | inl n ↦ rw (n, commit_mutation) (none' n)
    | inr (e, es, s) ↦
        rw (s, commit_mutation)
          (elim (Result-cases (prepare_commit w u j m c)) [
            | inl (d, f) ↦ rw f (refused d f)
            | inr (plan, f) ↦ rw f (planned plan f)
          ])
  ]

  pub commit_mutation-Atomic :
      (u : Surroundings) (j : Journal S) (m : Mutation) (c : Bool)
      → Atomic w j (commit_mutation w u j m c)
  commit_mutation-Atomic u j m c =
      commit_mutation_cases u j m c (Atomic w j) (λ n. (refl, refl, inl refl))
        (λ e f. after_error-Refused e j) (λ plan f. apply_writes-Atomic j plan)

  -- What a commit that was decided on rests on.
  pub record Decided (u : Surroundings) (j : Journal S) (m : Mutation) (c : Bool)
      (plan : List (Text × Option Text) × ℕ × List ℕ) : Type 0 where
    pub priorities_counted : next_priorities j.priorities m.priority_delta ≡ ok plan.2
    pub usage_counted : next_usage w j.db (sorted_ops m.ops) j.usage ≡ ok plan.1
    pub room : (if c && ltb j.usage plan.1 then check_room w u j.usage plan.1 else ok tt) ≡ ok tt
    pub written : plan.0 ≡ writes_of w m plan.1 plan.2

  pub prepare_commit-Decided :
      (u : Surroundings) (j : Journal S) (m : Mutation) (c : Bool)
      (plan : List (Text × Option Text) × ℕ × List ℕ)
      → prepare_commit w u j m c ≡ ok plan
      → Decided u j m c plan
  unfolding prepare_commit
  prepare_commit-Decided u j m c plan h =
      elim (Result-cases (next_priorities j.priorities m.priority_delta)) [
        | inl (e, f) ↦ absurd (ground arith)
        | inr (priorities, p) ↦
            let h1 = rw p at h in
            elim (Result-cases (next_usage w j.db (sorted_ops m.ops) j.usage)) [
              | inl (e, f) ↦ absurd (ground arith)
              | inr (next, n) ↦
                  let h2 = rw n at h1 in
                  elim (Result-cases
                    (if c && ltb j.usage next then check_room w u j.usage next else ok tt)) [
                      | inl (e, f) ↦ let h3 = rw f at h2 in absurd (ground arith)
                      | inr (done, r) ↦
                          subst (λ q. Decided u j m c q) (ok-injective (rw r at h2))
                            (record {
                              priorities_counted = p;
                              usage_counted = n;
                              room = r;
                              written = refl;
                            })
                    ]
            ]
      ]

pub after_error-usage :
    {S : Type 0} → (e : JournalError) (j : Journal S) → (after_error e j).usage ≡ j.usage
unfolding after_error
after_error-usage {S = S} e j = elim (after_error_cases {S = S} e) [
  | inl mark ↦ rw mark refl
  | inr (other, same) ↦ ap (λ (k : Journal S). k.usage) (same j)
]
