-- ===== src/Journal/Mutation/Bounds.antt =====
-- journal/journal.go, `commitMutation`: the bytes in use stay within the limit and the headroom.
use cockroachdbxaws.Base.{
  ℕ, ◌+◌, ◌-◌, ◌≤◌, ◌≡◌, ◌⊎◌, refl, inl, inr, Text, Bool, true, List, [], ◌∷◌, Option, none, some,
  Option-cases, Bool-cases, ltb, ltb→le, arith,
}
use cockroachdbxaws.Journal.Results.{ok, ◌>>=◌, >>=-ok}
use cockroachdbxaws.Journal.State.{World, Surroundings, Journal, after_error}
use cockroachdbxaws.Journal.Mutation.{
  Mutation, next_usage, sorted_ops, check_room, discharge, charge, cost, is_manifest_key,
  apply_writes, commit_mutation, max_uint64,
}
use cockroachdbxaws.Journal.Mutation.Effects.{
  commit_mutation_cases, after_error-usage, Decided, prepare_commit-Decided,
}

-- The bytes in use after a commit are within the limit, and what they grew by leaves the headroom of the
-- file system.
pub record Fits {S : Type 0} (w : World S) (u : Surroundings) (before after : ℕ) : Type 0 where
  pub within_limit : after ≤ w.cfg.max_bytes
  pub free : ℕ
  pub observed : u.free_space ≡ some free
  pub headroom : after - before + w.cfg.min_free_bytes ≤ free

module _ {S : Type 0} (w : World S) where
  check_room-Fits :
      (u : Surroundings) (usage next : ℕ) → check_room w u usage next ≡ ok tt → Fits w u usage next
  unfolding check_room
  check_room-Fits u usage next h = elim (Option-cases u.free_space) [
    | inl n ↦ absurd (ground arith)
    | inr (free, s) ↦ record {
      within_limit = ground arith;
      free = free;
      observed = s;
      headroom = ground arith;
    }
  ]

  discharge-bounded :
      (db : S) (key : Text) (next : ℕ) {last : ℕ} → discharge w db key next ≡ ok last → last ≤ next
  unfolding discharge
  discharge-bounded db key next h = ground arith

  -- `EntryOverhead` is a 64-bit number.
  module _ (word : w.cfg.entry_overhead ≤ max_uint64) where
    cost-bounded : (key value : Text) {c : ℕ} → cost w key value ≡ some c → c ≤ max_uint64
    unfolding cost
    cost-bounded key value h = ground arith

    charge-bounded :
        (key : Text) (value : Option Text) (next : ℕ) {last : ℕ}
        → charge w key value next ≡ ok last
        → next ≤ max_uint64
        → last ≤ max_uint64
    unfolding charge
    charge-bounded key none next h b = ground arith
    charge-bounded key (some value) next h b = elim (Option-cases (cost w key value)) [
      | inl n ↦ absurd (ground arith)
      | inr (c, s) ↦ ground (arith, cost-bounded key value s)
    ]

    next_usage-bounded :
        (db : S) (es : List (Text × Option Text)) (next : ℕ) {last : ℕ}
        → next_usage w db es next ≡ ok last
        → next ≤ max_uint64
        → last ≤ max_uint64
    unfolding next_usage
    next_usage-bounded db [] next h b = ground arith
    next_usage-bounded db (e ∷ es) next h b = elim (Bool-cases (is_manifest_key e.0)) [
      | inl m ↦ next_usage-bounded db es next (rw (m) at h) b
      | inr n ↦
          let (less, d, h1) =
            >>=-ok (discharge w db e.0 next) (λ l. charge w e.0 e.1 l >>= λ k. next_usage w db es k)
              (rw (n) at h) in
          let (more, c, h2) = >>=-ok (charge w e.0 e.1 less) (λ k. next_usage w db es k) h1 in
          next_usage-bounded db es more h2
            (charge-bounded e.0 e.1 less c (omega (arith, discharge-bounded db e.0 next d)))
    ]

  -- Room is asked for only where the bytes grow.
  Grown : Surroundings → Journal S → ℕ → Type 0
  Grown u j next = (next ≤ j.usage) ⊎ Fits w u j.usage next

  Decided-Grown :
      (u : Surroundings) (j : Journal S) (m : Mutation)
      (plan : List (Text × Option Text) × ℕ × List ℕ)
      → Decided w u j m true plan
      → Grown u j plan.1
  unfolding Grown
  Decided-Grown u j m plan d = elim (Bool-cases (ltb j.usage plan.1)) [
    | inl more ↦ inr (check_room-Fits u j.usage plan.1 (rw more at d.room))
    | inr less ↦ inl (ltb→le j.usage plan.1 less)
  ]

  apply_writes-usage :
      (j : Journal S) (plan : List (Text × Option Text) × ℕ × List ℕ)
      → ((apply_writes w j plan).1.usage ≡ plan.1) ⊎ ((apply_writes w j plan).1.usage ≡ j.usage)
  unfolding apply_writes after_error
  apply_writes-usage j plan = elim (Bool-cases (w.write j.db plan.0).0) [
    | inl done ↦ rw done (inl refl)
    | inr undone ↦ rw undone (inr refl)
  ]

  apply_writes-Grown :
      (u : Surroundings) (j : Journal S) (plan : List (Text × Option Text) × ℕ × List ℕ)
      → Grown u j plan.1
      → Grown u j (apply_writes w j plan).1.usage
  unfolding Grown
  apply_writes-Grown u j plan g = elim (apply_writes-usage j plan) [
    | inl e ↦ rw e g
    | inr e ↦ inl (omega (arith, e))
  ]

  -- A commit that asks for room ends with no more bytes in use than before, or within the limit and the
  -- headroom of the file system.
  pub commit_mutation-Grown :
      (u : Surroundings) (j : Journal S) (m : Mutation)
      → ((commit_mutation w u j m true).1.usage ≤ j.usage)
        ⊎ Fits w u j.usage (commit_mutation w u j m true).1.usage
  unfolding Grown
  commit_mutation-Grown u j m =
      commit_mutation_cases w u j m true (λ r. Grown u j r.1.usage) (λ n. inl (omega arith))
        (λ e f. inl (omega (arith, after_error-usage e j)))
        (λ plan f.
          apply_writes-Grown u j plan
            (Decided-Grown u j m plan (prepare_commit-Decided w u j m true plan f)))

  -- The bytes in use stay a 64-bit number.
  pub commit_mutation-word :
      (u : Surroundings) (j : Journal S) (m : Mutation) (c : Bool)
      → w.cfg.entry_overhead ≤ max_uint64
      → j.usage ≤ max_uint64
      → (commit_mutation w u j m c).1.usage ≤ max_uint64
  commit_mutation-word u j m c word b =
      commit_mutation_cases w u j m c (λ r. r.1.usage ≤ max_uint64) (λ n. b)
        (λ e f. omega (arith, after_error-usage e j))
        (λ plan f.
          let d = prepare_commit-Decided w u j m c plan f in
          let small = next_usage-bounded word j.db (sorted_ops m.ops) j.usage d.usage_counted b in
          elim (apply_writes-usage j plan) [ inl e ↦ omega arith | inr e ↦ omega arith ])
