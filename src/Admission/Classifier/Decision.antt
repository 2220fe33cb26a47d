-- ===== src/Admission/Classifier/Decision.antt =====
-- `Classify` as a whole: when a record is unprotected, protected for certain, or protected in doubt.
use cockroachdbxaws.Base.{
  Bool, true, false, ◌||◌, List, [], ◌∷◌, none, some, ◌≡◌, ◌⊎◌, inl, inr, All, All-map, Any,
  Any-map, arith, Option-cases,
}
use cockroachdbxaws.Admission.Classifier.{
  Record, Rule, Classifier, run_checks, check_table, could_match, classify_rules, classify,
  known_record_enums,
}
use cockroachdbxaws.Admission.Classifier.Meaning.{
  Consumes, Completes, complete-Completes, Known, has_all_iff, Field, run_checks-none,
  run_checks-true, complete, run_checks_fill,
}

-- The rows of the `checks` table with the values of a completion beside them.
abbrev fields : Rule → Record → Record → List Field
fields rule r r' =
    (r.source, r'.source, rule.sources)
    ∷ (r.service, r'.service, rule.services)
    ∷ (r.environment, r'.environment, rule.environments)
    ∷ (r.severity, r'.severity, rule.severities)
    ∷ (r.event_type, r'.event_type, rule.event_types)
    ∷ []

module _ (rule : Rule) (r : Record) where
  matched :
      (b : Bool)
      → could_match rule r ≡ (true, b)
      → (run_checks true (check_table rule r) ≡ some b)
        × All (λ k. Any (λ a. a ≡ k) r.attributes) rule.required_attributes
  unfolding could_match
  matched b h = ground (
    arith,
    has_all_iff r.attributes rule.required_attributes,
    Option-cases (run_checks true (check_table rule r)),
  )

  mismatched :
      (could_match rule r).0 ≡ false
      → All (λ k. Any (λ a. a ≡ k) r.attributes) rule.required_attributes
      → run_checks true (check_table rule r) ≡ none
  unfolding could_match
  mismatched h a = ground (arith, (has_all_iff r.attributes rule.required_attributes).1 a)

module _ (rule : Rule) (r r' : Record) (k : Completes r r') where
  abbrev known : All (λ f. Known f.0 f.1) (fields rule r r')
  known = (k.source, (k.service, (k.environment, (k.severity, (k.event_type, tt)))))

  mismatch : (could_match rule r).0 ≡ false → Consumes rule r' → ⊥
  mismatch h a =
      run_checks-none (fields rule r r') true
        (mismatched rule r h (rw (← k.attributes) a.attributes)) known
        (a.source, (a.service, (a.environment, (a.severity, (a.event_type, tt)))))

  certain_match : could_match rule r ≡ (true, true) → Consumes rule r'
  certain_match h =
      let (e, attributes) = matched rule r true h in
      let a = (run_checks-true (fields rule r r') true e known).1 in
      record {
        source = a.0;
        service = a.1.0;
        environment = a.1.1.0;
        severity = a.1.1.1.0;
        event_type = a.1.1.1.1.0;
        attributes = rw k.attributes attributes;
      }

possible_match :
    (rule : Rule) (r : Record) → (could_match rule r).0 ≡ true → Consumes rule (complete rule r)
unfolding complete
possible_match rule r h =
    let (e, attributes) = matched rule r (could_match rule r).1 (ground arith) in
    let a = run_checks_fill (check_table rule r) true (could_match rule r).1 e in
    record {
      source = a.0;
      service = a.1.0;
      environment = a.1.1.0;
      severity = a.1.1.1.0;
      event_type = a.1.1.1.1.0;
      attributes = attributes;
    }

-- The loop of `Classify`, by its three results.
classify_rules_unprotected :
    (u : Bool) (rules : List Rule) (r : Record)
    → (classify_rules u rules r).protected ≡ false
    → (u ≡ false) × All (λ rule. (could_match rule r).0 ≡ false) rules
unfolding classify_rules
classify_rules_unprotected u [] r h = (ground arith, tt)
classify_rules_unprotected u (rule ∷ rules) r h =
    ground (arith, classify_rules_unprotected (u || (could_match rule r).0) rules r)

classify_rules_certain :
    (u : Bool) (rules : List Rule) (r : Record)
    → classify_rules u rules r ≡ record { protected = true; certain = true }
    → Any (λ rule. could_match rule r ≡ (true, true)) rules
unfolding classify_rules
classify_rules_certain u [] r h = ground arith
classify_rules_certain u (rule ∷ rules) r h =
    ground (arith, classify_rules_certain (u || (could_match rule r).0) rules r)

classify_rules_protected :
    (u : Bool) (rules : List Rule) (r : Record)
    → (classify_rules u rules r).protected ≡ true
    → (u ≡ true) ⊎ Any (λ rule. (could_match rule r).0 ≡ true) rules
unfolding classify_rules
classify_rules_protected u [] r h = ground arith
classify_rules_protected u (rule ∷ rules) r h =
    ground (arith, classify_rules_protected (u || (could_match rule r).0) rules r)

-- A record classified as unprotected has known enumerations, and no rule of the set could consume
-- any record that it could turn out to be.
pub classify_unprotected :
    (c : Classifier) (r r' : Record)
    → (classify (some c) r).protected ≡ false
    → Completes r r'
    → (known_record_enums r ≡ true) × All (λ rule. ¬ Consumes rule r') c.rules
unfolding classify
classify_unprotected c r r' h k =
    let (enums, loop) : (known_record_enums r ≡ true)
        × ((classify_rules false c.rules r).protected ≡ false) =
      (ground arith, ground arith) in
    (
      enums,
      All-map (λ rule. mismatch rule r r' k) c.rules
          (classify_rules_unprotected false c.rules r loop).1,
    )

-- A record protected for certain is consumed by some rule whatever its missing fields turn out to be.
pub classify_certain :
    (c : Classifier) (r r' : Record)
    → classify (some c) r ≡ record { protected = true; certain = true }
    → Completes r r'
    → Any (λ rule. Consumes rule r') c.rules
unfolding classify
classify_certain c r r' h k =
    Any-map (λ rule. certain_match rule r r' k) c.rules
      (classify_rules_certain false c.rules r (ground arith))

-- A record with known enumerations is protected only if some rule of the set consumes a completion
-- of it, `complete rule r`.
pub classify_protected :
    (c : Classifier) (r : Record)
    → (classify (some c) r).protected ≡ true
    → known_record_enums r ≡ true
    → Any (λ rule. Completes r (complete rule r) × Consumes rule (complete rule r)) c.rules
unfolding classify
classify_protected c r h e = elim (classify_rules_protected false c.rules r (ground arith)) [
  | inl absurd' ↦ cc
  | inr m ↦ Any-map (λ rule p. (complete-Completes rule r, possible_match rule r p)) c.rules m
]
