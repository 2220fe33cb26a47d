-- ===== src/Tests/Admission.antt =====
-- admission: the theorems at concrete inputs.
use cockroachdbxaws.Base.{
  ◌+◌, ◌-◌, ◌*◌, ◌%◌, ◌^◌, ◌≤◌, ◌<◌, ◌≡◌, ◌↔◌, refl, inl, inr, codes, text_eq, true, false, List,
  [], ◌∷◌, none, some, All, Any, arith, length, pos, negsuc,
}
use cockroachdbxaws.Model.{source_type_otlp, severity_class_error, severity_class_debug}
use cockroachdbxaws.Admission.Classifier.{
  Record, Rule, Classifier, Classification, classify, known_record_enums,
}
use cockroachdbxaws.Admission.Classifier.Meaning.{Consumes, Completes, complete}
use cockroachdbxaws.Admission.Classifier.Decision.{
  classify_unprotected, classify_certain, classify_protected,
}
use cockroachdbxaws.Admission.Capacity.{
  CapacityPolicy, CapacityState, Counters, decide, near_capacity,
}
use cockroachdbxaws.Admission.Capacity.Threshold.{near_capacity_iff}
use cockroachdbxaws.Admission.Capacity.Policy.{Sheddable, shed_safe}
use cockroachdbxaws.Admission.Capacity.Counting.{
  Request, decisions, tally, sheds, backpressures, tally-decisions,
}
use cockroachdbxaws.Admission.Limits.{
  Limits, ok, normalized, validate_record_mapping, limit_normalized, RecordRejection,
  normalized_record_too_large,
}
use cockroachdbxaws.Admission.Limits.Bounds.{
  validate_record_mapping_iff, Increasing, pairs, Explained, Reported, limit_normalized-exact,
}

-- A rule about errors of the checkout service, and a debug line of an unnamed service.
abbrev checkout_errors : Rule
checkout_errors = record {
  sources = [];
  services = codes "checkout" ∷ [];
  environments = [];
  severities = severity_class_error ∷ [];
  event_types = [];
  required_attributes = codes "order" ∷ [];
}

abbrev rule_set : Classifier
rule_set = record { rules = checkout_errors ∷ [] }

abbrev debug_line : Record
debug_line = record {
  source = source_type_otlp;
  service = [];
  environment = codes "prod";
  severity = severity_class_debug;
  event_type = [];
  attributes = [];
  security = false;
  event_triggering = false;
}

-- The debug line once its service is known.
abbrev cart_line : Record
cart_line = record debug_line { service = codes "cart" }

abbrev order_error : Record
order_error = record debug_line {
  service = codes "checkout";
  severity = severity_class_error;
  attributes = codes "order" ∷ [];
}

debug_line-Completes : Completes debug_line cart_line
debug_line-Completes = record {
  source = inr refl;
  service = inl refl;
  environment = inr refl;
  severity = inr refl;
  event_type = inl refl;
  attributes = refl;
}

order_error-Completes : Completes order_error order_error
order_error-Completes = record {
  source = inr refl;
  service = inr refl;
  environment = inr refl;
  severity = inr refl;
  event_type = inr refl;
  attributes = refl;
}

classify_unprotected_example :
    (known_record_enums debug_line ≡ true) × All (λ rule. ¬ Consumes rule cart_line) rule_set.rules
unfolding classify text_eq known_record_enums
classify_unprotected_example =
    classify_unprotected rule_set debug_line cart_line refl debug_line-Completes

classify_certain_example : Any (λ rule. Consumes rule order_error) rule_set.rules
unfolding classify text_eq known_record_enums
classify_certain_example =
    classify_certain rule_set order_error order_error refl order_error-Completes

abbrev unnamed_error : Record
unnamed_error = record order_error { service = [] }

classify_protected_example :
    Any
      (λ rule.
        Completes unnamed_error (complete rule unnamed_error)
        × Consumes rule (complete rule unnamed_error))
      rule_set.rules
unfolding classify text_eq known_record_enums
classify_protected_example = classify_protected rule_set unnamed_error refl refl

abbrev policy : CapacityPolicy
policy = record { near_capacity_percent = 90; eligible_sources = source_type_otlp ∷ [] }

abbrev full_state : CapacityState
full_state = record { used = 95; capacity = 100; can_persist = false }

shed_safe_example :
    Sheddable policy debug_line (classify (some rule_set) debug_line)
    × (near_capacity policy full_state ≡ true)
    × All (λ rule. ¬ Consumes rule cart_line) rule_set.rules
unfolding decide classify text_eq known_record_enums
shed_safe_example =
    shed_safe policy rule_set debug_line cart_line full_state refl debug_line-Completes

abbrev doubtful : Classification
doubtful = record { protected = true; certain = false }

near_capacity_iff_example : (near_capacity policy full_state ≡ true) ↔ (
    (0 < full_state.capacity)
    × (0 < policy.near_capacity_percent)
    × (policy.near_capacity_percent ≤ 100)
    × (full_state.capacity * policy.near_capacity_percent ≤ full_state.used * 100))
near_capacity_iff_example = near_capacity_iff policy full_state (omega arith)

abbrev idle_counters : Counters
idle_counters = record { dropped_count = 2 ^ 64 - 1; backpressured_count = 3 }

abbrev burst : List Request
burst =
    record { log = debug_line; classification = doubtful; state = full_state }
    ∷ record {
      log = debug_line;
      classification = record { protected = false; certain = true };
      state = full_state;
    }
    ∷ []

tally-decisions_example :
    ((tally idle_counters (decisions policy burst)).dropped_count % 2 ^ 64
      ≡ (idle_counters.dropped_count + sheds (decisions policy burst)) % 2 ^ 64)
    × ((tally idle_counters (decisions policy burst)).backpressured_count % 2 ^ 64
        ≡ (idle_counters.backpressured_count + backpressures (decisions policy burst)) % 2 ^ 64)
tally-decisions_example = tally-decisions policy idle_counters burst

abbrev unset : Limits
unset = record {
  max_compressed_bytes = pos 0;
  max_uncompressed_bytes = pos 1_000;
  max_records = pos 0;
  max_nesting_depth = pos 0;
  max_normalized_bytes = pos 64;
  max_materialized_bytes = pos 0;
  max_structural_nodes = pos 0;
}

abbrev settled : Limits
settled = record {
  max_compressed_bytes = pos 4_194_304;
  max_uncompressed_bytes = pos 1_000;
  max_records = pos 10_000;
  max_nesting_depth = pos 16;
  max_normalized_bytes = pos 64;
  max_materialized_bytes = pos 16_777_216;
  max_structural_nodes = pos 320_000;
}

normalized-unset : normalized unset ≡ ok settled
unfolding normalized
normalized-unset = refl

validate_record_mapping_iff_example :
    (validate_record_mapping 2 (pos 0 ∷ pos 3 ∷ []) ≡ none)
    ↔ ((length (pos 0 ∷ pos 3 ∷ []) ≡ 2) × Increasing (negsuc 0) (pos 0 ∷ pos 3 ∷ []))
validate_record_mapping_iff_example = validate_record_mapping_iff 2 (pos 0 ∷ pos 3 ∷ [])

abbrev too_large : List RecordRejection
too_large = record { index = pos 3; reason = normalized_record_too_large } ∷ []

limit_normalized-exact_example :
    Increasing (negsuc 0) (pos 0 ∷ pos 3 ∷ [])
    × All
        (Explained settled.max_normalized_bytes (pairs (64 ∷ 65 ∷ []) (pos 0 ∷ pos 3 ∷ [])))
        too_large
    × All
        (Reported settled.max_normalized_bytes too_large)
        (pairs (64 ∷ 65 ∷ []) (pos 0 ∷ pos 3 ∷ []))
unfolding limit_normalized normalized
limit_normalized-exact_example =
    limit_normalized-exact (64 ∷ 65 ∷ []) (pos 0 ∷ pos 3 ∷ []) unset settled too_large
      normalized-unset refl
