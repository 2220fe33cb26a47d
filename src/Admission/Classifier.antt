-- ===== src/Admission/Classifier.antt =====
-- admission/classifier.go: the compiled rule set and the fail-closed classification of a record.
-- The `map[string]struct{}` of attributes is the list of its keys, a nil `*Classifier` is `none`,
-- and `compile` returns the refused rule's number with its error.
use cockroachdbxaws.Base.{
  ℕ, ◌+◌, Text, text_eq, blank, Bool, true, false, ◌&&◌, ◌||◌, List, [], ◌∷◌, ◌++◌, Option, none,
  some, if◌then◌else◌, all,
}
use cockroachdbxaws.Model.{
  SourceType, SeverityClass, source_type_otlp, source_type_cloud_watch, severity_class_unspecified,
  severity_class_trace, severity_class_debug, severity_class_info, severity_class_warn,
  severity_class_error, severity_class_fatal,
}
pub mod Meaning
pub mod Decision

pub record Record : Type 0 where
  pub source : SourceType
  pub service : Text
  pub environment : Text
  pub severity : SeverityClass
  pub event_type : Text
  pub attributes : List Text
  pub security : Bool
  pub event_triggering : Bool

pub record Rule : Type 0 where
  pub sources : List SourceType
  pub services : List Text
  pub environments : List Text
  pub severities : List SeverityClass
  pub event_types : List Text
  pub required_attributes : List Text

pub record Classifier : Type 0 where
  pub rules : List Rule

pub record Classification : Type 0 where
  pub protected : Bool
  pub certain : Bool

pub data RuleError : Type 0 where
  unknown_source : SourceType → RuleError
  unknown_severity : SeverityClass → RuleError
  blank_selector : RuleError

-- `hasString`.
unfoldable pub has_string : List Text → Text → Bool
has_string [] want = false
has_string (value ∷ values) want = text_eq value want || has_string values want

abbrev known_source : SourceType → Bool
known_source s = text_eq s source_type_otlp || text_eq s source_type_cloud_watch

abbrev known_severity : SeverityClass → Bool
known_severity s =
    text_eq s severity_class_unspecified
    || text_eq s severity_class_trace
    || text_eq s severity_class_debug
    || text_eq s severity_class_info
    || text_eq s severity_class_warn
    || text_eq s severity_class_error
    || text_eq s severity_class_fatal

-- The first value that a test refuses.
first_refused : (Text → Bool) → List Text → Option Text
first_refused accepts [] = none
first_refused accepts (v ∷ vs) = if accepts v then first_refused accepts vs else some v

any_blank : List Text → Bool
any_blank [] = false
any_blank (v ∷ vs) = blank v || any_blank vs

pub validate_rule : Rule → Option RuleError
unfolding first_refused any_blank
validate_rule rule = elim (first_refused known_source rule.sources) [
  | some s ↦ some (unknown_source s)
  | none ↦ elim (first_refused known_severity rule.severities) [
    | some s ↦ some (unknown_severity s)
    | none ↦
        if any_blank rule.services
          || any_blank rule.environments
          || any_blank rule.event_types
          || any_blank rule.required_attributes
        then some blank_selector
        else none
  ]
]

pub data Compiled : Type 0 where
  compiled : Classifier → Compiled
  refused : ℕ → RuleError → Compiled

-- The loop of `Compile`, at rule number `i` with the rules copied so far. Lists are values here, so
-- `cloneRule` is the identity.
compile_from : ℕ → List Rule → List Rule → Compiled
compile_from i done [] = compiled (record { rules = done })
compile_from i done (rule ∷ rules) =
    let rest = compile_from (i + 1) (done ++ rule ∷ []) rules in
    elim (validate_rule rule) [ some e ↦ refused i e | none ↦ rest ]

unfoldable pub compile : List Rule → Compiled
unfolding compile_from
compile rules = compile_from 0 [] rules

unfoldable pub known_record_enums : Record → Bool
known_record_enums record' =
    (text_eq record'.source [] || known_source record'.source)
    && (text_eq record'.severity [] || known_severity record'.severity)

-- The body of the loop over the `checks` table, where the answer so far is `certain`; `none` is
-- the early `return false, true`.
pub check_selector : Text → List Text → Bool → Option Bool
check_selector value [] certain = some certain
check_selector value (a ∷ allowed) certain =
    if text_eq value []
    then some false
    else if has_string (a ∷ allowed) value
    then some certain
    else none

pub run_checks : Bool → List (Text × List Text) → Option Bool
run_checks certain [] = some certain
run_checks certain ((value, allowed) ∷ checks) = elim (check_selector value allowed certain) [
  | none ↦ none
  | some c ↦ run_checks c checks
]

abbrev pub check_table : Rule → Record → List (Text × List Text)
check_table rule r =
    (r.source, rule.sources)
    ∷ (r.service, rule.services)
    ∷ (r.environment, rule.environments)
    ∷ (r.severity, rule.severities)
    ∷ (r.event_type, rule.event_types)
    ∷ []

abbrev pub has_all : List Text → List Text → Bool
has_all attributes required = all (λ key. has_string attributes key) required

-- (match, certain).
unfoldable pub could_match : Rule → Record → Bool × Bool
unfolding run_checks check_selector
could_match rule r = elim (run_checks true (check_table rule r)) [
  | none ↦ (false, true)
  | some certain ↦
      if has_all r.attributes rule.required_attributes then (true, certain) else (false, true)
]

-- The loop of `Classify`.
classify_rules : Bool → List Rule → Record → Classification
classify_rules uncertain [] r =
    if uncertain
    then record { protected = true; certain = false }
    else record { protected = false; certain = true }
classify_rules uncertain (rule ∷ rules) r =
    let (match', certain) = could_match rule r in
    let rest = classify_rules (uncertain || match') rules r in
    if match' && certain then record { protected = true; certain = true } else rest

unfoldable pub classify : Option Classifier → Record → Classification
unfolding classify_rules could_match has_string
classify none r = record { protected = true; certain = false }
classify (some c) r =
    if known_record_enums r
    then classify_rules false c.rules r
    else record { protected = true; certain = false }
