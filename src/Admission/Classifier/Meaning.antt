-- ===== src/Admission/Classifier/Meaning.antt =====
-- What a classification means: `classify` against an independent reading of the rules over the
-- records that a partially known record could turn out to be.
use cockroachdbxaws.Base.{
  Text, text_eq, text_eq_iff, Bool, true, List, [], ◌∷◌, map, none, some, ◌≡◌, refl, ap, ◌⊎◌, ◌↔◌,
  inl, inr, All, Any, arith, Option-cases, if◌then◌else◌,
}
use cockroachdbxaws.Admission.Classifier.{
  Record, Rule, has_string, check_selector, run_checks, has_all,
}

-- A selector accepts a value: it is empty, or lists the value.
abbrev pub Accepts : List Text → Text → Type 0
Accepts allowed v = (allowed ≡ []) ⊎ Any (λ a. a ≡ v) allowed

-- The rule could consume this record, all of whose fields are known.
pub record Consumes (rule : Rule) (r : Record) : Type 0 where
  pub source : Accepts rule.sources r.source
  pub service : Accepts rule.services r.service
  pub environment : Accepts rule.environments r.environment
  pub severity : Accepts rule.severities r.severity
  pub event_type : Accepts rule.event_types r.event_type
  pub attributes : All (λ k. Any (λ a. a ≡ k) r.attributes) rule.required_attributes

-- `r'` is what `r` could turn out to be: it agrees with every field that `r` knows.
pub record Completes (r r' : Record) : Type 0 where
  pub source : (r.source ≡ []) ⊎ (r'.source ≡ r.source)
  pub service : (r.service ≡ []) ⊎ (r'.service ≡ r.service)
  pub environment : (r.environment ≡ []) ⊎ (r'.environment ≡ r.environment)
  pub severity : (r.severity ≡ []) ⊎ (r'.severity ≡ r.severity)
  pub event_type : (r.event_type ≡ []) ⊎ (r'.event_type ≡ r.event_type)
  pub attributes : r'.attributes ≡ r.attributes

has_string_iff : (vs : List Text) (w : Text) → (has_string vs w ≡ true) ↔ Any (λ a. a ≡ w) vs
unfolding has_string
has_string_iff [] w = (λ h. cc, λ h. absurd h)
has_string_iff (v ∷ vs) w = (
  λ h. ground (arith, text_eq_iff v w, has_string_iff vs w),
  λ h. elim h [
    | inl e ↦ ground (arith, text_eq_iff v w)
    | inr m ↦ ground (arith, (has_string_iff vs w).1 m)
  ],
)

pub has_all_iff :
    (as' required : List Text)
    → (has_all as' required ≡ true) ↔ All (λ k. Any (λ a. a ≡ k) as') required
has_all_iff as' [] = (λ h. tt, λ h. refl)
has_all_iff as' (k ∷ ks) = (
  λ h. ground (arith, has_string_iff as' k, has_all_iff as' ks),
  λ h. ground (arith, (has_string_iff as' k).1 h.0, (has_all_iff as' ks).1 h.1),
)

-- A completed value is the known one, or the known one is missing.
abbrev pub Known : Text → Text → Type 0
Known v v' = (v ≡ []) ⊎ (v' ≡ v)

check_none :
    (v v' : Text) (allowed : List Text) (c : Bool)
    → check_selector v allowed c ≡ none
    → Known v v'
    → Accepts allowed v'
    → ⊥
unfolding check_selector
check_none v v' [] c h k a = cc
check_none v v' (x ∷ xs) c h (inl e) a = ground (arith, text_eq_iff v [])
check_none v v' (x ∷ xs) c h (inr e) (inl n) = cc
check_none v v' (x ∷ xs) c h (inr e) (inr m) =
    ground (arith, text_eq_iff v [], has_string_iff (x ∷ xs) v, (has_string_iff (x ∷ xs) v').1 m)

check_true :
    (v v' : Text) (allowed : List Text) (c d : Bool)
    → check_selector v allowed c ≡ some d
    → d ≡ true
    → Known v v'
    → (c ≡ true) × Accepts allowed v'
unfolding check_selector
check_true v v' [] c d h t k = (ground arith, inl refl)
check_true v v' (x ∷ xs) c d h t (inl e) = ground (arith, text_eq_iff v [])
check_true v v' (x ∷ xs) c d h t (inr e) =
    ground (arith, text_eq_iff v [], has_string_iff (x ∷ xs) v', ap (has_string (x ∷ xs)) e)

-- The value a record has, the value its completion has, and the rule's selector for it.
abbrev pub Field : Type 0
Field = Text × Text × List Text

abbrev pub entries : List Field → List (Text × List Text)
entries = map λ f. (f.0, f.2)

pub run_checks-none :
    (fs : List Field) (c : Bool)
    → run_checks c (entries fs) ≡ none
    → All (λ f. Known f.0 f.1) fs
    → All (λ f. Accepts f.2 f.1) fs
    → ⊥
unfolding run_checks
run_checks-none [] c h k a = cc
run_checks-none ((v, v', allowed) ∷ fs) c h k a = elim (Option-cases (check_selector v allowed c)) [
  | inl e ↦ check_none v v' allowed c e k.0 a.0
  | inr (d, e) ↦ run_checks-none fs d (ground (arith, e)) k.1 a.1
]

pub run_checks-true :
    (fs : List Field) (c : Bool)
    → run_checks c (entries fs) ≡ some true
    → All (λ f. Known f.0 f.1) fs
    → (c ≡ true) × All (λ f. Accepts f.2 f.1) fs
unfolding run_checks
run_checks-true [] c h k = (ground arith, tt)
run_checks-true ((v, v', allowed) ∷ fs) c h k = elim (Option-cases (check_selector v allowed c)) [
  | inl e ↦ ground (arith, e)
  | inr (d, e) ↦
      let (d_true, rest) = run_checks-true fs d (ground (arith, e)) k.1 in
      let (c_true, here) = check_true v v' allowed c d e d_true k.0 in (c_true, (here, rest))
]

-- The completion of `r` that fills each missing field with the first value that the rule lists.
pub fill : Text → List Text → Text
fill v [] = v
fill v (x ∷ xs) = if text_eq v [] then x else v

unfoldable pub complete : Rule → Record → Record
unfolding fill
complete rule r = record r {
  source = fill r.source rule.sources;
  service = fill r.service rule.services;
  environment = fill r.environment rule.environments;
  severity = fill r.severity rule.severities;
  event_type = fill r.event_type rule.event_types;
}

fill-Known : (v : Text) (allowed : List Text) → Known v (fill v allowed)
unfolding fill
fill-Known v [] = inr refl
fill-Known v (x ∷ xs) = ground (arith, text_eq_iff v [])

pub complete-Completes : (rule : Rule) (r : Record) → Completes r (complete rule r)
unfolding complete
complete-Completes rule r = record {
  source = fill-Known r.source rule.sources;
  service = fill-Known r.service rule.services;
  environment = fill-Known r.environment rule.environments;
  severity = fill-Known r.severity rule.severities;
  event_type = fill-Known r.event_type rule.event_types;
  attributes = refl;
}

fill-Accepts :
    (v : Text) (allowed : List Text) (c d : Bool)
    → check_selector v allowed c ≡ some d
    → Accepts allowed (fill v allowed)
unfolding check_selector fill
fill-Accepts v [] c d h = inl refl
fill-Accepts v (x ∷ xs) c d h = inr (ground (arith, has_string_iff (x ∷ xs) v))

pub run_checks_fill :
    (cs : List (Text × List Text)) (c d : Bool)
    → run_checks c cs ≡ some d
    → All (λ f. Accepts f.1 (fill f.0 f.1)) cs
unfolding run_checks
run_checks_fill [] c d h = tt
run_checks_fill ((v, allowed) ∷ cs) c d h = elim (Option-cases (check_selector v allowed c)) [
  | inl e ↦ ground (arith, e)
  | inr (b, e) ↦ (fill-Accepts v allowed c b e, run_checks_fill cs b d (ground (arith, e)))
]
