-- ===== src/Admission/Capacity/Policy.antt =====
-- Which records may be shed, and the transport semantics of the three actions.
use cockroachdbxaws.Base.{
  text_eq_iff, true, false, List, [], ◌∷◌, some, ◌≡◌, ◌⊎◌, ◌↔◌, All, Any, arith,
}
use cockroachdbxaws.Model.{SourceType, severity_class_debug, severity_class_info}
use cockroachdbxaws.Admission.Classifier.{Record, Classifier, Classification, classify}
use cockroachdbxaws.Admission.Classifier.Meaning.{Consumes, Completes}
use cockroachdbxaws.Admission.Classifier.Decision.{classify_unprotected}
use cockroachdbxaws.Admission.Capacity.{
  CapacityPolicy, CapacityState, admit, shed, backpressure, is_eligible, may_shed, near_capacity,
  decide,
}

is_eligible-Any :
    (sources : List SourceType) (s : SourceType)
    → is_eligible sources s ≡ true
    → Any (λ a. a ≡ s) sources
unfolding is_eligible
is_eligible-Any [] s h = cc
is_eligible-Any (a ∷ as') s h = ground (arith, text_eq_iff a s, is_eligible-Any as' s)

-- What must hold of a record that the policy may shed.
pub record Sheddable (p : CapacityPolicy) (r : Record) (c : Classification) : Type 0 where
  pub unprotected : c.protected ≡ false
  pub certain : c.certain ≡ true
  pub no_security : r.security ≡ false
  pub no_event : r.event_triggering ≡ false
  pub low_severity : (r.severity ≡ severity_class_debug) ⊎ (r.severity ≡ severity_class_info)
  pub eligible : Any (λ a. a ≡ r.source) p.eligible_sources

may_shed-Sheddable :
    (p : CapacityPolicy) (r : Record) (c : Classification) → may_shed p r c ≡ true → Sheddable p r c
unfolding may_shed
may_shed-Sheddable p r c h = record {
  unprotected = ground arith;
  certain = ground arith;
  no_security = ground arith;
  no_event = ground arith;
  low_severity = ground (
    arith,
    text_eq_iff r.severity severity_class_debug,
    text_eq_iff r.severity severity_class_info,
  );
  eligible = ground (arith, is_eligible-Any p.eligible_sources r.source);
}

decide_shed :
    (p : CapacityPolicy) (r : Record) (c : Classification) (s : CapacityState)
    → (decide p r c s).action ≡ shed
    → (may_shed p r c ≡ true) × (near_capacity p s ≡ true)
unfolding decide
decide_shed p r c s h = ground arith

-- A record is shed only if it is a low-severity, non-security, non-triggering record of an eligible
-- source, the journal is near capacity, and no rule of the compiled set could consume any record
-- that it could turn out to be.
pub shed_safe :
    (p : CapacityPolicy) (c : Classifier) (r r' : Record) (s : CapacityState)
    → (decide p r (classify (some c) r) s).action ≡ shed
    → Completes r r'
    → Sheddable p r (classify (some c) r)
      × (near_capacity p s ≡ true)
      × All (λ rule. ¬ Consumes rule r') c.rules
shed_safe p c r r' s h k =
    let (may, near) = decide_shed p r (classify (some c) r) s h in
    let ok = may_shed-Sheddable p r (classify (some c) r) may in
    (ok, near, (classify_unprotected c r r' ok.unprotected k).1)

-- The transport semantics of the three actions, on every branch: only a shed record is
-- acknowledged, only backpressure is retryable, a record is admitted only where it can be
-- persisted, and backpressure is applied only where it cannot.
pub decide_transport :
    (p : CapacityPolicy) (r : Record) (c : Classification) (s : CapacityState)
    → (((decide p r c s).acknowledged ≡ true) ↔ ((decide p r c s).action ≡ shed))
      × (((decide p r c s).retryable ≡ true) ↔ ((decide p r c s).action ≡ backpressure))
      × ((decide p r c s).action ≡ admit → s.can_persist ≡ true)
      × ((decide p r c s).action ≡ backpressure → s.can_persist ≡ false)
unfolding decide
decide_transport p r c s = (
  (λ h. ground arith, λ h. ground arith),
  (λ h. ground arith, λ h. ground arith),
  λ h. ground arith,
  λ h. ground arith,
)
