-- ===== src/Remediation/Decision.antt =====
-- agent_space/remediation/decision.go: an engineer's decision on the proposed candidates. The
-- identifier, the time and the prose document of a decision are not part of it here.
use cockroachdbxaws.Base.{
  ℕ, zero, suc, Text, text_eq, trim, codes, Bool, true, false, not, ◌&&◌, ◌||◌, List, [], ◌∷◌, ◌++◌,
  length, any, Option, none, some, if◌then◌else◌, ◌==◌, lookup,
}
use cockroachdbxaws.Remediation.{
  Candidate, Summary, could_not_apply, tests_pass, tests_fail, only_builds, does_not_build,
  time_limit, nothing_declared, summary,
}
pub mod Rejections

pub data RejectionSource : Type 0 where
  from_engineer from_verification : RejectionSource

pub record Rejection : Type 0 where
  pub candidate_id : Text
  pub strategy : Text
  pub reason : Text
  pub source : RejectionSource

pub record Outcome : Type 0 where
  pub investigation_id : Text
  pub incident_id : Text
  pub service_id : Text
  pub candidates : List Candidate

pub record DecisionInput : Type 0 where
  pub chosen_candidate_id : Text
  pub reasons : List (Text × Text)
  pub engineer_fix : Text
  pub engineer_pr_url : Text
  pub notes : Text

pub record Decision : Type 0 where
  pub investigation_id : Text
  pub incident_id : Text
  pub service_id : Text
  pub chosen_candidate_id : Text
  pub rejections : List Rejection
  pub engineer_fix : Text
  pub engineer_pr_url : Text
  pub notes : Text

-- What `NewDecision` returns: `ErrForeignCandidate`, `ErrEmptyDecision` or a decision.
pub data Decided : Type 0 where
  foreign_candidate : Text → Decided
  empty_decision : Decided
  decided : Decision → Decided

-- The sentence of each summary.
unfoldable pub summary_text : Summary → Text
summary_text could_not_apply = codes "the change could not be applied to a clean checkout"
summary_text tests_pass = codes "builds, and the service's tests pass"
summary_text tests_fail = codes "builds, but the service's tests fail"
summary_text only_builds =
    codes "builds; this service declares no tests, so nothing was proven beyond that it compiles"
summary_text does_not_build = codes "does not build"
summary_text time_limit =
    codes "applied, but the sandbox hit its time limit before it could be verified"
summary_text nothing_declared =
    codes
      "applied, but this service declares neither a build nor a test command, so nothing was verified"

unfoldable pub verification_reason : Candidate → Text
verification_reason c =
    if not (length c.error == 0)
    then codes "never produced a usable change: " ++ c.error
    else summary_text (summary c.verification)

abbrev pub is_empty : Text → Bool
is_empty s = length s == 0

abbrev pub reason_of : List (Text × Text) → Candidate → Text
reason_of reasons c = elim (lookup c.id reasons) [ none ↦ [] | some reason ↦ trim reason ]

unfoldable pub reject : List (Text × Text) → Candidate → Rejection
reject reasons c =
    if is_empty (reason_of reasons c)
    then record {
      candidate_id = c.id;
      strategy = c.strategy;
      reason = verification_reason c;
      source = from_verification;
    }
    else record {
      candidate_id = c.id;
      strategy = c.strategy;
      reason = reason_of reasons c;
      source = from_engineer;
    }

unfoldable pub rejections_of : Text → List (Text × Text) → List Candidate → List Rejection
rejections_of chosen reasons [] = []
rejections_of chosen reasons (c ∷ cs) =
    let rest = rejections_of chosen reasons cs in
    if text_eq c.id chosen then rest else reject reasons c ∷ rest

-- `_, ok := byID[id]`.
unfoldable pub is_candidate : List Candidate → Text → Bool
is_candidate candidates id = any (λ c. text_eq c.id id) candidates

-- The first identifier with a reason that is not a candidate's.
unfoldable pub foreign_reason : List Candidate → List (Text × Text) → Option Text
foreign_reason candidates [] = none
foreign_reason candidates (e ∷ es) =
    let rest = foreign_reason candidates es in
    if is_candidate candidates e.0 then rest else some e.0

-- `NewDecision`.
unfoldable pub new_decision : Outcome → DecisionInput → Decided
new_decision o input =
    let chosen = trim input.chosen_candidate_id in
    let fix = trim input.engineer_fix in
    let notes = trim input.notes in
    let made : Decided =
      if is_empty chosen && is_empty fix && is_empty notes
      then empty_decision
      else decided (record {
        investigation_id = o.investigation_id;
        incident_id = o.incident_id;
        service_id = o.service_id;
        chosen_candidate_id = chosen;
        rejections = rejections_of chosen input.reasons o.candidates;
        engineer_fix = fix;
        engineer_pr_url = trim input.engineer_pr_url;
        notes = notes;
      }) in
    let reasoned : Decided = elim (foreign_reason o.candidates input.reasons) [
      | some id ↦ foreign_candidate id
      | none ↦ made
    ] in
    if not (is_empty chosen) && not (is_candidate o.candidates chosen)
    then foreign_candidate chosen
    else reasoned
