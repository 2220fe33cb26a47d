-- ===== src/Tests/Remediation.antt =====
-- remediation: candidates at concrete inputs.
use mathlib.Core.List.{Perm}
use cockroachdbxaws.Base.{
  lookup, text_eq, trim, trim_left, trim_right, blank, ◌≡◌, ◌↔◌, refl, inr, codes, true, false, [],
  ◌∷◌, select,
}
use cockroachdbxaws.Remediation.{
  Candidate, Verification, Repository, has_tests, satisfied, strength, passes, needs_repair,
  summary, tests_pass, could_not_apply, unapplied, rank,
}
use cockroachdbxaws.Remediation.Decision.{
  Outcome, DecisionInput, Decision, from_engineer, decided, new_decision, foreign_reason,
  is_candidate, rejections_of, reject,
}
use cockroachdbxaws.Remediation.Decision.Rejections.{Justified, new_decision-Justified}
use cockroachdbxaws.Remediation.Ranking.{Presented, alike, rank-Presented}
use cockroachdbxaws.Remediation.Verdicts.{satisfied-strength}

abbrev tested : Verification
tested = record {
  applied = true;
  build_ran = true;
  built = true;
  test_ran = true;
  tested = true;
  timed_out = false;
}

abbrev compiled : Verification
compiled = record tested { test_ran = false; tested = false }

abbrev small : Candidate
small = record {
  id = codes "c1";
  strategy = codes "minimal";
  diff = codes "+x";
  verification = compiled;
  error = [];
}

abbrev proven : Candidate
proven = record {
  id = codes "c2";
  strategy = codes "guarded";
  diff = codes "+xyz";
  verification = tested;
  error = [];
}

rank-Presented_example :
    Perm (rank (small ∷ proven ∷ [])) (small ∷ proven ∷ [])
    × Presented (rank (small ∷ proven ∷ []))
    × ((t : Candidate)
        → select (alike t) (rank (small ∷ proven ∷ [])) ≡ select (alike t) (small ∷ proven ∷ []))
rank-Presented_example = rank-Presented (small ∷ proven ∷ [])

abbrev checkout : Repository
checkout = record { build_command = codes "go build"; test_command = codes "go test" }

checkout-tests : has_tests checkout ≡ true
unfolding has_tests blank
checkout-tests = refl

satisfied-strength_example :
    ((satisfied tested checkout ≡ true) ↔ (strength tested ≡ passes))
    × (satisfied tested checkout ≡ true → needs_repair tested ≡ false)
    × ((summary tested ≡ tests_pass) ↔ (strength tested ≡ passes))
    × ((summary tested ≡ could_not_apply) ↔ (strength tested ≡ unapplied))
satisfied-strength_example = satisfied-strength tested checkout (λ h. inr refl) checkout-tests

abbrev proposed : Outcome
proposed = record {
  investigation_id = codes "i1";
  incident_id = codes "F";
  service_id = codes "checkout";
  candidates = proven ∷ small ∷ [];
}

abbrev chosen : DecisionInput
chosen = record {
  chosen_candidate_id = codes " c2";
  reasons = (codes "c1", codes "misses the cause ") ∷ [];
  engineer_fix = [];
  engineer_pr_url = [];
  notes = [];
}

abbrev agreed : Decision
agreed = record {
  investigation_id = codes "i1";
  incident_id = codes "F";
  service_id = codes "checkout";
  chosen_candidate_id = codes "c2";
  rejections =
      record {
        candidate_id = codes "c1";
        strategy = codes "minimal";
        reason = codes "misses the cause";
        source = from_engineer;
      }
      ∷ [];
  engineer_fix = [];
  engineer_pr_url = [];
  notes = [];
}

chosen-agreed : new_decision proposed chosen ≡ decided agreed
unfolding new_decision foreign_reason is_candidate rejections_of reject lookup text_eq trim
    trim_left trim_right blank
chosen-agreed = refl

new_decision-Justified_example : Justified proposed chosen (new_decision proposed chosen)
new_decision-Justified_example = new_decision-Justified proposed chosen
