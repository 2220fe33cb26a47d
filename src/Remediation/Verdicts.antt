-- ===== src/Remediation/Verdicts.antt =====
-- What the sandbox established against what is said and done about it.
use cockroachdbxaws.Base.{◌≡◌, ◌↔◌, ◌⊎◌, true, false, arith}
use cockroachdbxaws.Remediation.{
  Verification, Repository, has_tests, passes, strength, satisfied, needs_repair, tests_pass,
  could_not_apply, unapplied, summary,
}

-- Tests did not run on what failed to build.
abbrev pub Staged : Verification → Type 0
Staged v = v.test_ran ≡ true → (v.build_ran ≡ false) ⊎ (v.built ≡ true)

-- Where tests did not run on what failed to build, a verification satisfies a repository with tests
-- exactly when its strength is that of passing tests, and then it needs no repair; the summary says
-- that the tests pass exactly at that strength, and that the change could not be applied exactly at the
-- strength of an unapplied change.
pub satisfied-strength :
    (v : Verification) (repo : Repository)
    → Staged v
    → has_tests repo ≡ true
    → ((satisfied v repo ≡ true) ↔ (strength v ≡ passes))
      × (satisfied v repo ≡ true → needs_repair v ≡ false)
      × ((summary v ≡ tests_pass) ↔ (strength v ≡ passes))
      × ((summary v ≡ could_not_apply) ↔ (strength v ≡ unapplied))
unfolding satisfied strength needs_repair summary
satisfied-strength v repo s h = ground arith
