-- ===== src/Remediation.antt =====
-- agent_space/remediation/candidate.go: a proposed fix, what the sandbox established of it, and the
-- order in which an engineer is shown the candidates.
use cockroachdbxaws.Base.{
  ℕ, zero, suc, Text, blank, Bool, true, false, not, ◌&&◌, ◌||◌, List, [], ◌∷◌, length,
  if◌then◌else◌, ltb, ◌==◌,
}
pub mod Ranking
pub mod Verdicts
pub mod Decision

pub data Strength : Type 0 where
  unapplied applied builds passes : Strength

pub record Verification : Type 0 where
  pub applied : Bool
  pub build_ran : Bool
  pub built : Bool
  pub test_ran : Bool
  pub tested : Bool
  pub timed_out : Bool

-- The commands that a repository declares (repository.go).
pub record Repository : Type 0 where
  pub build_command : Text
  pub test_command : Text

unfoldable pub has_tests : Repository → Bool
has_tests repo = not (blank repo.test_command)

pub record Candidate : Type 0 where
  pub id : Text
  pub strategy : Text
  pub diff : Text
  pub verification : Verification
  pub error : Text

unfoldable pub strength : Verification → Strength
strength v =
    if not v.applied
    then unapplied
    else if v.test_ran && v.tested
    then passes
    else if v.build_ran && v.built
    then builds
    else applied

unfoldable pub satisfied : Verification → Repository → Bool
satisfied v repo =
    if not v.applied
    then false
    else if has_tests repo
    then v.test_ran && v.tested
    else if not (blank repo.build_command)
    then v.build_ran && v.built
    else true

unfoldable pub needs_repair : Verification → Bool
needs_repair v =
    if not v.applied || v.timed_out
    then false
    else (v.build_ran && not v.built) || (v.test_ran && not v.tested)

-- The sentences that `Summary` chooses from.
pub data Summary : Type 0 where
  could_not_apply : Summary
  tests_pass tests_fail only_builds does_not_build : Summary
  time_limit nothing_declared : Summary

unfoldable pub summary : Verification → Summary
summary v =
    if not v.applied
    then could_not_apply
    else if v.test_ran && v.tested
    then tests_pass
    else if v.test_ran && not v.tested
    then tests_fail
    else if v.build_ran && v.built && not v.test_ran
    then only_builds
    else if v.build_ran && not v.built
    then does_not_build
    else if v.timed_out
    then time_limit
    else nothing_declared

unfoldable pub usable : Candidate → Bool
usable c = (length c.error == 0) && not (blank c.diff) && c.verification.applied

-- The `int` behind a strength.
unfoldable pub rank_of : Strength → ℕ
rank_of unapplied = 0
rank_of applied = 1
rank_of builds = 2
rank_of passes = 3

-- The comparison of `Rank`: the first candidate goes before the second.
unfoldable pub better : Candidate → Candidate → Bool
better a b =
    let sa = rank_of (strength a.verification) in
    let sb = rank_of (strength b.verification) in
    if usable a && not (usable b)
    then true
    else if not (usable a) && usable b
    then false
    else if not (sa == sb)
    then ltb sb sa
    else ltb (length a.diff) (length b.diff)

-- `sort.SliceStable`: an element goes before the later ones that are not better.
unfoldable pub insert_candidate : Candidate → List Candidate → List Candidate
insert_candidate c [] = c ∷ []
insert_candidate c (x ∷ xs) = if better x c then x ∷ insert_candidate c xs else c ∷ x ∷ xs

unfoldable pub rank : List Candidate → List Candidate
rank [] = []
rank (c ∷ cs) = insert_candidate c (rank cs)
