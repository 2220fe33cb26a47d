-- ===== src/Remediation/Ranking.antt =====
-- The order of the candidates.
use mathlib.Core.List.{Perm}
use mathlib.Core.List.Perm
use cockroachdbxaws.Base.{
  ◌≤◌, ◌==◌, ltb, ◌||◌, length, ◌≡◌, inl, inr, refl, sym, ap, ◌∙◌, Bool, true, false, not, ◌&&◌,
  List, [], ◌∷◌, All, All-map, if◌then◌else◌, arith, Bool-cases, select,
}
use cockroachdbxaws.Remediation.{
  Strength, unapplied, applied, builds, passes, Candidate, strength, usable, rank_of, better,
  insert_candidate, rank,
}

-- No later candidate is better.
abbrev pub BestFirst : List Candidate → Type 0
BestFirst [] = Unit {0}
BestFirst (c ∷ cs) = All (λ x. better x c ≡ false) cs × BestFirst cs

-- Neither candidate is better than the other.
abbrev pub tied : Candidate → Candidate → Bool
tied c x = not (better c x) && not (better x c)

better_asym : (a b : Candidate) → better a b ≡ true → better b a ≡ false
unfolding better
better_asym a b h = ground arith

better_trans : (a b c : Candidate) → better a b ≡ false → better b c ≡ false → better a c ≡ false
unfolding better
better_trans a b c h k = ground arith

insert_candidate-All :
    (P : Candidate → Type 0) (c : Candidate) (cs : List Candidate)
    → P c
    → All P cs
    → All P (insert_candidate c cs)
unfolding insert_candidate
insert_candidate-All P c [] p a = (p, tt)
insert_candidate-All P c (x ∷ xs) p a = elim (Bool-cases (better x c)) [
  | inl later ↦ rw later (a.0, insert_candidate-All P c xs p a.1)
  | inr here ↦ rw here (p, a)
]

insert_candidate-BestFirst :
    (c : Candidate) (cs : List Candidate) → BestFirst cs → BestFirst (insert_candidate c cs)
unfolding insert_candidate
insert_candidate-BestFirst c [] s = (tt, tt)
insert_candidate-BestFirst c (x ∷ xs) s = elim (Bool-cases (better x c)) [
  | inl later ↦ rw later (
    insert_candidate-All (λ y. better y x ≡ false) c xs (better_asym x c later) s.0,
    insert_candidate-BestFirst c xs s.1,
  )
  | inr here ↦ rw here ((here, All-map (λ y h. better_trans y x c h here) xs s.0), s)
]

insert_candidate-perm :
    (c : Candidate) (cs : List Candidate) → Perm (insert_candidate c cs) (c ∷ cs)
unfolding insert_candidate
insert_candidate-perm c [] = Perm.refl _
insert_candidate-perm c (x ∷ xs) = elim (Bool-cases (better x c)) [
  | inl later ↦ rw later (Perm.trans (Perm.cons x (insert_candidate-perm c xs)) (Perm.swap c x xs))
  | inr here ↦ rw here (Perm.refl _)
]

not_both_tied : (t c x : Candidate) → better x c ≡ true → tied t c ≡ true → tied t x ≡ false
not_both_tied t c x later h = ground (arith, better_trans x t c)

insert_candidate-select :
    (t c : Candidate) (cs : List Candidate)
    → select (tied t) (insert_candidate c cs) ≡ select (tied t) (c ∷ cs)
unfolding insert_candidate select
insert_candidate-select t c [] = refl
insert_candidate-select t c (x ∷ xs) =
    let ih = insert_candidate-select t c xs in
    elim (Bool-cases (better x c)) [
      | inl later ↦ rw later (elim (Bool-cases (tied t c)) [
        | inl tie ↦ rw tie (rw (not_both_tied t c x later tie) (ih ∙ rw tie refl))
        | inr apart ↦ rw apart (ap (λ ys. if tied t x then x ∷ ys else ys) (ih ∙ rw apart refl))
      ])
      | inr here ↦ rw here refl
    ]

-- The order in which an engineer should see candidates, apart from the comparison of the code: what the
-- sandbox established, from most to least, is that the tests pass, the change builds, it applies.
unfoldable pub proves : Strength → Strength → Bool
proves passes other = true
proves builds passes = false
proves builds other = true
proves applied unapplied = true
proves applied applied = true
proves applied other = false
proves unapplied unapplied = true
proves unapplied other = false

-- The first candidate may stand before the second: a usable candidate before any other, among candidates
-- that are both usable or both not the better proven one, and among those the one with the shorter diff.
abbrev pub MayPrecede : Candidate → Candidate → Type 0
MayPrecede a b =
    (usable b ≡ true → usable a ≡ true)
    × (usable a ≡ usable b → proves (strength a.verification) (strength b.verification) ≡ true)
    × (usable a ≡ usable b
        → strength a.verification ≡ strength b.verification
        → length a.diff ≤ length b.diff)

abbrev pub Presented : List Candidate → Type 0
Presented [] = Unit {0}
Presented (c ∷ cs) = All (MayPrecede c) cs × Presented cs

-- The candidates that are as usable and as well proven as one, with a diff of the same length.
abbrev pub alike : Candidate → Candidate → Bool
alike c x =
    (usable c && usable x || not (usable c) && not (usable x))
    && (proves (strength c.verification) (strength x.verification)
        && proves (strength x.verification) (strength c.verification))
    && (length c.diff == length x.diff)

strength_order : (s t : Strength) → (ltb (rank_of s) (rank_of t) ≡ not (proves s t))
unfolding rank_of proves
strength_order unapplied unapplied = refl
strength_order unapplied applied = refl
strength_order unapplied builds = refl
strength_order unapplied passes = refl
strength_order applied unapplied = refl
strength_order applied applied = refl
strength_order applied builds = refl
strength_order applied passes = refl
strength_order builds unapplied = refl
strength_order builds applied = refl
strength_order builds builds = refl
strength_order builds passes = refl
strength_order passes unapplied = refl
strength_order passes applied = refl
strength_order passes builds = refl
strength_order passes passes = refl

better-MayPrecede : (a b : Candidate) → better b a ≡ false → MayPrecede a b
unfolding better
better-MayPrecede a b h =
    let sa = strength a.verification in
    let sb = strength b.verification in
    (
      λ u. ground arith,
      λ u. ground (arith, strength_order sa sb),
      λ u e. let same = ap rank_of e in ground arith,
    )

tied-alike : (c x : Candidate) → tied c x ≡ alike c x
unfolding better
tied-alike c x = ground (
  arith,
  strength_order (strength c.verification) (strength x.verification),
  strength_order (strength x.verification) (strength c.verification),
)

BestFirst-Presented : (cs : List Candidate) → BestFirst cs → Presented cs
BestFirst-Presented [] s = tt
BestFirst-Presented (c ∷ cs) s =
    (All-map (λ x h. better-MayPrecede c x h) cs s.0, BestFirst-Presented cs s.1)

select-same :
    (p q : Candidate → Bool) (cs : List Candidate)
    → ((c : Candidate) → p c ≡ q c)
    → select p cs ≡ select q cs
unfolding select
select-same p q [] e = refl
select-same p q (c ∷ cs) e = rw (e c, select-same p q cs e) refl

rank-Stable :
    (cs : List Candidate)
    → Perm (rank cs) cs
      × BestFirst (rank cs)
      × ((t : Candidate) → select (tied t) (rank cs) ≡ select (tied t) cs)
unfolding rank select
rank-Stable [] = (Perm.refl _, tt, λ t. refl)
rank-Stable (c ∷ cs) =
    let ih = rank-Stable cs in
    (
      Perm.trans (insert_candidate-perm c (rank cs)) (Perm.cons c ih.0),
      insert_candidate-BestFirst c (rank cs) ih.1,
      λ t.
          insert_candidate-select t c (rank cs)
          ∙ ap (λ ys. if tied t c then c ∷ ys else ys) (ih.2 t),
    )

-- Ranking keeps exactly the candidates that were proposed. Each stands before the later ones by right: a
-- usable one before one that is not, then the one whose verification proves more (passing tests, then a
-- build, then that it applies), then the one with the shorter diff. Candidates that are alike in all three
-- stay in the order in which they were proposed.
pub rank-Presented :
    (cs : List Candidate)
    → Perm (rank cs) cs
      × Presented (rank cs)
      × ((t : Candidate) → select (alike t) (rank cs) ≡ select (alike t) cs)
rank-Presented cs =
    let (perm, best, stable) = rank-Stable cs in
    (
      perm,
      BestFirst-Presented (rank cs) best,
      λ t.
          sym (select-same (tied t) (alike t) (rank cs) (tied-alike t))
          ∙ stable t
          ∙ select-same (tied t) (alike t) cs (tied-alike t),
    )
