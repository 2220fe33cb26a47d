-- ===== src/Remediation/Decision/Rejections.antt =====
-- What a decision records of the candidates.
use mathlib.Core.List.{Mem, mem-cons_self, mem-cons_of_mem}
use cockroachdbxaws.Base.{
  ◌≡◌, ◌⊎◌, refl, ap, sym, All, text_eq→eq, text_eq_refl, some, Text, text_eq, trim, true, false,
  not, ◌&&◌, List, [], ◌∷◌, map, none, Option, Option-cases, inl, inr, arith, Bool-cases, select,
}
use cockroachdbxaws.Remediation.{Candidate}
use cockroachdbxaws.Remediation.Decision.{
  Rejection, Outcome, DecisionInput, Decided, decided, empty_decision, foreign_candidate, reject,
  rejections_of, is_candidate, foreign_reason, new_decision, is_empty,
}

reject-id : (reasons : List (Text × Text)) (c : Candidate) → (reject reasons c).candidate_id ≡ c.id
unfolding reject
reject-id reasons c = ground arith

rejections_of-ids :
    (chosen : Text) (reasons : List (Text × Text)) (cs : List Candidate)
    → map (λ (r : Rejection). r.candidate_id) (rejections_of chosen reasons cs)
      ≡ map (λ (c : Candidate). c.id) (select (λ c. not (text_eq c.id chosen)) cs)
unfolding rejections_of select
rejections_of-ids chosen reasons [] = refl
rejections_of-ids chosen reasons (c ∷ cs) = elim (Bool-cases (text_eq c.id chosen)) [
  | inl same ↦ rw same (rejections_of-ids chosen reasons cs)
  | inr other ↦ rw other (
      rw (reject-id reasons c)
        (ap (λ (ids : List Text). c.id ∷ ids) (rejections_of-ids chosen reasons cs)))
]

abbrev pub ids_of : Outcome → List Text
ids_of o = map (λ (c : Candidate). c.id) o.candidates

-- No candidate has the identifier.
abbrev pub Unknown : Outcome → Text → Type 0
Unknown o id = All (λ (c : Candidate). ¬ (c.id ≡ id)) o.candidates

abbrev pub keys_of : List (Text × Text) → List Text
keys_of reasons = map (λ (e : Text × Text). e.0) reasons

-- What holds of each answer.
abbrev pub Justified : Outcome → DecisionInput → Decided → Type 0
Justified o input (foreign_candidate id) =
    Unknown o id × ((id ≡ trim input.chosen_candidate_id) ⊎ Mem id (keys_of input.reasons))
Justified o input empty_decision =
    (trim input.chosen_candidate_id ≡ []) × (trim input.engineer_fix ≡ []) × (trim input.notes ≡ [])
Justified o input (decided d) =
    (d.chosen_candidate_id ≡ trim input.chosen_candidate_id)
    × (map (λ (r : Rejection). r.candidate_id) d.rejections
        ≡ map (λ (c : Candidate). c.id)
            (select (λ c. not (text_eq c.id d.chosen_candidate_id)) o.candidates))
    × ((d.chosen_candidate_id ≡ []) ⊎ Mem d.chosen_candidate_id (ids_of o))
    × All (λ (e : Text × Text). Mem e.0 (ids_of o)) input.reasons
    × ¬ ((d.chosen_candidate_id ≡ []) × (d.engineer_fix ≡ []) × (d.notes ≡ []))

is_candidate-Mem :
    (cs : List Candidate) (id : Text)
    → is_candidate cs id ≡ true
    → Mem id (map (λ (c : Candidate). c.id) cs)
unfolding is_candidate
is_candidate-Mem [] id h = cc
is_candidate-Mem (c ∷ cs) id h = elim (Bool-cases (text_eq c.id id)) [
  | inl same ↦ rw (sym (text_eq→eq c.id id same)) mem-cons_self
  | inr other ↦ mem-cons_of_mem c.id (is_candidate-Mem cs id (ground arith))
]

is_candidate-Unknown :
    (cs : List Candidate) (id : Text)
    → is_candidate cs id ≡ false
    → All (λ (c : Candidate). ¬ (c.id ≡ id)) cs
unfolding is_candidate
is_candidate-Unknown [] id h = tt
is_candidate-Unknown (c ∷ cs) id h = elim (Bool-cases (text_eq c.id id)) [
  | inl same ↦ absurd (ground arith)
  | inr other ↦ (
    λ e. let self = text_eq_refl id in let met = rw e at other in absurd cc,
    is_candidate-Unknown cs id (ground arith),
  )
]

-- The first reason for no candidate, or every reason is for one.
foreign_reason-none :
    (cs : List Candidate) (es : List (Text × Text))
    → foreign_reason cs es ≡ none
    → All (λ (e : Text × Text). Mem e.0 (map (λ (c : Candidate). c.id) cs)) es
unfolding foreign_reason
foreign_reason-none cs [] h = tt
foreign_reason-none cs (e ∷ es) h = elim (Bool-cases (is_candidate cs e.0)) [
  | inl known ↦ (is_candidate-Mem cs e.0 known, foreign_reason-none cs es (rw known at h))
  | inr foreign ↦ let h1 = rw foreign at h in absurd cc
]

foreign_reason-some :
    (cs : List Candidate) (es : List (Text × Text)) (id : Text)
    → foreign_reason cs es ≡ some id
    → All (λ (c : Candidate). ¬ (c.id ≡ id)) cs × Mem id (keys_of es)
unfolding foreign_reason
foreign_reason-some cs [] id h = absurd cc
foreign_reason-some cs (e ∷ es) id h = elim (Bool-cases (is_candidate cs e.0)) [
  | inl known ↦
      let (unknown, given) = foreign_reason-some cs es id (rw known at h) in
      (unknown, mem-cons_of_mem e.0 given)
  | inr foreign ↦
      let same : e.0 ≡ id =
        ap (λ (k : Option Text). elim k [ some x ↦ x | none ↦ id ]) (rw foreign at h) in
      rw (sym same) (is_candidate-Unknown cs e.0 foreign, mem-cons_self)
]

empty_text : (t : Text) → is_empty t ≡ true → t ≡ []
empty_text [] h = refl
empty_text (x ∷ xs) h = absurd (ground arith)

all_empty :
    (a b c : Text)
    → (is_empty a && is_empty b && is_empty c) ≡ true
    → (a ≡ []) × (b ≡ []) × (c ≡ [])
all_empty a b c h =
    (empty_text a (ground arith), empty_text b (ground arith), empty_text c (ground arith))

not_all_empty :
    (a b c : Text)
    → (is_empty a && is_empty b && is_empty c) ≡ false
    → ¬ ((a ≡ []) × (b ≡ []) × (c ≡ []))
not_all_empty a b c h (p, q, r) = let h1 = rw (p, q, r) at h in absurd cc

known_choice :
    (cs : List Candidate) (chosen : Text)
    → (not (is_empty chosen) && not (is_candidate cs chosen)) ≡ false
    → (chosen ≡ []) ⊎ Mem chosen (map (λ (c : Candidate). c.id) cs)
known_choice cs chosen h = elim (Bool-cases (is_empty chosen)) [
  | inl e ↦ inl (empty_text chosen e)
  | inr some' ↦ inr (is_candidate-Mem cs chosen (ground arith))
]

-- Whatever an engineer enters, the answer is justified. A decision records every candidate but the chosen
-- one as rejected, once each and in the order in which they were ranked; its choice is the one entered,
-- without surrounding blanks, and is empty or a candidate's; every reason was given for a candidate; and
-- a choice, a fix or a note is there. An entry is refused as foreign for an identifier that no candidate
-- has and that was chosen or given a reason, and as empty only where it has no choice, fix or note.
pub new_decision-Justified :
    (o : Outcome) (input : DecisionInput) → Justified o input (new_decision o input)
unfolding new_decision
new_decision-Justified o input =
    let chosen = trim input.chosen_candidate_id in
    let fix = trim input.engineer_fix in
    let notes = trim input.notes in
    elim (Bool-cases (not (is_empty chosen) && not (is_candidate o.candidates chosen))) [
      | inl foreign ↦ rw foreign (is_candidate-Unknown o.candidates chosen (ground arith), inl refl)
      | inr known ↦ rw known (elim (Option-cases (foreign_reason o.candidates input.reasons)) [
        | inr (id, some') ↦
            let (unknown, given) = foreign_reason-some o.candidates input.reasons id some' in
            rw some' (unknown, inr given)
        | inl none' ↦
            rw none' (elim (Bool-cases (is_empty chosen && is_empty fix && is_empty notes)) [
              | inl nothing ↦ rw nothing (all_empty chosen fix notes nothing)
              | inr something ↦ rw something (
                refl,
                rejections_of-ids chosen input.reasons o.candidates,
                known_choice o.candidates chosen known,
                foreign_reason-none o.candidates input.reasons none',
                not_all_empty chosen fix notes something,
              )
            ])
      ])
    ]
