-- ===== src/Incident/Engine/Transitions/Refold.antt =====
-- Extending the last episode against folding the whole order again.
use cockroachdbxaws.Base.{
  ℕ, zero, suc, ◌≡◌, refl, ap, sym, ◌∙◌, true, not, List, [], ◌∷◌, ◌++◌, map, length, inl, inr,
  Option-cases, Bool-cases, ◌==◌, ==_iff,
}
use cockroachdbxaws.Incident.Logs.{Time, NormalizedLog, sorts_before, deployment_id}
use cockroachdbxaws.Incident.Search.{insert_at, search_slice}
use cockroachdbxaws.Incident.Generation.{Generation, new_generation, add_contribution, active}
use cockroachdbxaws.Incident.Family.{
  Family, EvidenceRecord, refresh_statuses, generation_for_evidence,
}
use cockroachdbxaws.Incident.Episodes.{starts_episode, fold_record, fold_records}
use cockroachdbxaws.Incident.Evidence.{
  Seen, attach_to, attach_at, attach_one, attach_each, detach_all, attach_retained_evidence,
}
use cockroachdbxaws.Incident.Engine.Transitions.{
  insert, extend, starts_generation, extend_last, begins_episode,
}

-- A generation without its number, its status and its evidence: what the fold decides.
unfoldable pub core : Generation → Generation
core g = record g { number = 0; status = active; evidence = []; evidence_times = [] }

core_fold :
    (n : ℕ) (gs : List Generation) (r : NormalizedLog)
    → map core (fold_record n gs r) ≡ fold_record 0 (map core gs) r
unfolding core fold_record add_contribution new_generation starts_episode
core_fold n [] r = refl
core_fold n (g ∷ []) r = elim (Bool-cases (starts_episode g r)) [
  | inl new' ↦ rw new' refl
  | inr old' ↦ rw old' refl
]
core_fold n (g ∷ h ∷ gs) r = ap (λ xs. core g ∷ xs) (core_fold n (h ∷ gs) r)

-- The two copies of the condition, and so the two steps, agree.
extend_last-fold_record :
    (n : ℕ) (gs : List Generation) (r : NormalizedLog) → extend_last n gs r ≡ fold_record n gs r
unfolding extend_last fold_record begins_episode starts_episode
extend_last-fold_record n [] r = refl
extend_last-fold_record n (g ∷ []) r = refl
extend_last-fold_record n (g ∷ h ∷ gs) r =
    ap {B = List Generation} (λ xs. g ∷ xs) (extend_last-fold_record n (h ∷ gs) r)

core-extend_last :
    (n : ℕ) (gs : List Generation) (r : NormalizedLog)
    → map core (extend_last n gs r) ≡ fold_record 0 (map core gs) r
core-extend_last n gs r = ap (map core) (extend_last-fold_record n gs r) ∙ core_fold n gs r

core_refresh : (t : Time) (gs : List Generation) → map core (refresh_statuses t gs) ≡ map core gs
unfolding core refresh_statuses
core_refresh t [] = refl
core_refresh t (g ∷ gs) = ap (λ xs. core g ∷ xs) (core_refresh t gs)

core_at :
    (i : ℕ) (r : NormalizedLog) (gs : List Generation) → map core (attach_at i r gs) ≡ map core gs
unfolding core attach_at attach_to
core_at i r [] = refl
core_at zero r (g ∷ gs) = refl
core_at (suc i) r (g ∷ gs) = ap (λ xs. core g ∷ xs) (core_at i r gs)

core_one : (e : EvidenceRecord) (gs : List Generation) → map core (attach_one e gs) ≡ map core gs
unfolding attach_one
core_one e gs =
    elim (Option-cases (generation_for_evidence gs (deployment_id e.log) e.log.event_time)) [
      | inl none' ↦ rw (none', attach_one) refl
      | inr some' ↦
          rw (some'.1, attach_one)
            (elim (Bool-cases e.attach) [
              | inl a ↦ rw a (core_at some'.0 e.log gs)
              | inr a ↦ rw a refl
            ])
    ]

core_each :
    (es : List EvidenceRecord) (gs : List Generation) → map core (attach_each es gs) ≡ map core gs
unfolding attach_each
core_each [] gs = refl
core_each (e ∷ es) gs = core_each es (attach_one e gs) ∙ core_one e gs

core_detach : (gs : List Generation) → map core (detach_all gs) ≡ map core gs
unfolding core detach_all
core_detach [] = refl
core_detach (g ∷ gs) = elim (Bool-cases (length g.evidence == 0)) [
  | inl bare ↦ rw bare (ap (λ xs. core g ∷ xs) (core_detach gs))
  | inr some' ↦ rw some' (ap (λ xs. core g ∷ xs) (core_detach gs))
]

core_attach :
    (es : List EvidenceRecord) (gs : List Generation)
    → map core (attach_retained_evidence es gs) ≡ map core gs
unfolding attach_retained_evidence
core_attach es gs = core_each es (detach_all gs) ∙ core_detach gs

fold_snoc :
    (gs : List Generation) (rs : List NormalizedLog) (r : NormalizedLog)
    → fold_records gs (rs ++ r ∷ []) ≡ fold_record 0 (fold_records gs rs) r
unfolding fold_records
fold_snoc gs [] r = refl
fold_snoc gs (x ∷ xs) r = fold_snoc (fold_record 0 gs x) xs r

insert_end :
    (r : NormalizedLog) (rs : List NormalizedLog) → insert_at (length rs) r rs ≡ rs ++ r ∷ []
unfolding insert_at
insert_end r [] = refl
insert_end r (x ∷ xs) = ap (λ ys. x ∷ ys) (insert_end r xs)

core-extend :
    (f : Family) (r : NormalizedLog) (seen : Seen)
    → map core (extend f r seen).0.generations ≡ fold_record 0 (map core f.generations) r
unfolding extend
core-extend f r seen = elim (Bool-cases (starts_generation f.generations r)) [
  | inl created ↦
      rw created (
        core_attach f.evidence _
        ∙ core_refresh f.advanced_to _
        ∙ core-extend_last _ f.generations r)
  | inr same ↦ rw same (core_refresh f.advanced_to _ ∙ core-extend_last _ f.generations r)
]

-- Where a family's episodes are, but for numbers, statuses and evidence, the fold of its order, and a
-- record lands at the end of the order, extending the last episode gives the fold of the whole new
-- order, so a full reconstruction would fold the same episodes.
pub extend-refolds :
    (f : Family) (r : NormalizedLog) (seen : Seen)
    → map core f.generations ≡ fold_records [] f.ordered
    → (insert f.ordered r).1 ≡ true
    → map core (extend f r seen).0.generations ≡ fold_records [] (insert f.ordered r).0
unfolding insert
extend-refolds f r seen folded end =
    let index : search_slice (λ x. not (sorts_before x r)) f.ordered ≡ length f.ordered =
      (==_iff _ (length f.ordered)).0 end in
    core-extend f r seen
    ∙ ap (λ gs. fold_record 0 gs r) folded
    ∙ sym (fold_snoc [] f.ordered r)
    ∙ ap (fold_records []) (sym (rw index (insert_end r f.ordered)))
