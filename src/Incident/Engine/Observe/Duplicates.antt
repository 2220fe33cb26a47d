-- ===== src/Incident/Engine/Observe/Duplicates.antt =====
-- incident.go, `Observe`: a record that is observed again.
use cockroachdbxaws.Base.{
  ℕ, zero, suc, ◌≡◌, refl, Text, List, [], ◌∷◌, Any, Option, none, some, inl, inr, Bool-cases,
  Option-cases, lookup,
}
use cockroachdbxaws.Incident.Logs.{Time, NormalizedLog}
use cockroachdbxaws.Incident.Search.{insert_at}
use cockroachdbxaws.Incident.Generation.{Generation}
use cockroachdbxaws.Incident.Family.{Family, refresh_statuses}
use cockroachdbxaws.Incident.Episodes.Membership.{
  Contains, fold_episodes-Contains, release-Contains,
}
use cockroachdbxaws.Incident.Evidence.{Seen, attach_evidence}
use cockroachdbxaws.Incident.Evidence.Known.{
  Known, store-Known_new, index_locations-Known, attach_retained_evidence-Contains,
}
use cockroachdbxaws.Incident.Engine.{Engine}
use cockroachdbxaws.Incident.Engine.Transitions.{insert, extend, rebuild, renumber, arrive}
use cockroachdbxaws.Incident.Engine.Observe.{
  observe_evidence, observe_contribution, observe_new, observe, family_or_new, is_evidence,
}

renumber-Contains :
    (id : Text) (n : ℕ) (gs : List Generation) → Contains id gs → Contains id (renumber n gs)
unfolding renumber
renumber-Contains id n [] c = absurd c
renumber-Contains id n (g ∷ gs) (inl h) = inl h
renumber-Contains id n (g ∷ gs) (inr c) = inr (renumber-Contains id (suc n) gs c)

refresh-Contains :
    (id : Text) (t : Time) (gs : List Generation)
    → Contains id gs
    → Contains id (refresh_statuses t gs)
unfolding refresh_statuses
refresh-Contains id t [] c = absurd c
refresh-Contains id t (g ∷ gs) (inl h) = inl h
refresh-Contains id t (g ∷ gs) (inr c) = inr (refresh-Contains id t gs c)

insert_at-here :
    (i : ℕ) (r : NormalizedLog) (rs : List NormalizedLog)
    → Any (λ x. x.record_id ≡ r.record_id) (insert_at i r rs)
unfolding insert_at
insert_at-here zero r rs = inl refl
insert_at-here (suc i) r [] = inl refl
insert_at-here (suc i) r (x ∷ xs) = inr (insert_at-here i r xs)

-- A reconstruction makes every record of the family's order known.
rebuild-Known :
    (f : Family) (id : Text) (seen : Seen)
    → Any (λ r. r.record_id ≡ id) f.ordered
    → Known id (rebuild f seen).1
unfolding rebuild
rebuild-Known f id seen a = index_locations-Known id _ seen (
    refresh-Contains id _ _ (
      renumber-Contains id _ _ (
        release-Contains id _ (
          attach_retained_evidence-Contains id f.evidence _
            (fold_episodes-Contains f.ordered f.events f.generations id a)))))

extend-Known :
    (f : Family) (r : NormalizedLog) (seen : Seen) → Known r.record_id (extend f r seen).1
unfolding extend
extend-Known f r seen = store-Known_new r.record_id _ _

contribution-Known :
    (f : Family) (r : NormalizedLog) (seen : Seen)
    → Known r.record_id (observe_contribution f r seen).0.1
unfolding observe_contribution insert
contribution-Known f r seen = elim (Bool-cases (insert f.ordered r).1) [
  | inl end ↦ rw (end, insert) (extend-Known _ r seen)
  | inr middle ↦
      rw (middle, insert) (rebuild-Known _ r.record_id seen (insert_at-here _ r f.ordered))
]

evidence-Known :
    (f : Family) (r : NormalizedLog) (seen : Seen) → Known r.record_id (observe_evidence f r seen).1
unfolding observe_evidence attach_evidence
evidence-Known f r seen = store-Known_new r.record_id _ _

new-Known :
    (e : Engine) (id : Text) (r : NormalizedLog) → Known r.record_id (observe_new e id r).0.seen
unfolding observe_new
new-Known e id r = elim (Bool-cases (is_evidence (arrive (family_or_new id e.families) r) r)) [
  | inl noted ↦ rw noted (evidence-Known _ r e.seen)
  | inr grown ↦ rw grown (contribution-Known _ r e.seen)
]

known-unchanged :
    (family_id : NormalizedLog → Option Text) (e : Engine) (r : NormalizedLog)
    → Known r.record_id e.seen
    → (observe family_id e r).0 ≡ e
unfolding observe
known-unchanged family_id e r k = elim (Option-cases (family_id r)) [
  | inl none' ↦ rw (none', observe) refl
  | inr some' ↦ elim (Option-cases (lookup (k.0).incident_id e.families)) [
    | inl gone ↦ rw (some'.1, observe) (rw k.1 (rw gone refl))
    | inr here ↦ rw (some'.1, observe) (rw k.1 (rw (here.1) refl))
  ]
]

refused-unchanged :
    (family_id : NormalizedLog → Option Text) (e : Engine) (r : NormalizedLog)
    → family_id r ≡ none
    → (observe family_id e r).0 ≡ e
unfolding observe
refused-unchanged family_id e r h = rw (h, observe) refl

first-Known :
    (family_id : NormalizedLog → Option Text) (e : Engine) (r : NormalizedLog) (id : Text)
    → family_id r ≡ some id
    → Known r.record_id (observe family_id e r).0.seen
unfolding observe
first-Known family_id e r id h = elim (Option-cases (lookup r.record_id e.seen)) [
  | inl fresh ↦ rw (h, observe) (rw fresh (new-Known e id r))
  | inr known ↦ rw (known-unchanged family_id e r known) known
]

-- Observing a record a second time leaves the engine as the first observation left it, whether the
-- record was refused, retained as evidence, appended to the last episode or reconstructed.
pub observe-idempotent :
    (family_id : NormalizedLog → Option Text) (e : Engine) (r : NormalizedLog)
    → let first = (observe family_id e r).0 in (observe family_id first r).0 ≡ first
observe-idempotent family_id e r = elim (Option-cases (family_id r)) [
  | inl none' ↦ refused-unchanged family_id _ r none'
  | inr some' ↦ known-unchanged family_id _ r (first-Known family_id e r some'.0 some'.1)
]
