-- ===== src/Incident/Engine/Observe/Evidence.antt =====
-- incident.go, `Observe`: the episodes when a record is retained as evidence.
use cockroachdbxaws.Base.{
  ℕ, zero, suc, ◌≡◌, refl, ap, sym, ◌∙◌, not, ◌&&◌, Text, List, [], ◌∷◌, ◌++◌, map, Option, none,
  some, if◌then◌else◌,
}
use cockroachdbxaws.Incident.Logs.{Time, NormalizedLog, is_zero_time, before}
use cockroachdbxaws.Incident.Generation.{Generation, generation_satisfies_threshold}
use cockroachdbxaws.Incident.Family.{Family, topology, threshold_generation}
use cockroachdbxaws.Incident.Evidence.{
  Seen, attach_to, attach_at, attach_at_target, attach_evidence,
}
use cockroachdbxaws.Incident.Engine.Observe.{observe_evidence}

-- What episode reconstruction decides of a generation: its number, deployment, start, contributing
-- records with their times, eligible times and threshold time.
pub record Membership : Type 0 where
  pub number : ℕ
  pub deployment : Text
  pub first_occurrence : Time
  pub records : List NormalizedLog
  pub times : List Time
  pub eligible : List Time
  pub satisfied_at : Time

unfoldable pub membership : Generation → Membership
membership g = record {
  number = g.number;
  deployment = g.deployment;
  first_occurrence = g.first_occurrence;
  records = g.records;
  times = g.times;
  eligible = g.eligible;
  satisfied_at = g.satisfied_at;
}

attach_at-membership :
    (i : ℕ) (r : NormalizedLog) (gs : List Generation)
    → map membership (attach_at i r gs) ≡ map membership gs
unfolding attach_at attach_to membership
attach_at-membership i r [] = refl
attach_at-membership zero r (g ∷ gs) = refl
attach_at-membership (suc i) r (g ∷ gs) = ap (λ ms. membership g ∷ ms) (attach_at-membership i r gs)

target-membership :
    (target : Option ℕ) (r : NormalizedLog) (gs : List Generation)
    → map membership (attach_at_target target r gs) ≡ map membership gs
unfolding attach_at_target
target-membership none r gs = refl
target-membership (some i) r gs = attach_at-membership i r gs

-- The topology and the threshold read the memberships only.
topology_of : List Membership → Text
topology_of [] = []
topology_of (m ∷ []) = m.deployment
topology_of (m ∷ n ∷ ms) = m.deployment ++ 0 ∷ topology_of (n ∷ ms)

topology-membership : (gs : List Generation) → topology gs ≡ topology_of (map membership gs)
unfolding topology topology_of membership
topology-membership [] = refl
topology-membership (g ∷ []) = refl
topology-membership (g ∷ h ∷ gs) = ap (λ t. g.deployment ++ 0 ∷ t) (topology-membership (h ∷ gs))

threshold_of : Time → List Membership → Option ℕ
threshold_of t [] = none
threshold_of t (m ∷ ms) =
    if not (is_zero_time m.satisfied_at) && before m.satisfied_at t
    then some 0
    else elim (threshold_of t ms) [ none ↦ none | some i ↦ some (suc i) ]

threshold-membership :
    (t : Time) (gs : List Generation)
    → threshold_generation gs t ≡ threshold_of t (map membership gs)
unfolding threshold_generation generation_satisfies_threshold threshold_of membership
threshold-membership t [] = refl
threshold-membership t (g ∷ gs) =
    ap
      (λ (o : Option ℕ).
        if not (is_zero_time g.satisfied_at) && before g.satisfied_at t
        then some 0
        else elim o as (λ x. Option ℕ) [ none ↦ none | some i ↦ some (suc i) ])
      (threshold-membership t gs)

-- Retaining a record as evidence leaves the reconstruction order, the contributing records, and every
-- episode's number, deployment, start, contributions and threshold time as they are, so that neither
-- the topology nor the threshold at any frontier moves.
pub observe_evidence-membership :
    (f : Family) (r : NormalizedLog) (seen : Seen)
    → let after = (observe_evidence f r seen).0 in
      (map membership after.generations ≡ map membership f.generations)
      × (after.ordered ≡ f.ordered)
      × (after.events ≡ f.events)
      × (topology after.generations ≡ topology f.generations)
      × ((t : Time)
          → threshold_generation after.generations t ≡ threshold_generation f.generations t)
unfolding observe_evidence attach_evidence
observe_evidence-membership f r seen =
    let same = target-membership _ r f.generations in
    (
      same,
      refl,
      refl,
      topology-membership _ ∙ ap topology_of same ∙ sym (topology-membership f.generations),
      λ t.
          threshold-membership t _
          ∙ ap (threshold_of t) same
          ∙ sym (threshold-membership t f.generations),
    )
