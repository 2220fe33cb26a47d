-- ===== src/Incident/Engine/Advance/Retention.antt =====
-- incident.go, `prune`: the records and the evidence that are kept and released.
use cockroachdbxaws.Base.{
  select, ◌+◌, ◌≤◌, ◌≡◌, refl, ap, sym, Text, text_eq, Bool, false, not, ◌||◌, List, [], ◌∷◌,
  length, any, All, All-map, inl, inr, arith, Bool-cases, ltb→le,
}
use cockroachdbxaws.Incident.Logs.{Time, is_zero_time, before, NormalizedLog}
use cockroachdbxaws.Incident.Search.Slices.{first_index, Monotone, search_slice_lem}
use cockroachdbxaws.Incident.Family.{Family, EvidenceRecord, retention_horizon}
use cockroachdbxaws.Incident.Evidence.{Seen}
use cockroachdbxaws.Incident.Engine.Advance.{prune_ordered, prune_evidence, prune}

-- The records are in event-time order.
abbrev pub ByTime : List NormalizedLog → Type 0
ByTime [] = Unit {0}
ByTime (r ∷ rs) = All (λ x. r.event_time ≤ x.event_time) rs × ByTime rs

-- A record is kept: it is not behind the horizon, or a worker holds it.
abbrev pub is_kept : List Text → Time → NormalizedLog → Bool
is_kept pinned horizon r = not (before r.event_time horizon) || any (text_eq r.record_id) pinned

abbrev from_horizon : Time → NormalizedLog → Bool
from_horizon horizon r = not (before r.event_time horizon)

ByTime-Monotone :
    (horizon : Time) (rs : List NormalizedLog) → ByTime rs → Monotone (from_horizon horizon) rs
ByTime-Monotone horizon [] s = tt
ByTime-Monotone horizon (r ∷ rs) s =
    (λ h. All-map (λ x le. ground arith) rs s.0, ByTime-Monotone horizon rs s.1)

select_all :
    (pinned : List Text) (horizon : Time) (rs : List NormalizedLog)
    → All (λ x. horizon ≤ x.event_time) rs
    → select (is_kept pinned horizon) rs ≡ rs
unfolding select
select_all pinned horizon [] a = refl
select_all pinned horizon (r ∷ rs) a = ground (arith, select_all pinned horizon rs a.1, a.0)

prune_ordered-select :
    (pinned : List Text) (horizon : Time) (rs : List NormalizedLog)
    → ByTime rs
    → let pruned = prune_ordered pinned (first_index (from_horizon horizon) rs) rs in
      (pruned.0 ≡ select (is_kept pinned horizon) rs)
      × (length pruned.0 + length pruned.1 ≡ length rs)
unfolding prune_ordered first_index select
prune_ordered-select pinned horizon [] s = (refl, refl)
prune_ordered-select pinned horizon (r ∷ rs) s =
    let ih = prune_ordered-select pinned horizon rs s.1 in
    let kept = select_all pinned horizon rs in
    elim (Bool-cases (before r.event_time horizon)) [
      | inl behind ↦ rw behind (ground (arith, ih))
      | inr ahead ↦
          let later : All (λ x. horizon ≤ x.event_time) rs =
            All-map (λ x le. omega (arith, ltb→le _ _ ahead)) rs s.0 in
          rw ahead (ap (λ xs. r ∷ xs) (sym (kept later)), omega arith)
    ]

prune_evidence-select :
    (pinned : List Text) (horizon : Time) (xs : List EvidenceRecord)
    → let pruned = prune_evidence pinned horizon xs in
      (pruned.0 ≡ select (λ x. is_kept pinned horizon x.log) xs)
      × (length pruned.0 + length pruned.1 ≡ length xs)
unfolding prune_evidence select
prune_evidence-select pinned horizon [] = (refl, refl)
prune_evidence-select pinned horizon (x ∷ xs) =
    ground (arith, prune_evidence-select pinned horizon xs)

-- Where the reconstruction order is in event-time order and the family has a retention horizon, what
-- `prune` keeps is, in the same order, exactly the records and the evidence that are not behind the
-- horizon or that a worker holds, and what it counts is exactly what it releases.
pub prune-select :
    (pinned : List Text) (f : Family) (now : Time) (seen : Seen)
    → ByTime f.ordered
    → is_zero_time (retention_horizon f now) ≡ false
    → let horizon = retention_horizon f now in
      let after = (prune pinned f now seen).0.0 in
      (after.ordered ≡ select (is_kept pinned horizon) f.ordered)
      × (after.evidence ≡ select (λ x. is_kept pinned horizon x.log) f.evidence)
      × (length after.ordered + length after.evidence + (prune pinned f now seen).1
          ≡ length f.ordered + length f.evidence)
unfolding prune
prune-select pinned f now seen s h =
    let horizon = retention_horizon f now in
    let cut = search_slice_lem _ f.ordered (ByTime-Monotone horizon f.ordered s) in
    let records = prune_ordered-select pinned horizon f.ordered s in
    let noted = prune_evidence-select pinned horizon f.evidence in
    rw h (rw cut (records.0, noted.0, omega (arith, records.1, noted.1)))
