-- ===== src/Incident/Engine/Observe/Requests.antt =====
-- incident.go, `Observe`: the requests for an investigation.
use cockroachdbxaws.Base.{
  ℕ, ◌≡◌, refl, Bool, true, false, not, ◌&&◌, ◌||◌, sym, ◌∙◌, Option, none, some, inl, inr, arith,
  if◌then◌else◌, Bool-cases,
}
use cockroachdbxaws.Incident.Generation.{put_log}
use cockroachdbxaws.Incident.Logs.{NormalizedLog}
use cockroachdbxaws.Incident.Family.{Family, threshold_generation, generation_count}
use cockroachdbxaws.Incident.Evidence.{Seen}
use cockroachdbxaws.Incident.Engine.Observe.{request, set_context, observe_contribution}
use cockroachdbxaws.Incident.Engine.Transitions.{insert, extend, rebuild}

abbrev pub found : Option ℕ → Bool
found o = elim o [ none ↦ false | some i ↦ true ]

abbrev meets : Family → Bool
meets g = found (threshold_generation g.generations g.finalized_through)

-- What `request` does to a family.
request_lem :
    (g : Family)
    → ((request g).0.active_investigation ≡ (g.active_investigation || meets g))
      × ((request g).1 ≡ (not g.active_investigation && meets g))
      × ((request g).0.generations ≡ g.generations)
      × ((request g).0.finalized_through ≡ g.finalized_through)
unfolding request
request_lem g = ground arith

set_context_lem :
    (g : Family)
    → ((set_context g).active_investigation ≡ g.active_investigation)
      × (g.active_investigation ≡ true
          → (set_context g).context_version ≡ generation_count (set_context g))
      × ((set_context g).generations ≡ g.generations)
      × ((set_context g).finalized_through ≡ g.finalized_through)
unfolding set_context
set_context_lem g = ground arith

grown-active :
    (f : Family) (r : NormalizedLog) (seen : Seen) (at_end : Bool)
    → (if at_end then extend f r seen else rebuild f seen).0.active_investigation
      ≡ f.active_investigation
unfolding extend rebuild
grown-active f r seen true = refl
grown-active f r seen false = refl

-- The state after a contribution that made the family `g` of the family `f`.
abbrev finish : Family → Family
finish g = set_context (request g).0

finish-active : (g : Family) → (finish g).active_investigation ≡ (g.active_investigation || meets g)
finish-active g = (set_context_lem (request g).0).0 ∙ (request_lem g).0

finish-meets : (g : Family) → meets (finish g) ≡ meets g
finish-meets g =
    rw (set_context_lem (request g).0).2
      (rw (set_context_lem (request g).0).3 (rw (request_lem g).2 (rw (request_lem g).3 refl)))

requested_lem :
    (f g : Family)
    → g.active_investigation ≡ f.active_investigation
    → (request g).1 ≡ (not f.active_investigation && (finish g).active_investigation)
requested_lem f g e = elim (Bool-cases f.active_investigation) [
  | inl a ↦ rw (request_lem g).1 (rw (finish-active g) (rw e (rw a refl)))
  | inr a ↦ rw (request_lem g).1 (rw (finish-active g) (rw e (rw a refl)))
]

-- `Observe` of a contributing record requests an investigation exactly when none was active and one is
-- active afterwards, never when one was active, and then no context update is reported; an active
-- investigation stays active, its context version is the number of generations, and whatever is active
-- afterwards was active before or has a finalized threshold.
pub observe_contribution-request :
    (f : Family) (r : NormalizedLog) (seen : Seen)
    → let done = observe_contribution f r seen in
      let after = done.0.0 in
      (done.1.0 ≡ (not f.active_investigation && after.active_investigation))
      × (f.active_investigation ≡ true → after.active_investigation ≡ true)
      × (done.1.0 ≡ true → done.1.1 ≡ false)
      × (after.active_investigation ≡ true → after.context_version ≡ generation_count after)
      × (after.active_investigation ≡ (
          f.active_investigation
          || found (threshold_generation after.generations after.finalized_through)))
unfolding observe_contribution request set_context extend rebuild
observe_contribution-request f r seen =
    let kept : Family = record f {
      events = put_log r f.events;
      ordered = (insert f.ordered r).0;
    } in
    let g = (if (insert f.ordered r).1 then extend kept r seen else rebuild kept seen).0 in
    let e : g.active_investigation ≡ f.active_investigation =
      grown-active kept r seen (insert f.ordered r).1 in
    (
      requested_lem f g e,
      λ a. finish-active g ∙ rw e (rw a refl),
      λ h. rw h refl,
      λ a. (set_context_lem (request g).0).1 (sym (set_context_lem (request g).0).0 ∙ a),
      finish-active g ∙ rw e (rw (finish-meets g) refl),
    )
