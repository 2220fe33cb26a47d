-- ===== src/Incident/Engine/Observe/Reachable.antt =====
-- incident.go, `Observe` and `Advance`: the frontiers of a family over any sequence of arrivals and
-- cycles. Nothing else that the two operations do to a family moves a frontier.
use cockroachdbxaws.Base.{◌+◌, ◌<◌, ◌≡◌, refl, Bool, true, not, ◌&&◌, inl, inr, arith, Text}
use cockroachdbxaws.Incident.Logs.{
  Time, zero_time, is_zero_time, before, NormalizedLog, default_allowed_lateness,
}
use cockroachdbxaws.Incident.Family.{Family, new_family}
use cockroachdbxaws.Incident.Engine.Transitions.{arrive}
use cockroachdbxaws.Incident.Engine.Advance.{advance_frontiers}
use cockroachdbxaws.Incident.Engine.Observe.Frontiers.{
  FrontiersOrdered, Forward, arrive-FrontiersOrdered, advance_frontiers-FrontiersOrdered,
}

-- What `f` becomes.
pub data Moves (f : Family) : Family → Type 0 where
  unmoved : Moves f f
  arrives :
      {g : Family}
      → Moves f g
      → (r : NormalizedLog) → zero_time + default_allowed_lateness < r.event_time
      → Moves f (arrive g r)
  cycles : {g : Family} → Moves f g → (now : Time) → Moves f (advance_frontiers g now)

-- The record is behind the finalized frontier.
abbrev pub is_finalized : Family → NormalizedLog → Bool
is_finalized f r = not (is_zero_time f.finalized_through) && before r.event_time f.finalized_through

Forward-trans : (f g h : Family) → Forward f g → Forward g h → Forward f h
Forward-trans f g h a b = (
  omega (arith, a.0, b.0),
  omega (arith, a.1, b.1),
  omega (arith, a.2, b.2),
  omega (arith, a.3, b.3),
)

moves_lem : (f g : Family) → FrontiersOrdered f → Moves f g → FrontiersOrdered g × Forward f g
moves_lem f g o unmoved = (o, (omega arith, omega arith, omega arith, omega arith))
moves_lem f _ o (arrives {g} m r late) =
    let before' = moves_lem f g o m in
    let step = arrive-FrontiersOrdered g r late before'.0 in
    (step.0, Forward-trans f g (arrive g r) before'.1 step.1)
moves_lem f _ o (cycles {g} m now) =
    let before' = moves_lem f g o m in
    let step = advance_frontiers-FrontiersOrdered g now before'.0 in
    (step.0, Forward-trans f g (advance_frontiers g now) before'.1 step.1)

stays_finalized :
    (f g : Family) (r : NormalizedLog)
    → FrontiersOrdered f
    → FrontiersOrdered g
    → Forward f g
    → is_finalized f r ≡ true
    → is_finalized g r ≡ true
stays_finalized f g r (inl e) q w h = absurd (ground (arith, e.2, h))
stays_finalized f g r (inr k) (inl e) w h = absurd (omega (arith, k.0, k.1, k.2, w.2, e.2))
stays_finalized f g r (inr k) (inr l) w h = ground (arith, k, l, w.2, h)

-- From a family whose frontiers are ordered, over any sequence of cycles and of arrivals of records
-- dated later than the allowed lateness after the zero time, the frontiers stay ordered, none moves
-- back, and a record that is behind the finalized frontier stays behind it; a new family is one to
-- start from.
pub Moves-FrontiersOrdered :
    (f g : Family)
    → FrontiersOrdered f
    → Moves f g
    → FrontiersOrdered g
      × Forward f g
      × ((r : NormalizedLog) → is_finalized f r ≡ true → is_finalized g r ≡ true)
      × ((id : Text) → FrontiersOrdered (new_family id))
unfolding new_family
Moves-FrontiersOrdered f g o m =
    let both = moves_lem f g o m in
    (both.0, both.1, λ r h. stays_finalized f g r o both.0 both.1 h, λ id. inl (refl, refl, refl))
