-- ===== src/Incident/Engine/Observe/Frontiers.antt =====
-- incident.go, `Observe` and `Advance`: the frontiers of a family.
use cockroachdbxaws.Base.{◌+◌, ◌-◌, ◌≤◌, ◌<◌, ◌≡◌, ◌⊎◌, inl, inr, true, arith}
use cockroachdbxaws.Incident.Logs.{Time, zero_time, NormalizedLog, default_allowed_lateness}
use cockroachdbxaws.Incident.Family.{Family, finalize_through, strict_successor}
use cockroachdbxaws.Incident.Engine.Transitions.{arrive}
use cockroachdbxaws.Incident.Engine.Observe.{is_late, is_evidence}
use cockroachdbxaws.Incident.Engine.Advance.{advance_frontiers}

-- Nothing has arrived, or the watermark trails the newest event time by the allowed lateness and the
-- finalized frontier lies between the watermark and the newest event time's successor.
abbrev pub FrontiersOrdered : Family → Type 0
FrontiersOrdered f =
    ((f.max_event_time ≡ zero_time) × (f.watermark ≡ zero_time) × (f.finalized_through ≡ zero_time))
    ⊎ ((zero_time + default_allowed_lateness < f.max_event_time)
        × (f.watermark ≡ f.max_event_time - default_allowed_lateness)
        × (f.watermark ≤ f.finalized_through)
        × (f.finalized_through ≤ f.max_event_time + 1))

abbrev pub Forward : Family → Family → Type 0
Forward f g =
    (f.max_event_time ≤ g.max_event_time)
    × (f.watermark ≤ g.watermark)
    × (f.finalized_through ≤ g.finalized_through)
    × (f.last_activity ≤ g.last_activity)

-- The arrival of a record whose event time is later than the allowed lateness after the zero time keeps
-- the frontiers ordered, moves none of them back, and brings the newest event time up to the record's.
pub arrive-FrontiersOrdered :
    (f : Family) (r : NormalizedLog)
    → zero_time + default_allowed_lateness < r.event_time
    → FrontiersOrdered f
    → FrontiersOrdered (arrive f r)
      × Forward f (arrive f r)
      × (r.event_time ≤ (arrive f r).max_event_time)
unfolding arrive finalize_through
arrive-FrontiersOrdered f r late (inl e) = ground arith
arrive-FrontiersOrdered f r late (inr k) = ground arith

-- The instant just after one, where there is a later instant, and the same instant otherwise.
strict_successor_cases : (t : Time) → (strict_successor t ≡ t) ⊎ (strict_successor t ≡ t + 1)
unfolding strict_successor
strict_successor_cases t = ground arith

-- A cycle at any instant keeps the frontiers ordered and moves none of them back.
pub advance_frontiers-FrontiersOrdered :
    (f : Family) (now : Time)
    → FrontiersOrdered f
    → FrontiersOrdered (advance_frontiers f now) × Forward f (advance_frontiers f now)
unfolding advance_frontiers finalize_through
advance_frontiers-FrontiersOrdered f now (inl e) =
    ground (arith, strict_successor_cases f.max_event_time)
advance_frontiers-FrontiersOrdered f now (inr k) =
    ground (arith, strict_successor_cases f.max_event_time)

-- Where the frontiers are ordered, a record behind the watermark is retained as evidence.
pub is_late-is_evidence :
    (f : Family) (r : NormalizedLog)
    → FrontiersOrdered f
    → is_late f r ≡ true
    → is_evidence f r ≡ true
is_late-is_evidence f r (inl e) late = ground arith
is_late-is_evidence f r (inr k) late = ground arith
