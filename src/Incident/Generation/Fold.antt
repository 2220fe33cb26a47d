-- ===== src/Incident/Generation/Fold.antt =====
-- An episode folded from records in event-time order: its threshold time against the window counts of
-- the eligible records alone.
use mathlib.Core.Path.{subst}
use mathlib.Core.List.{append-nil, append_assoc}
use cockroachdbxaws.Base.{
  ℕ, ◌≤◌, ◌<◌, ◌≡◌, ◌⊎◌, ◌↔◌, refl, not, ◌&&◌, Text, true, inl, inr, List, [], ◌∷◌, ◌++◌, All,
  All-map, snoc-All, Any, Any-map, arith, Bool-cases, if◌then◌else◌,
}
use cockroachdbxaws.Incident.Logs.{
  Time, zero_time, is_zero_time, before, default_investigation_threshold, NormalizedLog,
  investigation_eligible,
}
use cockroachdbxaws.Incident.Generation.{
  Generation, new_generation, add_contribution, generation_satisfies_threshold,
}
use cockroachdbxaws.Incident.Window.Counts.{IsSorted}
use cockroachdbxaws.Incident.Generation.Threshold.{
  Any-All, in_window, Qualifies, Earliest, satisfied_after-Earliest, snoc-IsSorted,
}

-- The loop of `foldEpisodes` over the records of one episode.
unfoldable pub contributions : Generation → List NormalizedLog → Generation
contributions g [] = g
contributions g (r ∷ rs) = contributions (add_contribution g r) rs

unfoldable pub eligible_times : List NormalizedLog → List Time
eligible_times [] = []
eligible_times (r ∷ rs) =
    if investigation_eligible r then r.event_time ∷ eligible_times rs else eligible_times rs

-- The records are in event-time order, after `bound`, at times later than the zero time.
abbrev pub InOrder : Time → List NormalizedLog → Type 0
InOrder bound [] = Unit
InOrder bound (r ∷ rs) =
    (bound ≤ r.event_time) × (zero_time < r.event_time) × InOrder r.event_time rs

-- What an episode's threshold state says of its eligible times, none of which is after `bound`.
pub record Tracks (g : Generation) (bound : Time) : Type 0 where
  pub sorted : IsSorted g.eligible
  pub bounded : All (λ u. u ≤ bound) g.eligible
  pub live : All (λ u. zero_time < u) g.eligible
  pub earliest : Earliest g.eligible g.satisfied_at

Tracks-step :
    (g : Generation) (bound : Time) (r : NormalizedLog)
    → bound ≤ r.event_time
    → zero_time < r.event_time
    → Tracks g bound
    → Tracks (add_contribution g r) r.event_time
unfolding add_contribution
Tracks-step g bound r le z k =
    let kept : All (λ u. u ≤ r.event_time) g.eligible =
      All-map (λ u h. omega arith) g.eligible k.bounded in
    elim (Bool-cases (investigation_eligible r)) [
      | inl yes' ↦ rw yes' (record {
        sorted = snoc-IsSorted g.eligible r.event_time k.sorted kept;
        bounded = snoc-All (λ u. u ≤ r.event_time) g.eligible r.event_time kept (omega arith);
        live = snoc-All (λ u. zero_time < u) g.eligible r.event_time k.live z;
        earliest =
            satisfied_after-Earliest g.eligible g.satisfied_at r.event_time z k.sorted kept k.live
              k.earliest;
      })
      | inr no' ↦
          rw no'
            (record { sorted = k.sorted; bounded = kept; live = k.live; earliest = k.earliest })
    ]

Tracks-fold :
    (g : Generation) (bound : Time) (rs : List NormalizedLog)
    → InOrder bound rs
    → Tracks g bound
    → Earliest (contributions g rs).eligible (contributions g rs).satisfied_at
unfolding contributions
Tracks-fold g bound [] o k = k.earliest
Tracks-fold g bound (r ∷ rs) o k =
    Tracks-fold (add_contribution g r) r.event_time rs o.2 (Tracks-step g bound r o.0 o.1 k)

fold_eligible :
    (g : Generation) (rs : List NormalizedLog)
    → (contributions g rs).eligible ≡ g.eligible ++ eligible_times rs
unfolding contributions eligible_times add_contribution
fold_eligible g [] = rw (append-nil g.eligible) refl
fold_eligible g (r ∷ rs) = elim (Bool-cases (investigation_eligible r)) [
  | inl yes' ↦
      rw (fold_eligible (add_contribution g r) rs)
        (rw yes' (append_assoc g.eligible (r.event_time ∷ []) (eligible_times rs)))
  | inr no' ↦ rw (fold_eligible (add_contribution g r) rs) (rw no' refl)
]

eligible_live :
    (bound : Time) (rs : List NormalizedLog)
    → InOrder bound rs
    → All (λ u. zero_time < u) (eligible_times rs)
unfolding eligible_times
eligible_live bound [] o = tt
eligible_live bound (r ∷ rs) o = elim (Bool-cases (investigation_eligible r)) [
  | inl yes' ↦ rw yes' (o.1, eligible_live r.event_time rs o.2)
  | inr no' ↦ rw no' (eligible_live r.event_time rs o.2)
]

-- Over records in event-time order at times after the zero time, `satisfiedAt` is the earliest
-- eligible event time whose half-open window holds a whole threshold of eligible records, counted over
-- all the records of the episode, or the zero time when there is none.
pub contributions-Earliest :
    (number : ℕ) (deployment : Text) (rs : List NormalizedLog)
    → InOrder zero_time rs
    → Earliest
        (eligible_times rs)
        (contributions (new_generation number deployment) rs).satisfied_at
unfolding new_generation
contributions-Earliest number deployment rs o =
    let g = new_generation number deployment in
    subst (λ es. Earliest es (contributions g rs).satisfied_at) (fold_eligible g rs)
      (Tracks-fold g zero_time rs o
        (record { sorted = tt; bounded = tt; live = tt; earliest = inl (refl, tt) }))

meets :
    (es : List Time) (s f : Time)
    → Any (λ u. u ≡ s) es
    → Qualifies es s
    → s < f
    → Any (λ u. Qualifies es u × (u < f)) es
meets es s f here q l = Any-map (λ u e. (rw e q, omega (arith, e))) es here

none_meets :
    (es : List Time) (count : Time → ℕ) (f : Time) (ds : List Time)
    → All (λ u. count u < default_investigation_threshold) ds
    → Any (λ u. (default_investigation_threshold ≤ count u) × (u < f)) ds
    → ⊥
none_meets es count f [] a h = h
none_meets es count f (d ∷ ds) a (inl h) = omega (arith, a.0, h.0)
none_meets es count f (d ∷ ds) a (inr t) = none_meets es count f ds a.1 t

earliest_meets :
    (count : Time → ℕ) (s f : Time) (ds : List Time)
    → All (λ u. (s ≤ u) ⊎ (count u < default_investigation_threshold)) ds
    → Any (λ u. (default_investigation_threshold ≤ count u) × (u < f)) ds
    → s < f
earliest_meets count s f [] a h = absurd h
earliest_meets count s f (d ∷ ds) a (inl h) = elim a.0 [
  | inl le ↦ omega (arith, h.1)
  | inr few ↦ absurd (omega (arith, h.0))
]
earliest_meets count s f (d ∷ ds) a (inr t) = earliest_meets count s f ds a.1 t

threshold_iff :
    (es : List Time) (s f : Time)
    → All (λ u. zero_time < u) es
    → Earliest es s
    → ((not (is_zero_time s) && before s f) ≡ true) ↔ Any (λ u. Qualifies es u × (u < f)) es
threshold_iff es s f live (inl (e, few)) =
    (λ h. absurd (ground (arith, h, e)), λ h. absurd (none_meets es (in_window es) f es few h))
threshold_iff es s f live (inr (here, q, first)) =
    let at = Any-All _ _ es here live in
    (
      λ h. meets es s f here q (ground (arith, h)),
      λ h.
          let less = earliest_meets (in_window es) s f es first h in
          ground (arith, less, at.1.0, at.1.1),
    )

-- Over records in event-time order at times after the zero time, an episode satisfies the threshold
-- at a finalized frontier exactly when some eligible event time strictly before the frontier ends a
-- half-open window with a whole threshold of eligible records.
pub generation_satisfies_threshold_iff :
    (number : ℕ) (deployment : Text) (rs : List NormalizedLog) (frontier : Time)
    → InOrder zero_time rs
    → (generation_satisfies_threshold (contributions (new_generation number deployment) rs) frontier
        ≡ true)
      ↔ Any (λ u. Qualifies (eligible_times rs) u × (u < frontier)) (eligible_times rs)
unfolding generation_satisfies_threshold
generation_satisfies_threshold_iff number deployment rs frontier o =
    threshold_iff (eligible_times rs) _ frontier (eligible_live zero_time rs o)
      (contributions-Earliest number deployment rs o)
