-- ===== src/Incident/Generation/Threshold.antt =====
-- incident.go, `addContribution`: the threshold test at one more eligible record.
use cockroachdbxaws.Base.{
  ℕ, ◌-◌, ◌≤◌, ◌<◌, ◌≡◌, ◌⊎◌, refl, false, inl, inr, List, [], ◌∷◌, ◌++◌, length, All, All-map,
  snoc-All, Any, snoc-Any, snoc-Any_last, ◌==◌, arith, Bool-cases, dec_lt, leb, leb→le, leb→lt,
  if◌then◌else◌,
}
use cockroachdbxaws.Incident.Logs.{
  Time, zero_time, before, default_investigation_window, default_investigation_threshold,
}
use cockroachdbxaws.Incident.Search.{search_slice}
use cockroachdbxaws.Incident.Search.Slices.{first_index, search_slice_lem}
use cockroachdbxaws.Incident.Window.{in_half_open_window}
use cockroachdbxaws.Incident.Window.Counts.{IsSorted, IsSorted-Monotone, count_if}
use cockroachdbxaws.Incident.Generation.{satisfied_after}

-- How many of the times lie in the window that ends at `t`.
abbrev pub in_window : List Time → Time → ℕ
in_window es t = count_if (λ u. in_half_open_window u t default_investigation_window) es

abbrev pub Qualifies : List Time → Time → Type 0
Qualifies es t = default_investigation_threshold ≤ in_window es t

-- No eligible time ends a full window, or `s` is the earliest that does.
abbrev pub Earliest : List Time → Time → Type 0
Earliest es s =
    ((s ≡ zero_time) × All (λ u. in_window es u < default_investigation_threshold) es)
    ⊎ (Any (λ u. u ≡ s) es
        × Qualifies es s
        × All (λ u. (s ≤ u) ⊎ (in_window es u < default_investigation_threshold)) es)

window_snoc_later :
    (es : List Time) (u t : Time) → u < t → in_window (es ++ t ∷ []) u ≡ in_window es u
unfolding count_if in_half_open_window
window_snoc_later [] u t h = ground arith
window_snoc_later (e ∷ es) u t h = ground (arith, window_snoc_later es u t h)

window_snoc_le : (es : List Time) (u t : Time) → in_window es u ≤ in_window (es ++ t ∷ []) u
unfolding count_if in_half_open_window
window_snoc_le [] u t = omega arith
window_snoc_le (e ∷ es) u t = ground (arith, window_snoc_le es u t)

all_inside :
    (es : List Time) (t : Time)
    → All (λ u. u ≤ t) es
    → All (λ u. t - default_investigation_window < u) es
    → in_window es t ≡ length es
unfolding count_if in_half_open_window
all_inside [] t a b = refl
all_inside (e ∷ es) t a b = ground (arith, all_inside es t a.1 b.1)

-- With no time after `t`, the times above the window's lower end are those inside it.
window_tail :
    (es : List Time) (t : Time)
    → zero_time < t
    → All (λ u. u ≤ t) es
    → IsSorted es
    → (first_index (λ u. before (t - default_investigation_window) u) es ≤ length es)
      × (length es - first_index (λ u. before (t - default_investigation_window) u) es
          ≡ in_window es t)
unfolding first_index count_if in_half_open_window
window_tail [] t z a s = (omega arith, refl)
window_tail (e ∷ es) t z a s = elim (dec_lt (t - default_investigation_window) e) [
  | yes above' ↦
      let whole = all_inside (e ∷ es) t a (above', All-map (λ u le. omega arith) es s.0) in
      ground (arith, above', whole)
  | no below' ↦ ground (arith, below', window_tail es t z a.1 s.1)
]

pub snoc-IsSorted :
    (es : List Time) (t : Time) → IsSorted es → All (λ u. u ≤ t) es → IsSorted (es ++ t ∷ [])
snoc-IsSorted [] t s a = (tt, tt)
snoc-IsSorted (e ∷ es) t s a = (snoc-All (λ u. e ≤ u) es t s.0 a.0, snoc-IsSorted es t s.1 a.1)

-- The count that the search leaves above the window's lower end is the window's.
threshold_test :
    (es : List Time) (t : Time)
    → zero_time < t
    → IsSorted es
    → All (λ u. u ≤ t) es
    → length (es ++ t ∷ [])
        - search_slice (λ u. before (t - default_investigation_window) u) (es ++ t ∷ [])
      ≡ in_window (es ++ t ∷ []) t
threshold_test es t z so a =
    let whole = snoc-IsSorted es t so a in
    rw
      (search_slice_lem _ (es ++ t ∷ [])
        (IsSorted-Monotone (t - default_investigation_window) (es ++ t ∷ []) whole))
      (window_tail (es ++ t ∷ []) t z (snoc-All (λ u. u ≤ t) es t a (omega arith)) whole).1

kept_later :
    (es : List Time) (s t u : Time)
    → u ≤ t
    → s ≤ t
    → (s ≤ u) ⊎ (in_window es u < default_investigation_threshold)
    → (s ≤ u) ⊎ (in_window (es ++ t ∷ []) u < default_investigation_threshold)
kept_later es s t u le st (inl h) = inl h
kept_later es s t u le st (inr h) = elim (dec_lt u t) [
  | yes less ↦ inr (rw (window_snoc_later es u t less) h)
  | no not_less ↦ inl (omega arith)
]

kept_below :
    (es : List Time) (t u : Time)
    → u ≤ t
    → in_window (es ++ t ∷ []) t < default_investigation_threshold
    → in_window es u < default_investigation_threshold
    → in_window (es ++ t ∷ []) u < default_investigation_threshold
kept_below es t u le last h = elim (dec_lt u t) [
  | yes less ↦ rw (window_snoc_later es u t less) h
  | no not_less ↦ let same : u ≡ t = omega arith in rw same last
]

All-both : (P Q : Time → Type 0) (es : List Time) → All P es → All Q es → All (λ u. P u × Q u) es
All-both P Q [] a b = tt
All-both P Q (e ∷ es) a b = ((a.0, b.0), All-both P Q es a.1 b.1)

pub Any-All :
    (P Q : Time → Type 0) (es : List Time) → Any P es → All Q es → (u : Time) × (P u × Q u)
Any-All P Q [] h a = absurd h
Any-All P Q (e ∷ es) (inl p) a = (e, (p, a.0))
Any-All P Q (e ∷ es) (inr t) a = Any-All P Q es t a.1

-- The step at an eligible time `t`, when the earliest endpoint is known.
kept-Earliest :
    (es : List Time) (s t : Time)
    → s ≤ t
    → All (λ u. u ≤ t) es
    → Any (λ u. u ≡ s) es
    → Qualifies es s
    → All (λ u. (s ≤ u) ⊎ (in_window es u < default_investigation_threshold)) es
    → Earliest (es ++ t ∷ []) s
kept-Earliest es s t st a here q first = inr (
  snoc-Any _ es t here,
  omega (arith, window_snoc_le es s t),
  snoc-All _ es t (All-map (λ u h. kept_later es s t u h.0 st h.1) es (All-both _ _ es a first))
      (inl st),
)

-- The step at an eligible time `t`, when no endpoint qualified before.
fresh-Earliest :
    (es : List Time) (t : Time)
    → All (λ u. u ≤ t) es
    → All (λ u. in_window es u < default_investigation_threshold) es
    → Earliest
        (es ++ t ∷ [])
        (if leb default_investigation_threshold (in_window (es ++ t ∷ []) t) then t else zero_time)
fresh-Earliest es t a none_yet =
    elim (Bool-cases (leb default_investigation_threshold (in_window (es ++ t ∷ []) t))) [
      | inl full ↦ rw full (
          inr (
            snoc-Any_last (λ u. u ≡ t) es t refl,
            leb→le _ _ full,
            snoc-All _ es t
                (All-map (λ u h. kept_later es t t u h.0 (omega arith) (inr h.1)) es
                  (All-both _ _ es a none_yet))
                (inl (omega arith)),
          ))
      | inr short ↦
          let last : in_window (es ++ t ∷ []) t < default_investigation_threshold =
            leb→lt _ _ short in
          rw short (
            inl (
              refl,
              snoc-All _ es t
                  (All-map (λ u h. kept_below es t u h.0 last h.1) es (All-both _ _ es a none_yet))
                  last,
            ))
    ]

-- The step at an eligible time `t`.
pub satisfied_after-Earliest :
    (es : List Time) (s t : Time)
    → zero_time < t
    → IsSorted es
    → All (λ u. u ≤ t) es
    → All (λ u. zero_time < u) es
    → Earliest es s
    → Earliest (es ++ t ∷ []) (satisfied_after (es ++ t ∷ []) s t)
unfolding satisfied_after
satisfied_after-Earliest es s t z so a l (inl (e, none_yet)) =
    rw e (rw (threshold_test es t z so a) (fresh-Earliest es t a none_yet))
satisfied_after-Earliest es s t z so a l (inr (here, q, first)) =
    let at = Any-All _ _ es here (All-both _ _ es a l) in
    let st : s ≤ t = omega (arith, at.1.0, at.1.1.0) in
    let live : (s == zero_time) ≡ false = ground (arith, at.1.0, at.1.1.1) in
    rw live (kept-Earliest es s t st a here q first)
