-- ===== src/Incident/Window/Counts.antt =====
-- The binary-search count of a window against counting the members, and sortedness under insertion.
use mathlib.Core.List.{Perm}
use cockroachdbxaws.Base.{
  ℕ, suc, ◌-◌, ◌≤◌, ◌<◌, ◌≡◌, refl, Bool, false, inl, inr, List, [], ◌∷◌, All, All-map, arith,
  Bool-cases, ltb→lt, ltb→le, if◌then◌else◌,
}
use cockroachdbxaws.Incident.Logs.{Time, before, is_zero_time, default_investigation_window}
use cockroachdbxaws.Incident.Search.{insert_at}
use cockroachdbxaws.Incident.Search.Slices.{
  first_index, Monotone, search_slice_lem, insert_at-perm, insert_at-All,
}
use cockroachdbxaws.Incident.Window.{in_half_open_window, count_in_sorted_window, insert_time}

abbrev pub IsSorted : List Time → Type 0
IsSorted [] = Unit {0}
IsSorted (t ∷ ts) = All (λ u. t ≤ u) ts × IsSorted ts

unfoldable pub count_if {ℓ} : {A : Type ℓ} → (A → Bool) → List A → ℕ
count_if p [] = 0
count_if p (x ∷ xs) = if p x then suc (count_if p xs) else count_if p xs

-- `t.After(bound)` is monotone along sorted times.
pub IsSorted-Monotone :
    (bound : Time) (ts : List Time) → IsSorted ts → Monotone (λ t. before bound t) ts
IsSorted-Monotone bound [] s = tt
IsSorted-Monotone bound (t ∷ ts) s =
    (λ h. All-map (λ u le. ground arith) ts s.0, IsSorted-Monotone bound ts s.1)

abbrev after_index : Time → List Time → ℕ
after_index bound = first_index (λ t. before bound t)

after_index_zero :
    (bound t : Time) (ts : List Time) → bound < t → All (λ u. t ≤ u) ts → after_index bound ts ≡ 0
unfolding first_index
after_index_zero bound t [] h a = refl
after_index_zero bound t (u ∷ us) h a = ground arith

abbrev inside : Time → Time → Time → Bool
inside lower upper t = if before upper t then false else before lower t

nothing_inside :
    (lower upper t : Time) (ts : List Time)
    → upper < t
    → All (λ u. t ≤ u) ts
    → count_if (inside lower upper) ts ≡ 0
unfolding count_if
nothing_inside lower upper t [] h a = refl
nothing_inside lower upper t (u ∷ us) h a = ground (arith, nothing_inside lower upper t us h a.1)

between :
    (lower upper : Time) (ts : List Time)
    → lower ≤ upper
    → IsSorted ts
    → (after_index lower ts ≤ after_index upper ts)
      × (after_index upper ts - after_index lower ts ≡ count_if (inside lower upper) ts)
unfolding first_index count_if
between lower upper [] h s = (omega arith, refl)
between lower upper (t ∷ ts) h s =
    let ih = between lower upper ts h s.1 in
    ground (
      arith,
      ih,
      after_index_zero lower t ts,
      after_index_zero upper t ts,
      nothing_inside lower upper t ts,
    )

-- The count by two binary searches over sorted times is the number of them inside the half-open
-- window that ends at the watermark, and 0 at the zero watermark.
pub count_in_sorted_window_lem :
    (ts : List Time) (watermark : Time)
    → IsSorted ts
    → count_in_sorted_window ts watermark ≡ (
        if is_zero_time watermark
        then 0
        else count_if (λ t. in_half_open_window t watermark default_investigation_window) ts)
unfolding count_in_sorted_window in_half_open_window
count_in_sorted_window_lem ts w s =
    let both = between (w - default_investigation_window) w ts (omega arith) s in
    rw (search_slice_lem _ ts (IsSorted-Monotone (w - default_investigation_window) ts s))
      (rw (search_slice_lem _ ts (IsSorted-Monotone w ts s)) (ground (arith, both)))

insert_IsSorted :
    (t : Time) (ts : List Time) → IsSorted ts → IsSorted (insert_at (after_index t ts) t ts)
unfolding first_index insert_at
insert_IsSorted t [] s = (tt, tt)
insert_IsSorted t (u ∷ us) s = elim (Bool-cases (before t u)) [
  | inl later ↦ rw later (
    (omega (arith, ltb→lt t u later), All-map (λ x le. omega (arith, ltb→lt t u later)) us s.0),
    s,
  )
  | inr first ↦ rw first (
    insert_at-All (λ x. u ≤ x) (after_index t us) t us (omega (arith, ltb→le t u first)) s.0,
    insert_IsSorted t us s.1,
  )
]

-- Inserting an event time keeps the times sorted, and adds it to them.
pub insert_time-IsSorted :
    (ts : List Time) (t : Time)
    → IsSorted ts
    → IsSorted (insert_time ts t) × Perm (insert_time ts t) (t ∷ ts)
unfolding insert_time
insert_time-IsSorted ts t s = (
  rw (search_slice_lem _ ts (IsSorted-Monotone t ts s)) (insert_IsSorted t ts s),
  insert_at-perm _ t ts,
)
