-- ===== src/Incident/Engine/Transitions/Order.antt =====
-- The reconstruction order of a family under insertion.
use mathlib.Core.List.{Perm}
use cockroachdbxaws.Base.{
  ◌≡◌, refl, Text, text_eq, text_eq→eq, text_lt, Bool, true, false, not, List, [], ◌∷◌, length, All,
  All-map, inl, inr, if◌then◌else◌, arith, Bool-cases,
}
use cockroachdbxaws.Incident.Logs.{NormalizedLog, sorts_before, deployment_id}
use cockroachdbxaws.Incident.Search.{insert_at}
use cockroachdbxaws.Incident.Search.Slices.{
  first_index, Monotone, search_slice_lem, insert_at-perm, insert_at-All,
}
use cockroachdbxaws.Incident.Engine.Transitions.{insert}
use cockroachdbxaws.Incident.Engine.Advance.Retention.{ByTime}

text_lt_asym : (a b : Text) → text_lt a b ≡ true → text_lt b a ≡ false
unfolding text_lt
text_lt_asym a [] h = cc
text_lt_asym [] (b ∷ bs) h = refl
text_lt_asym (a ∷ as') (b ∷ bs) h = ground (arith, text_lt_asym as' bs)

text_lt_trans : (a b c : Text) → text_lt a b ≡ false → text_lt b c ≡ false → text_lt a c ≡ false
unfolding text_lt
text_lt_trans a b [] h k = refl
text_lt_trans a [] (c ∷ cs) h k = cc
text_lt_trans [] (b ∷ bs) (c ∷ cs) h k = cc
text_lt_trans (a ∷ as') (b ∷ bs) (c ∷ cs) h k = ground (arith, text_lt_trans as' bs cs)

text_antisym : (a b : Text) → text_lt a b ≡ false → text_lt b a ≡ false → text_eq a b ≡ true
unfolding text_lt text_eq
text_antisym [] [] h k = refl
text_antisym [] (b ∷ bs) h k = cc
text_antisym (a ∷ as') [] h k = cc
text_antisym (a ∷ as') (b ∷ bs) h k = ground (arith, text_antisym as' bs)

text_eq_swap : (a b : Text) → text_eq a b ≡ text_eq b a
unfolding text_eq
text_eq_swap [] [] = refl
text_eq_swap [] (b ∷ bs) = refl
text_eq_swap (a ∷ as') [] = refl
text_eq_swap (a ∷ as') (b ∷ bs) = ground (arith, text_eq_swap as' bs)

-- The order on the deployments and then on the identifiers.
abbrev pair_lt : Text → Text → Text → Text → Bool
pair_lt d r e s = if not (text_eq d e) then text_lt d e else text_lt r s

pair_asym : (d r e s : Text) → pair_lt d r e s ≡ true → pair_lt e s d r ≡ false
pair_asym d r e s h = elim (Bool-cases (text_eq d e)) [
  | inl same ↦ ground (arith, text_eq_swap d e, text_lt_asym r s)
  | inr other ↦ ground (arith, text_eq_swap d e, text_lt_asym d e)
]

pair_trans :
    (d r e s f t : Text)
    → pair_lt d r e s ≡ false
    → pair_lt e s f t ≡ false
    → pair_lt d r f t ≡ false
pair_trans d r e s f t h k = elim (Bool-cases (text_eq d e)) [
  | inl same ↦ let q : d ≡ e = text_eq→eq d e same in ground (arith, q, same, text_lt_trans r s t)
  | inr other ↦ elim (Bool-cases (text_eq e f)) [
    | inl same ↦ let q : e ≡ f = text_eq→eq e f same in ground (arith, q, same, other)
    | inr also ↦ elim (Bool-cases (text_eq d f)) [
      | inl same ↦
          let q : d ≡ f = text_eq→eq d f same in
          ground (arith, q, same, text_antisym d e, text_eq_swap d e)
      | inr apart ↦ ground (arith, text_lt_trans d e f)
    ]
  ]
]

sorts_before_asym : (a b : NormalizedLog) → sorts_before a b ≡ true → sorts_before b a ≡ false
unfolding sorts_before
sorts_before_asym a b h =
    ground (arith, pair_asym (deployment_id a) a.record_id (deployment_id b) b.record_id)

sorts_before_trans :
    (a b c : NormalizedLog)
    → sorts_before a b ≡ false
    → sorts_before b c ≡ false
    → sorts_before a c ≡ false
unfolding sorts_before
sorts_before_trans a b c h k = ground (
  arith,
  pair_trans (deployment_id a) a.record_id (deployment_id b) b.record_id (deployment_id c)
      c.record_id,
)

-- No record sorts before an earlier one.
abbrev pub InReconstructionOrder : List NormalizedLog → Type 0
InReconstructionOrder [] = Unit {0}
InReconstructionOrder (r ∷ rs) = All (λ x. sorts_before x r ≡ false) rs × InReconstructionOrder rs

abbrev not_before : NormalizedLog → NormalizedLog → Bool
not_before r x = not (sorts_before x r)

order-Monotone :
    (r : NormalizedLog) (rs : List NormalizedLog)
    → InReconstructionOrder rs
    → Monotone (not_before r) rs
order-Monotone r [] o = tt
order-Monotone r (x ∷ xs) o = (
  λ h.
      All-map {Q = λ y. not_before r y ≡ true}
        (λ y le. rw (sorts_before_trans y x r le (ground (arith, h))) refl) xs o.0,
  order-Monotone r xs o.1,
)

insert-order :
    (r : NormalizedLog) (rs : List NormalizedLog)
    → InReconstructionOrder rs
    → InReconstructionOrder (insert_at (first_index (not_before r) rs) r rs)
unfolding insert_at first_index
insert-order r [] o = (tt, tt)
insert-order r (x ∷ xs) o = elim (Bool-cases (sorts_before x r)) [
  | inl less ↦ rw less (
    insert_at-All (λ y. sorts_before y x ≡ false) _ r xs (sorts_before_asym x r less) o.0,
    insert-order r xs o.1,
  )
  | inr no' ↦ rw no' ((no', All-map (λ y le. sorts_before_trans y x r le no') xs o.0), o)
]

at_end-All :
    (r : NormalizedLog) (rs : List NormalizedLog)
    → first_index (not_before r) rs ≡ length rs
    → All (λ x. sorts_before x r ≡ true) rs
unfolding first_index
at_end-All r [] h = tt
at_end-All r (x ∷ xs) h = elim (Bool-cases (sorts_before x r)) [
  | inl less ↦ (less, at_end-All r xs (ground (arith, h, less)))
  | inr no' ↦ absurd (ground (arith, h, no'))
]

order-ByTime : (rs : List NormalizedLog) → InReconstructionOrder rs → ByTime rs
unfolding sorts_before
order-ByTime [] o = tt
order-ByTime (r ∷ rs) o = (All-map (λ x h. ground (arith, h)) rs o.0, order-ByTime rs o.1)

-- Inserting a record keeps the reconstruction order, which is an event-time order, and adds the record
-- to it; when the insertion reports the end, every record that was there sorts before the new one.
pub insert-InReconstructionOrder :
    (ordered : List NormalizedLog) (r : NormalizedLog)
    → InReconstructionOrder ordered
    → InReconstructionOrder (insert ordered r).0
      × ByTime (insert ordered r).0
      × Perm (insert ordered r).0 (r ∷ ordered)
      × ((insert ordered r).1 ≡ true → All (λ x. sorts_before x r ≡ true) ordered)
unfolding insert
insert-InReconstructionOrder ordered r o =
    let found = search_slice_lem (not_before r) ordered (order-Monotone r ordered o) in
    let kept = insert-order r ordered o in
    rw found (
      kept,
      order-ByTime _ kept,
      insert_at-perm _ r ordered,
      λ h. at_end-All r ordered (ground (arith, h)),
    )
