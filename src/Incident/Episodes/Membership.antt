-- ===== src/Incident/Episodes/Membership.antt =====
-- incident.go, `foldEpisodes`: the episode that holds a record.
use cockroachdbxaws.Base.{
  ℕ, zero, suc, ◌≡◌, refl, Text, text_eq, text_eq_refl, text_eq→eq, true, false, not, ◌||◌, List,
  [], ◌∷◌, ◌++◌, length, Any, inl, inr, arith, Bool-cases, Option-cases, ◌==◌,
}
use cockroachdbxaws.Incident.Logs.{NormalizedLog}
use cockroachdbxaws.Incident.Generation.{
  Generation, new_generation, add_contribution, put_log, has_log,
}
use cockroachdbxaws.Incident.Episodes.{
  fold_record, fold_records, starts_episode, adopt, nth_adopt, adopt_loop, adopted_index,
  insert_generation, sort_generations, starts_before, fold_episodes, release_leading_empty,
}

-- Some generation has the identifier among its contributing records.
abbrev pub Contains : Text → List Generation → Type 0
Contains id gs = Any (λ g. has_log id g.records ≡ true) gs

pub has_log-put_log :
    (r : NormalizedLog) (xs : List NormalizedLog) → has_log r.record_id (put_log r xs) ≡ true
unfolding has_log put_log
has_log-put_log r [] = rw (text_eq_refl r.record_id) refl
has_log-put_log r (x ∷ xs) = ground (arith, text_eq_refl r.record_id, has_log-put_log r xs)

pub put_log-has_log :
    (id : Text) (r : NormalizedLog) (xs : List NormalizedLog)
    → has_log id xs ≡ true
    → has_log id (put_log r xs) ≡ true
unfolding has_log put_log
put_log-has_log id r [] h = cc
put_log-has_log id r (x ∷ xs) h = elim (Bool-cases (text_eq x.record_id r.record_id)) [
  | inl same ↦ rw same (rw⁻¹ (text_eq→eq _ _ same) h)
  | inr other ↦ rw other (elim (Bool-cases (text_eq x.record_id id)) [
    | inl here ↦ rw here refl
    | inr there ↦ rw there (put_log-has_log id r xs (cc (h, there)))
  ])
]

fold_record-new :
    (number : ℕ) (gs : List Generation) (r : NormalizedLog)
    → Contains r.record_id (fold_record number gs r)
unfolding fold_record add_contribution new_generation
fold_record-new number [] r = inl (has_log-put_log r [])
fold_record-new number (g ∷ []) r = elim (Bool-cases (starts_episode g r)) [
  | inl new' ↦ rw new' (inr (inl (has_log-put_log r [])))
  | inr old' ↦ rw old' (inl (has_log-put_log r g.records))
]
fold_record-new number (g ∷ h ∷ gs) r = inr (fold_record-new number (h ∷ gs) r)

fold_record-old :
    (id : Text) (number : ℕ) (gs : List Generation) (r : NormalizedLog)
    → Contains id gs
    → Contains id (fold_record number gs r)
unfolding fold_record add_contribution
fold_record-old id number [] r c = absurd c
fold_record-old id number (g ∷ []) r (inl h) = elim (Bool-cases (starts_episode g r)) [
  | inl new' ↦ rw new' (inl h)
  | inr old' ↦ rw old' (inl (put_log-has_log id r g.records h))
]
fold_record-old id number (g ∷ []) r (inr h) = absurd h
fold_record-old id number (g ∷ h ∷ gs) r (inl e) = inl e
fold_record-old id number (g ∷ h ∷ gs) r (inr c) = inr (fold_record-old id number (h ∷ gs) r c)

fold_records-old :
    (id : Text) (gs : List Generation) (rs : List NormalizedLog)
    → Contains id gs
    → Contains id (fold_records gs rs)
unfolding fold_records
fold_records-old id gs [] c = c
fold_records-old id gs (r ∷ rs) c =
    fold_records-old id (fold_record 0 gs r) rs (fold_record-old id 0 gs r c)

pub fold_records-Contains :
    (id : Text) (gs : List Generation) (rs : List NormalizedLog)
    → Any (λ r. r.record_id ≡ id) rs
    → Contains id (fold_records gs rs)
unfolding fold_records
fold_records-Contains id gs [] a = absurd a
fold_records-Contains id gs (r ∷ rs) (inl e) =
    fold_records-old id (fold_record 0 gs r) rs (rw⁻¹ e (fold_record-new 0 gs r))
fold_records-Contains id gs (r ∷ rs) (inr a) = fold_records-Contains id (fold_record 0 gs r) rs a

nth_adopt-records :
    (g : Generation) (ps : List Generation) (i : ℕ) → (nth_adopt g ps i).records ≡ g.records
unfolding nth_adopt adopt
nth_adopt-records g [] i = refl
nth_adopt-records g (p ∷ ps) zero = ground arith
nth_adopt-records g (p ∷ ps) (suc i) = nth_adopt-records g ps i

adopt_loop-Contains :
    (id : Text) (prior : List Generation) (cursor : ℕ) (gs : List Generation)
    → Contains id gs
    → Contains id (adopt_loop prior cursor gs).0
unfolding adopt_loop
adopt_loop-Contains id prior cursor [] c = absurd c
adopt_loop-Contains id prior cursor (g ∷ gs) c =
    elim (Option-cases (adopted_index 0 cursor prior g)) [
      | inl none' ↦
          rw (none', adopt_loop)
            (elim c [ inl h ↦ inl h | inr t ↦ inr (adopt_loop-Contains id prior cursor gs t) ])
      | inr some' ↦
          rw (some'.1, adopt_loop)
            (elim c [
              | inl h ↦ inl (rw (nth_adopt-records g prior some'.0) h)
              | inr t ↦ inr (adopt_loop-Contains id prior (suc some'.0) gs t)
            ])
    ]

append-Contains : (id : Text) (gs hs : List Generation) → Contains id gs → Contains id (gs ++ hs)
append-Contains id [] hs c = absurd c
append-Contains id (g ∷ gs) hs (inl h) = inl h
append-Contains id (g ∷ gs) hs (inr t) = inr (append-Contains id gs hs t)

insert_generation-Contains :
    (id : Text) (g : Generation) (gs : List Generation)
    → Contains id (g ∷ gs)
    → Contains id (insert_generation g gs)
unfolding insert_generation
insert_generation-Contains id g [] c = c
insert_generation-Contains id g (h ∷ hs) c = elim (Bool-cases (starts_before h g)) [
  | inl before' ↦ rw before' (elim c [
    | inl e ↦ inr (insert_generation-Contains id g hs (inl e))
    | inr (inl e) ↦ inl e
    | inr (inr t) ↦ inr (insert_generation-Contains id g hs (inr t))
  ])
  | inr after' ↦ rw after' c
]

sort_generations-Contains :
    (id : Text) (gs : List Generation) → Contains id gs → Contains id (sort_generations gs)
unfolding sort_generations
sort_generations-Contains id [] c = absurd c
sort_generations-Contains id (g ∷ gs) (inl h) =
    insert_generation-Contains id g (sort_generations gs) (inl h)
sort_generations-Contains id (g ∷ gs) (inr t) =
    insert_generation-Contains id g (sort_generations gs) (inr (sort_generations-Contains id gs t))

-- Every record of the reconstruction order is a contributing record of some rebuilt episode.
pub fold_episodes-Contains :
    (ordered events : List NormalizedLog) (prior : List Generation) (id : Text)
    → Any (λ r. r.record_id ≡ id) ordered
    → Contains id (fold_episodes ordered events prior)
unfolding fold_episodes
fold_episodes-Contains ordered events prior id a = sort_generations-Contains id _ (
    append-Contains id _ _ (
      adopt_loop-Contains id prior 0 (fold_records [] ordered)
        (fold_records-Contains id [] ordered a)))

nonempty : (id : Text) (xs : List NormalizedLog) → has_log id xs ≡ true → (length xs == 0) ≡ false
unfolding has_log
nonempty id [] h = cc
nonempty id (x ∷ xs) h = ground arith

pub release-Contains :
    (id : Text) (gs : List Generation) → Contains id gs → Contains id (release_leading_empty gs).1
unfolding release_leading_empty has_log
release-Contains id [] c = absurd c
release-Contains id (g ∷ gs) (inl h) = rw (nonempty id g.records h) (inl h)
release-Contains id (g ∷ gs) (inr t) =
    elim (Bool-cases (not (length g.records == 0) || not (length g.evidence == 0))) [
      | inl kept ↦ rw kept (inr t)
      | inr gone ↦ rw gone (release-Contains id gs t)
    ]
