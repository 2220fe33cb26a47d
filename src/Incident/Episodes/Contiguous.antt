-- ===== src/Incident/Episodes/Contiguous.antt =====
-- incident.go, `foldEpisodes`: the episodes' records against the reconstruction order.
use mathlib.Core.List.{append_assoc, append-nil}
use cockroachdbxaws.Base.{
  ℕ, ◌≡◌, refl, ap, sym, ◌∙◌, Text, false, inl, inr, List, [], ◌∷◌, ◌++◌, map, All, text_eq,
  text_eq→eq, Bool-cases, arith,
}
use cockroachdbxaws.Incident.Logs.{NormalizedLog, deployment_id}
use cockroachdbxaws.Incident.Generation.{
  Generation, new_generation, add_contribution, put_log, has_log,
}
use cockroachdbxaws.Incident.Episodes.{starts_episode, fold_record, fold_records}

-- The records of the episodes one after the other, each with the deployment of its episode.
unfoldable pub filed_under : Text → List NormalizedLog → List (Text × NormalizedLog)
filed_under deployment [] = []
filed_under deployment (r ∷ rs) = (deployment, r) ∷ filed_under deployment rs

unfoldable pub filed : List Generation → List (Text × NormalizedLog)
filed [] = []
filed (g ∷ gs) = filed_under g.deployment g.records ++ filed gs

abbrev pub own : NormalizedLog → Text × NormalizedLog
own r = (deployment_id r, r)

-- An episode's times are those of its records, in the same order.
abbrev pub Timed : Generation → Type 0
Timed g = g.times ≡ map (λ (r : NormalizedLog). r.event_time) g.records

-- No two records have one identity.
abbrev pub Apart : List NormalizedLog → Type 0
Apart [] = Unit {0}
Apart (r ∷ rs) = All (λ x. text_eq r.record_id x.record_id ≡ false) rs × Apart rs

abbrev Fresh : List Generation → NormalizedLog → Type 0
Fresh gs r = All (λ (g : Generation). has_log r.record_id g.records ≡ false) gs

put_log-snoc :
    (r : NormalizedLog) (xs : List NormalizedLog)
    → has_log r.record_id xs ≡ false
    → put_log r xs ≡ xs ++ r ∷ []
unfolding put_log has_log
put_log-snoc r [] h = refl
put_log-snoc r (x ∷ xs) h =
    let other : text_eq x.record_id r.record_id ≡ false = ground arith in
    rw other (ap (λ ys. x ∷ ys) (put_log-snoc r xs (ground arith)))

has_log-snoc :
    (id : Text) (r : NormalizedLog) (xs : List NormalizedLog)
    → has_log id xs ≡ false
    → text_eq r.record_id id ≡ false
    → has_log id (xs ++ r ∷ []) ≡ false
unfolding has_log
has_log-snoc id r [] h k = rw k refl
has_log-snoc id r (x ∷ xs) h k = ground (arith, has_log-snoc id r xs)

filed_under-snoc :
    (d : Text) (rs : List NormalizedLog) (r : NormalizedLog)
    → filed_under d (rs ++ r ∷ []) ≡ filed_under d rs ++ (d, r) ∷ []
unfolding filed_under
filed_under-snoc d [] r = refl
filed_under-snoc d (x ∷ xs) r = ap (λ ps. (d, x) ∷ ps) (filed_under-snoc d xs r)

times-snoc :
    (rs : List NormalizedLog) (r : NormalizedLog)
    → map (λ (x : NormalizedLog). x.event_time) (rs ++ r ∷ [])
      ≡ map (λ (x : NormalizedLog). x.event_time) rs ++ r.event_time ∷ []
times-snoc [] r = refl
times-snoc (x ∷ xs) r = ap (λ ts. x.event_time ∷ ts) (times-snoc xs r)

same_deployment :
    (g : Generation) (r : NormalizedLog)
    → starts_episode g r ≡ false
    → g.deployment ≡ deployment_id r
unfolding starts_episode
same_deployment g r h = elim (Bool-cases (text_eq g.deployment (deployment_id r))) [
  | inl same ↦ text_eq→eq _ _ same
  | inr other ↦ cc
]

-- A record that no episode has yet is filed after the others, under its own deployment.
fold_record-filed :
    (number : ℕ) (gs : List Generation) (r : NormalizedLog)
    → Fresh gs r
    → filed (fold_record number gs r) ≡ filed gs ++ own r ∷ []
unfolding filed filed_under fold_record add_contribution new_generation put_log
fold_record-filed number [] r f = refl
fold_record-filed number (g ∷ []) r f = elim (Bool-cases (starts_episode g r)) [
  | inl new' ↦
      rw new' (ap (λ ps. ps ++ own r ∷ []) (sym (append-nil (filed_under g.deployment g.records))))
  | inr old' ↦
      rw (old', put_log-snoc r g.records f.0)
        (rw (sym (same_deployment g r old')) (
          append-nil _
          ∙ filed_under-snoc g.deployment g.records r
          ∙ ap (λ ps. ps ++ (g.deployment, r) ∷ []) (sym (append-nil _))))
]
fold_record-filed number (g ∷ h ∷ gs) r f =
    ap (λ ps. filed_under g.deployment g.records ++ ps) (fold_record-filed number (h ∷ gs) r f.1)
    ∙ sym (append_assoc (filed_under g.deployment g.records) (filed (h ∷ gs)) (own r ∷ []))

fold_record-Timed :
    (number : ℕ) (gs : List Generation) (r : NormalizedLog)
    → Fresh gs r
    → All Timed gs
    → All Timed (fold_record number gs r)
unfolding fold_record add_contribution new_generation put_log
fold_record-Timed number [] r f t = (refl, tt)
fold_record-Timed number (g ∷ []) r f t = elim (Bool-cases (starts_episode g r)) [
  | inl new' ↦ rw new' (t.0, (refl, tt))
  | inr old' ↦
      rw (old', put_log-snoc r g.records f.0)
        (ap (λ ts. ts ++ r.event_time ∷ []) t.0 ∙ sym (times-snoc g.records r), tt)
]
fold_record-Timed number (g ∷ h ∷ gs) r f t = (t.0, fold_record-Timed number (h ∷ gs) r f.1 t.1)

-- A record of another identity stays one that no episode has.
fold_record-Fresh :
    (number : ℕ) (gs : List Generation) (r x : NormalizedLog)
    → Fresh gs r
    → text_eq r.record_id x.record_id ≡ false
    → Fresh gs x
    → Fresh (fold_record number gs r) x
unfolding fold_record add_contribution new_generation put_log has_log
fold_record-Fresh number [] r x f o k = (rw o refl, tt)
fold_record-Fresh number (g ∷ []) r x f o k = elim (Bool-cases (starts_episode g r)) [
  | inl new' ↦ rw new' (k.0, (rw o refl, tt))
  | inr old' ↦
      rw (old', put_log-snoc r g.records f.0) (has_log-snoc x.record_id r g.records k.0 o, tt)
]
fold_record-Fresh number (g ∷ h ∷ gs) r x f o k =
    (k.0, fold_record-Fresh number (h ∷ gs) r x f.1 o k.1)

remain-Fresh :
    (gs : List Generation) (r : NormalizedLog) (rs : List NormalizedLog)
    → Fresh gs r
    → All (λ x. text_eq r.record_id x.record_id ≡ false) rs
    → All (Fresh gs) rs
    → All (Fresh (fold_record 0 gs r)) rs
remain-Fresh gs r [] f o k = tt
remain-Fresh gs r (x ∷ xs) f o k =
    (fold_record-Fresh 0 gs r x f o.0 k.0, remain-Fresh gs r xs f o.1 k.1)

fold_records-append :
    (gs : List Generation) (rs : List NormalizedLog)
    → Apart rs
    → All (Fresh gs) rs
    → All Timed gs
    → (filed (fold_records gs rs) ≡ filed gs ++ map own rs) × All Timed (fold_records gs rs)
unfolding fold_records
fold_records-append gs [] a f t = (sym (append-nil (filed gs)), t)
fold_records-append gs (r ∷ rs) a f t =
    let (rest, timed) =
      fold_records-append (fold_record 0 gs r) rs a.1 (remain-Fresh gs r rs f.0 a.0 f.1)
        (fold_record-Timed 0 gs r f.0 t) in
    (
      rest
          ∙ ap (λ ps. ps ++ map own rs) (fold_record-filed 0 gs r f.0)
          ∙ append_assoc (filed gs) (own r ∷ []) (map own rs),
      timed,
    )

no_episodes : (rs : List NormalizedLog) → All (Fresh []) rs
no_episodes [] = tt
no_episodes (r ∷ rs) = (tt, no_episodes rs)

-- Where no two records of the reconstruction order have one identity, the records of the folded episodes,
-- read one episode after the other, are that order, each once and under its own deployment, and the times
-- of every episode are those of its records.
pub fold_records-filed :
    (ordered : List NormalizedLog)
    → Apart ordered
    → (filed (fold_records [] ordered) ≡ map own ordered) × All Timed (fold_records [] ordered)
unfolding filed
fold_records-filed ordered a = fold_records-append [] ordered a (no_episodes ordered) tt
