-- ===== src/Incident/Episodes.antt =====
-- incident.go: folding the ordered records into episodes, the identities that the episodes adopt, and
-- the release of leading empty episodes.
use cockroachdbxaws.Base.{
  ℕ, zero, suc, ◌+◌, Text, text_eq, text_lt, Bool, true, false, not, ◌&&◌, ◌||◌, List, [], ◌∷◌,
  ◌++◌, length, any, Option, none, some, if◌then◌else◌, ltb, leb, ◌==◌,
}
use cockroachdbxaws.Incident.Logs.{
  Time, zero_time, is_zero_time, before, NormalizedLog, deployment_id, bounded_activity,
  default_reopen_window,
}
use cockroachdbxaws.Incident.Generation.{Generation, new_generation, add_contribution, has_log}
pub mod Contiguous
pub mod Membership

-- A record does not continue the episode `g`.
unfoldable pub starts_episode : Generation → NormalizedLog → Bool
starts_episode g r =
    not (text_eq g.deployment (deployment_id r))
    || not (before (bounded_activity r) (g.last_activity + default_reopen_window))

-- One round of the loop, at the generations so far; `number` is that of a new generation.
unfoldable pub fold_record : ℕ → List Generation → NormalizedLog → List Generation
fold_record number [] r = add_contribution (new_generation number (deployment_id r)) r ∷ []
fold_record number (g ∷ []) r =
    if starts_episode g r
    then g ∷ add_contribution (new_generation number (deployment_id r)) r ∷ []
    else add_contribution g r ∷ []
fold_record number (g ∷ h ∷ gs) r = g ∷ fold_record number (h ∷ gs) r

unfoldable pub fold_records : List Generation → List NormalizedLog → List Generation
fold_records gs [] = gs
fold_records gs (r ∷ rs) = fold_records (fold_record 0 gs r) rs

unfoldable pub adopt : Generation → Generation → Generation
adopt g prior =
    if not (is_zero_time prior.first_occurrence)
      && (is_zero_time g.first_occurrence || before prior.first_occurrence g.first_occurrence)
    then record g { first_occurrence = prior.first_occurrence }
    else g

unfoldable pub shell_of : Generation → Generation
shell_of prior = record (new_generation 0 prior.deployment) {
  first_occurrence = prior.first_occurrence;
  latest_occurrence = prior.latest_occurrence;
  max_event_time = prior.max_event_time;
  last_activity = prior.last_activity;
}

-- `f.retainsAnyOf(g)`: some record of `g` is in `f.events`.
abbrev pub retains_any_of : List NormalizedLog → Generation → Bool
retains_any_of events g = any (λ r. has_log r.record_id events) g.records

-- The least index from `cursor` on of a prior generation that holds a record of `g`: the inner loop.
-- A record is in one generation only, so `assigned` is read from the prior generations.
unfoldable pub adopted_index : ℕ → ℕ → List Generation → Generation → Option ℕ
adopted_index at cursor [] g = none
adopted_index at cursor (p ∷ ps) g =
    if leb cursor at && any (λ r. has_log r.record_id p.records) g.records
    then some at
    else adopted_index (suc at) cursor ps g

unfoldable pub nth_adopt : Generation → List Generation → ℕ → Generation
nth_adopt g [] i = g
nth_adopt g (p ∷ ps) zero = adopt g p
nth_adopt g (p ∷ ps) (suc i) = nth_adopt g ps i

-- The outer loop over the folded generations: the generations with their adopted identities, and the
-- indexes of the prior generations that were adopted.
unfoldable pub adopt_loop : List Generation → ℕ → List Generation → List Generation × List ℕ
adopt_loop prior cursor [] = ([], [])
adopt_loop prior cursor (g ∷ gs) = elim (adopted_index 0 cursor prior g) [
  | none ↦ let rest = adopt_loop prior cursor gs in (g ∷ rest.0, rest.1)
  | some i ↦ let rest = adopt_loop prior (suc i) gs in (nth_adopt g prior i ∷ rest.0, i ∷ rest.1)
]

unfoldable pub shells : List NormalizedLog → List ℕ → ℕ → List Generation → List Generation
shells events adopted at [] = []
shells events adopted at (p ∷ ps) =
    let rest = shells events adopted (suc at) ps in
    if any (λ i. i == at) adopted || retains_any_of events p then rest else shell_of p ∷ rest

unfoldable pub starts_before : Generation → Generation → Bool
starts_before g h =
    if not (g.first_occurrence == h.first_occurrence)
    then before g.first_occurrence h.first_occurrence
    else text_lt g.deployment h.deployment

-- `sort.SliceStable`: an element goes before the later ones that are not less than it.
unfoldable pub insert_generation : Generation → List Generation → List Generation
insert_generation g [] = g ∷ []
insert_generation g (h ∷ hs) = if starts_before h g then h ∷ insert_generation g hs else g ∷ h ∷ hs

unfoldable pub sort_generations : List Generation → List Generation
sort_generations [] = []
sort_generations (g ∷ gs) = insert_generation g (sort_generations gs)

-- `foldEpisodes` over `f.ordered`, `f.events` and the prior generations.
unfoldable pub fold_episodes :
    List NormalizedLog → List NormalizedLog → List Generation → List Generation
fold_episodes ordered events prior =
    let adopted = adopt_loop prior 0 (fold_records [] ordered) in
    sort_generations (adopted.0 ++ shells events adopted.1 0 prior)

-- The leading run of generations with neither records nor evidence: how many, and what is left.
unfoldable pub release_leading_empty : List Generation → ℕ × List Generation
release_leading_empty [] = (0, [])
release_leading_empty (g ∷ gs) =
    let rest = release_leading_empty gs in
    if not (length g.records == 0) || not (length g.evidence == 0)
    then (0, g ∷ gs)
    else (suc rest.0, rest.1)
