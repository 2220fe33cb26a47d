-- ===== src/Admission/Capacity/Counting.antt =====
-- The counters over a batch of decisions.
use cockroachdbxaws.Base.{ℕ, ◌+◌, ◌%◌, ◌^◌, List, [], ◌∷◌, map, ◌≡◌, arith}
use cockroachdbxaws.Admission.Classifier.{Record, Classification}
use cockroachdbxaws.Admission.Capacity.{
  CapacityPolicy, CapacityState, Action, CapacityResult, Counters, shed, backpressure, with_result,
  decide,
}

-- A batch of requests, each with its own observation of the journal.
pub record Request : Type 0 where
  pub log : Record
  pub classification : Classification
  pub state : CapacityState

abbrev pub decisions : CapacityPolicy → List Request → List CapacityResult
decisions p = map λ q. decide p q.log q.classification q.state

pub tally : Counters → List CapacityResult → Counters
tally c [] = c
tally c (result ∷ results) = tally (with_result c result) results

abbrev is_shed : Action → ℕ
is_shed shed = 1
is_shed _ = 0

abbrev is_backpressure : Action → ℕ
is_backpressure backpressure = 1
is_backpressure _ = 0

abbrev pub sheds : List CapacityResult → ℕ
sheds [] = 0
sheds (x ∷ xs) = is_shed x.action + sheds xs

abbrev pub backpressures : List CapacityResult → ℕ
backpressures [] = 0
backpressures (x ∷ xs) = is_backpressure x.action + backpressures xs

count_step :
    (p : CapacityPolicy) (q : Request) (c : Counters)
    → let d = decide p q.log q.classification q.state in
      ((with_result c d).dropped_count % 2 ^ 64 ≡ (c.dropped_count + is_shed d.action) % 2 ^ 64)
      × ((with_result c d).backpressured_count % 2 ^ 64
          ≡ (c.backpressured_count + is_backpressure d.action) % 2 ^ 64)
unfolding decide with_result
count_step p q c = ground arith

-- Counting the results of any batch adds the number of shed and of backpressured records to the
-- counters, modulo 2 ^ 64.
pub tally-decisions :
    (p : CapacityPolicy) (c : Counters) (qs : List Request)
    → ((tally c (decisions p qs)).dropped_count % 2 ^ 64
        ≡ (c.dropped_count + sheds (decisions p qs)) % 2 ^ 64)
      × ((tally c (decisions p qs)).backpressured_count % 2 ^ 64
          ≡ (c.backpressured_count + backpressures (decisions p qs)) % 2 ^ 64)
unfolding tally
tally-decisions p c [] = (omega arith, omega arith)
tally-decisions p c (q ∷ qs) =
    let d = decide p q.log q.classification q.state in
    let ih = tally-decisions p (with_result c d) qs in
    let st = count_step p q c in (omega arith, omega arith)
