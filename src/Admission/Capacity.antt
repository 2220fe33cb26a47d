-- ===== src/Admission/Capacity.antt =====
-- admission/capacity.go: the pre-journal shedding policy. A uint64 is a number below 2 ^ 64 and a
-- uint8 one below 2 ^ 8; sums and products keep their wrap-around.
use cockroachdbxaws.Base.{
  ℕ, ◌+◌, ◌*◌, ◌/◌, ◌%◌, ◌^◌, Text, text_eq, Bool, true, false, not, ◌&&◌, ◌||◌, List, [], ◌∷◌,
  if◌then◌else◌, ltb, leb, ◌==◌,
}
use cockroachdbxaws.Model.{SourceType, severity_class_debug, severity_class_info}
use cockroachdbxaws.Admission.Classifier.{Record, Classification}
pub mod Threshold
pub mod Policy
pub mod Counting

pub record CapacityPolicy : Type 0 where
  pub near_capacity_percent : ℕ  -- uint8
  pub eligible_sources : List SourceType

pub record CapacityState : Type 0 where
  pub used : ℕ  -- uint64
  pub capacity : ℕ  -- uint64
  pub can_persist : Bool

pub data Action : Type 0 where
  admit shed backpressure : Action

pub data Counter : Type 0 where
  no_counter dropped backpressured : Counter

pub record CapacityResult : Type 0 where
  pub action : Action
  pub acknowledged : Bool
  pub retryable : Bool
  pub counter : Counter

pub record Counters : Type 0 where
  pub dropped_count : ℕ  -- uint64
  pub backpressured_count : ℕ  -- uint64

abbrev pub u64 : ℕ → ℕ
u64 n = n % 2 ^ 64

-- `Counters.With`.
count_with : Counter → Counters → Counters
count_with dropped c = record c { dropped_count = u64 (c.dropped_count + 1) }
count_with backpressured c = record c { backpressured_count = u64 (c.backpressured_count + 1) }
count_with no_counter c = c

pub with_result : Counters → CapacityResult → Counters
unfolding count_with
with_result c result = count_with result.counter c

pub is_eligible : List SourceType → SourceType → Bool
is_eligible [] s = false
is_eligible (source ∷ sources) s = text_eq source s || is_eligible sources s

pub may_shed : CapacityPolicy → Record → Classification → Bool
may_shed p r c =
    if c.protected || not c.certain || r.security || r.event_triggering
    then false
    else if not (text_eq r.severity severity_class_debug)
        && not (text_eq r.severity severity_class_info)
    then false
    else is_eligible p.eligible_sources r.source

-- `(Capacity/100)*percent + ((Capacity%100)*percent+99)/100`.
pub threshold_of : ℕ → ℕ → ℕ
threshold_of capacity percent =
    u64 (u64 (capacity / 100 * percent) + u64 (u64 (capacity % 100 * percent) + 99) / 100)

pub near_capacity : CapacityPolicy → CapacityState → Bool
near_capacity p s =
    if (s.capacity == 0) || (p.near_capacity_percent == 0) || ltb 100 p.near_capacity_percent
    then false
    else if leb 1 (s.used / s.capacity)
    then true
    else leb (threshold_of s.capacity p.near_capacity_percent) (s.used % s.capacity)

abbrev shed_result : CapacityResult
shed_result = record { action = shed; acknowledged = true; retryable = false; counter = dropped }

abbrev backpressure_result : CapacityResult
backpressure_result = record {
  action = backpressure;
  acknowledged = false;
  retryable = true;
  counter = backpressured;
}

abbrev admit_result : CapacityResult
admit_result = record {
  action = admit;
  acknowledged = false;
  retryable = false;
  counter = no_counter;
}

unfoldable pub decide : CapacityPolicy → Record → Classification → CapacityState → CapacityResult
unfolding may_shed near_capacity is_eligible threshold_of
decide p r c s =
    if not s.can_persist
    then if may_shed p r c && near_capacity p s then shed_result else backpressure_result
    else if may_shed p r c && near_capacity p s
    then shed_result
    else admit_result
