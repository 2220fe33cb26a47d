-- ===== src/Incident/Window.antt =====
-- incident.go: half-open windows, window counts over sorted event times, and the insertion that keeps
-- the times sorted.
use cockroachdbxaws.Base.{
  ℕ, suc, ◌+◌, ◌-◌, Bool, true, false, List, [], ◌∷◌, ◌||◌, if◌then◌else◌, ltb, ◌==◌,
}
use cockroachdbxaws.Incident.Logs.{Time, before, is_zero_time, default_investigation_window}
use cockroachdbxaws.Incident.Search.{search_slice, insert_at}
pub mod Counts

-- A duration is not negative here, so `duration <= 0` is `duration == 0`.
unfoldable pub in_half_open_window : Time → Time → ℕ → Bool
in_half_open_window event watermark duration =
    if (duration == 0) || before watermark event then false else before (watermark - duration) event

pub count_in_sorted_window : List Time → Time → ℕ
count_in_sorted_window times watermark =
    let first = search_slice (λ t. before (watermark - default_investigation_window) t) times in
    let past = search_slice (λ t. before watermark t) times in
    if is_zero_time watermark then 0 else if ltb past first then 0 else past - first

pub insert_time : List Time → Time → List Time
insert_time times when' = insert_at (search_slice (λ t. before when' t) times) when' times
