-- ===== src/Domain/Validation/Runs.antt =====
-- About validateScheduleGraph: what a schedule should be, with no reference to the checks, is a run of
-- segments, each strictly forward in time and each from where the one before it ends.
use aquarium_controller.Prelude.{
  ℕ, ◌-◌, arith, ◌≤◌, ◌<◌, ◌≡◌, refl, List, [], ◌∷◌, some, length, get_elem?,
}
use aquarium_controller.Domain.Schedule.{ScheduleSegment, ScheduleGraph, utc_minute_max}
use aquarium_controller.Domain.Validation.Points.{point, full}

-- The segments lead from minute `m` at `p` to minute `e` at `f`.
abbrev pub Runs : ℕ → ℕ → ℕ → ℕ → List ScheduleSegment → Type 0
Runs m p e f [] = (m ≡ e) × (p ≡ f)
Runs m p e f (s ∷ rest) =
    (s.source ≡ point m p)
    × (n : ℕ) × (q : ℕ) × (s.target ≡ point n q)
    × (m < n)
    × (q ≤ full)
    × Runs n q e f rest

-- A day's schedule: from 00:00 to 23:59, all percents in range, back at the first percent.
abbrev pub IsPeriodic : ScheduleGraph → Type 0
IsPeriodic g = (p : ℕ) × (p ≤ full) × Runs 0 p utc_minute_max p g.segments

abbrev pub last_segment : ScheduleSegment → List ScheduleSegment → ScheduleSegment
last_segment s [] = s
last_segment s (t ∷ rest) = last_segment t rest

get_elem?-last :
    (s : ScheduleSegment) (rest : List ScheduleSegment)
    → get_elem? (s ∷ rest) (length rest) ≡ some (last_segment s rest)
get_elem?-last s [] = refl
get_elem?-last s (t ∷ rest) = get_elem?-last t rest

-- segments[segments.length - 1]
pub get_elem?-length :
    (s : ScheduleSegment) (rest : List ScheduleSegment)
    → get_elem? (s ∷ rest) (length (s ∷ rest) - 1) ≡ some (last_segment s rest)
get_elem?-length s rest =
    rw (let e : length (s ∷ rest) - 1 ≡ length rest = omega arith in e) (get_elem?-last s rest)
