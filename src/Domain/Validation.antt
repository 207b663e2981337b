-- ===== src/Domain/Validation.antt =====
-- packages/domain/src/schedule.ts: validateScheduleGraph. The issues are pushed in the order of the
-- source, so the list that it leaves is the concatenation of what each check reports.
pub mod Points
pub mod Runs
pub mod Sound
pub mod Complete
use aquarium_controller.Prelude.{
  ℕ, zero, suc, ◌-◌, ◌≡◌, Bool, true, false, not, ◌&&◌, ◌||◌, List, [], ◌∷◌, ◌++◌, Option, none,
  some, if◌then◌else◌, length, get_elem?, ◌==◌,
}
use aquarium_controller.Number.{Number, num, is_finite, is_integer, lt, le, eq}
use aquarium_controller.Domain.Schedule.{
  SchedulePoint, ScheduleSegment, ScheduleGraph, ScheduleEndpoint, source_end, target_end,
  not_finite, not_integer, out_of_range, ScheduleValidationIssue, empty_schedule, invalid_minute,
  invalid_percent, zero_duration, reversed_segment, gap, overlap, discontinuity, start_not_midnight,
  end_not_final_minute, wrap_discontinuity, ScheduleValidationResult, valid, invalid,
  utc_minute_min, utc_minute_max, is_valid_utc_minute, is_valid_percent,
}

abbrev pub Issues : Type 0
Issues = List ScheduleValidationIssue

-- validatePoint, its first and its second test
minute_issues : Number → ℕ → ScheduleEndpoint → Issues
unfolding is_finite
minute_issues m i end =
    if not (is_finite m)
    then invalid_minute i end m not_finite ∷ []
    else if not (is_integer m)
    then invalid_minute i end m not_integer ∷ []
    else if lt m (num utc_minute_min) || lt (num utc_minute_max) m
    then invalid_minute i end m out_of_range ∷ []
    else []

percent_issues : Number → ℕ → ScheduleEndpoint → Issues
unfolding is_finite
percent_issues p i end =
    if not (is_finite p)
    then invalid_percent i end p not_finite ∷ []
    else if lt p (num 0) || lt (num 100) p
    then invalid_percent i end p out_of_range ∷ []
    else []

pub validate_point : SchedulePoint → ℕ → ScheduleEndpoint → Issues
validate_point p i end = minute_issues p.minute i end ++ percent_issues p.percent i end

-- The order of the two minutes of a segment
pub order_issues : ℕ → Number → Number → Issues
order_issues i a b =
    if is_valid_utc_minute a && is_valid_utc_minute b
    then if eq a b
      then zero_duration i a ∷ []
      else if lt b a
      then reversed_segment i a b ∷ []
      else []
    else []

-- The loop over the segments; `i` is `segmentIndex`.
pub segment_issues : ℕ → List ScheduleSegment → Issues
segment_issues i [] = []
segment_issues i (s ∷ rest) =
    validate_point s.source i source_end
    ++ (validate_point s.target i target_end
        ++ (order_issues i s.source.minute s.target.minute ++ segment_issues (suc i) rest))

pub start_issues : Option ScheduleSegment → Issues
start_issues none = []
start_issues (some s) =
    if is_valid_utc_minute s.source.minute && not (eq s.source.minute (num utc_minute_min))
    then start_not_midnight s.source.minute ∷ []
    else []

pub end_issues : Option ScheduleSegment → Issues
end_issues none = []
end_issues (some s) =
    if is_valid_utc_minute s.target.minute && not (eq s.target.minute (num utc_minute_max))
    then end_not_final_minute s.target.minute ∷ []
    else []

-- Two neighbours; `i` is the index of the first.
pub joint_issues : ℕ → SchedulePoint → SchedulePoint → Issues
joint_issues i a b =
    if is_valid_utc_minute a.minute && is_valid_utc_minute b.minute
    then if lt a.minute b.minute
      then gap i (suc i) a.minute b.minute ∷ []
      else if lt b.minute a.minute
      then overlap i (suc i) a.minute b.minute ∷ []
      else if is_valid_percent a.percent
          && is_valid_percent b.percent
          && not (eq a.percent b.percent)
      then discontinuity i (suc i) a.minute a.percent b.percent ∷ []
      else []
    else []

-- The loop over the neighbours
pub adjacency_issues : ℕ → List ScheduleSegment → Issues
adjacency_issues i [] = []
adjacency_issues i (s ∷ []) = []
adjacency_issues i (s ∷ t ∷ rest) =
    joint_issues i s.target t.source ++ adjacency_issues (suc i) (t ∷ rest)

pub wrap_issues : Option ScheduleSegment → Option ScheduleSegment → Issues
wrap_issues (some f) (some l) =
    if is_valid_percent f.source.percent
      && is_valid_percent l.target.percent
      && not (eq f.source.percent l.target.percent)
    then wrap_discontinuity f.source.percent l.target.percent ∷ []
    else []
wrap_issues _ _ = []

pub graph_issues : List ScheduleSegment → Issues
graph_issues segments =
    let first = get_elem? segments 0 in
    let last = get_elem? segments (length segments - 1) in
    segment_issues 0 segments
    ++ (start_issues first
        ++ (end_issues last ++ (adjacency_issues 0 segments ++ wrap_issues first last)))

verdict : ScheduleGraph → Issues → ScheduleValidationResult
verdict input [] = valid input
verdict input (issue ∷ issues) = invalid (issue ∷ issues)

pub validate_schedule_graph : ScheduleGraph → ScheduleValidationResult
unfolding verdict
validate_schedule_graph input =
    if length input.segments == 0
    then invalid (empty_schedule ∷ [])
    else verdict input (graph_issues input.segments)
