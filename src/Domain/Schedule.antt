-- ===== src/Domain/Schedule.antt =====
-- packages/domain/src/schedule.ts: schedule graphs and the issues that their validation reports.
use aquarium_controller.Prelude.{ℕ, Bool, ◌&&◌, List, [], ◌∷◌}
use aquarium_controller.Number.{Number, num, is_finite, is_integer, le}

pub record SchedulePoint : Type 0 where
  pub minute : Number
  pub percent : Number

pub record ScheduleSegment : Type 0 where
  pub source : SchedulePoint
  pub target : SchedulePoint

pub record ScheduleGraph : Type 0 where
  pub segments : List ScheduleSegment

pub data ScheduleEndpoint : Type 0 where
  source_end target_end : ScheduleEndpoint

pub data InvalidReason : Type 0 where
  not_finite not_integer out_of_range : InvalidReason

-- The arguments are the fields of the issue, in the order of the source.
pub data ScheduleValidationIssue : Type 0 where
  empty_schedule : ScheduleValidationIssue
  invalid_minute : ℕ → ScheduleEndpoint → Number → InvalidReason → ScheduleValidationIssue
  invalid_percent : ℕ → ScheduleEndpoint → Number → InvalidReason → ScheduleValidationIssue
  zero_duration : ℕ → Number → ScheduleValidationIssue
  reversed_segment : ℕ → Number → Number → ScheduleValidationIssue
  gap overlap : ℕ → ℕ → Number → Number → ScheduleValidationIssue
  discontinuity : ℕ → ℕ → Number → Number → Number → ScheduleValidationIssue
  start_not_midnight : Number → ScheduleValidationIssue
  end_not_final_minute : Number → ScheduleValidationIssue
  wrap_discontinuity : Number → Number → ScheduleValidationIssue

pub data ScheduleValidationResult : Type 0 where
  valid : ScheduleGraph → ScheduleValidationResult
  invalid : List ScheduleValidationIssue → ScheduleValidationResult

abbrev pub utc_minute_min : ℕ
utc_minute_min = 0

abbrev pub utc_minute_max : ℕ
utc_minute_max = 1439

-- scheduleGraphFromPoints: each point is joined to the next.
unfoldable pub segments_from_points : List SchedulePoint → List ScheduleSegment
segments_from_points [] = []
segments_from_points (p ∷ []) = []
segments_from_points (p ∷ q ∷ rest) =
    record { source = p; target = q } ∷ segments_from_points (q ∷ rest)

unfoldable pub schedule_graph_from_points : List SchedulePoint → ScheduleGraph
unfolding segments_from_points
schedule_graph_from_points points = record { segments = segments_from_points points }

unfoldable pub is_valid_utc_minute : Number → Bool
unfolding is_finite
is_valid_utc_minute m =
    is_finite m && is_integer m && le (num utc_minute_min) m && le m (num utc_minute_max)

unfoldable pub is_valid_percent : Number → Bool
unfolding is_finite
is_valid_percent p = is_finite p && le (num 0) p && le p (num 100)
