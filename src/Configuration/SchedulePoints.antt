-- ===== src/Configuration/SchedulePoints.antt =====
-- apps/controller/src/infrastructure/database/controller-configuration-repository.ts: the check of the points of a
-- schedule before they are stored. Of an issue the path and the code are kept.
pub mod Day
use aquarium_controller.Prelude.{ℕ, suc, Bool, not, ◌==◌, List, [], ◌∷◌, ◌++◌, if◌then◌else◌, map}
use aquarium_controller.Domain.Schedule.{
  SchedulePoint, ScheduleGraph, ScheduleValidationIssue, empty_schedule, invalid_minute,
  invalid_percent, zero_duration, reversed_segment, gap, overlap, discontinuity, start_not_midnight,
  end_not_final_minute, wrap_discontinuity, ScheduleValidationResult, valid, invalid,
  schedule_graph_from_points,
}
use aquarium_controller.Domain.Validation.{validate_schedule_graph}
use aquarium_controller.Contracts.Schedules.{EditorPoint}

-- Where an issue is: in the points as a whole, at one of them, or at the position of one.
pub data IssuePath : Type 0 where
  at_points : IssuePath
  at_point at_position : ℕ → IssuePath

pub data PointsIssue : Type 0 where
  non_contiguous_position : IssuePath → PointsIssue
  graph_issue : IssuePath → ScheduleValidationIssue → PointsIssue

pub data ValidatedPoints : Type 0 where
  validated : ScheduleGraph → ValidatedPoints
  refused : List PointsIssue → ValidatedPoints

unfoldable pub schedule_issue_path : ScheduleValidationIssue → IssuePath
schedule_issue_path empty_schedule = at_points
schedule_issue_path (invalid_minute i end m reason) = at_point i
schedule_issue_path (invalid_percent i end p reason) = at_point i
schedule_issue_path (zero_duration i m) = at_point i
schedule_issue_path (reversed_segment i a b) = at_point i
schedule_issue_path (gap i j a b) = at_point i
schedule_issue_path (overlap i j a b) = at_point i
schedule_issue_path (discontinuity i j m a b) = at_point i
schedule_issue_path (start_not_midnight m) = at_points
schedule_issue_path (end_not_final_minute m) = at_points
schedule_issue_path (wrap_discontinuity a b) = at_points

unfoldable pub position_issues : ℕ → List EditorPoint → List PointsIssue
position_issues i [] = []
position_issues i (p ∷ rest) =
    let later = position_issues (suc i) rest in
    if not (p.position == i) then non_contiguous_position (at_position i) ∷ later else later

abbrev pub minute_and_percent : EditorPoint → SchedulePoint
minute_and_percent p = record { minute = p.minute_of_day; percent = p.percentage }

unfoldable pub graph_issue_of : ScheduleValidationIssue → PointsIssue
unfolding schedule_issue_path
graph_issue_of issue = graph_issue (schedule_issue_path issue) issue

unfoldable pub points_verdict : List PointsIssue → ScheduleValidationResult → ValidatedPoints
unfolding graph_issue_of
points_verdict [] (valid graph) = validated graph
points_verdict (issue ∷ issues) (valid graph) = refused (issue ∷ issues)
points_verdict issues (invalid found) = refused (issues ++ map graph_issue_of found)

-- `validated` is the return, and `refused` the ConfigurationValidationError with these issues.
unfoldable pub validate_schedule_points : List EditorPoint → ValidatedPoints
unfolding position_issues schedule_graph_from_points points_verdict
validate_schedule_points points =
    points_verdict (position_issues 0 points)
      (validate_schedule_graph (schedule_graph_from_points (map minute_and_percent points)))
