-- ===== src/Web/Drafts.antt =====
-- apps/web/src/combined-schedule-state.ts: the draft of a schedule, its validation and the request it is saved with.
pub mod Keys
pub mod Boundary
pub mod Accepted
pub mod Request
pub mod Sendable
pub mod Sent
use aquarium_controller.Prelude.{
  ℕ, zero, suc, ◌+◌, ◌-◌, Bool, true, false, not, ◌&&◌, ◌||◌, List, [], ◌∷◌, ◌++◌, Option, none,
  some, if◌then◌else◌, ltb, leb, ◌==◌, length, map, Text, text_eq, starts_with, codes,
}
use aquarium_controller.Prelude.Result.{
  Result, ok, throw, plain_error, schema_error, guard, ◌>>=◌, ◌>>◌,
}
use aquarium_controller.Number.{Number, nan, num, is_finite, is_integer, lt, le, eq}
use aquarium_controller.Domain.Evaluation.{Arithmetic}
use aquarium_controller.Contracts.Schedules.{
  EditorPoint, ReplaceScheduleRequest, is_replace_schedule_request,
}
use aquarium_controller.Web.Points.{
  normalize_logical_points, schedule_points_equal, find_minute, schedule_value_at,
}

pub record Draft : Type 0 where
  pub channel_id : Text
  pub schedule_id : Text
  pub graph_revision : ℕ
  pub baseline_points : List EditorPoint
  pub points : List EditorPoint
  pub hidden_boundary_points : List EditorPoint
  pub pinned_revision : Option ℕ
  pub conflict_revision : Option ℕ

unfoldable pub is_dirty : Draft → Bool
unfolding schedule_points_equal
is_dirty d = not (schedule_points_equal d.points d.baseline_points)

pub data DraftIssue : Type 0 where
  too_few_points : DraftIssue
  duplicate_identifier : Text → DraftIssue
  duplicate_minute invalid_time invalid_percentage : DraftIssue

-- Set.has on texts and on numbers; a set finds a NaN.
unfoldable pub has_text : Text → List Text → Bool
has_text t [] = false
has_text t (u ∷ rest) = text_eq u t || has_text t rest

abbrev pub is_nan : Number → Bool
is_nan nan = true
is_nan _ = false

unfoldable pub has_number : Number → List Number → Bool
unfolding eq
has_number x [] = false
has_number x (y ∷ rest) = eq y x || (is_nan y && is_nan x) || has_number x rest

abbrev pub issue_if : Bool → DraftIssue → List DraftIssue
issue_if true issue = issue ∷ []
issue_if false issue = []

unfoldable pub is_editor_minute : Number → Bool
unfolding is_integer lt
is_editor_minute m = is_integer m && not (lt m (num 0)) && not (lt (num 1439) m)

unfoldable pub is_editor_percentage : Number → Bool
unfolding is_finite lt
is_editor_percentage p = is_finite p && not (lt p (num 0)) && not (lt (num 100) p)

-- The loop, with its two sets
unfoldable pub point_issues : List Text → List Number → List EditorPoint → List DraftIssue
unfolding has_text has_number is_editor_minute is_editor_percentage
point_issues identifiers minutes [] = []
point_issues identifiers minutes (p ∷ rest) =
    issue_if (has_text p.id identifiers) (duplicate_identifier p.id)
    ++ (issue_if (has_number p.minute_of_day minutes) duplicate_minute
        ++ (issue_if (not (is_editor_minute p.minute_of_day)) invalid_time
            ++ (issue_if (not (is_editor_percentage p.percentage)) invalid_percentage
                ++ point_issues (p.id ∷ identifiers) (p.minute_of_day ∷ minutes) rest)))

-- The issues of validateCombinedScheduleDraft; a draft is valid if there is none.
unfoldable pub validate_combined_schedule_draft : Draft → List DraftIssue
unfolding point_issues
validate_combined_schedule_draft d =
    issue_if (ltb (length d.points) 2) too_few_points ++ point_issues [] [] d.points

abbrev pub wrap_boundary_prefix : Text → Text
wrap_boundary_prefix schedule_id = codes "wrap-boundary-" ++ (schedule_id ++ codes "-")

unfoldable pub is_hidden_wrap_boundary_point : Text → EditorPoint → Bool
unfolding starts_with
is_hidden_wrap_boundary_point schedule_id p = starts_with (wrap_boundary_prefix schedule_id) p.id

unfoldable pub wrap_boundary_identifier : Text → Text → Result Text
wrap_boundary_identifier schedule_id edge =
    let id = wrap_boundary_prefix schedule_id ++ edge in
    if ltb 128 (length id) then throw plain_error else ok id

abbrev pub boundary_id : Option EditorPoint → Result Text → Result Text
boundary_id (some existing) made = ok existing.id
boundary_id none made = made

abbrev pub point_at : ℕ → Number → Text → EditorPoint
point_at minute percentage id = record {
  id = id;
  position = 0;
  minute_of_day = num minute;
  percentage = percentage;
  editor_x = none;
  editor_y = none;
}

unfoldable pub boundary_point : Draft → ℕ → Number → Text → Result EditorPoint
unfolding find_minute wrap_boundary_identifier
boundary_point d minute percentage edge = do
  id ←
      boundary_id (find_minute (num minute) d.hidden_boundary_points)
        (wrap_boundary_identifier d.schedule_id edge)
  ok (point_at minute percentage id)

-- What `if (start === undefined) canonical.push(...)` adds
abbrev pub pushed_boundary : Option EditorPoint → Result EditorPoint → Result (List EditorPoint)
pushed_boundary (some p) made = ok []
pushed_boundary none made = do p ← made; ok (p ∷ [])

unfoldable pub with_boundary_percentage : Number → EditorPoint → EditorPoint
unfolding eq
with_boundary_percentage b p =
    if eq p.minute_of_day (num 0) || eq p.minute_of_day (num 1439)
    then record p { percentage = b }
    else p

abbrev pub boundary_percentage : Option EditorPoint → Option EditorPoint → Number → Number
boundary_percentage (some start) end interpolated = start.percentage
boundary_percentage none (some end) interpolated = end.percentage
boundary_percentage none none interpolated = interpolated

unfoldable pub is_valid_draft : Draft → Bool
unfolding validate_combined_schedule_draft
is_valid_draft d = length (validate_combined_schedule_draft d) == 0

-- The steps of canonicalSchedulePoints once the two boundary points are looked up
unfoldable pub completed_points :
    Draft
    → List EditorPoint
    → Option EditorPoint
    → Option EditorPoint
    → Number
    → Result (List EditorPoint)
unfolding with_boundary_percentage boundary_point normalize_logical_points
completed_points d logical start end b = do
  first ← pushed_boundary start (boundary_point d 0 b (codes "start"))
  last ← pushed_boundary end (boundary_point d 1439 b (codes "end"))
  ok (normalize_logical_points (map (with_boundary_percentage b) logical ++ (first ++ last)))

module _ (js : Arithmetic) where
  unfoldable pub canonical_schedule_points : Draft → Result (List EditorPoint)
  unfolding completed_points normalize_logical_points find_minute schedule_value_at
  canonical_schedule_points d =
      let logical = normalize_logical_points d.points in
      let start = find_minute (num 0) logical in
      let end = find_minute (num 1439) logical in
      completed_points d logical start end
        (boundary_percentage start end (schedule_value_at js logical (num 0)))

  unfoldable pub to_combined_replace_schedule_request : Draft → ℕ → Result ReplaceScheduleRequest
  unfolding is_valid_draft canonical_schedule_points is_replace_schedule_request
  to_combined_replace_schedule_request d expected = do
    guard (is_valid_draft d) plain_error
    points ← canonical_schedule_points d
    guard (is_replace_schedule_request (record { expected_revision = expected; points = points }))
        schema_error
    ok (record { expected_revision = expected; points = points })
