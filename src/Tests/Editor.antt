-- ===== src/Tests/Editor.antt =====
-- apps/web: two edits of a schedule, a snapshot that comes between, and the request that saves it.
use aquarium_controller.Prelude.{
  ℕ, ◌≤◌, ◌≡◌, ◌↔◌, refl, List, [], ◌∷◌, none, some, map, codes, arith, Text, text_eq,
}
use aquarium_controller.Prelude.Result.{ok}
use aquarium_controller.Prelude.Sorting.{sort_by}
use aquarium_controller.Number.{num, is_integer}
use aquarium_controller.Domain.Schedule.{schedule_graph_from_points}
use aquarium_controller.Contracts.Schedules.{
  EditorPoint, ReplaceScheduleRequest, is_replace_schedule_request,
}
use aquarium_controller.Configuration.SchedulePoints.{
  minute_and_percent, validated, validate_schedule_points,
}
use aquarium_controller.Web.Points.{schedule_value_at}
use aquarium_controller.Web.Points.Clock.{minute_to_time, time_to_minute, time_to_minute_iff}
use aquarium_controller.Web.Drafts.{
  Draft, is_dirty, is_valid_draft, to_combined_replace_schedule_request,
}
use aquarium_controller.Web.Drafts.Request.{to_combined_replace_schedule_request-accepted}
use aquarium_controller.Web.Drafts.Sent.{to_combined_replace_schedule_request-made}
use aquarium_controller.Web.Editor.{
  entry, Source, EditorState, Action, add_point, update_point, snapshot,
  create_combined_schedule_state, combined_schedule_reducer, run_actions,
}
use aquarium_controller.Web.Editor.Loops.{AllWellFormed}
use aquarium_controller.Web.Editor.Ordered.{run_actions-AllWellFormed}
use aquarium_controller.Web.Editor.Kept.{Keeps, snapshot-Keeps}
use aquarium_controller.Tests.Schedules.{exact}

abbrev at : Text → ℕ → ℕ → EditorPoint
at id minute percentage = record {
  id = id;
  position = 0;
  minute_of_day = num minute;
  percentage = num percentage;
  editor_x = none;
  editor_y = none;
}

abbrev channel : Text
channel = codes "white"

abbrev source : ℕ → Source
source revision = record {
  channel_id = channel;
  schedule_id = codes "s1";
  graph_revision = revision;
  points = at (codes "a") 480 10 ∷ at (codes "b") 1200 30 ∷ [];
}

abbrev edits : List Action
edits =
    add_point channel (at (codes "c") 720 80) 5
    ∷ update_point channel (codes "a") (num 420) (num 0) 6
    ∷ []

abbrev edited : EditorState
edited = run_actions (create_combined_schedule_state (source 1 ∷ [])) edits

run_actions-AllWellFormed_example : AllWellFormed edited
run_actions-AllWellFormed_example = run_actions-AllWellFormed (source 1 ∷ []) edits

abbrev draft : Draft
draft = record {
  channel_id = channel;
  schedule_id = codes "s1";
  graph_revision = 1;
  baseline_points = [];
  points = at (codes "a") 480 30 ∷ at (codes "b") 1200 10 ∷ [];
  hidden_boundary_points = [];
  pinned_revision = some 5;
  conflict_revision = none;
}

abbrev with_draft_state : EditorState
with_draft_state = record {
  selected_channel_id = some channel;
  selected_point_ids = [];
  drafts = (channel, draft) ∷ [];
}

snapshot-Keeps_example :
    (d' : Draft) × (entry channel
        (combined_schedule_reducer with_draft_state (snapshot (source 2 ∷ []) 7)).drafts
      ≡ some d')
    × Keeps draft d'
unfolding entry is_dirty text_eq
snapshot-Keeps_example =
    snapshot-Keeps with_draft_state (source 2 ∷ []) 7 channel draft refl refl
      (record { same_schedule = λ e. refl }, tt) refl

abbrev request : ReplaceScheduleRequest
request = record {
  expected_revision = 7;
  points =
      record (at (codes "wrap-boundary-s1-start") 0 20) {
        percentage = schedule_value_at exact draft.points (num 0);
      }
      ∷ record (at (codes "a") 480 30) { position = 1 }
      ∷ record (at (codes "b") 1200 10) { position = 2 }
      ∷ record (at (codes "wrap-boundary-s1-end") 1439 20) {
        position = 3;
        percentage = schedule_value_at exact draft.points (num 0);
      }
      ∷ [];
}

request_made : to_combined_replace_schedule_request exact draft 7 ≡ ok request
unfolding to_combined_replace_schedule_request sort_by is_integer text_eq schedule_value_at
request_made = refl

to_combined_replace_schedule_request-accepted_example :
    validate_schedule_points request.points
    ≡ validated (schedule_graph_from_points (map minute_and_percent request.points))
to_combined_replace_schedule_request-accepted_example =
    to_combined_replace_schedule_request-accepted exact draft 7 request_made

to_combined_replace_schedule_request-made_example :
    (r : ReplaceScheduleRequest) × (to_combined_replace_schedule_request exact draft 7 ≡ ok r)
unfolding is_valid_draft is_replace_schedule_request schedule_value_at sort_by is_integer text_eq
to_combined_replace_schedule_request-made_example =
    to_combined_replace_schedule_request-made exact draft 7 refl refl refl (omega arith) refl refl
      (omega arith) refl

time_to_minute_iff_example :
    (time_to_minute (codes "07:05") ≡ some 425)
    ↔ ((425 ≤ 1439) × (minute_to_time 425 ≡ codes "07:05"))
time_to_minute_iff_example = time_to_minute_iff (codes "07:05") 425
