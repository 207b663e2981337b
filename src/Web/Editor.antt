-- ===== src/Web/Editor.antt =====
-- apps/web/src/combined-schedule-state.ts: the reducer of the editor of schedules.
pub mod State
pub mod Snapshot
pub mod Entries
pub mod WellFormed
pub mod Loops
pub mod Ordered
pub mod Kept
use aquarium_controller.Prelude.{
  ℕ, ◌-◌, Bool, true, false, not, ◌&&◌, ◌||◌, List, [], ◌∷◌, ◌++◌, Option, none, some,
  if◌then◌else◌, leb, ◌==◌, length, map, Text, text_eq,
}
use aquarium_controller.Number.{Number}
use aquarium_controller.Contracts.Schedules.{EditorPoint}
use aquarium_controller.Web.Points.{
  normalize_logical_points, schedule_points_equal, preferred_point_id, has_point,
}
use aquarium_controller.Web.Drafts.{Draft, is_dirty, is_hidden_wrap_boundary_point}
unfoldable pub use State.*
unfoldable pub use Snapshot.*

abbrev pub pinned_or : Option ℕ → ℕ → Option ℕ
pinned_or (some revision) current = some revision
pinned_or none current = some current

abbrev pub edit_draft : Draft → List EditorPoint → ℕ → Draft
edit_draft d points current = record d {
  points = points;
  pinned_revision = pinned_or d.pinned_revision current;
}

unfoldable pub moved_point : Text → Number → Number → EditorPoint → EditorPoint
moved_point id minute percentage p =
    if text_eq p.id id
    then record p {
      minute_of_day = minute;
      percentage = percentage;
      editor_x = none;
      editor_y = none;
    }
    else p

unfoldable pub without_point : Text → List EditorPoint → List EditorPoint
without_point id [] = []
without_point id (p ∷ rest) =
    let later = without_point id rest in if text_eq p.id id then later else p ∷ later

-- What an action does with `state.drafts[channel]`; without a draft the state stays.
abbrev pub with_draft : EditorState → Option Draft → (Draft → EditorState) → EditorState
with_draft state none change = state
with_draft state (some d) change = change d

unfoldable pub is_selected : Text → Option Text → Bool
is_selected id none = false
is_selected id (some selected) = text_eq selected id

unfoldable pub restored_points : Option (List EditorPoint) → Draft → List EditorPoint
unfolding normalize_logical_points
restored_points none d = d.points
restored_points (some points) d = normalize_logical_points points

-- `if (!points.some(...)) selectedPointIds[channel] = preferredPointId(points)`
unfoldable pub repair_selection :
    Text → List EditorPoint → List (Text × Option Text) → List (Text × Option Text)
unfolding has_selected selection with_entry
repair_selection channel points ids =
    if has_selected (selection channel ids) points
    then ids
    else with_entry channel (preferred_point_id points) ids

-- The loop of restore_points over the entries of the drafts
unfoldable pub restore_entries :
    List (Text × List EditorPoint) → ℕ → List (Text × Draft) → EditorState → EditorState
unfolding entry restored_points repair_selection with_entry
restore_entries by_channel current [] state = state
restore_entries by_channel current ((channel, d) ∷ rest) state =
    let points = restored_points (entry channel by_channel) d in
    restore_entries by_channel current rest (record state {
      drafts = with_entry channel (edit_draft d points current) state.drafts;
      selected_point_ids = repair_selection channel points state.selected_point_ids;
    })

-- The loop of discard_all over the drafts
unfoldable pub discard_drafts : List (Text × Draft) → EditorState → EditorState
unfolding repair_selection with_entry
discard_drafts [] state = state
discard_drafts ((channel, d) ∷ rest) state =
    let discarded : Draft = record d {
      points = d.baseline_points;
      pinned_revision = none;
      conflict_revision = none;
    } in
    discard_drafts rest (record state {
      drafts = with_entry d.channel_id discarded state.drafts;
      selected_point_ids = repair_selection d.channel_id discarded.points state.selected_point_ids;
    })

unfoldable pub saved_draft : List EditorPoint → ℕ → Draft → Draft
unfolding normalize_logical_points schedule_points_equal
saved_draft points revision d =
    let kept = normalize_logical_points points in
    let newer = not (schedule_points_equal d.points kept) in
    record d {
      baseline_points = kept;
      pinned_revision = if newer then some revision else none;
      conflict_revision = none;
    }

unfoldable pub accept_entries : ℕ → List (Text × Draft) → List (Text × Draft)
unfolding is_dirty
accept_entries current [] = []
accept_entries current ((channel, d) ∷ rest) =
    let later = accept_entries current rest in
    if is_dirty d
    then (channel, record d { pinned_revision = some current; conflict_revision = none }) ∷ later
    else (channel, d) ∷ later

unfoldable pub combined_schedule_reducer : EditorState → Action → EditorState
unfolding entry with_entry has_point normalize_logical_points moved_point without_point is_selected
    selection restore_entries discard_drafts saved_draft accept_entries
    synchronize_combined_schedule_state
combined_schedule_reducer state (select_channel channel) =
    with_draft state (entry channel state.drafts)
      (λ d. record state { selected_channel_id = some channel })
combined_schedule_reducer state (select_point channel id) =
    with_draft state (entry channel state.drafts) (λ d.
      if has_point id d.points
      then record state {
        selected_point_ids = with_entry channel (some id) state.selected_point_ids;
      }
      else state)
combined_schedule_reducer state (add_point channel p current) =
    with_draft state (entry channel state.drafts) (λ d. record state {
      drafts =
          with_entry channel
            (edit_draft d (normalize_logical_points (d.points ++ (p ∷ []))) current) state.drafts;
      selected_point_ids = with_entry channel (some p.id) state.selected_point_ids;
    })
combined_schedule_reducer state (update_point channel id minute percentage current) =
    with_draft state (entry channel state.drafts) (λ d. record state {
      drafts =
          with_entry channel
            (edit_draft d
              (normalize_logical_points (map (moved_point id minute percentage) d.points)) current)
            state.drafts;
    })
combined_schedule_reducer state (remove_point channel id current) =
    with_draft state (entry channel state.drafts) (λ d.
      let points = normalize_logical_points (without_point id d.points) in
      let selected = selection channel state.selected_point_ids in
      if leb (length d.points) 2 then state else record state {
        drafts = with_entry channel (edit_draft d points current) state.drafts;
        selected_point_ids =
            with_entry channel
              (if is_selected id selected then preferred_point_id points else selected)
              state.selected_point_ids;
      })
combined_schedule_reducer state (restore_points by_channel current) =
    restore_entries by_channel current state.drafts (record state { drafts = [] })
combined_schedule_reducer state discard_all =
    discard_drafts state.drafts (record state { drafts = [] })
combined_schedule_reducer state (saved channel points revision) =
    with_draft state (entry channel state.drafts) (λ d. record state {
      drafts = with_entry channel (saved_draft points revision d) state.drafts;
    })
combined_schedule_reducer state (accept_conflict channel current) =
    with_draft state (entry channel state.drafts)
      (λ d. record state { drafts = accept_entries current state.drafts })
combined_schedule_reducer state (revision_conflict channel current) =
    with_draft state (entry channel state.drafts) (λ d. record state {
      selected_channel_id = some channel;
      drafts = with_entry channel (record d { conflict_revision = some current }) state.drafts;
    })
combined_schedule_reducer state (snapshot sources current) =
    synchronize_combined_schedule_state state sources current

unfoldable pub run_actions : EditorState → List Action → EditorState
unfolding combined_schedule_reducer
run_actions state [] = state
run_actions state (action ∷ rest) = run_actions (combined_schedule_reducer state action) rest

-- isCombinedScheduleStateDirty
unfoldable pub is_state_dirty : List (Text × Draft) → Bool
unfolding is_dirty
is_state_dirty [] = false
is_state_dirty ((channel, d) ∷ rest) = is_dirty d || is_state_dirty rest
