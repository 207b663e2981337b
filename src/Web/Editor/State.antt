-- ===== src/Web/Editor/State.antt =====
-- apps/web/src/combined-schedule-state.ts: the state of the editor, its actions, and the state made of sources. A record by
-- channel is a list of its entries in the order of their first writes; no channel is named like a member of
-- Object.prototype.
use aquarium_controller.Prelude.{
  ℕ, Bool, false, List, [], ◌∷◌, Option, none, some, if◌then◌else◌, Text, text_eq,
}
use aquarium_controller.Number.{Number}
use aquarium_controller.Contracts.Schedules.{EditorPoint}
use aquarium_controller.Web.Points.{normalize_logical_points, preferred_point_id, has_point}
use aquarium_controller.Web.Drafts.{Draft, is_hidden_wrap_boundary_point}

-- A record by text
module _ {ℓ} {V : Type ℓ} where
  unfoldable pub entry : Text → List (Text × V) → Option V
  entry key [] = none
  entry key ((k, v) ∷ rest) = let later = entry key rest in if text_eq k key then some v else later

  unfoldable pub with_entry : Text → V → List (Text × V) → List (Text × V)
  with_entry key value [] = (key, value) ∷ []
  with_entry key value ((k, v) ∷ rest) =
      let later = with_entry key value rest in
      if text_eq k key then (k, value) ∷ rest else (k, v) ∷ later

pub record Source : Type 0 where
  pub channel_id : Text
  pub schedule_id : Text
  pub graph_revision : ℕ
  pub points : List EditorPoint

pub record EditorState : Type 0 where
  pub selected_channel_id : Option Text
  pub selected_point_ids : List (Text × Option Text)
  pub drafts : List (Text × Draft)

pub data Action : Type 0 where
  select_channel : Text → Action
  select_point : Text → Text → Action
  add_point : Text → EditorPoint → ℕ → Action
  update_point : Text → Text → Number → Number → ℕ → Action
  remove_point : Text → Text → ℕ → Action
  restore_points : List (Text × List EditorPoint) → ℕ → Action
  discard_all : Action
  saved : Text → List EditorPoint → ℕ → Action
  accept_conflict : Text → ℕ → Action
  revision_conflict : Text → ℕ → Action
  snapshot : List Source → ℕ → Action

-- An absent selection and a null one are told apart nowhere.
abbrev pub flat : Option (Option Text) → Option Text
flat none = none
flat (some selection) = selection

unfoldable pub selection : Text → List (Text × Option Text) → Option Text
unfolding entry
selection channel ids = flat (entry channel ids)

-- points.some((point) => point.id === selection)
unfoldable pub has_selected : Option Text → List EditorPoint → Bool
unfolding has_point
has_selected none points = false
has_selected (some id) points = has_point id points

abbrev pub first_channel : List Source → Option Text
first_channel [] = none
first_channel (source ∷ rest) = some source.channel_id

unfoldable pub logical_points : Text → List EditorPoint → List EditorPoint
unfolding is_hidden_wrap_boundary_point
logical_points schedule_id [] = []
logical_points schedule_id (p ∷ rest) =
    let later = logical_points schedule_id rest in
    if is_hidden_wrap_boundary_point schedule_id p then later else p ∷ later

unfoldable pub hidden_points : Text → List EditorPoint → List EditorPoint
unfolding is_hidden_wrap_boundary_point
hidden_points schedule_id [] = []
hidden_points schedule_id (p ∷ rest) =
    let later = hidden_points schedule_id rest in
    if is_hidden_wrap_boundary_point schedule_id p then p ∷ later else later

unfoldable pub create_combined_schedule_draft : Source → Draft
unfolding logical_points hidden_points normalize_logical_points
create_combined_schedule_draft source = record {
  channel_id = source.channel_id;
  schedule_id = source.schedule_id;
  graph_revision = source.graph_revision;
  baseline_points = normalize_logical_points (logical_points source.schedule_id source.points);
  points = normalize_logical_points (logical_points source.schedule_id source.points);
  hidden_boundary_points = hidden_points source.schedule_id source.points;
  pinned_revision = none;
  conflict_revision = none;
}

-- The loop of createCombinedScheduleState, on the state so far
unfoldable pub add_sources : List Source → EditorState → EditorState
unfolding with_entry create_combined_schedule_draft
add_sources [] state = state
add_sources (source ∷ rest) state =
    let draft = create_combined_schedule_draft source in
    add_sources rest (record state {
      drafts = with_entry source.channel_id draft state.drafts;
      selected_point_ids =
          with_entry source.channel_id (preferred_point_id draft.points) state.selected_point_ids;
    })

unfoldable pub create_combined_schedule_state : List Source → EditorState
unfolding add_sources
create_combined_schedule_state sources =
    add_sources sources
      (record { selected_channel_id = first_channel sources; selected_point_ids = []; drafts = [] })

unfoldable pub reselected : Option Text → List EditorPoint → Option Text
unfolding has_selected
reselected selected points =
    if has_selected selected points then selected else preferred_point_id points
