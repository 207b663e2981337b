-- ===== src/Web/Editor/Snapshot.antt =====
-- apps/web/src/combined-schedule-state.ts: synchronizeCombinedScheduleState, what a snapshot makes of the state.
use aquarium_controller.Prelude.{
  ℕ, Bool, true, false, not, ◌||◌, List, [], ◌∷◌, Option, none, some, if◌then◌else◌, ◌==◌, Text,
  text_eq,
}
use aquarium_controller.Web.Points.{schedule_points_equal}
use aquarium_controller.Web.Drafts.{Draft, is_dirty}
use aquarium_controller.Web.Editor.State.{
  with_entry, Source, EditorState, selection, first_channel, create_combined_schedule_draft,
  reselected, entry,
}

-- The draft that synchronizeCombinedScheduleState picks for one source
unfoldable pub synchronized_with : ℕ → Draft → Draft → Draft
unfolding is_dirty schedule_points_equal
synchronized_with current incoming existing =
    if not (text_eq existing.schedule_id incoming.schedule_id)
    then incoming
    else if existing.graph_revision == incoming.graph_revision
    then if is_dirty existing then record existing { pinned_revision = some current } else existing
    else if not (is_dirty existing) || schedule_points_equal incoming.points existing.points
    then incoming
    else if schedule_points_equal incoming.points existing.baseline_points
    then record existing {
      graph_revision = incoming.graph_revision;
      baseline_points = incoming.points;
      hidden_boundary_points = incoming.hidden_boundary_points;
      conflict_revision = none;
    }
    else record existing { conflict_revision = some current }

unfoldable pub synchronized_draft : ℕ → Draft → Option Draft → Draft
unfolding synchronized_with
synchronized_draft current incoming none = incoming
synchronized_draft current incoming (some existing) = synchronized_with current incoming existing

-- The loop, which reads the old state and fills the new one
unfoldable pub synchronize_sources : EditorState → ℕ → List Source → EditorState → EditorState
unfolding synchronized_draft create_combined_schedule_draft entry with_entry selection reselected
synchronize_sources old current [] state = state
synchronize_sources old current (source ∷ rest) state =
    let draft =
      synchronized_draft current (create_combined_schedule_draft source)
        (entry source.channel_id old.drafts) in
    synchronize_sources old current rest (record state {
      drafts = with_entry source.channel_id draft state.drafts;
      selected_point_ids =
          with_entry source.channel_id
            (reselected (selection source.channel_id old.selected_point_ids) draft.points)
            state.selected_point_ids;
    })

abbrev pub is_some {ℓ} : {A : Type ℓ} → Option A → Bool
is_some none = false
is_some (some a) = true

unfoldable pub kept_channel : Option Text → List (Text × Draft) → Option Text → Option Text
unfolding entry
kept_channel none drafts first = first
kept_channel (some channel) drafts first =
    if is_some (entry channel drafts) then some channel else first

unfoldable pub synchronize_combined_schedule_state : EditorState → List Source → ℕ → EditorState
unfolding synchronize_sources kept_channel
synchronize_combined_schedule_state state sources current =
    let filled =
      synchronize_sources state current sources
        (record { selected_channel_id = none; selected_point_ids = []; drafts = [] }) in
    record filled {
      selected_channel_id =
          kept_channel state.selected_channel_id filled.drafts (first_channel sources);
    }
