-- ===== src/Web/Editor/Ordered.antt =====
-- About the actions of the editor: what they keep of every draft.
use aquarium_controller.Prelude.{
  List, [], ◌∷◌, ◌++◌, Option, none, some, if◌then◌else◌, if_elim, leb, length, map,
}
use aquarium_controller.Web.Points.{normalize_logical_points, preferred_point_id, has_point}
use aquarium_controller.Web.Points.Sorted.{InOrder-normalize}
use aquarium_controller.Web.Drafts.{Draft}
use aquarium_controller.Web.Editor.{
  entry, with_entry, Source, EditorState, Action, select_channel, select_point, add_point,
  update_point, remove_point, restore_points, discard_all, saved, accept_conflict,
  revision_conflict, snapshot, selection, is_selected, first_channel,
  create_combined_schedule_state, edit_draft, moved_point, without_point, with_draft, saved_draft,
  synchronize_combined_schedule_state, combined_schedule_reducer, run_actions,
}
use aquarium_controller.Web.Editor.Entries.{AllEntries-with_entry, Found, entry-Found}
use aquarium_controller.Web.Editor.WellFormed.{
  IsWellFormed, edit_draft-IsWellFormed, saved_draft-IsWellFormed,
}
use aquarium_controller.Web.Editor.Loops.{
  AllWellFormed, restore_entries-AllWellFormed, discard_drafts-AllWellFormed,
  accept_entries-AllWellFormed, synchronize_sources-AllWellFormed, add_sources-AllWellFormed,
}

-- An action on the draft of a channel
with_draft-AllWellFormed :
    (state : EditorState) (found : Option Draft) (change : Draft → EditorState)
    → AllWellFormed state
    → Found IsWellFormed found
    → ((d : Draft) → IsWellFormed d → AllWellFormed (change d))
    → AllWellFormed (with_draft state found change)
with_draft-AllWellFormed state none change a h step = a
with_draft-AllWellFormed state (some d) change a h step = step d h

pub combined_schedule_reducer-AllWellFormed :
    (state : EditorState) (action : Action)
    → AllWellFormed state
    → AllWellFormed (combined_schedule_reducer state action)
unfolding combined_schedule_reducer synchronize_combined_schedule_state
combined_schedule_reducer-AllWellFormed state (select_channel channel) a =
    with_draft-AllWellFormed state (entry channel state.drafts) _ a
      (entry-Found IsWellFormed channel state.drafts a) (λ d h. a)
combined_schedule_reducer-AllWellFormed state (select_point channel id) a =
    with_draft-AllWellFormed state (entry channel state.drafts) _ a
      (entry-Found IsWellFormed channel state.drafts a)
      (λ d h.
        if_elim AllWellFormed {t = has_point id d.points}
          {x = record state {
            selected_point_ids = with_entry channel (some id) state.selected_point_ids;
          }}
          {y = state} (λ _. a) (λ _. a))
combined_schedule_reducer-AllWellFormed state (add_point channel p current) a =
    with_draft-AllWellFormed state (entry channel state.drafts) _ a
      (entry-Found IsWellFormed channel state.drafts a)
      (λ d h.
        let points = normalize_logical_points (d.points ++ (p ∷ [])) in
        AllEntries-with_entry IsWellFormed channel (edit_draft d points current) state.drafts
          (edit_draft-IsWellFormed d points current h (InOrder-normalize (d.points ++ (p ∷ [])))) a)
combined_schedule_reducer-AllWellFormed state (update_point channel id minute percentage current)
      a =
    with_draft-AllWellFormed state (entry channel state.drafts) _ a
      (entry-Found IsWellFormed channel state.drafts a)
      (λ d h.
        let moved = map (moved_point id minute percentage) d.points in
        AllEntries-with_entry IsWellFormed channel
          (edit_draft d (normalize_logical_points moved) current) state.drafts
          (edit_draft-IsWellFormed d (normalize_logical_points moved) current h
            (InOrder-normalize moved))
          a)
combined_schedule_reducer-AllWellFormed state (remove_point channel id current) a =
    with_draft-AllWellFormed state (entry channel state.drafts) _ a
      (entry-Found IsWellFormed channel state.drafts a)
      (λ d h.
        let points = normalize_logical_points (without_point id d.points) in
        let selected = selection channel state.selected_point_ids in
        if_elim AllWellFormed {t = leb (length d.points) 2} {x = state}
          {y = record state {
            drafts = with_entry channel (edit_draft d points current) state.drafts;
            selected_point_ids =
                with_entry channel
                  (if is_selected id selected then preferred_point_id points else selected)
                  state.selected_point_ids;
          }}
          (λ _. a)
          (λ _.
            AllEntries-with_entry IsWellFormed channel (edit_draft d points current) state.drafts
              (edit_draft-IsWellFormed d points current h
                (InOrder-normalize (without_point id d.points)))
              a))
combined_schedule_reducer-AllWellFormed state (restore_points by_channel current) a =
    restore_entries-AllWellFormed by_channel current state.drafts (record state { drafts = [] }) a
      tt
combined_schedule_reducer-AllWellFormed state discard_all a =
    discard_drafts-AllWellFormed state.drafts (record state { drafts = [] }) a tt
combined_schedule_reducer-AllWellFormed state (saved channel points revision) a =
    with_draft-AllWellFormed state (entry channel state.drafts) _ a
      (entry-Found IsWellFormed channel state.drafts a)
      (λ d h.
        AllEntries-with_entry IsWellFormed channel (saved_draft points revision d) state.drafts
          (saved_draft-IsWellFormed points revision d h) a)
combined_schedule_reducer-AllWellFormed state (accept_conflict channel current) a =
    with_draft-AllWellFormed state (entry channel state.drafts) _ a
      (entry-Found IsWellFormed channel state.drafts a)
      (λ d h. accept_entries-AllWellFormed current state.drafts a)
combined_schedule_reducer-AllWellFormed state (revision_conflict channel current) a =
    with_draft-AllWellFormed state (entry channel state.drafts) _ a
      (entry-Found IsWellFormed channel state.drafts a)
      (λ d h.
        AllEntries-with_entry IsWellFormed channel (record d { conflict_revision = some current })
          state.drafts
          (record { ordered = h.ordered; base_ordered = h.base_ordered; pinned = λ e. h.pinned e })
          a)
combined_schedule_reducer-AllWellFormed state (snapshot sources current) a =
    synchronize_sources-AllWellFormed state current sources
      (record { selected_channel_id = none; selected_point_ids = []; drafts = [] }) a tt

run_actions-kept :
    (actions : List Action) (state : EditorState)
    → AllWellFormed state
    → AllWellFormed (run_actions state actions)
unfolding run_actions
run_actions-kept [] state s = s
run_actions-kept (action ∷ rest) state s =
    run_actions-kept rest (combined_schedule_reducer state action)
      (combined_schedule_reducer-AllWellFormed state action s)

-- After any actions on the state made of any sources, every draft has its points and its baseline in order with their
-- positions counted from 0, and a draft with no pinned revision has the points of its baseline, or equal ones.
pub run_actions-AllWellFormed :
    (sources : List Source) (actions : List Action)
    → AllWellFormed (run_actions (create_combined_schedule_state sources) actions)
unfolding create_combined_schedule_state
run_actions-AllWellFormed sources actions =
    run_actions-kept actions (create_combined_schedule_state sources) (
      add_sources-AllWellFormed sources
        (record {
          selected_channel_id = first_channel sources;
          selected_point_ids = [];
          drafts = [];
        })
        tt)
