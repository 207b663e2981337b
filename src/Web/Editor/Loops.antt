-- ===== src/Web/Editor/Loops.antt =====
-- About the loops of the editor over its drafts: what they keep of every draft.
use aquarium_controller.Prelude.{ℕ, refl, inl, List, [], ◌∷◌, none, some, if_elim, Text}
use aquarium_controller.Contracts.Schedules.{EditorPoint}
use aquarium_controller.Web.Points.{preferred_point_id}
use aquarium_controller.Web.Drafts.{Draft, is_dirty}
use aquarium_controller.Web.Editor.{
  entry, with_entry, Source, EditorState, selection, reselected, repair_selection,
  create_combined_schedule_draft, add_sources, edit_draft, restored_points, restore_entries,
  discard_drafts, accept_entries, synchronized_draft, synchronize_sources,
}
use aquarium_controller.Web.Editor.Entries.{AllEntries, AllEntries-with_entry, entry-Found}
use aquarium_controller.Web.Editor.WellFormed.{
  IsWellFormed, create-IsWellFormed, restored-IsWellFormed, synchronized_draft-IsWellFormed,
}

abbrev pub AllWellFormed : EditorState → Type 0
AllWellFormed state = AllEntries IsWellFormed state.drafts

pub restore_entries-AllWellFormed :
    (by_channel : List (Text × List EditorPoint)) (current : ℕ) (drafts : List (Text × Draft))
    (state : EditorState)
    → AllEntries IsWellFormed drafts
    → AllWellFormed state
    → AllWellFormed (restore_entries by_channel current drafts state)
unfolding restore_entries
restore_entries-AllWellFormed by_channel current [] state a s = s
restore_entries-AllWellFormed by_channel current ((channel, d) ∷ rest) state (h, a) s =
    let points = restored_points (entry channel by_channel) d in
    restore_entries-AllWellFormed by_channel current rest
      (record state {
        drafts = with_entry channel (edit_draft d points current) state.drafts;
        selected_point_ids = repair_selection channel points state.selected_point_ids;
      })
      a
      (AllEntries-with_entry IsWellFormed channel (edit_draft d points current) state.drafts
        (restored-IsWellFormed (entry channel by_channel) current d h) s)

pub discard_drafts-AllWellFormed :
    (drafts : List (Text × Draft)) (state : EditorState)
    → AllEntries IsWellFormed drafts
    → AllWellFormed state
    → AllWellFormed (discard_drafts drafts state)
unfolding discard_drafts
discard_drafts-AllWellFormed [] state a s = s
discard_drafts-AllWellFormed ((channel, d) ∷ rest) state (h, a) s =
    let discarded : Draft = record d {
      points = d.baseline_points;
      pinned_revision = none;
      conflict_revision = none;
    } in
    discard_drafts-AllWellFormed rest
      (record state {
        drafts = with_entry d.channel_id discarded state.drafts;
        selected_point_ids =
            repair_selection d.channel_id discarded.points state.selected_point_ids;
      })
      a
      (AllEntries-with_entry IsWellFormed d.channel_id discarded state.drafts
        (record { ordered = h.base_ordered; base_ordered = h.base_ordered; pinned = λ e. inl refl })
        s)

pub accept_entries-AllWellFormed :
    (current : ℕ) (drafts : List (Text × Draft))
    → AllEntries IsWellFormed drafts
    → AllEntries IsWellFormed (accept_entries current drafts)
unfolding accept_entries
accept_entries-AllWellFormed current [] a = tt
accept_entries-AllWellFormed current ((channel, d) ∷ rest) (h, a) =
    let later = accept_entries current rest in
    let kept = accept_entries-AllWellFormed current rest a in
    if_elim (AllEntries IsWellFormed) {t = is_dirty d}
      {x = (channel, record d { pinned_revision = some current; conflict_revision = none }) ∷ later}
      {y = (channel, d) ∷ later}
      (λ _. (
        record { ordered = h.ordered; base_ordered = h.base_ordered; pinned = λ e. absurd (cc) },
        kept,
      ))
      (λ _. (h, kept))

pub synchronize_sources-AllWellFormed :
    (old : EditorState) (current : ℕ) (sources : List Source) (state : EditorState)
    → AllWellFormed old
    → AllWellFormed state
    → AllWellFormed (synchronize_sources old current sources state)
unfolding synchronize_sources
synchronize_sources-AllWellFormed old current [] state a s = s
synchronize_sources-AllWellFormed old current (source ∷ rest) state a s =
    let incoming = create_combined_schedule_draft source in
    let draft = synchronized_draft current incoming (entry source.channel_id old.drafts) in
    synchronize_sources-AllWellFormed old current rest
      (record state {
        drafts = with_entry source.channel_id draft state.drafts;
        selected_point_ids =
            with_entry source.channel_id
              (reselected (selection source.channel_id old.selected_point_ids) draft.points)
              state.selected_point_ids;
      })
      a
      (AllEntries-with_entry IsWellFormed source.channel_id draft state.drafts
        (synchronized_draft-IsWellFormed current incoming (entry source.channel_id old.drafts)
          (create-IsWellFormed source) (entry-Found IsWellFormed source.channel_id old.drafts a))
        s)

pub add_sources-AllWellFormed :
    (sources : List Source) (state : EditorState)
    → AllWellFormed state
    → AllWellFormed (add_sources sources state)
unfolding add_sources
add_sources-AllWellFormed [] state s = s
add_sources-AllWellFormed (source ∷ rest) state s =
    let draft = create_combined_schedule_draft source in
    add_sources-AllWellFormed rest
      (record state {
        drafts = with_entry source.channel_id draft state.drafts;
        selected_point_ids =
            with_entry source.channel_id (preferred_point_id draft.points) state.selected_point_ids;
      })
      (AllEntries-with_entry IsWellFormed source.channel_id draft state.drafts
        (create-IsWellFormed source) s)
