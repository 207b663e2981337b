-- ===== src/Web/Editor/Kept.antt =====
-- About the snapshots of the editor: what they leave of a draft with edits.
use aquarium_controller.Prelude.{
  ℕ, ◌≡◌, refl, sym, ap, ◌∙◌, subst, ◌⊎◌, inl, inr, Bool, true, false, not, ◌||◌, List, [], ◌∷◌,
  Option, none, some, if◌then◌else◌, if_elim, ◌==◌, Bool-cases, Text, text_eq, text_eq_sound,
  text_eq_refl,
}
use aquarium_controller.Web.Points.{schedule_points_equal}
use aquarium_controller.Web.Points.Order.{All}
use aquarium_controller.Web.Drafts.{Draft, is_dirty}
use aquarium_controller.Web.Editor.{
  entry, with_entry, Source, EditorState, snapshot, selection, reselected,
  create_combined_schedule_draft, synchronized_with, synchronized_draft, synchronize_sources,
  synchronize_combined_schedule_state, combined_schedule_reducer,
}
use aquarium_controller.Web.Editor.Entries.{entry-with_entry_self, entry-with_entry_ne}

-- A draft of the same schedule with the points of `d`, or with points that are equal to them field by field
pub record Keeps (d d' : Draft) : Type 0 where
  pub same_schedule : d'.schedule_id ≡ d.schedule_id
  pub points_kept : (d'.points ≡ d.points) ⊎ (schedule_points_equal d'.points d.points ≡ true)

-- A source of the channel is one of the schedule of the draft.
pub record Continues (channel : Text) (d : Draft) (source : Source) : Type 0 where
  pub same_schedule : text_eq source.channel_id channel ≡ true → source.schedule_id ≡ d.schedule_id

abbrev pub has_source : Text → List Source → Bool
has_source channel [] = false
has_source channel (source ∷ rest) = text_eq source.channel_id channel || has_source channel rest

abbrev KeptEntry : Draft → Option Draft → Type 0
KeptEntry d found = (d' : Draft) × (found ≡ some d') × Keeps d d'

synchronized_with-Keeps :
    (current : ℕ) (incoming d : Draft)
    → is_dirty d ≡ true
    → incoming.schedule_id ≡ d.schedule_id
    → Keeps d (synchronized_with current incoming d)
unfolding synchronized_with
synchronized_with-Keeps current incoming d dirty same =
    if_elim (Keeps d) {t = not (text_eq d.schedule_id incoming.schedule_id)} {x = incoming}
      (λ other.
        let e : text_eq d.schedule_id incoming.schedule_id ≡ true =
          ap (text_eq d.schedule_id) same ∙ text_eq_refl d.schedule_id in
        absurd (cc))
      (λ _.
        if_elim (Keeps d) {t = d.graph_revision == incoming.graph_revision}
          {x = if is_dirty d then record d { pinned_revision = some current } else d}
          (λ _.
            if_elim (Keeps d) {t = is_dirty d} {x = record d { pinned_revision = some current }}
              {y = d} (λ _. record { same_schedule = refl; points_kept = inl refl })
              (λ _. record { same_schedule = refl; points_kept = inl refl }))
          (λ _.
            if_elim (Keeps d)
              {t = not (is_dirty d) || schedule_points_equal incoming.points d.points}
              {x = incoming}
              (λ accepted. record {
                same_schedule = same;
                points_kept = inr (
                    accepted_equal (is_dirty d) (schedule_points_equal incoming.points d.points)
                      dirty accepted);
              })
              (λ _.
                if_elim (Keeps d) {t = schedule_points_equal incoming.points d.baseline_points}
                  {x = record d {
                    graph_revision = incoming.graph_revision;
                    baseline_points = incoming.points;
                    hidden_boundary_points = incoming.hidden_boundary_points;
                    conflict_revision = none;
                  }}
                  (λ _. record { same_schedule = refl; points_kept = inl refl })
                  (λ _. record { same_schedule = refl; points_kept = inl refl }))))
  where
    accepted_equal : (a b : Bool) → a ≡ true → (not a || b) ≡ true → b ≡ true
    accepted_equal true b h e = e
    accepted_equal false b h e = absurd (cc)

module _ (old : EditorState) (current : ℕ) (channel : Text) (d : Draft) where
  kept_here :
      (source : Source)
      → entry channel old.drafts ≡ some d
      → is_dirty d ≡ true
      → source.schedule_id ≡ d.schedule_id
      → text_eq source.channel_id channel ≡ true
      → (draft : Draft)
      → synchronized_draft current
          (create_combined_schedule_draft source)
          (entry source.channel_id old.drafts)
        ≡ draft
      → (drafts : List (Text × Draft))
      → KeptEntry d (entry channel (with_entry source.channel_id draft drafts))
  unfolding synchronized_draft create_combined_schedule_draft
  kept_here source found dirty same here draft made drafts =
      let e = text_eq_sound source.channel_id channel here in
      let incoming = create_combined_schedule_draft source in
      let picked : synchronized_with current incoming d ≡ draft =
        sym (
          ap (synchronized_draft current incoming)
            (ap (λ (t : Text). entry t old.drafts) e ∙ found))
        ∙ made in
      (
        draft,
        ap (λ (t : Text). entry t (with_entry source.channel_id draft drafts)) (sym e)
            ∙ entry-with_entry_self source.channel_id draft drafts,
        subst (Keeps d) picked (synchronized_with-Keeps current incoming d dirty same),
      )

  elsewhere :
      (source : Source) (rest : List Source) (drafts : List (Text × Draft)) (draft : Draft)
      → text_eq source.channel_id channel ≡ false
      → KeptEntry d (entry channel drafts) ⊎ (has_source channel (source ∷ rest) ≡ true)
      → KeptEntry d (entry channel (with_entry source.channel_id draft drafts))
        ⊎ (has_source channel rest ≡ true)
  elsewhere source rest drafts draft other (inl kept) = inl (
      subst (KeptEntry d) (sym (entry-with_entry_ne source.channel_id channel draft drafts other))
        kept)
  elsewhere source rest drafts draft other (inr h) = inr (rw other at h)

  -- The draft of the channel once one of its sources is through, or if it was kept before
  synchronize_sources-Keeps :
      (sources : List Source) (state : EditorState)
      → entry channel old.drafts ≡ some d
      → is_dirty d ≡ true
      → All (Continues channel d) sources
      → KeptEntry d (entry channel state.drafts) ⊎ (has_source channel sources ≡ true)
      → KeptEntry d (entry channel (synchronize_sources old current sources state).drafts)
  unfolding synchronize_sources
  synchronize_sources-Keeps [] state found dirty a (inl kept) = kept
  synchronize_sources-Keeps [] state found dirty a (inr h) = absurd (cc)
  synchronize_sources-Keeps (source ∷ rest) state found dirty (c, a) earlier =
      let draft =
        synchronized_draft current (create_combined_schedule_draft source)
          (entry source.channel_id old.drafts) in
      let next : EditorState = record state {
        drafts = with_entry source.channel_id draft state.drafts;
        selected_point_ids =
            with_entry source.channel_id
              (reselected (selection source.channel_id old.selected_point_ids) draft.points)
              state.selected_point_ids;
      } in
      synchronize_sources-Keeps rest next found dirty a
        (elim (Bool-cases (text_eq source.channel_id channel)) [
          | inl here ↦
              inl (kept_here source found dirty (c.same_schedule here) here draft refl state.drafts)
          | inr other ↦ elsewhere source rest state.drafts draft other earlier
        ])

-- A snapshot with a source for the channel of a dirty draft, and none of another schedule for that channel, leaves a
-- draft with the same points: they stay, or are replaced by the server's points when these are equal field by field.
pub snapshot-Keeps :
    (state : EditorState) (sources : List Source) (current : ℕ) (channel : Text) (d : Draft)
    → entry channel state.drafts ≡ some d
    → is_dirty d ≡ true
    → All (Continues channel d) sources
    → has_source channel sources ≡ true
    → (d' : Draft) × (entry channel
          (combined_schedule_reducer state (snapshot sources current)).drafts
        ≡ some d')
      × Keeps d d'
unfolding combined_schedule_reducer synchronize_combined_schedule_state
snapshot-Keeps state sources current channel d found dirty continues has =
    synchronize_sources-Keeps state current channel d sources
      (record { selected_channel_id = none; selected_point_ids = []; drafts = [] }) found dirty
      continues (inr has)
