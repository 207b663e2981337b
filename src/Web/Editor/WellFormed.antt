-- ===== src/Web/Editor/WellFormed.antt =====
-- About the drafts of the editor: what the changes of a single draft keep of it.
use aquarium_controller.Prelude.{
  ℕ, ◌≡◌, ◌≢◌, refl, ap, ◌∙◌, ◌⊎◌, inl, inr, Bool, true, false, not, ◌||◌, List, Option, none, some,
  if◌then◌else◌, if_elim, ◌==◌, text_eq,
}
use aquarium_controller.Contracts.Schedules.{EditorPoint}
use aquarium_controller.Web.Points.{normalize_logical_points, schedule_points_equal}
use aquarium_controller.Web.Points.Sorted.{InOrder, InOrder-normalize}
use aquarium_controller.Web.Points.Equal.{schedule_points_equal_sym}
use aquarium_controller.Web.Drafts.{Draft, is_dirty}
use aquarium_controller.Web.Editor.{
  Source, logical_points, create_combined_schedule_draft, pinned_or, edit_draft, restored_points,
  saved_draft, synchronized_with, synchronized_draft,
}
use aquarium_controller.Web.Editor.Entries.{Found}

abbrev pub Same : List EditorPoint → List EditorPoint → Type 0
Same ps qs = (ps ≡ qs) ⊎ (schedule_points_equal ps qs ≡ true)

-- Points and baseline are in order, and a draft with no pinned revision has the points of its baseline.
pub record IsWellFormed (d : Draft) : Type 0 where
  pub ordered : InOrder 0 d.points
  pub base_ordered : InOrder 0 d.baseline_points
  pub pinned : d.pinned_revision ≡ none → Same d.points d.baseline_points

never_none : (pinned : Option ℕ) (current : ℕ) → pinned_or pinned current ≢ none
never_none none current h = cc
never_none (some revision) current h = cc

pub edit_draft-IsWellFormed :
    (d : Draft) (points : List EditorPoint) (current : ℕ)
    → IsWellFormed d
    → InOrder 0 points
    → IsWellFormed (edit_draft d points current)
edit_draft-IsWellFormed d points current h o = record {
  ordered = o;
  base_ordered = h.base_ordered;
  pinned = λ e. absurd (never_none d.pinned_revision current e);
}

pub create-IsWellFormed : (source : Source) → IsWellFormed (create_combined_schedule_draft source)
unfolding create_combined_schedule_draft
create-IsWellFormed source =
    let sorted = InOrder-normalize (logical_points source.schedule_id source.points) in
    record { ordered = sorted; base_ordered = sorted; pinned = λ e. inl refl }

pub saved_draft-IsWellFormed :
    (points : List EditorPoint) (revision : ℕ) (d : Draft)
    → IsWellFormed d
    → IsWellFormed (saved_draft points revision d)
unfolding saved_draft
saved_draft-IsWellFormed points revision d h =
    let kept = normalize_logical_points points in
    record {
      ordered = h.ordered;
      base_ordered = InOrder-normalize points;
      pinned = λ e. inr (unpinned (schedule_points_equal d.points kept) e);
    }
  where
    unpinned : (b : Bool) → (if not b then some revision else none) ≡ none → b ≡ true
    unpinned true e = refl
    unpinned false e = absurd (cc)

pub restored-IsWellFormed :
    (restored : Option (List EditorPoint)) (current : ℕ) (d : Draft)
    → IsWellFormed d
    → IsWellFormed (edit_draft d (restored_points restored d) current)
unfolding restored_points
restored-IsWellFormed none current d h = edit_draft-IsWellFormed d d.points current h h.ordered
restored-IsWellFormed (some points) current d h =
    edit_draft-IsWellFormed d (normalize_logical_points points) current h (InOrder-normalize points)

-- A baseline replaced by points that are equal to it
rebased-Same :
    (d : Draft) (points : List EditorPoint)
    → is_dirty d ≡ true
    → schedule_points_equal points d.baseline_points ≡ true
    → Same d.points d.baseline_points
    → Same d.points points
unfolding is_dirty
rebased-Same d points dirty equal (inl same) = inr (
    ap (λ (ps : List EditorPoint). schedule_points_equal ps points) same
    ∙ schedule_points_equal_sym d.baseline_points points
    ∙ equal)
rebased-Same d points dirty equal (inr clean) = absurd (cc)

synchronized_with-IsWellFormed :
    (current : ℕ) (incoming d : Draft)
    → IsWellFormed incoming
    → IsWellFormed d
    → IsWellFormed (synchronized_with current incoming d)
unfolding synchronized_with
synchronized_with-IsWellFormed current incoming d new h =
    if_elim IsWellFormed {t = not (text_eq d.schedule_id incoming.schedule_id)} {x = incoming}
      (λ _. new)
      (λ _.
        if_elim IsWellFormed {t = d.graph_revision == incoming.graph_revision}
          {x = if is_dirty d then record d { pinned_revision = some current } else d}
          (λ _.
            if_elim IsWellFormed {t = is_dirty d} {x = record d { pinned_revision = some current }}
              {y = d}
              (λ _. record {
                ordered = h.ordered;
                base_ordered = h.base_ordered;
                pinned = λ e. absurd (cc);
              })
              (λ _. h))
          (λ _.
            if_elim IsWellFormed
              {t = not (is_dirty d) || schedule_points_equal incoming.points d.points}
              {x = incoming} (λ _. new)
              (λ refused.
                if_elim IsWellFormed {t = schedule_points_equal incoming.points d.baseline_points}
                  {x = record d {
                    graph_revision = incoming.graph_revision;
                    baseline_points = incoming.points;
                    hidden_boundary_points = incoming.hidden_boundary_points;
                    conflict_revision = none;
                  }}
                  (λ equal. record {
                    ordered = h.ordered;
                    base_ordered = new.ordered;
                    pinned = λ e.
                        rebased-Same d incoming.points
                          (still_dirty (is_dirty d) (schedule_points_equal incoming.points d.points)
                            refused)
                          equal (h.pinned e);
                  })
                  (λ _. record {
                    ordered = h.ordered;
                    base_ordered = h.base_ordered;
                    pinned = λ e. h.pinned e;
                  }))))
  where
    still_dirty : (a b : Bool) → (not a || b) ≡ false → a ≡ true
    still_dirty true b e = refl
    still_dirty false b e = absurd (cc)

pub synchronized_draft-IsWellFormed :
    (current : ℕ) (incoming : Draft) (existing : Option Draft)
    → IsWellFormed incoming
    → Found IsWellFormed existing
    → IsWellFormed (synchronized_draft current incoming existing)
unfolding synchronized_draft
synchronized_draft-IsWellFormed current incoming none new h = new
synchronized_draft-IsWellFormed current incoming (some d) new h =
    synchronized_with-IsWellFormed current incoming d new h
