-- ===== src/Configuration/SchedulePoints/Day.antt =====
-- About the check of points before they are stored: which lists of points it accepts.
use aquarium_controller.Prelude.{
  ℕ, suc, ◌≤◌, ◌<◌, ◌≡◌, refl, sym, ap, ◌∙◌, subst, inl, inr, List, [], ◌∷◌, ◌==◌, map, arith,
  Bool-cases,
}
use aquarium_controller.Prelude.Int.{pos_part}
use aquarium_controller.Prelude.Sorting.{count, IsAscending, le_of_count}
use aquarium_controller.Number.{Number, finite}
use aquarium_controller.Domain.Schedule.{
  utc_minute_max, segments_from_points, schedule_graph_from_points,
}
use aquarium_controller.Domain.Validation.Points.{point, full}
use aquarium_controller.Domain.Validation.Runs.{Runs, IsPeriodic}
use aquarium_controller.Domain.Validation.Complete.{validate_schedule_graph_iff}
use aquarium_controller.Contracts.Schedules.{EditorPoint}
use aquarium_controller.Configuration.SchedulePoints.{
  position_issues, minute_and_percent, validated, validate_schedule_points,
}
use aquarium_controller.Web.Points.{with_positions, last_point}
use aquarium_controller.Web.Points.Order.{All, key, Distinct, head-Distinct, tail-Distinct}

abbrev pub parts : Number → ℕ
parts (finite k) = pos_part k
parts _ = 0

abbrev pub share : EditorPoint → ℕ
share p = parts p.percentage

-- A point at a whole minute of the day, with a percentage from 0 to 100
pub record IsStorable (p : EditorPoint) : Type 0 where
  pub whole : minute_and_percent p ≡ point (key p) (share p)
  pub in_day : key p ≤ 1439
  pub in_range : share p ≤ full

-- At both ends of the day the percentage is `b`.
pub record HasEnds (b : Number) (p : EditorPoint) : Type 0 where
  pub at_start : key p ≡ 0 → p.percentage ≡ b
  pub at_end : key p ≡ 1439 → p.percentage ≡ b

last-All :
    (P : EditorPoint → Type 0) (p : EditorPoint) (rest : List EditorPoint)
    → All P (p ∷ rest)
    → P (last_point p rest)
last-All P p [] (h, a) = h
last-All P p (q ∷ rest) (h, a) = last-All P q rest a

forward :
    (p q : EditorPoint) (rest : List EditorPoint)
    → IsAscending (map key (p ∷ q ∷ rest))
    → Distinct (map key (p ∷ q ∷ rest))
    → key p < key q
forward p q rest s d =
    let l = s.0.0 in let h = head-Distinct (key p) (map key (q ∷ rest)) d in ground arith

-- Points in the order of their minutes, at different minutes, run from the first to the last.
Runs-points :
    (p : EditorPoint) (rest : List EditorPoint)
    → All IsStorable (p ∷ rest)
    → IsAscending (map key (p ∷ rest))
    → Distinct (map key (p ∷ rest))
    → Runs
        (key p)
        (share p)
        (key (last_point p rest))
        (share (last_point p rest))
        (segments_from_points (map minute_and_percent (p ∷ rest)))
unfolding segments_from_points
Runs-points p [] a s d = (refl, refl)
Runs-points p (q ∷ rest) (hp, (hq, a)) s d = (
  hp.whole,
  key q,
  share q,
  hq.whole,
  forward p q rest s d,
  hq.in_range,
  Runs-points q rest (hq, a) s.1 (tail-Distinct (key p) (map key (q ∷ rest)) d),
)

starts_at_zero :
    (p : EditorPoint) (rest : List EditorPoint)
    → IsAscending (map key (p ∷ rest))
    → 0 < count 0 (map key (p ∷ rest))
    → key p ≡ 0
starts_at_zero p rest s c =
    let low = le_of_count (key p) 0 (map key (p ∷ rest)) (omega arith, s.0) c in omega arith

ends_at_last :
    (p : EditorPoint) (rest : List EditorPoint)
    → All IsStorable (p ∷ rest)
    → IsAscending (map key (p ∷ rest))
    → 0 < count 1439 (map key (p ∷ rest))
    → key (last_point p rest) ≡ 1439
ends_at_last p [] a s c = ground arith
ends_at_last p (q ∷ rest) (hp, (hq, a)) s c =
    ends_at_last q rest (hq, a) s.1
      (elim (Bool-cases (1439 == key p)) [
        | inl same ↦
            let l = s.0.0 in
            let top = hq.in_day in let at : key q ≡ 1439 = ground arith in ground arith
        | inr other ↦ ground arith
      ])

IsPeriodic-points :
    (b : Number) (p : EditorPoint) (rest : List EditorPoint)
    → All IsStorable (p ∷ rest)
    → All (HasEnds b) (p ∷ rest)
    → IsAscending (map key (p ∷ rest))
    → Distinct (map key (p ∷ rest))
    → 0 < count 0 (map key (p ∷ rest))
    → 0 < count 1439 (map key (p ∷ rest))
    → IsPeriodic (record { segments = segments_from_points (map minute_and_percent (p ∷ rest)) })
IsPeriodic-points b p rest a e s d c c' =
    let start = starts_at_zero p rest s c in
    let final = ends_at_last p rest a s c' in
    let level : share (last_point p rest) ≡ share p =
      ap parts ((last-All (HasEnds b) p rest e).at_end final ∙ sym (e.0.at_start start)) in
    (
      share p,
      a.0.in_range,
      subst
          (λ (x : ℕ).
            Runs 0 (share p) utc_minute_max x
              (segments_from_points (map minute_and_percent (p ∷ rest))))
          level
          (subst
            (λ (x : ℕ).
              Runs 0 (share p) x (share (last_point p rest))
                (segments_from_points (map minute_and_percent (p ∷ rest))))
            final
            (subst
              (λ (x : ℕ).
                Runs x (share p) (key (last_point p rest)) (share (last_point p rest))
                  (segments_from_points (map minute_and_percent (p ∷ rest))))
              start (Runs-points p rest a s d))),
    )

no_position_issue : (i : ℕ) (xs : List EditorPoint) → position_issues i (with_positions i xs) ≡ []
unfolding position_issues with_positions
no_position_issue i [] = refl
no_position_issue i (x ∷ xs) = rw (no_position_issue (suc i) xs) (ground arith)

day_graph-IsPeriodic :
    (b : Number) (points : List EditorPoint)
    → All IsStorable points
    → All (HasEnds b) points
    → IsAscending (map key points)
    → Distinct (map key points)
    → 0 < count 0 (map key points)
    → 0 < count 1439 (map key points)
    → IsPeriodic (schedule_graph_from_points (map minute_and_percent points))
unfolding schedule_graph_from_points
day_graph-IsPeriodic b [] a e s d c c' = absurd (omega arith)
day_graph-IsPeriodic b (p ∷ rest) a e s d c c' = IsPeriodic-points b p rest a e s d c c'

-- Points counted from 0 in the order of their different minutes, from 0 to 1439 and with the same percentage at both,
-- are accepted.
pub accepted_points :
    (b : Number) (points : List EditorPoint)
    → position_issues 0 points ≡ []
    → All IsStorable points
    → All (HasEnds b) points
    → IsAscending (map key points)
    → Distinct (map key points)
    → 0 < count 0 (map key points)
    → 0 < count 1439 (map key points)
    → validate_schedule_points points
      ≡ validated (schedule_graph_from_points (map minute_and_percent points))
unfolding validate_schedule_points
accepted_points b points i a e s d c c' =
    let graph = schedule_graph_from_points (map minute_and_percent points) in
    rw (i, (validate_schedule_graph_iff graph).1 (day_graph-IsPeriodic b points a e s d c c')) refl

pub normalized_positions : (xs : List EditorPoint) → position_issues 0 (with_positions 0 xs) ≡ []
normalized_positions xs = no_position_issue 0 xs
