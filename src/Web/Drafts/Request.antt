-- ===== src/Web/Drafts/Request.antt =====
-- About the request that a draft is saved with: the controller accepts its points.
use aquarium_controller.Prelude.{
  ℕ, ◌≤◌, ◌≡◌, refl, sym, subst, true, ◌&&◌, List, [], ◌∷◌, ◌++◌, map, arith, codes, &&-eq-true,
}
use aquarium_controller.Prelude.Int.{pos, negsuc}
use aquarium_controller.Prelude.Result.{
  ok, plain_error, schema_error, guard, >>=-eq-ok, guard-eq-ok,
}
use aquarium_controller.Number.{Number, nan, infinite, finite, num, is_finite, is_integer, le}
use aquarium_controller.Domain.Schedule.{schedule_graph_from_points}
use aquarium_controller.Domain.Validation.Points.{full}
use aquarium_controller.Domain.Evaluation.{Arithmetic}
use aquarium_controller.Contracts.Schedules.{
  EditorPoint, is_coordinate, is_schedule_point, all_schedule_points, ReplaceScheduleRequest,
  is_replace_schedule_request,
}
use aquarium_controller.Configuration.SchedulePoints.{
  minute_and_percent, validated, validate_schedule_points,
}
use aquarium_controller.Configuration.SchedulePoints.Day.{IsStorable, parts, accepted_points}
use aquarium_controller.Web.Points.{normalize_logical_points, find_minute, schedule_value_at}
use aquarium_controller.Web.Points.Order.{All, minute_of, count-normalize}
use aquarium_controller.Web.Drafts.{
  Draft, is_valid_draft, boundary_point, pushed_boundary, with_boundary_percentage,
  boundary_percentage, completed_points, canonical_schedule_points,
  to_combined_replace_schedule_request,
}
use aquarium_controller.Web.Drafts.Keys.{IsTimed-of_valid}
use aquarium_controller.Web.Drafts.Boundary.{Pushed-boundary}
use aquarium_controller.Web.Drafts.Accepted.{IsDay, IsDay-completed, IsTimed-normalize}

stored_minute :
    (m : Number)
    → (is_integer m && le (num 0) m && le m (num 1439)) ≡ true
    → (m ≡ num (minute_of m)) × (minute_of m ≤ 1439)
unfolding is_integer le
stored_minute (finite (pos k)) h = (ground arith, ground arith)
stored_minute (finite (negsuc k)) h = absurd (ground arith)
stored_minute nan h = absurd (cc)
stored_minute (infinite sign) h = absurd (cc)

stored_percentage :
    (p : Number)
    → (is_finite p && le (num 0) p && le p (num 100)) ≡ true
    → (p ≡ finite (pos (parts p))) × (parts p ≤ full)
unfolding is_finite le
stored_percentage (finite (pos k)) h = (refl, ground arith)
stored_percentage (finite (negsuc k)) h = absurd (ground arith)
stored_percentage nan h = absurd (cc)
stored_percentage (infinite sign) h = absurd (cc)

IsStorable-schedule_point : (p : EditorPoint) → is_schedule_point p ≡ true → IsStorable p
unfolding is_schedule_point
IsStorable-schedule_point p h =
    let (h1, y) = &&-eq-true _ (is_coordinate p.editor_y) h in
    let (h2, x) = &&-eq-true _ (is_coordinate p.editor_x) h1 in
    let (h3, d) =
      &&-eq-true _ (is_finite p.percentage && le (num 0) p.percentage && le p.percentage (num 100))
        h2 in
    let (h4, c) =
      &&-eq-true _
        (is_integer p.minute_of_day && le (num 0) p.minute_of_day && le p.minute_of_day (num 1439))
        h3 in
    let (exact, in_day) = stored_minute p.minute_of_day c in
    let (exact', in_range) = stored_percentage p.percentage d in
    record { whole = cc; in_day = in_day; in_range = in_range }

IsStorable-All :
    (points : List EditorPoint) → all_schedule_points points ≡ true → All IsStorable points
unfolding all_schedule_points
IsStorable-All [] h = tt
IsStorable-All (p ∷ rest) h =
    let (here, later) = &&-eq-true (is_schedule_point p) (all_schedule_points rest) h in
    (IsStorable-schedule_point p here, IsStorable-All rest later)

IsDay-canonical :
    (js : Arithmetic) (d : Draft) (points : List EditorPoint)
    → is_valid_draft d ≡ true
    → canonical_schedule_points js d ≡ ok points
    → (b : Number) × IsDay b points
unfolding canonical_schedule_points completed_points
IsDay-canonical js d points valid made =
    let logical = normalize_logical_points d.points in
    let start = find_minute (num 0) logical in
    let end = find_minute (num 1439) logical in
    let b = boundary_percentage start end (schedule_value_at js logical (num 0)) in
    let (timed, distinct) = IsTimed-of_valid d valid in
    let timed' = IsTimed-normalize d.points timed in
    let distinct' = λ (n : ℕ).
      subst (λ (c : ℕ). c ≤ 1) (sym (count-normalize n d.points timed distinct)) (distinct n) in
    let (first, first_made, rest) =
      >>=-eq-ok (pushed_boundary start (boundary_point d 0 b (codes "start"))) _ made in
    let (last, last_made, done) =
      >>=-eq-ok (pushed_boundary end (boundary_point d 1439 b (codes "end"))) _ rest in
    let same : normalize_logical_points
          (map (with_boundary_percentage b) logical ++ (first ++ last))
        ≡ points =
      cc in
    (
      b,
      subst (IsDay b) same (
          IsDay-completed b logical first last timed' distinct'
            (Pushed-boundary d 0 b (codes "start") logical start (omega arith) timed' distinct' refl
              first_made)
            (Pushed-boundary d 1439 b (codes "end") logical end (omega arith) timed' distinct' refl
              last_made)),
    )

request_points :
    (r : ReplaceScheduleRequest)
    → is_replace_schedule_request r ≡ true
    → all_schedule_points r.points ≡ true
unfolding is_replace_schedule_request
request_points r h = (&&-eq-true _ (all_schedule_points r.points) h).1

accepted_of_day :
    (b : Number) (points : List EditorPoint)
    → IsDay b points
    → all_schedule_points points ≡ true
    → validate_schedule_points points
      ≡ validated (schedule_graph_from_points (map minute_and_percent points))
accepted_of_day b points day h =
    let from_start = day.from_start in
    let to_end = day.to_end in
    accepted_points b points day.positions (IsStorable-All points h) day.ends day.ascending
      day.distinct (omega arith) (omega arith)

-- The points of every request that the editor makes of a draft pass the check of the controller that stores them: they
-- are counted from 0, and make a schedule that `validateScheduleGraph` accepts as it is.
pub to_combined_replace_schedule_request-accepted :
    (js : Arithmetic) (d : Draft) (expected : ℕ) {r : ReplaceScheduleRequest}
    → to_combined_replace_schedule_request js d expected ≡ ok r
    → validate_schedule_points r.points
      ≡ validated (schedule_graph_from_points (map minute_and_percent r.points))
unfolding to_combined_replace_schedule_request
to_combined_replace_schedule_request-accepted js d expected {r} made =
    let (u, valid, made1) = >>=-eq-ok (guard (is_valid_draft d) plain_error) _ made in
    let (points, canonical, made2) = >>=-eq-ok (canonical_schedule_points js d) _ made1 in
    let q : ReplaceScheduleRequest = record { expected_revision = expected; points = points } in
    let (u', parsed, done) =
      >>=-eq-ok (guard (is_replace_schedule_request q) schema_error) _ made2 in
    let (b, day) =
      IsDay-canonical js d points (guard-eq-ok (is_valid_draft d) plain_error valid) canonical in
    let same : q ≡ r = cc in
    subst
      (λ (s : ReplaceScheduleRequest).
        validate_schedule_points s.points
        ≡ validated (schedule_graph_from_points (map minute_and_percent s.points)))
      same
      (accepted_of_day b points day
        (request_points q (guard-eq-ok (is_replace_schedule_request q) schema_error parsed)))
