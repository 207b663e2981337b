-- ===== src/Web/Points.antt =====
-- apps/web/src/combined-schedule-state.ts: the points of a schedule in the editor, their order, and the curve they draw.
pub mod Order
pub mod Sorted
pub mod Equal
pub mod Clock
use aquarium_controller.Prelude.{
  ℕ, zero, suc, ◌+◌, ◌*◌, ◌/◌, ◌%◌, ◌-◌, Bool, true, false, not, ◌&&◌, ◌||◌, List, [], ◌∷◌, ◌++◌,
  Option, none, some, if◌then◌else◌, ltb, leb, ◌==◌, Text, text_eq, codes,
}
use aquarium_controller.Prelude.Int.{pos, negsuc}
use aquarium_controller.Prelude.Sorting.{sort_by}
use aquarium_controller.Number.{Number, nan, infinite, finite, num, unit, lt, le, eq}
use aquarium_controller.Domain.Evaluation.{Arithmetic}
use aquarium_controller.Contracts.Schedules.{EditorPoint}

-- `left < right` of two texts
unfoldable pub text_lt : Text → Text → Bool
text_lt s [] = false
text_lt [] (y ∷ ys) = true
text_lt (x ∷ xs) (y ∷ ys) = let rest = text_lt xs ys in if x == y then rest else ltb x y

-- Is the value of the comparison negative? A difference that is 0 or NaN leaves it to the identifiers.
unfoldable pub goes_before : EditorPoint → EditorPoint → Bool
unfolding lt text_lt
goes_before left right =
    if lt left.minute_of_day right.minute_of_day
    then true
    else if lt right.minute_of_day left.minute_of_day
    then false
    else text_lt left.id right.id

unfoldable pub with_positions : ℕ → List EditorPoint → List EditorPoint
with_positions i [] = []
with_positions i (p ∷ rest) = record p { position = i } ∷ with_positions (suc i) rest

unfoldable pub normalize_logical_points : List EditorPoint → List EditorPoint
unfolding with_positions goes_before
normalize_logical_points points = with_positions 0 (sort_by goes_before points)

unfoldable pub same_coordinate : Option Number → Option Number → Bool
unfolding eq
same_coordinate none none = true
same_coordinate (some x) (some y) = eq x y
same_coordinate _ _ = false

unfoldable pub same_point : EditorPoint → EditorPoint → Bool
unfolding same_coordinate eq
same_point p q =
    text_eq p.id q.id
    && p.position == q.position
    && eq p.minute_of_day q.minute_of_day
    && eq p.percentage q.percentage
    && same_coordinate p.editor_x q.editor_x
    && same_coordinate p.editor_y q.editor_y

unfoldable pub schedule_points_equal : List EditorPoint → List EditorPoint → Bool
unfolding same_point
schedule_points_equal [] [] = true
schedule_points_equal (p ∷ ps) (q ∷ qs) = same_point p q && schedule_points_equal ps qs
schedule_points_equal _ _ = false

abbrev pub preferred_point_id : List EditorPoint → Option Text
preferred_point_id [] = none
preferred_point_id (p ∷ rest) = some p.id

unfoldable pub has_point : Text → List EditorPoint → Bool
has_point id [] = false
has_point id (p ∷ rest) = text_eq p.id id || has_point id rest

-- points.find((point) => point.minuteOfDay === minute)
unfoldable pub find_minute : Number → List EditorPoint → Option EditorPoint
unfolding eq
find_minute m [] = none
find_minute m (p ∷ rest) =
    let later = find_minute m rest in if eq p.minute_of_day m then some p else later

abbrev pub last_point : EditorPoint → List EditorPoint → EditorPoint
last_point p [] = p
last_point p (q ∷ rest) = last_point q rest

-- x % 1440, with the sign of x
unfoldable pub remainder_of_day : Number → Number
remainder_of_day (finite (pos k)) = finite (pos (k % (1440 * unit)))
remainder_of_day (finite (negsuc k)) =
    let rest = suc k % (1440 * unit) in if rest == 0 then num 0 else finite (negsuc (rest - 1))
remainder_of_day _ = nan

abbrev pub virtual_point : Text → ℕ → Number → EditorPoint
virtual_point id minute percentage = record {
  id = id;
  position = 0;
  minute_of_day = num minute;
  percentage = percentage;
  editor_x = none;
  editor_y = none;
}

module _ (js : Arithmetic) where
  open js use {add, sub, mul, div}

  unfoldable pub interpolate : Number → Number → Number → Number → Number → Number
  unfolding eq
  interpolate left_minute left_percentage right_minute right_percentage minute =
      let duration = sub right_minute left_minute in
      let progress = div (sub minute left_minute) duration in
      if eq duration (num 0)
      then left_percentage
      else add left_percentage (mul (sub right_percentage left_percentage) progress)

  -- The loop over the neighbours; at its end, none.
  unfoldable pub between_neighbours : Number → EditorPoint → List EditorPoint → Option Number
  unfolding lt interpolate
  between_neighbours minute left [] = none
  between_neighbours minute left (right ∷ rest) =
      let later = between_neighbours minute right rest in
      if lt left.minute_of_day minute && lt minute right.minute_of_day
      then some (
          interpolate left.minute_of_day left.percentage right.minute_of_day right.percentage
            minute)
      else later

  unfoldable pub normalized_minute : Number → Number
  unfolding eq remainder_of_day
  normalized_minute m =
      if eq m (num 1440) then num 1440 else remainder_of_day (add (remainder_of_day m) (num 1440))

  -- From the last point to the first of the next day
  unfoldable pub across_midnight : Number → EditorPoint → EditorPoint → Number
  unfolding lt interpolate
  across_midnight minute first last =
      let target = if lt minute first.minute_of_day then add minute (num 1440) else minute in
      interpolate last.minute_of_day last.percentage (add first.minute_of_day (num 1440))
        first.percentage target

  abbrev pub first_of : Option EditorPoint → Option Number → Number → Number
  first_of (some exact) segment default = exact.percentage
  first_of none (some value) default = value
  first_of none none default = default

  -- scheduleValueAt on sorted points
  unfoldable pub value_of_ordered : Number → List EditorPoint → Number
  unfolding lt find_minute between_neighbours across_midnight
  value_of_ordered minute [] = num 0
  value_of_ordered minute (p ∷ []) = p.percentage
  value_of_ordered minute (p ∷ q ∷ rest) =
      let wrapped = across_midnight minute p (last_point q rest) in
      if lt minute (num 1440)
      then first_of (find_minute minute (p ∷ q ∷ rest)) (between_neighbours minute p (q ∷ rest))
          wrapped
      else wrapped

  unfoldable pub schedule_value_at : List EditorPoint → Number → Number
  unfolding normalize_logical_points normalized_minute value_of_ordered
  schedule_value_at points minute =
      value_of_ordered (normalized_minute minute) (normalize_logical_points points)

  unfoldable pub plot_of : List EditorPoint → List EditorPoint
  unfolding eq schedule_value_at
  plot_of [] = []
  plot_of (first ∷ rest) =
      let ordered = first ∷ rest in
      let end = virtual_point (codes "plot-wrap-end") 1440 (schedule_value_at ordered (num 1440)) in
      let body = ordered ++ (end ∷ []) in
      if not (eq first.minute_of_day (num 0))
      then virtual_point (codes "plot-wrap-start") 0 (schedule_value_at ordered (num 0)) ∷ body
      else body

  unfoldable pub cyclic_plot_points : List EditorPoint → List EditorPoint
  unfolding normalize_logical_points plot_of
  cyclic_plot_points points = plot_of (normalize_logical_points points)
