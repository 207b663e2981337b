-- ===== src/Web/Points/Equal.antt =====
-- About the comparison of two lists of points, which is symmetric.
use aquarium_controller.Prelude.{
  ◌≡◌, refl, true, false, List, [], ◌∷◌, Option, none, some, ◌==◌, arith, Text, text_eq,
}
use aquarium_controller.Number.{Number, nan, infinite, finite, eq}
use aquarium_controller.Contracts.Schedules.{EditorPoint}
use aquarium_controller.Web.Points.{same_coordinate, same_point, schedule_points_equal}

eq_sym : (a b : Number) → eq a b ≡ eq b a
unfolding eq
eq_sym nan nan = refl
eq_sym nan (infinite true) = refl
eq_sym nan (infinite false) = refl
eq_sym nan (finite b) = refl
eq_sym (infinite true) nan = refl
eq_sym (infinite true) (infinite true) = refl
eq_sym (infinite true) (infinite false) = refl
eq_sym (infinite true) (finite b) = refl
eq_sym (infinite false) nan = refl
eq_sym (infinite false) (infinite true) = refl
eq_sym (infinite false) (infinite false) = refl
eq_sym (infinite false) (finite b) = refl
eq_sym (finite a) nan = refl
eq_sym (finite a) (infinite true) = refl
eq_sym (finite a) (infinite false) = refl
eq_sym (finite a) (finite b) = ground arith

text_eq_sym : (s t : Text) → text_eq s t ≡ text_eq t s
unfolding text_eq
text_eq_sym [] [] = refl
text_eq_sym [] (y ∷ ys) = refl
text_eq_sym (x ∷ xs) [] = refl
text_eq_sym (x ∷ xs) (y ∷ ys) = rw (text_eq_sym xs ys) (ground arith)

same_coordinate_sym : (a b : Option Number) → same_coordinate a b ≡ same_coordinate b a
unfolding same_coordinate
same_coordinate_sym none none = refl
same_coordinate_sym none (some y) = refl
same_coordinate_sym (some x) none = refl
same_coordinate_sym (some x) (some y) = eq_sym x y

same_point_sym : (p q : EditorPoint) → same_point p q ≡ same_point q p
unfolding same_point
same_point_sym p q =
    let swapped : (p.position == q.position) ≡ (q.position == p.position) = ground arith in
    rw
      (
        text_eq_sym p.id q.id,
        swapped,
        eq_sym p.minute_of_day q.minute_of_day,
        eq_sym p.percentage q.percentage,
        same_coordinate_sym p.editor_x q.editor_x,
        same_coordinate_sym p.editor_y q.editor_y,
      )
      refl

pub schedule_points_equal_sym :
    (ps qs : List EditorPoint) → schedule_points_equal ps qs ≡ schedule_points_equal qs ps
unfolding schedule_points_equal
schedule_points_equal_sym [] [] = refl
schedule_points_equal_sym [] (q ∷ qs) = refl
schedule_points_equal_sym (p ∷ ps) [] = refl
schedule_points_equal_sym (p ∷ ps) (q ∷ qs) =
    rw (same_point_sym p q, schedule_points_equal_sym ps qs) refl
