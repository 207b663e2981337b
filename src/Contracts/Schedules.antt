-- ===== src/Contracts/Schedules.antt =====
-- packages/contracts/src/controller.ts: the points of a schedule and the request that replaces them. A schema is the
-- test of a value whose fields have the right types.
use aquarium_controller.Prelude.{
  ℕ, Bool, true, false, ◌&&◌, ◌||◌, List, [], ◌∷◌, Option, none, some, leb, ◌==◌, length, Text,
}
use aquarium_controller.Number.{Number, num, is_finite, is_integer, le}
use aquarium_controller.Operations.Attempt.{max_safe_integer}

pub record EditorPoint : Type 0 where
  pub id : Text
  pub position : ℕ
  pub minute_of_day : Number
  pub percentage : Number
  pub editor_x : Option Number
  pub editor_y : Option Number

-- identifierSchema, percentageSchema and schedulePointSchema
unfoldable pub is_identifier_start : ℕ → Bool
is_identifier_start c = (leb 48 c && leb c 57) || (leb 65 c && leb c 90) || (leb 97 c && leb c 122)

unfoldable pub is_identifier_character : ℕ → Bool
unfolding is_identifier_start
is_identifier_character c = is_identifier_start c || c == 46 || c == 95 || c == 58 || c == 45

unfoldable pub all_identifier_characters : Text → Bool
unfolding is_identifier_character
all_identifier_characters [] = true
all_identifier_characters (c ∷ rest) = is_identifier_character c && all_identifier_characters rest

unfoldable pub is_identifier : Text → Bool
unfolding is_identifier_start all_identifier_characters
is_identifier [] = false
is_identifier (c ∷ rest) =
    leb (length (c ∷ rest)) 128 && is_identifier_start c && all_identifier_characters rest

unfoldable pub is_coordinate : Option Number → Bool
unfolding is_finite
is_coordinate none = true
is_coordinate (some x) = is_finite x

unfoldable pub is_schedule_point : EditorPoint → Bool
unfolding is_identifier is_coordinate is_integer is_finite le
is_schedule_point p =
    is_identifier p.id
    && leb p.position max_safe_integer
    && (is_integer p.minute_of_day && le (num 0) p.minute_of_day && le p.minute_of_day (num 1439))
    && (is_finite p.percentage && le (num 0) p.percentage && le p.percentage (num 100))
    && is_coordinate p.editor_x
    && is_coordinate p.editor_y

unfoldable pub all_schedule_points : List EditorPoint → Bool
unfolding is_schedule_point
all_schedule_points [] = true
all_schedule_points (p ∷ rest) = is_schedule_point p && all_schedule_points rest

pub record ReplaceScheduleRequest : Type 0 where
  pub expected_revision : ℕ
  pub points : List EditorPoint

-- replaceScheduleRequestSchema
unfoldable pub is_replace_schedule_request : ReplaceScheduleRequest → Bool
unfolding all_schedule_points
is_replace_schedule_request r =
    leb r.expected_revision max_safe_integer
    && leb 2 (length r.points)
    && leb (length r.points) 1440
    && all_schedule_points r.points
