-- ===== src/Domain/Evaluation.antt =====
-- packages/domain/src/schedule.ts: the value of a schedule at a minute. Sums, products and roundings
-- of doubles are the engine's, and a parameter; the choice of the segment is all comparisons.
pub mod Coverage
use aquarium_controller.Prelude.{
  ℕ, ◌+◌, ◌*◌, ◌/◌, ◌-◌, Bool, not, ◌&&◌, List, [], ◌∷◌, if◌then◌else◌, ◌==◌,
}
use aquarium_controller.Prelude.Int.{ℤ, pos, negsuc}
use aquarium_controller.Prelude.Result.{
  Result, ok, throw, range_error, plain_error, guard, ◌>>=◌, ◌>>◌,
}
use aquarium_controller.Number.{Number, finite, num, unit, is_finite, lt, le, eq}
use aquarium_controller.Domain.Schedule.{
  ScheduleSegment, ScheduleGraph, is_valid_utc_minute, is_valid_percent,
}

-- The floating-point arithmetic of the JavaScript engine.
pub record Arithmetic : Type 0 where
  pub add : Number → Number → Number
  pub sub : Number → Number → Number
  pub mul : Number → Number → Number
  pub div : Number → Number → Number
  pub fround : Number → Number

-- Date: getTime, getUTCHours, getUTCMinutes
pub record UtcDate : Type 0 where
  pub time : Number
  pub utc_hours : ℕ
  pub utc_minutes : ℕ

pub assert_utc_minute : Number → Result (Unit {0})
assert_utc_minute m = guard (is_valid_utc_minute m) range_error

-- The test of both loops: does the segment hold the minute, its ends included?
pub covers : ScheduleSegment → Number → Bool
covers s minute = le s.source.minute minute && le minute s.target.minute

-- Math.trunc; nan and the infinities are their own truncations.
pub trunc : Number → Number
trunc (finite (pos k)) = num (k / unit)
trunc (finite (negsuc k)) =
    let whole = (k + 1) / unit * unit in if whole == 0 then num 0 else finite (negsuc (whole - 1))
trunc x = x

module _ (js : Arithmetic) where
  open js use {add, sub, mul, div, fround}

  pub interpolate_segment : ScheduleSegment → Number → Number
  interpolate_segment s minute =
      let duration = sub s.target.minute s.source.minute in
      let progress = div (sub minute s.source.minute) duration in
      add s.source.percent (mul progress (sub s.target.percent s.source.percent))

  -- The loop; at its end an Error is thrown.
  pub find_percent : List ScheduleSegment → Number → Result Number
  find_percent [] minute = throw plain_error
  find_percent (s ∷ rest) minute =
      if covers s minute then ok (interpolate_segment s minute) else find_percent rest minute

  unfoldable pub evaluate_schedule_percent : ScheduleGraph → Number → Result Number
  unfolding assert_utc_minute find_percent
  evaluate_schedule_percent g minute = do assert_utc_minute minute; find_percent g.segments minute

  -- The firmware's interpolation, in single precision
  pub legacy_value : ScheduleSegment → Number → Number
  legacy_value s minute =
      if eq s.source.minute s.target.minute
      then trunc s.source.percent
      else let progress =
          fround (div (sub minute s.source.minute) (sub s.target.minute s.source.minute)) in
        let delta = fround (mul (sub s.target.percent s.source.percent) progress) in
        trunc (fround (add s.source.percent delta))

  pub find_legacy : List ScheduleSegment → Number → Number
  find_legacy [] minute = num 0
  find_legacy (s ∷ rest) minute =
      if covers s minute then legacy_value s minute else find_legacy rest minute

  unfoldable pub evaluate_legacy_schedule_percent_or_zero :
      List ScheduleSegment → Number → Result Number
  unfolding assert_utc_minute find_legacy
  evaluate_legacy_schedule_percent_or_zero segments minute = do
    assert_utc_minute minute
    ok (find_legacy segments minute)

unfoldable pub utc_minute_of_day : UtcDate → Result Number
utc_minute_of_day at = do
  guard (is_finite at.time) range_error
  ok (num (at.utc_hours * 60 + at.utc_minutes))

module _ (js : Arithmetic) where
  pub evaluate_schedule_percent_at_utc : ScheduleGraph → UtcDate → Result Number
  evaluate_schedule_percent_at_utc g at = do
    minute ← utc_minute_of_day at
    evaluate_schedule_percent js g minute
