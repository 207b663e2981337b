-- ===== src/Tests/Schedules.antt =====
-- packages/domain: a day with one rise and one fall, and what is made of it.
use aquarium_controller.Prelude.{ℕ, ◌+◌, ◌*◌, ◌/◌, ◌≤◌, ◌≡◌, ◌⊎◌, ◌↔◌, refl, true, [], ◌∷◌, arith}
use aquarium_controller.Prelude.Int.{ℤ, pos, sub_ℕ}
use aquarium_controller.Prelude.Result.{ok, throw, range_error, map_result}
use aquarium_controller.Number.{Number, nan, finite, num, unit, is_finite, is_integer, lt}
use aquarium_controller.Domain.Schedule.{ScheduleSegment, ScheduleGraph, valid}
use aquarium_controller.Domain.Validation.{validate_schedule_graph}
use aquarium_controller.Domain.Validation.Points.{point}
use aquarium_controller.Domain.Validation.Runs.{IsPeriodic}
use aquarium_controller.Domain.Validation.Complete.{validate_schedule_graph_iff}
use aquarium_controller.Domain.Evaluation.{
  Arithmetic, UtcDate, interpolate_segment, evaluate_schedule_percent, legacy_value,
  evaluate_legacy_schedule_percent_or_zero,
}
use aquarium_controller.Domain.Evaluation.Coverage.{FirstOver, evaluate_schedule_percent_covered}
use aquarium_controller.Domain.Pwm.{round_half_even, whole, scaled_pwm, to_host_pwm, host_pwm_max}
use aquarium_controller.Domain.Pwm.Rounding.{IsNearest, round_half_even-IsNearest}
use aquarium_controller.Domain.Pwm.Range.{AreAccepted, to_host_pwm_byte}
use aquarium_controller.Domain.Compiler.{
  FirmwareScheduleChannelInput, CompiledFirmwareChannel, light, has_pin, compile_segment,
  compile_channel, compile_channels, compile_firmware_schedule,
}
use aquarium_controller.Domain.Compiler.Pins.{Distinct, Keeps, compile_firmware_schedule-Keeps}

-- Arithmetic on the numbers from 0 up that cuts off below 2^-1074
abbrev pub apply : (ℕ → ℕ → ℤ) → Number → Number → Number
apply f (finite (pos a)) (finite (pos b)) = finite (f a b)
apply f x y = nan

abbrev pub exact : Arithmetic
exact = record {
  add = apply (λ a b. pos (a + b));
  sub = apply sub_ℕ;
  mul = apply (λ a b. pos (a * b / unit));
  div = apply (λ a b. pos (a * unit / b));
  fround = λ x. x;
}

abbrev percent : ℕ → ℕ
percent n = n * unit

abbrev day : ScheduleGraph
day = record {
  segments =
      record { source = point 0 (percent 20); target = point 600 (percent 80) }
      ∷ record { source = point 600 (percent 80); target = point 1439 (percent 20) }
      ∷ [];
}

day-IsPeriodic : IsPeriodic day
day-IsPeriodic = (
  percent 20,
  omega arith,
  (
    refl,
    600,
    percent 80,
    refl,
    omega arith,
    omega arith,
    (refl, 1439, percent 20, refl, omega arith, omega arith, (refl, refl)),
  ),
)

day_valid : validate_schedule_graph day ≡ valid day
day_valid = (validate_schedule_graph_iff day).1 day-IsPeriodic

validate_schedule_graph_iff_example : (validate_schedule_graph day ≡ valid day) ↔ IsPeriodic day
validate_schedule_graph_iff_example = validate_schedule_graph_iff day

evaluate_schedule_percent_covered_example :
    (s : ScheduleSegment) × FirstOver 700 day.segments s
    × (evaluate_schedule_percent exact day (num 700) ≡ ok (interpolate_segment exact s (num 700)))
    × (evaluate_legacy_schedule_percent_or_zero exact day.segments (num 700)
        ≡ ok (legacy_value exact s (num 700)))
evaluate_schedule_percent_covered_example =
    evaluate_schedule_percent_covered exact day 700 day_valid (omega arith)

abbrev noon : UtcDate
noon = record { time = num 1767268800000; utc_hours = 12; utc_minutes = 0 }

-- 2.5, which lies between two
abbrev two_and_half : ℤ
two_and_half = pos (5 * unit / 2)

round_half_even-IsNearest_example :
    (r : ℤ) × (round_half_even (finite two_and_half) ≡ ok (whole r)) × IsNearest two_and_half r
round_half_even-IsNearest_example = round_half_even-IsNearest two_and_half

to_host_pwm_byte_example :
    let fine =
      AreAccepted (num 50) (num 100) (num 1)
      × (is_finite (scaled_pwm exact (num 50) (num 100) (num 1)) ≡ true) in
    (fine
      × ((n : ℕ) × (n ≤ host_pwm_max)
          × (to_host_pwm exact (num 50) (num 100) (num 1) ≡ ok (num n))))
    ⊎ ((¬ fine) × (to_host_pwm exact (num 50) (num 100) (num 1) ≡ throw range_error))
to_host_pwm_byte_example = to_host_pwm_byte exact (num 50) (num 100) (num 1)

abbrev lamp : FirmwareScheduleChannelInput
lamp = record {
  pin = num 16;
  kind = light;
  graph = day;
  throttle_percent = num 50;
  output_gain = num 1;
}

abbrev compiled_lamp : CompiledFirmwareChannel
compiled_lamp = record {
  pin = num 16;
  kind = light;
  links =
      record {
        source = record { minute = num 0; percent = num 10 };
        target = record { minute = num 600; percent = num 40 };
      }
      ∷ record {
        source = record { minute = num 600; percent = num 40 };
        target = record { minute = num 1439; percent = num 10 };
      }
      ∷ [];
}

lamp_compiles : compile_firmware_schedule exact (lamp ∷ []) ≡ ok (compiled_lamp ∷ [])
unfolding compile_firmware_schedule compile_channels compile_channel compile_segment has_pin
    map_result round_half_even is_finite is_integer lt
lamp_compiles = refl

compile_firmware_schedule-Keeps_example :
    Distinct [] (num 16 ∷ []) × Keeps (lamp ∷ []) (compiled_lamp ∷ [])
compile_firmware_schedule-Keeps_example =
    compile_firmware_schedule-Keeps exact (lamp ∷ []) lamp_compiles
