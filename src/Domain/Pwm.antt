-- ===== src/Domain/Pwm.antt =====
-- packages/domain/src/schedule.ts: roundHalfEven and toHostPwm. `Math.floor` is exact here; so is
-- `value - lower`, but for values above -0.5 and below 0, whose nearest even integer is 0 either way.
pub mod Rounding
pub mod Range
use aquarium_controller.Prelude.{
  ℕ, zero, suc, ◌+◌, ◌-◌, ◌*◌, ◌/◌, ◌%◌, ◌^◌, Bool, true, false, not, ◌&&◌, ◌||◌, if◌then◌else◌,
  ltb, ◌==◌,
}
use aquarium_controller.Prelude.Int.{ℤ, pos, negsuc}
use aquarium_controller.Prelude.Result.{Result, ok, throw, range_error, guard, ◌>>=◌, ◌>>◌}
use aquarium_controller.Number.{
  Number, nan, infinite, finite, num, unit, is_finite, is_integer, lt, le,
}
use aquarium_controller.Domain.Schedule.{is_valid_percent}
use aquarium_controller.Domain.Evaluation.{Arithmetic}

-- The number that an integer is.
abbrev pub whole : ℤ → Number
whole (pos n) = num n
whole (negsuc n) = finite (negsuc ((n + 1) * unit - 1))

-- Math.floor of a finite number, and what it leaves, in parts of 2^-1074
abbrev pub floor : ℤ → ℤ
floor (pos k) = pos (k / unit)
floor (negsuc k) = negsuc (k / unit)

abbrev pub fraction : ℤ → ℕ
fraction (pos k) = k % unit
fraction (negsuc k) = unit - 1 - k % unit

abbrev pub half : ℕ
half = 2 ^ 1073

abbrev pub is_even : ℤ → Bool
is_even (pos n) = n % 2 == 0
is_even (negsuc n) = (n + 1) % 2 == 0

abbrev pub succ : ℤ → ℤ
succ (pos n) = pos (n + 1)
succ (negsuc zero) = pos 0
succ (negsuc (suc n)) = negsuc n

pub rounded : ℤ → ℤ
rounded k =
    let lower = floor k in
    if ltb (fraction k) half
    then lower
    else if ltb half (fraction k)
    then succ lower
    else if is_even lower
    then lower
    else succ lower

unfoldable pub round_half_even : Number → Result Number
unfolding rounded
round_half_even (finite k) = ok (if is_integer (finite k) then finite k else whole (rounded k))
round_half_even _ = throw range_error

-- Math.max and Math.min of two arguments; NaN if one of them is.
unfoldable pub max_number : Number → Number → Number
max_number nan b = nan
max_number a nan = nan
max_number a b = if lt a b then b else a

unfoldable pub min_number : Number → Number → Number
min_number nan b = nan
min_number a nan = nan
min_number a b = if lt b a then b else a

pub clamp : Number → Number → Number → Number
clamp value minimum maximum = min_number (max_number value minimum) maximum

pub assert_percent : Number → Result (Unit {0})
assert_percent p = guard (is_valid_percent p) range_error

abbrev pub host_pwm_max : ℕ
host_pwm_max = 255

module _ (js : Arithmetic) where
  open js use {mul, div}

  pub scaled_pwm : Number → Number → Number → Number
  scaled_pwm percent throttle_percent gain =
      let throttle_gain = mul (div throttle_percent (num 100)) gain in
      mul (mul (div percent (num 100)) (num host_pwm_max)) throttle_gain

  unfoldable pub to_host_pwm : Number → Number → Number → Result Number
  unfolding clamp assert_percent
  to_host_pwm percent throttle_percent gain = do
    assert_percent percent
    assert_percent throttle_percent
    guard (not (not (is_finite gain) || lt gain (num 0))) range_error
    r ← round_half_even (scaled_pwm percent throttle_percent gain)
    ok (clamp r (num 0) (num host_pwm_max))
