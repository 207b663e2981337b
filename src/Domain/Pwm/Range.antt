-- ===== src/Domain/Pwm/Range.antt =====
-- About toHostPwm.
use aquarium_controller.Prelude.{ℕ, ◌≤◌, ◌≡◌, refl, ◌⊎◌, inl, inr, true, false, arith, Bool-cases}
use aquarium_controller.Prelude.Int.{ℤ, pos, negsuc}
use aquarium_controller.Prelude.Result.{ok, throw, range_error, ◌>>=◌}
use aquarium_controller.Number.{Number, nan, infinite, finite, num, is_finite, lt}
use aquarium_controller.Domain.Schedule.{is_valid_percent}
use aquarium_controller.Domain.Evaluation.{Arithmetic}
use aquarium_controller.Domain.Pwm.{
  whole, round_half_even, clamp, max_number, min_number, scaled_pwm, to_host_pwm, host_pwm_max,
}
use aquarium_controller.Domain.Pwm.Rounding.{round_half_even-IsNearest}

clamp-whole :
    (r : ℤ) → (n : ℕ) × (n ≤ host_pwm_max) × (clamp (whole r) (num 0) (num host_pwm_max) ≡ num n)
unfolding clamp max_number min_number lt
clamp-whole (pos r) = (Prim.Native.Nat.min r host_pwm_max, omega arith, ground arith)
clamp-whole (negsuc r) = (0, omega arith, ground arith)

pwm-of-scaled :
    (x : Number)
    → ((n : ℕ) × (n ≤ host_pwm_max)
        × (is_finite x ≡ true)
        × ((do r ← round_half_even x; ok (clamp r (num 0) (num host_pwm_max))) ≡ ok (num n)))
      ⊎ ((is_finite x ≡ false) × (round_half_even x ≡ throw range_error))
unfolding is_finite
pwm-of-scaled (finite k) =
    let (r, e, _) = round_half_even-IsNearest k in
    let (n, hn, c) = clamp-whole r in inl (n, hn, refl, rw (e, c))
pwm-of-scaled nan = inr (refl, unfold round_half_even in refl)
pwm-of-scaled (infinite sign) = inr (refl, unfold round_half_even in refl)

-- What `toHostPwm` asks of its arguments
abbrev pub AreAccepted : Number → Number → Number → Type 0
AreAccepted percent throttle gain =
    (is_valid_percent percent ≡ true)
    × (is_valid_percent throttle ≡ true)
    × (is_finite gain ≡ true)
    × (lt gain (num 0) ≡ false)

module _ (js : Arithmetic) where
  -- `toHostPwm` returns a whole number from 0 to 255 if both percents are from 0 to 100, the gain is
  -- finite and not negative, and the product that it rounds is finite; otherwise it throws a RangeError.
  pub to_host_pwm_byte :
      (percent throttle gain : Number)
      → let fine =
          AreAccepted percent throttle gain
          × (is_finite (scaled_pwm js percent throttle gain) ≡ true) in
        (fine
          × ((n : ℕ) × (n ≤ host_pwm_max) × (to_host_pwm js percent throttle gain ≡ ok (num n))))
        ⊎ ((¬ fine) × (to_host_pwm js percent throttle gain ≡ throw range_error))
  unfolding to_host_pwm
  to_host_pwm_byte percent throttle gain = elim (Bool-cases (is_valid_percent percent)) [
    | inr e ↦ inr (λ f. cc (f.0.0), rw e)
    | inl a ↦ elim (Bool-cases (is_valid_percent throttle)) [
      | inr e ↦ inr (λ f. cc (f.0.1), rw (a, e))
      | inl b ↦ elim (Bool-cases (is_finite gain)) [
        | inr e ↦ inr (λ f. cc (f.0.2), rw (a, b, e))
        | inl c ↦ elim (Bool-cases (lt gain (num 0))) [
          | inl e ↦ inr (λ f. cc (f.0.3), rw (a, b, c, e))
          | inr d ↦ elim (pwm-of-scaled (scaled_pwm js percent throttle gain)) [
            | inr (e, r) ↦ inr (λ f. cc (f.1), rw (a, b, c, d, r))
            | inl (n, hn, e, r) ↦ inl (((a, b, c, d), e), (n, hn, rw (a, b, c, d) r))
          ]
        ]
      ]
    ]
  ]
