-- ===== src/Domain/Pwm/Rounding.antt =====
-- About roundHalfEven.
use aquarium_controller.Prelude.{◌+◌, ◌*◌, ◌/◌, ◌≤◌, ◌≡◌, inl, inr, true, arith, Bool-cases}
use aquarium_controller.Prelude.Int.{ℤ, pos, negsuc, pos_part, neg_part}
use aquarium_controller.Prelude.Result.{ok}
use aquarium_controller.Number.{finite, unit, is_integer}
use aquarium_controller.Domain.Pwm.{whole, is_even, rounded, round_half_even}

-- `r` is within a half of k / 2^1074, and even where that is exactly a half away.
pub record IsNearest (k r : ℤ) : Type 0 where
  pub above : 2 * (pos_part k + neg_part r * unit) ≤ 2 * (pos_part r * unit + neg_part k) + unit
  pub below : 2 * (pos_part r * unit + neg_part k) ≤ 2 * (pos_part k + neg_part r * unit) + unit
  pub tie_above :
      2 * (pos_part k + neg_part r * unit) ≡ 2 * (pos_part r * unit + neg_part k) + unit
      → is_even r ≡ true
  pub tie_below :
      2 * (pos_part r * unit + neg_part k) ≡ 2 * (pos_part k + neg_part r * unit) + unit
      → is_even r ≡ true

rounded-IsNearest : (k : ℤ) → IsNearest k (rounded k)
unfolding rounded
rounded-IsNearest (pos k) = ground arith
rounded-IsNearest (negsuc k) = ground arith

-- For each finite number, `roundHalfEven` throws nothing and returns an integer that is nearest to it,
-- the even one if two are equally near.
pub round_half_even-IsNearest :
    (k : ℤ) → (r : ℤ) × (round_half_even (finite k) ≡ ok (whole r)) × IsNearest k r
unfolding round_half_even is_integer
round_half_even-IsNearest (pos k) = elim (Bool-cases (is_integer (finite (pos k)))) [
  | inl e ↦ (pos (k / unit), ground arith, ground arith)
  | inr e ↦ (rounded (pos k), rw e, rounded-IsNearest (pos k))
]
round_half_even-IsNearest (negsuc k) = elim (Bool-cases (is_integer (finite (negsuc k)))) [
  | inl e ↦ (negsuc (k / unit), ground arith, ground arith)
  | inr e ↦ (rounded (negsuc k), rw e, rounded-IsNearest (negsuc k))
]
