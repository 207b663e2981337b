-- ===== src/Domain/Validation/Points.antt =====
-- About the single checks of validateScheduleGraph, in natural numbers.
use aquarium_controller.Prelude.{ℕ, ◌*◌, ◌/◌, ◌≤◌, ◌<◌, ◌≡◌, refl, List, [], ◌∷◌, ◌++◌, arith, true}
use aquarium_controller.Prelude.Int.{pos, negsuc}
use aquarium_controller.Number.{Number, nan, infinite, finite, num, unit, is_integer, lt, le, eq}
use aquarium_controller.Domain.Schedule.{
  SchedulePoint, ScheduleEndpoint, utc_minute_max, is_valid_utc_minute, is_valid_percent,
}
use aquarium_controller.Domain.Validation.{
  minute_issues, percent_issues, validate_point, order_issues, joint_issues,
}

-- The point at minute `m` with `p` parts of a percent.
abbrev pub point : ℕ → ℕ → SchedulePoint
point m p = record { minute = num m; percent = finite (pos p) }

-- 100 percent
abbrev pub full : ℕ
full = 100 * unit

pub append-eq-nil {ℓ} : {A : Type ℓ} (xs ys : List A) → xs ++ ys ≡ [] → (xs ≡ []) × (ys ≡ [])
append-eq-nil [] ys h = (refl, h)
append-eq-nil (x ∷ xs) ys h = absurd (cc)

minute_of_no_issue :
    (m : Number) (i : ℕ) (end : ScheduleEndpoint)
    → minute_issues m i end ≡ []
    → (n : ℕ) × (m ≡ num n) × (n ≤ utc_minute_max)
unfolding minute_issues is_integer lt
minute_of_no_issue (finite (pos k)) i end h = (k / unit, ground arith, ground arith)
minute_of_no_issue (finite (negsuc k)) i end h = absurd (ground arith)
minute_of_no_issue nan i end h = absurd (ground arith)
minute_of_no_issue (infinite sign) i end h = absurd (ground arith)

percent_of_no_issue :
    (p : Number) (i : ℕ) (end : ScheduleEndpoint)
    → percent_issues p i end ≡ []
    → (q : ℕ) × (p ≡ finite (pos q)) × (q ≤ full)
unfolding percent_issues lt
percent_of_no_issue (finite (pos k)) i end h = (k, refl, ground arith)
percent_of_no_issue (finite (negsuc k)) i end h = absurd (ground arith)
percent_of_no_issue nan i end h = absurd (ground arith)
percent_of_no_issue (infinite sign) i end h = absurd (ground arith)

-- A point passes exactly if it is a minute of the day with a percent from 0 to 100.
pub point_of_no_issue :
    (p : SchedulePoint) (i : ℕ) (end : ScheduleEndpoint)
    → validate_point p i end ≡ []
    → (m : ℕ) × (q : ℕ) × (p ≡ point m q) × (m ≤ utc_minute_max) × (q ≤ full)
unfolding validate_point
point_of_no_issue p i end h =
    let (a, b) = append-eq-nil (minute_issues p.minute i end) (percent_issues p.percent i end) h in
    let (m, em, hm) = minute_of_no_issue p.minute i end a in
    let (q, eq', hq) = percent_of_no_issue p.percent i end b in (m, q, cc, hm, hq)

pub no_issue_of_point :
    (m q i : ℕ) (end : ScheduleEndpoint)
    → m ≤ utc_minute_max
    → q ≤ full
    → validate_point (point m q) i end ≡ []
unfolding validate_point minute_issues percent_issues is_integer lt
no_issue_of_point m q i end hm hq = ground arith

pub is_valid_utc_minute-num : (m : ℕ) → m ≤ utc_minute_max → is_valid_utc_minute (num m) ≡ true
unfolding is_valid_utc_minute is_integer le
is_valid_utc_minute-num m h = ground arith

pub is_valid_percent-finite : (q : ℕ) → q ≤ full → is_valid_percent (finite (pos q)) ≡ true
unfolding is_valid_percent le
is_valid_percent-finite q h = ground arith

lt_of_ordered :
    (i m n : ℕ)
    → m ≤ utc_minute_max
    → n ≤ utc_minute_max
    → order_issues i (num m) (num n) ≡ []
    → m < n
unfolding order_issues lt eq
lt_of_ordered i m n hm hn h =
    ground (arith, is_valid_utc_minute-num m hm, is_valid_utc_minute-num n hn)

pub lt_of_no_issue :
    (i m n : ℕ) {a b : Number}
    → m ≤ utc_minute_max
    → n ≤ utc_minute_max
    → a ≡ num m
    → b ≡ num n
    → order_issues i a b ≡ []
    → m < n
lt_of_no_issue i m n hm hn ea eb h = lt_of_ordered i m n hm hn (rw (ea, eb) at h)

pub no_issue_of_lt : (i m n : ℕ) → m < n → order_issues i (num m) (num n) ≡ []
unfolding order_issues lt eq
no_issue_of_lt i m n h = ground arith

eq_of_joined :
    (i m n p q : ℕ)
    → m ≤ utc_minute_max
    → n ≤ utc_minute_max
    → p ≤ full
    → q ≤ full
    → joint_issues i (point m p) (point n q) ≡ []
    → (m ≡ n) × (p ≡ q)
unfolding joint_issues lt eq
eq_of_joined i m n p q hm hn hp hq h = ground (
  arith,
  is_valid_utc_minute-num m hm,
  is_valid_utc_minute-num n hn,
  is_valid_percent-finite p hp,
  is_valid_percent-finite q hq,
)

pub eq_of_no_issue :
    (i m n p q : ℕ) {a b : SchedulePoint}
    → m ≤ utc_minute_max
    → n ≤ utc_minute_max
    → p ≤ full
    → q ≤ full
    → a ≡ point m p
    → b ≡ point n q
    → joint_issues i a b ≡ []
    → (m ≡ n) × (p ≡ q)
eq_of_no_issue i m n p q hm hn hp hq ea eb h = eq_of_joined i m n p q hm hn hp hq (rw (ea, eb) at h)

pub no_issue_of_eq : (i m p : ℕ) → joint_issues i (point m p) (point m p) ≡ []
unfolding joint_issues lt eq
no_issue_of_eq i m p = ground arith
