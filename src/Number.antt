-- ===== src/Number.antt =====
-- JavaScript numbers. Every finite double is a whole multiple of 2^-1074, and `finite k` is the
-- number k / 2^1074: so comparisons, tests and `Math.floor` are exact here. The sign of a zero is
-- not kept (`===`, `<` and `>` do not see it).
use aquarium_controller.Prelude.{
  ℕ, ◌*◌, ◌/◌, ◌%◌, ◌^◌, ◌≤◌, ◌≡◌, Bool, true, false, not, ◌&&◌, arith, ltb, leb, ◌==◌,
}
use aquarium_controller.Prelude.Int.{ℤ, pos, negsuc, ltb_ℤ, eqb_ℤ, pos_part, neg_part}

pub data Number : Type 0 where
  nan : Number
  infinite : Bool → Number
  finite : ℤ → Number

abbrev pub unit : ℕ
unit = 2 ^ 1074

-- The number that a natural number is.
abbrev pub num : ℕ → Number
num n = finite (pos (n * unit))

-- Number.isFinite, Number.isInteger
unfoldable pub is_finite : Number → Bool
is_finite (finite k) = true
is_finite _ = false

unfoldable pub is_integer : Number → Bool
is_integer (finite k) = pos_part k % unit == 0 && neg_part k % unit == 0
is_integer _ = false

-- `a < b`; a comparison with NaN is false.
unfoldable pub lt : Number → Number → Bool
lt nan b = false
lt a nan = false
lt (infinite true) (infinite true) = false
lt (infinite true) b = true
lt (infinite false) b = false
lt (finite a) (infinite sign) = not sign
lt (finite a) (finite b) = ltb_ℤ a b

-- `a <= b`
unfoldable pub le : Number → Number → Bool
le nan b = false
le a nan = false
le (infinite true) b = true
le (infinite false) (infinite false) = true
le (infinite false) b = false
le (finite a) (infinite sign) = not sign
le (finite a) (finite b) = not (ltb_ℤ b a)

-- `a === b`
unfoldable pub eq : Number → Number → Bool
eq (finite a) (finite b) = eqb_ℤ a b
eq (infinite true) (infinite true) = true
eq (infinite false) (infinite false) = true
eq _ _ = false

-- The whole numbers keep their order.
pub lt-num : (m n : ℕ) → lt (num m) (num n) ≡ ltb m n
unfolding lt
lt-num m n = ground arith

pub le-num : (m n : ℕ) → le (num m) (num n) ≡ leb m n
unfolding le
le-num m n = ground arith

pub eq-num : (m n : ℕ) → eq (num m) (num n) ≡ (m == n)
unfolding eq
eq-num m n = ground arith

pub eq-finite : (m n : ℕ) → eq (finite (pos m)) (finite (pos n)) ≡ (m == n)
unfolding eq
eq-finite m n = ground arith

-- A whole number between `low` and `top` is a natural number.
pub num_of_range :
    (x : Number) (low top : ℕ)
    → is_integer x ≡ true
    → le (num low) x ≡ true
    → le x (num top) ≡ true
    → (m : ℕ) × (x ≡ num m) × (low ≤ m) × (m ≤ top)
unfolding is_integer le
num_of_range (finite (pos k)) low top i a b = (k / unit, ground arith, ground arith, ground arith)
num_of_range (finite (negsuc k)) low top i a b = absurd (ground arith)
num_of_range nan low top i a b = absurd (cc)
num_of_range (infinite sign) low top i a b = absurd (cc)

pub is_integer-num : (m : ℕ) → is_integer (num m) ≡ true
unfolding is_integer
is_integer-num m = ground arith
