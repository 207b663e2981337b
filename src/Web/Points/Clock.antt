-- ===== src/Web/Points/Clock.antt =====
-- apps/web/src/combined-schedule-state.ts: minuteToTime and timeToMinute, the time of a point as a text. A minute is a
-- whole number here.
use aquarium_controller.Prelude.{
  ℕ, zero, suc, ◌+◌, ◌-◌, ◌*◌, ◌/◌, ◌%◌, ◌≤◌, ◌<◌, ◌≡◌, ◌↔◌, refl, sym, ap, ◌∙◌, inl, inr, Bool,
  true, ◌&&◌, [], ◌∷◌, ◌++◌, Option, none, some, if◌then◌else◌, ltb, leb, ◌==◌, arith, Bool-cases,
  Text,
}
use aquarium_controller.Protocol.ScheduleDocument.{decimal_text, digits_from}

-- padStart(2, "0")
abbrev pub pad_two : Text → Text
pad_two [] = 48 ∷ 48 ∷ []
pad_two (c ∷ []) = 48 ∷ c ∷ []
pad_two (c ∷ d ∷ rest) = c ∷ d ∷ rest

abbrev pub clamped_minute : ℕ → ℕ
clamped_minute m = if leb m 1439 then m else 1439

unfoldable pub minute_to_time : ℕ → Text
unfolding decimal_text
minute_to_time m =
    pad_two (decimal_text (clamped_minute m / 60))
    ++ (58 ∷ pad_two (decimal_text (clamped_minute m % 60)))

-- [low-top] of the expression
abbrev pub is_between : ℕ → ℕ → ℕ → Bool
is_between low top c = leb low c && leb c top

abbrev pub of_digits : ℕ → ℕ → ℕ → ℕ → Option ℕ
of_digits a b c d =
    let hour = (a - 48) * 10 + (b - 48) in
    if ltb 23 hour then none else some (hour * 60 + ((c - 48) * 10 + (d - 48)))

unfoldable pub time_to_minute : Text → Option ℕ
time_to_minute (a ∷ b ∷ colon ∷ c ∷ d ∷ []) =
    if is_between 48 50 a
      && is_between 48 57 b
      && colon == 58
      && is_between 48 53 c
      && is_between 48 57 d
    then of_digits a b c d
    else none
time_to_minute _ = none

two_digits : (n : ℕ) → n < 100 → pad_two (decimal_text n) ≡ (48 + n / 10) ∷ (48 + n % 10) ∷ []
unfolding decimal_text digits_from
two_digits zero h = refl
two_digits (suc zero) h = refl
two_digits (suc (suc n)) h = elim (Bool-cases (ltb (suc (suc n)) 10)) [
  | inl e ↦ rw e (ground arith)
  | inr e ↦ let e' : ltb (suc (suc n) / 10) 10 ≡ true = ground arith in rw (e, e') (ground arith)
]

minute_to_time_digits :
    (m : ℕ)
    → m ≤ 1439
    → minute_to_time m
      ≡ (48 + m / 60 / 10) ∷ (48 + m / 60 % 10) ∷ 58 ∷ (48 + m % 60 / 10) ∷ (48 + m % 60 % 10) ∷ []
unfolding minute_to_time
minute_to_time_digits m h =
    let same : clamped_minute m ≡ m = ground arith in
    rw (same, two_digits (m / 60) (omega arith), two_digits (m % 60) (omega arith)) refl

-- What is read of five characters that pass the test
read_digits :
    (a b c d m : ℕ)
    → (is_between 48 50 a
        && is_between 48 57 b
        && 58 == 58
        && is_between 48 53 c
        && is_between 48 57 d)
      ≡ true
    → of_digits a b c d ≡ some m
    → (m ≤ 1439)
      × (a ≡ 48 + m / 60 / 10)
      × (b ≡ 48 + m / 60 % 10)
      × (c ≡ 48 + m % 60 / 10)
      × (d ≡ 48 + m % 60 % 10)
read_digits a b c d m h e = ground arith

minute_read : (t : Text) (m : ℕ) → time_to_minute t ≡ some m → (m ≤ 1439) × (minute_to_time m ≡ t)
unfolding time_to_minute
minute_read [] m h = absurd (cc)
minute_read (a ∷ []) m h = absurd (cc)
minute_read (a ∷ b ∷ []) m h = absurd (cc)
minute_read (a ∷ b ∷ colon ∷ []) m h = absurd (cc)
minute_read (a ∷ b ∷ colon ∷ c ∷ []) m h = absurd (cc)
minute_read (a ∷ b ∷ colon ∷ c ∷ d ∷ []) m h =
    let test =
      is_between 48 50 a
      && is_between 48 57 b
      && colon == 58
      && is_between 48 53 c
      && is_between 48 57 d in
    elim (Bool-cases test) [
      | inl e ↦
          let at : colon ≡ 58 = ground arith in
          let (small, ea, eb, ec, ed) = read_digits a b c d m (rw at at e) (rw e at h) in
          (small, minute_to_time_digits m small ∙ cc)
      | inr e ↦ absurd (let none' = rw e at h in cc)
    ]
minute_read (a ∷ b ∷ colon ∷ c ∷ d ∷ x ∷ rest) m h = absurd (cc)

minute_written : (m : ℕ) → m ≤ 1439 → time_to_minute (minute_to_time m) ≡ some m
unfolding time_to_minute
minute_written m h = rw (minute_to_time_digits m h) (ground arith)

-- `timeToMinute` reads a minute from exactly the texts that `minuteToTime` writes of the minutes of a day, and gives the
-- minute that was written.
pub time_to_minute_iff :
    (t : Text) (m : ℕ) → (time_to_minute t ≡ some m) ↔ ((m ≤ 1439) × (minute_to_time m ≡ t))
time_to_minute_iff t m = (minute_read t m, λ h. ap time_to_minute (sym h.1) ∙ minute_written m h.0)
