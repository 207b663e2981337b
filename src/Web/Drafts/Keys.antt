-- ===== src/Web/Drafts/Keys.antt =====
-- About the validation of a draft: a valid draft has its points at different whole minutes of the day.
use aquarium_controller.Prelude.{
  ℕ, ◌≤◌, ◌≡◌, refl, sym, ap, ◌∙◌, inl, inr, Bool, true, false, not, ◌&&◌, ◌||◌, List, [], ◌∷◌, ltb,
  ◌==◌, length, map, arith, Bool-cases, Text,
}
use aquarium_controller.Prelude.Int.{pos, negsuc}
use aquarium_controller.Prelude.Sorting.{count}
use aquarium_controller.Number.{Number, nan, infinite, finite, num, is_integer, lt, eq, eq-num}
use aquarium_controller.Domain.Validation.Points.{append-eq-nil}
use aquarium_controller.Contracts.Schedules.{EditorPoint}
use aquarium_controller.Web.Points.Order.{All, minute_of, key, IsTimed, Distinct}
use aquarium_controller.Web.Drafts.{
  Draft, DraftIssue, too_few_points, duplicate_identifier, duplicate_minute, invalid_time,
  invalid_percentage, is_nan, has_text, has_number, issue_if, is_editor_minute,
  is_editor_percentage, point_issues, validate_combined_schedule_draft, is_valid_draft,
}

issue_if-nil : (test : Bool) (issue : DraftIssue) → issue_if test issue ≡ [] → test ≡ false
issue_if-nil false issue h = refl
issue_if-nil true issue h = absurd (cc)

editor_minute_lem :
    (m : Number) → not (is_editor_minute m) ≡ false → (m ≡ num (minute_of m)) × (minute_of m ≤ 1439)
unfolding is_editor_minute is_integer lt
editor_minute_lem (finite (pos k)) h = (ground arith, ground arith)
editor_minute_lem (finite (negsuc k)) h = absurd (ground arith)
editor_minute_lem nan h = absurd (cc)
editor_minute_lem (infinite sign) h = absurd (cc)

-- What the loop leaves to hold of the rest of the points, when it finds nothing
record Passed (minutes : List Number) (points : List EditorPoint) : Type 0 where
  timed : All IsTimed points
  distinct : Distinct (map key points)
  fresh : (n : ℕ) → has_number (num n) minutes ≡ true → count n (map key points) ≡ 0

found_first :
    (x m : Number) (minutes : List Number) → eq m x ≡ true → has_number x (m ∷ minutes) ≡ true
unfolding has_number
found_first x m minutes h = rw h refl

found_later :
    (x m : Number) (minutes : List Number)
    → has_number x minutes ≡ true
    → has_number x (m ∷ minutes) ≡ true
unfolding has_number
found_later x m minutes h = rw h (either_true (eq m x || (is_nan m && is_nan x)))
  where
    either_true : (b : Bool) → (b || true) ≡ true
    either_true true = refl
    either_true false = refl

eq-own_key : (p : EditorPoint) (n : ℕ) → IsTimed p → n ≡ key p → eq p.minute_of_day (num n) ≡ true
eq-own_key p n h e =
    let exact = h.exact in
    ap (λ (m : Number). eq m (num n)) exact
    ∙ eq-num (key p) n
    ∙ (let test : (key p == n) ≡ true = ground arith in test)

Passed-cons :
    (minutes : List Number) (p : EditorPoint) (rest : List EditorPoint)
    → IsTimed p
    → has_number p.minute_of_day minutes ≡ false
    → Passed (p.minute_of_day ∷ minutes) rest
    → Passed minutes (p ∷ rest)
Passed-cons minutes p rest h new later =
    let exact = h.exact in
    let here : (n : ℕ) → n ≡ key p → count n (map key rest) ≡ 0 =
      λ n e. later.fresh n (found_first (num n) p.minute_of_day minutes (eq-own_key p n h e)) in
    record {
      timed = (h, later.timed);
      distinct = λ n. elim (Bool-cases (n == key p)) [
        | inl same ↦
            let e : n ≡ key p = ground arith in
            let z : count n (map key rest) ≡ 0 = here n e in ground arith
        | inr other ↦ let z : count n (map key rest) ≤ 1 = later.distinct n in ground arith
      ];
      fresh = λ n seen. elim (Bool-cases (n == key p)) [
        | inl same ↦
            let e : n ≡ key p = ground arith in
            let found : has_number p.minute_of_day minutes ≡ true =
              ap (λ (m : Number). has_number m minutes) (exact ∙ ap num (sym e)) ∙ seen in
            absurd (cc)
        | inr other ↦
            let z : count n (map key rest) ≡ 0 =
              later.fresh n (found_later (num n) p.minute_of_day minutes seen) in
            ground arith
      ];
    }

Passed-point_issues :
    (identifiers : List Text) (minutes : List Number) (points : List EditorPoint)
    → point_issues identifiers minutes points ≡ []
    → Passed minutes points
unfolding point_issues
Passed-point_issues identifiers minutes [] h = record {
  timed = tt;
  distinct = λ n. omega arith;
  fresh = λ n seen. refl;
}
Passed-point_issues identifiers minutes (p ∷ rest) h =
    let (a, h1) =
      append-eq-nil (issue_if (has_text p.id identifiers) (duplicate_identifier p.id)) _ h in
    let (b, h2) =
      append-eq-nil (issue_if (has_number p.minute_of_day minutes) duplicate_minute) _ h1 in
    let (c, h3) =
      append-eq-nil (issue_if (not (is_editor_minute p.minute_of_day)) invalid_time) _ h2 in
    let (d, h4) =
      append-eq-nil (issue_if (not (is_editor_percentage p.percentage)) invalid_percentage) _ h3 in
    let (exact, in_day) =
      editor_minute_lem p.minute_of_day
        (issue_if-nil (not (is_editor_minute p.minute_of_day)) invalid_time c) in
    Passed-cons minutes p rest (record { exact = exact; in_day = in_day })
      (issue_if-nil (has_number p.minute_of_day minutes) duplicate_minute b)
      (Passed-point_issues (p.id ∷ identifiers) (p.minute_of_day ∷ minutes) rest h4)

nil_of_length : (issues : List DraftIssue) → (length issues == 0) ≡ true → issues ≡ []
nil_of_length [] h = refl
nil_of_length (i ∷ rest) h = absurd (ground arith)

pub IsTimed-of_valid :
    (d : Draft) → is_valid_draft d ≡ true → All IsTimed d.points × Distinct (map key d.points)
unfolding is_valid_draft validate_combined_schedule_draft
IsTimed-of_valid d h =
    let (few, rest) =
      append-eq-nil (issue_if (ltb (length d.points) 2) too_few_points)
        (point_issues [] [] d.points) (nil_of_length (validate_combined_schedule_draft d) h) in
    let passed = Passed-point_issues [] [] d.points rest in (passed.timed, passed.distinct)

pub at_least_two : (d : Draft) → is_valid_draft d ≡ true → 2 ≤ length d.points
unfolding is_valid_draft validate_combined_schedule_draft
at_least_two d h =
    let (few, rest) =
      append-eq-nil (issue_if (ltb (length d.points) 2) too_few_points)
        (point_issues [] [] d.points) (nil_of_length (validate_combined_schedule_draft d) h) in
    let none' = issue_if-nil (ltb (length d.points) 2) too_few_points few in ground arith
