-- ===== src/Web/Drafts/Accepted.antt =====
-- About the points that a draft is saved with: they make a whole day.
use aquarium_controller.Prelude.{
  ℕ, suc, ◌+◌, ◌≡◌, refl, ap, ◌∙◌, inl, inr, List, [], ◌∷◌, ◌++◌, ◌==◌, map, arith, Bool-cases,
}
use aquarium_controller.Prelude.Sorting.{count, count-append, sort_by, IsAscending}
use mathlib.Core.List.{map-append}
use aquarium_controller.Number.{Number}
use aquarium_controller.Contracts.Schedules.{EditorPoint}
use aquarium_controller.Configuration.SchedulePoints.{position_issues}
use aquarium_controller.Configuration.SchedulePoints.Day.{HasEnds, normalized_positions}
use aquarium_controller.Web.Points.{goes_before, with_positions, normalize_logical_points}
use aquarium_controller.Web.Points.Order.{
  All, All-sort_by, key, IsTimed, Distinct, count-normalize, normalize-IsAscending,
}
use aquarium_controller.Web.Drafts.{with_boundary_percentage}
use aquarium_controller.Web.Drafts.Boundary.{
  Pushed, keys-with_boundary, IsTimed-with_boundary, HasEnds-with_boundary,
}

pub All-append :
    (P : EditorPoint → Type 0) (xs ys : List EditorPoint) → All P xs → All P ys → All P (xs ++ ys)
All-append P [] ys a b = b
All-append P (x ∷ xs) ys (h, a) b = (h, All-append P xs ys a b)

pub All-map :
    (P Q : EditorPoint → Type 0) (f : EditorPoint → EditorPoint) (xs : List EditorPoint)
    → ((p : EditorPoint) → P p → Q (f p))
    → All P xs
    → All Q (map f xs)
All-map P Q f [] step a = tt
All-map P Q f (x ∷ xs) step (h, a) = (step x h, All-map P Q f xs step a)

All-with_positions :
    (P : EditorPoint → Type 0) (i : ℕ) (xs : List EditorPoint)
    → ((p : EditorPoint) (n : ℕ) → P p → P (record p { position = n }))
    → All P xs
    → All P (with_positions i xs)
unfolding with_positions
All-with_positions P i [] moved a = tt
All-with_positions P i (x ∷ xs) moved (h, a) =
    (moved x i h, All-with_positions P (suc i) xs moved a)

All-normalize :
    (P : EditorPoint → Type 0) (xs : List EditorPoint)
    → ((p : EditorPoint) (n : ℕ) → P p → P (record p { position = n }))
    → All P xs
    → All P (normalize_logical_points xs)
unfolding normalize_logical_points
All-normalize P xs moved a =
    All-with_positions P 0 (sort_by goes_before xs) moved (All-sort_by P goes_before xs a)

pub IsTimed-normalize :
    (xs : List EditorPoint) → All IsTimed xs → All IsTimed (normalize_logical_points xs)
IsTimed-normalize xs =
    All-normalize IsTimed xs (λ p n h. record { exact = h.exact; in_day = h.in_day })

HasEnds-normalize :
    (b : Number) (xs : List EditorPoint)
    → All (HasEnds b) xs
    → All (HasEnds b) (normalize_logical_points xs)
HasEnds-normalize b xs =
    All-normalize (HasEnds b) xs (λ p n h. record { at_start = h.at_start; at_end = h.at_end })

positions-normalize : (xs : List EditorPoint) → position_issues 0 (normalize_logical_points xs) ≡ []
unfolding normalize_logical_points
positions-normalize xs = normalized_positions (sort_by goes_before xs)

-- Points of a whole day, at different minutes in their order
pub record IsDay (b : Number) (points : List EditorPoint) : Type 0 where
  pub positions : position_issues 0 points ≡ []
  pub ends : All (HasEnds b) points
  pub ascending : IsAscending (map key points)
  pub distinct : Distinct (map key points)
  pub from_start : count 0 (map key points) ≡ 1
  pub to_end : count 1439 (map key points) ≡ 1

count-completed :
    (b : Number) (n : ℕ) (logical first last : List EditorPoint)
    → count n (map key (map (with_boundary_percentage b) logical ++ (first ++ last)))
      ≡ count n (map key logical) + (count n (map key first) + count n (map key last))
count-completed b n logical first last =
    ap (count n) (map-append key (map (with_boundary_percentage b) logical) (first ++ last))
    ∙ count-append n (map key (map (with_boundary_percentage b) logical)) (map key (first ++ last))
    ∙ ap (λ (x : ℕ). x + count n (map key (first ++ last)))
        (ap (count n) (keys-with_boundary b logical))
    ∙ ap (λ (x : ℕ). count n (map key logical) + x)
        (ap (count n) (map-append key first last) ∙ count-append n (map key first) (map key last))

Distinct-completed :
    (b : Number) (logical first last : List EditorPoint)
    → Distinct (map key logical)
    → Pushed 0 b logical first
    → Pushed 1439 b logical last
    → Distinct (map key (map (with_boundary_percentage b) logical ++ (first ++ last)))
Distinct-completed b logical first last d f l n =
    let split = count-completed b n logical first last in
    let once = d n in
    elim (Bool-cases (n == 0)) [
      | inl start ↦
          let e : n ≡ 0 = ground arith in
          let none' : count n (map key last) ≡ 0 = l.other n (ground arith) in
          let total : count n (map key logical) + count n (map key first) ≡ 1 = rw e f.total in
          omega arith
      | inr apart ↦
          let none' : count n (map key first) ≡ 0 = f.other n apart in
          elim (Bool-cases (n == 1439)) [
            | inl end ↦
                let e : n ≡ 1439 = ground arith in
                let total : count n (map key logical) + count n (map key last) ≡ 1 = rw e l.total in
                omega arith
            | inr apart' ↦ let none'' : count n (map key last) ≡ 0 = l.other n apart' in omega arith
          ]
    ]

pub IsDay-completed :
    (b : Number) (logical first last : List EditorPoint)
    → All IsTimed logical
    → Distinct (map key logical)
    → Pushed 0 b logical first
    → Pushed 1439 b logical last
    → IsDay b
        (normalize_logical_points (map (with_boundary_percentage b) logical ++ (first ++ last)))
IsDay-completed b logical first last a d f l =
    let all = map (with_boundary_percentage b) logical ++ (first ++ last) in
    let timed : All IsTimed all =
      All-append IsTimed (map (with_boundary_percentage b) logical) (first ++ last)
        (All-map IsTimed IsTimed (with_boundary_percentage b) logical (IsTimed-with_boundary b) a)
        (All-append IsTimed first last f.timed l.timed) in
    let ends : All (HasEnds b) all =
      All-append (HasEnds b) (map (with_boundary_percentage b) logical) (first ++ last)
        (All-map IsTimed (HasEnds b) (with_boundary_percentage b) logical (HasEnds-with_boundary b)
          a)
        (All-append (HasEnds b) first last f.ends l.ends) in
    let apart : Distinct (map key all) = Distinct-completed b logical first last d f l in
    let same : (n : ℕ) → count n (map key (normalize_logical_points all)) ≡ count n (map key all) =
      λ n. count-normalize n all timed apart in
    let at_start : count 0 (map key all) ≡ 1 =
      let split = count-completed b 0 logical first last in
      let none' : count 0 (map key last) ≡ 0 = l.other 0 refl in
      let total = f.total in omega arith in
    let at_end : count 1439 (map key all) ≡ 1 =
      let split = count-completed b 1439 logical first last in
      let none' : count 1439 (map key first) ≡ 0 = f.other 1439 refl in
      let total = l.total in omega arith in
    record {
      positions = positions-normalize all;
      ends = HasEnds-normalize b all ends;
      ascending = normalize-IsAscending all timed apart;
      distinct = λ n. let e = same n in let h = apart n in omega arith;
      from_start = same 0 ∙ at_start;
      to_end = same 1439 ∙ at_end;
    }
