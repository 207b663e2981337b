-- ===== src/Web/Drafts/Sent.antt =====
-- About the request that a draft is saved with: which drafts it is made of.
use aquarium_controller.Prelude.{
  ℕ, ◌+◌, ◌≤◌, ◌≡◌, refl, ap, ◌∙◌, true, false, ◌&&◌, List, [], ◌∷◌, ◌++◌, Option, none, some, leb,
  ltb, length, length-append, map, arith, Text, codes,
}
use aquarium_controller.Prelude.Result.{Result, ok}
use aquarium_controller.Number.{Number, num, is_integer, le, le-num, is_integer-num}
use aquarium_controller.Domain.Evaluation.{Arithmetic}
use aquarium_controller.Operations.Attempt.{max_safe_integer}
use aquarium_controller.Contracts.Schedules.{
  EditorPoint, is_identifier, is_coordinate, all_schedule_points, ReplaceScheduleRequest,
  is_replace_schedule_request,
}
use aquarium_controller.Web.Points.{normalize_logical_points, find_minute, schedule_value_at}
use aquarium_controller.Web.Points.Order.{All}
use aquarium_controller.Web.Drafts.{
  Draft, is_valid_draft, wrap_boundary_prefix, wrap_boundary_identifier, boundary_id, point_at,
  boundary_point, pushed_boundary, with_boundary_percentage, boundary_percentage, completed_points,
  canonical_schedule_points, to_combined_replace_schedule_request,
}
use aquarium_controller.Web.Drafts.Keys.{at_least_two}
use aquarium_controller.Web.Drafts.Accepted.{All-append, All-map}
use aquarium_controller.Web.Drafts.Sendable.{
  is_stored_percentage, IsSent, IsSent-All, length-normalize, length-map, normalized_sent,
  logical-IsSent, Looked, find_minute-Looked, boundary_shared, with_boundary-IsSent,
}

-- What is pushed: at most one point
abbrev IsPushed : Result (List EditorPoint) → Type 0
IsPushed result =
    (pushed : List EditorPoint) × (result ≡ ok pushed) × All IsSent pushed × (length pushed ≤ 1)

minute_in_day :
    (k : ℕ) → k ≤ 1439 → (is_integer (num k) && le (num 0) (num k) && le (num k) (num 1439)) ≡ true
minute_in_day k h = rw (is_integer-num k, le-num 0 k, le-num k 1439) (ground arith)

point_pushed :
    (d : Draft) (edge : Text) (existing : Option EditorPoint)
    → Looked existing
    → is_identifier (wrap_boundary_prefix d.schedule_id ++ edge) ≡ true
    → length (wrap_boundary_prefix d.schedule_id ++ edge) ≤ 128
    → (id : Text) × (boundary_id existing (wrap_boundary_identifier d.schedule_id edge) ≡ ok id)
      × (is_identifier id ≡ true)
unfolding wrap_boundary_identifier
point_pushed d edge (some p) looked named short = (p.id, refl, looked.named)
point_pushed d edge none looked named short =
    let fits : ltb 128 (length (wrap_boundary_prefix d.schedule_id ++ edge)) ≡ false =
      ground arith in
    (wrap_boundary_prefix d.schedule_id ++ edge, rw fits refl, named)

IsPushed-boundary :
    (d : Draft) (k : ℕ) (b : Number) (edge : Text) (found : Option EditorPoint)
    → k ≤ 1439
    → is_stored_percentage b ≡ true
    → All IsSent d.hidden_boundary_points
    → is_identifier (wrap_boundary_prefix d.schedule_id ++ edge) ≡ true
    → length (wrap_boundary_prefix d.schedule_id ++ edge) ≤ 128
    → IsPushed (pushed_boundary found (boundary_point d k b edge))
unfolding boundary_point is_coordinate
IsPushed-boundary d k b edge (some p) h hb hidden named short = ([], refl, tt, omega arith)
IsPushed-boundary d k b edge none h hb hidden named short =
    let existing = find_minute (num k) d.hidden_boundary_points in
    let (id, made, named') =
      point_pushed d edge existing (find_minute-Looked (num k) d.hidden_boundary_points hidden)
        named short in
    (
      point_at k b id ∷ [],
      rw made refl,
      (
        record {
          named = named';
          timed = minute_in_day k h;
          shared = hb;
          x_placed = refl;
          y_placed = refl;
        },
        tt,
      ),
      omega arith,
    )

identifier_fits : (t : Text) → is_identifier t ≡ true → length t ≤ 128
unfolding is_identifier
identifier_fits [] h = absurd (cc)
identifier_fits (c ∷ rest) h = ground arith

-- The points of canonicalSchedulePoints, and what the schema asks of them
record IsMade (d : Draft) (result : Result (List EditorPoint)) : Type 0 where
  points : List EditorPoint
  made : result ≡ ok points
  sent : all_schedule_points points ≡ true
  many : 2 ≤ length points
  few : length points ≤ 1440

IsMade-completed :
    (d : Draft) (b : Number) (logical : List EditorPoint) (start end : Option EditorPoint)
    → is_stored_percentage b ≡ true
    → All IsSent logical
    → 2 ≤ length logical
    → length logical ≤ 1438
    → IsPushed (pushed_boundary start (boundary_point d 0 b (codes "start")))
    → IsPushed (pushed_boundary end (boundary_point d 1439 b (codes "end")))
    → IsMade d (completed_points d logical start end b)
unfolding completed_points
IsMade-completed d b logical start end hb a many few (first, made, sent, size)
      (last, made', sent', size') =
    let all = map (with_boundary_percentage b) logical ++ (first ++ last) in
    let total : length all ≡ length logical + (length first + length last) =
      length-append (map (with_boundary_percentage b) logical) (first ++ last)
      ∙ ap (λ (n : ℕ). n + length (first ++ last)) (length-map (with_boundary_percentage b) logical)
      ∙ ap (λ (n : ℕ). length logical + n) (length-append first last) in
    let size'' = length-normalize all in
    record {
      points = normalize_logical_points all;
      made = rw (made, made') refl;
      sent =
          normalized_sent all
            (All-append IsSent (map (with_boundary_percentage b) logical) (first ++ last)
              (All-map IsSent IsSent (with_boundary_percentage b) logical
                (with_boundary-IsSent b hb) a)
              (All-append IsSent first last sent sent'))
            (omega arith);
      many = omega arith;
      few = omega arith;
    }

-- A draft that `validateCombinedScheduleDraft` finds valid gives a request, if its points and the hidden ones are points
-- of the schema, there are at most 1438, the identifiers of the two boundary points are identifiers, the expected
-- revision is a safe integer, and the value of the curve at midnight is from 0 to 100.
pub to_combined_replace_schedule_request-made :
    (js : Arithmetic) (d : Draft) (expected : ℕ)
    → is_valid_draft d ≡ true
    → all_schedule_points d.points ≡ true
    → all_schedule_points d.hidden_boundary_points ≡ true
    → length d.points ≤ 1438
    → is_identifier (wrap_boundary_prefix d.schedule_id ++ codes "start") ≡ true
    → is_identifier (wrap_boundary_prefix d.schedule_id ++ codes "end") ≡ true
    → expected ≤ max_safe_integer
    → is_stored_percentage (schedule_value_at js (normalize_logical_points d.points) (num 0)) ≡ true
    → (r : ReplaceScheduleRequest) × (to_combined_replace_schedule_request js d expected ≡ ok r)
unfolding to_combined_replace_schedule_request canonical_schedule_points is_replace_schedule_request
to_combined_replace_schedule_request-made js d expected valid points hidden size start_named
      end_named small value =
    let logical = normalize_logical_points d.points in
    let sent = logical-IsSent d.points (IsSent-All d.points points) in
    let hidden' = IsSent-All d.hidden_boundary_points hidden in
    let start = find_minute (num 0) logical in
    let end = find_minute (num 1439) logical in
    let v = schedule_value_at js logical (num 0) in
    let hb =
      boundary_shared start end v (find_minute-Looked (num 0) logical sent)
        (find_minute-Looked (num 1439) logical sent) value in
    let b = boundary_percentage start end v in
    let least = at_least_two d valid in
    let same = length-normalize d.points in
    let done =
      IsMade-completed d b logical start end hb sent (omega arith) (omega arith)
        (IsPushed-boundary d 0 b (codes "start") start (omega arith) hb hidden' start_named
          (identifier_fits (wrap_boundary_prefix d.schedule_id ++ codes "start") start_named))
        (IsPushed-boundary d 1439 b (codes "end") end (omega arith) hb hidden' end_named
          (identifier_fits (wrap_boundary_prefix d.schedule_id ++ codes "end") end_named)) in
    let room : leb expected max_safe_integer ≡ true = ground arith in
    let enough : leb 2 (length done.points) ≡ true = let m = done.many in ground arith in
    let short : leb (length done.points) 1440 ≡ true = let f = done.few in ground arith in
    (
      record { expected_revision = expected; points = done.points },
      rw (valid, done.made, room, enough, short, done.sent) refl,
    )
