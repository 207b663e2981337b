-- ===== src/Web/Drafts/Sendable.antt =====
-- About the points that a draft is saved with: those that the schema takes, whatever their position.
use aquarium_controller.Prelude.{
  ℕ, suc, ◌+◌, ◌≤◌, ◌≡◌, refl, ap, ◌∙◌, inl, inr, Bool, true, ◌&&◌, ◌||◌, List, [], ◌∷◌, Option,
  none, some, if_elim, leb, length, map, arith, Bool-cases, &&-eq-true,
}
use aquarium_controller.Prelude.Sorting.{insert_by, sort_by}
use aquarium_controller.Number.{Number, num, is_finite, is_integer, le, eq}
use aquarium_controller.Operations.Attempt.{max_safe_integer}
use aquarium_controller.Contracts.Schedules.{
  EditorPoint, is_identifier, is_coordinate, is_schedule_point, all_schedule_points,
}
use aquarium_controller.Web.Points.{
  goes_before, with_positions, normalize_logical_points, find_minute,
}
use aquarium_controller.Web.Points.Order.{All, All-sort_by}
use aquarium_controller.Web.Drafts.{with_boundary_percentage, boundary_percentage}

abbrev pub is_stored_percentage : Number → Bool
is_stored_percentage p = is_finite p && le (num 0) p && le p (num 100)

-- A point that the schema takes, but for its position
pub record IsSent (p : EditorPoint) : Type 0 where
  pub named : is_identifier p.id ≡ true
  pub timed :
      (is_integer p.minute_of_day && le (num 0) p.minute_of_day && le p.minute_of_day (num 1439))
      ≡ true
  pub shared : is_stored_percentage p.percentage ≡ true
  pub x_placed : is_coordinate p.editor_x ≡ true
  pub y_placed : is_coordinate p.editor_y ≡ true

IsSent-schedule_point : (p : EditorPoint) → is_schedule_point p ≡ true → IsSent p
unfolding is_schedule_point
IsSent-schedule_point p h =
    let (h1, y) = &&-eq-true _ (is_coordinate p.editor_y) h in
    let (h2, x) = &&-eq-true _ (is_coordinate p.editor_x) h1 in
    let (h3, d) =
      &&-eq-true _ (is_finite p.percentage && le (num 0) p.percentage && le p.percentage (num 100))
        h2 in
    let (h4, c) =
      &&-eq-true _
        (is_integer p.minute_of_day && le (num 0) p.minute_of_day && le p.minute_of_day (num 1439))
        h3 in
    let (a, b) = &&-eq-true (is_identifier p.id) (leb p.position max_safe_integer) h4 in
    record { named = a; timed = c; shared = d; x_placed = x; y_placed = y }

pub IsSent-All : (points : List EditorPoint) → all_schedule_points points ≡ true → All IsSent points
unfolding all_schedule_points
IsSent-All [] h = tt
IsSent-All (p ∷ rest) h =
    let (here, later) = &&-eq-true (is_schedule_point p) (all_schedule_points rest) h in
    (IsSent-schedule_point p here, IsSent-All rest later)

sent_at :
    (i : ℕ) (p : EditorPoint)
    → IsSent p
    → i ≤ max_safe_integer
    → is_schedule_point (record p { position = i }) ≡ true
unfolding is_schedule_point
sent_at i p h small =
    let room : leb i max_safe_integer ≡ true = ground arith in
    rw (h.named, room, h.timed, h.shared, h.x_placed, h.y_placed) refl

All-sent :
    (i : ℕ) (points : List EditorPoint)
    → All IsSent points
    → i + length points ≤ max_safe_integer
    → all_schedule_points (with_positions i points) ≡ true
unfolding all_schedule_points with_positions
All-sent i [] a small = refl
All-sent i (p ∷ rest) (h, a) small =
    rw (sent_at i p h (omega arith), All-sent (suc i) rest a (omega arith)) refl

length-insert_by :
    (x : EditorPoint) (ys : List EditorPoint)
    → length (insert_by goes_before x ys) ≡ suc (length ys)
unfolding insert_by
length-insert_by x [] = refl
length-insert_by x (y ∷ ys) = elim (Bool-cases (goes_before y x)) [
  | inl e ↦ rw e (ap suc (length-insert_by x ys))
  | inr e ↦ rw e refl
]

length-sort_by : (xs : List EditorPoint) → length (sort_by goes_before xs) ≡ length xs
unfolding sort_by
length-sort_by [] = refl
length-sort_by (x ∷ xs) = length-insert_by x (sort_by goes_before xs) ∙ ap suc (length-sort_by xs)

length-with_positions : (i : ℕ) (xs : List EditorPoint) → length (with_positions i xs) ≡ length xs
unfolding with_positions
length-with_positions i [] = refl
length-with_positions i (x ∷ xs) = ap suc (length-with_positions (suc i) xs)

pub length-normalize : (xs : List EditorPoint) → length (normalize_logical_points xs) ≡ length xs
unfolding normalize_logical_points
length-normalize xs = length-with_positions 0 (sort_by goes_before xs) ∙ length-sort_by xs

pub length-map :
    (f : EditorPoint → EditorPoint) (xs : List EditorPoint) → length (map f xs) ≡ length xs
length-map f [] = refl
length-map f (x ∷ xs) = ap suc (length-map f xs)

pub normalized_sent :
    (xs : List EditorPoint)
    → All IsSent xs
    → length xs ≤ 1440
    → all_schedule_points (normalize_logical_points xs) ≡ true
unfolding normalize_logical_points
normalized_sent xs a h =
    let size = length-sort_by xs in
    All-sent 0 (sort_by goes_before xs) (All-sort_by IsSent goes_before xs a) (omega arith)

positions-IsSent :
    (i : ℕ) (xs : List EditorPoint) → All IsSent xs → All IsSent (with_positions i xs)
unfolding with_positions
positions-IsSent i [] a = tt
positions-IsSent i (x ∷ xs) (h, a) = (
  record {
    named = h.named;
    timed = h.timed;
    shared = h.shared;
    x_placed = h.x_placed;
    y_placed = h.y_placed;
  },
  positions-IsSent (suc i) xs a,
)

pub logical-IsSent :
    (xs : List EditorPoint) → All IsSent xs → All IsSent (normalize_logical_points xs)
unfolding normalize_logical_points
logical-IsSent xs a =
    positions-IsSent 0 (sort_by goes_before xs) (All-sort_by IsSent goes_before xs a)

-- The property of a point that is looked up
abbrev pub Looked : Option EditorPoint → Type 0
Looked none = Unit {0}
Looked (some p) = IsSent p

pub find_minute-Looked :
    (m : Number) (xs : List EditorPoint) → All IsSent xs → Looked (find_minute m xs)
unfolding find_minute
find_minute-Looked m [] a = tt
find_minute-Looked m (x ∷ xs) (h, a) =
    if_elim Looked {t = eq x.minute_of_day m} {x = some x} (λ _. h) (λ _. find_minute-Looked m xs a)

pub boundary_shared :
    (start end : Option EditorPoint) (v : Number)
    → Looked start
    → Looked end
    → is_stored_percentage v ≡ true
    → is_stored_percentage (boundary_percentage start end v) ≡ true
boundary_shared (some p) end v hs he h = hs.shared
boundary_shared none (some q) v hs he h = he.shared
boundary_shared none none v hs he h = h

pub with_boundary-IsSent :
    (b : Number)
    → is_stored_percentage b ≡ true
    → (p : EditorPoint) → IsSent p
    → IsSent (with_boundary_percentage b p)
unfolding with_boundary_percentage
with_boundary-IsSent b hb p h =
    if_elim IsSent {t = eq p.minute_of_day (num 0) || eq p.minute_of_day (num 1439)}
      {x = record p { percentage = b }}
      (λ _. record {
        named = h.named;
        timed = h.timed;
        shared = hb;
        x_placed = h.x_placed;
        y_placed = h.y_placed;
      })
      (λ _. h)
