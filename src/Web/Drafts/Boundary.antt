-- ===== src/Web/Drafts/Boundary.antt =====
-- About the points that a draft is saved with: the two points at the ends of the day.
use aquarium_controller.Prelude.{
  ℕ, ◌+◌, ◌≤◌, ◌<◌, ◌≡◌, refl, sym, ap, ◌∙◌, subst, inl, inr, true, false, ◌||◌, List, [], ◌∷◌,
  Option, none, some, if_elim, ◌==◌, map, arith, Bool-cases, Text,
}
use aquarium_controller.Prelude.Result.{ok, >>=-eq-ok}
use aquarium_controller.Prelude.Sorting.{count}
use aquarium_controller.Number.{Number, num, eq, eq-num}
use aquarium_controller.Contracts.Schedules.{EditorPoint}
use aquarium_controller.Configuration.SchedulePoints.Day.{HasEnds}
use aquarium_controller.Web.Points.{find_minute}
use aquarium_controller.Web.Points.Order.{All, key, IsTimed, Distinct}
use aquarium_controller.Web.Drafts.{
  Draft, boundary_id, wrap_boundary_identifier, point_at, boundary_point, pushed_boundary,
  with_boundary_percentage,
}

found_minute :
    (k : ℕ) (xs : List EditorPoint) (p : EditorPoint)
    → All IsTimed xs
    → find_minute (num k) xs ≡ some p
    → 0 < count k (map key xs)
unfolding find_minute
found_minute k [] p a h = absurd (cc)
found_minute k (x ∷ xs) p (hx, a) h =
    let test : eq x.minute_of_day (num k) ≡ (key x == k) =
      ap (λ (m : Number). eq m (num k)) hx.exact ∙ eq-num (key x) k in
    elim (Bool-cases (k == key x)) [
      | inl same ↦ ground arith
      | inr other ↦
          let no' : eq x.minute_of_day (num k) ≡ false =
            test ∙ (let apart : (key x == k) ≡ false = ground arith in apart) in
          let later = found_minute k xs p a (rw no' at h) in ground arith
    ]

no_minute :
    (k : ℕ) (xs : List EditorPoint)
    → All IsTimed xs
    → find_minute (num k) xs ≡ none
    → count k (map key xs) ≡ 0
unfolding find_minute
no_minute k [] a h = refl
no_minute k (x ∷ xs) (hx, a) h =
    let test : eq x.minute_of_day (num k) ≡ (key x == k) =
      ap (λ (m : Number). eq m (num k)) hx.exact ∙ eq-num (key x) k in
    elim (Bool-cases (k == key x)) [
      | inl same ↦
          let yes' : eq x.minute_of_day (num k) ≡ true =
            test ∙ (let here : (key x == k) ≡ true = ground arith in here) in
          absurd (let found = rw yes' at h in cc)
      | inr other ↦
          let no' : eq x.minute_of_day (num k) ≡ false =
            test ∙ (let apart : (key x == k) ≡ false = ground arith in apart) in
          let later = no_minute k xs a (rw no' at h) in ground arith
    ]

-- What is pushed for the boundary at minute `k`: one point there if there is none
pub record Pushed (k : ℕ) (b : Number) (logical pushed : List EditorPoint) : Type 0 where
  pub timed : All IsTimed pushed
  pub ends : All (HasEnds b) pushed
  pub other : (n : ℕ) → (n == k) ≡ false → count n (map key pushed) ≡ 0
  pub total : count k (map key logical) + count k (map key pushed) ≡ 1

key-point_at : (k : ℕ) (b : Number) (id : Text) → key (point_at k b id) ≡ k
key-point_at k b id = omega arith

Pushed-one :
    (k : ℕ) (b : Number) (logical : List EditorPoint) (id : Text)
    → k ≤ 1439
    → count k (map key logical) ≡ 0
    → Pushed k b logical (point_at k b id ∷ [])
Pushed-one k b logical id h c =
    let at = key-point_at k b id in
    record {
      timed = (record { exact = ap num (sym at); in_day = omega arith }, tt);
      ends = (record { at_start = λ e. refl; at_end = λ e. refl }, tt);
      other = λ n apart. rw at (ground arith);
      total = rw at (ground arith);
    }

Pushed-none :
    (k : ℕ) (b : Number) (logical : List EditorPoint)
    → Distinct (map key logical)
    → 0 < count k (map key logical)
    → Pushed k b logical []
Pushed-none k b logical d c =
    let once = d k in record { timed = tt; ends = tt; other = λ n apart. refl; total = omega arith }

pub Pushed-boundary :
    (d : Draft) (k : ℕ) (b : Number) (edge : Text) (logical : List EditorPoint)
    (found : Option EditorPoint) {pushed : List EditorPoint}
    → k ≤ 1439
    → All IsTimed logical
    → Distinct (map key logical)
    → find_minute (num k) logical ≡ found
    → pushed_boundary found (boundary_point d k b edge) ≡ ok pushed
    → Pushed k b logical pushed
unfolding boundary_point
Pushed-boundary d k b edge logical (some p) h a distinct found made =
    subst (Pushed k b logical) (ok_inj made)
      (Pushed-none k b logical distinct (found_minute k logical p a found))
  where
    ok_inj : {xs ys : List EditorPoint} → ok xs ≡ ok ys → xs ≡ ys
    ok_inj e = cc
Pushed-boundary d k b edge logical none {pushed} h a distinct found made =
    let (p, made', rest) =
      >>=-eq-ok (boundary_point d k b edge) (λ (p : EditorPoint). ok (p ∷ [])) made in
    let (id, named, point') =
      >>=-eq-ok
        (boundary_id (find_minute (num k) d.hidden_boundary_points)
          (wrap_boundary_identifier d.schedule_id edge))
        (λ (id : Text). ok (point_at k b id)) made' in
    let same : point_at k b id ∷ [] ≡ pushed = cc in
    subst (Pushed k b logical) same (Pushed-one k b logical id h (no_minute k logical a found))

key-with_boundary : (b : Number) (p : EditorPoint) → key (with_boundary_percentage b p) ≡ key p
unfolding with_boundary_percentage
key-with_boundary b p =
    if_elim (λ (q : EditorPoint). key q ≡ key p)
      {t = eq p.minute_of_day (num 0) || eq p.minute_of_day (num 1439)}
      {x = record p { percentage = b }} {y = p} (λ _. refl) (λ _. refl)

pub keys-with_boundary :
    (b : Number) (xs : List EditorPoint)
    → map key (map (with_boundary_percentage b) xs) ≡ map key xs
keys-with_boundary b [] = refl
keys-with_boundary b (x ∷ xs) = rw (key-with_boundary b x, keys-with_boundary b xs) refl

pub IsTimed-with_boundary :
    (b : Number) (p : EditorPoint) → IsTimed p → IsTimed (with_boundary_percentage b p)
unfolding with_boundary_percentage
IsTimed-with_boundary b p h =
    if_elim IsTimed {t = eq p.minute_of_day (num 0) || eq p.minute_of_day (num 1439)}
      {x = record p { percentage = b }} (λ _. record { exact = h.exact; in_day = h.in_day })
      (λ _. h)

pub HasEnds-with_boundary :
    (b : Number) (p : EditorPoint) → IsTimed p → HasEnds b (with_boundary_percentage b p)
unfolding with_boundary_percentage
HasEnds-with_boundary b p h =
    let at : (k : ℕ) → eq p.minute_of_day (num k) ≡ (key p == k) =
      λ k. ap (λ (m : Number). eq m (num k)) h.exact ∙ eq-num (key p) k in
    if_elim (HasEnds b) {t = eq p.minute_of_day (num 0) || eq p.minute_of_day (num 1439)}
      {x = record p { percentage = b }} (λ _. record { at_start = λ e. refl; at_end = λ e. refl })
      (λ inner.
        let inner' : ((key p == 0) || (key p == 1439)) ≡ false = rw (at 0, at 1439) at inner in
        record { at_start = λ e. absurd (ground arith); at_end = λ e. absurd (ground arith) })
