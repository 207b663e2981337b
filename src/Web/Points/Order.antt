-- ===== src/Web/Points/Order.antt =====
-- About the order of the points of a schedule in the editor: points at whole minutes of the day are sorted by them.
use aquarium_controller.Prelude.{
  ℕ, suc, ◌/◌, ◌≤◌, ◌≡◌, ◌≢◌, refl, sym, ap, ◌∙◌, subst, inl, inr, Bool, List, [], ◌∷◌, ltb, map,
  arith, Bool-cases,
}
use aquarium_controller.Prelude.Int.{pos_part}
use aquarium_controller.Prelude.Sorting.{
  insert_by, sort_by, by_key, count, IsAscending, count-sort_by, sort_by-IsAscending,
}
use aquarium_controller.Number.{Number, finite, num, unit, lt, lt-num}
use aquarium_controller.Contracts.Schedules.{EditorPoint}
use aquarium_controller.Web.Points.{goes_before, with_positions, normalize_logical_points}

module _ {A : Type 0} where
  abbrev pub All : (A → Type 0) → List A → Type 0
  All P [] = Unit {0}
  All P (x ∷ rest) = P x × All P rest

  All-insert_by :
      (P : A → Type 0) (before : A → A → Bool) (x : A) (ys : List A)
      → P x
      → All P ys
      → All P (insert_by before x ys)
  unfolding insert_by
  All-insert_by P before x [] h a = (h, tt)
  All-insert_by P before x (y ∷ ys) h (hy, a) = elim (Bool-cases (before y x)) [
    | inl e ↦ rw e (hy, All-insert_by P before x ys h a)
    | inr e ↦ rw e (h, (hy, a))
  ]

  pub All-sort_by :
      (P : A → Type 0) (before : A → A → Bool) (xs : List A) → All P xs → All P (sort_by before xs)
  unfolding sort_by
  All-sort_by P before [] a = tt
  All-sort_by P before (x ∷ xs) (h, a) =
      All-insert_by P before x (sort_by before xs) h (All-sort_by P before xs a)

-- The whole minute of a point
abbrev pub minute_of : Number → ℕ
minute_of (finite k) = pos_part k / unit
minute_of _ = 0

abbrev pub key : EditorPoint → ℕ
key p = minute_of p.minute_of_day

pub record IsTimed (p : EditorPoint) : Type 0 where
  pub exact : p.minute_of_day ≡ num (key p)
  pub in_day : key p ≤ 1439

goes_before-key :
    (x y : EditorPoint)
    → IsTimed x
    → IsTimed y
    → key x ≢ key y
    → goes_before y x ≡ ltb (key y) (key x)
unfolding goes_before
goes_before-key x y hx hy h =
    let ex = hx.exact in
    let ey = hy.exact in
    let a : lt y.minute_of_day x.minute_of_day ≡ ltb (key y) (key x) =
      ap (λ (m : Number). lt m x.minute_of_day) ey
      ∙ ap (lt (num (key y))) ex
      ∙ lt-num (key y) (key x) in
    let b : lt x.minute_of_day y.minute_of_day ≡ ltb (key x) (key y) =
      ap (λ (m : Number). lt m y.minute_of_day) ex
      ∙ ap (lt (num (key x))) ey
      ∙ lt-num (key x) (key y) in
    rw (a, b) (ground arith)

-- No number stands twice.
abbrev pub Distinct : List ℕ → Type 0
Distinct ks = (n : ℕ) → count n ks ≤ 1

insert_by-key :
    (x : EditorPoint) (ys : List EditorPoint)
    → IsTimed x
    → All IsTimed ys
    → count (key x) (map key ys) ≡ 0
    → insert_by goes_before x ys ≡ insert_by (by_key key) x ys
unfolding insert_by
insert_by-key x [] h a c = refl
insert_by-key x (y ∷ ys) h (hy, a) c =
    let apart : key x ≢ key y = ground arith in
    let rest : count (key x) (map key ys) ≡ 0 = omega arith in
    rw (goes_before-key x y h hy apart, insert_by-key x ys h a rest) refl

pub tail-Distinct : (k : ℕ) (ks : List ℕ) → Distinct (k ∷ ks) → Distinct ks
tail-Distinct k ks d n = let h = d n in omega arith

pub head-Distinct : (k : ℕ) (ks : List ℕ) → Distinct (k ∷ ks) → count k ks ≡ 0
head-Distinct k ks d = let h = d k in ground arith

sort_by-key :
    (xs : List EditorPoint)
    → All IsTimed xs
    → Distinct (map key xs)
    → sort_by goes_before xs ≡ sort_by (by_key key) xs
unfolding sort_by
sort_by-key [] a d = refl
sort_by-key (x ∷ xs) (h, a) d =
    let same = sort_by-key xs a (tail-Distinct (key x) (map key xs) d) in
    let none' : count (key x) (map key (sort_by goes_before xs)) ≡ 0 =
      ap (λ (ys : List EditorPoint). count (key x) (map key ys)) same
      ∙ count-sort_by key (key x) xs
      ∙ head-Distinct (key x) (map key xs) d in
    insert_by-key x (sort_by goes_before xs) h (All-sort_by IsTimed goes_before xs a) none'
    ∙ ap (insert_by (by_key key) x) same

pub key-with_positions :
    (i : ℕ) (xs : List EditorPoint) → map key (with_positions i xs) ≡ map key xs
unfolding with_positions
key-with_positions i [] = refl
key-with_positions i (x ∷ xs) = ap (◌∷◌ (key x)) (key-with_positions (suc i) xs)

pub key-normalize :
    (xs : List EditorPoint)
    → All IsTimed xs
    → Distinct (map key xs)
    → map key (normalize_logical_points xs) ≡ map key (sort_by (by_key key) xs)
unfolding normalize_logical_points
key-normalize xs a d =
    key-with_positions 0 (sort_by goes_before xs) ∙ ap (map key) (sort_by-key xs a d)

pub count-normalize :
    (n : ℕ) (xs : List EditorPoint)
    → All IsTimed xs
    → Distinct (map key xs)
    → count n (map key (normalize_logical_points xs)) ≡ count n (map key xs)
count-normalize n xs a d = ap (count n) (key-normalize xs a d) ∙ count-sort_by key n xs

pub normalize-IsAscending :
    (xs : List EditorPoint)
    → All IsTimed xs
    → Distinct (map key xs)
    → IsAscending (map key (normalize_logical_points xs))
normalize-IsAscending xs a d =
    subst IsAscending (sym (key-normalize xs a d)) (sort_by-IsAscending key xs)
