-- ===== src/Web/Points/Sorted.antt =====
-- About the order of the points in the editor: sorting leaves no point before one that goes before it.
use aquarium_controller.Prelude.{
  ℕ, suc, ◌≡◌, refl, inl, inr, true, false, List, [], ◌∷◌, ◌==◌, arith, Bool-cases, Text,
}
use aquarium_controller.Prelude.Sorting.{insert_by, sort_by}
use aquarium_controller.Number.{Number, nan, infinite, finite, lt}
use aquarium_controller.Contracts.Schedules.{EditorPoint}
use aquarium_controller.Web.Points.{text_lt, goes_before, with_positions, normalize_logical_points}

lt_asym : (a b : Number) → lt a b ≡ true → lt b a ≡ false
unfolding lt
lt_asym nan b h = absurd (cc)
lt_asym (infinite true) nan h = absurd (cc)
lt_asym (infinite true) (infinite true) h = absurd (cc)
lt_asym (infinite true) (infinite false) h = refl
lt_asym (infinite true) (finite b) h = refl
lt_asym (infinite false) nan h = absurd (cc)
lt_asym (infinite false) (infinite true) h = absurd (cc)
lt_asym (infinite false) (infinite false) h = absurd (cc)
lt_asym (infinite false) (finite b) h = absurd (cc)
lt_asym (finite a) nan h = absurd (cc)
lt_asym (finite a) (infinite true) h = absurd (cc)
lt_asym (finite a) (infinite false) h = refl
lt_asym (finite a) (finite b) h = ground arith

text_lt_asym : (s t : Text) → text_lt s t ≡ true → text_lt t s ≡ false
unfolding text_lt
text_lt_asym [] [] h = absurd (cc)
text_lt_asym [] (y ∷ ys) h = refl
text_lt_asym (x ∷ xs) [] h = absurd (cc)
text_lt_asym (x ∷ xs) (y ∷ ys) h = elim (Bool-cases (x == y)) [
  | inl e ↦ let r = text_lt_asym xs ys (rw e at h) in ground arith
  | inr e ↦ ground arith
]

goes_before_asym : (p q : EditorPoint) → goes_before p q ≡ true → goes_before q p ≡ false
unfolding goes_before
goes_before_asym p q h = elim (Bool-cases (lt p.minute_of_day q.minute_of_day)) [
  | inl e ↦ rw (lt_asym p.minute_of_day q.minute_of_day e, e) refl
  | inr e ↦ elim (Bool-cases (lt q.minute_of_day p.minute_of_day)) [
    | inl e' ↦ absurd (let h' = rw (e, e') at h in cc)
    | inr e' ↦ rw (e', e) (text_lt_asym p.id q.id (rw (e, e') at h))
  ]
]

abbrev pub NotBefore : EditorPoint → List EditorPoint → Type 0
NotBefore p [] = Unit {0}
NotBefore p (q ∷ rest) = goes_before q p ≡ false

abbrev InTurn : List EditorPoint → Type 0
InTurn [] = Unit {0}
InTurn (p ∷ rest) = NotBefore p rest × InTurn rest

-- Positions are counted from `i`, and no point goes before the one that it follows.
abbrev pub InOrder : ℕ → List EditorPoint → Type 0
InOrder i [] = Unit {0}
InOrder i (p ∷ rest) = (p.position ≡ i) × NotBefore p rest × InOrder (suc i) rest

NotBefore-insert_by :
    (y x : EditorPoint) (ys : List EditorPoint)
    → goes_before x y ≡ false
    → NotBefore y ys
    → NotBefore y (insert_by goes_before x ys)
unfolding insert_by
NotBefore-insert_by y x [] h n = h
NotBefore-insert_by y x (z ∷ ys) h n = elim (Bool-cases (goes_before z x)) [
  | inl e ↦ rw e n
  | inr e ↦ rw e h
]

InTurn-insert_by :
    (x : EditorPoint) (ys : List EditorPoint) → InTurn ys → InTurn (insert_by goes_before x ys)
unfolding insert_by
InTurn-insert_by x [] a = (tt, tt)
InTurn-insert_by x (y ∷ ys) (n, a) = elim (Bool-cases (goes_before y x)) [
  | inl e ↦ rw e (NotBefore-insert_by y x ys (goes_before_asym y x e) n, InTurn-insert_by x ys a)
  | inr e ↦ rw e (e, (n, a))
]

InTurn-sort_by : (xs : List EditorPoint) → InTurn (sort_by goes_before xs)
unfolding sort_by
InTurn-sort_by [] = tt
InTurn-sort_by (x ∷ xs) = InTurn-insert_by x (sort_by goes_before xs) (InTurn-sort_by xs)

NotBefore-moved :
    (i j : ℕ) (p : EditorPoint) (xs : List EditorPoint)
    → NotBefore p xs
    → NotBefore (record p { position = i }) (with_positions j xs)
unfolding with_positions goes_before
NotBefore-moved i j p [] n = tt
NotBefore-moved i j p (x ∷ xs) n = n

InOrder-with_positions :
    (i : ℕ) (xs : List EditorPoint) → InTurn xs → InOrder i (with_positions i xs)
unfolding with_positions
InOrder-with_positions i [] a = tt
InOrder-with_positions i (x ∷ xs) (n, a) =
    (refl, NotBefore-moved i (suc i) x xs n, InOrder-with_positions (suc i) xs a)

pub InOrder-normalize : (xs : List EditorPoint) → InOrder 0 (normalize_logical_points xs)
unfolding normalize_logical_points
InOrder-normalize xs = InOrder-with_positions 0 (sort_by goes_before xs) (InTurn-sort_by xs)
