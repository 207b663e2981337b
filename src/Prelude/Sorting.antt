-- ===== src/Prelude/Sorting.antt =====
-- Array.prototype.sort, which is stable, and how often a number stands in a list.
use Prim.Native.Nat.{ℕ, ◌+◌, ◌≤◌, ◌<◌}
use mathlib.Core.Path.{◌≡◌, refl, ◌∙◌}
use mathlib.Core.Logic.{inl, inr}
use mathlib.Core.Bool.{Bool}
use mathlib.Core.List.{List, [], ◌∷◌, ◌++◌, map}
use native.Mathlib.Omega.{arith}
use aquarium_controller.Prelude.Tests.{if◌then◌else◌, ltb, ◌==◌, Bool-cases}

module _ {ℓ} {A : Type ℓ} (before : A → A → Bool) where
  -- Does the second comparand go before the first? Equals keep their order.
  unfoldable pub insert_by : A → List A → List A
  insert_by x [] = x ∷ []
  insert_by x (y ∷ ys) = let later = insert_by x ys in if before y x then y ∷ later else x ∷ y ∷ ys

  unfoldable pub sort_by : List A → List A
  unfolding insert_by
  sort_by [] = []
  sort_by (x ∷ xs) = insert_by x (sort_by xs)

abbrev pub one_if : ℕ → ℕ → ℕ
one_if n m = if n == m then 1 else 0

abbrev pub count : ℕ → List ℕ → ℕ
count n [] = 0
count n (m ∷ rest) = one_if n m + count n rest

pub count-append : (n : ℕ) (xs ys : List ℕ) → count n (xs ++ ys) ≡ count n xs + count n ys
count-append n [] ys = omega arith
count-append n (x ∷ xs) ys = omega (arith, count-append n xs ys)

abbrev pub Lowest : ℕ → List ℕ → Type 0
Lowest n [] = Unit {0}
Lowest n (m ∷ rest) = (n ≤ m) × Lowest n rest

abbrev pub IsAscending : List ℕ → Type 0
IsAscending [] = Unit {0}
IsAscending (n ∷ rest) = Lowest n rest × IsAscending rest

pub Lowest-trans : (k n : ℕ) (xs : List ℕ) → k ≤ n → Lowest n xs → Lowest k xs
Lowest-trans k n [] h l = tt
Lowest-trans k n (m ∷ rest) h (a, l) = (omega arith, Lowest-trans k n rest h l)

pub le_of_count : (k n : ℕ) (xs : List ℕ) → Lowest k xs → 0 < count n xs → k ≤ n
le_of_count k n [] l c = absurd (omega arith)
le_of_count k n (m ∷ rest) (a, l) c = elim (Bool-cases (n == m)) [
  | inl same ↦ ground arith
  | inr other ↦ le_of_count k n rest l (ground arith)
]

-- Ascending lists with the same numbers, as often, are equal.
pub IsAscending-eq :
    (xs ys : List ℕ)
    → IsAscending xs
    → IsAscending ys
    → ((n : ℕ) → count n xs ≡ count n ys)
    → xs ≡ ys
IsAscending-eq [] [] a b c = refl
IsAscending-eq [] (y ∷ ys) a b c = absurd (ground (arith, c y))
IsAscending-eq (x ∷ xs) [] a b c = absurd (ground (arith, c x))
IsAscending-eq (x ∷ xs) (y ∷ ys) (la, a) (lb, b) c =
    let low : y ≤ x = le_of_count y x (y ∷ ys) (omega arith, lb) (ground (arith, c x)) in
    let high : x ≤ y = le_of_count x y (x ∷ xs) (omega arith, la) (ground (arith, c y)) in
    let same : x ≡ y = omega arith in
    let rest = IsAscending-eq xs ys a b (λ n. ground (arith, c n)) in cc

module _ {ℓ} {A : Type ℓ} (key : A → ℕ) where
  abbrev pub by_key : A → A → Bool
  by_key y x = ltb (key y) (key x)

  count-insert_by :
      (n : ℕ) (x : A) (ys : List A)
      → count n (map key (insert_by by_key x ys)) ≡ one_if n (key x) + count n (map key ys)
  unfolding insert_by
  count-insert_by n x [] = refl
  count-insert_by n x (y ∷ ys) = elim (Bool-cases (ltb (key y) (key x))) [
    | inl e ↦ rw e (omega (arith, count-insert_by n x ys))
    | inr e ↦ rw e refl
  ]

  pub count-sort_by :
      (n : ℕ) (xs : List A) → count n (map key (sort_by by_key xs)) ≡ count n (map key xs)
  unfolding sort_by
  count-sort_by n [] = refl
  count-sort_by n (x ∷ xs) =
      omega (arith, count-insert_by n x (sort_by by_key xs), count-sort_by n xs)

  Lowest-insert_by :
      (n : ℕ) (x : A) (ys : List A)
      → n ≤ key x
      → Lowest n (map key ys)
      → Lowest n (map key (insert_by by_key x ys))
  unfolding insert_by
  Lowest-insert_by n x [] h l = (h, tt)
  Lowest-insert_by n x (y ∷ ys) h (a, l) = elim (Bool-cases (ltb (key y) (key x))) [
    | inl e ↦ rw e (a, Lowest-insert_by n x ys h l)
    | inr e ↦ rw e (h, (a, l))
  ]

  insert_by-IsAscending :
      (x : A) (ys : List A)
      → IsAscending (map key ys)
      → IsAscending (map key (insert_by by_key x ys))
  unfolding insert_by
  insert_by-IsAscending x [] s = (tt, tt)
  insert_by-IsAscending x (y ∷ ys) (l, s) = elim (Bool-cases (ltb (key y) (key x))) [
    | inl e ↦ rw e (Lowest-insert_by (key y) x ys (ground arith) l, insert_by-IsAscending x ys s)
    | inr e ↦
        rw e ((ground arith, Lowest-trans (key x) (key y) (map key ys) (ground arith) l), (l, s))
  ]

  pub sort_by-IsAscending : (xs : List A) → IsAscending (map key (sort_by by_key xs))
  unfolding sort_by
  sort_by-IsAscending [] = tt
  sort_by-IsAscending (x ∷ xs) =
      insert_by-IsAscending x (sort_by by_key xs) (sort_by-IsAscending xs)

  -- Sorting a list gives the keys of an ascending list with the same keys.
  pub sort_by-eq :
      (xs : List A) (ks : List ℕ)
      → IsAscending ks
      → ((n : ℕ) → count n (map key xs) ≡ count n ks)
      → map key (sort_by by_key xs) ≡ ks
  sort_by-eq xs ks s c =
      IsAscending-eq (map key (sort_by by_key xs)) ks (sort_by-IsAscending xs) s
        (λ n. count-sort_by n xs ∙ c n)
