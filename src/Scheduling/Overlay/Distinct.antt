-- ===== src/Scheduling/Overlay/Distinct.antt =====
-- About the sets of applyManualOverrideOverlays: a loop that looks up each key in those seen, and adds it, finds
-- whether two of them are the same.
use aquarium_controller.Prelude.{
  ℕ, ◌≡◌, refl, Bool, true, not, ◌&&◌, List, [], ◌∷◌, map, arith, ◌==◌, Text, text_eq,
}
use aquarium_controller.Protocol.ScheduleDocument.{decimal_text}
use aquarium_controller.Scheduling.Overlay.{key, has}
use aquarium_controller.Scheduling.Overlay.Keys.{no_zero, text_eq-key, text_eq-pin_key}

-- No key of the list is repeated, or among those seen.
unfoldable pub fresh : List Text → List Text → Bool
fresh seen [] = true
fresh seen (k ∷ rest) = not (has seen k) && fresh (k ∷ seen) rest

module _ {ℓ} {A : Type ℓ} (same : A → A → Bool) where
  abbrev pub none_same : A → List A → Bool
  none_same x [] = true
  none_same x (y ∷ rest) = not (same x y) && none_same x rest

  -- No two members of the list are the same.
  abbrev pub all_distinct : List A → Bool
  all_distinct [] = true
  all_distinct (x ∷ rest) = none_same x rest && all_distinct rest

abbrev none_seen : List Text → List Text → Bool
none_seen seen [] = true
none_seen seen (k ∷ rest) = not (has seen k) && none_seen seen rest

none_seen-cons :
    (k : Text) (seen ks : List Text)
    → none_seen (k ∷ seen) ks ≡ (none_same text_eq k ks && none_seen seen ks)
unfolding has
none_seen-cons k seen [] = refl
none_seen-cons k seen (j ∷ ks) = ground (arith, none_seen-cons k seen ks)

fresh-all_distinct :
    (seen ks : List Text) → fresh seen ks ≡ (none_seen seen ks && all_distinct text_eq ks)
unfolding fresh
fresh-all_distinct seen [] = refl
fresh-all_distinct seen (k ∷ ks) =
    ground (arith, fresh-all_distinct (k ∷ seen) ks, none_seen-cons k seen ks)

none_seen_nil : (ks : List Text) → none_seen [] ks ≡ true
unfolding has
none_seen_nil [] = refl
none_seen_nil (k ∷ ks) = ground (arith, none_seen_nil ks)

fresh_nil : (ks : List Text) → fresh [] ks ≡ all_distinct text_eq ks
fresh_nil ks = rw (fresh-all_distinct [] ks, none_seen_nil ks) refl

module _ {ℓ} {A : Type ℓ} (mapping : A → Text) where
  abbrev pub all_no_zero : List A → Bool
  all_no_zero [] = true
  all_no_zero (x ∷ rest) = no_zero (mapping x) && all_no_zero rest

module _ {ℓ} {A : Type ℓ} (device : A → Text) where
  abbrev pub same_mapping : (A → Text) → A → A → Bool
  same_mapping mapping x y = text_eq (device x) (device y) && text_eq (mapping x) (mapping y)

  abbrev pub same_pin : (A → ℕ) → A → A → Bool
  same_pin pin x y = text_eq (device x) (device y) && pin x == pin y

  none_same-mapping :
      (mapping : A → Text) (x : A) (ys : List A)
      → no_zero (mapping x) ≡ true
      → all_no_zero mapping ys ≡ true
      → none_same text_eq (key (device x) (mapping x)) (map (λ y. key (device y) (mapping y)) ys)
        ≡ none_same (same_mapping mapping) x ys
  none_same-mapping mapping x [] h hs = refl
  none_same-mapping mapping x (y ∷ ys) h hs = ground (
    arith,
    text_eq-key (device x) (device y) (mapping x) (mapping y),
    none_same-mapping mapping x ys,
  )

  all_distinct-mapping :
      (mapping : A → Text) (xs : List A)
      → all_no_zero mapping xs ≡ true
      → all_distinct text_eq (map (λ x. key (device x) (mapping x)) xs)
        ≡ all_distinct (same_mapping mapping) xs
  all_distinct-mapping mapping [] hs = refl
  all_distinct-mapping mapping (x ∷ xs) hs =
      ground (arith, none_same-mapping mapping x xs, all_distinct-mapping mapping xs)

  none_same-pin :
      (pin : A → ℕ) (x : A) (ys : List A)
      → none_same text_eq
          (key (device x) (decimal_text (pin x)))
          (map (λ y. key (device y) (decimal_text (pin y))) ys)
        ≡ none_same (same_pin pin) x ys
  none_same-pin pin x [] = refl
  none_same-pin pin x (y ∷ ys) =
      ground (arith, text_eq-pin_key (device x) (device y) (pin x) (pin y), none_same-pin pin x ys)

  all_distinct-pin :
      (pin : A → ℕ) (xs : List A)
      → all_distinct text_eq (map (λ x. key (device x) (decimal_text (pin x))) xs)
        ≡ all_distinct (same_pin pin) xs
  all_distinct-pin pin [] = refl
  all_distinct-pin pin (x ∷ xs) = ground (arith, none_same-pin pin x xs, all_distinct-pin pin xs)

  pub fresh-mapping :
      (mapping : A → Text) (xs : List A)
      → all_no_zero mapping xs ≡ true
      → fresh [] (map (λ x. key (device x) (mapping x)) xs) ≡ all_distinct (same_mapping mapping) xs
  fresh-mapping mapping xs hs =
      rw (fresh_nil (map (λ x. key (device x) (mapping x)) xs)) (all_distinct-mapping mapping xs hs)

  pub fresh-pin :
      (pin : A → ℕ) (xs : List A)
      → fresh [] (map (λ x. key (device x) (decimal_text (pin x))) xs)
        ≡ all_distinct (same_pin pin) xs
  fresh-pin pin xs =
      rw (fresh_nil (map (λ x. key (device x) (decimal_text (pin x))) xs)) (all_distinct-pin pin xs)
