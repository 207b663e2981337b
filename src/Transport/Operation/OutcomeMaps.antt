-- ===== src/Transport/Operation/OutcomeMaps.antt =====
-- About the maps of outcomes of the transport: which indexes they have.
use aquarium_controller.Prelude.{
  ℕ, ◌+◌, ◌≤◌, ◌<◌, ◌≡◌, refl, sym, inl, inr, true, false, List, [], ◌∷◌, ◌++◌, map, none, arith,
  ◌==◌, Bool-cases,
}
use aquarium_controller.Prelude.Sorting.{one_if, count}
use aquarium_controller.Operations.Attempt.{NotAttempted, not_attempted}
use aquarium_controller.Transport.Outcomes.{
  NormalizedCommand, CommandOutcome, outcome_of, has_index, set_outcome, add_not_attempted_outcomes,
}
use aquarium_controller.Transport.Operation.{set_outcomes}

abbrev pub outcome_indexes : List CommandOutcome → List ℕ
outcome_indexes = map (λ o. o.index)

abbrev pub command_indexes : List NormalizedCommand → List ℕ
command_indexes = map (λ c. c.original_index)

count-append_one :
    (n : ℕ) (o : CommandOutcome) (outcomes : List CommandOutcome)
    → count n (outcome_indexes (outcomes ++ (o ∷ [])))
      ≡ one_if n o.index + count n (outcome_indexes outcomes)
count-append_one n o [] = omega arith
count-append_one n o (p ∷ rest) = omega (arith, count-append_one n o rest)

count_of_has_index :
    (i : ℕ) (outcomes : List CommandOutcome)
    → has_index i outcomes ≡ true
    → 0 < count i (outcome_indexes outcomes)
unfolding has_index
count_of_has_index i [] h = absurd (cc)
count_of_has_index i (o ∷ rest) h = ground (arith, count_of_has_index i rest)

count_of_not_has_index :
    (i : ℕ) (outcomes : List CommandOutcome)
    → has_index i outcomes ≡ false
    → count i (outcome_indexes outcomes) ≡ 0
unfolding has_index
count_of_not_has_index i [] h = refl
count_of_not_has_index i (o ∷ rest) h = ground (arith, count_of_not_has_index i rest)

-- An index that the map does not have yet
count-set_outcome :
    (n : ℕ) (o : CommandOutcome) (outcomes : List CommandOutcome)
    → count o.index (outcome_indexes outcomes) ≡ 0
    → count n (outcome_indexes (set_outcome o outcomes))
      ≡ one_if n o.index + count n (outcome_indexes outcomes)
unfolding set_outcome
count-set_outcome n o [] h = refl
count-set_outcome n o (p ∷ rest) h = elim (Bool-cases (p.index == o.index)) [
  | inl same ↦ absurd (ground arith)
  | inr other ↦ rw other (omega (arith, count-set_outcome n o rest (ground arith)))
]

pub count-set_outcomes :
    (n : ℕ) (new outcomes : List CommandOutcome)
    → ((m : ℕ) → count m (outcome_indexes new) + count m (outcome_indexes outcomes) ≤ 1)
    → count n (outcome_indexes (set_outcomes new outcomes))
      ≡ count n (outcome_indexes new) + count n (outcome_indexes outcomes)
unfolding set_outcomes
count-set_outcomes n [] outcomes h = omega arith
count-set_outcomes n (o ∷ rest) outcomes h =
    let self : one_if o.index o.index ≡ 1 = ground arith in
    let nothing : count o.index (outcome_indexes outcomes) ≡ 0 = omega (arith, h o.index, self) in
    let added = λ (m : ℕ). count-set_outcome m o outcomes nothing in
    omega (
      arith,
      count-set_outcomes n rest (set_outcome o outcomes) (λ m. omega (arith, h m, added m)),
      added n,
    )

-- Adding commands that were not attempted adds each index that the map does not have.
pub count-add_not_attempted_outcomes :
    (n : ℕ) (commands : List NormalizedCommand) (reason : NotAttempted)
    (outcomes : List CommandOutcome)
    → count n (command_indexes commands) ≤ 1
    → count n (outcome_indexes outcomes) ≤ 1
    → let after = count n (outcome_indexes (add_not_attempted_outcomes commands reason outcomes)) in
      (count n (outcome_indexes outcomes) ≡ 0 → after ≡ count n (command_indexes commands))
      × (count n (outcome_indexes outcomes) ≡ 1 → after ≡ 1)
unfolding add_not_attempted_outcomes
count-add_not_attempted_outcomes n [] reason outcomes a b = (λ h. h, λ h. h)
count-add_not_attempted_outcomes n (c ∷ rest) reason outcomes a b =
    elim (Bool-cases (has_index c.original_index outcomes)) [
      | inl old ↦
          let there = count_of_has_index c.original_index outcomes old in
          let (x, y) =
            count-add_not_attempted_outcomes n rest reason outcomes (omega (arith, a)) b in
          rw old (
            λ h.
                let apart : one_if n c.original_index ≡ 0 =
                  elim (Bool-cases (n == c.original_index)) [
                    | inl same ↦ absurd (
                        let e : n ≡ c.original_index = ground arith in
                        let t = rw (sym e) at there in omega (arith, h, t))
                    | inr other ↦ rw other refl
                  ] in
                omega (arith, x h, apart),
            λ h. y h,
          )
      | inr new ↦
          let o = outcome_of c none (not_attempted reason) in
          let nothing = count_of_not_has_index c.original_index outcomes new in
          let added = count-append_one n o outcomes in
          rw new (elim (Bool-cases (n == c.original_index)) [
            | inl same ↦
                let e : n ≡ c.original_index = ground arith in
                let one : one_if n c.original_index ≡ 1 = rw same refl in
                let zero' : count n (outcome_indexes outcomes) ≡ 0 = rw (sym e) at nothing in
                let (x, y) =
                  count-add_not_attempted_outcomes n rest reason (outcomes ++ (o ∷ []))
                    (omega (arith, a)) (omega (arith, added, one, zero')) in
                (
                  λ h. omega (arith, y (omega (arith, added, one, zero')), a, one),
                  λ h. absurd (omega (arith, h, zero')),
                )
            | inr other ↦
                let none' : one_if n c.original_index ≡ 0 = rw other refl in
                let (x, y) =
                  count-add_not_attempted_outcomes n rest reason (outcomes ++ (o ∷ []))
                    (omega (arith, a)) (omega (arith, added, none', b)) in
                (
                  λ h. omega (arith, x (omega (arith, added, none', h)), none'),
                  λ h. y (omega (arith, added, none', h)),
                )
          ])
    ]
