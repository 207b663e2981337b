-- ===== src/Transport/Operation/Complete.antt =====
-- About operations: what is made of the results of the devices.
use aquarium_controller.Prelude.{
  ℕ, ◌+◌, ◌≤◌, ◌≡◌, refl, ap, ◌∙◌, subst, inl, inr, Bool, true, false, not, ◌||◌, List, [], ◌∷◌,
  map, arith, if_elim, text_eq, ltb, Bool-cases,
}
use mathlib.Core.List.{map-append}
use aquarium_controller.Prelude.Sorting.{
  count, count-append, IsAscending, IsAscending-eq, sort_by-eq,
}
use aquarium_controller.Transport.Outcomes.{NormalizedCommand, CommandOutcome}
use aquarium_controller.Transport.Operation.{
  DeviceCommands, push_command, partition_into, partition_commands_by_device, DeviceEnd,
  device_completed, device_unsent, device_failed, set_ended, add_ended, GroupResult, OperationEnd,
  operation_completed, operation_rejected, set_completed, add_unsent, is_failed, has_failed,
  has_completed, first_rejection, merge_groups,
}
use aquarium_controller.Transport.Operation.OutcomeMaps.{
  outcome_indexes, command_indexes, count-set_outcomes, count-add_not_attempted_outcomes,
}

abbrev total_of : ℕ → List (List NormalizedCommand) → ℕ
total_of n [] = 0
total_of n (cs ∷ rest) = count n (command_indexes cs) + total_of n rest

abbrev pub commands_of : List DeviceCommands → List (List NormalizedCommand)
commands_of = map (λ g. g.commands)

total-push_command :
    (n : ℕ) (c : NormalizedCommand) (groups : List DeviceCommands)
    → total_of n (commands_of (push_command c groups))
      ≡ count n (c.original_index ∷ []) + total_of n (commands_of groups)
unfolding push_command
total-push_command n c [] = refl
total-push_command n c (g ∷ rest) = elim (Bool-cases (text_eq g.target_id c.target_id)) [
  | inl same ↦
      let joined =
        ap (count n) (map-append (λ (x : NormalizedCommand). x.original_index) g.commands (c ∷ []))
        ∙ count-append n (command_indexes g.commands) (c.original_index ∷ []) in
      rw same (omega (arith, joined))
  | inr other ↦ rw other (omega (arith, total-push_command n c rest))
]

total-partition_into :
    (n : ℕ) (cs : List NormalizedCommand) (groups : List DeviceCommands)
    → total_of n (commands_of (partition_into groups cs))
      ≡ count n (command_indexes cs) + total_of n (commands_of groups)
total-partition_into n [] groups = omega arith
total-partition_into n (c ∷ rest) groups =
    omega
      (arith, total-partition_into n rest (push_command c groups), total-push_command n c groups)

-- A device that completes has the outcomes of its commands.
abbrev pub IsWholeFor : List NormalizedCommand → DeviceEnd → Type 0
IsWholeFor cs (device_completed xs) = outcome_indexes xs ≡ command_indexes cs
IsWholeFor cs _ = Unit {0}

abbrev pub AreWhole : List GroupResult → Type 0
AreWhole [] = Unit {0}
AreWhole (g ∷ rest) = IsWholeFor g.commands g.ended × AreWhole rest

abbrev completed_count : ℕ → List NormalizedCommand → DeviceEnd → ℕ
completed_count n cs (device_completed xs) = count n (command_indexes cs)
completed_count n cs _ = 0

abbrev unsent_count : ℕ → List NormalizedCommand → DeviceEnd → ℕ
unsent_count n cs (device_unsent reason) = count n (command_indexes cs)
unsent_count n cs _ = 0

abbrev completed_total : ℕ → List GroupResult → ℕ
completed_total n [] = 0
completed_total n (g ∷ rest) = completed_count n g.commands g.ended + completed_total n rest

abbrev unsent_total : ℕ → List GroupResult → ℕ
unsent_total n [] = 0
unsent_total n (g ∷ rest) = unsent_count n g.commands g.ended + unsent_total n rest

or_first : (a b : Bool) → (a || b) ≡ false → a ≡ false
or_first true b h = absurd (cc)
or_first false b h = refl

or_second : (a b : Bool) → (a || b) ≡ false → b ≡ false
or_second true b h = absurd (cc)
or_second false b h = h

split_one :
    (n : ℕ) (cs : List NormalizedCommand) (e : DeviceEnd)
    → is_failed e ≡ false
    → count n (command_indexes cs) ≡ completed_count n cs e + unsent_count n cs e
split_one n cs (device_completed xs) h = omega arith
split_one n cs (device_unsent reason) h = omega arith
split_one n cs device_failed h = absurd (cc)

total-split :
    (n : ℕ) (rs : List GroupResult)
    → has_failed rs ≡ false
    → total_of n (map (λ g. g.commands) rs) ≡ completed_total n rs + unsent_total n rs
total-split n [] h = refl
total-split n (g ∷ rest) h =
    let one = split_one n g.commands g.ended (or_first (is_failed g.ended) (has_failed rest) h) in
    omega (arith, one, total-split n rest (or_second (is_failed g.ended) (has_failed rest) h))

count-set_ended :
    (n : ℕ) (cs : List NormalizedCommand) (e : DeviceEnd) (outcomes : List CommandOutcome)
    → IsWholeFor cs e
    → ((m : ℕ) → completed_count m cs e + count m (outcome_indexes outcomes) ≤ 1)
    → count n (outcome_indexes (set_ended e outcomes))
      ≡ completed_count n cs e + count n (outcome_indexes outcomes)
unfolding set_ended
count-set_ended n cs (device_completed xs) outcomes w h =
    let same = λ (m : ℕ). ap (count m) w in
    omega (arith, count-set_outcomes n xs outcomes (λ m. omega (arith, h m, same m)), same n)
count-set_ended n cs (device_unsent reason) outcomes w h = omega arith
count-set_ended n cs device_failed outcomes w h = omega arith

count-set_completed :
    (n : ℕ) (rs : List GroupResult) (outcomes : List CommandOutcome)
    → AreWhole rs
    → ((m : ℕ) → completed_total m rs + count m (outcome_indexes outcomes) ≤ 1)
    → count n (outcome_indexes (set_completed rs outcomes))
      ≡ completed_total n rs + count n (outcome_indexes outcomes)
unfolding set_completed
count-set_completed n [] outcomes w h = omega arith
count-set_completed n (g ∷ rest) outcomes w h =
    let one =
      λ (m : ℕ). count-set_ended m g.commands g.ended outcomes w.0 (λ k. omega (arith, h k)) in
    omega (
      arith,
      one n,
      count-set_completed n rest (set_ended g.ended outcomes) w.1 (λ m. omega (arith, h m, one m)),
    )

count-add_ended :
    (n : ℕ) (cs : List NormalizedCommand) (e : DeviceEnd) (outcomes : List CommandOutcome)
    → unsent_count n cs e + count n (outcome_indexes outcomes) ≤ 1
    → count n (outcome_indexes (add_ended cs e outcomes))
      ≡ unsent_count n cs e + count n (outcome_indexes outcomes)
unfolding add_ended
count-add_ended n cs (device_unsent reason) outcomes h =
    let (x, y) =
      count-add_not_attempted_outcomes n cs reason outcomes (omega (arith, h)) (omega (arith, h)) in
    elim (Bool-cases (ltb 0 (count n (outcome_indexes outcomes)))) [
      | inl some' ↦ let p = y (ground (arith, h)) in ground (arith, p, h)
      | inr none' ↦ let p = x (ground arith) in ground (arith, p)
    ]
count-add_ended n cs (device_completed xs) outcomes h = omega arith
count-add_ended n cs device_failed outcomes h = omega arith

count-add_unsent :
    (n : ℕ) (rs : List GroupResult) (outcomes : List CommandOutcome)
    → unsent_total n rs + count n (outcome_indexes outcomes) ≤ 1
    → count n (outcome_indexes (add_unsent rs outcomes))
      ≡ unsent_total n rs + count n (outcome_indexes outcomes)
unfolding add_unsent
count-add_unsent n [] outcomes h = omega arith
count-add_unsent n (g ∷ rest) outcomes h =
    let one = count-add_ended n g.commands g.ended outcomes (omega (arith, h)) in
    omega (
      arith,
      one,
      count-add_unsent n rest (add_ended g.commands g.ended outcomes) (omega (arith, h, one)),
    )

-- What an operation completes with
abbrev pub IsCompleteFor : List NormalizedCommand → OperationEnd → Type 0
IsCompleteFor cs (operation_completed xs) = outcome_indexes xs ≡ command_indexes cs
IsCompleteFor cs (operation_rejected e) = Unit {0}

record CompleteFor (cs : List NormalizedCommand) (e : OperationEnd) : Type 0 where
  complete : IsCompleteFor cs e

merge_groups-CompleteFor :
    (cs : List NormalizedCommand) (rs : List GroupResult)
    → map (λ g. g.commands) rs ≡ commands_of (partition_commands_by_device cs)
    → IsAscending (command_indexes cs)
    → ((n : ℕ) → count n (command_indexes cs) ≤ 1)
    → AreWhole rs
    → CompleteFor cs (merge_groups rs)
unfolding merge_groups partition_commands_by_device
merge_groups-CompleteFor cs [] same ascending once whole = record {
  complete =
      IsAscending-eq [] (command_indexes cs) tt ascending
        (λ n. let t = ap (total_of n) same in omega (arith, t, total-partition_into n cs []));
}
merge_groups-CompleteFor cs (g ∷ rest) same ascending once whole =
    let rs = g ∷ rest in
    if_elim (CompleteFor cs) {t = has_failed rs} {x = operation_rejected device_failed}
      (λ _. record { complete = tt })
      (λ sound.
        if_elim (CompleteFor cs) {t = not (has_completed rs)}
          {x = operation_rejected (first_rejection rs)} (λ _. record { complete = tt })
          (λ _. record {
            complete =
                let done = set_completed rs [] in
                let counted : (n : ℕ)
                    → count n (command_indexes cs) ≡ completed_total n rs + unsent_total n rs =
                  λ n.
                    let t = ap (total_of n) same in
                    omega (arith, t, total-partition_into n cs [], total-split n rs sound) in
                let first : (n : ℕ) → count n (outcome_indexes done) ≡ completed_total n rs = λ n.
                  let c =
                    count-set_completed n rs [] whole (λ m. omega (arith, counted m, once m)) in
                  omega (arith, c) in
                sort_by-eq (λ o. o.index) (add_unsent rs done) (command_indexes cs) ascending
                  (λ n. omega (
                    arith,
                    counted n,
                    first n,
                    count-add_unsent n rs done (omega (arith, counted n, once n, first n)),
                  ));
          }))

-- When the results are those of the devices among which the commands are parted, each device that completes has the
-- outcomes of its commands, and the indexes of the commands ascend, each once, an operation that completes has exactly
-- one outcome for each command, in the order of the commands.
pub merge_groups_complete :
    (cs : List NormalizedCommand) (rs : List GroupResult) (xs : List CommandOutcome)
    → map (λ g. g.commands) rs ≡ commands_of (partition_commands_by_device cs)
    → IsAscending (command_indexes cs)
    → ((n : ℕ) → count n (command_indexes cs) ≤ 1)
    → AreWhole rs
    → merge_groups rs ≡ operation_completed xs
    → outcome_indexes xs ≡ command_indexes cs
merge_groups_complete cs rs xs same ascending once whole e =
    (subst (CompleteFor cs) e (merge_groups-CompleteFor cs rs same ascending once whole)).complete
