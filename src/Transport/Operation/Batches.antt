-- ===== src/Transport/Operation/Batches.antt =====
-- About the batches of an operation: which commands they take, and what the loop over them makes of a device.
use aquarium_controller.Prelude.{
  ℕ, zero, suc, ◌+◌, ◌-◌, ◌≤◌, ◌<◌, ◌≡◌, refl, sym, ap, ◌∙◌, subst, inl, inr, Bool, not, ◌||◌, List,
  [], ◌∷◌, ◌++◌, Option, some, arith, if◌then◌else◌, if_elim, take, drop, ltb, length, Bool-cases,
}
use mathlib.Core.List.{map-append}
use aquarium_controller.Prelude.Sorting.{count, count-append, IsAscending, sort_by-eq}
use aquarium_controller.Protocol.Limits.{esp_commands_per_request}
use aquarium_controller.Operations.Attempt.{NotAttempted, was_disconnected, was_stopped}
use aquarium_controller.Transport.Outcomes.{
  NormalizedCommand, CommandOutcome, sorted_outcomes, add_not_attempted_outcomes,
}
use aquarium_controller.Transport.Operation.{
  indexes_from, batches_from, batch_esp_commands, command_at, batch_commands, BatchEnd,
  batch_completed, batch_unsent, batch_failed, DeviceEnd, device_completed, device_unsent,
  set_outcomes, is_empty_map, execute_batch, unsent_batch, after_batch, execute_batches,
  execute_queued_device_operation,
}
use aquarium_controller.Transport.Operation.OutcomeMaps.{
  outcome_indexes, command_indexes, count-set_outcomes, count-add_not_attempted_outcomes,
}

drop_step :
    (i : ℕ) (cs : List NormalizedCommand)
    → i < length cs
    → (c : NormalizedCommand) × (command_at i cs ≡ some c) × (drop i cs ≡ c ∷ drop (suc i) cs)
drop_step i [] h = absurd (omega arith)
drop_step zero (c ∷ rest) h = (c, refl, refl)
drop_step (suc i) (c ∷ rest) h = drop_step i rest (omega arith)

-- The commands of a batch of consecutive indexes
batch_commands-indexes_from :
    (n first : ℕ) (cs : List NormalizedCommand)
    → first + n ≤ length cs
    → batch_commands (indexes_from first n) cs ≡ some (take n (drop first cs))
unfolding batch_commands
batch_commands-indexes_from zero first cs h = refl
batch_commands-indexes_from (suc n) first cs h =
    let (c, at', from) = drop_step first cs (omega arith) in
    rw (at', batch_commands-indexes_from n (suc first) cs (omega arith), from) refl

take_nil : (n : ℕ) → take {A = NormalizedCommand} n [] ≡ []
take_nil zero = refl
take_nil (suc n) = refl

take_more :
    (i n : ℕ) (cs : List NormalizedCommand) → take (i + n) cs ≡ take i cs ++ take n (drop i cs)
take_more zero n cs = ap (λ k. take k cs) (omega arith)
take_more (suc i) n [] = take_nil (suc i + n) ∙ sym (take_nil n)
take_more (suc i) n (c ∷ rest) =
    ap (λ k. take k (c ∷ rest)) (let e : suc i + n ≡ suc (i + n) = omega arith in e)
    ∙ ap (◌∷◌ c) (take_more i n rest)

take_all : (n : ℕ) (cs : List NormalizedCommand) → length cs ≤ n → take n cs ≡ cs
take_all zero [] h = refl
take_all (suc n) [] h = refl
take_all zero (c ∷ rest) h = absurd (omega arith)
take_all (suc n) (c ∷ rest) h = ap (◌∷◌ c) (take_all n rest (omega arith))

count-take-le :
    (m n : ℕ) (cs : List NormalizedCommand)
    → count m (command_indexes (take n cs)) ≤ count m (command_indexes cs)
count-take-le m zero cs = omega arith
count-take-le m (suc n) [] = omega arith
count-take-le m (suc n) (c ∷ rest) = omega (arith, count-take-le m n rest)

-- The commands of a device, in the ascending order of their indexes, and what executeBatch promises of a batch
module _ (started ready : ℕ → Bool) (execute : ℕ → List NormalizedCommand → BatchEnd)
    (commands : List NormalizedCommand) (ascending : IsAscending (command_indexes commands))
    (once : (n : ℕ) → count n (command_indexes commands) ≤ 1)
    (answers : (i : ℕ) (cs : List NormalizedCommand) (xs : List CommandOutcome)
      → execute i cs ≡ batch_completed xs
      → outcome_indexes xs ≡ command_indexes cs) where
  -- Either no result, or the outcomes of all commands in their order
  abbrev pub IsWhole : DeviceEnd → Type 0
  IsWhole (device_completed xs) = outcome_indexes xs ≡ command_indexes commands
  IsWhole _ = Unit {0}

  pub record Whole (e : DeviceEnd) : Type 0 where
    pub whole : IsWhole e

  Taken : ℕ → List CommandOutcome → Type 0
  Taken first outcomes =
      (m : ℕ) → count m (outcome_indexes outcomes) ≡ count m (command_indexes (take first commands))

  Taken-none : Taken 0 []
  unfolding Taken
  Taken-none m = refl

  skipped-Whole :
      (first : ℕ) (reason : NotAttempted) (outcomes : List CommandOutcome)
      → Taken first outcomes
      → Whole
          (device_completed (sorted_outcomes (add_not_attempted_outcomes commands reason outcomes)))
  unfolding Taken
  skipped-Whole first reason outcomes t = record {
    whole =
        sort_by-eq (λ o. o.index) (add_not_attempted_outcomes commands reason outcomes)
          (command_indexes commands) ascending
          (λ m.
            let less = count-take-le m first commands in
            let (x, y) =
              count-add_not_attempted_outcomes m commands reason outcomes (once m)
                (omega (arith, t m, less, once m)) in
            elim (Bool-cases (ltb 0 (count m (outcome_indexes outcomes)))) [
              | inl some' ↦
                  let p = y (ground (arith, t m, less, once m)) in
                  ground (arith, p, t m, less, once m)
              | inr none' ↦ x (ground arith)
            ]);
  }

  finished-Whole :
      (first : ℕ) (outcomes : List CommandOutcome)
      → length commands ≤ first
      → Taken first outcomes
      → Whole (device_completed (sorted_outcomes outcomes))
  unfolding Taken
  finished-Whole first outcomes h t = record {
    whole =
        sort_by-eq (λ o. o.index) outcomes (command_indexes commands) ascending
          (λ m.
            t m
            ∙ ap (λ (x : List NormalizedCommand). count m (command_indexes x))
                (take_all first commands h));
  }

  unsent_batch-Whole :
      (first : ℕ) (reason : NotAttempted) (outcomes : List CommandOutcome)
      → Taken first outcomes
      → Whole (unsent_batch started ready execute commands reason outcomes)
  unsent_batch-Whole first reason outcomes t =
      if_elim Whole {t = is_empty_map outcomes} {x = device_unsent reason}
        (λ _. record { whole = tt }) (λ _. skipped-Whole first reason outcomes t)

  after_batch-Whole :
      (first : ℕ) (e : BatchEnd) (next : List CommandOutcome → DeviceEnd)
      (outcomes : List CommandOutcome)
      → Taken first outcomes
      → ((xs : List CommandOutcome)
          → e ≡ batch_completed xs
          → Whole (next (set_outcomes xs outcomes)))
      → Whole (after_batch started ready execute commands e next outcomes)
  after_batch-Whole first (batch_completed xs) next outcomes t h = h xs refl
  after_batch-Whole first (batch_unsent reason) next outcomes t h =
      unsent_batch-Whole first reason outcomes t
  after_batch-Whole first batch_failed next outcomes t h = record { whole = tt }

  -- The outcomes of a batch, after those of the batches before it
  set_outcomes-Taken :
      (first n : ℕ) (xs outcomes : List CommandOutcome)
      → outcome_indexes xs ≡ command_indexes (take n (drop first commands))
      → Taken first outcomes
      → Taken (first + n) (set_outcomes xs outcomes)
  unfolding Taken
  set_outcomes-Taken first n xs outcomes e t m =
      let split : (k : ℕ)
          → count k (command_indexes (take (first + n) commands))
            ≡ count k (outcome_indexes xs) + count k (outcome_indexes outcomes) =
        λ k.
          let joined =
            ap (λ (x : List NormalizedCommand). count k (command_indexes x))
              (take_more first n commands)
            ∙ ap (count k) (
                map-append (λ (c : NormalizedCommand). c.original_index) (take first commands)
                  (take n (drop first commands)))
            ∙ count-append k (command_indexes (take first commands))
                (command_indexes (take n (drop first commands))) in
          let same = ap (count k) e in omega (arith, joined, same, t k) in
      sym (
        split m
        ∙ sym (
            count-set_outcomes m xs outcomes
              (λ k. omega (arith, split k, count-take-le k (first + n) commands, once k))))

  -- Taking more than there are is taking all.
  Taken-past :
      (first n : ℕ) (outcomes : List CommandOutcome)
      → length commands ≤ first
      → length commands ≤ n
      → Taken first outcomes
      → Taken n outcomes
  unfolding Taken
  Taken-past first n outcomes a b t m =
      t m
      ∙ ap (λ (x : List NormalizedCommand). count m (command_indexes x))
          (take_all first commands a ∙ sym (take_all n commands b))

  execute_batches-Whole :
      (fuel i first : ℕ) (outcomes : List CommandOutcome)
      → length commands ≤ first + fuel
      → Taken first outcomes
      → Whole (
          execute_batches started ready execute commands i
            (batches_from fuel first (length commands))
            outcomes)
  unfolding execute_batches batches_from
  execute_batches-Whole zero i first outcomes enough t =
      finished-Whole first outcomes (omega arith) t
  execute_batches-Whole (suc fuel) i first outcomes enough t =
      let total = length commands in
      let next = first + esp_commands_per_request in
      elim (Bool-cases (ltb first total)) [
        | inr done ↦ rw done (finished-Whole first outcomes (ground arith) t)
        | inl more ↦
            let end' = if ltb next total then next else total in
            let n = end' - first in
            let inside : first + n ≤ total = ground arith in
            let slice = take n (drop first commands) in
            let rest = batches_from fuel next total in
            let got = batch_commands-indexes_from n first commands inside in
            let later : (xs : List CommandOutcome)
                → execute i slice ≡ batch_completed xs
                → Taken next (set_outcomes xs outcomes) =
              λ xs e.
                let here = set_outcomes-Taken first n xs outcomes (answers i slice xs e) t in
                elim (Bool-cases (ltb next total)) [
                  | inl more' ↦
                      subst (λ (k : ℕ). Taken k (set_outcomes xs outcomes)) (ground arith) here
                  | inr last ↦
                      Taken-past (first + n) next (set_outcomes xs outcomes) (ground arith)
                        (ground arith) here
                ] in
            let step : Whole (
                execute_batches started ready execute commands i (indexes_from first n ∷ rest)
                  outcomes) =
              if_elim Whole {t = not (started i) || not (ready i)}
                (λ _.
                  skipped-Whole first (if started i then was_disconnected else was_stopped) outcomes
                    t)
                (λ _.
                  subst
                    (λ (x : Option (List NormalizedCommand)). Whole (
                      after_batch started ready execute commands
                        (execute_batch started ready execute commands i x)
                        (execute_batches started ready execute commands (suc i) rest) outcomes))
                    (sym got)
                    (after_batch-Whole first (execute i slice)
                      (execute_batches started ready execute commands (suc i) rest) outcomes t
                      (λ xs e.
                        execute_batches-Whole fuel (suc i) next (set_outcomes xs outcomes)
                          (omega (arith, enough)) (later xs e)))) in
            rw more step
      ]

-- When the indexes of the commands of a device ascend, each once, and each batch that completes has the outcomes of
-- its commands in their order, an operation that completes, whether or not all batches were sent, has exactly one
-- outcome for each command, in the order of the commands.
pub execute_queued_device_operation_complete :
    (started ready : ℕ → Bool) (execute : ℕ → List NormalizedCommand → BatchEnd)
    (commands : List NormalizedCommand) (xs : List CommandOutcome)
    → IsAscending (command_indexes commands)
    → ((n : ℕ) → count n (command_indexes commands) ≤ 1)
    → ((i : ℕ) (cs : List NormalizedCommand) (ys : List CommandOutcome)
        → execute i cs ≡ batch_completed ys
        → outcome_indexes ys ≡ command_indexes cs)
    → execute_queued_device_operation started ready execute commands ≡ device_completed xs
    → outcome_indexes xs ≡ command_indexes commands
unfolding execute_queued_device_operation batch_esp_commands
execute_queued_device_operation_complete started ready execute commands xs ascending once answers
      e =
    let w =
      execute_batches-Whole started ready execute commands ascending once answers (length commands)
        0 0 [] (omega arith) (Taken-none started ready execute commands ascending once answers) in
    (subst (Whole started ready execute commands ascending once answers) e w).whole
