-- ===== src/Tests/Delivery.antt =====
-- Batches that wait for responses, the lanes of the devices, and operations on two devices.
use aquarium_controller.Prelude.{
  ℕ, zero, suc, ◌≤◌, ◌≡◌, refl, sym, ap, ◌∙◌, true, List, [], ◌∷◌, ◌++◌, map, none, some, arith,
  Text, codes, text_eq, length,
}
use aquarium_controller.Prelude.Sorting.{sort_by}
use aquarium_controller.Protocol.Commands.{EspCommandResult, ping, success, ping_echo}
use aquarium_controller.Operations.Attempt
use aquarium_controller.Operations.Attempt.{no_answer, unknown, was_disconnected, connection_lost}
use aquarium_controller.Transport.Outcomes.{NormalizedCommand, CommandOutcome, outcome_of}
use aquarium_controller.Transport.ActiveBatch.{
  create_active_batch, Event, responses_opened, published, responded, malformed, timer_rang,
  is_settled, run,
}
use aquarium_controller.Transport.ActiveBatch.Settled.{run-settled}
use aquarium_controller.Transport.ActiveBatch.Expiry.{published-settles}
use aquarium_controller.Transport.Lanes.{
  QueuedDeviceOperation, interactive, new_lanes, LaneEvent, start_called, subscribed, disconnected,
  enqueued, finished, run_lanes,
}
use aquarium_controller.Transport.Lanes.Queues.{occurs}
use aquarium_controller.Transport.Lanes.Safety.{run_lanes-bounds, run_lanes-idle}
use aquarium_controller.Transport.Lanes.Fifo.{account, run_lanes-fifo}
use aquarium_controller.Transport.Operation.{
  BatchEnd, batch_completed, batch_unsent, device_completed, device_unsent,
  partition_commands_by_device, batch_esp_commands, execute_queued_device_operation, GroupResult,
  merge_groups,
}
use aquarium_controller.Transport.Operation.OutcomeMaps.{outcome_indexes, command_indexes}
use aquarium_controller.Transport.Operation.Batches.{execute_queued_device_operation_complete}
use aquarium_controller.Transport.Operation.Complete.{merge_groups_complete}

abbrev pub command_for : Text → ℕ → NormalizedCommand
command_for device_id i = record {
  original_index = i;
  command = codes "p";
  target_id = device_id;
  operation = ping;
}

abbrev left_tank : Text
left_tank = codes "left"

abbrev right_tank : Text
right_tank = codes "right"

abbrev two_pings : List NormalizedCommand
two_pings = command_for left_tank 4 ∷ command_for left_tank 6 ∷ []

abbrev ping_result : ℕ → EspCommandResult
ping_result i = record { index = i; body = success ping_echo }

-- The second command is answered, and the first is not.
abbrev half_answered : List Event
half_answered =
    responses_opened
    ∷ published
    ∷ responded left_tank (ping_result 1 ∷ ping_result 1 ∷ [])
    ∷ timer_rang
    ∷ []

abbrev half_answered_outcomes : List CommandOutcome
half_answered_outcomes =
    outcome_of (command_for left_tank 4) none (unknown no_answer)
    ∷ outcome_of (command_for left_tank 6) (some 20) (Attempt.success none)
    ∷ []

run-settled_example :
    (map (λ o. o.index) half_answered_outcomes ≡ 4 ∷ 6 ∷ [])
    × ((run
          (λ r. 20)
          (create_active_batch two_pings)
          (half_answered ++ (responded left_tank (ping_result 0 ∷ []) ∷ []))).settled
        ≡ some half_answered_outcomes)
unfolding create_active_batch run text_eq sort_by
run-settled_example =
    run-settled (λ r. 20) two_pings half_answered (responded left_tank (ping_result 0 ∷ []) ∷ [])
      half_answered_outcomes ((omega arith, tt), (tt, tt)) refl

published-settles_example :
    is_settled
      (run
        (λ r. 20)
        (create_active_batch two_pings)
        (published
          ∷ ((responded right_tank (ping_result 0 ∷ []) ∷ malformed right_tank 9 ∷ [])
              ++ (timer_rang ∷ [])))).settled
    ≡ true
published-settles_example =
    published-settles (λ r. 20) (create_active_batch two_pings)
      (responded right_tank (ping_result 0 ∷ []) ∷ malformed right_tank 9 ∷ [])

abbrev queued : Text → QueuedDeviceOperation
queued device_id = record {
  operation_id = codes "wire-1";
  target_id = device_id;
  priority = interactive;
  commands = command_for device_id 0 ∷ [];
}

-- Two devices and one lane: the second device waits for the end of the first.
abbrev busy : List LaneEvent
busy =
    start_called
    ∷ subscribed
    ∷ enqueued (queued left_tank)
    ∷ enqueued (queued right_tank)
    ∷ enqueued (queued left_tank)
    ∷ []

busy_active : (run_lanes 1 new_lanes busy).active_device_ids ≡ left_tank ∷ []
unfolding run_lanes text_eq
busy_active = refl

run_lanes-bounds_example :
    ((run_lanes 1 new_lanes busy).active_lane_count
      ≡ length (run_lanes 1 new_lanes busy).active_device_ids)
    × ((run_lanes 1 new_lanes busy).active_lane_count ≤ 1)
    × (occurs left_tank (run_lanes 1 new_lanes busy).active_device_ids ≤ 1)
run_lanes-bounds_example = run_lanes-bounds 1 busy left_tank

run_lanes-idle_example :
    (run_lanes 3 new_lanes (busy ++ (finished right_tank ∷ []))).device_queues right_tank ≡ []
unfolding run_lanes text_eq
run_lanes-idle_example =
    run_lanes-idle 3 (busy ++ (finished right_tank ∷ [])) right_tank refl (omega arith) refl

run_lanes-fifo_example :
    account left_tank (run_lanes 1 new_lanes (busy ++ (disconnected ∷ [])))
    ≡ queued left_tank ∷ queued left_tank ∷ []
unfolding run_lanes text_eq
run_lanes-fifo_example = run_lanes-fifo 1 (busy ++ (disconnected ∷ [])) left_tank

abbrev four_pings : List NormalizedCommand
four_pings =
    command_for left_tank 0
    ∷ command_for left_tank 2
    ∷ command_for left_tank 3
    ∷ command_for left_tank 5
    ∷ []

four_pings_batches : batch_esp_commands four_pings ≡ (0 ∷ 1 ∷ 2 ∷ []) ∷ (3 ∷ []) ∷ []
unfolding batch_esp_commands
four_pings_batches = refl

abbrev pinged : NormalizedCommand → CommandOutcome
pinged c = outcome_of c (some 20) (Attempt.success none)

-- The first batch is answered, and the second finds no connection.
abbrev first_batch_only : ℕ → List NormalizedCommand → BatchEnd
first_batch_only zero cs = batch_completed (map pinged cs)
first_batch_only (suc i) cs = batch_unsent was_disconnected

abbrev outcomes_of : BatchEnd → List CommandOutcome
outcomes_of (batch_completed xs) = xs
outcomes_of _ = []

indexes_pinged :
    (cs : List NormalizedCommand) → outcome_indexes (map pinged cs) ≡ command_indexes cs
indexes_pinged [] = refl
indexes_pinged (c ∷ rest) = ap (◌∷◌ c.original_index) (indexes_pinged rest)

first_batch_only_answers :
    (i : ℕ) (cs : List NormalizedCommand) (ys : List CommandOutcome)
    → first_batch_only i cs ≡ batch_completed ys
    → outcome_indexes ys ≡ command_indexes cs
first_batch_only_answers zero cs ys e =
    sym (ap (λ (x : BatchEnd). outcome_indexes (outcomes_of x)) e) ∙ indexes_pinged cs
first_batch_only_answers (suc i) cs ys e = absurd (cc)

abbrev four_outcomes : List CommandOutcome
four_outcomes =
    pinged (command_for left_tank 0)
    ∷ pinged (command_for left_tank 2)
    ∷ pinged (command_for left_tank 3)
    ∷ outcome_of (command_for left_tank 5) none (Attempt.not_attempted was_disconnected)
    ∷ []

execute_queued_device_operation_complete_example :
    outcome_indexes four_outcomes ≡ 0 ∷ 2 ∷ 3 ∷ 5 ∷ []
unfolding execute_queued_device_operation sort_by
execute_queued_device_operation_complete_example =
    execute_queued_device_operation_complete (λ i. true) (λ i. true) first_batch_only four_pings
      four_outcomes
      (
        (omega arith, (omega arith, (omega arith, tt))),
        ((omega arith, (omega arith, tt)), ((omega arith, tt), (tt, tt))),
      )
      (λ n. ground arith) first_batch_only_answers refl

abbrev mixed : List NormalizedCommand
mixed = command_for left_tank 0 ∷ command_for right_tank 1 ∷ command_for left_tank 2 ∷ []

abbrev mixed_results : List GroupResult
mixed_results =
    record {
      commands = command_for left_tank 0 ∷ command_for left_tank 2 ∷ [];
      ended =
          device_completed
            (pinged (command_for left_tank 0) ∷ pinged (command_for left_tank 2) ∷ []);
    }
    ∷ record { commands = command_for right_tank 1 ∷ []; ended = device_unsent was_disconnected }
    ∷ []

abbrev mixed_outcomes : List CommandOutcome
mixed_outcomes =
    pinged (command_for left_tank 0)
    ∷ outcome_of (command_for right_tank 1) none (Attempt.not_attempted was_disconnected)
    ∷ pinged (command_for left_tank 2)
    ∷ []

merge_groups_complete_example : outcome_indexes mixed_outcomes ≡ 0 ∷ 1 ∷ 2 ∷ []
unfolding partition_commands_by_device merge_groups sort_by text_eq
merge_groups_complete_example =
    merge_groups_complete mixed mixed_results mixed_outcomes refl
      ((omega arith, (omega arith, tt)), ((omega arith, tt), (tt, tt))) (λ n. ground arith)
      (refl, (tt, tt)) refl
