-- ===== src/Transport/Operation.antt =====
-- apps/controller/src/infrastructure/mqtt/legacy-mqtt-transport.ts: an operation, split by device and into batches,
-- and put together again from the outcomes.
pub mod Batches
pub mod OutcomeMaps
pub mod Complete
use aquarium_controller.Prelude.{
  ℕ, zero, suc, ◌+◌, ◌-◌, Bool, true, false, not, ◌&&◌, ◌||◌, List, [], ◌∷◌, ◌++◌, map, Option,
  none, some, if◌then◌else◌, Text, text_eq, ltb, length,
}
use aquarium_controller.Protocol.Limits.{esp_commands_per_request}
use aquarium_controller.Operations.Attempt.{NotAttempted, was_disconnected, was_stopped}
use aquarium_controller.Transport.Outcomes.{
  NormalizedCommand, CommandOutcome, sorted_outcomes, set_outcome, add_not_attempted_outcomes,
}

pub record DeviceCommands : Type 0 where
  pub target_id : Text
  pub commands : List NormalizedCommand

-- One round of the loop of partitionCommandsByDevice
unfoldable pub push_command : NormalizedCommand → List DeviceCommands → List DeviceCommands
push_command c [] = record { target_id = c.target_id; commands = c ∷ [] } ∷ []
push_command c (g ∷ rest) =
    let others = g ∷ push_command c rest in
    if text_eq g.target_id c.target_id
    then record g { commands = g.commands ++ (c ∷ []) } ∷ rest
    else others

abbrev pub partition_into : List DeviceCommands → List NormalizedCommand → List DeviceCommands
partition_into groups [] = groups
partition_into groups (c ∷ rest) = partition_into (push_command c groups) rest

unfoldable pub partition_commands_by_device : List NormalizedCommand → List DeviceCommands
unfolding push_command
partition_commands_by_device = partition_into []

-- Array.from({ length }, (_, offset) => firstIndex + offset)
abbrev pub indexes_from : ℕ → ℕ → List ℕ
indexes_from first zero = []
indexes_from first (suc n) = first ∷ indexes_from (suc first) n

-- The loop of batchEspCommands over `count` commands, from `first` on; each round needs one of the fuel.
unfoldable pub batches_from : ℕ → ℕ → ℕ → List (List ℕ)
batches_from zero first count = []
batches_from (suc fuel) first count =
    let rest = batches_from fuel (first + esp_commands_per_request) count in
    let end' =
      if ltb (first + esp_commands_per_request) count
      then first + esp_commands_per_request
      else count in
    if ltb first count then indexes_from first (end' - first) ∷ rest else []

unfoldable pub batch_esp_commands : List NormalizedCommand → List (List ℕ)
unfolding batches_from
batch_esp_commands commands = batches_from (length commands) 0 (length commands)

abbrev pub command_at : ℕ → List NormalizedCommand → Option NormalizedCommand
command_at i [] = none
command_at zero (c ∷ rest) = some c
command_at (suc i) (c ∷ rest) = command_at i rest

abbrev pub prepend_command :
    Option NormalizedCommand → Option (List NormalizedCommand) → Option (List NormalizedCommand)
prepend_command (some c) (some cs) = some (c ∷ cs)
prepend_command _ _ = none

-- The commands of a batch; none is the RangeError for a missing command.
unfoldable pub batch_commands : List ℕ → List NormalizedCommand → Option (List NormalizedCommand)
batch_commands [] commands = some []
batch_commands (i ∷ rest) commands =
    prepend_command (command_at i commands) (batch_commands rest commands)

-- What executeBatch comes to, and what an operation on a device does
pub data BatchEnd : Type 0 where
  batch_completed : List CommandOutcome → BatchEnd
  batch_unsent : NotAttempted → BatchEnd
  batch_failed : BatchEnd

pub data DeviceEnd : Type 0 where
  device_completed : List CommandOutcome → DeviceEnd
  device_unsent : NotAttempted → DeviceEnd
  device_failed : DeviceEnd

-- `for (const outcome of outcomes) map.set(outcome.index, outcome)`
unfoldable pub set_outcomes : List CommandOutcome → List CommandOutcome → List CommandOutcome
unfolding set_outcome
set_outcomes [] outcomes = outcomes
set_outcomes (o ∷ rest) outcomes = set_outcomes rest (set_outcome o outcomes)

abbrev pub is_empty_map : List CommandOutcome → Bool
is_empty_map [] = true
is_empty_map (o ∷ rest) = false

-- `available i` is whether the transport is started and ready before batch i, `execute i` what the call of executeBatch
-- for it comes to when it has its commands.
module _ (started ready : ℕ → Bool) (execute : ℕ → List NormalizedCommand → BatchEnd)
    (commands : List NormalizedCommand) where
  abbrev pub execute_batch : ℕ → Option (List NormalizedCommand) → BatchEnd
  execute_batch i none = batch_failed
  execute_batch i (some cs) = execute i cs

  abbrev pub unsent_batch : NotAttempted → List CommandOutcome → DeviceEnd
  unsent_batch reason outcomes =
      if is_empty_map outcomes
      then device_unsent reason
      else device_completed (sorted_outcomes (add_not_attempted_outcomes commands reason outcomes))

  -- `next` is the rest of the loop.
  abbrev pub after_batch :
      BatchEnd → (List CommandOutcome → DeviceEnd) → List CommandOutcome → DeviceEnd
  after_batch (batch_completed xs) next outcomes = next (set_outcomes xs outcomes)
  after_batch (batch_unsent reason) next outcomes = unsent_batch reason outcomes
  after_batch batch_failed next outcomes = device_failed

  unfoldable pub execute_batches : ℕ → List (List ℕ) → List CommandOutcome → DeviceEnd
  unfolding batch_commands set_outcomes add_not_attempted_outcomes
  execute_batches i [] outcomes = device_completed (sorted_outcomes outcomes)
  execute_batches i (batch ∷ rest) outcomes =
      let next = execute_batches (suc i) rest in
      let reason = if started i then was_disconnected else was_stopped in
      if not (started i) || not (ready i)
      then device_completed (sorted_outcomes (add_not_attempted_outcomes commands reason outcomes))
      else after_batch (execute_batch i (batch_commands batch commands)) next outcomes

  unfoldable pub execute_queued_device_operation : DeviceEnd
  unfolding execute_batches batch_esp_commands
  execute_queued_device_operation = execute_batches 0 (batch_esp_commands commands) []

-- The result of one device in executePartitionedOperation
pub record GroupResult : Type 0 where
  pub commands : List NormalizedCommand
  pub ended : DeviceEnd

pub data OperationEnd : Type 0 where
  operation_completed : List CommandOutcome → OperationEnd
  operation_rejected : DeviceEnd → OperationEnd

unfoldable pub set_ended : DeviceEnd → List CommandOutcome → List CommandOutcome
unfolding set_outcomes
set_ended (device_completed xs) outcomes = set_outcomes xs outcomes
set_ended _ outcomes = outcomes

unfoldable pub set_completed : List GroupResult → List CommandOutcome → List CommandOutcome
unfolding set_ended
set_completed [] outcomes = outcomes
set_completed (g ∷ rest) outcomes = set_completed rest (set_ended g.ended outcomes)

unfoldable pub add_ended :
    List NormalizedCommand → DeviceEnd → List CommandOutcome → List CommandOutcome
unfolding add_not_attempted_outcomes
add_ended commands (device_unsent reason) outcomes =
    add_not_attempted_outcomes commands reason outcomes
add_ended commands _ outcomes = outcomes

unfoldable pub add_unsent : List GroupResult → List CommandOutcome → List CommandOutcome
unfolding add_ended
add_unsent [] outcomes = outcomes
add_unsent (g ∷ rest) outcomes = add_unsent rest (add_ended g.commands g.ended outcomes)

abbrev pub is_failed : DeviceEnd → Bool
is_failed device_failed = true
is_failed _ = false

abbrev pub is_completed : DeviceEnd → Bool
is_completed (device_completed xs) = true
is_completed _ = false

abbrev pub has_failed : List GroupResult → Bool
has_failed [] = false
has_failed (g ∷ rest) = is_failed g.ended || has_failed rest

abbrev pub has_completed : List GroupResult → Bool
has_completed [] = false
has_completed (g ∷ rest) = is_completed g.ended || has_completed rest

-- The first rejection, if no group has completed
abbrev pub first_rejection : List GroupResult → DeviceEnd
first_rejection [] = device_failed
first_rejection (g ∷ rest) = g.ended

-- executePartitionedOperation, once every group has its result
unfoldable pub merge_groups : List GroupResult → OperationEnd
unfolding set_completed add_unsent
merge_groups [] = operation_completed []
merge_groups (g ∷ rest) =
    let groups = g ∷ rest in
    if has_failed groups
    then operation_rejected device_failed
    else if not (has_completed groups)
    then operation_rejected (first_rejection groups)
    else operation_completed (sorted_outcomes (add_unsent groups (set_completed groups [])))
