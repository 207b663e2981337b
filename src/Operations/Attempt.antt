-- ===== src/Operations/Attempt.antt =====
-- apps/controller/src/application/operations/device-operation-service.ts: one attempt of an operation,
-- from the deadline to the row that it leaves. What the transport did is an argument; the logging and
-- the registry writes that follow are the `tasks`, and their failures are only reported.
pub mod Outcomes
pub mod Readings
pub mod Total
use aquarium_controller.Prelude.{
  ℕ, ◌+◌, ◌-◌, ◌≤◌, Bool, true, false, not, ◌&&◌, ◌||◌, List, [], ◌∷◌, ◌++◌, Option, none, some,
  if◌then◌else◌, leb, ltb, Text, codes, length, take,
}
use Prim.Native.Nat.{min}
use aquarium_controller.Prelude.Result.{Result, ok, throw, Error, range_error, guard, ◌>>=◌, ◌>>◌}
use aquarium_controller.Operations.Lifecycle.{
  DeviceOperationResult, succeeded, failed, timed_out, outcome_unknown, cancelled,
  deadline_before_attempt, UnknownReason, timeout, publish_failed, disconnected, transport_stopped,
  transport_error_after_attempt, StoredDeviceOperation, mark_in_flight, complete_in_flight,
  complete_pending_without_attempt,
}

abbrev pub device_response_timeout_cooldown_ms : ℕ
device_response_timeout_cooldown_ms = 60000

abbrev pub max_protocol_fault_message_characters : ℕ
max_protocol_fault_message_characters = 256

abbrev pub max_safe_integer : ℕ
max_safe_integer = 9007199254740991

pub data Failure : Type 0 where
  device_error : Text → Text → Failure
  protocol_error : Text → Failure

pub data UnknownOutcome : Type 0 where
  no_answer not_published connection_lost stopped : UnknownOutcome

pub data NotAttempted : Type 0 where
  was_disconnected was_stopped : NotAttempted

-- LegacyCommandOutcome, less the sizes and the name of the command
pub data Outcome : Type 0 where
  success : Option ℕ → Outcome
  failure : Failure → Outcome
  unknown : UnknownOutcome → Outcome
  not_attempted : NotAttempted → Outcome

pub record WireResult : Type 0 where
  pub operation_id : Text
  pub started_at_ms : ℕ
  pub completed_at_ms : ℕ
  pub outcomes : List Outcome

-- What a call of the transport comes to: LegacyMqttUnavailableError, another error, or a result.
pub data Transport : Type 0 where
  unavailable : Transport
  broken : Transport
  returned : WireResult → Transport

unfoldable pub describe_protocol_fault : Text → Text
describe_protocol_fault detail =
    if leb (length detail) max_protocol_fault_message_characters
    then detail
    else take (max_protocol_fault_message_characters - 3) detail ++ codes "..."

abbrev reason_of : UnknownOutcome → UnknownReason
reason_of no_answer = timeout
reason_of not_published = publish_failed
reason_of connection_lost = disconnected
reason_of stopped = transport_stopped

abbrev not_attempted_text : NotAttempted → Text
not_attempted_text was_disconnected = codes "disconnected"
not_attempted_text was_stopped = codes "transport_stopped"

unfoldable pub operation_result_from_outcome : Outcome → Text → DeviceOperationResult
unfolding describe_protocol_fault
operation_result_from_outcome (success value) wire = succeeded wire value
operation_result_from_outcome (failure (device_error code message)) wire =
    failed (some wire) (codes "device_reported_error")
      (codes "Device reported " ++ (code ++ (codes ": " ++ message)))
operation_result_from_outcome (failure (protocol_error detail)) wire =
    failed (some wire) (codes "unexpected_response") (describe_protocol_fault detail)
operation_result_from_outcome (unknown reason) wire =
    outcome_unknown (some wire) (reason_of reason) none
operation_result_from_outcome (not_attempted reason) wire =
    failed (some wire) (codes "not_attempted")
      (codes "Command was not attempted: " ++ not_attempted_text reason)

-- What the attempt does to the cooldown of its device
pub data Cooldown : Type 0 where
  unchanged : Cooldown
  cleared : Cooldown
  until : ℕ → Cooldown

pub data Task : Type 0 where
  log_operation publish_contact persist_contact persist_protocol_fault persist_timeout : Task

pub record Attempted : Type 0 where
  pub operation : StoredDeviceOperation
  pub called : Bool  -- was the transport called?
  pub cooldown : Cooldown
  pub tasks : List Task

-- The branches after the completion
unfoldable pub after_outcome : Outcome → ℕ → Cooldown × List Task
after_outcome (success value) at = (cleared, publish_contact ∷ persist_contact ∷ [])
after_outcome (failure (device_error code message)) at =
    (cleared, publish_contact ∷ persist_contact ∷ [])
after_outcome (failure (protocol_error detail)) at = (unchanged, persist_protocol_fault ∷ [])
after_outcome (unknown no_answer) at =
    (until (min max_safe_integer (at + device_response_timeout_cooldown_ms)), persist_timeout ∷ [])
after_outcome _ at = (unchanged, [])

complete :
    Bool
    → ℕ
    → DeviceOperationResult
    → Cooldown × List Task
    → StoredDeviceOperation
    → Result Attempted
complete internal at r after o = do
  c ← complete_in_flight internal at r o
  ok (record {
    operation = c.operation;
    called = true;
    cooldown = after.0;
    tasks = log_operation ∷ after.1;
  })

abbrev lost : Option Text → DeviceOperationResult
lost wire = outcome_unknown wire transport_error_after_attempt none

abbrev error_result : DeviceOperationResult
error_result =
    failed none (codes "transport_unavailable")
      (codes "MQTT transport was unavailable before command publication")

single_outcome : Bool → WireResult → List Outcome → StoredDeviceOperation → Result Attempted
unfolding complete operation_result_from_outcome after_outcome
single_outcome internal w (outcome ∷ []) o =
    complete internal w.completed_at_ms (operation_result_from_outcome outcome w.operation_id)
      (after_outcome outcome w.completed_at_ms) o
single_outcome internal w _ o =
    complete internal w.completed_at_ms (lost (some w.operation_id)) (unchanged, []) o

-- `later` is the clock when the transport has thrown, or its times do not fit.
settle : Bool → ℕ → ℕ → Transport → StoredDeviceOperation → Result Attempted
unfolding complete single_outcome
settle internal attempt_at later unavailable o = do
  guard (leb attempt_at later) range_error
  complete internal later error_result (unchanged, []) o
settle internal attempt_at later broken o = do
  guard (leb attempt_at later) range_error
  complete internal later (lost none) (unchanged, []) o
settle internal attempt_at later (returned w) o =
    let anomaly = do
      guard (leb attempt_at later) range_error
      complete internal later (lost (some w.operation_id)) (unchanged, []) o
    in if ltb w.started_at_ms attempt_at || ltb w.completed_at_ms w.started_at_ms
      then anomaly
      else single_outcome internal w w.outcomes o

unfoldable pub attempt : Bool → ℕ → ℕ → Transport → StoredDeviceOperation → Result Attempted
unfolding settle
attempt internal attempt_at later transport o =
    if ltb attempt_at o.requested_at_ms
    then throw range_error
    else if leb o.deadline_at_ms attempt_at
    then (do
      o' ← complete_pending_without_attempt attempt_at (timed_out deadline_before_attempt) o
      ok (record {
        operation = o';
        called = false;
        cooldown = unchanged;
        tasks = log_operation ∷ [];
      }))
    else (do
      o' ← mark_in_flight internal attempt_at o
      settle internal attempt_at later transport o')
