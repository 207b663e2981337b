-- ===== src/Operations/Lifecycle.antt =====
-- apps/controller/src/application/operations/device-operation-types.ts and the transitions of
-- apps/controller/src/infrastructure/database/control-operation-repository.ts: the life of one row. The
-- outbox event and the device's reported configuration, which the same transaction writes, are left out.
pub mod Order
pub mod Recovery
use aquarium_controller.Prelude.{
  ℕ, ◌≤◌, Bool, true, false, not, ◌&&◌, ◌||◌, List, [], ◌∷◌, Option, none, some, if◌then◌else◌, leb,
  ltb, ◌==◌, Text, text_eq, length,
}
use aquarium_controller.Prelude.Result.{
  Result, ok, throw, Error, range_error, type_error, plain_error, schema_error, guard, ◌>>=◌, ◌>>◌,
}
use aquarium_controller.Contracts.BoundedText.{is_bounded}
use aquarium_controller.Protocol.Commands.{FirmwareUpdate}

pub data DeviceOperationRequest : Type 0 where
  set_pwm : ℕ → ℕ → Bool → DeviceOperationRequest
  ping : DeviceOperationRequest
  edit_configuration : Text → ℕ → ℕ → DeviceOperationRequest
  schedule : Text → DeviceOperationRequest
  sync_time : ℕ → DeviceOperationRequest
  analog_read : ℕ → DeviceOperationRequest
  release_startup_hold : DeviceOperationRequest
  firmware_update : FirmwareUpdate → DeviceOperationRequest

pub data TimedOutReason : Type 0 where
  deadline_before_attempt controller_restarted : TimedOutReason

pub data UnknownReason : Type 0 where
  timeout publish_failed disconnected transport_stopped : UnknownReason
  controller_restart transport_error_after_attempt persistence_failed_after_attempt : UnknownReason

pub data CancelledReason : Type 0 where
  controller_restart_before_attempt cancelled_by_owner : CancelledReason
  device_command_cooldown device_command_in_flight : CancelledReason

-- The arguments are the fields of the result, in the order of the source.
pub data DeviceOperationResult : Type 0 where
  succeeded : Text → Option ℕ → DeviceOperationResult
  failed : Option Text → Text → Text → DeviceOperationResult
  timed_out : TimedOutReason → DeviceOperationResult
  outcome_unknown : Option Text → UnknownReason → Option ℕ → DeviceOperationResult
  cancelled : CancelledReason → DeviceOperationResult

pub data OperationStatus : Type 0 where
  pending_status in_flight_status succeeded_status failed_status : OperationStatus
  timed_out_status outcome_unknown_status cancelled_status : OperationStatus

abbrev pub status_of : DeviceOperationResult → OperationStatus
status_of (succeeded wire value) = succeeded_status
status_of (failed wire code message) = failed_status
status_of (timed_out reason) = timed_out_status
status_of (outcome_unknown wire reason at) = outcome_unknown_status
status_of (cancelled reason) = cancelled_status

pub record StoredDeviceOperation : Type 0 where
  pub id : Text
  pub device_id : Text
  pub status : OperationStatus
  pub requested_at_ms : ℕ
  pub deadline_at_ms : ℕ
  pub completed_at_ms : Option ℕ
  pub request : DeviceOperationRequest
  pub result : Option DeviceOperationResult

abbrev pub is_pending : OperationStatus → Bool
is_pending pending_status = true
is_pending _ = false

abbrev pub is_in_flight : OperationStatus → Bool
is_in_flight in_flight_status = true
is_in_flight _ = false

-- timed_out and cancelled: how an operation ends that was not attempted
abbrev pub is_unattempted : DeviceOperationResult → Bool
is_unattempted (timed_out reason) = true
is_unattempted (cancelled reason) = true
is_unattempted _ = false

abbrev is_analog_read : DeviceOperationRequest → Bool
is_analog_read (analog_read pin) = true
is_analog_read _ = false

abbrev is_set_pwm : DeviceOperationRequest → Bool
is_set_pwm (set_pwm pin value overwrite) = true
is_set_pwm _ = false

abbrev has_value : Option ℕ → Bool
has_value none = false
has_value (some v) = true

-- deviceOperationResultSchema
abbrev wire_accepted : Option Text → Bool
wire_accepted none = true
wire_accepted (some t) = is_bounded t

abbrev value_accepted : Option ℕ → Bool
value_accepted none = true
value_accepted (some v) = leb v 4095

unfoldable pub result_accepted : DeviceOperationResult → Bool
result_accepted (succeeded wire value) = is_bounded wire && value_accepted value
result_accepted (failed wire code message) =
    wire_accepted wire && (is_bounded code && is_bounded message)
result_accepted (outcome_unknown wire reason at) = wire_accepted wire
result_accepted (timed_out reason) = true
result_accepted (cancelled reason) = true

-- assertDeviceOperationResultMatchesRequest
abbrev same : Bool → Bool → Bool
same true b = b
same false b = not b

unfoldable pub matches_request : DeviceOperationRequest → DeviceOperationResult → Bool
matches_request request (succeeded wire value) = same (is_analog_read request) (has_value value)
matches_request request _ = true

-- DeviceOperationLifecycleOptions, and whether a success is deleted
abbrev pub is_success : DeviceOperationResult → Bool
is_success (succeeded wire value) = true
is_success _ = false

-- #commitTransition: the row is written if the transition does not precede the request.
commit_transition :
    StoredDeviceOperation
    → OperationStatus
    → ℕ
    → Option ℕ
    → Option DeviceOperationResult
    → Result StoredDeviceOperation
commit_transition o status at completed result = do
  guard (leb o.requested_at_ms at) range_error
  ok (record o { status = status; completed_at_ms = completed; result = result })

-- `internal` is `options.visibility === "internal"`.
unfoldable pub mark_in_flight : Bool → ℕ → StoredDeviceOperation → Result StoredDeviceOperation
unfolding commit_transition
mark_in_flight internal at o = do
  guard (is_pending o.status) plain_error
  guard (leb o.requested_at_ms at) range_error
  if internal
      then (do
        guard (is_set_pwm o.request) type_error
        ok (record o { status = in_flight_status; completed_at_ms = none; result = none }))
      else commit_transition o in_flight_status at none none

-- What is left of the row (none, if it is deleted), and the operation that is returned
pub record Completion : Type 0 where
  pub row : Option StoredDeviceOperation
  pub operation : StoredDeviceOperation

abbrev pub finished : ℕ → DeviceOperationResult → StoredDeviceOperation → StoredDeviceOperation
finished at r o = record o { status = status_of r; completed_at_ms = some at; result = some r }

unfoldable pub complete_in_flight :
    Bool → ℕ → DeviceOperationResult → StoredDeviceOperation → Result Completion
unfolding commit_transition matches_request result_accepted
complete_in_flight internal at r o = do
  guard (result_accepted r) schema_error
  guard (is_in_flight o.status) plain_error
  guard (not (is_unattempted r)) plain_error
  guard (matches_request o.request r) type_error
  if internal && is_success r
      then (do
        guard (is_set_pwm o.request) type_error
        ok (record { row = none; operation = finished at r o }))
      else (do
        o' ← commit_transition o (status_of r) at (some at) (some r)
        ok (record { row = some o'; operation = o' }))

unfoldable pub complete_pending_without_attempt :
    ℕ → DeviceOperationResult → StoredDeviceOperation → Result StoredDeviceOperation
unfolding commit_transition result_accepted
complete_pending_without_attempt at r o = do
  guard (result_accepted r) schema_error
  guard (is_unattempted r) plain_error
  guard (is_pending o.status) plain_error
  commit_transition o (status_of r) at (some at) (some r)

abbrev pub is_open : OperationStatus → Bool
is_open s = is_pending s || is_in_flight s

-- The body of the loop of recoverInterrupted
pub recover_row : ℕ → StoredDeviceOperation → Result StoredDeviceOperation
unfolding complete_pending_without_attempt complete_in_flight
recover_row now o = do
  guard (leb o.requested_at_ms now) range_error
  if is_pending o.status
      then complete_pending_without_attempt now
          (if leb o.deadline_at_ms now
            then timed_out deadline_before_attempt
            else cancelled controller_restart_before_attempt)
          o
      else (do
        c ← complete_in_flight false now (outcome_unknown none controller_restart none) o
        ok c.operation)

-- DEVICE_OPERATION_KINDS, which leaves out releases of the startup hold and firmware updates
abbrev pub is_device_operation_kind : DeviceOperationRequest → Bool
is_device_operation_kind (set_pwm pin value overwrite) = true
is_device_operation_kind ping = true
is_device_operation_kind (edit_configuration device revision schema) = true
is_device_operation_kind (schedule text) = true
is_device_operation_kind (sync_time seconds) = true
is_device_operation_kind (analog_read pin) = true
is_device_operation_kind release_startup_hold = false
is_device_operation_kind (firmware_update update) = false

-- The two conditions of the query of recoverInterrupted
abbrev pub is_interrupted : StoredDeviceOperation → Bool
is_interrupted o = is_device_operation_kind o.request && is_open o.status

-- The rows that the query selects, recovered in the order of the table, the others as they are. The query
-- orders them by the time of the request, which bears only on the rows that are written before a throw.
unfoldable pub recover_interrupted :
    ℕ → List StoredDeviceOperation → Result (List StoredDeviceOperation)
unfolding recover_row
recover_interrupted now [] = ok []
recover_interrupted now (o ∷ rest) = do
  o' ← (if is_interrupted o then recover_row now o else ok o)
  rest' ← recover_interrupted now rest
  ok (o' ∷ rest')
