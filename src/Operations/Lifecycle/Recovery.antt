-- ===== src/Operations/Lifecycle/Recovery.antt =====
-- About recoverInterrupted: what it makes of the rows.
use aquarium_controller.Prelude.{
  ℕ, ◌≤◌, ◌<◌, ◌≡◌, refl, ap, ◌⊎◌, inl, inr, Bool, true, false, List, [], ◌∷◌, none, some, arith,
  if◌then◌else◌, leb, Text, Bool-cases,
}
use aquarium_controller.Protocol.Commands.{FirmwareUpdate}
use aquarium_controller.Prelude.Result.{Result, ok, throw, range_error}
use aquarium_controller.Operations.Lifecycle.{
  DeviceOperationRequest, set_pwm, ping, edit_configuration, schedule, sync_time, analog_read,
  release_startup_hold, firmware_update, OperationStatus, pending_status, in_flight_status,
  succeeded_status, failed_status, timed_out_status, outcome_unknown_status, cancelled_status,
  timed_out, cancelled, outcome_unknown, deadline_before_attempt, controller_restart_before_attempt,
  controller_restart, StoredDeviceOperation, is_pending, is_open, is_device_operation_kind,
  is_interrupted, recover_row, recover_interrupted,
}

-- The kinds of operation that a restart interrupts
pub data IsCommand : DeviceOperationRequest → Type 0 where
  a_set_pwm : (pin value : ℕ) (overwrite : Bool) → IsCommand (set_pwm pin value overwrite)
  a_ping : IsCommand ping
  an_edit :
      (device : Text) (revision format : ℕ) → IsCommand (edit_configuration device revision format)
  a_schedule : (text : Text) → IsCommand (schedule text)
  a_sync_time : (seconds : ℕ) → IsCommand (sync_time seconds)
  an_analog_read : (pin : ℕ) → IsCommand (analog_read pin)

pub data IsMaintenance : DeviceOperationRequest → Type 0 where
  a_release : IsMaintenance release_startup_hold
  an_update : (update : FirmwareUpdate) → IsMaintenance (firmware_update update)

pub data IsClosed : OperationStatus → Type 0 where
  has_succeeded : IsClosed succeeded_status
  has_failed : IsClosed failed_status
  has_timed_out : IsClosed timed_out_status
  is_unknown : IsClosed outcome_unknown_status
  was_cancelled : IsClosed cancelled_status

-- What becomes of a row in the recovery at time `now`
pub data Recovers (now : ℕ) (o : StoredDeviceOperation) : StoredDeviceOperation → Type 0 where
  of_other_kind : IsMaintenance o.request → Recovers now o o
  closed_before : IsClosed o.status → Recovers now o o
  expired :
      IsCommand o.request
      → o.status ≡ pending_status
      → o.requested_at_ms ≤ now
      → o.deadline_at_ms ≤ now
      → Recovers now o (record o {
        status = timed_out_status;
        completed_at_ms = some now;
        result = some (timed_out deadline_before_attempt);
      })
  given_up :
      IsCommand o.request
      → o.status ≡ pending_status
      → o.requested_at_ms ≤ now
      → now < o.deadline_at_ms
      → Recovers now o (record o {
        status = cancelled_status;
        completed_at_ms = some now;
        result = some (cancelled controller_restart_before_attempt);
      })
  perhaps_done :
      IsCommand o.request
      → o.status ≡ in_flight_status
      → o.requested_at_ms ≤ now
      → Recovers now o (record o {
        status = outcome_unknown_status;
        completed_at_ms = some now;
        result = some (outcome_unknown none controller_restart none);
      })

-- The row is open, of those kinds, and requested after the time.
abbrev pub IsLate : ℕ → StoredDeviceOperation → Type 0
IsLate now o =
    IsCommand o.request
    × ((o.status ≡ pending_status) ⊎ (o.status ≡ in_flight_status))
    × (now < o.requested_at_ms)

abbrev pub AllRecover : ℕ → List StoredDeviceOperation → List StoredDeviceOperation → Type 0
AllRecover now [] [] = Unit {0}
AllRecover now (o ∷ rest) (p ∷ later) = Recovers now o p × AllRecover now rest later
AllRecover now _ _ = ⊥

abbrev pub SomeLate : ℕ → List StoredDeviceOperation → Type 0
SomeLate now [] = ⊥
SomeLate now (o ∷ rest) = IsLate now o ⊎ SomeLate now rest

kind_cases :
    (r : DeviceOperationRequest)
    → ((is_device_operation_kind r ≡ true) × IsCommand r)
      ⊎ ((is_device_operation_kind r ≡ false) × IsMaintenance r)
kind_cases (set_pwm pin value overwrite) = inl (refl, a_set_pwm pin value overwrite)
kind_cases ping = inl (refl, a_ping)
kind_cases (edit_configuration device revision format) = inl (refl, an_edit device revision format)
kind_cases (schedule text) = inl (refl, a_schedule text)
kind_cases (sync_time seconds) = inl (refl, a_sync_time seconds)
kind_cases (analog_read pin) = inl (refl, an_analog_read pin)
kind_cases release_startup_hold = inr (refl, a_release)
kind_cases (firmware_update update) = inr (refl, an_update update)

status_cases :
    (s : OperationStatus)
    → (s ≡ pending_status) ⊎ ((s ≡ in_flight_status) ⊎ ((is_open s ≡ false) × IsClosed s))
status_cases pending_status = inl refl
status_cases in_flight_status = inr (inl refl)
status_cases succeeded_status = inr (inr (refl, has_succeeded))
status_cases failed_status = inr (inr (refl, has_failed))
status_cases timed_out_status = inr (inr (refl, has_timed_out))
status_cases outcome_unknown_status = inr (inr (refl, is_unknown))
status_cases cancelled_status = inr (inr (refl, was_cancelled))

-- What the recovery does to one row
abbrev row_step : ℕ → StoredDeviceOperation → Result StoredDeviceOperation
row_step now o = if is_interrupted o then recover_row now o else ok o

abbrev RowCases : ℕ → StoredDeviceOperation → Type 0
RowCases now o =
    ((p : StoredDeviceOperation) × (row_step now o ≡ ok p) × Recovers now o p)
    ⊎ ((row_step now o ≡ throw range_error) × IsLate now o)

pending_row :
    (now : ℕ) (o : StoredDeviceOperation)
    → is_device_operation_kind o.request ≡ true
    → IsCommand o.request
    → o.status ≡ pending_status
    → RowCases now o
unfolding recover_row
pending_row now o kind c s =
    let open' : is_pending o.status ≡ true = ap is_pending s in
    elim (Bool-cases (leb o.requested_at_ms now)) [
      | inl asked ↦ elim (Bool-cases (leb o.deadline_at_ms now)) [
        | inl over ↦ inl (_, ground arith, expired c s (ground arith) (ground arith))
        | inr before ↦ inl (_, ground arith, given_up c s (ground arith) (ground arith))
      ]
      | inr early ↦ inr (ground arith, (c, inl s, ground arith))
    ]

flying_row :
    (now : ℕ) (o : StoredDeviceOperation)
    → is_device_operation_kind o.request ≡ true
    → IsCommand o.request
    → o.status ≡ in_flight_status
    → RowCases now o
unfolding recover_row
flying_row now o kind c s =
    let shut : is_pending o.status ≡ false = ap is_pending s in
    let open' : is_open o.status ≡ true = ap is_open s in
    elim (Bool-cases (leb o.requested_at_ms now)) [
      | inl asked ↦ inl (_, ground arith, perhaps_done c s (ground arith))
      | inr early ↦ inr (ground arith, (c, inr s, ground arith))
    ]

row_cases : (now : ℕ) (o : StoredDeviceOperation) → RowCases now o
row_cases now o = elim (kind_cases o.request) [
  | inr (other, m) ↦ inl (o, ground arith, of_other_kind m)
  | inl (kind, c) ↦ elim (status_cases o.status) [
    | inl pending ↦ pending_row now o kind c pending
    | inr (inl flying) ↦ flying_row now o kind c flying
    | inr (inr (shut, closed)) ↦ inl (o, ground arith, closed_before closed)
  ]
]

-- Recovery at time `now` either returns the rows, each of them recovered: one of the device operation
-- kinds (all but releases of the startup hold and firmware updates) that is pending is closed as timed out,
-- if its deadline has come, else as cancelled; one in flight is closed as unknown, since it may have been
-- carried out; closed rows and those of other kinds stay as they are. Or it throws a RangeError, and an
-- open row of those kinds was requested later than `now`.
pub recover_interrupted_lem :
    (now : ℕ) (rows : List StoredDeviceOperation)
    → ((later : List StoredDeviceOperation) × (recover_interrupted now rows ≡ ok later)
        × AllRecover now rows later)
      ⊎ ((recover_interrupted now rows ≡ throw range_error) × SomeLate now rows)
unfolding recover_interrupted
recover_interrupted_lem now [] = inl ([], refl, tt)
recover_interrupted_lem now (o ∷ rest) = elim (row_cases now o) [
  | inr (thrown, late) ↦ inr (rw thrown refl, inl late)
  | inl (p, made, one) ↦ elim (recover_interrupted_lem now rest) [
    | inr (thrown, late) ↦ inr (rw (made, thrown) refl, inr late)
    | inl (later, all, recovers) ↦ inl (p ∷ later, rw (made, all) refl, (one, recovers))
  ]
]
