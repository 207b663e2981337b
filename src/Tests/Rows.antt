-- ===== src/Tests/Rows.antt =====
-- The row of one operation, from its request to its end.
use aquarium_controller.Prelude.{
  ◌≤◌, ◌<◌, ◌≡◌, ◌⊎◌, refl, true, false, List, [], ◌∷◌, none, some, arith, codes, text_eq,
}
use aquarium_controller.Prelude.Result.{ok, throw, range_error, schema_error}
use aquarium_controller.Operations.Lifecycle.{
  DeviceOperationResult, failed, outcome_unknown, controller_restart, release_startup_hold, set_pwm,
  succeeded, timed_out, deadline_before_attempt, StoredDeviceOperation, analog_read, pending_status,
  in_flight_status, succeeded_status, finished, mark_in_flight, complete_in_flight,
  complete_pending_without_attempt, recover_interrupted, result_accepted, matches_request,
}
use aquarium_controller.Operations.Lifecycle.Order.{Moves, apply_transition-Moves, ends_attempted}
use aquarium_controller.Operations.Lifecycle.Recovery.{
  AllRecover, SomeLate, recover_interrupted_lem,
}
use aquarium_controller.Operations.Attempt.{
  Transport, returned, success, cleared, unchanged, Attempted, attempt,
  operation_result_from_outcome, publish_contact, persist_contact, log_operation,
}
use aquarium_controller.Operations.Attempt.Outcomes.{Ends, Recorded, attempt-Recorded}
use aquarium_controller.Operations.Attempt.Total.{attempt_total}

abbrev row : StoredDeviceOperation
row = record {
  id = codes "op1";
  device_id = codes "tank-1";
  status = pending_status;
  requested_at_ms = 1000;
  deadline_at_ms = 6000;
  completed_at_ms = none;
  request = analog_read 34;
  result = none;
}

abbrev sent : StoredDeviceOperation
sent = record row { status = in_flight_status }

abbrev level : DeviceOperationResult
level = succeeded (codes "w1") (some 2048)

abbrev answered : StoredDeviceOperation
answered = record row {
  status = succeeded_status;
  completed_at_ms = some 1200;
  result = some level;
}

row_sent : mark_in_flight false 1100 row ≡ ok sent
unfolding mark_in_flight
row_sent = refl

sent-answered :
    complete_in_flight false 1200 level sent
    ≡ ok (record { row = some answered; operation = answered })
unfolding complete_in_flight text_eq
sent-answered = refl

apply_transition-Moves_example :
    Moves sent answered 1200 (some level)
    × (answered.completed_at_ms ≡ some 1200)
    × (some answered ≡ some answered)
unfolding complete_in_flight text_eq
apply_transition-Moves_example =
    apply_transition-Moves (ends_attempted false 1200 level) sent
      {c = record { row = some answered; operation = answered }} refl

-- An internal operation that succeeds leaves no row.
abbrev internal_sent : StoredDeviceOperation
internal_sent = record sent { request = set_pwm 5 100 true }

internal-deleted :
    complete_in_flight true 1200 (succeeded (codes "w1") none) internal_sent
    ≡ ok (record {
      row = none;
      operation = finished 1200 (succeeded (codes "w1") none) internal_sent;
    })
unfolding complete_in_flight text_eq
internal-deleted = refl

untrimmed_refused :
    complete_in_flight false 1200 (failed none (codes "code") (codes "message ")) sent
    ≡ throw schema_error
unfolding complete_in_flight text_eq
untrimmed_refused = refl

control_refused :
    complete_in_flight false 1200 (failed none (codes "code") (97 ∷ 10 ∷ 98 ∷ [])) sent
    ≡ throw schema_error
unfolding complete_in_flight text_eq
control_refused = refl

row_expired :
    complete_pending_without_attempt 6000 (timed_out deadline_before_attempt) row
    ≡ ok (finished 6000 (timed_out deadline_before_attempt) row)
unfolding complete_pending_without_attempt
row_expired = refl

abbrev rows : List StoredDeviceOperation
rows = row ∷ sent ∷ answered ∷ record row { request = release_startup_hold } ∷ []

rows_recovered :
    recover_interrupted 9000 rows
    ≡ ok (
        finished 9000 (timed_out deadline_before_attempt) row
        ∷ finished 9000 (outcome_unknown none controller_restart none) sent
        ∷ answered
        ∷ record row { request = release_startup_hold }
        ∷ [])
unfolding recover_interrupted
rows_recovered = refl

recover_interrupted_example :
    ((later : List StoredDeviceOperation) × (recover_interrupted 9000 rows ≡ ok later)
      × AllRecover 9000 rows later)
    ⊎ ((recover_interrupted 9000 rows ≡ throw range_error) × SomeLate 9000 rows)
recover_interrupted_example = recover_interrupted_lem 9000 rows

abbrev answer : Transport
answer = returned (record {
  operation_id = codes "w1";
  started_at_ms = 1100;
  completed_at_ms = 1200;
  outcomes = success (some 2048) ∷ [];
})

abbrev attempted : Attempted
attempted = record {
  operation = answered;
  called = true;
  cooldown = cleared;
  tasks = log_operation ∷ publish_contact ∷ persist_contact ∷ [];
}

attempt_answered : attempt false 1100 1300 answer row ≡ ok attempted
unfolding attempt mark_in_flight complete_in_flight text_eq
attempt_answered = refl

attempt-Recorded_example :
    ((true ≡ false)
      × (6000 ≤ 1100)
      × Ends attempted 1100 (timed_out deadline_before_attempt) unchanged [])
    ⊎ ((true ≡ true) × (1100 < 6000) × Recorded answer 1100 1300 attempted)
attempt-Recorded_example = attempt-Recorded false 1100 1300 answer row attempt_answered

attempt_total_example : (a : Attempted) × (attempt false 1100 1300 answer row ≡ ok a)
unfolding text_eq
attempt_total_example = attempt_total 1100 1300 answer row refl (omega arith) (omega arith) (
  refl,
  (
    unfold operation_result_from_outcome result_accepted in refl,
    unfold operation_result_from_outcome matches_request in refl,
  ),
)
