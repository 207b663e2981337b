-- ===== src/Operations/Lifecycle/Order.antt =====
-- About the transitions of an operation: the edges from one status to the next.
use aquarium_controller.Prelude.{
  ℕ, ◌≤◌, ◌≡◌, refl, ap, subst, Bool, true, false, Option, none, some, arith, if◌then◌else◌,
}
use aquarium_controller.Prelude.Result.{Result, ok, throw, ◌>>=◌, >>=-eq-ok}
use aquarium_controller.Operations.Lifecycle.{
  DeviceOperationResult, OperationStatus, pending_status, in_flight_status, succeeded_status,
  failed_status, timed_out_status, outcome_unknown_status, cancelled_status, succeeded, failed,
  timed_out, outcome_unknown, cancelled, StoredDeviceOperation, status_of, mark_in_flight,
  complete_in_flight, complete_pending_without_attempt, Completion, is_pending, is_in_flight,
  is_unattempted, finished,
}

-- pending: nothing has been sent. in flight: it may have been. The rest are final.
pub data Follows : OperationStatus → OperationStatus → Type 0 where
  attempt : Follows pending_status in_flight_status
  expire : Follows pending_status timed_out_status
  cancel : Follows pending_status cancelled_status
  succeed : Follows in_flight_status succeeded_status
  fail : Follows in_flight_status failed_status
  lose : Follows in_flight_status outcome_unknown_status

-- What a transition leaves alone
abbrev pub SameRequest : StoredDeviceOperation → StoredDeviceOperation → Type 0
SameRequest o p =
    (p.id ≡ o.id)
    × (p.device_id ≡ o.device_id)
    × (p.request ≡ o.request)
    × (p.requested_at_ms ≡ o.requested_at_ms)
    × (p.deadline_at_ms ≡ o.deadline_at_ms)

-- `p` comes of `o` by one step at time `at`, with result `r`.
abbrev pub Moves :
    StoredDeviceOperation → StoredDeviceOperation → ℕ → Option DeviceOperationResult → Type 0
Moves o p at r = Follows o.status p.status × SameRequest o p × (p.result ≡ r)

-- If `markInFlight` returns, the row was pending and not requested later, and is now in flight, with what
-- was requested kept and no result.
mark_in_flight-Moves :
    (internal : Bool) (at : ℕ) (o : StoredDeviceOperation) {p : StoredDeviceOperation}
    → mark_in_flight internal at o ≡ ok p
    → Moves o p at none × (o.requested_at_ms ≤ at) × (p.completed_at_ms ≡ none)
unfolding mark_in_flight
mark_in_flight-Moves internal at o h = grind (arith, attempt)

pending-Follows :
    (s : OperationStatus) (r : DeviceOperationResult)
    → is_pending s ≡ true
    → is_unattempted r ≡ true
    → Follows s (status_of r)
pending-Follows pending_status (timed_out reason) p u = expire
pending-Follows pending_status (cancelled reason) p u = cancel
pending-Follows pending_status (succeeded wire value) p u = absurd (cc)
pending-Follows pending_status (failed wire code message) p u = absurd (cc)
pending-Follows pending_status (outcome_unknown wire reason t) p u = absurd (cc)
pending-Follows _ r p u = absurd (cc)

flight-Follows :
    (s : OperationStatus) (r : DeviceOperationResult)
    → is_in_flight s ≡ true
    → is_unattempted r ≡ false
    → Follows s (status_of r)
flight-Follows in_flight_status (succeeded wire value) p u = succeed
flight-Follows in_flight_status (failed wire code message) p u = fail
flight-Follows in_flight_status (outcome_unknown wire reason t) p u = lose
flight-Follows in_flight_status (timed_out reason) p u = absurd (cc)
flight-Follows in_flight_status (cancelled reason) p u = absurd (cc)
flight-Follows _ r p u = absurd (cc)

-- If `completePendingWithoutAttempt` returns, the row was pending and not requested later, and is now
-- timed out or cancelled, with what was requested kept and the result and the time written.
pub complete_pending_without_attempt-Moves :
    (at : ℕ) (r : DeviceOperationResult) (o : StoredDeviceOperation) {p : StoredDeviceOperation}
    → complete_pending_without_attempt at r o ≡ ok p
    → Moves o p at (some r) × (o.requested_at_ms ≤ at) × (p.completed_at_ms ≡ some at)
unfolding complete_pending_without_attempt
complete_pending_without_attempt-Moves at r o {p} h =
    let e : p ≡ finished at r o = ground arith in
    let pending : is_pending o.status ≡ true = ground arith in
    let unattempted : is_unattempted r ≡ true = ground arith in
    let timely : o.requested_at_ms ≤ at = ground arith in
    rw e (
      (pending-Follows o.status r pending unattempted, (refl, refl, refl, refl, refl), refl),
      timely,
      refl,
    )

-- If `completeInFlight` returns, the row was in flight, and the operation has now succeeded, failed or an
-- unknown outcome, with what was requested kept and the result and the time written.
pub complete_in_flight-Moves :
    (internal : Bool) (at : ℕ) (r : DeviceOperationResult) (o : StoredDeviceOperation)
    {c : Completion}
    → complete_in_flight internal at r o ≡ ok c
    → Moves o c.operation at (some r) × (c.operation.completed_at_ms ≡ some at)
unfolding complete_in_flight
complete_in_flight-Moves internal at r o {c} h =
    let e : c.operation ≡ finished at r o = ground arith in
    let flying : is_in_flight o.status ≡ true = ground arith in
    let attempted : is_unattempted r ≡ false = ground arith in
    rw e ((flight-Follows o.status r flying attempted, (refl, refl, refl, refl, refl), refl), refl)

pub data Transition : Type 0 where
  marks : Bool → ℕ → Transition
  ends_unattempted : ℕ → DeviceOperationResult → Transition
  ends_attempted : Bool → ℕ → DeviceOperationResult → Transition

-- Does the transition delete the row? An internal operation leaves none when it succeeds.
abbrev pub deletes : Transition → Bool
deletes (ends_attempted true at (succeeded wire value)) = true
deletes _ = false

-- The row that `completeInFlight` leaves
complete_in_flight-row :
    (internal : Bool) (at : ℕ) (r : DeviceOperationResult) (o : StoredDeviceOperation)
    {c : Completion}
    → complete_in_flight internal at r o ≡ ok c
    → c.row ≡ (if deletes (ends_attempted internal at r) then none else some c.operation)
unfolding complete_in_flight
complete_in_flight-row true at (succeeded wire value) o h = ground arith
complete_in_flight-row true at (failed wire code message) o h = ground arith
complete_in_flight-row true at (timed_out reason) o h = ground arith
complete_in_flight-row true at (outcome_unknown wire reason t) o h = ground arith
complete_in_flight-row true at (cancelled reason) o h = ground arith
complete_in_flight-row false at r o h = ground arith

-- A row that stays
abbrev kept_row : StoredDeviceOperation → Completion
kept_row p = record { row = some p; operation = p }

abbrev pub apply_transition : Transition → StoredDeviceOperation → Result Completion
apply_transition (marks internal at) o = mark_in_flight internal at o >>= λ p. ok (kept_row p)
apply_transition (ends_unattempted at r) o =
    complete_pending_without_attempt at r o >>= λ p. ok (kept_row p)
apply_transition (ends_attempted internal at r) o = complete_in_flight internal at r o

abbrev pub time_of : Transition → ℕ
time_of (marks internal at) = at
time_of (ends_unattempted at r) = at
time_of (ends_attempted internal at r) = at

abbrev pub result_of : Transition → Option DeviceOperationResult
result_of (marks internal at) = none
result_of (ends_unattempted at r) = some r
result_of (ends_attempted internal at r) = some r

abbrev end_time : Transition → Option ℕ
end_time (marks internal at) = none
end_time (ends_unattempted at r) = some at
end_time (ends_attempted internal at r) = some at

row_of : StoredDeviceOperation → Result Completion → Completion
row_of o (ok c) = c
row_of o (throw error) = kept_row o

-- Whichever of `markInFlight`, `completePendingWithoutAttempt` and `completeInFlight` returns, the status of the
-- operation that it returns has moved one step forward (pending to in flight, timed out or cancelled, or in flight
-- to succeeded, failed or an unknown outcome), what was requested is kept, and the result and the time of its end
-- are written if it has ended. The stored row is that operation, or deleted, exactly if an internal operation has
-- succeeded.
pub apply_transition-Moves :
    (t : Transition) (o : StoredDeviceOperation) {c : Completion}
    → apply_transition t o ≡ ok c
    → Moves o c.operation (time_of t) (result_of t)
      × (c.operation.completed_at_ms ≡ end_time t)
      × (c.row ≡ (if deletes t then none else some c.operation))
unfolding row_of
apply_transition-Moves (marks internal at) o {c} e =
    let (p, made, same) = >>=-eq-ok (mark_in_flight internal at o) (λ p. ok (kept_row p)) e in
    let (m, t, f) = mark_in_flight-Moves internal at o made in
    subst
      (λ (x : Completion).
        Moves o x.operation at none
        × (x.operation.completed_at_ms ≡ none)
        × (x.row ≡ some x.operation))
      (ap (row_of o) same) (m, f, refl)
apply_transition-Moves (ends_unattempted at r) o {c} e =
    let (p, made, same) =
      >>=-eq-ok (complete_pending_without_attempt at r o) (λ p. ok (kept_row p)) e in
    let (m, t, f) = complete_pending_without_attempt-Moves at r o made in
    subst
      (λ (x : Completion).
        Moves o x.operation at (some r)
        × (x.operation.completed_at_ms ≡ some at)
        × (x.row ≡ some x.operation))
      (ap (row_of o) same) (m, f, refl)
apply_transition-Moves (ends_attempted internal at r) o e =
    let (m, f) = complete_in_flight-Moves internal at r o e in
    (m, f, complete_in_flight-row internal at r o e)
