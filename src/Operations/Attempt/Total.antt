-- ===== src/Operations/Attempt/Total.antt =====
-- About #attempt of the operation service: when it returns.
use aquarium_controller.Prelude.{
  ℕ, ◌≤◌, ◌≡◌, refl, true, false, List, [], ◌∷◌, Option, none, some, arith, Text, text_eq,
  Bool-cases, leb, ltb, le→leb, ◌||◌, inl, inr,
}
use aquarium_controller.Prelude.Result.{ok}
use aquarium_controller.Contracts.BoundedText.{is_bounded}
use aquarium_controller.Operations.Lifecycle.{
  DeviceOperationRequest, DeviceOperationResult, timed_out, deadline_before_attempt, is_unattempted,
  StoredDeviceOperation, complete_in_flight, mark_in_flight, complete_pending_without_attempt,
  is_pending, is_in_flight, in_flight_status, result_accepted, matches_request, finished,
}
use aquarium_controller.Operations.Attempt.{
  Outcome, success, failure, unknown, not_attempted, device_error, protocol_error, WireResult,
  Transport, unavailable, broken, returned, Cooldown, unchanged, Task, log_operation, Attempted,
  operation_result_from_outcome, after_outcome, complete, single_outcome, settle, attempt, lost,
  error_result,
}

-- The one outcome of a result can be stored: its texts are bounded, trimmed and without control characters,
-- and it has a value exactly for an analog read.
abbrev pub Fits : DeviceOperationRequest → Text → List Outcome → Type 0
Fits request wire (x ∷ []) =
    (result_accepted (operation_result_from_outcome x wire) ≡ true)
    × (matches_request request (operation_result_from_outcome x wire) ≡ true)
Fits request wire xs = Unit {0}

abbrev pub TransportFits : DeviceOperationRequest → Transport → Type 0
TransportFits request (returned w) =
    (is_bounded w.operation_id ≡ true) × Fits request w.operation_id w.outcomes
TransportFits request _ = Unit {0}

abbrev done : ℕ → DeviceOperationResult → Cooldown × List Task → StoredDeviceOperation → Attempted
done at r after o = record {
  operation = finished at r o;
  called = true;
  cooldown = after.0;
  tasks = log_operation ∷ after.1;
}

complete-done :
    (at : ℕ) (r : DeviceOperationResult) (after : Cooldown × List Task) (o : StoredDeviceOperation)
    → is_in_flight o.status ≡ true
    → o.requested_at_ms ≤ at
    → result_accepted r ≡ true
    → is_unattempted r ≡ false
    → matches_request o.request r ≡ true
    → complete false at r after o ≡ ok (done at r after o)
unfolding complete complete_in_flight
complete-done at r after o f q a u m = ground arith

attempted_outcome :
    (x : Outcome) (wire : Text) → is_unattempted (operation_result_from_outcome x wire) ≡ false
unfolding operation_result_from_outcome
attempted_outcome (success value) wire = refl
attempted_outcome (failure (device_error code message)) wire = refl
attempted_outcome (failure (protocol_error detail)) wire = refl
attempted_outcome (unknown reason) wire = refl
attempted_outcome (not_attempted reason) wire = refl

lost-done :
    (at : ℕ) (wire : Option Text) (o : StoredDeviceOperation)
    → is_in_flight o.status ≡ true
    → o.requested_at_ms ≤ at
    → result_accepted (lost wire) ≡ true
    → complete false at (lost wire) (unchanged, []) o ≡ ok (done at (lost wire) (unchanged, []) o)
lost-done at wire o f q a =
    complete-done at (lost wire) (unchanged, []) o f q a refl (unfold matches_request in refl)

single_total :
    (w : WireResult) (xs : List Outcome) (o : StoredDeviceOperation)
    → is_in_flight o.status ≡ true
    → o.requested_at_ms ≤ w.completed_at_ms
    → is_bounded w.operation_id ≡ true
    → Fits o.request w.operation_id xs
    → (a : Attempted) × (single_outcome false w xs o ≡ ok a)
unfolding single_outcome
single_total w [] o f q b h =
    (_, lost-done w.completed_at_ms (some w.operation_id) o f q (unfold result_accepted in b))
single_total w (x ∷ []) o f q b h = (
  _,
  complete-done w.completed_at_ms (operation_result_from_outcome x w.operation_id)
      (after_outcome x w.completed_at_ms) o f q h.0 (attempted_outcome x w.operation_id) h.1,
)
single_total w (x ∷ y ∷ rest) o f q b h =
    (_, lost-done w.completed_at_ms (some w.operation_id) o f q (unfold result_accepted in b))

settle_total :
    (t later : ℕ) (transport : Transport) (o : StoredDeviceOperation)
    → is_in_flight o.status ≡ true
    → o.requested_at_ms ≤ t
    → t ≤ later
    → TransportFits o.request transport
    → (a : Attempted) × (settle false t later transport o ≡ ok a)
unfolding settle text_eq
settle_total t later unavailable o f q l h = (
  done later error_result (unchanged, []) o,
  rw (le→leb t later l) (
      complete-done later error_result (unchanged, []) o f (omega arith)
        (unfold result_accepted in refl) refl (unfold matches_request in refl)),
)
settle_total t later broken o f q l h = (
  done later (lost none) (unchanged, []) o,
  rw (le→leb t later l) (lost-done later none o f (omega arith) (unfold result_accepted in refl)),
)
settle_total t later (returned w) o f q l (b, h) =
    elim (Bool-cases (ltb w.started_at_ms t || ltb w.completed_at_ms w.started_at_ms)) [
      | inl late ↦ (
        done later (lost (some w.operation_id)) (unchanged, []) o,
        rw (late, le→leb t later l)
            (lost-done later (some w.operation_id) o f (omega arith) (unfold result_accepted in b)),
      )
      | inr fine ↦ let (a, e) = single_total w w.outcomes o f (ground arith) b h in (a, rw fine e)
    ]

mark_sent :
    (t : ℕ) (o : StoredDeviceOperation)
    → is_pending o.status ≡ true
    → o.requested_at_ms ≤ t
    → mark_in_flight false t o
      ≡ ok (record o { status = in_flight_status; completed_at_ms = none; result = none })
unfolding mark_in_flight
mark_sent t o p q = rw (p, le→leb o.requested_at_ms t q) refl

expired_done :
    (t : ℕ) (o : StoredDeviceOperation)
    → is_pending o.status ≡ true
    → o.requested_at_ms ≤ t
    → complete_pending_without_attempt t (timed_out deadline_before_attempt) o
      ≡ ok (finished t (timed_out deadline_before_attempt) o)
unfolding complete_pending_without_attempt
expired_done t o p q = rw (p, le→leb o.requested_at_ms t q) refl

asked_false : (t r : ℕ) → r ≤ t → ltb t r ≡ false
asked_false t r q = ground arith

-- The attempt of a pending operation that is not internal, at a time from its request on and with a clock that does not fall,
-- always returns, if what the transport reports can be stored (by the schemas of bounded texts and of results).
pub attempt_total :
    (t later : ℕ) (transport : Transport) (o : StoredDeviceOperation)
    → is_pending o.status ≡ true
    → o.requested_at_ms ≤ t
    → t ≤ later
    → TransportFits o.request transport
    → (a : Attempted) × (attempt false t later transport o ≡ ok a)
unfolding attempt
attempt_total t later transport o p q l h =
    let asked = asked_false t o.requested_at_ms q in
    elim (Bool-cases (leb o.deadline_at_ms t)) [
      | inl over ↦ (
        record {
          operation = finished t (timed_out deadline_before_attempt) o;
          called = false;
          cooldown = unchanged;
          tasks = log_operation ∷ [];
        },
        rw (asked, over, expired_done t o p q) refl,
      )
      | inr before ↦
          let (a, e) =
            settle_total t later transport
              (record o { status = in_flight_status; completed_at_ms = none; result = none }) refl q
              l h in
          (a, rw (asked, before, mark_sent t o p q) e)
    ]
