-- ===== src/Operations/Attempt/Outcomes.antt =====
-- About #attempt of the operation service: what it records.
use aquarium_controller.Prelude.{
  ℕ, ◌≤◌, ◌<◌, ◌≡◌, refl, ◌⊎◌, inl, inr, Bool, true, false, List, [], ◌∷◌, Option, none, some,
  arith, Text, codes, length, ◌≢◌, Bool-cases, leb, ltb, ◌||◌,
}
use aquarium_controller.Prelude.Result.{ok, range_error, guard, ◌>>=◌, >>=-eq-ok}
use aquarium_controller.Operations.Lifecycle.{
  DeviceOperationResult, failed, outcome_unknown, transport_error_after_attempt, timed_out,
  deadline_before_attempt, StoredDeviceOperation, complete_in_flight, mark_in_flight,
  complete_pending_without_attempt,
}
use aquarium_controller.Operations.Lifecycle.Order.{
  complete_in_flight-Moves, complete_pending_without_attempt-Moves,
}
use aquarium_controller.Operations.Attempt.Readings.{Reads, operation_result_from_outcome-Reads}
use aquarium_controller.Operations.Attempt.{
  log_operation, Outcome, WireResult, Transport, unavailable, broken, returned, Cooldown, unchanged,
  Task, Attempted, complete, single_outcome, settle, attempt, lost, error_result,
}

-- How the attempted operation ends: its result and the time, the cooldown, and the tasks after the log entry
abbrev pub Ends : Attempted → ℕ → DeviceOperationResult → Cooldown → List Task → Type 0
Ends a at r k tasks =
    (a.operation.result ≡ some r)
    × (a.operation.completed_at_ms ≡ some at)
    × (a.cooldown ≡ k)
    × (a.tasks ≡ log_operation ∷ tasks)

-- Does the transport start after the attempt has begun, and end after it has started?
abbrev pub InOrder : ℕ → WireResult → Type 0
InOrder t w = (t ≤ w.started_at_ms) × (w.started_at_ms ≤ w.completed_at_ms)

abbrev Lost : Attempted → ℕ → Option Text → Type 0
Lost a at wire = Ends a at (outcome_unknown wire transport_error_after_attempt none) unchanged []

-- What is recorded of an attempt at time `t` that has called the transport. `later` is the clock afterwards.
-- The three cases of a wire result exclude one another.
abbrev pub Recorded : Transport → ℕ → ℕ → Attempted → Type 0
Recorded unavailable t later a =
    Ends a later
      (failed none (codes "transport_unavailable")
        (codes "MQTT transport was unavailable before command publication"))
      unchanged []
Recorded broken t later a = Lost a later none
Recorded (returned w) t later a =
    (InOrder t w
      × ((x : Outcome) × (r : DeviceOperationResult) × (k : Cooldown) × (tasks : List Task)
          × (w.outcomes ≡ x ∷ [])
          × Reads x w.operation_id w.completed_at_ms r k tasks
          × Ends a w.completed_at_ms r k tasks))
    ⊎ ((InOrder t w × (length w.outcomes ≢ 1) × Lost a w.completed_at_ms (some w.operation_id))
        ⊎ (((w.started_at_ms < t) ⊎ (w.completed_at_ms < w.started_at_ms))
            × Lost a later (some w.operation_id)))

complete_fields :
    (internal : Bool) (at : ℕ) (r : DeviceOperationResult) (after : Cooldown × List Task)
    (o : StoredDeviceOperation) {a : Attempted}
    → complete internal at r after o ≡ ok a
    → (a.called ≡ true) × Ends a at r after.0 after.1
unfolding complete
complete_fields internal at r after o {a} h =
    let (c, e, made) = >>=-eq-ok (complete_in_flight internal at r o) _ h in
    let (move, at_time) = complete_in_flight-Moves internal at r o e in
    let op : a.operation ≡ c.operation = cc in (cc, (rw op (move.2), rw op at_time, cc, cc))

single_outcome-Recorded :
    (internal : Bool) (w : WireResult) (xs : List Outcome) (o : StoredDeviceOperation) (t later : ℕ)
    {a : Attempted}
    → w.outcomes ≡ xs
    → InOrder t w
    → single_outcome internal w xs o ≡ ok a
    → (a.called ≡ true) × Recorded (returned w) t later a
unfolding single_outcome
single_outcome-Recorded internal w [] o t later e p h =
    let (c, ends) = complete_fields internal _ _ _ o h in
    (c, inr (inl (p, (λ one. ground arith), ends)))
single_outcome-Recorded internal w (x ∷ []) o t later e p h =
    let (c, ends) = complete_fields internal _ _ _ o h in
    let reads = operation_result_from_outcome-Reads x w.operation_id w.completed_at_ms in
    (c, inl (p, (x, _, _, _, e, reads, ends)))
single_outcome-Recorded internal w (x ∷ y ∷ rest) o t later e p h =
    let (c, ends) = complete_fields internal _ _ _ o h in
    (c, inr (inl (p, (λ one. ground arith), ends)))

-- A completion behind the guard on the clock
guarded_fields :
    (internal : Bool) (t later : ℕ) (r : DeviceOperationResult) (o : StoredDeviceOperation)
    {a : Attempted}
    → (guard (leb t later) range_error >>= λ _. complete internal later r (unchanged, []) o) ≡ ok a
    → (a.called ≡ true) × Ends a later r unchanged []
guarded_fields internal t later r o h =
    let (u, g, h') = >>=-eq-ok (guard (leb t later) range_error) _ h in
    complete_fields internal later r (unchanged, []) o h'

out_of_order :
    (t : ℕ) (w : WireResult)
    → (ltb w.started_at_ms t || ltb w.completed_at_ms w.started_at_ms) ≡ true
    → (w.started_at_ms < t) ⊎ (w.completed_at_ms < w.started_at_ms)
out_of_order t w late = elim (Bool-cases (ltb w.started_at_ms t)) [
  | inl first ↦ inl (ground arith)
  | inr fine ↦ inr (ground arith)
]

settle-Recorded :
    (internal : Bool) (t later : ℕ) (transport : Transport) (o : StoredDeviceOperation)
    {a : Attempted}
    → settle internal t later transport o ≡ ok a
    → (a.called ≡ true) × Recorded transport t later a
unfolding settle
settle-Recorded internal t later unavailable o h = guarded_fields internal t later error_result o h
settle-Recorded internal t later broken o h = guarded_fields internal t later (lost none) o h
settle-Recorded internal t later (returned w) o h =
    elim (Bool-cases (ltb w.started_at_ms t || ltb w.completed_at_ms w.started_at_ms)) [
      | inl late ↦
          let (c, ends) =
            guarded_fields internal t later (lost (some w.operation_id)) o (rw late at h) in
          (c, inr (inr (out_of_order t w late, ends)))
      | inr fine ↦
          single_outcome-Recorded internal w w.outcomes o t later refl (ground arith, ground arith)
            (rw fine at h)
    ]

-- An attempt that returns has either not called the transport, because the deadline had come, and
-- recorded the operation as timed out, with no other task than the log entry; or called it before the
-- deadline and recorded what the transport reported. If that is one outcome at times that follow each
-- other, the result, the time of its end, the cooldown and the tasks are those that a table of the outcomes
-- has for it. If the times follow each other and the outcomes are none or several, the outcome is unknown,
-- ended when the transport did. If the times do not follow each other, or the transport threw, it is
-- unknown, and if the transport was unavailable it has failed, ended at the later clock; in all of these
-- the cooldown is unchanged and there is no other task.
pub attempt-Recorded :
    (internal : Bool) (t later : ℕ) (transport : Transport) (o : StoredDeviceOperation)
    {a : Attempted}
    → attempt internal t later transport o ≡ ok a
    → ((a.called ≡ false)
        × (o.deadline_at_ms ≤ t)
        × Ends a t (timed_out deadline_before_attempt) unchanged [])
      ⊎ ((a.called ≡ true) × (t < o.deadline_at_ms) × Recorded transport t later a)
unfolding attempt
attempt-Recorded internal t later transport o {a} h = elim (Bool-cases (ltb t o.requested_at_ms)) [
  | inl early ↦ absurd (ground arith)
  | inr asked ↦ elim (Bool-cases (leb o.deadline_at_ms t)) [
    | inl over ↦
        let (o', e, made) =
          >>=-eq-ok (complete_pending_without_attempt t (timed_out deadline_before_attempt) o) _
            (rw (asked, over) at h) in
        let (move, _, at_time) =
          complete_pending_without_attempt-Moves t (timed_out deadline_before_attempt) o e in
        let op : a.operation ≡ o' = cc in
        inl (cc, ground arith, (rw op move.2, rw op at_time, cc, cc))
    | inr open' ↦
        let (o', e, made) = >>=-eq-ok (mark_in_flight internal t o) _ (rw (asked, open') at h) in
        let (c, r) = settle-Recorded internal t later transport o' made in inr (c, ground arith, r)
  ]
]
