-- ===== src/Operations/Attempt/Readings.antt =====
-- About #attempt of the operation service: what a reported outcome stands for, as a table of its own.
use aquarium_controller.Prelude.{
  ℕ, ◌+◌, ◌≤◌, ◌<◌, List, [], ◌∷◌, ◌++◌, Option, none, some, arith, Text, codes, length, take,
  Bool-cases, leb, inl, inr,
}
use Prim.Native.Nat.{min}
use aquarium_controller.Operations.Lifecycle.{
  DeviceOperationResult, succeeded, failed, outcome_unknown, timeout, publish_failed, disconnected,
  transport_stopped,
}
use aquarium_controller.Operations.Attempt.{
  Outcome, success, failure, unknown, not_attempted, device_error, protocol_error, no_answer,
  not_published, connection_lost, stopped, was_disconnected, was_stopped, Cooldown, unchanged,
  cleared, until, Task, publish_contact, persist_contact, persist_protocol_fault, persist_timeout,
  operation_result_from_outcome, after_outcome, describe_protocol_fault,
}

-- A text that is stored in place of a protocol fault: the fault, or its start with dots, of 256 units
pub data Shortened (detail : Text) : Text → Type 0 where
  whole : length detail ≤ 256 → Shortened detail detail
  cut : 256 < length detail → Shortened detail (take 253 detail ++ codes "...")

-- The outcome, reported for an operation at a time, is stored as this result, does this to the cooldown, and
-- has these tasks.
pub data Reads : Outcome → Text → ℕ → DeviceOperationResult → Cooldown → List Task → Type 0 where
  reads_success :
      {wire : Text} {at : ℕ} (value : Option ℕ)
      → Reads
          (success value)
          wire
          at
          (succeeded wire value)
          cleared
          (publish_contact ∷ persist_contact ∷ [])
  reads_device_error :
      {wire : Text} {at : ℕ} (code message : Text)
      → Reads
          (failure (device_error code message))
          wire
          at
          (failed
            (some wire)
            (codes "device_reported_error")
            (codes "Device reported " ++ (code ++ (codes ": " ++ message))))
          cleared
          (publish_contact ∷ persist_contact ∷ [])
  reads_protocol_error :
      {wire : Text} {at : ℕ} (detail message : Text)
      → Shortened detail message
      → Reads
          (failure (protocol_error detail))
          wire
          at
          (failed (some wire) (codes "unexpected_response") message)
          unchanged
          (persist_protocol_fault ∷ [])
  reads_no_answer :
      {wire : Text} {at : ℕ}
      → Reads
          (unknown no_answer)
          wire
          at
          (outcome_unknown (some wire) timeout none)
          (until (min 9007199254740991 (at + 60000)))
          (persist_timeout ∷ [])
  reads_not_published :
      {wire : Text} {at : ℕ}
      → Reads
          (unknown not_published)
          wire
          at
          (outcome_unknown (some wire) publish_failed none)
          unchanged
          []
  reads_connection_lost :
      {wire : Text} {at : ℕ}
      → Reads
          (unknown connection_lost)
          wire
          at
          (outcome_unknown (some wire) disconnected none)
          unchanged
          []
  reads_stopped :
      {wire : Text} {at : ℕ}
      → Reads
          (unknown stopped)
          wire
          at
          (outcome_unknown (some wire) transport_stopped none)
          unchanged
          []
  reads_was_disconnected :
      {wire : Text} {at : ℕ}
      → Reads
          (not_attempted was_disconnected)
          wire
          at
          (failed
            (some wire)
            (codes "not_attempted")
            (codes "Command was not attempted: disconnected"))
          unchanged
          []
  reads_was_stopped :
      {wire : Text} {at : ℕ}
      → Reads
          (not_attempted was_stopped)
          wire
          at
          (failed
            (some wire)
            (codes "not_attempted")
            (codes "Command was not attempted: transport_stopped"))
          unchanged
          []

describe_protocol_fault-Shortened :
    (detail : Text) → Shortened detail (describe_protocol_fault detail)
unfolding describe_protocol_fault
describe_protocol_fault-Shortened detail = elim (Bool-cases (leb (length detail) 256)) [
  | inl short ↦ rw short (whole (ground arith))
  | inr long ↦ rw long (cut (ground arith))
]

pub operation_result_from_outcome-Reads :
    (x : Outcome) (wire : Text) (at : ℕ)
    → Reads x wire at
        (operation_result_from_outcome x wire)
        (after_outcome x at).0
        (after_outcome x at).1
unfolding operation_result_from_outcome after_outcome
operation_result_from_outcome-Reads (success value) wire at = reads_success value
operation_result_from_outcome-Reads (failure (device_error code message)) wire at =
    reads_device_error code message
operation_result_from_outcome-Reads (failure (protocol_error detail)) wire at =
    reads_protocol_error detail (describe_protocol_fault detail)
      (describe_protocol_fault-Shortened detail)
operation_result_from_outcome-Reads (unknown no_answer) wire at = reads_no_answer
operation_result_from_outcome-Reads (unknown not_published) wire at = reads_not_published
operation_result_from_outcome-Reads (unknown connection_lost) wire at = reads_connection_lost
operation_result_from_outcome-Reads (unknown stopped) wire at = reads_stopped
operation_result_from_outcome-Reads (not_attempted was_disconnected) wire at =
    reads_was_disconnected
operation_result_from_outcome-Reads (not_attempted was_stopped) wire at = reads_was_stopped
