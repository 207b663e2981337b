-- ===== src/Scheduling/Lane.antt =====
-- apps/controller/src/application/scheduling/output-refresh-scheduler.ts: the worker of one device. A
-- batch of a tick waits in `pending_batch` until the worker takes it; `settled` holds what has become of
-- its promise. Clock readings, in whole milliseconds, come with the events; a reading that is refused is
-- not an event here.
pub mod Batches
pub mod Cooldown
use aquarium_controller.Prelude.{
  ℕ, suc, ◌+◌, Bool, true, false, not, ◌&&◌, ◌||◌, List, [], ◌∷◌, ◌++◌, Option, none, some,
  if◌then◌else◌, ltb, Text,
}

abbrev pub output_retry_cooldown_ms : ℕ
output_retry_cooldown_ms = 60000

pub record RefreshCommand : Type 0 where
  pub mapping_id : Text
  pub pin : ℕ
  pub value : ℕ
  pub overwrite : Bool

-- ScheduledDeviceOperationStatus (`waiting` is "pending"), and what a dispatch comes to
pub data OperationStatus : Type 0 where
  waiting in_flight succeeded failed timed_out outcome_unknown cancelled : OperationStatus

pub data Dispatch : Type 0 where
  blocked : Dispatch
  operation : Text → OperationStatus → Dispatch

pub data Diagnostic : Type 0 where
  scheduled_operation_blocked : Text → Diagnostic
  scheduled_operation_not_succeeded : Text → Text → OperationStatus → Diagnostic

pub record DeviceReport : Type 0 where
  pub operation_count : ℕ
  pub diagnostics : List Diagnostic

abbrev pub empty_report : DeviceReport
empty_report = record { operation_count = 0; diagnostics = [] }

-- A batch, named by the tick that offers it
pub record Batch : Type 0 where
  pub tick : ℕ
  pub commands : List RefreshCommand

pub data Settlement : Type 0 where
  resolved : DeviceReport → Settlement
  rejected : Settlement

-- Where the worker waits: for a dispatch (of the command, with those behind it), for the end of its
-- call of executeDeviceCommands, or for its own end.
pub data Task : Type 0 where
  idle : Task
  dispatching : ℕ → RefreshCommand → List RefreshCommand → DeviceReport → Task
  returning : ℕ → DeviceReport → Task
  ending : Task

pub record Lane : Type 0 where
  pub pending_batch : Option Batch
  pub task : Task
  pub retry_after : Option ℕ
  pub stopping : Bool
  pub fatal_drain_pending : Bool
  pub settled : List (ℕ × Settlement)

abbrev settle : ℕ → Settlement → Lane → Lane
settle tick how l = record l { settled = (tick, how) ∷ l.settled }

-- worker.pendingBatch?.resolve(emptyDeviceReport())
abbrev discard_batch : Option Batch → Lane → Lane
discard_batch none l = l
discard_batch (some b) l = settle b.tick (resolved empty_report) l

pub discard_pending : Lane → Lane
discard_pending l = record (discard_batch l.pending_batch l) { pending_batch = none }

-- The head of the loop in executeDeviceCommands
unfoldable pub next_command : ℕ → List RefreshCommand → DeviceReport → Lane → Lane
next_command tick [] report l = record l { task = returning tick report }
next_command tick (c ∷ rest) report l = record l {
  task = if l.stopping then returning tick report else dispatching tick c rest report;
}

abbrev cooling : Option ℕ → ℕ → Bool
cooling none now = false
cooling (some until) now = ltb now until

-- executeDeviceCommands, up to its first wait
unfoldable pub execute_device_commands : ℕ → Batch → Lane → Lane
unfolding next_command
execute_device_commands now b l =
    if cooling l.retry_after now
    then record l { task = returning b.tick empty_report }
    else next_command b.tick b.commands empty_report (record l { retry_after = none })

-- The head of the loop in runDeviceWorker
take_batch : ℕ → Option Batch → Lane → Lane
unfolding execute_device_commands
take_batch now none l = record l { task = ending }
take_batch now (some b) l =
    if l.stopping
    then record l { task = ending }
    else execute_device_commands now b (record l { pending_batch = none })

unfoldable pub run_device_worker : ℕ → Lane → Lane
unfolding take_batch
run_device_worker now l = take_batch now l.pending_batch l

abbrev start_if_idle : ℕ → Task → Lane → Lane
start_if_idle now idle l = run_device_worker now l
start_if_idle now _ l = l

-- offerDeviceBatch
unfoldable pub offer_device_batch : ℕ → Batch → Lane → Lane
unfolding discard_pending run_device_worker
offer_device_batch now b l =
    start_if_idle now l.task (record (discard_pending l) { pending_batch = some b })

abbrev add_diagnostic : ℕ → Diagnostic → DeviceReport → DeviceReport
add_diagnostic n d r = record {
  operation_count = r.operation_count + n;
  diagnostics = r.diagnostics ++ d ∷ [];
}

abbrev pub is_succeeded : OperationStatus → Bool
is_succeeded succeeded = true
is_succeeded _ = false

abbrev pub has_batch : Option Batch → Bool
has_batch none = false
has_batch (some b) = true

-- What executeDeviceCommands does with an answer
dispatched : ℕ → Dispatch → ℕ → RefreshCommand → List RefreshCommand → DeviceReport → Lane → Lane
unfolding next_command
dispatched now blocked tick c rest r l = record l {
  task = returning tick (add_diagnostic 0 (scheduled_operation_blocked c.mapping_id) r);
}
dispatched now (operation id status) tick c rest r l =
    if not (is_succeeded status)
    then record l {
      task =
          returning tick
            (add_diagnostic 1 (scheduled_operation_not_succeeded c.mapping_id id status) r);
      retry_after = some (now + output_retry_cooldown_ms);
    }
    else let counted = record r { operation_count = r.operation_count + 1 } in
      if has_batch l.pending_batch
      then record l { task = returning tick counted }
      else next_command tick rest counted l

unfoldable pub answer : ℕ → Dispatch → Task → Lane → Lane
unfolding dispatched
answer now d (dispatching tick c rest r) l = dispatched now d tick c rest r l
answer now d _ l = l

-- #haltForFatalDrain
abbrev halt : Lane → Lane
halt l =
    let discarded = discard_pending (record l { fatal_drain_pending = true; stopping = true }) in
    record discarded { task = ending }

-- A dispatch that throws: the batch is rejected, and the worker ends.
unfoldable pub dispatch_threw : Task → Lane → Lane
unfolding discard_pending
dispatch_threw (dispatching tick c rest r) l = halt (settle tick rejected l)
dispatch_threw _ l = l

-- executeDeviceCommands has returned: its batch is resolved, and the loop goes on.
unfoldable pub resume : ℕ → Task → Lane → Lane
unfolding run_device_worker
resume now (returning tick r) l = run_device_worker now (settle tick (resolved r) l)
resume now _ l = l

-- The callback on the end of the worker
unfoldable pub ended : ℕ → Task → Lane → Lane
unfolding run_device_worker
ended now ending l =
    let free = record l { task = idle } in
    if not l.stopping && has_batch l.pending_batch then run_device_worker now free else free
ended now _ l = l

unfoldable pub stop : Lane → Lane
unfolding discard_pending
stop l = discard_pending (record l { stopping = true })

pub data Event : Type 0 where
  offered : ℕ → Batch → Event
  answered : ℕ → Dispatch → Event
  threw : Event
  resumed : ℕ → Event
  worker_ended : ℕ → Event
  available : Event
  stopped : Event

unfoldable pub step : Event → Lane → Lane
unfolding offer_device_batch answer dispatch_threw resume ended stop
step (offered now b) l = offer_device_batch now b l
step (answered now d) l = answer now d l.task l
step threw l = dispatch_threw l.task l
step (resumed now) l = resume now l.task l
step (worker_ended now) l = ended now l.task l
step available l = record l { retry_after = none }
step stopped l = stop l

abbrev pub initial : Lane
initial = record {
  pending_batch = none;
  task = idle;
  retry_after = none;
  stopping = false;
  fatal_drain_pending = false;
  settled = [];
}

unfoldable pub run : Lane → List Event → Lane
unfolding step
run l [] = l
run l (e ∷ rest) = run (step e l) rest
