-- ===== src/Scheduling/Dispatch.antt =====
-- apps/controller/src/application/scheduling/scheduled-device-operations.ts: the dispatcher of scheduled operations. The
-- chain of promises of a device is the list of its dispatches that wait and the one that runs. A dispatch, named by a
-- number, takes its turn in an event of its own, after the one before it has ended.
pub mod Latch
use aquarium_controller.Prelude.{
  ℕ, Bool, true, false, List, [], ◌∷◌, ◌++◌, Option, none, some, if◌then◌else◌, Text, text_eq,
}
use aquarium_controller.Scheduling.Lane.{
  OperationStatus, waiting, in_flight, succeeded, failed, timed_out, outcome_unknown, cancelled,
}

-- What executeDeviceOperation comes to
pub data OperationEnd : Type 0 where
  returned : OperationStatus → OperationEnd
  threw : OperationEnd

pub data DispatchEnd : Type 0 where
  completed : OperationStatus → DispatchEnd
  blocked : DispatchEnd
  rejected : DispatchEnd

-- `executed` lists the calls of executeDeviceOperation, `settled` what the promises of the dispatches came to.
pub record Dispatcher : Type 0 where
  pub tails : Text → List ℕ
  pub running : Text → Option ℕ
  pub command_error_latched : Bool
  pub executed : List ℕ
  pub settled : List (ℕ × DispatchEnd)

abbrev pub new_dispatcher : Dispatcher
new_dispatcher = record {
  tails = λ d. [];
  running = λ d. none;
  command_error_latched = false;
  executed = [];
  settled = [];
}

abbrev set_at {ℓ} : {A : Type ℓ} → Text → A → (Text → A) → Text → A
set_at id x old = λ d. if text_eq id d then x else old d

unfoldable pub dispatch : Text → ℕ → Dispatcher → Dispatcher
dispatch device_id n s = record s {
  tails = set_at device_id (s.tails device_id ++ (n ∷ [])) s.tails;
}

-- #dispatchExclusive up to its wait
unfoldable pub dispatch_exclusive : Text → ℕ → Dispatcher → Dispatcher
dispatch_exclusive device_id n s =
    if s.command_error_latched
    then record s { settled = s.settled ++ ((n, blocked) ∷ []) }
    else record s {
      running = set_at device_id (some n) s.running;
      executed = s.executed ++ (n ∷ []);
    }

abbrev pub first_turn : Text → Option ℕ → List ℕ → Dispatcher → Dispatcher
first_turn device_id none (n ∷ rest) s =
    dispatch_exclusive device_id n (record s { tails = set_at device_id rest s.tails })
first_turn device_id _ _ s = s

unfoldable pub take_turn : Text → Dispatcher → Dispatcher
unfolding dispatch_exclusive
take_turn device_id s = first_turn device_id (s.running device_id) (s.tails device_id) s

-- Does the end of an operation latch the error?
unfoldable pub is_command_error : OperationEnd → Bool
is_command_error threw = true
is_command_error (returned waiting) = true
is_command_error (returned in_flight) = true
is_command_error (returned _) = false

unfoldable pub end_of : OperationEnd → DispatchEnd
unfolding is_command_error
end_of threw = rejected
end_of (returned status) = if is_command_error (returned status) then rejected else completed status

abbrev pub answer_running : Text → OperationEnd → Option ℕ → Dispatcher → Dispatcher
answer_running device_id e none s = s
answer_running device_id e (some n) s = record s {
  running = set_at device_id none s.running;
  command_error_latched = if is_command_error e then true else s.command_error_latched;
  settled = s.settled ++ ((n, end_of e) ∷ []);
}

-- The rest of #dispatchExclusive, for the operation that runs
unfoldable pub answered : Text → OperationEnd → Dispatcher → Dispatcher
unfolding end_of
answered device_id e s = answer_running device_id e (s.running device_id) s

pub data DispatchEvent : Type 0 where
  dispatched : Text → ℕ → DispatchEvent
  turn_came : Text → DispatchEvent
  operation_ended : Text → OperationEnd → DispatchEvent

unfoldable pub dispatch_step : DispatchEvent → Dispatcher → Dispatcher
unfolding dispatch take_turn answered
dispatch_step (dispatched device_id n) s = dispatch device_id n s
dispatch_step (turn_came device_id) s = take_turn device_id s
dispatch_step (operation_ended device_id e) s = answered device_id e s

unfoldable pub run_dispatcher : Dispatcher → List DispatchEvent → Dispatcher
unfolding dispatch_step
run_dispatcher s [] = s
run_dispatcher s (e ∷ rest) = run_dispatcher (dispatch_step e s) rest
