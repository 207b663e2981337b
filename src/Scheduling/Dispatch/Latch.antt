-- ===== src/Scheduling/Dispatch/Latch.antt =====
-- About the dispatcher of scheduled operations: what an error stops.
use aquarium_controller.Prelude.{
  ℕ, ◌≡◌, refl, Bool, true, List, [], ◌∷◌, Option, none, some, if_elim, Text,
}
use aquarium_controller.Scheduling.Dispatch.{
  OperationEnd, Dispatcher, dispatch, dispatch_exclusive, first_turn, take_turn, is_command_error,
  answer_running, answered, DispatchEvent, dispatched, turn_came, operation_ended, dispatch_step,
  run_dispatcher,
}

-- After an error nothing is executed.
record Latched (calls : List ℕ) (s : Dispatcher) : Type 0 where
  latched : s.command_error_latched ≡ true
  same : s.executed ≡ calls

first_turn-Latched :
    (calls : List ℕ) (device_id : Text) (running : Option ℕ) (tail' : List ℕ) (s : Dispatcher)
    → Latched calls s
    → Latched calls (first_turn device_id running tail' s)
unfolding dispatch_exclusive
first_turn-Latched calls device_id none [] s l = l
first_turn-Latched calls device_id (some m) [] s l = l
first_turn-Latched calls device_id (some m) (n ∷ rest) s l = l
first_turn-Latched calls device_id none (n ∷ rest) s l =
    if_elim (Latched calls) {t = s.command_error_latched}
      (λ _. record { latched = l.latched; same = l.same })
      (λ off. absurd (let on = l.latched in cc))

answer_running-Latched :
    (calls : List ℕ) (device_id : Text) (e : OperationEnd) (running : Option ℕ) (s : Dispatcher)
    → Latched calls s
    → Latched calls (answer_running device_id e running s)
answer_running-Latched calls device_id e none s l = l
answer_running-Latched calls device_id e (some n) s l = record {
  latched =
      if_elim (λ (x : Bool). x ≡ true) {t = is_command_error e} {x = true}
        {y = s.command_error_latched} (λ _. refl) (λ _. l.latched);
  same = l.same;
}

dispatch_step-Latched :
    (calls : List ℕ) (event : DispatchEvent) (s : Dispatcher)
    → Latched calls s
    → Latched calls (dispatch_step event s)
unfolding dispatch_step dispatch take_turn answered
dispatch_step-Latched calls (dispatched device_id n) s l = record {
  latched = l.latched;
  same = l.same;
}
dispatch_step-Latched calls (turn_came device_id) s l =
    first_turn-Latched calls device_id (s.running device_id) (s.tails device_id) s l
dispatch_step-Latched calls (operation_ended device_id e) s l =
    answer_running-Latched calls device_id e (s.running device_id) s l

run_dispatcher-Latched :
    (calls : List ℕ) (events : List DispatchEvent) (s : Dispatcher)
    → Latched calls s
    → Latched calls (run_dispatcher s events)
unfolding run_dispatcher
run_dispatcher-Latched calls [] s l = l
run_dispatcher-Latched calls (e ∷ rest) s l =
    run_dispatcher-Latched calls rest (dispatch_step e s) (dispatch_step-Latched calls e s l)

error-Latched :
    (device_id : Text) (e : OperationEnd) (running : Option ℕ) (n : ℕ) (s : Dispatcher)
    → running ≡ some n
    → is_command_error e ≡ true
    → Latched s.executed (answer_running device_id e running s)
error-Latched device_id e none n s r h = absurd (cc)
error-Latched device_id e (some m) n s r h = record { latched = rw h refl; same = refl }

-- Once an operation that runs for a device throws, or returns before it is final, no operation is executed any more, for
-- any device, whatever is dispatched and ends after it.
pub run_dispatcher_blocks :
    (s : Dispatcher) (device_id : Text) (n : ℕ) (e : OperationEnd) (after : List DispatchEvent)
    → s.running device_id ≡ some n
    → is_command_error e ≡ true
    → (run_dispatcher s (operation_ended device_id e ∷ after)).executed ≡ s.executed
unfolding run_dispatcher dispatch_step answered
run_dispatcher_blocks s device_id n e after r h =
    (run_dispatcher-Latched s.executed after (answered device_id e s)
      (error-Latched device_id e (s.running device_id) n s r h)).same
