-- ===== src/Scheduling/Cadence/Armed.antt =====
-- About the timer of OutputRefreshScheduler, over any events.
use aquarium_controller.Prelude.{
  ℕ, suc, ◌<◌, ◌≤◌, ◌≡◌, ◌⊎◌, inl, inr, true, false, List, [], ◌∷◌, Option, none, some, arith,
  Bool-cases,
}
use aquarium_controller.Prelude.Result.{throw, range_error}
use aquarium_controller.Scheduling.Cadence.{
  Scheduler, initial, Event, started_up, refresh_asked, timer_rang, tick_ended, tick_threw,
  stop_asked, clock_read, worker_failed, halt_for_fatal_drain, is_armed, can_happen, step, run,
  is_ready, start, request_refresh, timer_fired, tick_settled, tick_failed, stop, is_some,
}

abbrev pub NotAbove : Option ℕ → ℕ → Type 0
NotAbove none n = Unit {0}
NotAbove (some last) n = last ≤ n

pub record Inv (clock : ℕ → ℕ) (s : Scheduler) : Type 0 where
  pub clock_ahead : NotAbove s.last_monotonic_ms (clock s.reads)
  pub deadline_known : s.started ≡ true → is_armed s.next_deadline_ms ≡ true
  pub fatal_stops : is_some s.fatal_error ≡ true → s.stopping ≡ true
  pub one_at_a_time : s.active_tick ≡ true → is_armed s.timer ≡ false
  pub idle_before : s.started ≡ false → (s.active_tick ≡ false) × (is_armed s.timer ≡ false)
  pub never_silent :
      s.started ≡ true → s.stopping ≡ false → (s.active_tick ≡ true) ⊎ (is_armed s.timer ≡ true)

module _ (clock : ℕ → ℕ) (ahead : (k : ℕ) → clock k ≤ clock (suc k)) where
  start-Inv : (s : Scheduler) → Inv clock s → Inv clock (start clock s).1
  unfolding start
  start-Inv s v = ground (arith, ahead s.reads, ahead (suc s.reads))

  request_refresh-Inv : (s : Scheduler) → Inv clock s → Inv clock (request_refresh clock s).1
  unfolding request_refresh
  request_refresh-Inv s v = ground (arith, ahead s.reads, ahead (suc s.reads))

  timer_fired-Inv :
      (s : Scheduler) → Inv clock s → is_armed s.timer ≡ true → Inv clock (timer_fired clock s).1
  unfolding timer_fired
  timer_fired-Inv s v h = ground (arith, ahead s.reads, ahead (suc s.reads))

  tick_settled-Inv :
      (s : Scheduler) → Inv clock s → s.active_tick ≡ true → Inv clock (tick_settled clock s).1
  unfolding tick_settled
  tick_settled-Inv s v a = ground (arith, ahead s.reads, ahead (suc s.reads))

  tick_failed-Inv :
      (s : Scheduler) → Inv clock s → s.active_tick ≡ true → Inv clock (tick_failed s).1
  unfolding tick_failed
  tick_failed-Inv s v a = ground arith

  stop-Inv : (s : Scheduler) → Inv clock s → Inv clock (stop s).1
  unfolding stop
  stop-Inv s v = ground arith

  halt_for_fatal_drain-Inv : (s : Scheduler) → Inv clock s → Inv clock (halt_for_fatal_drain s).1
  unfolding halt_for_fatal_drain
  halt_for_fatal_drain-Inv s v = ground arith

  clock_read-Inv : (s : Scheduler) → Inv clock s → Inv clock (step clock clock_read s).1
  unfolding step
  clock_read-Inv s v = ground (arith, ahead s.reads)

  step-Inv :
      (s : Scheduler) (e : Event)
      → Inv clock s
      → can_happen s e ≡ true
      → Inv clock (step clock e s).1
  unfolding step
  step-Inv s started_up v h = start-Inv s v
  step-Inv s refresh_asked v h = request_refresh-Inv s v
  step-Inv s timer_rang v h = timer_fired-Inv s v h
  step-Inv s tick_ended v h = tick_settled-Inv s v h
  step-Inv s tick_threw v h = tick_failed-Inv s v h
  step-Inv s stop_asked v h = stop-Inv s v
  step-Inv s worker_failed v h = halt_for_fatal_drain-Inv s v
  step-Inv s clock_read v h = clock_read-Inv s v

  run-Inv : (s : Scheduler) (es : List Event) → Inv clock s → Inv clock (run clock s es)
  unfolding run
  run-Inv s [] v = v
  run-Inv s (e ∷ es) v = elim (Bool-cases (can_happen s e)) [
    | inl h ↦ rw h (run-Inv (step clock e s).1 es (step-Inv s e v h))
    | inr h ↦ rw h (run-Inv s es v)
  ]

  initial-Inv : Inv clock initial
  initial-Inv = ground arith

  -- If the readings of the clock never fall, then after any events a scheduler that is started and not
  -- stopping has met no fatal error, knows its deadline, and either runs a tick or has a timer armed, not
  -- both.
  pub run-armed :
      (es : List Event)
      → (run clock initial es).started ≡ true
      → (run clock initial es).stopping ≡ false
      → let s = run clock initial es in
        (is_ready s ≡ true)
        × (((s.active_tick ≡ true) × (is_armed s.timer ≡ false))
            ⊎ ((s.active_tick ≡ false) × (is_armed s.timer ≡ true)))
        × (is_armed s.next_deadline_ms ≡ true)
  unfolding is_ready
  run-armed es st sp = let v = run-Inv initial es initial-Inv in ground arith

-- A refresh asked for at a reading that falls back throws a RangeError; and the scheduler, which had a
-- timer, is then still ready, runs no tick and has no timer armed.
pub request_refresh_regressed :
    (clock : ℕ → ℕ) (s : Scheduler) (last : ℕ)
    → is_ready s ≡ true
    → s.active_tick ≡ false
    → s.last_monotonic_ms ≡ some last
    → clock s.reads < last
    → let (r, t) = request_refresh clock s in
      (r ≡ throw range_error) × (is_ready t ≡ true) × (t.active_tick ≡ false) × (t.timer ≡ none)
unfolding request_refresh is_ready
request_refresh_regressed clock s last rd a l lt = ground arith
