-- ===== src/Scheduling/Cadence.antt =====
-- apps/controller/src/application/scheduling/output-refresh-scheduler.ts: the timer of the scheduler.
-- A method is a function of the state that keeps what it changed before it threw. The k-th reading of
-- the monotonic clock is `clock k`, in whole milliseconds. A tick lasts from `active_tick` to its end; of
-- what it does, and what the workers of devices do, there are here the readings of the clock, a tick that
-- throws, and a worker that fails.
pub mod Armed
use aquarium_controller.Prelude.{
  ℕ, zero, suc, ◌+◌, ◌-◌, ◌*◌, ◌/◌, Bool, true, false, not, ◌&&◌, ◌||◌, List, [], ◌∷◌, Option, none,
  some, if◌then◌else◌, leb, ltb,
}
use aquarium_controller.Prelude.Result.{Result, ok, throw, Error, range_error, plain_error}

abbrev pub output_refresh_interval_ms : ℕ
output_refresh_interval_ms = 5000

pub record Scheduler : Type 0 where
  pub started : Bool
  pub stopping : Bool
  pub fatal_error : Option Error
  pub refresh_requested : Bool
  pub active_tick : Bool
  pub next_deadline_ms : Option ℕ
  pub timer : Option ℕ  -- the delay of the timer that is armed
  pub last_monotonic_ms : Option ℕ
  pub reads : ℕ  -- the clock readings made

abbrev pub initial : Scheduler
initial = record {
  started = false;
  stopping = false;
  fatal_error = none;
  refresh_requested = false;
  active_tick = false;
  next_deadline_ms = none;
  timer = none;
  last_monotonic_ms = none;
  reads = 0;
}

abbrev pub M : Type 0 → Type 0
M A = Scheduler → Result A × Scheduler

abbrev and_then : {A B : Type 0} → Result A × Scheduler → (A → M B) → Result B × Scheduler
and_then (ok a, s) f = f a s
and_then (throw e, s) f = (throw e, s)

infixl 5 ◌>>=◌ ◌>>◌
abbrev ◌>>=◌ : {A B : Type 0} → M A → (A → M B) → M B
◌>>=◌ m f s = and_then (m s) f

abbrev ◌>>◌ : {B : Type 0} → M (Unit {0}) → M B → M B
m >> k = m >>= λ _. k

abbrev modify : (Scheduler → Scheduler) → M (Unit {0})
modify f s = (ok tt, f s)

abbrev done : M (Unit {0})
done s = (ok tt, s)

-- A reading below the one before it is refused.
abbrev regressed : Option ℕ → ℕ → Bool
regressed none value = false
regressed (some last) value = ltb value last

abbrev is_some : Option Error → Bool
is_some none = false
is_some (some e) = true

abbrev first_error : Option Error → Error → Option Error
first_error none e = some e
first_error (some first) e = some first

-- The first deadline after `now` on the grid of the prior one
unfoldable pub next_deadline : ℕ → ℕ → ℕ
next_deadline prior now =
    let next = prior + output_refresh_interval_ms in
    if leb next now
    then next + ((now - next) / output_refresh_interval_ms + 1) * output_refresh_interval_ms
    else next

unfoldable pub is_ready : Scheduler → Bool
is_ready s = s.started && (not s.stopping && not (is_some s.fatal_error))

-- #fail; what the error reporter throws is joined to the error, which is kept all the same.
pub fail : Error → M (Unit {0})
fail e s =
    (ok tt, record s { fatal_error = first_error s.fatal_error e; stopping = true; timer = none })

-- try { … } catch (error) { this.#fail(…) }
abbrev caught : Result (Unit {0}) × Scheduler → Result (Unit {0}) × Scheduler
caught (ok u, s) = (ok u, s)
caught (throw e, s) = fail e s

module _ (clock : ℕ → ℕ) where
  pub read_monotonic_now : M ℕ
  read_monotonic_now s =
      let value = clock s.reads in
      let read = record s { reads = suc s.reads } in
      if regressed s.last_monotonic_ms value
      then (throw range_error, read)
      else (ok value, record read { last_monotonic_ms = some value })

  arm_at : Option ℕ → M (Unit {0})
  unfolding read_monotonic_now
  arm_at none = done
  arm_at (some deadline) = do
    now ← read_monotonic_now
    modify (λ s. record s { timer = some (deadline - now) })

  arm_timer : M (Unit {0})
  unfolding arm_at
  arm_timer s = if s.stopping then (ok tt, s) else arm_at s.next_deadline_ms s

  pub start : M (Unit {0})
  unfolding arm_timer read_monotonic_now
  start s =
      if s.started
      then (throw plain_error, s)
      else if s.stopping
      then (throw plain_error, s)
      else (do
        now ← read_monotonic_now
        modify (λ t. record t { next_deadline_ms = some (now + output_refresh_interval_ms) })
        arm_timer)
          (record s { started = true })

  unfoldable pub request_refresh : M (Unit {0})
  unfolding arm_timer read_monotonic_now is_ready
  request_refresh s =
      if not (is_ready s)
      then (ok tt, s)
      else if s.active_tick
      then (ok tt, record s { refresh_requested = true })
      else (do
        now ← read_monotonic_now
        modify (λ t. record t { next_deadline_ms = some now })
        arm_timer)
          (record s { timer = none })

  due : Option ℕ → M (Unit {0})
  unfolding arm_timer read_monotonic_now fail
  due none = fail plain_error
  due (some deadline) = do
    now ← read_monotonic_now
    if ltb now deadline then arm_timer else modify (λ s. record s { active_tick = true })

  -- #timerFired, with #handleTimerFired; the tick begins by `active_tick`.
  pub timer_fired : M (Unit {0})
  unfolding due fail
  timer_fired s =
      let cleared = record s { timer = none } in
      if s.stopping || s.active_tick
      then (ok tt, cleared)
      else caught (due s.next_deadline_ms cleared)

  advance_from : Option ℕ → M (Unit {0})
  unfolding read_monotonic_now fail
  advance_from none = fail plain_error
  advance_from (some prior) = do
    now ← read_monotonic_now
    modify (λ s. record s { next_deadline_ms = some (next_deadline prior now) })

  after_tick : Bool → M (Unit {0})
  unfolding advance_from arm_timer read_monotonic_now
  after_tick true s =
      (do
        now ← read_monotonic_now
        modify (λ t. record t { next_deadline_ms = some now })
        arm_timer)
        (record s { refresh_requested = false })
  after_tick false s = (advance_from s.next_deadline_ms >> arm_timer) s

  -- The callback on the end of a tick
  pub tick_settled : M (Unit {0})
  unfolding after_tick fail
  tick_settled s =
      let ended = record s { active_tick = false } in
      if s.stopping then (ok tt, ended) else caught (after_tick s.refresh_requested ended)

-- A tick whose projection or evaluation throws
pub tick_failed : M (Unit {0})
unfolding fail
tick_failed = fail plain_error

-- stop, up to its first wait
pub stop : M (Unit {0})
stop s =
    if not s.started && not s.stopping
    then (ok tt, s)
    else (ok tt, record s { stopping = true; timer = none })

-- #haltForFatalDrain: the worker of a device has failed.
pub halt_for_fatal_drain : M (Unit {0})
halt_for_fatal_drain s =
    (ok tt, record s { stopping = true; timer = none; refresh_requested = false })

pub data Event : Type 0 where
  started_up refresh_asked timer_rang tick_ended tick_threw stop_asked clock_read worker_failed :
      Event

abbrev pub is_armed : Option ℕ → Bool
is_armed none = false
is_armed (some delay) = true

-- A timer rings only if it is armed, a tick ends or throws only while it runs, and only a tick or a
-- worker reads the clock of itself.
abbrev pub can_happen : Scheduler → Event → Bool
can_happen s timer_rang = is_armed s.timer
can_happen s tick_ended = s.active_tick
can_happen s tick_threw = s.active_tick
can_happen s _ = true

module _ (clock : ℕ → ℕ) where
  unfoldable pub step : Event → M (Unit {0})
  unfolding start request_refresh timer_fired tick_settled tick_failed stop halt_for_fatal_drain
      read_monotonic_now
  step started_up = start clock
  step refresh_asked = request_refresh clock
  step timer_rang = timer_fired clock
  step tick_ended = tick_settled clock
  step tick_threw = tick_failed
  step stop_asked = stop
  step worker_failed = halt_for_fatal_drain
  step clock_read = read_monotonic_now clock >>= λ now. done

  unfoldable pub run : Scheduler → List Event → Scheduler
  unfolding step
  run s [] = s
  run s (e ∷ rest) = run (if can_happen s e then (step e s).1 else s) rest
