-- ===== src/Scheduling/TimeSync.antt =====
-- apps/controller/src/application/scheduling/time-sync-coordinator.ts: the daily timer, and the time syncs that the
-- announcements of devices ask for. Clock readings, in whole milliseconds, come with the events.
pub mod Daily
pub mod Announcements
use aquarium_controller.Prelude.{
  ℕ, suc, ◌+◌, ◌-◌, ◌*◌, ◌/◌, ◌%◌, Bool, true, false, not, ◌&&◌, ◌||◌, List, [], ◌∷◌, ◌++◌, Option,
  none, some, if◌then◌else◌, ltb, leb, Text, text_eq,
}
use aquarium_controller.Scheduling.Lane.{
  OperationStatus, waiting, in_flight, succeeded, failed, timed_out, outcome_unknown, cancelled,
}
use aquarium_controller.Scheduling.Dispatch.{DispatchEnd, completed, blocked, rejected}

abbrev pub utc_day_ms : ℕ
utc_day_ms = 86400000

abbrev pub daily_time_sync_offset_ms : ℕ
daily_time_sync_offset_ms = 18000000

abbrev pub max_legacy_sync_epoch_seconds : ℕ
max_legacy_sync_epoch_seconds = 2147483647

-- Date.UTC of the date: a UTC day has no leap seconds.
unfoldable pub utc_day_start_ms : ℕ → ℕ
utc_day_start_ms epoch_ms = epoch_ms - epoch_ms % utc_day_ms

-- The delay of #armDailyTimer
unfoldable pub daily_delay : ℕ → ℕ
unfolding utc_day_start_ms
daily_delay epoch_ms =
    let today = utc_day_start_ms epoch_ms + daily_time_sync_offset_ms in
    let target = if ltb epoch_ms today then today else today + utc_day_ms in target - epoch_ms

-- Does #runDailyIfDue go on?
unfoldable pub is_daily_due : ℕ → Bool
unfolding utc_day_start_ms
is_daily_due epoch_ms = not (ltb epoch_ms (utc_day_start_ms epoch_ms + daily_time_sync_offset_ms))

-- Does #syncDevice dispatch?
unfoldable pub epoch_accepted : ℕ → Bool
epoch_accepted epoch_ms =
    let seconds = epoch_ms / 1000 in leb 1 seconds && leb seconds max_legacy_sync_epoch_seconds

-- `synced` is #announcementSyncedDeviceIds, `tasks` the devices of #announcementTasks, and `dispatches` the devices for
-- which a sync was dispatched for an announcement.
pub record Coordinator : Type 0 where
  pub started : Bool
  pub accepting : Bool
  pub stopping : Bool
  pub has_failed : Bool
  pub synced : Text → Bool
  pub tasks : Text → Bool
  pub dispatches : Text → ℕ

abbrev pub new_coordinator : Coordinator
new_coordinator = record {
  started = false;
  accepting = false;
  stopping = false;
  has_failed = false;
  synced = λ d. false;
  tasks = λ d. false;
  dispatches = λ d. 0;
}

abbrev pub mark {ℓ} : {A : Type ℓ} → Text → A → (Text → A) → Text → A
mark id x old = λ d. if text_eq id d then x else old d

unfoldable pub fail : Coordinator → Coordinator
fail s = record s { has_failed = true; accepting = false; stopping = true }

-- A call that is refused throws, and changes nothing. A sync at an epoch out of range ends at once, without success.
unfoldable pub signal_announcement : ℕ → Text → Coordinator → Coordinator
unfolding epoch_accepted
signal_announcement epoch_ms device_id s =
    if not s.started || not s.accepting
    then s
    else if s.synced device_id
    then s
    else if s.tasks device_id
    then s
    else if epoch_accepted epoch_ms
    then record s {
      tasks = mark device_id true s.tasks;
      dispatches = mark device_id (suc (s.dispatches device_id)) s.dispatches;
    }
    else s

unfoldable pub is_success : DispatchEnd → Bool
is_success (completed succeeded) = true
is_success _ = false

abbrev pub after_dispatch : DispatchEnd → Coordinator → Coordinator
after_dispatch rejected s = fail s
after_dispatch _ s = s

-- The dispatch for an announcement has ended: its `then`, its `catch`, and the task is taken off.
unfoldable pub announcement_ended : Text → DispatchEnd → Coordinator → Coordinator
unfolding is_success fail
announcement_ended device_id e s =
    if s.tasks device_id
    then after_dispatch e (record s {
      synced = if is_success e then mark device_id true s.synced else s.synced;
      tasks = mark device_id false s.tasks;
    })
    else s

unfoldable pub signal_device_unavailable : Text → Coordinator → Coordinator
signal_device_unavailable device_id s = record s { synced = mark device_id false s.synced }

-- #runClaimedDailySync, when its operation has succeeded
unfoldable pub daily_sync_succeeded : Text → Coordinator → Coordinator
daily_sync_succeeded device_id s = record s { synced = mark device_id true s.synced }

unfoldable pub start : Coordinator → Coordinator
start s = if s.started || s.stopping then s else record s { started = true; accepting = true }

-- stop up to its wait
unfoldable pub stop : Coordinator → Coordinator
stop s =
    if not s.started && not s.stopping then s else record s { accepting = false; stopping = true }

-- The rest of stop
unfoldable pub stop_ended : Coordinator → Coordinator
stop_ended s = if s.stopping then record s { started = false } else s

abbrev pub is_ready : Coordinator → Bool
is_ready s = s.started && s.accepting && not s.stopping && not s.has_failed

pub data SyncEvent : Type 0 where
  start_called : SyncEvent
  stop_called : SyncEvent
  stop_waited : SyncEvent
  daily_failed : SyncEvent
  daily_succeeded : Text → SyncEvent
  announced : ℕ → Text → SyncEvent
  ended : Text → DispatchEnd → SyncEvent
  became_unavailable : Text → SyncEvent

unfoldable pub sync_step : SyncEvent → Coordinator → Coordinator
unfolding start stop stop_ended fail daily_sync_succeeded signal_announcement announcement_ended
    signal_device_unavailable
sync_step start_called s = start s
sync_step stop_called s = stop s
sync_step stop_waited s = stop_ended s
sync_step daily_failed s = fail s
sync_step (daily_succeeded device_id) s = daily_sync_succeeded device_id s
sync_step (announced epoch_ms device_id) s = signal_announcement epoch_ms device_id s
sync_step (ended device_id e) s = announcement_ended device_id e s
sync_step (became_unavailable device_id) s = signal_device_unavailable device_id s

unfoldable pub run_sync : Coordinator → List SyncEvent → Coordinator
unfolding sync_step
run_sync s [] = s
run_sync s (e ∷ rest) = run_sync (sync_step e s) rest
