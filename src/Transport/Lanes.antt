-- ===== src/Transport/Lanes.antt =====
-- apps/controller/src/infrastructure/mqtt/legacy-mqtt-transport.ts: the queues of the devices and the lanes that
-- work on them. The maps by device are functions: a missing queue is an empty one, which the code never tells
-- apart. `fates` keeps, for each device, what its queued operations came to, in order.
pub mod Queues
pub mod Runnable
pub mod Pump
pub mod Loop
pub mod Events
pub mod Safety
pub mod Fifo
use aquarium_controller.Prelude.{
  ℕ, zero, suc, ◌+◌, ◌-◌, Bool, true, false, not, ◌&&◌, ◌||◌, List, [], ◌∷◌, ◌++◌, map, Option,
  none, some, if◌then◌else◌, Text, text_eq, ltb, length,
}
use aquarium_controller.Transport.Outcomes.{NormalizedCommand}

pub data LegacyCommandPriority : Type 0 where
  interactive background : LegacyCommandPriority

pub record QueuedDeviceOperation : Type 0 where
  pub operation_id : Text
  pub target_id : Text
  pub priority : LegacyCommandPriority
  pub commands : List NormalizedCommand

pub data Fate : Type 0 where
  sent : QueuedDeviceOperation → Fate
  unsent : QueuedDeviceOperation → Fate

pub record Lanes : Type 0 where
  pub device_queues : Text → List QueuedDeviceOperation
  pub runnable_interactive : List Text
  pub runnable_background : List Text
  pub runnable_priority : Text → Option LegacyCommandPriority
  pub active_device_ids : List Text
  pub active_lane_count : ℕ
  pub started : Bool
  pub ready : Bool
  pub discovery_publishing : Bool
  pub fates : Text → List Fate

abbrev pub new_lanes : Lanes
new_lanes = record {
  device_queues = λ d. [];
  runnable_interactive = [];
  runnable_background = [];
  runnable_priority = λ d. none;
  active_device_ids = [];
  active_lane_count = 0;
  started = false;
  ready = false;
  discovery_publishing = false;
  fates = λ d. [];
}

-- Map.set
abbrev pub put {ℓ} : {A : Type ℓ} → Text → A → (Text → A) → Text → A
put id x old = λ d. if text_eq id d then x else old d

-- Set.has, and removeArrayValue or Set.delete
unfoldable pub includes_id : Text → List Text → Bool
includes_id id [] = false
includes_id id (d ∷ rest) = if text_eq id d then true else includes_id id rest

unfoldable pub remove_array_value : Text → List Text → List Text
remove_array_value id [] = []
remove_array_value id (d ∷ rest) =
    let others = d ∷ remove_array_value id rest in if text_eq id d then rest else others

abbrev pub head_priority : List QueuedDeviceOperation → Option LegacyCommandPriority
head_priority [] = none
head_priority (op ∷ rest) = some op.priority

abbrev pub has_work : List QueuedDeviceOperation → Bool
has_work [] = false
has_work (op ∷ rest) = true

abbrev pub same_priority : Option LegacyCommandPriority → Option LegacyCommandPriority → Bool
same_priority none none = true
same_priority (some interactive) (some interactive) = true
same_priority (some background) (some background) = true
same_priority _ _ = false

abbrev pub remove_runnable : Text → Option LegacyCommandPriority → Lanes → Lanes
remove_runnable id none s = s
remove_runnable id (some interactive) s = record s {
  runnable_interactive = remove_array_value id s.runnable_interactive;
  runnable_priority = put id none s.runnable_priority;
}
remove_runnable id (some background) s = record s {
  runnable_background = remove_array_value id s.runnable_background;
  runnable_priority = put id none s.runnable_priority;
}

abbrev pub push_runnable : Text → Option LegacyCommandPriority → Lanes → Lanes
push_runnable id none s = s
push_runnable id (some interactive) s = record s {
  runnable_interactive = s.runnable_interactive ++ (id ∷ []);
  runnable_priority = put id (some interactive) s.runnable_priority;
}
push_runnable id (some background) s = record s {
  runnable_background = s.runnable_background ++ (id ∷ []);
  runnable_priority = put id (some background) s.runnable_priority;
}

unfoldable pub schedule_runnable_device : Text → Lanes → Lanes
unfolding includes_id remove_array_value
schedule_runnable_device id s =
    let priority = head_priority (s.device_queues id) in
    if includes_id id s.active_device_ids
    then s
    else if same_priority (s.runnable_priority id) priority
    then s
    else push_runnable id priority (remove_runnable id (s.runnable_priority id) s)

-- takeNextRunnableDevice, at the two lists
abbrev pub take_from : List Text → List Text → Lanes → Option Text × Lanes
take_from (id ∷ rest) ys s = (
  some id,
  record s { runnable_interactive = rest; runnable_priority = put id none s.runnable_priority },
)
take_from [] (id ∷ rest) s = (
  some id,
  record s { runnable_background = rest; runnable_priority = put id none s.runnable_priority },
)
take_from [] [] s = (none, s)

unfoldable pub take_next_runnable_device : Lanes → Option Text × Lanes
take_next_runnable_device s = take_from s.runnable_interactive s.runnable_background s

-- From the shift of the queue on; `sent` is the call of executeQueuedDeviceOperation.
abbrev pub send_first : Text → List QueuedDeviceOperation → Lanes → Lanes
send_first id [] s = record s { device_queues = put id [] s.device_queues }
send_first id (op ∷ rest) s = record s {
  device_queues = put id rest s.device_queues;
  active_device_ids = s.active_device_ids ++ (id ∷ []);
  active_lane_count = suc s.active_lane_count;
  fates = put id (s.fates id ++ (sent op ∷ [])) s.fates;
}

abbrev pub send_next : Option Text × Lanes → Lanes
send_next (none, s) = s
send_next (some id, s) =
    if includes_id id s.active_device_ids then s else send_first id (s.device_queues id) s

abbrev pub are_empty : List Text → List Text → Bool
are_empty [] [] = true
are_empty _ _ = false

abbrev pub is_none_runnable : Lanes → Bool
is_none_runnable s = are_empty s.runnable_interactive s.runnable_background

abbrev pub is_open : Lanes → Bool
is_open s = s.started && s.ready && not s.discovery_publishing

abbrev pub release_lane : Text → Lanes → Lanes
release_lane id s = record s {
  active_device_ids = remove_array_value id s.active_device_ids;
  active_lane_count = s.active_lane_count - 1;
}

-- `max` is maxConcurrentDeviceLanes.
module _ (max : ℕ) where
  -- The loop of pumpDeviceQueues, which takes a device off a list in each round
  unfoldable pub pump_loop : ℕ → Lanes → Lanes
  unfolding take_next_runnable_device includes_id
  pump_loop zero s = s
  pump_loop (suc fuel) s =
      let next = pump_loop fuel (send_next (take_next_runnable_device s)) in
      if ltb s.active_lane_count max && not (is_none_runnable s) then next else s

  unfoldable pub pump_device_queues : Lanes → Lanes
  unfolding pump_loop
  pump_device_queues s =
      if is_open s
      then pump_loop (length s.runnable_interactive + length s.runnable_background) s
      else s

  unfoldable pub enqueue_device_operation : QueuedDeviceOperation → Lanes → Lanes
  unfolding schedule_runnable_device pump_device_queues
  enqueue_device_operation op s = pump_device_queues (
      schedule_runnable_device op.target_id (record s {
        device_queues =
            put op.target_id (s.device_queues op.target_id ++ (op ∷ [])) s.device_queues;
      }))

  -- The `finally` of the task of a device
  unfoldable pub task_finished : Text → Lanes → Lanes
  unfolding schedule_runnable_device pump_device_queues remove_array_value
  task_finished id s =
      let next = release_lane id s in
      let scheduled = schedule_runnable_device id next in
      pump_device_queues (if has_work (s.device_queues id) then scheduled else next)

unfoldable pub reject_queued : Lanes → Lanes
reject_queued s = record s {
  runnable_interactive = [];
  runnable_background = [];
  runnable_priority = λ d. none;
  device_queues = λ d. [];
  fates = λ d. s.fates d ++ map unsent (s.device_queues d);
}

-- `reconnected` is the callback of the client, `subscribed` the rest of handleConnected for the current connection,
-- and `discovery_begun` requestDiscovery that has passed its guards.
pub data LaneEvent : Type 0 where
  start_called : LaneEvent
  start_failed : LaneEvent
  reconnected : LaneEvent
  subscribed : LaneEvent
  subscription_failed : LaneEvent
  disconnected : LaneEvent
  stop_called : LaneEvent
  discovery_begun : LaneEvent
  discovery_ended : LaneEvent
  enqueued : QueuedDeviceOperation → LaneEvent
  finished : Text → LaneEvent

-- Only an active device has a task that can finish.
unfoldable pub lane_step : ℕ → LaneEvent → Lanes → Lanes
unfolding pump_device_queues enqueue_device_operation task_finished reject_queued includes_id
lane_step max start_called s = if s.started then s else record s { started = true; ready = false }
lane_step max start_failed s = record s { started = false }
lane_step max reconnected s = if s.ready then reject_queued (record s { ready = false }) else s
lane_step max subscribed s =
    if s.started then pump_device_queues max (record s { ready = true }) else s
lane_step max subscription_failed s = record s { ready = false }
lane_step max disconnected s = if s.started then reject_queued (record s { ready = false }) else s
lane_step max stop_called s =
    if s.started then reject_queued (record s { started = false; ready = false }) else s
lane_step max discovery_begun s = record s { discovery_publishing = true }
lane_step max discovery_ended s = pump_device_queues max (record s { discovery_publishing = false })
lane_step max (enqueued op) s =
    if s.started && s.ready then enqueue_device_operation max op s else s
lane_step max (finished id) s =
    if includes_id id s.active_device_ids then task_finished max id s else s

unfoldable pub run_lanes : ℕ → Lanes → List LaneEvent → Lanes
unfolding lane_step
run_lanes max s [] = s
run_lanes max s (e ∷ rest) = run_lanes max (lane_step max e s) rest
