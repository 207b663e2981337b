-- ===== src/Operations/Gate.antt =====
-- apps/controller/src/application/operations/device-operation-service.ts: which operations of a device are
-- attempted. A set is the list of its members, and a map is a function to the values that it has.
pub mod Refusals
use aquarium_controller.Prelude.{
  ℕ, ◌+◌, Bool, true, false, not, ◌&&◌, ◌||◌, List, [], ◌∷◌, Option, none, some, if◌then◌else◌, ltb,
  leb, Text, text_eq,
}
use aquarium_controller.Prelude.Result.{Result, ok, throw, range_error}
use aquarium_controller.Protocol.Version.{is_supported_esp_firmware_version, supports_pull_ota}
use aquarium_controller.Operations.Lifecycle.{
  CancelledReason, device_command_cooldown, device_command_in_flight,
}
use aquarium_controller.Operations.Attempt.{Cooldown, unchanged, cleared, until, max_safe_integer}

-- #activeDeviceAttempts and #responseCooldownUntilByDevice
pub record Gates : Type 0 where
  pub active : List Text
  pub cooldown_until : Text → Option ℕ

unfoldable pub is_active : List Text → Text → Bool
is_active [] id = false
is_active (x ∷ rest) id = text_eq x id || is_active rest id

unfoldable pub remove : Text → List Text → List Text
remove id [] = []
remove id (x ∷ rest) = let others = remove id rest in if text_eq x id then others else x ∷ others

-- Map.set and Map.delete
abbrev pub assign : Text → Option ℕ → (Text → Option ℕ) → Text → Option ℕ
assign id value entries x = if text_eq id x then value else entries x

abbrev pub cooling : Option ℕ → ℕ → Bool
cooling none at = false
cooling (some t) at = ltb at t

unfoldable pub reserve_device_attempt : Text → ℕ → Gates → Option CancelledReason × Gates
unfolding is_active
reserve_device_attempt id at g =
    if is_active g.active id
    then (some device_command_in_flight, g)
    else if cooling (g.cooldown_until id) at
    then (some device_command_cooldown, g)
    else (
      none,
      record g { active = id ∷ g.active; cooldown_until = assign id none g.cooldown_until },
    )

unfoldable pub signal_device_available : Text → Gates → Gates
signal_device_available id g = record g { cooldown_until = assign id none g.cooldown_until }

-- What #attempt does to the cooldown, when the outcome has been recorded; the attempts of configuration
-- patches, which reserve nothing, do so too.
unfoldable pub conclude : Text → Cooldown → Gates → Gates
conclude id unchanged g = g
conclude id cleared g = record g { cooldown_until = assign id none g.cooldown_until }
conclude id (until t) g = record g { cooldown_until = assign id (some t) g.cooldown_until }

-- The `finally` of executeDeviceOperation
unfoldable pub release : Text → Gates → Gates
unfolding remove
release id g = record g { active = remove id g.active }

pub data Event : Type 0 where
  asked : Text → ℕ → Event
  concluded : Text → Cooldown → Event
  released : Text → Event
  signalled : Text → Event

unfoldable pub step : Event → Gates → Gates
unfolding reserve_device_attempt conclude release signal_device_available
step (asked id at) g = (reserve_device_attempt id at g).1
step (concluded id c) g = conclude id c g
step (released id) g = release id g
step (signalled id) g = signal_device_available id g

unfoldable pub run : Gates → List Event → Gates
unfolding step
run g [] = g
run g (e ∷ rest) = run (step e g) rest

pub data DeviceStatus : Type 0 where
  unknown_status online stale offline error_status : DeviceStatus

abbrev is_known_status : DeviceStatus → Bool
is_known_status online = true
is_known_status stale = true
is_known_status offline = true
is_known_status _ = false

abbrev version_passes : (Text → Bool) → Option Text → Bool
version_passes test none = false
version_passes test (some version) = test version

unfoldable pub is_command_eligible_device : Bool → DeviceStatus → Option Text → Bool
is_command_eligible_device enabled status firmware_version =
    enabled
    && is_known_status status
    && version_passes is_supported_esp_firmware_version firmware_version

unfoldable pub is_firmware_update_eligible_device : Bool → Option Text → Bool
is_firmware_update_eligible_device enabled firmware_version =
    enabled && version_passes supports_pull_ota firmware_version

-- A sum of two numbers that are safe integers from 0 up
unfoldable pub safe_add : ℕ → ℕ → Result ℕ
safe_add left right =
    if leb (left + right) max_safe_integer then ok (left + right) else throw range_error
