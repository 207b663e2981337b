-- ===== src/Tests/Exclusion.antt =====
-- The gate of the operation service for two devices.
use aquarium_controller.Prelude.{◌≡◌, refl, true, List, [], ◌∷◌, none, some, arith, codes, text_eq}
use aquarium_controller.Operations.Lifecycle.{device_command_in_flight}
use aquarium_controller.Operations.Attempt.{until, cleared}
use aquarium_controller.Operations.Gate.{
  Gates, Event, asked, concluded, released, signalled, reserve_device_attempt, conclude, run,
}
use aquarium_controller.Operations.Gate.Refusals.{
  is_refused, reserve_device_attempt-excludes, reserve_device_attempt-cooldown,
}

abbrev at_rest : Gates
at_rest = record { active = []; cooldown_until = λ id. none }

abbrev meanwhile : List Event
meanwhile =
    asked (codes "tank-1") 1200
    ∷ concluded (codes "tank-2") cleared
    ∷ released (codes "tank-2")
    ∷ signalled (codes "tank-1")
    ∷ []

reserve_device_attempt-excludes_example :
    let later = run (reserve_device_attempt (codes "tank-1") 1000 at_rest).1 meanwhile in
    reserve_device_attempt (codes "tank-1") 5000 later ≡ (some device_command_in_flight, later)
reserve_device_attempt-excludes_example =
    reserve_device_attempt-excludes (codes "tank-1") 1000 5000 at_rest meanwhile
      (unfold reserve_device_attempt in refl) (unfold text_eq in (refl, tt))

abbrev cooling_down : List Event
cooling_down =
    released (codes "tank-1") ∷ asked (codes "tank-1") 30000 ∷ signalled (codes "tank-2") ∷ []

reserve_device_attempt-cooldown_example :
    is_refused
      (reserve_device_attempt
        (codes "tank-1")
        60999
        (run (conclude (codes "tank-1") (until 61000) at_rest) cooling_down)).0
    ≡ true
reserve_device_attempt-cooldown_example =
    reserve_device_attempt-cooldown (codes "tank-1") 61000 60999 at_rest cooling_down
      (unfold text_eq in (refl, (refl, tt))) (omega arith)
