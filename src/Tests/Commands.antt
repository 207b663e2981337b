-- ===== src/Tests/Commands.antt =====
-- Wire commands built for requests, and scheduled operations after an error.
use aquarium_controller.Prelude.{
  ℕ, ◌≡◌, refl, Bool, true, List, [], ◌∷◌, Option, none, Text, codes, text_eq,
}
use aquarium_controller.Protocol.ScheduleDocument.{LegacyScheduleDocument}
use aquarium_controller.Number.{is_integer, le}
use aquarium_controller.Protocol.Commands
use aquarium_controller.Protocol.Requests.{input_accepted}
use aquarium_controller.Scheduling.Dispatch.{
  new_dispatcher, threw, is_command_error, DispatchEvent, dispatched, turn_came, operation_ended,
  run_dispatcher,
}
use aquarium_controller.Scheduling.Dispatch.Latch.{run_dispatcher_blocks}
use aquarium_controller.Operations.Lifecycle.{edit_configuration}
use aquarium_controller.Operations.Builders.{
  LegacyDeviceTarget, LegacyWireCommand, build_legacy_wire_command,
}
use aquarium_controller.Operations.Builders.Accepted.{build_legacy_wire_command_accepted}

abbrev ascii_bytes : Text → List ℕ
ascii_bytes t = t

abbrev no_document : Text → Option LegacyScheduleDocument
no_document t = none

abbrev any_url : Text → Bool
any_url t = true

abbrev pump_target : LegacyDeviceTarget
pump_target = record { id = codes "esp1"; aliases = none }

abbrev renamed : LegacyWireCommand
renamed = record {
  command = codes "esp1 e pump 1000 8";
  target = pump_target;
  operation = Commands.edit_configuration (codes "pump") 1000 8;
}

build_legacy_wire_command_accepted_example :
    input_accepted ascii_bytes any_url (Commands.edit_configuration (codes "pump") 1000 8) ≡ true
unfolding build_legacy_wire_command is_integer le
build_legacy_wire_command_accepted_example =
    build_legacy_wire_command_accepted ascii_bytes no_document any_url pump_target
      (edit_configuration (codes "pump") 1000 8) renamed (λ t h. refl) tt refl

-- Two devices; the operation of the first one throws.
abbrev before_error : List DispatchEvent
before_error =
    dispatched (codes "left") 1
    ∷ turn_came (codes "left")
    ∷ dispatched (codes "left") 2
    ∷ dispatched (codes "right") 3
    ∷ []

run_dispatcher_blocks_example :
    (run_dispatcher (run_dispatcher new_dispatcher before_error) (
      operation_ended (codes "left") threw
      ∷ turn_came (codes "left")
      ∷ turn_came (codes "right")
      ∷ [])).executed
    ≡ 1 ∷ []
unfolding run_dispatcher is_command_error text_eq
run_dispatcher_blocks_example =
    run_dispatcher_blocks (run_dispatcher new_dispatcher before_error) (codes "left") 1 threw
      (turn_came (codes "left") ∷ turn_came (codes "right") ∷ []) refl refl
