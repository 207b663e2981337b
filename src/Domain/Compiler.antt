-- ===== src/Domain/Compiler.antt =====
-- packages/domain/src/schedule-compiler.ts: the schedule that a device keeps.
pub mod Pins
use aquarium_controller.Prelude.{
  ℕ, Bool, true, false, not, ◌&&◌, ◌||◌, List, [], ◌∷◌, if◌then◌else◌,
}
use aquarium_controller.Prelude.Result.{
  Result, ok, throw, range_error, guard, map_result, ◌>>=◌, ◌>>◌,
}
use aquarium_controller.Number.{Number, num, is_finite, is_integer, lt, eq}
use aquarium_controller.Domain.Schedule.{ScheduleSegment, ScheduleGraph}
use aquarium_controller.Domain.Evaluation.{Arithmetic}
use aquarium_controller.Domain.Pwm.{round_half_even}

pub data FirmwareChannelKind : Type 0 where
  light pump : FirmwareChannelKind

pub record FirmwareScheduleChannelInput : Type 0 where
  pub pin : Number
  pub kind : FirmwareChannelKind
  pub graph : ScheduleGraph
  pub throttle_percent : Number
  pub output_gain : Number

pub record CompiledFirmwarePoint : Type 0 where
  pub minute : Number
  pub percent : Number

pub record CompiledFirmwareLink : Type 0 where
  pub source : CompiledFirmwarePoint
  pub target : CompiledFirmwarePoint

pub record CompiledFirmwareChannel : Type 0 where
  pub pin : Number
  pub kind : FirmwareChannelKind
  pub links : List CompiledFirmwareLink

-- pins.has(pin)
unfoldable pub has_pin : List Number → Number → Bool
has_pin [] pin = false
has_pin (p ∷ rest) pin = eq p pin || has_pin rest pin

abbrev pub pin_accepted : Number → Bool
pin_accepted pin = not (not (is_integer pin) || lt pin (num 0) || lt (num 63) pin)

abbrev pub within : Number → ℕ → Bool
within x top = not (not (is_finite x) || lt x (num 0) || lt (num top) x)

module _ (js : Arithmetic) where
  open js use {mul, div}

  unfoldable pub compile_segment : Number → Number → ScheduleSegment → Result CompiledFirmwareLink
  compile_segment throttle gain s = do
    p ← round_half_even (mul (mul s.source.percent (div throttle (num 100))) gain)
    q ← round_half_even (mul (mul s.target.percent (div throttle (num 100))) gain)
    ok (record {
      source = record { minute = s.source.minute; percent = p };
      target = record { minute = s.target.minute; percent = q };
    })

  -- One call of the callback; `pins` holds the pins seen so far.
  unfoldable pub compile_channel :
      List Number → FirmwareScheduleChannelInput → Result CompiledFirmwareChannel
  compile_channel pins c = do
    guard (pin_accepted c.pin) range_error
    guard (not (has_pin pins c.pin)) range_error
    guard (within c.throttle_percent 100) range_error
    guard (within c.output_gain 1) range_error
    links ← map_result (compile_segment c.throttle_percent c.output_gain) c.graph.segments
    ok (record { pin = c.pin; kind = c.kind; links = links })

  unfoldable pub compile_channels :
      List Number → List FirmwareScheduleChannelInput → Result (List CompiledFirmwareChannel)
  compile_channels pins [] = ok []
  compile_channels pins (c ∷ rest) = do
    channel ← compile_channel pins c
    channels ← compile_channels (c.pin ∷ pins) rest
    ok (channel ∷ channels)

  unfoldable pub compile_firmware_schedule :
      List FirmwareScheduleChannelInput → Result (List CompiledFirmwareChannel)
  compile_firmware_schedule channels = compile_channels [] channels
