-- ===== src/Protocol/Commands.antt =====
-- packages/esp-protocol/src/index.ts: commands, their results, and whether a result answers a command.
-- The schemas admit only whole numbers from 0 up in these fields, so they are natural numbers here; a
-- protocol error keeps what its text is made of.
pub mod Matching
use aquarium_controller.Prelude.{
  ℕ, Bool, true, false, not, ◌&&◌, ◌||◌, Option, none, some, if◌then◌else◌, ◌==◌, Text, text_eq,
}
use aquarium_controller.Protocol.ScheduleDocument.{LegacyScheduleDocument}

pub data EspCommandKind : Type 0 where
  set_pwm_kind ping_kind edit_configuration_kind schedule_kind : EspCommandKind
  sync_time_kind analog_read_kind release_startup_hold_kind firmware_update_kind : EspCommandKind

pub record FirmwareUpdate : Type 0 where
  pub version : Text
  pub url : Text
  pub size : ℕ
  pub sha256 : Text
  pub transition_seconds : Option ℕ

-- EspCommandInput: a command without its index
pub data EspCommandInput : Type 0 where
  set_pwm : ℕ → ℕ → Bool → EspCommandInput
  ping : EspCommandInput
  edit_configuration : Text → ℕ → ℕ → EspCommandInput
  schedule : LegacyScheduleDocument → EspCommandInput
  sync_time : ℕ → EspCommandInput
  analog_read : ℕ → EspCommandInput
  release_startup_hold : EspCommandInput
  firmware_update : FirmwareUpdate → EspCommandInput

pub record EspCommand : Type 0 where
  pub index : ℕ
  pub input : EspCommandInput

abbrev pub kind_of : EspCommandInput → EspCommandKind
kind_of (set_pwm pin value overwrite) = set_pwm_kind
kind_of ping = ping_kind
kind_of (edit_configuration name hz bits) = edit_configuration_kind
kind_of (schedule document) = schedule_kind
kind_of (sync_time seconds) = sync_time_kind
kind_of (analog_read pin) = analog_read_kind
kind_of release_startup_hold = release_startup_hold_kind
kind_of (firmware_update update) = firmware_update_kind

-- What a result with `ok: true` says, by kind
pub data Echo : Type 0 where
  set_pwm_echo : ℕ → ℕ → Bool → Echo
  ping_echo : Echo
  edit_configuration_echo : Text → ℕ → ℕ → Echo
  schedule_echo : Echo
  sync_time_echo : ℕ → Echo
  analog_read_echo : ℕ → ℕ → Echo
  release_startup_hold_echo : Echo
  firmware_update_echo : Option ℕ → Echo

pub record EspCommandError : Type 0 where
  pub code : Text
  pub message : Text

pub data ResultBody : Type 0 where
  success : Echo → ResultBody
  failure : EspCommandKind → EspCommandError → ResultBody

pub record EspCommandResult : Type 0 where
  pub index : ℕ
  pub body : ResultBody

abbrev pub kind_of_echo : Echo → EspCommandKind
kind_of_echo (set_pwm_echo pin value overwrite) = set_pwm_kind
kind_of_echo ping_echo = ping_kind
kind_of_echo (edit_configuration_echo name hz bits) = edit_configuration_kind
kind_of_echo schedule_echo = schedule_kind
kind_of_echo (sync_time_echo seconds) = sync_time_kind
kind_of_echo (analog_read_echo pin value) = analog_read_kind
kind_of_echo release_startup_hold_echo = release_startup_hold_kind
kind_of_echo (firmware_update_echo seconds) = firmware_update_kind

abbrev pub kind_of_body : ResultBody → EspCommandKind
kind_of_body (success echo) = kind_of_echo echo
kind_of_body (failure kind error) = kind

-- The kinds, as the numbers by which they are compared
abbrev kind_number : EspCommandKind → ℕ
kind_number set_pwm_kind = 0
kind_number ping_kind = 1
kind_number edit_configuration_kind = 2
kind_number schedule_kind = 3
kind_number sync_time_kind = 4
kind_number analog_read_kind = 5
kind_number release_startup_hold_kind = 6
kind_number firmware_update_kind = 7

abbrev pub same_kind : EspCommandKind → EspCommandKind → Bool
same_kind a b = kind_number a == kind_number b

pub data ProtocolErrorDetail : Type 0 where
  expected_result : EspCommandKind → ℕ → ProtocolErrorDetail
  not_echoed : EspCommandKind → ProtocolErrorDetail

pub data EspCommandResultMatch : Type 0 where
  succeeded : Option ℕ → EspCommandResultMatch
  device_error : Text → Text → EspCommandResultMatch
  protocol_error : ProtocolErrorDetail → EspCommandResultMatch

abbrev same_bool : Bool → Bool → Bool
same_bool true b = b
same_bool false b = not b

abbrev same_seconds : Option ℕ → Option ℕ → Bool
same_seconds none none = true
same_seconds (some a) (some b) = a == b
same_seconds _ _ = false

abbrev echoed : Bool → EspCommandKind → Option ℕ → EspCommandResultMatch
echoed test kind value = if test then succeeded value else protocol_error (not_echoed kind)

-- The switch over the kinds; the catch-all is `result.kind !== command.kind`.
pub match_echo : EspCommandInput → Echo → EspCommandResultMatch
match_echo ping ping_echo = succeeded none
match_echo (schedule document) schedule_echo = succeeded none
match_echo (set_pwm pin value overwrite) (set_pwm_echo p v o) =
    echoed (p == pin && v == value && same_bool o overwrite) set_pwm_kind none
match_echo (edit_configuration name hz bits) (edit_configuration_echo n h b) =
    echoed (text_eq n name && h == hz && b == bits) edit_configuration_kind none
match_echo (sync_time seconds) (sync_time_echo s) = echoed (s == seconds) sync_time_kind none
match_echo (analog_read pin) (analog_read_echo p v) = echoed (p == pin) analog_read_kind (some v)
match_echo release_startup_hold release_startup_hold_echo = succeeded none
match_echo (firmware_update update) (firmware_update_echo seconds) =
    echoed (same_seconds seconds update.transition_seconds) firmware_update_kind none
match_echo input echo = protocol_error (not_echoed (kind_of input))

match_body : EspCommandInput → ResultBody → EspCommandResultMatch
match_body input (failure kind error) = device_error error.code error.message
match_body input (success echo) = match_echo input echo

unfoldable pub match_esp_command_result : EspCommand → EspCommandResult → EspCommandResultMatch
unfolding match_body match_echo
match_esp_command_result command result =
    if not (result.index == command.index)
      || not (same_kind (kind_of_body result.body) (kind_of command.input))
    then protocol_error (expected_result (kind_of command.input) command.index)
    else match_body command.input result.body
