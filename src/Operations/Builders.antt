-- ===== src/Operations/Builders.antt =====
-- apps/controller/src/application/operations/legacy-command-builders.ts: the wire command that a request asks for.
-- TextEncoder and JSON.parse, followed by the test of the shape of a schedule, are parameters.
pub mod Accepted
use aquarium_controller.Prelude.{
  ℕ, zero, suc, Bool, true, false, not, ◌&&◌, ◌||◌, List, [], ◌∷◌, ◌++◌, Option, none, some,
  if◌then◌else◌, leb, ltb, ◌==◌, Text, codes, text_eq, length, drop, starts_with,
}
use aquarium_controller.Prelude.Result.{
  Result, ok, throw, type_error, range_error, guard, ◌>>=◌, ◌>>◌,
}
use aquarium_controller.Number.{num}
use aquarium_controller.Protocol.Limits.{legacy_max_sync_time, is_supported_esp32_pwm_configuration}
use aquarium_controller.Protocol.ScheduleDocument.{
  LegacyScheduleDocument, every, document_accepted, decimal_text,
  serialize_legacy_schedule_document,
}
use aquarium_controller.Protocol.Commands
use aquarium_controller.Protocol.Commands.{EspCommandInput, FirmwareUpdate}
use aquarium_controller.Operations.Lifecycle.{
  DeviceOperationRequest, set_pwm, ping, edit_configuration, schedule, sync_time, analog_read,
  release_startup_hold, firmware_update,
}

pub record LegacyDeviceTarget : Type 0 where
  pub id : Text
  pub aliases : Option (List Text)

pub record LegacyWireCommand : Type 0 where
  pub command : Text
  pub target : LegacyDeviceTarget
  pub operation : EspCommandInput

abbrev pub max_device_name_bytes : ℕ
max_device_name_bytes = 31

-- A number of a request is whole and not negative.
unfoldable pub assert_integer_in_range : ℕ → ℕ → ℕ → Result (Unit {0})
assert_integer_in_range value minimum maximum =
    guard (leb minimum value && leb value maximum) range_error

-- A surrogate is not printable, so it makes no difference that the source goes over code points.
abbrev pub is_printable : ℕ → Bool
is_printable c = leb 33 c && leb c 126

abbrev pub is_token_character : ℕ → Bool
is_token_character c = is_printable c && not (c == 59)

-- \s
abbrev pub is_whitespace : ℕ → Bool
is_whitespace c =
    (leb 9 c && leb c 13)
    || c == 32
    || c == 160
    || c == 5760
    || (leb 8192 c && leb c 8202)
    || c == 8232
    || c == 8233
    || c == 8239
    || c == 8287
    || c == 12288
    || c == 65279

-- ^http:\/\/\S+$
unfoldable pub is_http_url : Text → Bool
is_http_url url =
    starts_with (codes "http://") url
    && (ltb 0 (length (drop 7 url)) && every (λ c. not (is_whitespace c)) (drop 7 url))

-- ^[a-f0-9]{64}$
unfoldable pub is_lowercase_sha256 : Text → Bool
is_lowercase_sha256 s =
    length s == 64 && every (λ c. (leb 97 c && leb c 102) || (leb 48 c && leb c 57)) s

abbrev pub flag_text : Bool → Text
flag_text true = codes "1"
flag_text false = codes "0"

abbrev pub spaced : List Text → Text
spaced [] = []
spaced (t ∷ rest) = codes " " ++ (t ++ spaced rest)

module _ (utf8 : Text → List ℕ) (parse_document : Text → Option LegacyScheduleDocument) where
  unfoldable pub assert_device_name : Text → Result (Unit {0})
  assert_device_name name =
      guard
        (ltb 0 (length name)
          && (every is_printable name && leb (length (utf8 name)) max_device_name_bytes))
        type_error

  abbrev pub within_bytes : Option ℕ → Text → Bool
  within_bytes none value = true
  within_bytes (some maximum) value = leb (length (utf8 value)) maximum

  unfoldable pub assert_wire_token : Option ℕ → Text → Result (Unit {0})
  assert_wire_token maximum value =
      guard (ltb 0 (length value) && (every is_token_character value && within_bytes maximum value))
        type_error

  abbrev pub assert_wire_tokens : List Text → Result (Unit {0})
  assert_wire_tokens [] = ok tt
  assert_wire_tokens (t ∷ rest) = assert_wire_token none t >> assert_wire_tokens rest

  abbrev pub aliases_or_none : Option (List Text) → List Text
  aliases_or_none none = []
  aliases_or_none (some aliases) = aliases

  unfoldable pub command : LegacyDeviceTarget → Text → EspCommandInput → Result LegacyWireCommand
  unfolding assert_wire_token
  command target operation structured_operation = do
    assert_wire_token none target.id
    assert_wire_tokens (aliases_or_none target.aliases)
    ok (record {
      command = target.id ++ (codes " " ++ operation);
      target = target;
      operation = structured_operation;
    })

  unfoldable pub build_set_pwm_command :
      LegacyDeviceTarget → ℕ → ℕ → Bool → Result LegacyWireCommand
  unfolding assert_integer_in_range decimal_text command
  build_set_pwm_command target pin value overwrite = do
    assert_integer_in_range pin 0 63
    assert_integer_in_range value 0 255
    command target
        (codes "s" ++ spaced (decimal_text pin ∷ decimal_text value ∷ flag_text overwrite ∷ []))
        (Commands.set_pwm pin value overwrite)

  unfoldable pub build_edit_configuration_command :
      LegacyDeviceTarget → Text → ℕ → ℕ → Result LegacyWireCommand
  unfolding assert_device_name assert_integer_in_range is_supported_esp32_pwm_configuration
      decimal_text command
  build_edit_configuration_command target name hz bits = do
    assert_device_name name
    assert_integer_in_range hz 1 40000
    assert_integer_in_range bits 1 16
    guard (is_supported_esp32_pwm_configuration (num hz) (num bits)) range_error
    command target (codes "e" ++ spaced (name ∷ decimal_text hz ∷ decimal_text bits ∷ []))
        (Commands.edit_configuration name hz bits)

  abbrev pub accept_document : Option LegacyScheduleDocument → Result LegacyScheduleDocument
  accept_document none = throw type_error
  accept_document (some document) =
      if document_accepted document then ok document else throw type_error

  unfoldable pub parse_schedule : Text → Result LegacyScheduleDocument
  unfolding document_accepted
  parse_schedule json = accept_document (parse_document json)

  unfoldable pub build_schedule_command : LegacyDeviceTarget → Text → Result LegacyWireCommand
  unfolding parse_schedule assert_integer_in_range serialize_legacy_schedule_document text_eq
      command
  build_schedule_command target schedule_json = do
    document ← parse_schedule schedule_json
    assert_integer_in_range document.sync_time 1 legacy_max_sync_time
    canonical_json ←
        serialize_legacy_schedule_document utf8 (record { c = document.c }) document.sync_time
    guard (text_eq schedule_json canonical_json) type_error
    command target (codes "sc" ++ spaced (canonical_json ∷ [])) (Commands.schedule document)

  unfoldable pub build_sync_time_command : LegacyDeviceTarget → ℕ → Result LegacyWireCommand
  unfolding assert_integer_in_range decimal_text command
  build_sync_time_command target epoch_seconds = do
    assert_integer_in_range epoch_seconds 1 legacy_max_sync_time
    command target (codes "sync" ++ spaced (decimal_text epoch_seconds ∷ []))
        (Commands.sync_time epoch_seconds)

  unfoldable pub build_analog_read_command : LegacyDeviceTarget → ℕ → Result LegacyWireCommand
  unfolding assert_integer_in_range decimal_text command
  build_analog_read_command target pin = do
    assert_integer_in_range pin 0 63
    command target (codes "r" ++ spaced (decimal_text pin ∷ [])) (Commands.analog_read pin)

  abbrev pub assert_transition : Option ℕ → Result (Unit {0})
  assert_transition none = ok tt
  assert_transition (some seconds) = assert_integer_in_range seconds 0 60

  unfoldable pub build_firmware_update_command :
      LegacyDeviceTarget → FirmwareUpdate → Result LegacyWireCommand
  unfolding assert_wire_token assert_integer_in_range is_http_url is_lowercase_sha256 decimal_text
      command
  build_firmware_update_command target u = do
    assert_wire_token (some 31) u.version
    assert_integer_in_range u.size 100000 1900000
    guard (is_http_url u.url && leb (length u.url) 240) type_error
    guard (is_lowercase_sha256 u.sha256) type_error
    assert_transition u.transition_seconds
    command target (codes "ota" ++ spaced (u.version ∷ decimal_text u.size ∷ u.sha256 ∷ u.url ∷ []))
        (Commands.firmware_update u)

  unfoldable pub build_legacy_wire_command :
      LegacyDeviceTarget → DeviceOperationRequest → Result LegacyWireCommand
  unfolding build_set_pwm_command command build_edit_configuration_command build_schedule_command
      build_sync_time_command build_analog_read_command build_firmware_update_command
  build_legacy_wire_command target (set_pwm pin value overwrite) =
      build_set_pwm_command target pin value overwrite
  build_legacy_wire_command target ping = command target (codes "p") Commands.ping
  build_legacy_wire_command target (edit_configuration name hz bits) =
      build_edit_configuration_command target name hz bits
  build_legacy_wire_command target (schedule schedule_json) =
      build_schedule_command target schedule_json
  build_legacy_wire_command target (sync_time epoch_seconds) =
      build_sync_time_command target epoch_seconds
  build_legacy_wire_command target (analog_read pin) = build_analog_read_command target pin
  build_legacy_wire_command target release_startup_hold =
      command target (codes "release") Commands.release_startup_hold
  build_legacy_wire_command target (firmware_update u) = build_firmware_update_command target u
