-- ===== src/Protocol/Requests.antt =====
-- packages/esp-protocol/src/index.ts: the schemas of commands, requests, responses and reported outputs,
-- and the encoding of a request. What the platform does (UTF-8, JSON.stringify of a request, zod's
-- test of a URL) is a parameter.
use aquarium_controller.Prelude.{
  ℕ, suc, Bool, true, false, not, ◌&&◌, ◌||◌, List, [], ◌∷◌, ◌++◌, map, Option, none, some, leb,
  ltb, ◌==◌, Text, codes, length, starts_with,
}
use aquarium_controller.Prelude.Result.{Result, ok, range_error, schema_error, guard, ◌>>◌}
use aquarium_controller.Protocol.Limits.{
  esp_commands_per_request, esp_mqtt_max_command_payload_bytes, legacy_schedule_bytes,
}
use aquarium_controller.Protocol.ScheduleDocument.{
  LegacyScheduleDocument, document_accepted, every, channels_json, decimal_text,
}
use aquarium_controller.Protocol.Topics.{is_device_id, is_request_id, is_alphanumeric}
use aquarium_controller.Protocol.Commands.{
  EspCommandInput, set_pwm, ping, edit_configuration, schedule, sync_time, analog_read,
  release_startup_hold, firmware_update, EspCommand, Echo, set_pwm_echo, ping_echo,
  edit_configuration_echo, schedule_echo, sync_time_echo, analog_read_echo,
  release_startup_hold_echo, firmware_update_echo, EspCommandError, EspCommandResult, ResultBody,
  success, failure,
}

abbrev between : ℕ → ℕ → ℕ → Bool
between low high n = leb low n && leb n high

-- espDeviceNameSchema: ^[!-~]{1,31}$
unfoldable pub is_device_name : Text → Bool
is_device_name name = between 1 31 (length name) && every (between b'!' b'~') name

-- ^[A-Za-z0-9._-]+$, of at most 31 characters
unfoldable pub is_version_text : Text → Bool
is_version_text v =
    between 1 31 (length v)
    && every (λ c. is_alphanumeric c || c == b'.' || c == b'_' || c == b'-') v

-- ^[a-f0-9]{64}$
unfoldable pub is_sha256 : Text → Bool
is_sha256 s = length s == 64 && every (λ c. between b'a' b'f' c || between b'0' b'9' c) s

-- ^[a-z0-9_]{1,48}$
unfoldable pub is_error_code : Text → Bool
is_error_code s =
    between 1 48 (length s)
    && every (λ c. between b'a' b'z' c || between b'0' b'9' c || c == b'_') s

unfoldable pub error_accepted : EspCommandError → Bool
unfolding is_error_code
error_accepted e = is_error_code e.code && between 1 160 (length e.message)

abbrev pub seconds_accepted : Option ℕ → Bool
seconds_accepted none = true
seconds_accepted (some n) = leb n 60

abbrev index_accepted : ℕ → Bool
index_accepted i = leb i 2

module _ (utf8 : Text → List ℕ) (is_url : Text → Bool) where
  -- wireScheduleDocumentSchema
  unfoldable pub wire_schedule_accepted : LegacyScheduleDocument → Bool
  wire_schedule_accepted d =
      document_accepted d
      && leb
          (length (
            utf8 (
              channels_json d.c
              ++ (codes ",\"syncTime\":" ++ (decimal_text d.sync_time ++ codes "}")))))
          legacy_schedule_bytes

  unfoldable pub input_accepted : EspCommandInput → Bool
  input_accepted (set_pwm pin value overwrite) = leb pin 63 && leb value 255
  input_accepted ping = true
  input_accepted (edit_configuration name hz bits) =
      is_device_name name && (between 1 40000 hz && between 1 16 bits)
  input_accepted (schedule document) = wire_schedule_accepted document
  input_accepted (sync_time seconds) = between 1 2147483647 seconds
  input_accepted (analog_read pin) = leb pin 63
  input_accepted release_startup_hold = true
  input_accepted (firmware_update u) =
      is_version_text u.version
      && (is_url u.url
          && (leb (length u.url) 240
              && (starts_with (codes "http://") u.url
                  && (between 100000 1900000 u.size
                      && (is_sha256 u.sha256 && seconds_accepted u.transition_seconds)))))

  unfoldable pub command_accepted : EspCommand → Bool
  unfolding input_accepted
  command_accepted c = index_accepted c.index && input_accepted c.input

unfoldable pub echo_accepted : Echo → Bool
unfolding is_device_name
echo_accepted (set_pwm_echo pin value overwrite) = leb pin 63 && leb value 255
echo_accepted ping_echo = true
echo_accepted (edit_configuration_echo name hz bits) =
    is_device_name name && (between 1 40000 hz && between 1 16 bits)
echo_accepted schedule_echo = true
echo_accepted (sync_time_echo seconds) = between 1 2147483647 seconds
echo_accepted (analog_read_echo pin value) = leb pin 63 && leb value 4095
echo_accepted release_startup_hold_echo = true
echo_accepted (firmware_update_echo seconds) = seconds_accepted seconds

abbrev body_accepted : ResultBody → Bool
body_accepted (success echo) = echo_accepted echo
body_accepted (failure kind error) = error_accepted error

unfoldable pub result_accepted : EspCommandResult → Bool
unfolding echo_accepted error_accepted
result_accepted r = index_accepted r.index && body_accepted r.body

pub record EspCommandRequest : Type 0 where
  pub device_id : Text
  pub request_id : Text
  pub commands : List EspCommand

pub record EspCommandResponse : Type 0 where
  pub device_id : Text
  pub name : Text
  pub request_id : Text
  pub results : List EspCommandResult

-- The loop of superRefine: `command.index !== index` is an issue.
unfoldable pub indexes_contiguous : ℕ → List EspCommand → Bool
indexes_contiguous i [] = true
indexes_contiguous i (c ∷ rest) = c.index == i && indexes_contiguous (suc i) rest

-- The loops with a Set: a value that is in it already is an issue.
unfoldable pub contains : List ℕ → ℕ → Bool
contains [] n = false
contains (x ∷ rest) n = x == n || contains rest n

unfoldable pub all_new : List ℕ → List ℕ → Bool
unfolding contains
all_new seen [] = true
all_new seen (n ∷ rest) = not (contains seen n) && all_new (n ∷ seen) rest

module _ (utf8 : Text → List ℕ) (is_url : Text → Bool) where
  unfoldable pub request_accepted : EspCommandRequest → Bool
  request_accepted r =
      is_device_id r.device_id
      && (is_request_id r.request_id
          && (between 1 esp_commands_per_request (length r.commands)
              && (every (command_accepted utf8 is_url) r.commands
                  && indexes_contiguous 0 r.commands)))

  unfoldable pub encode_esp_command_request :
      (stringify : EspCommandRequest → Text) → EspCommandRequest → Result Text
  encode_esp_command_request stringify request = do
    guard (request_accepted request) schema_error
    let payload = stringify request
    guard (not (ltb esp_mqtt_max_command_payload_bytes (length (utf8 payload)))) range_error
    ok payload

unfoldable pub response_accepted : EspCommandResponse → Bool
unfolding all_new
response_accepted r =
    is_device_id r.device_id
    && (is_device_name r.name
        && (is_request_id r.request_id
            && (between 1 esp_commands_per_request (length r.results)
                && (every result_accepted r.results && all_new [] (map (λ x. x.index) r.results)))))

-- espOutputStateSchema: pairs of a pin and a percent
abbrev output_accepted : ℕ × ℕ → Bool
output_accepted x = leb x.0 63 && leb x.1 100

unfoldable pub outputs_accepted : List (ℕ × ℕ) → Bool
unfolding all_new
outputs_accepted outputs =
    leb (length outputs) 64
    && (every output_accepted outputs && all_new [] (map (λ x. x.0) outputs))
