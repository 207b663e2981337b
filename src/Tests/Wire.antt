-- ===== src/Tests/Wire.antt =====
-- packages/esp-protocol: a device, its topics, and what is said to it.
use aquarium_controller.Prelude.{
  ℕ, ◌+◌, ◌*◌, ◌%◌, ◌^◌, ◌<◌, ◌≡◌, ◌↔◌, refl, true, List, [], ◌∷◌, ◌++◌, Option, some, Text, codes,
  length,
}
use aquarium_controller.Prelude.Result.{ok}
use aquarium_controller.Protocol.Topics.{
  EspTopicSet, announce, is_device_id, is_request_id, every, topic_for, parse_device_topic,
}
use aquarium_controller.Protocol.Topics.RoundTrip.{parse_device_topic_iff}
use aquarium_controller.Protocol.Hash.{unsigned_djb2, djb2_seed, u32_mod}
use aquarium_controller.Protocol.Hash.Polynomial.{polynomial, unsigned_djb2-polynomial}
use aquarium_controller.Protocol.Version.{is_supported_esp_firmware_version}
use aquarium_controller.Protocol.Version.Support.{IsSixth, is_supported_esp_firmware_version_iff}
use aquarium_controller.Protocol.Commands.{
  analog_read, ping, EspCommand, EspCommandResult, EspCommandError, success, analog_read_echo,
  ping_echo, match_esp_command_result, succeeded, device_error,
}
use aquarium_controller.Protocol.Commands.Matching.{
  success_of, failure_of, value_of, match_esp_command_result_iff,
}
use aquarium_controller.Protocol.Requests.{
  EspCommandRequest, EspCommandResponse, response_accepted, encode_esp_command_request,
  request_accepted, command_accepted, input_accepted, indexes_contiguous, is_device_name,
  result_accepted,
}

abbrev topics : EspTopicSet
topics = record {
  namespace = codes "aquarium";
  device_root = codes "aquarium/v1/devices";
  discovery_request = codes "aquarium/v1/discovery/request";
  announcement_filter = codes "aquarium/v1/devices/+/announce";
  response_filter = codes "aquarium/v1/devices/+/response";
  legacy_command = codes "aquarium/command";
  legacy_announcement = codes "aquarium/announce";
}

parse_device_topic_iff_example :
    (parse_device_topic topics (codes "aquarium/v1/devices/tank-1/announce") announce
      ≡ some (codes "tank-1"))
    ↔ (topic_for topics (codes "tank-1") announce
        ≡ ok (codes "aquarium/v1/devices/tank-1/announce"))
parse_device_topic_iff_example =
    parse_device_topic_iff topics (codes "aquarium/v1/devices/tank-1/announce") (codes "tank-1")
      announce

-- A topic of plain ASCII takes one byte for each character.
abbrev ascii : Text → List ℕ
ascii t = t

unsigned_djb2-polynomial_example :
    let bytes = ascii (codes "tank-1") in
    (unsigned_djb2 ascii (codes "tank-1")
      ≡ (djb2_seed * 33 ^ length bytes + polynomial bytes) % u32_mod)
    × (unsigned_djb2 ascii (codes "tank-1") < u32_mod)
unsigned_djb2-polynomial_example = unsigned_djb2-polynomial ascii (codes "tank-1")

is_supported_esp_firmware_version_iff_example :
    (is_supported_esp_firmware_version (codes "6.0.3") ≡ true) ↔ IsSixth (codes "6.0.3")
is_supported_esp_firmware_version_iff_example =
    is_supported_esp_firmware_version_iff (codes "6.0.3")

abbrev read_level : EspCommand
read_level = record { index = 0; input = analog_read 34 }

abbrev level_read : EspCommandResult
level_read = record { index = 0; body = success (analog_read_echo 34 2048) }

match_esp_command_result_iff_example :
    ((x : Option ℕ)
      → (match_esp_command_result read_level level_read ≡ succeeded x)
        ↔ ((v : ℕ) × (level_read ≡ success_of read_level v) × (x ≡ value_of read_level.input v)))
    × ((error : EspCommandError)
        → (match_esp_command_result read_level level_read ≡ device_error error.code error.message)
          ↔ (level_read ≡ failure_of read_level error))
match_esp_command_result_iff_example = match_esp_command_result_iff read_level level_read

abbrev reported : List (ℕ × ℕ)
reported = (16, 40) ∷ (17, 100) ∷ []

abbrev answer : EspCommandResponse
answer = record {
  device_id = codes "tank-1";
  name = codes "Tank";
  request_id = codes "r1";
  results = level_read ∷ record { index = 1; body = success ping_echo } ∷ [];
}

answer_accepted : response_accepted answer ≡ true
unfolding response_accepted is_device_id is_device_name is_request_id every result_accepted
answer_accepted = refl

abbrev asked : EspCommandRequest
asked = record {
  device_id = codes "tank-1";
  request_id = codes "r1";
  commands = read_level ∷ record { index = 1; input = ping } ∷ [];
}

-- JSON.stringify of that request
abbrev stringify : EspCommandRequest → Text
stringify request =
    codes "{\"deviceId\":\""
    ++ (request.device_id
        ++ (codes "\",\"requestId\":\""
            ++ (request.request_id
                ++ codes
                    "\",\"commands\":[{\"index\":0,\"kind\":\"analogRead\",\"pin\":34},{\"index\":1,\"kind\":\"ping\"}]}")))

asked_encoded :
    encode_esp_command_request ascii (λ url. true) stringify asked ≡ ok (stringify asked)
unfolding encode_esp_command_request request_accepted is_device_id is_request_id every
    command_accepted input_accepted indexes_contiguous
asked_encoded = refl
