-- ===== src/Protocol/Limits.antt =====
-- packages/esp-protocol/src/limits.ts: the sizes on the wire and the limits of the PWM timer.
use aquarium_controller.Prelude.{
  ℕ, ◌*◌, ◌/◌, ◌^◌, Bool, ◌&&◌, List, leb, ltb, if◌then◌else◌, Text, length,
}
use aquarium_controller.Prelude.Int.{pos_part}
use aquarium_controller.Prelude.Result.{Result, ok, throw, range_error}
use aquarium_controller.Number.{Number, finite, num, unit, is_integer, le}

abbrev pub esp_mqtt_max_command_payload_bytes : ℕ
esp_mqtt_max_command_payload_bytes = 5120

abbrev pub legacy_max_sync_time : ℕ
legacy_max_sync_time = 2147483647

abbrev pub legacy_schedule_bytes : ℕ
legacy_schedule_bytes = 4095

abbrev pub esp_commands_per_request : ℕ
esp_commands_per_request = 3

abbrev pub esp32_ledc_source_clock_hz : ℕ
esp32_ledc_source_clock_hz = 80000000

-- The whole number that a number is; both factors are below 2^16 where the product is formed.
abbrev natural : Number → ℕ
natural (finite k) = pos_part k / unit
natural _ = 0

unfoldable pub is_supported_esp32_pwm_configuration : Number → Number → Bool
is_supported_esp32_pwm_configuration hz bits =
    is_integer hz
    && (le (num 1) hz
        && (le hz (num 40000)
            && (is_integer bits
                && (le (num 1) bits
                    && (le bits (num 16)
                        && leb (natural hz * 2 ^ natural bits) esp32_ledc_source_clock_hz)))))

-- `utf8` gives the UTF-8 bytes of a text: the platform's TextEncoder.
unfoldable pub assert_legacy_schedule_fits : (Text → List ℕ) → Text → Result (Unit {0})
assert_legacy_schedule_fits utf8 schedule_json =
    if ltb legacy_schedule_bytes (length (utf8 schedule_json)) then throw range_error else ok tt
