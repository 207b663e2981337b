-- ===== src/Protocol/Version.antt =====
-- packages/esp-protocol/src/index.ts: which firmware versions the controller talks to. `Number` of a
-- text of digits is its decimal value: the comparisons below come out the same for its nearest double.
pub mod Support
use aquarium_controller.Prelude.{
  ℕ, ◌+◌, ◌-◌, ◌*◌, Bool, true, false, not, ◌&&◌, ◌||◌, List, [], ◌∷◌, if◌then◌else◌, ltb, leb,
  ◌==◌, Text, codes, split, text_eq,
}

-- \d
abbrev pub is_digit : ℕ → Bool
is_digit c = leb b'0' c && leb c b'9'

unfoldable pub all_digits : Text → Bool
all_digits [] = true
all_digits (c ∷ cs) = is_digit c && all_digits cs

-- ^\d+$
unfoldable pub is_digits : Text → Bool
unfolding all_digits
is_digits [] = false
is_digits (c ∷ cs) = all_digits (c ∷ cs)

unfoldable pub decimal_from : ℕ → Text → ℕ
decimal_from acc [] = acc
decimal_from acc (c ∷ cs) = decimal_from (acc * 10 + (c - b'0')) cs

unfoldable pub decimal : Text → ℕ
unfolding decimal_from
decimal s = decimal_from 0 s

abbrev pub current_esp_firmware_version : Text
current_esp_firmware_version = codes "6.0.3"

unfoldable pub is_current_esp_firmware_version : Text → Bool
is_current_esp_firmware_version version = text_eq version current_esp_firmware_version

abbrev pub head_or_empty : List Text → Text
head_or_empty [] = []
head_or_empty (part ∷ rest) = part

unfoldable pub is_supported_esp_firmware_version : Text → Bool
unfolding is_digits decimal split
is_supported_esp_firmware_version version =
    let major = head_or_empty (split b'.' version) in is_digits major && decimal major == 6

unfoldable pub supports_pull_ota : Text → Bool
unfolding is_supported_esp_firmware_version
supports_pull_ota version = is_supported_esp_firmware_version version

-- The match of ^(\d+)\.(\d+)\.(\d+)$ and the tests of its groups
unfoldable pub smooth_parts : List Text → Bool
unfolding is_digits decimal
smooth_parts (major ∷ minor ∷ patch ∷ []) =
    if not (is_digits major && is_digits minor && is_digits patch)
    then false
    else ltb 0 (decimal minor) || decimal minor == 0 && leb 2 (decimal patch)
smooth_parts _ = false

unfoldable pub supports_smooth_ota : Text → Bool
unfolding is_supported_esp_firmware_version smooth_parts
supports_smooth_ota version =
    if not (is_supported_esp_firmware_version version)
    then false
    else smooth_parts (split b'.' version)
