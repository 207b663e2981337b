-- ===== src/Protocol/Commands/Matching.antt =====
-- About matchEspCommandResult: which result answers a command.
use aquarium_controller.Prelude.{
  ℕ, ◌≡◌, ◌≢◌, ◌↔◌, refl, true, Option, none, some, arith, Text, text_eq_iff, text_eq_refl, ◌==◌,
  ◌⊎◌, inl, inr, Bool-cases, sym, ◌∙◌, ap, ==_iff,
}
use aquarium_controller.Protocol.Commands.{
  EspCommandInput, set_pwm, ping, edit_configuration, schedule, sync_time, analog_read,
  release_startup_hold, firmware_update, EspCommand, Echo, set_pwm_echo, ping_echo,
  edit_configuration_echo, schedule_echo, sync_time_echo, analog_read_echo,
  release_startup_hold_echo, firmware_update_echo, EspCommandError, EspCommandResult, ResultBody,
  success, failure, kind_of, kind_of_body, EspCommandKind, same_kind, succeeded, device_error,
  protocol_error, expected_result, match_body, match_echo, match_esp_command_result,
}

-- What a device says of a command that it carried out; an analog read says the value too.
abbrev pub echo_of : EspCommandInput → ℕ → Echo
echo_of (set_pwm pin value overwrite) v = set_pwm_echo pin value overwrite
echo_of ping v = ping_echo
echo_of (edit_configuration name hz bits) v = edit_configuration_echo name hz bits
echo_of (schedule document) v = schedule_echo
echo_of (sync_time seconds) v = sync_time_echo seconds
echo_of (analog_read pin) v = analog_read_echo pin v
echo_of release_startup_hold v = release_startup_hold_echo
echo_of (firmware_update update) v = firmware_update_echo update.transition_seconds

abbrev pub value_of : EspCommandInput → ℕ → Option ℕ
value_of (analog_read pin) v = some v
value_of input v = none

match_echo_sound :
    (input : EspCommandInput) (echo : Echo) {r : Option ℕ}
    → match_echo input echo ≡ succeeded r
    → (v : ℕ) × (echo ≡ echo_of input v) × (r ≡ value_of input v)
unfolding match_echo
match_echo_sound ping ping_echo h = (0, refl, ground arith)
match_echo_sound (schedule document) schedule_echo h = (0, refl, ground arith)
match_echo_sound (set_pwm pin value overwrite) (set_pwm_echo p v o) h =
    (0, ground arith, ground arith)
match_echo_sound (edit_configuration name hz bits) (edit_configuration_echo n h' b) h =
    (0, ground (arith, text_eq_iff n name), ground arith)
match_echo_sound (sync_time seconds) (sync_time_echo s) h = (0, ground arith, ground arith)
match_echo_sound (analog_read pin) (analog_read_echo p v) h = (v, ground arith, ground arith)
match_echo_sound release_startup_hold release_startup_hold_echo h = (0, refl, ground arith)
match_echo_sound (firmware_update update) (firmware_update_echo seconds) h =
    (0, ground arith, ground arith)
match_echo_sound _ _ h = absurd (cc)

match_echo_complete :
    (input : EspCommandInput) (v : ℕ)
    → match_echo input (echo_of input v) ≡ succeeded (value_of input v)
unfolding match_echo
match_echo_complete ping v = refl
match_echo_complete (schedule document) v = refl
match_echo_complete (set_pwm pin value overwrite) v = ground arith
match_echo_complete (edit_configuration name hz bits) v = ground (arith, text_eq_refl name)
match_echo_complete (sync_time seconds) v = ground arith
match_echo_complete (analog_read pin) v = ground arith
match_echo_complete release_startup_hold v = refl
match_echo_complete (firmware_update update) v = ground arith

match_echo-error :
    (input : EspCommandInput) (echo : Echo) {a b : Text} → match_echo input echo ≢ device_error a b
unfolding match_echo
match_echo-error ping echo h = ground arith
match_echo-error (schedule document) echo h = ground arith
match_echo-error (set_pwm pin value overwrite) echo h = ground arith
match_echo-error (edit_configuration name hz bits) echo h = ground arith
match_echo-error (sync_time seconds) echo h = ground arith
match_echo-error (analog_read pin) echo h = ground arith
match_echo-error release_startup_hold echo h = ground arith
match_echo-error (firmware_update update) echo h = ground arith

-- The result that a device gives when it has carried out the command
abbrev pub success_of : EspCommand → ℕ → EspCommandResult
success_of command v = record { index = command.index; body = success (echo_of command.input v) }

abbrev pub failure_of : EspCommand → EspCommandError → EspCommandResult
failure_of command error = record {
  index = command.index;
  body = failure (kind_of command.input) error;
}

same_kind-eq : (a b : EspCommandKind) → same_kind a b ≡ true → a ≡ b
same_kind-eq a b h = ground arith

kind_of-echo_of :
    (input : EspCommandInput) (v : ℕ) → kind_of_body (success (echo_of input v)) ≡ kind_of input
kind_of-echo_of ping v = refl
kind_of-echo_of _ v = refl

same_kind_refl : (a : EspCommandKind) → same_kind a a ≡ true
same_kind_refl a = ground arith

-- Past the test of index and kind
passed :
    (command : EspCommand) (result : EspCommandResult)
    → result.index ≡ command.index
    → kind_of_body result.body ≡ kind_of command.input
    → match_esp_command_result command result ≡ match_body command.input result.body
unfolding match_esp_command_result
passed command result i k =
    rw (i, k, (==_iff command.index command.index).1 refl, same_kind_refl (kind_of command.input))

stopped :
    (command : EspCommand) (result : EspCommandResult)
    → ((result.index ≡ command.index) × (kind_of_body result.body ≡ kind_of command.input))
      ⊎ (match_esp_command_result command result
          ≡ protocol_error (expected_result (kind_of command.input) command.index))
unfolding match_esp_command_result
stopped command result = elim (Bool-cases (result.index == command.index)) [
  | inr e ↦ inr (rw e)
  | inl e ↦ elim (Bool-cases (same_kind (kind_of_body result.body) (kind_of command.input))) [
    | inr k ↦ inr (rw (e, k))
    | inl k ↦ inl ((==_iff _ _).0 e, same_kind-eq _ _ k)
  ]
]

body-succeeded :
    (input : EspCommandInput) (body : ResultBody) {x : Option ℕ}
    → match_body input body ≡ succeeded x
    → (v : ℕ) × (body ≡ success (echo_of input v)) × (x ≡ value_of input v)
unfolding match_body
body-succeeded input (success echo) h =
    let (v, e, r) = match_echo_sound input echo h in (v, ap success e, r)
body-succeeded input (failure kind error) h = absurd (cc)

body-failed :
    (input : EspCommandInput) (body : ResultBody) {code message : Text}
    → kind_of_body body ≡ kind_of input
    → match_body input body ≡ device_error code message
    → body ≡ failure (kind_of input) (record { code = code; message = message })
unfolding match_body
body-failed input (success echo) k h = absurd (match_echo-error input echo h)
body-failed input (failure kind error) k h = ground arith

-- A command has succeeded, with an analog value or none, exactly on the result that has its index and
-- echoes all that it asked for; it has failed on the device exactly on a failure of its index and kind,
-- with that failure's code and message. So every other result is a protocol error.
pub match_esp_command_result_iff :
    (command : EspCommand) (result : EspCommandResult)
    → ((x : Option ℕ)
        → (match_esp_command_result command result ≡ succeeded x)
          ↔ ((v : ℕ) × (result ≡ success_of command v) × (x ≡ value_of command.input v)))
      × ((error : EspCommandError)
          → (match_esp_command_result command result ≡ device_error error.code error.message)
            ↔ (result ≡ failure_of command error))
match_esp_command_result_iff command result = (λ x. (sound x, complete x), λ e. (failed e, fails e))
  where
    sound :
        (x : Option ℕ)
        → match_esp_command_result command result ≡ succeeded x
        → (v : ℕ) × (result ≡ success_of command v) × (x ≡ value_of command.input v)
    sound x h = elim (stopped command result) [
      | inr e ↦ absurd (cc)
      | inl (i, k) ↦
          let (v, b, r) =
            body-succeeded command.input result.body (sym (passed command result i k) ∙ h) in
          (v, cc, r)
    ]

    complete :
        (x : Option ℕ)
        → (v : ℕ) × (result ≡ success_of command v) × (x ≡ value_of command.input v)
        → match_esp_command_result command result ≡ succeeded x
    complete x (v, e, r) =
        rw (e, r)
          (passed command (success_of command v) refl (kind_of-echo_of command.input v)
            ∙ unfold match_body in match_echo_complete command.input v)

    failed :
        (error : EspCommandError)
        → match_esp_command_result command result ≡ device_error error.code error.message
        → result ≡ failure_of command error
    failed error h = elim (stopped command result) [
      | inr e ↦ absurd (cc)
      | inl (i, k) ↦
          let b = body-failed command.input result.body k (sym (passed command result i k) ∙ h) in
          cc
    ]

    fails :
        (error : EspCommandError)
        → result ≡ failure_of command error
        → match_esp_command_result command result ≡ device_error error.code error.message
    fails error e =
        rw e (passed command (failure_of command error) refl refl ∙ (unfold match_body in refl))
