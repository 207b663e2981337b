-- ===== src/Operations/Builders/Accepted.antt =====
-- About the wire commands that requests ask for: whether the schema of commands accepts them.
use aquarium_controller.Prelude.{
  ℕ, ◌≡◌, refl, sym, ap, ◌∙◌, inl, inr, Bool, true, ◌&&◌, List, [], ◌∷◌, ◌++◌, Option, none, some,
  arith, leb, ltb, Text, codes, text_eq, length, starts_with, Bool-cases, &&-eq-true,
}
use aquarium_controller.Prelude.Result.{
  Result, ok, throw, type_error, range_error, schema_error, guard, >>=-eq-ok, guard-eq-ok,
}
use aquarium_controller.Number.{num}
use aquarium_controller.Protocol.Limits.{
  legacy_max_sync_time, legacy_schedule_bytes, assert_legacy_schedule_fits,
  is_supported_esp32_pwm_configuration,
}
use aquarium_controller.Protocol.ScheduleDocument.{
  LegacyScheduleDocument, every, document_accepted, decimal_text, channels_json,
  serialize_legacy_schedule_document,
}
use aquarium_controller.Protocol.Commands.{EspCommandInput, FirmwareUpdate}
use aquarium_controller.Protocol.Commands
use aquarium_controller.Protocol.Requests.{
  is_device_name, is_version_text, is_sha256, seconds_accepted, wire_schedule_accepted,
  input_accepted,
}
use aquarium_controller.Operations.Lifecycle.{
  DeviceOperationRequest, set_pwm, ping, edit_configuration, schedule, sync_time, analog_read,
  release_startup_hold, firmware_update,
}
use aquarium_controller.Operations.Builders.{
  LegacyDeviceTarget, LegacyWireCommand, assert_integer_in_range, is_printable, is_http_url,
  is_lowercase_sha256, assert_device_name, assert_wire_token, assert_wire_tokens, aliases_or_none,
  command, build_set_pwm_command, build_edit_configuration_command, accept_document, parse_schedule,
  build_schedule_command, build_sync_time_command, build_analog_read_command, assert_transition,
  build_firmware_update_command, build_legacy_wire_command,
}

every_implies :
    (p q : ℕ → Bool)
    → ((c : ℕ) → p c ≡ true → q c ≡ true)
    → (t : Text) → every p t ≡ true
    → every q t ≡ true
every_implies p q i [] h = refl
every_implies p q i (c ∷ rest) h =
    let (a, b) = &&-eq-true (p c) (every p rest) h in rw (i c a, every_implies p q i rest b) refl

and-true : (a b : Bool) → a ≡ true → b ≡ true → (a && b) ≡ true
and-true a b h k = rw (h, k) refl

in_range :
    (value low high : ℕ) {u : Unit {0}}
    → assert_integer_in_range value low high ≡ ok u
    → (leb low value && leb value high) ≡ true
unfolding assert_integer_in_range
in_range value low high e = guard-eq-ok _ range_error e

document_of : LegacyScheduleDocument → Result LegacyScheduleDocument → LegacyScheduleDocument
document_of d (ok e) = e
document_of d (throw error) = d

operation_of : Result LegacyWireCommand → EspCommandInput
operation_of (ok w) = w.operation
operation_of (throw error) = Commands.ping

below :
    (value low high : ℕ) {u : Unit {0}}
    → assert_integer_in_range value low high ≡ ok u
    → leb value high ≡ true
below value low high e = (&&-eq-true (leb low value) (leb value high) (in_range value low high e)).1

module _ (utf8 : Text → List ℕ) (parse_document : Text → Option LegacyScheduleDocument) where
  -- A command asks for what it is built for.
  operation-command :
      (target : LegacyDeviceTarget) (text : Text) (operation : EspCommandInput)
      (w : LegacyWireCommand)
      → command utf8 parse_document target text operation ≡ ok w
      → w.operation ≡ operation
  unfolding command operation_of
  operation-command target text operation w e =
      let (u, a, e1) = >>=-eq-ok (assert_wire_token utf8 parse_document none target.id) _ e in
      let (v, b, e2) =
        >>=-eq-ok
          (assert_wire_tokens utf8 parse_document
            (aliases_or_none utf8 parse_document target.aliases))
          _ e1 in
      sym (ap operation_of e2)

  module _ (is_url : Text → Bool)
      (ascii : (t : Text) → every (λ c. leb c 127) t ≡ true → length (utf8 t) ≡ length t) where
    Accepted : LegacyWireCommand → Type 0
    Accepted w = input_accepted utf8 is_url w.operation ≡ true

    of_operation :
        (target : LegacyDeviceTarget) (text : Text) (operation : EspCommandInput)
        (w : LegacyWireCommand)
        → command utf8 parse_document target text operation ≡ ok w
        → input_accepted utf8 is_url operation ≡ true
        → Accepted w
    unfolding Accepted
    of_operation target text operation w e a =
        ap (input_accepted utf8 is_url) (operation-command target text operation w e) ∙ a

    set_pwm-Accepted :
        (target : LegacyDeviceTarget) (pin value : ℕ) (overwrite : Bool) (w : LegacyWireCommand)
        → build_set_pwm_command utf8 parse_document target pin value overwrite ≡ ok w
        → Accepted w
    unfolding build_set_pwm_command input_accepted
    set_pwm-Accepted target pin value overwrite w e =
        let (u, a, e1) = >>=-eq-ok (assert_integer_in_range pin 0 63) _ e in
        let (v, b, e2) = >>=-eq-ok (assert_integer_in_range value 0 255) _ e1 in
        of_operation target _ (Commands.set_pwm pin value overwrite) w e2
          (and-true (leb pin 63) (leb value 255) (below pin 0 63 a) (below value 0 255 b))

    is_device_name_of_assert :
        (name : Text) {u : Unit {0}}
        → assert_device_name utf8 parse_document name ≡ ok u
        → is_device_name name ≡ true
    unfolding assert_device_name is_device_name
    is_device_name_of_assert name e =
        let (a, b) = &&-eq-true (ltb 0 (length name)) _ (guard-eq-ok _ type_error e) in
        let (p, q) = &&-eq-true (every is_printable name) _ b in
        let small =
          ascii name
            (every_implies is_printable (λ c. leb c 127) (λ c h. ground (arith, h)) name p) in
        let low : leb 1 (length name) ≡ true = ground (arith, a) in
        let high : leb (length name) 31 ≡ true = ground (arith, q, small) in
        and-true (leb 1 (length name) && leb (length name) 31) (every is_printable name)
          (and-true (leb 1 (length name)) (leb (length name) 31) low high) p

    edit_configuration-Accepted :
        (target : LegacyDeviceTarget) (name : Text) (hz bits : ℕ) (w : LegacyWireCommand)
        → build_edit_configuration_command utf8 parse_document target name hz bits ≡ ok w
        → Accepted w
    unfolding build_edit_configuration_command input_accepted
    edit_configuration-Accepted target name hz bits w e =
        let (u, a, e1) = >>=-eq-ok (assert_device_name utf8 parse_document name) _ e in
        let (v, b, e2) = >>=-eq-ok (assert_integer_in_range hz 1 40000) _ e1 in
        let (x, c, e3) = >>=-eq-ok (assert_integer_in_range bits 1 16) _ e2 in
        let (y, d, e4) =
          >>=-eq-ok (guard (is_supported_esp32_pwm_configuration (num hz) (num bits)) range_error) _
            e3 in
        of_operation target _ (Commands.edit_configuration name hz bits) w e4 (
          and-true (is_device_name name) ((leb 1 hz && leb hz 40000) && (leb 1 bits && leb bits 16))
            (is_device_name_of_assert name a)
            (and-true (leb 1 hz && leb hz 40000) (leb 1 bits && leb bits 16) (in_range hz 1 40000 b)
              (in_range bits 1 16 c)))

    sync_time-Accepted :
        (target : LegacyDeviceTarget) (seconds : ℕ) (w : LegacyWireCommand)
        → build_sync_time_command utf8 parse_document target seconds ≡ ok w
        → Accepted w
    unfolding build_sync_time_command input_accepted
    sync_time-Accepted target seconds w e =
        let (u, a, e1) = >>=-eq-ok (assert_integer_in_range seconds 1 legacy_max_sync_time) _ e in
        of_operation target _ (Commands.sync_time seconds) w e1
          (in_range seconds 1 legacy_max_sync_time a)

    analog_read-Accepted :
        (target : LegacyDeviceTarget) (pin : ℕ) (w : LegacyWireCommand)
        → build_analog_read_command utf8 parse_document target pin ≡ ok w
        → Accepted w
    unfolding build_analog_read_command input_accepted
    analog_read-Accepted target pin w e =
        let (u, a, e1) = >>=-eq-ok (assert_integer_in_range pin 0 63) _ e in
        of_operation target _ (Commands.analog_read pin) w e1 (below pin 0 63 a)

    accept_document_accepted :
        (o : Option LegacyScheduleDocument) (d : LegacyScheduleDocument)
        → accept_document utf8 parse_document o ≡ ok d
        → document_accepted d ≡ true
    unfolding document_of
    accept_document_accepted none d e = absurd (cc)
    accept_document_accepted (some document) d e = elim (Bool-cases (document_accepted document)) [
      | inr no' ↦ absurd (let h = rw no' at e in cc)
      | inl yes' ↦
          let h : ok document ≡ ok d = rw yes' at e in
          let same : document ≡ d = ap (document_of document) h in rw (sym same) yes'
    ]

    parse_schedule_accepted :
        (json : Text) (d : LegacyScheduleDocument)
        → parse_schedule utf8 parse_document json ≡ ok d
        → document_accepted d ≡ true
    unfolding parse_schedule
    parse_schedule_accepted json d e = accept_document_accepted (parse_document json) d e

    transition :
        (o : Option ℕ) {u : Unit {0}}
        → assert_transition utf8 parse_document o ≡ ok u
        → seconds_accepted o ≡ true
    transition none e = refl
    transition (some n) e = below n 0 60 e

    fits :
        (json : Text) {u : Unit {0}}
        → assert_legacy_schedule_fits utf8 json ≡ ok u
        → leb (length (utf8 json)) legacy_schedule_bytes ≡ true
    unfolding assert_legacy_schedule_fits
    fits json e = elim (Bool-cases (ltb legacy_schedule_bytes (length (utf8 json)))) [
      | inl over ↦ absurd (let h = rw over at e in cc)
      | inr under ↦ ground arith
    ]

    schedule-Accepted :
        (target : LegacyDeviceTarget) (json : Text) (w : LegacyWireCommand)
        → build_schedule_command utf8 parse_document target json ≡ ok w
        → Accepted w
    unfolding build_schedule_command serialize_legacy_schedule_document input_accepted
        wire_schedule_accepted
    schedule-Accepted target json w e =
        let (d, a, e1) = >>=-eq-ok (parse_schedule utf8 parse_document json) _ e in
        let (u, b, e2) =
          >>=-eq-ok (assert_integer_in_range d.sync_time 1 legacy_max_sync_time) _ e1 in
        let (canonical, c, e3) =
          >>=-eq-ok (serialize_legacy_schedule_document utf8 (record { c = d.c }) d.sync_time) _
            e2 in
        let (v, same, e4) = >>=-eq-ok (guard (text_eq json canonical) type_error) _ e3 in
        let (x, ok', c1) = >>=-eq-ok (guard (document_accepted d) schema_error) _ c in
        let text =
          channels_json d.c
          ++ (codes ",\"syncTime\":" ++ (decimal_text d.sync_time ++ codes "}")) in
        let (y, small, c2) = >>=-eq-ok (assert_legacy_schedule_fits utf8 text) _ c1 in
        of_operation target _ (Commands.schedule d) w e4 (
          and-true (document_accepted d) (leb (length (utf8 text)) legacy_schedule_bytes)
            (parse_schedule_accepted json d a) (fits text small))

    firmware_update-Accepted :
        (target : LegacyDeviceTarget) (f : FirmwareUpdate) (w : LegacyWireCommand)
        → is_version_text f.version ≡ true
        → is_url f.url ≡ true
        → build_firmware_update_command utf8 parse_document target f ≡ ok w
        → Accepted w
    unfolding build_firmware_update_command input_accepted is_http_url is_lowercase_sha256 is_sha256
    firmware_update-Accepted target f w version url e =
        let (u, a, e1) =
          >>=-eq-ok (assert_wire_token utf8 parse_document (some 31) f.version) _ e in
        let (v, b, e2) = >>=-eq-ok (assert_integer_in_range f.size 100000 1900000) _ e1 in
        let (x, c, e3) =
          >>=-eq-ok (guard (is_http_url f.url && leb (length f.url) 240) type_error) _ e2 in
        let (y, d, e4) = >>=-eq-ok (guard (is_lowercase_sha256 f.sha256) type_error) _ e3 in
        let (z, g, e5) =
          >>=-eq-ok (assert_transition utf8 parse_document f.transition_seconds) _ e4 in
        let (http, short) =
          &&-eq-true (is_http_url f.url) (leb (length f.url) 240) (guard-eq-ok _ type_error c) in
        let (start, tail') = &&-eq-true (starts_with (codes "http://") f.url) _ http in
        let sha = guard-eq-ok _ type_error d in
        of_operation target _ (Commands.firmware_update f) w e5 (
          rw (version, url, short, start, in_range f.size 100000 1900000 b)
            (and-true _ _ sha (transition f.transition_seconds g)))

-- The request for a firmware update names a version and a URL as the schema of commands wants them.
abbrev pub FirmwareFits : (Text → Bool) → DeviceOperationRequest → Type 0
FirmwareFits is_url (firmware_update f) = (is_version_text f.version ≡ true) × (is_url f.url ≡ true)
FirmwareFits is_url _ = Unit {0}

-- When TextEncoder makes one byte of each ASCII character, every wire command that is built for a request is accepted
-- by the schema of commands, provided that a request for a firmware update names a version and a URL that it accepts.
pub build_legacy_wire_command_accepted :
    (utf8 : Text → List ℕ) (parse_document : Text → Option LegacyScheduleDocument)
    (is_url : Text → Bool) (target : LegacyDeviceTarget) (request : DeviceOperationRequest)
    (w : LegacyWireCommand)
    → ((t : Text) → every (λ c. leb c 127) t ≡ true → length (utf8 t) ≡ length t)
    → FirmwareFits is_url request
    → build_legacy_wire_command utf8 parse_document target request ≡ ok w
    → input_accepted utf8 is_url w.operation ≡ true
unfolding build_legacy_wire_command Accepted input_accepted
build_legacy_wire_command_accepted utf8 parse_document is_url target (set_pwm pin value overwrite) w
      ascii fits' e =
    set_pwm-Accepted utf8 parse_document is_url ascii target pin value overwrite w e
build_legacy_wire_command_accepted utf8 parse_document is_url target ping w ascii fits' e =
    of_operation utf8 parse_document is_url ascii target _ Commands.ping w e refl
build_legacy_wire_command_accepted utf8 parse_document is_url target
      (edit_configuration name hz bits) w ascii fits' e =
    edit_configuration-Accepted utf8 parse_document is_url ascii target name hz bits w e
build_legacy_wire_command_accepted utf8 parse_document is_url target (schedule json) w ascii fits'
      e =
    schedule-Accepted utf8 parse_document is_url ascii target json w e
build_legacy_wire_command_accepted utf8 parse_document is_url target (sync_time seconds) w ascii
      fits' e =
    sync_time-Accepted utf8 parse_document is_url ascii target seconds w e
build_legacy_wire_command_accepted utf8 parse_document is_url target (analog_read pin) w ascii fits'
      e =
    analog_read-Accepted utf8 parse_document is_url ascii target pin w e
build_legacy_wire_command_accepted utf8 parse_document is_url target release_startup_hold w ascii
      fits' e =
    of_operation utf8 parse_document is_url ascii target _ Commands.release_startup_hold w e refl
build_legacy_wire_command_accepted utf8 parse_document is_url target (firmware_update f) w ascii
      fits' e =
    firmware_update-Accepted utf8 parse_document is_url ascii target f w fits'.0 fits'.1 e
