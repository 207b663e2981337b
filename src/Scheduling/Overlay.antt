-- ===== src/Scheduling/Overlay.antt =====
-- apps/controller/src/application/overrides/manual-override-overlay.ts: what is sent in place of the
-- schedule while manual overrides are active. Array.prototype.sort, with its comparison of texts by the
-- locale, is a parameter.
pub mod Distinct
pub mod Keys
pub mod Loops
pub mod Reference
use aquarium_controller.Prelude.{
  ℕ, Bool, true, false, not, ◌&&◌, ◌||◌, List, [], ◌∷◌, ◌++◌, map, Option, none, some,
  if◌then◌else◌, Text, text_eq,
}
use aquarium_controller.Prelude.Result.{Result, ok, throw, type_error, ◌>>=◌, ◌>>◌}
use aquarium_controller.Protocol.ScheduleDocument.{decimal_text}

pub record ScheduledOutputRefreshCommand : Type 0 where
  pub device_id : Text
  pub mapping_id : Text
  pub pin : ℕ
  pub value : ℕ
  pub overwrite : Bool

pub record EffectiveOutputRefreshCommand : Type 0 where
  pub device_id : Text
  pub mapping_id : Text
  pub pin : ℕ
  pub value : ℕ
  pub overwrite : Bool
  pub override_id : Option Text

pub record ManualOverrideOverlayOutput : Type 0 where
  pub device_id : Text
  pub mapping_id : Text
  pub pin : ℕ
  pub value : ℕ
  pub override_id : Text

-- `${deviceId}\0${value}`
unfoldable pub key : Text → Text → Text
key device_id value = device_id ++ (0 ∷ value)

abbrev pub mapping_key : ManualOverrideOverlayOutput → Text
mapping_key o = key o.device_id o.mapping_id

abbrev pub pin_key : ManualOverrideOverlayOutput → Text
pin_key o = key o.device_id (decimal_text o.pin)

abbrev pub command_key : ScheduledOutputRefreshCommand → Text
command_key c = key c.device_id c.mapping_id

abbrev pub effective_pin_key : EffectiveOutputRefreshCommand → Text
effective_pin_key c = key c.device_id (decimal_text c.pin)

-- Set.has
unfoldable pub has : List Text → Text → Bool
has [] k = false
has (x ∷ rest) k = text_eq x k || has rest k

-- The first loop: overlays may not share a mapping or a pin.
check_overlays : List Text → List Text → List ManualOverrideOverlayOutput → Result (Unit {0})
check_overlays mappings pins [] = ok tt
check_overlays mappings pins (o ∷ rest) =
    let others = check_overlays (mapping_key o ∷ mappings) (pin_key o ∷ pins) rest in
    if has mappings (mapping_key o) || has pins (pin_key o) then throw type_error else others

-- overlayByMapping.get
unfoldable pub overlay_by_mapping :
    List ManualOverrideOverlayOutput → Text → Option ManualOverrideOverlayOutput
overlay_by_mapping [] k = none
overlay_by_mapping (o ∷ rest) k =
    if text_eq (mapping_key o) k then some o else overlay_by_mapping rest k

abbrev pub of_overlay : ManualOverrideOverlayOutput → EffectiveOutputRefreshCommand
of_overlay o = record {
  device_id = o.device_id;
  mapping_id = o.mapping_id;
  pin = o.pin;
  value = o.value;
  overwrite = true;
  override_id = some o.override_id;
}

abbrev pub of_schedule : ScheduledOutputRefreshCommand → EffectiveOutputRefreshCommand
of_schedule c = record {
  device_id = c.device_id;
  mapping_id = c.mapping_id;
  pin = c.pin;
  value = c.value;
  overwrite = c.overwrite;
  override_id = none;
}

abbrev replaced :
    Option ManualOverrideOverlayOutput
    → ScheduledOutputRefreshCommand
    → EffectiveOutputRefreshCommand
replaced none c = of_schedule c
replaced (some o) c = of_overlay o

unfoldable pub effective :
    List ManualOverrideOverlayOutput → ScheduledOutputRefreshCommand → EffectiveOutputRefreshCommand
unfolding overlay_by_mapping
effective overlays c = replaced (overlay_by_mapping overlays (command_key c)) c

-- The loop over the scheduled commands. It leaves the pins and the commands.
scheduled_loop :
    List ManualOverrideOverlayOutput
    → List Text
    → List Text
    → List ScheduledOutputRefreshCommand
    → Result (List Text × List EffectiveOutputRefreshCommand)
scheduled_loop overlays mappings pins [] = ok (pins, [])
scheduled_loop overlays mappings pins (c ∷ rest) =
    let e = effective overlays c in
    let others =
      scheduled_loop overlays (command_key c ∷ mappings) (effective_pin_key e ∷ pins) rest in
    if has mappings (command_key c)
    then throw type_error
    else if has pins (effective_pin_key e)
    then throw type_error
    else (do (after, commands) ← others; ok (after, e ∷ commands))

-- overlays.filter(…)
unfoldable pub unscheduled :
    List Text → List ManualOverrideOverlayOutput → List ManualOverrideOverlayOutput
unscheduled mappings [] = []
unscheduled mappings (o ∷ rest) =
    let others = unscheduled mappings rest in
    if has mappings (mapping_key o) then others else o ∷ others

append_loop :
    List Text → List ManualOverrideOverlayOutput → Result (List EffectiveOutputRefreshCommand)
append_loop pins [] = ok []
append_loop pins (o ∷ rest) =
    let others = append_loop (pin_key o ∷ pins) rest in
    if has pins (pin_key o)
    then throw type_error
    else (do commands ← others; ok (of_overlay o ∷ commands))

module _ (sort : List ManualOverrideOverlayOutput → List ManualOverrideOverlayOutput) where
  unfoldable pub apply_manual_override_overlays :
      List ScheduledOutputRefreshCommand
      → List ManualOverrideOverlayOutput
      → Result (List EffectiveOutputRefreshCommand)
  unfolding check_overlays scheduled_loop append_loop
  apply_manual_override_overlays scheduled overlays = do
    check_overlays [] [] overlays
    (pins, commands) ← scheduled_loop overlays [] [] scheduled
    appended ← append_loop pins (sort (unscheduled (map command_key scheduled) overlays))
    ok (commands ++ appended)
