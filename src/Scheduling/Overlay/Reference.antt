-- ===== src/Scheduling/Overlay/Reference.antt =====
-- About applyManualOverrideOverlays: the list that it is for, by the device and the mapping of each command.
use aquarium_controller.Prelude.{
  ◌≡◌, refl, ap, Bool, true, false, ◌&&◌, ◌||◌, Option, none, some, text_eq, List, [], ◌∷◌, ◌++◌,
  map, arith, if◌then◌else◌, Text,
}
use aquarium_controller.Scheduling.Overlay.Loops.{by_keys, loops_lem}
use aquarium_controller.Prelude.Result.{ok, throw, type_error}
use aquarium_controller.Scheduling.Overlay.Keys.{no_zero, text_eq-key}
use aquarium_controller.Scheduling.Overlay.Distinct.{
  all_distinct, all_no_zero, same_mapping, same_pin, fresh-mapping, fresh-pin,
}
use aquarium_controller.Scheduling.Overlay.{
  replaced, overlay_by_mapping, key, ScheduledOutputRefreshCommand, EffectiveOutputRefreshCommand,
  ManualOverrideOverlayOutput, command_key, has, of_overlay, effective, unscheduled,
  apply_manual_override_overlays,
}

-- The overlay that has the device and the mapping
unfoldable pub overlay_at :
    Text → Text → List ManualOverrideOverlayOutput → Option ManualOverrideOverlayOutput
overlay_at device mapping [] = none
overlay_at device mapping (o ∷ rest) =
    let later = overlay_at device mapping rest in
    if text_eq o.device_id device && text_eq o.mapping_id mapping then some o else later

-- Is the mapping of the device scheduled?
unfoldable pub scheduled_at : Text → Text → List ScheduledOutputRefreshCommand → Bool
scheduled_at device mapping [] = false
scheduled_at device mapping (c ∷ rest) =
    (text_eq c.device_id device && text_eq c.mapping_id mapping) || scheduled_at device mapping rest

-- The command with the values of an overlay, marked as such
unfoldable pub overriding : ManualOverrideOverlayOutput → EffectiveOutputRefreshCommand
overriding o = record {
  device_id = o.device_id;
  mapping_id = o.mapping_id;
  pin = o.pin;
  value = o.value;
  overwrite = true;
  override_id = some o.override_id;
}

unfoldable pub overridden :
    Option ManualOverrideOverlayOutput
    → ScheduledOutputRefreshCommand
    → EffectiveOutputRefreshCommand
overridden (some o) c = overriding o
overridden none c = record {
  device_id = c.device_id;
  mapping_id = c.mapping_id;
  pin = c.pin;
  value = c.value;
  overwrite = c.overwrite;
  override_id = none;
}

-- Each scheduled command, or the overlay of its device and mapping in its place
unfoldable pub in_place :
    List ManualOverrideOverlayOutput
    → List ScheduledOutputRefreshCommand
    → List EffectiveOutputRefreshCommand
in_place overlays [] = []
in_place overlays (c ∷ rest) =
    overridden (overlay_at c.device_id c.mapping_id overlays) c ∷ in_place overlays rest

-- The overlays of mappings that are not scheduled
unfoldable pub additional :
    List ScheduledOutputRefreshCommand
    → List ManualOverrideOverlayOutput
    → List ManualOverrideOverlayOutput
additional scheduled [] = []
additional scheduled (o ∷ rest) =
    let others = additional scheduled rest in
    if scheduled_at o.device_id o.mapping_id scheduled then others else o ∷ others

abbrev overlay_ids : List ManualOverrideOverlayOutput → Bool
overlay_ids overlays = all_no_zero (λ (o : ManualOverrideOverlayOutput). o.mapping_id) overlays

abbrev scheduled_ids : List ScheduledOutputRefreshCommand → Bool
scheduled_ids scheduled =
    all_no_zero (λ (c : ScheduledOutputRefreshCommand). c.mapping_id) scheduled

overlay_by_mapping-overlay_at :
    (device mapping : Text) (overlays : List ManualOverrideOverlayOutput)
    → no_zero mapping ≡ true
    → overlay_ids overlays ≡ true
    → overlay_by_mapping overlays (key device mapping) ≡ overlay_at device mapping overlays
unfolding overlay_by_mapping overlay_at
overlay_by_mapping-overlay_at device mapping [] m h = refl
overlay_by_mapping-overlay_at device mapping (o ∷ rest) m h = ground (
  arith,
  text_eq-key o.device_id device o.mapping_id mapping,
  overlay_by_mapping-overlay_at device mapping rest,
)

replaced-overridden :
    (o : Option ManualOverrideOverlayOutput) (c : ScheduledOutputRefreshCommand)
    → replaced o c ≡ overridden o c
unfolding overridden overriding
replaced-overridden none c = refl
replaced-overridden (some o) c = refl

map-effective :
    (overlays : List ManualOverrideOverlayOutput) (scheduled : List ScheduledOutputRefreshCommand)
    → overlay_ids overlays ≡ true
    → scheduled_ids scheduled ≡ true
    → map (effective overlays) scheduled ≡ in_place overlays scheduled
unfolding effective in_place
map-effective overlays [] h hs = refl
map-effective overlays (c ∷ rest) h hs =
    rw
      (
        overlay_by_mapping-overlay_at c.device_id c.mapping_id overlays (ground arith) h,
        replaced-overridden (overlay_at c.device_id c.mapping_id overlays) c,
        map-effective overlays rest h (ground arith),
      )
      refl

has-scheduled_at :
    (device mapping : Text) (scheduled : List ScheduledOutputRefreshCommand)
    → no_zero mapping ≡ true
    → scheduled_ids scheduled ≡ true
    → has (map command_key scheduled) (key device mapping) ≡ scheduled_at device mapping scheduled
unfolding has scheduled_at
has-scheduled_at device mapping [] m h = refl
has-scheduled_at device mapping (c ∷ rest) m h = ground (
  arith,
  text_eq-key c.device_id device c.mapping_id mapping,
  has-scheduled_at device mapping rest,
)

unscheduled-additional :
    (scheduled : List ScheduledOutputRefreshCommand) (overlays : List ManualOverrideOverlayOutput)
    → scheduled_ids scheduled ≡ true
    → overlay_ids overlays ≡ true
    → unscheduled (map command_key scheduled) overlays ≡ additional scheduled overlays
unfolding unscheduled additional
unscheduled-additional scheduled [] h hs = refl
unscheduled-additional scheduled (o ∷ rest) h hs = ground (
  arith,
  has-scheduled_at o.device_id o.mapping_id scheduled,
  unscheduled-additional scheduled rest,
)

map-of_overlay :
    (overlays : List ManualOverrideOverlayOutput)
    → map of_overlay overlays ≡ map overriding overlays
unfolding overriding
map-of_overlay [] = refl
map-of_overlay (o ∷ rest) = ap (◌∷◌ (of_overlay o)) (map-of_overlay rest)

module _ (sort : List ManualOverrideOverlayOutput → List ManualOverrideOverlayOutput) where
  -- What is to be sent: each scheduled command, or the overlay of its device and mapping in its place;
  -- then, sorted, the overlays of mappings that are not scheduled.
  unfoldable pub reference :
      List ScheduledOutputRefreshCommand
      → List ManualOverrideOverlayOutput
      → List EffectiveOutputRefreshCommand
  reference scheduled overlays =
      in_place overlays scheduled ++ map overriding (sort (additional scheduled overlays))

  by_keys-reference :
      (scheduled : List ScheduledOutputRefreshCommand) (overlays : List ManualOverrideOverlayOutput)
      → scheduled_ids scheduled ≡ true
      → overlay_ids overlays ≡ true
      → by_keys sort scheduled overlays ≡ reference scheduled overlays
  unfolding by_keys reference
  by_keys-reference scheduled overlays h hs =
      rw
        (
          map-effective overlays scheduled hs h,
          unscheduled-additional scheduled overlays h hs,
          map-of_overlay (sort (additional scheduled overlays)),
        )
        refl

  -- If no mapping id has a unit 0 in it, `applyManualOverrideOverlays` returns the reference list (each
  -- scheduled command with no override id, or its overlay in its place, then the other overlays as sorted,
  -- each overlay with overwrite and its override id) if no two overlays share a device and mapping, or a
  -- device and pin, no two scheduled commands share a device and mapping, and no two commands of the list
  -- share a device and pin; else it throws a TypeError.
  pub apply_manual_override_overlays_lem :
      (scheduled : List ScheduledOutputRefreshCommand) (overlays : List ManualOverrideOverlayOutput)
      → all_no_zero (λ (c : ScheduledOutputRefreshCommand). c.mapping_id) scheduled ≡ true
      → all_no_zero (λ (o : ManualOverrideOverlayOutput). o.mapping_id) overlays ≡ true
      → apply_manual_override_overlays sort scheduled overlays ≡ (
          if all_distinct
              (same_mapping (λ (o : ManualOverrideOverlayOutput). o.device_id) (λ o. o.mapping_id))
              overlays
            && (all_distinct
                  (same_pin (λ (o : ManualOverrideOverlayOutput). o.device_id) (λ o. o.pin))
                  overlays
                && (all_distinct
                      (same_mapping
                        (λ (c : ScheduledOutputRefreshCommand). c.device_id)
                        (λ c. c.mapping_id))
                      scheduled
                    && all_distinct
                        (same_pin (λ (e : EffectiveOutputRefreshCommand). e.device_id) (λ e. e.pin))
                        (reference scheduled overlays)))
          then ok (reference scheduled overlays)
          else throw type_error)
  apply_manual_override_overlays_lem scheduled overlays h hs =
      rw
        (
          loops_lem sort scheduled overlays,
          by_keys-reference scheduled overlays h hs,
          fresh-mapping (λ (o : ManualOverrideOverlayOutput). o.device_id) (λ o. o.mapping_id)
              overlays hs,
          fresh-pin (λ (o : ManualOverrideOverlayOutput). o.device_id) (λ o. o.pin) overlays,
          fresh-mapping (λ (c : ScheduledOutputRefreshCommand). c.device_id) (λ c. c.mapping_id)
              scheduled h,
          fresh-pin (λ (e : EffectiveOutputRefreshCommand). e.device_id) (λ e. e.pin)
              (reference scheduled overlays),
        )
        refl
