-- ===== src/Scheduling/Overlay/Loops.antt =====
-- About applyManualOverrideOverlays: its loops, and the list that they build.
use aquarium_controller.Prelude.{
  ◌≡◌, refl, ◌&&◌, List, [], ◌∷◌, ◌++◌, map, arith, if◌then◌else◌, Text,
}
use mathlib.Core.List.{map-append}
use aquarium_controller.Prelude.Result.{ok, throw, type_error}
use aquarium_controller.Scheduling.Overlay.Distinct.{fresh}
use aquarium_controller.Scheduling.Overlay.{
  ScheduledOutputRefreshCommand, EffectiveOutputRefreshCommand, ManualOverrideOverlayOutput,
  mapping_key, pin_key, command_key, effective_pin_key, check_overlays, of_overlay, effective,
  scheduled_loop, unscheduled, append_loop, apply_manual_override_overlays,
}

abbrev pub push_all : List Text → List Text → List Text
push_all seen [] = seen
push_all seen (k ∷ rest) = push_all (k ∷ seen) rest

fresh-append :
    (seen xs ys : List Text)
    → fresh seen (xs ++ ys) ≡ (fresh seen xs && fresh (push_all seen xs) ys)
unfolding fresh
fresh-append seen [] ys = refl
fresh-append seen (k ∷ rest) ys = ground (arith, fresh-append (k ∷ seen) rest ys)

check_overlays_lem :
    (m p : List Text) (os : List ManualOverrideOverlayOutput)
    → check_overlays m p os ≡ (
        if fresh m (map mapping_key os) && fresh p (map pin_key os)
        then ok tt
        else throw type_error)
unfolding check_overlays fresh
check_overlays_lem m p [] = refl
check_overlays_lem m p (o ∷ rest) =
    ground (arith, check_overlays_lem (mapping_key o ∷ m) (pin_key o ∷ p) rest)

scheduled_loop_lem :
    (os : List ManualOverrideOverlayOutput) (m p : List Text)
    (cs : List ScheduledOutputRefreshCommand)
    → let es = map (effective os) cs in
      scheduled_loop os m p cs ≡ (
        if fresh m (map command_key cs) && fresh p (map effective_pin_key es)
        then ok (push_all p (map effective_pin_key es), es)
        else throw type_error)
unfolding scheduled_loop fresh
scheduled_loop_lem os m p [] = refl
scheduled_loop_lem os m p (c ∷ rest) =
    ground (
      arith,
      scheduled_loop_lem os (command_key c ∷ m) (effective_pin_key (effective os c) ∷ p) rest,
    )

append_loop_lem :
    (p : List Text) (os : List ManualOverrideOverlayOutput)
    → append_loop p os ≡ (
        if fresh p (map effective_pin_key (map of_overlay os))
        then ok (map of_overlay os)
        else throw type_error)
unfolding append_loop fresh
append_loop_lem p [] = refl
append_loop_lem p (o ∷ rest) = ground (arith, append_loop_lem (pin_key o ∷ p) rest)

module _ (sort : List ManualOverrideOverlayOutput → List ManualOverrideOverlayOutput) where
  -- The list that the loops build, by their keys
  unfoldable pub by_keys :
      List ScheduledOutputRefreshCommand
      → List ManualOverrideOverlayOutput
      → List EffectiveOutputRefreshCommand
  by_keys scheduled overlays =
      map (effective overlays) scheduled
      ++ map of_overlay (sort (unscheduled (map command_key scheduled) overlays))

  pub loops_lem :
      (scheduled : List ScheduledOutputRefreshCommand) (overlays : List ManualOverrideOverlayOutput)
      → apply_manual_override_overlays sort scheduled overlays ≡ (
          if fresh [] (map mapping_key overlays)
            && (fresh [] (map pin_key overlays)
                && (fresh [] (map command_key scheduled)
                    && fresh [] (map effective_pin_key (by_keys scheduled overlays))))
          then ok (by_keys scheduled overlays)
          else throw type_error)
  unfolding apply_manual_override_overlays by_keys
  loops_lem scheduled overlays =
      let es = map (effective overlays) scheduled in
      let later = sort (unscheduled (map command_key scheduled) overlays) in
      rw
        (
          check_overlays_lem [] [] overlays,
          scheduled_loop_lem overlays [] [] scheduled,
          map-append effective_pin_key es (map of_overlay later),
          fresh-append [] (map effective_pin_key es) (map effective_pin_key (map of_overlay later)),
        )
        (ground (arith, append_loop_lem (push_all [] (map effective_pin_key es)) later))
