-- ===== src/Tests/Timing.antt =====
-- The scheduler of output refreshes, and the overlays.
use aquarium_controller.Prelude.{
  ℕ, suc, ◌-◌, ◌*◌, ◌≤◌, ◌≡◌, ◌⊎◌, refl, true, false, List, [], ◌∷◌, none, some, arith, codes,
  text_eq,
}
use aquarium_controller.Prelude.Result.{ok, throw, range_error}
use aquarium_controller.Scheduling.Cadence.{
  Scheduler, initial, run, started_up, timer_rang, refresh_asked, is_armed, is_ready,
  request_refresh,
}
use aquarium_controller.Scheduling.Cadence.Armed.{run-armed, request_refresh_regressed}
use aquarium_controller.Scheduling.Overlay.{
  ScheduledOutputRefreshCommand, ManualOverrideOverlayOutput, apply_manual_override_overlays,
}
use aquarium_controller.Scheduling.Overlay.Reference.{
  reference, in_place, additional, overlay_at, scheduled_at, overriding, overridden,
  apply_manual_override_overlays_lem,
}

-- A clock that is read each 100 milliseconds
abbrev steady : ℕ → ℕ
steady k = k * 100

steady_ahead : (k : ℕ) → steady k ≤ steady (suc k)
steady_ahead k = omega arith

run-armed_example :
    let s = run steady initial (started_up ∷ refresh_asked ∷ timer_rang ∷ []) in
    (is_ready s ≡ true)
    × (((s.active_tick ≡ true) × (is_armed s.timer ≡ false))
        ⊎ ((s.active_tick ≡ false) × (is_armed s.timer ≡ true)))
    × (is_armed s.next_deadline_ms ≡ true)
run-armed_example =
    run-armed steady steady_ahead (started_up ∷ refresh_asked ∷ timer_rang ∷ [])
      (unfold run in refl) (unfold run in refl)

-- Started, with a timer for 5,100, and last read at 100
abbrev waiting : Scheduler
waiting = record initial {
  started = true;
  next_deadline_ms = some 5100;
  timer = some 5000;
  last_monotonic_ms = some 100;
  reads = 2;
}

abbrev falling : ℕ → ℕ
falling k = 100 - k

request_refresh_regressed_example :
    let (r, t) = request_refresh falling waiting in
    (r ≡ throw range_error) × (is_ready t ≡ true) × (t.active_tick ≡ false) × (t.timer ≡ none)
request_refresh_regressed_example =
    request_refresh_regressed falling waiting 100 (unfold is_ready in refl) refl refl (omega arith)

abbrev scheduled : List ScheduledOutputRefreshCommand
scheduled =
    record {
      device_id = codes "tank-1";
      mapping_id = codes "lamp";
      pin = 16;
      value = 40;
      overwrite = false;
    }
    ∷ record {
      device_id = codes "tank-1";
      mapping_id = codes "pump";
      pin = 17;
      value = 0;
      overwrite = false;
    }
    ∷ []

abbrev overlays : List ManualOverrideOverlayOutput
overlays =
    record {
      device_id = codes "tank-1";
      mapping_id = codes "pump";
      pin = 18;
      value = 255;
      override_id = codes "o1";
    }
    ∷ record {
      device_id = codes "tank-2";
      mapping_id = codes "lamp";
      pin = 16;
      value = 10;
      override_id = codes "o2";
    }
    ∷ []

apply_manual_override_overlays_example :
    apply_manual_override_overlays (λ os. os) scheduled overlays
    ≡ ok (
        record {
          device_id = codes "tank-1";
          mapping_id = codes "lamp";
          pin = 16;
          value = 40;
          overwrite = false;
          override_id = none;
        }
        ∷ record {
          device_id = codes "tank-1";
          mapping_id = codes "pump";
          pin = 18;
          value = 255;
          overwrite = true;
          override_id = some (codes "o1");
        }
        ∷ record {
          device_id = codes "tank-2";
          mapping_id = codes "lamp";
          pin = 16;
          value = 10;
          overwrite = true;
          override_id = some (codes "o2");
        }
        ∷ [])
unfolding text_eq reference in_place additional overlay_at scheduled_at overriding overridden
apply_manual_override_overlays_example =
    apply_manual_override_overlays_lem (λ os. os) scheduled overlays refl refl
