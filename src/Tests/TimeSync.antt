-- ===== src/Tests/TimeSync.antt =====
-- The daily timer, and the syncs of a device that announces itself.
use aquarium_controller.Prelude.{◌≤◌, ◌≡◌, refl, List, [], ◌∷◌, codes, text_eq}
use aquarium_controller.Scheduling.Lane.{succeeded}
use aquarium_controller.Scheduling.Dispatch.{completed}
use aquarium_controller.Scheduling.TimeSync.{
  daily_delay, new_coordinator, SyncEvent, start_called, announced, ended, became_unavailable,
  run_sync, is_success,
}
use aquarium_controller.Scheduling.TimeSync.Announcements.{run_sync-bound}

daily_delay_at_four : daily_delay 100800000 ≡ 3600000
unfolding daily_delay
daily_delay_at_four = refl

-- A device announces itself twice, and again after it was away.
abbrev announcements : List SyncEvent
announcements =
    start_called
    ∷ announced 100800000 (codes "esp1")
    ∷ announced 100800500 (codes "esp1")
    ∷ ended (codes "esp1") (completed succeeded)
    ∷ announced 100801000 (codes "esp1")
    ∷ became_unavailable (codes "esp1")
    ∷ announced 100802000 (codes "esp1")
    ∷ []

run_sync-bound_example : (run_sync new_coordinator announcements).dispatches (codes "esp1") ≤ 2
unfolding text_eq is_success
run_sync-bound_example = run_sync-bound announcements (codes "esp1")

announcements_sent : (run_sync new_coordinator announcements).dispatches (codes "esp1") ≡ 2
unfolding run_sync text_eq
announcements_sent = refl
