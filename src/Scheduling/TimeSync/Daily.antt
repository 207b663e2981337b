-- ===== src/Scheduling/TimeSync/Daily.antt =====
-- About the time-sync coordinator: its daily timer.
use aquarium_controller.Prelude.{ℕ, ◌+◌, ◌%◌, ◌≤◌, ◌<◌, ◌≡◌, inl, inr, true, ltb, arith, Bool-cases}
use aquarium_controller.Scheduling.TimeSync.{
  utc_day_ms, daily_time_sync_offset_ms, utc_day_start_ms, daily_delay, is_daily_due,
}

-- The daily timer is armed for the next 05:00 UTC, at most a day away and never for now, and a cycle that starts when
-- it rings is due.
daily_delay_next :
    (epoch_ms : ℕ)
    → (0 < daily_delay epoch_ms)
      × (daily_delay epoch_ms ≤ utc_day_ms)
      × ((epoch_ms + daily_delay epoch_ms) % utc_day_ms ≡ daily_time_sync_offset_ms)
      × (is_daily_due (epoch_ms + daily_delay epoch_ms) ≡ true)
unfolding daily_delay is_daily_due utc_day_start_ms
daily_delay_next epoch_ms =
    elim (Bool-cases (ltb epoch_ms (utc_day_start_ms epoch_ms + daily_time_sync_offset_ms))) [
      | inl early ↦ rw early (ground arith, ground arith, ground arith, ground arith)
      | inr late ↦ rw late (ground arith, ground arith, ground arith, ground arith)
    ]
