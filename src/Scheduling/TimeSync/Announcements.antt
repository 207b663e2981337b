-- ===== src/Scheduling/TimeSync/Announcements.antt =====
-- About the time-sync coordinator: the syncs that announcements ask for.
use aquarium_controller.Prelude.{
  ℕ, ◌+◌, ◌≤◌, ◌≡◌, refl, ap, inl, inr, true, false, not, ◌&&◌, ◌||◌, List, [], ◌∷◌, if◌then◌else◌,
  if_elim, Text, text_eq, text_eq_sound, arith, Bool-cases,
}
use aquarium_controller.Scheduling.Dispatch.{DispatchEnd, completed, blocked, rejected}
use aquarium_controller.Scheduling.TimeSync.{
  Coordinator, new_coordinator, epoch_accepted, mark, fail, signal_announcement, is_success,
  after_dispatch, announcement_ended, signal_device_unavailable, daily_sync_succeeded, start, stop,
  stop_ended, SyncEvent, start_called, stop_called, stop_waited, daily_failed, daily_succeeded,
  announced, ended, became_unavailable, sync_step, run_sync,
}

-- Does an event end a sync of the device, or make the device unavailable?
abbrev pub reopens : Text → SyncEvent → ℕ
reopens d (ended device_id e) = if text_eq device_id d && not (is_success e) then 1 else 0
reopens d (became_unavailable device_id) = if text_eq device_id d then 1 else 0
reopens d _ = 0

abbrev pub reopened : Text → List SyncEvent → ℕ
reopened d [] = 0
reopened d (e ∷ rest) = reopens d e + reopened d rest

-- The dispatches for a device, and one more if it may have another one
abbrev due : Text → Coordinator → ℕ
due d s = s.dispatches d + (if s.tasks d || s.synced d then 0 else 1)

fail-due : (d : Text) (s : Coordinator) → due d (fail s) ≡ due d s
unfolding fail
fail-due d s = refl

after_dispatch-due :
    (d : Text) (e : DispatchEnd) (s : Coordinator) → due d (after_dispatch e s) ≡ due d s
after_dispatch-due d rejected s = fail-due d s
after_dispatch-due d (completed status) s = refl
after_dispatch-due d blocked s = refl

signal_announcement-due :
    (epoch_ms : ℕ) (device_id d : Text) (s : Coordinator)
    → due d (signal_announcement epoch_ms device_id s) ≤ due d s
unfolding signal_announcement
signal_announcement-due epoch_ms device_id d s =
    if_elim (λ (x : Coordinator). due d x ≤ due d s) {t = not s.started || not s.accepting} {x = s}
      (λ _. omega arith)
      (λ _.
        if_elim (λ (x : Coordinator). due d x ≤ due d s) {t = s.synced device_id} {x = s}
          (λ _. omega arith)
          (λ fresh.
            if_elim (λ (x : Coordinator). due d x ≤ due d s) {t = s.tasks device_id} {x = s}
              (λ _. omega arith)
              (λ idle.
                if_elim (λ (x : Coordinator). due d x ≤ due d s) {t = epoch_accepted epoch_ms}
                  {y = s}
                  (λ _. elim (Bool-cases (text_eq device_id d)) [
                    | inl same ↦
                        let here : device_id ≡ d = text_eq_sound device_id d same in
                        let fresh' : s.synced d ≡ false = rw here at fresh in
                        let idle' : s.tasks d ≡ false = rw here at idle in
                        let count' : s.dispatches device_id ≡ s.dispatches d =
                          ap s.dispatches here in
                        rw (same, fresh', idle', count') (omega arith)
                    | inr other ↦ rw other (omega arith)
                  ])
                  (λ _. omega arith))))

announcement_ended-due :
    (device_id : Text) (e : DispatchEnd) (d : Text) (s : Coordinator)
    → due d (announcement_ended device_id e s) ≤ due d s + reopens d (ended device_id e)
unfolding announcement_ended fail is_success
announcement_ended-due device_id e d s =
    if_elim (λ (x : Coordinator). due d x ≤ due d s + reopens d (ended device_id e))
      {t = s.tasks device_id} {y = s}
      (λ on.
        let next : Coordinator = record s {
          synced = if is_success e then mark device_id true s.synced else s.synced;
          tasks = mark device_id false s.tasks;
        } in
        let kept : due d (after_dispatch e next) ≡ due d next = after_dispatch-due d e next in
        let small : due d next ≤ due d s + reopens d (ended device_id e) =
          elim (Bool-cases (text_eq device_id d)) [
            | inl same ↦
                let here : device_id ≡ d = text_eq_sound device_id d same in
                let on' : s.tasks d ≡ true = rw here at on in
                elim (Bool-cases (is_success e)) [
                  | inl good ↦ rw (same, good, on') (ground (arith, same))
                  | inr bad ↦
                      rw (same, bad, on')
                        (if_elim (λ (n : ℕ). s.dispatches d + n ≤ s.dispatches d + 0 + 1)
                          {t = s.synced d} {x = 0} {y = 1} (λ _. omega arith) (λ _. omega arith))
                ]
            | inr other ↦ elim (Bool-cases (is_success e)) [
              | inl good ↦ rw (other, good) (ground (arith, other))
              | inr bad ↦ rw (other, bad) (omega arith)
            ]
          ] in
        rw kept small)
      (λ _. omega arith)

sync_step-due :
    (e : SyncEvent) (d : Text) (s : Coordinator) → due d (sync_step e s) ≤ due d s + reopens d e
unfolding sync_step start stop stop_ended fail daily_sync_succeeded signal_device_unavailable
sync_step-due start_called d s =
    if_elim (λ (x : Coordinator). due d x ≤ due d s + 0) {t = s.started || s.stopping} {x = s}
      (λ _. omega arith) (λ _. omega arith)
sync_step-due stop_called d s =
    if_elim (λ (x : Coordinator). due d x ≤ due d s + 0) {t = not s.started && not s.stopping}
      {x = s} (λ _. omega arith) (λ _. omega arith)
sync_step-due stop_waited d s =
    if_elim (λ (x : Coordinator). due d x ≤ due d s + 0) {t = s.stopping} {y = s} (λ _. omega arith)
      (λ _. omega arith)
sync_step-due daily_failed d s = omega arith
sync_step-due (daily_succeeded device_id) d s = elim (Bool-cases (text_eq device_id d)) [
  | inl same ↦ rw same (ground arith)
  | inr other ↦ rw other (omega arith)
]
sync_step-due (announced epoch_ms device_id) d s =
    omega (arith, signal_announcement-due epoch_ms device_id d s)
sync_step-due (ended device_id e) d s = announcement_ended-due device_id e d s
sync_step-due (became_unavailable device_id) d s = elim (Bool-cases (text_eq device_id d)) [
  | inl same ↦ rw same (ground arith)
  | inr other ↦ rw other (omega arith)
]

run_sync-due :
    (events : List SyncEvent) (d : Text) (s : Coordinator)
    → due d (run_sync s events) ≤ due d s + reopened d events
unfolding run_sync
run_sync-due [] d s = omega arith
run_sync-due (e ∷ rest) d s =
    omega (arith, run_sync-due rest d (sync_step e s), sync_step-due e d s)

-- After any events, a device has been sent a sync for an announcement at most once, and once more for each of its syncs
-- that ended without success and each time that it became unavailable.
pub run_sync-bound :
    (events : List SyncEvent) (d : Text)
    → (run_sync new_coordinator events).dispatches d ≤ 1 + reopened d events
run_sync-bound events d = omega (arith, run_sync-due events d new_coordinator)
