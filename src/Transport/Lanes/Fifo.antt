-- ===== src/Transport/Lanes/Fifo.antt =====
-- About the lanes of the transport: what becomes of the operations of a device, in order.
use aquarium_controller.Prelude.{
  ℕ, zero, suc, ◌≡◌, refl, sym, ap, ◌∙◌, subst, inl, inr, true, false, not, ◌&&◌, List, [], ◌∷◌,
  ◌++◌, map, if◌then◌else◌, if_elim, Text, text_eq, text_eq_sound, ltb, Bool-cases,
}
use mathlib.Core.List.{append_assoc, append-nil, map-append}
use aquarium_controller.Transport.Lanes.{
  QueuedDeviceOperation, Fate, sent, unsent, Lanes, new_lanes, put, includes_id, take_from,
  take_next_runnable_device, send_first, send_next, has_work, is_none_runnable, is_open,
  schedule_runnable_device, pump_loop, pump_device_queues, enqueue_device_operation, release_lane,
  task_finished, reject_queued, LaneEvent, start_called, start_failed, reconnected, subscribed,
  subscription_failed, disconnected, stop_called, discovery_begun, discovery_ended, enqueued,
  finished, lane_step, run_lanes,
}
use aquarium_controller.Transport.Lanes.Runnable.{schedule_runnable_device-SameBut}

abbrev pub operation_of : Fate → QueuedDeviceOperation
operation_of (sent op) = op
operation_of (unsent op) = op

-- The operations of a device that have met their fate, and then those of its queue
abbrev pub account : Text → Lanes → List QueuedDeviceOperation
account d s = map operation_of (s.fates d) ++ s.device_queues d

-- Those that an event adds to the queue of the device
abbrev pub accepted_by : Text → Lanes → LaneEvent → List QueuedDeviceOperation
accepted_by d s (enqueued op) =
    if s.started && s.ready && text_eq op.target_id d then op ∷ [] else []
accepted_by d s _ = []

abbrev pub accepted : ℕ → Text → Lanes → List LaneEvent → List QueuedDeviceOperation
accepted max d s [] = []
accepted max d s (e ∷ rest) = accepted_by d s e ++ accepted max d (lane_step max e s) rest

account-send_first :
    (d id : Text) (queue : List QueuedDeviceOperation) (s : Lanes)
    → s.device_queues id ≡ queue
    → account d (send_first id queue s) ≡ account d s
account-send_first d id [] s e = elim (Bool-cases (text_eq id d)) [
  | inl same ↦
      let here : id ≡ d = text_eq_sound id d same in
      rw same (
        ap (λ (x : List QueuedDeviceOperation). map operation_of (s.fates d) ++ x)
          (sym (rw here at e)))
  | inr other ↦ rw other refl
]
account-send_first d id (op ∷ rest) s e = elim (Bool-cases (text_eq id d)) [
  | inl same ↦
      let here : id ≡ d = text_eq_sound id d same in
      let queue : s.device_queues d ≡ op ∷ rest = rw here at e in
      rw same (
        subst (λ (x : Text). map operation_of (s.fates x ++ (sent op ∷ [])) ++ rest ≡ account d s)
          (sym here)
          (ap (λ (x : List QueuedDeviceOperation). x ++ rest)
              (map-append operation_of (s.fates d) (sent op ∷ []))
            ∙ append_assoc (map operation_of (s.fates d)) (op ∷ []) rest
            ∙ ap (λ (x : List QueuedDeviceOperation). map operation_of (s.fates d) ++ x)
                (sym queue)))
  | inr other ↦ rw other refl
]

account-send_next :
    (d : Text) (xs ys : List Text) (s : Lanes)
    → account d (send_next (take_from xs ys s)) ≡ account d s
account-send_next d [] [] s = refl
account-send_next d (id ∷ rest) ys s =
    let next = (take_from (id ∷ rest) ys s).1 in
    if_elim (λ (x : Lanes). account d x ≡ account d s) {t = includes_id id s.active_device_ids}
      {x = next} {y = send_first id (s.device_queues id) next} (λ _. refl)
      (λ _. account-send_first d id (s.device_queues id) next refl)
account-send_next d [] (id ∷ rest) s =
    let next = (take_from [] (id ∷ rest) s).1 in
    if_elim (λ (x : Lanes). account d x ≡ account d s) {t = includes_id id s.active_device_ids}
      {x = next} {y = send_first id (s.device_queues id) next} (λ _. refl)
      (λ _. account-send_first d id (s.device_queues id) next refl)

account-pump_loop :
    (max fuel : ℕ) (d : Text) (s : Lanes) → account d (pump_loop max fuel s) ≡ account d s
unfolding pump_loop take_next_runnable_device
account-pump_loop max zero d s = refl
account-pump_loop max (suc fuel) d s =
    let after = send_next (take_from s.runnable_interactive s.runnable_background s) in
    if_elim (λ (x : Lanes). account d x ≡ account d s)
      {t = ltb s.active_lane_count max && not (is_none_runnable s)} {x = pump_loop max fuel after}
      {y = s}
      (λ _.
        account-pump_loop max fuel d after
        ∙ account-send_next d s.runnable_interactive s.runnable_background s)
      (λ _. refl)

account-pump_device_queues :
    (max : ℕ) (d : Text) (s : Lanes) → account d (pump_device_queues max s) ≡ account d s
unfolding pump_device_queues
account-pump_device_queues max d s =
    if_elim (λ (x : Lanes). account d x ≡ account d s) {t = is_open s} {y = s}
      (λ _. account-pump_loop max _ d s) (λ _. refl)

account-schedule_runnable_device :
    (d id : Text) (s : Lanes) → account d (schedule_runnable_device id s) ≡ account d s
account-schedule_runnable_device d id s =
    let k = schedule_runnable_device-SameBut id s in
    ap
      (λ (x : Text → List Fate).
        map operation_of (x d) ++ (schedule_runnable_device id s).device_queues d)
      k.fates
    ∙ ap (λ (x : Text → List QueuedDeviceOperation). map operation_of (s.fates d) ++ x d) k.queues

map-operation_of-unsent :
    (ops : List QueuedDeviceOperation) → map operation_of (map unsent ops) ≡ ops
map-operation_of-unsent [] = refl
map-operation_of-unsent (op ∷ rest) = ap (◌∷◌ op) (map-operation_of-unsent rest)

account-reject_queued : (d : Text) (s : Lanes) → account d (reject_queued s) ≡ account d s
unfolding reject_queued
account-reject_queued d s =
    append-nil (map operation_of (s.fates d ++ map unsent (s.device_queues d)))
    ∙ map-append operation_of (s.fates d) (map unsent (s.device_queues d))
    ∙ ap (λ (x : List QueuedDeviceOperation). map operation_of (s.fates d) ++ x)
        (map-operation_of-unsent (s.device_queues d))

account-enqueue_device_operation :
    (max : ℕ) (d : Text) (op : QueuedDeviceOperation) (s : Lanes)
    → account d (enqueue_device_operation max op s)
      ≡ account d s ++ (if text_eq op.target_id d then op ∷ [] else [])
unfolding enqueue_device_operation
account-enqueue_device_operation max d op s =
    let id = op.target_id in
    let next : Lanes = record s {
      device_queues = put id (s.device_queues id ++ (op ∷ [])) s.device_queues;
    } in
    account-pump_device_queues max d (schedule_runnable_device id next)
    ∙ account-schedule_runnable_device d id next
    ∙ elim (Bool-cases (text_eq id d)) [
      | inl same ↦
          let here : id ≡ d = text_eq_sound id d same in
          rw same (
            subst
              (λ (x : Text).
                map operation_of (s.fates d) ++ (s.device_queues x ++ (op ∷ []))
                ≡ account d s ++ (op ∷ []))
              (sym here)
              (sym (append_assoc (map operation_of (s.fates d)) (s.device_queues d) (op ∷ []))))
      | inr other ↦ rw other (sym (append-nil (account d s)))
    ]

account-task_finished :
    (max : ℕ) (d id : Text) (s : Lanes) → account d (task_finished max id s) ≡ account d s
unfolding task_finished
account-task_finished max d id s =
    let next = release_lane id s in
    account-pump_device_queues max d
      (if has_work (s.device_queues id) then schedule_runnable_device id next else next)
    ∙ if_elim (λ (x : Lanes). account d x ≡ account d s) {t = has_work (s.device_queues id)}
        {x = schedule_runnable_device id next} {y = next}
        (λ _. account-schedule_runnable_device d id next) (λ _. refl)

module _ (max : ℕ) (d : Text) where
  -- An event after which the account is that of a state with the same queues and fates
  abbrev Keeps : Lanes → Lanes → Type 0
  Keeps s t = account d t ≡ account d s ++ []

  keeps : (s t : Lanes) → account d t ≡ account d s → Keeps s t
  keeps s t e = e ∙ sym (append-nil (account d s))

  account-lane_step :
      (event : LaneEvent) (s : Lanes)
      → account d (lane_step max event s) ≡ account d s ++ accepted_by d s event
  unfolding lane_step
  account-lane_step start_called s = keeps s (lane_step max start_called s) (
      if_elim (λ (x : Lanes). account d x ≡ account d s) {t = s.started} {x = s} (λ _. refl)
        (λ _. refl))
  account-lane_step start_failed s = keeps s (record s { started = false }) refl
  account-lane_step reconnected s = keeps s (lane_step max reconnected s) (
      if_elim (λ (x : Lanes). account d x ≡ account d s) {t = s.ready} {y = s}
        (λ _. account-reject_queued d (record s { ready = false })) (λ _. refl))
  account-lane_step subscribed s = keeps s (lane_step max subscribed s) (
      if_elim (λ (x : Lanes). account d x ≡ account d s) {t = s.started} {y = s}
        (λ _. account-pump_device_queues max d (record s { ready = true })) (λ _. refl))
  account-lane_step subscription_failed s = keeps s (record s { ready = false }) refl
  account-lane_step disconnected s = keeps s (lane_step max disconnected s) (
      if_elim (λ (x : Lanes). account d x ≡ account d s) {t = s.started} {y = s}
        (λ _. account-reject_queued d (record s { ready = false })) (λ _. refl))
  account-lane_step stop_called s = keeps s (lane_step max stop_called s) (
      if_elim (λ (x : Lanes). account d x ≡ account d s) {t = s.started} {y = s}
        (λ _. account-reject_queued d (record s { started = false; ready = false })) (λ _. refl))
  account-lane_step discovery_begun s = keeps s (record s { discovery_publishing = true }) refl
  account-lane_step discovery_ended s =
      keeps s (lane_step max discovery_ended s)
        (account-pump_device_queues max d (record s { discovery_publishing = false }))
  account-lane_step (enqueued op) s = elim (Bool-cases (s.started && s.ready)) [
    | inl on ↦ rw on (account-enqueue_device_operation max d op s)
    | inr off ↦ rw off (sym (append-nil (account d s)))
  ]
  account-lane_step (finished id) s = keeps s (lane_step max (finished id) s) (
      if_elim (λ (x : Lanes). account d x ≡ account d s) {t = includes_id id s.active_device_ids}
        {y = s} (λ _. account-task_finished max d id s) (λ _. refl))

  account-run_lanes :
      (events : List LaneEvent) (s : Lanes)
      → account d (run_lanes max s events) ≡ account d s ++ accepted max d s events
  unfolding run_lanes
  account-run_lanes [] s = sym (append-nil (account d s))
  account-run_lanes (e ∷ rest) s =
      account-run_lanes rest (lane_step max e s)
      ∙ ap (λ (x : List QueuedDeviceOperation). x ++ accepted max d (lane_step max e s) rest)
          (account-lane_step e s)
      ∙ append_assoc (account d s) (accepted_by d s e) (accepted max d (lane_step max e s) rest)

-- After any events, the operations of a device that have been sent or refused, in the order of their fates, and
-- then those still in its queue are exactly the operations accepted for it, in the order of their acceptance.
pub run_lanes-fifo :
    (max : ℕ) (events : List LaneEvent) (d : Text)
    → account d (run_lanes max new_lanes events) ≡ accepted max d new_lanes events
run_lanes-fifo max events d = account-run_lanes max d events new_lanes
