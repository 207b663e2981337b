-- ===== src/Transport/Lanes/Safety.antt =====
-- About the lanes of the transport: their bounds, and when a queue is empty.
use aquarium_controller.Prelude.{
  ℕ, ◌≤◌, ◌<◌, ◌≡◌, refl, sym, ◌∙◌, true, false, not, List, [], ◌∷◌, Option, none, some, arith,
  if_elim, Text, ltb, lt→ltb, length,
}
use aquarium_controller.Transport.Lanes.{
  LegacyCommandPriority, interactive, background, QueuedDeviceOperation, new_lanes, includes_id,
  head_priority, are_empty, is_none_runnable, is_open, LaneEvent, run_lanes,
}
use aquarium_controller.Transport.Lanes.Queues.{occurs, one_of}
use aquarium_controller.Transport.Lanes.Events.{new_lanes-Kept, run_lanes-Kept}

-- After any events, as many lanes are taken as devices are active, no more than the maximum, and no device is
-- active twice.
pub run_lanes-bounds :
    (max : ℕ) (events : List LaneEvent) (d : Text)
    → let s = run_lanes max new_lanes events in
      (s.active_lane_count ≡ length s.active_device_ids)
      × (s.active_lane_count ≤ max)
      × (occurs d s.active_device_ids ≤ 1)
run_lanes-bounds max events d =
    let v = (run_lanes-Kept max events new_lanes (new_lanes-Kept max)).sound in
    (v.counted, v.bounded, v.once d)

no_priority :
    (p : Option LegacyCommandPriority)
    → one_of interactive p ≡ 0
    → one_of background p ≡ 0
    → p ≡ none
no_priority none a b = refl
no_priority (some interactive) a b = absurd (omega (arith, a))
no_priority (some background) a b = absurd (omega (arith, b))

no_head : (queue : List QueuedDeviceOperation) → head_priority queue ≡ none → queue ≡ []
no_head [] h = refl
no_head (op ∷ rest) h = absurd (cc)

empty_lists :
    (xs ys : List Text)
    → (not (are_empty xs ys)) ≡ false
    → (d : Text) → (occurs d xs ≡ 0) × (occurs d ys ≡ 0)
empty_lists [] [] h d = (refl, refl)
empty_lists (x ∷ xs) ys h d = absurd (cc)
empty_lists [] (y ∷ ys) h d = absurd (cc)

-- After any events, while the transport is started and ready, publishes no discovery and has a lane free, a device
-- that is not active has nothing in its queue.
pub run_lanes-idle :
    (max : ℕ) (events : List LaneEvent) (d : Text)
    → is_open (run_lanes max new_lanes events) ≡ true
    → (run_lanes max new_lanes events).active_lane_count < max
    → includes_id d (run_lanes max new_lanes events).active_device_ids ≡ false
    → (run_lanes max new_lanes events).device_queues d ≡ []
run_lanes-idle max events d on room off =
    let s = run_lanes max new_lanes events in
    let k = run_lanes-Kept max events new_lanes (new_lanes-Kept max) in
    let free : ltb s.active_lane_count max ≡ true = lt→ltb s.active_lane_count max room in
    let none' : not (is_none_runnable s) ≡ false = rw free at (k.done on).exhausted in
    let (i, b) = empty_lists s.runnable_interactive s.runnable_background none' d in
    let l = k.sound.ready.listed in
    let p =
      no_priority (s.runnable_priority d) (sym (l.of_interactive d) ∙ i)
        (sym (l.of_background d) ∙ b) in
    no_head (s.device_queues d) (
      if_elim
        (λ (x : Option LegacyCommandPriority). x ≡ none → head_priority (s.device_queues d) ≡ none)
        {t = includes_id d s.active_device_ids} {x = none} {y = head_priority (s.device_queues d)}
        (λ yes. absurd (cc)) (λ _ e. e) (sym (k.sound.ready.due d) ∙ p))
