-- ===== src/Transport/Lanes/Events.antt =====
-- About the lanes of the transport: what each event keeps.
use aquarium_controller.Prelude.{
  ℕ, suc, ◌≤◌, ◌≡◌, refl, sym, ap, ◌∙◌, subst, inl, inr, Bool, true, false, not, ◌&&◌, List, [],
  ◌∷◌, ◌++◌, Option, none, arith, if◌then◌else◌, if_elim, Text, text_eq, text_eq_sound,
  text_eq_refl, ltb, length, Bool-cases,
}
use aquarium_controller.Transport.Lanes.{
  LegacyCommandPriority, QueuedDeviceOperation, Lanes, new_lanes, put, includes_id,
  remove_array_value, head_priority, has_work, is_open, schedule_runnable_device,
  pump_device_queues, enqueue_device_operation, release_lane, task_finished, reject_queued,
  LaneEvent, start_called, start_failed, reconnected, subscribed, subscription_failed, disconnected,
  stop_called, discovery_begun, discovery_ended, enqueued, finished, lane_step, run_lanes,
}
use aquarium_controller.Transport.Lanes.Queues.{
  occurs, occurs-remove_array_value, length-remove_array_value, Listed, due_priority,
}
use aquarium_controller.Transport.Lanes.Runnable.{
  Ready, all_due, schedule_runnable_device-SameBut, schedule_runnable_device-Ready,
}
use aquarium_controller.Transport.Lanes.Pump.{Sound}
use aquarium_controller.Transport.Lanes.Loop.{Exhausted, Pumped, pump_device_queues-Pumped}

-- What holds between events
pub record Kept (max : ℕ) (s : Lanes) : Type 0 where
  pub sound : Sound max s
  pub done : is_open s ≡ true → Exhausted max s

module _ (max : ℕ) where
  of_Pumped : {open' : Bool} (s : Lanes) → Pumped max open' s → Kept max s
  of_Pumped s p = record { sound = p.sound; done = p.done }

  pumped-Kept : (s : Lanes) → Sound max s → Kept max (pump_device_queues max s)
  pumped-Kept s v = of_Pumped (pump_device_queues max s) (pump_device_queues-Pumped max s v)

  with_flags :
      (a b c : Bool) (s : Lanes)
      → Sound max s
      → Sound max (record s { started = a; ready = b; discovery_publishing = c })
  with_flags a b c s v = record {
    ready = record {
      listed = record {
        of_interactive = v.ready.listed.of_interactive;
        of_background = v.ready.listed.of_background;
      };
      due = v.ready.due;
    };
    once = v.once;
    counted = v.counted;
    bounded = v.bounded;
  }

  shut : (a b c : Bool) → (a && b && not c) ≡ true → (a ≡ true) × (b ≡ true) × (c ≡ false)
  shut true true false h = (refl, refl, refl)
  shut true true true h = absurd (cc)
  shut true false c h = absurd (cc)
  shut false b c h = absurd (cc)

  not_ready-Kept :
      (a c : Bool) (s : Lanes)
      → Sound max s
      → Kept max (record s { started = a; ready = false; discovery_publishing = c })
  not_ready-Kept a c s v = record {
    sound = with_flags a false c s v;
    done = λ h. absurd (let (x, y, z) = shut a false c h in cc);
  }

  and_false : (b : Bool) → (b && false) ≡ false
  and_false true = refl
  and_false false = refl

  reject_queued-Kept : (s : Lanes) → Sound max s → Kept max (reject_queued s)
  unfolding reject_queued
  reject_queued-Kept s v = record {
    sound = record {
      ready = record {
        listed = record { of_interactive = λ d. refl; of_background = λ d. refl };
        due = λ d.
            if_elim (λ (x : Option LegacyCommandPriority). none ≡ x)
              {t = includes_id d s.active_device_ids} {x = none} {y = none} (λ _. refl) (λ _. refl);
      };
      once = v.once;
      counted = v.counted;
      bounded = v.bounded;
    };
    done = λ _. record { exhausted = and_false (ltb s.active_lane_count max) };
  }

  -- Scheduling a device keeps the lanes.
  scheduled-Sound :
      (id : Text) (s : Lanes)
      → Ready (schedule_runnable_device id s)
      → ((d : Text) → occurs d s.active_device_ids ≤ 1)
      → s.active_lane_count ≡ length s.active_device_ids
      → s.active_lane_count ≤ max
      → Sound max (schedule_runnable_device id s)
  scheduled-Sound id s r once counted bounded =
      let k = schedule_runnable_device-SameBut id s in
      record {
        ready = r;
        once = λ d. rw k.active (once d);
        counted = k.count ∙ counted ∙ ap (λ (x : List Text). length x) (sym k.active);
        bounded = subst (λ (n : ℕ). n ≤ max) (sym k.count) bounded;
      }

  enqueue_device_operation-Kept :
      (op : QueuedDeviceOperation) (s : Lanes)
      → Sound max s
      → Kept max (enqueue_device_operation max op s)
  unfolding enqueue_device_operation
  enqueue_device_operation-Kept op s v =
      let id = op.target_id in
      let next : Lanes = record s {
        device_queues = put id (s.device_queues id ++ (op ∷ [])) s.device_queues;
      } in
      pumped-Kept (schedule_runnable_device id next) (
        scheduled-Sound id next
          (schedule_runnable_device-Ready id next
            (record {
              of_interactive = v.ready.listed.of_interactive;
              of_background = v.ready.listed.of_background;
            })
            (λ d other. rw other (v.ready.due d)) (λ on. v.ready.due id ∙ rw on refl))
          v.once v.counted v.bounded)

  includes-remove_other :
      (id d : Text) (xs : List Text)
      → text_eq id d ≡ false
      → includes_id d (remove_array_value id xs) ≡ includes_id d xs
  unfolding includes_id remove_array_value
  includes-remove_other id d [] h = refl
  includes-remove_other id d (x ∷ xs) h = elim (Bool-cases (text_eq id x)) [
    | inl same ↦
        let here : id ≡ x = text_eq_sound id x same in
        let off : text_eq d x ≡ false = elim (Bool-cases (text_eq d x)) [
          | inl y ↦ absurd (
              let back : d ≡ x = text_eq_sound d x y in
              let z : text_eq id d ≡ true = rw (here, back) (text_eq_refl x) in cc)
          | inr n ↦ n
        ] in
        rw (same, off) refl
    | inr other ↦ elim (Bool-cases (text_eq d x)) [
      | inl is ↦ rw (other, is) refl
      | inr not' ↦ rw (other, not') (includes-remove_other id d xs h)
    ]
  ]

  no_work :
      (queue : List QueuedDeviceOperation) → has_work queue ≡ false → head_priority queue ≡ none
  no_work [] h = refl
  no_work (op ∷ rest) h = absurd (cc)

  task_finished-Kept :
      (id : Text) (s : Lanes)
      → includes_id id s.active_device_ids ≡ true
      → Sound max s
      → Kept max (task_finished max id s)
  unfolding task_finished
  task_finished-Kept id s on v =
      let next = release_lane id s in
      let held : s.runnable_priority id ≡ none = v.ready.due id ∙ rw on refl in
      let listed : Listed next = record {
        of_interactive = v.ready.listed.of_interactive;
        of_background = v.ready.listed.of_background;
      } in
      let others : (d : Text)
          → text_eq id d ≡ false
          → next.runnable_priority d ≡ due_priority next d =
        λ d other. rw (includes-remove_other id d s.active_device_ids other) (v.ready.due d) in
      let once : (d : Text) → occurs d next.active_device_ids ≤ 1 =
        λ d. rw (occurs-remove_array_value d id s.active_device_ids) (omega (arith, v.once d)) in
      let shorter : suc (length (remove_array_value id s.active_device_ids))
          ≡ length s.active_device_ids =
        length-remove_array_value id s.active_device_ids on in
      let counted : next.active_lane_count ≡ length next.active_device_ids =
        omega (arith, shorter, v.counted) in
      let bounded : next.active_lane_count ≤ max = omega (arith, v.bounded) in
      let scheduled =
        scheduled-Sound id next (schedule_runnable_device-Ready id next listed others (λ _. held))
          once counted bounded in
      pumped-Kept (if has_work (s.device_queues id) then schedule_runnable_device id next else next)
        (if_elim (Sound max) {t = has_work (s.device_queues id)}
          {x = schedule_runnable_device id next} {y = next} (λ _. scheduled)
          (λ nothing.
            let idle : none ≡ due_priority next id =
              if_elim (λ (x : Option LegacyCommandPriority). none ≡ x)
                {t = includes_id id next.active_device_ids} {x = none} (λ _. refl)
                (λ _. sym (no_work (s.device_queues id) nothing)) in
            record {
              ready = record { listed = listed; due = all_due next id others (held ∙ idle) };
              once = once;
              counted = counted;
              bounded = bounded;
            }))

  lane_step-Kept : (event : LaneEvent) (s : Lanes) → Kept max s → Kept max (lane_step max event s)
  unfolding lane_step
  lane_step-Kept start_called s k =
      if_elim (Kept max) {t = s.started} {x = s} (λ _. k)
        (λ _. not_ready-Kept true s.discovery_publishing s k.sound)
  lane_step-Kept start_failed s k = record {
    sound = with_flags false s.ready s.discovery_publishing s k.sound;
    done = λ h. absurd (let (x, y, z) = shut false s.ready s.discovery_publishing h in cc);
  }
  lane_step-Kept reconnected s k =
      if_elim (Kept max) {t = s.ready} {y = s}
        (λ _.
          reject_queued-Kept (record s { ready = false })
            (with_flags s.started false s.discovery_publishing s k.sound))
        (λ _. k)
  lane_step-Kept subscribed s k =
      if_elim (Kept max) {t = s.started} {y = s}
        (λ _.
          pumped-Kept (record s { ready = true })
            (with_flags s.started true s.discovery_publishing s k.sound))
        (λ _. k)
  lane_step-Kept subscription_failed s k = not_ready-Kept s.started s.discovery_publishing s k.sound
  lane_step-Kept disconnected s k =
      if_elim (Kept max) {t = s.started} {y = s}
        (λ _.
          reject_queued-Kept (record s { ready = false })
            (with_flags s.started false s.discovery_publishing s k.sound))
        (λ _. k)
  lane_step-Kept stop_called s k =
      if_elim (Kept max) {t = s.started} {y = s}
        (λ _.
          reject_queued-Kept (record s { started = false; ready = false })
            (with_flags false false s.discovery_publishing s k.sound))
        (λ _. k)
  lane_step-Kept discovery_begun s k = record {
    sound = with_flags s.started s.ready true s k.sound;
    done = λ h. absurd (let (x, y, z) = shut s.started s.ready true h in cc);
  }
  lane_step-Kept discovery_ended s k =
      pumped-Kept (record s { discovery_publishing = false })
        (with_flags s.started s.ready false s k.sound)
  lane_step-Kept (enqueued op) s k =
      if_elim (Kept max) {t = s.started && s.ready} {y = s}
        (λ _. enqueue_device_operation-Kept op s k.sound) (λ _. k)
  lane_step-Kept (finished id) s k =
      if_elim (Kept max) {t = includes_id id s.active_device_ids} {y = s}
        (λ on. task_finished-Kept id s on k.sound) (λ _. k)

  pub new_lanes-Kept : Kept max new_lanes
  unfolding includes_id
  new_lanes-Kept = record {
    sound = record {
      ready = record {
        listed = record { of_interactive = λ d. refl; of_background = λ d. refl };
        due = λ d. refl;
      };
      once = λ d. omega arith;
      counted = refl;
      bounded = omega arith;
    };
    done = λ h. absurd (cc);
  }

  pub run_lanes-Kept :
      (events : List LaneEvent) (s : Lanes) → Kept max s → Kept max (run_lanes max s events)
  unfolding run_lanes
  run_lanes-Kept [] s k = k
  run_lanes-Kept (e ∷ rest) s k = run_lanes-Kept rest (lane_step max e s) (lane_step-Kept e s k)
