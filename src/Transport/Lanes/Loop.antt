-- ===== src/Transport/Lanes/Loop.antt =====
-- About the lanes of the transport: the loop of the pump.
use aquarium_controller.Prelude.{
  ℕ, zero, suc, ◌+◌, ◌≤◌, ◌<◌, ◌≡◌, refl, ap, ◌∙◌, Bool, true, false, not, ◌&&◌, List, [], ◌∷◌,
  some, arith, if_elim, Text, text_eq_refl, ltb, ltb→lt, length, &&-eq-true,
}
use aquarium_controller.Transport.Lanes.{
  QueuedDeviceOperation, Lanes, includes_id, take_from, take_next_runnable_device, send_first,
  send_next, are_empty, is_none_runnable, is_open, pump_loop, pump_device_queues,
}
use aquarium_controller.Transport.Lanes.Pump.{Sound, take_from-Listed, send_next-Sound}

round-Sound :
    (max : ℕ) (xs ys : List Text) (s : Lanes)
    → s.runnable_interactive ≡ xs
    → s.runnable_background ≡ ys
    → s.active_lane_count < max
    → Sound max s
    → Sound max (send_next (take_from xs ys s))
round-Sound max [] [] s a b room v = v
round-Sound max (id ∷ rest) ys s a b room v =
    send_next-Sound max id (take_from (id ∷ rest) ys s).1
      (take_from-Listed (id ∷ rest) ys s a b v.ready.listed) (rw (text_eq_refl id) refl)
      (λ d other. rw other (v.ready.due d)) v.once v.counted room
round-Sound max [] (id ∷ rest) s a b room v =
    send_next-Sound max id (take_from [] (id ∷ rest) s).1
      (take_from-Listed [] (id ∷ rest) s a b v.ready.listed) (rw (text_eq_refl id) refl)
      (λ d other. rw other (v.ready.due d)) v.once v.counted room

-- What stands on the lists, and the flags, after a round
record Lists (xs ys : List Text) (s t : Lanes) : Type 0 where
  first : t.runnable_interactive ≡ xs
  second : t.runnable_background ≡ ys
  flags : is_open t ≡ is_open s

send_first-Lists :
    (id : Text) (queue : List QueuedDeviceOperation) (s : Lanes)
    → Lists s.runnable_interactive s.runnable_background s (send_first id queue s)
send_first-Lists id [] s = record { first = refl; second = refl; flags = refl }
send_first-Lists id (op ∷ rest) s = record { first = refl; second = refl; flags = refl }

send_next-Lists :
    (id : Text) (s : Lanes)
    → Lists s.runnable_interactive s.runnable_background s (send_next (some id, s))
send_next-Lists id s =
    if_elim (Lists s.runnable_interactive s.runnable_background s)
      {t = includes_id id s.active_device_ids} {x = s}
      (λ _. record { first = refl; second = refl; flags = refl })
      (λ _. send_first-Lists id (s.device_queues id) s)

abbrev waiting : Lanes → ℕ
waiting s = length s.runnable_interactive + length s.runnable_background

-- A round takes one device off.
round-waiting :
    (xs ys : List Text) (s : Lanes)
    → s.runnable_interactive ≡ xs
    → s.runnable_background ≡ ys
    → are_empty xs ys ≡ false
    → suc (waiting (send_next (take_from xs ys s))) ≡ waiting s
round-waiting [] [] s a b h = absurd (cc)
round-waiting (id ∷ rest) ys s a b h =
    let l = send_next-Lists id (take_from (id ∷ rest) ys s).1 in
    let m = ap (λ (x : List Text). length x) a in
    let n = ap (λ (x : List Text). length x) l.first in
    let o = ap (λ (x : List Text). length x) l.second in omega (arith, m, n, o)
round-waiting [] (id ∷ rest) s a b h =
    let l = send_next-Lists id (take_from [] (id ∷ rest) s).1 in
    let m = ap (λ (x : List Text). length x) b in
    let n = ap (λ (x : List Text). length x) l.first in
    let o = ap (λ (x : List Text). length x) l.second in omega (arith, m, n, o)

round-is_open :
    (xs ys : List Text) (s : Lanes) → is_open (send_next (take_from xs ys s)) ≡ is_open s
round-is_open [] [] s = refl
round-is_open (id ∷ rest) ys s = (send_next-Lists id (take_from (id ∷ rest) ys s).1).flags
round-is_open [] (id ∷ rest) s = (send_next-Lists id (take_from [] (id ∷ rest) s).1).flags

-- All lanes are taken, or no device is runnable.
pub record Exhausted (max : ℕ) (s : Lanes) : Type 0 where
  pub exhausted : (ltb s.active_lane_count max && not (is_none_runnable s)) ≡ false

pub record Pumped (max : ℕ) (open' : Bool) (s : Lanes) : Type 0 where
  pub sound : Sound max s
  pub same : is_open s ≡ open'
  pub done : is_open s ≡ true → Exhausted max s

none_waiting :
    (xs ys : List Text) (b : Bool)
    → length xs + length ys ≤ 0
    → (b && not (are_empty xs ys)) ≡ false
none_waiting [] [] true h = refl
none_waiting [] [] false h = refl
none_waiting (x ∷ xs) ys b h = absurd (omega arith)
none_waiting [] (y ∷ ys) b h = absurd (omega arith)

not-true : (b : Bool) → not b ≡ true → b ≡ false
not-true true h = absurd (cc)
not-true false h = refl

pump_loop-Pumped :
    (max fuel : ℕ) (s : Lanes)
    → waiting s ≤ fuel
    → Sound max s
    → Pumped max (is_open s) (pump_loop max fuel s)
unfolding pump_loop take_next_runnable_device
pump_loop-Pumped max zero s enough v = record {
  sound = v;
  same = refl;
  done = λ _. record {
    exhausted =
        none_waiting s.runnable_interactive s.runnable_background (ltb s.active_lane_count max)
          (omega arith);
  };
}
pump_loop-Pumped max (suc fuel) s enough v =
    let xs = s.runnable_interactive in
    let ys = s.runnable_background in
    let after = send_next (take_from xs ys s) in
    if_elim (Pumped max (is_open s)) {t = ltb s.active_lane_count max && not (is_none_runnable s)}
      {x = pump_loop max fuel after} {y = s}
      (λ on.
        let (room, some') =
          &&-eq-true (ltb s.active_lane_count max) (not (is_none_runnable s)) on in
        let less = round-waiting xs ys s refl refl (not-true (are_empty xs ys) some') in
        let p =
          pump_loop-Pumped max fuel after (omega (arith, less, enough))
            (round-Sound max xs ys s refl refl (ltb→lt s.active_lane_count max room) v) in
        record { sound = p.sound; same = p.same ∙ round-is_open xs ys s; done = p.done })
      (λ off. record { sound = v; same = refl; done = λ _. record { exhausted = off } })

pub pump_device_queues-Pumped :
    (max : ℕ) (s : Lanes) → Sound max s → Pumped max (is_open s) (pump_device_queues max s)
unfolding pump_device_queues
pump_device_queues-Pumped max s v =
    if_elim (Pumped max (is_open s)) {t = is_open s} {y = s}
      (λ _. pump_loop-Pumped max (waiting s) s (omega arith) v)
      (λ shut. record { sound = v; same = refl; done = λ on. absurd (cc) })
