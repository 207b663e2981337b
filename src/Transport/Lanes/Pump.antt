-- ===== src/Transport/Lanes/Pump.antt =====
-- About the lanes of the transport: what the pump keeps, and how far it goes.
use aquarium_controller.Prelude.{
  ℕ, suc, ◌+◌, ◌≤◌, ◌<◌, ◌≡◌, refl, sym, ap, ◌∙◌, inl, inr, true, false, List, [], ◌∷◌, ◌++◌,
  Option, none, some, arith, if◌then◌else◌, if_elim, Text, text_eq, text_eq_sound, text_eq_refl,
  length, length-append, Bool-cases,
}
use aquarium_controller.Transport.Lanes.{
  LegacyCommandPriority, interactive, background, QueuedDeviceOperation, Lanes, includes_id,
  head_priority, take_from, send_first, send_next,
}
use aquarium_controller.Transport.Lanes.Queues.{
  occurs, one_of, occurs-append, occurs_of_not_includes_id, Listed, due_priority,
}
use aquarium_controller.Transport.Lanes.Runnable.{Ready, all_due}

-- The devices are where they are to be, and the lanes are those of the active devices, each once, within the bound.
pub record Sound (max : ℕ) (s : Lanes) : Type 0 where
  pub ready : Ready s
  pub once : (d : Text) → occurs d s.active_device_ids ≤ 1
  pub counted : s.active_lane_count ≡ length s.active_device_ids
  pub bounded : s.active_lane_count ≤ max

one_of_either :
    (p : Option LegacyCommandPriority) → (one_of interactive p + one_of background p ≤ 1)
one_of_either none = omega arith
one_of_either (some interactive) = omega arith
one_of_either (some background) = omega arith

pub take_from-Listed :
    (xs ys : List Text) (s : Lanes)
    → s.runnable_interactive ≡ xs
    → s.runnable_background ≡ ys
    → Listed s
    → Listed (take_from xs ys s).1
take_from-Listed (id ∷ rest) ys s a b l = record {
  of_interactive = λ d.
      let n = l.of_interactive d in
      let m = one_of_either (s.runnable_priority d) in
      let k : occurs d s.runnable_interactive
          ≡ (if text_eq id d then suc (occurs d rest) else occurs d rest) =
        ap (occurs d) a in
      elim (Bool-cases (text_eq id d)) [
        | inl same ↦ rw same (let k' = rw same at k in omega (arith, n, m, k'))
        | inr other ↦ rw other (let k' = rw other at k in omega (arith, n, k'))
      ];
  of_background = λ d.
      let n = l.of_interactive d in
      let m = one_of_either (s.runnable_priority d) in
      let k : occurs d s.runnable_interactive
          ≡ (if text_eq id d then suc (occurs d rest) else occurs d rest) =
        ap (occurs d) a in
      let o = l.of_background d in
      elim (Bool-cases (text_eq id d)) [
        | inl same ↦ rw same (let k' = rw same at k in omega (arith, n, m, k', o))
        | inr other ↦ rw other o
      ];
}
take_from-Listed [] (id ∷ rest) s a b l = record {
  of_background = λ d.
      let n = l.of_background d in
      let m = one_of_either (s.runnable_priority d) in
      let k : occurs d s.runnable_background
          ≡ (if text_eq id d then suc (occurs d rest) else occurs d rest) =
        ap (occurs d) b in
      elim (Bool-cases (text_eq id d)) [
        | inl same ↦ rw same (let k' = rw same at k in omega (arith, n, m, k'))
        | inr other ↦ rw other (let k' = rw other at k in omega (arith, n, k'))
      ];
  of_interactive = λ d.
      let n = l.of_background d in
      let m = one_of_either (s.runnable_priority d) in
      let k : occurs d s.runnable_background
          ≡ (if text_eq id d then suc (occurs d rest) else occurs d rest) =
        ap (occurs d) b in
      let o = l.of_interactive d in
      elim (Bool-cases (text_eq id d)) [
        | inl same ↦ rw same (let k' = rw same at k in omega (arith, n, m, k', o))
        | inr other ↦ rw other o
      ];
}
take_from-Listed [] [] s a b l = l

-- A device taken off its list: sending its first operation makes it active.
module _ (max : ℕ) (id : Text) (s : Lanes) (l : Listed s) (gone : s.runnable_priority id ≡ none)
    (others : (d : Text) → text_eq id d ≡ false → s.runnable_priority d ≡ due_priority s d)
    (once : (d : Text) → occurs d s.active_device_ids ≤ 1)
    (counted : s.active_lane_count ≡ length s.active_device_ids)
    (room : s.active_lane_count < max) where
  includes-append :
      (d : Text) (xs : List Text)
      → includes_id d (xs ++ (id ∷ [])) ≡ (if includes_id d xs then true else text_eq d id)
  unfolding includes_id
  includes-append d [] = ground arith
  includes-append d (x ∷ xs) = elim (Bool-cases (text_eq d x)) [
    | inl same ↦ rw same refl
    | inr other ↦ rw other (includes-append d xs)
  ]

  send_first-Sound :
      (queue : List QueuedDeviceOperation)
      → includes_id id s.active_device_ids ≡ false
      → Sound max (send_first id queue s)
  send_first-Sound [] off = record {
    ready = record {
      listed = record { of_interactive = l.of_interactive; of_background = l.of_background };
      due = λ d. elim (Bool-cases (text_eq id d)) [
        | inl same ↦
            let here : id ≡ d = text_eq_sound id d same in
            let off' : includes_id d s.active_device_ids ≡ false = rw here at off in
            rw (same, off') (rw here at gone)
        | inr other ↦ rw other (others d other)
      ];
    };
    once = once;
    counted = counted;
    bounded = omega (arith, room);
  }
  send_first-Sound (op ∷ rest) off = record {
    ready = record {
      listed = record { of_interactive = l.of_interactive; of_background = l.of_background };
      due = λ d. elim (Bool-cases (text_eq id d)) [
        | inl same ↦
            let here : id ≡ d = text_eq_sound id d same in
            let off' : includes_id d s.active_device_ids ≡ false = rw here at off in
            let self : text_eq d id ≡ true = rw here (text_eq_refl d) in
            rw (includes-append d s.active_device_ids, off', self) (rw here at gone)
        | inr other ↦
            let no' : text_eq d id ≡ false = elim (Bool-cases (text_eq d id)) [
              | inl y ↦ absurd (
                  let back = text_eq_sound d id y in
                  let z : text_eq id d ≡ true = rw back (text_eq_refl id) in cc)
              | inr n ↦ n
            ] in
            rw (includes-append d s.active_device_ids, no', other)
              (others d other
                ∙ if_elim
                    (λ (x : Option LegacyCommandPriority). x ≡ (
                      if (if includes_id d s.active_device_ids then true else false)
                      then none
                      else head_priority (s.device_queues d)))
                    {t = includes_id d s.active_device_ids} {x = none}
                    {y = head_priority (s.device_queues d)} (λ e. rw e refl) (λ e. rw e refl))
      ];
    };
    once = λ d.
        let new = occurs-append d id s.active_device_ids in
        elim (Bool-cases (text_eq id d)) [
          | inl same ↦
              let here : id ≡ d = text_eq_sound id d same in
              let none' : occurs d s.active_device_ids ≡ 0 =
                occurs_of_not_includes_id d s.active_device_ids (rw here at off) in
              rw (new, same) (omega (arith, none'))
          | inr other ↦ rw (new, other) (omega (arith, once d))
        ];
    counted = omega (arith, counted, length-append s.active_device_ids (id ∷ []));
    bounded = omega (arith, room);
  }

  pub send_next-Sound : Sound max (send_next (some id, s))
  send_next-Sound =
      if_elim (Sound max) {t = includes_id id s.active_device_ids} {x = s}
        (λ on. record {
          ready = record { listed = l; due = all_due s id others (gone ∙ sym (rw on refl)) };
          once = once;
          counted = counted;
          bounded = omega (arith, room);
        })
        (λ off. send_first-Sound (s.device_queues id) off)
