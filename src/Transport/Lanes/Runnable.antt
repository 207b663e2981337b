-- ===== src/Transport/Lanes/Runnable.antt =====
-- About the lanes of the transport: how a device gets onto a list.
use aquarium_controller.Prelude.{
  ◌≡◌, refl, sym, ap, ◌∙◌, subst, inl, inr, true, false, List, Option, none, some, if◌then◌else◌,
  if_elim, Text, text_eq, text_eq_sound, text_eq_refl, Bool-cases,
}
use aquarium_controller.Transport.Lanes.{
  LegacyCommandPriority, interactive, background, Lanes, includes_id, head_priority, same_priority,
  remove_runnable, push_runnable, schedule_runnable_device, is_open,
}
use aquarium_controller.Transport.Lanes.{QueuedDeviceOperation}
use aquarium_controller.Transport.Lanes.Queues.{
  Listed, due_priority, remove_runnable-Listed, push_runnable-Listed,
}

-- The priorities after a removal and after an addition
priority-remove_runnable :
    (id d : Text) (p : Option LegacyCommandPriority) (s : Lanes)
    → s.runnable_priority id ≡ p
    → (remove_runnable id p s).runnable_priority d
      ≡ (if text_eq id d then none else s.runnable_priority d)
priority-remove_runnable id d none s e = elim (Bool-cases (text_eq id d)) [
  | inl same ↦ rw same (let here : id ≡ d = text_eq_sound id d same in rw here at e)
  | inr other ↦ rw other refl
]
priority-remove_runnable id d (some interactive) s e = refl
priority-remove_runnable id d (some background) s e = refl

priority-push_runnable :
    (id d : Text) (p : Option LegacyCommandPriority) (s : Lanes)
    → s.runnable_priority id ≡ none
    → (push_runnable id p s).runnable_priority d
      ≡ (if text_eq id d then p else s.runnable_priority d)
priority-push_runnable id d none s e = elim (Bool-cases (text_eq id d)) [
  | inl same ↦ rw same (let here : id ≡ d = text_eq_sound id d same in rw here at e)
  | inr other ↦ rw other refl
]
priority-push_runnable id d (some interactive) s e = refl
priority-push_runnable id d (some background) s e = refl

-- What neither changes
pub record SameBut (s t : Lanes) : Type 0 where
  pub queues : t.device_queues ≡ s.device_queues
  pub active : t.active_device_ids ≡ s.active_device_ids
  pub count : t.active_lane_count ≡ s.active_lane_count
  pub fates : t.fates ≡ s.fates
  pub open' : is_open t ≡ is_open s

SameBut-refl : (s : Lanes) → SameBut s s
SameBut-refl s = record { queues = refl; active = refl; count = refl; fates = refl; open' = refl }

remove_runnable-SameBut :
    (id : Text) (p : Option LegacyCommandPriority) (s : Lanes) → SameBut s (remove_runnable id p s)
remove_runnable-SameBut id none s = SameBut-refl s
remove_runnable-SameBut id (some interactive) s = record {
  queues = refl;
  active = refl;
  count = refl;
  fates = refl;
  open' = refl;
}
remove_runnable-SameBut id (some background) s = record {
  queues = refl;
  active = refl;
  count = refl;
  fates = refl;
  open' = refl;
}

push_runnable-SameBut :
    (id : Text) (p : Option LegacyCommandPriority) (s : Lanes) → SameBut s (push_runnable id p s)
push_runnable-SameBut id none s = SameBut-refl s
push_runnable-SameBut id (some interactive) s = record {
  queues = refl;
  active = refl;
  count = refl;
  fates = refl;
  open' = refl;
}
push_runnable-SameBut id (some background) s = record {
  queues = refl;
  active = refl;
  count = refl;
  fates = refl;
  open' = refl;
}

pub schedule_runnable_device-SameBut :
    (id : Text) (s : Lanes) → SameBut s (schedule_runnable_device id s)
unfolding schedule_runnable_device
schedule_runnable_device-SameBut id s =
    let p = head_priority (s.device_queues id) in
    let q = s.runnable_priority id in
    let a = remove_runnable-SameBut id q s in
    let b = push_runnable-SameBut id p (remove_runnable id q s) in
    if_elim (SameBut s) {t = includes_id id s.active_device_ids} {x = s} (λ _. SameBut-refl s)
      (λ _.
        if_elim (SameBut s) {t = same_priority q p} {x = s} (λ _. SameBut-refl s)
          (λ _. record {
            queues = b.queues ∙ a.queues;
            active = b.active ∙ a.active;
            count = b.count ∙ a.count;
            fates = b.fates ∙ a.fates;
            open' = b.open' ∙ a.open';
          }))

-- Each device is on the list that it is to be on.
pub record Ready (s : Lanes) : Type 0 where
  pub listed : Listed s
  pub due : (d : Text) → s.runnable_priority d ≡ due_priority s d

same_priority_sound : (p q : Option LegacyCommandPriority) → same_priority p q ≡ true → p ≡ q
same_priority_sound none none h = refl
same_priority_sound (some interactive) (some interactive) h = refl
same_priority_sound (some background) (some background) h = refl
same_priority_sound none (some q) h = absurd (cc)
same_priority_sound (some interactive) none h = absurd (cc)
same_priority_sound (some background) none h = absurd (cc)
same_priority_sound (some interactive) (some background) h = absurd (cc)
same_priority_sound (some background) (some interactive) h = absurd (cc)

pub all_due :
    (s : Lanes) (id : Text)
    → ((d : Text) → text_eq id d ≡ false → s.runnable_priority d ≡ due_priority s d)
    → s.runnable_priority id ≡ due_priority s id
    → (d : Text) → s.runnable_priority d ≡ due_priority s d
all_due s id others here d = elim (Bool-cases (text_eq id d)) [
  | inl same ↦
      subst (λ (x : Text). s.runnable_priority x ≡ due_priority s x) (text_eq_sound id d same) here
  | inr other ↦ others d other
]

pub schedule_runnable_device-Ready :
    (id : Text) (s : Lanes)
    → Listed s
    → ((d : Text) → text_eq id d ≡ false → s.runnable_priority d ≡ due_priority s d)
    → (includes_id id s.active_device_ids ≡ true → s.runnable_priority id ≡ none)
    → Ready (schedule_runnable_device id s)
unfolding schedule_runnable_device
schedule_runnable_device-Ready id s l others held =
    let p = head_priority (s.device_queues id) in
    let q = s.runnable_priority id in
    let removed = remove_runnable id q s in
    let gone : removed.runnable_priority id ≡ none =
      priority-remove_runnable id id q s refl
      ∙ if_elim (λ (x : Option LegacyCommandPriority). x ≡ none) {t = text_eq id id} {x = none}
          {y = q} (λ _. refl) (λ n. absurd (let y = text_eq_refl id in cc)) in
    let a = remove_runnable-SameBut id q s in
    let b = push_runnable-SameBut id p removed in
    if_elim Ready {t = includes_id id s.active_device_ids} {x = s}
      (λ on. record { listed = l; due = all_due s id others (held on ∙ sym (rw on refl)) })
      (λ off.
        if_elim Ready {t = same_priority q p} {x = s}
          (λ same. record {
            listed = l;
            due = all_due s id others (same_priority_sound q p same ∙ sym (rw off refl));
          })
          (λ _. record {
            listed = push_runnable-Listed id p removed gone (remove_runnable-Listed id q s refl l);
            due = λ d.
                let now = priority-push_runnable id d p removed gone in
                let before = priority-remove_runnable id d q s refl in
                let kept = ap (λ (x : List Text). includes_id d x) (b.active ∙ a.active) in
                let queue =
                  ap (λ (x : Text → List QueuedDeviceOperation). head_priority (x d))
                    (b.queues ∙ a.queues) in
                elim (Bool-cases (text_eq id d)) [
                  | inl same ↦
                      let here : id ≡ d = text_eq_sound id d same in
                      let off' : includes_id d s.active_device_ids ≡ false = rw here at off in
                      rw (now, same, kept, off', queue)
                        (ap (λ (x : Text). head_priority (s.device_queues x)) here)
                  | inr other ↦ rw (now, other, before, other, kept, queue) (others d other)
                ];
          }))
