-- ===== src/Realtime/ReplayWindow.antt =====
-- apps/controller/src/realtime/state-event-stream.ts: readReplayWindow, on the revisions and the rows that the two tables
-- hold when its transaction reads them.
pub mod Exact
use aquarium_controller.Prelude.{
  ℕ, zero, suc, ◌≤◌, ◌<◌, ◌≡◌, refl, sym, ap, subst, ◌⊎◌, inl, inr, false, ◌&&◌, List, [], ◌∷◌,
  if◌then◌else◌, if_elim, ltb, leb, ◌==◌, length, take, arith, Bool-cases,
}
use aquarium_controller.Prelude.Sorting.{sort_by, count, count-sort_by}
use aquarium_controller.Realtime.EventStream.{CommittedStateEvent, ReplayWindow, larger}
use aquarium_controller.Realtime.EventStream.Marks.{AllUpto}
use aquarium_controller.Realtime.EventStream.Catching.{revisions_of, in_turn, AllUpto-in_turn}
use aquarium_controller.Realtime.EventStream.Told.{IsWindow}

-- fn.max and fn.min, or the default for no row
abbrev pub highest : List ℕ → ℕ
highest [] = 0
highest (n ∷ rest) = larger n (highest rest)

abbrev pub lowest : ℕ → List CommittedStateEvent → ℕ
lowest default [] = default
lowest default (e ∷ []) = e.revision
lowest default (e ∷ f ∷ rest) =
    let least = lowest default (f ∷ rest) in if ltb least e.revision then least else e.revision

abbrev pub selected : ℕ → ℕ → List CommittedStateEvent → List CommittedStateEvent
selected after current [] = []
selected after current (e ∷ rest) =
    let later = selected after current rest in
    if ltb after e.revision && leb e.revision current then e ∷ later else later

unfoldable pub read_replay_window : ℕ → List ℕ → List CommittedStateEvent → ℕ → ReplayWindow
unfolding sort_by
read_replay_window max_replay_events revisions outbox after =
    let current = highest revisions in
    let events = take (suc max_replay_events) (in_turn (selected after current outbox)) in
    record {
      current_revision = current;
      earliest_available_revision = lowest (if current == 0 then 0 else suc current) outbox;
      events = events;
      replay_limit_exceeded = ltb max_replay_events (length events);
    }

AllUpto-selected :
    (after current : ℕ) (outbox : List CommittedStateEvent)
    → AllUpto current (selected after current outbox)
AllUpto-selected after current [] = tt
AllUpto-selected after current (e ∷ rest) =
    if_elim (AllUpto current) {t = ltb after e.revision && leb e.revision current}
      {x = e ∷ selected after current rest}
      (λ test. (ground arith, AllUpto-selected after current rest))
      (λ _. AllUpto-selected after current rest)

AllUpto-take :
    (v n : ℕ) (events : List CommittedStateEvent) → AllUpto v events → AllUpto v (take n events)
AllUpto-take v zero events a = tt
AllUpto-take v (suc n) [] a = tt
AllUpto-take v (suc n) (e ∷ rest) (h, a) = (h, AllUpto-take v n rest a)

take_whole :
    (n : ℕ) (events : List CommittedStateEvent)
    → length (take (suc n) events) ≤ n
    → take (suc n) events ≡ events
take_whole n [] h = refl
take_whole zero (e ∷ rest) h = absurd (omega arith)
take_whole (suc n) (e ∷ rest) h = ap (◌∷◌ e) (take_whole n rest (omega arith))

count-selected :
    (after current : ℕ) (outbox : List CommittedStateEvent)
    → after < current
    → count current (revisions_of (selected after current outbox))
      ≡ count current (revisions_of outbox)
count-selected after current [] h = refl
count-selected after current (e ∷ rest) h =
    let later = count-selected after current rest h in
    elim (Bool-cases (ltb after e.revision && leb e.revision current)) [
      | inl t ↦ rw t (omega arith)
      | inr t ↦
          let other : (current == e.revision) ≡ false = ground arith in rw (t, other) (omega arith)
    ]

-- What is read is the window that a client needs: if the outbox still has the event of the current revision, or the
-- client asked from there on, no event of the window is after its current revision, and that event is in the window
-- unless the client asked from there on or the limit was met.
pub read_replay_window-IsWindow :
    (max_replay_events : ℕ) (revisions : List ℕ) (outbox : List CommittedStateEvent) (after : ℕ)
    → (highest revisions ≤ after) ⊎ (0 < count (highest revisions) (revisions_of outbox))
    → IsWindow after (read_replay_window max_replay_events revisions outbox after)
unfolding read_replay_window
read_replay_window-IsWindow max_replay_events revisions outbox after holds =
    let current = highest revisions in
    let found = selected after current outbox in
    record {
      within =
          AllUpto-take current (suc max_replay_events) (in_turn found)
            (AllUpto-in_turn current found (AllUpto-selected after current outbox));
      whole = λ few. whole_window holds few;
    }
  where
    whole_window :
        (highest revisions ≤ after) ⊎ (0 < count (highest revisions) (revisions_of outbox))
        → ltb max_replay_events (
            length
              (take (suc max_replay_events) (in_turn (selected after (highest revisions) outbox))))
          ≡ false
        → (highest revisions ≤ after)
          ⊎ (0
              < count (highest revisions) (
                  revisions_of (
                    take
                      (suc max_replay_events)
                      (in_turn (selected after (highest revisions) outbox)))))
    whole_window (inl asked) few = inl asked
    whole_window (inr has) few = elim (Bool-cases (ltb after (highest revisions))) [
      | inl ahead ↦
          let found = selected after (highest revisions) outbox in
          let all = take_whole max_replay_events (in_turn found) (ground arith) in
          let same =
            count-sort_by (λ (e : CommittedStateEvent). e.revision) (highest revisions) found in
          let kept = count-selected after (highest revisions) outbox (ground arith) in
          inr (
            subst
              (λ (events : List CommittedStateEvent).
                0 < count (highest revisions) (revisions_of events))
              (sym all) (omega arith))
      | inr asked ↦ inl (ground arith)
    ]
