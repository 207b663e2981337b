-- ===== src/Realtime/EventStream/Catching.antt =====
-- About the replay of a connection of the stream of events: how far the events of its loops bring it.
use aquarium_controller.Prelude.{
  ℕ, suc, ◌≤◌, ◌<◌, ◌≡◌, refl, inl, inr, Bool, true, false, not, List, [], ◌∷◌, if_elim, leb, ltb,
  ◌==◌, map, arith, Bool-cases,
}
use aquarium_controller.Prelude.Sorting.{insert_by, sort_by, by_key, count}
use aquarium_controller.Realtime.EventStream.{
  CommittedStateEvent, Frame, committed, WriteEnd, Connection, larger, set_event, force_resync,
  enqueue, accept_sequential_event, replay_events, replay_buffered,
}
use aquarium_controller.Realtime.EventStream.Marks.{
  force_resync_closed, top, AllUpto, Reached, ReachedSecond, seen_before, accept-Reached,
}

abbrev pub revisions_of : List CommittedStateEvent → List ℕ
revisions_of events = map (λ (e : CommittedStateEvent). e.revision) events

abbrev pub in_turn : List CommittedStateEvent → List CommittedStateEvent
in_turn events = sort_by (by_key (λ (e : CommittedStateEvent). e.revision)) events

pub top_least : (low : ℕ) (events : List CommittedStateEvent) → low ≤ top low events
top_least low [] = omega arith
top_least low (e ∷ rest) = let h = top_least (larger low e.revision) rest in ground arith

pub top-count :
    (low n : ℕ) (events : List CommittedStateEvent)
    → 0 < count n (revisions_of events)
    → n ≤ top low events
top-count low n [] c = absurd (omega arith)
top-count low n (e ∷ rest) c = elim (Bool-cases (n == e.revision)) [
  | inl same ↦ let h = top_least (larger low e.revision) rest in ground arith
  | inr other ↦
      let later : 0 < count n (revisions_of rest) = ground arith in
      top-count (larger low e.revision) n rest later
]

pub AllUpto-weaken :
    (v w : ℕ) (events : List CommittedStateEvent) → v ≤ w → AllUpto v events → AllUpto w events
AllUpto-weaken v w [] h a = tt
AllUpto-weaken v w (e ∷ rest) h (b, a) = (omega arith, AllUpto-weaken v w rest h a)

AllUpto-insert_by :
    (v : ℕ) (e : CommittedStateEvent) (events : List CommittedStateEvent)
    → e.revision ≤ v
    → AllUpto v events
    → AllUpto v (insert_by (by_key (λ (e : CommittedStateEvent). e.revision)) e events)
unfolding insert_by
AllUpto-insert_by v e [] h a = (h, tt)
AllUpto-insert_by v e (f ∷ rest) h (b, a) = elim (Bool-cases (ltb f.revision e.revision)) [
  | inl t ↦ rw t (b, AllUpto-insert_by v e rest h a)
  | inr t ↦ rw t (h, (b, a))
]

pub AllUpto-in_turn :
    (v : ℕ) (events : List CommittedStateEvent) → AllUpto v events → AllUpto v (in_turn events)
unfolding sort_by
AllUpto-in_turn v [] a = tt
AllUpto-in_turn v (e ∷ rest) (h, a) =
    AllUpto-insert_by v e (in_turn rest) h (AllUpto-in_turn v rest a)

pub AllUpto-set_event :
    (v : ℕ) (e : CommittedStateEvent) (events : List CommittedStateEvent)
    → e.revision ≤ v
    → AllUpto v events
    → AllUpto v (set_event e events)
unfolding set_event
AllUpto-set_event v e [] h a = (h, tt)
AllUpto-set_event v e (f ∷ rest) h (b, a) = elim (Bool-cases (f.revision == e.revision)) [
  | inl t ↦ rw t (h, a)
  | inr t ↦ rw t (b, AllUpto-set_event v e rest h a)
]

pub count-set_event :
    (n : ℕ) (e : CommittedStateEvent) (events : List CommittedStateEvent)
    → count n (revisions_of events) ≤ count n (revisions_of (set_event e events))
unfolding set_event
count-set_event n e [] = omega arith
count-set_event n e (f ∷ rest) = elim (Bool-cases (f.revision == e.revision)) [
  | inl t ↦ rw t (ground arith)
  | inr t ↦ rw t (let h = count-set_event n e rest in omega arith)
]

pub set_event_found :
    (e : CommittedStateEvent) (events : List CommittedStateEvent)
    → 0 < count e.revision (revisions_of (set_event e events))
unfolding set_event
set_event_found e [] = ground arith
set_event_found e (f ∷ rest) = elim (Bool-cases (f.revision == e.revision)) [
  | inl t ↦ rw t (ground arith)
  | inr t ↦ rw t (let h = set_event_found e rest in omega arith)
]

module _ (sink : ℕ → WriteEnd) (max : ℕ) where
  abbrev pub IsRight : Bool × Connection → Type 0
  IsRight r = r.0 ≡ false → r.1.closed ≡ true

  negated : (b : Bool) → not b ≡ false → b ≡ true
  negated true h = refl
  negated false h = absurd (cc)

  -- A loop is left early only when the connection is closed.
  accept-IsRight :
      (e : CommittedStateEvent) (s : Connection) → IsRight (accept_sequential_event sink max e s)
  unfolding accept_sequential_event
  accept-IsRight e s =
      let sent = enqueue sink max (committed e) (record s { current_revision = e.revision }) in
      if_elim IsRight {t = leb e.revision s.current_revision} {x = (true, s)} (λ _ h. absurd (cc))
        (λ _.
          if_elim IsRight {t = not (e.revision == suc s.current_revision)}
            {x = (false, force_resync sink max (suc s.current_revision) s.server_revision s)}
            (λ _ _. force_resync_closed sink max (suc s.current_revision) s.server_revision s)
            (λ _ h. negated sent.closed h))

  abbrev pub IsClosed : Bool × Connection → Type 0
  IsClosed r = r.1.closed ≡ true

  pub enqueue_shut :
      (f : Frame) (s : Connection) → s.closed ≡ true → (enqueue sink max f s).closed ≡ true
  unfolding enqueue
  enqueue_shut f s h = rw h refl

  accept-IsClosed :
      (e : CommittedStateEvent) (s : Connection)
      → s.closed ≡ true
      → IsClosed (accept_sequential_event sink max e s)
  unfolding accept_sequential_event
  accept-IsClosed e s h =
      if_elim IsClosed {t = leb e.revision s.current_revision} {x = (true, s)} (λ _. h)
        (λ _.
          if_elim IsClosed {t = not (e.revision == suc s.current_revision)}
            {x = (false, force_resync sink max (suc s.current_revision) s.server_revision s)}
            (λ _. force_resync_closed sink max (suc s.current_revision) s.server_revision s)
            (λ _. enqueue_shut (committed e) (record s { current_revision = e.revision }) h))

  pub replay_buffered-IsClosed :
      (events : List CommittedStateEvent) (s : Connection)
      → s.closed ≡ true
      → IsClosed (replay_buffered sink max events s)
  unfolding replay_buffered
  replay_buffered-IsClosed [] s h = h
  replay_buffered-IsClosed (e ∷ rest) s h =
      let after = accept_sequential_event sink max e s in
      let shut = accept-IsClosed e s h in
      if_elim IsClosed {t = leb e.revision s.current_revision} {x = replay_buffered sink max rest s}
        (λ _. replay_buffered-IsClosed rest s h)
        (λ _.
          if_elim IsClosed {t = after.0} {x = replay_buffered sink max rest after.1}
            (λ _. replay_buffered-IsClosed rest after.1 shut) (λ _. shut))

  pub replay_events-IsRight :
      (events : List CommittedStateEvent) (s : Connection)
      → IsRight (replay_events sink max events s)
  unfolding replay_events
  replay_events-IsRight [] s = λ h. absurd (cc)
  replay_events-IsRight (e ∷ rest) s =
      let after = accept_sequential_event sink max e s in
      if_elim IsRight {t = after.0} {x = replay_events sink max rest after.1}
        (λ _. replay_events-IsRight rest after.1) (λ out _. accept-IsRight e s out)

  pub replay_events-Reached :
      (replaying : Bool) (buffer : List CommittedStateEvent) (v low : ℕ)
      (events : List CommittedStateEvent) (s : Connection)
      → AllUpto v events
      → Reached sink max replaying buffer v low s
      → ReachedSecond sink max replaying buffer v (top low events) (replay_events sink max events s)
  unfolding replay_events
  replay_events-Reached replaying buffer v low [] s a h = h
  replay_events-Reached replaying buffer v low (e ∷ rest) s (small, a) h =
      let after = accept_sequential_event sink max e s in
      let kept = accept-Reached sink max replaying buffer v low e s small h in
      if_elim (ReachedSecond sink max replaying buffer v (top (larger low e.revision) rest))
        {t = after.0} {x = replay_events sink max rest after.1}
        (λ _. replay_events-Reached replaying buffer v (larger low e.revision) rest after.1 a kept)
        (λ out. inl (accept-IsRight e s out))

  pub replay_buffered-Reached :
      (replaying : Bool) (buffer : List CommittedStateEvent) (v low : ℕ)
      (events : List CommittedStateEvent) (s : Connection)
      → AllUpto v events
      → Reached sink max replaying buffer v low s
      → ReachedSecond sink max replaying buffer v
          (top low events)
          (replay_buffered sink max events s)
  unfolding replay_buffered
  replay_buffered-Reached replaying buffer v low [] s a h = h
  replay_buffered-Reached replaying buffer v low (e ∷ rest) s (small, a) h =
      let after = accept_sequential_event sink max e s in
      let kept = accept-Reached sink max replaying buffer v low e s small h in
      let P = ReachedSecond sink max replaying buffer v (top (larger low e.revision) rest) in
      if_elim P {t = leb e.revision s.current_revision} {x = replay_buffered sink max rest s}
        (λ seen.
          replay_buffered-Reached replaying buffer v (larger low e.revision) rest s a
            (seen_before sink max replaying buffer v low e s (ground arith) h))
        (λ _.
          if_elim P {t = after.0} {x = replay_buffered sink max rest after.1}
            (λ _.
              replay_buffered-Reached replaying buffer v (larger low e.revision) rest after.1 a
                kept)
            (λ out. inl (accept-IsRight e s out)))
