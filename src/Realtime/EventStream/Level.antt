-- ===== src/Realtime/EventStream/Level.antt =====
-- About the events of a connection of the stream: an open connection that replays nothing is at the server's revision.
use aquarium_controller.Prelude.{
  ℕ, ◌-◌, ◌≤◌, ◌<◌, ◌≡◌, refl, sym, subst, ◌⊎◌, inl, inr, Bool, true, false, ◌||◌, List, [], ◌∷◌,
  if◌then◌else◌, if_elim, ltb, length, arith, Bool-cases, Text,
}
use aquarium_controller.Prelude.Sorting.{count}
use aquarium_controller.Realtime.EventStream.{
  CommittedStateEvent, transient, stream_ready, heartbeat_frame, ReplayWindow, WriteEnd, Connection,
  new_connection, larger, set_event, close, force_resync, enqueue, accept_sequential_event,
  accept_committed, accept_transient, replay_events, replay_buffered, finish_buffered,
  finish_replay, heartbeat, drain, StreamEvent, committed_published, transient_published,
  replay_read, heartbeat_due, drained, closed_by_client, stream_step, run_stream,
}
use aquarium_controller.Realtime.EventStream.Marks.{
  marks, Kept, close_closed, force_resync_closed, enqueue-Kept, drain-Kept, Between, top, AllUpto,
  accept-Reached,
}
use aquarium_controller.Realtime.EventStream.Catching.{
  revisions_of, in_turn, top_least, AllUpto-weaken, AllUpto-in_turn, AllUpto-set_event,
  set_event_found, IsRight, replay_events-IsRight, replay_events-Reached, replay_buffered-Reached,
  replay_buffered-IsClosed, enqueue_shut,
}
use aquarium_controller.Realtime.EventStream.Told.{
  Level, IsWindow, ReadsWindows, still_pending, caught_up, replay_goal,
}

module _ (sink : ℕ → WriteEnd) (max : ℕ) (start : ℕ) where
  -- A connection that got to the server's revision
  Level-of_reached :
      (v low : ℕ) (buffer : List CommittedStateEvent) (t : Connection)
      → v ≤ low
      → start ≤ low
      → Kept (Between false buffer v low) t
      → Kept (Level start) t
  Level-of_reached v low buffer t h a (inl closed) = inl closed
  Level-of_reached v low buffer t h a (inr x) =
      let f = x.from in
      let e = x.same_server in
      let u = x.until in
      let live = x.same_replaying in
      inr (record {
        asked = omega arith;
        behind = omega arith;
        reached = λ r. omega arith;
        pending = λ r. absurd (cc);
        known = λ r. absurd (cc);
      })

  accepted-Level :
      (e : CommittedStateEvent) (s : Connection)
      → s.replaying ≡ false
      → Level start (marks s)
      → Kept
          (Level start)
          (accept_sequential_event sink max e
            (record s { server_revision = larger s.server_revision e.revision })).1
  accepted-Level e s r h =
      let v = larger s.server_revision e.revision in
      let next = record s { server_revision = v } in
      let b = h.behind in
      let up = h.reached r in
      let a = h.asked in
      let small : e.revision ≤ v = ground arith in
      let below : s.current_revision ≤ v = ground arith in
      Level-of_reached v (larger s.current_revision e.revision) s.live_buffer
        (accept_sequential_event sink max e next).1 (ground arith) (ground arith)
        (accept-Reached sink max false s.live_buffer v s.current_revision e next small (
          inr (record {
            same_replaying = r;
            same_buffer = refl;
            same_server = refl;
            from = omega arith;
            until = below;
          })))

  -- A published event during the replay
  buffered-Level :
      (e : CommittedStateEvent) (s : Connection)
      → s.replaying ≡ true
      → Level start (marks s)
      → Level start (
          marks (record s {
            server_revision = larger s.server_revision e.revision;
            live_buffer = set_event e s.live_buffer;
          }))
  buffered-Level e s r h =
      let v = larger s.server_revision e.revision in
      let b = h.behind in
      record {
        asked = h.asked;
        behind = ground arith;
        reached = λ no'. absurd (cc);
        pending = λ _. elim (Bool-cases (ltb s.server_revision e.revision)) [
          | inl newer ↦ inr (
              subst (λ (n : ℕ). 0 < count n (revisions_of (set_event e s.live_buffer)))
                (let same : e.revision ≡ v = ground arith in same)
                (set_event_found e s.live_buffer))
          | inr older ↦
              let same : s.server_revision ≡ v = ground arith in
              still_pending e s.live_buffer s.current_revision s.server_revision v same
                (h.pending r)
        ];
        known = λ _.
            AllUpto-set_event v e s.live_buffer (ground arith)
              (AllUpto-weaken s.server_revision v s.live_buffer (ground arith) (h.known r));
      }

  accept_committed-Level :
      (e : CommittedStateEvent) (s : Connection)
      → Kept (Level start) s
      → Kept (Level start) (accept_committed sink max e s)
  unfolding accept_committed
  accept_committed-Level e s (inl closed) =
      if_elim (Kept (Level start)) {t = s.closed} {x = s} (λ _. inl closed) (λ live. absurd (cc))
  accept_committed-Level e s (inr h) =
      if_elim (Kept (Level start)) {t = s.closed} {x = s} (λ _. inr h)
        (λ _.
          if_elim (Kept (Level start)) {t = s.replaying}
            {x = record s {
              server_revision = larger s.server_revision e.revision;
              live_buffer = set_event e s.live_buffer;
            }}
            (λ r. inr (buffered-Level e s r h)) (λ r. accepted-Level e s r h))

  -- finishReplay after its first loop, at a server's revision that is in the buffer or was reached
  finish_buffered-Level :
      (n v low : ℕ) (buffer : List CommittedStateEvent) (r : Bool × Connection)
      → AllUpto v buffer
      → (v ≤ low) ⊎ (0 < count v (revisions_of buffer))
      → start ≤ low
      → IsRight sink max r
      → Kept (Between true buffer v low) r.1
      → Kept (Level start) (finish_buffered sink max n r)
  unfolding finish_buffered
  finish_buffered-Level n v low buffer (false, s) known goal a right h = inl (right refl)
  finish_buffered-Level n v low buffer (true, s) known goal a right (inl closed) =
      let after =
        replay_buffered sink max (in_turn s.live_buffer)
          (record s { live_buffer = []; replaying = false }) in
      let shut =
        replay_buffered-IsClosed sink max (in_turn s.live_buffer)
          (record s { live_buffer = []; replaying = false }) closed in
      if_elim (Kept (Level start)) {t = after.0}
        {x = enqueue sink max (stream_ready after.1.current_revision n) after.1}
        (λ _. inl (enqueue_shut sink max (stream_ready after.1.current_revision n) after.1 shut))
        (λ _. inl shut)
  finish_buffered-Level n v low buffer (true, s) known goal a right (inr x) =
      let same = x.same_buffer in
      let order = in_turn s.live_buffer in
      let next = record s { live_buffer = []; replaying = false } in
      let after = replay_buffered sink max order next in
      let least = top_least low order in
      let reached : v ≤ top low order = caught_up v low s.live_buffer (
        subst (λ (b : List CommittedStateEvent). (v ≤ low) ⊎ (0 < count v (revisions_of b)))
          (sym same) goal) in
      let kept : Kept (Level start) after.1 =
        Level-of_reached v (top low order) [] after.1 reached (omega arith) (
          replay_buffered-Reached sink max false [] v low order next
            (AllUpto-in_turn v s.live_buffer (subst (AllUpto v) (sym same) known))
            (inr (record {
              same_replaying = refl;
              same_buffer = refl;
              same_server = x.same_server;
              from = x.from;
              until = x.until;
            }))) in
      if_elim (Kept (Level start)) {t = after.0}
        {x = enqueue sink max (stream_ready after.1.current_revision n) after.1}
        (λ _.
          enqueue-Kept sink max (Level start) (stream_ready after.1.current_revision n) after.1
            kept)
        (λ _. kept)

  finish_replay-Level :
      (w : ReplayWindow) (s : Connection)
      → IsWindow start w
      → s.replaying ≡ true
      → Kept (Level start) s
      → Kept (Level start) (finish_replay sink max w s)
  unfolding finish_replay
  finish_replay-Level w s window r (inl closed) =
      if_elim (Kept (Level start)) {t = s.closed} {x = s} (λ _. inl closed) (λ live. absurd (cc))
  finish_replay-Level w s window r (inr h) =
      let v = larger s.server_revision w.current_revision in
      let next = record s { server_revision = v } in
      let low = top s.current_revision w.events in
      let resynced = force_resync sink max w.earliest_available_revision w.current_revision next in
      let shut =
        force_resync_closed sink max w.earliest_available_revision w.current_revision next in
      let least = top_least s.current_revision w.events in
      let a = h.asked in
      let b = h.behind in
      let replayed =
        replay_events-Reached sink max true s.live_buffer v s.current_revision w.events next
          (AllUpto-weaken w.current_revision v w.events (ground arith) window.within)
          (inr (record {
            same_replaying = r;
            same_buffer = refl;
            same_server = refl;
            from = omega arith;
            until = ground arith;
          })) in
      if_elim (Kept (Level start)) {t = s.closed} {x = s} (λ _. inr h)
        (λ _.
          if_elim (Kept (Level start)) {t = ltb w.current_revision s.requested_revision}
            {x = resynced} (λ _. inl shut)
            (λ _.
              if_elim (Kept (Level start))
                {t = ltb s.requested_revision (w.earliest_available_revision - 1)} {x = resynced}
                (λ _. inl shut)
                (λ _.
                  if_elim (Kept (Level start)) {t = w.replay_limit_exceeded} {x = resynced}
                    (λ _. inl shut)
                    (λ few.
                      finish_buffered-Level (length w.events) v low s.live_buffer
                        (replay_events sink max w.events next)
                        (AllUpto-weaken s.server_revision v s.live_buffer (ground arith)
                          (h.known r))
                        (replay_goal start w s.current_revision s.server_revision s.live_buffer
                          window few a (h.pending r))
                        (omega arith) (replay_events-IsRight sink max w.events next) replayed))))

  heartbeat-Level :
      (s : Connection) → Kept (Level start) s → Kept (Level start) (heartbeat sink max s)
  unfolding heartbeat
  heartbeat-Level s h =
      if_elim (Kept (Level start)) {t = s.closed} {x = s} (λ _. h)
        (λ _. enqueue-Kept sink max (Level start) (heartbeat_frame s.server_revision) s h)

  accept_transient-Level :
      (t : Text) (s : Connection)
      → Kept (Level start) s
      → Kept (Level start) (accept_transient sink max t s)
  unfolding accept_transient
  accept_transient-Level t s h =
      if_elim (Kept (Level start)) {t = s.closed || s.replaying} {x = s} (λ _. h)
        (λ _. enqueue-Kept sink max (Level start) (transient t) s h)

  run_stream-Level :
      (events : List StreamEvent) (s : Connection)
      → ReadsWindows start events
      → Kept (Level start) s
      → Kept (Level start) (run_stream sink max s events)
  unfolding run_stream stream_step
  run_stream-Level [] s windows h = h
  run_stream-Level (committed_published e ∷ rest) s windows h =
      run_stream-Level rest (accept_committed sink max e s) windows (accept_committed-Level e s h)
  run_stream-Level (transient_published t ∷ rest) s windows h =
      run_stream-Level rest (accept_transient sink max t s) windows (accept_transient-Level t s h)
  run_stream-Level (replay_read w ∷ rest) s (window, windows) h =
      let read = if s.replaying then finish_replay sink max w s else s in
      run_stream-Level rest read windows (
        if_elim (Kept (Level start)) {t = s.replaying} {x = finish_replay sink max w s}
          (λ r. finish_replay-Level w s window r h) (λ _. h))
  run_stream-Level (heartbeat_due ∷ rest) s windows h =
      run_stream-Level rest (heartbeat sink max s) windows (heartbeat-Level s h)
  run_stream-Level (drained ∷ rest) s windows h =
      run_stream-Level rest (drain sink max s) windows (drain-Kept sink max (Level start) s h)
  run_stream-Level (closed_by_client ∷ rest) s windows h =
      run_stream-Level rest (close s) windows (inl (close_closed s))

  Level-at_end :
      (s : Connection)
      → Kept (Level start) s
      → s.closed ≡ false
      → s.replaying ≡ false
      → s.current_revision ≡ s.server_revision
  Level-at_end s (inl closed) live r = absurd (cc)
  Level-at_end s (inr h) live r = let b = h.behind in let up = h.reached r in omega arith

  -- If every replay that was read holds no event after its current revision, and the event of that revision unless the
  -- client asked from there on or the limit was met, then a connection that is open with its replay done has accepted
  -- everything up to the highest revision that it was told of.
  pub run_stream_level :
      (events : List StreamEvent)
      → ReadsWindows start events
      → (run_stream sink max (new_connection start) events).closed ≡ false
      → (run_stream sink max (new_connection start) events).replaying ≡ false
      → (run_stream sink max (new_connection start) events).current_revision
        ≡ (run_stream sink max (new_connection start) events).server_revision
  run_stream_level events windows =
      Level-at_end (run_stream sink max (new_connection start) events) (
        run_stream-Level events (new_connection start) windows (
          inr (record {
            asked = omega arith;
            behind = omega arith;
            reached = λ r. omega arith;
            pending = λ r. inl (omega arith);
            known = λ r. tt;
          })))
