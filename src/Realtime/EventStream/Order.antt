-- ===== src/Realtime/EventStream/Order.antt =====
-- About the events of a connection of the stream: every step keeps the order of the revisions.
use aquarium_controller.Prelude.{
  ℕ, zero, suc, ◌≤◌, ◌≡◌, refl, sym, ap, ◌∙◌, subst, inl, inr, Bool, true, false, List, [], ◌∷◌,
  ◌++◌, if_elim, ltb, leb, length, arith, ◌-◌,
}
use aquarium_controller.Prelude.Sorting.{sort_by, by_key}
use aquarium_controller.Realtime.EventStream.{
  CommittedStateEvent, Frame, stream_ready, heartbeat_frame, ReplayWindow, WriteEnd, Connection,
  new_connection, larger, write, force_resync, enqueue, accept_sequential_event, replay_events,
  replay_buffered, finish_buffered, finish_replay, heartbeat, drain_round, drain_loop, drain,
  StreamEvent, committed_published, transient_published, replay_read, heartbeat_due, drained,
  closed_by_client, stream_step, run_stream,
}
use aquarium_controller.Realtime.EventStream.Frames.{
  revisions, revisions-append, upto, upto_prefix, Ordered, write-Ordered,
}
use aquarium_controller.Realtime.EventStream.Accepting.{
  kept-Ordered, close-Ordered, force_resync-Ordered, enqueue_plain, Second,
  accept_sequential_event-Second, accept_committed-Ordered, accept_transient-Ordered,
}

module _ (sink : ℕ → WriteEnd) (max : ℕ) (start : ℕ) where
  replay_events-Second :
      (events : List CommittedStateEvent) (s : Connection)
      → Ordered max start s
      → Second sink max start (replay_events sink max events s)
  unfolding replay_events
  replay_events-Second [] s h = h
  replay_events-Second (e ∷ rest) s h =
      let after = accept_sequential_event sink max e s in
      let kept = accept_sequential_event-Second sink max start e s h in
      if_elim (Second sink max start) {t = after.0} {x = replay_events sink max rest after.1}
        (λ _. replay_events-Second rest after.1 kept) (λ _. kept)

  replay_buffered-Second :
      (events : List CommittedStateEvent) (s : Connection)
      → Ordered max start s
      → Second sink max start (replay_buffered sink max events s)
  unfolding replay_buffered
  replay_buffered-Second [] s h = h
  replay_buffered-Second (e ∷ rest) s h =
      let after = accept_sequential_event sink max e s in
      let kept = accept_sequential_event-Second sink max start e s h in
      if_elim (Second sink max start) {t = leb e.revision s.current_revision}
        {x = replay_buffered sink max rest s} (λ _. replay_buffered-Second rest s h)
        (λ _.
          if_elim (Second sink max start) {t = after.0} {x = replay_buffered sink max rest after.1}
            (λ _. replay_buffered-Second rest after.1 kept) (λ _. kept))

  finish_buffered-Ordered :
      (n : ℕ) (r : Bool × Connection)
      → Second sink max start r
      → Ordered max start (finish_buffered sink max n r)
  unfolding finish_buffered
  finish_buffered-Ordered n (false, s) h = h
  finish_buffered-Ordered n (true, s) h =
      let order = sort_by (by_key (λ (e : CommittedStateEvent). e.revision)) s.live_buffer in
      let after =
        replay_buffered sink max order (record s { live_buffer = []; replaying = false }) in
      let kept =
        replay_buffered-Second order (record s { live_buffer = []; replaying = false })
          (kept-Ordered sink max start s.server_revision [] false s.blocked s h) in
      if_elim (Ordered max start) {t = after.0}
        {x = enqueue sink max (stream_ready after.1.current_revision n) after.1}
        (λ _.
          enqueue_plain sink max start (stream_ready after.1.current_revision n) after.1 refl kept)
        (λ _. kept)

  finish_replay-Ordered :
      (w : ReplayWindow) (s : Connection)
      → Ordered max start s
      → Ordered max start (finish_replay sink max w s)
  unfolding finish_replay
  finish_replay-Ordered w s h =
      let server = larger s.server_revision w.current_revision in
      let next = record s { server_revision = server } in
      let kept = kept-Ordered sink max start server s.live_buffer s.replaying s.blocked s h in
      let resynced = force_resync sink max w.earliest_available_revision w.current_revision next in
      let safe =
        force_resync-Ordered sink max start w.earliest_available_revision w.current_revision next
          kept in
      if_elim (Ordered max start) {t = s.closed} {x = s} (λ _. h)
        (λ _.
          if_elim (Ordered max start) {t = ltb w.current_revision s.requested_revision}
            {x = resynced} (λ _. safe)
            (λ _.
              if_elim (Ordered max start)
                {t = ltb s.requested_revision (w.earliest_available_revision - 1)} {x = resynced}
                (λ _. safe)
                (λ _.
                  if_elim (Ordered max start) {t = w.replay_limit_exceeded} {x = resynced}
                    (λ _. safe)
                    (λ _.
                      finish_buffered-Ordered (length w.events)
                        (replay_events sink max w.events next)
                        (replay_events-Second w.events next kept)))))

  heartbeat-Ordered :
      (s : Connection) → Ordered max start s → Ordered max start (heartbeat sink max s)
  unfolding heartbeat
  heartbeat-Ordered s h =
      if_elim (Ordered max start) {t = s.closed} {x = s} (λ _. h)
        (λ _. enqueue_plain sink max start (heartbeat_frame s.server_revision) s refl h)

  -- A write of the first frame of the queue
  taken-Ordered :
      (f : Frame) (rest : List Frame) (s : Connection)
      → s.queue ≡ f ∷ rest
      → Ordered max start s
      → Ordered max start (write sink max f (record s { queue = rest }))
  taken-Ordered f rest s eq (inl h) = let none' = h.emptied in absurd (cc)
  taken-Ordered f rest s eq (inr h) =
      let size : suc (length rest) ≤ max = subst (λ (q : List Frame). length q ≤ max) eq h.small in
      write-Ordered sink max start h.count f (record s { queue = rest }) h.is_live (omega arith)
        (ap (λ (q : List Frame). revisions s.written ++ revisions q) (sym eq) ∙ h.order) h.level

  drain_round-Ordered :
      (next : Connection → Connection) (queue : List Frame) (s : Connection)
      → ((t : Connection) → Ordered max start t → Ordered max start (next t))
      → s.queue ≡ queue
      → Ordered max start s
      → Ordered max start (drain_round sink max next queue s)
  drain_round-Ordered next [] s later eq h = h
  drain_round-Ordered next (f ∷ rest) s later eq h =
      let t = write sink max f (record s { queue = rest }) in
      if_elim (Ordered max start) {t = s.blocked} {x = s} (λ _. h)
        (λ _. later t (taken-Ordered f rest s eq h))

  drain_loop-Ordered :
      (fuel : ℕ) (s : Connection)
      → Ordered max start s
      → Ordered max start (drain_loop sink max fuel s)
  unfolding drain_loop
  drain_loop-Ordered zero s h = h
  drain_loop-Ordered (suc fuel) s h =
      drain_round-Ordered (drain_loop sink max fuel) s.queue s (drain_loop-Ordered fuel) refl h

  drain-Ordered : (s : Connection) → Ordered max start s → Ordered max start (drain sink max s)
  unfolding drain
  drain-Ordered s h =
      if_elim (Ordered max start) {t = s.closed} {x = s} (λ _. h)
        (λ _.
          drain_loop-Ordered (length s.queue) (record s { blocked = false })
            (kept-Ordered sink max start s.server_revision s.live_buffer s.replaying false s h))

  stream_step-Ordered :
      (e : StreamEvent) (s : Connection)
      → Ordered max start s
      → Ordered max start (stream_step sink max e s)
  unfolding stream_step
  stream_step-Ordered (committed_published e) s h = accept_committed-Ordered sink max start e s h
  stream_step-Ordered (transient_published t) s h = accept_transient-Ordered sink max start t s h
  stream_step-Ordered (replay_read w) s h =
      if_elim (Ordered max start) {t = s.replaying} {x = finish_replay sink max w s}
        (λ _. finish_replay-Ordered w s h) (λ _. h)
  stream_step-Ordered heartbeat_due s h = heartbeat-Ordered s h
  stream_step-Ordered drained s h = drain-Ordered s h
  stream_step-Ordered closed_by_client s h = close-Ordered sink max start s h

  run_stream-Ordered :
      (events : List StreamEvent) (s : Connection)
      → Ordered max start s
      → Ordered max start (run_stream sink max s events)
  unfolding run_stream
  run_stream-Ordered [] s h = h
  run_stream-Ordered (e ∷ rest) s h =
      run_stream-Ordered rest (stream_step sink max e s) (stream_step-Ordered e s h)

  opened-Ordered : Ordered max start (new_connection start)
  opened-Ordered =
      inr (record {
        is_live = refl;
        small = omega arith;
        count = 0;
        order = refl;
        level = omega arith;
      })

  stream-Ordered :
      (events : List StreamEvent)
      → Ordered max start (run_stream sink max (new_connection start) events)
  stream-Ordered events = run_stream-Ordered events (new_connection start) opened-Ordered

  order_and_room :
      (s : Connection)
      → Ordered max start s
      → (revisions s.written ≡ upto start (length (revisions s.written))) × (length s.queue ≤ max)
  order_and_room s (inl h) =
      (h.seen, subst (λ (q : List Frame). length q ≤ max) (sym h.emptied) (omega arith))
  order_and_room s (inr h) =
      (upto_prefix start h.count (revisions s.written) (revisions s.queue) h.order, h.small)

  nothing_lost :
      (s : Connection)
      → Ordered max start s
      → s.closed ≡ false
      → revisions (s.written ++ s.queue) ≡ upto start (s.current_revision - start)
  nothing_lost s (inl h) still = let no' = h.is_closed in absurd (cc)
  nothing_lost s (inr h) still =
      let l = h.level in
      let size : h.count ≡ s.current_revision - start = omega arith in
      revisions-append s.written s.queue ∙ h.order ∙ ap (upto start) size

  -- Whatever the events and whatever each write comes to, the committed revisions handed to the sink of a connection
  -- are the ones after the requested revision, each once and in order, and at most `max` frames wait.
  pub run_stream_in_order :
      (events : List StreamEvent)
      → (revisions (run_stream sink max (new_connection start) events).written
          ≡ upto start
              (length (revisions (run_stream sink max (new_connection start) events).written)))
        × (length (run_stream sink max (new_connection start) events).queue ≤ max)
  run_stream_in_order events =
      order_and_room (run_stream sink max (new_connection start) events) (stream-Ordered events)

  -- While a connection is open, what it wrote and what waits are together all revisions from the one after the
  -- requested revision up to its current one, each once and in order.
  pub run_stream_complete :
      (events : List StreamEvent)
      → (run_stream sink max (new_connection start) events).closed ≡ false
      → revisions (
          (run_stream sink max (new_connection start) events).written
          ++ (run_stream sink max (new_connection start) events).queue)
        ≡ upto start ((run_stream sink max (new_connection start) events).current_revision - start)
  run_stream_complete events =
      nothing_lost (run_stream sink max (new_connection start) events) (stream-Ordered events)
