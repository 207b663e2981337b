-- ===== src/Realtime/EventStream/Accepting.antt =====
-- About the events of a connection of the stream: a published event keeps the order of the revisions.
use aquarium_controller.Prelude.{
  ℕ, suc, ◌+◌, ◌≡◌, refl, sym, ap, ◌∙◌, inl, inr, Bool, true, false, not, ◌||◌, List, [], ◌∷◌, ◌++◌,
  if_elim, leb, ◌==◌, arith, Text,
}
use mathlib.Core.List.{append-nil, append_assoc}
use aquarium_controller.Realtime.EventStream.{
  CommittedStateEvent, Frame, committed, transient, WriteEnd, Connection, larger, set_event, close,
  force_resync, enqueue, accept_sequential_event, accept_committed, accept_transient,
}
use aquarium_controller.Realtime.EventStream.Frames.{
  revision_of, revisions, upto, upto_snoc, Shut, Ordered, close-Shut, closed_again,
  force_resync-Shut, enqueue-Ordered,
}

module _ (sink : ℕ → WriteEnd) (max : ℕ) (start : ℕ) where
  -- Other fields may change.
  pub kept-Ordered :
      (server : ℕ) (buffer : List CommittedStateEvent) (replaying blocked : Bool) (s : Connection)
      → Ordered max start s
      → Ordered max start (record s {
        server_revision = server;
        live_buffer = buffer;
        replaying = replaying;
        blocked = blocked;
      })
  kept-Ordered server buffer replaying blocked s (inl h) =
      inl (record { is_closed = h.is_closed; emptied = h.emptied; seen = h.seen })
  kept-Ordered server buffer replaying blocked s (inr h) = inr (record {
    is_live = h.is_live;
    small = h.small;
    count = h.count;
    order = h.order;
    level = h.level;
  })

  pub close-Ordered : (s : Connection) → Ordered max start s → Ordered max start (close s)
  close-Ordered s (inl h) = inl (closed_again start s h)
  close-Ordered s (inr h) = inl (close-Shut start h.count s (revisions s.queue) h.is_live h.order)

  pub force_resync-Ordered :
      (earliest current : ℕ) (s : Connection)
      → Ordered max start s
      → Ordered max start (force_resync sink max earliest current s)
  unfolding force_resync
  force_resync-Ordered earliest current s (inl h) =
      if_elim (Ordered max start) {t = s.closed} {x = s} (λ _. inl h)
        (λ no'. absurd (let yes' = h.is_closed in cc))
  force_resync-Ordered earliest current s (inr h) = inl (
      force_resync-Shut sink max start h.count earliest current s (revisions s.queue) h.is_live
        h.order)

  enqueue_closed : (f : Frame) (s : Connection) → Shut start s → Shut start (enqueue sink max f s)
  unfolding enqueue
  enqueue_closed f s h =
      if_elim (Shut start) {t = s.closed} {x = s} (λ _. h)
        (λ no'. absurd (let yes' = h.is_closed in cc))

  -- A frame without a revision
  pub enqueue_plain :
      (f : Frame) (s : Connection)
      → revision_of f ≡ []
      → Ordered max start s
      → Ordered max start (enqueue sink max f s)
  enqueue_plain f s plain (inl h) = inl (enqueue_closed f s h)
  enqueue_plain f s plain (inr h) =
      enqueue-Ordered sink max start h.count f s h.is_live
        (ap (λ (x : List ℕ). revisions s.written ++ (revisions s.queue ++ x)) plain
          ∙ ap (λ (x : List ℕ). revisions s.written ++ x) (append-nil (revisions s.queue))
          ∙ h.order)
        h.level

  next-Ordered :
      (e : CommittedStateEvent) (s : Connection)
      → e.revision ≡ suc s.current_revision
      → Ordered max start s
      → Ordered max start
          (enqueue sink max (committed e) (record s { current_revision = e.revision }))
  next-Ordered e s eq (inl h) = inl (
      enqueue_closed (committed e) (record s { current_revision = e.revision })
        (record { is_closed = h.is_closed; emptied = h.emptied; seen = h.seen }))
  next-Ordered e s eq (inr h) =
      let l = h.level in
      let at : e.revision ≡ suc (start + h.count) = omega arith in
      enqueue-Ordered sink max start (suc h.count) (committed e)
        (record s { current_revision = e.revision }) h.is_live
        (sym (append_assoc (revisions s.written) (revisions s.queue) (e.revision ∷ []))
          ∙ ap (λ (x : List ℕ). x ++ (e.revision ∷ [])) h.order
          ∙ ap (λ (k : ℕ). upto start h.count ++ (k ∷ [])) at
          ∙ upto_snoc start h.count)
        (omega arith)

  abbrev pub Second : Bool × Connection → Type 0
  Second r = Ordered max start r.1

  pub accept_sequential_event-Second :
      (e : CommittedStateEvent) (s : Connection)
      → Ordered max start s
      → Second (accept_sequential_event sink max e s)
  unfolding accept_sequential_event
  accept_sequential_event-Second e s h =
      if_elim Second {t = leb e.revision s.current_revision} {x = (true, s)} (λ _. h)
        (λ _.
          if_elim Second {t = not (e.revision == suc s.current_revision)}
            {x = (false, force_resync sink max (suc s.current_revision) s.server_revision s)}
            (λ _. force_resync-Ordered (suc s.current_revision) s.server_revision s h)
            (λ is. next-Ordered e s (ground arith) h))

  pub accept_committed-Ordered :
      (e : CommittedStateEvent) (s : Connection)
      → Ordered max start s
      → Ordered max start (accept_committed sink max e s)
  unfolding accept_committed
  accept_committed-Ordered e s h =
      let server = larger s.server_revision e.revision in
      if_elim (Ordered max start) {t = s.closed} {x = s} (λ _. h)
        (λ _.
          if_elim (Ordered max start) {t = s.replaying}
            {x = record s { server_revision = server; live_buffer = set_event e s.live_buffer }}
            (λ _. kept-Ordered server (set_event e s.live_buffer) s.replaying s.blocked s h)
            (λ _.
              accept_sequential_event-Second e (record s { server_revision = server })
                (kept-Ordered server s.live_buffer s.replaying s.blocked s h)))

  pub accept_transient-Ordered :
      (t : Text) (s : Connection)
      → Ordered max start s
      → Ordered max start (accept_transient sink max t s)
  unfolding accept_transient
  accept_transient-Ordered t s h =
      if_elim (Ordered max start) {t = s.closed || s.replaying} {x = s} (λ _. h)
        (λ _. enqueue_plain (transient t) s refl h)
