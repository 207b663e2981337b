-- ===== src/Realtime/EventStream/Marks.antt =====
-- About a connection of the stream of events: what no write changes, and how far an accepted event brings it.
use aquarium_controller.Prelude.{
  ℕ, zero, suc, ◌≤◌, ◌≡◌, refl, ◌⊎◌, inl, inr, Bool, true, false, not, ◌&&◌, List, [], ◌∷◌, ◌++◌,
  if_elim, leb, ◌==◌, length, arith,
}
use aquarium_controller.Realtime.EventStream.{
  CommittedStateEvent, Frame, committed, WriteEnd, taken, full, threw, Connection, larger, close,
  after_write, is_empty, write, force_resync, enqueue, accept_sequential_event, drain_round,
  drain_loop, drain, resync_required,
}

-- What the connection knows of the revisions
pub record Marks : Type 0 where
  pub current : ℕ
  pub server : ℕ
  pub replaying : Bool
  pub buffer : List CommittedStateEvent

abbrev pub marks : Connection → Marks
marks s = record {
  current = s.current_revision;
  server = s.server_revision;
  replaying = s.replaying;
  buffer = s.live_buffer;
}

-- A property of the marks, for as long as the connection is open
abbrev pub Kept : (Marks → Type 0) → Connection → Type 0
Kept P s = (s.closed ≡ true) ⊎ P (marks s)

pub close_closed : (s : Connection) → (close s).closed ≡ true
unfolding close
close_closed s =
    if_elim (λ (t : Connection). t.closed ≡ true) {t = s.closed} {x = s} (λ h. h) (λ _. refl)

module _ (P : Marks → Type 0) where
  after_write-Kept : (e : WriteEnd) (s : Connection) → Kept P s → Kept P (after_write e s)
  after_write-Kept taken s h = h
  after_write-Kept full s h = h
  after_write-Kept threw s h = inl (close_closed s)

module _ (sink : ℕ → WriteEnd) (max : ℕ) where
  pub force_resync_closed :
      (earliest current : ℕ) (s : Connection)
      → (force_resync sink max earliest current s).closed ≡ true
  unfolding force_resync
  force_resync_closed earliest current s =
      if_elim (λ (t : Connection). t.closed ≡ true) {t = s.closed} {x = s} (λ h. h)
        (λ _. close_closed (
          write sink max (resync_required s.requested_revision earliest current)
            (record s { queue = [] })))

module _ (sink : ℕ → WriteEnd) (max : ℕ) (P : Marks → Type 0) where
  write-Kept : (f : Frame) (s : Connection) → Kept P s → Kept P (write sink max f s)
  unfolding write
  write-Kept f s h =
      after_write-Kept P (sink (length s.written)) (record s { written = s.written ++ (f ∷ []) }) h

  pub enqueue-Kept : (f : Frame) (s : Connection) → Kept P s → Kept P (enqueue sink max f s)
  unfolding enqueue
  enqueue-Kept f s h =
      if_elim (Kept P) {t = s.closed} {x = s} (λ _. h)
        (λ _.
          if_elim (Kept P) {t = not s.blocked && is_empty s.queue} {x = write sink max f s}
            (λ _. write-Kept f s h)
            (λ _.
              if_elim (Kept P) {t = leb max (length s.queue)}
                {x = force_resync sink max s.current_revision s.server_revision s}
                (λ _. inl (force_resync_closed sink max s.current_revision s.server_revision s))
                (λ _. h)))

  drain_round-Kept :
      (next : Connection → Connection) (queue : List Frame) (s : Connection)
      → ((t : Connection) → Kept P t → Kept P (next t))
      → Kept P s
      → Kept P (drain_round sink max next queue s)
  drain_round-Kept next [] s later h = h
  drain_round-Kept next (f ∷ rest) s later h =
      let t = write sink max f (record s { queue = rest }) in
      if_elim (Kept P) {t = s.blocked} {x = s} (λ _. h)
        (λ _. later t (write-Kept f (record s { queue = rest }) h))

  drain_loop-Kept : (fuel : ℕ) (s : Connection) → Kept P s → Kept P (drain_loop sink max fuel s)
  unfolding drain_loop
  drain_loop-Kept zero s h = h
  drain_loop-Kept (suc fuel) s h =
      drain_round-Kept (drain_loop sink max fuel) s.queue s (drain_loop-Kept fuel) h

  pub drain-Kept : (s : Connection) → Kept P s → Kept P (drain sink max s)
  unfolding drain
  drain-Kept s h =
      if_elim (Kept P) {t = s.closed} {x = s} (λ _. h)
        (λ _. drain_loop-Kept (length s.queue) (record s { blocked = false }) h)

-- The current revision is between `low` and the server's, which is `v`.
pub record Between (replaying : Bool) (buffer : List CommittedStateEvent) (v low : ℕ) (m : Marks)
    : Type 0 where
  pub same_replaying : m.replaying ≡ replaying
  pub same_buffer : m.buffer ≡ buffer
  pub same_server : m.server ≡ v
  pub from : low ≤ m.current
  pub until : m.current ≤ v

-- How far the events of a list bring a connection that is at `low`
abbrev pub top : ℕ → List CommittedStateEvent → ℕ
top low [] = low
top low (e ∷ rest) = top (larger low e.revision) rest

abbrev pub AllUpto : ℕ → List CommittedStateEvent → Type 0
AllUpto v [] = Unit {0}
AllUpto v (e ∷ rest) = (e.revision ≤ v) × AllUpto v rest

module _ (sink : ℕ → WriteEnd) (max : ℕ) (replaying : Bool) (buffer : List CommittedStateEvent)
    (v : ℕ) where
  abbrev pub Reached : ℕ → Connection → Type 0
  Reached low s = Kept (Between replaying buffer v low) s

  abbrev pub ReachedSecond : ℕ → Bool × Connection → Type 0
  ReachedSecond low r = Reached low r.1

  pub seen_before :
      (low : ℕ) (e : CommittedStateEvent) (s : Connection)
      → e.revision ≤ s.current_revision
      → Reached low s
      → Reached (larger low e.revision) s
  seen_before low e s h (inl closed) = inl closed
  seen_before low e s h (inr b) = inr (record {
    same_replaying = b.same_replaying;
    same_buffer = b.same_buffer;
    same_server = b.same_server;
    from = let f = b.from in ground arith;
    until = b.until;
  })

  next-Reached :
      (low : ℕ) (e : CommittedStateEvent) (s : Connection)
      → e.revision ≤ v
      → e.revision ≡ suc s.current_revision
      → Reached low s
      → Reached (larger low e.revision) (record s { current_revision = e.revision })
  next-Reached low e s small next (inl closed) = inl closed
  next-Reached low e s small next (inr b) = inr (record {
    same_replaying = b.same_replaying;
    same_buffer = b.same_buffer;
    same_server = b.same_server;
    from = let f = b.from in ground arith;
    until = small;
  })

  pub accept-Reached :
      (low : ℕ) (e : CommittedStateEvent) (s : Connection)
      → e.revision ≤ v
      → Reached low s
      → ReachedSecond (larger low e.revision) (accept_sequential_event sink max e s)
  unfolding accept_sequential_event
  accept-Reached low e s small h =
      if_elim (ReachedSecond (larger low e.revision)) {t = leb e.revision s.current_revision}
        {x = (true, s)} (λ seen. seen_before low e s (ground arith) h)
        (λ _.
          if_elim (ReachedSecond (larger low e.revision))
            {t = not (e.revision == suc s.current_revision)}
            {x = (false, force_resync sink max (suc s.current_revision) s.server_revision s)}
            (λ _. inl (force_resync_closed sink max (suc s.current_revision) s.server_revision s))
            (λ is.
              enqueue-Kept sink max (Between replaying buffer v (larger low e.revision))
                (committed e) (record s { current_revision = e.revision })
                (next-Reached low e s small (ground arith) h)))
