-- ===== src/Realtime/EventStream.antt =====
-- apps/controller/src/realtime/state-event-stream.ts: one connection of the stream of events. `sink n` is what the
-- call of sink.write for frame n comes to, and `written` lists the frames of these calls. Dates and texts of frames
-- are left out; a clock reading is taken to be a valid date, and a sink calls no method of the connection back.
pub mod Accepting
pub mod Order
pub mod Frames
pub mod Marks
pub mod Catching
pub mod Told
pub mod Level
use aquarium_controller.Prelude.{
  ℕ, zero, suc, ◌-◌, Bool, true, false, not, ◌&&◌, ◌||◌, List, [], ◌∷◌, ◌++◌, if◌then◌else◌, ltb,
  leb, ◌==◌, length, Text,
}
use aquarium_controller.Prelude.Sorting.{sort_by, by_key}

pub record CommittedStateEvent : Type 0 where
  pub revision : ℕ
  pub payload : Text

pub data Frame : Type 0 where
  committed : CommittedStateEvent → Frame
  transient : Text → Frame
  stream_ready : ℕ → ℕ → Frame
  heartbeat_frame : ℕ → Frame
  resync_required : ℕ → ℕ → ℕ → Frame

pub data WriteEnd : Type 0 where
  taken full threw : WriteEnd

pub record ReplayWindow : Type 0 where
  pub current_revision : ℕ
  pub earliest_available_revision : ℕ
  pub events : List CommittedStateEvent
  pub replay_limit_exceeded : Bool

pub record Connection : Type 0 where
  pub requested_revision : ℕ
  pub live_buffer : List CommittedStateEvent
  pub queue : List Frame
  pub current_revision : ℕ
  pub server_revision : ℕ
  pub replaying : Bool
  pub blocked : Bool
  pub closed : Bool
  pub written : List Frame

abbrev pub new_connection : ℕ → Connection
new_connection requested = record {
  requested_revision = requested;
  live_buffer = [];
  queue = [];
  current_revision = requested;
  server_revision = requested;
  replaying = true;
  blocked = false;
  closed = false;
  written = [];
}

-- Math.max
abbrev pub larger : ℕ → ℕ → ℕ
larger a b = if ltb a b then b else a

-- Map.set by revision: a key that is set anew keeps its place.
unfoldable pub set_event : CommittedStateEvent → List CommittedStateEvent → List CommittedStateEvent
set_event new [] = new ∷ []
set_event new (e ∷ rest) =
    let others = e ∷ set_event new rest in if e.revision == new.revision then new ∷ rest else others

unfoldable pub close : Connection → Connection
close s = if s.closed then s else record s { closed = true; queue = []; live_buffer = [] }

abbrev pub after_write : WriteEnd → Connection → Connection
after_write taken s = record s { blocked = false }
after_write full s = record s { blocked = true }
after_write threw s = close s

abbrev pub is_empty : List Frame → Bool
is_empty [] = true
is_empty (f ∷ rest) = false

module _ (sink : ℕ → WriteEnd) (max_queued_frames : ℕ) where
  unfoldable pub write : Frame → Connection → Connection
  unfolding close
  write f s = after_write (sink (length s.written)) (record s { written = s.written ++ (f ∷ []) })

  unfoldable pub force_resync : ℕ → ℕ → Connection → Connection
  unfolding write close
  force_resync earliest current s =
      if s.closed
      then s
      else close
          (write (resync_required s.requested_revision earliest current) (record s { queue = [] }))

  unfoldable pub enqueue : Frame → Connection → Connection
  unfolding write force_resync
  enqueue f s =
      if s.closed
      then s
      else if not s.blocked && is_empty s.queue
      then write f s
      else if leb max_queued_frames (length s.queue)
      then force_resync s.current_revision s.server_revision s
      else record s { queue = s.queue ++ (f ∷ []) }

  -- #acceptSequentialEvent, with what it returns
  unfoldable pub accept_sequential_event : CommittedStateEvent → Connection → Bool × Connection
  unfolding enqueue force_resync
  accept_sequential_event e s =
      let sent = enqueue (committed e) (record s { current_revision = e.revision }) in
      if leb e.revision s.current_revision
      then (true, s)
      else if not (e.revision == suc s.current_revision)
      then (false, force_resync (suc s.current_revision) s.server_revision s)
      else (not sent.closed, sent)

  unfoldable pub accept_committed : CommittedStateEvent → Connection → Connection
  unfolding accept_sequential_event set_event
  accept_committed e s =
      let next = record s { server_revision = larger s.server_revision e.revision } in
      if s.closed
      then s
      else if s.replaying
      then record next { live_buffer = set_event e s.live_buffer }
      else (accept_sequential_event e next).1

  unfoldable pub accept_transient : Text → Connection → Connection
  unfolding enqueue
  accept_transient t s = if s.closed || s.replaying then s else enqueue (transient t) s

  -- The two loops of finishReplay: whether they went through, and what they leave
  unfoldable pub replay_events : List CommittedStateEvent → Connection → Bool × Connection
  unfolding accept_sequential_event
  replay_events [] s = (true, s)
  replay_events (e ∷ rest) s =
      let (ok', next) = accept_sequential_event e s in
      let later = replay_events rest next in if ok' then later else (false, next)

  unfoldable pub replay_buffered : List CommittedStateEvent → Connection → Bool × Connection
  unfolding accept_sequential_event
  replay_buffered [] s = (true, s)
  replay_buffered (e ∷ rest) s =
      let skipped = replay_buffered rest s in
      let (ok', next) = accept_sequential_event e s in
      let later = replay_buffered rest next in
      if leb e.revision s.current_revision then skipped else if ok' then later else (false, next)

  -- finishReplay after its first loop
  unfoldable pub finish_buffered : ℕ → Bool × Connection → Connection
  unfolding replay_buffered enqueue
  finish_buffered replayed (false, s) = s
  finish_buffered replayed (true, s) =
      let (ok', next) =
        replay_buffered (sort_by (by_key (λ e. e.revision)) s.live_buffer)
          (record s { live_buffer = []; replaying = false }) in
      if ok' then enqueue (stream_ready next.current_revision replayed) next else next

  unfoldable pub finish_replay : ReplayWindow → Connection → Connection
  unfolding replay_events finish_buffered force_resync
  finish_replay w s =
      let next = record s { server_revision = larger s.server_revision w.current_revision } in
      let resynced = force_resync w.earliest_available_revision w.current_revision next in
      if s.closed
      then s
      else if ltb w.current_revision s.requested_revision
      then resynced
      else if ltb s.requested_revision (w.earliest_available_revision - 1)
      then resynced
      else if w.replay_limit_exceeded
      then resynced
      else finish_buffered (length w.events) (replay_events w.events next)

  unfoldable pub heartbeat : Connection → Connection
  unfolding enqueue
  heartbeat s = if s.closed then s else enqueue (heartbeat_frame s.server_revision) s

  -- A round of the loop of drain; `next` is the rest of the loop.
  abbrev pub drain_round : (Connection → Connection) → List Frame → Connection → Connection
  drain_round next [] s = s
  drain_round next (f ∷ rest) s =
      if s.blocked then s else next (write f (record s { queue = rest }))

  -- The loop of drain, which takes a frame off the queue in each round
  unfoldable pub drain_loop : ℕ → Connection → Connection
  unfolding write
  drain_loop zero s = s
  drain_loop (suc fuel) s = drain_round (drain_loop fuel) s.queue s

  unfoldable pub drain : Connection → Connection
  unfolding drain_loop
  drain s = if s.closed then s else drain_loop (length s.queue) (record s { blocked = false })

-- `replay_read` is the call of finishReplay, which open makes once.
pub data StreamEvent : Type 0 where
  committed_published : CommittedStateEvent → StreamEvent
  transient_published : Text → StreamEvent
  replay_read : ReplayWindow → StreamEvent
  heartbeat_due : StreamEvent
  drained : StreamEvent
  closed_by_client : StreamEvent

module _ (sink : ℕ → WriteEnd) (max_queued_frames : ℕ) where
  unfoldable pub stream_step : StreamEvent → Connection → Connection
  unfolding accept_committed accept_transient finish_replay heartbeat drain close
  stream_step (committed_published e) s = accept_committed sink max_queued_frames e s
  stream_step (transient_published t) s = accept_transient sink max_queued_frames t s
  stream_step (replay_read w) s =
      if s.replaying then finish_replay sink max_queued_frames w s else s
  stream_step heartbeat_due s = heartbeat sink max_queued_frames s
  stream_step drained s = drain sink max_queued_frames s
  stream_step closed_by_client s = close s

  unfoldable pub run_stream : Connection → List StreamEvent → Connection
  unfolding stream_step
  run_stream s [] = s
  run_stream s (e ∷ rest) = run_stream (stream_step e s) rest
