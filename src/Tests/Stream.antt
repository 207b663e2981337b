-- ===== src/Tests/Stream.antt =====
-- apps/controller/src/realtime: a connection whose client reads slowly for a while.
use aquarium_controller.Prelude.{
  ℕ, ◌-◌, ◌≤◌, inr, arith, ◌≡◌, refl, List, [], ◌∷◌, ◌++◌, length, codes, ◌==◌, if◌then◌else◌,
}
use mathlib.Core.List.{Perm}
use aquarium_controller.Prelude.Sorting.{sort_by, IsAscending}
use aquarium_controller.Realtime.ReplayWindow.{read_replay_window, read_replay_window-IsWindow}
use aquarium_controller.Realtime.EventStream.{
  CommittedStateEvent, WriteEnd, taken, full, Connection, new_connection, StreamEvent,
  committed_published, replay_read, heartbeat_due, run_stream,
}
use aquarium_controller.Realtime.EventStream.Frames.{revisions, upto}
use aquarium_controller.Realtime.EventStream.Catching.{revisions_of}
use aquarium_controller.Realtime.ReplayWindow.Exact.{
  IsGreatest, IsLeast, Limited, rows_between, read_replay_window_exact,
}
use aquarium_controller.Realtime.EventStream.Level.{run_stream_level}
use aquarium_controller.Realtime.EventStream.Order.{run_stream_in_order, run_stream_complete}

abbrev event : ℕ → CommittedStateEvent
event n = record { revision = n; payload = codes "changed" }

-- The third write finds the buffer full.
abbrev slow_client : ℕ → WriteEnd
slow_client n = if n == 2 then full else taken

abbrev revisions_made : List ℕ
revisions_made = 1 ∷ 2 ∷ 3 ∷ 4 ∷ 5 ∷ 6 ∷ 7 ∷ []

abbrev outbox : List CommittedStateEvent
outbox = event 3 ∷ event 4 ∷ event 5 ∷ event 6 ∷ event 7 ∷ []

-- Revision 8 is published while the replay of 6 and 7 is read.
abbrev a_session : List StreamEvent
a_session =
    committed_published (event 8)
    ∷ replay_read (read_replay_window 100 revisions_made outbox 5)
    ∷ committed_published (event 9)
    ∷ heartbeat_due
    ∷ []

abbrev after_session : Connection
after_session = run_stream slow_client 4 (new_connection 5) a_session

written_revisions : revisions after_session.written ≡ 6 ∷ 7 ∷ 8 ∷ []
unfolding run_stream sort_by read_replay_window
written_revisions = refl

waiting : revisions after_session.queue ≡ 9 ∷ []
unfolding run_stream sort_by read_replay_window
waiting = refl

run_stream_in_order_example :
    (revisions after_session.written ≡ upto 5 (length (revisions after_session.written)))
    × (length after_session.queue ≤ 4)
run_stream_in_order_example = run_stream_in_order slow_client 4 5 a_session

run_stream_complete_example :
    revisions (after_session.written ++ after_session.queue)
    ≡ upto 5 (after_session.current_revision - 5)
unfolding run_stream sort_by read_replay_window
run_stream_complete_example = run_stream_complete slow_client 4 5 a_session refl

run_stream_level_example : after_session.current_revision ≡ after_session.server_revision
unfolding run_stream sort_by read_replay_window
run_stream_level_example =
    run_stream_level slow_client 4 5 a_session
      (read_replay_window-IsWindow 100 revisions_made outbox 5 (inr (omega arith)), tt) refl refl

-- The rows stand in the outbox in another order; after 4, only three may be read.
abbrev mixed : List CommittedStateEvent
mixed = event 6 ∷ event 4 ∷ event 7 ∷ event 3 ∷ event 5 ∷ []

read_in_order : revisions_of (read_replay_window 2 revisions_made mixed 4).events ≡ 5 ∷ 6 ∷ 7 ∷ []
unfolding sort_by read_replay_window
read_in_order = refl

read_replay_window_exact_example :
    IsGreatest 7 revisions_made
    × IsLeast 8 3 (revisions_of mixed)
    × ((rest : List CommittedStateEvent) × IsAscending
          (revisions_of (event 5 ∷ event 6 ∷ event 7 ∷ rest))
        × Perm (event 5 ∷ event 6 ∷ event 7 ∷ rest) (rows_between 4 7 mixed)
        × Limited 2 (read_replay_window 2 revisions_made mixed 4) rest)
unfolding sort_by read_replay_window
read_replay_window_exact_example = read_replay_window_exact 2 revisions_made mixed 4
