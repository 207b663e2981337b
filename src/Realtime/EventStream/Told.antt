-- ===== src/Realtime/EventStream/Told.antt =====
-- About the revisions that a connection of the stream of events was told of: where the highest of them is.
use aquarium_controller.Prelude.{
  ℕ, ◌≤◌, ◌<◌, ◌≡◌, subst, ◌⊎◌, inl, inr, true, false, List, [], ◌∷◌, ltb, arith, Bool-cases,
}
use aquarium_controller.Prelude.Sorting.{count, count-sort_by}
use aquarium_controller.Realtime.EventStream.{
  CommittedStateEvent, ReplayWindow, larger, set_event, StreamEvent, replay_read,
}
use aquarium_controller.Realtime.EventStream.Marks.{Marks, top, AllUpto}
use aquarium_controller.Realtime.EventStream.Catching.{
  revisions_of, in_turn, top_least, top-count, count-set_event,
}

-- While the replay is read, the server's revision is the current one or waits in the buffer; then it is the current one.
pub record Level (start : ℕ) (m : Marks) : Type 0 where
  pub asked : start ≤ m.current
  pub behind : m.current ≤ m.server
  pub reached : m.replaying ≡ false → m.server ≤ m.current
  pub pending :
      m.replaying ≡ true → (m.server ≤ m.current) ⊎ (0 < count m.server (revisions_of m.buffer))
  pub known : m.replaying ≡ true → AllUpto m.server m.buffer

-- What a window holds: no event after its current revision, and the event of that revision unless the client has it or
-- the limit was met
pub record IsWindow (start : ℕ) (w : ReplayWindow) : Type 0 where
  pub within : AllUpto w.current_revision w.events
  pub whole :
      w.replay_limit_exceeded ≡ false
      → (w.current_revision ≤ start) ⊎ (0 < count w.current_revision (revisions_of w.events))

abbrev pub ReadsWindows : ℕ → List StreamEvent → Type 0
ReadsWindows start [] = Unit {0}
ReadsWindows start (replay_read w ∷ rest) = IsWindow start w × ReadsWindows start rest
ReadsWindows start (e ∷ rest) = ReadsWindows start rest

pub still_pending :
    (e : CommittedStateEvent) (buffer : List CommittedStateEvent) (c server v : ℕ)
    → server ≡ v
    → (server ≤ c) ⊎ (0 < count server (revisions_of buffer))
    → (v ≤ c) ⊎ (0 < count v (revisions_of (set_event e buffer)))
still_pending e buffer c server v same (inl h) = inl (omega arith)
still_pending e buffer c server v same (inr h) =
    let more = count-set_event server e buffer in
    inr (subst (λ (n : ℕ). 0 < count n (revisions_of (set_event e buffer))) same (omega arith))

pub caught_up :
    (v low : ℕ) (buffer : List CommittedStateEvent)
    → (v ≤ low) ⊎ (0 < count v (revisions_of buffer))
    → v ≤ top low (in_turn buffer)
caught_up v low buffer (inl h) = let least = top_least low (in_turn buffer) in omega arith
caught_up v low buffer (inr h) =
    let same = count-sort_by (λ (e : CommittedStateEvent). e.revision) v buffer in
    top-count low v (in_turn buffer) (omega arith)

window_reached :
    (start : ℕ) (w : ReplayWindow) (c : ℕ)
    → IsWindow start w
    → w.replay_limit_exceeded ≡ false
    → start ≤ c
    → w.current_revision ≤ top c w.events
window_reached start w c window few a = go (window.whole few)
  where
    go :
        (w.current_revision ≤ start) ⊎ (0 < count w.current_revision (revisions_of w.events))
        → w.current_revision ≤ top c w.events
    go (inl h) = let least = top_least c w.events in omega arith
    go (inr h) = top-count c w.current_revision w.events h

kept_pending :
    (c server low : ℕ) (buffer : List CommittedStateEvent)
    → c ≤ low
    → (server ≤ c) ⊎ (0 < count server (revisions_of buffer))
    → (server ≤ low) ⊎ (0 < count server (revisions_of buffer))
kept_pending c server low buffer least (inl h) = inl (omega arith)
kept_pending c server low buffer least (inr h) = inr h

-- The server's revision after a replay is reached by its events, or waits in the buffer.
pub replay_goal :
    (start : ℕ) (w : ReplayWindow) (c server : ℕ) (buffer : List CommittedStateEvent)
    → IsWindow start w
    → w.replay_limit_exceeded ≡ false
    → start ≤ c
    → (server ≤ c) ⊎ (0 < count server (revisions_of buffer))
    → (larger server w.current_revision ≤ top c w.events)
      ⊎ (0 < count (larger server w.current_revision) (revisions_of buffer))
replay_goal start w c server buffer window few a pending =
    elim (Bool-cases (ltb server w.current_revision)) [
      | inl newer ↦
          let h = window_reached start w c window few a in
          inl (
            let same : larger server w.current_revision ≡ w.current_revision = ground arith in
            omega arith)
      | inr older ↦
          let same : server ≡ larger server w.current_revision = ground arith in
          subst (λ (n : ℕ). (n ≤ top c w.events) ⊎ (0 < count n (revisions_of buffer))) same
            (kept_pending c server (top c w.events) buffer (top_least c w.events) pending)
    ]
