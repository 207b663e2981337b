-- ===== src/Domain/Evaluation/Coverage.antt =====
-- About the evaluations of a schedule: which segment they take.
use aquarium_controller.Prelude.{
  ℕ, ◌≤◌, ◌<◌, ◌≡◌, inl, inr, true, false, List, [], ◌∷◌, arith, Bool-cases, leb,
}
use aquarium_controller.Prelude.Result.{ok}
use aquarium_controller.Number.{num, le-num}
use aquarium_controller.Domain.Schedule.{ScheduleSegment, ScheduleGraph, valid, utc_minute_max}
use aquarium_controller.Domain.Validation.{validate_schedule_graph}
use aquarium_controller.Domain.Validation.Points.{point, is_valid_utc_minute-num}
use aquarium_controller.Domain.Validation.Runs.{Runs}
use aquarium_controller.Domain.Validation.Complete.{validate_schedule_graph_iff}
use aquarium_controller.Domain.Evaluation.{
  Arithmetic, covers, interpolate_segment, find_percent, evaluate_schedule_percent, legacy_value,
  find_legacy, evaluate_legacy_schedule_percent_or_zero, assert_utc_minute,
}

-- `s` leads forward over minute `k`, and is the first of `segments` that reaches it.
pub data FirstOver (k : ℕ) : List ScheduleSegment → ScheduleSegment → Type 0 where
  here :
      {s : ScheduleSegment} {rest : List ScheduleSegment} (m p n q : ℕ)
      → s.source ≡ point m p
      → s.target ≡ point n q
      → m ≤ k
      → k ≤ n
      → m < n
      → FirstOver k (s ∷ rest) s
  later :
      {s t : ScheduleSegment} {rest : List ScheduleSegment} (n q : ℕ)
      → s.target ≡ point n q
      → n < k
      → FirstOver k rest t
      → FirstOver k (s ∷ rest) t

covers-points :
    (s : ScheduleSegment) (m p n q k : ℕ)
    → s.source ≡ point m p
    → s.target ≡ point n q
    → m ≤ k
    → k ≤ n
    → covers s (num k) ≡ true
unfolding covers
covers-points s m p n q k es et a b = rw (es, et, le-num m k, le-num k n) (ground arith)

not_covers-points :
    (s : ScheduleSegment) (n q k : ℕ) → s.target ≡ point n q → n < k → covers s (num k) ≡ false
unfolding covers
not_covers-points s n q k et b = rw (et, le-num k n) (ground arith)

first_over :
    (k m p e f : ℕ) (segments : List ScheduleSegment)
    → Runs m p e f segments
    → m ≤ k
    → k ≤ e
    → m < e
    → (s : ScheduleSegment) × FirstOver k segments s
first_over k m p e f [] r a b c = absurd (omega arith)
first_over k m p e f (s ∷ rest) (es, n, q, et, lt, hq, r) a b c = elim (Bool-cases (leb k n)) [
  | inl in_range ↦ (s, here m p n q es et a (ground arith) lt)
  | inr past ↦
      let (t, h) = first_over k n q e f rest r (ground arith) b (ground arith) in
      (t, later n q et (ground arith) h)
]

module _ (js : Arithmetic) where
  find_percent-first :
      {k : ℕ} {segments : List ScheduleSegment} {s : ScheduleSegment}
      → FirstOver k segments s
      → find_percent js segments (num k) ≡ ok (interpolate_segment js s (num k))
  unfolding find_percent
  find_percent-first {k} {s = s} (here m p n q es et a b c) =
      rw (covers-points s m p n q k es et a b)
  find_percent-first {k} (later {s = s} n q et lt h) =
      rw (not_covers-points s n q k et lt) (find_percent-first h)

  find_legacy-first :
      {k : ℕ} {segments : List ScheduleSegment} {s : ScheduleSegment}
      → FirstOver k segments s
      → find_legacy js segments (num k) ≡ legacy_value js s (num k)
  unfolding find_legacy
  find_legacy-first {k} {s = s} (here m p n q es et a b c) =
      rw (covers-points s m p n q k es et a b)
  find_legacy-first {k} (later {s = s} n q et lt h) =
      rw (not_covers-points s n q k et lt) (find_legacy-first h)

  -- If `validateScheduleGraph` accepts a graph, then at each minute from 0 to 1439 one segment, which
  -- lasts longer than nothing, is the first to hold that minute: `evaluateSchedulePercent` returns its
  -- interpolation and throws nothing, and the firmware's evaluation takes the same segment.
  pub evaluate_schedule_percent_covered :
      (g : ScheduleGraph) (k : ℕ)
      → validate_schedule_graph g ≡ valid g
      → k ≤ utc_minute_max
      → (s : ScheduleSegment) × FirstOver k g.segments s
        × (evaluate_schedule_percent js g (num k) ≡ ok (interpolate_segment js s (num k)))
        × (evaluate_legacy_schedule_percent_or_zero js g.segments (num k)
            ≡ ok (legacy_value js s (num k)))
  unfolding evaluate_schedule_percent evaluate_legacy_schedule_percent_or_zero assert_utc_minute
  evaluate_schedule_percent_covered g k h hk =
      let (p, hp, r) = (validate_schedule_graph_iff g).0 h in
      let (s, first) =
        first_over k 0 p utc_minute_max p g.segments r (omega arith) hk (omega arith) in
      let fine = is_valid_utc_minute-num k hk in
      (s, first, rw fine (find_percent-first first), rw (fine, find_legacy-first first))
