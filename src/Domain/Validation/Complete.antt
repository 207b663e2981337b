-- ===== src/Domain/Validation/Complete.antt =====
-- About validateScheduleGraph: from the description of a day to the checks.
use aquarium_controller.Prelude.{ℕ, suc, ◌≤◌, ◌≡◌, refl, sym, ◌∙◌, List, [], ◌∷◌, arith, some, ◌↔◌}
use aquarium_controller.Number.{eq-num, eq-finite}
use aquarium_controller.Domain.Schedule.{
  ScheduleSegment, ScheduleGraph, ScheduleValidationIssue, valid, utc_minute_max,
}
use aquarium_controller.Domain.Validation.{
  segment_issues, adjacency_issues, start_issues, end_issues, wrap_issues, graph_issues, verdict,
  validate_schedule_graph,
}
use aquarium_controller.Domain.Validation.Points.{
  point, full, no_issue_of_point, no_issue_of_lt, no_issue_of_eq,
}
use aquarium_controller.Domain.Validation.Sound.{IsPeriodic-of_no_issue}
use aquarium_controller.Domain.Validation.Runs.{Runs, IsPeriodic, last_segment, get_elem?-length}

pub Runs-le : (m p e f : ℕ) (segments : List ScheduleSegment) → Runs m p e f segments → m ≤ e
Runs-le m p e f [] r = omega arith
Runs-le m p e f (s ∷ rest) (es, n, q, et, lt, hq, r) = omega (arith, Runs-le n q e f rest r)

no_segment_issue :
    (i m p e f : ℕ) (segments : List ScheduleSegment)
    → Runs m p e f segments
    → e ≤ utc_minute_max
    → p ≤ full
    → segment_issues i segments ≡ []
unfolding segment_issues
no_segment_issue i m p e f [] r he hp = refl
no_segment_issue i m p e f (s ∷ rest) (es, n, q, et, lt, hq, r) he hp =
    let le' = Runs-le n q e f rest r in
    rw
      (
        es,
        et,
        no_issue_of_point m p i _ (omega arith) hp,
        no_issue_of_point n q i _ (omega arith) hq,
        no_issue_of_lt i m n lt,
      )
      (no_segment_issue (suc i) n q e f rest r he hq)

no_joint_issue :
    (j m p e f : ℕ) (s : ScheduleSegment) (rest : List ScheduleSegment)
    → Runs m p e f (s ∷ rest)
    → adjacency_issues j (s ∷ rest) ≡ []
unfolding adjacency_issues
no_joint_issue j m p e f s [] r = refl
no_joint_issue j m p e f s (t ∷ rest) (es, n, q, et, lt, hq, r) =
    rw (et, r.0, no_issue_of_eq j n q) (no_joint_issue (suc j) n q e f t rest r)

last_target :
    (m p e f : ℕ) (s : ScheduleSegment) (rest : List ScheduleSegment)
    → Runs m p e f (s ∷ rest)
    → (last_segment s rest).target ≡ point e f
last_target m p e f s [] (es, n, q, et, lt, hq, r) = rw (← r.0, ← r.1) et
last_target m p e f s (t ∷ rest) (es, n, q, et, lt, hq, r) = last_target n q e f t rest r

no_end_issue :
    (s t : ScheduleSegment) (p : ℕ)
    → s.source ≡ point 0 p
    → t.target ≡ point utc_minute_max p
    → (start_issues (some s) ≡ [])
      × (end_issues (some t) ≡ [])
      × (wrap_issues (some s) (some t) ≡ [])
unfolding start_issues end_issues wrap_issues
no_end_issue s t p es et = (
  rw (es, eq-num 0 0) (ground arith),
  rw (et, eq-num utc_minute_max utc_minute_max) (ground arith),
  rw (es, et, eq-finite p p) (ground arith),
)

no_issue_of_periodic :
    (s : ScheduleSegment) (rest : List ScheduleSegment) (p : ℕ)
    → p ≤ full
    → Runs 0 p utc_minute_max p (s ∷ rest)
    → graph_issues (s ∷ rest) ≡ []
unfolding graph_issues
no_issue_of_periodic s rest p hp r =
    let (a, b, c) =
      no_end_issue s (last_segment s rest) p r.0 (last_target 0 p utc_minute_max p s rest r) in
    rw (
      no_segment_issue 0 0 p utc_minute_max p (s ∷ rest) r (omega arith) hp,
      get_elem?-length s rest,
      a,
      b,
      no_joint_issue 0 0 p utc_minute_max p s rest r,
      c,
    )

valid_of_verdict :
    (g : ScheduleGraph) (issues : List ScheduleValidationIssue)
    → verdict g issues ≡ valid g
    → issues ≡ []
unfolding verdict
valid_of_verdict g [] h = refl
valid_of_verdict g (i ∷ is) h = cc

validate-cons :
    (s : ScheduleSegment) (rest : List ScheduleSegment)
    → let g : ScheduleGraph = record { segments = s ∷ rest } in
      validate_schedule_graph g ≡ verdict g (graph_issues (s ∷ rest))
unfolding validate_schedule_graph
validate-cons s rest = ground arith

accepted-IsPeriodic :
    (segments : List ScheduleSegment)
    → let g : ScheduleGraph = record { segments = segments } in
      validate_schedule_graph g ≡ valid g → IsPeriodic g
unfolding validate_schedule_graph
accepted-IsPeriodic [] h = absurd (cc)
accepted-IsPeriodic (s ∷ rest) h = IsPeriodic-of_no_issue s rest (
    valid_of_verdict (record { segments = s ∷ rest }) (graph_issues (s ∷ rest))
      (sym (validate-cons s rest) ∙ h))

periodic-accepted :
    (segments : List ScheduleSegment)
    → let g : ScheduleGraph = record { segments = segments } in
      IsPeriodic g → validate_schedule_graph g ≡ valid g
periodic-accepted [] (p, hp, r) = absurd (omega arith)
periodic-accepted (s ∷ rest) (p, hp, r) =
    rw (validate-cons s rest, no_issue_of_periodic s rest p hp r) (unfold verdict in refl)

-- `validateScheduleGraph` accepts a graph, and gives it back as it is, exactly if its segments run
-- from minute 0 to minute 1439, each strictly forward and from the minute and the percent where the
-- one before it ends, with every percent from 0 to 100, and the last percent equal to the first.
pub validate_schedule_graph_iff :
    (g : ScheduleGraph) → (validate_schedule_graph g ≡ valid g) ↔ IsPeriodic g
validate_schedule_graph_iff g = (accepted-IsPeriodic g.segments, periodic-accepted g.segments)
