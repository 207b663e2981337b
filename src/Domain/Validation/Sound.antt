-- ===== src/Domain/Validation/Sound.antt =====
-- About validateScheduleGraph: from the checks to the description of a day.
use aquarium_controller.Prelude.{
  ℕ, suc, ◌-◌, ◌≤◌, ◌<◌, ◌≡◌, refl, sym, ap, List, [], ◌∷◌, arith, length, get_elem?, subst, some,
}
use aquarium_controller.Number.{eq-num, eq-finite}
use aquarium_controller.Domain.Schedule.{ScheduleSegment, source_end, target_end, utc_minute_max}
use aquarium_controller.Domain.Validation.{
  validate_point, order_issues, joint_issues, segment_issues, adjacency_issues, start_issues,
  end_issues, wrap_issues, graph_issues,
}
use aquarium_controller.Domain.Validation.Points.{
  point, full, append-eq-nil, point_of_no_issue, lt_of_no_issue, eq_of_no_issue,
  is_valid_utc_minute-num, is_valid_percent-finite,
}
use aquarium_controller.Domain.Validation.Runs.{Runs, IsPeriodic, last_segment, get_elem?-length}

-- A segment that passes the checks of the loop
abbrev Passes : ScheduleSegment → ℕ → ℕ → ℕ → ℕ → Type 0
Passes s m p n q =
    (s.source ≡ point m p)
    × (s.target ≡ point n q)
    × (m < n)
    × (n ≤ utc_minute_max)
    × (p ≤ full)
    × (q ≤ full)

segment_of_no_issue :
    (i : ℕ) (s : ScheduleSegment) (rest : List ScheduleSegment)
    → segment_issues i (s ∷ rest) ≡ []
    → ((m : ℕ) × (p : ℕ) × (n : ℕ) × (q : ℕ) × Passes s m p n q)
      × (segment_issues (suc i) rest ≡ [])
unfolding segment_issues
segment_of_no_issue i s rest h =
    let (a, h') = append-eq-nil (validate_point s.source i source_end) _ h in
    let (b, h'') = append-eq-nil (validate_point s.target i target_end) _ h' in
    let (c, d) = append-eq-nil (order_issues i s.source.minute s.target.minute) _ h'' in
    let (m, p, es, hm, hp) = point_of_no_issue s.source i source_end a in
    let (n, q, et, hn, hq) = point_of_no_issue s.target i target_end b in
    let forward = lt_of_no_issue i m n hm hn (ap (λ x. x.minute) es) (ap (λ x. x.minute) et) c in
    ((m, p, n, q, (es, et, forward, hn, hp, hq)), d)

-- The loop over the segments and the loop over the neighbours, together.
Runs-of_no_issue :
    (i j : ℕ) (s : ScheduleSegment) (rest : List ScheduleSegment)
    → segment_issues i (s ∷ rest) ≡ []
    → adjacency_issues j (s ∷ rest) ≡ []
    → (m : ℕ) × (p : ℕ) × (e : ℕ) × (f : ℕ) × (s.source ≡ point m p)
      × ((last_segment s rest).target ≡ point e f)
      × (m ≤ utc_minute_max)
      × (e ≤ utc_minute_max)
      × (p ≤ full)
      × (f ≤ full)
      × Runs m p e f (s ∷ rest)
unfolding adjacency_issues
Runs-of_no_issue i j s [] h k =
    let (m, p, n, q, ps) = (segment_of_no_issue i s [] h).0 in
    let (es, et, lt, hn, hp, hq) = ps in
    (m, p, n, q, es, et, omega arith, hn, hp, hq, (es, n, q, et, lt, hq, (refl, refl)))
Runs-of_no_issue i j s (t ∷ rest) h k =
    let (here, h') = segment_of_no_issue i s (t ∷ rest) h in
    let (m, p, n, q, ps) = here in
    let (es, et, lt, hn, hp, hq) = ps in
    let (joint, k') = append-eq-nil (joint_issues j s.target t.source) _ k in
    let (n', q', e, f, es', el, hn', he, hq', hf, r) =
      Runs-of_no_issue (suc i) (suc j) t rest h' k' in
    let (en, eq') = eq_of_no_issue j n n' q q' hn hn' hq hq' et es' joint in
    (m, p, e, f, es, el, omega arith, he, hp, hf, (es, n, q, et, lt, hq, rw (en, eq') r))

starts_at_midnight :
    (s : ScheduleSegment) (m p : ℕ)
    → s.source ≡ point m p
    → m ≤ utc_minute_max
    → start_issues (some s) ≡ []
    → m ≡ 0
unfolding start_issues
starts_at_midnight s m p e hm h =
    let em = ap (λ x. x.minute) e in ground (arith, em, is_valid_utc_minute-num m hm, eq-num m 0)

ends_at_last_minute :
    (s : ScheduleSegment) (m p : ℕ)
    → s.target ≡ point m p
    → m ≤ utc_minute_max
    → end_issues (some s) ≡ []
    → m ≡ utc_minute_max
unfolding end_issues
ends_at_last_minute s m p e hm h =
    let em = ap (λ x. x.minute) e in
    ground (arith, em, is_valid_utc_minute-num m hm, eq-num m utc_minute_max)

wraps_around :
    (s t : ScheduleSegment) (m n p q : ℕ)
    → s.source ≡ point m p
    → t.target ≡ point n q
    → p ≤ full
    → q ≤ full
    → wrap_issues (some s) (some t) ≡ []
    → p ≡ q
unfolding wrap_issues
wraps_around s t m n p q es et hp hq h =
    let ep = ap (λ x. x.percent) es in
    let eq' = ap (λ x. x.percent) et in
    ground
      (arith, ep, eq', is_valid_percent-finite p hp, is_valid_percent-finite q hq, eq-finite p q)

pub IsPeriodic-of_no_issue :
    (s : ScheduleSegment) (rest : List ScheduleSegment)
    → graph_issues (s ∷ rest) ≡ []
    → IsPeriodic (record { segments = s ∷ rest })
unfolding graph_issues
IsPeriodic-of_no_issue s rest h =
    let (a, after_loop) = append-eq-nil (segment_issues 0 (s ∷ rest)) _ h in
    let (b, after_start) = append-eq-nil (start_issues (some s)) _ after_loop in
    let (c, after_end) =
      append-eq-nil (end_issues (get_elem? (s ∷ rest) (length (s ∷ rest) - 1))) _ after_start in
    let (d, w) = append-eq-nil (adjacency_issues 0 (s ∷ rest)) _ after_end in
    let (m, p, e, f, es, el, hm, he, hp, hf, r) = Runs-of_no_issue 0 0 s rest a d in
    let last = get_elem?-length s rest in
    let zero' = starts_at_midnight s m p es hm b in
    let final = ends_at_last_minute (last_segment s rest) e f el he (rw last at c) in
    let same = wraps_around s (last_segment s rest) m e p f es el hp hf (rw last at w) in
    (
      p,
      hp,
      subst (λ x. Runs 0 p utc_minute_max x (s ∷ rest)) (sym same)
          (subst (λ x. Runs 0 p x f (s ∷ rest)) final
            (subst (λ x. Runs x p e f (s ∷ rest)) zero' r)),
    )
