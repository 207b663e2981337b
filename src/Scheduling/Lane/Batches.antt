-- ===== src/Scheduling/Lane/Batches.antt =====
-- About the batches of a device worker, from #offerDeviceBatch to their settlement.
use aquarium_controller.Prelude.{
  ℕ, ◌+◌, ◌≡◌, refl, Bool, true, false, not, ◌&&◌, List, [], ◌∷◌, Option, none, some, arith,
  if◌then◌else◌, ◌==◌,
}
use aquarium_controller.Scheduling.Lane.{
  Batch, Settlement, Task, idle, dispatching, returning, Lane, Event, offered, answered, threw,
  resumed, worker_ended, available, stopped, Dispatch, offer_device_batch, answer, dispatch_threw,
  resume, ended, stop, step, run, initial, has_batch,
}

-- How often tick `n` is among the settled, waiting and running batches
abbrev pub one_if : ℕ → ℕ → ℕ
one_if n m = if n == m then 1 else 0

abbrev pub settled_count : ℕ → List (ℕ × Settlement) → ℕ
settled_count n [] = 0
settled_count n ((m, how) ∷ rest) = one_if n m + settled_count n rest

abbrev pub waiting_count : ℕ → Option Batch → ℕ
waiting_count n none = 0
waiting_count n (some b) = one_if n b.tick

abbrev pub running_count : ℕ → Task → ℕ
running_count n (dispatching tick c rest r) = one_if n tick
running_count n (returning tick r) = one_if n tick
running_count n _ = 0

abbrev pub total : ℕ → Lane → ℕ
total n l = settled_count n l.settled + waiting_count n l.pending_batch + running_count n l.task

-- A tick offers nothing to a scheduler that is stopping.
abbrev pub can_happen : Lane → Event → Bool
can_happen l (offered now b) = not l.stopping
can_happen l _ = true

abbrev is_idle : Task → Bool
is_idle idle = true
is_idle _ = false

pub record Inv (l : Lane) : Type 0 where
  pub served : is_idle l.task ≡ true → has_batch l.pending_batch ≡ false
  pub stopped_empty : l.stopping ≡ true → has_batch l.pending_batch ≡ false

offer-total :
    (n now : ℕ) (b : Batch) (l : Lane)
    → Inv l
    → l.stopping ≡ false
    → (total n (offer_device_batch now b l) ≡ total n l + one_if n b.tick)
      × Inv (offer_device_batch now b l)
unfolding offer_device_batch
offer-total n now b l v s = (ground arith, ground arith)

answer-total :
    (n now : ℕ) (d : Dispatch) (l : Lane)
    → Inv l
    → (total n (answer now d l.task l) ≡ total n l) × Inv (answer now d l.task l)
unfolding answer
answer-total n now d l v = (ground arith, ground arith)

threw-total :
    (n : ℕ) (l : Lane)
    → Inv l
    → (total n (dispatch_threw l.task l) ≡ total n l) × Inv (dispatch_threw l.task l)
unfolding dispatch_threw
threw-total n l v = (ground arith, ground arith)

resume-total :
    (n now : ℕ) (l : Lane)
    → Inv l
    → (total n (resume now l.task l) ≡ total n l) × Inv (resume now l.task l)
unfolding resume
resume-total n now l v = (ground arith, ground arith)

ended-total :
    (n now : ℕ) (l : Lane)
    → Inv l
    → (total n (ended now l.task l) ≡ total n l) × Inv (ended now l.task l)
unfolding ended
ended-total n now l v = (ground arith, ground arith)

stop-total : (n : ℕ) (l : Lane) → Inv l → (total n (stop l) ≡ total n l) × Inv (stop l)
unfolding stop
stop-total n l v = (ground arith, ground arith)

-- How often tick `n` has been offered
abbrev pub offers : ℕ → List Event → ℕ
offers n [] = 0
offers n (offered now b ∷ rest) = one_if n b.tick + offers n rest
offers n (e ∷ rest) = offers n rest

-- Each event of the list can happen when its turn comes.
abbrev pub CanRun : Lane → List Event → Type 0
CanRun l [] = Unit {0}
CanRun l (e ∷ rest) = (can_happen l e ≡ true) × CanRun (step e l) rest

offered_now : ℕ → Event → ℕ
offered_now n (offered now b) = one_if n b.tick
offered_now n e = 0

offers-cons :
    (n : ℕ) (e : Event) (rest : List Event) → offers n (e ∷ rest) ≡ offered_now n e + offers n rest
unfolding offered_now
offers-cons n (offered now b) rest = refl
offers-cons n e rest = omega arith

step-total :
    (n : ℕ) (l : Lane) (e : Event)
    → Inv l
    → can_happen l e ≡ true
    → (total n (step e l) ≡ total n l + offered_now n e) × Inv (step e l)
unfolding step offered_now
step-total n l (offered now b) v h = offer-total n now b l v (ground arith)
step-total n l (answered now d) v h = let (e, w) = answer-total n now d l v in (omega (arith, e), w)
step-total n l threw v h = let (e, w) = threw-total n l v in (omega (arith, e), w)
step-total n l (resumed now) v h = let (e, w) = resume-total n now l v in (omega (arith, e), w)
step-total n l (worker_ended now) v h = let (e, w) = ended-total n now l v in (omega (arith, e), w)
step-total n l available v h =
    (omega arith, record { served = v.served; stopped_empty = v.stopped_empty })
step-total n l stopped v h = let (e, w) = stop-total n l v in (omega (arith, e), w)

run-total :
    (n : ℕ) (l : Lane) (es : List Event)
    → Inv l
    → CanRun l es
    → (total n (run l es) ≡ total n l + offers n es) × Inv (run l es)
unfolding run
run-total n l [] v c = (omega arith, v)
run-total n l (e ∷ rest) v c =
    let (here, w) = step-total n l e v c.0 in
    let (later, u) = run-total n (step e l) rest w c.1 in
    (omega (arith, here, later, offers-cons n e rest), u)

initial-Inv : Inv initial
initial-Inv = ground arith

-- In any run of a lane from its start, each batch that a tick has offered is settled, waiting or running,
-- and counts in one of the three only, as often as it was offered; and none waits if the lane is stopping.
pub run-accounts :
    (es : List Event)
    → CanRun initial es
    → let l = run initial es in
      ((n : ℕ)
        → settled_count n l.settled + waiting_count n l.pending_batch + running_count n l.task
          ≡ offers n es)
      × ((l.stopping && has_batch l.pending_batch) ≡ false)
run-accounts es c =
    let v = (run-total 0 initial es initial-Inv c).1 in
    (λ n. omega (arith, (run-total n initial es initial-Inv c).0), ground arith)

-- When the worker of a lane is at rest after a run from its start, each batch that was offered has been
-- settled, as often as it was offered.
pub run-settles :
    (es : List Event) (n : ℕ)
    → CanRun initial es
    → (run initial es).task ≡ idle
    → settled_count n (run initial es).settled ≡ offers n es
run-settles es n c rest = let (e, v) = run-total n initial es initial-Inv c in ground arith
