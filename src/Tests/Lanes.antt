-- ===== src/Tests/Lanes.antt =====
-- The worker of a device over two ticks, and after an operation that timed out.
use aquarium_controller.Prelude.{ℕ, ◌+◌, ◌≡◌, refl, false, ◌&&◌, List, [], ◌∷◌, ◌++◌, arith, codes}
use aquarium_controller.Scheduling.Lane.{
  RefreshCommand, Lane, Event, dispatching, empty_report, succeeded, timed_out, operation, offered,
  answered, resumed, worker_ended, has_batch, initial, step, run,
}
use aquarium_controller.Scheduling.Lane.Batches.{
  CanRun, offers, settled_count, waiting_count, running_count, run-accounts, run-settles,
}
use aquarium_controller.Scheduling.Lane.Cooldown.{is_dispatching, answer-cooldown}

abbrev dim : RefreshCommand
dim = record { mapping_id = codes "lamp"; pin = 16; value = 40; overwrite = false }

abbrev two_ticks : List Event
two_ticks =
    offered 5000 (record { tick = 1; commands = dim ∷ [] })
    ∷ offered 10000 (record { tick = 2; commands = dim ∷ [] })
    ∷ answered 10100 (operation (codes "op1") succeeded)
    ∷ resumed 10100
    ∷ []

two_ticks-CanRun : CanRun initial two_ticks
unfolding step
two_ticks-CanRun = (refl, (refl, (refl, (refl, tt))))

run-accounts_example :
    let l = run initial two_ticks in
    ((n : ℕ)
      → settled_count n l.settled + waiting_count n l.pending_batch + running_count n l.task
        ≡ offers n two_ticks)
    × ((l.stopping && has_batch l.pending_batch) ≡ false)
run-accounts_example = run-accounts two_ticks two_ticks-CanRun

-- The second batch is answered too, and the worker ends.
abbrev both_ticks : List Event
both_ticks =
    two_ticks
    ++ (answered 10300 (operation (codes "op2") succeeded)
        ∷ resumed 10300
        ∷ worker_ended 10300
        ∷ [])

both_ticks-CanRun : CanRun initial both_ticks
unfolding step
both_ticks-CanRun = (refl, (refl, (refl, (refl, (refl, (refl, (refl, tt)))))))

run-settles_example : settled_count 2 (run initial both_ticks).settled ≡ 1
run-settles_example = run-settles both_ticks 2 both_ticks-CanRun (unfold run in refl)

abbrev sending : Lane
sending = record initial { task = dispatching 1 dim (dim ∷ []) empty_report }

abbrev afterwards : List Event
afterwards =
    resumed 20000
    ∷ worker_ended 20000
    ∷ offered 25000 (record { tick = 2; commands = dim ∷ [] })
    ∷ resumed 25000
    ∷ []

answer-cooldown_example :
    is_dispatching
      (run (step (answered 20000 (operation (codes "op1") timed_out)) sending) afterwards).task
    ≡ false
answer-cooldown_example =
    answer-cooldown sending 20000 1 dim (dim ∷ []) empty_report (codes "op1") timed_out afterwards
      refl refl (omega arith, (omega arith, (omega arith, (omega arith, tt))))
