-- ===== src/Scheduling/Lane/Cooldown.antt =====
-- About the cooldown that #executeDeviceCommands starts.
use aquarium_controller.Prelude.{
  ℕ, ◌+◌, ◌<◌, ◌≡◌, true, false, Bool, List, [], ◌∷◌, some, arith, Text,
}
use aquarium_controller.Scheduling.Lane.{
  Batch, RefreshCommand, DeviceReport, OperationStatus, is_succeeded, operation, Task, dispatching,
  Lane, Event, offered, answered, threw, resumed, worker_ended, available, stopped,
  output_retry_cooldown_ms, offer_device_batch, answer, dispatch_threw, resume, ended, stop, step,
  run,
}

abbrev pub is_dispatching : Task → Bool
is_dispatching (dispatching tick c rest r) = true
is_dispatching _ = false

-- No command is out, and none may be sent before `until`.
abbrev pub Cool : ℕ → Lane → Type 0
Cool until l = (l.retry_after ≡ some until) × (is_dispatching l.task ≡ false)

-- The events are earlier than `until`, and the device is not reported available.
abbrev pub Before : ℕ → List Event → Type 0
Before until [] = Unit {0}
Before until (offered now b ∷ rest) = (now < until) × Before until rest
Before until (answered now d ∷ rest) = (now < until) × Before until rest
Before until (threw ∷ rest) = Before until rest
Before until (resumed now ∷ rest) = (now < until) × Before until rest
Before until (worker_ended now ∷ rest) = (now < until) × Before until rest
Before until (available ∷ rest) = ⊥
Before until (stopped ∷ rest) = Before until rest

offer-Cool :
    (until now : ℕ) (b : Batch) (l : Lane)
    → now < until
    → Cool until l
    → Cool until (offer_device_batch now b l)
unfolding offer_device_batch
offer-Cool until now b l h c = ground arith

resume-Cool :
    (until now : ℕ) (l : Lane) → now < until → Cool until l → Cool until (resume now l.task l)
unfolding resume
resume-Cool until now l h c = ground arith

ended-Cool :
    (until now : ℕ) (l : Lane) → now < until → Cool until l → Cool until (ended now l.task l)
unfolding ended
ended-Cool until now l h c = ground arith

run-Cool :
    (until : ℕ) (l : Lane) (es : List Event)
    → Before until es
    → Cool until l
    → Cool until (run l es)
unfolding run step
run-Cool until l [] b c = c
run-Cool until l (offered now x ∷ rest) b c =
    run-Cool until _ rest b.1 (offer-Cool until now x l b.0 c)
run-Cool until l (answered now d ∷ rest) b c =
    run-Cool until (step (answered now d) l) rest b.1 (unfold answer in ground arith)
run-Cool until l (threw ∷ rest) b c =
    run-Cool until (step threw l) rest b (unfold dispatch_threw in ground arith)
run-Cool until l (resumed now ∷ rest) b c =
    run-Cool until _ rest b.1 (resume-Cool until now l b.0 c)
run-Cool until l (worker_ended now ∷ rest) b c =
    run-Cool until _ rest b.1 (ended-Cool until now l b.0 c)
run-Cool until l (available ∷ rest) b c = absurd b
run-Cool until l (stopped ∷ rest) b c =
    run-Cool until (step stopped l) rest b (unfold stop in ground arith)

-- If at time `now` a device answers a refresh command without success, then, whatever else happens in the
-- next 60,000 ms short of its being reported available, no further command is sent to it.
pub answer-cooldown :
    (l : Lane) (now tick : ℕ) (c : RefreshCommand) (rest : List RefreshCommand) (r : DeviceReport)
    (id : Text) (status : OperationStatus) (es : List Event)
    → l.task ≡ dispatching tick c rest r
    → is_succeeded status ≡ false
    → Before (now + output_retry_cooldown_ms) es
    → is_dispatching (run (step (answered now (operation id status)) l) es).task ≡ false
answer-cooldown l now tick c rest r id status es t s b =
    (run-Cool (now + output_retry_cooldown_ms) (step (answered now (operation id status)) l) es b
      (unfold step answer in ground arith)).1
