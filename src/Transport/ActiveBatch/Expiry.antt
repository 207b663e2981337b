-- ===== src/Transport/ActiveBatch/Expiry.antt =====
-- About the batches of the transport: when they are settled.
use aquarium_controller.Prelude.{
  ℕ, ◌≡◌, refl, inl, inr, Bool, true, false, not, ◌||◌, List, [], ◌∷◌, ◌++◌, Option, arith, Text,
  if_elim, Bool-cases,
}
use aquarium_controller.Protocol.Commands.{EspCommandResult}
use aquarium_controller.Operations.Attempt.{UnknownOutcome, no_answer, not_published}
use aquarium_controller.Transport.ActiveBatch.{
  BatchExpectation, ActiveBatch, find_expectation, is_settled, finish, fill, settle_unknown,
  arm_timeout, settle_if_complete, timeout_fired, matched, answer_expected, answer, handle_response,
  for_device, is_empty, malformed_outcome, handle_malformed, Emitted, Event, responses_opened,
  published, publish_failed, responded, malformed, timer_rang, cancelled, step, run,
}
use aquarium_controller.Transport.ActiveBatch.Cases.{answer_expected_elim}
use aquarium_controller.Transport.ActiveBatch.Settled.{run-append}

or_true : (b : Bool) → (b || true) ≡ true
or_true true = refl
or_true false = refl

-- A settled batch, or one whose timer is armed
record IsWatched (b : ActiveBatch) : Type 0 where
  watched : (is_settled b.settled || b.timeout_armed) ≡ true

record FirstIsWatched (x : ActiveBatch × Emitted) : Type 0 where
  first : IsWatched x.0

of_settled : (b : ActiveBatch) → is_settled b.settled ≡ true → IsWatched b
of_settled b h = record { watched = rw h refl }

is_settled-finish : (b : ActiveBatch) → is_settled (finish b).settled ≡ true
unfolding finish
is_settled-finish b =
    if_elim (λ (x : ActiveBatch). is_settled x.settled ≡ true) {t = is_settled b.settled} {x = b}
      (λ h. h) (λ _. refl)

is_settled-settle_unknown :
    (reason : UnknownOutcome) (b : ActiveBatch)
    → is_settled (settle_unknown reason b).settled ≡ true
unfolding settle_unknown
is_settled-settle_unknown reason b =
    if_elim (λ (x : ActiveBatch). is_settled x.settled ≡ true) {t = is_settled b.settled} {x = b}
      (λ h. h) (λ _. is_settled-finish _)

settle_if_complete-IsWatched : (b : ActiveBatch) → IsWatched b → IsWatched (settle_if_complete b)
unfolding settle_if_complete
settle_if_complete-IsWatched b w =
    if_elim IsWatched (λ _. of_settled (finish b) (is_settled-finish b)) (λ _. w)

module _ (size_of : EspCommandResult → ℕ) where
  answer_expected-IsWatched :
      (device_id : Text) (r : EspCommandResult) (found : Option BatchExpectation) (b : ActiveBatch)
      → IsWatched b
      → FirstIsWatched (answer_expected size_of device_id r found b)
  answer_expected-IsWatched device_id r found b w =
      answer_expected_elim size_of FirstIsWatched device_id r found b (λ _. record { first = w })
        (λ e is new. record {
          first =
              settle_if_complete-IsWatched
                (record b { outcomes = b.outcomes ++ ((r.index, matched size_of e r) ∷ []) })
                (record { watched = w.watched });
        })

  handle_response-IsWatched :
      (device_id : Text) (rs : List EspCommandResult) (b : ActiveBatch)
      → IsWatched b
      → IsWatched (handle_response size_of device_id rs b)
  unfolding handle_response answer
  handle_response-IsWatched device_id [] b w = w
  handle_response-IsWatched device_id (r ∷ rest) b w =
      handle_response-IsWatched device_id rest (answer size_of device_id r b).0
        (answer_expected-IsWatched device_id r (find_expectation r.index b.expectations) b w).first

  handle_malformed-IsWatched :
      (device_id : Text) (bytes : ℕ) (b : ActiveBatch)
      → IsWatched b
      → IsWatched (handle_malformed device_id bytes b)
  unfolding handle_malformed
  handle_malformed-IsWatched device_id bytes b w =
      elim (Bool-cases
        (not b.responses_enabled || is_empty (for_device device_id b.expectations))) [
          | inl nothing ↦ rw nothing w
          | inr some' ↦ rw some' (
              settle_if_complete-IsWatched
                (record b {
                  outcomes =
                      fill (malformed_outcome bytes) (for_device device_id b.expectations)
                        b.outcomes;
                })
                (record { watched = w.watched }))
        ]

  published-IsWatched : (b : ActiveBatch) → IsWatched (step size_of published b)
  unfolding step arm_timeout
  published-IsWatched b =
      if_elim IsWatched {t = is_settled b.settled || b.timeout_armed} {x = b}
        {y = record b { timeout_armed = true }} (λ h. record { watched = h })
        (λ _. record { watched = or_true (is_settled b.settled) })

  step-IsWatched :
      (event : Event) (b : ActiveBatch) → IsWatched b → IsWatched (step size_of event b)
  unfolding step timeout_fired
  step-IsWatched responses_opened b w = record { watched = w.watched }
  step-IsWatched published b w = published-IsWatched b
  step-IsWatched publish_failed b w = of_settled _ (is_settled-settle_unknown not_published b)
  step-IsWatched (responded device_id rs) b w = handle_response-IsWatched device_id rs b w
  step-IsWatched (malformed device_id bytes) b w = handle_malformed-IsWatched device_id bytes b w
  step-IsWatched timer_rang b w =
      if_elim IsWatched {t = b.timeout_armed} {x = settle_unknown no_answer b} {y = b}
        (λ _. of_settled _ (is_settled-settle_unknown no_answer b)) (λ _. w)
  step-IsWatched (cancelled reason) b w = of_settled _ (is_settled-settle_unknown reason b)

  run-IsWatched :
      (events : List Event) (b : ActiveBatch) → IsWatched b → IsWatched (run size_of b events)
  unfolding run
  run-IsWatched [] b w = w
  run-IsWatched (e ∷ rest) b w = run-IsWatched rest (step size_of e b) (step-IsWatched e b w)

  timer_rang-settles :
      (b : ActiveBatch) → IsWatched b → is_settled (step size_of timer_rang b).settled ≡ true
  unfolding step timeout_fired
  timer_rang-settles b w =
      if_elim (λ (x : ActiveBatch). is_settled x.settled ≡ true) {t = b.timeout_armed}
        {x = settle_unknown no_answer b} {y = b} (λ _. is_settled-settle_unknown no_answer b)
        (λ off. let h = w.watched in ground arith)

-- Whatever happens between the publication of a batch and its timer, the batch is settled once the timer rings.
pub published-settles :
    (size_of : EspCommandResult → ℕ) (b : ActiveBatch) (between : List Event)
    → is_settled (run size_of b (published ∷ (between ++ (timer_rang ∷ [])))).settled ≡ true
unfolding run
published-settles size_of b between =
    let start = step size_of published b in
    rw (run-append size_of between (timer_rang ∷ []) start) (
      timer_rang-settles size_of (run size_of start between)
        (run-IsWatched size_of between start (published-IsWatched size_of b)))
