-- ===== src/Transport/ActiveBatch/Settled.antt =====
-- About the batches of the transport: what a settled batch keeps.
use aquarium_controller.Prelude.{
  ℕ, ◌≡◌, refl, ap, ◌∙◌, inl, inr, true, false, not, ◌||◌, List, [], ◌∷◌, ◌++◌, map, Option, some,
  Text, if_elim, Bool-cases,
}
use aquarium_controller.Prelude.Sorting.{IsAscending}
use aquarium_controller.Protocol.Commands.{EspCommandResult}
use aquarium_controller.Operations.Attempt.{UnknownOutcome, no_answer, not_published}
use aquarium_controller.Transport.Outcomes.{NormalizedCommand, CommandOutcome}
use aquarium_controller.Transport.ActiveBatch.{
  BatchExpectation, ActiveBatch, create_active_batch, find_expectation, is_settled, finish,
  settle_unknown, arm_timeout, settle_if_complete, timeout_fired, matched, answer_expected, answer,
  handle_response, for_device, is_empty, handle_malformed, Emitted, Event, responses_opened,
  published, publish_failed, responded, malformed, timer_rang, cancelled, step, run,
}
use aquarium_controller.Transport.ActiveBatch.Cases.{answer_expected_elim}
use aquarium_controller.Transport.ActiveBatch.Settlement.{create-Inv, run-Inv}

-- What a batch is settled with stays.
Stays : List CommandOutcome → ActiveBatch → Type 0
Stays xs b = b.settled ≡ some xs

contra {ℓ} :
    {C : Type ℓ} {o : Option (List CommandOutcome)} {xs : List CommandOutcome}
    → o ≡ some xs
    → is_settled o ≡ false
    → C
contra s new = let yes = ap is_settled s in absurd (cc)

finish-Stays : (xs : List CommandOutcome) (b : ActiveBatch) → Stays xs b → Stays xs (finish b)
unfolding finish Stays
finish-Stays xs b s = if_elim (Stays xs) (λ _. s) (λ new. contra s new)

settle_unknown-Stays :
    (xs : List CommandOutcome) (reason : UnknownOutcome) (b : ActiveBatch)
    → Stays xs b
    → Stays xs (settle_unknown reason b)
unfolding settle_unknown Stays
settle_unknown-Stays xs reason b s = if_elim (Stays xs) (λ _. s) (λ new. contra s new)

settle_if_complete-Stays :
    (xs : List CommandOutcome) (b : ActiveBatch) → Stays xs b → Stays xs (settle_if_complete b)
unfolding settle_if_complete
settle_if_complete-Stays xs b s = if_elim (Stays xs) (λ _. finish-Stays xs b s) (λ _. s)

module _ (size_of : EspCommandResult → ℕ) (xs : List CommandOutcome) where
  record StaysFirst (x : ActiveBatch × Emitted) : Type 0 where
    first : Stays xs x.0

  answer_expected-Stays :
      (device_id : Text) (r : EspCommandResult) (found : Option BatchExpectation) (b : ActiveBatch)
      → Stays xs b
      → StaysFirst (answer_expected size_of device_id r found b)
  unfolding Stays
  answer_expected-Stays device_id r found b s =
      answer_expected_elim size_of StaysFirst device_id r found b (λ _. record { first = s })
        (λ e is new. record {
          first =
              settle_if_complete-Stays xs
                (record b { outcomes = b.outcomes ++ ((r.index, matched size_of e r) ∷ []) }) s;
        })

  handle_response-Stays :
      (device_id : Text) (rs : List EspCommandResult) (b : ActiveBatch)
      → Stays xs b
      → Stays xs (handle_response size_of device_id rs b)
  unfolding handle_response answer
  handle_response-Stays device_id [] b s = s
  handle_response-Stays device_id (r ∷ rest) b s =
      handle_response-Stays device_id rest (answer size_of device_id r b).0
        (answer_expected-Stays device_id r (find_expectation r.index b.expectations) b s).first

  handle_malformed-Stays :
      (device_id : Text) (bytes : ℕ) (b : ActiveBatch)
      → Stays xs b
      → Stays xs (handle_malformed device_id bytes b)
  unfolding handle_malformed Stays
  handle_malformed-Stays device_id bytes b s =
      elim (Bool-cases
        (not b.responses_enabled || is_empty (for_device device_id b.expectations))) [
          | inl nothing ↦ rw nothing s
          | inr some' ↦ rw some' (settle_if_complete-Stays xs _ s)
        ]

  step-Stays : (event : Event) (b : ActiveBatch) → Stays xs b → Stays xs (step size_of event b)
  unfolding step arm_timeout timeout_fired Stays
  step-Stays responses_opened b s = s
  step-Stays published b s =
      if_elim (Stays xs) {t = is_settled b.settled || b.timeout_armed} {x = b}
        {y = record b { timeout_armed = true }} (λ _. s) (λ _. s)
  step-Stays publish_failed b s = settle_unknown-Stays xs not_published b s
  step-Stays (responded device_id rs) b s = handle_response-Stays device_id rs b s
  step-Stays (malformed device_id bytes) b s = handle_malformed-Stays device_id bytes b s
  step-Stays timer_rang b s =
      if_elim (Stays xs) {t = b.timeout_armed} {x = settle_unknown no_answer b} {y = b}
        (λ _. settle_unknown-Stays xs no_answer b s) (λ _. s)
  step-Stays (cancelled reason) b s = settle_unknown-Stays xs reason b s

  run-Stays : (events : List Event) (b : ActiveBatch) → Stays xs b → Stays xs (run size_of b events)
  unfolding run
  run-Stays [] b s = s
  run-Stays (e ∷ rest) b s = run-Stays rest (step size_of e b) (step-Stays e b s)

pub run-append :
    (size_of : EspCommandResult → ℕ) (before after : List Event) (b : ActiveBatch)
    → run size_of b (before ++ after) ≡ run size_of (run size_of b before) after
unfolding run
run-append size_of [] after b = refl
run-append size_of (e ∷ rest) after b = run-append size_of rest after (step size_of e b)

-- When the original indexes of the commands ascend and a sequence of events settles their batch, the outcomes that
-- it is settled with have exactly the indexes of the commands, in order, and no events after those change them.
pub run-settled :
    (size_of : EspCommandResult → ℕ) (cs : List NormalizedCommand) (before after : List Event)
    (xs : List CommandOutcome)
    → IsAscending (map (λ c. c.original_index) cs)
    → (run size_of (create_active_batch cs) before).settled ≡ some xs
    → (map (λ o. o.index) xs ≡ map (λ c. c.original_index) cs)
      × ((run size_of (create_active_batch cs) (before ++ after)).settled ≡ some xs)
unfolding Stays
run-settled size_of cs before after xs ascending settled =
    let b = run size_of (create_active_batch cs) before in
    (
      (run-Inv cs ascending size_of before (create_active_batch cs) (create-Inv cs)).done xs
          settled,
      ap (λ (x : ActiveBatch). x.settled) (run-append size_of before after (create_active_batch cs))
          ∙ run-Stays size_of xs after b settled,
    )
