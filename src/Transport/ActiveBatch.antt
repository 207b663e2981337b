-- ===== src/Transport/ActiveBatch.antt =====
-- apps/controller/src/infrastructure/mqtt/legacy-mqtt-transport.ts: a batch that waits for its response. Its
-- maps are lists of pairs, in the order of insertion; `settled` holds what its promise is resolved with.
pub mod Accounts
pub mod Cases
pub mod Settlement
pub mod Settled
pub mod Expiry
use aquarium_controller.Prelude.{
  ℕ, zero, suc, ◌+◌, Bool, true, false, not, ◌&&◌, ◌||◌, List, [], ◌∷◌, ◌++◌, map, Option, none,
  some, if◌then◌else◌, Text, codes, text_eq, ◌==◌, length,
}
use aquarium_controller.Protocol.Commands.{EspCommandResult, match_esp_command_result}
use aquarium_controller.Operations.Attempt
use aquarium_controller.Operations.Attempt.{
  Outcome, unknown, failure, UnknownOutcome, no_answer, not_published,
}
use aquarium_controller.Transport.Outcomes.{
  NormalizedCommand, CommandOutcome, outcome_of, outcome_of_match, sorted_outcomes,
}

pub record BatchExpectation : Type 0 where
  pub local_index : ℕ
  pub original_index : ℕ
  pub command : NormalizedCommand

pub record ActiveBatch : Type 0 where
  pub expectations : List BatchExpectation
  pub outcomes : List (ℕ × CommandOutcome)
  pub responses_enabled : Bool
  pub timeout_armed : Bool
  pub settled : Option (List CommandOutcome)

pub data IgnoredResponseReason : Type 0 where
  index_out_of_range wrong_device premature_response duplicate : IgnoredResponseReason

-- What is told of a response
pub data Emitted : Type 0 where
  ignored_response : IgnoredResponseReason → ℕ → Emitted
  command_outcome : CommandOutcome → Emitted

-- The loop that fills the expectations
unfoldable pub expectations_from : ℕ → List NormalizedCommand → List BatchExpectation
expectations_from i [] = []
expectations_from i (c ∷ rest) =
    record { local_index = i; original_index = c.original_index; command = c }
    ∷ expectations_from (suc i) rest

unfoldable pub create_active_batch : List NormalizedCommand → ActiveBatch
unfolding expectations_from
create_active_batch commands = record {
  expectations = expectations_from 0 commands;
  outcomes = [];
  responses_enabled = false;
  timeout_armed = false;
  settled = none;
}

unfoldable pub find_expectation : ℕ → List BatchExpectation → Option BatchExpectation
find_expectation i [] = none
find_expectation i (e ∷ rest) = if e.local_index == i then some e else find_expectation i rest

unfoldable pub has_outcome : ℕ → List (ℕ × CommandOutcome) → Bool
has_outcome i [] = false
has_outcome i ((j, o) ∷ rest) = if j == i then true else has_outcome i rest

abbrev pub is_settled : Option (List CommandOutcome) → Bool
is_settled none = false
is_settled (some xs) = true

abbrev pub values : List (ℕ × CommandOutcome) → List CommandOutcome
values = map (λ x. x.1)

unfoldable pub finish : ActiveBatch → ActiveBatch
finish b =
    if is_settled b.settled
    then b
    else record b { settled = some (sorted_outcomes (values b.outcomes)); timeout_armed = false }

-- Sets the outcome of each expectation that has none. A key that is set is a new one, so it goes last.
unfoldable pub fill :
    (BatchExpectation → CommandOutcome)
    → List BatchExpectation
    → List (ℕ × CommandOutcome)
    → List (ℕ × CommandOutcome)
unfolding has_outcome
fill make [] outcomes = outcomes
fill make (e ∷ rest) outcomes = fill make rest (
    if has_outcome e.local_index outcomes
    then outcomes
    else outcomes ++ ((e.local_index, make e) ∷ []))

unfoldable pub settle_unknown : UnknownOutcome → ActiveBatch → ActiveBatch
unfolding fill finish
settle_unknown reason b =
    if is_settled b.settled
    then b
    else finish (record b {
      outcomes = fill (λ e. outcome_of e.command none (unknown reason)) b.expectations b.outcomes;
    })

unfoldable pub arm_timeout : ActiveBatch → ActiveBatch
arm_timeout b =
    if is_settled b.settled || b.timeout_armed then b else record b { timeout_armed = true }

unfoldable pub settle_if_complete : ActiveBatch → ActiveBatch
unfolding finish
settle_if_complete b = if length b.outcomes == length b.expectations then finish b else b

-- The timer rings only if it is armed.
unfoldable pub timeout_fired : ActiveBatch → ActiveBatch
unfolding settle_unknown
timeout_fired b = if b.timeout_armed then settle_unknown no_answer b else b

-- `size_of` is the length in bytes of the text of a result.
module _ (size_of : EspCommandResult → ℕ) where
  pub matched : BatchExpectation → EspCommandResult → CommandOutcome
  unfolding match_esp_command_result outcome_of_match
  matched e r = outcome_of e.command (some (size_of r)) (
      outcome_of_match (
        match_esp_command_result (record { index = e.local_index; input = e.command.operation }) r))

  pub answer_expected :
      Text → EspCommandResult → Option BatchExpectation → ActiveBatch → ActiveBatch × Emitted
  unfolding matched settle_if_complete has_outcome
  answer_expected device_id r none b = (b, ignored_response index_out_of_range r.index)
  answer_expected device_id r (some e) b =
      if not (text_eq e.command.target_id device_id)
      then (b, ignored_response wrong_device r.index)
      else if not b.responses_enabled
      then (b, ignored_response premature_response r.index)
      else if has_outcome r.index b.outcomes
      then (b, ignored_response duplicate r.index)
      else (
        settle_if_complete (record b { outcomes = b.outcomes ++ ((r.index, matched e r) ∷ []) }),
        command_outcome (matched e r),
      )

  -- One round of the loop of handleResponse
  unfoldable pub answer : Text → EspCommandResult → ActiveBatch → ActiveBatch × Emitted
  unfolding answer_expected find_expectation
  answer device_id r b = answer_expected device_id r (find_expectation r.index b.expectations) b

  -- The loop of handleResponse over the results
  unfoldable pub handle_response : Text → List EspCommandResult → ActiveBatch → ActiveBatch
  unfolding answer
  handle_response device_id [] b = b
  handle_response device_id (r ∷ rest) b = handle_response device_id rest (answer device_id r b).0

unfoldable pub for_device : Text → List BatchExpectation → List BatchExpectation
for_device device_id [] = []
for_device device_id (e ∷ rest) =
    let others = for_device device_id rest in
    if text_eq e.command.target_id device_id then e ∷ others else others

abbrev pub is_empty : List BatchExpectation → Bool
is_empty [] = true
is_empty (e ∷ rest) = false

abbrev pub malformed_outcome : ℕ → BatchExpectation → CommandOutcome
malformed_outcome payload_bytes e =
    outcome_of e.command (some payload_bytes)
      (failure (Attempt.protocol_error (codes "Malformed response envelope")))

-- handleAttributableMalformedResponse, for the batch that the request names and the device of the topic
unfoldable pub handle_malformed : Text → ℕ → ActiveBatch → ActiveBatch
unfolding fill for_device settle_if_complete
handle_malformed device_id payload_bytes b =
    if not b.responses_enabled || is_empty (for_device device_id b.expectations)
    then b
    else settle_if_complete (record b {
      outcomes =
          fill (malformed_outcome payload_bytes) (for_device device_id b.expectations) b.outcomes;
    })

pub data Event : Type 0 where
  responses_opened : Event
  published : Event
  publish_failed : Event
  responded : Text → List EspCommandResult → Event
  malformed : Text → ℕ → Event
  timer_rang : Event
  cancelled : UnknownOutcome → Event  -- rotatePublicationGeneration

module _ (size_of : EspCommandResult → ℕ) where
  unfoldable pub step : Event → ActiveBatch → ActiveBatch
  unfolding arm_timeout settle_unknown handle_response handle_malformed timeout_fired
  step responses_opened b = record b { responses_enabled = true }
  step published b = arm_timeout b
  step publish_failed b = settle_unknown not_published b
  step (responded device_id results) b = handle_response size_of device_id results b
  step (malformed device_id payload_bytes) b = handle_malformed device_id payload_bytes b
  step timer_rang b = timeout_fired b
  step (cancelled reason) b = settle_unknown reason b

  unfoldable pub run : ActiveBatch → List Event → ActiveBatch
  unfolding step
  run b [] = b
  run b (e ∷ rest) = run (step e b) rest
