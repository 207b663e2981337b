-- ===== src/Transport/Outcomes.antt =====
-- apps/controller/src/infrastructure/mqtt/legacy-mqtt-transport.ts: commands as the transport has them, and
-- their outcomes.
use aquarium_controller.Prelude.{
  ℕ, Bool, true, false, List, [], ◌∷◌, ◌++◌, Option, none, if◌then◌else◌, Text, codes, ◌==◌,
}
use aquarium_controller.Prelude.Sorting.{sort_by, by_key}
use aquarium_controller.Protocol.Commands.{
  EspCommandKind, set_pwm_kind, ping_kind, edit_configuration_kind, schedule_kind, sync_time_kind,
  analog_read_kind, release_startup_hold_kind, firmware_update_kind, EspCommandInput,
  ProtocolErrorDetail, expected_result, not_echoed, EspCommandResultMatch, succeeded, device_error,
  protocol_error,
}
use aquarium_controller.Protocol.ScheduleDocument.{decimal_text}
use aquarium_controller.Operations.Attempt
use aquarium_controller.Operations.Attempt.{Outcome, success, failure, not_attempted, NotAttempted}

pub record NormalizedCommand : Type 0 where
  pub original_index : ℕ
  pub command : Text
  pub target_id : Text
  pub operation : EspCommandInput

-- LegacyCommandOutcome: `outcome` is its status, with the fields of that status.
pub record CommandOutcome : Type 0 where
  pub index : ℕ
  pub command : Text
  pub target_id : Text
  pub response_bytes : Option ℕ
  pub outcome : Outcome

unfoldable pub kind_text : EspCommandKind → Text
kind_text set_pwm_kind = codes "set_pwm"
kind_text ping_kind = codes "ping"
kind_text edit_configuration_kind = codes "edit_configuration"
kind_text schedule_kind = codes "schedule"
kind_text sync_time_kind = codes "sync_time"
kind_text analog_read_kind = codes "analog_read"
kind_text release_startup_hold_kind = codes "release_startup_hold"
kind_text firmware_update_kind = codes "firmware_update"

unfoldable pub detail_text : ProtocolErrorDetail → Text
unfolding kind_text decimal_text
detail_text (expected_result kind index) =
    codes "Expected " ++ (kind_text kind ++ (codes " result at index " ++ decimal_text index))
detail_text (not_echoed kind) =
    codes "Successful " ++ (kind_text kind ++ codes " result did not echo the accepted values")

-- The outcome that a match of a result with its command comes to
unfoldable pub outcome_of_match : EspCommandResultMatch → Outcome
unfolding detail_text
outcome_of_match (succeeded value) = success value
outcome_of_match (device_error code message) = failure (Attempt.device_error code message)
outcome_of_match (protocol_error detail) = failure (Attempt.protocol_error (detail_text detail))

abbrev pub outcome_of : NormalizedCommand → Option ℕ → Outcome → CommandOutcome
outcome_of c bytes outcome = record {
  index = c.original_index;
  command = c.command;
  target_id = c.target_id;
  response_bytes = bytes;
  outcome = outcome;
}

-- [...outcomes.values()].sort((left, right) => left.index - right.index)
abbrev pub sorted_outcomes : List CommandOutcome → List CommandOutcome
sorted_outcomes = sort_by (by_key (λ o. o.index))

-- Map.has and Map.set of a map by index; a key that is set anew keeps its place.
unfoldable pub has_index : ℕ → List CommandOutcome → Bool
has_index i [] = false
has_index i (o ∷ rest) = if o.index == i then true else has_index i rest

unfoldable pub set_outcome : CommandOutcome → List CommandOutcome → List CommandOutcome
set_outcome new [] = new ∷ []
set_outcome new (o ∷ rest) =
    let others = o ∷ set_outcome new rest in if o.index == new.index then new ∷ rest else others

unfoldable pub add_not_attempted_outcomes :
    List NormalizedCommand → NotAttempted → List CommandOutcome → List CommandOutcome
unfolding has_index
add_not_attempted_outcomes [] reason outcomes = outcomes
add_not_attempted_outcomes (c ∷ rest) reason outcomes = add_not_attempted_outcomes rest reason (
    if has_index c.original_index outcomes
    then outcomes
    else outcomes ++ (outcome_of c none (not_attempted reason) ∷ []))
