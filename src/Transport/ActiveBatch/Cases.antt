-- ===== src/Transport/ActiveBatch/Cases.antt =====
-- About the batches of the transport: the cases of an answer.
use aquarium_controller.Prelude.{
  ℕ, ◌≡◌, refl, false, not, [], ◌∷◌, ◌++◌, Option, none, some, if_elim, Text, text_eq,
}
use aquarium_controller.Protocol.Commands.{EspCommandResult}
use aquarium_controller.Transport.ActiveBatch.{
  BatchExpectation, ActiveBatch, has_outcome, settle_if_complete, matched, answer_expected, Emitted,
  ignored_response, command_outcome, index_out_of_range, wrong_device, premature_response,
  duplicate,
}

-- An answer is ignored, or it is the first one for its expectation.
pub answer_expected_elim {ℓ} :
    (size_of : EspCommandResult → ℕ) (P : ActiveBatch × Emitted → Type ℓ) (device_id : Text)
    (r : EspCommandResult) (found : Option BatchExpectation) (b : ActiveBatch)
    → ((x : Emitted) → P (b, x))
    → ((e : BatchExpectation)
        → found ≡ some e
        → has_outcome r.index b.outcomes ≡ false
        → P (
          settle_if_complete
              (record b { outcomes = b.outcomes ++ ((r.index, matched size_of e r) ∷ []) }),
          command_outcome (matched size_of e r),
        ))
    → P (answer_expected size_of device_id r found b)
unfolding answer_expected
answer_expected_elim size_of P device_id r none b ignored first =
    ignored (ignored_response index_out_of_range r.index)
answer_expected_elim size_of P device_id r (some e) b ignored first =
    if_elim P {t = not (text_eq e.command.target_id device_id)}
      {x = (b, ignored_response wrong_device r.index)} (λ _. ignored _)
      (λ _.
        if_elim P {t = not b.responses_enabled}
          {x = (b, ignored_response premature_response r.index)} (λ _. ignored _)
          (λ _.
            if_elim P {t = has_outcome r.index b.outcomes}
              {x = (b, ignored_response duplicate r.index)} (λ _. ignored _) (first e refl)))
