-- ===== src/Transport/ActiveBatch/Settlement.antt =====
-- About the batches of the transport: what their promise is resolved with.
use aquarium_controller.Prelude.{
  ℕ, suc, ◌≡◌, refl, sym, ap, ◌∙◌, inl, inr, Bool, not, ◌||◌, List, [], ◌∷◌, ◌++◌, map, Option,
  none, some, arith, if◌then◌else◌, Text, ◌==◌, length, subst, if_elim, Bool-cases,
}
use mathlib.Core.Option.{some-injective}
use aquarium_controller.Prelude.Sorting.{count, IsAscending, sort_by-eq}
use aquarium_controller.Protocol.Commands.{EspCommandResult}
use aquarium_controller.Operations.Attempt.{UnknownOutcome, unknown, no_answer, not_published}
use aquarium_controller.Transport.Outcomes.{
  NormalizedCommand, CommandOutcome, outcome_of, sorted_outcomes,
}
use aquarium_controller.Transport.ActiveBatch.{
  BatchExpectation, ActiveBatch, expectations_from, create_active_batch, find_expectation,
  is_settled, values, finish, fill, settle_unknown, arm_timeout, settle_if_complete, timeout_fired,
  matched, answer_expected, answer, handle_response, for_device, is_empty, malformed_outcome,
  handle_malformed, Emitted, Event, responses_opened, published, publish_failed, responded,
  malformed, timer_rang, cancelled, step, run,
}
use aquarium_controller.Transport.ActiveBatch.Cases.{answer_expected_elim}
use aquarium_controller.Transport.ActiveBatch.Accounts.{
  Outs, covered, originals, Accounts, append-Accounts, AreFound-all, AreFound-for_device,
  covered_none, covered_of_full, fill-Accounts, original-find_expectation, originals_lem,
  length-covered_of_all, fill-AllHave,
}

length-expectations_from :
    (k : ℕ) (cs : List NormalizedCommand) → length (expectations_from k cs) ≡ length cs
unfolding expectations_from
length-expectations_from k [] = refl
length-expectations_from k (c ∷ rest) = ap suc (length-expectations_from (suc k) rest)

length-map {ℓ κ} :
    {A : Type ℓ} {B : Type κ} (f : A → B) (xs : List A) → length (map f xs) ≡ length xs
length-map f [] = refl
length-map f (x ∷ xs) = ap suc (length-map f xs)

module _ (cs : List NormalizedCommand) where
  abbrev es : List BatchExpectation
  es = expectations_from 0 cs

  abbrev Complete : List CommandOutcome → Type 0
  Complete xs = map (λ o. o.index) xs ≡ map (λ c. c.original_index) cs

  -- The outcomes account for themselves, and what the batch is settled with is complete.
  pub record Inv (b : ActiveBatch) : Type 0 where
    same : b.expectations ≡ es
    accounts : Accounts es b.outcomes
    pub done : (xs : List CommandOutcome) → b.settled ≡ some xs → Complete xs

  record InvFirst (x : ActiveBatch × Emitted) : Type 0 where
    first : Inv x.0

  pub create-Inv : Inv (create_active_batch cs)
  unfolding create_active_batch
  create-Inv = record {
    same = refl;
    accounts = (
      λ n. ap (λ (x : List ℕ). count n x) (sym (covered_none 0 cs)),
      ap length (sym (covered_none 0 cs)),
    );
    done = λ xs h. absurd (cc);
  }

  module _ (ascending : IsAscending (map (λ c. c.original_index) cs)) where
    sorted-Complete :
        (outs : Outs)
        → Accounts es outs
        → length outs ≡ length cs
        → Complete (sorted_outcomes (values outs))
    sorted-Complete outs (c, l) full =
        let all = covered_of_full 0 outs cs (sym l ∙ full) in
        sort_by-eq (λ o. o.index) (values outs) (map (λ c. c.original_index) cs) ascending
          (λ n. c n ∙ ap (λ (x : List ℕ). count n x) all)

    finish-Inv : (b : ActiveBatch) → Inv b → length b.outcomes ≡ length cs → Inv (finish b)
    unfolding finish
    finish-Inv b v l = elim (Bool-cases (is_settled b.settled)) [
      | inl old ↦ rw old v
      | inr new ↦ rw new (record {
        same = v.same;
        accounts = v.accounts;
        done =
            λ xs h. subst Complete (some-injective _ _ h) (sorted-Complete b.outcomes v.accounts l);
      })
    ]

    settle_if_complete-Inv : (b : ActiveBatch) → Inv b → Inv (settle_if_complete b)
    unfolding settle_if_complete
    settle_if_complete-Inv b v = elim (Bool-cases (length b.outcomes == length b.expectations)) [
      | inl full ↦ rw full (
          finish-Inv b v (
            let a : length b.outcomes ≡ length b.expectations = ground arith in
            a
            ∙ ap (λ (x : List BatchExpectation). length x) v.same
            ∙ length-expectations_from 0 cs))
      | inr open' ↦ rw open' v
    ]

    settle_unknown-Inv :
        (reason : UnknownOutcome) (b : ActiveBatch) → Inv b → Inv (settle_unknown reason b)
    unfolding settle_unknown
    settle_unknown-Inv reason b v = elim (Bool-cases (is_settled b.settled)) [
      | inl old ↦ rw old v
      | inr new ↦
          let make : BatchExpectation → CommandOutcome =
            λ e. outcome_of e.command none (unknown reason) in
          let filled = fill make b.expectations b.outcomes in
          let accounts : Accounts es filled =
            subst (λ (x : List BatchExpectation). Accounts es (fill make x b.outcomes)) (sym v.same)
              (fill-Accounts cs make es b.outcomes
                (λ e f. sym (original-find_expectation e.local_index 0 cs e f).0)
                (AreFound-all 0 cs) v.accounts) in
          let all : covered filled es ≡ originals es =
            subst
              (λ (x : List BatchExpectation). covered (fill make x b.outcomes) es ≡ originals es)
              (sym v.same)
              (length-covered_of_all (fill make es b.outcomes) es
                (fill-AllHave make es b.outcomes)) in
          subst (λ (t : Bool). Inv (if t then b else finish (record b { outcomes = filled })))
            (sym new)
            (finish-Inv (record b { outcomes = filled })
              (record { same = v.same; accounts = accounts; done = v.done })
              (accounts.1
                ∙ ap length (all ∙ originals_lem 0 cs)
                ∙ length-map (λ (c : NormalizedCommand). c.original_index) cs))
    ]

    module _ (size_of : EspCommandResult → ℕ) where
      answer_expected-Inv :
          (device_id : Text) (r : EspCommandResult) (found : Option BatchExpectation)
          (b : ActiveBatch)
          → find_expectation r.index es ≡ found
          → Inv b
          → InvFirst (answer_expected size_of device_id r found b)
      unfolding matched
      answer_expected-Inv device_id r found b f v =
          answer_expected_elim size_of InvFirst device_id r found b (λ _. record { first = v })
            (λ e is new. record {
              first =
                  settle_if_complete-Inv
                    (record b { outcomes = b.outcomes ++ ((r.index, matched size_of e r) ∷ []) })
                    (record {
                      same = v.same;
                      accounts =
                          append-Accounts cs r.index (matched size_of e r) b.outcomes e (f ∙ is) new
                            (sym (original-find_expectation r.index 0 cs e (f ∙ is)).0) v.accounts;
                      done = v.done;
                    });
            })

      handle_response-Inv :
          (device_id : Text) (rs : List EspCommandResult) (b : ActiveBatch)
          → Inv b
          → Inv (handle_response size_of device_id rs b)
      unfolding handle_response answer
      handle_response-Inv device_id [] b v = v
      handle_response-Inv device_id (r ∷ rest) b v =
          handle_response-Inv device_id rest (answer size_of device_id r b).0
            (answer_expected-Inv device_id r (find_expectation r.index b.expectations) b
              (ap (λ (x : List BatchExpectation). find_expectation r.index x) (sym v.same)) v).first

    handle_malformed-Inv :
        (device_id : Text) (bytes : ℕ) (b : ActiveBatch)
        → Inv b
        → Inv (handle_malformed device_id bytes b)
    unfolding handle_malformed
    handle_malformed-Inv device_id bytes b v =
        let make : BatchExpectation → CommandOutcome = malformed_outcome bytes in
        let next : ActiveBatch = record b {
          outcomes = fill make (for_device device_id b.expectations) b.outcomes;
        } in
        elim (Bool-cases
          (not b.responses_enabled || is_empty (for_device device_id b.expectations))) [
            | inl nothing ↦ rw nothing v
            | inr some' ↦ rw some' (
                settle_if_complete-Inv next (record {
                  same = v.same;
                  accounts =
                      subst
                        (λ (x : List BatchExpectation).
                          Accounts es (fill make (for_device device_id x) b.outcomes))
                        (sym v.same)
                        (fill-Accounts cs make (for_device device_id es) b.outcomes
                          (λ e f. sym (original-find_expectation e.local_index 0 cs e f).0)
                          (AreFound-for_device device_id es es (AreFound-all 0 cs)) v.accounts);
                  done = v.done;
                }))
          ]

    step-Inv :
        (size_of : EspCommandResult → ℕ) (event : Event) (b : ActiveBatch)
        → Inv b
        → Inv (step size_of event b)
    unfolding step arm_timeout timeout_fired
    step-Inv size_of responses_opened b v = record {
      same = v.same;
      accounts = v.accounts;
      done = v.done;
    }
    step-Inv size_of published b v =
        if_elim Inv (λ _. v) (λ _. record { same = v.same; accounts = v.accounts; done = v.done })
    step-Inv size_of publish_failed b v = settle_unknown-Inv not_published b v
    step-Inv size_of (responded device_id rs) b v = handle_response-Inv size_of device_id rs b v
    step-Inv size_of (malformed device_id bytes) b v = handle_malformed-Inv device_id bytes b v
    step-Inv size_of timer_rang b v = if_elim Inv (λ _. settle_unknown-Inv no_answer b v) (λ _. v)
    step-Inv size_of (cancelled reason) b v = settle_unknown-Inv reason b v

    pub run-Inv :
        (size_of : EspCommandResult → ℕ) (events : List Event) (b : ActiveBatch)
        → Inv b
        → Inv (run size_of b events)
    unfolding run
    run-Inv size_of [] b v = v
    run-Inv size_of (e ∷ rest) b v =
        run-Inv size_of rest (step size_of e b) (step-Inv size_of e b v)
