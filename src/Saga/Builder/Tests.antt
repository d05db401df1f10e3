-- ===== src/Saga/Builder/Tests.antt =====
-- Chains of builder calls at concrete inputs.
use nest_convoy.Prelude.Dict.{insert}
use nest_convoy.Saga.Builder.{invocation_of}
use nest_convoy.Prelude.{if◌then◌else◌, ◌==◌, ℕ, String, none, some, List, [], ◌∷◌, ◌≡◌, refl, ◌+◌}
use nest_convoy.Prelude.Result.{ok}
use nest_convoy.Prelude.Effect.{pure, modify}
use nest_convoy.Commands.Command.{CommandWithDestination}
use nest_convoy.Saga.Step.{
  SagaStep, SagaStepReply, participant, local_step, participant_invocation_step,
}
use nest_convoy.Saga.Builder.{invocation_of, insert, provider_args, with_destination, bare}
use nest_convoy.Saga.Builder.Steps.{Description, local, remote, call_steps, call_steps-step_of}

abbrev reserve : CommandWithDestination ℕ
reserve = record {
  channel = "credit";
  command = record { constructor_name = "Reserve"; plain_form = 1 };
  resource = none;
  extra_headers = [];
}

abbrev release : CommandWithDestination ℕ
release = record {
  channel = "credit";
  command = record { constructor_name = "Release"; plain_form = 2 };
  resource = none;
  extra_headers = [];
}

abbrev noted : String → SagaStepReply ℕ ℕ
noted name = record { type = name; handler = λ p. modify (λ d. d + p) }

abbrev descriptions : List (Description ℕ ℕ)
descriptions =
    local (pure tt) none
    ∷ remote (provider_args (pure reserve) none) (noted "Reserved" ∷ [])
        (some (provider_args (pure release) none)) (noted "Released" ∷ [])
    ∷ []

abbrev expected : List (SagaStep ℕ ℕ)
expected =
    local_step (pure tt) none
    ∷ participant_invocation_step (("Reserved", noted "Reserved") ∷ [])
        (("Released", noted "Released") ∷ []) (some (participant (pure reserve) none))
        (some (participant (pure release) none))
    ∷ []

call_steps-step_of_example : call_steps descriptions [] ≡ expected
unfolding insert invocation_of
call_steps-step_of_example = call_steps-step_of descriptions []

-- The destination that the first command's class declares is that of a later command of a class
-- that declares another one.
shared_destination :
    (with_destination
        (λ name. if name == "Reserve" then some "credit" else some "kitchen")
        (bare (record { constructor_name = "Reserve"; plain_form = 1 }))
        none
      ≡ (ok reserve, some "credit"))
    × (with_destination
          (λ name. if name == "Reserve" then some "credit" else some "kitchen")
          (bare (record { constructor_name = "Release"; plain_form = 2 }))
          (some "credit")
        ≡ (ok release, some "credit"))
unfolding with_destination
shared_destination = (refl, refl)
