-- ===== src/Workflow/Pipelines/Examples.antt =====
-- A run of the first pipeline with its review, and steps that all answer nothing.
use auto_dev_os.Base.{String, false, none, List, [], ◌∷◌}
use auto_dev_os.Base.Int.{pos}
use auto_dev_os.Workflow.Schema.{Object}
use auto_dev_os.Workflow.Step.{success, returned}
use auto_dev_os.Workflow.Engine.{Engine, State, Arrival, running_event, success_event}
use auto_dev_os.Workflow.Pipelines.{
  Runners, step_cli_analyze, step_cli_spec, step_cli_implement, step_cross_review, step_cli_mr,
}

abbrev runners : Runners
runners =
    (step_cli_analyze, λ seen context. returned none)
    ∷ (step_cli_spec, λ seen context. returned none)
    ∷ (step_cli_implement, λ seen context. returned none)
    ∷ (step_cross_review, λ seen context. returned none)
    ∷ (step_cli_mr, λ seen context. returned none)
    ∷ []

abbrev engine : Engine
engine = record { max_parallel = pos 4; on_event = none; completed_steps = [] }

abbrev in_order : Arrival
in_order events items = items

abbrev no_outputs : List (String × Object)
no_outputs =
    (step_cli_analyze, [])
    ∷ (step_cli_spec, [])
    ∷ (step_cli_implement, [])
    ∷ (step_cross_review, [])
    ∷ (step_cli_mr, [])
    ∷ []

abbrev final : State
final = record {
  outputs = no_outputs;
  status =
      (step_cli_analyze, success)
      ∷ (step_cli_spec, success)
      ∷ (step_cli_implement, success)
      ∷ (step_cross_review, success)
      ∷ (step_cli_mr, success)
      ∷ [];
  is_paused = false;
  completed = no_outputs;
  events =
      success_event step_cli_mr []
      ∷ running_event step_cli_mr
      ∷ success_event step_cross_review []
      ∷ running_event step_cross_review
      ∷ success_event step_cli_implement []
      ∷ running_event step_cli_implement
      ∷ success_event step_cli_spec []
      ∷ running_event step_cli_spec
      ∷ success_event step_cli_analyze []
      ∷ running_event step_cli_analyze
      ∷ [];
}
