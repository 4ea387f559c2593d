-- ===== src/Workflow/Pipelines/Order.antt =====
-- What has happened when a pipeline comes to its merge request.
use auto_dev_os.Base.{String, ◌≡◌, Bool, true, false, List, [], ◌∷◌, Memᴰ}
use auto_dev_os.Workflow.Step.{Event, success, Definition}
use auto_dev_os.Workflow.Engine.{Engine}
use auto_dev_os.Workflow.Engine.Causal.{IsCausal}
use auto_dev_os.Workflow.Pipelines.{
  Runners, cli_spec_first_workflow, step_cli_analyze, step_cli_spec, step_cli_implement,
  step_cross_review,
}

-- The success of a step is among the events.
abbrev pub Won : List Event → String → Type 0
Won events k = (x : Event) × Memᴰ x events × (x.step_id ≡ k) × (x.status ≡ success)

module _ (e : Engine) (runners : Runners) (review : Bool) (events : List Event)
    (fresh : e.completed_steps ≡ [])
    (causal : IsCausal e (cli_spec_first_workflow runners review) events) where
  abbrev def : Definition
  def = cli_spec_first_workflow runners review

-- The steps that stand before the merge request.
abbrev pub needed : Bool → List String
needed true = step_cross_review ∷ step_cli_implement ∷ step_cli_spec ∷ step_cli_analyze ∷ []
needed false = step_cli_implement ∷ step_cli_spec ∷ step_cli_analyze ∷ []
