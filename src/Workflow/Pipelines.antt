-- ===== src/Workflow/Pipelines.antt =====
-- server/internal/workflow/step.go: the pipelines that the orchestrator runs, and the statuses that
-- go with their steps. `runners` is the map from a step's name to its function; a missing name gives
-- nil.
pub mod Runs
pub mod Order
mod Examples
use auto_dev_os.Base.{
  String, Bool, true, false, Option, none, some, List, [], ◌∷◌, ◌++◌, ◌==◌, if◌then◌else◌,
}
use auto_dev_os.Base.Dict.{Dict, lookup}
use auto_dev_os.Status.Task.{coding, analyzing}
use auto_dev_os.Workflow.Schema.{Schema, field_string}
use auto_dev_os.Workflow.Step.{StepFunc, StepDefinition, Definition}

abbrev pub step_cli_analyze : String
step_cli_analyze = "cli_analyze"

abbrev pub step_cli_spec : String
step_cli_spec = "cli_spec"

abbrev pub step_cli_implement : String
step_cli_implement = "cli_implement"

abbrev pub step_cli_implement_backend : String
step_cli_implement_backend = "cli_implement_backend"

abbrev pub step_cli_implement_frontend : String
step_cli_implement_frontend = "cli_implement_frontend"

abbrev pub step_merge : String
step_merge = "merge"

abbrev pub step_cross_review : String
step_cross_review = "cross_review"

abbrev pub step_cli_mr : String
step_cli_mr = "cli_mr"

abbrev pub Runners : Type 0
Runners = Dict StepFunc

abbrev pub no_schema : Schema
no_schema = record { fields = [] }

abbrev pub status_schema : Schema
status_schema = record {
  fields = ("status", record { type = field_string; required = false }) ∷ [];
}

-- `{ID: …, Name: …, DependsOn: …, OutputSchema: statusSchema, Run: runners[…]}`
abbrev pub step_of : Runners → String → String → List String → StepDefinition
step_of runners ident name depends_on = record {
  ident = ident;
  name = name;
  depends_on = depends_on;
  input_schema = no_schema;
  output_schema = status_schema;
  run = lookup ident runners;
}

-- The end of both pipelines: the review, if there is one, and the merge request.
abbrev pub last_steps : Runners → Bool → String → List StepDefinition
last_steps runners false last = step_of runners step_cli_mr "Merge Request" (last ∷ []) ∷ []
last_steps runners true last =
    step_of runners step_cross_review "Cross-Harness Review" (last ∷ [])
    ∷ step_of runners step_cli_mr "Merge Request" (step_cross_review ∷ [])
    ∷ []

-- `CLISpecFirstWorkflow`
abbrev pub cli_spec_first_workflow : Runners → Bool → Definition
cli_spec_first_workflow runners include_cross_review = record {
  name = "auto-code-os-cli-spec-first-workflow";
  steps =
      step_of runners step_cli_analyze "Analyze" []
      ∷ step_of runners step_cli_spec "Author Spec" (step_cli_analyze ∷ [])
      ∷ step_of runners step_cli_implement "Implement" (step_cli_spec ∷ [])
      ∷ last_steps runners include_cross_review step_cli_implement;
}

-- `CLISpecFirstParallelWorkflow`
abbrev pub cli_spec_first_parallel_workflow : Runners → Bool → Definition
cli_spec_first_parallel_workflow runners include_cross_review = record {
  name = "auto-code-os-cli-spec-first-parallel-workflow";
  steps =
      step_of runners step_cli_analyze "Analyze" []
      ∷ step_of runners step_cli_spec "Author Spec" (step_cli_analyze ∷ [])
      ∷ step_of runners step_cli_implement_backend "Implement (Backend)" (step_cli_spec ∷ [])
      ∷ step_of runners step_cli_implement_frontend "Implement (Frontend)" (step_cli_spec ∷ [])
      ∷ step_of runners step_merge "Merge"
          (step_cli_implement_backend ∷ step_cli_implement_frontend ∷ [])
      ∷ last_steps runners include_cross_review step_merge;
}

-- `StatusForStep`
unfoldable pub status_for_step : String → String
status_for_step step =
    if step == step_cli_implement
    then coding
    else if step == step_cli_implement_backend
    then coding
    else if step == step_cli_implement_frontend
    then coding
    else analyzing
