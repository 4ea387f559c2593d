-- ===== src/Workflow/Pipelines/Runs.antt =====
-- What the engine does with the pipelines.
use auto_dev_os.Base.{ℕ, String, ◌≡◌, refl, Bool, true, false, none, List, ◌==◌, if◌then◌else◌}
use auto_dev_os.Base.Counts.{Rearranges}
use auto_dev_os.Base.Dict.{get_or, lookup, insert}
use auto_dev_os.Workflow.Graph.{validate_definition, check_ids, check_deps, check_deps_of}
use auto_dev_os.Workflow.Graph.Valid.{IsValid, IsValid-of_checks, accepted_iff_IsValid, check_ranks}
use auto_dev_os.Workflow.Pipelines.{
  Runners, cli_spec_first_workflow, cli_spec_first_parallel_workflow, step_cli_spec,
  step_cli_implement, step_cli_implement_backend, step_cli_implement_frontend, step_merge,
  step_cross_review, step_cli_mr,
}

-- The place of a step in its pipeline.
rank : String → ℕ
rank k =
    if k == step_cli_mr
    then 6
    else if k == step_cross_review
    then 5
    else if k == step_merge
    then 4
    else if k == step_cli_implement
    then 3
    else if k == step_cli_implement_backend
    then 3
    else if k == step_cli_implement_frontend
    then 3
    else if k == step_cli_spec
    then 2
    else 1

first-IsValid :
    (runners : Runners) (review : Bool) → IsValid (cli_spec_first_workflow runners review).steps
unfolding check_ids check_deps check_deps_of check_ranks rank get_or lookup insert ◌==◌
first-IsValid runners true = IsValid-of_checks _ _ rank refl refl refl
first-IsValid runners false = IsValid-of_checks _ _ rank refl refl refl

parallel-IsValid :
    (runners : Runners) (review : Bool)
    → IsValid (cli_spec_first_parallel_workflow runners review).steps
unfolding check_ids check_deps check_deps_of check_ranks rank get_or lookup insert ◌==◌
parallel-IsValid runners true = IsValid-of_checks _ _ rank refl refl refl
parallel-IsValid runners false = IsValid-of_checks _ _ rank refl refl refl

-- Both pipelines, with and without the review and whatever functions their steps have, are accepted
-- by `validateDefinition`, if the range over the map of nodes visits each node once.
pub pipelines_accepted :
    (runners : Runners) (review : Bool) (ranged : List String → List String)
    → Rearranges ranged
    → (validate_definition ranged (cli_spec_first_workflow runners review).steps ≡ none)
      × (validate_definition ranged (cli_spec_first_parallel_workflow runners review).steps ≡ none)
pipelines_accepted runners review ranged fair = (
  (accepted_iff_IsValid ranged _ fair).1 (first-IsValid runners review),
  (accepted_iff_IsValid ranged _ fair).1 (parallel-IsValid runners review),
)
