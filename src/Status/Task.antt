-- ===== src/Status/Task.antt =====
-- The statuses and the transition table of server/pkg/models/task.go, and
-- `ValidateTaskTransition` of server/internal/workflow/state_machine.go.
mod Names
pub mod Edges
pub mod Life
pub use Names.*
use auto_dev_os.Base.{String, Option, List, [], ◌∷◌, ◌==◌, if◌then◌else◌}
use auto_dev_os.Base.Dict.{Dict}
use auto_dev_os.Status.Table.{TransitionError, validate_in}

-- `ValidTaskTransitions`.
abbrev pub valid_task_transitions : Dict (List String)
valid_task_transitions =
    (todo, context_loading ∷ analyzing ∷ coding ∷ [])
    ∷ (
      context_loading,
      analyzing ∷ spec_review ∷ coding ∷ reviewing ∷ testing ∷ pr_ready ∷ failed ∷ [],
    )
    ∷ (
      analyzing,
      spec_review ∷ coding ∷ reviewing ∷ fixing ∷ testing ∷ human_review ∷ pr_ready ∷ merged
          ∷ failed ∷ [],
    )
    ∷ (spec_review, coding ∷ todo ∷ failed ∷ analyzing ∷ [])
    ∷ (coding, reviewing ∷ testing ∷ human_review ∷ failed ∷ analyzing ∷ blocked ∷ merged ∷ [])
    ∷ (reviewing, fixing ∷ testing ∷ failed ∷ analyzing ∷ blocked ∷ [])
    ∷ (fixing, reviewing ∷ testing ∷ failed ∷ analyzing ∷ blocked ∷ [])
    ∷ (testing, pr_ready ∷ fixing ∷ failed ∷ merged ∷ reviewing ∷ analyzing ∷ blocked ∷ [])
    ∷ (pr_ready, human_review ∷ merged ∷ failed ∷ fixing ∷ analyzing ∷ [])
    ∷ (human_review, pr_ready ∷ merged ∷ fixing ∷ failed ∷ analyzing ∷ [])
    ∷ (merged, [])
    ∷ (
      failed,
      todo ∷ context_loading ∷ analyzing ∷ spec_review ∷ coding ∷ reviewing ∷ fixing ∷ testing
          ∷ pr_ready ∷ human_review ∷ [],
    )
    ∷ (blocked, coding ∷ fixing ∷ merged ∷ failed ∷ [])
    ∷ []

-- `if from == "" { from = models.TaskStatusTodo }`
unfoldable pub start_of : String → String
start_of from = if from == "" then todo else from

-- `ValidateTaskTransition`.
unfoldable pub validate_task_transition : String → String → Option TransitionError
unfolding start_of
validate_task_transition from to = validate_in valid_task_transitions (start_of from) to
