-- ===== src/Orchestrator/Checkpoints.antt =====
-- What server/internal/orchestrator/worker.go reads back from the checkpoints of a task before it
-- runs the engine. `json` is an object after it was stored as JSON and read again.
use auto_dev_os.Base.{
  String, Bool, true, false, ◌&&◌, ◌||◌, none, some, List, [], ◌∷◌, ◌==◌, filter, any,
  if◌then◌else◌,
}
use auto_dev_os.Base.Dict.{Dict, insert}
use auto_dev_os.Status.Task.{analyzing, coding, reviewing, testing, human_review}
use auto_dev_os.Workflow.Schema.{Object}
use auto_dev_os.Workflow.Step.{StepStatus, success, paused, waiting_approval}
use auto_dev_os.Workflow.Pipelines.{
  step_cli_implement, step_cli_implement_backend, step_cli_implement_frontend, step_merge,
  step_cross_review,
}
use auto_dev_os.Orchestrator.World.{World, Op, Checkpoint, CheckpointState, ok}

-- `isCLIImplementFixLoopCheckpoint`
unfoldable pub is_cli_implement_fix_loop_checkpoint : (job_step cp_step : String) → Bool
is_cli_implement_fix_loop_checkpoint job_step cp_step =
    if job_step == step_cli_implement
    then cp_step == step_cli_implement
      || (cp_step == step_cli_implement_backend
          || (cp_step == step_cli_implement_frontend
              || (cp_step == step_merge || cp_step == step_cross_review)))
    else false

-- `job.Step == StepReview && (cp.Step == StepReview || cp.Step == StepFix)`
unfoldable pub is_review_loop_checkpoint : (job_step cp_step : String) → Bool
is_review_loop_checkpoint job_step cp_step =
    job_step == "review" && (cp_step == "review" || cp_step == "fix")

unfoldable pub is_success : StepStatus → Bool
is_success success = true
is_success _ = false

-- `cpHash != "" && currentSpecHash != "" && cpHash != currentSpecHash`
unfoldable pub is_outdated : (current : String) → CheckpointState → Bool
is_outdated current state =
    if state.spec_hash == ""
    then false
    else if current == ""
    then false
    else if state.spec_hash == current
    then false
    else true

-- The checkpoint puts its step among the completed ones.
unfoldable pub is_restored : (current job_step : String) → Checkpoint → Bool
is_restored current job_step cp =
    if is_outdated current cp.state
    then false
    else if cp.state.empty
    then false
    else if is_success cp.state.status
    then if is_review_loop_checkpoint job_step cp.step
      then false
      else if is_cli_implement_fix_loop_checkpoint job_step cp.step
      then false
      else true
    else false

-- `output, _ := state["output"].(map[string]any)`, an empty map if there is none.
unfoldable pub output_of : (Object → Object) → CheckpointState → Object
output_of json state = elim state.output [ none ↦ [] | some o ↦ json o ]

-- The loop that fills `completed`.
unfoldable pub completed_of :
    (Object → Object) → (current job_step : String) → List Checkpoint → Dict Object → Dict Object
completed_of json current job_step [] completed = completed
completed_of json current job_step (cp ∷ rest) completed = completed_of json current job_step rest (
    if is_restored current job_step cp
    then insert cp.step (output_of json cp.state) completed
    else completed)

unfoldable pub is_pause : StepStatus → Bool
is_pause paused = true
is_pause waiting_approval = true
is_pause _ = false

-- `resumedStepID` after the same loop: blank if no step was paused.
unfoldable pub resumed_step : (current : String) → List Checkpoint → String → String
resumed_step current [] step = step
resumed_step current (cp ∷ rest) step = resumed_step current rest (
    if is_outdated current cp.state
    then step
    else if cp.state.empty
    then step
    else if is_pause cp.state.status
    then cp.step
    else step)

-- `latestCompletedStep`
unfoldable pub latest_completed_step : List Checkpoint → String → String
latest_completed_step [] step = step
latest_completed_step (cp ∷ rest) step =
    latest_completed_step rest (if is_success cp.state.status then cp.step else step)

-- `resumeStatus`, blank where the status of the task is left alone. `has_prefix` is
-- `strings.HasPrefix`.
unfoldable pub resume_status :
    (has_prefix : String → String → Bool) → (complexity step : String) → String
resume_status has_prefix complexity step =
    if has_prefix step "context_load" || has_prefix step "analyze"
    then if complexity == "easy" then coding else analyzing
    else if has_prefix step "plan"
        || (has_prefix step "code_backend"
            || (has_prefix step "code_frontend"
                || (has_prefix step "fix" || has_prefix step step_cli_implement)))
    then coding
    else if has_prefix step step_merge
    then reviewing
    else if has_prefix step "test"
    then testing
    else if has_prefix step "pr"
    then human_review
    else ""

-- The checkpoints of a task, oldest first: `WorkflowRepo.ListCheckpoints`.
unfoldable pub list_checkpoints : String → World → List Checkpoint
list_checkpoints task_id w = filter (λ cp. cp.task_id == task_id) w.checkpoints

-- `(step = ? OR step LIKE ?)` for one of the steps. `like` is the database's.
unfoldable pub is_cleared :
    (like : String → String → Bool) → List (String × String) → Checkpoint → Bool
is_cleared like steps cp = any (λ s. cp.step == s.0 || like cp.step s.1) steps

-- The steps of `ClearCheckpointsForRepair`, with `s + "_%"` for each.
abbrev pub repair_steps : List (String × String)
repair_steps =
    ("code_backend", "code_backend_%")
    ∷ ("code_frontend", "code_frontend_%")
    ∷ ("review", "review_%")
    ∷ ("fix", "fix_%")
    ∷ ("test", "test_%")
    ∷ ("pr", "pr_%")
    ∷ []

-- `WorkflowRepo.DeleteCheckpoints`
unfoldable pub delete_checkpoints :
    (String → String → Bool) → String → List (String × String) → Op (Unit {0})
delete_checkpoints like task_id steps w = (
  record w {
    checkpoints =
        filter
          (λ cp.
            if cp.task_id == task_id
            then (if is_cleared like steps cp then false else true)
            else true)
          w.checkpoints;
  },
  ok tt,
)
