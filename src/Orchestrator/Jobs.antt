-- ===== src/Orchestrator/Jobs.antt =====
-- server/internal/orchestrator/orchestrator.go and decomposition.go: the operations that a person
-- asks of the job of a task.
use auto_dev_os.Base.{
  ℕ, String, Bool, true, false, ◌||◌, none, some, List, ◌==◌, leb, if◌then◌else◌, length, filter,
}
use auto_dev_os.Base.Int.{ℤ, pos, negsuc}
use Prim.Native.String.{◌++◌}
use auto_dev_os.JobStore.{Updates}
use auto_dev_os.Status.Job.{queued, running, paused, failed as job_failed}
use auto_dev_os.Status.Task.{
  analyzing, spec_review, coding, pr_ready, human_review, failed as task_failed, blocked,
}
use auto_dev_os.Tasks.Table.{Task, no_input}
use auto_dev_os.Tasks.Guardrails.{positive_or}
use auto_dev_os.Orchestrator.World.{
  Env, Op, Checkpoint, failed, ok, message, wrapped, pure, fail, ◌>>=◌, ◌>>◌, attempt, asks,
  get_task, update_task, require, latest_by_task_id, latest_of, change_job, enqueue_job,
  create_checkpoint, blank_state, cancel_context, release_lock,
}
use auto_dev_os.Orchestrator.Tracker.{log}
use auto_dev_os.Orchestrator.Decomposition.{StatusUpdate, or_log, only_status}

-- `UpdateJob` writes the status and the last error.
abbrev pub status_and_error : String → String → Updates
status_and_error status error = record (only_status status) { last_error = some error }

-- `PauseJob`
unfoldable pub pause_job : Env → String → Op (Unit {0})
pause_job env id = do
  job ← latest_by_task_id id
  require (job.status == running) (message ("job is not running (status: " ++ job.status ++ ")"))
  _ ← change_job env job.ident (only_status paused)
  cancel_context job.ident

unfoldable pub is_active : String → Bool
is_active status = status == running || (status == queued || status == paused)

-- `CancelJob`
unfoldable pub cancel_job : Env → StatusUpdate → String → Op (Unit {0})
cancel_job env update_status id = do
  job ← latest_by_task_id id
  require (is_active job.status)
      (message ("job is not running, queued, or paused (status: " ++ job.status ++ ")"))
  _ ← change_job env job.ident (status_and_error job_failed "cancelled by user")
  _ ← update_status id task_failed
  cancel_context job.ident
  release_lock id

-- The first part of `RetryFromLastStep`: an active job is cancelled and superseded.
unfoldable pub supersede : Env → String → Op (Unit {0})
supersede env id = do
  latest ← asks (λ w. latest_of id w.jobs)
  elim latest [
    | none ↦ pure tt
    | some job ↦
        if is_active job.status
        then (do
          cancel_context job.ident
          _ ← attempt (change_job env job.ident (status_and_error job_failed "superseded by retry"))
          release_lock id)
        else pure tt
  ]

-- `fmt.Errorf("...: %w", err)` around the error of a call.
unfoldable pub wrap_error : {A : Type 0} → String → Op A → Op A
wrap_error text m = do r ← attempt m; elim r [ failed e ↦ fail (wrapped text e) | ok a ↦ pure a ]

unfoldable pub is_retryable : String → Bool
is_retryable status = status == task_failed || (status == spec_review || status == analyzing)

-- `RetryFromLastStep`: the identifier of the job.
unfoldable pub retry_from_last_step : Env → StatusUpdate → String → Op String
retry_from_last_step env update_status id = do
  task ← get_task id
  require (is_retryable task.status)
      (message ("can only retry paused or failed tasks (current status: " ++ task.status ++ ")"))
  supersede env id
  _ ← wrap_error "failed to transition task for retry" (update_status id analyzing)
  ident ← enqueue_job env id
  log env id
  pure ident

-- `RetryBlockedParent`
unfoldable pub retry_blocked_parent : Env → StatusUpdate → String → Op Task
retry_blocked_parent env update_status id = do
  parent ← get_task id
  require (parent.status == blocked)
      (message ("task is not blocked (current status: " ++ parent.status ++ ")"))
  elim parent.blocked_child_id [
    | none ↦ fail (message "blocked parent has no recorded failing child")
    | some child ↦ do
      _ ← wrap_error "failed to resume parent from blocked" (update_status id coding)
      or_log env id (update_task id (record no_input { clear_blocked_child = true }))
      _ ← wrap_error "failed to retry blocked child" (retry_from_last_step env update_status child)
      get_task id
  ]

unfoldable pub reached : ℕ → ℤ → Bool
reached count (pos limit) = leb limit count
reached count (negsuc n) = true

-- The checkpoints of a task that record one turn of a loop.
unfoldable pub turns_of : String → String → List Checkpoint → ℕ
turns_of id step checkpoints =
    length (filter (λ cp. if cp.task_id == id then cp.step == step else false) checkpoints)

-- The body that `CheckReviewLoopLimit` and `CheckSpecReviewLoopLimit` share.
unfoldable pub check_loop_limit : Env → StatusUpdate → String → String → String → Op (Unit {0})
check_loop_limit env update_status step text id = do
  task ← get_task id
  turns ← asks (λ w. turns_of id step w.checkpoints)
  if reached turns (positive_or 3 (λ p. p.max_review_fix_cycles) (env.project task.project_id))
      then (do _ ← attempt (update_status id task_failed); log env id; fail (message text))
      else pure tt

-- `CheckReviewLoopLimit`
unfoldable pub check_review_loop_limit : Env → StatusUpdate → String → Op (Unit {0})
check_review_loop_limit env update_status =
    check_loop_limit env update_status "pr_rejection" "review loop limit exceeded. task has failed"

-- `CheckSpecReviewLoopLimit`
unfoldable pub check_spec_review_loop_limit : Env → StatusUpdate → String → Op (Unit {0})
check_spec_review_loop_limit env update_status =
    check_loop_limit env update_status "cli_spec_review_cycle"
      "spec review loop limit exceeded. task has failed"

-- `SaveSpecReviewCycle`, without the comment.
unfoldable pub save_spec_review_cycle : String → Op (Unit {0})
save_spec_review_cycle id = create_checkpoint id "cli_spec_review_cycle" blank_state

-- `SavePRRejectionFeedback`, without the feedback.
unfoldable pub save_pr_rejection_feedback : String → Op (Unit {0})
save_pr_rejection_feedback id = create_checkpoint id "pr_rejection" blank_state

-- `StartReview`
unfoldable pub start_review : Env → StatusUpdate → String → Op Task
start_review env update_status id = do
  task ← get_task id
  require (task.status == pr_ready) (message "task is not in pr_ready state")
  update_status id human_review
