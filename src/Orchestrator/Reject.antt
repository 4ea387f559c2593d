-- ===== src/Orchestrator/Reject.antt =====
-- The rejection of a pull request: `Reject` of server/internal/handler/pr.go, and
-- `ClearCheckpointsForRepair` of server/internal/orchestrator/orchestrator.go. `like` is the
-- database's test of a text by a pattern. The audit is left out.

pub mod Tables
pub mod Forgets
pub mod Reruns
mod Examples
use auto_dev_os.Base.{String, Bool, true, false, ◌||◌, ◌==◌, if◌then◌else◌}
use auto_dev_os.Status.Task.{human_review, pr_ready, fixing}
use auto_dev_os.Tasks.Table.{Task}
use auto_dev_os.Orchestrator.World.{Env, Op, message, pure, ◌>>=◌, ◌>>◌, get_task, require}
use auto_dev_os.Orchestrator.Tracker.{task_service_update}
use auto_dev_os.Orchestrator.Checkpoints.{delete_checkpoints, repair_steps}
use auto_dev_os.Orchestrator.Decomposition.{StatusUpdate, execute_task}
use auto_dev_os.Orchestrator.Jobs.{check_review_loop_limit, save_pr_rejection_feedback}

-- `ClearCheckpointsForRepair`
unfoldable pub clear_checkpoints_for_repair : (String → String → Bool) → String → Op (Unit {0})
clear_checkpoints_for_repair like id = do _ ← get_task id; delete_checkpoints like id repair_steps

-- `requireTaskStatus(w, task, TaskStatusHumanReview, TaskStatusPrReady)`
unfoldable pub awaits_review : String → Bool
awaits_review status = status == human_review || status == pr_ready

-- `Reject`
unfoldable pub reject :
    Env → StatusUpdate → (String → String → Bool) → (feedback id : String) → Op Task
reject env update_status like feedback id = do
  task ← get_task id
  require (awaits_review task.status) (message "task is not awaiting PR review")
  require (if feedback == "" then false else true)
      (message "feedback is required when rejecting a PR")
  check_review_loop_limit env update_status id
  updated ← task_service_update id fixing
  save_pr_rejection_feedback id
  clear_checkpoints_for_repair like id
  _ ← execute_task env update_status id
  pure updated
