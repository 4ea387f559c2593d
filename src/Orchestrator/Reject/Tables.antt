-- ===== src/Orchestrator/Reject/Tables.antt =====
-- What a rejection of a pull request does to the tables, by the changes that it is made of.
use auto_dev_os.Base.{String, Bool}
use auto_dev_os.Status.Task.{fixing, failed as task_failed}
use auto_dev_os.Orchestrator.World.{World, Env, message, blank_state, create_checkpoint}
use auto_dev_os.Orchestrator.Checkpoints.{repair_steps, delete_checkpoints}
use auto_dev_os.Orchestrator.Decomposition.{StatusUpdate}
use auto_dev_os.Orchestrator.Jobs.{
  check_loop_limit, check_review_loop_limit, save_pr_rejection_feedback,
}
use auto_dev_os.Orchestrator.Reject.{clear_checkpoints_for_repair, reject}
use auto_dev_os.Orchestrator.Keeps.{
  RowRule, Keeps, bind-Keeps, then-Keeps, attempt-Keeps, asks-Keeps, if-Keeps, pure-Keeps,
  fail-Keeps, require-Keeps, get_task-Keeps, log-Keeps, service_update-Keeps,
}
use auto_dev_os.Orchestrator.Calls.{execute_task-Keeps}

module _ (P : World → Type 0) (rule : RowRule P) (env : Env) (update_status : StatusUpdate)
    (updates : (id new : String) → Keeps P (update_status id new)) where
  pub limit-Keeps :
      (step text id : String) → Keeps P (check_loop_limit env update_status step text id)
  unfolding check_loop_limit
  limit-Keeps step text id = bind-Keeps P _ _ (get_task-Keeps P id) (λ task.
      bind-Keeps P _ _ (asks-Keeps P _) (λ turns.
        if-Keeps P _ _ _
          (bind-Keeps P _ _ (attempt-Keeps P _ (updates id task_failed)) (λ _.
            then-Keeps P _ _ (log-Keeps P rule env id) (fail-Keeps P (Unit {0}) (message text))))
          (pure-Keeps P tt)))

  pub reject-Keeps :
      (like : String → String → Bool) (feedback id : String)
      → Keeps P (create_checkpoint id "pr_rejection" blank_state)
      → Keeps P (delete_checkpoints like id repair_steps)
      → Keeps P (reject env update_status like feedback id)
  unfolding reject clear_checkpoints_for_repair check_review_loop_limit save_pr_rejection_feedback
  reject-Keeps like feedback id saves clears = bind-Keeps P _ _ (get_task-Keeps P id) (λ task.
      then-Keeps P _ _ (require-Keeps P _ _) (
        then-Keeps P _ _ (require-Keeps P _ _) (
          then-Keeps P _ _ (limit-Keeps _ _ id) (
            bind-Keeps P _ _ (service_update-Keeps P rule id fixing) (λ updated.
              then-Keeps P _ _ saves (
                then-Keeps P _ _ (bind-Keeps P _ _ (get_task-Keeps P id) (λ _. clears)) (
                  bind-Keeps P _ _ (execute_task-Keeps P rule env update_status updates id)
                    (λ _. pure-Keeps P updated))))))))
