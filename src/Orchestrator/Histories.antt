-- ===== src/Orchestrator/Histories.antt =====
-- server/internal/orchestrator: what the requests, and histories of them, do to the table of tasks.
use auto_dev_os.Base.{ℕ, String, Option, List, [], ◌∷◌}
use auto_dev_os.JobStore.{Operation}
use auto_dev_os.Status.Task.{analyzing, coding, merged, failed as task_failed, human_review}
use auto_dev_os.Base.{refl}
use auto_dev_os.Tasks.Table.{Task}
use auto_dev_os.Orchestrator.World.{World, Env, Op, pure, ◌>>◌}
use auto_dev_os.Orchestrator.Decomposition.{StatusUpdate, update_task_status}
use auto_dev_os.Orchestrator.Jobs.{
  pause_job, cancel_job, retry_from_last_step, retry_blocked_parent, check_review_loop_limit,
  check_spec_review_loop_limit, save_spec_review_cycle, save_pr_rejection_feedback, start_review,
}
use auto_dev_os.Orchestrator.Reject.Tables.{limit-Keeps, reject-Keeps}
use auto_dev_os.Orchestrator.Merge.{GitOps, match_repo, merge_all, finish_job, approve_merge}
use auto_dev_os.Orchestrator.Commands.{
  Command, ask_queue, perform, run_commands, executes, pauses, cancels, retries, retries_blocked,
  checks_review, checks_spec_review, saves_review, saves_rejection, reviews, approves, rejects,
  sets_status, dispatches, logs, blocks, works, prepares, handles, puts_back, finishes, queues,
}
use auto_dev_os.Orchestrator.Worker.Tables.{
  prepare-Keeps, on_event-Keeps, put_back-Keeps, finish_run-Keeps, run_job-Keeps,
}
use auto_dev_os.Orchestrator.Keeps.{
  RowRule, CheckpointRule, Keeps, bind-Keeps, then-Keeps, attempt-Keeps, asks-Keeps, if-Keeps,
  option-Keeps, pure-Keeps, fail-Keeps, require-Keeps, get_task-Keeps, latest-Keeps, cancel-Keeps,
  change_job-Keeps, enqueue_job-Keeps, create_checkpoint-Keeps, release_lock-Keeps, update-Keeps,
  block_task-Keeps, log-Keeps, delete_checkpoints-Keeps,
}
use auto_dev_os.Orchestrator.Calls.{
  or_log-Keeps, wrap_error-Keeps, supersede-Keeps, execute_task-Keeps, dispatch-Keeps,
  update_task_status-Keeps,
}

module _ (P : World → Type 0) (rule : RowRule P) (also : CheckpointRule P) (env : Env) where
  pause-Keeps : (id : String) → Keeps P (pause_job env id)
  unfolding pause_job
  pause-Keeps id = bind-Keeps P _ _ (latest-Keeps P id) (λ job.
      then-Keeps P _ _ (require-Keeps P _ _) (
        bind-Keeps P _ _ (change_job-Keeps P rule.frame env job.ident _)
          (λ _. cancel-Keeps P rule.frame job.ident)))

  merge_all-Keeps :
      (git : GitOps) (task : Task) (urls : List String) → Keeps P (merge_all env git task urls)
  unfolding merge_all
  merge_all-Keeps git task [] = pure-Keeps P tt
  merge_all-Keeps git task (url ∷ rest) =
      option-Keeps P (match_repo git url (git.repositories task.project_id)) _ _
        (fail-Keeps P (Unit {0}) _)
        (λ repo.
          if-Keeps P _ _ _
            (then-Keeps P _ _ (log-Keeps P rule env task.ident) (merge_all-Keeps git task rest))
            (then-Keeps P _ _ (log-Keeps P rule env task.ident) (fail-Keeps P (Unit {0}) _)))

  finish-Keeps : (id : String) → Keeps P (finish_job env id)
  unfolding finish_job
  finish-Keeps id = bind-Keeps P _ _ (asks-Keeps P _) (λ latest.
      option-Keeps P latest _ _ (pure-Keeps P tt) (λ job.
        if-Keeps P _ _ _
          (bind-Keeps P _ _ (attempt-Keeps P _ (change_job-Keeps P rule.frame env job.ident _))
            (λ _. create_checkpoint-Keeps P also id "done" _))
          (pure-Keeps P tt)))

  module _ (update_status : StatusUpdate)
      (updates : (id new : String) → Keeps P (update_status id new)) where
    cancel_job-Keeps : (id : String) → Keeps P (cancel_job env update_status id)
    unfolding cancel_job
    cancel_job-Keeps id = bind-Keeps P _ _ (latest-Keeps P id) (λ job.
        then-Keeps P _ _ (require-Keeps P _ _) (
          bind-Keeps P _ _ (change_job-Keeps P rule.frame env job.ident _) (λ _.
            bind-Keeps P _ _ (updates id task_failed) (λ _.
              then-Keeps P _ _ (cancel-Keeps P rule.frame job.ident)
                (release_lock-Keeps P rule.frame id)))))

    retry-Keeps : (id : String) → Keeps P (retry_from_last_step env update_status id)
    unfolding retry_from_last_step
    retry-Keeps id = bind-Keeps P _ _ (get_task-Keeps P id) (λ task.
        then-Keeps P _ _ (require-Keeps P _ _) (
          then-Keeps P _ _ (supersede-Keeps P rule.frame env id) (
            bind-Keeps P _ _ (wrap_error-Keeps P rule env _ _ (updates id analyzing)) (λ _.
              bind-Keeps P _ _ (enqueue_job-Keeps P rule.frame env id)
                (λ ident. then-Keeps P _ _ (log-Keeps P rule env id) (pure-Keeps P ident))))))

    retry_blocked-Keeps : (id : String) → Keeps P (retry_blocked_parent env update_status id)
    unfolding retry_blocked_parent
    retry_blocked-Keeps id = bind-Keeps P _ _ (get_task-Keeps P id) (λ parent.
        then-Keeps P _ _ (require-Keeps P _ _) (
          option-Keeps P parent.blocked_child_id _ _ (fail-Keeps P Task _) (λ child.
            bind-Keeps P _ _ (wrap_error-Keeps P rule env _ _ (updates id coding)) (λ _.
              then-Keeps P _ _ (or_log-Keeps P rule env id _ (update-Keeps P rule id _ refl)) (
                bind-Keeps P _ _ (wrap_error-Keeps P rule env _ _ (retry-Keeps child))
                  (λ _. get_task-Keeps P id))))))

    review-Keeps : (id : String) → Keeps P (start_review env update_status id)
    unfolding start_review
    review-Keeps id =
        bind-Keeps P _ _ (get_task-Keeps P id)
          (λ task. then-Keeps P _ _ (require-Keeps P _ _) (updates id human_review))

    approve-Keeps :
        (git : Option GitOps) (id : String) → Keeps P (approve_merge env update_status git id)
    unfolding approve_merge
    approve-Keeps git id = bind-Keeps P _ _ (get_task-Keeps P id) (λ task.
        then-Keeps P _ _ (if-Keeps P _ _ _ (pure-Keeps P tt) (fail-Keeps P (Unit {0}) _)) (
          then-Keeps P _ _ (if-Keeps P _ _ _ (fail-Keeps P (Unit {0}) _) (pure-Keeps P tt)) (
            then-Keeps P _ _
              (option-Keeps P git _ _ (pure-Keeps P tt)
                (λ client. merge_all-Keeps client task task.pr_urls))
              (bind-Keeps P _ _ (updates id merged) (λ updated.
                then-Keeps P _ _ (finish-Keeps id)
                  (then-Keeps P _ _ (log-Keeps P rule env id) (pure-Keeps P updated)))))))

    ask_queue-Keeps : (op : Operation) → Keeps P (ask_queue env op)
    unfolding Keeps ask_queue
    ask_queue-Keeps op w h = rule.frame.on_jobs w _ h

    quietly : {A : Type 0} (m : Op A) → Keeps P m → Keeps P (m >> pure tt)
    quietly m h = then-Keeps P m _ h (pure-Keeps P tt)

    perform-Keeps : (command : Command) → Keeps P (perform env update_status command)
    unfolding perform check_review_loop_limit check_spec_review_loop_limit save_spec_review_cycle
        save_pr_rejection_feedback
    perform-Keeps (executes id) = quietly _ (execute_task-Keeps P rule env update_status updates id)
    perform-Keeps (pauses id) = pause-Keeps id
    perform-Keeps (cancels id) = cancel_job-Keeps id
    perform-Keeps (retries id) = quietly _ (retry-Keeps id)
    perform-Keeps (retries_blocked id) = quietly _ (retry_blocked-Keeps id)
    perform-Keeps (checks_review id) = limit-Keeps P rule env update_status updates _ _ id
    perform-Keeps (checks_spec_review id) = limit-Keeps P rule env update_status updates _ _ id
    perform-Keeps (saves_review id) = create_checkpoint-Keeps P also id _ _
    perform-Keeps (saves_rejection id) = create_checkpoint-Keeps P also id _ _
    perform-Keeps (reviews id) = quietly _ (review-Keeps id)
    perform-Keeps (approves git id) = quietly _ (approve-Keeps git id)
    perform-Keeps (rejects like feedback id) = quietly _ (
        reject-Keeps P rule env update_status updates like feedback id
          (create_checkpoint-Keeps P also id _ _) (delete_checkpoints-Keeps P also like id _))
    perform-Keeps (sets_status id new) = quietly _ (updates id new)
    perform-Keeps (dispatches id) = dispatch-Keeps P rule env update_status updates id
    perform-Keeps (logs id) = log-Keeps P rule env id
    perform-Keeps (blocks id reason) = block_task-Keeps P rule id reason
    perform-Keeps (works worker id) = run_job-Keeps P rule also worker update_status updates id
    perform-Keeps (prepares worker task job_id) =
        quietly _ (prepare-Keeps P rule also worker update_status updates task job_id)
    perform-Keeps (handles worker number task_id job_id seen event) =
        quietly _ (on_event-Keeps P rule also worker number task_id job_id seen event)
    perform-Keeps (puts_back r u) = put_back-Keeps P rule also r u
    perform-Keeps (finishes worker task_id job_id e) =
        finish_run-Keeps P rule also worker update_status updates task_id job_id e
    perform-Keeps (queues op) = ask_queue-Keeps op

-- A property that survives the changes of rows survives every history.
pub run_commands-Keeps :
    (P : World → Type 0)
    → RowRule P
    → CheckpointRule P
    → (history : List (ℕ × (Env × Command))) (w : World) → P w
    → P (run_commands history w)
unfolding run_commands Keeps
run_commands-Keeps P rule also [] w h = h
run_commands-Keeps P rule also ((fuel, (env, command)) ∷ rest) w h =
    run_commands-Keeps P rule also rest _ (
      perform-Keeps P rule also env (update_task_status fuel env)
        (update_task_status-Keeps P rule env fuel) command w h)
