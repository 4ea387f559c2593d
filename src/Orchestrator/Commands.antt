-- ===== src/Orchestrator/Commands.antt =====
-- What is asked of the orchestrator: by people, by the worker that runs a job, and by the queue.
use auto_dev_os.Base.{ℕ, String, Bool, Option, List, [], ◌∷◌}
use auto_dev_os.JobStore.{Operation, Updates, apply}
use auto_dev_os.Tasks.Table.{Task}
use auto_dev_os.Workflow.Step.{Err, Event}
use auto_dev_os.Orchestrator.World.{World, Env, Op, ok, pure, ◌>>◌}
use auto_dev_os.Orchestrator.Tracker.{log, block_task}
use auto_dev_os.Orchestrator.Decomposition.{
  StatusUpdate, execute_task, dispatch_next_child_or_reduce, update_task_status,
}
use auto_dev_os.Orchestrator.Jobs.{
  pause_job, cancel_job, retry_from_last_step, retry_blocked_parent, check_review_loop_limit,
  check_spec_review_loop_limit, save_spec_review_cycle, save_pr_rejection_feedback, start_review,
}
use auto_dev_os.Orchestrator.Merge.{GitOps, approve_merge}
use auto_dev_os.Orchestrator.Reject.{reject}
use auto_dev_os.Orchestrator.Worker.{Worker, on_event}
use auto_dev_os.Orchestrator.Worker.Attempts.{Run, put_back}
use auto_dev_os.Orchestrator.Worker.Job.{prepare, finish_run, run_job}

pub data Command : Type 0 where
  executes pauses cancels retries retries_blocked : String → Command
  checks_review checks_spec_review saves_review saves_rejection reviews : String → Command
  approves : Option GitOps → String → Command
  -- the rejection of a pull request, with the database's LIKE
  rejects : (String → String → Bool) → (feedback id : String) → Command
  -- `updateTaskStatus`, as the steps of a workflow call it
  sets_status : (id new : String) → Command
  -- `DispatchDecomposedParent`
  dispatches : String → Command
  logs : String → Command
  blocks : (id reason : String) → Command
  -- the work on a job that was claimed
  works : Worker → String → Command
  -- parts of that work, which the requests of people may come between
  prepares : Worker → Task → String → Command
  handles : Worker → (number : ℕ) → (task_id job_id : String) → List Event → Event → Command
  puts_back : Run → Updates → Command
  finishes : Worker → (task_id job_id : String) → Option Err → Command
  -- an operation of the queue
  queues : Operation → Command

unfoldable pub ask_queue : Env → Operation → Op (Unit {0})
ask_queue env op w = (record w { jobs = apply op env.now w.jobs }, ok tt)

unfoldable pub perform : Env → StatusUpdate → Command → Op (Unit {0})
perform env update_status (executes id) = execute_task env update_status id >> pure tt
perform env update_status (pauses id) = pause_job env id
perform env update_status (cancels id) = cancel_job env update_status id
perform env update_status (retries id) = retry_from_last_step env update_status id >> pure tt
perform env update_status (retries_blocked id) =
    retry_blocked_parent env update_status id >> pure tt
perform env update_status (checks_review id) = check_review_loop_limit env update_status id
perform env update_status (checks_spec_review id) =
    check_spec_review_loop_limit env update_status id
perform env update_status (saves_review id) = save_spec_review_cycle id
perform env update_status (saves_rejection id) = save_pr_rejection_feedback id
perform env update_status (reviews id) = start_review env update_status id >> pure tt
perform env update_status (approves git id) = approve_merge env update_status git id >> pure tt
perform env update_status (rejects like feedback id) =
    reject env update_status like feedback id >> pure tt
perform env update_status (sets_status id new) = update_status id new >> pure tt
perform env update_status (dispatches id) = dispatch_next_child_or_reduce env update_status id
perform env update_status (logs id) = log env id
perform env update_status (blocks id reason) = block_task id reason
perform env update_status (works worker id) = run_job worker update_status id
perform env update_status (prepares worker task job_id) =
    prepare worker update_status task job_id >> pure tt
perform env update_status (handles worker number task_id job_id seen event) =
    on_event worker number task_id job_id seen event >> pure tt
perform env update_status (puts_back r u) = put_back r u
perform env update_status (finishes worker task_id job_id e) =
    finish_run worker update_status task_id job_id e
perform env update_status (queues op) = ask_queue env op

-- A history: each command with what it reads, on the fuel of its status updates.
unfoldable pub run_commands : List (ℕ × (Env × Command)) → World → World
run_commands [] w = w
run_commands ((fuel, (env, command)) ∷ rest) w =
    run_commands rest (perform env (update_task_status fuel env) command w).0
