-- ===== src/Orchestrator/Worker/Job.antt =====
-- server/internal/orchestrator/worker.go and recovery.go: `run`, the work on one claimed job. The
-- recovery from a panic, memories, attempts' rows, the learning engine, and the git worktrees that are
-- restored with their index are left out.
use auto_dev_os.Base.{
  String, Bool, false, ◌||◌, Option, none, some, List, [], ◌∷◌, ◌==◌, any, if◌then◌else◌,
}
use auto_dev_os.Base.Dict.{Dict}
use auto_dev_os.JobStore.{Job, Updates, find_job}
use auto_dev_os.Status.Job.{running, paused as job_paused, done, failed as job_failed}
use auto_dev_os.Status.Task.{context_loading, failed as task_failed}
use auto_dev_os.Tasks.Table.{Task, no_input}
use auto_dev_os.Workflow.Schema.{Object}
use auto_dev_os.Workflow.Step.{Err, is_paused, is_waiting, running as step_running}
use auto_dev_os.Workflow.Engine.{State}
use auto_dev_os.Orchestrator.World.{
  World, Op, Result, failed, ok, message, Checkpoint, CheckpointState, blank_state, pure, fail,
  ◌>>=◌, ◌>>◌, attempt, asks, given, get_task, update_task, latest_of, change_job,
  create_checkpoint, release_lock,
}
use auto_dev_os.Orchestrator.Tracker.{log}
use auto_dev_os.Orchestrator.Checkpoints.{
  is_outdated, completed_of, resumed_step, latest_completed_step, resume_status, list_checkpoints,
}
use auto_dev_os.Orchestrator.Decomposition.{StatusUpdate, only_status, is_unstarted}
use auto_dev_os.Orchestrator.Jobs.{status_and_error}
use auto_dev_os.Orchestrator.Worker.{Worker, needs_parallel_tracks}
use auto_dev_os.Orchestrator.Worker.Errors.{is_canceled}
use auto_dev_os.Orchestrator.Worker.Attempts.{
  Run, LoopEnd, returned, left, no_rounds, attempts, max_retries_of,
}

-- `ctx.Err() == context.Canceled`
unfoldable pub is_context_canceled : String → World → Bool
is_context_canceled job_id w = any (λ ident. ident == job_id) w.cancelled

unfoldable pub mentions_cancel : Worker → String → Bool
mentions_cancel k text = k.contains text "signal: killed" || k.contains text "context canceled"

-- `fail` of recovery.go, with the error's text.
unfoldable pub fail_job : Worker → StatusUpdate → (task_id job_id text : String) → Op (Unit {0})
fail_job k update_status task_id job_id text = do
  canceled ← asks (is_context_canceled job_id)
  if canceled || mentions_cancel k text then pure tt else (do
    _ ← attempt (update_status task_id task_failed)
    _ ← attempt (change_job k.env job_id (status_and_error job_failed text))
    log k.env task_id)

-- `if err != nil { o.fail(ctx, job, err); return }`
unfoldable pub or_fail :
    {A : Type 0}
    → Worker
    → StatusUpdate
    → (task_id job_id : String) → Op A
    → (A → Op (Unit {0}))
    → Op (Unit {0})
or_fail k update_status task_id job_id m f = do
  r ← attempt m
  elim r [ failed e ↦ fail_job k update_status task_id job_id (k.failure_text e) | ok a ↦ f a ]

-- `finalStatus` and `finalErr` of an error.
unfoldable pub final_status :
    Worker → (context_canceled : Bool) → Option Job → Err → String × String
final_status k canceled latest e =
    if is_paused e || is_waiting e
    then (job_paused, k.text_of e)
    else if is_canceled e || (canceled || mentions_cancel k (k.text_of e))
    then elim latest [
      | none ↦ (job_failed, "workflow context cancelled")
      | some job ↦
          if job.status == job_paused
          then (job_paused, "workflow paused by user")
          else (job_failed, "workflow cancelled by user")
    ]
    else (job_failed, k.text_of e)

-- The columns that are written where every step has succeeded.
abbrev pub done_updates : Updates
done_updates = record (status_and_error done "") { step = some "done" }

-- What follows the loop of attempts.
unfoldable pub finish_run :
    Worker → StatusUpdate → (task_id job_id : String) → Option Err → Op (Unit {0})
finish_run k update_status task_id job_id none =
    or_fail k update_status task_id job_id (change_job k.env job_id done_updates)
      (λ _. create_checkpoint task_id "done" blank_state >> log k.env task_id)
finish_run k update_status task_id job_id (some e) = do
  canceled ← asks (is_context_canceled job_id)
  latest ← asks (λ w. latest_of task_id w.jobs)
  let (status, text) = final_status k canceled latest e
  if status == job_paused
      then (do
        _ ← attempt (change_job k.env job_id (status_and_error job_paused text))
        log k.env task_id)
      else fail_job k update_status task_id job_id text

-- `Result{}` before the first attempt, with the completed steps that were loaded.
abbrev pub no_attempt : Dict Object → State
no_attempt completed = record {
  outputs = [];
  status = [];
  is_paused = false;
  completed = completed;
  events = [];
}

-- What follows the loop, if it did not return.
unfoldable pub conclude : Run → StatusUpdate → World × LoopEnd → World × Result (Unit {0})
conclude r update_status (w, returned) = (w, ok tt)
conclude r update_status (w, no_rounds) = (w, failed (message "out of rounds"))
conclude r update_status (w, left s e) = finish_run r.worker update_status r.task_id r.job_id e w

-- The attempts and what follows them.
unfoldable pub work : Run → StatusUpdate → Dict Object → Op (Unit {0})
work r update_status completed w =
    let max_retries = max_retries_of r.worker.project_max_retries in
    conclude r update_status (attempts r max_retries 1 max_retries (no_attempt completed) none w)

-- The `log` of each checkpoint that the loop discards.
unfoldable pub log_outdated : Worker → (task_id current : String) → List Checkpoint → Op (Unit {0})
log_outdated k task_id current [] = pure tt
log_outdated k task_id current (cp ∷ rest) =
    (if is_outdated current cp.state then log k.env task_id else pure tt)
    >> log_outdated k task_id current rest

-- The part that loads the checkpoints: the completed steps and the one that was paused, and the status
-- of the task as it was when they were made.
unfoldable pub load_checkpoints :
    Worker → StatusUpdate → (task job_step : String) → String → Op (Dict Object × String)
load_checkpoints k update_status task_id job_step status = do
  checkpoints ← asks (list_checkpoints task_id)
  let hash = (k.analysis 0 []).spec_hash
  log_outdated k task_id hash checkpoints
  let completed = completed_of k.json hash job_step checkpoints []
  let resumed = resumed_step hash checkpoints ""
  elim completed as (λ _. Op (Dict Object × String)) [
    | [] ↦ pure (completed, resumed)
    | _ ∷ _ ↦ do
      log k.env task_id
      let restored = resume_status k.has_prefix k.complexity (latest_completed_step checkpoints "")
      if restored == "" || restored == status then pure (completed, resumed) else (do
        log k.env task_id
        _ ← attempt (update_status task_id restored)
        pure (completed, resumed))
  ]

abbrev pub assign_updates : String → Updates
assign_updates agent = record {
  status = none;
  step = some "assign";
  last_error = none;
  agent_id = some agent;
  sleep_until = none;
}

abbrev pub assign_state : CheckpointState
assign_state = record blank_state { status = step_running }

-- `if err := m; err != nil { … }` for a call that another component answers.
unfoldable pub answered : Option String → Op (Unit {0})
answered none = pure tt
answered (some text) = fail (message text)

-- The preparation: the agent, the workspace, and the status of the task. The agent's column of the
-- task is not among those of `Task`.
unfoldable pub prepare : Worker → StatusUpdate → Task → String → Op String
prepare k update_status task job_id = do
  create_checkpoint task.ident "assign" assign_state
  agent ← given (message "assign agent") (k.assign task job_id)
  _ ← change_job k.env job_id (assign_updates agent)
  _ ← update_task task.ident no_input
  log k.env task.ident
  answered (k.clone_fails task)
  _ ← if is_unstarted task.status then update_status task.ident context_loading else pure task
  answered (k.mark_running_fails agent)
  create_checkpoint task.ident "agent_confidence" blank_state
  pure agent

-- `run` up to the release of the agent; the lock of the workspace is released on every path.
unfoldable pub run_job : Worker → StatusUpdate → String → Op (Unit {0})
run_job k update_status job_id = do
  started ← attempt (change_job k.env job_id (only_status running))
  found ← asks (λ w. find_job job_id w.jobs)
  elim started [
    | failed e ↦ pure tt
    | ok _ ↦ elim found [
      | none ↦ pure tt
      | some job ↦ do
        or_fail k update_status job.task_id job_id (get_task job.task_id) (λ task.
            or_fail k update_status job.task_id job_id (prepare k update_status task job_id)
              (λ agent. do
                (completed, resumed) ←
                    load_checkpoints k update_status job.task_id job.step task.status
                work
                    (record {
                      worker = k;
                      task_id = job.task_id;
                      job_id = job_id;
                      agent_id = agent;
                      step = job.step;
                      is_parallel = needs_parallel_tracks k (k.analysis 0 []);
                      resumed = resumed;
                    })
                    update_status completed))
        release_lock job.task_id
    ]
  ]
