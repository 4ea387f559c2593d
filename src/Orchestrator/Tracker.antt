-- ===== src/Orchestrator/Tracker.antt =====
-- server/internal/orchestrator/tracker.go: logging with its guardrail, and the first part of
-- `updateTaskStatus`. The learning engine, the events and the snapshot on disk are left out.
use auto_dev_os.Base.{String, Option, none, some, if◌then◌else◌, suc}
use auto_dev_os.Status.Task.{validate_task_transition, blocked}
use auto_dev_os.Tasks.Table.{Task, no_input, find_task}
use auto_dev_os.Tasks.Guardrails.{
  Project, positive_or, eval_event_volume, is_exempt, apply_guardrails,
}
use auto_dev_os.Orchestrator.World.{
  Env, Op, ok, Failure, domain, invalid, bad_transition, wrapped, pure, fail, ◌>>=◌, ◌>>◌, attempt,
  get_task, update_task,
}

-- `ValidateTaskTransition` as a step that can fail.
unfoldable pub check_transition : (Failure → Failure) → String → String → Op (Unit {0})
check_transition wrap from to = elim (validate_task_transition from to) [
  | none ↦ pure tt
  | some e ↦ fail (wrap (bad_transition e))
]

-- `TaskService.Update` of server/internal/service/task.go, with a status and nothing else.
unfoldable pub task_service_update : String → String → Op Task
task_service_update id new = do
  task ← get_task id
  check_transition (domain invalid) task.status new
  updated ← update_task id (record no_input { status = some new })
  pure updated

-- `blockTask`
unfoldable pub block_task : String → String → Op (Unit {0})
block_task id reason = do
  task ← get_task id
  if is_exempt task.status then pure tt else do
    check_transition (λ e. e) task.status blocked
    _ ← update_task id (record no_input { status = some blocked; block_reason = some reason })
    pure tt

-- The project of a task that may be gone.
unfoldable pub project_of : Env → Option Task → Option Project
project_of env none = none
project_of env (some task) = env.project task.project_id

-- The guardrail on the number of events that `log` checks after each row. What fails is ignored.
unfoldable pub check_event_volume_guardrail : Env → String → Op (Unit {0})
check_event_volume_guardrail env id w = elim (env.event_count w.logs id) [
  | none ↦ (w, ok tt)
  | some count ↦
      if eval_event_volume count
        (positive_or 20000 (λ p. p.max_event_count) (project_of env (find_task id w.tasks)))
      then (attempt (block_task id "event_volume_exceeded") >> pure tt) w
      else (w, ok tt)
]

-- `log`, up to the text of the row.
unfoldable pub log : Env → String → Op (Unit {0})
log env id w = check_event_volume_guardrail env id (record w { logs = suc w.logs })

-- `updateTaskStatus` up to the row's change.
unfoldable pub write_status : Env → String → String → Op Task
write_status env id new = do
  task ← get_task id
  let guarded = apply_guardrails env.now (env.project task.project_id) task new
  check_transition (wrapped "invalid task status transition") task.status guarded.1
  updated ← update_task id (record guarded.0 { status = some guarded.1 })
  pure updated
