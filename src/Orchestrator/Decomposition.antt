-- ===== src/Orchestrator/Decomposition.antt =====
-- server/internal/orchestrator/decomposition.go, `Execute` of orchestrator.go and the end of
-- `updateTaskStatus`, which call each other: a child that ends sets its parent's status or starts
-- the next child. The summary of a decomposed parent, attempts and workspaces are left out.
use auto_dev_os.Base.{
  ℕ, zero, suc, String, Bool, true, ◌||◌, Option, none, some, List, [], ◌∷◌, ◌==◌, if◌then◌else◌,
}
use auto_dev_os.JobStore.{Updates}
use auto_dev_os.Status.Job.{queued, running, paused}
use auto_dev_os.Status.Task.{todo, context_loading, merged, failed as task_failed, blocked}
use auto_dev_os.Tasks.Table.{Task, no_input, find_task, list_sub_tasks, sort_by_sequence_index}
use auto_dev_os.Orchestrator.World.{
  Env, Op, failed, ok, exhausted, pure, ◌>>=◌, ◌>>◌, attempt, asks, get_task, update_task, when,
  latest_of, change_job, enqueue_job,
}
use auto_dev_os.Orchestrator.Tracker.{log, write_status}

-- `UpdateJob` writes the status and nothing else.
abbrev pub only_status : String → Updates
only_status status = record {
  status = some status;
  step = none;
  last_error = none;
  agent_id = none;
  sleep_until = none;
}

-- `updateTaskStatus`, as the operations below call it.
abbrev pub StatusUpdate : Type 0
StatusUpdate = String → String → Op Task

unfoldable pub is_unstarted : String → Bool
is_unstarted status = status == todo || (status == task_failed || status == "")

-- `Execute`: the identifier of the job.
unfoldable pub execute_task : Env → StatusUpdate → String → Op String
execute_task env update_status id = do
  task ← get_task id
  latest ← asks (λ w. latest_of id w.jobs)
  let start = when (is_unstarted task.status) (update_status id context_loading >> pure tt)
  let fresh_job = do start; ident ← enqueue_job env id; log env id; pure ident
  elim latest [
    | none ↦ fresh_job
    | some job ↦
        if job.status == running || job.status == queued
        then pure job.ident
        else if job.status == paused
        then (do
          _ ← change_job env job.ident (only_status queued)
          start
          log env id
          pure job.ident)
        else fresh_job
  ]

-- The error of a call that is only logged.
unfoldable pub or_log : {A : Type 0} → Env → String → Op A → Op (Unit {0})
or_log env id m = do r ← attempt m; elim r [ failed e ↦ log env id | ok a ↦ pure tt ]

-- `completeDecomposedParent`
unfoldable pub complete_decomposed_parent : Env → StatusUpdate → String → Op (Unit {0})
complete_decomposed_parent env update_status parent = do
  found ← asks (λ w. find_task parent w.tasks)
  elim found [
    | none ↦ log env parent
    | some task ↦ do
      log env parent
      log env parent
      log env parent
      log env parent
      or_log env parent (update_status parent merged)
  ]

-- The loop of `dispatchNextChildOrReduce`: the first child that has not been merged, if there is one.
unfoldable pub first_unmerged : List Task → Option Task
first_unmerged [] = none
first_unmerged (child ∷ rest) =
    let later = first_unmerged rest in if child.status == merged then later else some child

-- `dispatchNextChildOrReduce`
unfoldable pub dispatch_next_child_or_reduce : Env → StatusUpdate → String → Op (Unit {0})
dispatch_next_child_or_reduce env update_status parent = do
  ordered ← asks (λ w. sort_by_sequence_index (list_sub_tasks parent w.tasks))
  elim (first_unmerged ordered) [
    | none ↦ elim ordered [
      | [] ↦ pure tt
      | _ ∷ _ ↦ complete_decomposed_parent env update_status parent
    ]
    | some child ↦
        if child.status == todo || child.status == ""
        then attempt (execute_task env update_status child.ident) >> log env parent
        else pure tt
  ]

-- `onChildTaskTerminal`
unfoldable pub on_child_task_terminal : Env → StatusUpdate → Task → Bool → Op (Unit {0})
on_child_task_terminal env update_status child success = elim child.parent_task_id [
  | none ↦ pure tt
  | some owner ↦ do
    found ← asks (λ w. find_task owner w.tasks)
    elim found [
      | none ↦ pure tt
      | some parent ↦ elim parent.decomposition_mode [
        | none ↦ pure tt
        | some mode ↦
            if success then dispatch_next_child_or_reduce env update_status parent.ident else do
              or_log env parent.ident (
                  update_task parent.ident
                    (record no_input { blocked_child_id = some child.ident }))
              or_log env parent.ident (update_status parent.ident blocked)
              log env parent.ident
      ]
    ]
]

-- The end of `updateTaskStatus`.
unfoldable pub status_step : Env → StatusUpdate → StatusUpdate
status_step env update_status id new = do
  updated ← write_status env id new
  when (updated.status == merged || updated.status == task_failed)
      (on_child_task_terminal env update_status updated (updated.status == merged))
  pure updated

-- `updateTaskStatus`. The fuel counts the tasks on the way up from the first one.
unfoldable pub update_task_status : ℕ → Env → StatusUpdate
update_task_status zero env id new w = (record w { out_of_fuel = true }, failed exhausted)
update_task_status (suc n) env id new w = status_step env (update_task_status n env) id new w
