-- ===== src/TaskActions/Dispatch.antt =====
-- `Dispatch` of server/internal/service/task_action.go.
use auto_dev_os.Base.{
  ℕ, String, ◌≡◌, refl, ap, true, Option, none, some, ◌==◌, Bool-cases, Option-cases, ◌⊎◌, inl, inr,
}
use Prim.Native.String.{◌++◌}
use auto_dev_os.Status.Task.{blocked}
use auto_dev_os.Tasks.Table.{Task, find_task, compute_available_actions}
use auto_dev_os.Orchestrator.World.{
  World, Env, Result, failed, ok, Failure, message, TaskActionRequest, fail, ◌>>=◌, ◌>>◌, require,
}
use auto_dev_os.Orchestrator.Jobs.{retry_from_last_step, is_retryable}
use auto_dev_os.Orchestrator.Outcome.{get_task-cases}
use auto_dev_os.TaskActions.{
  Answer, TaskActionOrchestrator, TaskActionInput, orchestrator, execute_action, wired,
  role_satisfies, required_role, offers, stored_request, find_by_request_id, is_missing,
  dispatch_by, dispatch,
}

module _ (orch : Option TaskActionOrchestrator) (trim : String → String) (marshal : Answer → String)
    (unmarshal : String → Option Answer) (task_id caller_role : String) (input : TaskActionInput)
    (w : World) where
  -- The answer of a request that is stored.
  pub record IsStored (answer : Answer) : Type 0 where
    pub row : TaskActionRequest
    pub stored : stored_request task_id input.request_id w.requests ≡ some row
    pub read : unmarshal row.response ≡ some answer

  -- An operation has changed nothing, and has failed or answered what is stored.
  abbrev pub Repeats : World × Result Answer → Type 0
  Repeats x =
      (x.0 ≡ w)
      × (((e : Failure) × (x.1 ≡ failed e))
          ⊎ ((answer : Answer) × ((x.1 ≡ ok answer) × IsStored answer)))

  -- `Dispatch` changes nothing at all. It fails, unless the same request is stored for the task:
  -- then it answers what is stored.
  pub dispatch-Repeats : Repeats (dispatch orch trim marshal unmarshal task_id caller_role input w)
  unfolding dispatch dispatch_by find_by_request_id is_missing
  dispatch-Repeats = elim (Bool-cases (input.action == "")) [
    | inl empty ↦ rw (empty, dispatch) (refl, inl (_, refl))
    | inr action ↦ elim (Bool-cases (input.request_id == "")) [
      | inl empty ↦ rw (action, empty, dispatch) (refl, inl (_, refl))
      | inr request ↦ elim (Option-cases (stored_request task_id input.request_id w.requests)) [
        | inl new ↦ rw (action, request, new, dispatch) (refl, inl (_, refl))
        | inr (row, stored) ↦ elim (Option-cases (unmarshal row.response)) [
          | inl bad ↦ rw (action, request, stored, bad, dispatch) (refl, inl (_, refl))
          | inr (answer, read) ↦
              rw (action, request, stored, read, dispatch)
                (refl, inr (answer, (refl, record { row = row; stored = stored; read = read })))
        ]
      ]
    ]
  ]

  -- The caller may perform the action, and the task offers it.
  pub record IsPermitted : Type 0 where
    pub allowed : role_satisfies caller_role (required_role input.action) ≡ true
    pub task : Task
    pub found : find_task task_id w.tasks ≡ some task
    pub offered : offers input.action (compute_available_actions task.status) ≡ true

-- A blocked task without a blocked child, which a guardrail has blocked, cannot be retried: the
-- action `retry_blocked` fails and changes nothing.
pub retry_blocked-fails :
    (env : Env) (fuel : ℕ) (trim : String → String) (answer : Answer) (request_id comment : String)
    (w : World)
    → find_task answer.task.ident w.tasks ≡ some answer.task
    → answer.task.status ≡ blocked
    → answer.task.blocked_child_id ≡ none
    → ((e : Failure) × ((execute_action
            (some (orchestrator env fuel))
            trim
            answer
            (record { action = "retry_blocked"; request_id = request_id; comment = comment })
            w)
          ≡ (w, failed e)))
unfolding execute_action wired orchestrator retry_from_last_step is_retryable require ◌>>=◌ ◌>>◌
    ◌==◌ fail
retry_blocked-fails env fuel trim answer request_id comment w found is_blocked childless =
    elim (get_task-cases answer.task.ident w) [
      | inl (e, gone) ↦ (e, rw (childless, gone) refl)
      | inr (task, (there, read)) ↦
          let same : task ≡ answer.task = cc in
          (
            message
                ("can only retry paused or failed tasks (current status: " ++ task.status ++ ")"),
            rw (childless, read, ap (λ t. t.status) same, is_blocked) refl,
          )
    ]
