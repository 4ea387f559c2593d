-- ===== src/TaskActions.antt =====
-- server/internal/service/task_action.go, with the operations of server/internal/service/task.go
-- that it calls and server/internal/repository/task_action_request.go. JSON is a pair of parameters.
pub mod Dispatch
pub mod Offers
mod Examples
use auto_dev_os.Base.{
  ℕ, String, Bool, true, false, Option, none, some, List, [], ◌∷◌, ◌++◌ as append, map, any, ◌==◌,
  if◌then◌else◌,
}
use Prim.Native.String.{◌++◌}
use auto_dev_os.Base.Dict.{Dict, get_or}
use auto_dev_os.Status.Task.{coding, analyzing}
use auto_dev_os.Tasks.Table.{
  Task, UpdateTaskInput, no_input, AvailableAction, compute_available_actions, find_task,
  delete_task,
}
use auto_dev_os.Orchestrator.World.{
  World, Env, Op, Result, failed, ok, Failure, missing, taken, message, wrapped, domain, invalid,
  conflict, authorization, TaskActionRequest, pure, fail, ◌>>=◌, ◌>>◌, attempt, get_task,
  update_task,
}
use auto_dev_os.Orchestrator.Tracker.{check_transition}
use auto_dev_os.Orchestrator.Decomposition.{execute_task, update_task_status}
use auto_dev_os.Orchestrator.Jobs as Jobs

-- `actionRolePolicy`
abbrev pub action_role_policy : Dict String
action_role_policy = ("delete", "admin") ∷ []

unfoldable pub required_role : String → String
required_role action = get_or "" action action_role_policy

unfoldable pub role_satisfies : (caller_role required : String) → Bool
role_satisfies caller_role required = if required == "" then true else caller_role == required

unfoldable pub apply_to : String → AvailableAction → AvailableAction
apply_to caller_role action =
    if role_satisfies caller_role (required_role action.ident) then action else record action {
      disabled_reason = "requires role \"" ++ required_role action.ident ++ "\"";
    }

-- `ApplyActionPolicy`
unfoldable pub apply_action_policy : List AvailableAction → String → List AvailableAction
apply_action_policy actions caller_role = map (apply_to caller_role) actions

-- `TaskActionOrchestrator`
pub record TaskActionOrchestrator : Type 0 where
  pub execute : String → Op String
  pub pause_job : String → Op (Unit {0})
  pub cancel_job : String → Op (Unit {0})
  pub retry_from_last_step : String → Op String
  pub retry_blocked_parent : String → Op Task
  pub check_spec_review_loop_limit : String → Op (Unit {0})
  pub save_spec_review_cycle : String → Op (Unit {0})

-- The orchestrator of this server.
unfoldable pub orchestrator : Env → ℕ → TaskActionOrchestrator
orchestrator env fuel =
    let update_status = update_task_status fuel env in
    record {
      execute = execute_task env update_status;
      pause_job = Jobs.pause_job env;
      cancel_job = Jobs.cancel_job env update_status;
      retry_from_last_step = Jobs.retry_from_last_step env update_status;
      retry_blocked_parent = Jobs.retry_blocked_parent env update_status;
      check_spec_review_loop_limit = Jobs.check_spec_review_loop_limit env update_status;
      save_spec_review_cycle = Jobs.save_spec_review_cycle;
    }

-- A task as it is answered, with the actions that are computed for the answer.
pub record Answer : Type 0 where
  pub task : Task
  pub available_actions : List AvailableAction

-- `TaskService.GetByID`
unfoldable pub get_by_id : String → Op Answer
get_by_id id = do
  task ← get_task id
  pure (record { task = task; available_actions = compute_available_actions task.status })

-- `TaskService.ApproveAnalysis`
unfoldable pub approve_analysis : String → Op Task
approve_analysis id = do
  task ← get_task id
  check_transition (domain invalid) task.status coding
  update_task id (record no_input { spec_status = some "approved"; status = some coding })

-- `TaskService.RequestAnalysisChanges`; `strings.TrimSpace` is a parameter.
unfoldable pub request_analysis_changes : (String → String) → String → String → Op Task
request_analysis_changes trim id context = do
  task ← get_task id
  check_transition (domain invalid) task.status analyzing
  update_task id (record no_input {
    description = some (
        if trim context == ""
        then task.description
        else trim (task.description ++ "\n\nRequested changes:\n" ++ context));
    spec_status = some "changes_requested";
    status = some analyzing;
  })

-- `TaskService.Delete`
unfoldable pub delete : String → Op (Unit {0})
delete id w = elim (find_task id w.tasks) [
  | none ↦ (w, failed (wrapped "delete task" missing))
  | some task ↦ (record w { tasks = delete_task id w.tasks }, ok tt)
]

-- `TaskActionInput`
pub record TaskActionInput : Type 0 where
  pub action : String
  pub request_id : String
  pub comment : String

-- `refresh`
unfoldable pub refresh_answer : String → Task → Op Answer
refresh_answer id fallback = do
  r ← attempt (get_by_id id)
  elim r [
    | failed e ↦ pure (record { task = fallback; available_actions = [] })
    | ok answer ↦ pure answer
  ]

-- `err.Error()` in an error of its own.
unfoldable pub as_conflict : {A : Type 0} → Op A → Op A
as_conflict m = do r ← attempt m; elim r [ failed e ↦ fail (domain conflict e) | ok a ↦ pure a ]

unfoldable pub if_wired :
    Option TaskActionOrchestrator → (TaskActionOrchestrator → Op (Unit {0})) → Op (Unit {0})
if_wired none f = pure tt
if_wired (some o) f = f o

unfoldable pub wired :
    {A : Type 0} → Option TaskActionOrchestrator → (TaskActionOrchestrator → Op A) → Op A
wired none f = fail (domain conflict (message "orchestrator not available"))
wired (some o) f = f o

-- `execute`
unfoldable pub execute_action :
    Option TaskActionOrchestrator → (String → String) → Answer → TaskActionInput → Op Answer
execute_action orch trim answer input =
    let id = answer.task.ident in
    if input.action == "approve_spec"
    then (do
      t ← approve_analysis id
      if_wired orch (λ o. o.execute id >> pure tt)
      refresh_answer id t)
    else if input.action == "request_changes"
    then (do
      if_wired orch (λ o. as_conflict (o.check_spec_review_loop_limit id))
      t ← request_analysis_changes trim id input.comment
      if_wired orch (λ o. o.save_spec_review_cycle id >> (o.execute id >> pure tt))
      refresh_answer id t)
    else if input.action == "execute"
    then (if_wired orch (λ o. o.execute id >> pure tt) >> get_by_id id)
    else if input.action == "pause"
    then wired orch (λ o. o.pause_job id >> get_by_id id)
    else if input.action == "cancel"
    then wired orch (λ o. o.cancel_job id >> get_by_id id)
    else if input.action == "retry"
    then wired orch (λ o. o.retry_from_last_step id >> get_by_id id)
    else if input.action == "retry_blocked"
    then wired orch (λ o. elim answer.task.blocked_child_id [
      | some child ↦ o.retry_blocked_parent id >>= λ task.
          pure (record { task = task; available_actions = [] })
      | none ↦ o.retry_from_last_step id >> get_by_id id
    ])
    else if input.action == "delete"
    then (delete id >> pure answer)
    else fail (domain invalid (message "unknown action"))

-- `Where("task_id = ? AND request_id = ?")`
unfoldable pub stored_request : String → String → List TaskActionRequest → Option TaskActionRequest
stored_request task_id request_id [] = none
stored_request task_id request_id (row ∷ rest) =
    let more = stored_request task_id request_id rest in
    if row.task_id == task_id then if row.request_id == request_id then some row else more else more

-- `TaskActionRequestRepo.FindByRequestID`
unfoldable pub find_by_request_id : String → String → World → Result TaskActionRequest
find_by_request_id task_id request_id w = elim (stored_request task_id request_id w.requests) [
  | none ↦ failed (wrapped "find task action request" missing)
  | some row ↦ ok row
]

-- `TaskActionRequestRepo.Create`; an index of the database keeps the pairs of identifiers apart.
unfoldable pub create_request : TaskActionRequest → Op (Unit {0})
create_request row w = elim (stored_request row.task_id row.request_id w.requests) [
  | some other ↦ (w, failed (wrapped "create task action request" taken))
  | none ↦ (record w { requests = append w.requests (row ∷ []) }, ok tt)
]

-- `err != repository.ErrNotFound` compares with the value itself.
unfoldable pub is_missing : Failure → Bool
is_missing missing = true
is_missing _ = false

unfoldable pub offers : String → List AvailableAction → Bool
offers wanted actions = any (λ a. a.ident == wanted) actions

module _ (orch : Option TaskActionOrchestrator) (trim : String → String) (marshal : Answer → String)
    (unmarshal : String → Option Answer) where
  -- What `Dispatch` does for a request that it has not seen.
  unfoldable pub dispatch_new : String → String → TaskActionInput → Op Answer
  dispatch_new task_id caller_role input =
      if role_satisfies caller_role (required_role input.action)
      then (do
        answer ← get_by_id task_id
        if offers input.action answer.available_actions
            then (do
              result ← execute_action orch trim answer input
              r ← attempt (
                  create_request (record {
                    task_id = task_id;
                    request_id = input.request_id;
                    action = input.action;
                    response = marshal result;
                  }))
              elim r [
                | failed e ↦ fail (wrapped "record task action request" e)
                | ok _ ↦ pure result
              ])
            else fail (domain conflict (message "action is not available")))
      else fail (domain authorization (message "role may not perform action"))

  -- `Dispatch`, with the lookup of a stored request.
  unfoldable pub dispatch_by :
      (String → String → World → Result TaskActionRequest)
      → String
      → String
      → TaskActionInput
      → Op Answer
  dispatch_by find task_id caller_role input w =
      if input.action == ""
      then (w, failed (domain invalid (message "action is required")))
      else if input.request_id == ""
      then (w, failed (domain invalid (message "request_id is required")))
      else elim (find task_id input.request_id w) [
        | ok existing ↦ elim (unmarshal existing.response) [
          | none ↦ (w, failed (message "unmarshal stored action response"))
          | some answer ↦ (w, ok answer)
        ]
        | failed e ↦
            if is_missing e
            then dispatch_new task_id caller_role input w
            else (w, failed (wrapped "lookup task action request" e))
      ]

  -- `Dispatch`
  unfoldable pub dispatch : String → String → TaskActionInput → Op Answer
  dispatch = dispatch_by find_by_request_id
