-- ===== src/Tasks/Table.antt =====
-- The task rows of server/pkg/models/task.go, server/internal/repository/task.go over the table of
-- tasks, and the actions that server/internal/service/task.go offers. The columns that no operation
-- of this development reads or writes are left out. The database's own failures are left out too.
use auto_dev_os.Base.{
  ℕ, String, Bool, true, false, ◌||◌, Option, none, some, List, [], ◌∷◌, ◌==◌, ltb, filter,
  if◌then◌else◌,
}
use auto_dev_os.Base.Int.{ℤ, ltz}
use auto_dev_os.Base.Sort.{sort_by}
use auto_dev_os.JobStore.{or_else}
use auto_dev_os.Status.Task.{todo, spec_review, pr_ready, human_review, merged, failed, blocked}

-- `Task`
pub record Task : Type 0 where
  pub ident : String
  pub project_id : String
  pub parent_task_id : Option String
  pub description : String
  pub status : String
  pub priority : ℤ
  pub spec_status : String
  pub pr_urls : List String
  pub sequence_index : Option ℤ
  pub decomposition_mode : Option String
  pub blocked_child_id : Option String
  pub retry_count : ℕ
  pub execution_started_at : Option ℕ
  pub block_reason : String
  pub created_at : ℕ

-- `UpdateTaskInput`
pub record UpdateTaskInput : Type 0 where
  pub description : Option String
  pub status : Option String
  pub spec_status : Option String
  pub blocked_child_id : Option String
  pub clear_blocked_child : Bool
  pub retry_count : Option ℕ
  pub execution_started_at : Option ℕ
  pub block_reason : Option String

abbrev pub no_input : UpdateTaskInput
no_input = record {
  description = none;
  status = none;
  spec_status = none;
  blocked_child_id = none;
  clear_blocked_child = false;
  retry_count = none;
  execution_started_at = none;
  block_reason = none;
}

abbrev pub or_kept {ℓ} : {A : Type ℓ} → Option A → Option A → Option A
or_kept none kept = kept
or_kept (some x) kept = some x

-- The columns that `TaskRepo.Update` writes.
unfoldable pub write_input : UpdateTaskInput → Task → Task
write_input input task = record task {
  description = or_else input.description task.description;
  status = or_else input.status task.status;
  spec_status = or_else input.spec_status task.spec_status;
  blocked_child_id =
      if input.clear_blocked_child
      then none
      else or_kept input.blocked_child_id task.blocked_child_id;
  retry_count = or_else input.retry_count task.retry_count;
  execution_started_at = or_kept input.execution_started_at task.execution_started_at;
  block_reason = or_else input.block_reason task.block_reason;
}

-- `TaskRepo.GetByID`
unfoldable pub find_task : String → List Task → Option Task
find_task id [] = none
find_task id (task ∷ rest) = if task.ident == id then some task else find_task id rest

-- The table after `TaskRepo.Update`. The primary key is unique, so the first row of that name is
-- the only one.
unfoldable pub write_task : String → UpdateTaskInput → List Task → List Task
write_task id input [] = []
write_task id input (task ∷ rest) =
    if task.ident == id then write_input input task ∷ rest else task ∷ write_task id input rest

-- The table after `TaskRepo.Delete`.
unfoldable pub delete_task : String → List Task → List Task
delete_task id [] = []
delete_task id (task ∷ rest) = if task.ident == id then rest else task ∷ delete_task id rest

unfoldable pub is_child_of : String → Task → Bool
is_child_of parent task = elim task.parent_task_id [ none ↦ false | some owner ↦ owner == parent ]

-- `Order("priority DESC, created_at ASC")`
pub comes_first : Task → Task → Bool
comes_first a b =
    if ltz b.priority a.priority
    then true
    else if ltz a.priority b.priority
    then false
    else ltb a.created_at b.created_at

-- `TaskRepo.ListSubTasks`
unfoldable pub list_sub_tasks : String → List Task → List Task
list_sub_tasks parent tasks = sort_by comes_first (filter (is_child_of parent) tasks)

-- The test of `SortBySequenceIndex`.
pub index_before : Option ℤ → Option ℤ → Bool
index_before none b = false
index_before (some a) none = true
index_before (some a) (some b) = ltz a b

-- `SortBySequenceIndex`
unfoldable pub sort_by_sequence_index : List Task → List Task
sort_by_sequence_index children =
    sort_by (λ a b. index_before a.sequence_index b.sequence_index) children

-- `AvailableAction`; every endpoint is the same and left out.
pub record AvailableAction : Type 0 where
  pub ident : String
  pub label : String
  pub style : String
  pub confirmation_required : Bool
  pub disabled_reason : String

unfoldable pub action : (ident label style : String) → Bool → AvailableAction
action ident label style confirm = record {
  ident = ident;
  label = label;
  style = style;
  confirmation_required = confirm;
  disabled_reason = "";
}

unfoldable pub cancel_action : AvailableAction
cancel_action = action "cancel" "Cancel" "danger" true

unfoldable pub delete_action : AvailableAction
delete_action = action "delete" "Delete" "danger" true

-- `computeAvailableActions`
unfoldable pub compute_available_actions : String → List AvailableAction
compute_available_actions status =
    if status == spec_review
    then action "approve_spec" "Approve Spec" "primary" false
      ∷ action "request_changes" "Request Changes" "secondary" true
      ∷ cancel_action
      ∷ []
    else if status == blocked
    then action "retry_blocked" "Retry" "primary" false ∷ cancel_action ∷ []
    else if status == failed
    then action "retry" "Retry" "primary" false ∷ delete_action ∷ []
    else if status == merged
    then []
    else if status == todo
    then action "execute" "Execute" "primary" false ∷ delete_action ∷ []
    else if status == pr_ready || status == human_review
    then cancel_action ∷ []
    else action "pause" "Pause" "warning" false ∷ cancel_action ∷ []
