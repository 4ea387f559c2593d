-- ===== src/Orchestrator/World.antt =====
-- The state that the operations of server/internal/orchestrator share, their errors, and the chains
-- of Go's `if err != nil { return nil, err }` as a monad. An operation runs to its end before the
-- next begins, with one reading of the clock.
use auto_dev_os.Base.{
  ℕ, String, Bool, true, false, Option, none, some, List, [], ◌∷◌, ◌++◌, ◌==◌, leb, any, length,
  if◌then◌else◌,
}
use auto_dev_os.Status.Table.{TransitionError}
use auto_dev_os.Workflow.Schema.{Object}
use auto_dev_os.Workflow.Step.{StepStatus, unset}
use auto_dev_os.JobStore.{Job, Updates, UpdateError, update_job, enqueue}
use auto_dev_os.Tasks.Table.{Task, UpdateTaskInput, find_task, write_task, write_input}
use auto_dev_os.Tasks.Guardrails.{Project}

-- `DomainError` kinds of server/internal/service/errors.go
pub data Kind : Type 0 where
  invalid conflict not_found authorization : Kind

pub data Failure : Type 0 where
  -- `repository.ErrNotFound`, by itself
  missing : Failure
  -- `repository.ErrConflict`, by itself
  taken : Failure
  bad_transition : TransitionError → Failure
  bad_job : UpdateError → Failure
  -- `fmt.Errorf` without and with `%w`
  message : String → Failure
  wrapped : String → Failure → Failure
  domain : Kind → Failure → Failure
  -- The model ran out of fuel.
  exhausted : Failure

pub data Result (A : Type 0) : Type 0 where
  failed : Failure → Result A
  ok : A → Result A

-- The state of a checkpoint, as far as the worker reads it: a text that is missing is blank, and a
-- status that no step has is unset.
pub record CheckpointState : Type 0 where
  pub status : StepStatus
  pub output : Option Object
  pub spec_hash : String
  pub empty : Bool
  pub commit_hash : String

abbrev pub blank_state : CheckpointState
blank_state = record {
  status = unset;
  output = none;
  spec_hash = "";
  empty = false;
  commit_hash = "";
}

-- `WorkflowCheckpoint`
pub record Checkpoint : Type 0 where
  pub task_id : String
  pub step : String
  pub state : CheckpointState

-- `TaskActionRequest`
pub record TaskActionRequest : Type 0 where
  pub task_id : String
  pub request_id : String
  pub action : String
  pub response : String

-- The tables, the number of log rows, the keys of `jobCancels`, the jobs whose context was
-- cancelled, and the tasks whose workspace lock was released.
pub record World : Type 0 where
  pub tasks : List Task
  pub jobs : List Job
  pub checkpoints : List Checkpoint
  pub requests : List TaskActionRequest
  pub logs : ℕ
  pub job_cancels : List String
  pub cancelled : List String
  pub released : List String
  pub out_of_fuel : Bool

-- What the operations read and do not change: the clock, the identifiers that the database makes,
-- the projects, and `CountByTaskID` after so many logs, `none` where it fails or is not wired.
pub record Env : Type 0 where
  pub now : ℕ
  pub fresh : ℕ → String
  pub project : String → Option Project
  pub event_count : ℕ → String → Option ℕ

abbrev pub Op : Type 0 → Type 0
Op A = World → World × Result A

unfoldable pub pure : {A : Type 0} → A → Op A
pure a w = (w, ok a)

unfoldable pub fail : {A : Type 0} → Failure → Op A
fail e w = (w, failed e)

abbrev pub after : {A B : Type 0} → World × Result A → (A → Op B) → World × Result B
after (w, failed e) f = (w, failed e)
after (w, ok a) f = f a w

infixl 5 ◌>>=◌ ◌>>◌
unfoldable pub ◌>>=◌ : {A B : Type 0} → Op A → (A → Op B) → Op B
◌>>=◌ m f w = after (m w) f

unfoldable pub ◌>>◌ : {A B : Type 0} → Op A → Op B → Op B
unfolding ◌>>=◌
m >> k = m >>= λ _. k

-- `_, err := m`: the error is a value.
unfoldable pub attempt : {A : Type 0} → Op A → Op (Result A)
attempt m w = let (w', r) = m w in (w', ok r)

unfoldable pub asks : {A : Type 0} → (World → A) → Op A
asks f w = (w, ok (f w))

unfoldable pub given : {A : Type 0} → Failure → Option A → Op A
given e none = fail e
given e (some a) = pure a

unfoldable pub unless : Bool → Op (Unit {0}) → Op (Unit {0})
unless test m = if test then pure tt else m

unfoldable pub when : Bool → Op (Unit {0}) → Op (Unit {0})
when test m = if test then m else pure tt

unfoldable pub require : Bool → Failure → Op (Unit {0})
require true e = pure tt
require false e = fail e

-- `TaskRepo.GetByID`
unfoldable pub get_task : String → Op Task
get_task id = asks (λ w. find_task id w.tasks) >>= given (wrapped "get task" missing)

-- `TaskRepo.Update`
unfoldable pub update_task : String → UpdateTaskInput → Op Task
update_task id input w = elim (find_task id w.tasks) [
  | none ↦ (w, failed (wrapped "get task" missing))
  | some task ↦ (record w { tasks = write_task id input w.tasks }, ok (write_input input task))
]

-- `Order("created_at DESC").First`
unfoldable pub later : Job → Option Job → Option Job
later job none = some job
later job (some other) = if leb job.created_at other.created_at then some other else some job

unfoldable pub latest_of : String → List Job → Option Job
latest_of task_id [] = none
latest_of task_id (job ∷ rest) =
    let more = latest_of task_id rest in if job.task_id == task_id then later job more else more

-- `WorkflowRepo.LatestByTaskID`
unfoldable pub latest_by_task_id : String → Op Job
latest_by_task_id task_id =
    asks (λ w. latest_of task_id w.jobs) >>= given (wrapped "latest workflow job" missing)

-- `WorkflowRepo.UpdateJob`, with the identifier of the job for its row.
unfoldable pub change_job : Env → String → Updates → Op String
change_job env ident u w =
    let (jobs, e) = update_job ident u env.now w.jobs in
    (record w { jobs = jobs }, elim e [ none ↦ ok ident | some error ↦ failed (bad_job error) ])

-- `WorkflowRepo.Enqueue`
unfoldable pub enqueue_job : Env → String → Op String
enqueue_job env task_id w =
    let ident = env.fresh (length w.jobs) in
    (record w { jobs = enqueue ident task_id env.now w.jobs }, ok ident)

-- `WorkflowRepo.CreateCheckpoint`
unfoldable pub create_checkpoint : String → String → CheckpointState → Op (Unit {0})
create_checkpoint task_id step state w = (
  record w {
    checkpoints = w.checkpoints ++ record { task_id = task_id; step = step; state = state } ∷ [];
  },
  ok tt,
)

-- `if cancelVal, ok := o.jobCancels.Load(job.ID); ok { cancel() }`
unfoldable pub cancel_context : String → Op (Unit {0})
cancel_context ident w =
    if any (λ key. key == ident) w.job_cancels
    then (record w { cancelled = ident ∷ w.cancelled }, ok tt)
    else (w, ok tt)

-- `o.releaseWorkspaceLock(ctx, taskID)`
unfoldable pub release_lock : String → Op (Unit {0})
release_lock task_id w = (record w { released = task_id ∷ w.released }, ok tt)
