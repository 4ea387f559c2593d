-- ===== src/JobStore.antt =====
-- The job queue of server/internal/repository/workflow.go over the table of workflow jobs
-- (server/pkg/models/workflow.go, `WorkflowJob`). The table is the list of its rows in the order
-- in which they were made; each operation is one transaction of the database, which is trusted.
-- Times are nanoseconds. The database's own failures, which leave the table alone, are left out.
pub mod Claim
pub mod Awake
pub mod Finished
pub mod Stuck
mod Examples
use auto_dev_os.Base.{
  ℕ, ◌+◌, ◌*◌, ◌^◌, String, Bool, true, false, ◌&&◌, Option, none, some, List, [], ◌∷◌, ◌++◌, map,
  ltb, leb, ◌==◌, if◌then◌else◌, filter,
}
use mathlib.Core.List.{filter_map}
use auto_dev_os.Status.Table.{TransitionError}
use auto_dev_os.Status.Job.{queued, running, sleeping, validate_job_transition}

-- `WorkflowJob`, without the telemetry totals, which no operation here reads.
pub record Job : Type 0 where
  pub ident : String
  pub task_id : String
  pub agent_id : Option String
  pub status : String
  pub step : String
  pub attempts : ℕ
  pub last_error : String
  pub sleep_until : Option ℕ
  pub created_at : ℕ
  pub updated_at : ℕ

abbrev pub Store : Type 0
Store = List Job

-- `Enqueue`. The database makes the identifier.
pub enqueue : (ident task_id : String) (now : ℕ) → Store → Store
enqueue ident task_id now s =
    s
    ++ record {
      ident = ident;
      task_id = task_id;
      agent_id = none;
      status = queued;
      step = "analyze";
      attempts = 0;
      last_error = "";
      sleep_until = none;
      created_at = now;
      updated_at = now;
    }
      ∷ []

-- `Where("status = queued").Order("created_at ASC").Limit(1)`
unfoldable pub older : Job → Option Job → Job
older job none = job
older job (some other) = if leb job.created_at other.created_at then job else other

unfoldable pub oldest_queued : Store → Option Job
oldest_queued [] = none
oldest_queued (job ∷ rest) =
    let later = oldest_queued rest in if job.status == queued then some (older job later) else later

-- `Where("id = ?", id).Updates(change)`; gorm stamps `updated_at`.
unfoldable pub update_where : (Job → Bool) → (Job → Job) → ℕ → Store → Store
update_where test change now [] = []
update_where test change now (job ∷ rest) =
    (if test job then record (change job) { updated_at = now } else job)
    ∷ update_where test change now rest

unfoldable pub has_ident : String → Job → Bool
has_ident ident job = job.ident == ident

-- `ClaimNext`: the identifier of the job that was claimed, if a job was queued.
unfoldable pub claim_next : ℕ → Store → Store × Option String
claim_next now s = elim (oldest_queued s) [
  | none ↦ (s, none)
  | some job ↦ (
    update_where (has_ident job.ident)
        (λ row. record row { status = running; attempts = row.attempts + 1 }) now s,
    some job.ident,
  )
]

pub find_job : String → Store → Option Job
find_job ident [] = none
find_job ident (job ∷ rest) = if job.ident == ident then some job else find_job ident rest

-- The columns that callers of `UpdateJob` write.
pub record Updates : Type 0 where
  pub status : Option String
  pub step : Option String
  pub last_error : Option String
  pub agent_id : Option String
  pub sleep_until : Option ℕ

abbrev pub or_else {ℓ} : {A : Type ℓ} → Option A → A → A
or_else none d = d
or_else (some x) d = x

pub apply_updates : Updates → Job → Job
apply_updates u job = record job {
  status = or_else u.status job.status;
  step = or_else u.step job.step;
  last_error = or_else u.last_error job.last_error;
  agent_id = elim u.agent_id [ none ↦ job.agent_id | some a ↦ some a ];
  sleep_until = elim u.sleep_until [ none ↦ job.sleep_until | some t ↦ some t ];
}

pub data UpdateError : Type 0 where
  not_found : UpdateError
  refused : TransitionError → UpdateError

-- The validation that `UpdateJob` makes of a new status.
pub validate_update : Option String → Option Job → Option UpdateError
validate_update none current = none
validate_update (some new) none = some not_found
validate_update (some new) (some current) = elim (validate_job_transition current.status new) [
  | none ↦ none
  | some e ↦ some (refused e)
]

-- `UpdateJob`: the table, and the job as it is read again or the error.
unfoldable pub update_job : String → Updates → ℕ → Store → Store × Option UpdateError
update_job ident u now s = elim (validate_update u.status (find_job ident s)) [
  | some e ↦ (s, some e)
  | none ↦
      let s' = update_where (has_ident ident) (apply_updates u) now s in
      (s', elim (find_job ident s') [ none ↦ some not_found | some job ↦ none ])
]

abbrev pub ten_minutes : ℕ
ten_minutes = 10 * 60 * 10 ^ 9

unfoldable pub is_stuck : ℕ → Job → Bool
is_stuck now job = job.status == running && ltb (job.updated_at + ten_minutes) now

unfoldable pub agents_of : Store → List String
agents_of [] = []
agents_of (job ∷ rest) = elim job.agent_id [
  | none ↦ agents_of rest
  | some a ↦ if a == "" then agents_of rest else a ∷ agents_of rest
]

-- `ResetStuckJobs`: the table, and the agents that are set idle.
unfoldable pub reset_stuck_jobs : ℕ → Store → Store × List String
reset_stuck_jobs now s = (
  update_where (is_stuck now) (λ job. record job { status = queued }) now s,
  agents_of (filter (is_stuck now) s),
)

-- `status = 'sleeping' AND sleep_until < now`; a null time is not below any.
unfoldable pub is_due : ℕ → Job → Bool
is_due now job =
    job.status == sleeping && elim job.sleep_until [ none ↦ false | some t ↦ ltb t now ]

-- `WakeSleepingJobs`.
unfoldable pub wake_sleeping_jobs : ℕ → Store → Store
wake_sleeping_jobs now s =
    update_where (is_due now) (λ job. record job { status = queued; sleep_until = none }) now s

-- `ResetAllRunningJobs`.
unfoldable pub reset_all_running_jobs : ℕ → Store → Store
reset_all_running_jobs now s =
    update_where (λ job. job.status == running) (λ job. record job { status = queued }) now s

-- What the server asks of the table.
pub data Operation : Type 0 where
  enqueues : (ident task_id : String) → Operation
  claims wakes resets_stuck resets_all : Operation
  updates : String → Updates → Operation

unfoldable pub apply : Operation → ℕ → Store → Store
apply (enqueues ident task_id) now s = enqueue ident task_id now s
apply claims now s = (claim_next now s).0
apply wakes now s = wake_sleeping_jobs now s
apply resets_stuck now s = (reset_stuck_jobs now s).0
apply resets_all now s = reset_all_running_jobs now s
apply (updates ident u) now s = (update_job ident u now s).0

-- A history from the empty table, each operation with its time.
pub run : List (Operation × ℕ) → Store → Store
run [] s = s
run ((op, now) ∷ rest) s = run rest (apply op now s)
