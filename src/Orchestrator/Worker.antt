-- ===== src/Orchestrator/Worker.antt =====
-- server/internal/orchestrator/worker.go: what the worker does on each event of the engine. The
-- timeline on disk, memories and the learning engine are left out.
pub mod Errors
pub mod Attempts
pub mod Job
pub mod Tables
pub mod Resumes
pub mod Ends
pub mod Backoff
pub mod Sample
mod Examples
use auto_dev_os.Base.{
  ℕ, String, Bool, true, false, ◌||◌, Option, none, some, List, [], ◌∷◌, ◌==◌, if◌then◌else◌,
}
use auto_dev_os.Base.Int.{ℤ, pos}
use auto_dev_os.Base.Dict.{Dict, lookup}
use auto_dev_os.JobStore.{Updates}
use auto_dev_os.Status.Job.{paused as job_paused}
use auto_dev_os.Tasks.Table.{Task}
use auto_dev_os.Workflow.Schema.{Object, Value, GoType, go_string}
use auto_dev_os.Workflow.Step.{
  Err, failure, err_graph_changed, StepStatus, success, failed, paused, Event,
}
use auto_dev_os.Workflow.Pipelines.{Runners, step_cli_analyze}
use auto_dev_os.Workflow.Engine.{Arrival}
use auto_dev_os.Orchestrator.World.{
  World, Env, Op, Result, failed as err, ok, Failure, CheckpointState, pure, ◌>>=◌, ◌>>◌, attempt,
  change_job, create_checkpoint,
}
use auto_dev_os.Orchestrator.Tracker.{log}
use auto_dev_os.Orchestrator.Checkpoints.{is_success}

-- `TaskAnalysis`, as far as the worker reads it.
pub record Analysis : Type 0 where
  pub spec_hash : String
  pub files : List String

-- `CommitResult` of a git checkpoint.
pub record Commit : Type 0 where
  pub is_empty : Bool
  pub hash : String

-- What the run of one job is wired to: the other components and the libraries, by what they answer.
-- The steps change the analysis of the task, so that it depends on the attempt and its events.
pub record Worker : Type 0 where
  pub env : Env
  -- `agents.Assign`, `ensureWorkspaceCloned` and `agents.MarkRunning`: the agent, or the error's text
  pub assign : Task → String → Option String
  pub clone_fails : Task → Option String
  pub mark_running_fails : String → Option String
  -- the steps' functions in each attempt, and the order in which their results arrive
  pub runners : ℕ → Runners
  pub arrival : ℕ → Arrival
  pub ranged : List String → List String
  pub analysis : ℕ → List Event → Analysis
  pub is_frontend_file : String → Bool
  pub has_subtasks : Option Object → Bool
  -- `CreateGitCheckpoint`: `none` is an error
  pub git_checkpoint : String → Option (Option Commit)
  -- columns of the project that `Project` does not have; `none` is that it was not found
  pub review_harness_policy : Option String
  pub project_max_retries : Option ℤ
  pub complexity : String
  -- `resume_session_id` of an attempt
  pub resume_session : ℕ → Option String
  pub json : Object → Object
  pub has_prefix : (text prefix : String) → Bool
  pub contains : (text part : String) → Bool
  pub text_of : Err → String
  pub failure_text : Failure → String

-- The loop of `CLIAnalysisNeedsParallelTracks`.
unfoldable pub both_tracks :
    (String → Bool) → List String → (has_frontend has_backend : Bool) → Bool
both_tracks is_frontend [] has_frontend has_backend = false
both_tracks is_frontend (f ∷ rest) has_frontend has_backend =
    let frontend = if is_frontend f then true else has_frontend in
    let backend = if is_frontend f then has_backend else true in
    let later = both_tracks is_frontend rest frontend backend in
    if frontend then (if backend then true else later) else later

-- `CLIAnalysisNeedsParallelTracks`
unfoldable pub needs_parallel_tracks : Worker → Analysis → Bool
needs_parallel_tracks k analysis = both_tracks k.is_frontend_file analysis.files false false

-- `updates` of `OnEvent`.
unfoldable pub updates_of : Worker → Event → Updates
updates_of k event =
    let text : String = elim event.error [ none ↦ "" | some e ↦ k.text_of e ] in
    record {
      status = elim event.status [ paused ↦ some job_paused | _ ↦ none ];
      step = some event.step_id;
      last_error = elim event.status [ paused ↦ some text | failed ↦ some text | _ ↦ none ];
      agent_id = none;
      sleep_until = none;
    }

unfoldable pub is_code_step : Worker → String → Bool
is_code_step k step =
    k.has_prefix step "code_backend" || (k.has_prefix step "code_frontend" || step == "fix")

-- `event.Output["status"]` is the text skipped.
unfoldable pub was_skipped : Option Object → Bool
was_skipped none = false
was_skipped (some output) = elim (lookup "status" output) [
  | none ↦ false
  | some value ↦ elim value.kind [ go_string ↦ value.content == "skipped" | _ ↦ false ]
]

-- `state` before the git checkpoint.
unfoldable pub state_of : String → Event → CheckpointState
state_of spec_hash event = record {
  status = event.status;
  output = event.output;
  spec_hash = spec_hash;
  empty = false;
  commit_hash = "";
}

-- The git checkpoint of a code step that succeeded.
unfoldable pub commit_state : Worker → String → Event → CheckpointState → Op CheckpointState
commit_state k task_id event state =
    if is_success event.status
    then if is_code_step k event.step_id
      then if was_skipped event.output then pure state else (do
        log k.env task_id
        elim (k.git_checkpoint event.step_id) [
          | none ↦ log k.env task_id >> pure state
          | some none ↦ pure state
          | some (some commit) ↦
              log k.env task_id
              >> pure (record state { empty = commit.is_empty; commit_hash = commit.hash })
        ])
      else pure state
    else pure state

-- What `OnEvent` returns where nothing has failed.
unfoldable pub graph_change : Worker → Analysis → Event → Option Err
graph_change k analysis event =
    if is_success event.status
    then if event.step_id == "plan"
      then (if k.has_subtasks event.output then some err_graph_changed else none)
      else if event.step_id == step_cli_analyze
      then (if needs_parallel_tracks k analysis then some err_graph_changed else none)
      else none
    else none

-- `OnEvent`, after the events before it.
unfoldable pub on_event :
    Worker → (number : ℕ) (task_id job_id : String) → List Event → Event → Op (Option Err)
on_event k number task_id job_id seen event = do
  let analysis = k.analysis number seen
  state ← commit_state k task_id event (state_of analysis.spec_hash event)
  create_checkpoint task_id event.step_id state
  changed ← attempt (change_job k.env job_id (updates_of k event))
  elim changed [
    | err e ↦ pure (some (failure (k.failure_text e)))
    | ok _ ↦ log k.env task_id >> pure (graph_change k analysis event)
  ]

-- The tables after the events of an attempt, newest first.
unfoldable pub replay : Worker → (number : ℕ) (task_id job_id : String) → List Event → World → World
replay k number task_id job_id [] w = w
replay k number task_id job_id (event ∷ older) w =
    (on_event k number task_id job_id older event (replay k number task_id job_id older w)).0

unfoldable pub event_answer : Result (Option Err) → Option Err
event_answer (err e) = none
event_answer (ok answer) = answer

-- `OnEvent` as the engine calls it: the events before stand for the tables.
unfoldable pub handler :
    Worker → (number : ℕ) (task_id job_id : String) → World → List Event → Event → Option Err
handler k number task_id job_id w seen event =
    event_answer
      (on_event k number task_id job_id seen event (replay k number task_id job_id seen w)).1
