-- ===== src/Orchestrator/Worker/Attempts.antt =====
-- server/internal/orchestrator/worker.go: the loop that runs the engine until it succeeds, is
-- paused, or has used up its attempts.
use auto_dev_os.Base.{
  ℕ, zero, suc, ◌*◌, ◌^◌, ◌%◌, ◌-◌, ◌&&◌, String, Bool, true, false, ◌||◌, Option, none, some, [],
  ◌∷◌, ◌==◌, ltb, leb, if◌then◌else◌,
}
use auto_dev_os.Base.Int.{ℤ, pos, negsuc}
use auto_dev_os.Base.Dict.{Dict}
use auto_dev_os.JobStore.{Updates}
use auto_dev_os.Status.Job.{queued, sleeping}
use auto_dev_os.Workflow.Schema.{Object, Value, go_string}
use auto_dev_os.Workflow.Step.{Err, is_paused, is_waiting, Definition}
use auto_dev_os.Workflow.Pipelines.{
  step_cli_implement, cli_spec_first_workflow, cli_spec_first_parallel_workflow,
}
use auto_dev_os.Workflow.Engine.{Engine, State, run, resume}
use auto_dev_os.Orchestrator.World.{World, Op, pure, ◌>>=◌, ◌>>◌, attempt, change_job}
use auto_dev_os.Orchestrator.Tracker.{log}
use auto_dev_os.Orchestrator.Checkpoints.{completed_of, list_checkpoints}
use auto_dev_os.Orchestrator.Decomposition.{only_status}
use auto_dev_os.Orchestrator.Worker.{Worker, handler, replay}
use auto_dev_os.Orchestrator.Worker.Errors.{
  is_review_fix_loop, is_cross_review_fix_loop, is_graph_changed, is_no_progress, is_config_invalid,
  cooldown_of,
}

-- A 64-bit integer in two's complement: the number that 64 bits stand for.
unfoldable pub signed : ℕ → ℤ
signed bits = if ltb bits (2 ^ 63) then pos bits else negsuc (2 ^ 64 - 1 - bits)

-- `calculateBackoff` in seconds: `1 << attempt` and the double of it lose what does not fit.
unfoldable pub calculate_backoff : ℕ → ℤ
calculate_backoff number =
    let seconds = signed (2 ^ number % 2 ^ 64 * 2 % 2 ^ 64) in
    elim seconds [ pos n ↦ if ltb 60 n then pos 60 else pos n | negsuc n ↦ negsuc n ]

-- What the loop does after an attempt.
pub data Decision : Type 0 where
  -- `UpdateJob` and `return`, with the step to go back to
  requeue : Option String → Decision
  sleep_until : ℕ → Decision
  -- `break`
  stop : Decision
  -- the next attempt, at once or after a wait of so many seconds
  again : Decision
  wait : ℤ → Decision

-- The tests after `engine.Run`, in their order. The last attempt that failed does not wait.
unfoldable pub decide_error : (number max_retries : ℕ) → Err → Decision
decide_error number max_retries e =
    if is_review_fix_loop e
    then requeue (some "review")
    else if is_cross_review_fix_loop e
    then requeue (some step_cli_implement)
    else if is_graph_changed e
    then requeue none
    else elim (cooldown_of e) [
      | some until ↦ sleep_until until
      | none ↦
          if is_paused e || is_waiting e
          then stop
          else if is_no_progress e && leb 2 number
          then stop
          else if is_config_invalid e
          then (if ltb number max_retries then again else stop)
          else if ltb number max_retries
          then wait (calculate_backoff number)
          else again
    ]

unfoldable pub decide : (number max_retries : ℕ) → Option Err → Decision
decide number max_retries none = stop
decide number max_retries (some e) = decide_error number max_retries e

-- The writes of the paths that return.
unfoldable pub requeue_updates : Option String → Updates
requeue_updates step = record (only_status queued) { step = step; last_error = some "" }

unfoldable pub sleep_updates : ℕ → String → Updates
sleep_updates until text = record (only_status sleeping) {
  sleep_until = some until;
  last_error = some text;
}

-- How the loop ended: it returned, or it left the last error, blank after a success.
pub data LoopEnd : Type 0 where
  returned : LoopEnd
  left : State → Option Err → LoopEnd
  -- The model's engine ran out of rounds.
  no_rounds : LoopEnd

-- `maxRetries`
unfoldable pub max_retries_of : Option ℤ → ℕ
max_retries_of (some (pos (suc n))) = suc n
max_retries_of _ = 1

unfoldable pub includes_cross_review : Option String → Bool
includes_cross_review none = false
includes_cross_review (some policy) = if policy == "same" then false else true

-- `def` with the runners of an attempt.
unfoldable pub definition_of : Worker → (is_parallel : Bool) → (number : ℕ) → Definition
definition_of k is_parallel number =
    let review = includes_cross_review k.review_harness_policy in
    if is_parallel
    then cli_spec_first_parallel_workflow (k.runners number) review
    else cli_spec_first_workflow (k.runners number) review

abbrev pub text_value : String → Value
text_value text = record { kind = go_string; content = text }

-- `inputs`
unfoldable pub inputs_of : (task_id agent_id job_id step : String) → Option String → Object
inputs_of task_id agent_id job_id step session =
    ("task_id", text_value task_id)
    ∷ ("agent_id", text_value agent_id)
    ∷ ("job_id", text_value job_id)
    ∷ ("retried_step_id", text_value step)
    ∷ elim session [ none ↦ [] | some s ↦ ("resume_session_id", text_value s) ∷ [] ]

-- What the run of the job keeps through the loop.
pub record Run : Type 0 where
  pub worker : Worker
  pub task_id : String
  pub job_id : String
  pub agent_id : String
  -- `job.Step` as the job was when the run began
  pub step : String
  pub is_parallel : Bool
  -- `resumedStepID`, blank for none
  pub resumed : String

-- `engine.CompletedSteps`, read again from the checkpoints if there are any.
unfoldable pub reload : Run → ℕ → World → Dict Object → Dict Object
reload r number w before = elim (list_checkpoints r.task_id w) [
  | [] ↦ before
  | cp ∷ rest ↦
      completed_of r.worker.json (r.worker.analysis number []).spec_hash r.step (cp ∷ rest) []
]

-- The engine of an attempt.
unfoldable pub engine_of : Run → ℕ → World → Dict Object → Engine
engine_of r number w completed = record {
  max_parallel = pos 2;
  on_event = some (handler r.worker number r.task_id r.job_id w);
  completed_steps = completed;
}

-- One run of the engine.
unfoldable pub run_attempt : Run → ℕ → World → Dict Object → Option (State × Option Err)
run_attempt r number w completed =
    let e = engine_of r number w completed in
    let def = definition_of r.worker r.is_parallel number in
    let session = if ltb 1 number then r.worker.resume_session number else none in
    let inputs = inputs_of r.task_id r.agent_id r.job_id r.step session in
    if r.resumed == ""
    then run e def inputs (r.worker.arrival number) r.worker.ranged
    else resume e def inputs r.resumed (r.worker.arrival number) r.worker.ranged

-- `log` and `UpdateJob` of a path that returns.
unfoldable pub put_back : Run → Updates → Op (Unit {0})
put_back r u = do
  log r.worker.env r.task_id
  _ ← attempt (change_job r.worker.env r.job_id u)
  pure tt

-- `log` on the way.
abbrev pub logged : Run → World → World
logged r w = (log r.worker.env r.task_id w).0

unfoldable pub text_of_error : Run → Option Err → String
text_of_error r none = ""
text_of_error r (some e) = r.worker.text_of e

unfoldable pub is_pausing : Option Err → Bool
is_pausing none = true
is_pausing (some e) = is_paused e || is_waiting e

-- What the loop does on a decision; `next` is its next turn.
unfoldable pub follow :
    Run
    → (max_retries number : ℕ) → (State → Option Err → World → World × LoopEnd)
    → State
    → Option Err
    → World
    → Decision
    → World × LoopEnd
follow r max_retries number next s e w (requeue step) =
    ((put_back r (requeue_updates step) w).0, returned)
follow r max_retries number next s e w (sleep_until t) =
    ((put_back r (sleep_updates t (text_of_error r e)) w).0, returned)
follow r max_retries number next s e w stop = (if is_pausing e then w else logged r w, left s e)
follow r max_retries number next s e w again =
    next s e (if ltb number max_retries then logged r w else w)
follow r max_retries number next s e w (wait seconds) = next s e (logged r w)

-- The loop, with the number of the attempt and how many are left.
unfoldable pub attempts :
    Run
    → (max_retries : ℕ) → (number remaining : ℕ) → (last : State) → Option Err
    → World
    → World × LoopEnd
attempts r max_retries number zero last e w = (w, left last e)
attempts r max_retries number (suc n) last e w =
    elim (run_attempt r number w (reload r number w last.completed)) [
      | none ↦ (w, no_rounds)
      | some (s, e') ↦
          follow r max_retries number (attempts r max_retries (suc number) n) s e'
            (replay r.worker number r.task_id r.job_id s.events w) (decide number max_retries e')
    ]
