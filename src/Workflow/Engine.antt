-- ===== src/Workflow/Engine.antt =====
-- server/internal/workflow/engine.go: `runInternal` and what it calls.
-- The goroutines of one round read the outputs as the round found them; they finish in an order
-- that `arrival` chooses, which is the order in which the channel is read. `OnEvent` is a function
-- of the events before it. The log of `emit`'s calls is kept newest first.
pub mod Induction
pub mod Rounds
mod Start
mod Invariant
pub mod Success
pub mod Causal
pub mod Restored
pub mod Idle
pub mod Typed
pub mod Calm
mod Examples
pub mod Liveness
use auto_dev_os.Base.{
  ℕ, zero, suc, String, Bool, true, false, ◌||◌, Option, none, some, List, [], ◌∷◌, ◌==◌, map, take,
  filter, all, length, if◌then◌else◌,
}
use auto_dev_os.Base.Int.{ℤ, pos, negsuc}
use auto_dev_os.Base.Dict.{Dict, lookup, insert, get_or}
use auto_dev_os.Workflow.Schema.{Object}
use auto_dev_os.Workflow.Step.{
  Err, incomplete_steps, is_paused, is_waiting, StepStatus, unset, pending, running, success,
  failed, skipped, paused, waiting_approval, Event, StepDefinition, Definition, StepResult,
  produced, broke, run_step,
}
use auto_dev_os.Workflow.Graph.{validate_definition}

pub record Engine : Type 0 where
  pub max_parallel : ℤ
  pub on_event : Option (List Event → Event → Option Err)
  pub completed_steps : Dict Object

-- A message on the round's channel.
pub record Finished : Type 0 where
  pub ident : String
  pub result : StepResult

-- `Result`, the engine's own map of completed steps, and the events so far.
pub record State : Type 0 where
  pub outputs : Dict Object
  pub status : Dict StepStatus
  pub is_paused : Bool
  pub completed : Dict Object
  pub events : List Event

abbrev pub status_of : State → String → StepStatus
status_of s k = get_or unset k s.status

unfoldable pub is_pending : StepStatus → Bool
is_pending pending = true
is_pending _ = false

-- `status == StepStatusSuccess || status == StepStatusSkipped`
unfoldable pub is_finished : StepStatus → Bool
is_finished success = true
is_finished skipped = true
is_finished _ = false

-- `readySteps`
unfoldable pub deps_finished : Dict StepStatus → List String → Bool
deps_finished status [] = true
deps_finished status (dep ∷ rest) =
    if is_finished (get_or unset dep status) then deps_finished status rest else false

unfoldable pub is_ready : Dict StepStatus → StepDefinition → Bool
is_ready status step =
    if is_pending (get_or unset step.ident status)
    then deps_finished status step.depends_on
    else false

unfoldable pub ready_steps : List StepDefinition → Dict StepStatus → List StepDefinition
ready_steps steps status = filter (is_ready status) steps

-- `e.emit`
unfoldable pub emit : Engine → Event → State → State × Option Err
emit e event s = (
  record s { events = event ∷ s.events },
  elim e.on_event [ none ↦ none | some handler ↦ handler s.events event ],
)

unfoldable pub set_status : String → StepStatus → State → State
set_status k status s = record s { status = insert k status s.status }

abbrev pub running_event : String → Event
running_event k = record { step_id = k; status = running; output = none; error = none }

abbrev pub success_event : String → Object → Event
success_event k o = record { step_id = k; status = success; output = some o; error = none }

abbrev pub failure_event : String → StepStatus → Err → Event
failure_event k status x = record { step_id = k; status = status; output = none; error = some x }

-- One turn of the loop that starts the round's steps.
unfoldable pub start_step : Engine → String → StepDefinition → State → State × Option Err
start_step e paused_step step s =
    let s' = set_status step.ident running s in
    if step.ident == paused_step then (s', none) else emit e (running_event step.ident) s'

-- `if err != nil { return result, err }`, and what follows otherwise.
unfoldable pub and_then : State × Option Err → (State → State × Option Err) → State × Option Err
and_then (s, some x) next = (s, some x)
and_then (s, none) next = next s

unfoldable pub launch : Engine → String → List StepDefinition → State → State × Option Err
launch e paused_step [] s = (s, none)
launch e paused_step (step ∷ rest) s =
    and_then (start_step e paused_step step s) (launch e paused_step rest)

-- The status of a step that returned an error.
unfoldable pub status_of_error : Err → StepStatus
status_of_error x =
    if is_paused x then paused else if is_waiting x then waiting_approval else failed

-- A step that returned an error; what `emit` answers is ignored.
unfoldable pub fail_step : Engine → String → Err → State → State
fail_step e k x s =
    let status = status_of_error x in
    let s' = record (set_status k status s) {
      is_paused = s.is_paused || (is_paused x || is_waiting x);
    } in
    (emit e (failure_event k status x) s').0

unfoldable pub succeed_step : Engine → String → Object → State → State × Option Err
succeed_step e k o s = emit e (success_event k o) (record (set_status k success s) {
  outputs = insert k o s.outputs;
  completed = insert k o s.completed;
})

-- `for item := range ch`; `err` is `errToReturn`.
unfoldable pub collect : Engine → List Finished → Option Err → State → State × Option Err
collect e [] err s = (s, err)
collect e (item ∷ rest) err s = elim item.result [
  | broke x ↦ collect e rest (some x) (fail_step e item.ident x s)
  | produced o ↦ and_then (succeed_step e item.ident o s) (collect e rest err)
]

abbrev pub Arrival : Type 0
Arrival = List Event → List Finished → List Finished

unfoldable pub run_one : String → Object → State → StepDefinition → Finished
run_one workflow initial s step = record {
  ident = step.ident;
  result = run_step workflow step s.events initial s.outputs;
}

-- `if e.MaxParallel <= 0 { e.MaxParallel = 4 }`
unfoldable pub limit : ℤ → ℕ
limit (pos zero) = 4
limit (pos (suc n)) = suc n
limit (negsuc n) = 4

unfoldable pub all_finished : Dict StepStatus → Bool
all_finished [] = true
all_finished ((k, status) ∷ rest) = if is_finished status then all_finished rest else false

-- What follows the loop.
unfoldable pub finish : State → State × Option Err
finish s = (s, if all_finished s.status then none else some incomplete_steps)

-- What the loop does after a round.
unfoldable pub continue_with :
    (State → Option (State × Option Err)) → State × Option Err → Option (State × Option Err)
continue_with next (s, some x) = some (s, some x)
continue_with next (s, none) = next s

module _ (e : Engine) (def : Definition) (initial : Object) (paused_step : String)
    (arrival : Arrival) where
  -- One round: the steps are started, run, and their results are read.
  unfoldable pub run_round : List StepDefinition → State → State × Option Err
  run_round batch s =
      and_then (launch e paused_step batch s)
        (λ s'. collect e (arrival s'.events (map (run_one def.name initial s') batch)) none s')

  -- The loop; `none` means that the fuel ran out.
  unfoldable pub rounds : ℕ → State → Option (State × Option Err)
  rounds zero s = none
  rounds (suc fuel) s = elim (ready_steps def.steps s.status) [
    | [] ↦ some (finish s)
    | step ∷ more ↦
        continue_with (rounds fuel) (run_round (take (limit e.max_parallel) (step ∷ more)) s)
  ]

-- `result.Status[step.ID] = StepStatusPending` for each step.
unfoldable pub all_pending : List StepDefinition → Dict StepStatus → Dict StepStatus
all_pending [] status = status
all_pending (step ∷ rest) status = all_pending rest (insert step.ident pending status)

-- `_, exists := steps[stepID]`
unfoldable pub has_step : String → List StepDefinition → Bool
has_step k [] = false
has_step k (step ∷ rest) = if step.ident == k then true else has_step k rest

-- The loop over `e.CompletedSteps`.
unfoldable pub seed : List StepDefinition → Dict Object → State → State
seed steps [] s = s
seed steps ((k, output) ∷ rest) s = seed steps rest (
    if has_step k steps
    then record s { status = insert k success s.status; outputs = insert k output s.outputs }
    else s)

-- `Result` and the engine's map as the loop finds them.
unfoldable pub start_state : Engine → Definition → State
start_state e def = seed def.steps e.completed_steps (record {
  outputs = [];
  status = all_pending def.steps [];
  is_paused = false;
  completed = e.completed_steps;
  events = [];
})

-- `Result{}` of an invalid definition.
unfoldable pub no_result : Engine → State
no_result e = record {
  outputs = [];
  status = [];
  is_paused = false;
  completed = e.completed_steps;
  events = [];
}

-- `runInternal`, with a round for each step and one more. `Run` passes no paused step, `Resume`
-- passes the one that was paused.
unfoldable pub run_internal :
    Engine
    → Definition
    → Object
    → String
    → Arrival
    → (List String → List String)
    → Option (State × Option Err)
run_internal e def initial paused_step arrival ranged =
    elim (validate_definition ranged def.steps) [
      | some x ↦ some (no_result e, some x)
      | none ↦ rounds e def initial paused_step arrival (suc (length def.steps)) (start_state e def)
    ]

unfoldable pub run :
    Engine
    → Definition
    → Object
    → Arrival
    → (List String → List String)
    → Option (State × Option Err)
run e def initial = run_internal e def initial ""

unfoldable pub resume :
    Engine
    → Definition
    → Object
    → String
    → Arrival
    → (List String → List String)
    → Option (State × Option Err)
resume e def initial paused_step = run_internal e def initial paused_step
