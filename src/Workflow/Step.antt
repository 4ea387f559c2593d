-- ===== src/Workflow/Step.antt =====
-- The data of server/internal/workflow/engine.go: errors, steps, definitions, events, and
-- `runStep` with `aggregateInputs`.
use auto_dev_os.Base.{ℕ, String, Bool, true, false, Option, none, some, List, [], ◌∷◌}
use auto_dev_os.Base.Dict.{Dict, lookup, insert}
use auto_dev_os.Workflow.Schema.{Object, Schema, SchemaError, validate}

-- The errors that the engine and the worker tell apart; `wrapped` is `fmt.Errorf("…: %w", err)` and `failure`
-- any error of a step that wraps none of the others.
pub data Err : Type 0 where
  err_paused err_waiting_approval err_review_fix_loop err_cross_review_fix_loop : Err
  err_no_progress err_graph_changed : Err
  -- `cliengine.ErrConfigInvalid`, `ErrAllCredentialsInCooldown` and `context.Canceled`
  err_config_invalid context_canceled : Err
  all_credentials_in_cooldown : ℕ → Err
  pause_error : (step reason : String) → Err
  wrapped : String → Err → Err
  failure : String → Err
  no_runner : String → Err
  input_invalid output_invalid : String → SchemaError → Err
  step_id_required : Err
  duplicate_step : String → Err
  unknown_dependency : (step dep : String) → Err
  cycle_detected incomplete_steps : Err

-- `errors.Is(err, ErrPaused)`
pub is_paused : Err → Bool
is_paused err_paused = true
is_paused (pause_error step reason) = true
is_paused (wrapped message e) = is_paused e
is_paused _ = false

-- `errors.Is(err, ErrWaitingApproval)`
pub is_waiting : Err → Bool
is_waiting err_waiting_approval = true
is_waiting (wrapped message e) = is_waiting e
is_waiting _ = false

-- The status texts of step.go; `unset` is the blank text of a missing key.
pub data StepStatus : Type 0 where
  unset pending running success failed skipped paused waiting_approval : StepStatus

pub record Event : Type 0 where
  pub step_id : String
  pub status : StepStatus
  pub output : Option Object
  pub error : Option Err

pub record StepContext : Type 0 where
  pub workflow : String
  pub step_id : String
  pub inputs : Dict Object
  pub initial : Object

-- What a step's function returns: an output, which may be nil, or an error.
pub data Outcome : Type 0 where
  returned : Option Object → Outcome
  raised : Err → Outcome

-- A step's function may depend on all that has happened, which the events stand for.
abbrev pub StepFunc : Type 0
StepFunc = List Event → StepContext → Outcome

pub record StepDefinition : Type 0 where
  pub ident : String
  pub name : String
  pub depends_on : List String
  pub input_schema : Schema
  pub output_schema : Schema
  pub run : Option StepFunc

pub record Definition : Type 0 where
  pub name : String
  pub steps : List StepDefinition

-- `for k, v := range from { input[k] = v }`
pub merge : Object → Object → Object
merge [] input = input
merge ((k, v) ∷ rest) input = merge rest (insert k v input)

pub merge_deps : List String → Dict Object → Object → Object
merge_deps [] outputs input = input
merge_deps (dep ∷ rest) outputs input =
    merge_deps rest outputs (elim (lookup dep outputs) [ none ↦ input | some o ↦ merge o input ])

-- `aggregateInputs`
unfoldable pub aggregate_inputs : List String → Dict Object → Object → Object
unfolding merge merge_deps
aggregate_inputs depends_on outputs initial = merge_deps depends_on outputs (merge initial [])

pub data StepResult : Type 0 where
  produced : Object → StepResult
  broke : Err → StepResult

-- `if output == nil { output = map[string]any{} }`, then the check of the output.
unfoldable pub check_output : StepDefinition → Option Object → StepResult
check_output step o =
    let output : Object = elim o [ none ↦ [] | some m ↦ m ] in
    elim (validate step.output_schema.fields output) [
      | none ↦ produced output
      | some e ↦ broke (output_invalid step.ident e)
    ]

-- `step.Run(ctx, …)` and what follows it.
unfoldable pub call_runner : StepDefinition → Outcome → StepResult
call_runner step (raised e) = broke e
call_runner step (returned o) = check_output step o

-- `runStep`. A schema with no fields admits everything, so its test for length is left out.
unfoldable pub run_step : String → StepDefinition → List Event → Object → Dict Object → StepResult
unfolding call_runner check_output aggregate_inputs
run_step workflow step seen initial outputs = elim step.run [
  | none ↦ broke (no_runner step.ident)
  | some f ↦
      elim (validate step.input_schema.fields (aggregate_inputs step.depends_on outputs initial)) [
        | some e ↦ broke (input_invalid step.ident e)
        | none ↦ call_runner step (
            f seen (record {
              workflow = workflow;
              step_id = step.ident;
              inputs = outputs;
              initial = initial;
            }))
      ]
]
