-- ===== src/Workflow/Engine/Examples.antt =====
-- The engine on a definition of two steps, the second of which depends on the first.
use auto_dev_os.Base.{
  ◌<◌, ◌≡◌, refl, sym, subst, ◌≢◌, false, Option, none, some, [], ◌∷◌, Memᴰ, ◌⊎◌, arith, ◌==◌, All,
}
use auto_dev_os.Base.Int.{pos}
use auto_dev_os.Base.Counts.{count}
use auto_dev_os.Base.Dict.{IsKey, lookup, insert, get_or, is_key, keys}
use auto_dev_os.Workflow.Schema.{Object, validate, validate_field, matches_type}
use auto_dev_os.Workflow.Schema.Typing.{HasType}
use auto_dev_os.Workflow.Step.{Err, StepStatus, success, StepDefinition, Definition, run_step}
use auto_dev_os.Workflow.Graph.{
  validate_definition, check_ids, check_deps, check_deps_of, validate_dag, graph_of, add_deps,
  add_dep, add_node, sources, drain, release, check_order,
}
use auto_dev_os.Workflow.Graph.Build.{idents}
use auto_dev_os.Workflow.Engine.{
  Engine, State, Arrival, status_of, emit, set_status, start_step, and_then, launch, succeed_step,
  collect, run_one, limit, all_finished, is_finished, deps_finished, is_ready, is_pending,
  ready_steps, finish, continue_with, run_round, rounds, all_pending, has_step, seed, start_state,
  run_internal, running_event, success_event,
}
use auto_dev_os.Workflow.Sample.{as_listed, as_listed-Rearranges, plan_text, plan, code}
use auto_dev_os.Workflow.Engine.Induction.{Delivers}
use auto_dev_os.Workflow.Engine.Rounds.{run_internal_total}
use auto_dev_os.Workflow.Engine.Causal.{Done, IsCausal, run_internal-IsCausal}
use auto_dev_os.Workflow.Engine.Success.{run_internal-success}
use auto_dev_os.Workflow.Engine.Restored.{run_internal-restored}
use auto_dev_os.Workflow.Engine.Calm.{NeverRefuses, Produces}
use auto_dev_os.Workflow.Engine.Liveness.{run_internal-live}
use auto_dev_os.Workflow.Engine.Typed.{run_internal-IsTyped}

abbrev in_order : Arrival
in_order events items = items

in_order-Delivers : Delivers in_order
in_order-Delivers events items item = ((λ m. m), (λ m. m))

abbrev two_steps : Definition
two_steps = record { name = "two"; steps = plan ∷ code ∷ [] }

abbrev engine : Engine
engine = record { max_parallel = pos 0; on_event = none; completed_steps = [] }

abbrev plan_output : Object
plan_output = ("text", plan_text) ∷ []

abbrev final : State
final = record {
  outputs = ("plan", plan_output) ∷ ("code", []) ∷ [];
  status = ("plan", success) ∷ ("code", success) ∷ [];
  is_paused = false;
  completed = ("plan", plan_output) ∷ ("code", []) ∷ [];
  events =
      success_event "code" []
      ∷ running_event "code"
      ∷ success_event "plan" plan_output
      ∷ running_event "plan"
      ∷ [];
}

two_steps_accepted : validate_definition as_listed two_steps.steps ≡ none
unfolding validate_definition check_ids check_deps check_deps_of validate_dag graph_of add_deps
    add_dep add_node sources drain release check_order get_or is_key keys lookup insert ◌==◌
two_steps_accepted = refl

ran : run_internal engine two_steps [] "" in_order as_listed ≡ some (final, none)
unfolding run_internal validate_definition check_ids check_deps check_deps_of validate_dag graph_of
    add_deps add_dep add_node sources drain release check_order get_or is_key keys lookup insert
    ◌==◌ rounds run_round launch collect start_step and_then succeed_step set_status emit run_one
    run_step ready_steps is_ready is_pending deps_finished is_finished finish all_finished
    continue_with limit start_state seed all_pending validate validate_field matches_type
ran = refl

run_internal_total_example :
    (r : State × Option Err) × (run_internal engine two_steps [] "" in_order as_listed ≡ some r)
run_internal_total_example = run_internal_total engine two_steps [] "" in_order as_listed

run_internal-IsCausal_example : IsCausal engine two_steps final.events
run_internal-IsCausal_example =
    run_internal-IsCausal engine two_steps [] "" in_order as_listed (final, none) in_order-Delivers
      as_listed-Rearranges ran

code_listed : 0 < count "code" (idents two_steps.steps)
code_listed = unfold count ◌==◌ in omega arith

run_internal-success_example :
    (status_of final "code" ≡ success)
    × IsKey "code" final.outputs
    × Done engine two_steps final.events "code"
run_internal-success_example =
    run_internal-success engine two_steps [] "" in_order as_listed final "code" in_order-Delivers
      as_listed-Rearranges ran code_listed

never_refuses : NeverRefuses engine
never_refuses ev s = unfold emit in refl

plan-Produces : Produces two_steps plan
plan-Produces seen initial outputs ready =
    (plan_output, unfold run_step validate validate_field matches_type lookup ◌==◌ in refl)

code-Produces : Produces two_steps code
code-Produces seen initial outputs ready = ([], unfold run_step validate in refl)

each-Produces : (step : StepDefinition) → Memᴰ step two_steps.steps → Produces two_steps step
each-Produces step (Memᴰ.head e) = subst (Produces two_steps) (sym e) plan-Produces
each-Produces step (Memᴰ.tail (Memᴰ.head e)) = subst (Produces two_steps) (sym e) code-Produces
each-Produces step (Memᴰ.tail (Memᴰ.tail m)) = elim m [ ]

run_internal-live_example :
    (s : State) × (run_internal engine two_steps [] "" in_order as_listed ≡ some (s, none))
run_internal-live_example =
    run_internal-live engine two_steps [] "" in_order as_listed in_order-Delivers
      as_listed-Rearranges two_steps_accepted never_refuses each-Produces

-- The first step was restored from a checkpoint.
abbrev restoring : Engine
restoring = record {
  max_parallel = pos 2;
  on_event = none;
  completed_steps = ("plan", plan_output) ∷ [];
}

abbrev resumed : State
resumed = record {
  outputs = ("plan", plan_output) ∷ ("code", []) ∷ [];
  status = ("plan", success) ∷ ("code", success) ∷ [];
  is_paused = false;
  completed = ("plan", plan_output) ∷ ("code", []) ∷ [];
  events = success_event "code" [] ∷ [];
}

ran_again : run_internal restoring two_steps [] "code" in_order as_listed ≡ some (resumed, none)
unfolding run_internal validate_definition check_ids check_deps check_deps_of validate_dag graph_of
    add_deps add_dep add_node sources drain release check_order get_or is_key keys lookup insert
    ◌==◌ rounds run_round launch collect start_step and_then succeed_step set_status emit run_one
    run_step ready_steps is_ready is_pending deps_finished is_finished finish all_finished
    continue_with limit start_state seed has_step all_pending validate validate_field matches_type
ran_again = refl

plan_restored : IsKey "plan" restoring.completed_steps
unfolding lookup ◌==◌
plan_restored = (_, refl)

plan_listed : 0 < count "plan" (idents two_steps.steps)
plan_listed = unfold count ◌==◌ in omega arith

run_internal-restored_example :
    (get_or StepStatus.unset "plan" resumed.status ≡ success)
    × All (λ ev. ev.step_id ≢ "plan") resumed.events
run_internal-restored_example =
    run_internal-restored restoring two_steps [] "code" in_order as_listed (resumed, none) "plan"
      in_order-Delivers two_steps_accepted plan_listed plan_restored ran_again

run_internal-IsTyped_example :
    Memᴰ ("plan", plan_output) engine.completed_steps
    ⊎ ((step : StepDefinition) × Memᴰ step two_steps.steps
        × (step.ident ≡ "plan")
        × HasType step.output_schema.fields plan_output)
run_internal-IsTyped_example =
    run_internal-IsTyped engine two_steps [] "" in_order as_listed (final, none) "plan" plan_output
      in_order-Delivers ran (unfold lookup ◌==◌ in refl)
