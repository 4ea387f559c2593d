-- ===== src/Orchestrator/Worker/Examples.antt =====
-- Attempts on a task whose steps have all succeeded before.
use auto_dev_os.Base.{ℕ, ◌≡◌, ◌≢◌, refl, true, false, none, some, [], ◌∷◌, Memᴰ, arith, ◌==◌, All}
use auto_dev_os.Base.Counts.{count}
use auto_dev_os.Base.Dict.{IsKey, get_or, lookup, insert, is_key, keys}
use auto_dev_os.Workflow.Graph.{
  validate_definition, check_ids, check_deps, check_deps_of, validate_dag, graph_of, add_deps,
  add_dep, add_node, sources, drain, release, check_order,
}
use auto_dev_os.Workflow.Step.{unset, success}
use auto_dev_os.Workflow.Engine.{
  State, status_of, run, run_internal, rounds, ready_steps, is_ready, is_pending, deps_finished,
  is_finished, finish, all_finished, start_state, seed, has_step, all_pending,
}
use auto_dev_os.Workflow.Engine.Induction.{Delivers}
use auto_dev_os.Workflow.Sample.{as_listed-Rearranges}
use auto_dev_os.Orchestrator.Checkpoints.{
  is_outdated, is_success, is_review_loop_checkpoint, is_cli_implement_fix_loop_checkpoint,
  is_restored, output_of, completed_of, list_checkpoints,
}
use auto_dev_os.Orchestrator.Worker.{replay}
use auto_dev_os.Orchestrator.Worker.Attempts.{
  left, includes_cross_review, definition_of, inputs_of, reload, engine_of, run_attempt, decide,
  is_pausing, follow, attempts,
}
use auto_dev_os.Orchestrator.Worker.Job.{no_attempt}
use auto_dev_os.Orchestrator.Worker.Sample.{idle_run, succeeded, reviewed}
use auto_dev_os.Orchestrator.Worker.Resumes.{attempt-resumes}
use auto_dev_os.Orchestrator.Worker.Ends.{attempts-success}

abbrev idle_state : State
idle_state = record {
  outputs = ("cli_analyze", []) ∷ ("cli_spec", []) ∷ ("cli_implement", []) ∷ ("cli_mr", []) ∷ [];
  status =
      ("cli_analyze", success)
      ∷ ("cli_spec", success)
      ∷ ("cli_implement", success)
      ∷ ("cli_mr", success)
      ∷ [];
  is_paused = false;
  completed = ("cli_analyze", []) ∷ ("cli_spec", []) ∷ ("cli_implement", []) ∷ ("cli_mr", []) ∷ [];
  events = [];
}

in_order-Delivers : (number : ℕ) → Delivers (idle_run.worker.arrival number)
in_order-Delivers number events items item = ((λ m. m), (λ m. m))

idle_attempt :
    run_attempt idle_run 1 reviewed (reload idle_run 1 reviewed []) ≡ some (idle_state, none)
unfolding run_attempt reload engine_of definition_of includes_cross_review inputs_of
    list_checkpoints completed_of is_restored is_outdated is_success is_review_loop_checkpoint
    is_cli_implement_fix_loop_checkpoint output_of run run_internal validate_definition check_ids
    check_deps check_deps_of validate_dag graph_of add_deps add_dep add_node sources drain release
    check_order get_or is_key keys lookup insert ◌==◌ rounds ready_steps is_ready is_pending
    deps_finished is_finished finish all_finished start_state seed has_step all_pending
idle_attempt = refl

kept_analysis : is_restored "" "analyze" (succeeded "cli_analyze") ≡ true
unfolding is_outdated is_success is_review_loop_checkpoint is_cli_implement_fix_loop_checkpoint
    is_restored ◌==◌
kept_analysis = refl

analysis_listed : Memᴰ (succeeded "cli_analyze") (list_checkpoints "a" reviewed)
unfolding list_checkpoints ◌==◌
analysis_listed = Memᴰ.head refl

attempt-resumes_example :
    (get_or unset "cli_analyze" idle_state.status ≡ success)
    × All (λ ev. ev.step_id ≢ "cli_analyze") idle_state.events
attempt-resumes_example =
    attempt-resumes idle_run 1 reviewed [] (succeeded "cli_analyze") idle_state none
      (in_order-Delivers 1) as_listed-Rearranges analysis_listed kept_analysis
      (unfold definition_of includes_cross_review count ◌==◌ in omega arith) idle_attempt

idle_loop : attempts idle_run 1 1 1 (no_attempt []) none reviewed ≡ (reviewed, left idle_state none)
unfolding attempts follow decide is_pausing replay run_attempt reload engine_of definition_of
    includes_cross_review inputs_of list_checkpoints completed_of is_restored is_outdated is_success
    is_review_loop_checkpoint is_cli_implement_fix_loop_checkpoint output_of run run_internal
    validate_definition check_ids check_deps check_deps_of validate_dag graph_of add_deps add_dep
    add_node sources drain release check_order get_or is_key keys lookup insert ◌==◌ rounds
    ready_steps is_ready is_pending deps_finished is_finished finish all_finished start_state seed
    has_step all_pending
idle_loop = refl

attempts-success_example :
    (status_of idle_state "cli_mr" ≡ success) × IsKey "cli_mr" idle_state.outputs
attempts-success_example =
    attempts-success idle_run 1 0 (no_attempt []) reviewed reviewed idle_state in_order-Delivers
      as_listed-Rearranges idle_loop "cli_mr"
      (λ number. unfold definition_of includes_cross_review count ◌==◌ in omega arith)
