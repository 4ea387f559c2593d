-- ===== src/SpecGate/Pauses.antt =====
-- The decisions of `ResolveSpecGate`.
use auto_dev_os.Base.{
  ℕ, String, Bool, true, false, Option, none, arith, ◌≡◌, refl, ◌≢◌, ◌↔◌, ◌⊎◌, ◌==◌, ne_of_eq-false,
}
use auto_dev_os.Base.Dict.{lookup}
use auto_dev_os.Status.Table.{validate_in, allows}
use auto_dev_os.Status.Task.{coding, spec_review, start_of, validate_task_transition}
use auto_dev_os.Workflow.Pipelines.{step_cli_spec, status_for_step}
use auto_dev_os.SpecGate.{
  Task, Project, is_definition_of_ready_bypassed, requires_spec_review, labels_of,
  resolve_spec_gate,
}

to_coding : validate_task_transition (status_for_step step_cli_spec) coding ≡ none
unfolding validate_task_transition start_of validate_in allows lookup status_for_step ◌==◌
to_coding = refl

to_review : validate_task_transition (status_for_step step_cli_spec) spec_review ≡ none
unfolding validate_task_transition start_of validate_in allows lookup status_for_step ◌==◌
to_review = refl

-- Whatever the gate decides, the validator of task transitions accepts the task's new status from
-- the status that the step of the spec has.
pub gate_accepted :
    (is_hotfix : String → Bool) (task : Option Task) (project : Option Project)
    (has_clarifications : Bool) (prior_rounds : ℕ)
    → validate_task_transition
        (status_for_step step_cli_spec)
        (resolve_spec_gate is_hotfix task project has_clarifications prior_rounds).1
      ≡ none
unfolding resolve_spec_gate
gate_accepted is_hotfix task project has_clarifications prior_rounds =
    ground (arith, to_coding, to_review)

coding-ne-review : coding ≢ spec_review
coding-ne-review = ne_of_eq-false (unfold ◌==◌ in refl)

-- The gate pauses a task at the review exactly when there are clarifications that are not bypassed,
-- or none and a review is required.
pub gate_pauses_iff :
    (is_hotfix : String → Bool) (task : Option Task) (project : Option Project)
    (has_clarifications : Bool) (prior_rounds : ℕ)
    → ((resolve_spec_gate is_hotfix task project has_clarifications prior_rounds).1 ≡ spec_review)
      ↔ (((has_clarifications ≡ true)
            × (is_definition_of_ready_bypassed is_hotfix (labels_of task) prior_rounds ≡ false))
          ⊎ ((has_clarifications ≡ false) × (requires_spec_review task project ≡ true)))
unfolding resolve_spec_gate
gate_pauses_iff is_hotfix task project true prior_rounds = ground (arith, coding-ne-review)
gate_pauses_iff is_hotfix task project false prior_rounds = ground (arith, coding-ne-review)
