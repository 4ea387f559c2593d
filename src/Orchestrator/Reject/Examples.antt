-- ===== src/Orchestrator/Reject/Examples.antt =====
-- The rejection of a pull request whose steps have all succeeded.
use auto_dev_os.Base.{◌<◌, String, ◌≡◌, refl, sym, subst, true, none, [], Memᴰ, ◌==◌}
use auto_dev_os.Base.Counts.{count, mem_of_count}
use auto_dev_os.Base.Dict.{lookup}
use auto_dev_os.Status.Table.{validate_in, allows}
use auto_dev_os.Status.Task.{fixing, validate_task_transition, start_of}
use auto_dev_os.Tasks.Table.{find_task, write_task, write_input}
use auto_dev_os.Tasks.Guardrails.{positive_or}
use auto_dev_os.Workflow.Sample.{as_listed-Rearranges}
use auto_dev_os.Orchestrator.World.{
  World, Env, ok, pure, fail, ◌>>=◌, ◌>>◌, asks, given, get_task, update_task, when, require,
  latest_of, enqueue_job, create_checkpoint, attempt,
}
use auto_dev_os.Orchestrator.Sample.{task_of, env_at}
use auto_dev_os.Orchestrator.Tracker.{
  check_transition, task_service_update, log, check_event_volume_guardrail,
}
use auto_dev_os.Orchestrator.Checkpoints.{
  is_cleared, delete_checkpoints, list_checkpoints, is_restored, is_outdated, is_success,
  is_review_loop_checkpoint, is_cli_implement_fix_loop_checkpoint,
}
use auto_dev_os.Orchestrator.Decomposition.{
  StatusUpdate, is_unstarted, execute_task, update_task_status,
}
use auto_dev_os.Orchestrator.Jobs.{
  reached, turns_of, check_loop_limit, check_review_loop_limit, save_pr_rejection_feedback,
}
use auto_dev_os.Orchestrator.Reject.{awaits_review, clear_checkpoints_for_repair, reject}
use auto_dev_os.Orchestrator.Reject.Forgets.{reject_forgets}
use auto_dev_os.Orchestrator.Reject.Reruns.{IsRestored, Survives, reject_reruns_nothing}
use auto_dev_os.Orchestrator.Worker.Attempts.{definition_of, includes_cross_review, reload}
use auto_dev_os.Orchestrator.Worker.Sample.{idle_run, succeeded, reviewed, like_pattern}
use auto_dev_os.Orchestrator.Worker.Resumes.{steps_of}
use auto_dev_os.Orchestrator.Worker.Ends.{attempt_total}

abbrev after_reject : World
after_reject =
    (reject (env_at 5) (update_task_status 1 (env_at 5)) like_pattern "wrong" "a" reviewed).0

rejected :
    (reject (env_at 5) (update_task_status 1 (env_at 5)) like_pattern "wrong" "a" reviewed).1
    ≡ ok (task_of fixing none)
unfolding reject awaits_review clear_checkpoints_for_repair pure fail ◌>>=◌ ◌>>◌ asks given get_task
    update_task when require latest_of enqueue_job create_checkpoint attempt check_transition
    task_service_update log check_event_volume_guardrail is_cleared delete_checkpoints is_unstarted
    execute_task reached turns_of check_loop_limit check_review_loop_limit
    save_pr_rejection_feedback validate_task_transition validate_in start_of allows lookup find_task
    write_task write_input positive_or ◌==◌
rejected = refl

reject_forgets_example :
    (turns_of "a" "pr_rejection" after_reject.checkpoints ≡ 0)
    × ((later : Env) (update_status : StatusUpdate)
        → (check_review_loop_limit later update_status "a" after_reject).0 ≡ after_reject)
reject_forgets_example =
    reject_forgets like_pattern (env_at 5) 1 "wrong" "a" reviewed (task_of fixing none)
      (unfold ◌==◌ in refl) rejected

-- What holds of the four steps holds of every step of the pipeline.
each_step :
    (P : String → Type 0)
    → P "cli_analyze"
    → P "cli_spec"
    → P "cli_implement"
    → P "cli_mr"
    → (k : String) → 0 < count k (steps_of idle_run 1)
    → P k
unfolding definition_of includes_cross_review
each_step P a b c d k h = elim (mem_of_count (steps_of idle_run 1) h) [
  | Memᴰ.head e ↦ subst P (sym e) a
  | Memᴰ.tail (Memᴰ.head e) ↦ subst P (sym e) b
  | Memᴰ.tail (Memᴰ.tail (Memᴰ.head e)) ↦ subst P (sym e) c
  | Memᴰ.tail (Memᴰ.tail (Memᴰ.tail (Memᴰ.head e))) ↦ subst P (sym e) d
  | Memᴰ.tail (Memᴰ.tail (Memᴰ.tail (Memᴰ.tail m))) ↦ elim m [ ]
]

-- A checkpoint that succeeded counts.
stored :
    (k : String)
    → Memᴰ (succeeded k) (list_checkpoints "a" reviewed)
    → is_restored "" "analyze" (succeeded k) ≡ true
    → IsRestored "" "analyze" k (list_checkpoints "a" reviewed)
stored k listed counts = record {
  checkpoint = succeeded k;
  listed = listed;
  named = refl;
  kept = counts;
}

restored_step :
    (k : String)
    → 0 < count k (steps_of idle_run 1)
    → IsRestored "" "analyze" k (list_checkpoints "a" reviewed)
unfolding list_checkpoints is_restored is_outdated is_success is_review_loop_checkpoint
    is_cli_implement_fix_loop_checkpoint ◌==◌
restored_step =
    each_step (λ k. IsRestored "" "analyze" k (list_checkpoints "a" reviewed))
      (stored _ (Memᴰ.head refl) refl) (stored _ (Memᴰ.tail (Memᴰ.head refl)) refl)
      (stored _ (Memᴰ.tail (Memᴰ.tail (Memᴰ.head refl))) refl)
      (stored _ (Memᴰ.tail (Memᴰ.tail (Memᴰ.tail (Memᴰ.head refl)))) refl)

survives : (k : String) → 0 < count k (steps_of idle_run 1) → Survives like_pattern k
survives = unfold ◌==◌ in each_step (Survives like_pattern) refl refl refl refl

reject_reruns_nothing_example :
    (attempt_total idle_run 1 1 after_reject (reload idle_run 1 after_reject [])).0.0.events ≡ []
reject_reruns_nothing_example =
    reject_reruns_nothing like_pattern (env_at 5) 1 "wrong" reviewed idle_run 1 [] _ _
      as_listed-Rearranges survives restored_step
      (attempt_total idle_run 1 1 after_reject (reload idle_run 1 after_reject [])).1
