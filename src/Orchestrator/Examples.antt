-- ===== src/Orchestrator/Examples.antt =====
-- Requests to the orchestrator with one task.
use auto_dev_os.Base.{ℕ, ◌*◌, ◌≡◌, refl, none, some, List, [], ◌∷◌, arith, inr, ◌==◌}
use auto_dev_os.Base.Dict.{lookup}
use auto_dev_os.Status.Table.{validate_in, allows}
use auto_dev_os.Status.Task.Life.{Life}
use auto_dev_os.Status.Task.{
  todo, analyzing, failed as task_failed, validate_task_transition, start_of,
}
use auto_dev_os.Tasks.Table.{Task, find_task, write_task, write_input}
use auto_dev_os.Tasks.Guardrails.{
  positive_or, eval_max_retries, eval_execution_timeout, retry_count_after, started_after,
  is_exempt, block_reason_of, apply_guardrails, minute,
}
use auto_dev_os.Orchestrator.World.{
  Env, Failure, failed, ok, pure, fail, ◌>>=◌, ◌>>◌, asks, given, get_task, update_task, when,
}
use auto_dev_os.Orchestrator.Sample.{task_of, world_of, env_at}
use auto_dev_os.Orchestrator.Tracker.{check_transition, write_status}
use auto_dev_os.Orchestrator.Decomposition.{status_step, update_task_status}
use auto_dev_os.Orchestrator.Jobs.{retry_from_last_step}
use auto_dev_os.Orchestrator.Commands.{Command, executes, logs}
use auto_dev_os.Orchestrator.Limits.{Within, update-Within}
use auto_dev_os.Orchestrator.Retry.{retry_spent}

abbrev requests : List (ℕ × (Env × Command))
requests = (1, (env_at 5, executes "a")) ∷ (1, (env_at 6, logs "a")) ∷ []

listed : (task : Task) → task.ident ≡ "a" → find_task "a" (world_of task).tasks ≡ some task
unfolding find_task ◌==◌
listed task named = rw named refl

analyzed :
    (update_task_status 1 (env_at 5) "a" analyzing (world_of (task_of todo none))).1
    ≡ ok (task_of analyzing (some 5))
unfolding update_task_status status_step write_status get_task update_task check_transition asks
    given when pure fail ◌>>=◌ ◌>>◌ find_task write_task write_input apply_guardrails
    block_reason_of retry_count_after started_after is_exempt eval_max_retries
    eval_execution_timeout positive_or validate_task_transition validate_in start_of lookup allows
    ◌==◌
analyzed = refl

update-Within_example : Within 5 none 0 (some 5)
unfolding is_exempt ◌==◌
update-Within_example =
    update-Within 1 (env_at 5) "a" analyzing (world_of (task_of todo none))
      (task_of analyzing (some 5)) analyzed refl

abbrev late : ℕ
late = 121 * minute

retry_spent_example :
    ((e : Failure) × ((retry_from_last_step
          (env_at late)
          (update_task_status 1 (env_at late))
          "a"
          (world_of (task_of task_failed (some 0)))).1
        ≡ failed e))
    × ((retry_from_last_step
          (env_at late)
          (update_task_status 1 (env_at late))
          "a"
          (world_of (task_of task_failed (some 0)))).0.tasks
        ≡ (world_of (task_of task_failed (some 0))).tasks)
retry_spent_example =
    retry_spent (env_at late) "a" (task_of task_failed (some 0)) refl
      (inr (0, 119, (refl, (unfold positive_or in refl, omega arith)))) 1
      (world_of (task_of task_failed (some 0))) (listed (task_of task_failed (some 0)) refl)
