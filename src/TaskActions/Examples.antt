-- ===== src/TaskActions/Examples.antt =====
-- Actions on one task.
use auto_dev_os.Base.{String, ◌≡◌, refl, Option, none, some, ◌==◌}
use auto_dev_os.Status.Task.{blocked, failed as task_failed}
use auto_dev_os.Tasks.Table.{action, compute_available_actions, find_task}
use auto_dev_os.Orchestrator.World.{Failure, failed}
use auto_dev_os.Orchestrator.Sample.{task_of, world_of, env_at}
use auto_dev_os.TaskActions.{Answer, TaskActionInput, orchestrator, execute_action, dispatch}
use auto_dev_os.TaskActions.Dispatch.{Repeats, dispatch-Repeats, retry_blocked-fails}

abbrev answer_of : String → Answer
answer_of status = record {
  task = task_of status none;
  available_actions = compute_available_actions status;
}

abbrev retry_input : TaskActionInput
retry_input = record { action = "retry"; request_id = "r"; comment = "" }

-- JSON of one answer only.
abbrev written : Answer → String
written answer = "answer"

abbrev read_back : String → Option Answer
read_back text = some (answer_of task_failed)

dispatch-Repeats_example :
    Repeats none
      (λ text. text)
      written
      read_back
      "a"
      "member"
      retry_input
      (world_of (task_of task_failed none))
      (dispatch none
        (λ text. text)
        written
        read_back
        "a"
        "member"
        retry_input
        (world_of (task_of task_failed none)))
dispatch-Repeats_example =
    dispatch-Repeats none (λ text. text) written read_back "a" "member" retry_input
      (world_of (task_of task_failed none))

retry_blocked-fails_example :
    (e : Failure) × (execute_action
        (some (orchestrator (env_at 5) 1))
        (λ text. text)
        (answer_of blocked)
        (record { action = "retry_blocked"; request_id = "r"; comment = "" })
        (world_of (task_of blocked none))
      ≡ (world_of (task_of blocked none), failed e))
retry_blocked-fails_example =
    retry_blocked-fails (env_at 5) 1 (λ text. text) (answer_of blocked) "r" ""
      (world_of (task_of blocked none)) (unfold find_task ◌==◌ in refl) refl refl
