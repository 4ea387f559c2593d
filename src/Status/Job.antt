-- ===== src/Status/Job.antt =====
-- The job statuses of server/pkg/models/workflow.go and the job transitions of
-- server/internal/workflow/state_machine.go.
pub mod Edges
use auto_dev_os.Base.{String, Option, List, [], ◌∷◌}
use auto_dev_os.Base.Dict.{Dict}
use auto_dev_os.Status.Table.{TransitionError, validate_in}

abbrev pub queued : String
queued = "queued"

abbrev pub running : String
running = "running"

abbrev pub paused : String
paused = "paused"

abbrev pub sleeping : String
sleeping = "sleeping"

abbrev pub done : String
done = "done"

abbrev pub failed : String
failed = "failed"

-- `ValidWorkflowJobTransitions`.
abbrev pub valid_workflow_job_transitions : Dict (List String)
valid_workflow_job_transitions =
    (queued, running ∷ failed ∷ [])
    ∷ (running, paused ∷ done ∷ failed ∷ queued ∷ [])
    ∷ (paused, running ∷ queued ∷ failed ∷ done ∷ [])
    ∷ (done, [])
    ∷ (failed, [])
    ∷ []

-- `ValidateJobTransition`.
unfoldable pub validate_job_transition : String → String → Option TransitionError
validate_job_transition from to = validate_in valid_workflow_job_transitions from to
