-- ===== src/Status.antt =====
-- The status machines of tasks and of workflow jobs.
-- server/pkg/models/task.go: the task statuses and `ValidTaskTransitions`.
-- server/pkg/models/workflow.go: the job statuses.
-- server/internal/workflow/state_machine.go: `ValidWorkflowJobTransitions` and both validators.
-- A status is a text, as in the program; a Go `error` is an `Option` of `TransitionError`.
pub mod Table
pub mod Task
pub mod Job
mod Examples
