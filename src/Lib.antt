-- ===== src/Lib.antt =====
-- Auto Code OS: the workflow core of the server.
--
-- The server takes a task through a workflow. A worker claims a job from a queue in the database,
-- builds a definition of steps, and runs it in the engine; the statuses of tasks and jobs change
-- only along tables of transitions, which the repository and the services check.
--
-- Base: numbers, texts, lists, maps and integers that all the parts share. A Go map is an
--   association list; where the order of a range over a map matters, it is a parameter.
-- Status: server/internal/workflow/state_machine.go with the statuses and tables of
--   server/pkg/models/task.go and server/pkg/models/workflow.go. Status/Table.antt has the body that
--   ValidateJobTransition and ValidateTaskTransition share, Status/Task.antt and Status/Job.antt
--   their tables, and Status/Task/Life.antt the sequences of accepted transitions.
-- JobStore: the queue of jobs, server/internal/repository/workflow.go (Enqueue, ClaimNext, UpdateJob,
--   ResetStuckJobs, WakeSleepingJobs, ResetAllRunningJobs). A transaction of the database is one
--   operation on the list of rows.
-- Workflow: server/internal/workflow. Workflow/Schema.antt is schema.go, Workflow/Graph.antt is
--   ValidateDAG of graph.go and validateDefinition of engine.go, Workflow/Step.antt is runStep and the
--   data of engine.go, and Workflow/Engine.antt is Run, Resume and runInternal. The state is Result,
--   the map CompletedSteps and the log of the events that emit was called with, newest first.
--   Workflow/Pipelines.antt is step.go: the pipelines that the orchestrator runs in the engine.
-- SpecGate: ResolveSpecGate of server/internal/policy/review_policy.go, which pauses a task after its
--   spec, with the tables of Status and the steps of Workflow/Pipelines.antt.
-- CredentialPool: SelectCredential, getModelCooldown and SetCooldown for a model, of
--   server/internal/service/credential_router.go. The state is the round-robin counters and the cache.
--   CredentialPool/MinCooldown.antt is GetMinCooldown there.
-- Tasks: the rows of tasks of server/pkg/models/task.go and server/internal/repository/task.go
--   (Tasks/Table.antt), with the actions that server/internal/service/task.go offers, and the
--   guardrails of server/internal/service/task_guardrail.go and applyGuardrails (Tasks/Guardrails.antt).
-- Orchestrator: server/internal/orchestrator. Orchestrator/World.antt is the state, all the tables
--   that its operations share, and the monad of operations that can fail; Tracker.antt and
--   Decomposition.antt there are tracker.go and decomposition.go with Execute, Jobs.antt the requests of
--   people, Merge.antt ApproveMerge, and Commands.antt histories of all of them with the queue's. What is
--   proved of each operation goes by Keeps.antt and Calls.antt, over the changes of rows.
--   Orchestrator/Checkpoints.antt is what the worker reads back from the checkpoints of a task,
--   Orchestrator/Worker.antt the handler OnEvent of worker.go with CLIAnalysisNeedsParallelTracks of
--   steps/cli_analyze.go, Worker/Attempts.antt the loop of attempts over the engine of Workflow, and
--   Worker/Job.antt the whole of run, with fail of recovery.go. The engine calls the handler as a
--   function of the events before, which stand for the tables: `replay` runs the handler's writes for
--   them again. Orchestrator/Reject.antt is Reject of server/internal/handler/pr.go, which deletes
--   checkpoints and enqueues a job. Both are among the commands of Commands.antt.
--   Orchestrator/Queue.antt is StartWorker of queue.go: its steps, with the goroutines as the slots that
--   they hold, over the table of JobStore.
-- TaskActions: server/internal/service/task_action.go over the orchestrator, with the requests of
--   server/internal/repository/task_action_request.go.
-- Patch: ParseSearchReplace of server/internal/orchestrator/patch/search_replace.go.
-- Providers: the rows of execution providers in server/pkg/models/project.go (Providers.antt) and the
--   router of server/internal/orchestrator/execution_router.go that chooses among them for the coder
--   and the reviewer. The registry of profiles, JSON and the pool are the fields of Router; sort.Slice
--   is the insertion that the library runs up to twelve elements, which keeps equal rows in order.
--   Providers/Routing.antt is autoEnableGlobalRouting of server/internal/service/credential_pool.go
--   with the compare and swap of server/internal/repository/organization.go.
-- RateLimit: the token buckets of server/internal/middleware/ratelimit.go.
--
-- Concurrency: the steps of a round run in goroutines that read the outputs as the round found
-- them, and the channel is read when all of them are done. Their order in the channel is the
-- parameter `arrival`, and a step's function may depend on all the events before it. The handler
-- OnEvent is a parameter of the engine too: a function of the event and the events before it, which
-- Orchestrator/Worker.antt gives.
--
-- Fuel: the loop of runInternal gets a round for each step and one more, the queue of ValidateDAG a
-- turn for each node, and autoEnableGlobalRouting its five attempts. updateTaskStatus gets one for
-- each task on the way up from a child to its parents, since only the merge of a child can merge its
-- parent. The loop of attempts goes by the attempts that are left. A round leaves fewer steps pending,
-- and a node enters the queue once.
--
-- Not modelled: contexts but for the jobs that were cancelled, the failures of the database, and a
-- step's function that changes the maps it is given. Of the worker, the recovery from a panic, the
-- rows of attempts, memories, the learning engine, the timeline on disk and the worktrees that are
-- restored from commits are left out. The run of a job is one command; its preparation, events and
-- ends are commands too, which histories interleave with the requests of people. Of the steps
-- themselves, the context builder, the prompts, the chat and the adapters there is no model: they are
-- calls of language models, of git and of files.

pub mod Base
pub mod CredentialPool
pub mod JobStore
pub mod Orchestrator
pub mod Patch
pub mod Providers
pub mod RateLimit
pub mod SpecGate
pub mod Status
pub mod TaskActions
pub mod Tasks
pub mod Workflow
