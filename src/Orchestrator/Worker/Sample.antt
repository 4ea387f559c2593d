-- ===== src/Orchestrator/Worker/Sample.antt =====
-- A worker whose steps all have no function, and a task whose steps have all succeeded before.
use auto_dev_os.Base.{String, Bool, false, none, some, List, [], ◌∷◌, ◌==◌, ◌&&◌}
use auto_dev_os.Status.Task.{human_review}
use auto_dev_os.Workflow.Step.{success}
use auto_dev_os.Workflow.Sample.{as_listed}
use auto_dev_os.Orchestrator.World.{World, Checkpoint, blank_state}
use auto_dev_os.Orchestrator.Sample.{task_of, world_of, env_at}
use auto_dev_os.Orchestrator.Worker.{Worker}
use auto_dev_os.Orchestrator.Worker.Attempts.{Run}

abbrev pub idle_worker : Worker
idle_worker = record {
  env = env_at 5;
  assign = λ task job. some "agent";
  clone_fails = λ task. none;
  mark_running_fails = λ agent. none;
  runners = λ number. [];
  arrival = λ number events items. items;
  ranged = as_listed;
  analysis = λ number events. record { spec_hash = ""; files = [] };
  is_frontend_file = λ file. false;
  has_subtasks = λ output. false;
  git_checkpoint = λ step. none;
  review_harness_policy = none;
  project_max_retries = none;
  complexity = "easy";
  resume_session = λ number. none;
  json = λ output. output;
  has_prefix = λ text prefix. text == prefix;
  contains = λ text part. text == part;
  text_of = λ e. "error";
  failure_text = λ e. "failure";
}

abbrev pub idle_run : Run
idle_run = record {
  worker = idle_worker;
  task_id = "a";
  job_id = "job";
  agent_id = "agent";
  step = "analyze";
  is_parallel = false;
  resumed = "";
}

abbrev pub succeeded : String → Checkpoint
succeeded step = record {
  task_id = "a";
  step = step;
  state = record blank_state { status = success };
}

abbrev pub all_succeeded : List Checkpoint
all_succeeded =
    succeeded "cli_analyze"
    ∷ succeeded "cli_spec"
    ∷ succeeded "cli_implement"
    ∷ succeeded "cli_mr"
    ∷ []

-- The task waits for a person to look at its pull request.
abbrev pub reviewed : World
reviewed = record (world_of (task_of human_review none)) { checkpoints = all_succeeded }

-- The test of a text by the one pattern that matters here.
abbrev pub like_pattern : String → String → Bool
like_pattern text pattern = text == "pr_rejection" && pattern == "pr_%"
