-- ===== src/Orchestrator/Sample.antt =====
-- One task, a table with it alone, and readings of the clock.
use auto_dev_os.Base.{ℕ, String, Option, none, [], ◌∷◌, false}
use auto_dev_os.Base.Int.{pos}
use auto_dev_os.Tasks.Table.{Task}
use auto_dev_os.Orchestrator.World.{World, Env}

abbrev pub task_of : String → Option ℕ → Task
task_of status started = record {
  ident = "a";
  project_id = "p";
  parent_task_id = none;
  description = "";
  status = status;
  priority = pos 0;
  spec_status = "none";
  pr_urls = [];
  sequence_index = none;
  decomposition_mode = none;
  blocked_child_id = none;
  retry_count = 0;
  execution_started_at = started;
  block_reason = "";
  created_at = 0;
}

abbrev pub world_of : Task → World
world_of task = record {
  tasks = task ∷ [];
  jobs = [];
  checkpoints = [];
  requests = [];
  logs = 0;
  job_cancels = [];
  cancelled = [];
  released = [];
  out_of_fuel = false;
}

-- No project is found, and no events are counted.
abbrev pub env_at : ℕ → Env
env_at now = record {
  now = now;
  fresh = λ n. "job";
  project = λ id. none;
  event_count = λ n id. none;
}
