-- ===== src/Orchestrator/Merge.antt =====
-- `ApproveMerge` of server/internal/orchestrator/orchestrator.go. The client of the Git host and
-- `strings` are parameters; the clean-up of the workspace is left out.
use auto_dev_os.Base.{
  String, Bool, true, false, ◌||◌, Option, none, some, List, [], ◌∷◌, ◌==◌, if◌then◌else◌,
}
use auto_dev_os.Status.Job.{paused, done}
use auto_dev_os.Status.Task.{pr_ready, human_review, merged}
use auto_dev_os.Tasks.Table.{Task}
use auto_dev_os.Orchestrator.World.{
  Env, Op, message, pure, fail, ◌>>=◌, ◌>>◌, attempt, asks, get_task, latest_of, change_job,
  create_checkpoint, blank_state,
}
use auto_dev_os.Orchestrator.Tracker.{log}
use auto_dev_os.Orchestrator.Decomposition.{StatusUpdate}

-- `GitOpsClient`, as far as `ApproveMerge` uses it, with the addresses of a project's repositories
-- and the test that a pull request belongs to one.
pub record GitOps : Type 0 where
  pub repositories : String → List String
  pub belongs : (pr_url repo_url : String) → Bool
  pub merge_pull_request : (repo_url pr_url : String) → Bool
  pub is_pull_request_merged : (repo_url pr_url : String) → Bool

unfoldable pub match_repo : GitOps → String → List String → Option String
match_repo git url [] = none
match_repo git url (repo ∷ rest) =
    if git.belongs url repo then some repo else match_repo git url rest

unfoldable pub merge_all : Env → GitOps → Task → List String → Op (Unit {0})
merge_all env git task [] = pure tt
merge_all env git task (url ∷ rest) = elim (match_repo git url (git.repositories task.project_id)) [
  | none ↦ fail (message "no matching repository found for PR URL")
  | some repo ↦
      if git.merge_pull_request repo url || git.is_pull_request_merged repo url
      then (log env task.ident >> merge_all env git task rest)
      else (log env task.ident >> fail (message "failed to merge PR"))
]

unfoldable pub is_empty : List String → Bool
is_empty [] = true
is_empty (_ ∷ _) = false

-- The job of a task that has been merged.
unfoldable pub finish_job : Env → String → Op (Unit {0})
finish_job env id = do
  latest ← asks (λ w. latest_of id w.jobs)
  elim latest [
    | none ↦ pure tt
    | some job ↦
        if job.status == paused
        then (do
          _ ← attempt (
              change_job env job.ident (record {
                status = some done;
                step = some "done";
                last_error = some "";
                agent_id = none;
                sleep_until = none;
              }))
          create_checkpoint id "done" blank_state)
        else pure tt
  ]

-- `ApproveMerge`; without a client nothing is merged at the host.
unfoldable pub approve_merge : Env → StatusUpdate → Option GitOps → String → Op Task
approve_merge env update_status git id = do
  task ← get_task id
  if task.status == human_review || task.status == pr_ready
      then pure tt
      else fail (message "task is not waiting for human PR approval")
  if is_empty task.pr_urls
      then fail (message "cannot approve merge: no PR has been created for this task yet")
      else pure tt
  elim git [ none ↦ pure tt | some client ↦ merge_all env client task task.pr_urls ]
  updated ← update_status id merged
  finish_job env id
  log env id
  pure updated
