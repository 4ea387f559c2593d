-- ===== src/JobStore/Examples.antt =====
-- The queue of jobs at concrete tables.
use auto_dev_os.Base.{ℕ, String, ◌≡◌, refl, ◌⊎◌, ◌≢◌, none, some, List, [], ◌∷◌, All, ◌==◌}
use auto_dev_os.Status.Job.{done, queued, sleeping}
use auto_dev_os.JobStore.{
  Job, Store, Operation, claim_next, oldest_queued, older, update_where, has_ident,
  wake_sleeping_jobs, run, enqueues, claims, updates, wakes,
}
use auto_dev_os.JobStore.Claim.{IsOldest, claim_next-IsOldest, claim_next-exclusive}
use auto_dev_os.JobStore.Awake.{IsAwake, run_never_sleeps}

abbrev waiting : String → ℕ → Job
waiting ident created_at = record {
  ident = ident;
  task_id = "task";
  agent_id = none;
  status = queued;
  step = "analyze";
  attempts = 0;
  last_error = "";
  sleep_until = none;
  created_at = created_at;
  updated_at = created_at;
}

abbrev two_jobs : Store
two_jobs = waiting "new" 20 ∷ waiting "old" 10 ∷ []

claim_next-IsOldest_example :
    ((job : Job) × IsOldest job two_jobs × ((claim_next 30 two_jobs).1 ≡ some job.ident))
    ⊎ (All (λ job. job.status ≢ queued) two_jobs × (claim_next 30 two_jobs ≡ (two_jobs, none)))
claim_next-IsOldest_example = claim_next-IsOldest 30 two_jobs

first_claim : (claim_next 30 two_jobs).1 ≡ some "old"
unfolding claim_next oldest_queued older ◌==◌
first_claim = refl

second_claim : (claim_next 31 (claim_next 30 two_jobs).0).1 ≡ some "new"
unfolding claim_next oldest_queued older update_where has_ident ◌==◌
second_claim = refl

claim_next-exclusive_example : ◌≢◌ {A = String} "old" "new"
claim_next-exclusive_example = claim_next-exclusive 30 31 two_jobs first_claim second_claim

-- A job is claimed, put to sleep as the worker does it, and woken.
abbrev history : List (Operation × ℕ)
history =
    (enqueues "job" "task", 1)
    ∷ (claims, 2)
    ∷ (
      updates "job" (record {
        status = some sleeping;
        step = none;
        last_error = none;
        agent_id = none;
        sleep_until = some 60;
      }),
      3,
    )
    ∷ (wakes, 100)
    ∷ []

run_never_sleeps_example :
    All IsAwake (run history []) × (wake_sleeping_jobs 200 (run history []) ≡ run history [])
run_never_sleeps_example = run_never_sleeps history 200

abbrev finished_jobs : Store
finished_jobs = record (waiting "old" 10) { status = done } ∷ waiting "new" 20 ∷ []
