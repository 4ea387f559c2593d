-- ===== src/JobStore/Finished.antt =====
-- server/internal/repository/workflow.go: the operations of the queue on a finished job.
use auto_dev_os.Base.{ℕ, String, ◌≡◌, ◌≢◌, ◌⊎◌, List, All}
use auto_dev_os.Status.Job.{done, failed}
use auto_dev_os.JobStore.{Job, Store, Operation, enqueues}

abbrev pub IsFinal : String → Type 0
IsFinal status = (status ≡ done) ⊎ (status ≡ failed)

-- Every row of the job has finished.
abbrev pub IsFinished : String → Store → Type 0
IsFinished i s = All (λ job. job.ident ≡ i → IsFinal job.status) s

-- No operation of the history makes a job of that name.
abbrev pub MakesNo : String → List (Operation × ℕ) → Type 0
MakesNo i history = All (λ entry. (task_id : String) → entry.0 ≢ enqueues i task_id) history
