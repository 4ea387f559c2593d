-- ===== src/JobStore/Stuck.antt =====
-- Jobs of the queue of server/internal/repository/workflow.go that have run for ten minutes without a
-- write to their row.
use auto_dev_os.Base.{
  ℕ, ◌+◌, ◌<◌, String, ◌≡◌, refl, ap, Bool, true, false, [], ◌∷◌, Memᴰ, arith, none, ◌==◌, eq_self,
  if◌then◌else◌,
}
use auto_dev_os.Status.Job.{queued, running}
use auto_dev_os.JobStore.{
  Job, Store, update_where, ten_minutes, is_stuck, reset_stuck_jobs, is_due, wake_sleeping_jobs,
}

-- The row of the job that waits to be claimed.
abbrev pub Waits : String → Store → Type 0
Waits ident s = (row : Job) × Memᴰ row s × (row.ident ≡ ident) × (row.status ≡ queued)

mem-update_where :
    (test : Job → Bool) (change : Job → Job) (now : ℕ) (s : Store) {job : Job}
    → Memᴰ job s
    → Memᴰ
        (if test job then record (change job) { updated_at = now } else job)
        (update_where test change now s)
unfolding update_where
mem-update_where test change now [] m = elim m [ ]
mem-update_where test change now (x ∷ rest) (Memᴰ.head e) =
    Memᴰ.head (ap (λ j. if test j then record (change j) { updated_at = now } else j) e)
mem-update_where test change now (x ∷ rest) (Memᴰ.tail m) =
    Memᴰ.tail (mem-update_where test change now rest m)

stuck_test :
    (now : ℕ) (job : Job)
    → job.status ≡ running
    → job.updated_at + ten_minutes < now
    → is_stuck now job ≡ true
unfolding is_stuck
stuck_test now job runs late = ground (arith, runs, late, eq_self running)

not_due : (now : ℕ) (row : Job) → row.status ≡ queued → is_due now row ≡ false
unfolding is_due ◌==◌
not_due now row waits = rw (waits, is_due) refl

-- A tick of the worker's clock puts a job that runs back into the queue if its row has not been
-- written for ten minutes, whether or not the job still runs.
pub stuck-Waits :
    (now : ℕ) (s : Store) (job : Job)
    → Memᴰ job s
    → job.status ≡ running
    → job.updated_at + ten_minutes < now
    → Waits job.ident (wake_sleeping_jobs now (reset_stuck_jobs now s).0)
unfolding wake_sleeping_jobs reset_stuck_jobs
stuck-Waits now s job m runs late =
    let reset = mem-update_where (is_stuck now) (λ j. record j { status = queued }) now s m in
    let row : Job = record job { status = queued; updated_at = now } in
    let listed : Memᴰ row (reset_stuck_jobs now s).0 = rw (stuck_test now job runs late) at reset in
    let woken =
      mem-update_where (is_due now) (λ j. record j { status = queued; sleep_until = none }) now _
        listed in
    (row, rw (not_due now row refl) at woken, refl, refl)
