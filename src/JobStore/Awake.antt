-- ===== src/JobStore/Awake.antt =====
-- server/internal/repository/workflow.go: the status `sleeping` in the table of jobs.
use auto_dev_os.Base.{
  ℕ, String, ◌≡◌, refl, subst, ◌≢◌, inl, inr, Bool, none, some, List, [], ◌∷◌, arith, ◌==◌, eq_iff,
  Bool-cases, Option-cases, All, All-append, ne_of_eq-false,
}
use auto_dev_os.Status.Job.{queued, running, sleeping}
use auto_dev_os.Status.Job.Edges.{validate_job-sleeping}
use auto_dev_os.JobStore.{
  Job, Store, Updates, Operation, enqueue, update_where, claim_next, update_job, validate_update,
  find_job, apply_updates, is_due, wake_sleeping_jobs, has_ident, reset_stuck_jobs,
  reset_all_running_jobs, apply, run, enqueues, claims, wakes, resets_stuck, resets_all, updates,
  oldest_queued,
}

abbrev pub IsAwake : Job → Type 0
IsAwake job = job.status ≢ sleeping

update_where-All :
    (test : Job → Bool) (change : Job → Job) (now : ℕ) (s : Store)
    → ((job : Job) → IsAwake job → IsAwake (change job))
    → All IsAwake s
    → All IsAwake (update_where test change now s)
unfolding update_where
update_where-All test change now [] keep h = tt
update_where-All test change now (job ∷ rest) keep (awake, more) = (
  elim (Bool-cases (test job)) [ inl hit ↦ rw hit (keep job awake) | inr miss ↦ rw miss awake ],
  update_where-All test change now rest keep more,
)

queued-awake : queued ≢ sleeping
queued-awake = ne_of_eq-false (unfold ◌==◌ in refl)

running-awake : running ≢ sleeping
running-awake = ne_of_eq-false (unfold ◌==◌ in refl)

find_job-IsAwake :
    (ident : String) (s : Store) {job : Job}
    → All IsAwake s
    → find_job ident s ≡ some job
    → IsAwake job
unfolding find_job
find_job-IsAwake ident [] h e = cc
find_job-IsAwake ident (job ∷ rest) (awake, more) e = elim (Bool-cases (job.ident == ident)) [
  | inl hit ↦ λ asleep. awake (ground arith)
  | inr miss ↦ find_job-IsAwake ident rest more (rw miss at e)
]

-- A status that `UpdateJob` lets through is not `sleeping`.
validated-awake :
    (ident new : String) (s : Store)
    → All IsAwake s
    → validate_update (some new) (find_job ident s) ≡ none
    → new ≢ sleeping
unfolding validate_update
validated-awake ident new s h ok asleep = elim (Option-cases (find_job ident s)) [
  | inl absent ↦ ground arith
  | inr (current, found) ↦
      validate_job-sleeping current.status (find_job-IsAwake ident s h found) (ground arith)
]

apply_updates-IsAwake :
    (u : Updates) (job : Job)
    → ((new : String) → u.status ≡ some new → new ≢ sleeping)
    → IsAwake job
    → IsAwake (apply_updates u job)
unfolding apply_updates
apply_updates-IsAwake u job ok awake = elim (Option-cases u.status) [
  | inl kept ↦ rw kept awake
  | inr (new, given) ↦ rw given (ok new given)
]

update_job-All :
    (ident : String) (u : Updates) (now : ℕ) (s : Store)
    → All IsAwake s
    → All IsAwake (update_job ident u now s).0
unfolding update_job
update_job-All ident u now s h = elim (Option-cases (validate_update u.status (find_job ident s))) [
  | inr (error, refusal) ↦ rw (refusal, update_job) h
  | inl passed ↦
      rw (passed, update_job)
        (update_where-All (has_ident ident) (apply_updates u) now s
          (λ job. apply_updates-IsAwake u job (λ new given.
            validated-awake ident new s h
              (subst (λ x. validate_update x (find_job ident s) ≡ none) given passed)))
          h)
]

claim_next-All : (now : ℕ) (s : Store) → All IsAwake s → All IsAwake (claim_next now s).0
unfolding claim_next
claim_next-All now s h = elim (Option-cases (oldest_queued s)) [
  | inl empty ↦ rw (empty, claim_next) h
  | inr (job, oldest) ↦
      rw (oldest, claim_next) (update_where-All _ _ now s (λ _ _. running-awake) h)
]

apply-All : (op : Operation) (now : ℕ) (s : Store) → All IsAwake s → All IsAwake (apply op now s)
unfolding apply wake_sleeping_jobs reset_stuck_jobs reset_all_running_jobs enqueue
apply-All (enqueues ident task_id) now s h = All-append IsAwake s _ h (queued-awake, tt)
apply-All claims now s h = claim_next-All now s h
apply-All wakes now s h = update_where-All _ _ now s (λ _ _. queued-awake) h
apply-All resets_stuck now s h = update_where-All _ _ now s (λ _ _. queued-awake) h
apply-All resets_all now s h = update_where-All _ _ now s (λ _ _. queued-awake) h
apply-All (updates ident u) now s h = update_job-All ident u now s h

run-All : (history : List (Operation × ℕ)) (s : Store) → All IsAwake s → All IsAwake (run history s)
unfolding run
run-All [] s h = h
run-All ((op, now) ∷ rest) s h = run-All rest (apply op now s) (apply-All op now s h)

wake_idle : (now : ℕ) (s : Store) → All IsAwake s → wake_sleeping_jobs now s ≡ s
unfolding wake_sleeping_jobs update_where is_due
wake_idle now [] h = refl
wake_idle now (job ∷ rest) (awake, more) =
    ground (arith, eq_iff job.status sleeping, wake_idle now rest more)

-- After any history of operations no job of the table is sleeping, and waking changes nothing.
pub run_never_sleeps :
    (history : List (Operation × ℕ)) (now : ℕ)
    → All IsAwake (run history []) × (wake_sleeping_jobs now (run history []) ≡ run history [])
run_never_sleeps history now =
    let awake = run-All history [] tt in (awake, wake_idle now (run history []) awake)
