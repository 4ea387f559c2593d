-- ===== src/Orchestrator/Retry.antt =====
-- `RetryFromLastStep` in server/internal/orchestrator/orchestrator.go, behind `applyGuardrails`.
use auto_dev_os.Base.{
  ℕ, zero, suc, ◌+◌, ◌*◌, ◌<◌, String, ◌≡◌, refl, sym, subst, none, some, List, arith, ◌==◌,
  Bool-cases, ◌⊎◌, inl, inr,
}
use auto_dev_os.Base.Int.{pos}
use auto_dev_os.Status.Table.{validate_in, allows}
use auto_dev_os.Base.Dict.{lookup}
use auto_dev_os.Status.Task.{
  blocked, failed as task_failed, analyzing, validate_task_transition, start_of,
}
use auto_dev_os.Tasks.Table.{Task, find_task}
use auto_dev_os.Tasks.Guardrails.{
  positive_or, eval_max_retries, eval_execution_timeout, minute, retry_count_after, started_after,
  is_exempt,
}
use auto_dev_os.Orchestrator.World.{
  World, Env, Op, Result, Failure, failed, ok, wrapped, fail, after, ◌>>=◌, ◌>>◌, attempt,
}
use auto_dev_os.Orchestrator.Tracker.{write_status}
use auto_dev_os.Orchestrator.Decomposition.{status_step, update_task_status}
use auto_dev_os.Orchestrator.Jobs.{retry_from_last_step, wrap_error}
use auto_dev_os.Orchestrator.Outcome.{guarded_status, write_status-cases}
use auto_dev_os.Orchestrator.Keeps.{FrameRule, Keeps, get_task-Keeps, require-Keeps}
use auto_dev_os.Orchestrator.Calls.{supersede-Keeps}
use auto_dev_os.Orchestrator.Limits.{too_many, blocked_of_too_many, blocked_of_too_late}

-- The task has used up what the limits of its project, or the defaults, leave it.
abbrev pub IsSpent : Env → Task → Type 0
IsSpent env task =
    ((limit : ℕ) × ((positive_or 5 (λ p. p.max_task_retry_count) (env.project task.project_id)
          ≡ pos (suc limit))
        × (limit < task.retry_count)))
    ⊎ ((start minutes : ℕ) × ((task.execution_started_at ≡ some start)
          × ((positive_or 120 (λ p. p.max_execution_minutes) (env.project task.project_id)
                ≡ pos (suc minutes))
              × (start + suc minutes * minute < env.now))))

-- An operation has failed and left the tasks as they were.
record FailedAt {A : Type 0} (tasks : List Task) (x : World × Result A) : Type 0 where
  failure : Failure
  fails : x.1 ≡ failed failure
  quiet : x.0.tasks ≡ tasks

module _ {A B : Type 0} (tasks : List Task) (f : A → Op B) where
  first_fails : (x : World × Result A) → FailedAt tasks x → FailedAt tasks (after x f)
  first_fails (w, failed e) h = record { failure = e; fails = refl; quiet = h.quiet }
  first_fails (w, ok a) h = cc (h.fails)

  rest_fails :
      (x : World × Result A)
      → x.0.tasks ≡ tasks
      → ((a : A) (v : World) → v.tasks ≡ tasks → FailedAt tasks (f a v))
      → FailedAt tasks (after x f)
  rest_fails (w, failed e) same rest = record { failure = e; fails = refl; quiet = same }
  rest_fails (w, ok a) same rest = rest a w same

-- The operation fails on these tasks.
Fails : {A : Type 0} → List Task → Op A → Type 0
Fails tasks m = (w : World) → w.tasks ≡ tasks → FailedAt tasks (m w)

abbrev Same : List Task → World → Type 0
Same tasks w = w.tasks ≡ tasks

Same-frame : (tasks : List Task) → FrameRule (Same tasks)
Same-frame tasks = record {
  on_jobs = λ w jobs h. h;
  on_logs = λ w logs h. h;
  on_cancelled = λ w cancelled h. h;
  on_released = λ w released h. h;
  on_fuel = λ w h. h;
}

module _ {A B : Type 0} (tasks : List Task) where
  bind_first : (m : Op A) (f : A → Op B) → Fails tasks m → Fails tasks (m >>= f)
  unfolding Fails ◌>>=◌
  bind_first m f h w same = first_fails tasks f (m w) (h w same)

  bind_rest :
      (m : Op A) (f : A → Op B)
      → Keeps (Same tasks) m
      → ((a : A) → Fails tasks (f a))
      → Fails tasks (m >>= f)
  unfolding Fails ◌>>=◌ Keeps
  bind_rest m f keeps rest w same = rest_fails tasks f (m w) (keeps w same) rest

  then_rest : (m : Op A) (k : Op B) → Keeps (Same tasks) m → Fails tasks k → Fails tasks (m >> k)
  unfolding ◌>>◌
  then_rest m k keeps rest = bind_rest m (λ _. k) keeps (λ _. rest)

wrapped_fails :
    {A : Type 0} (tasks : List Task) (text : String) (m : Op A) (w : World)
    → FailedAt tasks (m w)
    → FailedAt tasks (wrap_error text m w)
unfolding wrap_error attempt ◌>>=◌ fail
wrapped_fails tasks text m w h = record {
  failure = wrapped text h.failure;
  fails = rw (h.fails) refl;
  quiet = rw (h.fails) h.quiet;
}

spent_blocked :
    (env : Env) (task : Task)
    → task.status ≡ task_failed
    → IsSpent env task
    → guarded_status env task analyzing ≡ blocked
unfolding eval_max_retries eval_execution_timeout retry_count_after started_after is_exempt ◌==◌
spent_blocked env task is_failed (inl (limit, (set, over))) =
    blocked_of_too_many env.now (env.project task.project_id) task analyzing refl
      (rw (is_failed, set) (ground arith))
spent_blocked env task is_failed (inr (start, minutes, (started, (set, over)))) =
    elim (Bool-cases (too_many env.now (env.project task.project_id) task analyzing)) [
      | inl many ↦
          blocked_of_too_many env.now (env.project task.project_id) task analyzing refl many
      | inr few ↦
          blocked_of_too_late env.now (env.project task.project_id) task analyzing refl few
            (rw (started, set) (ground arith))
    ]

blocked_refused : ¬ (validate_task_transition task_failed blocked ≡ none)
unfolding validate_task_transition validate_in start_of lookup allows ◌==◌
blocked_refused h = cc

module _ (env : Env) (id : String) (task : Task) (is_failed : task.status ≡ task_failed)
    (spent : IsSpent env task) where
  update_fails :
      (fuel : ℕ) (v : World)
      → find_task id v.tasks ≡ some task
      → FailedAt v.tasks (update_task_status fuel env id analyzing v)
  unfolding update_task_status status_step ◌>>=◌
  update_fails zero v found = record { failure = _; fails = refl; quiet = refl }
  update_fails (suc n) v found = elim (write_status-cases env id analyzing v) [
    | inl (e, refused) ↦
        first_fails v.tasks _ (write_status env id analyzing v)
          (record { failure = e; fails = rw refused refl; quiet = rw refused refl })
    | inr written ↦ absurd (
        let same : written.task ≡ task = cc in
        blocked_refused (
          subst (λ s. validate_task_transition s blocked ≡ none) is_failed
            (subst (λ s. validate_task_transition task.status s ≡ none)
              (spent_blocked env task is_failed spent)
              (subst
                (λ t. validate_task_transition t.status (guarded_status env t analyzing) ≡ none)
                same written.accepted))))
  ]

  wrap-Fails :
      (fuel : ℕ) (tasks : List Task) (text : String)
      → find_task id tasks ≡ some task
      → Fails tasks (wrap_error text (update_task_status fuel env id analyzing))
  unfolding Fails
  wrap-Fails fuel tasks text found w same =
      wrapped_fails tasks text (update_task_status fuel env id analyzing) w (
        subst (λ ts. FailedAt ts (update_task_status fuel env id analyzing w)) same
          (update_fails fuel w (subst (λ ts. find_task id ts ≡ some task) (sym same) found)))

  retry-Fails :
      (fuel : ℕ) (tasks : List Task)
      → find_task id tasks ≡ some task
      → Fails tasks (retry_from_last_step env (update_task_status fuel env) id)
  unfolding retry_from_last_step
  retry-Fails fuel tasks found = bind_rest tasks _ _ (get_task-Keeps (Same tasks) id) (λ t.
      then_rest tasks _ _ (require-Keeps (Same tasks) _ _) (
        then_rest tasks _ _ (supersede-Keeps (Same tasks) (Same-frame tasks) env id)
          (bind_first tasks _ _ (wrap-Fails fuel tasks _ found))))

  -- A failed task that has used up its fixes or its time cannot be retried: the request fails, and
  -- the tasks are left as they were.
  pub retry_spent :
      (fuel : ℕ) (w : World)
      → find_task id w.tasks ≡ some task
      → ((e : Failure) × ((retry_from_last_step env (update_task_status fuel env) id w).1
            ≡ failed e))
        × ((retry_from_last_step env (update_task_status fuel env) id w).0.tasks ≡ w.tasks)
  unfolding Fails
  retry_spent fuel w found =
      let h = retry-Fails fuel w.tasks found w refl in ((h.failure, h.fails), h.quiet)
