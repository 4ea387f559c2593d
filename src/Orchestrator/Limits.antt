-- ===== src/Orchestrator/Limits.antt =====
-- `applyGuardrails` in server/internal/orchestrator/tracker.go: the limits on fixes and on time,
-- after one update of a status and for a retry.
use auto_dev_os.Base.{
  ℕ, zero, suc, ◌+◌, ◌*◌, ◌≤◌, String, ◌≡◌, refl, sym, ◌∙◌, subst, ap, Bool, true, false, Option,
  none, some, arith, ◌==◌, Bool-cases, Option-cases, if◌then◌else◌, inl, inr, ltb, leb,
}
use auto_dev_os.Base.Int.{pos}
use auto_dev_os.Status.Task.{blocked, todo}
use auto_dev_os.Tasks.Table.{Task, write_input, or_kept}
use auto_dev_os.Tasks.Guardrails.{
  Project, positive_or, eval_max_retries, eval_execution_timeout, minute, retry_count_after,
  started_after, is_exempt, block_reason_of, apply_guardrails,
}
use auto_dev_os.Orchestrator.World.{
  World, Env, Op, Result, Failure, failed, ok, pure, after, ◌>>=◌, ◌>>◌,
}
use auto_dev_os.Orchestrator.Tracker.{write_status}
use auto_dev_os.Orchestrator.Decomposition.{status_step, update_task_status}
use auto_dev_os.Orchestrator.Outcome.{guarded_input, guarded_status, write_status-cases}

-- The guardrails of a project let a task with these counts through.
pub record Within (now : ℕ) (project : Option Project) (retry_count : ℕ) (started : Option ℕ)
    : Type 0 where
  pub retries :
      (limit : ℕ)
      → positive_or 5 (λ p. p.max_task_retry_count) project ≡ pos (suc limit)
      → retry_count ≤ limit
  pub time :
      (minutes start : ℕ)
      → positive_or 120 (λ p. p.max_execution_minutes) project ≡ pos (suc minutes)
      → started ≡ some start
      → now ≤ start + suc minutes * minute

module _ (now : ℕ) (project : Option Project) (task : Task) (new : String) where
  abbrev pub too_many : Bool
  too_many =
      eval_max_retries (retry_count_after task new)
        (positive_or 5 (λ p. p.max_task_retry_count) project)

  abbrev pub too_late : Bool
  too_late =
      eval_execution_timeout (started_after now task) now
        (positive_or 120 (λ p. p.max_execution_minutes) project)

  -- The status that is written, by the reason to block.
  status_of_reason :
      (reason status : String)
      → block_reason_of now project task new ≡ reason
      → (if reason == "" then new else blocked) ≡ status
      → (apply_guardrails now project task new).1 ≡ status
  unfolding apply_guardrails
  status_of_reason reason status e f = ap (λ r. if r == "" then new else blocked) e ∙ f

  pub blocked_of_too_many :
      is_exempt new ≡ false → too_many ≡ true → (apply_guardrails now project task new).1 ≡ blocked
  unfolding block_reason_of
  blocked_of_too_many open_ over =
      status_of_reason "max_retries_exceeded" blocked (rw (open_, over) refl) (unfold ◌==◌ in refl)

  pub blocked_of_too_late :
      is_exempt new ≡ false
      → too_many ≡ false
      → too_late ≡ true
      → (apply_guardrails now project task new).1 ≡ blocked
  unfolding block_reason_of
  blocked_of_too_late open_ few over =
      status_of_reason "execution_timeout" blocked (rw (open_, few, over) refl)
        (unfold ◌==◌ in refl)

  exempt_blocked : is_exempt blocked ≡ true
  unfolding is_exempt ◌==◌
  exempt_blocked = refl

  new_of_exempt : is_exempt new ≡ true → (apply_guardrails now project task new).1 ≡ new
  unfolding block_reason_of
  new_of_exempt exempt = status_of_reason "" new (rw exempt refl) (unfold ◌==◌ in refl)

  unblocked :
      is_exempt (apply_guardrails now project task new).1 ≡ false
      → (too_many ≡ false) × (too_late ≡ false)
  unblocked open_ = elim (Bool-cases (is_exempt new)) [
    | inl exempt ↦ absurd (clash (new_of_exempt exempt) exempt)
    | inr other ↦ elim (Bool-cases too_many) [
      | inl over ↦ absurd (clash (blocked_of_too_many other over) exempt_blocked)
      | inr few ↦ elim (Bool-cases too_late) [
        | inl over ↦ absurd (clash (blocked_of_too_late other few over) exempt_blocked)
        | inr soon ↦ (few, soon)
      ]
    ]
  ]
    where
      clash : {s : String} → (apply_guardrails now project task new).1 ≡ s → is_exempt s ≡ true → ⊥
      clash e h = cc (sym h ∙ ap is_exempt (sym e) ∙ open_)

started_kept :
    (now : ℕ) (task : Task)
    → or_kept (started_after now task) task.execution_started_at ≡ started_after now task
unfolding started_after
started_kept now task = elim (Option-cases task.execution_started_at) [
  | inl none_yet ↦ rw none_yet (kept_none (if task.status == todo then some now else none))
  | inr (t, set) ↦ rw set refl
]
  where
    kept_none : (o : Option ℕ) → or_kept o none ≡ o
    kept_none none = refl
    kept_none (some t) = refl

in_time :
    (now : ℕ) (project : Option Project) (started : Option ℕ) (minutes start : ℕ)
    → eval_execution_timeout started now (positive_or 120 (λ p. p.max_execution_minutes) project)
      ≡ false
    → positive_or 120 (λ p. p.max_execution_minutes) project ≡ pos (suc minutes)
    → started ≡ some start
    → now ≤ start + suc minutes * minute
unfolding eval_execution_timeout
in_time now project started minutes start soon limit set =
    let late : ltb (start + suc minutes * minute) now ≡ false = rw (limit, set) at soon in
    ground (arith, late)

few_enough :
    (count : ℕ) (project : Option Project) (limit : ℕ)
    → eval_max_retries count (positive_or 5 (λ p. p.max_task_retry_count) project) ≡ false
    → positive_or 5 (λ p. p.max_task_retry_count) project ≡ pos (suc limit)
    → count ≤ limit
unfolding eval_max_retries
few_enough count project limit few e =
    let below : leb (suc limit) count ≡ false = rw e at few in ground (arith, below)

-- A status update that ends with a task that is not blocked, failed or merged.
written-Within :
    (env : Env) (task : Task) (new : String)
    → is_exempt (guarded_status env task new) ≡ false
    → Within env.now
        (env.project task.project_id)
        (write_input (guarded_input env task new) task).retry_count
        (write_input (guarded_input env task new) task).execution_started_at
unfolding write_input apply_guardrails
written-Within env task new open_ =
    let (few, soon) = unblocked env.now (env.project task.project_id) task new open_ in
    record {
      retries = λ limit e. few_enough _ _ limit few e;
      time = λ minutes start e f.
          in_time env.now _ _ minutes start soon e (sym (started_kept env.now task) ∙ f);
    }

after_pure :
    (x : World × Result (Unit {0})) (a b : Task) → (after x (λ _ w. (w, ok a))).1 ≡ ok b → a ≡ b
after_pure (w, failed e) a b h = cc
after_pure (w, ok tt) a b h = cc

pub after-ok :
    (x : World × Result Task) (f : Task → Op Task) {b : Task}
    → (after x f).1 ≡ ok b
    → (a : Task) × ((x.1 ≡ ok a) × ((f a x.0).1 ≡ ok b))
after-ok (w, failed e) f h = cc
after-ok (w, ok a) f h = (a, (refl, h))

write_status-Within :
    (env : Env) (id new : String) (w : World) (updated : Task)
    → (write_status env id new w).1 ≡ ok updated
    → is_exempt updated.status ≡ false
    → Within env.now
        (env.project updated.project_id)
        updated.retry_count
        updated.execution_started_at
unfolding write_input
write_status-Within env id new w updated h open_ = elim (write_status-cases env id new w) [
  | inl (e, refused) ↦ absurd (refuted e (sym (ap (λ x. x.1) refused) ∙ h))
  | inr written ↦
      let same : write_input (guarded_input env written.task new) written.task ≡ updated =
        ok-injective (sym (ap (λ x. x.1) written.result) ∙ h) in
      subst
        (λ t.
          is_exempt t.status ≡ false
          → Within env.now (env.project t.project_id) t.retry_count t.execution_started_at)
        same (written-Within env written.task new) open_
]
  where
    refuted : (e : Failure) → failed e ≡ ok updated → ⊥
    refuted e eq = cc

    ok-injective : {a b : Task} → ok a ≡ ok b → a ≡ b
    ok-injective eq = cc

-- A status update that answers with a task that is not blocked, failed or merged has kept within
-- the limits of the task's project, or the defaults of 5 and 120 without one: the count of fixes
-- is below the first, and no more than the second in minutes has passed since the task was
-- started.
pub update-Within :
    (fuel : ℕ) (env : Env) (id new : String) (w : World) (updated : Task)
    → (update_task_status fuel env id new w).1 ≡ ok updated
    → is_exempt updated.status ≡ false
    → Within env.now
        (env.project updated.project_id)
        updated.retry_count
        updated.execution_started_at
unfolding update_task_status status_step ◌>>=◌ ◌>>◌ pure
update-Within zero env id new w updated h open_ = cc
update-Within (suc n) env id new w updated h open_ =
    let (first, (wrote, rest)) = after-ok (write_status env id new w) _ h in
    let same : first ≡ updated = after_pure _ first updated rest in
    write_status-Within env id new w updated (wrote ∙ ap ok same) open_
