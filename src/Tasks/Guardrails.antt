-- ===== src/Tasks/Guardrails.antt =====
-- server/internal/service/task_guardrail.go and `applyGuardrails` of
-- server/internal/orchestrator/tracker.go, without the event that tells of a block. Times are
-- nanoseconds, and one operation takes one reading of the clock.
use auto_dev_os.Base.{
  ℕ, suc, ◌+◌, ◌*◌, ◌^◌, String, Bool, false, ◌&&◌, ◌||◌, Option, none, some, List, ◌==◌, ltb, leb,
  any, if◌then◌else◌,
}
use auto_dev_os.Base.Int.{ℤ, pos}
use auto_dev_os.Status.Task.{
  todo, fixing, testing, reviewing, pr_ready, human_review, merged, failed, blocked,
}
use auto_dev_os.Tasks.Table.{Task, UpdateTaskInput, no_input}

-- The columns of `Project` that the guardrails and the limits on loops read.
pub record Project : Type 0 where
  pub max_task_retry_count : ℤ
  pub max_execution_minutes : ℤ
  pub max_event_count : ℤ
  pub max_review_fix_cycles : ℤ

-- `if p.MaxTaskRetryCount > 0 { maxRetries = p.MaxTaskRetryCount }`; `none` is a project that was
-- not found.
unfoldable pub positive_or : ℕ → (Project → ℤ) → Option Project → ℤ
positive_or d column none = pos d
positive_or d column (some p) = elim (column p) [ pos (suc n) ↦ pos (suc n) | _ ↦ pos d ]

-- `EvalMaxRetries`
unfoldable pub eval_max_retries : ℕ → ℤ → Bool
eval_max_retries retry_count (pos (suc n)) = leb (suc n) retry_count
eval_max_retries retry_count _ = false

-- `EvalEventVolume`
unfoldable pub eval_event_volume : ℕ → ℤ → Bool
eval_event_volume event_count (pos (suc n)) = leb (suc n) event_count
eval_event_volume event_count _ = false

abbrev pub minute : ℕ
minute = 60 * 10 ^ 9

-- `EvalExecutionTimeout`
unfoldable pub eval_execution_timeout : Option ℕ → ℕ → ℤ → Bool
eval_execution_timeout (some started) now (pos (suc n)) = ltb (started + suc n * minute) now
eval_execution_timeout _ now _ = false

-- The loops of `EvalSecurityReview`, up to the text of the reason; `strings.Contains` and the
-- patterns of secrets belong to Go's library.
unfoldable pub eval_security_review :
    (String → String → Bool) → List (String → Bool) → List String → List String → String → Bool
eval_security_review contains patterns changed deny_list diff =
    any (λ path. any (λ deny. if deny == "" then false else contains path deny) deny_list) changed
    || any (λ pattern. pattern diff) patterns

-- `retryCount` as `applyGuardrails` has it: one more for a fix after a test or a review, none after
-- a test that passed.
unfoldable pub retry_count_after : Task → String → ℕ
retry_count_after task new =
    if task.status == testing && (new == pr_ready || (new == merged || new == human_review))
    then 0
    else if new == fixing && (task.status == testing || task.status == reviewing)
    then suc task.retry_count
    else task.retry_count

unfoldable pub started_after : ℕ → Task → Option ℕ
started_after now task = elim task.execution_started_at [
  | some t ↦ some t
  | none ↦ if task.status == todo then some now else none
]

-- The guardrails do not hold for these statuses.
unfoldable pub is_exempt : String → Bool
is_exempt new = new == blocked || (new == failed || new == merged)

-- `blockReason`
unfoldable pub block_reason_of : ℕ → Option Project → Task → String → String
block_reason_of now project task new =
    if is_exempt new
    then ""
    else if eval_max_retries (retry_count_after task new)
        (positive_or 5 (λ p. p.max_task_retry_count) project)
    then "max_retries_exceeded"
    else if eval_execution_timeout (started_after now task) now
        (positive_or 120 (λ p. p.max_execution_minutes) project)
    then "execution_timeout"
    else ""

-- `applyGuardrails`: the columns to write, and the status instead of the new one.
unfoldable pub apply_guardrails : ℕ → Option Project → Task → String → UpdateTaskInput × String
apply_guardrails now project task new =
    let reason = block_reason_of now project task new in
    (
      record no_input {
        retry_count = some (retry_count_after task new);
        execution_started_at = started_after now task;
        block_reason = some reason;
      },
      if reason == "" then new else blocked,
    )
