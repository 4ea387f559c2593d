-- ===== src/Orchestrator/Worker/Errors.antt =====
-- server/internal/orchestrator/worker.go: its tests of an error, `errors.Is` and `errors.As`, which
-- look through the errors that wrap another.
use auto_dev_os.Base.{ℕ, Bool, true, false, Option, none, some}
use auto_dev_os.Workflow.Step.{
  Err, err_review_fix_loop, err_cross_review_fix_loop, err_no_progress, err_graph_changed,
  err_config_invalid, all_credentials_in_cooldown, context_canceled, wrapped,
}

-- `errors.Is(err, ErrReviewFixLoop)`, and so on for the others.
unfoldable pub is_review_fix_loop : Err → Bool
is_review_fix_loop err_review_fix_loop = true
is_review_fix_loop (wrapped message e) = is_review_fix_loop e
is_review_fix_loop _ = false

unfoldable pub is_cross_review_fix_loop : Err → Bool
is_cross_review_fix_loop err_cross_review_fix_loop = true
is_cross_review_fix_loop (wrapped message e) = is_cross_review_fix_loop e
is_cross_review_fix_loop _ = false

unfoldable pub is_graph_changed : Err → Bool
is_graph_changed err_graph_changed = true
is_graph_changed (wrapped message e) = is_graph_changed e
is_graph_changed _ = false

unfoldable pub is_no_progress : Err → Bool
is_no_progress err_no_progress = true
is_no_progress (wrapped message e) = is_no_progress e
is_no_progress _ = false

unfoldable pub is_config_invalid : Err → Bool
is_config_invalid err_config_invalid = true
is_config_invalid (wrapped message e) = is_config_invalid e
is_config_invalid _ = false

-- `errors.Is(err, context.Canceled)`
unfoldable pub is_canceled : Err → Bool
is_canceled context_canceled = true
is_canceled (wrapped text e) = is_canceled e
is_canceled _ = false

-- `errors.As(err, &cooldownErr)`: the time until which to sleep.
unfoldable pub cooldown_of : Err → Option ℕ
cooldown_of (all_credentials_in_cooldown until) = some until
cooldown_of (wrapped message e) = cooldown_of e
cooldown_of _ = none
