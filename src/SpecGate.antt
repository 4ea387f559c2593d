-- ===== src/SpecGate.antt =====
-- server/internal/policy/review_policy.go: whether a run pauses after the spec for a human.
-- `is_hotfix` stands for `strings.EqualFold(strings.TrimSpace(l), "hotfix")`.
pub mod Pauses
mod Examples
use auto_dev_os.Base.{
  ℕ, String, Bool, true, false, ◌&&◌, Option, none, some, List, [], ◌∷◌, leb, any, if◌then◌else◌,
}
use auto_dev_os.Status.Task.{coding, spec_review}

-- `MaxClarificationRounds`
abbrev pub max_clarification_rounds : ℕ
max_clarification_rounds = 2

-- `TaskSpecStatus`: the values that the gate writes.
pub data SpecStatus : Type 0 where
  ready_with_warnings clarification_required pending_review auto_approved : SpecStatus

-- The fields of `Task` and `Project` that the gate reads.
pub record Task : Type 0 where
  pub labels : List String
  pub require_spec_review : Option Bool

pub record Project : Type 0 where
  pub require_spec_review : Bool

module _ (is_hotfix : String → Bool) where
  -- `IsDefinitionOfReadyBypassed`
  unfoldable pub is_definition_of_ready_bypassed : List String → ℕ → Bool
  is_definition_of_ready_bypassed labels prior_clarification_rounds =
      if leb max_clarification_rounds prior_clarification_rounds then true else any is_hotfix labels

-- `RequiresSpecReview`
unfoldable pub requires_spec_review : Option Task → Option Project → Bool
requires_spec_review task project =
    elim (elim task as (λ _. Option Bool) [ none ↦ none | some t ↦ t.require_spec_review ]) [
      | some flag ↦ flag
      | none ↦ elim project [ none ↦ false | some p ↦ p.require_spec_review ]
    ]

unfoldable pub labels_of : Option Task → List String
labels_of none = []
labels_of (some t) = t.labels

-- `ResolveSpecGate`: the status of the spec and the status of the task.
unfoldable pub resolve_spec_gate :
    (is_hotfix : String → Bool)
    → Option Task
    → Option Project
    → (has_clarifications : Bool) → (prior_rounds : ℕ) → SpecStatus × String
resolve_spec_gate is_hotfix task project has_clarifications prior_rounds =
    if has_clarifications && is_definition_of_ready_bypassed is_hotfix (labels_of task) prior_rounds
    then (ready_with_warnings, coding)
    else if has_clarifications
    then (clarification_required, spec_review)
    else if requires_spec_review task project
    then (pending_review, spec_review)
    else (auto_approved, coding)
