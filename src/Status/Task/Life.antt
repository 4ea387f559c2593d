-- ===== src/Status/Task/Life.antt =====
-- The life of a task: sequences of transitions that the validator accepts.
use auto_dev_os.Base.{
  String, ◌≡◌, refl, sym, ap, ◌∙◌, subst, inl, inr, Bool, true, ◌||◌, List, [], none, some, ◌==◌,
  eq_iff, eq-cases, or-cases,
}
use auto_dev_os.Base.Dict.{lookup, IsKey}
use auto_dev_os.Status.Table.{
  validate_in, Edge, allows, allows_sound, not-Edge_of_empty, check_rows, check_rows_sound,
}
use auto_dev_os.Status.Task.{
  merged, analyzing, valid_task_transitions, start_of, validate_task_transition,
}
use auto_dev_os.Status.Task.Edges.{accepted_iff_Edge}

-- The status is written after each transition that the validator accepts.
pub data Life (s : String) : String → Type 0 where
  born : Life s s
  move : {t u : String} → Life s t → validate_task_transition t u ≡ none → Life s u

merged_row : lookup merged valid_task_transitions ≡ some []
unfolding lookup ◌==◌
merged_row = refl

merged_start : start_of merged ≡ merged
unfolding start_of ◌==◌
merged_start = refl

-- A merged task stays merged.
pub Life-merged : {t : String} → Life merged t → t ≡ merged
Life-merged born = refl
Life-merged (move {t = t} {u = u} life ok) = elim ((accepted_iff_Edge t u).0 ok) [
  | inl same ↦ sym same ∙ ap start_of (Life-merged life) ∙ merged_start
  | inr edge ↦ absurd (
      not-Edge_of_empty _ merged u merged_row (
        subst (λ x. Edge valid_task_transitions x u) (ap start_of (Life-merged life) ∙ merged_start)
          edge))
]

-- Merging is one or two transitions away from every status of the table.
near_test : String → List String → Bool
near_test from allowed = from == merged || (allows allowed merged || allows allowed analyzing)

near_checked : check_rows near_test valid_task_transitions ≡ true
unfolding check_rows near_test allows ◌==◌
near_checked = refl

analyzing_to_merged : validate_task_transition analyzing merged ≡ none
unfolding validate_task_transition validate_in start_of lookup allows ◌==◌
analyzing_to_merged = refl

blank_IsKey : ¬ IsKey "" valid_task_transitions
unfolding lookup ◌==◌
blank_IsKey (allowed, found) = cc

start_of_known : (s : String) → IsKey s valid_task_transitions → start_of s ≡ s
unfolding start_of
start_of_known s known = elim (eq-cases s "") [
  | inl blank ↦ absurd (blank_IsKey (subst (λ x. IsKey x valid_task_transitions) blank known))
  | inr named ↦ rw named
]

pub accepted_of_allows :
    (s to : String) (allowed : List String)
    → lookup s valid_task_transitions ≡ some allowed
    → allows allowed to ≡ true
    → validate_task_transition s to ≡ none
accepted_of_allows s to allowed found h =
    (accepted_iff_Edge s to).1
      (inr (rw (start_of_known s (allowed, found)) (allowed, found, allows_sound allowed to h)))

-- From every status of the table a task can still be merged, in at most two transitions.
pub Life-to-merged : (s : String) → IsKey s valid_task_transitions → Life s merged
unfolding near_test
Life-to-merged s (allowed, found) =
    elim (or-cases (s == merged) (allows allowed merged || allows allowed analyzing)
      (check_rows_sound near_test valid_task_transitions near_checked found)) [
        | inl same ↦ subst (λ x. Life x merged) (sym ((eq_iff s merged).0 same)) born
        | inr ways ↦ elim (or-cases (allows allowed merged) (allows allowed analyzing) ways) [
          | inl direct ↦ move born (accepted_of_allows s merged allowed found direct)
          | inr by_analyzing ↦
              move (move born (accepted_of_allows s analyzing allowed found by_analyzing))
                analyzing_to_merged
        ]
      ]
