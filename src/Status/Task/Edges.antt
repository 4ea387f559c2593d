-- ===== src/Status/Task/Edges.antt =====
-- The validator of task transitions against the table, and the table checked edge by edge.
use auto_dev_os.Base.{
  String, ◌≡◌, refl, ◌↔◌, ◌⊎◌, inl, inr, Bool, true, List, [], ◌∷◌, Memᴰ, none, ◌==◌, eq_self,
  if◌then◌else◌,
}
use auto_dev_os.Base.Dict.{lookup, IsKey, is_key, is_key_iff}
use auto_dev_os.Status.Table.{
  Edge, Edge-of_accepted, accepted_of_Edge, allows, allows_sound, check_row, check_edges,
  check_edges_sound,
}
use auto_dev_os.Status.Task.{
  merged, blocked, coding, testing, analyzing, pr_ready, human_review, valid_task_transitions,
  start_of, validate_task_transition,
}

-- A transition is accepted exactly when it changes nothing or is an edge of the table, where a
-- blank status stands for `todo`.
pub accepted_iff_Edge :
    (from to : String)
    → (validate_task_transition from to ≡ none)
      ↔ ((start_of from ≡ to) ⊎ Edge valid_task_transitions (start_of from) to)
unfolding validate_task_transition
accepted_iff_Edge from to = (
  Edge-of_accepted valid_task_transitions (start_of from) to,
  accepted_of_Edge valid_task_transitions (start_of from) to,
)

closed_test : String → String → Bool
closed_test from to = is_key to valid_task_transitions

table_closed : check_edges closed_test valid_task_transitions ≡ true
unfolding check_edges check_row closed_test is_key lookup ◌==◌
table_closed = refl

-- Every target of the table is a key of the table.
pub Edge-IsKey :
    (from : String) {to : String}
    → Edge valid_task_transitions from to
    → IsKey to valid_task_transitions
unfolding closed_test
Edge-IsKey from {to} edge =
    (is_key_iff to _).0 (check_edges_sound closed_test valid_task_transitions table_closed edge)

-- The statuses from which a task may become merged.
abbrev pub merge_sources : List String
merge_sources = analyzing ∷ coding ∷ testing ∷ pr_ready ∷ human_review ∷ blocked ∷ []

source_test : String → List String → String → String → Bool
source_test target sources from to = if to == target then allows sources from else true

merge_checked : check_edges (source_test merged merge_sources) valid_task_transitions ≡ true
unfolding check_edges check_row source_test allows ◌==◌
merge_checked = refl

source_of_Edge :
    (target : String) (sources : List String) {from : String}
    → check_edges (source_test target sources) valid_task_transitions ≡ true
    → Edge valid_task_transitions from target
    → Memᴰ from sources
unfolding source_test
source_of_Edge target sources {from} h edge = allows_sound sources from (
    rw (eq_self target) at
      (check_edges_sound (source_test target sources) valid_task_transitions h edge))

-- A task becomes merged only from the six statuses of `merge_sources`, or stays merged.
accepted_merge_lem :
    (from : String)
    → validate_task_transition from merged ≡ none
    → (start_of from ≡ merged) ⊎ Memᴰ (start_of from) merge_sources
accepted_merge_lem from h = elim ((accepted_iff_Edge from merged).0 h) [
  | inl same ↦ inl same
  | inr edge ↦ inr (source_of_Edge merged merge_sources merge_checked edge)
]
