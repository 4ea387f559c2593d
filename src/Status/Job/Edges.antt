-- ===== src/Status/Job/Edges.antt =====
-- What the table of job transitions admits.
use auto_dev_os.Base.{
  String, ◌≡◌, refl, sym, ◌↔◌, ◌⊎◌, ◌≢◌, inl, inr, Bool, true, false, [], none, some, arith, ◌==◌,
  eq_self, if◌then◌else◌,
}
use auto_dev_os.Base.Dict.{lookup}
use auto_dev_os.Status.Table.{
  Edge, Edge-of_accepted, accepted_of_Edge, not-Edge_of_empty, check_row, check_edges,
  check_edges_sound,
}
use auto_dev_os.Status.Job.{
  done, failed, sleeping, valid_workflow_job_transitions, validate_job_transition,
}

-- A transition is accepted exactly when it changes nothing or is an edge of the table.
pub job_accepted_iff_Edge :
    (from to : String)
    → (validate_job_transition from to ≡ none)
      ↔ ((from ≡ to) ⊎ Edge valid_workflow_job_transitions from to)
unfolding validate_job_transition
job_accepted_iff_Edge from to = (
  Edge-of_accepted valid_workflow_job_transitions from to,
  accepted_of_Edge valid_workflow_job_transitions from to,
)

awake_test : String → String → Bool
awake_test from to = if to == sleeping then false else true

awake_checked : check_edges awake_test valid_workflow_job_transitions ≡ true
unfolding check_edges check_row awake_test ◌==◌
awake_checked = refl

not-Edge-sleeping : (from : String) → ¬ Edge valid_workflow_job_transitions from sleeping
unfolding awake_test
not-Edge-sleeping from edge =
    let tested : awake_test from sleeping ≡ true =
      check_edges_sound awake_test valid_workflow_job_transitions awake_checked edge in
    ground (arith, eq_self sleeping)

-- No status but `sleeping` itself may change to `sleeping`.
pub validate_job-sleeping :
    (from : String) → from ≢ sleeping → validate_job_transition from sleeping ≢ none
validate_job-sleeping from other ok = elim ((job_accepted_iff_Edge from sleeping).0 ok) [
  | inl same ↦ other same
  | inr edge ↦ not-Edge-sleeping from edge
]

final_row :
    (from : String)
    → (from ≡ done) ⊎ (from ≡ failed)
    → lookup from valid_workflow_job_transitions ≡ some []
unfolding lookup ◌==◌
final_row from (inl e) = rw e
final_row from (inr e) = rw e

-- A job that is done or failed keeps its status.
pub validate_job-final :
    (from to : String)
    → (from ≡ done) ⊎ (from ≡ failed)
    → validate_job_transition from to ≡ none
    → to ≡ from
validate_job-final from to final ok = elim ((job_accepted_iff_Edge from to).0 ok) [
  | inl same ↦ sym same
  | inr edge ↦ absurd (not-Edge_of_empty _ from to (final_row from final) edge)
]
