-- ===== src/Status/Examples.antt =====
-- The transitions of tasks and jobs at concrete statuses.
use auto_dev_os.Base.{◌≡◌, refl, ◌↔◌, ◌⊎◌, none, ◌==◌}
use auto_dev_os.Base.Dict.{lookup}
use auto_dev_os.Status.Table.{Edge, validate_in, allows}
use auto_dev_os.Status.Task.{
  coding, merged, testing, valid_task_transitions, start_of, validate_task_transition,
}
use auto_dev_os.Status.Task.Edges.{accepted_iff_Edge}

accepted_iff_Edge_example :
    (validate_task_transition "" coding ≡ none)
    ↔ ((start_of "" ≡ coding) ⊎ Edge valid_task_transitions (start_of "") coding)
accepted_iff_Edge_example = accepted_iff_Edge "" coding

testing_to_merged : validate_task_transition testing merged ≡ none
unfolding validate_task_transition start_of validate_in lookup allows ◌==◌
testing_to_merged = refl
