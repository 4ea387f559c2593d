-- ===== src/Orchestrator/Statuses.antt =====
-- server/internal/orchestrator with the table of server/internal/workflow/state_machine.go: the
-- statuses of tasks over histories of requests, and after one update.
use auto_dev_os.Base.{
  ℕ, String, ◌≡◌, refl, sym, ◌∙◌, subst, ap, true, false, none, some, List, [], ◌∷◌, ◌==◌, eq_iff,
  Bool-cases, Option-cases, if◌then◌else◌, inl, inr,
}
use auto_dev_os.JobStore.{or_else}
use auto_dev_os.Status.Task.{merged, validate_task_transition}
use auto_dev_os.Status.Task.Life.{Life, born, move, Life-merged}
use auto_dev_os.Tasks.Table.{Task, UpdateTaskInput, find_task, write_task, write_input}
use auto_dev_os.Orchestrator.World.{World, Env}
use auto_dev_os.Orchestrator.Commands.{Command, run_commands}
use auto_dev_os.Orchestrator.Keeps.{RowRule, CheckpointRule}
use auto_dev_os.Orchestrator.Histories.{run_commands-Keeps}

write_input-ident :
    (input : UpdateTaskInput) (task : Task) → (write_input input task).ident ≡ task.ident
unfolding write_input
write_input-ident input task = refl

find-write_own :
    (id : String) (input : UpdateTaskInput) (tasks : List Task) {task : Task}
    → find_task id tasks ≡ some task
    → find_task id (write_task id input tasks) ≡ some (write_input input task)
unfolding find_task write_task
find-write_own id input [] found = cc
find-write_own id input (row ∷ rest) {task} found = elim (Bool-cases (row.ident == id)) [
  | inl hit ↦
      let stands : some row ≡ some task = rw hit at found in
      let same : row ≡ task = cc in
      let named : ((write_input input row).ident == id) ≡ true =
        subst (λ i. (i == id) ≡ true) (sym (write_input-ident input row)) hit in
      rw (hit, find_task, named) (ap (λ t. some (write_input input t)) same)
  | inr miss ↦ rw (miss, find_task, miss) (find-write_own id input rest (rw miss at found))
]

find-write_other :
    (id wanted : String) (input : UpdateTaskInput) (tasks : List Task)
    → (id == wanted) ≡ false
    → find_task wanted (write_task id input tasks) ≡ find_task wanted tasks
unfolding find_task write_task
find-write_other id wanted input [] other = refl
find-write_other id wanted input (row ∷ rest) other = elim (Bool-cases (row.ident == id)) [
  | inl hit ↦
      let away : (row.ident == wanted) ≡ false = rw ((eq_iff row.ident id).0 hit) other in
      rw (hit, find_task, write_input-ident input row, away) refl
  | inr miss ↦
      rw (miss, find_task)
        (ap (λ found. if row.ident == wanted then some row else found)
          (find-write_other id wanted input rest other))
]

-- The row is there, and its status lies on the life of the first status.
record Follows (id start : String) (w : World) : Type 0 where
  task : Task
  found : find_task id w.tasks ≡ some task
  life : Life start task.status

written-Life :
    (start : String) (input : UpdateTaskInput) (task : Task)
    → ((new : String) → input.status ≡ some new → validate_task_transition task.status new ≡ none)
    → Life start task.status
    → Life start (write_input input task).status
unfolding write_input
written-Life start input task valid life = elim (Option-cases input.status) [
  | inl kept ↦ rw (kept, or_else) life
  | inr (new, set) ↦ rw (set, or_else) (move life (valid new set))
]

Follows-own :
    (id start : String) (w : World) (task : Task) (input : UpdateTaskInput)
    → find_task id w.tasks ≡ some task
    → ((new : String) → input.status ≡ some new → validate_task_transition task.status new ≡ none)
    → Follows id start w
    → Follows id start (record w { tasks = write_task id input w.tasks })
Follows-own id start w task input found valid h =
    let same : task ≡ h.task = cc in
    record {
      task = write_input input h.task;
      found = find-write_own id input w.tasks h.found;
      life =
          written-Life start input h.task
            (subst
              (λ t.
                (new : String)
                → input.status ≡ some new
                → validate_task_transition t.status new ≡ none)
              same valid)
            h.life;
    }

Follows-rule : (id start : String) → RowRule (Follows id start)
Follows-rule id start = record {
  on_row = λ w other task input found valid h. elim (Bool-cases (other == id)) [
    | inl own ↦
        let same = (eq_iff other id).0 own in
        subst (λ i. Follows id start (record w { tasks = write_task i input w.tasks })) (sym same)
          (Follows-own id start w task input
            (subst (λ i. find_task i w.tasks ≡ some task) same found) valid h)
    | inr away ↦ record {
      task = h.task;
      found = find-write_other other id input w.tasks away ∙ h.found;
      life = h.life;
    }
  ];
  frame = record {
    on_jobs = λ w jobs h. record { task = h.task; found = h.found; life = h.life };
    on_logs = λ w logs h. record { task = h.task; found = h.found; life = h.life };
    on_cancelled = λ w cancelled h. record { task = h.task; found = h.found; life = h.life };
    on_released = λ w released h. record { task = h.task; found = h.found; life = h.life };
    on_fuel = λ w h. record { task = h.task; found = h.found; life = h.life };
  };
}

Follows-checkpoint : (id start : String) → CheckpointRule (Follows id start)
Follows-checkpoint id start = record {
  on_checkpoints = λ w checkpoints h. record { task = h.task; found = h.found; life = h.life };
}

pub run_commands-Life :
    (history : List (ℕ × (Env × Command))) (w : World) (id : String) (task : Task)
    → find_task id w.tasks ≡ some task
    → (task' : Task) × ((find_task id (run_commands history w).tasks ≡ some task')
        × Life task.status task'.status)
run_commands-Life history w id task found =
    let end_ =
      run_commands-Keeps (Follows id task.status) (Follows-rule id task.status)
        (Follows-checkpoint id task.status) history w
        (record { task = task; found = found; life = born }) in
    (end_.task, (end_.found, end_.life))

-- A task that has been merged is still in the table, and still merged, after any history of
-- requests to the orchestrator.
pub run_commands-merged :
    (history : List (ℕ × (Env × Command))) (w : World) (id : String) (task : Task)
    → find_task id w.tasks ≡ some task
    → task.status ≡ merged
    → (task' : Task) × ((find_task id (run_commands history w).tasks ≡ some task')
        × (task'.status ≡ merged))
run_commands-merged history w id task found done =
    let (task', (there, life)) = run_commands-Life history w id task found in
    (task', (there, Life-merged (subst (λ s. Life s task'.status) done life)))
