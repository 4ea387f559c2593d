-- ===== src/Orchestrator/Outcome.antt =====
-- server/internal/orchestrator/tracker.go: the results of reading and writing one row.
use auto_dev_os.Base.{String, ◌≡◌, refl, ◌∙◌, none, some, ◌⊎◌, inl, inr, Option-cases}
use auto_dev_os.Status.Task.{validate_task_transition}
use auto_dev_os.Tasks.Table.{Task, UpdateTaskInput, find_task, write_task, write_input}
use auto_dev_os.Tasks.Guardrails.{apply_guardrails}
use auto_dev_os.Orchestrator.World.{
  World, Env, Op, Failure, failed, ok, missing, wrapped, bad_transition, pure, fail, ◌>>=◌, ◌>>◌,
  asks, given, get_task, update_task,
}
use auto_dev_os.Orchestrator.Tracker.{check_transition, write_status}

pub get_task-cases :
    (id : String) (w : World)
    → ((e : Failure) × (get_task id w ≡ (w, failed e)))
      ⊎ ((task : Task) × ((find_task id w.tasks ≡ some task) × (get_task id w ≡ (w, ok task))))
unfolding get_task asks given ◌>>=◌ pure fail
get_task-cases id w = elim (Option-cases (find_task id w.tasks)) [
  | inl gone ↦ inl (wrapped "get task" missing, rw (gone, get_task) refl)
  | inr (task, found) ↦ inr (task, (found, rw (found, get_task) refl))
]

-- The input that `updateTaskStatus` writes, and its status.
abbrev pub guarded_input : Env → Task → String → UpdateTaskInput
guarded_input env task new =
    let guarded = apply_guardrails env.now (env.project task.project_id) task new in
    record guarded.0 { status = some guarded.1 }

abbrev pub guarded_status : Env → Task → String → String
guarded_status env task new = (apply_guardrails env.now (env.project task.project_id) task new).1

-- The row was written, from a status from which the table accepts the new one.
pub record Written (env : Env) (id new : String) (w : World) : Type 0 where
  pub task : Task
  pub found : find_task id w.tasks ≡ some task
  pub accepted : validate_task_transition task.status (guarded_status env task new) ≡ none
  pub result : write_status env id new w ≡ (
    record w { tasks = write_task id (guarded_input env task new) w.tasks },
    ok (write_input (guarded_input env task new) task),
  )

pub update_task-found :
    (id : String) (input : UpdateTaskInput) (w : World) {task : Task}
    → find_task id w.tasks ≡ some task
    → update_task id input w
      ≡ (record w { tasks = write_task id input w.tasks }, ok (write_input input task))
unfolding update_task
update_task-found id input w found = rw (found, update_task) refl

checked_refused :
    (wrap : Failure → Failure) (from to : String) (k : Op Task) (w : World) {e : _}
    → validate_task_transition from to ≡ some e
    → (check_transition wrap from to >> k) w ≡ (w, failed (wrap (bad_transition e)))
unfolding check_transition ◌>>=◌ ◌>>◌ fail
checked_refused wrap from to k w refused = rw (refused, check_transition) refl

checked_accepted :
    (wrap : Failure → Failure) (from to : String) (k : Op Task) (w : World)
    → validate_task_transition from to ≡ none
    → (check_transition wrap from to >> k) w ≡ k w
unfolding check_transition ◌>>=◌ ◌>>◌ pure
checked_accepted wrap from to k w accepted = rw (accepted, check_transition) refl

module _ (env : Env) (id new : String) (w : World) where
  write_read :
      (task : Task)
      → get_task id w ≡ (w, ok task)
      → write_status env id new w
        ≡ (check_transition
                (wrapped "invalid task status transition")
                task.status
                (guarded_status env task new)
              >> (update_task id (guarded_input env task new) >>= pure))
            w
  unfolding write_status ◌>>=◌
  write_read task read = rw (read, write_status) refl

  write_gone :
      (e : Failure) → get_task id w ≡ (w, failed e) → write_status env id new w ≡ (w, failed e)
  unfolding write_status ◌>>=◌
  write_gone e gone = rw (gone, write_status) refl

  updated_pure :
      (input : UpdateTaskInput) {task : Task}
      → find_task id w.tasks ≡ some task
      → (update_task id input >>= pure) w
        ≡ (record w { tasks = write_task id input w.tasks }, ok (write_input input task))
  unfolding ◌>>=◌ pure
  updated_pure input found = rw (update_task-found id input w found) refl

  pub write_status-cases :
      ((e : Failure) × (write_status env id new w ≡ (w, failed e))) ⊎ Written env id new w
  write_status-cases = elim (get_task-cases id w) [
    | inl (e, gone) ↦ inl (e, write_gone e gone)
    | inr (task, (found, read)) ↦
        elim (Option-cases (validate_task_transition task.status (guarded_status env task new))) [
          | inr (e, refused) ↦
              inl (_, write_read task read ∙ checked_refused _ task.status _ _ w refused)
          | inl accepted ↦ inr (record {
            task = task;
            found = found;
            accepted = accepted;
            result =
                write_read task read
                ∙ checked_accepted _ task.status _ _ w accepted
                ∙ updated_pure (guarded_input env task new) found;
          })
        ]
  ]
