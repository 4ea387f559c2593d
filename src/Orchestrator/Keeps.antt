-- ===== src/Orchestrator/Keeps.antt =====
-- server/internal/orchestrator: what the operations do to the table of tasks, by the row changes
-- that they are made of.
use auto_dev_os.JobStore.{Job}
use auto_dev_os.Base.{
  ℕ, any, ◌==◌, String, ◌≡◌, refl, Bool, true, false, Option, none, some, List, [], ◌∷◌, arith,
  if◌then◌else◌, Bool-cases, Option-cases, inl, inr,
}
use auto_dev_os.Status.Task.{validate_task_transition, blocked}
use auto_dev_os.Tasks.Guardrails.{is_exempt, eval_event_volume, positive_or}
use auto_dev_os.Tasks.Table.{Task, UpdateTaskInput, find_task, write_task}
use auto_dev_os.Orchestrator.World.{
  World, Env, Op, Result, Checkpoint, CheckpointState, failed, ok, Failure, pure, fail, after,
  ◌>>=◌, ◌>>◌, attempt, asks, given, get_task, update_task, when, require, latest_by_task_id,
  change_job, enqueue_job, create_checkpoint, cancel_context, release_lock,
}
use auto_dev_os.Orchestrator.Checkpoints.{delete_checkpoints}
use auto_dev_os.Orchestrator.Outcome.{get_task-cases}
use auto_dev_os.Orchestrator.Tracker.{
  check_transition, task_service_update, block_task, log, check_event_volume_guardrail, project_of,
  write_status,
}

-- A property of the tables that survives each change of the tables other than those of the tasks
-- and of the checkpoints.
pub record FrameRule (P : World → Type 0) : Type 0 where
  pub on_jobs : (w : World) (jobs : List Job) → P w → P (record w { jobs = jobs })
  pub on_logs : (w : World) (logs : ℕ) → P w → P (record w { logs = logs })
  pub on_cancelled :
      (w : World) (cancelled : List String) → P w → P (record w { cancelled = cancelled })
  pub on_released :
      (w : World) (released : List String) → P w → P (record w { released = released })
  pub on_fuel : (w : World) → P w → P (record w { out_of_fuel = true })

-- It also survives each change of a task that the program makes: one without a status, and one to a
-- status that the table of transitions accepts.
pub record RowRule (P : World → Type 0) : Type 0 where
  pub on_row :
      (w : World) (id : String) (task : Task) (input : UpdateTaskInput)
      → find_task id w.tasks ≡ some task
      → ((new : String) → input.status ≡ some new → validate_task_transition task.status new ≡ none)
      → P w
      → P (record w { tasks = write_task id input w.tasks })
  pub frame : FrameRule P

-- It survives the changes of the checkpoints too.
pub record CheckpointRule (P : World → Type 0) : Type 0 where
  pub on_checkpoints :
      (w : World) (checkpoints : List Checkpoint) → P w → P (record w { checkpoints = checkpoints })

module _ (P : World → Type 0) where
  unfoldable pub Keeps : {A : Type 0} → Op A → Type 0
  Keeps m = (w : World) → P w → P (m w).0

  module _ {A : Type 0} where
    pub pure-Keeps : (a : A) → Keeps (pure a)
    unfolding Keeps pure
    pure-Keeps a w h = h

  pub fail-Keeps : (A : Type 0) (e : Failure) → Keeps {A = A} (fail e)
  unfolding Keeps fail
  fail-Keeps A e w h = h

  module _ {A B : Type 0} where
    after-Keeps :
        (x : World × Result A) (f : A → Op B) → P x.0 → ((a : A) → Keeps (f a)) → P (after x f).0
    unfolding Keeps
    after-Keeps (w, failed e) f h rest = h
    after-Keeps (w, ok a) f h rest = rest a w h

    pub bind-Keeps : (m : Op A) (f : A → Op B) → Keeps m → ((a : A) → Keeps (f a)) → Keeps (m >>= f)
    unfolding Keeps ◌>>=◌
    bind-Keeps m f first rest w h = after-Keeps (m w) f (first w h) rest

    pub then-Keeps : (m : Op A) (k : Op B) → Keeps m → Keeps k → Keeps (m >> k)
    unfolding Keeps ◌>>◌
    then-Keeps m k first rest = bind-Keeps m (λ _. k) first (λ _. rest)

  module _ {A : Type 0} where
    pub attempt-Keeps : (m : Op A) → Keeps m → Keeps (attempt m)
    unfolding Keeps attempt
    attempt-Keeps m h = h

    pub asks-Keeps : (f : World → A) → Keeps (asks f)
    unfolding Keeps asks
    asks-Keeps f w h = h

    pub given-Keeps : (e : Failure) (a : Option A) → Keeps (given e a)
    unfolding Keeps given
    given-Keeps e none = fail-Keeps _ e
    given-Keeps e (some a) = pure-Keeps a

    pub if-Keeps : (test : Bool) (m k : Op A) → Keeps m → Keeps k → Keeps (if test then m else k)
    if-Keeps true m k h l = h
    if-Keeps false m k h l = l

  module _ {A B : Type 0} where
    pub option-Keeps :
        (o : Option A) (m : Op B) (f : A → Op B)
        → Keeps m
        → ((a : A) → Keeps (f a))
        → Keeps (elim o [ none ↦ m | some a ↦ f a ])
    option-Keeps none m f first rest = first
    option-Keeps (some a) m f first rest = rest a

    pub result-Keeps :
        (r : Result A) (g : Failure → Op B) (f : A → Op B)
        → ((e : Failure) → Keeps (g e))
        → ((a : A) → Keeps (f a))
        → Keeps (elim r [ failed e ↦ g e | ok a ↦ f a ])
    result-Keeps (failed e) g f first rest = first e
    result-Keeps (ok a) g f first rest = rest a

    pub list-Keeps :
        (l : List A) (m k : Op B) → Keeps m → Keeps k → Keeps (elim l [ [] ↦ m | _ ∷ _ ↦ k ])
    list-Keeps [] m k first rest = first
    list-Keeps (a ∷ more) m k first rest = rest

  pub when-Keeps : (test : Bool) (m : Op (Unit {0})) → Keeps m → Keeps (when test m)
  unfolding Keeps when
  when-Keeps true m h = h
  when-Keeps false m h = pure-Keeps tt

  pub require-Keeps : (test : Bool) (e : Failure) → Keeps (require test e)
  unfolding Keeps require
  require-Keeps true e = pure-Keeps tt
  require-Keeps false e = fail-Keeps _ e

  pub get_task-Keeps : (id : String) → Keeps (get_task id)
  unfolding get_task
  get_task-Keeps id = bind-Keeps _ _ (asks-Keeps _) (λ found. given-Keeps _ found)

  pub latest-Keeps : (id : String) → Keeps (latest_by_task_id id)
  unfolding latest_by_task_id
  latest-Keeps id = bind-Keeps _ _ (asks-Keeps _) (λ found. given-Keeps _ found)

  pub create_checkpoint-Keeps :
      (also : CheckpointRule P) (id step : String) (state : CheckpointState)
      → Keeps (create_checkpoint id step state)
  unfolding Keeps create_checkpoint
  create_checkpoint-Keeps also id step state w h = also.on_checkpoints w _ h

  pub delete_checkpoints-Keeps :
      (also : CheckpointRule P) (like : String → String → Bool) (id : String)
      (steps : List (String × String))
      → Keeps (delete_checkpoints like id steps)
  unfolding Keeps delete_checkpoints
  delete_checkpoints-Keeps also like id steps w h = also.on_checkpoints w _ h

  module _ (frame : FrameRule P) where
    pub cancel-Keeps : (ident : String) → Keeps (cancel_context ident)
    unfolding Keeps cancel_context
    cancel-Keeps ident w h = elim (Bool-cases (any (λ key. key == ident) w.job_cancels)) [
      | inl held ↦ rw (held, cancel_context) (frame.on_cancelled w _ h)
      | inr gone ↦ rw (gone, cancel_context) h
    ]

    pub change_job-Keeps : (env : Env) (ident : String) (u : _) → Keeps (change_job env ident u)
    unfolding Keeps change_job
    change_job-Keeps env ident u w h = frame.on_jobs w _ h

    pub enqueue_job-Keeps : (env : Env) (id : String) → Keeps (enqueue_job env id)
    unfolding Keeps enqueue_job
    enqueue_job-Keeps env id w h = frame.on_jobs w _ h

    pub release_lock-Keeps : (id : String) → Keeps (release_lock id)
    unfolding Keeps release_lock
    release_lock-Keeps id w h = frame.on_released w _ h

  module _ (rule : RowRule P) where
    -- A change of columns other than the status.
    pub update-Keeps :
        (id : String) (input : UpdateTaskInput) → input.status ≡ none → Keeps (update_task id input)
    unfolding Keeps update_task
    update-Keeps id input plain w h = elim (Option-cases (find_task id w.tasks)) [
      | inl gone ↦ rw (gone, update_task) h
      | inr (task, found) ↦
          rw (found, update_task)
            (rule.on_row w id task input found (λ new given. absurd (ground arith)) h)
    ]

    -- A change of the status that the table accepts for the row as it stands.
    update_accepted :
        (id : String) (input : UpdateTaskInput) (w : World) (task : Task) (new : String)
        → find_task id w.tasks ≡ some task
        → input.status ≡ some new
        → validate_task_transition task.status new ≡ none
        → P w
        → P (update_task id input w).0
    unfolding Keeps update_task
    update_accepted id input w task new found set accepted h =
        rw (found, update_task) (rule.on_row w id task input found (λ other given. ground arith) h)

    -- The check of a transition and the change it guards, on a row that was read just before.
    checked_update :
        {A : Type 0} (wrap : Failure → Failure) (id : String) (input : UpdateTaskInput)
        (f : Task → Op A) (w : World) (task : Task) (new : String)
        → find_task id w.tasks ≡ some task
        → input.status ≡ some new
        → ((t : Task) → Keeps (f t))
        → P w
        → P ((check_transition wrap task.status new >> (update_task id input >>= f)) w).0
    unfolding check_transition ◌>>=◌ ◌>>◌ pure fail
    checked_update wrap id input f w task new found set rest h =
        elim (Option-cases (validate_task_transition task.status new)) [
          | inr (e, refused) ↦ rw (refused, check_transition) h
          | inl accepted ↦
              rw (accepted, check_transition)
                (after-Keeps (update_task id input w) f
                  (update_accepted id input w task new found set accepted h) rest)
        ]

    pub block_task-Keeps : (id reason : String) → Keeps (block_task id reason)
    unfolding Keeps block_task ◌>>=◌ pure
    block_task-Keeps id reason w h = elim (get_task-cases id w) [
      | inl (e, gone) ↦ rw gone h
      | inr (task, (found, read)) ↦ rw read (elim (Bool-cases (is_exempt task.status)) [
        | inl exempt ↦ rw exempt h
        | inr open_ ↦ rw open_ (
            checked_update (λ e. e) id _ (λ _. pure tt) w task blocked found refl
              (λ _. pure-Keeps tt) h)
      ])
    ]

    volume_block :
        (id : String) → Keeps (attempt (block_task id "event_volume_exceeded") >> pure tt)
    volume_block id =
        then-Keeps _ _ (attempt-Keeps _ (block_task-Keeps id "event_volume_exceeded"))
          (pure-Keeps tt)

    volume-Keeps : (env : Env) (id : String) → Keeps (check_event_volume_guardrail env id)
    unfolding Keeps check_event_volume_guardrail
    volume-Keeps env id w h = elim (Option-cases (env.event_count w.logs id)) [
      | inl unknown ↦ rw (unknown, check_event_volume_guardrail) h
      | inr (count, known) ↦
          rw (known, check_event_volume_guardrail)
            (elim (Bool-cases (
              eval_event_volume count (
                positive_or 20000 (λ p. p.max_event_count)
                  (project_of env (find_task id w.tasks))))) [
                    | inl over ↦ rw over (volume_block id w h)
                    | inr under ↦ rw under h
                  ])
    ]

    pub log-Keeps : (env : Env) (id : String) → Keeps (log env id)
    unfolding Keeps log
    log-Keeps env id w h = volume-Keeps env id _ (rule.frame.on_logs w _ h)

    pub write_status-Keeps : (env : Env) (id new : String) → Keeps (write_status env id new)
    unfolding Keeps write_status ◌>>=◌
    write_status-Keeps env id new w h = elim (get_task-cases id w) [
      | inl (e, gone) ↦ rw gone h
      | inr (task, (found, read)) ↦
          rw read (checked_update _ id _ pure w task _ found refl pure-Keeps h)
    ]

    pub service_update-Keeps : (id new : String) → Keeps (task_service_update id new)
    unfolding Keeps task_service_update ◌>>=◌
    service_update-Keeps id new w h = elim (get_task-cases id w) [
      | inl (e, gone) ↦ rw gone h
      | inr (task, (found, read)) ↦
          rw read (checked_update _ id _ pure w task new found refl pure-Keeps h)
    ]
