-- ===== src/Orchestrator/Worker/Tables.antt =====
-- server/internal/orchestrator/worker.go: what the run of a job does to the tables, by the changes
-- that it is made of.
use auto_dev_os.Base.{
  ℕ, zero, suc, String, ◌≡◌, refl, sym, subst, Option, none, some, List, [], ◌∷◌, Bool-cases,
  Option-cases, inl, inr, ltb,
}
use auto_dev_os.Base.Dict.{Dict}
use auto_dev_os.Status.Task.{failed as task_failed}
use auto_dev_os.Orchestrator.Checkpoints.{is_success, is_outdated}
use auto_dev_os.Tasks.Table.{Task}
use auto_dev_os.Workflow.Schema.{Object}
use auto_dev_os.Workflow.Step.{Err, Event}
use auto_dev_os.Workflow.Engine.{State}
use auto_dev_os.Orchestrator.World.{Checkpoint, World, Op, CheckpointState, pure, ◌>>◌}
use auto_dev_os.Orchestrator.Tracker.{log}
use auto_dev_os.Orchestrator.Decomposition.{StatusUpdate}
use auto_dev_os.Orchestrator.Worker.{
  Worker, Commit, commit_state, is_code_step, was_skipped, on_event, replay,
}
use auto_dev_os.Orchestrator.Worker.Attempts.{
  Run, Decision, requeue, sleep_until, stop, again, wait, LoopEnd, returned, left, no_rounds,
  put_back, follow, is_pausing, run_attempt, reload, attempts,
}
use auto_dev_os.Orchestrator.Worker.Job.{
  fail_job, log_outdated, or_fail, finish_run, no_attempt, conclude, work, load_checkpoints,
  answered, prepare, run_job,
}
use auto_dev_os.Orchestrator.Keeps.{
  RowRule, CheckpointRule, Keeps, bind-Keeps, then-Keeps, attempt-Keeps, asks-Keeps, given-Keeps,
  if-Keeps, option-Keeps, result-Keeps, list-Keeps, pure-Keeps, fail-Keeps, get_task-Keeps,
  change_job-Keeps, create_checkpoint-Keeps, release_lock-Keeps, update-Keeps, log-Keeps,
}

module _ (P : World → Type 0) (rule : RowRule P) (also : CheckpointRule P) where
  module _ (k : Worker) where
    row : (task_id : String) → Keeps P (log k.env task_id)
    row task_id = log-Keeps P rule k.env task_id

    commit-Keeps :
        (task_id : String) (event : Event) (state : CheckpointState)
        → Keeps P (commit_state k task_id event state)
    unfolding commit_state
    commit-Keeps task_id event state =
        if-Keeps P (is_success event.status) _ _
          (if-Keeps P (is_code_step k event.step_id) _ _
            (if-Keeps P (was_skipped event.output) _ _ (pure-Keeps P state)
              (then-Keeps P _ _ (row task_id) (by_answer (k.git_checkpoint event.step_id))))
            (pure-Keeps P state))
          (pure-Keeps P state)
      where
        by_answer :
            (answer : Option (Option Commit))
            → Keeps P (elim answer [
              | none ↦ log k.env task_id >> pure state
              | some none ↦ pure state
              | some (some commit) ↦
                  log k.env task_id
                  >> pure (record state { empty = commit.is_empty; commit_hash = commit.hash })
            ])
        by_answer none = then-Keeps P _ _ (row task_id) (pure-Keeps P state)
        by_answer (some none) = pure-Keeps P state
        by_answer (some (some commit)) = then-Keeps P _ _ (row task_id) (pure-Keeps P _)

    pub on_event-Keeps :
        (number : ℕ) (task_id job_id : String) (seen : List Event) (event : Event)
        → Keeps P (on_event k number task_id job_id seen event)
    unfolding on_event
    on_event-Keeps number task_id job_id seen event =
        bind-Keeps P _ _ (commit-Keeps task_id event _) (λ state.
          then-Keeps P _ _ (create_checkpoint-Keeps P also task_id _ state) (
            bind-Keeps P _ _ (attempt-Keeps P _ (change_job-Keeps P rule.frame k.env job_id _))
              (λ changed.
                result-Keeps P changed _ _ (λ e. pure-Keeps P _)
                  (λ _. then-Keeps P _ _ (row task_id) (pure-Keeps P _)))))

    pub replay-Keeps :
        (number : ℕ) (task_id job_id : String) (events : List Event) (w : World)
        → P w
        → P (replay k number task_id job_id events w)
    unfolding replay Keeps
    replay-Keeps number task_id job_id [] w h = h
    replay-Keeps number task_id job_id (event ∷ older) w h =
        on_event-Keeps number task_id job_id older event _
          (replay-Keeps number task_id job_id older w h)

  module _ (r : Run) where
    pub put_back-Keeps : (u : _) → Keeps P (put_back r u)
    unfolding put_back
    put_back-Keeps u = then-Keeps P _ _ (row r.worker r.task_id) (
        bind-Keeps P _ _ (attempt-Keeps P _ (change_job-Keeps P rule.frame r.worker.env r.job_id u))
          (λ _. pure-Keeps P tt))

    logged_keeps : (w : World) → P w → P (log r.worker.env r.task_id w).0
    unfolding Keeps
    logged_keeps w h = row r.worker r.task_id w h

    follow-Keeps :
        (max_retries number : ℕ) (next : State → Option Err → World → World × LoopEnd) (s : State)
        (e : Option Err) (w : World) (d : Decision)
        → ((v : World) → P v → P (next s e v).0)
        → P w
        → P (follow r max_retries number next s e w d).0
    unfolding follow Keeps
    follow-Keeps max_retries number next s e w (requeue step) rest h = put_back-Keeps _ w h
    follow-Keeps max_retries number next s e w (sleep_until t) rest h = put_back-Keeps _ w h
    follow-Keeps max_retries number next s e w stop rest h = elim (Bool-cases (is_pausing e)) [
      | inl quiet ↦ rw (quiet, follow) h
      | inr loud ↦ rw (loud, follow) (logged_keeps w h)
    ]
    follow-Keeps max_retries number next s e w again rest h =
        elim (Bool-cases (ltb number max_retries)) [
          | inl more ↦ rw (more, follow) (rest _ (logged_keeps w h))
          | inr last ↦ rw (last, follow) (rest w h)
        ]
    follow-Keeps max_retries number next s e w (wait seconds) rest h = rest _ (logged_keeps w h)

    attempts-Keeps :
        (max_retries number remaining : ℕ) (last : State) (e : Option Err) (w : World)
        → P w
        → P (attempts r max_retries number remaining last e w).0
    unfolding attempts
    attempts-Keeps max_retries number zero last e w h = h
    attempts-Keeps max_retries number (suc n) last e w h =
        elim (Option-cases (run_attempt r number w (reload r number w last.completed))) [
          | inl stuck ↦ rw (stuck, attempts) h
          | inr ((s, e'), ran) ↦
              rw (ran, attempts)
                (follow-Keeps max_retries number (attempts r max_retries (suc number) n) s e' _ _
                  (attempts-Keeps max_retries (suc number) n s e')
                  (replay-Keeps r.worker number r.task_id r.job_id s.events w h))
        ]

  module _ (k : Worker) (update_status : StatusUpdate)
      (updates : (id new : String) → Keeps P (update_status id new)) where
    fail_job-Keeps :
        (task_id job_id text : String) → Keeps P (fail_job k update_status task_id job_id text)
    unfolding fail_job
    fail_job-Keeps task_id job_id text = bind-Keeps P _ _ (asks-Keeps P _) (λ canceled.
        if-Keeps P _ _ _ (pure-Keeps P tt) (
          bind-Keeps P _ _ (attempt-Keeps P _ (updates task_id task_failed)) (λ _.
            bind-Keeps P _ _ (attempt-Keeps P _ (change_job-Keeps P rule.frame k.env job_id _))
              (λ _. row k task_id))))

    or_fail-Keeps :
        {A : Type 0} (task_id job_id : String) (m : Op A) (f : A → Op (Unit {0}))
        → Keeps P m
        → ((a : A) → Keeps P (f a))
        → Keeps P (or_fail k update_status task_id job_id m f)
    unfolding or_fail
    or_fail-Keeps task_id job_id m f first rest =
        bind-Keeps P _ _ (attempt-Keeps P m first)
          (λ r. result-Keeps P r _ _ (λ e. fail_job-Keeps task_id job_id _) rest)

    pub finish_run-Keeps :
        (task_id job_id : String) (e : Option Err)
        → Keeps P (finish_run k update_status task_id job_id e)
    unfolding finish_run
    finish_run-Keeps task_id job_id none =
        or_fail-Keeps task_id job_id _ _ (change_job-Keeps P rule.frame k.env job_id _)
          (λ _. then-Keeps P _ _ (create_checkpoint-Keeps P also task_id _ _) (row k task_id))
    finish_run-Keeps task_id job_id (some e) = bind-Keeps P _ _ (asks-Keeps P _) (λ canceled.
        bind-Keeps P _ _ (asks-Keeps P _) (λ latest.
          if-Keeps P _ _ _
            (bind-Keeps P _ _ (attempt-Keeps P _ (change_job-Keeps P rule.frame k.env job_id _))
              (λ _. row k task_id))
            (fail_job-Keeps task_id job_id _)))

    log_outdated-Keeps :
        (task_id current : String) (cps : List Checkpoint)
        → Keeps P (log_outdated k task_id current cps)
    unfolding log_outdated
    log_outdated-Keeps task_id current [] = pure-Keeps P tt
    log_outdated-Keeps task_id current (cp ∷ rest) =
        then-Keeps P _ _
          (if-Keeps P (is_outdated current cp.state) _ _ (row k task_id) (pure-Keeps P tt))
          (log_outdated-Keeps task_id current rest)

    load-Keeps :
        (task_id job_step status : String)
        → Keeps P (load_checkpoints k update_status task_id job_step status)
    unfolding load_checkpoints
    load-Keeps task_id job_step status = bind-Keeps P _ _ (asks-Keeps P _) (λ checkpoints.
        then-Keeps P _ _ (log_outdated-Keeps task_id _ checkpoints) (
          list-Keeps P _ _ _ (pure-Keeps P _) (
            then-Keeps P _ _ (row k task_id) (
              if-Keeps P _ _ _ (pure-Keeps P _) (
                then-Keeps P _ _ (row k task_id) (
                  bind-Keeps P _ _ (attempt-Keeps P _ (updates task_id _))
                    (λ _. pure-Keeps P _)))))))

    answered-Keeps : (answer : Option String) → Keeps P (answered answer)
    unfolding answered
    answered-Keeps none = pure-Keeps P tt
    answered-Keeps (some text) = fail-Keeps P (Unit {0}) _

    pub prepare-Keeps :
        (task : Task) (job_id : String) → Keeps P (prepare k update_status task job_id)
    unfolding prepare
    prepare-Keeps task job_id = then-Keeps P _ _ (create_checkpoint-Keeps P also task.ident _ _) (
        bind-Keeps P _ _ (given-Keeps P _ (k.assign task job_id)) (λ agent.
          bind-Keeps P _ _ (change_job-Keeps P rule.frame k.env job_id _) (λ _.
            bind-Keeps P _ _ (update-Keeps P rule task.ident _ refl) (λ _.
              then-Keeps P _ _ (row k task.ident) (
                then-Keeps P _ _ (answered-Keeps (k.clone_fails task)) (
                  bind-Keeps P _ _ (if-Keeps P _ _ _ (updates task.ident _) (pure-Keeps P task))
                    (λ _. then-Keeps P _ _ (answered-Keeps (k.mark_running_fails agent)) (
                      then-Keeps P _ _ (create_checkpoint-Keeps P also task.ident _ _)
                        (pure-Keeps P agent)))))))))

    conclude-Keeps :
        (r : Run) (x : World × LoopEnd) → r.worker ≡ k → P x.0 → P (conclude r update_status x).0
    unfolding conclude Keeps
    conclude-Keeps r (w, returned) same h = h
    conclude-Keeps r (w, no_rounds) same h = h
    conclude-Keeps r (w, left s e) same h =
        subst (λ v. P (finish_run v update_status r.task_id r.job_id e w).0) (sym same)
          (finish_run-Keeps r.task_id r.job_id e w h)

    work-Keeps :
        (r : Run) (completed : Dict Object)
        → r.worker ≡ k
        → Keeps P (work r update_status completed)
    unfolding work Keeps
    work-Keeps r completed same w h =
        conclude-Keeps r _ same (attempts-Keeps r _ 1 _ (no_attempt completed) none w h)

    pub run_job-Keeps : (job_id : String) → Keeps P (run_job k update_status job_id)
    unfolding run_job
    run_job-Keeps job_id =
        bind-Keeps P _ _ (attempt-Keeps P _ (change_job-Keeps P rule.frame k.env job_id _))
          (λ started. bind-Keeps P _ _ (asks-Keeps P _) (λ found.
            result-Keeps P started _ _ (λ e. pure-Keeps P tt)
              (λ _. option-Keeps P found _ _ (pure-Keeps P tt) (λ job.
                then-Keeps P _ _
                  (or_fail-Keeps job.task_id job_id _ _ (get_task-Keeps P job.task_id) (λ task.
                    or_fail-Keeps job.task_id job_id _ _ (prepare-Keeps task job_id) (λ agent.
                      bind-Keeps P _ _ (load-Keeps job.task_id job.step task.status)
                        (λ loaded. work-Keeps _ _ refl))))
                  (release_lock-Keeps P rule.frame job.task_id)))))
