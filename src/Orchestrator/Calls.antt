-- ===== src/Orchestrator/Calls.antt =====
-- server/internal/orchestrator/decomposition.go and `Execute`: what they do to the table of tasks.
use auto_dev_os.Base.{ℕ, zero, suc, String, refl, Bool}
use auto_dev_os.Status.Task.{merged}
use auto_dev_os.Tasks.Table.{Task}
use auto_dev_os.Orchestrator.World.{World, Env, Op, enqueue_job, wrapped, pure, when, ◌>>=◌, ◌>>◌}
use auto_dev_os.Orchestrator.Tracker.{log}
use auto_dev_os.Orchestrator.Decomposition.{
  StatusUpdate, execute_task, or_log, complete_decomposed_parent, first_unmerged,
  dispatch_next_child_or_reduce, on_child_task_terminal, status_step, update_task_status,
}
use auto_dev_os.Orchestrator.Jobs.{supersede, wrap_error}
use auto_dev_os.Orchestrator.Keeps.{
  option-Keeps, result-Keeps, list-Keeps, FrameRule, RowRule, Keeps, bind-Keeps, then-Keeps,
  attempt-Keeps, asks-Keeps, pure-Keeps, fail-Keeps, if-Keeps, when-Keeps, get_task-Keeps,
  cancel-Keeps, change_job-Keeps, enqueue_job-Keeps, release_lock-Keeps, update-Keeps, log-Keeps,
  write_status-Keeps,
}

pub supersede-Keeps :
    (P : World → Type 0) (frame : FrameRule P) (env : Env) (id : String)
    → Keeps P (supersede env id)
unfolding supersede
supersede-Keeps P frame env id = bind-Keeps P _ _ (asks-Keeps P _) (λ latest.
    option-Keeps P latest _ _ (pure-Keeps P tt) (λ job.
      if-Keeps P _ _ _
        (then-Keeps P _ _ (cancel-Keeps P frame job.ident) (
          bind-Keeps P _ _ (attempt-Keeps P _ (change_job-Keeps P frame env job.ident _))
            (λ r. release_lock-Keeps P frame id)))
        (pure-Keeps P tt)))

module _ (P : World → Type 0) (rule : RowRule P) (env : Env) where
  pub or_log-Keeps : {A : Type 0} (id : String) (m : Op A) → Keeps P m → Keeps P (or_log env id m)
  unfolding or_log
  or_log-Keeps id m h =
      bind-Keeps P _ _ (attempt-Keeps P m h)
        (λ r. result-Keeps P r _ _ (λ e. log-Keeps P rule env id) (λ a. pure-Keeps P tt))

  pub wrap_error-Keeps :
      {A : Type 0} (text : String) (m : Op A) → Keeps P m → Keeps P (wrap_error text m)
  unfolding wrap_error
  wrap_error-Keeps {A = A} text m h =
      bind-Keeps P _ _ (attempt-Keeps P m h)
        (λ r. result-Keeps P r _ _ (λ e. fail-Keeps P A (wrapped text e)) (pure-Keeps P))

  module _ (update_status : StatusUpdate)
      (updates : (id new : String) → Keeps P (update_status id new)) where
    start-Keeps :
        (test : Bool) (id new : String) → Keeps P (when test (update_status id new >> pure tt))
    start-Keeps test id new =
        when-Keeps P test _ (then-Keeps P _ _ (updates id new) (pure-Keeps P tt))

    fresh_job-Keeps :
        (test : Bool) (id new : String)
        → Keeps P (
            when test (update_status id new >> pure tt)
            >> (enqueue_job env id >>= λ ident. log env id >> pure ident))
    fresh_job-Keeps test id new = then-Keeps P _ _ (start-Keeps test id new) (
        bind-Keeps P _ _ (enqueue_job-Keeps P rule.frame env id)
          (λ ident. then-Keeps P _ _ (log-Keeps P rule env id) (pure-Keeps P ident)))

    pub execute_task-Keeps : (id : String) → Keeps P (execute_task env update_status id)
    unfolding execute_task
    execute_task-Keeps id = bind-Keeps P _ _ (get_task-Keeps P id) (λ task.
        bind-Keeps P _ _ (asks-Keeps P _) (λ latest.
          option-Keeps P latest _ _ (fresh_job-Keeps _ id _) (λ job.
            if-Keeps P _ _ _ (pure-Keeps P job.ident) (
              if-Keeps P _ _ _
                (bind-Keeps P _ _ (change_job-Keeps P rule.frame env job.ident _) (λ _.
                  then-Keeps P _ _ (start-Keeps _ id _)
                    (then-Keeps P _ _ (log-Keeps P rule env id) (pure-Keeps P job.ident))))
                (fresh_job-Keeps _ id _)))))

    complete-Keeps : (id : String) → Keeps P (complete_decomposed_parent env update_status id)
    unfolding complete_decomposed_parent
    complete-Keeps id =
        let row = log-Keeps P rule env id in
        bind-Keeps P _ _ (asks-Keeps P _) (λ found. option-Keeps P found _ _ row (λ task.
          then-Keeps P _ _ row (
            then-Keeps P _ _ row (
              then-Keeps P _ _ row
                (then-Keeps P _ _ row (or_log-Keeps id _ (updates id merged)))))))

    pub dispatch-Keeps :
        (id : String) → Keeps P (dispatch_next_child_or_reduce env update_status id)
    unfolding dispatch_next_child_or_reduce
    dispatch-Keeps id = bind-Keeps P _ _ (asks-Keeps P _) (λ ordered.
        option-Keeps P (first_unmerged ordered) _ _
          (list-Keeps P ordered _ _ (pure-Keeps P tt) (complete-Keeps id))
          (λ child.
            if-Keeps P _ _ _
              (then-Keeps P _ _ (attempt-Keeps P _ (execute_task-Keeps child.ident))
                (log-Keeps P rule env id))
              (pure-Keeps P tt)))

    terminal-Keeps :
        (child : Task) (success : Bool)
        → Keeps P (on_child_task_terminal env update_status child success)
    unfolding on_child_task_terminal
    terminal-Keeps child success =
        option-Keeps P child.parent_task_id _ _ (pure-Keeps P tt) (λ owner.
          bind-Keeps P _ _ (asks-Keeps P _) (λ found.
            option-Keeps P found _ _ (pure-Keeps P tt) (λ parent.
              option-Keeps P parent.decomposition_mode _ _ (pure-Keeps P tt) (λ mode.
                if-Keeps P success _ _ (dispatch-Keeps parent.ident) (
                  then-Keeps P _ _ (or_log-Keeps _ _ (update-Keeps P rule _ _ refl)) (
                    then-Keeps P _ _ (or_log-Keeps _ _ (updates _ _))
                      (log-Keeps P rule env parent.ident)))))))

    step-Keeps : (id new : String) → Keeps P (status_step env update_status id new)
    unfolding status_step
    step-Keeps id new = bind-Keeps P _ _ (write_status-Keeps P rule env id new) (λ updated.
        then-Keeps P _ _ (when-Keeps P _ _ (terminal-Keeps updated _)) (pure-Keeps P updated))

  pub update_task_status-Keeps :
      (fuel : ℕ) (id new : String) → Keeps P (update_task_status fuel env id new)
  unfolding update_task_status Keeps
  update_task_status-Keeps zero id new w h = rule.frame.on_fuel w h
  update_task_status-Keeps (suc n) id new w h =
      step-Keeps (update_task_status n env) (update_task_status-Keeps n) id new w h
