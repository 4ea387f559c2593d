-- ===== src/Orchestrator/Reject/Reruns.antt =====
-- What is run again after a rejection of a pull request.
use auto_dev_os.Base.{
  ℕ, ◌<◌, String, ◌≡◌, refl, sym, subst, Bool, true, false, ◌||◌, Option, some, List, [], ◌∷◌, ◌++◌,
  Memᴰ, ◌==◌, any, mem-filter, mem-filter_of_mem,
}
use auto_dev_os.Base.Counts.{count, Rearranges}
use auto_dev_os.Base.Dict.{Dict, IsKey}
use auto_dev_os.Workflow.Schema.{Object}
use auto_dev_os.Workflow.Step.{Err}
use auto_dev_os.Workflow.Engine.{State}
use auto_dev_os.Workflow.Engine.Idle.{run_internal_idle}
use auto_dev_os.Orchestrator.World.{World, Env, Checkpoint, create_checkpoint, blank_state}
use auto_dev_os.Orchestrator.Checkpoints.{
  is_restored, is_cleared, list_checkpoints, delete_checkpoints, repair_steps,
}
use auto_dev_os.Orchestrator.Decomposition.{update_task_status}
use auto_dev_os.Orchestrator.Reject.{reject}
use auto_dev_os.Orchestrator.Reject.Tables.{reject-Keeps}
use auto_dev_os.Orchestrator.Keeps.{RowRule, Keeps}
use auto_dev_os.Orchestrator.Calls.{update_task_status-Keeps}
use auto_dev_os.Orchestrator.Worker.Attempts.{Run, definition_of, engine_of, reload, run_attempt}
use auto_dev_os.Orchestrator.Worker.Resumes.{
  steps_of, reload-IsKey, definition_accepted, attempt_runs,
}

mem-left : {A : Type 0} {x : A} (xs ys : List A) → Memᴰ x xs → Memᴰ x (xs ++ ys)
mem-left [] ys m = elim m [ ]
mem-left (y ∷ rest) ys (Memᴰ.head e) = Memᴰ.head e
mem-left (y ∷ rest) ys (Memᴰ.tail m) = Memᴰ.tail (mem-left rest ys m)

-- Among the checkpoints is one of the step that counts for a job with that step.
pub record IsRestored (current job_step k : String) (cps : List Checkpoint) : Type 0 where
  pub checkpoint : Checkpoint
  pub listed : Memᴰ checkpoint cps
  pub named : checkpoint.step ≡ k
  pub kept : is_restored current job_step checkpoint ≡ true

-- No pattern of the repair takes the step.
abbrev pub Survives : (String → String → Bool) → String → Type 0
Survives like k = any (λ p. k == p.0 || like k p.1) repair_steps ≡ false

module _ (current job_step id k : String) where
  abbrev Stays : World → Type 0
  Stays w = IsRestored current job_step k (list_checkpoints id w)

  Stays-rule : RowRule Stays
  unfolding list_checkpoints
  Stays-rule = record {
    on_row = λ w other task input found valid h. h;
    frame = record {
      on_jobs = λ w jobs h. h;
      on_logs = λ w logs h. h;
      on_cancelled = λ w cancelled h. h;
      on_released = λ w released h. h;
      on_fuel = λ w h. h;
    };
  }

  IsRestored-moved :
      (cps cps' : List Checkpoint)
      → ((cp : Checkpoint) → Memᴰ cp cps → cp.step ≡ k → Memᴰ cp cps')
      → IsRestored current job_step k cps
      → IsRestored current job_step k cps'
  IsRestored-moved cps cps' moves h = record {
    checkpoint = h.checkpoint;
    listed = moves h.checkpoint h.listed h.named;
    named = h.named;
    kept = h.kept;
  }

  create-Stays : (step : String) → Keeps Stays (create_checkpoint id step blank_state)
  unfolding Keeps create_checkpoint list_checkpoints
  create-Stays step w h =
      IsRestored-moved _ _
        (λ cp m named.
          let (stored, own) = mem-filter (λ c. c.task_id == id) w.checkpoints m in
          mem-filter_of_mem (λ c. c.task_id == id) _ (mem-left w.checkpoints _ stored) own)
        h

  delete-Stays :
      (like : String → String → Bool)
      → Survives like k
      → Keeps Stays (delete_checkpoints like id repair_steps)
  unfolding Keeps delete_checkpoints list_checkpoints
  delete-Stays like survives w h =
      IsRestored-moved _ _
        (λ cp m named.
          let (stored, own) = mem-filter (λ c. c.task_id == id) w.checkpoints m in
          let spared : is_cleared like repair_steps cp ≡ false = uncleared cp named in
          mem-filter_of_mem (λ c. c.task_id == id) _
            (mem-filter_of_mem _ w.checkpoints stored (rw (own, spared) refl)) own)
        h
    where
      uncleared : (cp : Checkpoint) → cp.step ≡ k → is_cleared like repair_steps cp ≡ false
      uncleared cp named =
          unfold is_cleared in
          subst (λ j. any (λ p. j == p.0 || like j p.1) repair_steps ≡ false) (sym named) survives

-- After a rejection of a pull request the next attempt runs no step: if each step of the pipeline had
-- a checkpoint that counts before the rejection, the attempt has no event, and so nothing answers the
-- feedback. The conditions are that the database's LIKE takes no step of the pipeline for one of the
-- repair's, and that a range over a map visits each key once.
pub reject_reruns_nothing :
    (like : String → String → Bool) (env : Env) (fuel : ℕ) (feedback : String) (w : World) (r : Run)
    (number : ℕ) (before : Dict Object) (s : State) (e : Option Err)
    → Rearranges r.worker.ranged
    → ((k : String) → 0 < count k (steps_of r number) → Survives like k)
    → ((k : String)
        → 0 < count k (steps_of r number)
        → IsRestored
            (r.worker.analysis number []).spec_hash
            r.step
            k
            (list_checkpoints r.task_id w))
    → let w' = (reject env (update_task_status fuel env) like feedback r.task_id w).0 in
      run_attempt r number w' (reload r number w' before) ≡ some (s, e) → s.events ≡ []
unfolding engine_of
reject_reruns_nothing like env fuel feedback w r number before s e fair survives stored ran =
    let hash = (r.worker.analysis number []).spec_hash in
    let w' = (reject env (update_task_status fuel env) like feedback r.task_id w).0 in
    let (initial, paused_step, runs) = attempt_runs r number w' _ (s, e) ran in
    run_internal_idle (engine_of r number w' (reload r number w' before))
      (definition_of r.worker r.is_parallel number)
      (λ k listed.
        let still = restored k listed in
        subst (λ j. IsKey j (reload r number w' before)) still.named
          (reload-IsKey r number w' before still.checkpoint still.listed still.kept))
      initial paused_step (r.worker.arrival number) r.worker.ranged (s, e)
      (definition_accepted r number fair) runs
  where
    restored :
        (k : String)
        → 0 < count k (steps_of r number)
        → IsRestored (r.worker.analysis number []).spec_hash r.step k (
            list_checkpoints r.task_id
              (reject env (update_task_status fuel env) like feedback r.task_id w).0)
    restored k listed =
        unfold Keeps in
        let stays = Stays (r.worker.analysis number []).spec_hash r.step r.task_id k in
        let rule = Stays-rule (r.worker.analysis number []).spec_hash r.step r.task_id k in
        reject-Keeps stays rule env (update_task_status fuel env)
          (update_task_status-Keeps stays rule env fuel) like feedback r.task_id
          (create-Stays _ r.step r.task_id k "pr_rejection")
          (delete-Stays _ r.step r.task_id k like (survives k listed)) w (stored k listed)
