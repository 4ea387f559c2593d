-- ===== src/Orchestrator/Worker/Resumes.antt =====
-- What the worker of server/internal/orchestrator/worker.go runs again, and what it does not.
use auto_dev_os.Base.{
  ℕ, ◌<◌, String, ◌≡◌, ◌≢◌, refl, sym, ap, ◌∙◌, subst, Bool, true, false, Option, none, some, List,
  [], ◌∷◌, Memᴰ, ◌==◌, eq_self, Bool-cases, inl, inr, if◌then◌else◌, All,
}
use auto_dev_os.Base.Counts.{count, Rearranges}
use auto_dev_os.Base.Dict.{Dict, IsKey, get_or, insert, is_key, is_key_iff, is_key-insert}
use auto_dev_os.Workflow.Schema.{Object}
use auto_dev_os.Workflow.Step.{Err, unset, success}
use auto_dev_os.Workflow.Graph.{validate_definition}
use auto_dev_os.Workflow.Graph.Build.{idents}
use auto_dev_os.Workflow.Pipelines.Runs.{pipelines_accepted}
use auto_dev_os.Workflow.Engine.{State, run_internal, run, resume}
use auto_dev_os.Workflow.Engine.Induction.{Delivers}
use auto_dev_os.Workflow.Engine.Restored.{run_internal-restored}
use auto_dev_os.Orchestrator.World.{World, Checkpoint}
use auto_dev_os.Orchestrator.Checkpoints.{is_restored, completed_of, list_checkpoints}
use auto_dev_os.Orchestrator.Worker.Attempts.{
  Run, definition_of, includes_cross_review, engine_of, reload, run_attempt,
}

module _ (json : Object → Object) (current job_step : String) where
  insert-IsKey : (k j : String) (o : Object) (m : Dict Object) → IsKey k m → IsKey k (insert j o m)
  insert-IsKey k j o m h = (is_key_iff k (insert j o m)).0 (is_key-insert j k o m ∙ either (j == k))
    where
      either : (own : Bool) → (if own then true else is_key k m) ≡ true
      either true = refl
      either false = (is_key_iff k m).1 h

  insert_own-IsKey : (k : String) (o : Object) (m : Dict Object) → IsKey k (insert k o m)
  insert_own-IsKey k o m =
      (is_key_iff k (insert k o m)).0
        (is_key-insert k k o m ∙ ap (λ own. if own then true else is_key k m) (eq_self k))

  completed_kept-IsKey :
      (k : String) (cps : List Checkpoint) (acc : Dict Object)
      → IsKey k acc
      → IsKey k (completed_of json current job_step cps acc)
  unfolding completed_of
  completed_kept-IsKey k [] acc h = h
  completed_kept-IsKey k (cp ∷ rest) acc h = elim (Bool-cases (is_restored current job_step cp)) [
    | inl kept ↦
        rw (kept, completed_of) (completed_kept-IsKey k rest _ (insert-IsKey k cp.step _ acc h))
    | inr left_out ↦ rw (left_out, completed_of) (completed_kept-IsKey k rest acc h)
  ]

  completed-IsKey :
      (cps : List Checkpoint) (acc : Dict Object) (cp : Checkpoint)
      → Memᴰ cp cps
      → is_restored current job_step cp ≡ true
      → IsKey cp.step (completed_of json current job_step cps acc)
  unfolding completed_of
  completed-IsKey [] acc cp m kept = elim m [ ]
  completed-IsKey (first ∷ rest) acc cp (Memᴰ.head e) kept =
      let own : is_restored current job_step first ≡ true =
        subst (λ c. is_restored current job_step c ≡ true) e kept in
      subst (λ c. IsKey c.step (completed_of json current job_step (first ∷ rest) acc)) (sym e)
        (rw (own, completed_of)
          (completed_kept-IsKey first.step rest _ (insert_own-IsKey first.step _ acc)))
  completed-IsKey (first ∷ rest) acc cp (Memᴰ.tail m) kept = completed-IsKey rest _ cp m kept

module _ (r : Run) (number : ℕ) where
  -- The steps of the attempt's definition.
  abbrev pub steps_of : List String
  steps_of = idents (definition_of r.worker r.is_parallel number).steps

  pub definition_accepted :
      Rearranges r.worker.ranged
      → validate_definition r.worker.ranged (definition_of r.worker r.is_parallel number).steps
        ≡ none
  unfolding definition_of
  definition_accepted fair =
      let accepted =
        pipelines_accepted (r.worker.runners number)
          (includes_cross_review r.worker.review_harness_policy) r.worker.ranged fair in
      elim (Bool-cases r.is_parallel) [
        | inl both ↦ rw (both, definition_of) accepted.1
        | inr one ↦ rw (one, definition_of) accepted.0
      ]

module _ (r : Run) (number : ℕ) (w : World) where
  abbrev hash : String
  hash = (r.worker.analysis number []).spec_hash

  pub reload-IsKey :
      (before : Dict Object) (cp : Checkpoint)
      → Memᴰ cp (list_checkpoints r.task_id w)
      → is_restored hash r.step cp ≡ true
      → IsKey cp.step (reload r number w before)
  unfolding reload
  reload-IsKey before cp m kept = by_list (list_checkpoints r.task_id w) m
    where
      by_list :
          (cps : List Checkpoint)
          → Memᴰ cp cps
          → IsKey cp.step (elim cps [
            | [] ↦ before
            | first ∷ rest ↦ completed_of r.worker.json hash r.step (first ∷ rest) []
          ])
      by_list [] n = elim n [ ]
      by_list (first ∷ rest) n =
          completed-IsKey r.worker.json hash r.step (first ∷ rest) [] cp n kept

  -- An attempt is one run of the engine, with or without a step that was paused.
  pub attempt_runs :
      (completed : Dict Object) (x : State × Option Err)
      → run_attempt r number w completed ≡ some x
      → (initial : Object) × (paused_step : String) × (run_internal
            (engine_of r number w completed)
            (definition_of r.worker r.is_parallel number)
            initial
            paused_step
            (r.worker.arrival number)
            r.worker.ranged
          ≡ some x)
  unfolding run_attempt run resume
  attempt_runs completed x h = elim (Bool-cases (r.resumed == "")) [
    | inl fresh ↦ (_, "", rw (fresh, run_attempt) at h)
    | inr again_ ↦ (_, r.resumed, rw (again_, run_attempt) at h)
  ]

-- A step with a checkpoint that counts is not run again by an attempt: its status is success at the
-- end, and none of the events is the step's, so that no checkpoint of it is written either. The
-- conditions are that the step is one of the pipeline and the checkpoint one of the task, that the
-- channel delivers a round's results and nothing else, and that a range over a map visits each key
-- once.
pub attempt-resumes :
    (r : Run) (number : ℕ) (w : World) (before : Dict Object) (cp : Checkpoint) (s : State)
    (e : Option Err)
    → Delivers (r.worker.arrival number)
    → Rearranges r.worker.ranged
    → Memᴰ cp (list_checkpoints r.task_id w)
    → is_restored (r.worker.analysis number []).spec_hash r.step cp ≡ true
    → 0 < count cp.step (steps_of r number)
    → run_attempt r number w (reload r number w before) ≡ some (s, e)
    → (get_or unset cp.step s.status ≡ success) × All (λ ev. ev.step_id ≢ cp.step) s.events
unfolding engine_of
attempt-resumes r number w before cp s e delivers fair stored kept listed ran =
    let (initial, paused_step, runs) = attempt_runs r number w _ (s, e) ran in
    run_internal-restored (engine_of r number w (reload r number w before))
      (definition_of r.worker r.is_parallel number) initial paused_step (r.worker.arrival number)
      r.worker.ranged (s, e) cp.step delivers (definition_accepted r number fair) listed
      (reload-IsKey r number w before cp stored kept) runs
