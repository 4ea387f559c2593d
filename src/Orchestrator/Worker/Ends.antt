-- ===== src/Orchestrator/Worker/Ends.antt =====
-- How the loop of attempts of server/internal/orchestrator/worker.go ends.
use auto_dev_os.Base.{
  ℕ, zero, suc, ◌<◌, String, ◌≡◌, ◌≢◌, ap, ◌∙◌, Option, none, some, ◌==◌, Bool-cases, Option-cases,
  inl, inr, if◌then◌else◌, ltb,
}
use auto_dev_os.Base.Counts.{count, Rearranges}
use auto_dev_os.Base.Dict.{Dict, IsKey}
use auto_dev_os.Workflow.Schema.{Object}
use auto_dev_os.Workflow.Step.{Err, success}
use auto_dev_os.Workflow.Graph.Build.{idents}
use auto_dev_os.Workflow.Engine.{State, status_of, run, resume}
use auto_dev_os.Workflow.Engine.Induction.{Delivers}
use auto_dev_os.Workflow.Engine.Success.{run_internal-success}
use auto_dev_os.Workflow.Engine.Rounds.{run_internal_total}
use auto_dev_os.Orchestrator.World.{World}
use auto_dev_os.Orchestrator.Worker.Attempts.{
  Run, LoopEnd, left, no_rounds, Decision, requeue, sleep_until, stop, again, wait, definition_of,
  inputs_of, engine_of, reload, run_attempt, decide, follow, attempts,
}
use auto_dev_os.Orchestrator.Worker.Resumes.{attempt_runs}

module _ (r : Run) (max_retries : ℕ) where
  -- The last attempt returned no error.
  record Won (s : State) : Type 0 where
    number : ℕ
    world : World
    completed : Dict Object
    ran : run_attempt r number world completed ≡ some (s, none)

  -- The loop has an attempt left, or an error.
  Started : ℕ → Option Err → Type 0
  Started zero none = ⊥
  Started zero (some e) = Unit
  Started (suc n) e = Unit

  module _ (number : ℕ) (next : State → Option Err → World → World × LoopEnd) (s s' : State)
      (w w' : World) where
    follow_on :
        (e : Err) (d : Decision)
        → follow r max_retries number next s (some e) w d ≡ (w', left s' none)
        → (v : World) × (next s (some e) v ≡ (w', left s' none))
    unfolding follow
    follow_on e (requeue step) h = cc (ap (λ x. x.1) h)
    follow_on e (sleep_until t) h = cc (ap (λ x. x.1) h)
    follow_on e stop h = cc (ap (λ x. x.1) h)
    follow_on e again h = (_, h)
    follow_on e (wait seconds) h = (_, h)

    follow_stop :
        follow r max_retries number next s none w (decide number max_retries none)
          ≡ (w', left s' none)
        → s ≡ s'
    unfolding follow decide
    follow_stop h = cc (ap (λ x. x.1) h)

  attempts-Won :
      (remaining number : ℕ) (last : State) (e : Option Err) (w w' : World) (s : State)
      → Started remaining e
      → attempts r max_retries number remaining last e w ≡ (w', left s none)
      → Won s
  unfolding attempts Started
  attempts-Won zero number last none w w' s started h = absurd started
  attempts-Won zero number last (some e) w w' s started h = cc (ap (λ x. x.1) h)
  attempts-Won (suc n) number last e w w' s started h =
      elim (Option-cases (run_attempt r number w (reload r number w last.completed))) [
        | inl stuck ↦ cc (ap (λ x. x.1) (rw (stuck, attempts) at h))
        | inr ((s0, none), ran) ↦
            let same = follow_stop number _ s0 s _ w' (rw (ran, attempts) at h) in
            record {
              number = number;
              world = w;
              completed = reload r number w last.completed;
              ran = ran ∙ ap (λ x. some (x, none)) same;
            }
        | inr ((s0, some e0), ran) ↦
            let (v, later) = follow_on number _ s0 s _ w' e0 _ (rw (ran, attempts) at h) in
            attempts-Won n (suc number) s0 (some e0) v w' s (started_again n e0) later
      ]
    where
      started_again : (m : ℕ) (e0 : Err) → Started m (some e0)
      started_again zero e0 = tt
      started_again (suc m) e0 = tt

-- The loop of attempts leaves no error only if every step of the pipeline has succeeded: its status
-- is success and its output is among the results of the last attempt. The conditions are that there
-- is an attempt, that the channels deliver the rounds' results and nothing else, and that a range
-- over a map visits each key once.
pub attempts-success :
    (r : Run) (max_retries remaining : ℕ) (last : State) (w w' : World) (s : State)
    → ((number : ℕ) → Delivers (r.worker.arrival number))
    → Rearranges r.worker.ranged
    → attempts r max_retries 1 (suc remaining) last none w ≡ (w', left s none)
    → (k : String)
    → ((number : ℕ) → 0 < count k (idents (definition_of r.worker r.is_parallel number).steps))
    → (status_of s k ≡ success) × IsKey k s.outputs
unfolding Started
attempts-success r max_retries remaining last w w' s delivers fair h k listed =
    let won = attempts-Won r max_retries (suc remaining) 1 last none w w' s tt h in
    let (initial, paused_step, runs) =
      attempt_runs r won.number won.world won.completed (s, none) won.ran in
    let all_won =
      run_internal-success (engine_of r won.number won.world won.completed)
        (definition_of r.worker r.is_parallel won.number) initial paused_step
        (r.worker.arrival won.number) r.worker.ranged s k (delivers won.number) fair runs
        (listed won.number) in
    (all_won.0, all_won.1)

module _ (r : Run) (max_retries : ℕ) where
  pub attempt_total :
      (number : ℕ) (w : World) (completed : Dict Object)
      → (x : State × Option Err) × (run_attempt r number w completed ≡ some x)
  unfolding run_attempt run resume
  attempt_total number w completed =
      let session = if ltb 1 number then r.worker.resume_session number else none in
      let inputs = inputs_of r.task_id r.agent_id r.job_id r.step session in
      let runs = λ (paused_step : String).
        run_internal_total (engine_of r number w completed)
          (definition_of r.worker r.is_parallel number) inputs paused_step (r.worker.arrival number)
          r.worker.ranged in
      elim (Bool-cases (r.resumed == "")) [
        | inl fresh ↦ ((runs "").0, rw (fresh, run_attempt) (runs "").1)
        | inr again_ ↦ ((runs r.resumed).0, rw (again_, run_attempt) (runs r.resumed).1)
      ]

  follow_total :
      (number : ℕ) (next : State → Option Err → World → World × LoopEnd) (s : State)
      (e : Option Err) (w : World) (d : Decision)
      → ((v : World) → (next s e v).1 ≢ no_rounds)
      → (follow r max_retries number next s e w d).1 ≢ no_rounds
  unfolding follow
  follow_total number next s e w (requeue step) rest h = cc
  follow_total number next s e w (sleep_until t) rest h = cc
  follow_total number next s e w stop rest h = cc
  follow_total number next s e w again rest h = rest _ h
  follow_total number next s e w (wait seconds) rest h = rest _ h

-- Every attempt of the loop runs to its end: the engine never runs out of rounds, whatever the steps
-- and the tables answer.
pub attempts_total :
    (r : Run) (max_retries number remaining : ℕ) (last : State) (e : Option Err) (w : World)
    → (attempts r max_retries number remaining last e w).1 ≢ no_rounds
unfolding attempts
attempts_total r max_retries number zero last e w h = cc
attempts_total r max_retries number (suc n) last e w h =
    let ((s, e'), ran) = attempt_total r max_retries number w (reload r number w last.completed) in
    follow_total r max_retries number (attempts r max_retries (suc number) n) s e' _ _
      (attempts_total r max_retries (suc number) n s e') (rw (ran, attempts) at h)
