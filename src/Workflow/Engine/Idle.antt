-- ===== src/Workflow/Engine/Idle.antt =====
-- A run in which a checkpoint has restored every step.
use auto_dev_os.Base.{
  ◌<◌, String, ◌≡◌, ◌≢◌, refl, sym, ap, ◌∙◌, subst, Option, none, some, List, [], ◌∷◌, Memᴰ,
  Bool-cases, List-cases, inl, inr,
}
use auto_dev_os.Base.Counts.{count}
use auto_dev_os.Base.Dict.{Dict, IsKey}
use auto_dev_os.Workflow.Schema.{Object}
use auto_dev_os.Workflow.Step.{Err, pending, success, StepDefinition, Definition}
use auto_dev_os.Workflow.Graph.{validate_definition}
use auto_dev_os.Workflow.Graph.Build.{idents}
use auto_dev_os.Workflow.Engine.{
  Engine, State, Arrival, ready_steps, finish, rounds, start_state, seed, has_step, run_internal,
}
use auto_dev_os.Workflow.Engine.Invariant.{count-idents_of_mem}
use auto_dev_os.Workflow.Engine.Restored.{start-Untouched}
use auto_dev_os.Workflow.Engine.Rounds.{ready-pending}

seed-events :
    (steps : List StepDefinition) (restored : Dict Object) (s : State)
    → (seed steps restored s).events ≡ s.events
unfolding seed
seed-events steps [] s = refl
seed-events steps ((k, o) ∷ rest) s = elim (Bool-cases (has_step k steps)) [
  | inl own ↦ rw (own, seed) (seed-events steps rest _)
  | inr other ↦ rw (other, seed) (seed-events steps rest s)
]

start-events : (e : Engine) (def : Definition) → (start_state e def).events ≡ []
unfolding start_state
start-events e def = seed-events def.steps e.completed_steps _

module _ (e : Engine) (def : Definition)
    (restored : (k : String) → 0 < count k (idents def.steps) → IsKey k e.completed_steps) where
  idle_start : ready_steps def.steps (start_state e def).status ≡ []
  idle_start = elim (List-cases (ready_steps def.steps (start_state e def).status)) [
    | inl idle ↦ idle
    | inr (step, more, ready) ↦
        let (listed, waits) =
          ready-pending def.steps (start_state e def).status
            (subst (Memᴰ step) (sym ready) (Memᴰ.head refl)) in
        let named = count-idents_of_mem def.steps listed in
        let won = (start-Untouched step.ident e def named (restored step.ident named)).won in
        absurd (pending-ne-success (sym waits ∙ won))
  ]
    where
      pending-ne-success : pending ≢ success
      pending-ne-success c = cc

  -- The run ends at once.
  pub run_internal_idle :
      (initial : Object) (paused_step : String) (arrival : Arrival)
      (ranged : List String → List String) (r : State × Option Err)
      → validate_definition ranged def.steps ≡ none
      → run_internal e def initial paused_step arrival ranged ≡ some r
      → r.0.events ≡ []
  unfolding run_internal rounds finish
  run_internal_idle initial paused_step arrival ranged r valid h =
      let ended : some (finish (start_state e def)) ≡ some r =
        rw (valid, run_internal, idle_start, rounds) at h in
      let same : finish (start_state e def) ≡ r = cc in
      sym (ap (λ (x : State × Option Err). x.0.events) same) ∙ start-events e def
