-- ===== src/Workflow/Engine/Success.antt =====
-- What it means that `runInternal` returns without an error.
use auto_dev_os.Base.{
  ℕ, zero, suc, ◌<◌, String, ◌≡◌, refl, true, Option, none, some, List, [], ◌∷◌, arith, inl, inr,
  Option-cases, List-cases, take, length,
}
use auto_dev_os.Base.Counts.{count, Rearranges}
use auto_dev_os.Base.Dict.{Dict, lookup, IsKey, is_key_iff, get_or_of_lookup, get_or_of_absent}
use auto_dev_os.Workflow.Schema.{Object}
use auto_dev_os.Workflow.Step.{Err, StepStatus, unset, success, StepDefinition, Definition}
use auto_dev_os.Workflow.Graph.{validate_definition}
use auto_dev_os.Workflow.Graph.Build.{idents}
use auto_dev_os.Workflow.Graph.Valid.{accepted_iff_IsValid}
use auto_dev_os.Workflow.Engine.{
  Engine, State, Arrival, status_of, is_finished, ready_steps, limit, all_finished, finish,
  run_round, rounds, start_state, continue_with, run_internal,
}
use auto_dev_os.Workflow.Engine.Induction.{Delivers}
use auto_dev_os.Workflow.Engine.Invariant.{Holds, won_of_finished}
use auto_dev_os.Workflow.Engine.Causal.{Done, rounds-Inv}

all_finished-each :
    (status : Dict StepStatus) (k : String) (v : StepStatus)
    → all_finished status ≡ true
    → lookup k status ≡ some v
    → is_finished v ≡ true
unfolding all_finished lookup
all_finished-each [] k v h found = cc
all_finished-each ((j, w) ∷ rest) k v h found = ground (arith, all_finished-each rest k v)

continue-none :
    (next : State → Option (State × Option Err)) (q r : State × Option Err)
    → continue_with next q ≡ some r
    → r.1 ≡ none
    → next q.0 ≡ some r
unfolding continue_with
continue-none next (s, some x) r h clean = absurd (ground arith)
continue-none next (s, none) r h clean = h

finish-clean :
    (s : State) (r : State × Option Err)
    → r ≡ finish s
    → r.1 ≡ none
    → all_finished r.0.status ≡ true
unfolding finish
finish-clean s r h clean = ground arith

rounds-clean :
    (e : Engine) (def : Definition) (initial : Object) (paused_step : String) (arrival : Arrival)
    (fuel : ℕ) (s : State) (r : State × Option Err)
    → rounds e def initial paused_step arrival fuel s ≡ some r
    → r.1 ≡ none
    → all_finished r.0.status ≡ true
unfolding rounds
rounds-clean e def initial paused_step arrival zero s r h clean = cc
rounds-clean e def initial paused_step arrival (suc fuel) s r h clean =
    elim (List-cases (ready_steps def.steps s.status)) [
      | inl idle ↦ finish-clean s r (ground arith) clean
      | inr (step, more, ready) ↦
          let q =
            run_round e def initial paused_step arrival (take (limit e.max_parallel) (step ∷ more))
              s in
          rounds-clean e def initial paused_step arrival fuel q.0 r
            (continue-none (rounds e def initial paused_step arrival fuel) q r (ground arith) clean)
            clean
    ]

finished-won :
    (steps : List StepDefinition) (s : State) (k : String)
    → Holds steps s
    → all_finished s.status ≡ true
    → 0 < count k (idents steps)
    → status_of s k ≡ success
finished-won steps s k holds finished listed = elim (Option-cases (lookup k s.status)) [
  | inl absent ↦ absurd (holds.listed k listed (get_or_of_absent unset k s.status absent))
  | inr (v, found) ↦
      let same : status_of s k ≡ v = get_or_of_lookup unset k s.status found in
      won_of_finished _ (rw (same) (all_finished-each s.status k v finished found))
        (holds.unskipped k)
]

-- A run that returns no error has succeeded in every step: each step's status is success, its output
-- is among the results, and its success is among the events unless a checkpoint restored it. The
-- conditions are that the channel delivers the round's results and nothing else and that the range
-- over the map of nodes visits each node once.
pub run_internal-success :
    (e : Engine) (def : Definition) (initial : Object) (paused_step : String) (arrival : Arrival)
    (ranged : List String → List String) (s : State) (k : String)
    → Delivers arrival
    → Rearranges ranged
    → run_internal e def initial paused_step arrival ranged ≡ some (s, none)
    → 0 < count k (idents def.steps)
    → (status_of s k ≡ success) × IsKey k s.outputs × Done e def s.events k
unfolding run_internal
run_internal-success e def initial paused_step arrival ranged s k delivers fair h listed =
    elim (Option-cases (validate_definition ranged def.steps)) [
      | inr (x, invalid) ↦ absurd (ground arith)
      | inl valid ↦
          let fuel = suc (length def.steps) in
          let ran : rounds e def initial paused_step arrival fuel (start_state e def)
              ≡ some (s, none) =
            ground arith in
          let (inv, holds) =
            rounds-Inv e def initial paused_step arrival delivers
              ((accepted_iff_IsValid ranged def.steps fair).0 valid).once fuel ran in
          let finished =
            rounds-clean e def initial paused_step arrival fuel (start_state e def) (s, none) ran
              refl in
          let won = finished-won def.steps s k holds finished listed in
          (won, (is_key_iff k s.outputs).0 (holds.stored k won), inv.recorded k won)
    ]
