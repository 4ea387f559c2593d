-- ===== src/Workflow/Engine/Induction.antt =====
-- Rules for invariants of the rounds: what the primitive steps of a round keep, the round keeps,
-- and what each round keeps holds of the state that `runInternal` returns.
use auto_dev_os.Base.{
  ℕ, zero, suc, String, ◌≡◌, refl, sym, ap, subst, ◌↔◌, Option, none, some, List, [], ◌∷◌, Memᴰ,
  arith, All, All-of_mem, map, take, mem-take, List-cases, inl, inr, ◌⊎◌,
}
use auto_dev_os.Workflow.Schema.{Object}
use auto_dev_os.Workflow.Step.{Err, Event, StepDefinition, Definition, produced, broke}
use auto_dev_os.Workflow.Engine.{
  Engine, State, Finished, Arrival, start_step, and_then, launch, fail_step, succeed_step, collect,
  run_one, run_round, ready_steps, limit, finish, continue_with, rounds,
}

-- The channel delivers the results of the round, and nothing else.
abbrev pub Delivers : Arrival → Type 0
Delivers arrival =
    (events : List Event) (items : List Finished) (item : Finished)
    → Memᴰ item (arrival events items) ↔ Memᴰ item items

pub and_then_ind :
    (P : State → Type 0) (r : State × Option Err) (next : State → State × Option Err)
    → P r.0
    → ((s : State) → P s → P (next s).0)
    → P (and_then r next).0
unfolding and_then
and_then_ind P (s, some x) next h keep = h
and_then_ind P (s, none) next h keep = keep s h

-- `Allowed` is what the round's start guarantees of the steps that it starts.
pub record RoundRule (e : Engine) (paused_step : String) (Allowed : String → Type 0)
    (P : State → Type 0) : Type 0 where
  pub starts :
      (step : StepDefinition) (s : State)
      → Allowed step.ident
      → P s
      → P (start_step e paused_step step s).0
  pub fails : (k : String) (x : Err) (s : State) → Allowed k → P s → P (fail_step e k x s)
  pub succeeds :
      (k : String) (o : Object) (s : State) → Allowed k → P s → P (succeed_step e k o s).0

module _ {e : Engine} {paused_step : String} {Allowed : String → Type 0} {P : State → Type 0}
    (rule : RoundRule e paused_step Allowed P) where
  pub launch_ind :
      (batch : List StepDefinition) (s : State)
      → All (λ step. Allowed step.ident) batch
      → P s
      → P (launch e paused_step batch s).0
  unfolding launch
  launch_ind [] s allowed h = h
  launch_ind (step ∷ rest) s allowed h =
      and_then_ind P (start_step e paused_step step s) (launch e paused_step rest)
        (rule.starts step s allowed.0 h) (λ s'. launch_ind rest s' allowed.1)

  pub collect_ind :
      (items : List Finished) (err : Option Err) (s : State)
      → All (λ item. Allowed item.ident) items
      → P s
      → P (collect e items err s).0
  unfolding collect
  collect_ind [] err s allowed h = h
  collect_ind (item ∷ rest) err s allowed h =
      elim item.result
        as (λ result.
          P
            (elim result as (λ _. State × Option Err) [
              | broke x ↦ collect e rest (some x) (fail_step e item.ident x s)
              | produced o ↦ and_then (succeed_step e item.ident o s) (collect e rest err)
            ]).0) [
              | broke x ↦
                  collect_ind rest (some x) _ allowed.1 (rule.fails item.ident x s allowed.0 h)
              | produced o ↦
                  and_then_ind P (succeed_step e item.ident o s) (collect e rest err)
                    (rule.succeeds item.ident o s allowed.0 h)
                    (λ s'. collect_ind rest err s' allowed.1)
            ]

run_one-ident :
    (name : String) (initial : Object) (s : State) (Allowed : String → Type 0)
    (batch : List StepDefinition) {item : Finished}
    → All (λ step. Allowed step.ident) batch
    → Memᴰ item (map (run_one name initial s) batch)
    → Allowed item.ident
unfolding run_one
run_one-ident name initial s Allowed [] allowed m = elim m [ ]
run_one-ident name initial s Allowed (step ∷ rest) allowed (Memᴰ.head same) =
    subst Allowed (sym (ap (λ (f : Finished). f.ident) same)) allowed.0
run_one-ident name initial s Allowed (step ∷ rest) allowed (Memᴰ.tail m) =
    run_one-ident name initial s Allowed rest allowed.1 m

-- How the loop goes on: it returns the round's result, or the next rounds give the result.
pub continue-cases :
    (next : State → Option (State × Option Err)) (q : State × Option Err) {r : State × Option Err}
    → continue_with next q ≡ some r
    → (r ≡ q) ⊎ ((q.1 ≡ none) × (next q.0 ≡ some r))
unfolding continue_with
continue-cases next (s, some x) h = inl (cc)
continue-cases next (s, none) h = inr (refl, h)

finish_ind : (I : State → Type 0) (s : State) → I s → I (finish s).0
unfolding finish
finish_ind I s i = i

module _ (e : Engine) (def : Definition) (initial : Object) (paused_step : String)
    (arrival : Arrival) (delivers : Delivers arrival) where
  pub run_round_ind :
      {Allowed : String → Type 0} {P : State → Type 0}
      → RoundRule e paused_step Allowed P
      → (batch : List StepDefinition) (s : State) → All (λ step. Allowed step.ident) batch
      → P s
      → P (run_round e def initial paused_step arrival batch s).0
  unfolding run_round
  run_round_ind {Allowed} {P} rule batch s allowed h =
      and_then_ind P (launch e paused_step batch s) _ (launch_ind rule batch s allowed h) (λ s'.
        collect_ind rule _ none s' (
          All-of_mem (λ item. Allowed item.ident) _
            (λ item m.
              run_one-ident def.name initial s' Allowed batch allowed
                ((delivers s'.events _ item).0 m))))

  batch_ready :
      (s : State) {step : StepDefinition} {more : List StepDefinition}
      → ready_steps def.steps s.status ≡ step ∷ more
      → All
          (λ x. Memᴰ x (ready_steps def.steps s.status))
          (take (limit e.max_parallel) (step ∷ more))
  batch_ready s ready =
      All-of_mem (λ x. Memᴰ x (ready_steps def.steps s.status)) _
        (λ x m. subst (Memᴰ x) (sym ready) (mem-take (limit e.max_parallel) _ m))

  -- The steps of a round are ready when it begins.
  pub rounds_ind :
      (I : State → Type 0)
      → ((batch : List StepDefinition) (s : State)
          → All (λ step. Memᴰ step (ready_steps def.steps s.status)) batch
          → I s
          → I (run_round e def initial paused_step arrival batch s).0)
      → (fuel : ℕ) (s : State) {r : State × Option Err}
      → rounds e def initial paused_step arrival fuel s ≡ some r
      → I s
      → I r.0
  unfolding rounds
  rounds_ind I keep zero s h i = cc
  rounds_ind I keep (suc fuel) s {r} h i = elim (List-cases (ready_steps def.steps s.status)) [
    | inl idle ↦
        let same : r ≡ finish s = ground arith in subst (λ q. I q.0) (sym same) (finish_ind I s i)
    | inr (step, more, ready) ↦
        let q =
          run_round e def initial paused_step arrival (take (limit e.max_parallel) (step ∷ more))
            s in
        let kept : I q.0 = keep _ s (batch_ready s ready) i in
        elim (continue-cases (rounds e def initial paused_step arrival fuel) q {r = r}
          (ground arith)) [
            | inl same ↦ subst (λ q. I q.0) (sym same) kept
            | inr (_, later) ↦ rounds_ind I keep fuel q.0 later kept
          ]
  ]
