-- ===== src/Workflow/Engine/Typed.antt =====
-- The types of the outputs that a run of server/internal/workflow/engine.go stores.
use auto_dev_os.Base.{
  suc, String, ◌≡◌, refl, sym, subst, Option, none, some, List, [], ◌∷◌, Memᴰ, arith, ◌==◌, eq_iff,
  Bool-cases, Option-cases, ◌⊎◌, inl, inr, length, All, All-mem, All-of_mem, map,
}
use auto_dev_os.Base.Dict.{Dict, lookup, insert, lookup-insert}
use auto_dev_os.Workflow.Schema.{Object, validate}
use auto_dev_os.Workflow.Schema.Typing.{HasType, validate-HasType}
use auto_dev_os.Workflow.Step.{
  Err, Event, success, StepDefinition, Definition, StepResult, produced, broke, Outcome, returned,
  raised, call_runner, check_output, run_step, aggregate_inputs,
}
use auto_dev_os.Workflow.Graph.{validate_definition}
use auto_dev_os.Workflow.Engine.{
  Engine, State, Finished, Arrival, emit, set_status, start_step, and_then, launch, fail_step,
  succeed_step, collect, run_one, run_round, start_state, seed, has_step, run_internal, no_result,
}
use auto_dev_os.Workflow.Engine.Induction.{Delivers, and_then_ind, rounds_ind}
use auto_dev_os.Workflow.Engine.Rounds.{ready-pending}

check_output-HasType :
    (step : StepDefinition) (returned_ : Option Object) (o : Object)
    → check_output step returned_ ≡ produced o
    → HasType step.output_schema.fields o
unfolding check_output
check_output-HasType step returned_ o h = by_check (elim returned_ [ none ↦ [] | some m ↦ m ]) h
  where
    by_check :
        (output : Object)
        → (elim (validate step.output_schema.fields output) as (λ _. StepResult) [
          | none ↦ produced output
          | some e ↦ broke (Err.output_invalid step.ident e)
        ])
          ≡ produced o
        → HasType step.output_schema.fields o
    by_check output r = elim (Option-cases (validate step.output_schema.fields output)) [
      | inl good ↦
          let same : output ≡ o = cc (rw (good) at r) in
          subst (HasType step.output_schema.fields) same
            (validate-HasType step.output_schema.fields output good)
      | inr (e, bad) ↦ cc (rw (bad) at r)
    ]

call_runner-HasType :
    (step : StepDefinition) (outcome : Outcome) (o : Object)
    → call_runner step outcome ≡ produced o
    → HasType step.output_schema.fields o
unfolding call_runner
call_runner-HasType step (raised e) o h = cc h
call_runner-HasType step (returned given) o h = check_output-HasType step given o h

-- What a step produces has the type of the step's output.
run_step-HasType :
    (workflow : String) (step : StepDefinition) (seen : List Event) (initial : Object)
    (outputs : Dict Object) (o : Object)
    → run_step workflow step seen initial outputs ≡ produced o
    → HasType step.output_schema.fields o
unfolding run_step
run_step-HasType workflow step seen initial outputs o h = elim (Option-cases step.run) [
  | inl absent ↦ cc (rw (absent, run_step) at h)
  | inr (f, has) ↦
      elim (Option-cases
        (validate step.input_schema.fields (aggregate_inputs step.depends_on outputs initial))) [
          | inr (e, bad) ↦ cc (rw (has, bad, run_step) at h)
          | inl good ↦ call_runner-HasType step _ o (rw (has, good, run_step) at h)
        ]
]

module _ (e : Engine) (def : Definition) where
  -- The output was restored from a checkpoint, or it has the type that its step declares.
  pub Typing : String → Object → Type 0
  Typing k o =
      Memᴰ (k, o) e.completed_steps
      ⊎ ((step : StepDefinition) × Memᴰ step def.steps
          × (step.ident ≡ k)
          × HasType step.output_schema.fields o)

  abbrev AllTyped : Dict Object → Type 0
  AllTyped outputs = (k : String) (o : Object) → lookup k outputs ≡ some o → Typing k o

  abbrev Typed : State → Type 0
  Typed s = AllTyped s.outputs

  abbrev WellMade : Finished → Type 0
  WellMade item = (o : Object) → item.result ≡ produced o → Typing item.ident o

  AllTyped-none : AllTyped []
  unfolding lookup
  AllTyped-none k o found = cc

  AllTyped-insert :
      (k : String) (o : Object) (outputs : Dict Object)
      → Typing k o
      → AllTyped outputs
      → AllTyped (insert k o outputs)
  AllTyped-insert k o outputs own h j p found = elim (Bool-cases (k == j)) [
    | inl same ↦
        let written : some o ≡ some p = ground (arith, lookup-insert k j o outputs) in
        let output : o ≡ p = cc written in
        subst (λ q. Typing j q) output (subst (λ i. Typing i o) ((eq_iff k j).0 same) own)
    | inr other ↦ h j p (ground (arith, lookup-insert k j o outputs))
  ]

  launch-Typed :
      (paused_step : String) (batch : List StepDefinition) (s : State)
      → Typed s
      → Typed (launch e paused_step batch s).0
  unfolding launch start_step set_status emit
  launch-Typed paused_step [] s h = h
  launch-Typed paused_step (step ∷ rest) s h =
      and_then_ind Typed (start_step e paused_step step s) (launch e paused_step rest) (starts)
        (λ s'. launch-Typed paused_step rest s')
    where
      starts : Typed (start_step e paused_step step s).0
      starts = elim (Bool-cases (step.ident == paused_step)) [
        | inl silent ↦ rw (silent) h
        | inr loud ↦ rw (loud) h
      ]

  collect_item-Typed :
      (k : String) (result : StepResult) (s : State) (broken : Err → State × Option Err)
      (next : State → State × Option Err)
      → ((o : Object) → result ≡ produced o → Typing k o)
      → ((x : Err) → Typed (broken x).0)
      → ((s' : State) → Typed s' → Typed (next s').0)
      → Typed s
      → Typed
          (elim result as (λ _. State × Option Err) [
            | broke x ↦ broken x
            | produced o ↦ and_then (succeed_step e k o s) next
          ]).0
  unfolding succeed_step set_status emit
  collect_item-Typed k (broke x) s broken next own after_error rest h = after_error x
  collect_item-Typed k (produced o) s broken next own after_error rest h =
      and_then_ind Typed (succeed_step e k o s) next (AllTyped-insert k o s.outputs (own o refl) h)
        rest

  collect-Typed :
      (items : List Finished) (err : Option Err) (s : State)
      → All WellMade items
      → Typed s
      → Typed (collect e items err s).0
  unfolding collect fail_step set_status emit
  collect-Typed [] err s made h = h
  collect-Typed (item ∷ rest) err s made h =
      collect_item-Typed item.ident item.result s
        (λ x. collect e rest (some x) (fail_step e item.ident x s)) (collect e rest err) made.0
        (λ x. collect-Typed rest (some x) _ made.1 h) (λ s'. collect-Typed rest err s' made.1) h

  run_one-WellMade :
      (initial : Object) (s : State) (batch : List StepDefinition) {item : Finished}
      → All (λ step. Memᴰ step def.steps) batch
      → Memᴰ item (map (run_one def.name initial s) batch)
      → WellMade item
  unfolding run_one Typing
  run_one-WellMade initial s [] listed m = elim m [ ]
  run_one-WellMade initial s (step ∷ rest) listed (Memᴰ.head same) =
      subst WellMade (sym same) (λ o made.
        inr
          (step, listed.0, refl, run_step-HasType def.name step s.events initial s.outputs o made))
  run_one-WellMade initial s (step ∷ rest) listed (Memᴰ.tail m) =
      run_one-WellMade initial s rest listed.1 m

  run_round-Typed :
      (initial : Object) (paused_step : String) (arrival : Arrival)
      → Delivers arrival
      → (batch : List StepDefinition) (s : State) → All (λ step. Memᴰ step def.steps) batch
      → Typed s
      → Typed (run_round e def initial paused_step arrival batch s).0
  unfolding run_round
  run_round-Typed initial paused_step arrival delivers batch s listed h =
      and_then_ind Typed (launch e paused_step batch s) _ (launch-Typed paused_step batch s h)
        (λ s'. collect-Typed _ none s' (
          All-of_mem WellMade _
            (λ item m. run_one-WellMade initial s' batch listed ((delivers s'.events _ item).0 m))))

  seed-Typed :
      (restored : Dict Object) (s : State)
      → ((p : String × Object) → Memᴰ p restored → Memᴰ p e.completed_steps)
      → Typed s
      → Typed (seed def.steps restored s)
  unfolding seed Typing
  seed-Typed [] s among h = h
  seed-Typed ((k, o) ∷ rest) s among h = elim (Bool-cases (has_step k def.steps)) [
    | inr other ↦ rw (other, seed) (seed-Typed rest s (λ p m. among p (Memᴰ.tail m)) h)
    | inl own ↦
        rw (own, seed)
          (seed-Typed rest
            (record s { status = insert k success s.status; outputs = insert k o s.outputs })
            (λ p m. among p (Memᴰ.tail m))
            (AllTyped-insert k o s.outputs (inl (among (k, o) (Memᴰ.head refl))) h))
  ]

-- Every output that a run stores has the type that its step declares, or a checkpoint restored it:
-- the fields that the step's output schema requires are there, and each field's value has the field's
-- type. The condition is that the channel delivers the round's results and nothing else.
pub run_internal-IsTyped :
    (e : Engine) (def : Definition) (initial : Object) (paused_step : String) (arrival : Arrival)
    (ranged : List String → List String) (r : State × Option Err) (k : String) (o : Object)
    → Delivers arrival
    → run_internal e def initial paused_step arrival ranged ≡ some r
    → lookup k r.0.outputs ≡ some o
    → Memᴰ (k, o) e.completed_steps
      ⊎ ((step : StepDefinition) × Memᴰ step def.steps
          × (step.ident ≡ k)
          × HasType step.output_schema.fields o)
unfolding run_internal Typing no_result
run_internal-IsTyped e def initial paused_step arrival ranged r k o delivers h found =
    elim (Option-cases (validate_definition ranged def.steps)) [
      | inr (x, invalid) ↦
          let same : (no_result e, some x) ≡ r = cc (rw (invalid, run_internal) at h) in
          subst (λ q. Typed e def q.0) same (AllTyped-none e def) k o found
      | inl valid ↦
          rounds_ind e def initial paused_step arrival delivers (Typed e def)
            (λ batch s ready. run_round-Typed e def initial paused_step arrival delivers batch s (
              All-of_mem (λ step. Memᴰ step def.steps) batch
                (λ step m. (ready-pending def.steps s.status (All-mem _ batch ready m)).0)))
            (suc (length def.steps)) (start_state e def) (rw (valid, run_internal) at h)
            (unfold start_state in
              seed-Typed e def e.completed_steps _ (λ p m. m) (AllTyped-none e def))
            k o found
    ]
