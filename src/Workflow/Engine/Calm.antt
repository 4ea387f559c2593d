-- ===== src/Workflow/Engine/Calm.antt =====
-- A round whose steps all produce an output, with a handler that answers no error.
use auto_dev_os.Base.{
  ◌≤◌, ◌<◌, String, ◌≡◌, refl, sym, ap, ◌∙◌, subst, Bool, true, false, Option, none, some, List, [],
  ◌∷◌, Memᴰ, arith, ◌==◌, eq_iff, if◌then◌else◌, ltb, Bool-cases, inl, inr, map, All, All-mem,
  All-of_mem,
}
use auto_dev_os.Base.Counts.{count}
use auto_dev_os.Base.Dict.{Dict, insert, get_or, get_or-insert, keys, count-keys-insert, is_key}
use auto_dev_os.Workflow.Schema.{Object}
use auto_dev_os.Workflow.Step.{
  Err, Event, StepStatus, unset, pending, running, success, StepDefinition, Definition, produced,
  run_step,
}
use auto_dev_os.Workflow.Graph.Build.{idents}
use auto_dev_os.Workflow.Engine.{
  Engine, State, Finished, Arrival, emit, set_status, start_step, and_then, launch, succeed_step,
  collect, run_one, run_round,
}
use auto_dev_os.Workflow.Engine.Induction.{Delivers}
use auto_dev_os.Workflow.Engine.Invariant.{count-idents_of_mem}

-- The handler answers no error.
abbrev pub NeverRefuses : Engine → Type 0
NeverRefuses e = (ev : Event) (s : State) → (emit e ev s).1 ≡ none

unfoldable pub is_calm : StepStatus → Bool
is_calm unset = true
is_calm pending = true
is_calm success = true
is_calm _ = false

-- No step has failed or waits, and the steps that run are among `names`. A status is kept once, and
-- for a step.
pub record Calm (steps : List StepDefinition) (names : List String) (s : State) : Type 0 where
  pub calm :
      (k : String)
      → is_calm (get_or unset k s.status) ≡ false
      → (get_or unset k s.status ≡ running) × (0 < count k names)
  pub keyed :
      (k : String) → count k (keys s.status) ≤ (if ltb 0 (count k (idents steps)) then 1 else 0)

and_then-none :
    (r : State × Option Err) (next : State → State × Option Err)
    → r.1 ≡ none
    → and_then r next ≡ next r.0
unfolding and_then
and_then-none (s, some x) next h = cc
and_then-none (s, none) next h = refl

names_of : List Finished → List String
names_of [] = []
names_of (item ∷ rest) = item.ident ∷ names_of rest

abbrev IsProduced : Finished → Type 0
IsProduced item = (o : Object) × (item.result ≡ produced o)

pub keyed-insert :
    (steps : List StepDefinition) (k : String) (status : StepStatus) (d : Dict StepStatus)
    → 0 < count k (idents steps)
    → ((j : String) → count j (keys d) ≤ (if ltb 0 (count j (idents steps)) then 1 else 0))
    → (j : String)
    → count j (keys (insert k status d)) ≤ (if ltb 0 (count j (idents steps)) then 1 else 0)
unfolding count
keyed-insert steps k status d own h j =
    ground (arith, count-keys-insert j k status d, h j, eq_iff k j)

module _ (e : Engine) (quiet : NeverRefuses e) (steps : List StepDefinition) where
  start_step-none :
      (paused_step : String) (step : StepDefinition) (s : State)
      → (start_step e paused_step step s).1 ≡ none
  unfolding start_step
  start_step-none paused_step step s = elim (Bool-cases (step.ident == paused_step)) [
    | inl silent ↦ rw (silent) refl
    | inr loud ↦ rw (loud) (quiet _ _)
  ]

  start_step-status :
      (paused_step : String) (step : StepDefinition) (s : State)
      → ((start_step e paused_step step s).0.status ≡ insert step.ident running s.status)
        × ((start_step e paused_step step s).0.outputs ≡ s.outputs)
  unfolding start_step set_status emit
  start_step-status paused_step step s = elim (Bool-cases (step.ident == paused_step)) [
    | inl silent ↦ rw (silent) (refl, refl)
    | inr loud ↦ rw (loud) (refl, refl)
  ]

  launch-Calm :
      (paused_step : String) (names : List String) (batch : List StepDefinition) (s : State)
      → All (λ step. (0 < count step.ident names) × (0 < count step.ident (idents steps))) batch
      → Calm steps names s
      → ((launch e paused_step batch s).1 ≡ none)
        × Calm steps names (launch e paused_step batch s).0
        × ((launch e paused_step batch s).0.outputs ≡ s.outputs)
  unfolding launch
  launch-Calm paused_step names [] s among h = (refl, h, refl)
  launch-Calm paused_step names (step ∷ rest) s ((named, own), among) h =
      let begun = start_step e paused_step step s in
      let (status, outputs) = start_step-status paused_step step s in
      let next : Calm steps names begun.0 = record {
        calm = λ k. rw (status) (λ odd. ground (
          arith,
          get_or-insert unset step.ident k running s.status,
          eq_iff step.ident k,
          h.calm k,
        ));
        keyed = λ k. rw (status) (keyed-insert steps step.ident running s.status own h.keyed k);
      } in
      let (clean, after, kept) = launch-Calm paused_step names rest begun.0 among next in
      rw (and_then-none begun (launch e paused_step rest) (start_step-none paused_step step s))
        (clean, after, kept ∙ outputs)

  succeed_step-Calm :
      (k : String) (o : Object) (names : List String) (s : State)
      → 0 < count k (idents steps)
      → Calm steps (k ∷ names) s
      → Calm steps names (succeed_step e k o s).0
  unfolding succeed_step set_status emit is_calm
  succeed_step-Calm k o names s own h = record {
    calm = λ j odd.
        unfold count in
        ground (arith, get_or-insert unset k j success s.status, eq_iff k j, h.calm j);
    keyed = keyed-insert steps k success s.status own h.keyed;
  }

  succeed_step-none : (k : String) (o : Object) (s : State) → (succeed_step e k o s).1 ≡ none
  unfolding succeed_step
  succeed_step-none k o s = quiet _ _

  collect-Calm :
      (items : List Finished) (s : State)
      → All (λ item. IsProduced item × (0 < count item.ident (idents steps))) items
      → Calm steps (names_of items) s
      → ((collect e items none s).1 ≡ none) × Calm steps [] (collect e items none s).0
  unfolding collect names_of
  collect-Calm [] s fine h = (refl, h)
  collect-Calm (item ∷ rest) s (((o, result), own), fine) h =
      let next =
        collect-Calm rest (succeed_step e item.ident o s).0 fine
          (succeed_step-Calm item.ident o (names_of rest) s own h) in
      rw
        (
          result,
          and_then-none (succeed_step e item.ident o s) (collect e rest none)
              (succeed_step-none item.ident o s),
        )
        next

-- The step gives an output wherever the outputs of its dependencies are at hand.
abbrev pub Produces : Definition → StepDefinition → Type 0
Produces def step =
    (seen : List Event) (initial : Object) (outputs : Dict Object)
    → ((d : String) → 0 < count d step.depends_on → is_key d outputs ≡ true)
    → (o : Object) × (run_step def.name step seen initial outputs ≡ produced o)

-- Steps of the definition that produce, with the outputs of their dependencies at hand.
abbrev pub Stored : Definition → Dict Object → List StepDefinition → Type 0
Stored def outputs batch =
    All
      (λ step.
        Produces def step
        × (0 < count step.ident (idents def.steps))
        × ((d : String) → 0 < count d step.depends_on → is_key d outputs ≡ true))
      batch

-- Each result of a round whose dependencies are stored is an output.
run_one-IsProduced :
    (def : Definition) (initial : Object) (s : State) (batch : List StepDefinition)
    (item : Finished)
    → Stored def s.outputs batch
    → Memᴰ item (map (run_one def.name initial s) batch)
    → IsProduced item × (0 < count item.ident (idents def.steps))
unfolding run_one
run_one-IsProduced def initial s [] item h m = elim m [ ]
run_one-IsProduced def initial s (step ∷ rest) item ((produces, own, ready), h) (Memᴰ.head e) =
    let (o, result) = produces s.events initial s.outputs ready in
    subst (λ i. IsProduced i × (0 < count i.ident (idents def.steps))) (sym e) ((o, result), own)
run_one-IsProduced def initial s (step ∷ rest) item (_, h) (Memᴰ.tail m) =
    run_one-IsProduced def initial s rest item h m

run_one-mem :
    (name : String) (initial : Object) (s : State) (batch : List StepDefinition) (k : String)
    → 0 < count k (idents batch)
    → (item : Finished) × Memᴰ item (map (run_one name initial s) batch) × (item.ident ≡ k)
unfolding run_one count
run_one-mem name initial s [] k listed = absurd (omega arith)
run_one-mem name initial s (step ∷ rest) k listed = elim (Bool-cases (step.ident == k)) [
  | inl here ↦ (_, Memᴰ.head refl, (eq_iff step.ident k).0 here)
  | inr later ↦
      let (item, m, named) = run_one-mem name initial s rest k (ground arith) in
      (item, Memᴰ.tail m, named)
]

names_of-mem :
    (items : List Finished) {item : Finished}
    → Memᴰ item items
    → 0 < count item.ident (names_of items)
unfolding names_of count
names_of-mem [] m = elim m [ ]
names_of-mem (x ∷ rest) {item} (Memᴰ.head e) =
    ground (arith, eq_iff x.ident item.ident, ap (λ (f : Finished). f.ident) e)
names_of-mem (x ∷ rest) {item} (Memᴰ.tail m) = ground (arith, names_of-mem rest m)

-- Such a round returns no error, and none of its steps is left running.
pub run_round-Calm :
    (e : Engine) (def : Definition) (initial : Object) (paused_step : String) (arrival : Arrival)
    → NeverRefuses e
    → Delivers arrival
    → (batch : List StepDefinition) (s : State) → Stored def s.outputs batch
    → Calm def.steps [] s
    → ((run_round e def initial paused_step arrival batch s).1 ≡ none)
      × Calm def.steps [] (run_round e def initial paused_step arrival batch s).0
unfolding run_round
run_round-Calm e def initial paused_step arrival quiet delivers batch s ready h =
    rw
      (and_then-none (launch e paused_step batch s)
        (λ t. collect e (arrival t.events (map (run_one def.name initial t) batch)) none t)
        launched.0)
      (collect-Calm e quiet def.steps items begun
        (All-of_mem (λ item. IsProduced item × (0 < count item.ident (idents def.steps))) items
          (λ item m.
            run_one-IsProduced def initial begun batch item stored
              ((delivers begun.events _ item).0 m)))
        (record {
          calm = λ k odd.
              let (runs, listed) = launched.1.calm k odd in
              let (item, m, named) = run_one-mem def.name initial begun batch k listed in
              (
                runs,
                subst (λ j. 0 < count j (names_of items)) named
                    (names_of-mem items ((delivers begun.events _ item).1 m)),
              );
          keyed = launched.1.keyed;
        }))
  where
    among :
        All
          (λ step.
            (0 < count step.ident (idents batch)) × (0 < count step.ident (idents def.steps)))
          batch
    among =
        All-of_mem _ batch (λ step m. (count-idents_of_mem batch m, (All-mem _ batch ready m).1))

    launched :
        ((launch e paused_step batch s).1 ≡ none)
        × Calm def.steps (idents batch) (launch e paused_step batch s).0
        × ((launch e paused_step batch s).0.outputs ≡ s.outputs)
    launched = launch-Calm e quiet def.steps paused_step (idents batch) batch s among (record {
      calm = λ k odd. absurd (unfold count in omega (arith, (h.calm k odd).1));
      keyed = h.keyed;
    })

    begun : State
    begun = (launch e paused_step batch s).0

    items : List Finished
    items = arrival begun.events (map (run_one def.name initial begun) batch)

    stored : Stored def begun.outputs batch
    stored = subst (λ o. Stored def o batch) (sym launched.2) ready
