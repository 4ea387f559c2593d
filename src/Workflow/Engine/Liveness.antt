-- ===== src/Workflow/Engine/Liveness.antt =====
-- When `runInternal` succeeds.
use auto_dev_os.Base.{
  ℕ, zero, suc, ◌≤◌, ◌<◌, String, ◌≡◌, refl, sym, ap, ◌∙◌, subst, ◌≢◌, ◌⊎◌, true, Option, none,
  some, List, [], ◌∷◌, Memᴰ, arith, ◌==◌, eq_iff, Bool-cases, inl, inr, List-cases, take, length,
  All-of_mem, eq_self, mem-filter_of_mem, mem-take,
}
use auto_dev_os.Base.Counts.{count, Rearranges, count-head, count-le-cons}
use auto_dev_os.Base.Dict.{Dict, get_or, get_or-insert, keys, lookup}
use auto_dev_os.Workflow.Schema.{Object}
use auto_dev_os.Workflow.Step.{Err, StepStatus, unset, pending, success, StepDefinition, Definition}
use auto_dev_os.Workflow.Graph.{validate_definition}
use auto_dev_os.Workflow.Graph.Build.{idents, deps_of}
use auto_dev_os.Workflow.Graph.Valid.{IsValid, accepted_iff_IsValid}
use auto_dev_os.Workflow.Engine.{
  Engine, State, Arrival, is_pending, is_finished, deps_finished, is_ready, ready_steps, limit,
  all_finished, finish, run_round, rounds, continue_with, start_state, run_internal,
}
use auto_dev_os.Workflow.Engine.Induction.{Delivers}
use auto_dev_os.Workflow.Engine.Rounds.{ready-pending, run_internal_total}
use auto_dev_os.Workflow.Engine.Start.{start_state_ind}
use auto_dev_os.Workflow.Engine.Invariant.{
  Holds, Holds-start_state, Holds-run_round, ready-won, deps_of-mem, count-idents_of_mem,
}
use auto_dev_os.Workflow.Engine.Calm.{
  NeverRefuses, is_calm, Calm, Produces, Stored, run_round-Calm, keyed-insert,
}

-- Every key of the statuses finished.
all_finished_of :
    (status : Dict StepStatus)
    → ((k : String) → count k (keys status) ≤ 1)
    → ((k : String) → 0 < count k (keys status) → is_finished (get_or unset k status) ≡ true)
    → all_finished status ≡ true
unfolding all_finished get_or lookup keys count
all_finished_of [] once h = refl
all_finished_of ((k, v) ∷ rest) once h = ground (
  arith,
  eq_self k,
  h k,
  all_finished_of rest (λ j. ground (arith, once j))
      (λ j listed. ground (arith, once j, h j, eq_iff k j)),
)

deps_finished_of :
    (status : Dict StepStatus) (ds : List String)
    → ((d : String) → 0 < count d ds → get_or unset d status ≡ success)
    → deps_finished status ds ≡ true
unfolding deps_finished is_finished
deps_finished_of status [] h = refl
deps_finished_of status (d ∷ ds) h =
    rw (h d (count-head d ds))
      (deps_finished_of status ds (λ x listed. h x (count-le-cons x d ds listed)))

step_named :
    (steps : List StepDefinition) (k : String)
    → 0 < count k (idents steps)
    → (step : StepDefinition) × Memᴰ step steps × (step.ident ≡ k)
unfolding count
step_named [] k listed = absurd (omega arith)
step_named (x ∷ rest) k listed = elim (Bool-cases (x.ident == k)) [
  | inl here ↦ (x, Memᴰ.head refl, (eq_iff x.ident k).0 here)
  | inr later ↦
      let (step, m, named) = step_named rest k (ground arith) in (step, Memᴰ.tail m, named)
]

calm-status :
    (status : StepStatus)
    → is_calm status ≡ true
    → status ≢ unset
    → (status ≡ success) ⊎ (status ≡ pending)
unfolding is_calm
calm-status success fine is_set = inl refl
calm-status pending fine is_set = inr refl
calm-status unset fine is_set = absurd (is_set refl)
calm-status _ fine is_set = absurd (ground arith)

next_of :
    (next : State → Option (State × Option Err)) (q r : State × Option Err)
    → q.1 ≡ none
    → continue_with next q ≡ some r
    → next q.0 ≡ some r
unfolding continue_with
next_of next (s, some x) r clean h = cc
next_of next (s, none) r clean h = h

module _ (e : Engine) (def : Definition) (valid : IsValid def.steps) where
  -- A pending step whose dependencies have succeeded is ready.
  ready_of :
      (s : State) (step : StepDefinition)
      → Memᴰ step def.steps
      → get_or unset step.ident s.status ≡ pending
      → ((d : String)
          → 0 < count d (deps_of step.ident def.steps)
          → get_or unset d s.status ≡ success)
      → Memᴰ step (ready_steps def.steps s.status)
  unfolding ready_steps is_ready is_pending
  ready_of s step m waits deps = mem-filter_of_mem (is_ready s.status) def.steps m (
      rw (waits, is_ready)
        (deps_finished_of s.status step.depends_on (λ d listed.
          deps d (subst (λ ds. 0 < count d ds) (sym (deps_of-mem def.steps valid.once m)) listed))))

  Calm-cases :
      (s : State) (k : String)
      → Holds def.steps s
      → Calm def.steps [] s
      → 0 < count k (idents def.steps)
      → (get_or unset k s.status ≡ success) ⊎ (get_or unset k s.status ≡ pending)
  Calm-cases s k holds calm listed = elim (Bool-cases (is_calm (get_or unset k s.status))) [
    | inl fine ↦ calm-status _ fine (holds.listed k listed)
    | inr odd ↦ absurd (unfold count in omega (arith, (calm.calm k odd).1))
  ]

  -- With nothing ready and nothing failed, every step has succeeded.
  idle-won :
      (s : State)
      → Holds def.steps s
      → Calm def.steps [] s
      → ready_steps def.steps s.status ≡ []
      → (n : ℕ) (k : String) → valid.rank k < n
      → 0 < count k (idents def.steps)
      → get_or unset k s.status ≡ success
  idle-won s holds calm idle zero k below listed = absurd (omega arith)
  idle-won s holds calm idle (suc n) k below listed = elim (Calm-cases s k holds calm listed) [
    | inl won ↦ won
    | inr waits ↦
        let (step, m, named) = step_named def.steps k listed in
        let ready = ready_of s step m (ap (λ j. get_or unset j s.status) named ∙ waits) (λ d dep.
          idle-won s holds calm idle n d
            (omega (arith, valid.ranked d step.ident dep, ap valid.rank named))
            (valid.known d step.ident dep)) in
        absurd (elim (subst (Memᴰ step) idle ready) [ ])
  ]

  all_won :
      (s : State)
      → Holds def.steps s
      → Calm def.steps [] s
      → ready_steps def.steps s.status ≡ []
      → (finish s).1 ≡ none
  unfolding finish is_finished
  all_won s holds calm idle =
      rw
        (all_finished_of s.status (λ k. ground (arith, calm.keyed k))
          (λ k listed.
            rw
              (idle-won s holds calm idle (suc (valid.rank k)) k (omega arith)
                (ground (arith, calm.keyed k)))
              refl))
        refl

  batch-Stored :
      ((step : StepDefinition) → Memᴰ step def.steps → Produces def step)
      → (s : State) {step : StepDefinition} {more : List StepDefinition} → Holds def.steps s
      → ready_steps def.steps s.status ≡ step ∷ more
      → Stored def s.outputs (take (limit e.max_parallel) (step ∷ more))
  batch-Stored produces s holds ready = All-of_mem _ _ (λ x m.
      let m' = subst (Memᴰ x) (sym ready) (mem-take (limit e.max_parallel) _ m) in
      let listed = (ready-pending def.steps s.status m').0 in
      (
        produces x listed,
        count-idents_of_mem def.steps listed,
        (λ d dep. holds.stored d (
            ready-won def.steps s.status valid.once holds.unskipped m' d
              (subst (λ ds. 0 < count d ds) (sym (deps_of-mem def.steps valid.once listed)) dep))),
      ))

  module _ (initial : Object) (paused_step : String) (arrival : Arrival) (quiet : NeverRefuses e)
      (delivers : Delivers arrival)
      (produces : (step : StepDefinition) → Memᴰ step def.steps → Produces def step) where
    rounds-live :
        (fuel : ℕ) (s : State) (r : State × Option Err)
        → Holds def.steps s
        → Calm def.steps [] s
        → rounds e def initial paused_step arrival fuel s ≡ some r
        → r.1 ≡ none
    unfolding rounds
    rounds-live zero s r holds calm h = cc
    rounds-live (suc fuel) s r holds calm h = elim (List-cases (ready_steps def.steps s.status)) [
      | inl idle ↦
          let same : r ≡ finish s = ground arith in
          ap (λ (q : State × Option Err). q.1) same ∙ all_won s holds calm idle
      | inr (step, more, ready) ↦
          let batch = take (limit e.max_parallel) (step ∷ more) in
          let q = run_round e def initial paused_step arrival batch s in
          let (clean, after) =
            run_round-Calm e def initial paused_step arrival quiet delivers batch s
              (batch-Stored produces s holds ready) calm in
          rounds-live fuel q.0 r
            (Holds-run_round e def initial paused_step arrival delivers batch s holds) after
            (next_of (rounds e def initial paused_step arrival fuel) q r clean (ground arith))
    ]

    start-Calm : Calm def.steps [] (start_state e def)
    start-Calm =
        start_state_ind (Calm def.steps []) e def
          (λ s statuses keyed _. record {
            calm = λ k odd. absurd (unfold is_calm in ground (arith, statuses k));
            keyed = keyed;
          })
          (λ k o t restored own h. record {
            calm = λ j odd.
                unfold is_calm in
                ground (arith, get_or-insert unset k j success t.status, h.calm j);
            keyed = keyed-insert def.steps k success t.status own h.keyed;
          })

-- Where the definition is accepted, each step gives an output whenever the outputs of its
-- dependencies are at hand, and the handler answers no error, the run returns without an error. The
-- conditions are that the channel delivers the round's results and nothing else and that the range
-- over the map of nodes visits each node once.
pub run_internal-live :
    (e : Engine) (def : Definition) (initial : Object) (paused_step : String) (arrival : Arrival)
    (ranged : List String → List String)
    → Delivers arrival
    → Rearranges ranged
    → validate_definition ranged def.steps ≡ none
    → NeverRefuses e
    → ((step : StepDefinition) → Memᴰ step def.steps → Produces def step)
    → (s : State) × (run_internal e def initial paused_step arrival ranged ≡ some (s, none))
unfolding run_internal
run_internal-live e def initial paused_step arrival ranged delivers fair valid quiet produces =
    let ((s, err), ran) = run_internal_total e def initial paused_step arrival ranged in
    let looped : rounds e def initial paused_step arrival (suc (length def.steps))
          (start_state e def)
        ≡ some (s, err) =
      ground arith in
    let clean : err ≡ none =
      rounds-live e def ((accepted_iff_IsValid ranged def.steps fair).0 valid) initial paused_step
        arrival quiet delivers produces (suc (length def.steps)) (start_state e def) (s, err)
        (Holds-start_state e def)
        (start-Calm e def ((accepted_iff_IsValid ranged def.steps fair).0 valid) initial paused_step
          arrival quiet delivers produces)
        looped in
    (s, subst (λ x. run_internal e def initial paused_step arrival ranged ≡ some (s, x)) clean ran)
