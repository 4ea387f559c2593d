-- ===== src/Workflow/Engine/Invariant.antt =====
-- What holds of the statuses and the outputs throughout `runInternal`.
use auto_dev_os.Base.{
  ◌≤◌, ◌<◌, String, ◌≡◌, refl, sym, ap, subst, ◌≢◌, true, false, List, [], ◌∷◌, Memᴰ, arith, ◌==◌,
  eq_iff, eq_self, Bool-cases, inl, inr, All-trivial, mem-filter, append-nil,
}
use auto_dev_os.Base.Counts.{count}
use auto_dev_os.Base.Dict.{Dict, insert, get_or, get_or-insert, is_key, is_key-insert}
use auto_dev_os.Workflow.Schema.{Object}
use auto_dev_os.Workflow.Step.{
  Err, StepStatus, unset, pending, running, success, skipped, StepDefinition, Definition,
}
use auto_dev_os.Workflow.Graph.Build.{idents, deps_of, deps_of-stray}
use auto_dev_os.Workflow.Engine.{
  Engine, State, Arrival, is_finished, deps_finished, is_ready, ready_steps, emit, set_status,
  start_step, status_of_error, fail_step, succeed_step, run_round, start_state,
}
use auto_dev_os.Workflow.Engine.Induction.{RoundRule, Delivers, run_round_ind}
use auto_dev_os.Workflow.Engine.Start.{start_state_ind}

-- Every step has a status, none is skipped, and a step that succeeded has an output.
pub record Holds (steps : List StepDefinition) (s : State) : Type 0 where
  pub unskipped : (k : String) → get_or unset k s.status ≢ skipped
  pub stored : (k : String) → get_or unset k s.status ≡ success → is_key k s.outputs ≡ true
  pub listed : (k : String) → 0 < count k (idents steps) → get_or unset k s.status ≢ unset

module _ (steps : List StepDefinition) where
  Holds-write :
      (k : String) (status : StepStatus) (s : State)
      → status ≢ skipped
      → status ≢ success
      → status ≢ unset
      → Holds steps s
      → Holds steps (set_status k status s)
  unfolding set_status
  Holds-write k status s not_skipped not_won is_set h = record {
    unskipped = λ j. ground (arith, get_or-insert unset k j status s.status, h.unskipped j);
    stored = λ j. ground (arith, get_or-insert unset k j status s.status, h.stored j);
    listed = λ j. ground (arith, get_or-insert unset k j status s.status, h.listed j);
  }

  Holds-store :
      (k : String) (o : Object) (s t : State)
      → t.status ≡ insert k success s.status
      → t.outputs ≡ insert k o s.outputs
      → Holds steps s
      → Holds steps t
  Holds-store k o s t status outputs h = record {
    unskipped =
        λ j. rw (status) (ground (arith, get_or-insert unset k j success s.status, h.unskipped j));
    stored = λ j.
        rw (status, outputs)
          (ground (
            arith,
            get_or-insert unset k j success s.status,
            is_key-insert k j o s.outputs,
            h.stored j,
          ));
    listed =
        λ j. rw (status) (ground (arith, get_or-insert unset k j success s.status, h.listed j));
  }

  status_of_error-ne :
      (x : Err)
      → (status_of_error x ≢ skipped) × (status_of_error x ≢ success) × (status_of_error x ≢ unset)
  unfolding status_of_error
  status_of_error-ne x = ((λ h. ground arith), (λ h. ground arith), (λ h. ground arith))

  Holds-emit :
      (k : String) (status : StepStatus) (s t : State)
      → t.status ≡ (set_status k status s).status
      → t.outputs ≡ s.outputs
      → Holds steps (set_status k status s)
      → Holds steps t
  unfolding set_status
  Holds-emit k status s t same kept h = record {
    unskipped = λ j. rw (same) (h.unskipped j);
    stored = λ j. rw (same, kept) (h.stored j);
    listed = λ j. rw (same) (h.listed j);
  }

  Holds-start_step :
      (e : Engine) (paused_step : String) (step : StepDefinition) (s : State)
      → Holds steps s
      → Holds steps (start_step e paused_step step s).0
  unfolding start_step emit set_status
  Holds-start_step e paused_step step s h =
      let written = Holds-write step.ident running s (λ c. cc) (λ c. cc) (λ c. cc) h in
      elim (Bool-cases (step.ident == paused_step)) [
        | inl quiet ↦ rw (quiet) written
        | inr loud ↦ rw (loud) (Holds-emit step.ident running s _ refl refl written)
      ]

  Holds-rule :
      (e : Engine) (paused_step : String) → RoundRule e paused_step (λ _. Unit) (Holds steps)
  unfolding fail_step succeed_step set_status emit
  Holds-rule e paused_step = record {
    starts = λ step s _. Holds-start_step e paused_step step s;
    fails = λ k x s _ h.
        let (not_skipped, not_won, is_set) = status_of_error-ne x in
        Holds-emit k (status_of_error x) s _ refl refl
          (Holds-write k (status_of_error x) s not_skipped not_won is_set h);
    succeeds = λ k o s _ h. Holds-store k o s _ refl refl h;
  }

pub Holds-start_state : (e : Engine) (def : Definition) → Holds def.steps (start_state e def)
Holds-start_state e def =
    start_state_ind (Holds def.steps) e def
      (λ s statuses _ none_yet. record {
        unskipped = λ k. ground (arith, statuses k);
        stored = λ k. ground (arith, statuses k);
        listed = λ k. ground (arith, statuses k);
      })
      (λ k o t restored own h. Holds-store def.steps k o t _ refl refl h)

pub Holds-run_round :
    (e : Engine) (def : Definition) (initial : Object) (paused_step : String) (arrival : Arrival)
    → Delivers arrival
    → (batch : List StepDefinition) (s : State) → Holds def.steps s
    → Holds def.steps (run_round e def initial paused_step arrival batch s).0
Holds-run_round e def initial paused_step arrival delivers batch s h =
    run_round_ind e def initial paused_step arrival delivers (Holds-rule def.steps e paused_step)
      batch s (All-trivial batch) h

-- A dependency of a step that is ready has succeeded.
deps_finished-each :
    (status : Dict StepStatus) (ds : List String) (d : String)
    → deps_finished status ds ≡ true
    → 0 < count d ds
    → is_finished (get_or unset d status) ≡ true
unfolding deps_finished count
deps_finished-each status [] d h listed = absurd (omega arith)
deps_finished-each status (x ∷ ds) d h listed =
    ground (arith, eq_iff x d, deps_finished-each status ds d)

pub won_of_finished :
    (status : StepStatus) → is_finished status ≡ true → status ≢ skipped → status ≡ success
unfolding is_finished
won_of_finished success h other = refl
won_of_finished skipped h other = absurd (other refl)
won_of_finished unset h other = cc
won_of_finished pending h other = cc
won_of_finished _ h other = absurd (ground arith)

pub count-idents_of_mem :
    {step : StepDefinition} (steps : List StepDefinition)
    → Memᴰ step steps
    → 0 < count step.ident (idents steps)
unfolding count
count-idents_of_mem [] m = elim m [ ]
count-idents_of_mem {step} (x ∷ rest) (Memᴰ.head e) =
    ground (arith, eq_iff x.ident step.ident, ap (λ (s : StepDefinition). s.ident) e)
count-idents_of_mem {step} (x ∷ rest) (Memᴰ.tail m) = ground (arith, count-idents_of_mem rest m)

deps_of-head :
    (x : StepDefinition) (rest : List StepDefinition)
    → count x.ident (idents rest) ≡ 0
    → deps_of x.ident (x ∷ rest) ≡ x.depends_on
unfolding deps_of
deps_of-head x rest new =
    ground (arith, eq_iff x.ident x.ident, deps_of-stray x.ident rest new, append-nil x.depends_on)

-- Where no two steps share a name, the dependencies that the definition gives to a step's name are
-- the step's own.
pub deps_of-mem :
    {step : StepDefinition} (steps : List StepDefinition)
    → ((k : String) → count k (idents steps) ≤ 1)
    → Memᴰ step steps
    → deps_of step.ident steps ≡ step.depends_on
unfolding deps_of count
deps_of-mem [] once m = elim m [ ]
deps_of-mem {step} (x ∷ rest) once (Memᴰ.head e) =
    subst (λ y. deps_of y.ident (x ∷ rest) ≡ y.depends_on) (sym e)
      (deps_of-head x rest (ground (arith, once x.ident, eq_self x.ident)))
deps_of-mem {step} (x ∷ rest) once (Memᴰ.tail m) =
    let other : (x.ident == step.ident) ≡ false =
      ground (arith, once step.ident, count-idents_of_mem rest m) in
    rw (other) (deps_of-mem rest (λ k. ground (arith, once k)) m)

pub ready-won :
    (steps : List StepDefinition) (status : Dict StepStatus) {step : StepDefinition}
    → ((k : String) → count k (idents steps) ≤ 1)
    → ((k : String) → get_or unset k status ≢ skipped)
    → Memᴰ step (ready_steps steps status)
    → (d : String) → 0 < count d (deps_of step.ident steps)
    → get_or unset d status ≡ success
unfolding ready_steps is_ready
ready-won steps status {step} once unskipped m d dep =
    let (listed, ready) = mem-filter (is_ready status) steps m in
    won_of_finished _
      (deps_finished-each status step.depends_on d (ground arith)
        (subst (λ ds. 0 < count d ds) (deps_of-mem steps once listed) dep))
      (unskipped d)
