-- ===== src/Workflow/Engine/Causal.antt =====
-- What the events of a run say about the order of the steps.
use auto_dev_os.Base.{
  ℕ, suc, ◌≤◌, ◌<◌, String, ◌≡◌, refl, sym, subst, ◌⊎◌, inl, inr, false, Option, some, List, [],
  ◌∷◌, Memᴰ, arith, All, All-mem, All-of_mem, length, Option-cases, Bool-cases, ◌==◌, eq_iff,
  eq-cases, if◌then◌else◌,
}
use auto_dev_os.Base.Counts.{count, Rearranges}
use auto_dev_os.Workflow.Graph.{validate_definition}
use auto_dev_os.Workflow.Graph.Valid.{accepted_iff_IsValid}
use auto_dev_os.Base.Dict.{IsKey, insert, get_or, get_or-insert}
use auto_dev_os.Workflow.Schema.{Object}
use auto_dev_os.Workflow.Step.{Err, Event, unset, running, success, StepDefinition, Definition}
use auto_dev_os.Workflow.Graph.Build.{idents, deps_of}
use auto_dev_os.Workflow.Engine.Start.{start_state_ind}
use auto_dev_os.Workflow.Engine.Invariant.{Holds, Holds-start_state, Holds-run_round, ready-won}
use auto_dev_os.Workflow.Engine.{
  Engine, State, Arrival, emit, set_status, start_step, fail_step, succeed_step, run_round,
  ready_steps, running_event, start_state, rounds, run_internal, no_result,
}
use auto_dev_os.Workflow.Engine.Induction.{Delivers, RoundRule, run_round_ind, rounds_ind}

module _ (e : Engine) (def : Definition) where
  -- The step was restored from a checkpoint, or its success is among the events.
  abbrev pub Done : List Event → String → Type 0
  Done events k =
      IsKey k e.completed_steps
      ⊎ ((ev : Event) × Memᴰ ev events × (ev.step_id ≡ k) × (ev.status ≡ success))

  -- Every event of a step stands after the successes of all that the step depends on.
  abbrev pub IsCausal : List Event → Type 0
  IsCausal [] = Unit
  IsCausal (ev ∷ older) =
      ((d : String) → 0 < count d (deps_of ev.step_id def.steps) → Done older d) × IsCausal older

  Done-later : (ev : Event) {older : List Event} {k : String} → Done older k → Done (ev ∷ older) k
  Done-later ev (inl restored) = inl restored
  Done-later ev (inr (x, m, named, won)) = inr (x, Memᴰ.tail m, named, won)

  pub record Inv (s : State) : Type 0 where
    pub causal : IsCausal s.events
    pub recorded : (k : String) → get_or unset k s.status ≡ success → Done s.events k

  -- What a round's start guarantees of a step that it starts.
  abbrev Allowed : State → String → Type 0
  Allowed begun k = (d : String) → 0 < count d (deps_of k def.steps) → Done begun.events d

  record During (begun s : State) : Type 0 where
    inv : Inv s
    grown : (d : String) → Done begun.events d → Done s.events d

  -- A step writes its status and then emits an event.
  write :
      (begun s : State) (ev : Event)
      → Allowed begun ev.step_id
      → During begun s
      → (t : State) → t.events ≡ ev ∷ s.events
      → t.status ≡ insert ev.step_id ev.status s.status
      → During begun t
  write begun s ev allowed h t logged written = record {
    inv = record {
      causal = rw logged ((λ d listed. h.grown d (allowed d listed)), h.inv.causal);
      recorded = λ k won. rw logged (elim (eq-cases ev.step_id k) [
        | inl named ↦ inr (ev, Memᴰ.head refl, named, wrote k named won)
        | inr other ↦ Done-later ev (h.inv.recorded k (kept k other won))
      ]);
    };
    grown = λ d done. rw logged (Done-later ev (h.grown d done));
  }
    where
      at_key :
          (k : String)
          → get_or unset k t.status
            ≡ (if ev.step_id == k then ev.status else get_or unset k s.status)
      at_key k = rw written (get_or-insert unset ev.step_id k ev.status s.status)

      wrote :
          (k : String) → ev.step_id ≡ k → get_or unset k t.status ≡ success → ev.status ≡ success
      wrote k named won = ground (arith, at_key k, eq_iff ev.step_id k)

      kept :
          (k : String)
          → (ev.step_id == k) ≡ false
          → get_or unset k t.status ≡ success
          → get_or unset k s.status ≡ success
      kept k other won = ground (arith, at_key k)

  -- The step that was paused starts with no event.
  write_quietly :
      (begun s : State) (k : String) → During begun s → During begun (set_status k running s)
  unfolding set_status
  write_quietly begun s k h = record {
    inv = record {
      causal = h.inv.causal;
      recorded =
          λ j won. h.inv.recorded j (ground (arith, get_or-insert unset k j running s.status));
    };
    grown = h.grown;
  }

  During-start_step :
      (paused_step : String) (begun : State) (step : StepDefinition) (s : State)
      → Allowed begun step.ident
      → During begun s
      → During begun (start_step e paused_step step s).0
  unfolding start_step emit set_status
  During-start_step paused_step begun step s allowed h =
      elim (Bool-cases (step.ident == paused_step)) [
        | inl quiet ↦ rw (quiet) (write_quietly begun s step.ident h)
        | inr loud ↦ rw (loud) (write begun s (running_event step.ident) allowed h _ refl refl)
      ]

  causal_rule :
      (paused_step : String) (begun : State)
      → RoundRule e paused_step (Allowed begun) (During begun)
  unfolding fail_step succeed_step set_status emit
  causal_rule paused_step begun = record {
    starts = During-start_step paused_step begun;
    fails = λ k x s allowed h. write begun s _ allowed h _ refl refl;
    succeeds = λ k o s allowed h. write begun s _ allowed h _ refl refl;
  }

  start-Inv : Inv (start_state e def)
  start-Inv =
      start_state_ind Inv e def
        (λ s statuses _ none_yet. record {
          causal = rw (none_yet) tt;
          recorded = λ k won. absurd (ground (arith, statuses k));
        })
        (λ k o t restored own h. record {
          causal = h.causal;
          recorded = λ j won. elim (eq-cases k j) [
            | inl e' ↦ inl (subst (λ i. IsKey i e.completed_steps) e' restored)
            | inr other ↦ h.recorded j (ground (arith, get_or-insert unset k j success t.status))
          ];
        })

  module _ (initial : Object) (paused_step : String) (arrival : Arrival)
      (delivers : Delivers arrival) (once : (k : String) → count k (idents def.steps) ≤ 1) where
    Inv-run_round :
        (batch : List StepDefinition) (s : State)
        → All (λ step. Memᴰ step (ready_steps def.steps s.status)) batch
        → Inv s × Holds def.steps s
        → Inv (run_round e def initial paused_step arrival batch s).0
          × Holds def.steps (run_round e def initial paused_step arrival batch s).0
    Inv-run_round batch s ready (h, holds) = (
      (run_round_ind e def initial paused_step arrival delivers (causal_rule paused_step s) batch s
          (All-of_mem (λ step. Allowed s step.ident) batch
            (λ step m d dep.
              h.recorded d (
                ready-won def.steps s.status once holds.unskipped (All-mem _ batch ready m) d dep)))
          (record { inv = h; grown = λ d done. done })).inv,
      Holds-run_round e def initial paused_step arrival delivers batch s holds,
    )

    pub rounds-Inv :
        (fuel : ℕ) {r : State × Option Err}
        → rounds e def initial paused_step arrival fuel (start_state e def) ≡ some r
        → Inv r.0 × Holds def.steps r.0
    rounds-Inv fuel h =
        rounds_ind e def initial paused_step arrival delivers (λ s. Inv s × Holds def.steps s)
          Inv-run_round fuel (start_state e def) h (start-Inv, Holds-start_state e def)

-- In the log of a run, every event of a step stands after a success of each step that it depends
-- on, unless that one was restored from a checkpoint: no step starts before its dependencies have
-- succeeded. This holds whatever the steps and the handler answer, in whatever order the steps of a
-- round finish, if the channel delivers the round's results and nothing else and the range over the
-- map of nodes visits each node once.
pub run_internal-IsCausal :
    (e : Engine) (def : Definition) (initial : Object) (paused_step : String) (arrival : Arrival)
    (ranged : List String → List String) (r : State × Option Err)
    → Delivers arrival
    → Rearranges ranged
    → run_internal e def initial paused_step arrival ranged ≡ some r
    → IsCausal e def r.0.events
unfolding run_internal
run_internal-IsCausal e def initial paused_step arrival ranged r delivers fair h =
    elim (Option-cases (validate_definition ranged def.steps)) [
      | inr (x, invalid) ↦
          let stopped : r ≡ (no_result e, some x) = ground arith in
          subst (λ q. IsCausal e def q.0.events) (sym stopped) (nothing e)
      | inl valid ↦
          (rounds-Inv e def initial paused_step arrival delivers
            ((accepted_iff_IsValid ranged def.steps fair).0 valid).once (suc (length def.steps))
            {r = r} (ground arith)).0.causal
    ]
  where
    nothing : (e' : Engine) → IsCausal e def (no_result e').events
    nothing e' = unfold no_result in tt
