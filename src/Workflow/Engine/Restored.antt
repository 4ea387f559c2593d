-- ===== src/Workflow/Engine/Restored.antt =====
-- The steps that a checkpoint restored.
use auto_dev_os.Base.{
  ℕ, suc, ◌<◌, String, ◌≡◌, refl, sym, ap, ◌∙◌, subst, ◌≢◌, true, Option, none, some, List, [], ◌∷◌,
  Memᴰ, arith, ◌==◌, eq_iff, Bool-cases, inl, inr, length, All, All-mem, All-of_mem, eq_self,
}
use auto_dev_os.Base.Counts.{count}
use auto_dev_os.Base.Dict.{Dict, insert, get_or, get_or-insert, IsKey, mem_of_lookup}
use auto_dev_os.Workflow.Schema.{Object}
use auto_dev_os.Workflow.Step.{
  Err, Event, StepStatus, unset, pending, success, StepDefinition, Definition,
}
use auto_dev_os.Workflow.Graph.{validate_definition}
use auto_dev_os.Workflow.Graph.Build.{idents}
use auto_dev_os.Workflow.Engine.{
  Engine, State, Arrival, emit, set_status, start_step, fail_step, succeed_step, rounds,
  start_state, seed, has_step, run_internal,
}
use auto_dev_os.Workflow.Engine.Induction.{RoundRule, Delivers, run_round_ind, rounds_ind}
use auto_dev_os.Workflow.Engine.Rounds.{ready-pending}

module _ (k : String) where
  -- The step has succeeded, and no event tells of it.
  pub record Untouched (s : State) : Type 0 where
    pub won : get_or unset k s.status ≡ success
    pub quiet : (ev : Event) → Memᴰ ev s.events → ev.step_id ≢ k

  Untouched-write :
      (ev : Event) (s t : State)
      → ev.step_id ≢ k
      → t.status ≡ insert ev.step_id ev.status s.status
      → t.events ≡ ev ∷ s.events
      → Untouched s
      → Untouched t
  Untouched-write ev s t other status events h = record {
    won = rw (status) (
        ground
          (arith, get_or-insert unset ev.step_id k ev.status s.status, eq_iff ev.step_id k, h.won));
    quiet = λ x m. newer x (subst (λ l. Memᴰ x l) events m);
  }
    where
      newer : (x : Event) → Memᴰ x (ev ∷ s.events) → x.step_id ≢ k
      newer x (Memᴰ.head e) same = other (ap (λ (y : Event). y.step_id) (sym e) ∙ same)
      newer x (Memᴰ.tail m) same = h.quiet x m same

  Untouched-start_step :
      (e : Engine) (paused_step : String) (step : StepDefinition) (s : State)
      → step.ident ≢ k
      → Untouched s
      → Untouched (start_step e paused_step step s).0
  unfolding start_step emit set_status
  Untouched-start_step e paused_step step s other h =
      elim (Bool-cases (step.ident == paused_step)) [
        | inl silent ↦ rw (silent) (record {
          won = ground (
            arith,
            get_or-insert unset step.ident k StepStatus.running s.status,
            eq_iff step.ident k,
            h.won,
          );
          quiet = h.quiet;
        })
        | inr loud ↦ rw (loud) (Untouched-write _ s _ other refl refl h)
      ]

  Untouched-rule :
      (e : Engine) (paused_step : String) → RoundRule e paused_step (λ j. j ≢ k) Untouched
  unfolding fail_step succeed_step set_status emit
  Untouched-rule e paused_step = record {
    starts = λ step s. Untouched-start_step e paused_step step s;
    fails = λ j x s other h. Untouched-write _ s _ other refl refl h;
    succeeds = λ j o s other h. Untouched-write _ s _ other refl refl h;
  }

  has_step_of_count :
      (steps : List StepDefinition) → 0 < count k (idents steps) → has_step k steps ≡ true
  unfolding has_step count
  has_step_of_count [] listed = absurd (omega arith)
  has_step_of_count (step ∷ rest) listed = ground (arith, has_step_of_count rest)

  seed-kept :
      (steps : List StepDefinition) (restored : Dict Object) (s : State)
      → Untouched s
      → Untouched (seed steps restored s)
  unfolding seed
  seed-kept steps [] s h = h
  seed-kept steps ((j, o) ∷ rest) s h = elim (Bool-cases (has_step j steps)) [
    | inr other ↦ rw (other) (seed-kept steps rest s h)
    | inl own ↦ rw (own) (
        seed-kept steps rest _ (record {
          won = ground (arith, get_or-insert unset j k success s.status, h.won);
          quiet = h.quiet;
        }))
  ]

  restored-Untouched :
      (o : Object) (s : State)
      → s.events ≡ []
      → Untouched (record s { status = insert k success s.status; outputs = insert k o s.outputs })
  restored-Untouched o s none_yet = record {
    won = ground (arith, get_or-insert unset k k success s.status, eq_self k);
    quiet = λ ev m. elim (subst (λ l. Memᴰ ev l) none_yet m) [ ];
  }

  seed-Untouched :
      (steps : List StepDefinition) (restored : Dict Object) (s : State) {o : Object}
      → 0 < count k (idents steps)
      → Memᴰ (k, o) restored
      → s.events ≡ []
      → Untouched (seed steps restored s)
  unfolding seed
  seed-Untouched steps [] s listed m none_yet = elim m [ ]
  seed-Untouched steps ((j, p) ∷ rest) s listed (Memᴰ.head e) none_yet =
      let same : k ≡ j = ap (λ (q : String × Object). q.0) e in
      let own : has_step j steps ≡ true =
        subst (λ i. has_step i steps ≡ true) same (has_step_of_count steps listed) in
      rw (own) (
        seed-kept steps rest _ (
          subst
            (λ i.
              Untouched
                (record s { status = insert i success s.status; outputs = insert i p s.outputs }))
            same (restored-Untouched p s none_yet)))
  seed-Untouched steps ((j, p) ∷ rest) s listed (Memᴰ.tail m) none_yet =
      elim (Bool-cases (has_step j steps)) [
        | inr other ↦ rw (other) (seed-Untouched steps rest s listed m none_yet)
        | inl own ↦ rw (own) (seed-Untouched steps rest _ listed m none_yet)
      ]

  pub start-Untouched :
      (e : Engine) (def : Definition)
      → 0 < count k (idents def.steps)
      → IsKey k e.completed_steps
      → Untouched (start_state e def)
  unfolding start_state
  start-Untouched e def listed (o, found) =
      seed-Untouched def.steps e.completed_steps _ listed (mem_of_lookup e.completed_steps found)
        refl

  rounds-Untouched :
      (e : Engine) (def : Definition) (initial : Object) (paused_step : String) (arrival : Arrival)
      → Delivers arrival
      → (fuel : ℕ) (r : State × Option Err) → 0 < count k (idents def.steps)
      → IsKey k e.completed_steps
      → rounds e def initial paused_step arrival fuel (start_state e def) ≡ some r
      → Untouched r.0
  rounds-Untouched e def initial paused_step arrival delivers fuel r listed restored h =
      rounds_ind e def initial paused_step arrival delivers Untouched
        (λ batch s ready before.
          run_round_ind e def initial paused_step arrival delivers (Untouched-rule e paused_step)
            batch s
            (All-of_mem (λ step. step.ident ≢ k) batch
              (λ step m same.
                let waits = (ready-pending def.steps s.status (All-mem _ batch ready m)).1 in
                pending-ne-success
                  (sym waits ∙ ap (λ i. get_or unset i s.status) same ∙ before.won)))
            before)
        fuel (start_state e def) h (start-Untouched e def listed restored)
    where
      pending-ne-success : pending ≢ success
      pending-ne-success c = cc

-- A step that a checkpoint restored does not run again: its status is success at the end, however
-- the run ends, and no event tells of it. The conditions are that the definition is accepted and
-- that the channel delivers the round's results and nothing else.
pub run_internal-restored :
    (e : Engine) (def : Definition) (initial : Object) (paused_step : String) (arrival : Arrival)
    (ranged : List String → List String) (r : State × Option Err) (k : String)
    → Delivers arrival
    → validate_definition ranged def.steps ≡ none
    → 0 < count k (idents def.steps)
    → IsKey k e.completed_steps
    → run_internal e def initial paused_step arrival ranged ≡ some r
    → (get_or unset k r.0.status ≡ success) × All (λ ev. ev.step_id ≢ k) r.0.events
unfolding run_internal
run_internal-restored e def initial paused_step arrival ranged r k delivers valid listed restored
      h =
    let u =
      rounds-Untouched k e def initial paused_step arrival delivers (suc (length def.steps)) r
        listed restored (ground arith) in
    (u.won, All-of_mem _ _ u.quiet)
