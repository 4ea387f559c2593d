-- ===== src/Workflow/Engine/Rounds.antt =====
-- The number of pending steps over the rounds of `runInternal`.
use auto_dev_os.Base.{
  ℕ, zero, suc, ◌≤◌, ◌<◌, String, ◌≡◌, refl, sym, ap, ◌∙◌, subst, ◌≢◌, true, Option, none, some,
  List, [], ◌∷◌, Memᴰ, arith, eq_self, Option-cases, if◌then◌else◌, inl, inr, length, take,
  List-cases, mem-filter, All-trivial,
}
use auto_dev_os.Base.Int.{ℤ, pos, negsuc}
use auto_dev_os.Base.Dict.{Dict, insert, get_or, get_or-insert}
use auto_dev_os.Workflow.Schema.{Object}
use auto_dev_os.Workflow.Step.{
  Err, StepStatus, unset, pending, running, success, StepDefinition, Definition,
}
use auto_dev_os.Workflow.Graph.{validate_definition}
use auto_dev_os.Workflow.Engine.{
  Engine, State, Arrival, is_pending, is_ready, fail_step, succeed_step, status_of_error,
  ready_steps, start_step, and_then, launch, run_round, limit, finish, continue_with, rounds,
  start_state, no_result, run_internal, set_status, emit,
}
use auto_dev_os.Workflow.Engine.Induction.{RoundRule, and_then_ind, launch_ind, collect_ind}

-- A step that is pending afterwards was pending before.
abbrev pub Keeps : Dict StepStatus → Dict StepStatus → Type 0
Keeps before after = (k : String) → get_or unset k after ≡ pending → get_or unset k before ≡ pending

Keeps-insert :
    (k : String) (status : StepStatus) (before d : Dict StepStatus)
    → status ≢ pending
    → Keeps before d
    → Keeps before (insert k status d)
Keeps-insert k status before d other keeps j h =
    ground (arith, get_or-insert unset k j status d, keeps j)

status_of_error-ne-pending : (x : Err) → status_of_error x ≢ pending
unfolding status_of_error
status_of_error-ne-pending x h = ground arith

Keeps-start_step :
    (e : Engine) (paused_step : String) (step : StepDefinition) (before : Dict StepStatus)
    (s : State)
    → Keeps before s.status
    → Keeps before (start_step e paused_step step s).0.status
unfolding start_step emit set_status
Keeps-start_step e paused_step step before s keeps k h =
    Keeps-insert step.ident running before s.status (λ c. cc) keeps k (ground arith)

-- No part of a round makes a step pending.
Keeps-rule :
    (e : Engine) (paused_step : String) (before : Dict StepStatus)
    → RoundRule e paused_step (λ _. Unit) (λ s. Keeps before s.status)
unfolding fail_step succeed_step set_status emit
Keeps-rule e paused_step before = record {
  starts = λ step s _. Keeps-start_step e paused_step step before s;
  fails =
      λ k x s _. Keeps-insert k (status_of_error x) before s.status (status_of_error-ne-pending x);
  succeeds = λ k o s _. Keeps-insert k success before s.status (λ c. cc);
}

-- How many steps are pending.
pub pending_count : List StepDefinition → Dict StepStatus → ℕ
pending_count [] status = 0
pending_count (step ∷ rest) status =
    let n = pending_count rest status in
    if is_pending (get_or unset step.ident status) then suc n else n

pending_count-le-length :
    (steps : List StepDefinition) (status : Dict StepStatus)
    → pending_count steps status ≤ length steps
unfolding pending_count
pending_count-le-length [] status = omega arith
pending_count-le-length (step ∷ rest) status = ground (arith, pending_count-le-length rest status)

is_pending_iff : (status : StepStatus) → is_pending status ≡ true → status ≡ pending
unfolding is_pending
is_pending_iff status h = ground arith

pending_count_mono :
    (steps : List StepDefinition) (before after : Dict StepStatus)
    → Keeps before after
    → pending_count steps after ≤ pending_count steps before
unfolding pending_count is_pending
pending_count_mono [] before after keeps = omega arith
pending_count_mono (step ∷ rest) before after keeps =
    ground (arith, pending_count_mono rest before after keeps, keeps step.ident)

pending_count-lt :
    (steps : List StepDefinition) (before after : Dict StepStatus) {step : StepDefinition}
    → Keeps before after
    → Memᴰ step steps
    → get_or unset step.ident before ≡ pending
    → get_or unset step.ident after ≢ pending
    → pending_count steps after < pending_count steps before
unfolding pending_count is_pending
pending_count-lt [] before after keeps m was now = elim m [ ]
pending_count-lt (x ∷ rest) before after keeps (Memᴰ.head e) was now =
    ground
      (arith, pending_count_mono rest before after keeps, ap (λ (s : StepDefinition). s.ident) e)
pending_count-lt (x ∷ rest) before after keeps (Memᴰ.tail m) was now =
    ground (arith, pending_count-lt rest before after keeps m was now, keeps x.ident)

running-ne-pending : running ≢ pending
running-ne-pending h = cc

started-running :
    (e : Engine) (paused_step : String) (step : StepDefinition) (s : State)
    → get_or unset step.ident (start_step e paused_step step s).0.status ≡ running
unfolding start_step set_status emit
started-running e paused_step step s =
    ground (arith, get_or-insert unset step.ident step.ident running s.status, eq_self step.ident)

-- The first of the ready steps is a pending step of the definition.
pub ready-pending :
    (steps : List StepDefinition) (status : Dict StepStatus) {step : StepDefinition}
    → Memᴰ step (ready_steps steps status)
    → Memᴰ step steps × (get_or unset step.ident status ≡ pending)
unfolding ready_steps is_ready is_pending
ready-pending steps status m =
    let (listed, ready) = mem-filter (is_ready status) steps m in (listed, ground arith)

take-limit :
    (n : ℤ) (step : StepDefinition) (more : List StepDefinition)
    → (rest : List StepDefinition) × (take (limit n) (step ∷ more) ≡ step ∷ rest)
unfolding limit
take-limit (pos zero) step more = (_, refl)
take-limit (pos (suc n)) step more = (_, refl)
take-limit (negsuc n) step more = (_, refl)

continue_total :
    (next : State → Option (State × Option Err)) (r : State × Option Err)
    → ((r' : State × Option Err) × (next r.0 ≡ some r'))
    → (r' : State × Option Err) × (continue_with next r ≡ some r')
unfolding continue_with
continue_total next (s, some x) h = (_, refl)
continue_total next (s, none) h = h

module _ (e : Engine) (def : Definition) (initial : Object) (paused_step : String)
    (arrival : Arrival) where
  Keeps-run_round :
      (step : StepDefinition) (rest : List StepDefinition) (s : State)
      → Keeps
          (start_step e paused_step step s).0.status
          (run_round e def initial paused_step arrival (step ∷ rest) s).0.status
  unfolding run_round launch
  Keeps-run_round step rest s =
      let begun = start_step e paused_step step s in
      let P = λ (s' : State). Keeps begun.0.status s'.status in
      and_then_ind P (and_then begun (launch e paused_step rest)) _
        (and_then_ind P begun (launch e paused_step rest) (λ k h. h)
          (λ s'. launch_ind (Keeps-rule e paused_step begun.0.status) rest s' (All-trivial rest)))
        (λ s'. collect_ind (Keeps-rule e paused_step begun.0.status) _ none s' (All-trivial _))

  -- A round over a batch that begins with a pending step leaves fewer steps pending.
  run_round-lt :
      (step : StepDefinition) (rest : List StepDefinition) (s : State)
      → Memᴰ step def.steps
      → get_or unset step.ident s.status ≡ pending
      → pending_count def.steps
          (run_round e def initial paused_step arrival (step ∷ rest) s).0.status
        < pending_count def.steps s.status
  run_round-lt step rest s m was =
      pending_count-lt def.steps s.status _
        (λ k h.
          Keeps-start_step e paused_step step s.status s (λ j p. p) k
            (Keeps-run_round step rest s k h))
        m was
        (λ h.
          running-ne-pending
            (sym (started-running e paused_step step s) ∙ Keeps-run_round step rest s step.ident h))

  rounds_total :
      (fuel : ℕ) (s : State)
      → pending_count def.steps s.status < fuel
      → (r : State × Option Err) × (rounds e def initial paused_step arrival fuel s ≡ some r)
  unfolding rounds
  rounds_total zero s h = elim h [ ]
  rounds_total (suc fuel) s h = elim (List-cases (ready_steps def.steps s.status)) [
    | inl idle ↦ (finish s, rw (idle, rounds))
    | inr (step, more, ready) ↦
        let (rest, cut) = take-limit e.max_parallel step more in
        let first =
          ready-pending def.steps s.status (subst (Memᴰ step) (sym ready) (Memᴰ.head refl)) in
        rw (ready, cut, rounds)
          (continue_total (rounds e def initial paused_step arrival fuel) _
            (rounds_total fuel _ (omega (arith, run_round-lt step rest s first.0 first.1))))
  ]

-- `runInternal` returns, whatever the steps and the handler answer and in whatever order the steps
-- of a round finish: a round for each step and one more are enough.
pub run_internal_total :
    (e : Engine) (def : Definition) (initial : Object) (paused_step : String) (arrival : Arrival)
    (ranged : List String → List String)
    → (r : State × Option Err) × (run_internal e def initial paused_step arrival ranged ≡ some r)
unfolding run_internal
run_internal_total e def initial paused_step arrival ranged =
    elim (Option-cases (validate_definition ranged def.steps)) [
      | inr (x, invalid) ↦ ((no_result e, some x), rw (invalid, run_internal))
      | inl valid ↦
          rw (valid, run_internal)
            (rounds_total e def initial paused_step arrival (suc (length def.steps))
              (start_state e def)
              (omega (arith, pending_count-le-length def.steps (start_state e def).status)))
    ]
