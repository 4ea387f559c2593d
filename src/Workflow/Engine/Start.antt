-- ===== src/Workflow/Engine/Start.antt =====
-- The state in which the loop of `runInternal` begins.
use auto_dev_os.Base.{
  ◌≤◌, ◌<◌, String, ◌≡◌, refl, true, false, List, [], ◌∷◌, Memᴰ, arith, eq_iff, if◌then◌else◌, ltb,
  Bool-cases, inl, inr,
}
use auto_dev_os.Base.Counts.{count}
use auto_dev_os.Base.Dict.{
  Dict, insert, get_or, get_or-insert, keys, count-keys-insert, lookup, IsKey, IsKey-of_mem,
}
use auto_dev_os.Workflow.Schema.{Object}
use auto_dev_os.Workflow.Step.{StepStatus, unset, pending, success, StepDefinition, Definition}
use auto_dev_os.Workflow.Graph.Build.{idents}
use auto_dev_os.Workflow.Engine.{Engine, State, all_pending, seed, has_step, start_state}

all_pending-get_or :
    (steps : List StepDefinition) (status : Dict StepStatus) (k : String)
    → get_or unset k (all_pending steps status)
      ≡ (if ltb 0 (count k (idents steps)) then pending else get_or unset k status)
unfolding all_pending count
all_pending-get_or [] status k = ground arith
all_pending-get_or (step ∷ rest) status k = ground (
  arith,
  all_pending-get_or rest (insert step.ident pending status) k,
  get_or-insert unset step.ident k pending status,
)

-- A key stands once, and it names a step.
all_pending-keys :
    (steps : List StepDefinition) (status : Dict StepStatus) (k : String)
    → ((j : String) → count j (keys status) ≤ 1)
    → count k (keys (all_pending steps status))
      ≤ (if ltb 0 (count k (idents steps)) then 1 else count k (keys status))
unfolding all_pending count
all_pending-keys [] status k once = ground arith
all_pending-keys (step ∷ rest) status k once = ground (
  arith,
  all_pending-keys rest (insert step.ident pending status) k still,
  count-keys-insert k step.ident pending status,
  once k,
  still k,
  eq_iff step.ident k,
)
  where
    still : (j : String) → count j (keys (insert step.ident pending status)) ≤ 1
    still j =
        ground (arith, count-keys-insert j step.ident pending status, once j, eq_iff step.ident j)

-- The state before the restored steps are written.
abbrev fresh : Engine → Definition → State
fresh e def = record {
  outputs = [];
  status = all_pending def.steps [];
  is_paused = false;
  completed = e.completed_steps;
  events = [];
}

abbrev restore : String → Object → State → State
restore k output s = record s {
  status = insert k success s.status;
  outputs = insert k output s.outputs;
}

listed_of_has_step :
    (k : String) (steps : List StepDefinition)
    → has_step k steps ≡ true
    → 0 < count k (idents steps)
unfolding has_step count
listed_of_has_step k [] h = cc
listed_of_has_step k (step ∷ rest) h = ground (arith, listed_of_has_step k rest)

seed_ind :
    (P : State → Type 0) (steps : List StepDefinition) (restored : Dict Object) (s : State)
    → ((k : String) (o : Object) (t : State)
        → Memᴰ (k, o) restored
        → 0 < count k (idents steps)
        → P t
        → P (restore k o t))
    → P s
    → P (seed steps restored s)
unfolding seed
seed_ind P steps [] s keep h = h
seed_ind P steps ((k, o) ∷ rest) s keep h = elim (Bool-cases (has_step k steps)) [
  | inl own ↦ rw (own) (
      seed_ind P steps rest _ (λ j p t m. keep j p t (Memᴰ.tail m))
        (keep k o s (Memᴰ.head refl) (listed_of_has_step k steps own) h))
  | inr other ↦ rw (other) (seed_ind P steps rest s (λ j p t m. keep j p t (Memᴰ.tail m)) h)
]

-- What holds with the steps pending, and with each restored step written, holds at the start.
pub start_state_ind :
    (P : State → Type 0) (e : Engine) (def : Definition)
    → ((s : State)
        → ((k : String)
            → get_or unset k s.status
              ≡ (if ltb 0 (count k (idents def.steps)) then pending else unset))
        → ((k : String)
            → count k (keys s.status) ≤ (if ltb 0 (count k (idents def.steps)) then 1 else 0))
        → s.events ≡ []
        → P s)
    → ((k : String) (o : Object) (t : State)
        → IsKey k e.completed_steps
        → 0 < count k (idents def.steps)
        → P t
        → P (record t { status = insert k success t.status; outputs = insert k o t.outputs }))
    → P (start_state e def)
unfolding start_state
start_state_ind P e def base keep =
    seed_ind P def.steps e.completed_steps (fresh e def)
      (λ k o t m. keep k o t (IsKey-of_mem e.completed_steps m))
      (base (fresh e def) (λ k. unfold get_or lookup in all_pending-get_or def.steps [] k)
        (λ k.
          unfold keys count in ground (arith, all_pending-keys def.steps [] k (λ j. omega arith)))
        refl)
