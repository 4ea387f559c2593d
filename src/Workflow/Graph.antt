-- ===== src/Workflow/Graph.antt =====
-- server/internal/workflow/graph.go: `ValidateDAG`, and `validateDefinition` of engine.go. The order
-- in which Go ranges over a map is `ranged`, a rearrangement of the keys.
pub mod Build
pub mod Drain
pub mod Order
pub mod Valid
mod Examples
use auto_dev_os.Base.{
  ℕ, zero, suc, String, Bool, true, false, Option, none, some, List, [], ◌∷◌, ◌++◌, ◌==◌, map,
  length, num_eq, filter, if◌then◌else◌,
}
use auto_dev_os.Base.Int.{ℤ, pos, pred, next, is_zero}
use auto_dev_os.Base.Dict.{Dict, lookup, insert, get_or, is_key, keys}
use auto_dev_os.Workflow.Step.{
  Err, step_id_required, duplicate_step, unknown_dependency, cycle_detected, StepDefinition,
}

-- The two maps that the first loop fills: `inDeg` and `deps`.
pub record Graph : Type 0 where
  pub in_deg : Dict ℤ
  pub deps : Dict (List String)

abbrev pub deg : String → Dict ℤ → ℤ
deg = get_or (pos 0)

abbrev pub children : String → Dict (List String) → List String
children = get_or []

-- `inDeg[s.ID]++; deps[d] = append(deps[d], s.ID)`
unfoldable pub add_dep : String → String → Graph → Graph
add_dep k d g = record {
  in_deg = insert k (next (deg k g.in_deg)) g.in_deg;
  deps = insert d (children d g.deps ++ k ∷ []) g.deps;
}

-- `for _, d := range s.DependsOn`
unfoldable pub add_deps : String → List String → Graph → Graph
add_deps k [] g = g
add_deps k (d ∷ rest) g = add_deps k rest (add_dep k d g)

-- `if _, ok := inDeg[s.ID]; !ok { inDeg[s.ID] = 0 }`
unfoldable pub add_node : String → Graph → Graph
add_node k g = if is_key k g.in_deg then g else record g { in_deg = insert k (pos 0) g.in_deg }

unfoldable pub graph_of : List StepDefinition → Graph → Graph
graph_of [] g = g
graph_of (step ∷ rest) g =
    graph_of rest (add_deps step.ident step.depends_on (add_node step.ident g))

-- The loop that finds the first nodes of the queue.
unfoldable pub sources : Dict ℤ → List String → List String
sources in_deg ids = filter (λ k. is_zero (deg k in_deg)) ids

-- `for _, child := range deps[cur]`
unfoldable pub release : List String → Dict ℤ → List String → Dict ℤ × List String
release [] in_deg queue = (in_deg, queue)
release (child ∷ rest) in_deg queue =
    let n = pred (deg child in_deg) in
    release rest (insert child n in_deg) (if is_zero n then queue ++ child ∷ [] else queue)

-- `for len(queue) > 0`; `none` means that the fuel ran out.
unfoldable pub drain :
    Dict (List String) → ℕ → Dict ℤ → List String → List String → Option (List String)
drain deps fuel in_deg [] order = some order
drain deps zero in_deg (cur ∷ queue) order = none
drain deps (suc fuel) in_deg (cur ∷ queue) order =
    let (in_deg', queue') = release (children cur deps) in_deg queue in
    drain deps fuel in_deg' queue' (order ++ cur ∷ [])

-- `if len(order) != len(inDeg)`
unfoldable pub check_order : Graph → List String → Option (List String)
check_order g order = if num_eq (length order) (length g.in_deg) then some order else none

pub data Sorted : Type 0 where
  sorted : List String → Sorted
  cyclic out_of_fuel : Sorted

-- `ValidateDAG`, with fuel for each node of the graph.
unfoldable pub validate_dag : (List String → List String) → List StepDefinition → Sorted
validate_dag ranged steps =
    let g = graph_of steps (record { in_deg = []; deps = [] }) in
    elim (drain g.deps (length g.in_deg) g.in_deg (sources g.in_deg (ranged (keys g.in_deg))) []) [
      | none ↦ out_of_fuel
      | some order ↦ elim (check_order g order) [ none ↦ cyclic | some l ↦ sorted l ]
    ]

pub data Checked : Type 0 where
  seen_ids : Dict Bool → Checked
  rejected : Err → Checked

-- The first loop of `validateDefinition`.
unfoldable pub check_ids : List StepDefinition → Dict Bool → Checked
check_ids [] seen = seen_ids seen
check_ids (step ∷ rest) seen =
    let later = check_ids rest (insert step.ident true seen) in
    if step.ident == ""
    then rejected step_id_required
    else if get_or false step.ident seen
    then rejected (duplicate_step step.ident)
    else later

unfoldable pub check_deps_of : String → List String → Dict Bool → Option Err
check_deps_of k [] seen = none
check_deps_of k (d ∷ rest) seen =
    if get_or false d seen then check_deps_of k rest seen else some (unknown_dependency k d)

-- The second loop.
unfoldable pub check_deps : List StepDefinition → Dict Bool → Option Err
check_deps [] seen = none
check_deps (step ∷ rest) seen = elim (check_deps_of step.ident step.depends_on seen) [
  | some x ↦ some x
  | none ↦ check_deps rest seen
]

-- `validateDefinition`
unfoldable pub validate_definition : (List String → List String) → List StepDefinition → Option Err
validate_definition ranged steps = elim (check_ids steps []) [
  | rejected x ↦ some x
  | seen_ids seen ↦ elim (check_deps steps seen) [
    | some x ↦ some x
    | none ↦ elim (validate_dag ranged steps) [ sorted order ↦ none | _ ↦ some cycle_detected ]
  ]
]
