-- ===== src/Workflow/Graph/Examples.antt =====
-- The sort and the check on a definition of two steps.
use auto_dev_os.Base.{
  ℕ, ◌<◌, String, ◌≡◌, refl, ◌↔◌, none, List, [], ◌∷◌, arith, ◌==◌, if◌then◌else◌, ltb, eq_iff,
  false,
}
use auto_dev_os.Base.Counts.{count}
use auto_dev_os.Base.Dict.{get_or, is_key, keys, lookup, insert}
use auto_dev_os.Workflow.Step.{StepDefinition}
use auto_dev_os.Workflow.Sample.{as_listed, as_listed-Rearranges, plan, code}
use auto_dev_os.Workflow.Graph.{
  sorted, validate_dag, graph_of, add_deps, add_dep, add_node, sources, drain, release, check_order,
  validate_definition,
}
use auto_dev_os.Workflow.Graph.Build.{idents, deps_of}
use auto_dev_os.Workflow.Graph.Drain.{IsTopological}
use auto_dev_os.Workflow.Graph.Order.{validate_dag_sound, validate_dag_complete}
use auto_dev_os.Workflow.Graph.Valid.{IsValid, accepted_iff_IsValid}

-- The dependent step is listed first.
abbrev backwards : List StepDefinition
backwards = code ∷ plan ∷ []

backwards_sorted : validate_dag as_listed backwards ≡ sorted ("plan" ∷ "code" ∷ [])
unfolding validate_dag graph_of add_deps add_dep add_node sources drain release check_order get_or
    is_key keys lookup insert ◌==◌
backwards_sorted = refl

validate_dag_sound_example :
    ((c : String)
      → count c ("plan" ∷ "code" ∷ []) ≡ (if ltb 0 (count c (idents backwards)) then 1 else 0))
    × IsTopological (λ c. deps_of c backwards) [] ("plan" ∷ "code" ∷ [])
validate_dag_sound_example =
    validate_dag_sound backwards as_listed ("plan" ∷ "code" ∷ []) as_listed-Rearranges
      backwards_sorted

rank : String → ℕ
rank k = if k == "code" then 1 else 0

plan_other : ("plan" == "code") ≡ false
unfolding ◌==◌
plan_other = refl

ranked :
    (d c : String)
    → 0 < count d (deps_of c backwards)
    → (rank d < rank c) × (0 < count d (idents backwards))
unfolding rank count deps_of
ranked d c dep =
    ground (arith, eq_iff "code" c, eq_iff "plan" d, eq_iff c "code", eq_iff d "code", plan_other)

validate_dag_complete_example :
    (order : List String) × (validate_dag as_listed backwards ≡ sorted order)
validate_dag_complete_example =
    validate_dag_complete backwards as_listed rank as_listed-Rearranges ranked

accepted_iff_IsValid_example : (validate_definition as_listed backwards ≡ none) ↔ IsValid backwards
accepted_iff_IsValid_example = accepted_iff_IsValid as_listed backwards as_listed-Rearranges
