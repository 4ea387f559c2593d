-- ===== src/Workflow/Graph/Order.antt =====
-- `ValidateDAG` against the definition.
use auto_dev_os.Base.{
  ℕ, zero, suc, ◌≤◌, ◌<◌, String, ◌≡◌, refl, sym, ap, ◌∙◌, subst, some, List, [], arith,
  if◌then◌else◌, length, ltb, num_eq,
}
use auto_dev_os.Base.Int.{ℤ, pos, is_zero}
use auto_dev_os.Base.Counts.{
  count, Rearranges, count-filter, count-eq_of_length, length-le_of_count,
}
use auto_dev_os.Base.Dict.{Dict, get_or, keys, length-keys, lookup}
use auto_dev_os.Workflow.Step.{StepDefinition}
use auto_dev_os.Workflow.Graph.{
  Graph, sorted, cyclic, deg, children, sources, drain, graph_of, check_order, validate_dag,
}
use auto_dev_os.Workflow.Graph.Build.{
  idents, deps_of, deg-graph_of, children-graph_of, keys-graph_of, deps_of-stray,
}
use auto_dev_os.Workflow.Graph.Drain.{
  outside, outside-nil, outside_of_all, IsTopological, Inv, drain-Inv,
}

abbrev empty_graph : Graph
empty_graph = record { in_deg = []; deps = [] }

module _ (steps : List StepDefinition) where
  abbrev graph : Graph
  graph = graph_of steps empty_graph

  abbrev ids : List String
  ids = keys graph.in_deg

  abbrev deps : String → List String
  deps c = deps_of c steps

  ids_lem : (c : String) → count c ids ≡ (if ltb 0 (count c (idents steps)) then 1 else 0)
  ids_lem c = unfold keys count in keys-graph_of c steps empty_graph

  degree : (c : String) → deg c graph.in_deg ≡ pos (length (deps c))
  unfolding get_or lookup
  degree c = ground (arith, deg-graph_of c steps empty_graph {m = 0} refl)

  lists : (c d : String) → count c (children d graph.deps) ≡ count d (deps c)
  unfolding get_or lookup count
  lists c d = ground (arith, children-graph_of c d steps empty_graph)

  stray : (c : String) → count c ids ≡ 0 → deps c ≡ []
  stray c h = deps_of-stray c steps (ground (arith, ids_lem c))

  start_Inv :
      (ranged : List String → List String)
      → Rearranges ranged
      → Inv ids deps graph.in_deg (sources graph.in_deg (ranged ids)) [] []
  unfolding sources count
  start_Inv ranged fair = record {
    degrees = λ c. ground (arith, degree c, outside-nil (deps c));
    placed = λ c. ground (
      arith,
      degree c,
      outside-nil (deps c),
      fair ids c,
      count-filter (λ k. is_zero (deg k graph.in_deg)) c (ranged ids),
    );
    known = λ c h. absurd (omega arith);
    topological = tt;
  }

  ids_once : (c : String) → count c ids ≤ 1
  ids_once c = ground (arith, ids_lem c)

  -- The order that the queue leaves, before its length is compared.
  drained :
      (ranged : List String → List String)
      → Rearranges ranged
      → (order : List String) × (drain graph.deps
            (length graph.in_deg)
            graph.in_deg
            (sources graph.in_deg (ranged ids))
            []
          ≡ some order)
        × ((in_deg : Dict ℤ) × Inv ids deps in_deg [] order [])
  drained ranged fair =
      drain-Inv ids deps graph.deps lists ids_once stray (length graph.in_deg) graph.in_deg _ []
        (start_Inv ranged fair) (omega (arith, length-keys graph.in_deg))

  validate_dag-drained :
      (ranged : List String → List String) (order : List String)
      → drain graph.deps (length graph.in_deg) graph.in_deg (sources graph.in_deg (ranged ids)) []
        ≡ some order
      → validate_dag ranged steps
        ≡ (if num_eq (length order) (length ids) then sorted order else cyclic)
  unfolding validate_dag check_order
  validate_dag-drained ranged order e = ground (arith, length-keys graph.in_deg)

  module _ (order : List String) {in_deg : Dict ℤ} (inv : Inv ids deps in_deg [] order []) where
    final-le : (c : String) → count c order ≤ count c ids
    unfolding count
    final-le c = ground (arith, inv.placed c)

    module _ (rank : String → ℕ)
        (ranked : (d c : String)
          → 0 < count d (deps c)
          → (rank d < rank c) × (0 < count d (idents steps))) where
      covered : (n : ℕ) (c : String) → rank c < n → count c order ≡ count c ids
      unfolding count
      covered zero c h = absurd (omega arith)
      covered (suc n) c h =
          let closed : outside order (deps c) ≡ 0 = outside_of_all order (deps c) (λ d listed.
            let (below, named) = ranked d c listed in
            ground (arith, covered n d (omega arith), ids_lem d)) in
          ground (arith, inv.placed c)

  -- A sorted order that `ValidateDAG` returns holds the name of each step once and nothing else, each
  -- behind its dependencies, if the range over the map of nodes visits each node once.
  pub validate_dag_sound :
      (ranged : List String → List String) (order : List String)
      → Rearranges ranged
      → validate_dag ranged steps ≡ sorted order
      → ((c : String) → count c order ≡ (if ltb 0 (count c (idents steps)) then 1 else 0))
        × IsTopological deps [] order
  validate_dag_sound ranged order fair h =
      let (final, e, (in_deg, inv)) = drained ranged fair in
      let decided = validate_dag-drained ranged final e in
      let same : final ≡ order = ground arith in
      let full : length ids ≤ length final = ground arith in
      (
        (λ c.
            ap (count c) (sym same)
            ∙ count-eq_of_length final ids (final-le final inv) full c
            ∙ ids_lem c),
        subst (IsTopological deps []) same inv.topological,
      )

  -- If some rank puts every dependency below its step, every dependency is a step, and the range over
  -- the map of nodes visits each node once, `ValidateDAG` returns a sorted order.
  pub validate_dag_complete :
      (ranged : List String → List String) (rank : String → ℕ)
      → Rearranges ranged
      → ((d c : String) → 0 < count d (deps c) → (rank d < rank c) × (0 < count d (idents steps)))
      → (order : List String) × (validate_dag ranged steps ≡ sorted order)
  validate_dag_complete ranged rank fair ranked =
      let (final, e, (in_deg, inv)) = drained ranged fair in
      let short = length-le_of_count final ids (final-le final inv) in
      let long =
        length-le_of_count ids final
          (λ c. omega (arith, covered final inv rank ranked (suc (rank c)) c (omega arith))) in
      (final, ground (arith, validate_dag-drained ranged final e))
