-- ===== src/Workflow/Graph/Build.antt =====
-- The graph that `ValidateDAG` builds, read back from the definition: the in-degree of a step counts
-- its dependencies, the children of a step are those that name it, and the nodes are the steps.
use auto_dev_os.Base.{
  ℕ, suc, ◌+◌, String, ◌≡◌, refl, ◌∙◌, true, false, List, [], ◌∷◌, ◌++◌, arith, ◌==◌, eq_iff,
  eq_self, Bool-cases, if◌then◌else◌, inl, inr, length, length-append, ltb,
}
use auto_dev_os.Base.Int.{pos, next}
use auto_dev_os.Base.Counts.{count, count-append, count-one}
use auto_dev_os.Base.Dict.{
  get_or-insert, is_key, keys, is_key-insert, keys-insert_of_key, keys-insert_of_new, get_or_of_new,
  is_key-eq-count,
}
use auto_dev_os.Workflow.Step.{StepDefinition}
use auto_dev_os.Workflow.Graph.{Graph, deg, children, add_dep, add_deps, add_node, graph_of}

abbrev pub idents : List StepDefinition → List String
idents [] = []
idents (step ∷ rest) = step.ident ∷ idents rest

-- The dependencies that a list of steps gives to the step `k`, one after another.
unfoldable pub deps_of : String → List StepDefinition → List String
deps_of k [] = []
deps_of k (step ∷ rest) =
    let later = deps_of k rest in if step.ident == k then step.depends_on ++ later else later

deg-add_dep :
    (c k d : String) (g : Graph) {m : ℕ}
    → deg c g.in_deg ≡ pos m
    → deg c (add_dep k d g).in_deg ≡ pos (if k == c then suc m else m)
unfolding add_dep
deg-add_dep c k d g h =
    ground (arith, eq_iff k c, get_or-insert (pos 0) k c (next (deg k g.in_deg)) g.in_deg)

deg-add_deps :
    (c k : String) (ds : List String) (g : Graph) {m : ℕ}
    → deg c g.in_deg ≡ pos m
    → deg c (add_deps k ds g).in_deg ≡ pos (if k == c then m + length ds else m)
unfolding add_deps
deg-add_deps c k [] g h = ground arith
deg-add_deps c k (d ∷ rest) g {m} h = ground (
  arith,
  deg-add_deps c k rest (add_dep k d g) {m = if k == c then suc m else m} (deg-add_dep c k d g h),
)

children-add_dep :
    (c d k x : String) (g : Graph)
    → count c (children d (add_dep k x g).deps)
      ≡ count c (children d g.deps) + (if k == c then if x == d then 1 else 0 else 0)
unfolding add_dep
children-add_dep c d k x g = ground (
  arith,
  eq_iff x d,
  get_or-insert [] x d (children x g.deps ++ k ∷ []) g.deps,
  count-append c (children x g.deps) (k ∷ []),
  count-one c k,
)

children-add_deps :
    (c d k : String) (ds : List String) (g : Graph)
    → count c (children d (add_deps k ds g).deps)
      ≡ count c (children d g.deps) + (if k == c then count d ds else 0)
unfolding add_deps count
children-add_deps c d k [] g = ground arith
children-add_deps c d k (x ∷ rest) g =
    ground (arith, children-add_deps c d k rest (add_dep k x g), children-add_dep c d k x g)

keys-add_deps :
    (k : String) (ds : List String) (g : Graph)
    → is_key k g.in_deg ≡ true
    → keys (add_deps k ds g).in_deg ≡ keys g.in_deg
unfolding add_deps add_dep
keys-add_deps k [] g h = refl
keys-add_deps k (d ∷ rest) g h =
    keys-add_deps k rest (add_dep k d g)
      (is_key-insert k k (next (deg k g.in_deg)) g.in_deg ∙ rw (eq_self k))
    ∙ keys-insert_of_key k (next (deg k g.in_deg)) g.in_deg h

-- A node is added before its dependencies.
deg-add_node :
    (c k : String) (g : Graph) {m : ℕ}
    → deg c g.in_deg ≡ pos m
    → (is_key c g.in_deg ≡ false → m ≡ 0)
    → deg c (add_node k g).in_deg ≡ pos m
unfolding add_node
deg-add_node c k g h fresh = ground (arith, eq_iff k c, get_or-insert (pos 0) k c (pos 0) g.in_deg)

is_key-add_node : (k : String) (g : Graph) → is_key k (add_node k g).in_deg ≡ true
unfolding add_node
is_key-add_node k g = ground (arith, eq_self k, is_key-insert k k (pos 0) g.in_deg)

deps-add_node : (k : String) (g : Graph) → (add_node k g).deps ≡ g.deps
unfolding add_node
deps-add_node k g = ground arith

keys-add_node :
    (c k : String) (g : Graph)
    → count c (keys (add_node k g).in_deg) ≡ (
        if ltb 0 (count c (keys g.in_deg))
        then count c (keys g.in_deg)
        else if k == c
        then 1
        else 0)
unfolding add_node
keys-add_node c k g = elim (Bool-cases (is_key k g.in_deg)) [
  | inl old ↦ ground (arith, eq_iff k c, is_key-eq-count k g.in_deg)
  | inr new ↦ ground (
    arith,
    eq_iff k c,
    is_key-eq-count k g.in_deg,
    keys-insert_of_new k (pos 0) g.in_deg new,
    count-append c (keys g.in_deg) (k ∷ []),
    count-one c k,
  )
]

abbrev add_step : StepDefinition → Graph → Graph
add_step step g = add_deps step.ident step.depends_on (add_node step.ident g)

pub deg-graph_of :
    (c : String) (steps : List StepDefinition) (g : Graph) {m : ℕ}
    → deg c g.in_deg ≡ pos m
    → deg c (graph_of steps g).in_deg ≡ pos (m + length (deps_of c steps))
unfolding graph_of deps_of
deg-graph_of c [] g h = ground arith
deg-graph_of c (step ∷ rest) g {m} h = ground (
  arith,
  length-append step.depends_on (deps_of c rest),
  deg-graph_of c rest (add_step step g)
      {m = if step.ident == c then m + length step.depends_on else m} added,
)
  where
    node : deg c (add_node step.ident g).in_deg ≡ pos m
    node =
        deg-add_node c step.ident g h (λ new. ground (arith, get_or_of_new (pos 0) c g.in_deg new))

    added :
        deg c (add_step step g).in_deg
        ≡ pos (if step.ident == c then m + length step.depends_on else m)
    added = deg-add_deps c step.ident step.depends_on (add_node step.ident g) node

pub children-graph_of :
    (c d : String) (steps : List StepDefinition) (g : Graph)
    → count c (children d (graph_of steps g).deps)
      ≡ count c (children d g.deps) + count d (deps_of c steps)
unfolding graph_of deps_of
children-graph_of c d [] g = unfold count in ground arith
children-graph_of c d (step ∷ rest) g = ground (
  arith,
  children-graph_of c d rest (add_step step g),
  children-add_deps c d step.ident step.depends_on (add_node step.ident g),
  deps-add_node step.ident g,
  count-append d step.depends_on (deps_of c rest),
)

pub keys-graph_of :
    (c : String) (steps : List StepDefinition) (g : Graph)
    → count c (keys (graph_of steps g).in_deg) ≡ (
        if ltb 0 (count c (keys g.in_deg))
        then count c (keys g.in_deg)
        else if ltb 0 (count c (idents steps))
        then 1
        else 0)
unfolding graph_of count
keys-graph_of c [] g = ground arith
keys-graph_of c (step ∷ rest) g = ground (
  arith,
  keys-graph_of c rest (add_step step g),
  keys-add_node c step.ident g,
  keys-add_deps step.ident step.depends_on (add_node step.ident g) (is_key-add_node step.ident g),
)

-- A text that names no step has no dependencies.
pub deps_of-stray :
    (c : String) (steps : List StepDefinition) → count c (idents steps) ≡ 0 → deps_of c steps ≡ []
unfolding deps_of count
deps_of-stray c [] h = refl
deps_of-stray c (step ∷ rest) h = ground (arith, deps_of-stray c rest)
