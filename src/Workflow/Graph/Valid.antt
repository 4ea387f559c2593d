-- ===== src/Workflow/Graph/Valid.antt =====
-- What `validateDefinition` accepts.
use auto_dev_os.Base.{
  ℕ, suc, ◌≤◌, ◌<◌, String, ◌≡◌, ◌≢◌, ◌↔◌, ◌⊎◌, refl, sym, ◌∙◌, subst, Bool, true, false, none,
  List, [], ◌∷◌, arith, ◌==◌, eq_iff, eq_self, eq-cases, Bool-cases, if◌then◌else◌, inl, inr, ltb,
  Option-cases, ne_of_eq-false, all, ◌&&◌,
}
use auto_dev_os.Base.Counts.{count, count-append, Rearranges, count-head, count-le-cons}
use auto_dev_os.Base.Dict.{Dict, insert, get_or, get_or-insert, lookup}
use auto_dev_os.Workflow.Step.{Err, StepDefinition}
use auto_dev_os.Workflow.Graph.{
  Sorted, sorted, cyclic, out_of_fuel, Checked, seen_ids, rejected, check_ids, check_deps_of,
  check_deps, validate_dag, validate_definition,
}
use auto_dev_os.Workflow.Graph.Build.{idents, deps_of}
use auto_dev_os.Workflow.Graph.Drain.{IsTopological}
use auto_dev_os.Workflow.Graph.Order.{validate_dag_sound, validate_dag_complete}

-- Each step has a name of its own, its dependencies are steps, and no chain of them is a circle.
pub record IsValid (steps : List StepDefinition) : Type 0 where
  pub named : (k : String) → 0 < count k (idents steps) → k ≢ ""
  pub once : (k : String) → count k (idents steps) ≤ 1
  pub known : (d k : String) → 0 < count d (deps_of k steps) → 0 < count d (idents steps)
  pub rank : String → ℕ
  pub ranked : (d k : String) → 0 < count d (deps_of k steps) → rank d < rank k

-- What the first loop accepts, with the names seen so far.
record Named (steps : List StepDefinition) (seen result : Dict Bool) : Type 0 where
  named : (k : String) → 0 < count k (idents steps) → k ≢ ""
  once : (k : String) → count k (idents steps) ≤ (if get_or false k seen then 0 else 1)
  result_lem :
      (k : String)
      → get_or false k result
        ≡ (if get_or false k seen then true else ltb 0 (count k (idents steps)))

check_ids-Named :
    (steps : List StepDefinition) (seen : Dict Bool) {result : Dict Bool}
    → check_ids steps seen ≡ seen_ids result
    → Named steps seen result
unfolding check_ids count
check_ids-Named [] seen h = record {
  named = λ k listed. absurd (omega arith);
  once = λ k. ground arith;
  result_lem = λ k. ground arith;
}
check_ids-Named (step ∷ rest) seen {result} h = elim (Bool-cases (step.ident == "")) [
  | inl blank ↦ absurd (ground arith)
  | inr nonblank ↦ elim (Bool-cases (get_or false step.ident seen)) [
    | inl again ↦ absurd (ground arith)
    | inr new ↦
        let later =
          check_ids-Named rest (insert step.ident true seen) {result = result} (ground arith) in
        record {
          named = λ k listed blank. elim (eq-cases step.ident k) [
            | inl e ↦ ne_of_eq-false nonblank (e ∙ blank)
            | inr other ↦ later.named k (ground arith) blank
          ];
          once = λ k. ground (
            arith,
            eq_iff step.ident k,
            later.once k,
            get_or-insert false step.ident k true seen,
          );
          result_lem = λ k. ground (
            arith,
            eq_iff step.ident k,
            later.result_lem k,
            get_or-insert false step.ident k true seen,
          );
        }
  ]
]

-- A list that the first loop accepts.
check_ids_of_Named :
    (steps : List StepDefinition) (seen : Dict Bool)
    → ((k : String) → 0 < count k (idents steps) → k ≢ "")
    → ((k : String) → count k (idents steps) ≤ (if get_or false k seen then 0 else 1))
    → (result : Dict Bool) × (check_ids steps seen ≡ seen_ids result)
unfolding check_ids
check_ids_of_Named [] seen named once = (seen, refl)
check_ids_of_Named (step ∷ rest) seen named once =
    let k = step.ident in
    let nonblank : (k == "") ≡ false =
      ground (arith, eq_iff k "", named k (count-head k (idents rest))) in
    let new : get_or false k seen ≡ false = unfold count in ground (arith, eq_self k, once k) in
    let (result, later) =
      check_ids_of_Named rest (insert k true seen)
        (λ j listed. named j (count-le-cons j k (idents rest) listed))
        (λ j.
          unfold count in ground (arith, eq_iff k j, once j, get_or-insert false k j true seen)) in
    (result, ground (arith))

check_deps_of-known :
    (k : String) (ds : List String) (seen : Dict Bool) (d : String)
    → check_deps_of k ds seen ≡ none
    → 0 < count d ds
    → get_or false d seen ≡ true
unfolding check_deps_of count
check_deps_of-known k [] seen d h listed = absurd (omega arith)
check_deps_of-known k (x ∷ ds) seen d h listed =
    ground (arith, eq_iff x d, check_deps_of-known k ds seen d)

check_deps_of_all :
    (k : String) (ds : List String) (seen : Dict Bool)
    → ((d : String) → 0 < count d ds → get_or false d seen ≡ true)
    → check_deps_of k ds seen ≡ none
unfolding check_deps_of
check_deps_of_all k [] seen h = refl
check_deps_of_all k (x ∷ ds) seen h =
    rw (h x (count-head x ds))
      (check_deps_of_all k ds seen (λ d listed. h d (count-le-cons d x ds listed)))

check_deps-known :
    (steps : List StepDefinition) (seen : Dict Bool) (d k : String)
    → check_deps steps seen ≡ none
    → 0 < count d (deps_of k steps)
    → get_or false d seen ≡ true
unfolding check_deps deps_of count
check_deps-known [] seen d k h listed = absurd (omega arith)
check_deps-known (step ∷ rest) seen d k h listed =
    elim (Option-cases (check_deps_of step.ident step.depends_on seen)) [
      | inr (x, bad) ↦ absurd (ground arith)
      | inl fine ↦ ground (
        arith,
        count-append d step.depends_on (deps_of k rest),
        check_deps_of-known step.ident step.depends_on seen d fine,
        check_deps-known rest seen d k,
      )
    ]

check_deps_all :
    (steps : List StepDefinition) (seen : Dict Bool)
    → ((d k : String) → 0 < count d (deps_of k steps) → get_or false d seen ≡ true)
    → check_deps steps seen ≡ none
unfolding check_deps deps_of
check_deps_all [] seen h = refl
check_deps_all (step ∷ rest) seen h =
    rw
      (
        check_deps_of_all step.ident step.depends_on seen
            (λ d listed. h d step.ident (own d listed)),
        check_deps,
      )
      (check_deps_all rest seen (λ d k listed. h d k (others d k listed)))
  where
    own :
        (d : String) → 0 < count d step.depends_on → 0 < count d (deps_of step.ident (step ∷ rest))
    own d listed =
        ground (arith, eq_self step.ident, count-append d step.depends_on (deps_of step.ident rest))

    others : (d k : String) → 0 < count d (deps_of k rest) → 0 < count d (deps_of k (step ∷ rest))
    others d k listed = ground (arith, count-append d step.depends_on (deps_of k rest))

-- A node of a sorted order stands below what depends on it.
place : String → List String → ℕ
place k [] = 0
place k (x ∷ xs) = let n = place k xs in if x == k then 0 else suc n

place-lt :
    (deps : String → List String) (seen order : List String) (d k : String)
    → IsTopological deps seen order
    → 0 < count k order
    → 0 < count d (deps k)
    → (0 < count d seen) ⊎ (place d order < place k order)
unfolding place count
place-lt deps seen [] d k h listed dep = absurd (omega arith)
place-lt deps seen (x ∷ order) d k h listed dep = elim (eq-cases x k) [
  | inl here ↦ inl (h.0 d (subst (λ c. 0 < count d (deps c)) (sym here) dep))
  | inr later ↦ elim (place-lt deps (x ∷ seen) order d k h.1 (ground arith) dep) [
    | inr below ↦ inr (ground arith)
    | inl seen_before ↦ elim (Bool-cases (x == d)) [
      | inl now ↦ inr (ground arith)
      | inr before ↦ inl (ground arith)
    ]
  ]
]

Checked-cases :
    (c : Checked) → ((seen : Dict Bool) × (c ≡ seen_ids seen)) ⊎ ((x : Err) × (c ≡ rejected x))
Checked-cases (seen_ids seen) = inl (seen, refl)
Checked-cases (rejected x) = inr (x, refl)

Sorted-cases :
    (s : Sorted) → ((order : List String) × (s ≡ sorted order)) ⊎ ((s ≡ cyclic) ⊎ (s ≡ out_of_fuel))
Sorted-cases (sorted order) = inl (order, refl)
Sorted-cases cyclic = inr (inl refl)
Sorted-cases out_of_fuel = inr (inr refl)

-- What the three parts of an accepting check answered.
accepted_parts :
    (ranged : List String → List String) (steps : List StepDefinition)
    → validate_definition ranged steps ≡ none
    → (seen : Dict Bool) × (order : List String) × (check_ids steps [] ≡ seen_ids seen)
      × (check_deps steps seen ≡ none)
      × (validate_dag ranged steps ≡ sorted order)
unfolding validate_definition
accepted_parts ranged steps h = elim (Checked-cases (check_ids steps [])) [
  | inr (x, bad) ↦ absurd (ground arith)
  | inl (seen, ids) ↦ elim (Option-cases (check_deps steps seen)) [
    | inr (x, bad) ↦ absurd (ground arith)
    | inl deps ↦ elim (Sorted-cases (validate_dag ranged steps)) [
      | inr bad ↦ absurd (ground arith)
      | inl (order, done) ↦ (seen, order, ids, deps, done)
    ]
  ]
]

-- What depends on something is a step.
pub depending :
    (steps : List StepDefinition) (d k : String)
    → 0 < count d (deps_of k steps)
    → 0 < count k (idents steps)
unfolding deps_of count
depending [] d k listed = listed
depending (step ∷ rest) d k listed = ground (arith, depending rest d k)

-- A definition is accepted exactly when its steps have names of their own that are not blank, depend
-- only on its steps, and do not depend on one another in a circle: some rank puts each dependency
-- below its step. The condition is that the range over the map of nodes visits each node once.
pub accepted_iff_IsValid :
    (ranged : List String → List String) (steps : List StepDefinition)
    → Rearranges ranged
    → (validate_definition ranged steps ≡ none) ↔ IsValid steps
unfolding validate_definition
accepted_iff_IsValid ranged steps fair = (valid, accepted)
  where
    valid : validate_definition ranged steps ≡ none → IsValid steps
    valid h =
        let (seen, order, ids, deps, done) = accepted_parts ranged steps h in
        let names = check_ids-Named steps [] ids in
        let (all_in, topological) = validate_dag_sound steps ranged order fair done in
        let known : (d k : String) → 0 < count d (deps_of k steps) → 0 < count d (idents steps) =
          λ d k listed.
            unfold get_or lookup in
            ground (arith, names.result_lem d, check_deps-known steps seen d k deps listed) in
        record {
          named = names.named;
          once = λ k. unfold get_or lookup in ground (arith, names.once k);
          known = known;
          rank = λ k. place k order;
          ranked = λ d k listed.
              elim (place-lt (λ c. deps_of c steps) [] order d k topological
                (ground (arith, all_in k, depending steps d k listed)) listed) [
                  | inl before ↦ absurd (unfold count in omega (arith, before))
                  | inr below ↦ below
                ];
        }

    accepted : IsValid steps → validate_definition ranged steps ≡ none
    accepted v =
        let (seen, ids) =
          check_ids_of_Named steps [] v.named
            (λ k. unfold get_or lookup in ground (arith, v.once k)) in
        let names = check_ids-Named steps [] ids in
        let deps =
          check_deps_all steps seen
            (λ d k listed. ground (arith, names.result_lem d, v.known d k listed)) in
        let (order, done) =
          validate_dag_complete steps ranged v.rank fair
            (λ d k listed. (v.ranked d k listed, v.known d k listed)) in
        rw (ids, deps, done, validate_definition) refl

-- Each dependency stands below its step.
unfoldable pub check_ranks : (String → ℕ) → List StepDefinition → Bool
check_ranks rank [] = true
check_ranks rank (step ∷ rest) =
    all (λ d. ltb (rank d) (rank step.ident)) step.depends_on && check_ranks rank rest

all-count :
    (test : String → Bool) (ds : List String) (d : String)
    → all test ds ≡ true
    → 0 < count d ds
    → test d ≡ true
unfolding count
all-count test [] d h listed = absurd (omega arith)
all-count test (x ∷ ds) d h listed = ground (arith, eq_iff x d, all-count test ds d)

check_ranks_sound :
    (rank : String → ℕ) (steps : List StepDefinition) (d k : String)
    → check_ranks rank steps ≡ true
    → 0 < count d (deps_of k steps)
    → rank d < rank k
unfolding check_ranks deps_of
check_ranks_sound rank [] d k h listed = absurd (unfold count in omega (arith, listed))
check_ranks_sound rank (step ∷ rest) d k h listed = ground (
  arith,
  eq_iff step.ident k,
  count-append d step.depends_on (deps_of k rest),
  all-count (λ x. ltb (rank x) (rank step.ident)) step.depends_on d,
  check_ranks_sound rank rest d k,
)

-- A definition that passes the two loops and has a rank is valid.
pub IsValid-of_checks :
    (steps : List StepDefinition) (seen : Dict Bool) (rank : String → ℕ)
    → check_ids steps [] ≡ seen_ids seen
    → check_deps steps seen ≡ none
    → check_ranks rank steps ≡ true
    → IsValid steps
unfolding get_or lookup
IsValid-of_checks steps seen rank ids deps ranks =
    let names = check_ids-Named steps [] ids in
    record {
      named = names.named;
      once = λ k. ground (arith, names.once k);
      known = λ d k listed.
          ground (arith, names.result_lem d, check_deps-known steps seen d k deps listed);
      rank = rank;
      ranked = λ d k. check_ranks_sound rank steps d k ranks;
    }
