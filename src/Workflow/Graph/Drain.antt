-- ===== src/Workflow/Graph/Drain.antt =====
-- The queue of `ValidateDAG`: what holds of it at each turn.
use auto_dev_os.Base.{
  ℕ, zero, suc, ◌+◌, ◌≤◌, ◌<◌, String, ◌≡◌, refl, some, List, [], ◌∷◌, ◌++◌, arith, eq_iff, eq_self,
  if◌then◌else◌, length, length-append, ltb, num_eq,
}
use auto_dev_os.Base.Int.{ℤ, pos, pred, is_zero}
use auto_dev_os.Base.Counts.{count, count-append, count-one, length-le_of_count, count-le-cons}
use auto_dev_os.Base.Dict.{Dict, insert, get_or-insert}
use auto_dev_os.Workflow.Graph.{deg, children, release, drain}

-- How many of the dependencies are not in the order yet.
pub outside : List String → List String → ℕ
outside order [] = 0
outside order (d ∷ ds) = let n = outside order ds in if ltb 0 (count d order) then n else suc n

pub outside-nil : (ds : List String) → outside [] ds ≡ length ds
unfolding outside count
outside-nil [] = refl
outside-nil (d ∷ ds) = ground (arith, outside-nil ds)

-- A node that enters the order takes its occurrences out.
outside-snoc :
    (order ds : List String) (cur : String)
    → count cur order ≡ 0
    → outside order ds ≡ outside (order ++ cur ∷ []) ds + count cur ds
unfolding outside count
outside-snoc order [] cur new = omega arith
outside-snoc order (d ∷ ds) cur new = ground (
  arith,
  eq_iff d cur,
  eq_iff cur d,
  outside-snoc order ds cur new,
  count-append d order (cur ∷ []),
  count-one d cur,
)

pub outside-zero :
    (order ds : List String) (d : String)
    → outside order ds ≡ 0
    → 0 < count d ds
    → 0 < count d order
unfolding outside count
outside-zero order [] d h listed = absurd (omega arith)
outside-zero order (x ∷ ds) d h listed = ground (arith, eq_iff x d, outside-zero order ds d)

pub outside_of_all :
    (order ds : List String)
    → ((d : String) → 0 < count d ds → 0 < count d order)
    → outside order ds ≡ 0
unfolding outside count
outside_of_all order [] h = refl
outside_of_all order (x ∷ ds) h =
    ground (
      arith,
      eq_self x,
      h x,
      outside_of_all order ds (λ d listed. h d (count-le-cons d x ds listed)),
    )

module _ (deps : String → List String) where
  -- Each node stands behind its dependencies.
  abbrev pub IsTopological : List String → List String → Type 0
  IsTopological seen [] = Unit
  IsTopological seen (c ∷ rest) =
      ((d : String) → 0 < count d (deps c) → 0 < count d seen) × IsTopological (c ∷ seen) rest

  IsTopological-snoc :
      (seen order : List String) (c : String)
      → IsTopological seen order
      → ((d : String) → 0 < count d (deps c) → 0 < count d seen + count d order)
      → IsTopological seen (order ++ c ∷ [])
  unfolding count
  IsTopological-snoc seen [] c h new = ((λ d listed. ground (arith, new d listed)), tt)
  IsTopological-snoc seen (x ∷ order) c h new =
      (h.0, IsTopological-snoc (x ∷ seen) order c h.1 (λ d listed. ground (arith, new d listed)))

-- The nodes `ids` and the dependencies `deps` of each.
module _ (ids : List String) (deps : String → List String) where
  -- A node is in the order or in the queue just when no dependency is open, and then once.
  -- `left` holds the children of the last node that are still to be released.
  pub record Inv (in_deg : Dict ℤ) (queue order left : List String) : Type 0 where
    pub degrees : (c : String) → deg c in_deg ≡ pos (outside order (deps c) + count c left)
    pub placed :
        (c : String)
        → count c order + count c queue
          ≡ (if num_eq (outside order (deps c) + count c left) 0 then count c ids else 0)
    pub known : (c : String) → 0 < count c left → count c ids ≡ 1
    pub topological : IsTopological deps [] order

  release_one :
      (child : String) (in_deg : Dict ℤ) (queue order left : List String)
      → Inv in_deg queue order (child ∷ left)
      → let n = pred (deg child in_deg) in
        Inv (insert child n in_deg) (if is_zero n then queue ++ child ∷ [] else queue) order left
  unfolding count
  release_one child in_deg queue order left inv = record {
    degrees = λ c. ground (
      arith,
      inv.degrees c,
      inv.degrees child,
      eq_iff child c,
      get_or-insert (pos 0) child c (pred (deg child in_deg)) in_deg,
    );
    placed = λ c. ground (
      arith,
      inv.placed c,
      inv.degrees child,
      inv.placed child,
      inv.known child,
      eq_iff child c,
      eq_self child,
      count-append c queue (child ∷ []),
      count-one c child,
    );
    known = λ c h. ground (arith, inv.known c);
    topological = inv.topological;
  }

  release-Inv :
      (left : List String) (in_deg : Dict ℤ) (queue order : List String)
      → Inv in_deg queue order left
      → Inv (release left in_deg queue).0 (release left in_deg queue).1 order []
  unfolding release
  release-Inv [] in_deg queue order inv = inv
  release-Inv (child ∷ left) in_deg queue order inv =
      release-Inv left _ _ order (release_one child in_deg queue order left inv)

  -- The head of the queue moves to the order.
  module _ (child_lists : Dict (List String))
      (lists : (c d : String) → count c (children d child_lists) ≡ count d (deps c))
      (ids_once : (c : String) → count c ids ≤ 1)
      (stray : (c : String) → count c ids ≡ 0 → deps c ≡ []) where
    take_head :
        (in_deg : Dict ℤ) (cur : String) (queue order : List String)
        → Inv in_deg (cur ∷ queue) order []
        → Inv in_deg queue (order ++ cur ∷ []) (children cur child_lists)
    unfolding count
    take_head in_deg cur queue order inv = record {
      degrees =
          λ c. ground (arith, inv.degrees c, lists c cur, outside-snoc order (deps c) cur fresh);
      placed = λ c. ground (
        arith,
        inv.placed c,
        lists c cur,
        outside-snoc order (deps c) cur fresh,
        count-append c order (cur ∷ []),
        count-one c cur,
      );
      known = λ c h. ground (arith, ids_once c, lists c cur, stray c);
      topological =
          IsTopological-snoc deps [] order cur inv.topological
            (λ d listed. omega (arith, outside-zero order (deps cur) d closed listed));
    }
      where
        fresh : count cur order ≡ 0
        fresh = ground (arith, inv.placed cur, ids_once cur, eq_self cur)

        closed : outside order (deps cur) ≡ 0
        closed = ground (arith, inv.placed cur, eq_self cur)

    placed-le :
        (in_deg : Dict ℤ) (queue order : List String)
        → Inv in_deg queue order []
        → length order + length queue ≤ length ids
    placed-le in_deg queue order inv = omega (
      arith,
      length-append order queue,
      length-le_of_count (order ++ queue) ids
          (λ c. ground (arith, count-append c order queue, inv.placed c)),
    )

    -- With fuel for the nodes that are not in the order, the queue runs empty.
    pub drain-Inv :
        (fuel : ℕ) (in_deg : Dict ℤ) (queue order : List String)
        → Inv in_deg queue order []
        → length order + fuel ≡ length ids
        → (final : List String) × (drain child_lists fuel in_deg queue order ≡ some final)
          × ((in_deg' : Dict ℤ) × Inv in_deg' [] final [])
    unfolding drain
    drain-Inv fuel in_deg [] order inv enough = (order, refl, (in_deg, inv))
    drain-Inv zero in_deg (cur ∷ queue) order inv enough =
        absurd (omega (arith, placed-le in_deg (cur ∷ queue) order inv))
    drain-Inv (suc fuel) in_deg (cur ∷ queue) order inv enough =
        drain-Inv fuel _ _ (order ++ cur ∷ [])
          (release-Inv (children cur child_lists) in_deg queue (order ++ cur ∷ [])
            (take_head in_deg cur queue order inv))
          (omega (arith, length-append order (cur ∷ [])))
