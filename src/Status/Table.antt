-- ===== src/Status/Table.antt =====
-- What the two validators of server/internal/workflow/state_machine.go share: a table of the
-- allowed transitions, and checks of all its edges by evaluation.
use auto_dev_os.Base.{
  String, ◌≡◌, ap, subst, ◌⊎◌, inl, inr, Bool, true, false, Option, none, some, List, [], ◌∷◌, Memᴰ,
  arith, ◌==◌, eq_iff, eq_self, Bool-cases, Option-cases, ◌&&◌, if◌then◌else◌,
}
use auto_dev_os.Base.Dict.{Dict, lookup, mem_of_lookup}

pub data TransitionError : Type 0 where
  unknown_status : String → TransitionError
  invalid_transition : String → String → TransitionError

-- `for _, status := range allowed { if status == to { return nil } }`
unfoldable pub allows : List String → String → Bool
allows [] to = false
allows (status ∷ rest) to = if status == to then true else allows rest to

-- The body of both validators, behind their tables.
unfoldable pub validate_in : Dict (List String) → String → String → Option TransitionError
validate_in table from to = if from == to then none else elim (lookup from table) [
  | none ↦ some (unknown_status from)
  | some allowed ↦ if allows allowed to then none else some (invalid_transition from to)
]

pub allows_sound :
    (allowed : List String) (to : String) → allows allowed to ≡ true → Memᴰ to allowed
unfolding allows
allows_sound [] to h = cc
allows_sound (status ∷ rest) to h = elim (Bool-cases (status == to)) [
  | inl e ↦ Memᴰ.head (sym' e)
  | inr n ↦ Memᴰ.tail (allows_sound rest to (rw n at h))
]
  where
    sym' : (status == to) ≡ true → to ≡ status
    sym' e = cc ((eq_iff status to).0 e)

pub allows_complete :
    {to : String} (allowed : List String) → Memᴰ to allowed → allows allowed to ≡ true
unfolding allows
allows_complete [] m = elim m [ ]
allows_complete {to} (status ∷ rest) (Memᴰ.head e) = rw (← e, eq_self to)
allows_complete {to} (status ∷ rest) (Memᴰ.tail m) = elim (Bool-cases (status == to)) [
  | inl e ↦ rw e
  | inr n ↦ rw n (allows_complete rest m)
]

-- An edge of the table.
abbrev pub Edge : Dict (List String) → String → String → Type 0
Edge table from to = (allowed : List String) × (lookup from table ≡ some allowed) × Memᴰ to allowed

module _ (table : Dict (List String)) (from to : String) where
  pub Edge-of_accepted : validate_in table from to ≡ none → (from ≡ to) ⊎ Edge table from to
  unfolding validate_in
  Edge-of_accepted h = elim (Bool-cases (from == to)) [
    | inl e ↦ inl ((eq_iff from to).0 e)
    | inr n ↦ elim (Option-cases (lookup from table)) [
      | inl absent ↦ ground arith
      | inr (allowed, found) ↦ inr (allowed, found, allows_sound allowed to (ground arith))
    ]
  ]

  pub accepted_of_Edge : (from ≡ to) ⊎ Edge table from to → validate_in table from to ≡ none
  unfolding validate_in
  accepted_of_Edge (inl e) = rw (e, eq_self to)
  accepted_of_Edge (inr (allowed, found, m)) = ground (arith, allows_complete allowed m)

-- Every edge passes a test.
unfoldable pub check_row : (String → Bool) → List String → Bool
check_row test [] = true
check_row test (to ∷ rest) = test to && check_row test rest

unfoldable pub check_edges : (String → String → Bool) → Dict (List String) → Bool
check_edges test [] = true
check_edges test ((from, allowed) ∷ rest) = check_row (test from) allowed && check_edges test rest

check_row_sound :
    (test : String → Bool) (allowed : List String) {to : String}
    → check_row test allowed ≡ true
    → Memᴰ to allowed
    → test to ≡ true
unfolding check_row
check_row_sound test [] h m = elim m [ ]
check_row_sound test (x ∷ rest) h (Memᴰ.head e) = rw e (ground arith)
check_row_sound test (x ∷ rest) h (Memᴰ.tail m) = check_row_sound test rest (ground arith) m

check_mem_sound :
    (test : String → String → Bool) (table : Dict (List String)) {from to : String}
    {allowed : List String}
    → check_edges test table ≡ true
    → Memᴰ (from, allowed) table
    → Memᴰ to allowed
    → test from to ≡ true
unfolding check_edges
check_mem_sound test [] h m t = elim m [ ]
check_mem_sound test ((j, row) ∷ rest) h (Memᴰ.head e) t =
    let checked : check_row (test j) row ≡ true = ground arith in
    rw (ap (λ p. p.0) e) (check_row_sound (test j) row checked (subst (Memᴰ _) (ap (λ p. p.1) e) t))
check_mem_sound test ((j, row) ∷ rest) h (Memᴰ.tail m) t =
    check_mem_sound test rest (ground arith) m t

-- A test that evaluates to true on the whole table holds of each of its edges.
pub check_edges_sound :
    (test : String → String → Bool) (table : Dict (List String)) {from to : String}
    → check_edges test table ≡ true
    → Edge table from to
    → test from to ≡ true
check_edges_sound test table h (allowed, found, m) =
    check_mem_sound test table h (mem_of_lookup table found) m

-- The same for the rows.
unfoldable pub check_rows : (String → List String → Bool) → Dict (List String) → Bool
check_rows test [] = true
check_rows test ((from, allowed) ∷ rest) = test from allowed && check_rows test rest

check_rows-mem :
    (test : String → List String → Bool) (table : Dict (List String)) {from : String}
    {allowed : List String}
    → check_rows test table ≡ true
    → Memᴰ (from, allowed) table
    → test from allowed ≡ true
unfolding check_rows
check_rows-mem test [] h m = elim m [ ]
check_rows-mem test ((j, row) ∷ rest) h (Memᴰ.head e) =
    rw (ap (λ p. p.0) e, ap (λ p. p.1) e) (ground arith)
check_rows-mem test ((j, row) ∷ rest) h (Memᴰ.tail m) = check_rows-mem test rest (ground arith) m

pub check_rows_sound :
    (test : String → List String → Bool) (table : Dict (List String)) {from : String}
    {allowed : List String}
    → check_rows test table ≡ true
    → lookup from table ≡ some allowed
    → test from allowed ≡ true
check_rows_sound test table h found = check_rows-mem test table h (mem_of_lookup table found)

-- No edge leaves a status whose row is empty.
pub not-Edge_of_empty :
    (table : Dict (List String)) (from to : String)
    → lookup from table ≡ some []
    → ¬ Edge table from to
not-Edge_of_empty table from to empty (allowed, found, m) =
    let e : allowed ≡ [] = cc in elim (subst (Memᴰ to) e m) [ ]
