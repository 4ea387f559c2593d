-- ===== src/TaskActions/Offers.antt =====
-- `computeAvailableActions` of server/internal/service/task.go and `ApplyActionPolicy` of
-- server/internal/service/task_action.go.
use auto_dev_os.Base.{
  String, ◌≡◌, refl, sym, ◌∙◌, Bool, true, false, none, some, List, [], ◌∷◌, ◌==◌, Bool-cases, inl,
  inr, ◌↔◌, All, all, map, ◌≢◌,
}
use Prim.Native.String.{◌++◌}
use auto_dev_os.Base.Dict.{Dict, lookup, get_or}
use auto_dev_os.Status.Table.{allows}
use auto_dev_os.Status.Task.{
  todo, context_loading, analyzing, coding, spec_review, pr_ready, human_review, merged, blocked,
  failed,
}
use auto_dev_os.Tasks.Table.{
  AvailableAction, action, cancel_action, delete_action, compute_available_actions,
}
use auto_dev_os.Base.{eq_self, ◌||◌, ne_of_eq-false, ◌⊎◌}
use auto_dev_os.TaskActions.{required_role, role_satisfies, apply_to, apply_action_policy}

-- The status that the operation behind an action first asks for, if it asks for one.
abbrev pub asked_statuses : Dict String
asked_statuses =
    ("approve_spec", coding)
    ∷ ("request_changes", analyzing)
    ∷ ("execute", context_loading)
    ∷ ("cancel", failed)
    ∷ ("retry", analyzing)
    ∷ ("retry_blocked", coding)
    ∷ []

leads : List String → AvailableAction → Bool
leads allowed a = elim (lookup a.ident asked_statuses) [
  | none ↦ true
  | some status ↦ allows allowed status
]

row_test : String → List String → Bool
row_test status allowed = all (leads allowed) (compute_available_actions status)

abbrev IsPlain : AvailableAction → Type 0
IsPlain a = a.disabled_reason ≡ ""

offered-IsPlain : (status : String) → All IsPlain (compute_available_actions status)
unfolding compute_available_actions action cancel_action delete_action
offered-IsPlain status = elim (Bool-cases (status == spec_review)) [
  | inl e ↦ rw e (refl, (refl, (refl, tt)))
  | inr n1 ↦ elim (Bool-cases (status == blocked)) [
    | inl e ↦ rw (n1, e) (refl, (refl, tt))
    | inr n2 ↦ elim (Bool-cases (status == failed)) [
      | inl e ↦ rw (n1, n2, e) (refl, (refl, tt))
      | inr n3 ↦ elim (Bool-cases (status == merged)) [
        | inl e ↦ rw (n1, n2, n3, e) tt
        | inr n4 ↦ elim (Bool-cases (status == todo)) [
          | inl e ↦ rw (n1, n2, n3, n4, e) (refl, (refl, tt))
          | inr n5 ↦ elim (Bool-cases (status == pr_ready || status == human_review)) [
            | inl e ↦ rw (n1, n2, n3, n4, n5, e) (refl, tt)
            | inr n6 ↦ rw (n1, n2, n3, n4, n5, n6) (refl, (refl, tt))
          ]
        ]
      ]
    ]
  ]
]

required_cases : (id : String) → (required_role id ≡ "") ⊎ (required_role id ≡ "admin")
unfolding required_role get_or lookup
required_cases id = elim (Bool-cases ("delete" == id)) [
  | inl e ↦ inr (rw (e, required_role, get_or, lookup) refl)
  | inr n ↦ inl (rw (n, required_role, get_or, lookup) refl)
]

reason_given : ◌≢◌ {A = String} ("requires role \"" ++ "admin" ++ "\"") ""
reason_given = ne_of_eq-false (unfold ◌==◌ in refl)

apply_to-ident : (role : String) (a : AvailableAction) → (apply_to role a).ident ≡ a.ident
unfolding apply_to
apply_to-ident role a = elim (Bool-cases (role_satisfies role (required_role a.ident))) [
  | inl allowed ↦ rw (allowed, apply_to) refl
  | inr refused ↦ rw (refused, apply_to) refl
]

refused-admin :
    (role id : String) → role_satisfies role (required_role id) ≡ false → required_role id ≡ "admin"
unfolding role_satisfies
refused-admin role id refused = elim (required_cases id) [
  | inr admin ↦ admin
  | inl free ↦ absurd (satisfied (rw (free, role_satisfies, eq_self "") at refused))
]
  where
    satisfied : true ≡ false → ⊥
    satisfied e = cc e

reason_shown :
    (role : String) (a : AvailableAction)
    → role_satisfies role (required_role a.ident) ≡ false
    → (apply_to role a).disabled_reason ≢ ""
unfolding apply_to
reason_shown role a refused e =
    let shown : ("requires role \"" ++ required_role a.ident ++ "\"") ≡ "" =
      rw (refused, apply_to) at e in
    reason_given (rw (refused-admin role a.ident refused) at shown)

applied-shown :
    (role : String) (a : AvailableAction)
    → IsPlain a
    → ((apply_to role a).disabled_reason ≡ "")
      ↔ (role_satisfies role (required_role (apply_to role a).ident) ≡ true)
applied-shown role a plain =
    rw (apply_to-ident role a) (elim (Bool-cases (role_satisfies role (required_role a.ident))) [
      | inl allowed ↦ ((λ _. allowed), (λ _. unfold apply_to in rw (allowed, apply_to) plain))
      | inr refused ↦
          ((λ e. absurd (reason_shown role a refused e)), (λ h. absurd (cc (sym h ∙ refused))))
    ])

-- The list of actions that a caller is shown for a status leaves the reason to disable an action
-- empty exactly for the actions that the caller's role may perform, by the test that `Dispatch`
-- makes.
pub policy_shown :
    (status role : String)
    → All
        (λ a. (a.disabled_reason ≡ "") ↔ (role_satisfies role (required_role a.ident) ≡ true))
        (apply_action_policy (compute_available_actions status) role)
unfolding apply_action_policy
policy_shown status role = shown (compute_available_actions status) (offered-IsPlain status)
  where
    shown :
        (actions : List AvailableAction)
        → All IsPlain actions
        → All
            (λ a. (a.disabled_reason ≡ "") ↔ (role_satisfies role (required_role a.ident) ≡ true))
            (map (apply_to role) actions)
    shown [] h = tt
    shown (a ∷ rest) h = (applied-shown role a h.0, shown rest h.1)
